-- ===== src/Plant/History/Window.antt =====
-- What a history holds after any feed: of each instrument the last ticks, up to the bound.
use treble_tracker.Prelude.{
  ℕ, ◌≡◌, refl, sym, ap, ◌∙◌, List, [], ◌∷◌, ◌++◌, append-nil, append_assoc, some, true, false,
  arith, ok, bytes_eq, bytes_eqb_iff, if◌then◌else◌, keep_if, ◌==◌, Bool-cases, inl, inr, some_or,
}
use treble_tracker.Prelude.Dict.{Dict, get, get-put}
use treble_tracker.Prelude.Bytes.{Bytes}
use treble_tracker.Plant.Deque.{push, last_of, last_of-all, push-last_of}
use treble_tracker.Plant.Tick.{Tick}
use treble_tracker.Plant.History.{TickHistory, new_history, ticks_of, record_tick}

module _ {F : Type 0} where
  abbrev pub record_all : List (Tick F) → TickHistory F → TickHistory F
  record_all [] h = h
  record_all (t ∷ ts) h = record_all ts (record_tick t h)

  abbrev pub ticks_in : Bytes → List (Tick F) → List (Tick F)
  ticks_in subject = keep_if (λ t. t.subject == subject)

  record-per_subject :
      (t : Tick F) (h : TickHistory F) → (record_tick t h).per_subject ≡ h.per_subject
  unfolding record_tick
  record-per_subject t h = refl

  record-ticks_of :
      (subject : Bytes) (t : Tick F) (h : TickHistory F)
      → ticks_of subject (record_tick t h) ≡ (
          if t.subject == subject
          then push h.per_subject (ticks_of t.subject h) t
          else ticks_of subject h)
  unfolding ticks_of record_tick
  record-ticks_of subject t h =
      ap (λ o. some_or o [])
        (get-put t.subject subject (push h.per_subject (ticks_of t.subject h) t) h.kept)
      ∙ elim (t.subject == subject)
          as (λ b.
            some_or
              (if b then some (push h.per_subject (ticks_of t.subject h) t) else get subject h.kept)
              []
            ≡ (if b then push h.per_subject (ticks_of t.subject h) t else ticks_of subject h)) [
              | true ↦ refl
              | false ↦ refl
            ]

  ticks_of-holds :
      (n : ℕ) (subject : Bytes) (ts before : List (Tick F)) (h : TickHistory F)
      → h.per_subject ≡ n
      → ticks_of subject h ≡ last_of n before
      → ticks_of subject (record_all ts h) ≡ last_of n (before ++ ticks_in subject ts)
  ticks_of-holds n subject [] before h size e = rw append-nil e
  ticks_of-holds n subject (t ∷ ts) before h size e = elim (Bool-cases (t.subject == subject)) [
    | inl same ↦ rw same (
        ticks_of-holds n subject ts (before ++ t ∷ []) (record_tick t h)
          (record-per_subject t h ∙ size)
          (record-ticks_of subject t h
            ∙ ap
                (λ b. if b then push h.per_subject (ticks_of t.subject h) t else ticks_of subject h)
                same
            ∙ ap (λ s. push h.per_subject (ticks_of s h) t)
                ((bytes_eqb_iff t.subject subject).0 same)
            ∙ ap (λ k. push k (ticks_of subject h) t) size
            ∙ ap (λ q. push n q t) e
            ∙ push-last_of n before t)
        ∙ ap (last_of n) (append_assoc before (t ∷ []) (ticks_in subject ts)))
    | inr other ↦ rw other (
        ticks_of-holds n subject ts before (record_tick t h) (record-per_subject t h ∙ size) (
          record-ticks_of subject t h
          ∙ ap (λ b. if b then push h.per_subject (ticks_of t.subject h) t else ticks_of subject h)
              other
          ∙ e))
  ]

  new_history-fields :
      (n : ℕ) (h : TickHistory F) → new_history n ≡ ok h → (h.per_subject ≡ n) × (h.kept ≡ [])
  unfolding new_history
  new_history-fields n h made = ground (arith, made)

  ticks_of-none : (subject : Bytes) (h : TickHistory F) → h.kept ≡ [] → ticks_of subject h ≡ []
  unfolding ticks_of get
  ticks_of-none subject h e = ap (λ (d : Dict Bytes (List (Tick F))). some_or (get subject d) []) e

  -- After any feed, a history holds of each instrument exactly its last ticks in order of arrival, all
  -- of them up to the bound.
  pub history_window :
      (n : ℕ) (subject : Bytes) (ts : List (Tick F)) (h : TickHistory F)
      → new_history n ≡ ok h
      → ticks_of subject (record_all ts h) ≡ last_of n (ticks_in subject ts)
  history_window n subject ts h made =
      let fields = new_history-fields n h made in
      ticks_of-holds n subject ts [] h fields.0
        (ticks_of-none subject h fields.1 ∙ sym (last_of-all n [] (omega arith)))
