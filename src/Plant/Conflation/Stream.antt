-- ===== src/Plant/Conflation/Stream.antt =====
-- The unconflated stream: every accepted tick in order, or an error that counts what is missing.
use treble_tracker.Prelude.{
  ℕ, ◌+◌, ◌-◌, ◌≤◌, ◌≡◌, ◌≢◌, refl, ap, ◌∙◌, subst, List, [], ◌∷◌, ◌++◌, append-nil, append_assoc,
  Option, none, some, Bool, true, false, arith, ok, err, bytes_eq, bytes_eqb_iff, nat_eqb, leb,
  if◌then◌else◌, length, length-append, drop, keep_if, zero_or_not, ◌==◌, Bool-cases, inl, inr,
  pair_eq,
}
use native.Mathlib.Numerals.{add-one}
use treble_tracker.Prelude.Dict.{get, get-put}
use treble_tracker.Prelude.Bytes.{Bytes}
use treble_tracker.Plant.Deque.{drop-append, drop_one, length-drop}
use treble_tracker.Plant.Tick.{Tick}
use treble_tracker.Plant.Conflation.{TickerPlant, new_plant, apply_tick, publish, tpipe, evicted}

module _ {F : Type 0} where
  -- The feed, each tick published and each error caught.
  abbrev pub publish_all : List (Tick F) → TickerPlant F → TickerPlant F
  publish_all [] p = p
  publish_all (t ∷ ts) p = publish_all ts (publish t p).1

  -- The first tick of an instrument, or the one numbered next.
  abbrev pub is_next : Option ℕ → Tick F → Bool
  is_next none t = true
  is_next (some last) t = nat_eqb t.sequence (last + 1)

  -- The ticks of a feed that are first or next when they arrive.
  abbrev pub accepted : List (Tick F) → TickerPlant F → List (Tick F)
  accepted [] p = []
  accepted (t ∷ ts) p =
      let rest = accepted ts (publish t p).1 in
      if is_next (get t.subject p.sequences) t then t ∷ rest else rest

  pub publish-is_next :
      (t : Tick F) (p : TickerPlant F)
      → (publish t p).1 ≡ (if is_next (get t.subject p.sequences) t then apply_tick t p else p)
  unfolding publish
  publish-is_next t p = ground arith

  pub publish-taken :
      (t : Tick F) (p : TickerPlant F)
      → is_next (get t.subject p.sequences) t ≡ true
      → (publish t p).1 ≡ apply_tick t p
  publish-taken t p next = publish-is_next t p ∙ ap (λ b. if b then apply_tick t p else p) next

  pub publish-refused :
      (t : Tick F) (p : TickerPlant F)
      → is_next (get t.subject p.sequences) t ≡ false
      → (publish t p).1 ≡ p
  publish-refused t p stale = publish-is_next t p ∙ ap (λ b. if b then apply_tick t p else p) stale

  -- The queue is what is left of the whole stream.
  pub record Holds (whole : List (Tick F)) (p : TickerPlant F) : Type 0 where
    pub rest : p.queue ≡ drop p.dropped whole
    pub counted : length whole ≡ p.dropped + length p.queue
    pub bounded : length p.queue ≤ p.maxlen
    pub full : p.dropped ≢ 0 → length p.queue ≡ p.maxlen

  apply-Holds :
      (t : Tick F) (whole : List (Tick F)) (p : TickerPlant F)
      → Holds whole p
      → Holds (whole ++ t ∷ []) (apply_tick t p)
  unfolding apply_tick
  apply-Holds t whole p h = record {
    rest = ground (
      arith,
      h.rest,
      h.counted,
      h.bounded,
      drop-append p.dropped whole (t ∷ []),
      drop_one p.dropped (whole ++ t ∷ []),
      ap (λ k. drop k (whole ++ t ∷ [])) (add-one p.dropped),
    );
    counted = ground (
      arith,
      h.counted,
      h.bounded,
      length-append whole (t ∷ []),
      length-append p.queue (t ∷ []),
      length-drop 1 (p.queue ++ t ∷ []),
    );
    bounded =
        ground
          (arith, h.bounded, length-append p.queue (t ∷ []), length-drop 1 (p.queue ++ t ∷ []));
    full = ground (
      arith,
      h.bounded,
      h.full,
      length-append p.queue (t ∷ []),
      length-drop 1 (p.queue ++ t ∷ []),
    );
  }

  publish_all-Holds :
      (ts whole : List (Tick F)) (p : TickerPlant F)
      → Holds whole p
      → Holds (whole ++ accepted ts p) (publish_all ts p)
  publish_all-Holds [] whole p h = rw append-nil h
  publish_all-Holds (t ∷ ts) whole p h = elim (Bool-cases (is_next (get t.subject p.sequences) t)) [
    | inl next ↦
        rw (next, publish-taken t p next)
          (subst (λ w. Holds w (publish_all ts (apply_tick t p)))
            (append_assoc whole (t ∷ []) (accepted ts (apply_tick t p)))
            (publish_all-Holds ts (whole ++ t ∷ []) (apply_tick t p) (apply-Holds t whole p h)))
    | inr stale ↦ rw (stale, publish-refused t p stale) (publish_all-Holds ts whole p h)
  ]

  publish-maxlen : (t : Tick F) (p : TickerPlant F) → (publish t p).1.maxlen ≡ p.maxlen
  unfolding publish apply_tick
  publish-maxlen t p = ground arith

  publish_all-maxlen :
      (ts : List (Tick F)) (p : TickerPlant F) → (publish_all ts p).maxlen ≡ p.maxlen
  publish_all-maxlen [] p = refl
  publish_all-maxlen (t ∷ ts) p = publish_all-maxlen ts (publish t p).1 ∙ publish-maxlen t p

  tpipe-Holds :
      (whole : List (Tick F)) (p : TickerPlant F) (n : ℕ)
      → Holds whole p
      → p.maxlen ≡ n
      → (tpipe p).0 ≡ (if leb (length whole) n then ok whole else err (evicted (length whole - n)))
  unfolding tpipe
  tpipe-Holds whole p n h e = elim (zero_or_not p.dropped) [
    | inl none_lost ↦
        ground (arith, h.counted, h.bounded, e, h.rest ∙ ap (λ k. drop k whole) none_lost)
    | inr lost ↦ ground (arith, h.counted, h.bounded, e, h.full lost)
  ]

  -- A consumer that reads a new plant's stream after any feed gets every accepted tick in order where
  -- they are at most as many as the buffer holds, and else an error with exactly the number of ticks
  -- by which they are more.
  pub tpipe_all_or_error :
      (n : ℕ) (ts : List (Tick F))
      → let whole = accepted ts (new_plant n) in
        (tpipe (publish_all ts (new_plant n))).0
        ≡ (if leb (length whole) n then ok whole else err (evicted (length whole - n)))
  tpipe_all_or_error n ts =
      tpipe-Holds (accepted ts (new_plant n)) (publish_all ts (new_plant n)) n
        (publish_all-Holds ts [] (new_plant n) (record {
          rest = refl;
          counted = refl;
          bounded = omega arith;
          full = λ h. absurd (h refl);
        }))
        (publish_all-maxlen ts (new_plant n))

  -- Each tick is numbered one after the tick before it.
  abbrev pub Consecutive : Option ℕ → List (Tick F) → Type 0
  Consecutive last [] = Unit
  Consecutive none (t ∷ ts) = Consecutive (some t.sequence) ts
  Consecutive (some k) (t ∷ ts) = (t.sequence ≡ k + 1) × Consecutive (some t.sequence) ts

  abbrev pub of_subject : Bytes → List (Tick F) → List (Tick F)
  of_subject subject = keep_if (λ t. t.subject == subject)

  Consecutive-taken :
      (o : Option ℕ) (t : Tick F) (rest : List (Tick F))
      → is_next o t ≡ true
      → Consecutive (some t.sequence) rest
      → Consecutive o (t ∷ rest)
  Consecutive-taken none t rest next h = h
  Consecutive-taken (some k) t rest next h = (ground (arith, next), h)

  gapless-next :
      (subject : Bytes) (t : Tick F) (p : TickerPlant F) (rest : List (Tick F))
      → is_next (get t.subject p.sequences) t ≡ true
      → Consecutive (get subject (apply_tick t p).sequences) (of_subject subject rest)
      → Consecutive (get subject p.sequences) (of_subject subject (t ∷ rest))
  unfolding apply_tick
  gapless-next subject t p rest next h = elim (Bool-cases (t.subject == subject)) [
    | inl same ↦ rw same (
        Consecutive-taken (get subject p.sequences) t (of_subject subject rest)
          (subst (λ s. is_next (get s p.sequences) t ≡ true)
            ((bytes_eqb_iff t.subject subject).0 same) next)
          (subst (λ o. Consecutive o (of_subject subject rest))
            (get-put t.subject subject t.sequence p.sequences
              ∙ ap (λ b. if b then some t.sequence else get subject p.sequences) same)
            h))
    | inr other ↦ rw other (
        subst (λ o. Consecutive o (of_subject subject rest))
          (get-put t.subject subject t.sequence p.sequences
            ∙ ap (λ b. if b then some t.sequence else get subject p.sequences) other)
          h)
  ]

  -- Of any feed, with repeats, losses and any order, the ticks that a plant takes of one instrument
  -- are numbered without a gap, from the one that it took last before.
  pub accepted_gapless :
      (subject : Bytes) (ts : List (Tick F)) (p : TickerPlant F)
      → Consecutive (get subject p.sequences) (of_subject subject (accepted ts p))
  accepted_gapless subject [] p =
      elim (get subject p.sequences) as (λ (o : Option ℕ). Consecutive o []) [
        | none ↦ tt
        | some k ↦ tt
      ]
  accepted_gapless subject (t ∷ ts) p = elim (Bool-cases (is_next (get t.subject p.sequences) t)) [
    | inl next ↦
        rw (next, publish-taken t p next)
          (gapless-next subject t p (accepted ts (apply_tick t p)) next
            (accepted_gapless subject ts (apply_tick t p)))
    | inr stale ↦ rw (stale, publish-refused t p stale) (accepted_gapless subject ts p)
  ]
