-- ===== src/Plant/Broadcast/Reads.antt =====
-- What one subscriber reads: the whole stream, or an error that says it is not whole.
use treble_tracker.Prelude.{
  ℕ, ◌-◌, ◌≤◌, ◌≡◌, ◌≢◌, refl, sym, ap, ◌∙◌, subst, List, [], ◌∷◌, ◌++◌, append-nil, append_assoc,
  Option, none, some, false, arith, zero_or_not, Result, ok, err, nat_eq, nat_eqb, leb,
  if◌then◌else◌, Bool-cases, ◌⊎◌, inl, inr, length, length-append, map,
}
use treble_tracker.Plant.Deque.{push, last_of, last_of-all, push-last_of, push-room, length-drop}
use treble_tracker.Plant.Tick.{Tick}
use treble_tracker.Plant.Broadcast.{
  Subscription, SubscriberOverflow, fell_behind, new_subscription, offer, drain, next_batch, wait,
  is_waiting, arrives, meanwhile,
}

-- A subscriber's life while it is open: an update comes, or it reads without or with a wait.
pub data Turn (F : Type 0) : Type 0 where
  comes : Tick F → Turn F
  reads : Turn F
  awaits : List (Tick F) → Turn F

module _ {F : Type 0} where
  abbrev pub offers : List (Tick F) → Subscription F → Subscription F
  offers [] s = s
  offers (t ∷ ts) s = offers ts (offer t s)

  -- Open, and with no more in the queue than it holds.
  abbrev pub IsOpen : Subscription F → Type 0
  IsOpen s = (s.closed ≡ false) × (length s.queue ≤ s.maxsize)

  record Fresh (n : ℕ) (before : List (Tick F)) (s : Subscription F) : Type 0 where
    size : s.maxsize ≡ n
    live : s.closed ≡ false
    kept : s.queue ≡ last_of n before
    lost : s.dropped ≡ length before - n

  offer-Fresh :
      (n : ℕ) (before : List (Tick F)) (t : Tick F) (s : Subscription F)
      → Fresh n before s
      → Fresh n (before ++ t ∷ []) (offer t s)
  unfolding offer
  offer-Fresh n before t s h = rw h.live (record {
    size = h.size;
    live = refl;
    kept =
        ap (λ k. push k s.queue t) h.size ∙ ap (λ q. push n q t) h.kept ∙ push-last_of n before t;
    lost = ground (
      arith,
      h.size,
      h.lost,
      ap length h.kept,
      length-drop (length before - n) before,
      length-append before (t ∷ []),
    );
  })

  offers-Fresh :
      (n : ℕ) (before ts : List (Tick F)) (s : Subscription F)
      → Fresh n before s
      → Fresh n (before ++ ts) (offers ts s)
  offers-Fresh n before [] s h = rw append-nil h
  offers-Fresh n before (t ∷ ts) s h =
      subst (λ w. Fresh n w (offers ts (offer t s))) (append_assoc before (t ∷ []) ts)
        (offers-Fresh n (before ++ t ∷ []) ts (offer t s) (offer-Fresh n before t s h))

  drain-Fresh :
      (n : ℕ) (ts : List (Tick F)) (s : Subscription F)
      → Fresh n ts s
      → (drain s).0 ≡ (if leb (length ts) n then ok ts else err (fell_behind (length ts - n)))
  unfolding drain
  drain-Fresh n ts s h = ground (arith, h.lost, h.kept, last_of-all n ts)

  -- A first read returns every update in order where they are at most as many as the queue holds, and
  -- else fails with the number by which they are more.
  pub drain_all_or_error :
      (n : ℕ) (ts : List (Tick F))
      → (drain (offers ts (new_subscription n))).0
        ≡ (if leb (length ts) n then ok ts else err (fell_behind (length ts - n)))
  drain_all_or_error n ts = drain-Fresh n ts (offers ts (new_subscription n)) (
      offers-Fresh n [] ts (new_subscription n) (record {
        size = refl;
        live = refl;
        kept = sym (last_of-all n [] (omega arith));
        lost = omega arith;
      }))

  abbrev pub turn :
      Turn F → Subscription F → Result SubscriberOverflow (List (Tick F)) × Subscription F
  turn (comes t) s = (ok [], offer t s)
  turn reads s = drain s
  turn (awaits ts) s = next_batch (map arrives ts) s

  -- The updates that arrive in a turn. While a reader does not wait, it lets none in.
  abbrev pub arriving : Turn F → Subscription F → List (Tick F)
  arriving (comes t) s = t ∷ []
  arriving reads s = []
  arriving (awaits ts) s = if is_waiting s then ts else []

  abbrev pub arrived : List (Turn F) → Subscription F → List (Tick F)
  arrived [] s = []
  arrived (u ∷ us) s = arriving u s ++ arrived us (turn u s).1

  -- The subscription after all turns and what the reads returned together, if none failed.
  abbrev pub joined : List (Tick F) → Option (List (Tick F)) → Option (List (Tick F))
  joined xs none = none
  joined xs (some ys) = some (xs ++ ys)

  abbrev pub and_then :
      Result SubscriberOverflow (List (Tick F)) → Option (List (Tick F)) → Option (List (Tick F))
  and_then (err e) o = none
  and_then (ok xs) o = joined xs o

  abbrev pub read_all : List (Turn F) → Subscription F → Option (List (Tick F))
  read_all [] s = some []
  read_all (u ∷ us) s = and_then (turn u s).0 (read_all us (turn u s).1)

  abbrev pub turns : List (Turn F) → Subscription F → Subscription F
  turns [] s = s
  turns (u ∷ us) s = turns us (turn u s).1

  -- The queue has all that arrived, or the loss is counted.
  abbrev pub Gains : List (Tick F) → Subscription F → Subscription F → Type 0
  Gains ts s r = (r.dropped ≢ 0) ⊎ ((s.dropped ≡ 0) × (r.dropped ≡ 0) × (r.queue ≡ s.queue ++ ts))

  offer-IsOpen : (t : Tick F) (s : Subscription F) → IsOpen s → IsOpen (offer t s)
  unfolding offer
  offer-IsOpen t s h =
      rw h.0 (
        refl,
        ground (arith, h.1, length-append s.queue (t ∷ []), length-drop 1 (s.queue ++ t ∷ [])),
      )

  offer-Gains : (t : Tick F) (s : Subscription F) → IsOpen s → Gains (t ∷ []) s (offer t s)
  unfolding offer
  offer-Gains t s h = elim (zero_or_not s.dropped) [
    | inr lost ↦ inl (ground (arith, lost, h.0))
    | inl none_lost ↦ elim (Bool-cases (nat_eqb (length s.queue) s.maxsize)) [
      | inl full ↦ inl (ground (arith, full, h.0))
      | inr room ↦
          rw (h.0, room)
            (inr (none_lost, none_lost, push-room s.maxsize s.queue t (ground (arith, room, h.1))))
    ]
  ]

  Gains-trans :
      (xs ys : List (Tick F)) (s r q : Subscription F)
      → Gains xs s r
      → Gains ys r q
      → Gains (xs ++ ys) s q
  Gains-trans xs ys s r q a (inl lost) = inl lost
  Gains-trans xs ys s r q (inl lost) (inr b) = absurd (lost b.0)
  Gains-trans xs ys s r q (inr a) (inr b) =
      inr (a.0, b.1, b.2 ∙ ap (λ l. l ++ ys) a.2 ∙ append_assoc s.queue xs ys)

  offers-IsOpen : (ts : List (Tick F)) (s : Subscription F) → IsOpen s → IsOpen (offers ts s)
  offers-IsOpen [] s h = h
  offers-IsOpen (t ∷ ts) s h = offers-IsOpen ts (offer t s) (offer-IsOpen t s h)

  stays-Gains : (s : Subscription F) → Gains [] s s
  stays-Gains s = elim (zero_or_not s.dropped) [
    | inr lost ↦ inl lost
    | inl none_lost ↦ inr (none_lost, none_lost, sym (append-nil s.queue))
  ]

  offers-Gains : (ts : List (Tick F)) (s : Subscription F) → IsOpen s → Gains ts s (offers ts s)
  offers-Gains [] s h = stays-Gains s
  offers-Gains (t ∷ ts) s h =
      Gains-trans (t ∷ []) ts s (offer t s) (offers ts (offer t s)) (offer-Gains t s h)
        (offers-Gains ts (offer t s) (offer-IsOpen t s h))

  -- A read fails, or it returns what the queue gained.
  abbrev pub Turned :
      List (Tick F)
      → Subscription F
      → Result SubscriberOverflow (List (Tick F)) × Subscription F
      → Type 0
  Turned ts s r =
      ((e : SubscriberOverflow) × (r.0 ≡ err e))
      ⊎ ((xs : List (Tick F)) × (r.0 ≡ ok xs)
          × IsOpen r.1
          × ((r.1.dropped ≢ 0)
              ⊎ ((s.dropped ≡ 0) × (r.1.dropped ≡ 0) × (xs ++ r.1.queue ≡ s.queue ++ ts))))

  drain-Turned :
      (ts : List (Tick F)) (s r : Subscription F) → IsOpen r → Gains ts s r → Turned ts s (drain r)
  unfolding drain
  drain-Turned ts s r h (inl lost) = inl (fell_behind r.dropped, ground (arith, lost))
  drain-Turned ts s r h (inr g) =
      rw g.1 (inr (r.queue, refl, (h.0, omega arith), inr (g.0, refl, append-nil r.queue ∙ g.2)))

  wait-offers : (ts : List (Tick F)) (s : Subscription F) → wait (map arrives ts) s ≡ offers ts s
  unfolding wait meanwhile
  wait-offers [] s = refl
  wait-offers (t ∷ ts) s = wait-offers ts (offer t s)

  next_batch-drain :
      (ts : List (Tick F)) (s : Subscription F)
      → next_batch (map arrives ts) s ≡ drain (offers (if is_waiting s then ts else []) s)
  unfolding next_batch drain
  next_batch-drain ts s = elim (Bool-cases (is_waiting s)) [
    | inl w ↦ rw (w, wait-offers ts s) refl
    | inr b ↦ rw b refl
  ]

  turn-Turned : (u : Turn F) (s : Subscription F) → IsOpen s → Turned (arriving u s) s (turn u s)
  turn-Turned (comes t) s h = inr ([], refl, offer-IsOpen t s h, offer-Gains t s h)
  turn-Turned reads s h = drain-Turned [] s s h (stays-Gains s)
  turn-Turned (awaits ts) s h =
      let got = if is_waiting s then ts else [] in
      rw (next_batch-drain ts s)
        (drain-Turned got s (offers got s) (offers-IsOpen got s h) (offers-Gains got s h))

  joined-some :
      (xs out : List (Tick F)) (o : Option (List (Tick F)))
      → joined xs o ≡ some out
      → (ys : List (Tick F)) × (o ≡ some ys) × (out ≡ xs ++ ys)
  joined-some xs out none e = absurd (ground (arith, e))
  joined-some xs out (some ys) e = (ys, refl, ground (arith, e))

  read_on :
      (s r : Subscription F) (xs ys got more end out : List (Tick F))
      → (r.dropped ≢ 0) ⊎ ((s.dropped ≡ 0) × (r.dropped ≡ 0) × (xs ++ r.queue ≡ s.queue ++ got))
      → (r.dropped ≡ 0) × (ys ++ end ≡ r.queue ++ more)
      → out ≡ xs ++ ys
      → (s.dropped ≡ 0) × (out ++ end ≡ s.queue ++ (got ++ more))
  read_on s r xs ys got more end out (inl lost) rest e = absurd (lost rest.0)
  read_on s r xs ys got more end out (inr h) rest e = (
    h.0,
    ap (λ l. l ++ end) e
        ∙ append_assoc xs ys end
        ∙ ap (λ l. xs ++ l) rest.1
        ∙ sym (append_assoc xs r.queue more)
        ∙ ap (λ l. l ++ more) h.2
        ∙ append_assoc s.queue got more,
  )

  -- Over any turns of an open subscriber, if no read failed and no loss waits to be told, what the
  -- reads returned together with what is still in the queue is exactly, in order, what was in the
  -- queue before and what arrived since, and no loss waited before.
  pub reads_whole :
      (us : List (Turn F)) (s : Subscription F) (out : List (Tick F))
      → IsOpen s
      → read_all us s ≡ some out
      → (turns us s).dropped ≡ 0
      → (s.dropped ≡ 0) × (out ++ (turns us s).queue ≡ s.queue ++ arrived us s)
  reads_whole [] s out h e kept = (
    kept,
    ap (λ l. l ++ s.queue) {x = out} {y = []} (ground (arith, e)) ∙ sym (append-nil s.queue),
  )
  reads_whole (u ∷ us) s out h e kept = elim (turn-Turned u s h) [
    | inl failed ↦
        absurd (ground (arith, sym (ap (λ r. and_then r (read_all us (turn u s).1)) failed.1) ∙ e))
    | inr t ↦
        let j =
          joined-some t.0 out (read_all us (turn u s).1)
            (sym (ap (λ r. and_then r (read_all us (turn u s).1)) t.1) ∙ e) in
        read_on s (turn u s).1 t.0 j.0 (arriving u s) (arrived us (turn u s).1)
          (turns us (turn u s).1).queue out t.3 (reads_whole us (turn u s).1 j.0 t.2 j.1 kept) j.2
  ]
