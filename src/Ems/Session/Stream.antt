-- ===== src/Ems/Session/Stream.antt =====
-- A stream of inbound messages: in order, once each, and recovered after a loss by a resend.
use treble_tracker.Prelude.{
  ℕ, suc, ◌+◌, ◌<◌, ◌≡◌, ◌≢◌, refl, ◌⊎◌, inl, inr, List, [], ◌∷◌, ◌++◌, Option, none, some, true,
  arith, Result, ok, err, length, All, nat_eqb, if◌then◌else◌, sym, subst, ◌∙◌, ap, Result-cases,
  Option-cases, Bool-cases,
}
use native.Mathlib.Nat.{add-zero}
use treble_tracker.Prelude.Int.{ℤ, pos, eq_of_parts, ◌<ℤ◌}
use treble_tracker.Prelude.Bytes.{Bytes}
use treble_tracker.Prelude.Bytes.Utf8.{is_utf8}
use treble_tracker.Ems.Simplefix.{Simplefix}
use treble_tracker.Ems.Session.{
  Session, SessionError, verify_checksum, value, sequence_reset_type, type_of, number_of, receive,
}
use treble_tracker.Ems.Session.Inbound.{
  Accounted, receive-Accounted, Carries, IsPlain, receive-next, receive-gap, receive_reads,
}

-- A number is the next one, ahead of it or behind it.
against : (z : ℤ) (n : ℕ) → (z ≡ pos n) ⊎ (pos n <ℤ z) ⊎ (z <ℤ pos n)
against z n = ground (arith, eq_of_parts z (pos n))

some_same {ℓ} : {A : Type ℓ} {x y : A} → some x ≡ some y → x ≡ y
some_same h = cc

not_some {ℓ} : {A : Type ℓ} {x : A} → ¬ ◌≡◌ {A = Option A} none (some x)
not_some h = cc

not_both {ℓ κ} : {E : Type ℓ} {A : Type κ} {e : E} {a : A} → ¬ ◌≡◌ {A = Result E A} (err e) (ok a)
not_both h = cc

next_length : (n k : ℕ) → n + 1 + k ≡ n + suc k
next_length n k = omega arith

module _ {M : Type 0} (fix : Simplefix M) where
  -- The session after a stream, each message handed to `receive` and each error caught.
  abbrev pub run : List Bytes → Session → Session
  run [] s = s
  run (raw ∷ raws) s = run raws (receive fix true raw s).1

  -- The messages that moved the counter.
  abbrev pub taken : Session → Result SessionError M × Session → List M
  taken s (err e, t) = []
  taken s (ok m, t) = if nat_eqb t.inbound_seq s.inbound_seq then [] else m ∷ []

  abbrev pub delivered : List Bytes → Session → List M
  delivered [] s = []
  delivered (raw ∷ raws) s =
      taken s (receive fix true raw s) ++ delivered raws (receive fix true raw s).1

  abbrev pub NumbersFrom : ℕ → List M → Type 0
  NumbersFrom n [] = Unit
  NumbersFrom n (m ∷ ms) = (number_of fix m ≡ some (pos n)) × NumbersFrom (n + 1) ms

  abbrev pub IsNoReset : Bytes → Type 0
  IsNoReset raw = (m : M) → fix.get_message raw ≡ some m → type_of fix m ≢ value sequence_reset_type

  taken_once :
      (raw : Bytes) (s : Session) (r : Result SessionError M × Session)
      → IsNoReset raw
      → ((m : M) → r.0 ≡ ok m → fix.get_message raw ≡ some m)
      → Accounted fix s r
      → ((taken s r ≡ []) × (r.1.inbound_seq ≡ s.inbound_seq))
        ⊎ ((m : M) × (taken s r ≡ m ∷ [])
            × (number_of fix m ≡ some (pos s.inbound_seq))
            × (r.1.inbound_seq ≡ s.inbound_seq + 1))
  taken_once raw s (err e, t) plain reads a = inl (refl, a.0)
  taken_once raw s (ok m, t) plain reads (inl a) = inl (ground arith, a.0)
  taken_once raw s (ok m, t) plain reads (inr (inl a)) = inr (m, ground arith, a.0, a.2)
  taken_once raw s (ok m, t) plain reads (inr (inr a)) = absurd (plain m (reads m refl) a.1)

  -- What moves the counter is numbered from it on, without a gap or a repeat.
  delivered_in_order :
      (raws : List Bytes) (s : Session)
      → All IsNoReset raws
      → NumbersFrom s.inbound_seq (delivered raws s)
        × ((run raws s).inbound_seq ≡ s.inbound_seq + length (delivered raws s))
  delivered_in_order [] s h = (tt, omega arith)
  delivered_in_order (raw ∷ raws) s h =
      let t = (receive fix true raw s).1 in
      let rest = delivered_in_order raws t h.1 in
      elim (taken_once raw s (receive fix true raw s) h.0 (λ m e. receive_reads fix true raw m s e)
        (receive-Accounted fix true raw s)) [
          | inl (e, f) ↦
              rw e
                (subst (λ k. NumbersFrom k (delivered raws t)) f rest.0, omega (arith, rest.1, f))
          | inr (m, e, n, f) ↦ rw e (
            (n, subst (λ k. NumbersFrom k (delivered raws t)) f rest.0),
            omega (arith, rest.1, f),
          )
        ]

  taken_next :
      (m : M) (s : Session) → taken s (ok m, record s { inbound_seq = s.inbound_seq + 1 }) ≡ m ∷ []
  taken_next m s = ground arith

  taken_none : (r : Result SessionError M × Session) (s : Session) → r.1 ≡ s → taken s r ≡ []
  taken_none (err e, t) s h = refl
  taken_none (ok m, t) s h = ground (arith, ap (λ u. u.inbound_seq) h)

  -- What is to be delivered of a stream, when the next number is `n`: a message that carries it, whole,
  -- is taken, and the number behind it is next; whatever carries it not is passed over.
  abbrev pub Delivers : ℕ → List Bytes → List M → Type 0
  Delivers n [] ms = ms ≡ []
  Delivers n (raw ∷ raws) ms =
      ((m : M) × (rest : List M) × Carries fix raw (pos n) m
        × (ms ≡ m ∷ rest)
        × Delivers (n + 1) raws rest)
      ⊎ (((m : M) → ¬ Carries fix raw (pos n) m) × Delivers n raws ms)

  -- Whatever the bytes are read as steers no session.
  abbrev pub ReadsPlain : Bytes → Type 0
  ReadsPlain raw = (m : M) → fix.get_message raw ≡ some m → IsPlain fix m

  moved :
      {raw : Bytes} {n : ℤ} {m k : M}
      → fix.get_message raw ≡ some m
      → Carries fix raw n k
      → Carries fix raw n m
  moved {raw} {n} e c = subst (Carries fix raw n) (some_same (sym c.read ∙ e)) c

  -- Either the bytes carry the next number, or `receive` leaves the session as it was.
  carried_or_kept :
      (raw : Bytes) (s : Session)
      → ((m : M) × Carries fix raw (pos s.inbound_seq) m)
        ⊎ (((m : M) → ¬ Carries fix raw (pos s.inbound_seq) m) × ((receive fix true raw s).1 ≡ s))
  unfolding receive
  carried_or_kept raw s = elim (Result-cases (verify_checksum raw)) [
    | inr e ↦ inr (λ m c. not_both (sym e.1 ∙ c.sealed), ground (arith, e.1))
    | inl sealed ↦ elim (Option-cases (fix.get_message raw)) [
      | inl e ↦ inr (λ m c. not_some (sym e ∙ c.read), ground (arith, e, sealed.1))
      | inr m ↦ elim (Option-cases (number_of fix m.0)) [
        | inl e ↦
            inr (λ k c. not_some (sym e ∙ (moved m.1 c).numbered), ground (arith, e, m.1, sealed.1))
        | inr n ↦ elim (Bool-cases (is_utf8 (type_of fix m.0))) [
          | inr bad ↦ inr (
            λ k c. ground (arith, bad, (moved m.1 c).decodes),
            ground (arith, bad, n.1, m.1, sealed.1),
          )
          | inl good ↦ elim (against n.0 s.inbound_seq) [
            | inl same ↦ inl (
              m.0,
              record {
                sealed = sealed.1;
                read = m.1;
                numbered = n.1 ∙ ap some same;
                decodes = good;
              },
            )
            | inr (inl ahead) ↦ inr (
              λ k c. ground (arith, ahead, some_same (sym n.1 ∙ (moved m.1 c).numbered)),
              ground (arith, ahead, good, n.1, m.1, sealed.1),
            )
            | inr (inr behind) ↦ inr (
              λ k c. ground (arith, behind, some_same (sym n.1 ∙ (moved m.1 c).numbered)),
              ground (arith, behind, good, n.1, m.1, sealed.1),
            )
          ]
        ]
      ]
    ]
  ]

  -- What is shown of a stream, when `receive` has returned `r` for its first message.
  abbrev Stands : Bytes → List Bytes → Session → Result SessionError M × Session → Type 0
  Stands raw raws s r =
      Delivers s.inbound_seq (raw ∷ raws) (taken s r ++ delivered raws r.1)
      × ((run raws r.1).inbound_seq ≡ s.inbound_seq + length (taken s r ++ delivered raws r.1))

  kept_Stands :
      (raw : Bytes) (raws : List Bytes) (s : Session) (r : Result SessionError M × Session)
      → ((m : M) → ¬ Carries fix raw (pos s.inbound_seq) m)
      → r.1 ≡ s
      → Delivers s.inbound_seq raws (delivered raws s)
        × ((run raws s).inbound_seq ≡ s.inbound_seq + length (delivered raws s))
      → Stands raw raws s r
  kept_Stands raw raws s r none_carried same rest =
      subst
        (λ ms.
          Delivers s.inbound_seq (raw ∷ raws) (ms ++ delivered raws r.1)
          × ((run raws r.1).inbound_seq ≡ s.inbound_seq + length (ms ++ delivered raws r.1)))
        (sym (taken_none r s same))
        (subst
          (λ t.
            Delivers s.inbound_seq (raw ∷ raws) (delivered raws t)
            × ((run raws t).inbound_seq ≡ s.inbound_seq + length (delivered raws t)))
          (sym same) (inr (none_carried, rest.0), rest.1))

  -- Of any stream at a session that is logged on, in which nothing is a Logon or a SequenceReset, with
  -- repeats, losses, corruption and any order: a message moves the counter exactly if it is whole and
  -- carries the number that is then next, so each number is taken once, in order, when it first comes
  -- in turn; and the counter ends behind the last.
  pub delivered_once :
      (raws : List Bytes) (s : Session)
      → s.logged_on ≡ true
      → All ReadsPlain raws
      → Delivers s.inbound_seq raws (delivered raws s)
        × ((run raws s).inbound_seq ≡ s.inbound_seq + length (delivered raws s))
  delivered_once [] s on h = (refl, omega arith)
  delivered_once (raw ∷ raws) s on h = elim (carried_or_kept raw s) [
    | inl c ↦
        let t = record s { inbound_seq = s.inbound_seq + 1 } in
        let e = receive-next fix true raw c.0 s c.1 (h.0 c.0 (c.1).read) on in
        let rest = delivered_once raws t on h.1 in
        subst (Stands raw raws s) (sym e) (
          subst
            (λ ms.
              Delivers s.inbound_seq (raw ∷ raws) (ms ++ delivered raws t)
              × ((run raws t).inbound_seq ≡ s.inbound_seq + length (ms ++ delivered raws t)))
            (sym (taken_next c.0 s))
            (inl (c.0, delivered raws t, c.1, refl, rest.0), omega (arith, rest.1)))
    | inr k ↦
        let rest = delivered_once raws s on h.1 in
        kept_Stands raw raws s (receive fix true raw s) k.0 k.1 rest
  ]

  -- The messages are numbered one after the other from `n`, and none of them steers the session.
  abbrev pub InOrder : ℕ → List Bytes → Type 0
  InOrder n [] = Unit
  InOrder n (raw ∷ raws) =
      ((m : M) × Carries fix raw (pos n) m × IsPlain fix m) × InOrder (n + 1) raws

  -- A stream in order is taken whole: a session that is logged on ends with its counter behind the
  -- last message and nothing else changed.
  pub run-InOrder :
      (raws : List Bytes) (s : Session)
      → s.logged_on ≡ true
      → InOrder s.inbound_seq raws
      → run raws s ≡ record s { inbound_seq = s.inbound_seq + length raws }
  run-InOrder [] s on h = λ i. record s { inbound_seq = sym (add-zero s.inbound_seq) i }
  run-InOrder (raw ∷ raws) s on ((m, c, p), h) = rw (receive-next fix true raw m s c p on) (
      run-InOrder raws (record s { inbound_seq = s.inbound_seq + 1 }) on h ∙ λ i. record s {
        inbound_seq = next_length s.inbound_seq (length raws) i;
      })

  run-append : (xs ys : List Bytes) (s : Session) → run (xs ++ ys) s ≡ run ys (run xs s)
  run-append [] ys s = refl
  run-append (x ∷ xs) ys s = run-append xs ys (receive fix true x s).1

  InOrder-append :
      (xs ys : List Bytes) (n : ℕ)
      → InOrder n (xs ++ ys)
      → InOrder n xs × InOrder (n + length xs) ys
  InOrder-append [] ys n h = (tt, subst (λ k. InOrder k ys) (sym (add-zero n)) h)
  InOrder-append (x ∷ xs) ys n (hx, h) =
      let (a, b) = InOrder-append xs ys (n + 1) h in
      ((hx, a), subst (λ k. InOrder k ys) (next_length n (length xs)) b)

  -- Messages that lie ahead of the counter change nothing.
  run_ahead :
      (raws : List Bytes) (n : ℕ) (s : Session)
      → InOrder n raws
      → s.inbound_seq < n
      → run raws s ≡ s
  run_ahead [] n s h lt = refl
  run_ahead (raw ∷ raws) n s ((m, c, p), h) lt =
      rw (receive-gap fix true raw (pos n) m s c (omega arith))
        (run_ahead raws (n + 1) s h (omega arith))

  -- A loss is recovered by a resend. Some messages are lost on the way and those behind them are
  -- refused as gaps; once the counterparty sends again from the first lost one, the session is the
  -- same as if nothing had been lost.
  pub resend_recovers :
      (before missing after : List Bytes) (s : Session)
      → s.logged_on ≡ true
      → 0 < length missing
      → InOrder s.inbound_seq (before ++ (missing ++ after))
      → run (before ++ (after ++ (missing ++ after))) s ≡ run (before ++ (missing ++ after)) s
  resend_recovers before missing after s on some_missing h =
      let (hb, rest) = InOrder-append before (missing ++ after) s.inbound_seq h in
      let (hm, ha) = InOrder-append missing after (s.inbound_seq + length before) rest in
      rw (
        run-append before (after ++ (missing ++ after)) s,
        run-append before (missing ++ after) s,
        run-append after (missing ++ after) (run before s),
        run-InOrder before s on hb,
        run_ahead after _ (record s { inbound_seq = s.inbound_seq + length before }) ha
            (omega arith),
      )
