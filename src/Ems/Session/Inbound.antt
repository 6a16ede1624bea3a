-- ===== src/Ems/Session/Inbound.antt =====
-- What `Session.receive` does with one message, whatever its bytes are.
use treble_tracker.Prelude.{
  ◌+◌, ◌≤◌, ◌≡◌, ◌≢◌, ◌⊎◌, inl, inr, none, some, some_or, Option, [], ◌∷◌, if◌then◌else◌, Bool,
  true, arith, Result, ok, err, bytes_eqb_iff, Option-cases,
}
use treble_tracker.Prelude.Int.{ℤ, pos, ◌<ℤ◌}
use treble_tracker.Prelude.Bytes.{Bytes}
use treble_tracker.Prelude.Bytes.Number.{parse_int}
use treble_tracker.Prelude.Bytes.Utf8.{is_utf8}
use treble_tracker.Ems.Simplefix.{Simplefix}
use treble_tracker.Ems.Session.{
  Session, SessionError, sequence_gap, value_error, value, sequence_reset_type, logon_type,
  verify_checksum, type_of, number_of, new_seq_no, gap_fill_flag, is_yes, apply_sequence_reset,
  accept_next, receive,
}

module _ {M : Type 0} (fix : Simplefix M) where
  -- `NewSeqNo` as a number, and whether `GapFillFlag` says yes.
  abbrev pub named_target : M → Option ℤ
  named_target m = elim (fix.get m new_seq_no) [ none ↦ none | some text ↦ parse_int text ]

  abbrev pub fills_gap : M → Bool
  fills_gap m = is_yes fix (some_or (fix.get m gap_fill_flag) (b'N' ∷ []))

  -- How the inbound counter may move: not at all; by one, past the message that carries the expected
  -- number; or by a SequenceReset that carries the expected number, to the number that it names and
  -- never back. What a reset with a gap fill skips was sent again and is not counted; all that one
  -- without skips is counted as discarded. Nothing else is.
  abbrev pub Accounted : Session → Result SessionError M × Session → Type 0
  Accounted s (err e, t) = (t.inbound_seq ≡ s.inbound_seq) × (t.discarded ≡ s.discarded)
  Accounted s (ok m, t) =
      ((t.inbound_seq ≡ s.inbound_seq) × (t.discarded ≡ s.discarded))
      ⊎ ((number_of fix m ≡ some (pos s.inbound_seq))
          × (type_of fix m ≢ value sequence_reset_type)
          × (t.inbound_seq ≡ s.inbound_seq + 1)
          × (t.discarded ≡ s.discarded))
      ⊎ ((number_of fix m ≡ some (pos s.inbound_seq))
          × (type_of fix m ≡ value sequence_reset_type)
          × (named_target m ≡ some (pos t.inbound_seq))
          × (s.inbound_seq ≤ t.inbound_seq)
          × (t.discarded + (if fills_gap m then 0 else s.inbound_seq)
              ≡ s.discarded + (if fills_gap m then 0 else t.inbound_seq)))

  reset-Accounted :
      (m : M) (s : Session)
      → number_of fix m ≡ some (pos s.inbound_seq)
      → type_of fix m ≡ value sequence_reset_type
      → Accounted s (apply_sequence_reset fix m s)
  unfolding apply_sequence_reset
  reset-Accounted m s n t = ground arith

  next-Accounted :
      (require_logon : Bool) (m : M) (s : Session)
      → number_of fix m ≡ some (pos s.inbound_seq)
      → Accounted s (accept_next fix require_logon m s)
  unfolding accept_next
  next-Accounted require_logon m s n =
      ground
        (arith, reset-Accounted m s n, bytes_eqb_iff (type_of fix m) (value sequence_reset_type))

  -- Whatever bytes arrive, `receive` moves the inbound counter only as `Accounted` says. In
  -- particular a message that is refused, repeated or ahead of the counter does not move it.
  pub receive-Accounted :
      (require_logon : Bool) (raw : Bytes) (s : Session)
      → Accounted s (receive fix require_logon raw s)
  unfolding receive
  receive-Accounted require_logon raw s = elim (Option-cases (fix.get_message raw)) [
    | inl e ↦ ground (arith, e)
    | inr (m, e) ↦ elim (Option-cases (number_of fix m)) [
      | inl f ↦ ground (arith, e, f)
      | inr (received, f) ↦ ground (arith, e, f, next-Accounted require_logon m s)
    ]
  ]

  -- What a refusal leaves behind: everything but, after a Logon whose interval is no number,
  -- the logon mark.
  abbrev pub Refuses : Session → Result SessionError M × Session → Type 0
  Refuses s (ok m, t) = Unit
  Refuses s (err value_error, t) = (t ≡ s) ⊎ (t ≡ record s { logged_on = true })
  Refuses s (err _, t) = t ≡ s

  next-Refuses :
      (require_logon : Bool) (m : M) (s : Session) → Refuses s (accept_next fix require_logon m s)
  unfolding accept_next
  next-Refuses require_logon m s = ground arith

  -- A message that `receive` refuses leaves the session as it was, whichever error it raises, except
  -- that a `ValueError` may have marked the session as logged on.
  pub receive-Refuses :
      (require_logon : Bool) (raw : Bytes) (s : Session)
      → Refuses s (receive fix require_logon raw s)
  unfolding receive
  receive-Refuses require_logon raw s = elim (Option-cases (fix.get_message raw)) [
    | inl e ↦ ground (arith, e)
    | inr (m, e) ↦ ground (arith, e, next-Refuses require_logon m s)
  ]

  -- `raw` is a message that `simplefix` reads as `m`, with the sequence number `n`.
  pub record Carries (raw : Bytes) (n : ℤ) (m : M) : Type 0 where
    pub sealed : verify_checksum raw ≡ ok tt
    pub read : fix.get_message raw ≡ some m
    pub numbered : number_of fix m ≡ some n
    pub decodes : is_utf8 (type_of fix m) ≡ true

  -- A message ahead of the counter is a gap: `receive` raises the error with both numbers and leaves
  -- the session as it was.
  pub receive-gap :
      (require_logon : Bool) (raw : Bytes) (n : ℤ) (m : M) (s : Session)
      → Carries raw n m
      → pos s.inbound_seq <ℤ n
      → receive fix require_logon raw s ≡ (err (sequence_gap s.inbound_seq n), s)
  unfolding receive
  receive-gap require_logon raw n m s c h = ground arith

  next-same :
      (require_logon : Bool) (m m' : M) (s : Session)
      → (accept_next fix require_logon m s).0 ≡ ok m'
      → m ≡ m'
  unfolding accept_next
  next-same require_logon m m' s h = ground arith

  -- What `receive` returns is the message that was read from the bytes.
  pub receive_reads :
      (require_logon : Bool) (raw : Bytes) (m : M) (s : Session)
      → (receive fix require_logon raw s).0 ≡ ok m
      → fix.get_message raw ≡ some m
  unfolding receive
  receive_reads require_logon raw m s h = elim (Option-cases (fix.get_message raw)) [
    | inl e ↦ ground (arith, e)
    | inr (m', e) ↦ ground (arith, e, next-same require_logon m' m s)
  ]

  -- A message of the application, or of the session but neither Logon nor SequenceReset.
  pub record IsPlain (m : M) : Type 0 where
    pub no_reset : type_of fix m ≢ value sequence_reset_type
    pub no_logon : type_of fix m ≢ value logon_type

  pub receive-next :
      (require_logon : Bool) (raw : Bytes) (m : M) (s : Session)
      → Carries raw (pos s.inbound_seq) m
      → IsPlain m
      → s.logged_on ≡ true
      → receive fix require_logon raw s ≡ (ok m, record s { inbound_seq = s.inbound_seq + 1 })
  unfolding receive accept_next
  receive-next require_logon raw m s c p on = ground (
    arith,
    bytes_eqb_iff (type_of fix m) (value sequence_reset_type),
    bytes_eqb_iff (type_of fix m) (value logon_type),
  )
