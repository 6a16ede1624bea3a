-- ===== src/Ems/Session/Outbound.antt =====
-- What `Session.encode` keeps for a resend: every message that was sent, under its number.
use treble_tracker.Prelude.{
  ℕ, ◌+◌, ◌≤◌, ◌<◌, ◌≡◌, refl, List, [], ◌∷◌, some, Bool, ◌&&◌, arith, ltb, leb, nat_eq, is_some,
  Option-cases, inl, inr,
}
use treble_tracker.Prelude.Dict.{get, get-put, get-put_self, get-put_ne}
use treble_tracker.Prelude.Bytes.{Bytes}
use treble_tracker.Ems.Simplefix.{Simplefix, FieldValue}
use treble_tracker.Ems.Moment.{Moment}
use treble_tracker.Ems.Session.{Session, new_session, encode, receive, accept_next}

-- The store holds the numbers from 1 up to the next one to send, and no other.
pub record IsComplete (s : Session) : Type 0 where
  pub positive : 1 ≤ s.outbound_seq
  pub held : (n : ℕ) → is_some (get n s.sent) ≡ (leb 1 n && ltb n s.outbound_seq)

pub new_session-IsComplete : (sender target : Bytes) → IsComplete (new_session sender target)
unfolding get
new_session-IsComplete sender target = record { positive = omega arith; held = λ n. ground arith }

module _ {M : Type 0} (fix : Simplefix M) where
  pub encode-IsComplete :
      (type : Bytes) (fields : List (ℕ × FieldValue)) (now : Moment) (s : Session)
      → IsComplete s
      → IsComplete (encode fix type fields now s).1
  unfolding encode
  encode-IsComplete type fields now s v = record {
    positive = omega arith;
    held = λ n. ground (
      arith,
      v.positive,
      v.held n,
      get-put s.outbound_seq n (encode fix type fields now s).0 s.sent,
    );
  }

  -- The message that was built is the one that a resend of its number will find, and what was sent
  -- under a lower number stays as it was.
  pub encode_keeps_sent :
      (type : Bytes) (fields : List (ℕ × FieldValue)) (now : Moment) (s : Session)
      → let (raw, t) = encode fix type fields now s in
        (get s.outbound_seq t.sent ≡ some raw)
        × (t.outbound_seq ≡ s.outbound_seq + 1)
        × ((n : ℕ) → n < s.outbound_seq → get n t.sent ≡ get n s.sent)
  unfolding encode
  encode_keeps_sent type fields now s =
      (get-put_self _ _ s.sent, refl, λ n h. get-put_ne _ n _ s.sent (λ e. absurd (omega arith)))

  next-keeps_sent :
      (require_logon : Bool) (m : M) (s : Session)
      → let t = (accept_next fix require_logon m s).1 in
        (t.sent ≡ s.sent) × (t.outbound_seq ≡ s.outbound_seq)
  unfolding accept_next
  next-keeps_sent require_logon m s = ground arith

  -- Receiving changes nothing of what was sent.
  pub receive-keeps_sent :
      (require_logon : Bool) (raw : Bytes) (s : Session)
      → let t = (receive fix require_logon raw s).1 in
        (t.sent ≡ s.sent) × (t.outbound_seq ≡ s.outbound_seq)
  unfolding receive
  receive-keeps_sent require_logon raw s = elim (Option-cases (fix.get_message raw)) [
    | inl e ↦ ground (arith, e)
    | inr (m, e) ↦ ground (arith, e, next-keeps_sent require_logon m s)
  ]

  -- What either side of the session may do, in any order. `builds` is every method that sends.
  pub data Event : Type 0 where
    builds : Bytes → List (ℕ × FieldValue) → Moment → Event
    hears : Bool → Bytes → Event

  abbrev pub step : Event → Session → Session
  step (builds type fields now) s = (encode fix type fields now s).1
  step (hears require_logon raw) s = (receive fix require_logon raw s).1

  abbrev pub history : List Event → Session → Session
  history [] s = s
  history (e ∷ es) s = history es (step e s)

  step-IsComplete : (e : Event) (s : Session) → IsComplete s → IsComplete (step e s)
  step-IsComplete (builds type fields now) s v = encode-IsComplete type fields now s v
  step-IsComplete (hears require_logon raw) s v =
      let (same, next) = receive-keeps_sent require_logon raw s in
      record { positive = rw next v.positive; held = λ n. rw (same, next) (v.held n) }

  history-keeps : (es : List Event) (s : Session) → IsComplete s → IsComplete (history es s)
  history-keeps [] s v = v
  history-keeps (e ∷ es) s v = history-keeps es (step e s) (step-IsComplete e s v)

  -- After any history of a new session, sends and receipts in any order, the resend store holds
  -- exactly the numbers from 1 up to the next one to send.
  pub history-IsComplete :
      (sender target : Bytes) (es : List Event)
      → IsComplete (history es (new_session sender target))
  history-IsComplete sender target es =
      history-keeps es (new_session sender target) (new_session-IsComplete sender target)
