-- ===== src/Ems/Session/Examples.antt =====
-- The theorems about the session at concrete messages.
use treble_tracker.Prelude.{
  sym, ◌∙◌, subst, ap, some_or, ◌<◌, ◌+◌, bytes_ne, length, nat_eq, ℕ, ◌≡◌, refl, List, [], ◌∷◌,
  ◌++◌, some, none, ok, err, true, arith,
}
use treble_tracker.Prelude.Dict.{get}
use treble_tracker.Prelude.Int.{pos}
use treble_tracker.Prelude.Bytes.{Bytes}
use treble_tracker.Prelude.Bytes.Search.{rfind, rstrip}
use treble_tracker.Prelude.Bytes.Number.{parse_int, fixed_decimal}
use treble_tracker.Prelude.Bytes.Utf8.{is_utf8}
use treble_tracker.Ems.Moment.{Moment, utc_stamp}
use treble_tracker.Ems.Wire.{wire}
use treble_tracker.Ems.Session.{
  Session, new_session, encode, receive, verify_checksum, sum, checksum_error, sequence_gap,
}
use treble_tracker.Ems.Session.Checksum.{trailer, verify-seal, corrupt_byte_found}
use treble_tracker.Ems.Session.Inbound.{
  Accounted, receive-Accounted, Refuses, receive-Refuses, Carries, IsPlain, receive-gap,
}
use treble_tracker.Ems.Session.Stream.{
  run, delivered, delivered_once, Delivers, ReadsPlain, run-InOrder, resend_recovers,
}
use treble_tracker.Ems.Session.Outbound.{
  IsComplete, Event, builds, hears, history, history-IsComplete, encode_keeps_sent,
}

abbrev noon : Moment
noon = record {
  year = 2026;
  month = 11;
  day = 26;
  hour = 12;
  minute = 0;
  second = 0;
  microsecond = 250000;
}

abbrev us : Bytes
us = b'U' ∷ b'S' ∷ []

abbrev venue : Bytes
venue = b'V' ∷ b'X' ∷ []

-- A venue that has logged on, and we, who wait for its number `n`.
abbrev peer : ℕ → Session
peer n = record (new_session venue us) { outbound_seq = n; logged_on = true }

abbrev client : ℕ → Session
client n = record (new_session us venue) { inbound_seq = n; logged_on = true }

-- The venue's execution report with the number `n`.
abbrev report : ℕ → Bytes
report n = (encode wire (b'8' ∷ []) [] noon (peer n)).0

abbrev parsed : ℕ → List (ℕ × Bytes)
parsed n = elim (wire.get_message (report n)) [ some m ↦ m | none ↦ [] ]

Carries-5 : Carries wire (report 5) (pos 5) (parsed 5)
unfolding encode wire utc_stamp verify_checksum rfind rstrip parse_int is_utf8
Carries-5 = record { sealed = refl; read = refl; numbered = refl; decodes = refl }

IsPlain-5 : IsPlain wire (parsed 5)
unfolding encode wire utc_stamp
IsPlain-5 = record { no_reset = bytes_ne _ _ refl; no_logon = bytes_ne _ _ refl }

Carries-6 : Carries wire (report 6) (pos 6) (parsed 6)
unfolding encode wire utc_stamp verify_checksum rfind rstrip parse_int is_utf8
Carries-6 = record { sealed = refl; read = refl; numbered = refl; decodes = refl }

IsPlain-6 : IsPlain wire (parsed 6)
unfolding encode wire utc_stamp
IsPlain-6 = record { no_reset = bytes_ne _ _ refl; no_logon = bytes_ne _ _ refl }

Carries-7 : Carries wire (report 7) (pos 7) (parsed 7)
unfolding encode wire utc_stamp verify_checksum rfind rstrip parse_int is_utf8
Carries-7 = record { sealed = refl; read = refl; numbered = refl; decodes = refl }

IsPlain-7 : IsPlain wire (parsed 7)
unfolding encode wire utc_stamp
IsPlain-7 = record { no_reset = bytes_ne _ _ refl; no_logon = bytes_ne _ _ refl }

corrupt_byte_found_example :
    verify_checksum (((b'8' ∷ b'=' ∷ []) ++ b'x' ∷ b'F' ∷ []) ++ trailer 53) ≡ err checksum_error
unfolding verify_checksum rfind rstrip fixed_decimal sum
corrupt_byte_found_example =
    corrupt_byte_found (b'8' ∷ b'=' ∷ []) (b'F' ∷ []) b'y' b'x' 53 (omega arith) (omega arith)
      (omega arith) (omega arith) refl

verify-seal_case : verify_checksum ((b'8' ∷ b'=' ∷ b'y' ∷ b'F' ∷ []) ++ trailer 53) ≡ ok tt
unfolding sum
verify-seal_case = verify-seal (b'8' ∷ b'=' ∷ b'y' ∷ b'F' ∷ []) 53 (omega arith)

receive-Accounted_example : Accounted wire (client 5) (receive wire true (report 5) (client 5))
receive-Accounted_example = receive-Accounted wire true (report 5) (client 5)

receive-Refuses_example : Refuses wire (client 4) (receive wire true (report 5) (client 4))
receive-Refuses_example = receive-Refuses wire true (report 5) (client 4)

receive-gap_case :
    receive wire true (report 5) (client 4) ≡ (err (sequence_gap 4 (pos 5)), client 4)
receive-gap_case =
    receive-gap wire true (report 5) (pos 5) (parsed 5) (client 4) Carries-5 (omega arith)

plain_report :
    (n : ℕ) (q : List (ℕ × Bytes))
    → wire.get_message (report n) ≡ some q
    → IsPlain wire q
    → ReadsPlain wire (report n)
plain_report n q e p m f = subst (IsPlain wire) (ap (λ o. some_or o q) (sym e ∙ f)) p

delivered_once_example :
    Delivers wire 5
      (report 6 ∷ report 5 ∷ report 5 ∷ report 6 ∷ [])
      (delivered wire (report 6 ∷ report 5 ∷ report 5 ∷ report 6 ∷ []) (client 5))
    × ((run wire (report 6 ∷ report 5 ∷ report 5 ∷ report 6 ∷ []) (client 5)).inbound_seq
        ≡ 5 + length (delivered wire (report 6 ∷ report 5 ∷ report 5 ∷ report 6 ∷ []) (client 5)))
delivered_once_example =
    delivered_once wire (report 6 ∷ report 5 ∷ report 5 ∷ report 6 ∷ []) (client 5) refl (
      plain_report 6 _ Carries-6.read IsPlain-6,
      (
        plain_report 5 _ Carries-5.read IsPlain-5,
        (
          plain_report 5 _ Carries-5.read IsPlain-5,
          (plain_report 6 _ Carries-6.read IsPlain-6, tt),
        ),
      ),
    )

run-InOrder_case : run wire (report 5 ∷ report 6 ∷ report 7 ∷ []) (client 5) ≡ client 8
run-InOrder_case = run-InOrder wire (report 5 ∷ report 6 ∷ report 7 ∷ []) (client 5) refl (
  (parsed 5, Carries-5, IsPlain-5),
  ((parsed 6, Carries-6, IsPlain-6), ((parsed 7, Carries-7, IsPlain-7), tt)),
)

resend_recovers_example :
    run wire (report 5 ∷ report 7 ∷ report 6 ∷ report 7 ∷ []) (client 5)
    ≡ run wire (report 5 ∷ report 6 ∷ report 7 ∷ []) (client 5)
resend_recovers_example =
    resend_recovers wire (report 5 ∷ []) (report 6 ∷ []) (report 7 ∷ []) (client 5) refl
      (omega arith)
      (
        (parsed 5, Carries-5, IsPlain-5),
        ((parsed 6, Carries-6, IsPlain-6), ((parsed 7, Carries-7, IsPlain-7), tt)),
      )

abbrev conversation : List (Event wire)
conversation = builds (b'D' ∷ []) [] noon ∷ hears true (report 1) ∷ builds (b'F' ∷ []) [] noon ∷ []

history-IsComplete_example : IsComplete (history wire conversation (new_session us venue))
history-IsComplete_example = history-IsComplete wire us venue conversation

encode_keeps_sent_case :
    let (raw, t) = encode wire (b'D' ∷ []) [] noon (client 1) in
    (get 1 t.sent ≡ some raw)
    × (t.outbound_seq ≡ 2)
    × ((n : ℕ) → n < 1 → get n t.sent ≡ get n (client 1).sent)
encode_keeps_sent_case = encode_keeps_sent wire (b'D' ∷ []) [] noon (client 1)
