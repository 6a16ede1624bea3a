-- ===== src/Ems/Session.antt =====
-- treble/ems/session.py: one FIX session's counters, what it sends and what it accepts.
pub mod Checksum
pub mod Inbound
pub mod Outbound
pub mod Stream
mod Examples
use treble_tracker.Prelude.{
  ℕ, zero, suc, ◌+◌, ◌-◌, ◌%◌, List, [], ◌∷◌, ◌++◌, Option, none, some, Bool, true, false, ◌&&◌,
  not, Result, ok, err, ◌==◌, bytes_eq, nat_eq, ltb, if◌then◌else◌, length, take, drop, some_or,
}
use treble_tracker.Prelude.Dict.{Dict, put}
use treble_tracker.Prelude.Int.{ℤ, pos, negsuc, pos_part, ltb_ℤ}
use treble_tracker.Prelude.Bytes.{Bytes}
use treble_tracker.Prelude.Bytes.Search.{rfind, rstrip}
use treble_tracker.Prelude.Bytes.Number.{parse_int, fixed_decimal}
use treble_tracker.Prelude.Bytes.Utf8.{is_utf8}
use treble_tracker.Ems.Simplefix.{Simplefix, FieldValue, text, number}
use treble_tracker.Ems.Moment.{Moment, utc_stamp}

-- The named field numbers.
abbrev pub begin_string : ℕ
begin_string = 8

abbrev pub msg_type : ℕ
msg_type = 35

abbrev pub seq_num : ℕ
seq_num = 34

abbrev pub sender_tag : ℕ
sender_tag = 49

abbrev pub sending_time : ℕ
sending_time = 52

abbrev pub target_tag : ℕ
target_tag = 56

abbrev pub encrypt_method : ℕ
encrypt_method = 98

abbrev pub heartbeat_interval : ℕ
heartbeat_interval = 108

abbrev pub test_req_id : ℕ
test_req_id = 112

abbrev pub begin_seq_no : ℕ
begin_seq_no = 7

abbrev pub end_seq_no : ℕ
end_seq_no = 16

abbrev pub gap_fill_flag : ℕ
gap_fill_flag = 123

abbrev pub new_seq_no : ℕ
new_seq_no = 36

abbrev pub default_heartbeat : ℕ
default_heartbeat = 30

-- "FIX.4.4"
abbrev pub begin_string_value : Bytes
begin_string_value = b'F' ∷ b'I' ∷ b'X' ∷ b'.' ∷ b'4' ∷ b'.' ∷ b'4' ∷ []

pub data MsgType : Type 0 where
  heartbeat_type test_request_type resend_request_type reject_type : MsgType
  sequence_reset_type logout_type logon_type : MsgType

-- `MsgType.value`
abbrev pub value : MsgType → Bytes
value heartbeat_type = b'0' ∷ []
value test_request_type = b'1' ∷ []
value resend_request_type = b'2' ∷ []
value reject_type = b'3' ∷ []
value sequence_reset_type = b'4' ∷ []
value logout_type = b'5' ∷ []
value logon_type = b'A' ∷ []

-- The exceptions of the module. `value_error` is Python's own, from `int` and `decode`.
pub data SessionError : Type 0 where
  not_logged_on : SessionError
  sequence_gap : ℕ → ℤ → SessionError
  checksum_error : SessionError
  sequence_reset_error : SessionError
  value_error : SessionError

pub record Session : Type 0 where
  pub sender : Bytes
  pub target : Bytes
  pub heartbeat_seconds : ℤ
  pub outbound_seq : ℕ
  pub inbound_seq : ℕ
  pub logged_on : Bool
  pub discarded : ℕ
  pub sent : Dict ℕ Bytes

-- `Session(sender=..., target=...)`
abbrev pub new_session : Bytes → Bytes → Session
new_session sender target = record {
  sender = sender;
  target = target;
  heartbeat_seconds = pos default_heartbeat;
  outbound_seq = 1;
  inbound_seq = 1;
  logged_on = false;
  discarded = 0;
  sent = [];
}

-- b"\x0110="
abbrev pub marker : Bytes
marker = 1 ∷ b'1' ∷ b'0' ∷ b'=' ∷ []

unfoldable pub sum : Bytes → ℕ
sum [] = 0
sum (b ∷ bs) = b + sum bs

-- The message of the error decodes what was stated, which raises where that is no UTF-8.
check_stated : Bytes → Bytes → Result SessionError (Unit {0})
check_stated stated expected =
    if stated == expected
    then ok tt
    else if is_utf8 stated
    then err checksum_error
    else err value_error

unfoldable pub verify_checksum : Bytes → Result SessionError (Unit {0})
unfolding check_stated
verify_checksum raw = elim (rfind marker raw) [
  | none ↦ err checksum_error
  | some index ↦
      check_stated (rstrip 1 (drop (index + length marker) raw))
        (fixed_decimal 3 (sum (take (index + 1) raw) % 256))
]

module _ {M : Type 0} (fix : Simplefix M) where
  -- `Session.encode`: the header, the caller's fields, the copy for a resend, and the next number.
  unfoldable pub encode : Bytes → List (ℕ × FieldValue) → Moment → Session → Bytes × Session
  encode type fields now s =
      let raw = fix.encode (
        (begin_string, text begin_string_value)
        ∷ (msg_type, text type)
        ∷ (seq_num, number (pos s.outbound_seq))
        ∷ (sender_tag, text s.sender)
        ∷ (target_tag, text s.target)
        ∷ (sending_time, text (utc_stamp now))
        ∷ fields) in
      (raw, record s { sent = put s.outbound_seq raw s.sent; outbound_seq = s.outbound_seq + 1 })

  unfoldable pub logon : Moment → Session → Bytes × Session
  logon now s =
      encode (value logon_type)
        ((encrypt_method, number (pos 0)) ∷ (heartbeat_interval, number s.heartbeat_seconds) ∷ [])
        now s

  -- An empty id is falsy, as a missing one is.
  abbrev echo_fields : Option Bytes → List (ℕ × FieldValue)
  echo_fields none = []
  echo_fields (some []) = []
  echo_fields (some (c ∷ cs)) = (test_req_id, text (c ∷ cs)) ∷ []

  unfoldable pub heartbeat : Moment → Option Bytes → Session → Bytes × Session
  heartbeat now id s = encode (value heartbeat_type) (echo_fields id) now s

  unfoldable pub resend_request : ℕ → ℕ → Moment → Session → Bytes × Session
  resend_request begin end now s =
      encode (value resend_request_type)
        ((begin_seq_no, number (pos begin)) ∷ (end_seq_no, number (pos end)) ∷ []) now s

  unfoldable pub sequence_reset : ℕ → Bool → Moment → Session → Bytes × Session
  sequence_reset new_seq gap_fill now s =
      encode (value sequence_reset_type)
        ((new_seq_no, number (pos new_seq))
          ∷ (gap_fill_flag, text (if gap_fill then b'Y' ∷ [] else b'N' ∷ []))
          ∷ [])
        now s

  -- `message.get(MSG_TYPE) or b""`
  abbrev pub type_of : M → Bytes
  type_of m = some_or (fix.get m msg_type) []

  -- `int(message.get(SEQ_NUM) or 0)`: a missing number and an empty one are 0.
  abbrev int_or_zero : Option Bytes → Option ℤ
  int_or_zero none = some (pos 0)
  int_or_zero (some []) = some (pos 0)
  int_or_zero (some (c ∷ cs)) = parse_int (c ∷ cs)

  abbrev pub number_of : M → Option ℤ
  number_of m = int_or_zero (fix.get m seq_num)

  -- `.upper() == "Y"`
  abbrev pub is_yes : Bytes → Bool
  is_yes flag = if flag == (b'Y' ∷ []) then true else flag == (b'y' ∷ [])

  move_inbound : ℤ → Bool → M → Session → Result SessionError M × Session
  move_inbound (negsuc n) gap_fill m s = (err sequence_reset_error, s)
  move_inbound (pos n) gap_fill m s =
      if ltb n s.inbound_seq then (err sequence_reset_error, s) else (
        ok m,
        record s {
          discarded =
              if not gap_fill && ltb s.inbound_seq n
              then s.discarded + (n - s.inbound_seq)
              else s.discarded;
          inbound_seq = n;
        },
      )

  -- `_apply_sequence_reset`
  apply_sequence_reset : M → Session → Result SessionError M × Session
  unfolding move_inbound
  apply_sequence_reset m s = elim (fix.get m new_seq_no) [
    | none ↦ (err sequence_reset_error, s)
    | some new_seq ↦ elim (parse_int new_seq) [
      | none ↦ (err value_error, s)
      | some target ↦
          let flag = some_or (fix.get m gap_fill_flag) (b'N' ∷ []) in
          if is_utf8 flag then move_inbound target (is_yes flag) m s else (err value_error, s)
    ]
  ]

  abbrev advance : Session → Session
  advance s = record s { inbound_seq = s.inbound_seq + 1 }

  -- A Logon marks the session before its interval is read.
  accept_logon : M → Session → Result SessionError M × Session
  accept_logon m s =
      let on = record s { logged_on = true } in
      elim (fix.get m heartbeat_interval) [
        | none ↦ (ok m, advance on)
        | some negotiated ↦ elim (parse_int negotiated) [
          | none ↦ (err value_error, on)
          | some seconds ↦ (ok m, advance (record on { heartbeat_seconds = seconds }))
        ]
      ]

  -- The message that is next in order.
  unfoldable pub accept_next : Bool → M → Session → Result SessionError M × Session
  unfolding apply_sequence_reset accept_logon
  accept_next require_logon m s =
      if type_of m == value sequence_reset_type
      then apply_sequence_reset m s
      else if type_of m == value logon_type
      then accept_logon m s
      else if require_logon && not s.logged_on
      then (err not_logged_on, s)
      else (ok m, advance s)

  -- A number ahead is a gap, and one behind is a repeat that changes nothing.
  accept_numbered : Bool → ℤ → M → Session → Result SessionError M × Session
  accept_numbered require_logon received m s =
      if ltb_ℤ (pos s.inbound_seq) received
      then (err (sequence_gap s.inbound_seq received), s)
      else if ltb_ℤ received (pos s.inbound_seq)
      then (ok m, s)
      else accept_next require_logon m s

  accept_parsed : Bool → M → Session → Result SessionError M × Session
  unfolding accept_numbered
  accept_parsed require_logon m s = elim (number_of m) [
    | none ↦ (err value_error, s)
    | some received ↦
        if is_utf8 (type_of m)
        then accept_numbered require_logon received m s
        else (err value_error, s)
  ]

  accept_message : Bool → Option M → Session → Result SessionError M × Session
  unfolding accept_parsed
  accept_message require_logon none s = (err checksum_error, s)
  accept_message require_logon (some m) s = accept_parsed require_logon m s

  -- `Session.receive`
  unfoldable pub receive : Bool → Bytes → Session → Result SessionError M × Session
  unfolding accept_message
  receive require_logon raw s = elim (verify_checksum raw) [
    | err e ↦ (err e, s)
    | ok _ ↦ accept_message require_logon (fix.get_message raw) s
  ]
