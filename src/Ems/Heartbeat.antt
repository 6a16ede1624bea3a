-- ===== src/Ems/Heartbeat.antt =====
-- treble/ems/heartbeat.py: the session clock, a decision over the times that it is given.
-- A time is a number of microseconds, and the interval a whole number of seconds, for which the
-- source's floats are exact; the margin of a fifth is then 200,000 microseconds a second.
pub mod Silence
mod Examples
use treble_tracker.Prelude.{
  ℕ, ◌+◌, ◌*◌, Option, none, some, Bool, true, false, ◌&&◌, not, leb, if◌then◌else◌, is_some,
}
use treble_tracker.Prelude.Int.{ℤ, pos, negsuc, ltb_ℤ, pos_part}
use treble_tracker.Prelude.Bytes.{Bytes}

pub data Liveness : Type 0 where
  idle send_heartbeat send_test_request disconnect : Liveness

pub record Monitor : Type 0 where
  pub interval : ℤ
  pub last_sent : ℕ
  pub last_received : ℕ
  pub outstanding : Option Bytes
  pub outstanding_at : Option ℕ

abbrev pub second : ℕ
second = 1_000_000

-- MARGIN, for one second
abbrev pub margin : ℕ
margin = 200_000

abbrev pub enabled : Monitor → Bool
enabled m = ltb_ℤ (pos 0) m.interval

abbrev pub interval_time : Monitor → ℕ
interval_time m = pos_part m.interval * second

-- `_silence_allowed`, read only where the monitor is enabled
abbrev pub silence_allowed : Monitor → ℕ
silence_allowed m = pos_part m.interval * (second + margin)

-- `now - since >= span`, also where `now` lies before `since`
abbrev elapsed : ℕ → ℕ → ℕ → Bool
elapsed now since span = leb (since + span) now

abbrev unanswered : Monitor → ℕ → Bool
unanswered m now = elim m.outstanding_at [
  | none ↦ false
  | some asked ↦ elapsed now asked (silence_allowed m)
]

unfoldable pub due : Monitor → ℕ → Liveness
due m now =
    if not (enabled m)
    then idle
    else if unanswered m now
    then disconnect
    else if not (is_some m.outstanding) && elapsed now m.last_received (silence_allowed m)
    then send_test_request
    else if elapsed now m.last_sent (interval_time m)
    then send_heartbeat
    else idle

unfoldable pub sent : Monitor → ℕ → Monitor
sent m now = record m { last_sent = now }

unfoldable pub received : Monitor → ℕ → Monitor
received m now = record m { last_received = now; outstanding = none; outstanding_at = none }

unfoldable pub test_request_sent : Monitor → Bytes → ℕ → Monitor
unfolding sent
test_request_sent m request_id now =
    sent (record m { outstanding = some request_id; outstanding_at = some now }) now

-- What `SimulatorServer._tick` (treble/ems/transport.py) records after one look at the clock.
unfoldable pub tick : (ℕ → Bytes) → Monitor → ℕ → Monitor
unfolding due sent test_request_sent
tick request_id m now = elim (due m now) [
  | idle ↦ m
  | disconnect ↦ m
  | send_test_request ↦ test_request_sent m (request_id now) now
  | send_heartbeat ↦ sent m now
]
