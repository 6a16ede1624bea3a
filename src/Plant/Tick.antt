-- ===== src/Plant/Tick.antt =====
-- `class Tick` of treble/plant/conflation.py.
use treble_tracker.Prelude.{ℕ, Option}
use treble_tracker.Prelude.Bytes.{Bytes}

-- Sequence numbers are not negative, and a time is a number of microseconds.
pub record Tick (F : Type 0) : Type 0 where
  pub subject : Bytes
  pub field : Bytes
  pub value : F
  pub sequence : ℕ
  pub exchange_time : ℕ
  pub size : Option F
