-- ===== src/Ems/Simplefix.antt =====
-- The third-party `simplefix` package, as the operations that treble/ems calls. It is a parameter of
-- every module that uses it: `M` is its message type.
use treble_tracker.Prelude.{ℕ, List, Option}
use treble_tracker.Prelude.Bytes.{Bytes}
use treble_tracker.Prelude.Int.{ℤ}

-- What `append_pair` is given: a text or an `int`.
pub data FieldValue : Type 0 where
  text : Bytes → FieldValue
  number : ℤ → FieldValue

pub record Simplefix (M : Type 0) : Type 0 where
  -- `FixParser().append_buffer(raw)`, then `get_message()`
  pub get_message : Bytes → Option M
  -- `message.get(tag)`
  pub get : M → ℕ → Option Bytes
  -- `FixMessage()`, `append_pair` for each field, then `bytes(message.encode())`
  pub encode : List (ℕ × FieldValue) → Bytes
