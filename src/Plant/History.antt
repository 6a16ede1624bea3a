-- ===== src/Plant/History.antt =====
-- treble/plant/bars.py: `class TickHistory`, the ticks kept of each instrument.
pub mod Window
mod Examples
use treble_tracker.Prelude.{
  ℕ, zero, suc, ◌+◌, ◌≡◌, List, [], ◌∷◌, ◌++◌, Option, none, some, Bool, true, false, Result, ok,
  err, bytes_eq, if◌then◌else◌, length, map, nat_eqb, some_or,
}
use treble_tracker.Prelude.Dict.{Dict, get, put}
use treble_tracker.Prelude.Bytes.{Bytes}
use treble_tracker.Plant.Deque.{push}
use treble_tracker.Plant.Tick.{Tick}

-- The `ValueError` of a history that keeps nothing
pub data HistoryError : Type 0 where
  keeps_nothing : HistoryError

pub record TickHistory (F : Type 0) : Type 0 where
  pub per_subject : ℕ
  pub kept : Dict Bytes (List (Tick F))

module _ {F : Type 0} where
  unfoldable pub new_history : ℕ → Result HistoryError (TickHistory F)
  new_history per_subject =
      if nat_eqb per_subject 0
      then err keeps_nothing
      else ok (record { per_subject = per_subject; kept = [] })

  -- `ticks`
  unfoldable pub ticks_of : Bytes → TickHistory F → List (Tick F)
  ticks_of subject h = some_or (get subject h.kept) []

  unfoldable pub record_tick : Tick F → TickHistory F → TickHistory F
  unfolding ticks_of
  record_tick t h = record h {
    kept = put t.subject (push h.per_subject (ticks_of t.subject h) t) h.kept;
  }

  -- `__len__`
  unfoldable pub count : Dict Bytes (List (Tick F)) → ℕ
  count [] = 0
  count ((subject, bucket) ∷ d) = length bucket + count d
