-- ===== src/Plant/History/Examples.antt =====
-- A run of a history that keeps two ticks of each instrument.
use treble_tracker.Prelude.{ℕ, ◌≡◌, refl, List, [], ◌∷◌, none, bytes_eq, ok}
use treble_tracker.Prelude.Dict.{get, put}
use treble_tracker.Plant.Tick.{Tick}
use treble_tracker.Plant.History.{TickHistory, new_history, ticks_of, record_tick, count}
use treble_tracker.Plant.History.Window.{record_all, history_window}

abbrev print : ℕ → ℕ → Tick ℕ
print subject sequence = record {
  subject = subject ∷ [];
  field = 7 ∷ [];
  value = 1;
  sequence = sequence;
  exchange_time = 0;
  size = none;
}

abbrev prints : List (Tick ℕ)
prints = print 2 1 ∷ print 1 1 ∷ print 2 2 ∷ print 2 3 ∷ []

abbrev empty_history : TickHistory ℕ
empty_history = record { per_subject = 2; kept = [] }

new_history_is : new_history 2 ≡ ok empty_history
unfolding new_history
new_history_is = refl

history_window_case :
    ticks_of (2 ∷ []) (record_all prints empty_history) ≡ print 2 2 ∷ print 2 3 ∷ []
unfolding new_history ticks_of record_tick get put
history_window_case = history_window 2 (2 ∷ []) prints empty_history refl

count_is : count (record_all prints empty_history).kept ≡ 3
unfolding record_tick ticks_of get put count
count_is = refl
