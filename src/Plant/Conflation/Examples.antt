-- ===== src/Plant/Conflation/Examples.antt =====
-- Runs of the plant on small feeds: two instruments, with a repeat and a loss.
use treble_tracker.Prelude.Bytes.Order.{text_le}
use treble_tracker.Prelude.{
  ℕ, ◌≡◌, refl, List, [], ◌∷◌, none, some, bytes_eq, pair_eq, ok, err, length, leb, if◌then◌else◌,
  ◌-◌, map,
}
use mathlib.Core.List.{Permᴰ}
use treble_tracker.Prelude.Dict.{get, put}
use treble_tracker.Plant.Tick.{Tick}
use treble_tracker.Plant.Conflation.{
  Image, new_plant, apply_tick, publish, image, conflated, tpipe, evicted, sort_entries,
  insert_entry, key_le,
}
use treble_tracker.Plant.Conflation.Stream.{
  publish_all, accepted, of_subject, Consecutive, tpipe_all_or_error, accepted_gapless,
}
use treble_tracker.Plant.Conflation.Image.{image_latest, Sorted, conflated_in_order}

abbrev tick : ℕ → ℕ → ℕ → Tick ℕ
tick subject sequence value = record {
  subject = subject ∷ [];
  field = 7 ∷ [];
  value = value;
  sequence = sequence;
  exchange_time = 0;
  size = none;
}

-- the second is a repeat, the fourth comes after a loss
abbrev feed : List (Tick ℕ)
feed = tick 2 5 10 ∷ tick 2 5 11 ∷ tick 1 1 20 ∷ tick 2 8 12 ∷ tick 2 6 13 ∷ []

tpipe_all_or_error_example : (tpipe (publish_all feed (new_plant 2))).0 ≡ (
    let whole = accepted feed (new_plant 2) in
    if leb (length whole) 2 then ok whole else err (evicted (length whole - 2)))
tpipe_all_or_error_example = tpipe_all_or_error 2 feed

accepted_is : accepted feed (new_plant 2) ≡ tick 2 5 10 ∷ tick 1 1 20 ∷ tick 2 6 13 ∷ []
unfolding publish apply_tick get put
accepted_is = refl

accepted_gapless_example : Consecutive none (of_subject (2 ∷ []) (accepted feed (new_plant 2)))
unfolding get
accepted_gapless_example = accepted_gapless (2 ∷ []) feed (new_plant 2)

image_latest_example : image (2 ∷ []) (7 ∷ []) (publish_all feed (new_plant 2)) ≡ some (tick 2 6 13)
unfolding publish apply_tick get put image
image_latest_example = image_latest (2 ∷ []) (7 ∷ []) feed (new_plant 2)

conflated_in_order_case :
    (es : Image ℕ) × (conflated (publish_all feed (new_plant 2)) ≡ map (λ e. e.1) es)
    × Sorted es
    × Permᴰ es (publish_all feed (new_plant 2)).latest
conflated_in_order_case = conflated_in_order (publish_all feed (new_plant 2))

conflated_is : conflated (publish_all feed (new_plant 2)) ≡ tick 1 1 20 ∷ tick 2 6 13 ∷ []
unfolding publish apply_tick get put conflated sort_entries insert_entry key_le text_le
conflated_is = refl
