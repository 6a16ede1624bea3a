-- ===== src/Render/Layout/Examples.antt =====
-- A layout of two components side by side.
use treble_tracker.Prelude.{ℕ, ◌≡◌, refl, List, [], ◌∷◌, none, some, true, ok, map, bytes_eq}
use treble_tracker.Prelude.Int.{ℤ, pos, negsuc, ◌≤ℤ◌, ◌+ℤ◌}
use treble_tracker.Prelude.Bytes.{Bytes, codes}
use treble_tracker.Render.Canvas.{Placement, CanvasComponent, overlaps}
use treble_tracker.Render.Layout.{
  min_width, min_height, replace_in, replace_placement, check_free, placement_of, place,
  move_component, resize_component, put_at,
}
use treble_tracker.Render.Layout.Apart.{move_keeps_apart, resize_keeps_apart, apart}

abbrev spot : ℤ → ℤ → ℕ → Placement
spot x y width = record { x = x; y = y; width = width; height = 10; display = 0 }

abbrev pane : Bytes → Placement → CanvasComponent
pane id p = record { id = id; screen = codes "DES"; channel = none; placement = some p }

abbrev two : List CanvasComponent
two = pane (codes "a") (spot (pos 0) (pos 0) 40) ∷ pane (codes "b") (spot (pos 40) (pos 0) 40) ∷ []

-- The window is dragged beyond the left edge of the display.
abbrev moved : List CanvasComponent
moved =
    pane (codes "a") (spot (negsuc 2) (pos 5) 40) ∷ pane (codes "b") (spot (pos 40) (pos 0) 40) ∷ []

move_keeps_apart_example :
    (current : Placement) × (placement_of (codes "a") two ≡ ok current)
    × (apart moved ≡ true)
    × (moved ≡ map (put_at (codes "a") (record current { x = negsuc 2; y = pos 5 })) two)
unfolding overlaps move_component placement_of place check_free replace_placement replace_in ◌+ℤ◌
move_keeps_apart_example = move_keeps_apart (codes "a") (negsuc 2) (pos 5) two moved refl refl

abbrev resized : List CanvasComponent
resized =
    pane (codes "a") (spot (pos 0) (pos 0) 30) ∷ pane (codes "b") (spot (pos 40) (pos 0) 40) ∷ []

resize_keeps_apart_example :
    (pos min_width ≤ℤ pos 30)
    × (pos min_height ≤ℤ pos 10)
    × (apart resized ≡ true)
    × (current : Placement) × (placement_of (codes "a") two ≡ ok current)
    × (resized ≡ map (put_at (codes "a") (record current { width = 30; height = 10 })) two)
unfolding overlaps resize_component placement_of place check_free replace_placement replace_in ◌+ℤ◌
resize_keeps_apart_example = resize_keeps_apart (codes "a") (pos 30) (pos 10) two resized refl refl
