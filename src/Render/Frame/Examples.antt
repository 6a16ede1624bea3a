-- ===== src/Render/Frame/Examples.antt =====
-- A small frame of one line.
use treble_tracker.Prelude.{
  ◌⊎◌, arith, true, false, ◌≡◌, refl, List, [], ◌∷◌, ◌++◌, none, some, false, length, All,
}
use treble_tracker.Prelude.Int.{pos}
use treble_tracker.Prelude.Bytes.{Bytes, codes}
use treble_tracker.Render.Channel.{red}
use treble_tracker.Render.Canvas.{CanvasComponent}
use treble_tracker.Render.Frame.{
  ljust, is_clipped, title_of, body_line, body_lines, frame_of, frame_lines,
}
use treble_tracker.Render.Frame.Shape.{frame_fills, frame_hides_nothing, overflows, whole_frame}

abbrev small : CanvasComponent
small = record { id = codes "a"; screen = codes "DES"; channel = some red; placement = none }

abbrev drawn : List Bytes
drawn = codes "+ DES r+" ∷ codes "|IBM   |" ∷ codes "|      |" ∷ codes "+------+" ∷ []

frame_fills_example : (length drawn ≡ 4) × All (λ l. length l ≡ 8) drawn
unfolding frame_lines frame_of is_clipped title_of ljust body_line body_lines
frame_fills_example =
    frame_fills small (record { x = pos 0; y = pos 0; width = 8; height = 4; display = 0 })
      (codes "IBM" ∷ []) drawn refl

-- Two lines in the one row of an interior.
abbrev two_lines : List Bytes
two_lines = codes "IBM" ∷ codes "AAPL" ∷ []

frame_hides_nothing_example :
    ((overflows 20 1 two_lines ≡ false)
      × (frame_of small 20 1 two_lines ≡ whole_frame small 20 1 two_lines))
    ⊎ ((overflows 20 1 two_lines ≡ true)
        × (front back : Bytes) × (below : List Bytes) × (frame_of small 20 1 two_lines
            ≡ (front ++ (codes " CLIP " ++ back)) ∷ below))
unfolding title_of
frame_hides_nothing_example = frame_hides_nothing small 20 1 two_lines (omega arith)

two_lines_marked :
    frame_of small 20 1 two_lines
    ≡ codes "+ DES red CLIP ------+"
      ∷ codes "|IBM                 |"
      ∷ codes "+--------------------+"
      ∷ []
unfolding frame_of is_clipped title_of ljust body_line body_lines
two_lines_marked = refl

-- In an interior of six columns the mark is cut off.
narrow_unmarked :
    frame_of small 6 1 two_lines ≡ codes "+ DES r+" ∷ codes "|IBM   |" ∷ codes "+------+" ∷ []
unfolding frame_of is_clipped title_of ljust body_line body_lines
narrow_unmarked = refl
