-- ===== src/Render/Frame.antt =====
-- treble/render/canvas.py: the frame round a component's screen.
pub mod Shape
mod Examples
use treble_tracker.Prelude.{
  ℕ, zero, suc, ◌-◌, List, [], ◌∷◌, ◌++◌, Option, none, some, Bool, true, false, ◌||◌, Result, ok,
  err, ltb, if◌then◌else◌, length, any, map, take,
}
use treble_tracker.Prelude.Bytes.{Bytes, codes}
use treble_tracker.Prelude.Bytes.Blank.{strip_right}
use treble_tracker.Render.Channel.{colour}
use treble_tracker.Render.Canvas.{Placement, CanvasComponent}

abbrev pub min_placement : ℕ
min_placement = 3

-- The `ValueError` of a place too small to draw in.
pub data FrameError : Type 0 where
  no_interior : FrameError

-- The empty lines at the end go.
unfoldable pub strip_lines : List Bytes → List Bytes
strip_lines [] = []
strip_lines (l ∷ ls) = elim (strip_lines ls) [
  | [] ↦ (elim l [ [] ↦ [] | c ∷ cs ↦ (c ∷ cs) ∷ [] ])
  | k ∷ ks ↦ l ∷ k ∷ ks
]

-- The first line stays, also if it is empty.
unfoldable pub normalise_content : List Bytes → List Bytes
unfolding strip_lines strip_right
normalise_content [] = []
normalise_content (l ∷ ls) = strip_right l ∷ strip_lines (map strip_right ls)

abbrev pub repeated : ℕ → ℕ → Bytes
repeated zero c = []
repeated (suc n) c = c ∷ repeated n c

-- `text.ljust(width, fill)`
unfoldable pub ljust : ℕ → ℕ → Bytes → Bytes
ljust width fill text = text ++ repeated (width - length text) fill

unfoldable pub is_clipped : ℕ → ℕ → List Bytes → Bool
is_clipped width height content =
    ltb height (length content) || any (λ l. ltb width (length l)) content

unfoldable pub title_of : CanvasComponent → Bool → Bytes
title_of k clipped =
    let linked : Bytes = elim k.channel [
      | none ↦ []
      | some channel ↦ codes " " ++ colour channel
    ] in
    codes " " ++ (k.screen ++ (linked ++ ((if clipped then codes " CLIP" else []) ++ codes " ")))

-- `"|" + body[:width].ljust(width) + "|"`
unfoldable pub body_line : ℕ → Bytes → Bytes
unfolding ljust
body_line width body = codes "|" ++ (ljust width 32 (take width body) ++ codes "|")

-- One line for each row of the interior, blank where the content has ended
unfoldable pub body_lines : ℕ → ℕ → List Bytes → List Bytes
unfolding body_line
body_lines width zero content = []
body_lines width (suc rows) [] = body_line width [] ∷ body_lines width rows []
body_lines width (suc rows) (l ∷ ls) = body_line width l ∷ body_lines width rows ls

unfoldable pub frame_of : CanvasComponent → ℕ → ℕ → List Bytes → List Bytes
unfolding is_clipped title_of ljust body_lines
frame_of k width height content =
    let title = title_of k (is_clipped width height content) in
    (codes "+" ++ (ljust width b'-' (take width title) ++ codes "+"))
    ∷ (body_lines width height content ++ (codes "+" ++ (repeated width b'-' ++ codes "+")) ∷ [])

unfoldable pub frame_lines :
    CanvasComponent → Placement → List Bytes → Result FrameError (List Bytes)
unfolding frame_of
frame_lines k p content =
    if ltb p.width min_placement || ltb p.height min_placement
    then err no_interior
    else ok (frame_of k (p.width - 2) (p.height - 2) content)
