-- ===== src/Render/Layout.antt =====
-- treble/render/layout.py: moving and resizing the components of a layout, and the saved layout.
pub mod Apart
mod Examples
use treble_tracker.Prelude.{
  ℕ, List, [], ◌∷◌, Option, none, some, Bool, true, false, ◌&&◌, ◌||◌, not, Result, ok, err, ◌>>=◌,
  bytes_eq, nat_eqb, ltb, leb, ◌==◌, if◌then◌else◌, keep_if,
}
use treble_tracker.Prelude.Int.{ℤ, pos, pos_part, ltb_ℤ}
use treble_tracker.Prelude.Bytes.{Bytes}
use treble_tracker.Render.Canvas.{Placement, CanvasComponent, overlaps}

abbrev pub min_width : ℕ
min_width = 20

abbrev pub min_height : ℕ
min_height = 5

abbrev pub layout_version : ℕ
layout_version = 1

-- Why a `LayoutError` is raised. An overlap names the component that is in the way.
pub data LayoutError : Type 0 where
  no_component : LayoutError
  no_placement : LayoutError
  would_overlap : Bytes → LayoutError
  too_small : LayoutError
  no_layout : LayoutError
  wrong_version : LayoutError
  no_displays : LayoutError

-- What a saved file holds.
pub record SavedLayout : Type 0 where
  pub version : ℕ
  pub name : Bytes
  pub components : List CanvasComponent

abbrev put_at : Bytes → Placement → CanvasComponent → CanvasComponent
put_at id placement k = if k.id == id then record k { placement = some placement } else k

-- The loop of `_replace`, and whether it found the component
unfoldable pub replace_in : Bytes → Placement → List CanvasComponent → Bool × List CanvasComponent
replace_in id placement [] = (false, [])
replace_in id placement (k ∷ ks) =
    let rest = replace_in id placement ks in
    ((k.id == id) || rest.0, put_at id placement k ∷ rest.1)

-- `_replace`
unfoldable pub replace_placement :
    Bytes → Placement → List CanvasComponent → Result LayoutError (List CanvasComponent)
unfolding replace_in
replace_placement id placement ks =
    let r = replace_in id placement ks in if r.0 then ok r.1 else err no_component

-- The component is another one, has a place and would be overlapped.
abbrev pub clashes : Bytes → Placement → CanvasComponent → Bool
clashes id placement k =
    not (k.id == id) && (elim k.placement [ none ↦ false | some other ↦ overlaps placement other ])

-- `_check_free`
unfoldable pub check_free : Bytes → Placement → List CanvasComponent → Result LayoutError (Unit {0})
check_free id placement [] = ok tt
check_free id placement (k ∷ ks) =
    if clashes id placement k then err (would_overlap k.id) else check_free id placement ks

-- `_placement_of`
unfoldable pub placement_of : Bytes → List CanvasComponent → Result LayoutError Placement
placement_of id [] = err no_component
placement_of id (k ∷ ks) =
    let rest = placement_of id ks in
    if k.id == id
    then (elim k.placement [ none ↦ err no_placement | some placement ↦ ok placement ])
    else rest

-- The component at a new place, if that is free.
unfoldable pub place :
    Bytes → Placement → List CanvasComponent → Result LayoutError (List CanvasComponent)
unfolding check_free replace_placement
place id placement ks = check_free id placement ks >>= λ _. replace_placement id placement ks

unfoldable pub move_component :
    Bytes → ℤ → ℤ → List CanvasComponent → Result LayoutError (List CanvasComponent)
unfolding placement_of place
move_component id x y ks =
    placement_of id ks >>= λ current. place id (record current { x = x; y = y }) ks

unfoldable pub resize_component :
    Bytes → ℤ → ℤ → List CanvasComponent → Result LayoutError (List CanvasComponent)
unfolding placement_of place
resize_component id width height ks =
    if ltb_ℤ width (pos min_width) || ltb_ℤ height (pos min_height)
    then err too_small
    else (placement_of id ks >>= λ current.
        place id (record current { width = pos_part width; height = pos_part height }) ks)

-- `save_layout`: what the file holds afterwards. It is replaced whole.
unfoldable pub save_layout : Bytes → List CanvasComponent → SavedLayout
save_layout name ks = record { version = layout_version; name = name; components = ks }

-- `load_layout` of what lies at the path
unfoldable pub load_layout : Option SavedLayout → Result LayoutError SavedLayout
load_layout none = err no_layout
load_layout (some saved) =
    if nat_eqb saved.version layout_version then ok saved else err wrong_version

abbrev pub is_offscreen : ℕ → CanvasComponent → Bool
is_offscreen displays k = elim k.placement [ none ↦ false | some p ↦ leb displays p.display ]

unfoldable pub offscreen_components :
    ℕ → List CanvasComponent → Result LayoutError (List CanvasComponent)
offscreen_components displays ks =
    if ltb displays 1 then err no_displays else ok (keep_if (is_offscreen displays) ks)
