-- ===== src/Render/Canvas.antt =====
-- treble/render/canvas.py: `class Canvas`, the components of a workspace and the contexts that they
-- show, and `class Placement`.
pub mod Broadcast
pub mod Sync
pub mod Arranged
pub mod Links
mod Examples
use treble_tracker.Prelude.{
  ℕ, ◌+◌, List, [], ◌∷◌, Option, none, some, Bool, true, false, ◌&&◌, ◌||◌, not, Result, ok, err,
  ◌>>=◌, bytes_eq, nat_eqb, ltb, ◌==◌, if◌then◌else◌, is_some, map,
}
use treble_tracker.Prelude.Int.{ℤ, pos, ◌+ℤ◌, ltb_ℤ}
use treble_tracker.Prelude.Dict.{Dict, get, put}
use treble_tracker.Prelude.Bytes.{Bytes}
use treble_tracker.Prelude.Bytes.Order.{sorted, sort_by}
use treble_tracker.Render.Channel.{Channel, channel_eq}

pub record Fdc3Instrument : Type 0 where
  pub ticker : Option Bytes
  pub isin : Option Bytes
  pub cusip : Option Bytes
  pub figi : Option Bytes
  pub name : Option Bytes

-- A corner may be negative: the checks of the class are skipped by the copy that a drag makes.
pub record Placement : Type 0 where
  pub x : ℤ
  pub y : ℤ
  pub width : ℕ
  pub height : ℕ
  pub display : ℕ

unfoldable pub overlaps : Placement → Placement → Bool
overlaps a b =
    if not (nat_eqb a.display b.display)
    then false
    else ltb_ℤ a.x (b.x +ℤ pos b.width)
      && (ltb_ℤ b.x (a.x +ℤ pos a.width)
          && (ltb_ℤ a.y (b.y +ℤ pos b.height) && ltb_ℤ b.y (a.y +ℤ pos a.height)))

pub record CanvasComponent : Type 0 where
  pub id : Bytes
  pub screen : Bytes
  pub channel : Option Channel
  pub placement : Option Placement

-- The `ValueError` of `add`, and `UnknownComponentError`.
pub data CanvasError : Type 0 where
  duplicate_id : CanvasError
  unknown_component : CanvasError

pub record Canvas : Type 0 where
  pub components : Dict Bytes CanvasComponent
  pub channel_context : Dict Channel Fdc3Instrument
  pub component_context : Dict Bytes Fdc3Instrument

abbrev pub empty_canvas : Canvas
empty_canvas = record { components = []; channel_context = []; component_context = [] }

-- What a component of a channel is to show, if it has a channel and that has a context.
unfoldable pub context_for : Option Channel → Canvas → Option Fdc3Instrument
context_for none c = none
context_for (some channel) c = get channel c.channel_context

-- The component shows a context, or keeps what it showed.
unfoldable pub show : Bytes → Option Fdc3Instrument → Canvas → Canvas
show id none c = c
show id (some context) c = record c { component_context = put id context c.component_context }

unfoldable pub add : CanvasComponent → Canvas → Result CanvasError Canvas
unfolding context_for show
add component c =
    if is_some (get component.id c.components)
    then err duplicate_id
    else ok (
        show component.id (context_for component.channel c)
          (record c { components = put component.id component c.components }))

unfoldable pub add_all : List CanvasComponent → Canvas → Result CanvasError Canvas
unfolding add
add_all [] c = ok c
add_all (component ∷ components) c = add component c >>= add_all components

-- `component`
unfoldable pub component_of : Bytes → Canvas → Result CanvasError CanvasComponent
component_of id c = elim (get id c.components) [ none ↦ err unknown_component | some k ↦ ok k ]

unfoldable pub join : Bytes → Channel → Canvas → Result CanvasError Canvas
unfolding component_of context_for show
join id channel c = component_of id c >>= λ existing. ok (
    show id (context_for (some channel) c)
      (record c { components = put id (record existing { channel = some channel }) c.components }))

unfoldable pub leave : Bytes → Canvas → Result CanvasError Canvas
unfolding component_of
leave id c = component_of id c >>= λ existing.
    ok (record c { components = put id (record existing { channel = none }) c.components })

-- `component.channel is channel`
abbrev pub on_channel : Channel → CanvasComponent → Bool
on_channel channel component = elim component.channel [ none ↦ false | some own ↦ own == channel ]

-- The ids of a channel's components, in the order of the dict.
unfoldable pub members_among : Channel → Dict Bytes CanvasComponent → List Bytes
members_among channel [] = []
members_among channel ((id, component) ∷ d) =
    let rest = members_among channel d in if on_channel channel component then id ∷ rest else rest

unfoldable pub members : Channel → Canvas → List Bytes
unfolding members_among sort_by
members channel c = sorted (members_among channel c.components)

unfoldable pub others_among : Channel → Bytes → Dict Bytes CanvasComponent → List Bytes
others_among channel sender [] = []
others_among channel sender ((id, component) ∷ d) =
    let rest = others_among channel sender d in
    if on_channel channel component && not (id == sender) then id ∷ rest else rest

unfoldable pub show_all :
    List Bytes → Fdc3Instrument → Dict Bytes Fdc3Instrument → Dict Bytes Fdc3Instrument
show_all [] context d = d
show_all (id ∷ ids) context d = show_all ids context (put id context d)

-- `broadcast` of a component that is there; the ids that it returns stand beside the canvas.
unfoldable pub broadcast_on : Option Channel → Bytes → Fdc3Instrument → Canvas → List Bytes × Canvas
unfolding others_among show_all sort_by
broadcast_on none id context c =
    ([], record c { component_context = put id context c.component_context })
broadcast_on (some channel) id context c =
    let updated = others_among channel id c.components in
    (
      sorted updated,
      record c {
        channel_context = put channel context c.channel_context;
        component_context = show_all updated context (put id context c.component_context);
      },
    )

unfoldable pub broadcast :
    Bytes → Fdc3Instrument → Canvas → Result CanvasError (List Bytes × Canvas)
unfolding component_of broadcast_on
broadcast id context c =
    component_of id c >>= λ sender. ok (broadcast_on sender.channel id context c)

unfoldable pub context_of : Bytes → Canvas → Result CanvasError (Option Fdc3Instrument)
unfolding component_of
context_of id c = component_of id c >>= λ _. ok (get id c.component_context)

-- What the old canvas showed in each of the components, where it showed something.
unfoldable pub carry : List CanvasComponent → Dict Bytes Fdc3Instrument → Canvas → Canvas
unfolding show
carry [] old c = c
carry (component ∷ components) old c =
    carry components old (show component.id (get component.id old) c)

unfoldable pub with_placements : List CanvasComponent → Canvas → Result CanvasError Canvas
unfolding add_all carry
with_placements components c =
    add_all components (record empty_canvas { channel_context = c.channel_context }) >>= λ rebuilt.
    ok (carry components c.component_context rebuilt)
