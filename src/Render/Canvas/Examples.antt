-- ===== src/Render/Canvas/Examples.antt =====
-- A workspace of three components, of which two are linked.
use treble_tracker.Prelude.{◌≡◌, refl, List, [], ◌∷◌, none, some, bytes_eq}
use treble_tracker.Prelude.Dict.{get, put}
use treble_tracker.Prelude.Bytes.{codes}
use treble_tracker.Prelude.Bytes.Order.{sort_by}
use treble_tracker.Render.Channel.{red, blue, channel_eq}
use treble_tracker.Render.Canvas.{
  Fdc3Instrument, Canvas, empty_canvas, context_for, show, add, join, leave, component_of,
  broadcast_on, broadcast, others_among, show_all,
}
use treble_tracker.Prelude.Int.{pos}
use treble_tracker.Render.Canvas.{Placement, CanvasComponent, with_placements, add_all, carry}
use treble_tracker.Render.Canvas.Broadcast.{Reached, broadcast_reaches}
use treble_tracker.Render.Canvas.Links.{
  Action, adds, joins, leaves, broadcasts, arranges, act, acts, linked-InSync,
}

abbrev ibm : Fdc3Instrument
ibm = record { ticker = some (codes "IBM"); isin = none; cusip = none; figi = none; name = none }

abbrev corner : Placement
corner = record { x = pos 0; y = pos 0; width = 30; height = 10; display = 0 }

abbrev moved : List CanvasComponent
moved =
    record { id = codes "b"; screen = codes "GP"; channel = some red; placement = some corner }
    ∷ record { id = codes "a"; screen = codes "DES"; channel = some red; placement = none }
    ∷ []

abbrev calls : List Action
calls =
    adds (record { id = codes "a"; screen = codes "DES"; channel = some red; placement = none })
    ∷ adds (record { id = codes "b"; screen = codes "GP"; channel = none; placement = none })
    ∷ broadcasts (codes "a") ibm
    ∷ joins (codes "b") red
    ∷ adds (record { id = codes "c"; screen = codes "GP"; channel = some blue; placement = none })
    ∷ leaves (codes "x")
    ∷ arranges moved
    ∷ []

abbrev desk : Canvas
desk = acts calls empty_canvas

linked-InSync_example : get (codes "b") desk.component_context ≡ some ibm
unfolding act add join leave component_of context_for show get put broadcast broadcast_on
    others_among show_all sort_by with_placements add_all carry
linked-InSync_example =
    linked-InSync calls
      (tt, (tt, (tt, (tt, (tt, (tt, (((_, refl, refl), ((_, refl, refl), tt)), tt))))))) (codes "b")
      (record { id = codes "b"; screen = codes "GP"; channel = some red; placement = some corner })
      red ibm refl refl refl

-- Three components, of which the first two are linked.
abbrev linked : Canvas
linked = record {
  components =
      (
        codes "a",
        record { id = codes "a"; screen = codes "DES"; channel = some red; placement = none },
      )
      ∷ (
        codes "b",
        record { id = codes "b"; screen = codes "GP"; channel = some red; placement = none },
      )
      ∷ (
        codes "c",
        record { id = codes "c"; screen = codes "GP"; channel = some blue; placement = none },
      )
      ∷ [];
  channel_context = [];
  component_context = [];
}

broadcast_reaches_example :
    Reached (codes "a") (some red) ibm linked (broadcast_on (some red) (codes "a") ibm linked).1
    × ((broadcast_on (some red) (codes "a") ibm linked).1.components ≡ linked.components)
unfolding get broadcast component_of
broadcast_reaches_example =
    broadcast_reaches (codes "a") ibm linked (broadcast_on (some red) (codes "a") ibm linked).1
      (broadcast_on (some red) (codes "a") ibm linked).0
      (record { id = codes "a"; screen = codes "DES"; channel = some red; placement = none })
      (refl, (refl, (refl, tt))) refl refl
