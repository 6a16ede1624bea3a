-- ===== src/Render/Canvas/Links.antt =====
-- A linked component shows what its channel holds, whatever was done to the workspace.
use treble_tracker.Prelude.{
  ◌≢◌, List, [], ◌∷◌, none, some, true, false, arith, Result, ok, err, ◌>>=◌, Result-cases,
  bytes_eq, if◌then◌else◌, is_some, inl, inr,
}
use treble_tracker.Prelude.Dict.{get}
use treble_tracker.Prelude.Bytes.{Bytes}
use treble_tracker.Render.Channel.{Channel, channel_eq}
use treble_tracker.Render.Canvas.{
  Fdc3Instrument, CanvasComponent, Canvas, CanvasError, empty_canvas, duplicate_id, context_for,
  show, add, component_of, join, leave, broadcast,
}
use treble_tracker.Render.Canvas.Broadcast.{component_of-ok}
use treble_tracker.Render.Canvas.{with_placements}
use treble_tracker.Render.Canvas.Sync.{
  InSync, IsLinked, entered, entered-IsLinked, broadcast_on-IsLinked,
}
use treble_tracker.Render.Canvas.Arranged.{KeepsChannels, with_placements-IsLinked}

-- A call at the workspace.
pub data Action : Type 0 where
  adds : CanvasComponent → Action
  joins : Bytes → Channel → Action
  leaves : Bytes → Action
  broadcasts : Bytes → Fdc3Instrument → Action
  arranges : List CanvasComponent → Action

-- A call that raises changes nothing.
abbrev kept : {A : Type 0} → (A → Canvas) → Canvas → Result CanvasError A → Canvas
kept of c (ok a) = of a
kept of c (err e) = c

unfoldable pub act : Action → Canvas → Canvas
act (adds k) c = kept (λ d. d) c (add k c)
act (joins id channel) c = kept (λ d. d) c (join id channel c)
act (leaves id) c = kept (λ d. d) c (leave id c)
act (broadcasts id context) c = kept (λ r. r.1) c (broadcast id context c)
act (arranges ks) c = kept (λ d. d) c (with_placements ks c)

abbrev pub acts : List Action → Canvas → Canvas
acts [] c = c
acts (a ∷ rest) c = acts rest (act a c)

-- Every arrangement is of components that are there, each with the channel that it then has.
abbrev pub Arranges : List Action → Canvas → Type 0
Arranges [] c = Unit
Arranges (a ∷ rest) c =
    (elim a [
      | adds k ↦ Unit
      | joins id channel ↦ Unit
      | leaves id ↦ Unit
      | broadcasts id context ↦ Unit
      | arranges ks ↦ KeepsChannels ks c
    ])
    × Arranges rest (act a c)

-- A change of one component after which it shows its channel's context.
changes-IsLinked :
    (id : Bytes) (change : CanvasComponent → CanvasComponent) (c : Canvas)
    → IsLinked c
    → IsLinked (kept (λ d. d) c (component_of id c >>= λ k. ok (entered id (change k) c)))
changes-IsLinked id change c h =
    elim (component_of id c)
      as (λ r. IsLinked (kept (λ d. d) c (r >>= λ k. ok (entered id (change k) c)))) [
        | ok k ↦ entered-IsLinked id (change k) c h
        | err e ↦ h
      ]

act-IsLinked : (a : Action) (c : Canvas) → Arranges (a ∷ []) c → IsLinked c → IsLinked (act a c)
unfolding act add join leave broadcast entered context_for show
act-IsLinked (adds k) c kept_so h =
    elim (is_some (get k.id c.components))
      as (λ b. IsLinked (kept (λ d. d) c (if b then err duplicate_id else ok (entered k.id k c)))) [
        | true ↦ h
        | false ↦ entered-IsLinked k.id k c h
      ]
act-IsLinked (joins id channel) c kept_so h =
    changes-IsLinked id (λ k. record k { channel = some channel }) c h
act-IsLinked (leaves id) c kept_so h = changes-IsLinked id (λ k. record k { channel = none }) c h
act-IsLinked (broadcasts id context) c kept_so h = elim (Result-cases (component_of id c)) [
  | inl k ↦ rw k.1 (broadcast_on-IsLinked id k.0 context c (component_of-ok id k.0 c k.1) h)
  | inr e ↦ rw e.1 h
]
act-IsLinked (arranges ks) c kept_so h = elim (Result-cases (with_placements ks c)) [
  | inl d ↦ rw (d.1) (with_placements-IsLinked ks c d.0 h kept_so.0 d.1)
  | inr e ↦ rw (e.1) h
]

nothing : (id : Bytes) (k : CanvasComponent) → get id empty_canvas.components ≢ some k
unfolding get
nothing id k e = ground (arith, e)

acts-IsLinked :
    (calls : List Action) (c : Canvas) → Arranges calls c → IsLinked c → IsLinked (acts calls c)
acts-IsLinked [] c fair h = h
acts-IsLinked (a ∷ rest) c fair h =
    acts-IsLinked rest (act a c) fair.1 (act-IsLinked a c (fair.0, tt) h)

-- After any adds, joins, leaves, broadcasts and arrangements (`with_placements`) at a new workspace,
-- refused ones included, every component of a channel that has a context shows that context, where
-- each arrangement is of components that are there, with the channel that each has at that time.
pub linked-InSync :
    (calls : List Action) → Arranges calls empty_canvas → InSync (acts calls empty_canvas)
linked-InSync calls fair =
    (acts-IsLinked calls empty_canvas fair (record {
      distinct = tt;
      synced = λ id k ch x there on held. absurd (nothing id k there);
    })).synced
