-- ===== src/Render/Canvas/Arranged.antt =====
-- `Canvas.with_placements`: a new canvas of the components of an old one.
use treble_tracker.Prelude.{
  ◌≡◌, ◌≢◌, subst, refl, sym, ap, ◌∙◌, List, [], ◌∷◌, Option, none, some, arith, Result, ok, err,
  Option-cases, >>=-ok, bytes_eq, bytes_eqb_iff, ◌==◌, if◌then◌else◌, is_some, Bool-cases, inl, inr,
}
use treble_tracker.Prelude.Dict.{Dict, get, put, get-put_self, get-put_ne}
use treble_tracker.Prelude.Bytes.{Bytes}
use treble_tracker.Render.Channel.{Channel, channel_eq}
use treble_tracker.Render.Canvas.{
  Fdc3Instrument, CanvasComponent, Canvas, CanvasError, empty_canvas, duplicate_id, context_for,
  show, add,
}
use treble_tracker.Render.Canvas.Broadcast.{some-is}
use treble_tracker.Prelude.{All}
use treble_tracker.Render.Canvas.{add_all, carry, with_placements}
use treble_tracker.Render.Canvas.Sync.{
  InSync, IsLinked, entered, entered-IsLinked, get-show, show-components, show-channels,
}

-- Each component is on the canvas and has the channel that it has there.
abbrev pub KeepsChannels : List CanvasComponent → Canvas → Type 0
KeepsChannels ks c =
    All
      (λ k.
        (old : CanvasComponent) × (get k.id c.components ≡ some old) × (old.channel ≡ k.channel))
      ks

-- Each component is among those of the dict, as it is.
abbrev Entered : Dict Bytes CanvasComponent → List CanvasComponent → Type 0
Entered d ks = All (λ k. get k.id d ≡ some k) ks

-- What was shown in a component is what its channel holds, if that holds anything.
abbrev Agrees : Option Channel → Option Fdc3Instrument → Dict Channel Fdc3Instrument → Type 0
Agrees own o contexts =
    (channel : Channel) (context shown : Fdc3Instrument)
    → own ≡ some channel
    → get channel contexts ≡ some context
    → o ≡ some shown
    → shown ≡ context

some_context : (a b : Fdc3Instrument) → some a ≡ some b → a ≡ b
some_context a b e = cc

abbrev allowed : Canvas → Result CanvasError Canvas
allowed c = ok c

ok_canvas : (c d : Canvas) → allowed c ≡ ok d → c ≡ d
ok_canvas c d e = cc

err_canvas : (x : CanvasError) (d : Canvas) → err x ≢ allowed d
err_canvas x d e = ground (arith, e)

add-entered :
    (k : CanvasComponent) (c d : Canvas)
    → add k c ≡ ok d
    → (get k.id c.components ≡ none) × (entered k.id k c ≡ d)
unfolding add
add-entered k c d e = elim (Option-cases (get k.id c.components)) [
  | inl n ↦ (
    n,
    ok_canvas (entered k.id k c) d
        (sym (ap (λ o. if is_some o then err duplicate_id else ok (entered k.id k c)) n) ∙ e),
  )
  | inr x ↦ absurd (
      err_canvas duplicate_id d
        (sym (ap (λ o. if is_some o then err duplicate_id else ok (entered k.id k c)) x.1) ∙ e))
]

-- A canvas that took a component, or more, and lost none.
abbrev Grows : Canvas → Canvas → Type 0
Grows c d =
    (d.channel_context ≡ c.channel_context)
    × ((id : Bytes) (m : CanvasComponent)
        → get id c.components ≡ some m
        → get id d.components ≡ some m)

entered-Grows :
    (k : CanvasComponent) (c : Canvas) → get k.id c.components ≡ none → Grows c (entered k.id k c)
entered-Grows k c new =
    let o = context_for k.channel c in
    let d = record c { components = put k.id k c.components } in
    (
      show-channels k.id o d,
      λ id m there.
          ap (get id) (show-components k.id o d)
          ∙ get-put_ne k.id id k c.components
              (λ same. ground (arith, sym there ∙ ap (λ i. get i c.components) (sym same) ∙ new))
          ∙ there,
    )

entered-there : (k : CanvasComponent) (c : Canvas) → get k.id (entered k.id k c).components ≡ some k
entered-there k c =
    ap (get k.id) (show-components k.id (context_for k.channel c) _)
    ∙ get-put_self k.id k c.components

add_all-IsLinked :
    (ks : List CanvasComponent) (c d : Canvas)
    → add_all ks c ≡ ok d
    → IsLinked c
    → IsLinked d × Entered d.components ks × Grows c d
unfolding add_all
add_all-IsLinked [] c d e h =
    subst (λ t. IsLinked t × Unit × Grows c t) (ok_canvas c d e)
      (h, tt, (refl, λ id m there. there))
add_all-IsLinked (k ∷ ks) c d e h =
    let s = >>=-ok (add k c) (add_all ks) e in
    let a = add-entered k c s.0 s.1 in
    let linked : IsLinked s.0 = subst IsLinked a.1 (entered-IsLinked k.id k c h) in
    let grown : Grows c s.0 = subst (Grows c) a.1 (entered-Grows k c a.0) in
    let here : get k.id (s.0).components ≡ some k =
      subst (λ t. get k.id t.components ≡ some k) a.1 (entered-there k c) in
    let rest = add_all-IsLinked ks s.0 d s.2 linked in
    (
      rest.0,
      (rest.2.1 k.id k here, rest.1),
      (rest.2.0 ∙ grown.0, λ id m there. rest.2.1 id m (grown.1 id m there)),
    )

show-IsLinked :
    (id : Bytes) (o : Option Fdc3Instrument) (k : CanvasComponent) (c : Canvas)
    → get id c.components ≡ some k
    → Agrees k.channel o c.channel_context
    → IsLinked c
    → IsLinked (show id o c)
unfolding show
show-IsLinked id none k c there agrees h = h
show-IsLinked id (some shown) k c there agrees h = record {
  distinct = h.distinct;
  synced = λ other k2 channel context there2 on held.
      get-show id other (some shown) c ∙ elim (Bool-cases (id == other)) [
        | inl same ↦
            let one : k ≡ k2 = some-is k k2 (
              sym there
              ∙ ap (λ i. get i c.components) ((bytes_eqb_iff id other).0 same)
              ∙ there2) in
            rw (same, agrees channel context shown (ap (λ m. m.channel) one ∙ on) held refl) refl
        | inr differ ↦ rw (differ) (h.synced other k2 channel context there2 on held)
      ];
}

carry-IsLinked :
    (ks : List CanvasComponent) (old : Dict Bytes Fdc3Instrument) (c : Canvas)
    → Entered c.components ks
    → All (λ k. Agrees k.channel (get k.id old) c.channel_context) ks
    → IsLinked c
    → IsLinked (carry ks old c)
unfolding carry
carry-IsLinked [] old c there agree h = h
carry-IsLinked (k ∷ ks) old c there agree h =
    let o = get k.id old in
    carry-IsLinked ks old (show k.id o c)
      (subst (λ d. Entered d ks) (sym (show-components k.id o c)) there.1)
      (subst (λ d. All (λ m. Agrees m.channel (get m.id old) d) ks) (sym (show-channels k.id o c))
        agree.1)
      (show-IsLinked k.id o k c there.0 agree.0 h)

-- What the old canvas showed in a component that keeps its channel is what that channel holds.
agree_all :
    (ks : List CanvasComponent) (c : Canvas)
    → InSync c
    → KeepsChannels ks c
    → All (λ k. Agrees k.channel (get k.id c.component_context) c.channel_context) ks
agree_all [] c h keep = tt
agree_all (k ∷ ks) c h keep = (
  λ channel context shown on held seen.
      some_context shown context
        (sym seen ∙ h k.id keep.0.0 channel context keep.0.1 (keep.0.2 ∙ on) held),
  agree_all ks c h keep.1,
)

nothing-IsLinked :
    (contexts : Dict Channel Fdc3Instrument)
    → IsLinked (record empty_canvas { channel_context = contexts })
unfolding get
nothing-IsLinked contexts = record {
  distinct = tt;
  synced = λ id k channel context there on held. absurd (ground (arith, there));
}

pub with_placements-IsLinked :
    (ks : List CanvasComponent) (c d : Canvas)
    → IsLinked c
    → KeepsChannels ks c
    → with_placements ks c ≡ ok d
    → IsLinked d
unfolding with_placements
with_placements-IsLinked ks c d h keep e =
    let bare = record empty_canvas { channel_context = c.channel_context } in
    let s = >>=-ok (add_all ks bare) (λ rebuilt. ok (carry ks c.component_context rebuilt)) e in
    let a = add_all-IsLinked ks bare s.0 s.1 (nothing-IsLinked c.channel_context) in
    subst IsLinked (ok_canvas (carry ks c.component_context s.0) d s.2) (
      carry-IsLinked ks c.component_context s.0 a.1
        (subst (λ t. All (λ k. Agrees k.channel (get k.id c.component_context) t) ks) (sym a.2.0)
          (agree_all ks c h.synced keep))
        a.0)
