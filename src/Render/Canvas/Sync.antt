-- ===== src/Render/Canvas/Sync.antt =====
-- One component that is entered, changed or broadcast by, in a workspace that is in sync.
use treble_tracker.Prelude.{
  ◌≡◌, ◌≢◌, refl, sym, ap, ◌∙◌, Option, none, some, Bool, true, false, ◌||◌, arith, bytes_eq,
  bytes_eqb_iff, ◌==◌, if◌then◌else◌, Bool-cases, inl, inr, or_else,
}
use treble_tracker.Prelude.Dict.{IsDict, get, put, get-put, put-IsDict}
use treble_tracker.Prelude.Bytes.{Bytes}
use treble_tracker.Render.Channel.{Channel, channel_eq, channel_same_iff}
use treble_tracker.Render.Canvas.{
  Fdc3Instrument, CanvasComponent, Canvas, context_for, show, on_channel, broadcast_on,
}
use treble_tracker.Render.Canvas.Broadcast.{some-is, broadcast_on-Reached, broadcast_on-components}

-- Every component of a channel that has a context shows that context.
abbrev pub InSync : Canvas → Type 0
InSync c =
    (id : Bytes) (component : CanvasComponent) (channel : Channel) (context : Fdc3Instrument)
    → get id c.components ≡ some component
    → component.channel ≡ some channel
    → get channel c.channel_context ≡ some context
    → get id c.component_context ≡ some context

pub record IsLinked (c : Canvas) : Type 0 where
  pub distinct : IsDict c.components
  pub synced : InSync c

-- A component that enters or changes its channel shows its channel's context.
abbrev pub entered : Bytes → CanvasComponent → Canvas → Canvas
entered id component c =
    show id (context_for component.channel c)
      (record c { components = put id component c.components })

pub get-show :
    (id other : Bytes) (o : Option Fdc3Instrument) (c : Canvas)
    → get other (show id o c).component_context ≡ (
        if id == other
        then or_else o (get other c.component_context)
        else get other c.component_context)
unfolding show
get-show id other none c = ground arith
get-show id other (some context) c = ground (arith, get-put id other context c.component_context)

pub show-components :
    (id : Bytes) (o : Option Fdc3Instrument) (c : Canvas) → (show id o c).components ≡ c.components
unfolding show
show-components id none c = refl
show-components id (some context) c = refl

pub show-channels :
    (id : Bytes) (o : Option Fdc3Instrument) (c : Canvas)
    → (show id o c).channel_context ≡ c.channel_context
unfolding show
show-channels id none c = refl
show-channels id (some context) c = refl

put-InSync :
    (id : Bytes) (component : CanvasComponent) (c : Canvas) (other : Bytes) (k : CanvasComponent)
    (channel : Channel) (context : Fdc3Instrument)
    → InSync c
    → (if id == other then some component else get other c.components) ≡ some k
    → k.channel ≡ some channel
    → get channel c.channel_context ≡ some context
    → (if id == other
        then or_else (context_for component.channel c) (get other c.component_context)
        else get other c.component_context)
      ≡ some context
unfolding context_for
put-InSync id component c other k channel context h there on held =
    elim (Bool-cases (id == other)) [
      | inl same ↦
          let stands =
            sym (ap (λ b. if b then some component else get other c.components) same) ∙ there in
          let own : component.channel ≡ some channel = ground (arith, stands, on) in
          rw (same, own, held) refl
      | inr differ ↦ rw differ (
          h other k channel context
            (sym (ap (λ b. if b then some component else get other c.components) differ) ∙ there) on
            held)
    ]

pub entered-IsLinked :
    (id : Bytes) (component : CanvasComponent) (c : Canvas)
    → IsLinked c
    → IsLinked (entered id component c)
unfolding entered
entered-IsLinked id component c h =
    let d = record c { components = put id component c.components } in
    let o = context_for component.channel c in
    record {
      distinct = rw show-components (put-IsDict id component c.components h.distinct);
      synced = λ other k channel context there on held.
          get-show id other o d
          ∙ put-InSync id component c other k channel context h.synced
              (sym (get-put id other component c.components)
                ∙ sym (ap (get other) (show-components id o d))
                ∙ there)
              on (sym (ap (get channel) (show-channels id o d)) ∙ held);
    }

on-is :
    (channel own : Channel) (k : CanvasComponent)
    → k.channel ≡ some own
    → on_channel channel k ≡ (own == channel)
on-is channel own k e =
    ap (λ (o : Option Channel). elim o as (λ _. Bool) [ none ↦ false | some x ↦ x == channel ]) e

same_component :
    (sender other : Bytes) (k k2 : CanvasComponent) (c : Canvas)
    → (sender == other) ≡ true
    → get sender c.components ≡ some k
    → get other c.components ≡ some k2
    → k.channel ≡ k2.channel
same_component sender other k k2 c same there there2 =
    ap (λ m. m.channel)
      (some-is k k2
        (sym there ∙ ap (λ i. get i c.components) ((bytes_eqb_iff sender other).0 same) ∙ there2))

unequal : (a b : Channel) → (a == b) ≡ false → (b == a) ≡ false
unequal a b h = ground (arith, h)

differ_here : (a b : Channel) → (a == b) ≡ false → some a ≢ some b
differ_here a b h e = ground (arith, h, e)

told_so : (a b : Bool) (x y : Option Fdc3Instrument) → b ≡ true → (if a || b then x else y) ≡ x
told_so a b x y e = ground (arith, e)

told_not :
    (a b : Bool) (x y : Option Fdc3Instrument)
    → a ≡ false
    → b ≡ false
    → (if a || b then x else y) ≡ y
told_not a b x y e f = ground (arith, e, f)

broadcast_on-synced :
    (own : Option Channel) (sender : Bytes) (k : CanvasComponent) (context : Fdc3Instrument)
    (c : Canvas)
    → IsDict c.components
    → get sender c.components ≡ some k
    → k.channel ≡ own
    → InSync c
    → InSync (broadcast_on own sender context c).1
broadcast_on-synced none sender k context c d there own h other k2 channel shown there2 on held =
    let unfolded : get channel c.channel_context ≡ some shown = unfold broadcast_on in held in
    let is_there : get other c.components ≡ some k2 = unfold broadcast_on in there2 in
    broadcast_on-Reached none sender context c d other k2 is_there
    ∙ elim (Bool-cases (sender == other)) [
      | inl same ↦
          absurd
            (ground (arith, sym own ∙ same_component sender other k k2 c same there is_there ∙ on))
      | inr differ ↦ rw differ (h other k2 channel shown is_there on unfolded)
    ]
broadcast_on-synced (some ch) sender k context c d there own h other k2 channel shown there2 on
      held =
    let is_there : get other c.components ≡ some k2 = unfold broadcast_on in there2 in
    let now : (if ch == channel then some context else get channel c.channel_context) ≡ some shown =
      unfold broadcast_on in sym (get-put ch channel context c.channel_context) ∙ held in
    broadcast_on-Reached (some ch) sender context c d other k2 is_there
    ∙ elim (Bool-cases (ch == channel)) [
      | inl same ↦
          told_so (sender == other) (on_channel ch k2) (some context)
            (get other c.component_context)
            (on-is ch channel k2 on
              ∙ (channel_same_iff channel ch).1 (sym ((channel_same_iff ch channel).0 same)))
          ∙ sym (ap (λ b. if b then some context else get channel c.channel_context) same)
          ∙ now
      | inr differ ↦
          told_not (sender == other) (on_channel ch k2) (some context)
            (get other c.component_context)
            (elim (Bool-cases (sender == other)) [
              | inr apart ↦ apart
              | inl same ↦ absurd (
                  differ_here ch channel differ
                    (sym own ∙ same_component sender other k k2 c same there is_there ∙ on))
            ])
            (on-is ch channel k2 on ∙ unequal ch channel differ)
          ∙ h other k2 channel shown is_there on (
              sym (ap (λ b. if b then some context else get channel c.channel_context) differ)
              ∙ now)
    ]

pub broadcast_on-IsLinked :
    (sender : Bytes) (k : CanvasComponent) (context : Fdc3Instrument) (c : Canvas)
    → get sender c.components ≡ some k
    → IsLinked c
    → IsLinked (broadcast_on k.channel sender context c).1
broadcast_on-IsLinked sender k context c there h = record {
  distinct = rw broadcast_on-components h.distinct;
  synced = broadcast_on-synced k.channel sender k context c h.distinct there refl h.synced;
}
