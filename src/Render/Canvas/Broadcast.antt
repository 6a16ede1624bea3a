-- ===== src/Render/Canvas/Broadcast.antt =====
-- Whom a broadcast reaches.
use treble_tracker.Prelude.{
  ◌≡◌, refl, sym, ap, ◌∙◌, subst, List, [], ◌∷◌, Option, none, some, Bool, true, false, ◌&&◌, ◌||◌,
  not, arith, Result, ok, bytes_eq, bytes_eqb_iff, ◌==◌, if◌then◌else◌, Option-cases, Bool-cases,
  inl, inr,
}
use treble_tracker.Prelude.Dict.{Dict, IsDict, get, put, get-put}
use treble_tracker.Prelude.Bytes.{Bytes}
use treble_tracker.Render.Channel.{Channel, channel_eq}
use treble_tracker.Render.Canvas.{
  Fdc3Instrument, CanvasComponent, Canvas, CanvasError, component_of, on_channel, others_among,
  show_all, broadcast_on, broadcast,
}

and_false : (b : Bool) → ((b && false) || false) ≡ false
and_false true = refl
and_false false = refl

and_true : (b : Bool) → ((b && true) || false) ≡ b
and_true true = refl
and_true false = refl

or_false : (b c : Bool) → ((b && false) || c) ≡ c
or_false true c = refl
or_false false c = refl

pub some-is : {A : Type 0} (a b : A) → some a ≡ some b → a ≡ b
some-is a b e = ground (arith, e)

abbrev pub has : Bytes → List Bytes → Bool
has id [] = false
has id (i ∷ ids) = (i == id) || has id ids

get-show_all :
    (other : Bytes) (ids : List Bytes) (context : Fdc3Instrument) (d : Dict Bytes Fdc3Instrument)
    → get other (show_all ids context d) ≡ (if has other ids then some context else get other d)
unfolding show_all
get-show_all other [] context d = refl
get-show_all other (id ∷ ids) context d =
    ground (arith, get-show_all other ids context (put id context d), get-put id other context d)

has-if :
    (other id : Bytes) (b : Bool) (ids : List Bytes)
    → has other (if b then id ∷ ids else ids) ≡ ((b && (id == other)) || has other ids)
has-if other id true ids = refl
has-if other id false ids = refl

has-absent :
    (channel : Channel) (sender other : Bytes) (d : Dict Bytes CanvasComponent)
    → get other d ≡ none
    → has other (others_among channel sender d) ≡ false
unfolding others_among get
has-absent channel sender other [] h = refl
has-absent channel sender other ((id, k) ∷ d) h = elim (Bool-cases (id == other)) [
  | inl same ↦ absurd (ground (arith, sym (ap (λ b. if b then some k else get other d) same) ∙ h))
  | inr differ ↦
      has-if other id (on_channel channel k && not (id == sender)) (others_among channel sender d)
      ∙ rw
          (
            differ,
            has-absent channel sender other d
                (sym (ap (λ b. if b then some k else get other d) differ) ∙ h),
          )
          (and_false (on_channel channel k && not (id == sender)))
]

-- Who is updated: every other component of the channel.
has-others :
    (channel : Channel) (sender other : Bytes) (k : CanvasComponent)
    (d : Dict Bytes CanvasComponent)
    → IsDict d
    → get other d ≡ some k
    → has other (others_among channel sender d) ≡ (on_channel channel k && not (other == sender))
unfolding others_among get
has-others channel sender other k [] h there = absurd (ground (arith, there))
has-others channel sender other k ((id, own) ∷ d) h there = elim (Bool-cases (id == other)) [
  | inl same ↦
      has-if other id (on_channel channel own && not (id == sender)) (others_among channel sender d)
      ∙ rw
          (
            same,
            has-absent channel sender other d
                (subst (λ i. get i d ≡ none) ((bytes_eqb_iff id other).0 same) h.0),
            (bytes_eqb_iff id other).0 same,
            some-is own k (sym (ap (λ b. if b then some own else get other d) same) ∙ there),
          )
          (and_true (on_channel channel k && not (other == sender)))
  | inr differ ↦
      has-if other id (on_channel channel own && not (id == sender)) (others_among channel sender d)
      ∙ rw
          (
            differ,
            has-others channel sender other k d h.1
                (sym (ap (λ b. if b then some own else get other d) differ) ∙ there),
          )
          (or_false (on_channel channel own && not (id == sender))
            (on_channel channel k && not (other == sender)))
]

-- The component is on the sender's channel.
abbrev pub reaches : Option Channel → CanvasComponent → Bool
reaches none k = false
reaches (some channel) k = on_channel channel k

-- What each component shows after a broadcast.
abbrev pub Reached : Bytes → Option Channel → Fdc3Instrument → Canvas → Canvas → Type 0
Reached sender own context c after =
    (other : Bytes) (k : CanvasComponent)
    → get other c.components ≡ some k
    → get other after.component_context
      ≡ (if (sender == other) || reaches own k then some context else get other c.component_context)

on-sender :
    (a b c : Bool) (x z : Option Fdc3Instrument)
    → a ≡ c
    → (if b && not a then x else (if c then x else z)) ≡ (if c || b then x else z)
on-sender true true true x z e = refl
on-sender true false true x z e = refl
on-sender false true false x z e = refl
on-sender false false false x z e = refl
on-sender true b false x z e = absurd (ground (arith, e))
on-sender false b true x z e = absurd (ground (arith, e))

eqb_sym : (a b : Bytes) → (a == b) ≡ (b == a)
eqb_sym a b = ground (arith, bytes_eqb_iff a b, bytes_eqb_iff b a)

pub broadcast_on-Reached :
    (own : Option Channel) (sender : Bytes) (context : Fdc3Instrument) (c : Canvas)
    → IsDict c.components
    → Reached sender own context c (broadcast_on own sender context c).1
unfolding broadcast_on
broadcast_on-Reached none sender context c h other k there =
    get-put sender other context c.component_context
    ∙ elim (sender == other)
        as (λ b.
          (if b then some context else get other c.component_context)
          ≡ (if b || false then some context else get other c.component_context)) [
            | true ↦ refl
            | false ↦ refl
          ]
broadcast_on-Reached (some channel) sender context c h other k there =
    get-show_all other (others_among channel sender c.components) context
      (put sender context c.component_context)
    ∙ rw
        (
          has-others channel sender other k c.components h there,
          get-put sender other context c.component_context,
        )
        (on-sender (other == sender) (on_channel channel k) (sender == other) (some context)
          (get other c.component_context) (eqb_sym other sender))

pub broadcast_on-components :
    (own : Option Channel) (sender : Bytes) (context : Fdc3Instrument) (c : Canvas)
    → (broadcast_on own sender context c).1.components ≡ c.components
unfolding broadcast_on
broadcast_on-components none sender context c = refl
broadcast_on-components (some channel) sender context c = refl

component_of-found :
    (id : Bytes) (k : CanvasComponent) (c : Canvas)
    → get id c.components ≡ some k
    → component_of id c ≡ ok k
unfolding component_of
component_of-found id k c there = rw (there, component_of) refl

pub component_of-ok :
    (id : Bytes) (k : CanvasComponent) (c : Canvas)
    → component_of id c ≡ ok k
    → get id c.components ≡ some k
unfolding component_of
component_of-ok id k c e = elim (Option-cases (get id c.components)) [
  | inl n ↦ absurd (ground (arith, e, n))
  | inr s ↦ s.1 ∙ ap some (ground (arith, e, s.1))
]

pub broadcast-found :
    (sender : Bytes) (context : Fdc3Instrument) (c : Canvas) (k : CanvasComponent)
    → get sender c.components ≡ some k
    → broadcast sender context c ≡ ok (broadcast_on k.channel sender context c)
unfolding broadcast
broadcast-found sender context c k there = rw (component_of-found sender k c there) refl

ok-is : {A : Type 0} (a b : A) (r : Result CanvasError A) → r ≡ ok a → r ≡ ok b → a ≡ b
ok-is a b r e f = ground (arith, e, f)

-- A broadcast puts its context into the sender and into every other component of the sender's channel,
-- and into no other component; a sender without a channel reaches itself alone. The components stay
-- as they are.
pub broadcast_reaches :
    (sender : Bytes) (context : Fdc3Instrument) (c after : Canvas) (told : List Bytes)
    (k : CanvasComponent)
    → IsDict c.components
    → get sender c.components ≡ some k
    → broadcast sender context c ≡ ok (told, after)
    → Reached sender k.channel context c after × (after.components ≡ c.components)
broadcast_reaches sender context c after told k h there e =
    subst (λ r. Reached sender k.channel context c r.1 × (r.1.components ≡ c.components))
      (ok-is (broadcast_on k.channel sender context c) (told, after) (broadcast sender context c)
        (broadcast-found sender context c k there) e)
      (
        broadcast_on-Reached k.channel sender context c h,
        broadcast_on-components k.channel sender context c,
      )
