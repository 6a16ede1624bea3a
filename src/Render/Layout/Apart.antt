-- ===== src/Render/Layout/Apart.antt =====
-- A layout without overlaps stays without, and a drag that is refused is refused for an overlap.
use treble_tracker.Prelude.{
  ◌≡◌, refl, sym, ap, ◌∙◌, subst, List, [], ◌∷◌, none, some, Bool, true, false, ◌&&◌, ◌||◌, not,
  arith, Result, ok, err, ◌>>=◌, >>=-ok, bytes_eq, bytes_eqb_iff, ◌==◌, if◌then◌else◌, all,
  Bool-cases, Option-cases, inl, inr, map,
}
use treble_tracker.Prelude.Int.{ℤ, pos, pos_part, ltb_ℤ, ◌≤ℤ◌}
use treble_tracker.Prelude.Bytes.{Bytes}
use treble_tracker.Render.Canvas.{Placement, CanvasComponent, overlaps}
use treble_tracker.Render.Layout.{
  LayoutError, no_component, too_small, min_width, min_height, replace_in, replace_placement,
  clashes, check_free, placement_of, place, move_component, resize_component, put_at,
}

pub overlaps_sym : (a b : Placement) → overlaps a b ≡ overlaps b a
unfolding overlaps
overlaps_sym a b = ground arith

-- Two components collide if they have different ids and their places overlap.
abbrev pub collide : CanvasComponent → CanvasComponent → Bool
collide a b = elim a.placement [ none ↦ false | some p ↦ clashes a.id p b ]

-- No two components of the layout collide.
abbrev pub apart : List CanvasComponent → Bool
apart [] = true
apart (k ∷ ks) = all (λ other. not (collide k other)) ks && apart ks

check_free-free :
    (id : Bytes) (p : Placement) (ks : List CanvasComponent)
    → check_free id p ks ≡ ok tt
    → all (λ k. not (clashes id p k)) ks ≡ true
unfolding check_free
check_free-free id p [] h = refl
check_free-free id p (k ∷ ks) h = ground (arith, h, check_free-free id p ks)

-- A pair that does not collide does not once one component stands in a free place.
collide-put_at :
    (id : Bytes) (p : Placement) (a b : CanvasComponent)
    → collide a b ≡ false
    → clashes id p a ≡ false
    → clashes id p b ≡ false
    → collide (put_at id p a) (put_at id p b) ≡ false
collide-put_at id p a b h fa fb = elim (Bool-cases (a.id == id)) [
  | inl sa ↦ elim (Bool-cases (b.id == id)) [
    | inl sb ↦
        let e : (b.id == a.id) ≡ true =
          (bytes_eqb_iff b.id a.id).1
            ((bytes_eqb_iff b.id id).0 sb ∙ sym ((bytes_eqb_iff a.id id).0 sa)) in
        rw (sa, sb, e) refl
    | inr nb ↦
        rw (sa, nb) (subst (λ i. clashes i p b ≡ false) (sym ((bytes_eqb_iff a.id id).0 sa)) fb)
  ]
  | inr na ↦ elim (Bool-cases (b.id == id)) [
    | inl sb ↦ elim (Option-cases a.placement) [
      | inl n ↦ rw (na, sb, n) refl
      | inr q ↦ rw (na, sb, q.1) (ground (arith, fa, na, q.1, overlaps_sym p q.0))
    ]
    | inr nb ↦ rw (na, nb) h
  ]
]

replace_in-map :
    (id : Bytes) (p : Placement) (ks : List CanvasComponent)
    → (replace_in id p ks).1 ≡ map (put_at id p) ks
unfolding replace_in
replace_in-map id p [] = refl
replace_in-map id p (k ∷ ks) = ap (λ r. put_at id p k ∷ r) (replace_in-map id p ks)

negated : (b : Bool) → not b ≡ true → b ≡ false
negated b h = ground (arith, h)

and-inv : (a b : Bool) → (a && b) ≡ true → (a ≡ true) × (b ≡ true)
and-inv a b h = ground (arith, h)

and-both : (a b : Bool) → a ≡ true → b ≡ true → (a && b) ≡ true
and-both a b h k = ground (arith, h, k)

-- Nothing collides with the component; nothing clashes with the place.
abbrev alone : CanvasComponent → List CanvasComponent → Bool
alone a ks = all (λ other. not (collide a other)) ks

abbrev free : Bytes → Placement → List CanvasComponent → Bool
free id p ks = all (λ k. not (clashes id p k)) ks

apart-one :
    (id : Bytes) (p : Placement) (a : CanvasComponent) (ks : List CanvasComponent)
    → alone a ks ≡ true
    → clashes id p a ≡ false
    → free id p ks ≡ true
    → alone (put_at id p a) (map (put_at id p) ks) ≡ true
apart-one id p a [] h fa f = refl
apart-one id p a (k ∷ ks) h fa f =
    let hs = and-inv (not (collide a k)) (alone a ks) h in
    let fs = and-inv (not (clashes id p k)) (free id p ks) f in
    and-both (not (collide (put_at id p a) (put_at id p k)))
      (alone (put_at id p a) (map (put_at id p) ks))
      (ap not
        (collide-put_at id p a k (negated (collide a k) hs.0) fa (negated (clashes id p k) fs.0)))
      (apart-one id p a ks hs.1 fa fs.1)

apart-map :
    (id : Bytes) (p : Placement) (ks : List CanvasComponent)
    → apart ks ≡ true
    → free id p ks ≡ true
    → apart (map (put_at id p) ks) ≡ true
apart-map id p [] h f = refl
apart-map id p (k ∷ ks) h f =
    let hs = and-inv (alone k ks) (apart ks) h in
    let fs = and-inv (not (clashes id p k)) (free id p ks) f in
    and-both (alone (put_at id p k) (map (put_at id p) ks)) (apart (map (put_at id p) ks))
      (apart-one id p k ks hs.0 (negated (clashes id p k) fs.0) fs.1) (apart-map id p ks hs.1 fs.1)

taken :
    (found : Bool) (ks after : List CanvasComponent)
    → (if found then ok ks else err no_component) ≡ ok after
    → ks ≡ after
taken found ks after h = ground (arith, h)

guarded :
    (small : Bool) (rest : Result LayoutError (List CanvasComponent)) (after : List CanvasComponent)
    → (if small then err too_small else rest) ≡ ok after
    → (small ≡ false) × (rest ≡ ok after)
guarded true rest after h = absurd (ground (arith, h))
guarded false rest after h = (refl, h)

unit_only : (u : Unit {0}) → u ≡ tt
unit_only u = refl

-- A drop that is let through: the place was free, and the component alone is at a new place.
place-ok :
    (id : Bytes) (p : Placement) (ks after : List CanvasComponent)
    → place id p ks ≡ ok after
    → (free id p ks ≡ true) × (after ≡ map (put_at id p) ks)
unfolding place replace_placement
place-ok id p ks after h =
    let s =
      >>=-ok (check_free id p ks)
        (λ _. if (replace_in id p ks).0 then ok (replace_in id p ks).1 else err no_component) h in
    (
      check_free-free id p ks (s.1 ∙ ap ok (unit_only s.0)),
      sym (taken (replace_in id p ks).0 (replace_in id p ks).1 after s.2) ∙ replace_in-map id p ks,
    )

-- A drag to any corner, a negative one included, that is let through leaves a layout without overlaps
-- if it was one, and changes nothing but the corner of the one component.
pub move_keeps_apart :
    (id : Bytes) (x y : ℤ) (ks after : List CanvasComponent)
    → apart ks ≡ true
    → move_component id x y ks ≡ ok after
    → (current : Placement) × (placement_of id ks ≡ ok current)
      × (apart after ≡ true)
      × (after ≡ map (put_at id (record current { x = x; y = y })) ks)
unfolding move_component
move_keeps_apart id x y ks after h e =
    let s =
      >>=-ok (placement_of id ks) (λ current. place id (record current { x = x; y = y }) ks) e in
    let p = record (s.0) { x = x; y = y } in
    let d = place-ok id p ks after s.2 in
    (s.0, s.1, subst (λ l. apart l ≡ true) (sym d.1) (apart-map id p ks h d.0), d.1)

-- A resize that is let through asks for no size below the least, leaves a layout without overlaps if
-- it was one, and changes nothing but the size of the one component.
pub resize_keeps_apart :
    (id : Bytes) (width height : ℤ) (ks after : List CanvasComponent)
    → apart ks ≡ true
    → resize_component id width height ks ≡ ok after
    → (pos min_width ≤ℤ width)
      × (pos min_height ≤ℤ height)
      × (apart after ≡ true)
      × (current : Placement) × (placement_of id ks ≡ ok current)
      × (after
          ≡ map
              (put_at id (record current { width = pos_part width; height = pos_part height }))
              ks)
unfolding resize_component
resize_keeps_apart id width height ks after h e =
    let g =
      guarded (ltb_ℤ width (pos min_width) || ltb_ℤ height (pos min_height))
        (placement_of id ks >>= λ current.
          place id (record current { width = pos_part width; height = pos_part height }) ks)
        after e in
    let s =
      >>=-ok (placement_of id ks)
        (λ current.
          place id (record current { width = pos_part width; height = pos_part height }) ks)
        g.1 in
    let p = record (s.0) { width = pos_part width; height = pos_part height } in
    let d = place-ok id p ks after s.2 in
    (
      ground (arith, g.0),
      ground (arith, g.0),
      subst (λ l. apart l ≡ true) (sym d.1) (apart-map id p ks h d.0),
      s.0,
      s.1,
      d.1,
    )
