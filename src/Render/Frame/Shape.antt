-- ===== src/Render/Frame/Shape.antt =====
-- A frame fills its place exactly, and one that is wide enough for its title hides nothing unmarked.
use treble_tracker.Prelude.{
  ℕ, zero, append_assoc, none, some, ◌⊎◌, inl, inr, Bool-cases, suc, ◌+◌, ◌-◌, ◌≤◌, ◌≡◌, refl, sym,
  ap, ◌∙◌, subst, List, [], ◌∷◌, ◌++◌, Bool, true, false, ◌||◌, arith, ok, err, ltb, if◌then◌else◌,
  length, length-append, any, map, take, All, All-append,
}
use treble_tracker.Prelude.Bytes.{Bytes, codes}
use treble_tracker.Render.Channel.{colour}
use treble_tracker.Render.Canvas.{Placement, CanvasComponent}
use treble_tracker.Render.Frame.{
  repeated, ljust, is_clipped, title_of, body_line, body_lines, frame_of, frame_lines,
  min_placement, no_interior,
}

length-repeated : (n c : ℕ) → length (repeated n c) ≡ n
length-repeated zero c = omega arith
length-repeated (suc n) c = omega (arith, length-repeated n c)

length-take : (n : ℕ) (xs : Bytes) → length (take n xs) ≤ n
length-take zero xs = omega arith
length-take (suc n) [] = omega arith
length-take (suc n) (x ∷ xs) = omega (arith, length-take n xs)

length-ljust : (n c : ℕ) (xs : Bytes) → length xs ≤ n → length (ljust n c xs) ≡ n
unfolding ljust
length-ljust n c xs h =
    omega (arith, length-append xs (repeated (n - length xs) c), length-repeated (n - length xs) c)

length-bordered :
    (n c : ℕ) (xs : Bytes) (edge : ℕ) → length xs ≡ n → length (edge ∷ (xs ++ edge ∷ [])) ≡ n + 2
length-bordered n c xs edge h = omega (arith, length-append xs (edge ∷ []))

length-body_line : (n : ℕ) (body : Bytes) → length (body_line n body) ≡ n + 2
unfolding body_line
length-body_line n body =
    length-bordered n 0 (ljust n 32 (take n body)) b'|'
      (length-ljust n 32 (take n body) (length-take n body))

body_lines-size :
    (n rows : ℕ) (content : List Bytes)
    → (length (body_lines n rows content) ≡ rows)
      × All (λ l. length l ≡ n + 2) (body_lines n rows content)
unfolding body_lines
body_lines-size n zero content = (omega arith, tt)
body_lines-size n (suc rows) [] =
    let rest = body_lines-size n rows [] in (omega (arith, rest.0), (length-body_line n [], rest.1))
body_lines-size n (suc rows) (l ∷ ls) =
    let rest = body_lines-size n rows ls in (omega (arith, rest.0), (length-body_line n l, rest.1))

frame_of-size :
    (k : CanvasComponent) (width height : ℕ) (content : List Bytes)
    → (length (frame_of k width height content) ≡ height + 2)
      × All (λ l. length l ≡ width + 2) (frame_of k width height content)
unfolding frame_of
frame_of-size k width height content =
    let title = title_of k (is_clipped width height content) in
    let body = body_lines-size width height content in
    let edge = b'+' ∷ (repeated width b'-' ++ b'+' ∷ []) in
    (
      omega (arith, body.0, length-append (body_lines width height content) (edge ∷ [])),
      (
        length-bordered width 0 (ljust width b'-' (take width title)) b'+'
            (length-ljust width b'-' (take width title) (length-take width title)),
        All-append (λ l. length l ≡ width + 2) (body_lines width height content) (edge ∷ []) body.1
            (length-bordered width 0 (repeated width b'-') b'+' (length-repeated width b'-'), tt),
      ),
    )

made :
    (small : Bool) (lines after : List Bytes)
    → (if small then err no_interior else ok lines) ≡ ok after
    → (small ≡ false) × (lines ≡ after)
made true lines after h = absurd (ground (arith, h))
made false lines after h = (refl, ground (arith, h))

-- A frame that is drawn has exactly the lines and columns of its place, whatever the content is.
pub frame_fills :
    (k : CanvasComponent) (p : Placement) (content lines : List Bytes)
    → frame_lines k p content ≡ ok lines
    → (length lines ≡ p.height) × All (λ l. length l ≡ p.width) lines
unfolding frame_lines
frame_fills k p content lines h =
    let m =
      made (ltb p.width min_placement || ltb p.height min_placement)
        (frame_of k (p.width - 2) (p.height - 2) content) lines h in
    let size = frame_of-size k (p.width - 2) (p.height - 2) content in
    let tall : p.height - 2 + 2 ≡ p.height = ground (arith, m.0) in
    let wide : p.width - 2 + 2 ≡ p.width = ground (arith, m.0) in
    (
      sym (ap length m.1) ∙ size.0 ∙ tall,
      subst (λ n. All (λ l. length l ≡ n) lines) wide
          (subst (λ ls. All (λ l. length l ≡ p.width - 2 + 2) ls) m.1 size.1),
    )

-- A line of the content that stands whole between the borders.
abbrev pub whole : ℕ → Bytes → Bytes
whole width l = b'|' ∷ ((l ++ repeated (width - length l) 32) ++ b'|' ∷ [])

abbrev pub blank_lines : ℕ → ℕ → List Bytes
blank_lines width zero = []
blank_lines width (suc rows) = whole width [] ∷ blank_lines width rows

-- The title, every line of the content whole and in order, blank lines, and the bottom.
abbrev pub whole_frame : CanvasComponent → ℕ → ℕ → List Bytes → List Bytes
whole_frame k width height content =
    (b'+' ∷ (ljust width b'-' (take width (title_of k false)) ++ b'+' ∷ []))
    ∷ ((map (whole width) content ++ blank_lines width (height - length content))
        ++ (b'+' ∷ (repeated width b'-' ++ b'+' ∷ [])) ∷ [])

take-all : (n : ℕ) (xs : Bytes) → length xs ≤ n → take n xs ≡ xs
take-all zero [] h = refl
take-all zero (x ∷ xs) h = absurd (omega (arith, h))
take-all (suc n) [] h = refl
take-all (suc n) (x ∷ xs) h = ap (◌∷◌ x) (take-all n xs (omega (arith, h)))

body_line-whole : (n : ℕ) (l : Bytes) → length l ≤ n → body_line n l ≡ whole n l
unfolding body_line ljust
body_line-whole n l h = rw (take-all n l h) refl

body_lines-blank : (n rows : ℕ) → body_lines n rows [] ≡ blank_lines n rows
unfolding body_lines
body_lines-blank n zero = refl
body_lines-blank n (suc rows) =
    rw (body_line-whole n [] (omega arith), body_lines-blank n rows) refl

body_lines-whole :
    (n rows : ℕ) (content : List Bytes)
    → length content ≤ rows
    → any (λ l. ltb n (length l)) content ≡ false
    → body_lines n rows content ≡ map (whole n) content ++ blank_lines n (rows - length content)
unfolding body_lines
body_lines-whole n rows [] h fits =
    body_lines-blank n rows ∙ ap (blank_lines n) {x = rows} {y = rows - 0} (omega arith)
body_lines-whole n zero (l ∷ ls) h fits = absurd (omega (arith, h))
body_lines-whole n (suc rows) (l ∷ ls) h fits =
    rw
      (
        body_line-whole n l (ground (arith, fits)),
        body_lines-whole n rows ls (omega (arith, h)) (ground (arith, fits)),
      )
      (ap (λ r. whole n l ∷ (map (whole n) ls ++ blank_lines n r)) {x = rows - length ls}
        {y = suc rows - suc (length ls)} (omega arith))

fits_rows :
    (height : ℕ) (content : List Bytes) (width : ℕ)
    → is_clipped width height content ≡ false
    → length content ≤ height
unfolding is_clipped
fits_rows height content width h = ground (arith, h)

fits_columns :
    (height : ℕ) (content : List Bytes) (width : ℕ)
    → is_clipped width height content ≡ false
    → any (λ l. ltb width (length l)) content ≡ false
unfolding is_clipped
fits_columns height content width h = ground (arith, h)

frame_of-whole :
    (k : CanvasComponent) (width height : ℕ) (content : List Bytes)
    → is_clipped width height content ≡ false
    → frame_of k width height content ≡ whole_frame k width height content
unfolding frame_of
frame_of-whole k width height content h =
    rw
      (
        h,
        body_lines-whole width height content (fits_rows height content width h)
            (fits_columns height content width h),
      )
      refl

-- The title before its mark.
named_part : CanvasComponent → Bytes
named_part k =
    codes " "
    ++ (k.screen ++ (elim k.channel as (λ _. Bytes) [
      | none ↦ []
      | some channel ↦ codes " " ++ colour channel
    ]))

title_of-marked : (k : CanvasComponent) → title_of k true ≡ named_part k ++ codes " CLIP "
unfolding title_of named_part
title_of-marked k = ap (◌∷◌ 32) (
    sym (
      append_assoc k.screen
        (elim k.channel as (λ _. Bytes) [ none ↦ [] | some channel ↦ codes " " ++ colour channel ])
        (codes " CLIP ")))

frame_of-marked :
    (k : CanvasComponent) (width height : ℕ) (content : List Bytes)
    → length (title_of k true) ≤ width
    → is_clipped width height content ≡ true
    → (front back : Bytes) × (below : List Bytes) × (frame_of k width height content
        ≡ (front ++ (codes " CLIP " ++ back)) ∷ below)
unfolding frame_of ljust
frame_of-marked k width height content wide h =
    let pad = repeated (width - length (title_of k true)) b'-' ++ b'+' ∷ [] in
    let e : (title_of k true ++ repeated (width - length (title_of k true)) b'-') ++ b'+' ∷ []
        ≡ named_part k ++ (codes " CLIP " ++ pad) =
      append_assoc (title_of k true) (repeated (width - length (title_of k true)) b'-') (b'+' ∷ [])
      ∙ ap (λ t. t ++ pad) (title_of-marked k)
      ∙ append_assoc (named_part k) (codes " CLIP ") pad in
    (
      b'+' ∷ named_part k,
      pad,
      body_lines width height content ++ (b'+' ∷ (repeated width b'-' ++ b'+' ∷ [])) ∷ [],
      rw (h, take-all width (title_of k true) wide)
          (ap
            (λ t.
              (b'+' ∷ t)
              ∷ (body_lines width height content
                  ++ (b'+' ∷ (repeated width b'-' ++ b'+' ∷ [])) ∷ []))
            e),
    )

-- The content has more lines than the interior, or a longer one.
abbrev pub overflows : ℕ → ℕ → List Bytes → Bool
overflows width height content =
    ltb height (length content) || any (λ l. ltb width (length l)) content

-- A frame whose interior is wide enough for its title with the mark `CLIP` hides nothing unmarked.
-- Where the content fits, it shows between its top and its bottom every line of it whole, in order,
-- and then blank lines. Where it does not, the drawn top line has the mark.
pub frame_hides_nothing :
    (k : CanvasComponent) (width height : ℕ) (content : List Bytes)
    → length (title_of k true) ≤ width
    → ((overflows width height content ≡ false)
        × (frame_of k width height content ≡ whole_frame k width height content))
      ⊎ ((overflows width height content ≡ true)
          × (front back : Bytes) × (below : List Bytes) × (frame_of k width height content
              ≡ (front ++ (codes " CLIP " ++ back)) ∷ below))
unfolding is_clipped
frame_hides_nothing k width height content wide =
    elim (Bool-cases (overflows width height content)) [
      | inl over ↦
          let m = frame_of-marked k width height content wide over in inr (over, m.0, m.1, m.2, m.3)
      | inr fits ↦ inl (fits, frame_of-whole k width height content fits)
    ]
