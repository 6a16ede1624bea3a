-- ===== src/Core/EntityGraph/Resolve.antt =====
-- When a parent is resolved: exactly if the current records name one, and no other.
use treble_tracker.Prelude.{
  ℕ, suc, ◌≡◌, refl, sym, ◌∙◌, ap, subst, ◌↔◌, List, [], ◌∷◌, is_empty, some, Bool, true, false,
  ◌&&◌, ◌||◌, not, bytes_eq, bytes_eqb_iff, ◌==◌, leb, keep_if, map, length, All, arith, Bool-cases,
  inl, inr, eqb_refl,
}
use treble_tracker.Prelude.Bytes.{Bytes}
use treble_tracker.Prelude.Bytes.Order.{sort_by, insert_by, sorted}
use treble_tracker.Core.EntityGraph.{
  RelationshipEdge, is_visible, is_active, is_withdrawn, visible, member, distinct, sorted_set,
  asserted, resolution, resolve_parent,
}

length-insert_by :
    {A : Type 0} (key : A → Bytes) (x : A) (xs : List A)
    → length (insert_by key x xs) ≡ suc (length xs)
unfolding insert_by
length-insert_by key x [] = refl
length-insert_by key x (y ∷ ys) = ground (arith, length-insert_by key x ys)

length-sort_by : {A : Type 0} (key : A → Bytes) (xs : List A) → length (sort_by key xs) ≡ length xs
unfolding sort_by
length-sort_by key [] = refl
length-sort_by key (x ∷ xs) =
    length-insert_by key x (sort_by key xs) ∙ ap suc (length-sort_by key xs)

-- A sorted list of one is the list of one.
sorted-one : (xs : List Bytes) (p : Bytes) → sorted xs ≡ p ∷ [] → xs ≡ p ∷ []
unfolding sort_by
sorted-one [] p h = h
sorted-one (x ∷ []) p h = h
sorted-one (x ∷ y ∷ xs) p h =
    absurd (omega (arith, ap length h, length-sort_by (λ t. t) (x ∷ y ∷ xs)))

distinct-member : (x : Bytes) (xs : List Bytes) → member x (distinct xs) ≡ member x xs
unfolding distinct
distinct-member x [] = refl
distinct-member x (y ∷ ys) = elim (Bool-cases (member y (distinct ys))) [
  | inl there ↦ elim (Bool-cases (y == x)) [
    | inl same ↦
        rw (there, same)
          (subst (λ z. member z (distinct ys) ≡ true) ((bytes_eqb_iff y x).0 same) there)
    | inr differs ↦ rw (there, differs) (distinct-member x ys)
  ]
  | inr new ↦ rw new (ap (λ b. (y == x) || b) (distinct-member x ys))
]

-- One member, and all are it.
abbrev pub OnlyOne : Bytes → List Bytes → Type 0
OnlyOne p xs = (member p xs ≡ true) × All (λ x. x ≡ p) xs

or-left : (a b : Bool) → a ≡ true → (a || b) ≡ true
or-left a b h = ground (arith, h)

or-right : (a b : Bool) → b ≡ true → (a || b) ≡ true
or-right a b h = ground (arith, h)

or-none : (a : Bool) → (a || false) ≡ true → a ≡ true
or-none a h = ground (arith, h)

distinct-OnlyOne : (p : Bytes) (xs : List Bytes) → OnlyOne p xs → distinct xs ≡ p ∷ []
unfolding distinct
distinct-OnlyOne p [] h = absurd (ground (arith, h.0))
distinct-OnlyOne p (x ∷ []) h = ap (λ y. y ∷ []) h.1.0
distinct-OnlyOne p (x ∷ y ∷ ys) h =
    let first : (y == p) ≡ true = (bytes_eqb_iff y p).1 h.1.1.0 in
    let same : (p == x) ≡ true = (bytes_eqb_iff p x).1 (sym h.1.0) in
    rw (distinct-OnlyOne p (y ∷ ys) (or-left (y == p) (member p ys) first, h.1.1), same) refl

all_of_members :
    (p : Bytes) (xs : List Bytes) → ((x : Bytes) → member x xs ≡ true → x ≡ p) → All (λ x. x ≡ p) xs
all_of_members p [] f = tt
all_of_members p (x ∷ xs) f = (
  f x (or-left (x == x) (member x xs) (eqb_refl x)),
  all_of_members p xs (λ y m. f y (or-right (x == y) (member y xs) m)),
)

OnlyOne-distinct : (p : Bytes) (xs : List Bytes) → distinct xs ≡ p ∷ [] → OnlyOne p xs
OnlyOne-distinct p xs h =
    let as_one : (x : Bytes) → member x xs ≡ ((p == x) || false) =
      λ x. sym (distinct-member x xs) ∙ ap (member x) h in
    (
      as_one p ∙ or-left (p == p) false (eqb_refl p),
      all_of_members p xs
          (λ x m. sym ((bytes_eqb_iff p x).0 (or-none (p == x) (sym (as_one x) ∙ m)))),
    )

sorted_set-one : (p : Bytes) (xs : List Bytes) → (sorted_set xs ≡ p ∷ []) ↔ OnlyOne p xs
unfolding sorted_set sort_by insert_by
sorted_set-one p xs = (
  λ h. OnlyOne-distinct p xs (sorted-one (distinct xs) p h),
  λ h. ap sorted (distinct-OnlyOne p xs h),
)

member-is_empty : (x : Bytes) (xs : List Bytes) → member x xs ≡ true → is_empty xs ≡ false
member-is_empty x [] h = sym h
member-is_empty x (y ∷ ys) h = refl

distinct-is_empty : (xs : List Bytes) → is_empty (distinct xs) ≡ is_empty xs
unfolding distinct
distinct-is_empty [] = refl
distinct-is_empty (x ∷ xs) = elim (Bool-cases (member x (distinct xs))) [
  | inl there ↦ rw there (member-is_empty x (distinct xs) there)
  | inr new ↦ rw new refl
]

insert_by-is_empty : (x : Bytes) (xs : List Bytes) → is_empty (insert_by (λ t. t) x xs) ≡ false
unfolding insert_by
insert_by-is_empty x [] = refl
insert_by-is_empty x (y ∷ ys) = ground arith

sorted-is_empty : (xs : List Bytes) → is_empty (sorted xs) ≡ is_empty xs
unfolding sort_by
sorted-is_empty [] = refl
sorted-is_empty (x ∷ xs) = insert_by-is_empty x (sorted xs)

sorted_set-is_empty : (xs : List Bytes) → is_empty (sorted_set xs) ≡ is_empty xs
unfolding sorted_set sort_by
sorted_set-is_empty xs = sorted-is_empty (distinct xs) ∙ distinct-is_empty xs

keep_if-keep_if :
    {A : Type 0} (first second : A → Bool) (xs : List A)
    → keep_if second (keep_if first xs) ≡ keep_if (λ x. first x && second x) xs
keep_if-keep_if first second [] = refl
keep_if-keep_if first second (x ∷ xs) = elim (Bool-cases (first x)) [
  | inl kept ↦ elim (Bool-cases (second x)) [
    | inl again ↦ rw (kept, again) (ap (◌∷◌ x) (keep_if-keep_if first second xs))
    | inr gone ↦ rw (kept, gone) (keep_if-keep_if first second xs)
  ]
  | inr gone ↦ rw gone (keep_if-keep_if first second xs)
]

-- A stronger test keeps nothing where a weaker one keeps nothing.
keep_if-is_empty :
    {A : Type 0} (strong weak : A → Bool) (xs : List A)
    → ((x : A) → strong x ≡ true → weak x ≡ true)
    → is_empty (keep_if weak xs) ≡ true
    → is_empty (keep_if strong xs) ≡ true
keep_if-is_empty strong weak [] f h = refl
keep_if-is_empty strong weak (x ∷ xs) f h =
    ground (arith, f x, h, keep_if-is_empty strong weak xs f)

map-is_empty : {A B : Type 0} (f : A → B) (xs : List A) → is_empty (map f xs) ≡ is_empty xs
map-is_empty f [] = refl
map-is_empty f (x ∷ xs) = refl

-- The edge is an entity's, of the type, known at the time, and, where only active ones count, active
-- and of a filing that was not withdrawn.
abbrev pub asserts : Bytes → Bytes → ℕ → Bool → RelationshipEdge → Bool
asserts lei relationship_type as_of active_only e =
    is_visible relationship_type as_of active_only e && e.child == lei

asserted-keep_if :
    (edges : List RelationshipEdge) (lei relationship_type : Bytes) (as_of : ℕ) (active_only : Bool)
    → asserted edges lei relationship_type as_of active_only
      ≡ map (λ e. e.parent) (keep_if (asserts lei relationship_type as_of active_only) edges)
unfolding asserted visible
asserted-keep_if edges lei relationship_type as_of active_only =
    ap (map (λ e. e.parent))
      (keep_if-keep_if (is_visible relationship_type as_of active_only) (λ e. e.child == lei) edges)

weaker_test :
    (lei relationship_type : Bytes) (as_of : ℕ) (active_only : Bool) (e : RelationshipEdge)
    → asserts lei relationship_type as_of active_only e ≡ true
    → asserts lei relationship_type as_of false e ≡ true
weaker_test lei relationship_type as_of active_only e h =
    drop_last (e.relationship_type == relationship_type) (leb e.knowledge_from as_of)
      (not active_only || is_active e && not (is_withdrawn e)) (e.child == lei) h
  where
    drop_last : (a b c d : Bool) → (((a && b) && c) && d) ≡ true → (((a && b) && true) && d) ≡ true
    drop_last a b c d k = ground (arith, k)

resolution-resolved :
    (considered active : List Bytes) (p : Bytes)
    → (is_empty considered ≡ true → is_empty active ≡ true)
    → ((resolution considered active).parent ≡ some p) ↔ (active ≡ p ∷ [])
unfolding resolution
resolution-resolved [] [] p h = (λ k. cc, λ k. cc)
resolution-resolved [] (a ∷ rest) p h = absurd (ground (arith, h refl))
resolution-resolved (c ∷ cs) [] p h = (λ k. cc, λ k. cc)
resolution-resolved (c ∷ cs) (a ∷ []) p h = (λ k. cc, λ k. cc)
resolution-resolved (c ∷ cs) (a ∷ b ∷ rest) p h =
    (λ k. cc, λ k. absurd (omega (arith, ap length k)))

-- A parent is resolved exactly if some edge that counts names it, and every edge that counts names it.
pub resolved_iff :
    (edges : List RelationshipEdge) (lei relationship_type : Bytes) (as_of : ℕ) (active_only : Bool)
    (p : Bytes)
    → ((resolve_parent edges lei relationship_type as_of active_only).parent ≡ some p)
      ↔ OnlyOne p
          (map (λ e. e.parent) (keep_if (asserts lei relationship_type as_of active_only) edges))
unfolding resolve_parent
resolved_iff edges lei relationship_type as_of active_only p =
    let considered = asserted edges lei relationship_type as_of false in
    let counted = asserted edges lei relationship_type as_of active_only in
    let listed = asserted-keep_if edges lei relationship_type as_of in
    let empty : is_empty (sorted_set considered) ≡ true → is_empty (sorted_set counted) ≡ true =
      λ h.
        sorted_set-is_empty counted
        ∙ ap is_empty (listed active_only)
        ∙ map-is_empty (λ e. e.parent) _
        ∙ keep_if-is_empty (asserts lei relationship_type as_of active_only)
            (asserts lei relationship_type as_of false) edges
            (weaker_test lei relationship_type as_of active_only)
            (sym (map-is_empty (λ e. e.parent) _)
              ∙ sym (ap is_empty (listed false))
              ∙ sym (sorted_set-is_empty considered)
              ∙ h) in
    let r = resolution-resolved (sorted_set considered) (sorted_set counted) p empty in
    let one = sorted_set-one p counted in
    (
      λ h. subst (OnlyOne p) (listed active_only) (one.0 (r.0 h)),
      λ h. r.1 (one.1 (subst (OnlyOne p) (sym (listed active_only)) h)),
    )
