-- ===== src/Plant/Quotes/Live.antt =====
-- What a book shows: the live quotes, all of them, in order, and prices that no other one beats.
use treble_tracker.Prelude.Bytes.Order.{text_le, text_le-total}
use treble_tracker.Prelude.{
  ℕ, ◌≡◌, refl, sym, ap, ◌∙◌, List, [], ◌∷◌, Option, none, some, Bool, true, false, arith, bytes_eq,
  if◌then◌else◌, length, keep_if, map, Bool-cases, Option-cases, ◌⊎◌, inl, inr,
}
use mathlib.Core.List.{Permᴰ}
use mathlib.Core.List.Permᴰ
use treble_tracker.Prelude.Float.{FloatOps}
use treble_tracker.Prelude.Dict.{get}
use treble_tracker.Prelude.Bytes.{Bytes}
use treble_tracker.Plant.Quotes.{
  Side, Quote, Book, QuoteBook, is_executable, present, side_of, prices, pick, best_of, max_of,
  min_of, tcmp, is_empty, quotes_of, is_live, insert_quote, sort_quotes, live_quotes, book,
}

module _ {A : Type 0} where
  abbrev pub In : A → List A → Type 0
  In x [] = ⊥
  In x (y ∷ ys) = (x ≡ y) ⊎ In x ys

module _ {F : Type 0} (beaten : F → F → Bool) (irreflexive : (x : F) → beaten x x ≡ false)
    (transitive : (x y z : F) → beaten x y ≡ true → beaten y z ≡ true → beaten x z ≡ true) where
  -- What does not beat an item does not beat one that is better.
  unbeaten : (m x y : F) → beaten m y ≡ false → beaten m x ≡ true → beaten x y ≡ false
  unbeaten m x y h w = elim (Bool-cases (beaten x y)) [
    | inl b ↦ absurd (ground (arith, h, transitive m x y w b))
    | inr b ↦ b
  ]

  pick-bound : (m y : F) (xs : List F) → beaten m y ≡ false → beaten (pick beaten m xs) y ≡ false
  unfolding pick
  pick-bound m y [] h = h
  pick-bound m y (x ∷ xs) h = elim (Bool-cases (beaten m x)) [
    | inl w ↦ rw w (pick-bound x y xs (unbeaten m x y h w))
    | inr l ↦ rw l (pick-bound m y xs h)
  ]

  pick-best : (m y : F) (xs : List F) → In y (m ∷ xs) → beaten (pick beaten m xs) y ≡ false
  unfolding pick
  pick-best m y xs (inl e) = pick-bound m y xs (ap (beaten m) e ∙ irreflexive m)
  pick-best m y [] (inr i) = elim i [ ]
  pick-best m y (x ∷ xs) (inr i) = elim (Bool-cases (beaten m x)) [
    | inl w ↦ rw w (pick-best x y xs i)
    | inr l ↦ rw l (elim i [
      | inl e ↦ pick-bound m y xs (ap (beaten m) e ∙ l)
      | inr j ↦ pick-best m y xs (inr j)
    ])
  ]

  pick-In : (m : F) (xs : List F) → In (pick beaten m xs) (m ∷ xs)
  unfolding pick
  pick-In m [] = inl refl
  pick-In m (x ∷ xs) =
      elim (beaten m x) as (λ c. In (pick beaten (if c then x else m) xs) (m ∷ x ∷ xs)) [
        | true ↦ inr (pick-In x xs)
        | false ↦ elim (pick-In m xs) [ inl e ↦ inl e | inr j ↦ inr (inr j) ]
      ]

  best_of-best :
      (y : F) (xs : List F)
      → In y xs
      → (m : F) × (best_of beaten xs ≡ some m) × In m xs × (beaten m y ≡ false)
  unfolding best_of
  best_of-best y [] i = elim i [ ]
  best_of-best y (x ∷ xs) i = (pick beaten x xs, refl, pick-In x xs, pick-best x y xs i)

module _ {F : Type 0} where
  In-present :
      (p : F) (f : Quote F → Option F) (q : Quote F) (qs : List (Quote F))
      → In q qs
      → f q ≡ some p
      → In p (present (map f qs))
  unfolding present
  In-present p f q [] i e = elim i [ ]
  In-present p f q (r ∷ rs) (inl same) e = rw (sym (ap f same) ∙ e) (inl refl)
  In-present p f q (r ∷ rs) (inr i) e = elim (Option-cases (f r)) [
    | inl n ↦ rw n (In-present p f q rs i e)
    | inr s ↦ rw s.1 (inr (In-present p f q rs i e))
  ]

  In-keep_if :
      (keep : Quote F → Bool) (q : Quote F) (qs : List (Quote F))
      → In q qs
      → keep q ≡ true
      → In q (keep_if keep qs)
  In-keep_if keep q [] i e = elim i [ ]
  In-keep_if keep q (r ∷ rs) (inl same) e = rw (sym (ap keep same) ∙ e) (inl same)
  In-keep_if keep q (r ∷ rs) (inr i) e = elim (Bool-cases (keep r)) [
    | inl k ↦ rw k (inr (In-keep_if keep q rs i e))
    | inr k ↦ rw k (In-keep_if keep q rs i e)
  ]

  present-head :
      (p : F) (o : Option F) (os : List (Option F))
      → In p (present (o ∷ os))
      → (o ≡ some p) ⊎ In p (present os)
  unfolding present
  present-head p none os i = inr i
  present-head p (some x) os (inl e) = inl (ap some (sym e))
  present-head p (some x) os (inr i) = inr i

  present-from :
      (p : F) (f : Quote F → Option F) (qs : List (Quote F))
      → In p (present (map f qs))
      → (q : Quote F) × In q qs × (f q ≡ some p)
  unfolding present
  present-from p f [] i = elim i [ ]
  present-from p f (r ∷ rs) i = elim (present-head p (f r) (map f rs) i) [
    | inl e ↦ (r, inl refl, e)
    | inr j ↦ let found = present-from p f rs j in (found.0, inr found.1, found.2)
  ]

  keep-head :
      (q r : Quote F) (b : Bool) (rs : List (Quote F))
      → In q (if b then r ∷ rs else rs)
      → ((q ≡ r) × (b ≡ true)) ⊎ In q rs
  keep-head q r true rs (inl e) = inl (e, refl)
  keep-head q r true rs (inr i) = inr i
  keep-head q r false rs i = inr i

  keep_if-from :
      (keep : Quote F → Bool) (q : Quote F) (qs : List (Quote F))
      → In q (keep_if keep qs)
      → In q qs × (keep q ≡ true)
  keep_if-from keep q [] i = elim i [ ]
  keep_if-from keep q (r ∷ rs) i = elim (keep-head q r (keep r) (keep_if keep rs) i) [
    | inl e ↦ (inl e.0, ap keep e.0 ∙ e.1)
    | inr j ↦ let found = keep_if-from keep q rs j in (inr found.0, found.1)
  ]

  prices-In :
      (side : Side) (b : Book F) (q : Quote F) (p : F)
      → In q b.quotes
      → is_executable q ≡ true
      → side_of side q ≡ some p
      → In p (prices side true b)
  unfolding prices
  prices-In side b q p i firm e =
      In-present p (side_of side) q (keep_if is_executable b.quotes)
        (In-keep_if is_executable q b.quotes i firm) e

  prices-from :
      (side : Side) (b : Book F) (p : F)
      → In p (prices side true b)
      → (q : Quote F) × In q b.quotes × (is_executable q ≡ true) × (side_of side q ≡ some p)
  unfolding prices
  prices-from side b p i =
      let found = present-from p (side_of side) (keep_if is_executable b.quotes) i in
      let kept = keep_if-from is_executable found.0 b.quotes found.1 in
      (found.0, kept.0, kept.1, found.2)

module _ {F : Type 0} (ops : FloatOps F) where
  -- The price of a composite on one side, and what beats it there.
  abbrev pub side_price : Side → Option F × Option F → Option F
  side_price Side.bid c = c.0
  side_price Side.ask c = c.1

  abbrev pub outbids : Side → F → F → Bool
  outbids Side.bid m p = ops.lt m p
  outbids Side.ask m p = ops.lt p m

  outbids-irreflexive :
      ((x : F) → ops.lt x x ≡ false) → (side : Side) (x : F) → outbids side x x ≡ false
  outbids-irreflexive h Side.bid x = h x
  outbids-irreflexive h Side.ask x = h x

  outbids-transitive :
      ((x y z : F) → ops.lt x y ≡ true → ops.lt y z ≡ true → ops.lt x z ≡ true)
      → (side : Side) (x y z : F) → outbids side x y ≡ true
      → outbids side y z ≡ true
      → outbids side x z ≡ true
  outbids-transitive h Side.bid x y z a b = h x y z a b
  outbids-transitive h Side.ask x y z a b = h z y x b a

  tcmp-best_of :
      (side : Side) (b : Book F)
      → side_price side (tcmp ops b) ≡ best_of (outbids side) (prices side true b)
  unfolding tcmp max_of min_of
  tcmp-best_of Side.bid b = refl
  tcmp-best_of Side.ask b = refl

  -- With an irreflexive and transitive order of prices, where an executable quote of a book has a price
  -- on a side, the executable composite has one there too: it is the price of an executable quote of the
  -- book, and that quote's does not beat it.
  pub tcmp_best :
      (irreflexive : (x : F) → ops.lt x x ≡ false)
      (transitive : (x y z : F) → ops.lt x y ≡ true → ops.lt y z ≡ true → ops.lt x z ≡ true)
      (side : Side) (b : Book F) (q : Quote F) (p : F)
      → In q b.quotes
      → is_executable q ≡ true
      → side_of side q ≡ some p
      → (m : F) × (side_price side (tcmp ops b) ≡ some m)
        × ((r : Quote F) × In r b.quotes × (is_executable r ≡ true) × (side_of side r ≡ some m))
        × (outbids side m p ≡ false)
  tcmp_best irreflexive transitive side b q p i firm e =
      let best =
        best_of-best (outbids side) (outbids-irreflexive irreflexive side)
          (outbids-transitive transitive side) p (prices side true b)
          (prices-In side b q p i firm e) in
      (best.0, tcmp-best_of side b ∙ best.1, prices-from side b best.0 best.2, best.3)

module _ {F : Type 0} where
  abbrev Follows : Bytes → List (Quote F) → Type 0
  Follows c [] = Unit
  Follows c (r ∷ rs) = text_le c r.contributor ≡ true

  -- The contributors stand in order.
  abbrev pub Alphabetical : List (Quote F) → Type 0
  Alphabetical [] = Unit
  Alphabetical (q ∷ qs) = Follows q.contributor qs × Alphabetical qs

  Follows-insert :
      (c : Bytes) (q : Quote F) (rs : List (Quote F))
      → text_le c q.contributor ≡ true
      → Follows c rs
      → Follows c (insert_quote q rs)
  unfolding insert_quote
  Follows-insert c q [] le h = le
  Follows-insert c q (r ∷ rs) le h =
      elim (text_le q.contributor r.contributor)
        as (λ b. Follows c (if b then q ∷ r ∷ rs else r ∷ insert_quote q rs)) [
          | true ↦ le
          | false ↦ h
        ]

  insert-Alphabetical :
      (q : Quote F) (rs : List (Quote F)) → Alphabetical rs → Alphabetical (insert_quote q rs)
  unfolding insert_quote
  insert-Alphabetical q [] h = (tt, tt)
  insert-Alphabetical q (r ∷ rs) h = elim (Bool-cases (text_le q.contributor r.contributor)) [
    | inl le ↦ rw le (le, h)
    | inr gt ↦ rw gt (
      Follows-insert r.contributor q rs (text_le-total q.contributor r.contributor gt) h.0,
      insert-Alphabetical q rs h.1,
    )
  ]

  insert-Perm : (q : Quote F) (rs : List (Quote F)) → Permᴰ (insert_quote q rs) (q ∷ rs)
  unfolding insert_quote
  insert-Perm q [] = Permᴰ.refl (q ∷ [])
  insert-Perm q (r ∷ rs) =
      elim (text_le q.contributor r.contributor)
        as (λ b. Permᴰ (if b then q ∷ r ∷ rs else r ∷ insert_quote q rs) (q ∷ r ∷ rs)) [
          | true ↦ Permᴰ.refl (q ∷ r ∷ rs)
          | false ↦ Permᴰ.trans (Permᴰ.cons refl (insert-Perm q rs)) (Permᴰ.swap refl refl)
        ]

  sort-Alphabetical : (qs : List (Quote F)) → Alphabetical (sort_quotes qs)
  unfolding sort_quotes
  sort-Alphabetical [] = tt
  sort-Alphabetical (q ∷ qs) = insert-Alphabetical q (sort_quotes qs) (sort-Alphabetical qs)

  sort-Perm : (qs : List (Quote F)) → Permᴰ (sort_quotes qs) qs
  unfolding sort_quotes
  sort-Perm [] = Permᴰ.nil
  sort-Perm (q ∷ qs) = Permᴰ.trans (insert-Perm q (sort_quotes qs)) (Permᴰ.cons refl (sort-Perm qs))

  insert-length : (q : Quote F) (rs : List (Quote F)) → length (insert_quote q rs) ≡ length (q ∷ rs)
  unfolding insert_quote
  insert-length q [] = refl
  insert-length q (r ∷ rs) = ground (arith, insert-length q rs)

  sort-length : (qs : List (Quote F)) → length (sort_quotes qs) ≡ length qs
  unfolding sort_quotes
  sort-length [] = refl
  sort-length (q ∷ qs) = ground (arith, insert-length q (sort_quotes qs), sort-length qs)

  -- A book has, each once and in the order of the contributors, exactly the instrument's standing quotes
  -- that have a side and are not expired; and it tells when it last was live only if it has none.
  pub book_in_order :
      (subject : Bytes) (as_of : ℕ) (b : QuoteBook F)
      → Permᴰ
          (book subject as_of b).quotes
          (keep_if (is_live b.ttl as_of) (map (λ e. e.1) (quotes_of subject b)))
        × Alphabetical (book subject as_of b).quotes
        × ((book subject as_of b).last_live
            ≡ (if is_empty (book subject as_of b) then get subject b.last_live else none))
  unfolding book live_quotes is_empty
  book_in_order subject as_of b =
      let live = live_quotes b.ttl as_of (quotes_of subject b) in
      (sort-Perm live, sort-Alphabetical live, rw (sort-length live) refl)
