-- ===== src/Ems/Simulator/Account.antt =====
-- The account of an order over any calls: every print that went through is in it, and nothing else.
use treble_tracker.Prelude.{
  List, [], ◌∷◌, Option, some, arith, bytes_eq, bytes_eqb_iff, ◌==◌, ◌≡◌, ◌≢◌, refl, sym, ap, ◌∙◌,
  subst, Bool-cases, Option-cases, inl, inr,
}
use treble_tracker.Prelude.Float.{FloatOps}
use treble_tracker.Prelude.Dict.{get, get-put_ne}
use treble_tracker.Prelude.Bytes.{Bytes}
use treble_tracker.Ems.Simplefix.{Simplefix}
use treble_tracker.Ems.Moment.{Moment}
use treble_tracker.Ems.Simulator.{
  FloatText, RestingOrder, Simulator, print_on, fill_order, cancel, text_of, cl_ord_id,
  orig_cl_ord_id, canceled, replace, replace_order,
}
use treble_tracker.Ems.Simulator.Book.{
  Call, prints, cancels, replaces, step, trading, Spares, fill-Touches, cancel_order-Touches,
  replace_order-Enters,
}
use treble_tracker.Ems.Simulator.Ledger.{
  taken_print, counted, printed, Books, Account-append, prints-Books, same-Books, marked-Books,
  Enters-Books,
}

module _ {F M : Type 0} (ops : FloatOps F) (floats : FloatText F) (fix : Simplefix M) where
  other-Books :
      (id other : Bytes) (r : RestingOrder F) (quantity : F) (price : Option F) (now : Moment)
      (s : Simulator F)
      → other ≢ id
      → get id s.book ≡ some r
      → Books ops floats fix id r [] (fill_order ops floats fix other quantity price now s).1.book
  other-Books id other r quantity price now s differs here =
      elim (fill-Touches ops floats fix other quantity price now s) [
        | inl same ↦ same-Books ops floats fix id r s.book _ same here
        | inr t ↦ (
          r,
          ap (get id) t.3
              ∙ get-put_ne other id (print_on ops floats fix t.0 quantity price) s.book differs
              ∙ here,
          (refl, refl, refl, refl),
        )
      ]

  cancel-Books :
      (id : Bytes) (r : RestingOrder F) (m : M) (now : Moment) (s : Simulator F)
      → get id s.book ≡ some r
      → Books ops floats fix id r [] (cancel ops floats fix m now s).1.book
  unfolding cancel
  cancel-Books id r m now s here = elim (Option-cases (text_of ops floats fix m cl_ord_id)) [
    | inl n ↦ rw (n, cancel) (same-Books ops floats fix id r s.book s.book refl here)
    | inr a ↦ elim (Option-cases (text_of ops floats fix m orig_cl_ord_id)) [
      | inl n ↦ rw (a.1, n, cancel) (same-Books ops floats fix id r s.book s.book refl here)
      | inr b ↦
          rw (a.1, b.1, cancel)
            (elim (cancel_order-Touches ops floats fix a.0 b.0 now s) [
              | inl same ↦ same-Books ops floats fix id r s.book _ same here
              | inr t ↦
                  subst (Books ops floats fix id r []) (sym t.3)
                    (marked-Books ops floats fix id b.0 r t.0 canceled s.book here t.1)
            ])
    ]
  ]

  replace-Books :
      (id : Bytes) (r : RestingOrder F) (m : M) (now : Moment) (s : Simulator F)
      → text_of ops floats fix m cl_ord_id ≢ some id
      → get id s.book ≡ some r
      → Books ops floats fix id r [] (replace ops floats fix m now s).1.book
  unfolding replace
  replace-Books id r m now s spared here =
      elim (Option-cases (text_of ops floats fix m cl_ord_id)) [
        | inl n ↦ rw (n, replace) (same-Books ops floats fix id r s.book s.book refl here)
        | inr a ↦ elim (Option-cases (text_of ops floats fix m orig_cl_ord_id)) [
          | inl n ↦ rw (a.1, n, replace) (same-Books ops floats fix id r s.book s.book refl here)
          | inr b ↦
              rw (a.1, b.1, replace)
                (Enters-Books ops floats fix id a.0 b.0 r s.book
                  (replace_order ops floats fix m a.0 b.0 now s).1.book
                  (replace_order-Enters ops floats fix m a.0 b.0 now s)
                  (λ e. spared (a.1 ∙ ap some e)) here)
        ]
      ]

  fill-Books :
      (id other : Bytes) (r : RestingOrder F) (quantity : F) (price : Option F) (now : Moment)
      (s : Simulator F)
      → get id s.book ≡ some r
      → Books ops floats fix id r
          (counted ops floats fix id (prints other quantity price now) s)
          (fill_order ops floats fix other quantity price now s).1.book
  fill-Books id other r quantity price now s here = elim (Bool-cases (other == id)) [
    | inl same ↦ rw (same) (
        subst
          (λ i.
            Books ops floats fix id r
              (taken_print ops floats fix quantity price
                (fill_order ops floats fix i quantity price now s).0)
              (fill_order ops floats fix i quantity price now s).1.book)
          (sym ((bytes_eqb_iff other id).0 same))
          (prints-Books ops floats fix id r quantity price now s here))
    | inr differs ↦ rw (differs) (
        other-Books id other r quantity price now s
          (λ k. ground (arith, differs, (bytes_eqb_iff other id).1 k)) here)
  ]

  -- An order of the book, over any prints, cancels and amendments that do not take its number for a new
  -- order: it keeps its quantity and its price, and what it counts as filled and as paid is what it
  -- had, with the prints that went through on it added one after the other, each at its own price or at
  -- the order's where it has none. No print that went through compares as more than what was open at
  -- the time and the tolerance, where what was open is the quantity less what was filled then (a float
  -- that is not a number compares as no more than anything).
  pub prints_add_up :
      (cs : List (Call ops floats fix)) (id : Bytes) (r : RestingOrder F) (s : Simulator F)
      → Spares ops floats fix id cs
      → get id s.book ≡ some r
      → Books ops floats fix id r
          (printed ops floats fix id cs s)
          (trading ops floats fix cs s).book
  prints_add_up [] id r s spared here = same-Books ops floats fix id r s.book s.book refl here
  prints_add_up (c ∷ cs) id r s spared here =
      let b = one c spared in
      let rest = prints_add_up cs id b.0 (step ops floats fix c s) (later c spared) b.1 in
      (
        rest.0,
        rest.1,
        Account-append ops floats fix (counted ops floats fix id c s)
            (printed ops floats fix id cs (step ops floats fix c s)) r.quantity r.price r.filled
            r.notional b.0 rest.0 b.2 rest.2,
      )
    where
      later :
          (c : Call ops floats fix)
          → Spares ops floats fix id (c ∷ cs)
          → Spares ops floats fix id cs
      later (prints other quantity price now) h = h
      later (cancels m now) h = h
      later (replaces m now) h = h.1

      one :
          (c : Call ops floats fix)
          → Spares ops floats fix id (c ∷ cs)
          → Books ops floats fix id r (counted ops floats fix id c s) (step ops floats fix c s).book
      one (prints other quantity price now) h = fill-Books id other r quantity price now s here
      one (cancels m now) h = cancel-Books id r m now s here
      one (replaces m now) h = replace-Books id r m now s h.0 here
