-- ===== src/Ems/Simulator/Book.antt =====
-- What a call at the acceptor changes in its book, and what happens to an order that is done.
use treble_tracker.Prelude.{
  List, [], ◌∷◌, Option, some, Bool, true, false, ◌&&◌, not, arith, bytes_eq, ◌≡◌, ◌≢◌, refl, sym,
  ap, ◌∙◌, subst, Bool-cases, Option-cases, ◌⊎◌, inl, inr,
}
use treble_tracker.Prelude.Float.{FloatOps}
use treble_tracker.Prelude.Dict.{Dict, get, put, get-put_ne}
use treble_tracker.Prelude.Bytes.{Bytes}
use treble_tracker.Ems.Simplefix.{Simplefix}
use treble_tracker.Ems.Moment.{Moment}
use treble_tracker.Ems.Session.{encode}
use treble_tracker.Ems.Simulator.{
  FloatText, RestingOrder, Simulator, is_working, is_overfill, print_on, report, cancel_reject,
  fill_order, cancel_order, canceled, text_of, float_of, cancel, order_qty, price_tag, replaced,
  cl_ord_id, orig_cl_ord_id, amend, amended, replace_order, replace,
}

working_differs :
    {F : Type 0} (x r : RestingOrder F)
    → is_working x ≡ true
    → is_working r ≡ false
    → ¬ (some x ≡ some r)
working_differs x r works done e = ground (arith, works, done, e)

module _ {F M : Type 0} (ops : FloatOps F) (floats : FloatText F) (fix : Simplefix M) where
  -- A call at the acceptor: the venue prints a fill, or the client asks to cancel or to amend.
  pub data Call : Type 0 where
    prints : Bytes → F → Option F → Moment → Call
    cancels : M → Moment → Call
    replaces : M → Moment → Call

  report-book :
      (r : RestingOrder F) (exec_type : Bytes) (now : Moment) (last : F) (price : Option F)
      (id original : Option Bytes) (s : Simulator F)
      → (report ops floats fix r exec_type now last price id original s).1.book ≡ s.book
  unfolding report encode
  report-book r exec_type now last price id original s = refl

  reject-book :
      (id original reason response_to : Bytes) (now : Moment) (s : Simulator F)
      → (cancel_reject ops floats fix id original reason response_to now s).1.book ≡ s.book
  unfolding cancel_reject encode
  reject-book id original reason response_to now s = refl

  -- The book as it was, or with one order changed that passes a test.
  abbrev pub Touches :
      (RestingOrder F → Bool)
      → Bytes
      → (RestingOrder F → RestingOrder F)
      → Dict Bytes (RestingOrder F)
      → Dict Bytes (RestingOrder F)
      → Type 0
  Touches test id change book after =
      (after ≡ book)
      ⊎ ((r : RestingOrder F) × (get id book ≡ some r)
          × (test r ≡ true)
          × (after ≡ put id (change r) book))

  -- The order works, and the print is no more than what it leaves and the tolerance.
  abbrev pub can_print : F → RestingOrder F → Bool
  can_print quantity r = is_working r && not (is_overfill ops floats fix quantity r)

  pub fill-Touches :
      (id : Bytes) (quantity : F) (price : Option F) (now : Moment) (s : Simulator F)
      → Touches
          (can_print quantity)
          id
          (λ r. print_on ops floats fix r quantity price)
          s.book
          (fill_order ops floats fix id quantity price now s).1.book
  unfolding fill_order report encode
  fill-Touches id quantity price now s = elim (Option-cases (get id s.book)) [
    | inl e ↦ rw (e, fill_order) (inl refl)
    | inr e ↦ elim (Bool-cases (is_working e.0)) [
      | inr dead ↦ rw (e.1, dead, fill_order) (inl refl)
      | inl live ↦ elim (Bool-cases (is_overfill ops floats fix quantity e.0)) [
        | inl over ↦ rw (e.1, live, over, fill_order) (inl refl)
        | inr fits ↦ rw (e.1, live, fits, fill_order) (inr (e.0, refl, rw (live, fits) refl, refl))
      ]
    ]
  ]

  pub cancel_order-Touches :
      (id original : Bytes) (now : Moment) (s : Simulator F)
      → Touches is_working original
          (λ r. record r { status = canceled })
          s.book
          (cancel_order ops floats fix id original now s).1.book
  unfolding cancel_order report cancel_reject encode
  cancel_order-Touches id original now s = elim (Option-cases (get original s.book)) [
    | inl e ↦ rw (e, cancel_order) (inl refl)
    | inr e ↦ elim (Bool-cases (is_working e.0)) [
      | inl live ↦ rw (e.1, live, cancel_order) (inr (e.0, refl, live, refl))
      | inr dead ↦ rw (e.1, dead, cancel_order) (inl refl)
    ]
  ]

  -- The book as it was, or with an order that works marked and another entered under the new number.
  abbrev pub Enters :
      Bytes → Bytes → Dict Bytes (RestingOrder F) → Dict Bytes (RestingOrder F) → Type 0
  Enters id original book after =
      (after ≡ book)
      ⊎ ((r q : RestingOrder F) × (get original book ≡ some r)
          × (is_working r ≡ true)
          × (after ≡ put id q (put original (record r { status = replaced }) book)))

  amend-Enters :
      (m : M) (id original : Bytes) (r : RestingOrder F) (now : Moment) (s : Simulator F)
      → get original s.book ≡ some r
      → is_working r ≡ true
      → Enters id original s.book (amend ops floats fix m id original r now s).1.book
  unfolding amend report cancel_reject encode
  amend-Enters m id original r now s e live =
      elim (Option-cases (float_of ops floats fix m order_qty)) [
        | inl n ↦ rw (n, amend) (inl refl)
        | inr quantity ↦ elim (Bool-cases (ops.lt quantity.0 r.filled)) [
          | inl below ↦ rw (quantity.1, below, amend) (inl refl)
          | inr enough ↦ elim (Option-cases (float_of ops floats fix m price_tag)) [
            | inl n ↦ rw (quantity.1, enough, n, amend) (inl refl)
            | inr price ↦
                rw (quantity.1, enough, price.1, amend)
                  (inr (r, amended ops floats fix id r quantity.0 price.0, e, live, refl))
          ]
        ]
      ]

  replace_order-amend :
      (m : M) (id original : Bytes) (r : RestingOrder F) (now : Moment) (s : Simulator F)
      → get original s.book ≡ some r
      → is_working r ≡ true
      → replace_order ops floats fix m id original now s
        ≡ amend ops floats fix m id original r now s
  unfolding replace_order
  replace_order-amend m id original r now s e live = rw (e, live, replace_order) refl

  pub replace_order-Enters :
      (m : M) (id original : Bytes) (now : Moment) (s : Simulator F)
      → Enters id original s.book (replace_order ops floats fix m id original now s).1.book
  unfolding replace_order cancel_reject encode
  replace_order-Enters m id original now s = elim (Option-cases (get original s.book)) [
    | inl e ↦ rw (e, replace_order) (inl refl)
    | inr e ↦ elim (Bool-cases (is_working e.0)) [
      | inl live ↦
          subst (λ t. Enters id original s.book t.1.book)
            (sym (replace_order-amend m id original e.0 now s e.1 live))
            (amend-Enters m id original e.0 now s e.1 live)
      | inr dead ↦ rw (e.1, dead, replace_order) (inl refl)
    ]
  ]

  Touches-stays :
      (test : RestingOrder F → Bool) (change : RestingOrder F → RestingOrder F) (other id : Bytes)
      (book after : Dict Bytes (RestingOrder F)) (r : RestingOrder F)
      → ((x : RestingOrder F) → test x ≡ true → is_working x ≡ true)
      → Touches test other change book after
      → get id book ≡ some r
      → is_working r ≡ false
      → get id after ≡ some r
  Touches-stays test change other id book after r works (inl same) here done =
      ap (get id) same ∙ here
  Touches-stays test change other id book after r works (inr t) here done =
      ap (get id) t.3
      ∙ get-put_ne other id (change t.0) book (λ e.
        working_differs t.0 r (works t.0 t.2) done (sym t.1 ∙ ap (λ k. get k book) e ∙ here))
      ∙ here

  Enters-stays :
      (new original id : Bytes) (book after : Dict Bytes (RestingOrder F)) (r : RestingOrder F)
      → Enters new original book after
      → new ≢ id
      → get id book ≡ some r
      → is_working r ≡ false
      → get id after ≡ some r
  Enters-stays new original id book after r (inl same) other here done = ap (get id) same ∙ here
  Enters-stays new original id book after r (inr t) other here done =
      ap (get id) t.4
      ∙ get-put_ne new id t.1 (put original (record (t.0) { status = replaced }) book) other
      ∙ get-put_ne original id (record (t.0) { status = replaced }) book
          (λ e. working_differs t.0 r t.3 done (sym t.2 ∙ ap (λ k. get k book) e ∙ here))
      ∙ here

  abbrev pub step : Call → Simulator F → Simulator F
  step (prints id quantity price now) s = (fill_order ops floats fix id quantity price now s).1
  step (cancels m now) s = (cancel ops floats fix m now s).1
  step (replaces m now) s = (replace ops floats fix m now s).1

  abbrev pub trading : List Call → Simulator F → Simulator F
  trading [] s = s
  trading (c ∷ cs) s = trading cs (step c s)

  -- No amendment gives its new order the number `id`.
  abbrev pub Spares : Bytes → List Call → Type 0
  Spares id [] = Unit
  Spares id (prints other quantity price now ∷ cs) = Spares id cs
  Spares id (cancels m now ∷ cs) = Spares id cs
  Spares id (replaces m now ∷ cs) = (text_of ops floats fix m cl_ord_id ≢ some id) × Spares id cs

  cancel-stays :
      (id : Bytes) (r : RestingOrder F) (m : M) (now : Moment) (s : Simulator F)
      → get id s.book ≡ some r
      → is_working r ≡ false
      → get id (cancel ops floats fix m now s).1.book ≡ some r
  unfolding cancel
  cancel-stays id r m now s here done = elim (Option-cases (text_of ops floats fix m cl_ord_id)) [
    | inl n ↦ rw (n, cancel) here
    | inr a ↦ elim (Option-cases (text_of ops floats fix m orig_cl_ord_id)) [
      | inl n ↦ rw (a.1, n, cancel) here
      | inr b ↦
          rw (a.1, b.1, cancel)
            (Touches-stays is_working (λ x. record x { status = canceled }) b.0 id s.book
              (cancel_order ops floats fix a.0 b.0 now s).1.book r (λ x w. w)
              (cancel_order-Touches a.0 b.0 now s) here done)
    ]
  ]

  replace-stays :
      (id : Bytes) (r : RestingOrder F) (m : M) (now : Moment) (s : Simulator F)
      → text_of ops floats fix m cl_ord_id ≢ some id
      → get id s.book ≡ some r
      → is_working r ≡ false
      → get id (replace ops floats fix m now s).1.book ≡ some r
  unfolding replace
  replace-stays id r m now s spared here done =
      elim (Option-cases (text_of ops floats fix m cl_ord_id)) [
        | inl n ↦ rw (n, replace) here
        | inr a ↦ elim (Option-cases (text_of ops floats fix m orig_cl_ord_id)) [
          | inl n ↦ rw (a.1, n, replace) here
          | inr b ↦
              rw (a.1, b.1, replace)
                (Enters-stays a.0 b.0 id s.book
                  (replace_order ops floats fix m a.0 b.0 now s).1.book r
                  (replace_order-Enters m a.0 b.0 now s) (λ e. spared (a.1 ∙ ap some e)) here done)
        ]
      ]

  -- An order that is filled, canceled or replaced stays exactly as it is, whatever is printed, canceled
  -- or amended later, as long as no amendment takes its number for a new order.
  pub done_stays :
      (cs : List Call) (id : Bytes) (r : RestingOrder F) (s : Simulator F)
      → Spares id cs
      → get id s.book ≡ some r
      → is_working r ≡ false
      → get id (trading cs s).book ≡ some r
  done_stays [] id r s spared here done = here
  done_stays (prints other quantity price now ∷ cs) id r s spared here done =
      done_stays cs id r (fill_order ops floats fix other quantity price now s).1 spared
        (Touches-stays (can_print quantity) (λ x. print_on ops floats fix x quantity price) other id
          s.book (fill_order ops floats fix other quantity price now s).1.book r
          (λ x w. ground (arith, w)) (fill-Touches other quantity price now s) here done)
        done
  done_stays (cancels m now ∷ cs) id r s spared here done =
      done_stays cs id r (cancel ops floats fix m now s).1 spared
        (cancel-stays id r m now s here done) done
  done_stays (replaces m now ∷ cs) id r s spared here done =
      done_stays cs id r (replace ops floats fix m now s).1 spared.1
        (replace-stays id r m now s spared.0 here done) done
