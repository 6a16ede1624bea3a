-- ===== src/Ems/Simulator/Ledger.antt =====
-- The ledger of one order: what was printed on it, and what its account is then.
use treble_tracker.Prelude.{
  List, [], ◌∷◌, ◌++◌, Option, some, some_or, true, false, arith, Result, ok, err, bytes_eq,
  bytes_eqb_iff, ◌==◌, if◌then◌else◌, ◌≡◌, ◌≢◌, refl, sym, ap, ◌∙◌, subst, Bool-cases, inl, inr,
}
use treble_tracker.Prelude.Float.{FloatOps}
use treble_tracker.Prelude.Dict.{Dict, get, put, get-put_ne, get-put_self}
use treble_tracker.Prelude.Bytes.{Bytes}
use treble_tracker.Ems.Simplefix.{Simplefix}
use treble_tracker.Ems.Moment.{Moment}
use treble_tracker.Ems.Session.{encode}
use treble_tracker.Ems.Simulator.{
  FloatText, RestingOrder, Simulator, SimulatorError, is_working, is_overfill, print_on, report,
  fill_order, replaced,
}
use treble_tracker.Ems.Simulator.Book.{Call, prints, cancels, replaces, step, Enters}

module _ {F M : Type 0} (ops : FloatOps F) (floats : FloatText F) (fix : Simplefix M) where
  -- The quantity and the price of a print on the order that went through.
  abbrev pub taken_print : F → Option F → Result SimulatorError Bytes → List (F × Option F)
  taken_print quantity price (ok raw) = (quantity, price) ∷ []
  taken_print quantity price (err e) = []

  abbrev pub counted : Bytes → Call ops floats fix → Simulator F → List (F × Option F)
  counted id (prints other quantity price now) s =
      if other == id
      then taken_print quantity price (fill_order ops floats fix other quantity price now s).0
      else []
  counted id (cancels m now) s = []
  counted id (replaces m now) s = []

  abbrev pub printed : Bytes → List (Call ops floats fix) → Simulator F → List (F × Option F)
  printed id [] s = []
  printed id (c ∷ cs) s = counted id c s ++ printed id cs (step ops floats fix c s)

  -- What of a quantity is open, and no less than nothing.
  abbrev pub open_of : F → F → F
  open_of quantity filled =
      let rest = ops.sub quantity filled in if ops.lt rest ops.nought then ops.nought else rest

  -- An order of a quantity and a price, booked print by print from what was filled of it and what
  -- that cost: each print is not more than what is then open and the tolerance, it is added to the
  -- one, and to the other at its own price, or the order's where it has none.
  abbrev pub Account : F → F → F → F → List (F × Option F) → RestingOrder F → Type 0
  Account quantity price filled notional [] r =
      (r.quantity ≡ quantity) × (r.price ≡ price) × (r.filled ≡ filled) × (r.notional ≡ notional)
  Account quantity price filled notional ((size, at) ∷ ps) r =
      (ops.lt (ops.add (open_of quantity filled) (ops.mul (ops.abs quantity) floats.tolerance)) size
        ≡ false)
      × Account quantity price (ops.add filled size)
          (ops.add notional (ops.mul size (some_or at price))) ps r

  -- The order after one call, and what the call booked.
  abbrev pub Books :
      Bytes → RestingOrder F → List (F × Option F) → Dict Bytes (RestingOrder F) → Type 0
  Books id r ps book =
      (q : RestingOrder F) × (get id book ≡ some q)
      × Account r.quantity r.price r.filled r.notional ps q

  unmoved :
      (id : Bytes) (r q : RestingOrder F) (book : Dict Bytes (RestingOrder F))
      → get id book ≡ some q
      → Account r.quantity r.price r.filled r.notional [] q
      → Books id r [] book
  unmoved id r q book here a = (q, here, a)

  fits_open :
      (r : RestingOrder F) (size : F)
      → is_working r ≡ true
      → is_overfill ops floats fix size r ≡ false
      → ops.lt
          (ops.add (open_of r.quantity r.filled) (ops.mul (ops.abs r.quantity) floats.tolerance))
          size
        ≡ false
  unfolding is_overfill
  fits_open r size live fits = ground (arith, live, fits)

  pub prints-Books :
      (id : Bytes) (r : RestingOrder F) (size : F) (at : Option F) (now : Moment) (s : Simulator F)
      → get id s.book ≡ some r
      → Books id r
          (taken_print size at (fill_order ops floats fix id size at now s).0)
          (fill_order ops floats fix id size at now s).1.book
  unfolding fill_order report encode
  prints-Books id r size at now s here = elim (Bool-cases (is_working r)) [
    | inr dead ↦ rw (here, dead, fill_order) (r, here, (refl, refl, refl, refl))
    | inl live ↦ elim (Bool-cases (is_overfill ops floats fix size r)) [
      | inl over ↦ rw (here, live, over, fill_order) (r, here, (refl, refl, refl, refl))
      | inr fits ↦
          rw (here, live, fits, fill_order)
            (
              print_on ops floats fix r size at,
              get-put_self id _ s.book,
              (fits_open r size live fits, (refl, refl, refl, refl)),
            )
    ]
  ]

  pub Account-append :
      (ps qs : List (F × Option F)) (quantity price filled notional : F) (r t : RestingOrder F)
      → Account quantity price filled notional ps r
      → Account r.quantity r.price r.filled r.notional qs t
      → Account quantity price filled notional (ps ++ qs) t
  Account-append [] qs quantity price filled notional r t a b =
      subst (λ n. Account quantity price filled n qs t) a.3
        (subst (λ f. Account quantity price f r.notional qs t) a.2
          (subst (λ p. Account quantity p r.filled r.notional qs t) a.1
            (subst (λ q. Account q r.price r.filled r.notional qs t) a.0 b)))
  Account-append ((size, at) ∷ ps) qs quantity price filled notional r t a b = (
    a.0,
    Account-append ps qs quantity price (ops.add filled size)
        (ops.add notional (ops.mul size (some_or at price))) r t a.1 b,
  )

  pub same-Books :
      (id : Bytes) (r : RestingOrder F) (book after : Dict Bytes (RestingOrder F))
      → after ≡ book
      → get id book ≡ some r
      → Books id r [] after
  same-Books id r book after same here = (r, ap (get id) same ∙ here, (refl, refl, refl, refl))

  -- Another status for an order that is there: whichever order it is, nothing is booked on `id`.
  pub marked-Books :
      (id other : Bytes) (r x : RestingOrder F) (status : Bytes)
      (book : Dict Bytes (RestingOrder F))
      → get id book ≡ some r
      → get other book ≡ some x
      → Books id r [] (put other (record x { status = status }) book)
  marked-Books id other r x status book here there = elim (Bool-cases (other == id)) [
    | inl same ↦
        let k : other ≡ id = (bytes_eqb_iff other id).0 same in
        let e : some x ≡ some r = sym there ∙ ap (λ i. get i book) k ∙ here in
        subst (λ i. Books id r [] (put i (record x { status = status }) book)) (sym k)
          (
            record x { status = status },
            get-put_self id (record x { status = status }) book,
            same_terms x r e,
          )
    | inr differs ↦ (
      r,
      get-put_ne other id (record x { status = status }) book
            (λ k. ground (arith, differs, (bytes_eqb_iff other id).1 k))
          ∙ here,
      (refl, refl, refl, refl),
    )
  ]
    where
      same_terms :
          (x r : RestingOrder F)
          → some x ≡ some r
          → (x.quantity ≡ r.quantity)
            × (x.price ≡ r.price)
            × (x.filled ≡ r.filled)
            × (x.notional ≡ r.notional)
      same_terms x r e =
          let k : x ≡ r = cc in
          (
            ap (λ o. o.quantity) k,
            ap (λ o. o.price) k,
            ap (λ o. o.filled) k,
            ap (λ o. o.notional) k,
          )

  pub Enters-Books :
      (id new original : Bytes) (r : RestingOrder F) (book after : Dict Bytes (RestingOrder F))
      → Enters ops floats fix new original book after
      → new ≢ id
      → get id book ≡ some r
      → Books id r [] after
  Enters-Books id new original r book after (inl same) spared here =
      same-Books id r book after same here
  Enters-Books id new original r book after (inr t) spared here =
      let b = marked-Books id original r t.0 replaced book here t.2 in
      (
        b.0,
        ap (get id) t.4
            ∙ get-put_ne new id t.1 (put original (record (t.0) { status = replaced }) book) spared
            ∙ b.1,
        b.2,
      )
