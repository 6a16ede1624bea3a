-- ===== src/Ems/Simulator/Intake.antt =====
-- treble/ems/simulator.py: `_accept` and `_slices`, the intake of a new order.
use treble_tracker.Prelude.{
  ℕ, zero, suc, ◌+◌, List, [], ◌∷◌, Option, none, some, Bool, true, false, Result, ok, err,
  bytes_eq, leb, if◌then◌else◌, ◌≡◌, ◌≢◌, refl, sym, ap, ◌∙◌, Option-cases, inl, inr, arith,
}
use treble_tracker.Prelude.Float.{FloatOps}
use treble_tracker.Prelude.Dict.{Dict, get, put, get-put_ne}
use treble_tracker.Prelude.Bytes.{Bytes}
use treble_tracker.Ems.Simplefix.{Simplefix}
use treble_tracker.Ems.Moment.{Moment}
use treble_tracker.Ems.Session.{encode}
use treble_tracker.Ems.Simulator.{
  FloatText, RestingOrder, Simulator, SimulatorError, bad_value, report, cancel_reject, fill_order,
  print_on, text_of, float_of, cl_ord_id, order_qty, price_tag, side_tag, symbol_tag,
  new_order_single, new_status,
}
use treble_tracker.Ems.Simulator.Book.{Touches, can_print, fill-Touches}

abbrev duplicate : Bytes
duplicate =
    b'd' ∷ b'u' ∷ b'p' ∷ b'l' ∷ b'i' ∷ b'c' ∷ b'a' ∷ b't' ∷ b'e' ∷ 32 ∷ b'C' ∷ b'l' ∷ b'O' ∷ b'r'
    ∷ b'd' ∷ b'I' ∷ b'D' ∷ []

module _ {F M : Type 0} (ops : FloatOps F) (floats : FloatText F) (fix : Simplefix M) where
  -- The loop of `_slices`, with `left` turns to go
  unfoldable pub slices_from : ℕ → ℕ → ℕ → F → F → List F
  slices_from zero index count quantity done = []
  slices_from (suc left) index count quantity done =
      let target = ops.div (ops.mul quantity (floats.whole index)) (floats.whole count) in
      ops.sub target done ∷ slices_from left (index + 1) count quantity target

  unfoldable pub slices : F → ℕ → List F
  unfolding slices_from
  slices quantity count =
      if leb count 1 then quantity ∷ [] else slices_from count 1 count quantity ops.nought

  -- What the remaining prints give counts only if this one is not refused.
  abbrev after_print :
      Result SimulatorError Bytes × Simulator F
      → Result SimulatorError (List Bytes) × Simulator F
      → Result SimulatorError (List Bytes) × Simulator F
  after_print (err e, t) rest = (err e, t)
  after_print (ok raw, t) (err e, u) = (err e, u)
  after_print (ok raw, t) (ok raws, u) = (ok (raw ∷ raws), u)

  -- One print after another, until one is refused.
  unfoldable pub fill_all :
      Bytes → List F → Moment → Simulator F → Result SimulatorError (List Bytes) × Simulator F
  fill_all id [] now s = (ok [], s)
  fill_all id (quantity ∷ quantities) now s =
      let r = fill_order ops floats fix id quantity none now s in
      after_print r (fill_all id quantities now r.1)

  -- The order that a request states, if all its fields can be read.
  unfoldable pub stated_order : M → Bytes → Option (RestingOrder F)
  stated_order m id = elim (text_of ops floats fix m symbol_tag) [
    | none ↦ none
    | some symbol ↦ elim (text_of ops floats fix m side_tag) [
      | none ↦ none
      | some side ↦ elim (float_of ops floats fix m order_qty) [
        | none ↦ none
        | some quantity ↦ elim (float_of ops floats fix m price_tag) [
          | none ↦ none
          | some price ↦ some (record {
            order_id = id;
            symbol = symbol;
            side = side;
            quantity = quantity;
            price = price;
            filled = ops.nought;
            notional = ops.nought;
            status = new_status;
          })
        ]
      ]
    ]
  ]

  -- `_accept` of an order whose number is free
  unfoldable pub enter :
      Bool
      → ℕ
      → Bytes
      → RestingOrder F
      → Moment
      → Simulator F
      → Result SimulatorError (List Bytes) × Simulator F
  unfolding slices fill_all
  enter immediately count id r now s =
      let entered = record s { book = put id r s.book } in
      if immediately
      then fill_all id (slices r.quantity count) now entered
      else (let reply = report ops floats fix r new_status now ops.nought none none none entered in
          (ok (reply.0 ∷ []), reply.1))

  -- `_accept`, with the attributes `fill_immediately` and `fill_slices`
  unfoldable pub accept :
      Bool → ℕ → M → Moment → Simulator F → Result SimulatorError (List Bytes) × Simulator F
  unfolding stated_order enter
  accept immediately count m now s = elim (text_of ops floats fix m cl_ord_id) [
    | none ↦ (err bad_value, s)
    | some id ↦ elim (get id s.book) [
      | some r ↦
          let reply = cancel_reject ops floats fix id id duplicate new_order_single now s in
          (ok (reply.0 ∷ []), reply.1)
      | none ↦ elim (stated_order m id) [
        | none ↦ (err bad_value, s)
        | some r ↦ enter immediately count id r now s
      ]
    ]
  ]

  Touches-other :
      (test : RestingOrder F → Bool) (change : RestingOrder F → RestingOrder F) (id other : Bytes)
      (book after : Dict Bytes (RestingOrder F))
      → Touches ops floats fix test id change book after
      → id ≢ other
      → get other after ≡ get other book
  Touches-other test change id other book after (inl same) differ = ap (get other) same
  Touches-other test change id other book after (inr t) differ =
      ap (get other) t.3 ∙ get-put_ne id other (change t.0) book differ

  after_print-other :
      (other : Bytes) (o : Option (RestingOrder F)) (r : Result SimulatorError Bytes × Simulator F)
      (rest : Result SimulatorError (List Bytes) × Simulator F)
      → get other r.1.book ≡ o
      → get other rest.1.book ≡ o
      → get other (after_print r rest).1.book ≡ o
  after_print-other other o (err e, t) rest here there = here
  after_print-other other o (ok raw, t) (err e, u) here there = there
  after_print-other other o (ok raw, t) (ok raws, u) here there = there

  fill-other :
      (id other : Bytes) (quantity : F) (now : Moment) (s : Simulator F)
      → id ≢ other
      → get other (fill_order ops floats fix id quantity none now s).1.book ≡ get other s.book
  fill-other id other quantity now s differ =
      Touches-other (can_print ops floats fix quantity)
        (λ r. print_on ops floats fix r quantity none) id other s.book
        (fill_order ops floats fix id quantity none now s).1.book
        (fill-Touches ops floats fix id quantity none now s) differ

  fill_all-other :
      (id other : Bytes) (quantities : List F) (now : Moment) (s : Simulator F)
      → id ≢ other
      → get other (fill_all id quantities now s).1.book ≡ get other s.book
  unfolding fill_all
  fill_all-other id other [] now s differ = refl
  fill_all-other id other (quantity ∷ quantities) now s differ =
      after_print-other other (get other s.book) (fill_order ops floats fix id quantity none now s)
        (fill_all id quantities now (fill_order ops floats fix id quantity none now s).1)
        (fill-other id other quantity now s differ)
        (fill_all-other id other quantities now (fill_order ops floats fix id quantity none now s).1
            differ
          ∙ fill-other id other quantity now s differ)

  enter-other :
      (immediately : Bool) (count : ℕ) (id other : Bytes) (r : RestingOrder F) (now : Moment)
      (s : Simulator F)
      → id ≢ other
      → get other (enter immediately count id r now s).1.book ≡ get other s.book
  unfolding enter report encode
  enter-other true count id other r now s differ =
      fill_all-other id other (slices r.quantity count) now (record s { book = put id r s.book })
        differ
      ∙ get-put_ne id other r s.book differ
  enter-other false count id other r now s differ = get-put_ne id other r s.book differ

  -- The intake of a new order leaves every order that is in the book as it is, whether the order is
  -- refused as a duplicate, cannot be read, rests, or is filled at once in any number of slices.
  pub accept_keeps :
      (immediately : Bool) (count : ℕ) (m : M) (now : Moment) (other : Bytes) (r : RestingOrder F)
      (s : Simulator F)
      → get other s.book ≡ some r
      → get other (accept immediately count m now s).1.book ≡ some r
  unfolding accept cancel_reject encode
  accept_keeps immediately count m now other r s here =
      elim (Option-cases (text_of ops floats fix m cl_ord_id)) [
        | inl n ↦ rw (n, accept) here
        | inr id ↦ elim (Option-cases (get id.0 s.book)) [
          | inr known ↦ rw (id.1, known.1, accept) here
          | inl free ↦ elim (Option-cases (stated_order m id.0)) [
            | inl n ↦ rw (id.1, free, n, accept) here
            | inr q ↦
                rw (id.1, free, q.1, accept)
                  (enter-other immediately count id.0 other q.0 now s
                      (λ e. ground (arith, sym free ∙ ap (λ k. get k s.book) e ∙ here))
                    ∙ here)
          ]
        ]
      ]
