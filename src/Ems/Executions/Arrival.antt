-- ===== src/Ems/Executions/Arrival.antt =====
-- What an order that is read says is what the message says, and when it arrived.
use treble_tracker.Prelude.{
  Option, none, some, true, false, not, Result, ok, ◌>>=◌, >>=-ok, required, required-ok, ◌≡◌, ◌∙◌,
  ap, subst, arith, bytes_eq,
}
use treble_tracker.Prelude.Bytes.{Bytes, codes}
use treble_tracker.Ems.Simplefix.{Simplefix}
use treble_tracker.Ems.Executions.{
  Readings, ReadError, bad_value, incomplete, unnamed, unmapped_side, unmapped_order_type, unpriced,
  undated, sides, order_types, Order, Terms, order_terms, order_of, first_of, both, text_at,
  float_at, number_at, stamp_of, stamp_at, mapped, expect_type, check_order, arrival_at,
  parse_order,
}
use treble_tracker.Ems.Executions.Sound.{
  both-some, ok_inj, guard_ok, text_at-ok, number_at-ok, stamp_at-ok, expect_type-ok,
}

module _ {M F T : Type 0} (fix : Simplefix M) (py : Readings F T) where
  -- An order agrees with a new order single, and passes the checks of its class.
  abbrev pub IsAsked : M → Option T → Order F T → Type 0
  IsAsked m received_at o =
      (fix.get m 11 ≡ some o.order_id)
      × (fix.get m 55 ≡ some o.symbol)
      × (mapped fix py sides (fix.get m 54) ≡ some o.side)
      × (mapped fix py order_types (fix.get m 40) ≡ some o.order_type)
      × (float_at fix py (fix.get m 38) ≡ some o.quantity)
      × (float_at fix py (fix.get m 44) ≡ some o.limit_price)
      × (first_of (stamp_of fix py (fix.get m 60))
            (first_of (stamp_of fix py (fix.get m 52)) received_at)
          ≡ some o.arrival_time)
      × (py.ops.le o.quantity py.ops.nought ≡ false)
      × (py.ops.le o.limit_price py.ops.nought ≡ false)
      × (py.is_aware o.arrival_time ≡ true)

  check_order-ok :
      (o : Order F T) {v : Order F T}
      → check_order fix py o ≡ ok v
      → (o ≡ v)
        × (py.ops.le o.quantity py.ops.nought ≡ false)
        × (py.ops.le o.limit_price py.ops.nought ≡ false)
        × (py.is_aware o.arrival_time ≡ true)
  unfolding check_order
  check_order-ok o h =
      let a = guard_ok (py.ops.le o.quantity py.ops.nought) bad_value _ h in
      let b = guard_ok (py.ops.le o.limit_price py.ops.nought) bad_value _ a.1 in
      let c = guard_ok (not (py.is_aware o.arrival_time)) bad_value _ b.1 in
      (ok_inj c.1, a.0, b.0, ground (arith, c.0))

  arrival_at-ok :
      (m : M) (received_at : Option T) {found : Option T}
      → arrival_at fix py m received_at ≡ ok found
      → first_of
          (stamp_of fix py (fix.get m 60))
          (first_of (stamp_of fix py (fix.get m 52)) received_at)
        ≡ found
  unfolding arrival_at
  arrival_at-ok m received_at {found} h =
      let s = >>=-ok (stamp_at fix py m 60) _ h in
      ap (λ d. first_of d (first_of (stamp_of fix py (fix.get m 52)) received_at))
        (stamp_at-ok fix py m 60 s.1)
      ∙ chosen s.0 s.2
    where
      chosen :
          (decided : Option T)
          → (elim decided as (λ _. Result ReadError (Option T)) [
            | some t ↦ ok (some t)
            | none ↦ (stamp_at fix py m 52 >>= λ sent. ok (first_of sent received_at))
          ])
            ≡ ok found
          → first_of decided (first_of (stamp_of fix py (fix.get m 52)) received_at) ≡ found
      chosen (some t) k = ok_inj k
      chosen none k =
          let s = >>=-ok (stamp_at fix py m 52) (λ sent. ok (first_of sent received_at)) k in
          ap (λ d. first_of d received_at) (stamp_at-ok fix py m 52 s.1) ∙ ok_inj s.2

  -- The terms are the message's.
  abbrev AreTerms : M → Terms F → Type 0
  AreTerms m terms =
      (fix.get m 11 ≡ some (terms.names).0)
      × (fix.get m 55 ≡ some (terms.names).1)
      × (mapped fix py sides (fix.get m 54) ≡ some terms.side)
      × (mapped fix py order_types (fix.get m 40) ≡ some terms.order_type)
      × (float_at fix py (fix.get m 38) ≡ some (terms.priced).0)
      × (float_at fix py (fix.get m 44) ≡ some (terms.priced).1)

  order_terms-AreTerms :
      (m : M) (terms : Terms F) → order_terms fix py m ≡ ok terms → AreTerms m terms
  unfolding order_terms
  order_terms-AreTerms m terms h =
      let order_id = >>=-ok (text_at fix py m 11) _ h in
      let symbol = >>=-ok (text_at fix py m 55) _ order_id.2 in
      let quantity = >>=-ok (number_at fix py m 38) _ symbol.2 in
      let price = >>=-ok (number_at fix py m 44) _ quantity.2 in
      let names = >>=-ok (required unnamed (both order_id.0 symbol.0)) _ price.2 in
      let side = >>=-ok (required unmapped_side (mapped fix py sides (fix.get m 54))) _ names.2 in
      let order_type =
        >>=-ok (required unmapped_order_type (mapped fix py order_types (fix.get m 40))) _ side.2 in
      let priced = >>=-ok (required unpriced (both quantity.0 price.0)) _ order_type.2 in
      let who =
        both-some order_id.0 symbol.0 (required-ok unnamed (both order_id.0 symbol.0) names.1) in
      let money =
        both-some quantity.0 price.0 (required-ok unpriced (both quantity.0 price.0) priced.1) in
      subst (AreTerms m) (ok_inj priced.2) (
        text_at-ok fix py m 11 order_id.1 ∙ who.0,
        text_at-ok fix py m 55 symbol.1 ∙ who.1,
        required-ok unmapped_side (mapped fix py sides (fix.get m 54)) side.1,
        required-ok unmapped_order_type (mapped fix py order_types (fix.get m 40)) order_type.1,
        number_at-ok fix py m 38 quantity.1 ∙ money.0,
        number_at-ok fix py m 44 price.1 ∙ money.1,
      )

  -- An order that is read is of a whole new order single. Its names, side, type, quantity and limit
  -- are the message's, both numbers are above zero or not comparable to it, and it arrived when the
  -- trader decided, or else when it was sent, or else when it was received.
  pub parse_order-IsAsked :
      (raw : Bytes) (received_at : Option T) (o : Order F T)
      → parse_order fix py raw received_at ≡ ok o
      → (m : M) × (fix.get_message raw ≡ some m)
        × (fix.get m 35 ≡ some (codes "D"))
        × IsAsked m received_at o
  unfolding parse_order
  parse_order-IsAsked raw received_at o h =
      let m = >>=-ok (required incomplete (fix.get_message raw)) _ h in
      let kind = >>=-ok (expect_type fix py (codes "D") m.0) _ m.2 in
      let terms = >>=-ok (order_terms fix py m.0) _ kind.2 in
      let found = >>=-ok (arrival_at fix py m.0 received_at) _ terms.2 in
      let arrival =
        >>=-ok (required undated found.0) (λ a. check_order fix py (order_of fix py terms.0 a))
          found.2 in
      let checked = check_order-ok (order_of fix py terms.0 arrival.0) arrival.2 in
      let t = order_terms-AreTerms m.0 terms.0 terms.1 in
      let when = arrival_at-ok m.0 received_at found.1 ∙ required-ok undated found.0 arrival.1 in
      (
        m.0,
        required-ok incomplete (fix.get_message raw) m.1,
        expect_type-ok fix py (codes "D") m.0 kind.1,
        subst (IsAsked m.0 received_at) checked.0
            (t.0, t.1, t.2, t.3, t.4, t.5, when, checked.1, checked.2, checked.3),
      )
