-- ===== src/Ems/Executions/Sound.antt =====
-- What a fill or an order that is read says is what the message says.
use treble_tracker.Prelude.{
  ℕ, Option, none, some, Bool, true, false, not, Result, ok, err, >>=-ok, required, required-ok,
  bytes_eq, bytes_eqb_iff, ◌==◌, if◌then◌else◌, any, ◌≡◌, refl, ◌∙◌, ap, subst, arith, Bool-cases,
  inl, inr,
}
use treble_tracker.Prelude.Bytes.{Bytes, codes}
use treble_tracker.Prelude.Bytes.Utf8.{is_utf8}
use treble_tracker.Ems.Simplefix.{Simplefix}
use treble_tracker.Ems.Executions.{
  Readings, ReadError, bad_value, undecodable, wrong_type, no_trade, incomplete, unnamed,
  unmapped_side, unpriced, undated, sides, trade_exec_types, Execution, first_of, both, text_at,
  float_at, number_at, stamp_of, stamp_at, mapped, expect_type, expect_trade, check_execution,
  parse_trade, parse_execution,
}

pub both-some :
    {A B : Type 0} (a : Option A) (b : Option B) {p : A × B}
    → both a b ≡ some p
    → (a ≡ some p.0) × (b ≡ some p.1)
both-some none b h = cc
both-some (some x) none h = cc
both-some (some x) (some y) {p} h =
    let e : (x, y) ≡ p = some_inj h in (ap (λ q. some q.0) e, ap (λ q. some q.1) e)
  where
    some_inj : {C : Type 0} {c d : C} → some c ≡ some d → c ≡ d
    some_inj k = cc

pub ok_inj {ℓ} : {A : Type ℓ} {x y : A} → ◌≡◌ {A = Result ReadError A} (ok x) (ok y) → x ≡ y
ok_inj h = cc

pub guard_ok :
    {A : Type 0} (refused : Bool) (e : ReadError) (rest : Result ReadError A) {a : A}
    → (if refused then err e else rest) ≡ ok a
    → (refused ≡ false) × (rest ≡ ok a)
guard_ok true e rest h = cc
guard_ok false e rest h = (refl, h)

module _ {M F T : Type 0} (fix : Simplefix M) (py : Readings F T) where
  decoded :
      (value : Option Bytes) (o : Option Bytes)
      → (elim value as (λ _. Result ReadError (Option Bytes)) [
        | none ↦ ok none
        | some v ↦ if is_utf8 v then ok (some v) else err undecodable
      ])
        ≡ ok o
      → value ≡ o
  decoded none o h = ok_inj h
  decoded (some v) o h = readable (is_utf8 v) h
    where
      readable : (good : Bool) → (if good then ok (some v) else err undecodable) ≡ ok o → some v ≡ o
      readable true k = ok_inj k
      readable false k = cc

  pub text_at-ok :
      (m : M) (tag : ℕ) {o : Option Bytes} → text_at fix py m tag ≡ ok o → fix.get m tag ≡ o
  unfolding text_at
  text_at-ok m tag {o} h = decoded (fix.get m tag) o h

  pub number_at-ok :
      (m : M) (tag : ℕ) {o : Option F}
      → number_at fix py m tag ≡ ok o
      → float_at fix py (fix.get m tag) ≡ o
  unfolding number_at
  number_at-ok m tag h =
      let s = >>=-ok (text_at fix py m tag) (λ raw. ok (float_at fix py raw)) h in
      ap (float_at fix py) (text_at-ok m tag s.1) ∙ ok_inj s.2

  pub stamp_at-ok :
      (m : M) (tag : ℕ) {o : Option T}
      → stamp_at fix py m tag ≡ ok o
      → stamp_of fix py (fix.get m tag) ≡ o
  unfolding stamp_at
  stamp_at-ok m tag h =
      let s = >>=-ok (text_at fix py m tag) (λ raw. ok (stamp_of fix py raw)) h in
      ap (stamp_of fix py) (text_at-ok m tag s.1) ∙ ok_inj s.2

  -- The field of a message is a type that reports a trade.
  abbrev pub IsTradeType : Option Bytes → Type 0
  IsTradeType none = ⊥
  IsTradeType (some type) = any (λ t. type == t) trade_exec_types ≡ true

  pub expect_type-ok :
      (wanted : Bytes) (m : M) {u : Unit {0}}
      → expect_type fix py wanted m ≡ ok u
      → fix.get m 35 ≡ some wanted
  expect_type-ok wanted m {u} h = typed (fix.get m 35) h
    where
      settled :
          (type : Bytes) (same : Bool)
          → (type == wanted) ≡ same
          → (if same then ok tt else if is_utf8 type then err wrong_type else err undecodable)
            ≡ ok u
          → some type ≡ some wanted
      settled type true e k = ap some ((bytes_eqb_iff type wanted).0 e)
      settled type false e k = elim (Bool-cases (is_utf8 type)) [
        | inl good ↦ absurd (ground (arith, k, good))
        | inr bad ↦ absurd (ground (arith, k, bad))
      ]

      typed :
          (value : Option Bytes)
          → (elim value as (λ _. Result ReadError (Unit {0})) [
            | none ↦ err wrong_type
            | some type ↦
                if type == wanted
                then ok tt
                else if is_utf8 type
                then err wrong_type
                else err undecodable
          ])
            ≡ ok u
          → value ≡ some wanted
      typed none k = cc
      typed (some type) k = settled type (type == wanted) refl k

  expect_trade-ok :
      (m : M) {u : Unit {0}} → expect_trade fix py m ≡ ok u → IsTradeType (fix.get m 150)
  expect_trade-ok m {u} h = typed (fix.get m 150) h
    where
      typed :
          (value : Option Bytes)
          → (elim value as (λ _. Result ReadError (Unit {0})) [
            | none ↦ err no_trade
            | some type ↦ if any (λ t. type == t) trade_exec_types then ok tt else err no_trade
          ])
            ≡ ok u
          → IsTradeType value
      typed none k = absurd (not_ok k)
        where
          not_ok : ¬ ◌≡◌ {A = Result ReadError (Unit {0})} (err no_trade) (ok u)
          not_ok j = cc
      typed (some type) k = elim (Bool-cases (any (λ t. type == t) trade_exec_types)) [
        | inl trade ↦ trade
        | inr other ↦ absurd (ground (arith, k, other))
      ]

  -- An execution agrees with a report, and passes the checks of its class.
  abbrev pub IsFill : M → Option T → Execution F T → Type 0
  IsFill m received_at e =
      (fix.get m 17 ≡ some e.exec_id)
      × (fix.get m 11 ≡ some e.order_id)
      × (fix.get m 55 ≡ some e.symbol)
      × (mapped fix py sides (fix.get m 54) ≡ some e.side)
      × (float_at fix py (fix.get m 32) ≡ some e.last_qty)
      × (float_at fix py (fix.get m 31) ≡ some e.last_px)
      × (first_of (stamp_of fix py (fix.get m 60)) received_at ≡ some e.transact_time)
      × (py.ops.le e.last_qty py.ops.nought ≡ false)
      × (py.ops.lt e.last_px py.ops.nought ≡ false)
      × (py.is_aware e.transact_time ≡ true)

  check_execution-ok :
      (e : Execution F T) {v : Execution F T}
      → check_execution fix py e ≡ ok v
      → (e ≡ v)
        × (py.ops.le e.last_qty py.ops.nought ≡ false)
        × (py.ops.lt e.last_px py.ops.nought ≡ false)
        × (py.is_aware e.transact_time ≡ true)
  unfolding check_execution
  check_execution-ok e h =
      let a = guard_ok (py.ops.le e.last_qty py.ops.nought) bad_value _ h in
      let b = guard_ok (py.ops.lt e.last_px py.ops.nought) bad_value _ a.1 in
      let c = guard_ok (not (py.is_aware e.transact_time)) bad_value _ b.1 in
      (ok_inj c.1, a.0, b.0, ground (arith, c.0))

  parse_trade-IsFill :
      (m : M) (received_at : Option T) (e : Execution F T)
      → parse_trade fix py m received_at ≡ ok e
      → IsFill m received_at e
  unfolding parse_trade
  parse_trade-IsFill m received_at e h =
      let exec_id = >>=-ok (text_at fix py m 17) _ h in
      let order_id = >>=-ok (text_at fix py m 11) _ exec_id.2 in
      let symbol = >>=-ok (text_at fix py m 55) _ order_id.2 in
      let last_qty = >>=-ok (number_at fix py m 32) _ symbol.2 in
      let last_px = >>=-ok (number_at fix py m 31) _ last_qty.2 in
      let names =
        >>=-ok (required unnamed (both exec_id.0 (both order_id.0 symbol.0))) _ last_px.2 in
      let side = >>=-ok (required unmapped_side (mapped fix py sides (fix.get m 54))) _ names.2 in
      let priced = >>=-ok (required unpriced (both last_qty.0 last_px.0)) _ side.2 in
      let stamp = >>=-ok (stamp_at fix py m 60) _ priced.2 in
      let when = >>=-ok (required undated (first_of stamp.0 received_at)) _ stamp.2 in
      let cum_qty = >>=-ok (number_at fix py m 14) _ when.2 in
      let average_price = >>=-ok (number_at fix py m 6) _ cum_qty.2 in
      let order_qty = >>=-ok (number_at fix py m 38) _ average_price.2 in
      let checked = check_execution-ok _ order_qty.2 in
      let who =
        both-some exec_id.0 (both order_id.0 symbol.0)
          (required-ok unnamed (both exec_id.0 (both order_id.0 symbol.0)) names.1) in
      let rest = both-some order_id.0 symbol.0 who.1 in
      let money =
        both-some last_qty.0 last_px.0
          (required-ok unpriced (both last_qty.0 last_px.0) priced.1) in
      subst (IsFill m received_at) checked.0 (
        text_at-ok m 17 exec_id.1 ∙ who.0,
        text_at-ok m 11 order_id.1 ∙ rest.0,
        text_at-ok m 55 symbol.1 ∙ rest.1,
        required-ok unmapped_side (mapped fix py sides (fix.get m 54)) side.1,
        number_at-ok m 32 last_qty.1 ∙ money.0,
        number_at-ok m 31 last_px.1 ∙ money.1,
        ap (λ s. first_of s received_at) (stamp_at-ok m 60 stamp.1)
            ∙ required-ok undated (first_of stamp.0 received_at) when.1,
        checked.1,
        checked.2,
        checked.3,
      )

  -- A fill that is read is of a whole execution report whose type reports a trade, so never of an
  -- acknowledgement, a cancel or a reject. Its names, side, quantity and price are the message's, its
  -- time is the message's or, where that has none, the time of receipt, its quantity is not zero or
  -- below and its price not negative.
  pub parse_execution-IsFill :
      (raw : Bytes) (received_at : Option T) (e : Execution F T)
      → parse_execution fix py raw received_at ≡ ok e
      → (m : M) × (fix.get_message raw ≡ some m)
        × (fix.get m 35 ≡ some (codes "8"))
        × IsTradeType (fix.get m 150)
        × IsFill m received_at e
  unfolding parse_execution
  parse_execution-IsFill raw received_at e h =
      let m = >>=-ok (required incomplete (fix.get_message raw)) _ h in
      let report = >>=-ok (expect_type fix py (codes "8") m.0) _ m.2 in
      let trade = >>=-ok (expect_trade fix py m.0) _ report.2 in
      (
        m.0,
        required-ok incomplete _ m.1,
        expect_type-ok (codes "8") m.0 report.1,
        expect_trade-ok m.0 trade.1,
        parse_trade-IsFill m.0 received_at e trade.2,
      )
