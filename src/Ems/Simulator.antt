-- ===== src/Ems/Simulator.antt =====
-- treble/ems/simulator.py: the acceptor's book of resting orders, its fills, cancels and amendments.
pub mod Book
pub mod Ledger
pub mod Account
pub mod Intake
pub mod Client
mod Examples
use treble_tracker.Prelude.{
  ℕ, ◌+◌, List, [], ◌∷◌, ◌++◌, Option, none, some, Bool, true, false, ◌&&◌, ◌||◌, not, Result, ok,
  err, ◌==◌, bytes_eq, if◌then◌else◌, some_or,
}
use treble_tracker.Prelude.Float.{FloatOps}
use treble_tracker.Prelude.Dict.{Dict, get, put}
use treble_tracker.Prelude.Int.{pos}
use treble_tracker.Prelude.Bytes.{Bytes}
use treble_tracker.Prelude.Bytes.Search.{rstrip}
use treble_tracker.Prelude.Bytes.Utf8.{is_utf8}
use treble_tracker.Ems.Simplefix.{Simplefix, FieldValue, text}
use treble_tracker.Ems.Moment.{Moment, utc_stamp}
use treble_tracker.Ems.Session.{Session, encode}

abbrev pub cl_ord_id : ℕ
cl_ord_id = 11

abbrev pub order_qty : ℕ
order_qty = 38

abbrev pub price_tag : ℕ
price_tag = 44

abbrev pub side_tag : ℕ
side_tag = 54

abbrev pub symbol_tag : ℕ
symbol_tag = 55

abbrev pub exec_id : ℕ
exec_id = 17

abbrev pub exec_type_tag : ℕ
exec_type_tag = 150

abbrev pub ord_status : ℕ
ord_status = 39

abbrev pub last_qty_tag : ℕ
last_qty_tag = 32

abbrev pub last_px : ℕ
last_px = 31

abbrev pub cum_qty : ℕ
cum_qty = 14

abbrev pub leaves_qty : ℕ
leaves_qty = 151

abbrev pub avg_px : ℕ
avg_px = 6

abbrev pub orig_cl_ord_id : ℕ
orig_cl_ord_id = 41

abbrev pub ord_type : ℕ
ord_type = 40

abbrev pub transact_time : ℕ
transact_time = 60

abbrev pub cxl_rej_reason : ℕ
cxl_rej_reason = 102

abbrev pub cxl_rej_response_to : ℕ
cxl_rej_response_to = 434

abbrev pub text_tag : ℕ
text_tag = 58

abbrev pub new_order_single : Bytes
new_order_single = b'D' ∷ []

abbrev pub cancel_request : Bytes
cancel_request = b'F' ∷ []

abbrev pub cancel_replace_request : Bytes
cancel_replace_request = b'G' ∷ []

abbrev pub execution_report : Bytes
execution_report = b'8' ∷ []

abbrev pub cancel_reject_type : Bytes
cancel_reject_type = b'9' ∷ []

abbrev pub new_status : Bytes
new_status = b'0' ∷ []

abbrev pub partially_filled : Bytes
partially_filled = b'1' ∷ []

abbrev pub canceled : Bytes
canceled = b'4' ∷ []

abbrev pub replaced : Bytes
replaced = b'5' ∷ []

abbrev pub filled_status : Bytes
filled_status = b'2' ∷ []

abbrev unknown_order : Bytes
unknown_order =
    b'u' ∷ b'n' ∷ b'k' ∷ b'n' ∷ b'o' ∷ b'w' ∷ b'n' ∷ 32 ∷ b'o' ∷ b'r' ∷ b'd' ∷ b'e' ∷ b'r' ∷ []

abbrev late_to_cancel : Bytes
late_to_cancel =
    b't' ∷ b'o' ∷ b'o' ∷ 32 ∷ b'l' ∷ b'a' ∷ b't' ∷ b'e' ∷ 32 ∷ b't' ∷ b'o' ∷ 32 ∷ b'c' ∷ b'a' ∷ b'n'
    ∷ b'c' ∷ b'e' ∷ b'l' ∷ b':' ∷ 32 ∷ b'a' ∷ b'l' ∷ b'r' ∷ b'e' ∷ b'a' ∷ b'd' ∷ b'y' ∷ 32 ∷ []

abbrev late_to_replace : Bytes
late_to_replace =
    b't' ∷ b'o' ∷ b'o' ∷ 32 ∷ b'l' ∷ b'a' ∷ b't' ∷ b'e' ∷ 32 ∷ b't' ∷ b'o' ∷ 32 ∷ b'r' ∷ b'e' ∷ b'p'
    ∷ b'l' ∷ b'a' ∷ b'c' ∷ b'e' ∷ b':' ∷ 32 ∷ b'a' ∷ b'l' ∷ b'r' ∷ b'e' ∷ b'a' ∷ b'd' ∷ b'y' ∷ 32
    ∷ []

abbrev below_filled : Bytes
below_filled = b'q' ∷ b'u' ∷ b'a' ∷ b'n' ∷ b't' ∷ b'i' ∷ b't' ∷ b'y' ∷ 32 ∷ []

abbrev is_below : Bytes
is_below = 32 ∷ b'i' ∷ b's' ∷ 32 ∷ b'b' ∷ b'e' ∷ b'l' ∷ b'o' ∷ b'w' ∷ 32 ∷ []

abbrev already_filled : Bytes
already_filled =
    32 ∷ b'a' ∷ b'l' ∷ b'r' ∷ b'e' ∷ b'a' ∷ b'd' ∷ b'y' ∷ 32 ∷ b'f' ∷ b'i' ∷ b'l' ∷ b'l' ∷ b'e'
    ∷ b'd' ∷ []

-- Python's floats as text: `float(text)`, `f"{x:.8f}"`, `f"{x:g}"` and `str` of an `int`, and the
-- tolerance 1e-12.
pub record FloatText (F : Type 0) : Type 0 where
  pub read : Bytes → Option F
  pub fixed : F → Bytes
  pub general : F → Bytes
  pub digits : ℕ → Bytes
  pub tolerance : F
  -- `float` of an `int`
  pub whole : ℕ → F

pub record RestingOrder (F : Type 0) : Type 0 where
  pub order_id : Bytes
  pub symbol : Bytes
  pub side : Bytes
  pub quantity : F
  pub price : F
  pub filled : F
  pub notional : F
  pub status : Bytes

-- The fields that the orders use.
pub record Simulator (F : Type 0) : Type 0 where
  pub book : Dict Bytes (RestingOrder F)
  pub session : Session
  pub fills : ℕ
  pub reports : ℕ

-- `ValueError`, from a refused fill or a field that cannot be read, and `KeyError`.
pub data SimulatorError : Type 0 where
  bad_value : SimulatorError
  no_order : SimulatorError

-- `live`
abbrev pub is_working : {F : Type 0} → RestingOrder F → Bool
is_working r = r.status == new_status || r.status == partially_filled

module _ {F M : Type 0} (ops : FloatOps F) (floats : FloatText F) (fix : Simplefix M) where
  abbrev pub leaves : RestingOrder F → F
  leaves r =
      let open_quantity = ops.sub r.quantity r.filled in
      if is_working r
      then (if ops.lt open_quantity ops.nought then ops.nought else open_quantity)
      else ops.nought

  abbrev pub average_price : RestingOrder F → F
  average_price r = if ops.eq r.filled ops.nought then ops.nought else ops.div r.notional r.filled

  -- `_complete`
  abbrev pub is_complete : F → F → Bool
  is_complete filled quantity =
      ops.le (ops.sub quantity (ops.mul (ops.abs quantity) floats.tolerance)) filled

  -- `_decimal`
  abbrev pub decimal : F → Bytes
  decimal x = elim (rstrip b'.' (rstrip b'0' (floats.fixed x))) [
    | [] ↦ b'0' ∷ []
    | ◌∷◌ c cs ↦ c ∷ cs
  ]

  -- `a or b` for texts
  abbrev pub or_text : Option Bytes → Bytes → Bytes
  or_text none t = t
  or_text (some []) t = t
  or_text (some (c ∷ cs)) t = c ∷ cs

  -- `_report`; `id` and `original` are its optional arguments.
  unfoldable pub report :
      RestingOrder F
      → Bytes
      → Moment
      → F
      → Option F
      → Option Bytes
      → Option Bytes
      → Simulator F
      → Bytes × Simulator F
  report r exec_type now last_qty price id original s =
      let count = s.reports + 1 in
      let px = if ops.eq last_qty ops.nought then ops.nought else some_or price r.price in
      let origin : List (ℕ × FieldValue) = elim original [
        | none ↦ []
        | some o ↦ (orig_cl_ord_id, text o) ∷ []
      ] in
      let (raw, session) =
        encode fix execution_report
          ((cl_ord_id, text (or_text id r.order_id))
            ∷ (origin
                ++ (exec_id, text (b'E' ∷ floats.digits count))
                  ∷ (exec_type_tag, text exec_type)
                  ∷ (ord_status, text exec_type)
                  ∷ (symbol_tag, text r.symbol)
                  ∷ (side_tag, text r.side)
                  ∷ (order_qty, text (decimal r.quantity))
                  ∷ (last_qty_tag, text (decimal last_qty))
                  ∷ (last_px, text (decimal px))
                  ∷ (cum_qty, text (decimal r.filled))
                  ∷ (leaves_qty, text (decimal (leaves r)))
                  ∷ (avg_px, text (decimal (average_price r)))
                  ∷ (transact_time, text (utc_stamp now))
                  ∷ []))
          now s.session in
      (raw, record s { session = session; reports = count })

  -- `_cancel_reject`
  unfoldable pub cancel_reject :
      Bytes → Bytes → Bytes → Bytes → Moment → Simulator F → Bytes × Simulator F
  cancel_reject id original reason response_to now s =
      let status : Bytes = elim (get original s.book) [ none ↦ b'8' ∷ [] | some r ↦ r.status ] in
      let (raw, session) =
        encode fix cancel_reject_type
          ((cl_ord_id, text id)
            ∷ (orig_cl_ord_id, text original)
            ∷ (ord_status, text status)
            ∷ (
              cxl_rej_response_to,
              text (if response_to == cancel_request then b'1' ∷ [] else b'2' ∷ []),
            )
            ∷ (cxl_rej_reason, text (b'0' ∷ []))
            ∷ (text_tag, text reason)
            ∷ [])
          now s.session in
      (raw, record s { session = session })

  -- The print is more than what the order leaves, with the tolerance.
  unfoldable pub is_overfill : F → RestingOrder F → Bool
  is_overfill quantity r =
      ops.lt (ops.add (leaves r) (ops.mul (ops.abs r.quantity) floats.tolerance)) quantity

  -- The order after a fill that is let through.
  abbrev pub print_on : RestingOrder F → F → Option F → RestingOrder F
  print_on r quantity price =
      let total = ops.add r.filled quantity in
      record r {
        filled = total;
        notional = ops.add r.notional (ops.mul quantity (some_or price r.price));
        status = if is_complete total r.quantity then filled_status else partially_filled;
      }

  -- `fill`
  unfoldable pub fill_order :
      Bytes → F → Option F → Moment → Simulator F → Result SimulatorError Bytes × Simulator F
  unfolding report is_overfill
  fill_order id quantity price now s = elim (get id s.book) [
    | none ↦ (err no_order, s)
    | some r ↦
        if not (is_working r)
        then (err bad_value, s)
        else if is_overfill quantity r
        then (err bad_value, s)
        else let q = print_on r quantity price in
          let (raw, t) =
            report q q.status now quantity price none none
              (record s { book = put id q s.book; fills = s.fills + 1 }) in
          (ok raw, t)
  ]

  -- `(message.get(tag) or b"").decode()`, where `none` is `UnicodeDecodeError`
  abbrev pub text_of : M → ℕ → Option Bytes
  text_of m tag = let t = some_or (fix.get m tag) [] in if is_utf8 t then some t else none

  -- `float((message.get(tag) or b"0").decode())`
  abbrev pub float_of : M → ℕ → Option F
  float_of m tag =
      let t = or_text (fix.get m tag) (b'0' ∷ []) in if is_utf8 t then floats.read t else none

  -- The message of a call that raises nothing.
  abbrev pub replied : Bytes × Simulator F → Result SimulatorError Bytes × Simulator F
  replied r = (ok r.0, r.1)

  -- `_cancel`, once its two ids are read
  unfoldable pub cancel_order : Bytes → Bytes → Moment → Simulator F → Bytes × Simulator F
  unfolding report cancel_reject
  cancel_order id original now s = elim (get original s.book) [
    | none ↦ cancel_reject id original unknown_order cancel_request now s
    | some r ↦
        if not (is_working r)
        then cancel_reject id original (late_to_cancel ++ r.status) cancel_request now s
        else let q = record r { status = canceled } in
          report q canceled now ops.nought none (some id) none
            (record s { book = put original q s.book })
  ]

  -- `_cancel`
  unfoldable pub cancel : M → Moment → Simulator F → Result SimulatorError Bytes × Simulator F
  unfolding cancel_order
  cancel m now s = elim (text_of m cl_ord_id) [
    | none ↦ (err bad_value, s)
    | some id ↦ elim (text_of m orig_cl_ord_id) [
      | none ↦ (err bad_value, s)
      | some original ↦ replied (cancel_order id original now s)
    ]
  ]

  -- The new order of an amendment: what it takes over, and what it starts afresh.
  abbrev pub amended : Bytes → RestingOrder F → F → F → RestingOrder F
  amended id r quantity price = record {
    order_id = id;
    symbol = r.symbol;
    side = r.side;
    quantity = quantity;
    price = if ops.eq price ops.nought then r.price else price;
    filled = r.filled;
    notional = ops.nought;
    status = new_status;
  }

  abbrev refusal_below : F → F → Bytes
  refusal_below quantity filled =
      below_filled
      ++ (floats.general quantity ++ (is_below ++ (floats.general filled ++ already_filled)))

  -- The rest of `_replace` for an order that works
  unfoldable pub amend :
      M
      → Bytes
      → Bytes
      → RestingOrder F
      → Moment
      → Simulator F
      → Result SimulatorError Bytes × Simulator F
  unfolding report cancel_reject
  amend m id original r now s = elim (float_of m order_qty) [
    | none ↦ (err bad_value, s)
    | some quantity ↦
        if ops.lt quantity r.filled
        then replied (
            cancel_reject id original (refusal_below quantity r.filled) cancel_replace_request now
              s)
        else elim (float_of m price_tag) [
          | none ↦ (err bad_value, s)
          | some price ↦
              let q = amended id r quantity price in
              let kept = put original (record r { status = replaced }) s.book in
              replied (
                report q replaced now ops.nought none none (some original)
                  (record s { book = put id q kept }))
        ]
  ]

  unfoldable pub replace_order :
      M → Bytes → Bytes → Moment → Simulator F → Result SimulatorError Bytes × Simulator F
  unfolding cancel_reject amend
  replace_order m id original now s = elim (get original s.book) [
    | none ↦ replied (cancel_reject id original unknown_order cancel_replace_request now s)
    | some r ↦
        if not (is_working r)
        then replied
            (cancel_reject id original (late_to_replace ++ r.status) cancel_replace_request now s)
        else amend m id original r now s
  ]

  -- `_replace`
  unfoldable pub replace : M → Moment → Simulator F → Result SimulatorError Bytes × Simulator F
  unfolding replace_order
  replace m now s = elim (text_of m cl_ord_id) [
    | none ↦ (err bad_value, s)
    | some id ↦ elim (text_of m orig_cl_ord_id) [
      | none ↦ (err bad_value, s)
      | some original ↦ replace_order m id original now s
    ]
  ]
