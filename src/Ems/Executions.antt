-- ===== src/Ems/Executions.antt =====
-- treble/ems/executions.py and treble/ems/orders.py: the fill that an execution report tells of, and
-- the order that a new order asks for. A text is its UTF-8.
pub mod Sound
pub mod Arrival
mod Examples
use treble_tracker.Prelude.{
  ℕ, List, [], ◌∷◌, Option, none, some, Bool, true, false, not, Result, ok, err, ◌>>=◌, required,
  bytes_eq, ◌==◌, if◌then◌else◌, any,
}
use treble_tracker.Prelude.Dict.{Dict, get}
use treble_tracker.Prelude.Float.{FloatOps}
use treble_tracker.Prelude.Bytes.{Bytes, codes}
use treble_tracker.Prelude.Bytes.Utf8.{is_utf8}
use treble_tracker.Ems.Simplefix.{Simplefix}

-- What the readers take from Python: floats and `float` of a text, the two shapes of `strptime`, and
-- whether a `datetime` has a time zone. `T` is the type of datetimes.
pub record Readings (F T : Type 0) : Type 0 where
  pub ops : FloatOps F
  pub float_of : Bytes → Option F
  pub stamp_fractional : Bytes → Option T
  pub stamp_whole : Bytes → Option T
  pub is_aware : T → Bool

-- `NotAnExecutionError` and `NotAnOrderError` by their reasons, the `UnicodeDecodeError` of a value
-- that is no UTF-8, and the `ValueError` of the dataclasses.
pub data ReadError : Type 0 where
  incomplete : ReadError
  wrong_type : ReadError
  no_trade : ReadError
  unnamed : ReadError
  unmapped_side : ReadError
  unmapped_order_type : ReadError
  unpriced : ReadError
  undated : ReadError
  undecodable : ReadError
  bad_value : ReadError

abbrev pub sides : Dict Bytes Bytes
sides =
    (codes "1", codes "buy")
    ∷ (codes "2", codes "sell")
    ∷ (codes "5", codes "sell_short")
    ∷ (codes "6", codes "sell_short_exempt")
    ∷ []

abbrev pub order_types : Dict Bytes Bytes
order_types = (codes "2", codes "limit") ∷ []

abbrev pub trade_exec_types : List Bytes
trade_exec_types = codes "F" ∷ codes "1" ∷ codes "2" ∷ []

pub record Execution (F T : Type 0) : Type 0 where
  pub exec_id : Bytes
  pub order_id : Bytes
  pub symbol : Bytes
  pub side : Bytes
  pub last_qty : F
  pub last_px : F
  pub cum_qty : F
  pub average_price : F
  pub order_qty : F
  pub transact_time : T

pub record Order (F T : Type 0) : Type 0 where
  pub order_id : Bytes
  pub symbol : Bytes
  pub side : Bytes
  pub quantity : F
  pub order_type : Bytes
  pub limit_price : F
  pub arrival_time : T

-- What an order says of itself, but for its time.
pub record Terms (F : Type 0) : Type 0 where
  pub names : Bytes × Bytes
  pub side : Bytes
  pub order_type : Bytes
  pub priced : F × F

-- `x or y` of values that may be missing
abbrev pub first_of : {A : Type 0} → Option A → Option A → Option A
first_of none y = y
first_of (some x) y = some x

abbrev pub both : {A B : Type 0} → Option A → Option B → Option (A × B)
both none y = none
both (some x) none = none
both (some x) (some y) = some (x, y)

module _ {M F T : Type 0} (fix : Simplefix M) (py : Readings F T) where
  -- `_text`
  unfoldable pub text_at : M → ℕ → Result ReadError (Option Bytes)
  text_at m tag = elim (fix.get m tag) [
    | none ↦ ok none
    | some value ↦ if is_utf8 value then ok (some value) else err undecodable
  ]

  abbrev pub float_at : Option Bytes → Option F
  float_at none = none
  float_at (some t) = py.float_of t

  -- `_number`
  unfoldable pub number_at : M → ℕ → Result ReadError (Option F)
  unfolding text_at
  number_at m tag = text_at m tag >>= λ raw. ok (float_at raw)

  abbrev pub stamp_of : Option Bytes → Option T
  stamp_of none = none
  stamp_of (some t) = first_of (py.stamp_fractional t) (py.stamp_whole t)

  -- `_stamp`, `_transact_time`
  unfoldable pub stamp_at : M → ℕ → Result ReadError (Option T)
  unfolding text_at
  stamp_at m tag = text_at m tag >>= λ raw. ok (stamp_of raw)

  -- The value of a code that a dict maps
  abbrev pub mapped : Dict Bytes Bytes → Option Bytes → Option Bytes
  mapped d none = none
  mapped d (some code) = get code d

  -- The check of the message type, whose message decodes the type
  abbrev pub expect_type : Bytes → M → Result ReadError (Unit {0})
  expect_type wanted m = elim (fix.get m 35) [
    | none ↦ err wrong_type
    | some type ↦
        if type == wanted then ok tt else if is_utf8 type then err wrong_type else err undecodable
  ]

  abbrev pub expect_trade : M → Result ReadError (Unit {0})
  expect_trade m = elim (fix.get m 150) [
    | none ↦ err no_trade
    | some type ↦ if any (λ t. type == t) trade_exec_types then ok tt else err no_trade
  ]

  -- `x or default` of a number: zero is as good as none
  abbrev pub number_or : Option F → F → F
  number_or none default = default
  number_or (some x) default = if py.ops.eq x py.ops.nought then default else x

  -- `Execution.__post_init__`
  unfoldable pub check_execution : Execution F T → Result ReadError (Execution F T)
  check_execution e =
      if py.ops.le e.last_qty py.ops.nought
      then err bad_value
      else if py.ops.lt e.last_px py.ops.nought
      then err bad_value
      else if not (py.is_aware e.transact_time)
      then err bad_value
      else ok e

  -- `Order.__post_init__`
  unfoldable pub check_order : Order F T → Result ReadError (Order F T)
  check_order o =
      if py.ops.le o.quantity py.ops.nought
      then err bad_value
      else if py.ops.le o.limit_price py.ops.nought
      then err bad_value
      else if not (py.is_aware o.arrival_time)
      then err bad_value
      else ok o

  -- `parse_execution`, once the message is known to be of a trade
  unfoldable pub parse_trade : M → Option T → Result ReadError (Execution F T)
  unfolding text_at number_at stamp_at check_execution get
  parse_trade m received_at = text_at m 17 >>= λ exec_id. text_at m 11 >>= λ order_id.
      text_at m 55 >>= λ symbol. number_at m 32 >>= λ last_qty. number_at m 31 >>= λ last_px.
      required unnamed (both exec_id (both order_id symbol)) >>= λ names.
      required unmapped_side (mapped sides (fix.get m 54)) >>= λ side.
      required unpriced (both last_qty last_px) >>= λ priced. stamp_at m 60 >>= λ stamp.
      required undated (first_of stamp received_at) >>= λ when. number_at m 14 >>= λ cum_qty.
      number_at m 6 >>= λ average_price. number_at m 38 >>= λ order_qty. check_execution (record {
        exec_id = names.0;
        order_id = (names.1).0;
        symbol = (names.1).1;
        side = side;
        last_qty = priced.0;
        last_px = priced.1;
        cum_qty = number_or cum_qty priced.0;
        average_price = number_or average_price priced.1;
        order_qty = number_or order_qty py.ops.nought;
        transact_time = when;
      })

  unfoldable pub parse_execution : Bytes → Option T → Result ReadError (Execution F T)
  unfolding parse_trade
  parse_execution raw received_at = required incomplete (fix.get_message raw) >>= λ m.
      expect_type (codes "8") m >>= λ _. expect_trade m >>= λ _. parse_trade m received_at

  -- The second and third choice of an arrival time
  unfoldable pub arrival_at : M → Option T → Result ReadError (Option T)
  unfolding stamp_at
  arrival_at m received_at = stamp_at m 60 >>= λ decided. elim decided [
    | some t ↦ ok (some t)
    | none ↦ (stamp_at m 52 >>= λ sent. ok (first_of sent received_at))
  ]

  -- What `parse_order` takes from the fields, before it asks for the time
  unfoldable pub order_terms : M → Result ReadError (Terms F)
  unfolding text_at number_at get
  order_terms m = text_at m 11 >>= λ order_id. text_at m 55 >>= λ symbol.
      number_at m 38 >>= λ quantity. number_at m 44 >>= λ price.
      required unnamed (both order_id symbol) >>= λ names.
      required unmapped_side (mapped sides (fix.get m 54)) >>= λ side.
      required unmapped_order_type (mapped order_types (fix.get m 40)) >>= λ order_type.
      required unpriced (both quantity price) >>= λ priced.
      ok (record { names = names; side = side; order_type = order_type; priced = priced })

  abbrev pub order_of : Terms F → T → Order F T
  order_of terms arrival = record {
    order_id = (terms.names).0;
    symbol = (terms.names).1;
    side = terms.side;
    quantity = (terms.priced).0;
    order_type = terms.order_type;
    limit_price = (terms.priced).1;
    arrival_time = arrival;
  }

  unfoldable pub parse_order : Bytes → Option T → Result ReadError (Order F T)
  unfolding order_terms arrival_at check_order
  parse_order raw received_at = required incomplete (fix.get_message raw) >>= λ m.
      expect_type (codes "D") m >>= λ _. order_terms m >>= λ terms.
      arrival_at m received_at >>= λ found.
      required undated found >>= λ arrival. check_order (order_of terms arrival)
