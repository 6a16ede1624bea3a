-- ===== src/Ems/Executions/Examples.antt =====
-- A fill and an order in whole numbers, behind a codec that knows one message.
use treble_tracker.Prelude.{
  ℕ, ◌+◌, ◌-◌, ◌*◌, ◌/◌, ◌≡◌, refl, [], ◌∷◌, Option, none, some, true, err, ltb, leb, nat_eqb,
  nat_eq, bytes_eq,
}
use treble_tracker.Prelude.Float.{FloatOps}
use treble_tracker.Prelude.Dict.{Dict, get}
use treble_tracker.Prelude.Bytes.{Bytes, codes}
use treble_tracker.Prelude.Bytes.Utf8.{is_utf8}
use treble_tracker.Ems.Simplefix.{Simplefix}
use treble_tracker.Ems.Executions.{
  Readings, Execution, Order, no_trade, parse_execution, parse_trade, parse_order, order_terms,
  arrival_at, text_at, number_at, stamp_at, check_execution, check_order,
}
use treble_tracker.Ems.Executions.Sound.{IsTradeType, IsFill, parse_execution-IsFill}
use treble_tracker.Ems.Executions.Arrival.{IsAsked, parse_order-IsAsked}

abbrev shares : FloatOps ℕ
shares = record {
  nought = 0;
  add = λ a b. a + b;
  sub = λ a b. a - b;
  mul = λ a b. a * b;
  div = λ a b. a / b;
  abs = λ a. a;
  le = leb;
  lt = ltb;
  eq = nat_eqb;
}

-- The value of one figure.
abbrev figure : Bytes → Option ℕ
figure [] = none
figure (c ∷ cs) = some (c - 48)

abbrev readings : Readings ℕ ℕ
readings = record {
  ops = shares;
  float_of = figure;
  stamp_fractional = λ t. none;
  stamp_whole = figure;
  is_aware = λ t. true;
}

abbrev knowing : Dict ℕ Bytes → Simplefix (Dict ℕ Bytes)
knowing message = record {
  get_message = λ raw. some message;
  get = λ m tag. get tag m;
  encode = λ fields. [];
}

abbrev report_of_fill : Dict ℕ Bytes
report_of_fill =
    (35, codes "8")
    ∷ (150, codes "F")
    ∷ (17, codes "e1")
    ∷ (11, codes "o1")
    ∷ (55, codes "IBM")
    ∷ (54, codes "1")
    ∷ (32, codes "5")
    ∷ (31, codes "7")
    ∷ []

abbrev filled : Execution ℕ ℕ
filled = record {
  exec_id = codes "e1";
  order_id = codes "o1";
  symbol = codes "IBM";
  side = codes "buy";
  last_qty = 5;
  last_px = 7;
  cum_qty = 5;
  average_price = 7;
  order_qty = 0;
  transact_time = 9;
}

parse_execution-IsFill_example :
    (m : Dict ℕ Bytes) × (◌≡◌ {A = Option (Dict ℕ Bytes)} (some report_of_fill) (some m))
    × (get 35 m ≡ some (codes "8"))
    × IsTradeType (knowing report_of_fill) readings (get 150 m)
    × IsFill (knowing report_of_fill) readings m (some 9) filled
unfolding parse_execution parse_trade text_at number_at stamp_at check_execution get is_utf8
parse_execution-IsFill_example =
    parse_execution-IsFill (knowing report_of_fill) readings [] (some 9) filled refl

-- An acknowledgement is no fill.
acknowledged :
    parse_execution (knowing ((35, codes "8") ∷ (150, codes "0") ∷ [])) readings [] (some 9)
    ≡ err no_trade
unfolding parse_execution get
acknowledged = refl

abbrev ask : Dict ℕ Bytes
ask =
    (35, codes "D")
    ∷ (11, codes "o1")
    ∷ (55, codes "IBM")
    ∷ (54, codes "2")
    ∷ (40, codes "2")
    ∷ (38, codes "5")
    ∷ (44, codes "7")
    ∷ (52, codes "3")
    ∷ []

abbrev asked : Order ℕ ℕ
asked = record {
  order_id = codes "o1";
  symbol = codes "IBM";
  side = codes "sell";
  quantity = 5;
  order_type = codes "limit";
  limit_price = 7;
  arrival_time = 3;
}

parse_order-IsAsked_example :
    (m : Dict ℕ Bytes) × (◌≡◌ {A = Option (Dict ℕ Bytes)} (some ask) (some m))
    × (get 35 m ≡ some (codes "D"))
    × IsAsked (knowing ask) readings m (some 9) asked
unfolding parse_order order_terms arrival_at text_at number_at stamp_at check_order get is_utf8
parse_order-IsAsked_example = parse_order-IsAsked (knowing ask) readings [] (some 9) asked refl
