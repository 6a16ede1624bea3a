-- ===== src/Ems/Simulator/Examples.antt =====
-- A book of two orders in whole shares: one is filled, and then the client asks to cancel it.
use treble_tracker.Prelude.{
  ℕ, ◌+◌, ◌-◌, ◌*◌, ◌/◌, ◌≡◌, refl, List, [], ◌∷◌, none, some, true, bytes_eq, ltb, leb, nat_eqb,
  arith, if◌then◌else◌,
}
use treble_tracker.Prelude.Float.{FloatOps}
use treble_tracker.Prelude.Dict.{get, put}
use treble_tracker.Prelude.Bytes.{Bytes}
use treble_tracker.Prelude.Bytes.Utf8.{is_utf8}
use treble_tracker.Ems.Simplefix.{Simplefix}
use treble_tracker.Ems.Moment.{Moment}
use treble_tracker.Ems.Session.{new_session}
use treble_tracker.Ems.Simulator.{
  report, cancel, cancel_order, replace, replace_order, FloatText, RestingOrder, Simulator,
  is_overfill, fill_order, new_status, filled_status, orig_cl_ord_id, cl_ord_id,
}
use treble_tracker.Ems.Simulator.Intake.{accept, accept_keeps}
use treble_tracker.Ems.Simulator.Account.{prints_add_up}
use treble_tracker.Ems.Simulator.Ledger.{Books}
use treble_tracker.Ems.Simulator.Book.{Call, prints, cancels, replaces, trading, done_stays}

abbrev shares : FloatOps ℕ
shares = record {
  nought = 0;
  add = λ a b. a + b;
  sub = λ a b. a - b;
  mul = λ a b. a * b;
  div = λ a b. a / b;
  abs = λ a. a;
  le = leb;
  lt = ltb;
  eq = nat_eqb;
}

abbrev plain_text : FloatText ℕ
plain_text = record {
  read = λ t. some 5;
  fixed = λ x. b'1' ∷ [];
  general = λ x. b'1' ∷ [];
  digits = λ n. b'1' ∷ [];
  tolerance = 0;
  whole = λ n. n;
}

-- A message is the pair of its two order numbers.
abbrev codec : Simplefix (Bytes × Bytes)
codec = record {
  get_message = λ raw. none;
  get = λ m tag.
      if nat_eqb tag cl_ord_id
      then some m.0
      else if nat_eqb tag orig_cl_ord_id
      then some m.1
      else none;
  encode = λ fields. [];
}

abbrev noon : Moment
noon = record {
  year = 2026;
  month = 1;
  day = 5;
  hour = 12;
  minute = 0;
  second = 0;
  microsecond = 0;
}

abbrev order : ℕ → ℕ → Bytes → RestingOrder ℕ
order id filled status = record {
  order_id = id ∷ [];
  symbol = b'T' ∷ [];
  side = b'1' ∷ [];
  quantity = 10;
  price = 3;
  filled = filled;
  notional = filled * 3;
  status = status;
}

abbrev desk : Simulator ℕ
desk = record {
  book = (b'a' ∷ [], order b'a' 10 filled_status) ∷ (b'b' ∷ [], order b'b' 0 new_status) ∷ [];
  session = new_session (b'S' ∷ []) (b'T' ∷ []);
  fills = 1;
  reports = 2;
}

abbrev requests : List (Call shares plain_text codec)
requests =
    cancels (b'c' ∷ [], b'a' ∷ []) noon
    ∷ prints (b'b' ∷ []) 4 none noon
    ∷ replaces (b'd' ∷ [], b'b' ∷ []) noon
    ∷ prints (b'a' ∷ []) 1 none noon
    ∷ []

desk_has : get (b'a' ∷ []) desk.book ≡ some (order b'a' 10 filled_status)
unfolding get
desk_has = refl

done_stays_example :
    get (b'a' ∷ []) (trading shares plain_text codec requests desk).book
    ≡ some (order b'a' 10 filled_status)
unfolding get
done_stays_example =
    done_stays shares plain_text codec requests (b'a' ∷ []) (order b'a' 10 filled_status) desk
      ((λ e. ground (arith, e)), tt) refl refl

prints_add_up_example :
    Books shares plain_text codec
      (b'b' ∷ [])
      (order b'b' 0 new_status)
      ((4, none) ∷ [])
      (trading shares plain_text codec requests desk).book
unfolding fill_order is_overfill report get put cancel cancel_order replace replace_order is_utf8
prints_add_up_example =
    prints_add_up shares plain_text codec requests (b'b' ∷ []) (order b'b' 0 new_status) desk
      ((λ e. ground (arith, e)), tt) refl

accept_keeps_example :
    get (b'a' ∷ []) (accept shares plain_text codec true 2 (b'e' ∷ [], []) noon desk).1.book
    ≡ some (order b'a' 10 filled_status)
accept_keeps_example =
    accept_keeps shares plain_text codec true 2 (b'e' ∷ [], []) noon (b'a' ∷ [])
      (order b'a' 10 filled_status) desk desk_has
