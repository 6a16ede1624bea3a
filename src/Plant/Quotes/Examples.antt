-- ===== src/Plant/Quotes/Examples.antt =====
-- A book with two contributors, of whom one withdraws and one quotes again with an older time.
use treble_tracker.Prelude.{
  ℕ, ◌-◌, ◌≡◌, refl, List, [], ◌∷◌, none, some, true, false, bytes_eq, inl, inr, ltb, leb, nat_eqb,
  arith, keep_if, map, if◌then◌else◌,
}
use mathlib.Core.List.{Permᴰ}
use treble_tracker.Prelude.Float.{FloatOps}
use treble_tracker.Prelude.Dict.{get, put, erase}
use treble_tracker.Plant.Quotes.{
  Side, Firmness, indicative, executable, Quote, Book, QuoteBook, new_quote_book, quotes_of, stand,
  contribute, withdraw, is_live, is_empty, is_executable, book, tcmp, side_of, live_quotes,
  insert_quote, sort_quotes,
}
use treble_tracker.Plant.Quotes.Standing.{
  Call, contributes, withdraws, after, standing, standing-own,
}
use treble_tracker.Plant.Quotes.Live.{
  In, side_price, outbids, tcmp_best, Alphabetical, book_in_order,
}

-- Whole prices.
abbrev whole : FloatOps ℕ
whole = record {
  nought = 0;
  add = λ a b. a;
  sub = λ a b. a - b;
  mul = λ a b. a;
  div = λ a b. a;
  abs = λ a. a;
  le = leb;
  lt = ltb;
  eq = nat_eqb;
}

abbrev quote : ℕ → Firmness → ℕ → ℕ → Quote ℕ
quote contributor firmness price time = record {
  subject = 1 ∷ [];
  contributor = contributor ∷ [];
  firmness = firmness;
  bid = some price;
  ask = none;
  bid_size = none;
  ask_size = none;
  quoted_at = time;
}

abbrev calls : List (Call ℕ)
calls =
    contributes (quote 8 executable 101 10)
    ∷ contributes (quote 6 indicative 105 11)
    ∷ contributes (quote 8 executable 100 9)
    ∷ contributes (quote 7 executable 99 12)
    ∷ withdraws (1 ∷ []) (6 ∷ [])
    ∷ []

abbrev final : QuoteBook ℕ
final = after calls (new_quote_book 5)

standing-own_example : standing (1 ∷ []) (8 ∷ []) final ≡ some (quote 8 executable 101 10)
standing-own_example = standing-own (1 ∷ []) (8 ∷ []) calls 5

book_in_order_case :
    Permᴰ
      (book (1 ∷ []) 15 final).quotes
      (keep_if (is_live final.ttl 15) (map (λ e. e.1) (quotes_of (1 ∷ []) final)))
    × Alphabetical (book (1 ∷ []) 15 final).quotes
    × ((book (1 ∷ []) 15 final).last_live
        ≡ (if is_empty (book (1 ∷ []) 15 final) then get (1 ∷ []) final.last_live else none))
book_in_order_case = book_in_order (1 ∷ []) 15 final

abbrev shown : Book ℕ
shown = record {
  subject = 1 ∷ [];
  quotes = quote 6 indicative 105 11 ∷ quote 7 executable 99 12 ∷ quote 8 executable 101 10 ∷ [];
  last_live = none;
}

tcmp_best_case :
    (m : ℕ) × (side_price whole Side.bid (tcmp whole shown) ≡ some m)
    × ((r : Quote ℕ) × In r shown.quotes × (is_executable r ≡ true) × (side_of Side.bid r ≡ some m))
    × (outbids whole Side.bid m 99 ≡ false)
tcmp_best_case =
    tcmp_best whole (λ x. ground arith) (λ x y z a b. ground (arith, a, b)) Side.bid shown
      (quote 7 executable 99 12) 99 (inr (inl refl)) refl refl

book_is :
    (book (1 ∷ []) 15 final).quotes ≡ quote 7 executable 99 12 ∷ quote 8 executable 101 10 ∷ []
unfolding contribute stand withdraw quotes_of get put erase book is_live live_quotes insert_quote
    sort_quotes
book_is = refl

-- The newest moment of a live quote is 12, and the book tells 9 once the later call is the older quote.
last_live_is :
    (book (1 ∷ []) 99 (
      after
        (contributes (quote 8 executable 101 12) ∷ contributes (quote 7 executable 101 9) ∷ [])
        (new_quote_book 5))).last_live
    ≡ some 9
unfolding contribute stand quotes_of get put book is_live live_quotes sort_quotes
last_live_is = refl
