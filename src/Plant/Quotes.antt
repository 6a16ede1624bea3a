-- ===== src/Plant/Quotes.antt =====
-- treble/plant/quotes.py: the contributed quotes of each instrument and the book made of them.
pub mod Standing
pub mod Live
mod Examples
use treble_tracker.Prelude.Bytes.Order.{text_le}
use treble_tracker.Prelude.{
  ℕ, ◌-◌, List, [], ◌∷◌, ◌++◌, Option, none, some, Bool, true, false, ◌&&◌, ◌||◌, not, bytes_eq,
  is_some, some_or, if◌then◌else◌, ltb, leb, keep_if, length, map, nat_eqb,
}
use treble_tracker.Prelude.Float.{FloatOps}
use treble_tracker.Prelude.Dict.{Dict, get, put, erase}
use treble_tracker.Prelude.Bytes.{Bytes}

pub data Side : Type 0 where
  bid : Side
  ask : Side

pub data Firmness : Type 0 where
  indicative : Firmness
  executable : Firmness

-- A time is a number of microseconds.
pub record Quote (F : Type 0) : Type 0 where
  pub subject : Bytes
  pub contributor : Bytes
  pub firmness : Firmness
  pub bid : Option F
  pub ask : Option F
  pub bid_size : Option F
  pub ask_size : Option F
  pub quoted_at : ℕ

-- What `ALLQ` shows for one instrument at one moment.
pub record Book (F : Type 0) : Type 0 where
  pub subject : Bytes
  pub quotes : List (Quote F)
  pub last_live : Option ℕ

-- `quote.bid is not None or quote.ask is not None`
abbrev pub is_priced : {F : Type 0} → Quote F → Bool
is_priced q = is_some q.bid || is_some q.ask

abbrev pub is_executable : {F : Type 0} → Quote F → Bool
is_executable q = elim q.firmness [ indicative ↦ false | executable ↦ true ]

module _ {F : Type 0} where
  -- `[x for x in … if x is not None]`
  unfoldable pub present : List (Option F) → List F
  present [] = []
  present (none ∷ os) = present os
  present (some x ∷ os) = x ∷ present os

  abbrev pub side_of : Side → Quote F → Option F
  side_of Side.bid q = q.bid
  side_of Side.ask q = q.ask

  -- `_prices`, where the firmness is `None` or executable
  unfoldable pub prices : Side → Bool → Book F → List F
  unfolding present
  prices side only_executable b =
      present (map (side_of side) (keep_if (λ q. not only_executable || is_executable q) b.quotes))

  unfoldable pub is_empty : Book F → Bool
  is_empty b = nat_eqb (length b.quotes) 0

module _ {F : Type 0} where
  -- The first item that no later one beats, as `max` and `min` find it.
  unfoldable pub pick : (F → F → Bool) → F → List F → F
  pick beaten m [] = m
  pick beaten m (x ∷ xs) = pick beaten (if beaten m x then x else m) xs

  unfoldable pub best_of : (F → F → Bool) → List F → Option F
  unfolding pick
  best_of beaten [] = none
  best_of beaten (x ∷ xs) = some (pick beaten x xs)

module _ {F : Type 0} (ops : FloatOps F) where
  -- `max(xs) if xs else None`
  unfoldable pub max_of : List F → Option F
  unfolding best_of
  max_of xs = best_of ops.lt xs

  -- `min(xs) if xs else None`
  unfoldable pub min_of : List F → Option F
  unfolding best_of
  min_of xs = best_of (λ m x. ops.lt x m) xs

  unfoldable pub best_bid : Book F → Option F
  unfolding max_of present
  best_bid b = max_of (present (map (λ q. q.bid) b.quotes))

  unfoldable pub best_ask : Book F → Option F
  unfolding min_of present
  best_ask b = min_of (present (map (λ q. q.ask) b.quotes))

  unfoldable pub spread : Book F → Option F
  unfolding best_bid best_ask
  spread b = elim (best_bid b) [
    | none ↦ none
    | some bid_price ↦ elim (best_ask b) [
      | none ↦ none
      | some ask_price ↦ some (ops.sub ask_price bid_price)
    ]
  ]

  unfoldable pub tcmp : Book F → Option F × Option F
  unfolding max_of min_of prices
  tcmp b = (max_of (prices Side.bid true b), min_of (prices Side.ask true b))

  unfoldable pub tgn : Book F → Option F × Option F
  unfolding max_of min_of prices
  tgn b = (max_of (prices Side.bid false b), min_of (prices Side.ask false b))

pub record QuoteBook (F : Type 0) : Type 0 where
  pub quotes : Dict Bytes (Dict Bytes (Quote F))
  pub last_live : Dict Bytes ℕ
  pub ttl : ℕ

module _ {F : Type 0} where
  abbrev pub new_quote_book : ℕ → QuoteBook F
  new_quote_book ttl = record { quotes = []; last_live = []; ttl = ttl }

  -- `self._quotes.get(subject, {})`
  unfoldable pub quotes_of : Bytes → QuoteBook F → Dict Bytes (Quote F)
  quotes_of subject b = some_or (get subject b.quotes) []

  unfoldable pub stand : Quote F → QuoteBook F → QuoteBook F
  unfolding quotes_of
  stand q b = record {
    quotes = put q.subject (put q.contributor q (quotes_of q.subject b)) b.quotes;
    last_live = if is_priced q then put q.subject q.quoted_at b.last_live else b.last_live;
    ttl = b.ttl;
  }

  unfoldable pub contribute : Quote F → QuoteBook F → QuoteBook F
  unfolding quotes_of stand
  contribute q b = elim (get q.contributor (quotes_of q.subject b)) [
    | none ↦ stand q b
    | some existing ↦ if ltb q.quoted_at existing.quoted_at then b else stand q b
  ]

  unfoldable pub withdraw : Bytes → Bytes → QuoteBook F → QuoteBook F
  withdraw subject contributor b = elim (get subject b.quotes) [
    | none ↦ b
    | some d ↦ record b { quotes = put subject (erase contributor d) b.quotes }
  ]

  -- Not expired, and with a side; a time in the future has not expired either.
  unfoldable pub is_live : ℕ → ℕ → Quote F → Bool
  is_live ttl as_of q = leb (as_of - q.quoted_at) ttl && is_priced q

  -- `sorted(live, key=lambda q: q.contributor)`
  unfoldable pub insert_quote : Quote F → List (Quote F) → List (Quote F)
  unfolding text_le
  insert_quote q [] = q ∷ []
  insert_quote q (r ∷ rs) =
      if text_le q.contributor r.contributor then q ∷ r ∷ rs else r ∷ insert_quote q rs

  unfoldable pub sort_quotes : List (Quote F) → List (Quote F)
  unfolding insert_quote
  sort_quotes [] = []
  sort_quotes (q ∷ qs) = insert_quote q (sort_quotes qs)

  -- The values of a dict, in its order.
  unfoldable pub live_quotes : ℕ → ℕ → Dict Bytes (Quote F) → List (Quote F)
  unfolding is_live
  live_quotes ttl as_of d = keep_if (is_live ttl as_of) (map (λ e. e.1) d)

  unfoldable pub book : Bytes → ℕ → QuoteBook F → Book F
  unfolding quotes_of live_quotes sort_quotes
  book subject as_of b =
      let live = live_quotes b.ttl as_of (quotes_of subject b) in
      record {
        subject = subject;
        quotes = sort_quotes live;
        last_live = if nat_eqb (length live) 0 then get subject b.last_live else none;
      }
