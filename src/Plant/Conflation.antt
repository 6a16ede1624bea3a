-- ===== src/Plant/Conflation.antt =====
-- treble/plant/conflation.py: the latest value of each instrument's field, and the stream of all.
pub mod Stream
pub mod Image
mod Examples
use treble_tracker.Prelude.{
  ℕ, ◌+◌, List, [], ◌∷◌, ◌++◌, Option, none, some, Bool, true, false, ◌&&◌, ◌||◌, not, Result, ok,
  err, bytes_eq, nat_eqb, pair_eq, ltb, leb, if◌then◌else◌, length, map,
}
use treble_tracker.Prelude.Dict.{Dict, get, put}
use treble_tracker.Prelude.Bytes.{Bytes}
use treble_tracker.Prelude.Bytes.Order.{text_le}
use treble_tracker.Plant.Deque.{push}
use treble_tracker.Plant.Tick.{Tick}

-- `GapDetectedError`, raised for a jump between two numbers or for so many evicted ticks.
pub data GapDetected : Type 0 where
  jumped : ℕ → ℕ → GapDetected
  evicted : ℕ → GapDetected

unfoldable pub key_le : Bytes × Bytes → Bytes × Bytes → Bool
unfolding text_le
key_le (a, b) (c, d) = if text_le a c then (if text_le c a then text_le b d else true) else false

-- The latest tick of each instrument's field.
abbrev pub Image : Type 0 → Type 0
Image F = Dict (Bytes × Bytes) (Tick F)

module _ {F : Type 0} where
  -- `sorted`, by the key of each entry
  unfoldable pub insert_entry : (Bytes × Bytes) × Tick F → Image F → Image F
  unfolding key_le
  insert_entry e [] = e ∷ []
  insert_entry e (f ∷ es) = if key_le e.0 f.0 then e ∷ f ∷ es else f ∷ insert_entry e es

  unfoldable pub sort_entries : Image F → Image F
  unfolding insert_entry
  sort_entries [] = []
  sort_entries (e ∷ es) = insert_entry e (sort_entries es)

pub record TickerPlant (F : Type 0) : Type 0 where
  pub latest : Image F
  pub sequences : Dict Bytes ℕ
  pub queue : List (Tick F)
  pub maxlen : ℕ
  pub dropped : ℕ

module _ {F : Type 0} where
  abbrev pub new_plant : ℕ → TickerPlant F
  new_plant tpipe_buffer = record {
    latest = [];
    sequences = [];
    queue = [];
    maxlen = tpipe_buffer;
    dropped = 0;
  }

  -- The tick is next in its instrument's sequence, or the first of it.
  unfoldable pub apply_tick : Tick F → TickerPlant F → TickerPlant F
  apply_tick t p = record {
    latest = put (t.subject, t.field) t p.latest;
    sequences = put t.subject t.sequence p.sequences;
    queue = push p.maxlen p.queue t;
    maxlen = p.maxlen;
    dropped = if nat_eqb (length p.queue) p.maxlen then p.dropped + 1 else p.dropped;
  }

  unfoldable pub publish : Tick F → TickerPlant F → Result GapDetected (Unit {0}) × TickerPlant F
  publish t p = elim (get t.subject p.sequences) [
    | none ↦ (ok tt, apply_tick t p)
    | some last ↦
        if leb t.sequence last
        then (ok tt, p)
        else if not (nat_eqb t.sequence (last + 1))
        then (err (jumped last t.sequence), p)
        else (ok tt, apply_tick t p)
  ]

  unfoldable pub image : Bytes → Bytes → TickerPlant F → Option (Tick F)
  image subject field p = get (subject, field) p.latest

  unfoldable pub conflated : TickerPlant F → List (Tick F)
  unfolding sort_entries
  conflated p = map (λ e. e.1) (sort_entries p.latest)

  -- The stream read to its end.
  unfoldable pub tpipe : TickerPlant F → Result GapDetected (List (Tick F)) × TickerPlant F
  tpipe p =
      if nat_eqb p.dropped 0
      then (ok p.queue, record p { queue = [] })
      else (err (evicted p.dropped), record p { queue = []; dropped = 0 })

  unfoldable pub instruments : TickerPlant F → ℕ
  instruments p = length p.sequences

  unfoldable pub pending : TickerPlant F → ℕ
  pending p = length p.queue
