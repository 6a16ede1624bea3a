-- ===== src/Plant/Vwap.antt =====
-- treble/plant/bars.py: `vwap_over`, the volume-weighted average price of a list of ticks.
mod Examples
use treble_tracker.Prelude.{
  ℕ, List, [], ◌∷◌, Option, none, some, Bool, true, false, not, Result, ok, err, bytes_eq, ◌==◌,
  if◌then◌else◌, ltb, is_some, all, All, length, ◌≡◌, refl, arith, subst,
}
use treble_tracker.Prelude.Float.{FloatOps}
use treble_tracker.Prelude.Bytes.{Bytes}
use treble_tracker.Plant.Tick.{Tick}

pub record Vwap (F : Type 0) : Type 0 where
  pub subject : Bytes
  pub first : ℕ
  pub last : ℕ
  pub trades : ℕ
  pub volume : F
  pub price : F

-- `NoTicksError`, and the three uses of `ValueError`.
pub data VwapError : Type 0 where
  no_ticks : VwapError
  mixed_subjects : VwapError
  unsized : VwapError
  no_volume : VwapError

abbrev earliest : {F : Type 0} → ℕ → List (Tick F) → ℕ
earliest m [] = m
earliest m (t ∷ ts) = earliest (if ltb t.exchange_time m then t.exchange_time else m) ts

abbrev latest_time : {F : Type 0} → ℕ → List (Tick F) → ℕ
latest_time m [] = m
latest_time m (t ∷ ts) = latest_time (if ltb m t.exchange_time then t.exchange_time else m) ts

module _ {F : Type 0} (ops : FloatOps F) where
  -- `tick.size or 0.0`
  abbrev size_or_zero : Tick F → F
  size_or_zero t = elim t.size [
    | none ↦ ops.nought
    | some x ↦ if ops.eq x ops.nought then ops.nought else x
  ]

  -- `sum(weight(tick) for tick in ticks)`
  abbrev pub total : (Tick F → F) → F → List (Tick F) → F
  total weight acc [] = acc
  total weight acc (t ∷ ts) = total weight (ops.add acc (weight t)) ts

  unfoldable pub volume_of : List (Tick F) → F
  volume_of ts = total size_or_zero ops.nought ts

  unfoldable pub traded_value : List (Tick F) → F
  traded_value ts = total (λ t. ops.mul t.value (size_or_zero t)) ops.nought ts

  abbrev vwap_of : Tick F → List (Tick F) → Vwap F
  vwap_of t ts = record {
    subject = t.subject;
    first = earliest t.exchange_time ts;
    last = latest_time t.exchange_time ts;
    trades = length (t ∷ ts);
    volume = volume_of (t ∷ ts);
    price = ops.div (traded_value (t ∷ ts)) (volume_of (t ∷ ts));
  }

  unfoldable pub vwap_over : List (Tick F) → Result VwapError (Vwap F)
  vwap_over [] = err no_ticks
  vwap_over (t ∷ ts) =
      if not (all (λ u. u.subject == t.subject) (t ∷ ts))
      then err mixed_subjects
      else if not (all (λ u. is_some u.size) (t ∷ ts))
      then err unsized
      else if ops.le (volume_of (t ∷ ts)) ops.nought
      then err no_volume
      else ok (vwap_of t ts)

  guarded :
      (same sized empty : Bool) (w v : Vwap F)
      → (if not same
          then err mixed_subjects
          else if not sized
          then err unsized
          else if empty
          then err no_volume
          else ok w)
        ≡ ok v
      → (same ≡ true) × (sized ≡ true) × (empty ≡ false) × (w ≡ v)
  guarded true true false w v h = (refl, refl, refl, ground (arith, h))
  guarded true true true w v h = absurd (ground (arith, h))
  guarded true false empty w v h = absurd (ground (arith, h))
  guarded false sized empty w v h = absurd (ground (arith, h))

  abbrev Sound : List (Tick F) → Vwap F → Type 0
  Sound ts v =
      (all (λ u. u.subject == v.subject) ts ≡ true)
      × (all (λ u. is_some u.size) ts ≡ true)
      × (ops.le v.volume ops.nought ≡ false)
      × (v.trades ≡ length ts)
      × (v.volume ≡ volume_of ts)
      × (v.price ≡ ops.div (traded_value ts) v.volume)

  -- A result is over at least one tick, all of its one subject and with a size, and of a volume that is
  -- not zero or less; its price is their traded value by that volume.
  pub vwap_sound :
      (ts : List (Tick F)) (v : Vwap F)
      → vwap_over ts ≡ ok v
      → (all (λ u. u.subject == v.subject) ts ≡ true)
        × (all (λ u. is_some u.size) ts ≡ true)
        × (ops.le v.volume ops.nought ≡ false)
        × (v.trades ≡ length ts)
        × (v.volume ≡ volume_of ts)
        × (v.price ≡ ops.div (traded_value ts) v.volume)
  unfolding vwap_over
  vwap_sound [] v h = absurd (ground (arith, h))
  vwap_sound (t ∷ ts) v h =
      let g =
        guarded (all (λ u. u.subject == t.subject) (t ∷ ts)) (all (λ u. is_some u.size) (t ∷ ts))
          (ops.le (volume_of (t ∷ ts)) ops.nought) (vwap_of t ts) v h in
      subst (Sound (t ∷ ts)) g.3 (g.0, g.1, g.2, refl, refl, refl)
