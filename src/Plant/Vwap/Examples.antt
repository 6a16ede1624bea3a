-- ===== src/Plant/Vwap/Examples.antt =====
-- Two prints of one instrument, in whole numbers.
use treble_tracker.Prelude.{
  ℕ, ◌+◌, ◌-◌, ◌*◌, ◌/◌, ◌≡◌, refl, [], ◌∷◌, some, true, false, bytes_eq, ◌==◌, ltb, leb, nat_eqb,
  all, is_some, length,
}
use treble_tracker.Prelude.Float.{FloatOps}
use treble_tracker.Plant.Tick.{Tick}
use treble_tracker.Plant.Vwap.{Vwap, vwap_over, vwap_sound, volume_of, traded_value}

abbrev counts : FloatOps ℕ
counts = record {
  nought = 0;
  add = λ a b. a + b;
  sub = λ a b. a - b;
  mul = λ a b. a * b;
  div = λ a b. a / b;
  abs = λ a. a;
  le = leb;
  lt = ltb;
  eq = nat_eqb;
}

abbrev sized : ℕ → ℕ → ℕ → Tick ℕ
sized sequence value size = record {
  subject = 1 ∷ [];
  field = 7 ∷ [];
  value = value;
  sequence = sequence;
  exchange_time = 60 + sequence;
  size = some size;
}

abbrev average : Vwap ℕ
average = record { subject = 1 ∷ []; first = 61; last = 62; trades = 2; volume = 4; price = 25 }

vwap_sound_case :
    (all (λ u. u.subject == average.subject) (sized 1 10 1 ∷ sized 2 30 3 ∷ []) ≡ true)
    × (all (λ u. is_some u.size) (sized 1 10 1 ∷ sized 2 30 3 ∷ []) ≡ true)
    × (leb 4 0 ≡ false)
    × (2 ≡ length (sized 1 10 1 ∷ sized 2 30 3 ∷ []))
    × (4 ≡ volume_of counts (sized 1 10 1 ∷ sized 2 30 3 ∷ []))
    × (25 ≡ traded_value counts (sized 1 10 1 ∷ sized 2 30 3 ∷ []) / 4)
unfolding vwap_over volume_of traded_value
vwap_sound_case = vwap_sound counts (sized 1 10 1 ∷ sized 2 30 3 ∷ []) average refl
