-- ===== src/Ems/Wire.antt =====
-- A plain FIX codec, for the examples of treble/ems: it stands in for the `simplefix` package, and
-- shows that what the theorems ask of that package can be met.
use treble_tracker.Prelude.{
  ℕ, zero, suc, ◌+◌, ◌-◌, ◌*◌, ◌/◌, ◌%◌, List, [], ◌∷◌, ◌++◌, Option, none, some, Bool, true, false,
  reverse, nat_eqb, ltb, if◌then◌else◌,
}
use treble_tracker.Prelude.Int.{pos, negsuc}
use treble_tracker.Prelude.Bytes.{Bytes}
use treble_tracker.Prelude.Bytes.Number.{fixed_decimal}
use treble_tracker.Ems.Simplefix.{Simplefix, FieldValue, text, number}
use treble_tracker.Ems.Session.{sum}

decimal_within : ℕ → ℕ → Bytes
decimal_within zero n = []
decimal_within (suc fuel) n =
    let rest = decimal_within fuel (n / 10) in
    if ltb n 10 then (48 + n) ∷ [] else rest ++ (48 + n % 10) ∷ []

pub decimal : ℕ → Bytes
unfolding decimal_within
decimal n = decimal_within 40 n

render : FieldValue → Bytes
unfolding decimal
render (text bytes) = bytes
render (number (pos n)) = decimal n
render (number (negsuc n)) = b'-' ∷ decimal (suc n)

body : List (ℕ × FieldValue) → Bytes
unfolding render
body [] = []
body ((tag, value) ∷ fields) = decimal tag ++ (b'=' ∷ (render value ++ (1 ∷ body fields)))

seal : Bytes → Bytes
seal bytes = bytes ++ (b'1' ∷ b'0' ∷ b'=' ∷ (fixed_decimal 3 (sum bytes % 256) ++ 1 ∷ []))

split_fields : ℕ → Bool → Bytes → Bytes → List (ℕ × Bytes)
split_fields tag in_value acc [] = []
split_fields tag false acc (c ∷ cs) = elim (nat_eqb c b'=') [
  | true ↦ split_fields tag true [] cs
  | false ↦ split_fields (tag * 10 + (c - 48)) false [] cs
]
split_fields tag true acc (c ∷ cs) = elim (nat_eqb c 1) [
  | true ↦ (tag, reverse acc) ∷ split_fields 0 false [] cs
  | false ↦ split_fields tag true (c ∷ acc) cs
]

find_field : ℕ → List (ℕ × Bytes) → Option Bytes
find_field tag [] = none
find_field tag ((t, v) ∷ fields) = if nat_eqb t tag then some v else find_field tag fields

unfoldable pub wire : Simplefix (List (ℕ × Bytes))
unfolding decimal body seal split_fields find_field sum fixed_decimal
wire = record {
  get_message = λ raw. some (split_fields 0 false [] raw);
  get = λ m tag. find_field tag m;
  encode = λ fields. seal (body fields);
}
