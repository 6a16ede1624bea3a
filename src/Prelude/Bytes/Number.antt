-- ===== src/Prelude/Bytes/Number.antt =====
-- Python's `int(text)` on bytes, and decimals of a fixed width.
use Prim.Native.Nat.{ℕ, zero, suc, ◌+◌, ◌-◌, ◌*◌, ◌/◌, ◌%◌, ◌<◌}
use mathlib.Core.Path.{◌≡◌, refl}
use mathlib.Core.Bool.{Bool, true, false, ◌&&◌, ◌||◌}
use mathlib.Core.Option.{Option, none, some}
use mathlib.Core.Option
use mathlib.Core.List.{List, [], ◌∷◌, ◌++◌}
use native.Mathlib.Omega.{arith}
use treble_tracker.Prelude.Tests.{nat_eqb, ltb, leb, if◌then◌else◌}
use treble_tracker.Prelude.Lists.{all}
use treble_tracker.Prelude.Int.{ℤ, pos, sub_ℕ}

abbrev pub is_digit : ℕ → Bool
is_digit c = leb b'0' c && leb c b'9'

-- tab, line feed, vertical tab, form feed, carriage return, space
abbrev pub is_space : ℕ → Bool
is_space c = nat_eqb c 32 || (leb 9 c && leb c 13)

-- CPython refuses a longer text by default.
abbrev pub max_digits : ℕ
max_digits = 4300

abbrev finish : ℕ → ℕ → Option ℕ
finish value count = if ltb max_digits count then none else some value

-- The digits, with single underscores between them, and the space behind. `waiting` says that a
-- digit must come next.
scan_digits : ℕ → ℕ → Bool → List ℕ → Option ℕ
scan_digits value count waiting [] = if waiting then none else finish value count
scan_digits value count waiting (c ∷ cs) =
    let digit = is_digit c in
    let rest =
      scan_digits (if digit then value * 10 + (c - 48) else value)
        (if digit then count + 1 else count) (if digit then false else true) cs in
    if digit
    then rest
    else if waiting
    then none
    else if nat_eqb c b'_'
    then rest
    else if all is_space (c ∷ cs)
    then finish value count
    else none

signed : List ℕ → Option ℤ
unfolding scan_digits
signed [] = none
signed (c ∷ cs) =
    if nat_eqb c b'-'
    then Option.map (λ n. sub_ℕ 0 n) (scan_digits 0 0 true cs)
    else if nat_eqb c b'+'
    then Option.map (λ n. pos n) (scan_digits 0 0 true cs)
    else Option.map (λ n. pos n) (scan_digits 0 0 true (c ∷ cs))

-- `int(text)`; `none` is `ValueError`.
unfoldable pub parse_int : List ℕ → Option ℤ
unfolding signed
parse_int [] = none
parse_int (c ∷ cs) = if is_space c then parse_int cs else signed (c ∷ cs)

parse_int_runs :
    (parse_int (32 ∷ b'4' ∷ b'2' ∷ 10 ∷ []) ≡ some (pos 42))
    × (parse_int (b'-' ∷ b'1' ∷ b'_' ∷ b'0' ∷ []) ≡ some (sub_ℕ 0 10))
    × (parse_int (b'1' ∷ b'_' ∷ []) ≡ none)
    × (parse_int (b'-' ∷ 32 ∷ b'1' ∷ []) ≡ none)
unfolding parse_int
parse_int_runs = (refl, refl, refl, refl)

-- `f"{n:0{width}d}"` for a number that fits the width.
unfoldable pub fixed_decimal : ℕ → ℕ → List ℕ
fixed_decimal zero n = []
fixed_decimal (suc width) n = fixed_decimal width (n / 10) ++ (48 + n % 10) ∷ []

-- Three digits determine the number.
pub fixed_decimal_injective :
    (a b : ℕ) → a < 1000 → b < 1000 → fixed_decimal 3 a ≡ fixed_decimal 3 b → a ≡ b
unfolding fixed_decimal
fixed_decimal_injective a b ha hb h = ground arith
