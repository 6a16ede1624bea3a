-- ===== src/Prelude/Bytes/Search.antt =====
-- `bytes.rfind` and `bytes.rstrip`.
use Prim.Native.Nat.{ℕ, zero, suc, ◌+◌}
use mathlib.Core.Path.{◌≡◌, refl, ap}
use mathlib.Core.Bool.{Bool, true, false, ◌&&◌}
use mathlib.Core.Option.{Option, none, some}
use mathlib.Core.List.{List, [], ◌∷◌, ◌++◌}
use native.Mathlib.Omega.{arith}
use treble_tracker.Prelude.Tests.{nat_eqb, if◌then◌else◌}
use treble_tracker.Prelude.Lists.{length, take, drop}

-- `xs.startswith(pattern)`
abbrev pub starts_with : List ℕ → List ℕ → Bool
starts_with [] xs = true
starts_with (p ∷ ps) [] = false
starts_with (p ∷ ps) (x ∷ xs) = nat_eqb p x && starts_with ps xs

-- `xs.rfind(pattern)` for a pattern that is not empty: where the last occurrence begins.
unfoldable pub rfind : List ℕ → List ℕ → Option ℕ
rfind pattern [] = none
rfind pattern (x ∷ xs) = elim (rfind pattern xs) [
  | some i ↦ some (suc i)
  | none ↦ if starts_with pattern (x ∷ xs) then some 0 else none
]

-- `xs.rstrip(bytes([c]))`
unfoldable pub rstrip : ℕ → List ℕ → List ℕ
rstrip c [] = []
rstrip c (x ∷ xs) = elim (rstrip c xs) [
  | [] ↦ if nat_eqb x c then [] else x ∷ []
  | y ∷ ys ↦ x ∷ y ∷ ys
]

-- What follows does not move an occurrence that is the last one.
pub rfind-append :
    (pattern xs ys : List ℕ) (i : ℕ)
    → rfind pattern ys ≡ some i
    → rfind pattern (xs ++ ys) ≡ some (length xs + i)
unfolding rfind
rfind-append pattern [] ys i h = ground (arith, h)
rfind-append pattern (x ∷ xs) ys i h = ground (arith, rfind-append pattern xs ys i h)

pub take-length_append : (n : ℕ) (xs ys : List ℕ) → n ≡ length xs → take n (xs ++ ys) ≡ xs
take-length_append zero [] ys h = refl
take-length_append (suc n) [] ys h = absurd (omega arith)
take-length_append zero (x ∷ xs) ys h = absurd (omega arith)
take-length_append (suc n) (x ∷ xs) ys h = ap (◌∷◌ x) (take-length_append n xs ys (omega arith))

pub drop-length_append : (n : ℕ) (xs ys : List ℕ) → n ≡ length xs → drop n (xs ++ ys) ≡ ys
drop-length_append zero [] ys h = refl
drop-length_append (suc n) [] ys h = absurd (omega arith)
drop-length_append zero (x ∷ xs) ys h = absurd (omega arith)
drop-length_append (suc n) (x ∷ xs) ys h = drop-length_append n xs ys (omega arith)
