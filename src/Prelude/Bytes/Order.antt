-- ===== src/Prelude/Bytes/Order.antt =====
-- `str` order, which is that of the code points, and `sorted` of texts.
use Prim.Native.Nat.{ℕ}
use mathlib.Core.Path.{◌≡◌, refl}
use mathlib.Core.Bool.{Bool, true, false, ◌&&◌, ◌||◌}
use mathlib.Core.List.{List, [], ◌∷◌}
use native.Mathlib.Omega.{arith}
use treble_tracker.Prelude.Tests.{nat_eqb, ltb, if◌then◌else◌}

unfoldable pub text_le : List ℕ → List ℕ → Bool
text_le [] ys = true
text_le (x ∷ xs) [] = false
text_le (x ∷ xs) (y ∷ ys) = ltb x y || nat_eqb x y && text_le xs ys

pub text_le-total : (a b : List ℕ) → text_le a b ≡ false → text_le b a ≡ true
unfolding text_le
text_le-total [] b h = ground (arith, h)
text_le-total (x ∷ xs) [] h = refl
text_le-total (x ∷ xs) (y ∷ ys) h = ground (arith, h, text_le-total xs ys)

module _ {A : Type 0} (key : A → List ℕ) where
  -- `sorted(xs, key=key)`
  unfoldable pub insert_by : A → List A → List A
  unfolding text_le
  insert_by x [] = x ∷ []
  insert_by x (y ∷ ys) = if text_le (key x) (key y) then x ∷ y ∷ ys else y ∷ insert_by x ys

  unfoldable pub sort_by : List A → List A
  unfolding insert_by
  sort_by [] = []
  sort_by (x ∷ xs) = insert_by x (sort_by xs)

-- `sorted(texts)`
abbrev pub sorted : List (List ℕ) → List (List ℕ)
sorted = sort_by (λ t. t)
