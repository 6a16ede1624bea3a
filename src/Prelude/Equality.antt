-- ===== src/Prelude/Equality.antt =====
-- Python's `==` on the keys and texts that the program compares.
use Prim.Native.Nat.{ℕ}
use Prim.Native.String.{String}
use mathlib.Core.Path.{◌≡◌, refl, sym, ◌∙◌}
use mathlib.Core.Logic.{◌↔◌, ◌≢◌}
use mathlib.Core.Bool.{Bool, true, false, ◌&&◌, false≢true}
use mathlib.Core.List.{List, [], ◌∷◌}
use native.Mathlib.Omega.{arith}
use text.Mathlib.Text.{◌==◌ as str_eq}
use text.Mathlib.TextEquality.{eq_iff}
use treble_tracker.Prelude.Tests.{nat_eqb, nat_eqb_iff}

-- A test of equality for a type of keys, and that it decides equality.
pub record Eq {ℓ} (K : Type ℓ) : Type ℓ where
  pub same : (j k : K) → Bool
  pub same_iff : (j k : K) → (same j k ≡ true) ↔ (j ≡ k)

infix 50 ◌==◌
abbrev pub ◌==◌ {ℓ} : {K : Type ℓ} ⦃by : Eq K⦄ (j k : K) → Bool
◌==◌ ⦃by⦄ j k = by.same j k

instance abbrev pub nat_eq : Eq ℕ
nat_eq = record { same = nat_eqb; same_iff = nat_eqb_iff }

instance abbrev pub string_eq : Eq String
string_eq = record { same = str_eq; same_iff = eq_iff }

abbrev pub bytes_eqb : List ℕ → List ℕ → Bool
bytes_eqb [] [] = true
bytes_eqb [] (y ∷ ys) = false
bytes_eqb (x ∷ xs) [] = false
bytes_eqb (x ∷ xs) (y ∷ ys) = nat_eqb x y && bytes_eqb xs ys

pub bytes_eqb_iff : (xs ys : List ℕ) → (bytes_eqb xs ys ≡ true) ↔ (xs ≡ ys)
bytes_eqb_iff [] [] = (λ _. refl, λ _. refl)
bytes_eqb_iff [] (y ∷ ys) = (λ h. cc, λ h. cc)
bytes_eqb_iff (x ∷ xs) [] = (λ h. cc, λ h. cc)
bytes_eqb_iff (x ∷ xs) (y ∷ ys) =
    (λ h. ground (arith, bytes_eqb_iff xs ys), λ h. ground (arith, bytes_eqb_iff xs ys))

-- `bytes` values
instance abbrev pub bytes_eq : Eq (List ℕ)
bytes_eq = record { same = bytes_eqb; same_iff = bytes_eqb_iff }

module _ {A B : Type 0} ⦃ea : Eq A⦄ ⦃eb : Eq B⦄ where
  abbrev pub pair_eqb : A × B → A × B → Bool
  pair_eqb p q = (p.0 == q.0) && (p.1 == q.1)

  pub pair_eqb_iff : (p q : A × B) → (pair_eqb p q ≡ true) ↔ (p ≡ q)
  pair_eqb_iff (a, b) (c, d) = (
    λ h. ground (arith, ea.same_iff a c, eb.same_iff b d),
    λ h. ground (arith, ea.same_iff a c, eb.same_iff b d),
  )

  -- tuple keys
  instance abbrev pub pair_eq : Eq (A × B)
  pair_eq = record { same = pair_eqb; same_iff = pair_eqb_iff }

pub eqb_refl {ℓ} : {A : Type ℓ} ⦃e : Eq A⦄ (a : A) → (a == a) ≡ true
eqb_refl ⦃e⦄ a = (e.same_iff a a).1 refl

pub bytes_ne : (xs ys : List ℕ) → bytes_eqb xs ys ≡ false → xs ≢ ys
bytes_ne xs ys h e = false≢true (sym h ∙ (bytes_eqb_iff xs ys).1 e)
