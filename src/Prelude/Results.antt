-- ===== src/Prelude/Results.antt =====
-- Calls that may raise. A method that mutates its object returns the object beside the outcome:
-- what was written before a raise stays written.
use mathlib.Core.Path.{◌≡◌, refl}
use mathlib.Core.Option.{Option, none, some}
use mathlib.Core.Logic.{◌⊎◌, inl, inr}

pub data Result {ℓ κ} (E : Type ℓ) (A : Type κ) : Type (ℓ ⊔ κ) where
  ok : A → Result E A
  err : E → Result E A

infixl 5 ◌>>=◌
abbrev pub ◌>>=◌ {ℓ} : {E A B : Type ℓ} → Result E A → (A → Result E B) → Result E B
ok a >>= f = f a
err e >>= f = err e

-- A value that has to be there
abbrev pub required {ℓ κ} : {E : Type ℓ} {A : Type κ} → E → Option A → Result E A
required e none = err e
required e (some a) = ok a

pub required-ok {ℓ κ} :
    {E : Type ℓ} {A : Type κ} (e : E) (found : Option A) {a : A}
    → required e found ≡ ok a
    → found ≡ some a
required-ok e none h = cc
required-ok e (some b) h = cc

pub Result-cases {ℓ κ} :
    {E : Type ℓ} {A : Type κ} (r : Result E A) → ((a : A) × (r ≡ ok a)) ⊎ ((e : E) × (r ≡ err e))
Result-cases (ok a) = inl (a, refl)
Result-cases (err e) = inr (e, refl)

-- Both steps of a chain that succeeds have succeeded.
pub >>=-ok {ℓ} :
    {E A B : Type ℓ} (step : Result E A) (next : A → Result E B) {b : B}
    → (step >>= next) ≡ ok b
    → (a : A) × (step ≡ ok a) × (next a ≡ ok b)
>>=-ok (ok a) next h = (a, refl, h)
>>=-ok (err e) next h = cc
