-- ===== src/Core/Chars.antt =====
-- Python's character tables, of which only the ASCII part is written down, and texts over them.
use treble_tracker.Prelude.{
  ℕ, ◌-◌, ◌<◌, ◌≡◌, refl, [], ◌∷◌, ◌++◌, append_assoc, Option, none, some, Bool, false, ◌&&◌, ◌||◌,
  leb, nat_eqb, if◌then◌else◌, All, sym,
}
use treble_tracker.Prelude.Bytes.{Bytes}

-- `str.upper`, `str.isalpha` and `str.isalnum` of one character, and `int(c, 36)`, none where it
-- raises.
pub record Chars : Type 0 where
  pub upper_of : ℕ → Bytes
  pub is_alpha : ℕ → Bool
  pub is_alnum : ℕ → Bool
  pub digit36 : ℕ → Option ℕ

abbrev pub is_digit : ℕ → Bool
is_digit c = leb 48 c && leb c 57

abbrev pub is_capital : ℕ → Bool
is_capital c = leb 65 c && leb c 90

abbrev pub is_small : ℕ → Bool
is_small c = leb 97 c && leb c 122

abbrev pub ascii_upper : ℕ → ℕ
ascii_upper c = if is_small c then c - 32 else c

abbrev pub ascii_digit36 : ℕ → Option ℕ
ascii_digit36 c =
    if is_digit c
    then some (c - 48)
    else if is_capital c
    then some (c - 55)
    else if is_small c
    then some (c - 87)
    else none

-- What the tables say of ASCII.
pub record IsPython (t : Chars) : Type 0 where
  pub upper_ascii : (c : ℕ) → c < 128 → t.upper_of c ≡ ascii_upper c ∷ []
  pub alpha_ascii : (c : ℕ) → c < 128 → t.is_alpha c ≡ (is_capital c || is_small c)
  pub alnum_ascii : (c : ℕ) → c < 128 → t.is_alnum c ≡ (is_digit c || is_capital c || is_small c)
  pub digit36_ascii : (c : ℕ) → c < 128 → t.digit36 c ≡ ascii_digit36 c

module _ (t : Chars) where
  -- `text.upper()`
  unfoldable pub upper : Bytes → Bytes
  upper [] = []
  upper (c ∷ cs) = t.upper_of c ++ upper cs

  pub upper-append : (xs ys : Bytes) → upper (xs ++ ys) ≡ upper xs ++ upper ys
  unfolding upper
  upper-append [] ys = refl
  upper-append (x ∷ xs) ys =
      rw (upper-append xs ys) (sym (append_assoc (t.upper_of x) (upper xs) (upper ys)))

  -- A text of ASCII without small letters is its own upper case.
  pub upper-same :
      IsPython t → (cs : Bytes) → All (λ c. (c < 128) × (is_small c ≡ false)) cs → upper cs ≡ cs
  unfolding upper
  upper-same p [] h = refl
  upper-same p (c ∷ cs) h = rw (p.upper_ascii c h.0.0, h.0.1, upper-same p cs h.1) refl

-- `text.replace(a, b)` of one character by another
abbrev pub replace : ℕ → ℕ → Bytes → Bytes
replace a b [] = []
replace a b (c ∷ cs) = (if nat_eqb c a then b else c) ∷ replace a b cs

-- Tables that are right on ASCII and know no other letter.
abbrev pub ascii : Chars
ascii = record {
  upper_of = λ c. ascii_upper c ∷ [];
  is_alpha = λ c. is_capital c || is_small c;
  is_alnum = λ c. is_digit c || is_capital c || is_small c;
  digit36 = ascii_digit36;
}

abbrev pub ascii-IsPython : IsPython ascii
ascii-IsPython = record {
  upper_ascii = λ c h. refl;
  alpha_ascii = λ c h. refl;
  alnum_ascii = λ c h. refl;
  digit36_ascii = λ c h. refl;
}
