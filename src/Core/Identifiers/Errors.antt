-- ===== src/Core/Identifiers/Errors.antt =====
-- What the check digits find: a wrong character of an LEI, two swapped ones, a wrong digit of an ISIN.
use treble_tracker.Prelude.{
  ℕ, ◌+◌, ◌-◌, ◌*◌, ◌/◌, ◌%◌, ◌≤◌, ◌<◌, ◌≡◌, refl, sym, ◌∙◌, ap, subst, List, [], ◌∷◌, ◌++◌,
  append_assoc, reverse, >>=-ok, some, Bool, true, false, not, Result, ok, ◌>>=◌, required,
  required-ok, arith,
}
use mathlib.Core.List.{reverse-append, reverse-cons}
use treble_tracker.Prelude.Bytes.{Bytes}
use treble_tracker.Core.Chars.{Chars, IsPython, upper, upper-append, ascii_upper, is_digit}
use treble_tracker.Core.Identifiers.{
  char_value, digits_of, lei_digits, number_from, lei_number, luhn_digit, luhn_total, luhn_check,
  base36_digits, isin_check_digit, IdentifierError, not_base36, is_lei_char,
}

step_mod : (n m d : ℕ) → (n * 10 + d) % 97 ≡ (m * 10 + d) % 97 → n % 97 ≡ m % 97
step_mod n m d h = omega (arith, h)

number_from-mod :
    (n m : ℕ) (ds : List ℕ) → number_from n ds % 97 ≡ number_from m ds % 97 → n % 97 ≡ m % 97
unfolding number_from
number_from-mod n m [] h = h
number_from-mod n m (d ∷ ds) h = step_mod n m d (number_from-mod (n * 10 + d) (m * 10 + d) ds h)

number_from-append :
    (n : ℕ) (xs ys : List ℕ) → number_from n (xs ++ ys) ≡ number_from (number_from n xs) ys
unfolding number_from
number_from-append n [] ys = refl
number_from-append n (x ∷ xs) ys = number_from-append (n * 10 + x) xs ys

one_digit : (n a b : ℕ) → a < 10 → b < 10 → (n * 10 + a) % 97 ≡ (n * 10 + b) % 97 → a ≡ b
one_digit n a b ha hb h = omega (arith, ha, hb, h)

two_digits :
    (n a b : ℕ)
    → a < 36
    → b < 36
    → ((n * 10 + a / 10) * 10 + a % 10) % 97 ≡ ((n * 10 + b / 10) * 10 + b % 10) % 97
    → a ≡ b
two_digits n a b ha hb h = omega (arith, ha, hb, h)

lei_digits-append : (xs ys : Bytes) → lei_digits (xs ++ ys) ≡ lei_digits xs ++ lei_digits ys
unfolding lei_digits
lei_digits-append [] ys = refl
lei_digits-append (x ∷ xs) ys =
    rw (lei_digits-append xs ys)
      (sym (append_assoc (digits_of (char_value x)) (lei_digits xs) (lei_digits ys)))

-- Where the middle of a text begins and ends in the number.
lei_number-at :
    (front middle back : Bytes)
    → lei_number (front ++ (middle ++ back))
      ≡ number_from
          (number_from (number_from 0 (lei_digits front)) (lei_digits middle))
          (lei_digits back)
unfolding lei_number
lei_number-at front middle back =
    rw
      (
        lei_digits-append front (middle ++ back),
        lei_digits-append middle back,
        number_from-append 0 (lei_digits front) (lei_digits middle ++ lei_digits back),
        number_from-append (number_from 0 (lei_digits front)) (lei_digits middle) (lei_digits back),
      )
      refl

-- Equal checks, one context: the middles agree modulo 97 where they stand.
middle_mod :
    (front x y back : Bytes)
    → lei_number (front ++ (x ++ back)) % 97 ≡ lei_number (front ++ (y ++ back)) % 97
    → number_from (number_from 0 (lei_digits front)) (lei_digits x) % 97
      ≡ number_from (number_from 0 (lei_digits front)) (lei_digits y) % 97
middle_mod front x y back h = number_from-mod _ _ (lei_digits back) (
    sym (ap (λ n. n % 97) (lei_number-at front x back))
    ∙ h
    ∙ ap (λ n. n % 97) (lei_number-at front y back))

-- A digit, or a capital, as in an LEI.
abbrev pub IsOfKind : Bool → ℕ → Type 0
IsOfKind digit c = (is_digit c ≡ digit) × (is_lei_char c ≡ true)

digits_of-small : (v : ℕ) → v < 10 → digits_of v ≡ v ∷ []
unfolding digits_of
digits_of-small v h = ground (arith, h)

digits_of-large : (v : ℕ) → 10 ≤ v → digits_of v ≡ v / 10 ∷ v % 10 ∷ []
unfolding digits_of
digits_of-large v h = ground (arith, h)

char_value-digit : (c : ℕ) → IsOfKind true c → (char_value c ≡ c - 48) × (c - 48 < 10)
unfolding char_value
char_value-digit c h = (ground (arith, h), ground (arith, h))

char_value-capital :
    (c : ℕ) → IsOfKind false c → (char_value c ≡ c - 55) × (10 ≤ c - 55) × (c - 55 < 36) × (55 ≤ c)
unfolding char_value
char_value-capital c h =
    (ground (arith, h), ground (arith, h), ground (arith, h), ground (arith, h))

digits_of-digit : (c : ℕ) → IsOfKind true c → lei_digits (c ∷ []) ≡ (c - 48) ∷ []
unfolding lei_digits
digits_of-digit c h = let v = char_value-digit c h in rw (v.0, digits_of-small (c - 48) v.1) refl

digits_of-capital :
    (c : ℕ) → IsOfKind false c → lei_digits (c ∷ []) ≡ (c - 55) / 10 ∷ (c - 55) % 10 ∷ []
unfolding lei_digits
digits_of-capital c h =
    let v = char_value-capital c h in rw (v.0, digits_of-large (c - 55) v.1) refl

same_character :
    (digit : Bool) (n a b : ℕ)
    → IsOfKind digit a
    → IsOfKind digit b
    → number_from n (lei_digits (a ∷ [])) % 97 ≡ number_from n (lei_digits (b ∷ [])) % 97
    → a ≡ b
unfolding number_from
same_character true n a b ha hb h =
    let u = char_value-digit a ha in
    let v = char_value-digit b hb in
    let e = one_digit n (a - 48) (b - 48) u.1 v.1 (
      ap (λ ds. number_from n ds % 97) (sym (digits_of-digit a ha))
      ∙ h
      ∙ ap (λ ds. number_from n ds % 97) (digits_of-digit b hb)) in
    ground (arith, e, ha, hb)
same_character false n a b ha hb h =
    let u = char_value-capital a ha in
    let v = char_value-capital b hb in
    let e = two_digits n (a - 55) (b - 55) u.2 v.2 (
      ap (λ ds. number_from n ds % 97) (sym (digits_of-capital a ha))
      ∙ h
      ∙ ap (λ ds. number_from n ds % 97) (digits_of-capital b hb)) in
    omega (arith, e, u.3, v.3)

-- The check of an LEI finds one wrong character, where a digit stands for a digit or a letter for a
-- letter: two texts that differ in one such place never both leave 1 modulo 97.
pub lei_finds_wrong_character :
    (front back : Bytes) (digit : Bool) (a b : ℕ)
    → IsOfKind digit a
    → IsOfKind digit b
    → lei_number (front ++ a ∷ back) % 97 ≡ 1
    → lei_number (front ++ b ∷ back) % 97 ≡ 1
    → a ≡ b
lei_finds_wrong_character front back digit a b ha hb h k =
    same_character digit (number_from 0 (lei_digits front)) a b ha hb
      (middle_mod front (a ∷ []) (b ∷ []) back (h ∙ sym k))

swapped_digits :
    (n a b : ℕ)
    → a < 10
    → b < 10
    → ((n * 10 + a) * 10 + b) % 97 ≡ ((n * 10 + b) * 10 + a) % 97
    → a ≡ b
swapped_digits n a b ha hb h = omega (arith, ha, hb, h)

-- Two letters, each of two digits.
swapped_values :
    (n a b : ℕ)
    → a < 36
    → b < 36
    → (n * 10000 + a * 100 + b) % 97 ≡ (n * 10000 + b * 100 + a) % 97
    → a ≡ b
swapped_values n a b ha hb h = omega (arith, ha, hb, h)

joined :
    (n a b : ℕ)
    → (((n * 10 + a / 10) * 10 + a % 10) * 10 + b / 10) * 10 + b % 10 ≡ n * 10000 + a * 100 + b
joined n a b = omega arith

digits_of-two :
    (a b : ℕ)
    → IsOfKind true a
    → IsOfKind true b
    → lei_digits (a ∷ b ∷ []) ≡ (a - 48) ∷ (b - 48) ∷ []
digits_of-two a b ha hb =
    lei_digits-append (a ∷ []) (b ∷ []) ∙ rw (digits_of-digit a ha, digits_of-digit b hb) refl

capitals_of-two :
    (a b : ℕ)
    → IsOfKind false a
    → IsOfKind false b
    → lei_digits (a ∷ b ∷ []) ≡ (a - 55) / 10 ∷ (a - 55) % 10 ∷ (b - 55) / 10 ∷ (b - 55) % 10 ∷ []
capitals_of-two a b ha hb =
    lei_digits-append (a ∷ []) (b ∷ []) ∙ rw (digits_of-capital a ha, digits_of-capital b hb) refl

same_neighbours :
    (digit : Bool) (n a b : ℕ)
    → IsOfKind digit a
    → IsOfKind digit b
    → number_from n (lei_digits (a ∷ b ∷ [])) % 97 ≡ number_from n (lei_digits (b ∷ a ∷ [])) % 97
    → a ≡ b
unfolding number_from
same_neighbours true n a b ha hb h =
    let u = char_value-digit a ha in
    let v = char_value-digit b hb in
    let e = swapped_digits n (a - 48) (b - 48) u.1 v.1 (
      ap (λ ds. number_from n ds % 97) (sym (digits_of-two a b ha hb))
      ∙ h
      ∙ ap (λ ds. number_from n ds % 97) (digits_of-two b a hb ha)) in
    ground (arith, e, ha, hb)
same_neighbours false n a b ha hb h =
    let u = char_value-capital a ha in
    let v = char_value-capital b hb in
    let e = swapped_values n (a - 55) (b - 55) u.2 v.2 (
      ap (λ m. m % 97) (sym (joined n (a - 55) (b - 55)))
      ∙ ap (λ ds. number_from n ds % 97) (sym (capitals_of-two a b ha hb))
      ∙ h
      ∙ ap (λ ds. number_from n ds % 97) (capitals_of-two b a hb ha)
      ∙ ap (λ m. m % 97) (joined n (b - 55) (a - 55))) in
    omega (arith, e, u.3, v.3)

-- It finds two neighbours of one kind, two digits or two letters, that were swapped.
pub lei_finds_swap :
    (front back : Bytes) (digit : Bool) (a b : ℕ)
    → IsOfKind digit a
    → IsOfKind digit b
    → lei_number (front ++ a ∷ b ∷ back) % 97 ≡ 1
    → lei_number (front ++ b ∷ a ∷ back) % 97 ≡ 1
    → a ≡ b
lei_finds_swap front back digit a b ha hb h k =
    same_neighbours digit (number_from 0 (lei_digits front)) a b ha hb
      (middle_mod front (a ∷ b ∷ []) (b ∷ a ∷ []) back (h ∙ sym k))

-- Luhn: the sums of two lists of digits that differ in one place.
luhn_digit-mod :
    (double : Bool) (a b : ℕ)
    → a < 10
    → b < 10
    → luhn_digit double a % 10 ≡ luhn_digit double b % 10
    → a ≡ b
unfolding luhn_digit
luhn_digit-mod double a b ha hb h = ground (arith, ha, hb, h)

luhn_total-mod :
    (double : Bool) (front back : List ℕ) (a b : ℕ)
    → a < 10
    → b < 10
    → luhn_total double (front ++ a ∷ back) % 10 ≡ luhn_total double (front ++ b ∷ back) % 10
    → a ≡ b
unfolding luhn_total
luhn_total-mod double [] back a b ha hb h = luhn_digit-mod double a b ha hb (omega (arith, h))
luhn_total-mod double (d ∷ front) back a b ha hb h =
    luhn_total-mod (not double) front back a b ha hb (omega (arith, h))

luhn_check-mod :
    (t : Chars) (front back : List ℕ) (a b : ℕ)
    → a < 10
    → b < 10
    → luhn_check t (front ++ a ∷ back) ≡ luhn_check t (front ++ b ∷ back)
    → a ≡ b
luhn_check-mod t front back a b ha hb h =
    luhn_total-mod true (reverse back) (reverse front) a b ha hb (
      sym (ap (λ ds. luhn_total true ds % 10) (turned a))
      ∙ check_mod _ _ h
      ∙ ap (λ ds. luhn_total true ds % 10) (turned b))
  where
    turned : (c : ℕ) → reverse (front ++ c ∷ back) ≡ reverse back ++ c ∷ reverse front
    turned c =
        reverse-append front (c ∷ back)
        ∙ ap (λ r. r ++ reverse front) (reverse-cons c back)
        ∙ append_assoc (reverse back) (c ∷ []) (reverse front)

    check_mod : (x y : ℕ) → (10 - x % 10) % 10 ≡ (10 - y % 10) % 10 → x % 10 ≡ y % 10
    check_mod x y e = omega (arith, e)

module _ (t : Chars) where
  some_inj : (x y : ℕ) → some x ≡ some y → x ≡ y
  some_inj x y h = cc

  ok_inj {ℓ} : {A : Type ℓ} (x y : A) → ◌≡◌ {A = Result IdentifierError A} (ok x) (ok y) → x ≡ y
  ok_inj x y h = cc

  base36-split :
      (front : Bytes) (a v : ℕ) (back : Bytes) (ds : List ℕ)
      → t.digit36 a ≡ some v
      → v < 10
      → base36_digits t (front ++ a ∷ back) ≡ ok ds
      → (before after : List ℕ) × (base36_digits t front ≡ ok before)
        × (base36_digits t back ≡ ok after)
        × (ds ≡ before ++ v ∷ after)
  unfolding base36_digits
  base36-split [] a v back ds e small h =
      let x =
        >>=-ok (required not_base36 (t.digit36 a))
          (λ w. base36_digits t back >>= λ es. ok (digits_of w ++ es)) h in
      let y = >>=-ok (base36_digits t back) (λ es. ok (digits_of x.0 ++ es)) x.2 in
      let w : x.0 ≡ v = some_inj _ _ (sym (required-ok not_base36 (t.digit36 a) x.1) ∙ e) in
      (
        [],
        y.0,
        refl,
        y.1,
        ok_inj _ _ (sym y.2)
            ∙ ap (λ d. digits_of d ++ y.0) w
            ∙ ap (λ ls. ls ++ y.0) (digits_of-small v small),
      )
  base36-split (c ∷ front) a v back ds e small h =
      let x =
        >>=-ok (required not_base36 (t.digit36 c))
          (λ w. base36_digits t (front ++ a ∷ back) >>= λ es. ok (digits_of w ++ es)) h in
      let y = >>=-ok (base36_digits t (front ++ a ∷ back)) (λ es. ok (digits_of x.0 ++ es)) x.2 in
      let i = base36-split front a v back y.0 e small y.1 in
      (
        digits_of x.0 ++ i.0,
        i.1,
        rw (x.1, i.2) refl,
        i.3,
        ok_inj _ _ (sym y.2)
            ∙ ap (λ es. digits_of x.0 ++ es) i.4
            ∙ sym (append_assoc (digits_of x.0) i.0 (v ∷ i.1)),
      )

  digit_value : (a : ℕ) → IsPython t → is_digit a ≡ true → t.digit36 a ≡ some (a - 48)
  digit_value a p h = p.digit36_ascii a (ground (arith, h)) ∙ ground (arith, h)

  upper-digit :
      (front : Bytes) (a : ℕ) (back : Bytes)
      → IsPython t
      → is_digit a ≡ true
      → upper t (front ++ a ∷ back) ≡ upper t front ++ a ∷ upper t back
  unfolding upper
  upper-digit front a back p h =
      upper-append t front (a ∷ back)
      ∙ ap (λ u. upper t front ++ (u ++ upper t back))
          (p.upper_ascii a (ground (arith, h))
            ∙ ap (λ c. c ∷ []) {x = ascii_upper a} {y = a} (ground (arith, h)))

  -- The check digit of an ISIN finds one wrong digit: two bodies that differ in one place, where a
  -- digit stands in each, never have the same check digit.
  pub isin_finds_wrong_digit :
      (front back : Bytes) (a b check : ℕ)
      → IsPython t
      → is_digit a ≡ true
      → is_digit b ≡ true
      → isin_check_digit t (front ++ a ∷ back) ≡ ok check
      → isin_check_digit t (front ++ b ∷ back) ≡ ok check
      → a ≡ b
  unfolding isin_check_digit
  isin_finds_wrong_digit front back a b check p ha hb h k =
      let x =
        >>=-ok (base36_digits t (upper t (front ++ a ∷ back))) (λ ds. ok (48 + luhn_check t ds))
          h in
      let y =
        >>=-ok (base36_digits t (upper t (front ++ b ∷ back))) (λ ds. ok (48 + luhn_check t ds))
          k in
      let xs =
        base36-split (upper t front) a (a - 48) (upper t back) x.0 (digit_value a p ha)
          (ground (arith, ha))
          (subst (λ cs. base36_digits t cs ≡ ok x.0) (upper-digit front a back p ha) x.1) in
      let ys =
        base36-split (upper t front) b (b - 48) (upper t back) y.0 (digit_value b p hb)
          (ground (arith, hb))
          (subst (λ cs. base36_digits t cs ≡ ok y.0) (upper-digit front b back p hb) y.1) in
      let same_front : ys.0 ≡ xs.0 = ok_inj _ _ (sym ys.2 ∙ xs.2) in
      let same_back : ys.1 ≡ xs.1 = ok_inj _ _ (sym ys.3 ∙ xs.3) in
      let checks : luhn_check t x.0 ≡ luhn_check t y.0 =
        omega (arith, ok_inj _ _ (x.2 ∙ sym y.2)) in
      let e =
        luhn_check-mod t xs.0 xs.1 (a - 48) (b - 48) (ground (arith, ha)) (ground (arith, hb)) (
          ap (luhn_check t) (sym xs.4)
          ∙ checks
          ∙ ap (luhn_check t) (
              ys.4
              ∙ ap (λ ds. ds ++ (b - 48) ∷ ys.1) same_front
              ∙ ap (λ ds. xs.0 ++ (b - 48) ∷ ds) same_back)) in
      ground (arith, e, ha, hb)
