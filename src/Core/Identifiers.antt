-- ===== src/Core/Identifiers.antt =====
-- treble/core/identifiers.py: FIGI, LEI and ISIN with their check digits, and the CUSIP in an ISIN.
pub mod Errors
pub mod Bridge
mod Examples
use treble_tracker.Prelude.{
  ℕ, ◌+◌, ◌-◌, ◌*◌, ◌/◌, ◌%◌, List, [], ◌∷◌, ◌++◌, reverse, Option, none, some, Bool, true, false,
  ◌&&◌, ◌||◌, not, Result, ok, err, ◌>>=◌, required, bytes_eq, ◌==◌, nat_eqb, ltb, leb,
  if◌then◌else◌, all, length, take, drop, foldl,
}
use treble_tracker.Prelude.Bytes.{Bytes, codes}
use treble_tracker.Prelude.Bytes.Blank.{strip}
use treble_tracker.Core.Chars.{Chars, upper, is_digit, is_capital}

-- The `ValueError`s: of a shape, of a check, and of `int(c, 36)`.
pub data IdentifierError : Type 0 where
  wrong_shape : IdentifierError
  wrong_check : IdentifierError
  not_base36 : IdentifierError

-- `_char_value` of a digit or a capital
unfoldable pub char_value : ℕ → ℕ
char_value c = if is_digit c then c - b'0' else c - b'A' + 10

-- `str(value)` of a value below 100, as its digits
unfoldable pub digits_of : ℕ → List ℕ
digits_of v = if ltb v 10 then v ∷ [] else v / 10 ∷ v % 10 ∷ []

abbrev pub sum : List ℕ → ℕ
sum [] = 0
sum (n ∷ ns) = n + sum ns

-- The loop of `figi_check_digit`; the flag tells whether the position is even.
unfoldable pub figi_total : Bool → Bytes → ℕ
unfolding char_value digits_of
figi_total even [] = 0
figi_total even (c ∷ cs) =
    sum (digits_of (if even then char_value c * 2 else char_value c)) + figi_total (not even) cs

unfoldable pub figi_check_digit : Bytes → ℕ
unfolding figi_total
figi_check_digit eleven = (10 - figi_total false eleven % 10) % 10

-- `[B-DF-HJ-NP-TV-Z0-9]`
abbrev pub is_figi_char : ℕ → Bool
is_figi_char c =
    leb b'B' c && leb c b'D'
    || leb b'F' c && leb c b'H'
    || leb b'J' c && leb c b'N'
    || leb b'P' c && leb c b'T'
    || leb b'V' c && leb c b'Z'
    || is_digit c

-- `_FIGI_RE`
unfoldable pub is_figi_shape : Bytes → Bool
is_figi_shape cs =
    nat_eqb (length cs) 12
    && all is_figi_char (take 2 cs)
    && take 1 (drop 2 cs) == codes "G"
    && all is_figi_char (take 8 (drop 3 cs))
    && all is_digit (drop 11 cs)

abbrev pub is_lei_char : ℕ → Bool
is_lei_char c = is_capital c || is_digit c

-- `_LEI_RE`
unfoldable pub is_lei_shape : Bytes → Bool
is_lei_shape cs =
    nat_eqb (length cs) 20 && all is_lei_char (take 18 cs) && all is_digit (drop 18 cs)

-- The digits of `numeric`, and the number that they write
unfoldable pub lei_digits : Bytes → List ℕ
unfolding char_value digits_of
lei_digits [] = []
lei_digits (c ∷ cs) = digits_of (char_value c) ++ lei_digits cs

unfoldable pub number_from : ℕ → List ℕ → ℕ
number_from n [] = n
number_from n (d ∷ ds) = number_from (n * 10 + d) ds

unfoldable pub lei_number : Bytes → ℕ
unfolding lei_digits number_from
lei_number cs = number_from 0 (lei_digits cs)

-- The last character of a text that has one, as `int` of it
abbrev pub last_digit : Bytes → ℕ
last_digit [] = 0
last_digit (c ∷ []) = c - b'0'
last_digit (c ∷ d ∷ cs) = last_digit (d ∷ cs)

-- A Luhn sum of digits from the right; the flag tells whether the next digit is doubled.
unfoldable pub luhn_digit : Bool → ℕ → ℕ
luhn_digit double value =
    if double then (if ltb 9 (value * 2) then value * 2 - 9 else value * 2) else value

unfoldable pub luhn_total : Bool → List ℕ → ℕ
unfolding luhn_digit
luhn_total double [] = 0
luhn_total double (d ∷ ds) = luhn_digit double d + luhn_total (not double) ds

module _ (t : Chars) where
  -- `validate_figi`
  unfoldable pub validate_figi : Bytes → Result IdentifierError Bytes
  unfolding strip upper is_figi_shape figi_check_digit
  validate_figi text =
      let candidate = upper t (strip text) in
      if not (is_figi_shape candidate)
      then err wrong_shape
      else if nat_eqb (figi_check_digit (take 11 candidate)) (last_digit candidate)
      then ok candidate
      else err wrong_check

  -- `validate_lei`
  unfoldable pub validate_lei : Bytes → Result IdentifierError Bytes
  unfolding strip upper is_lei_shape lei_number
  validate_lei text =
      let candidate = upper t (strip text) in
      if not (is_lei_shape candidate)
      then err wrong_shape
      else if nat_eqb (lei_number candidate % 97) 1
      then ok candidate
      else err wrong_check

  -- `str(int(c, 36))` of every character, joined
  unfoldable pub base36_digits : Bytes → Result IdentifierError (List ℕ)
  unfolding digits_of
  base36_digits [] = ok []
  base36_digits (c ∷ cs) =
      required not_base36 (t.digit36 c) >>= λ v. base36_digits cs >>= λ ds. ok (digits_of v ++ ds)

  abbrev pub luhn_check : List ℕ → ℕ
  luhn_check digits = (10 - luhn_total true (reverse digits) % 10) % 10

  unfoldable pub isin_check_digit : Bytes → Result IdentifierError ℕ
  unfolding upper base36_digits luhn_total
  isin_check_digit body = base36_digits (upper t body) >>= λ digits. ok (48 + luhn_check digits)

  unfoldable pub isin_from_cusip : Bytes → Bytes → Result IdentifierError Bytes
  unfolding isin_check_digit upper
  isin_from_cusip country cusip =
      let body = upper t country ++ upper t cusip in
      isin_check_digit body >>= λ check. ok (body ++ check ∷ [])

  unfoldable pub cusip_from_isin : Bytes → Option Bytes
  unfolding upper strip
  cusip_from_isin isin =
      let value = upper t (strip isin) in
      if nat_eqb (length value) 12 && (take 2 value == codes "US" || take 2 value == codes "CA")
      then some (take 9 (drop 2 value))
      else none

  unfoldable pub looks_like_isin : Bytes → Result IdentifierError Bool
  unfolding upper strip isin_check_digit
  looks_like_isin text =
      let candidate = upper t (strip text) in
      if not (nat_eqb (length candidate) 12)
        || not (all t.is_alpha (take 2 candidate))
        || not (all t.is_alnum candidate)
      then ok false
      else (isin_check_digit (take 11 candidate) >>= λ check.
          ok ((check ∷ []) == drop 11 candidate))
