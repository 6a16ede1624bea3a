-- ===== src/Core/Identifiers/Examples.antt =====
-- Identifiers in use, and how a wrong character is found.
use treble_tracker.Prelude.{ℕ, ◌≡◌, refl, [], some, true, false, ok, err, ◌%◌}
use treble_tracker.Prelude.Bytes.{Bytes, codes}
use treble_tracker.Prelude.Bytes.Blank.{strip}
use treble_tracker.Core.Chars.{ascii, ascii-IsPython, upper}
use treble_tracker.Core.Identifiers.{
  validate_figi, validate_lei, wrong_check, is_figi_shape, is_lei_shape, figi_check_digit,
  figi_total, lei_number, lei_digits, number_from, char_value, digits_of, isin_check_digit,
  base36_digits, luhn_total, luhn_digit, isin_from_cusip, cusip_from_isin, looks_like_isin,
}
use treble_tracker.Core.Identifiers.Errors.{
  lei_finds_wrong_character, lei_finds_swap, isin_finds_wrong_digit,
}
use treble_tracker.Core.Identifiers.Bridge.{cusip_from_isin-isin_from_cusip}

-- Real identifiers, and one with a wrong check digit.
ibm_figi : validate_figi ascii (codes " bbg000blnnh6") ≡ ok (codes "BBG000BLNNH6")
unfolding validate_figi strip upper is_figi_shape figi_check_digit figi_total char_value digits_of
ibm_figi = refl

ibm_lei : validate_lei ascii (codes "VGRQXF3OKVJ12PQ9A021") ≡ err wrong_check
unfolding validate_lei strip upper is_lei_shape lei_number lei_digits number_from char_value
    digits_of
ibm_lei = refl

apple_lei : lei_number (codes "HWUPKR0MPOU8FGXBT394") % 97 ≡ 1
unfolding lei_number lei_digits number_from char_value digits_of
apple_lei = refl

lei_finds_wrong_character_example : ◌≡◌ {A = ℕ} b'W' b'W'
unfolding lei_number lei_digits number_from char_value digits_of
lei_finds_wrong_character_example =
    lei_finds_wrong_character (codes "H") (codes "UPKR0MPOU8FGXBT394") false b'W' b'W' (refl, refl)
      (refl, refl) refl refl

lei_finds_swap_case : ◌≡◌ {A = ℕ} b'I' b'I'
unfolding lei_number lei_digits number_from char_value digits_of
lei_finds_swap_case =
    lei_finds_swap (codes "5493001KJT") (codes "GC8Y1R12") false b'I' b'I' (refl, refl) (refl, refl)
      refl refl

isin_finds_wrong_digit_case : ◌≡◌ {A = ℕ} b'0' b'0'
unfolding isin_check_digit upper base36_digits digits_of luhn_total luhn_digit
isin_finds_wrong_digit_case =
    isin_finds_wrong_digit ascii (codes "US03783310") [] b'0' b'0' b'5' ascii-IsPython refl refl
      refl refl

cusip_from_isin-isin_from_cusip_example :
    (isin : Bytes) × (isin_from_cusip ascii (codes "US") (codes "037833100") ≡ ok isin)
    × (cusip_from_isin ascii isin ≡ some (codes "037833100"))
    × (looks_like_isin ascii isin ≡ ok true)
cusip_from_isin-isin_from_cusip_example =
    cusip_from_isin-isin_from_cusip ascii ascii-IsPython (codes "037833100") refl
      (refl, (refl, (refl, (refl, (refl, (refl, (refl, (refl, (refl, tt)))))))))
