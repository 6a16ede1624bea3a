-- ===== src/Prelude/Bytes/Utf8.antt =====
-- `bytes.decode()`: the strict UTF-8 decoder's verdict. Decoding is injective, so texts are kept and
-- compared as the bytes that they were decoded from.
use Prim.Native.Nat.{ℕ, zero, suc}
use mathlib.Core.Path.{◌≡◌, refl}
use mathlib.Core.Bool.{Bool, true, false, ◌&&◌, ◌||◌}
use mathlib.Core.List.{List, [], ◌∷◌}
use treble_tracker.Prelude.Tests.{nat_eqb, leb, ltb, if◌then◌else◌}

abbrev within : ℕ → ℕ → ℕ → Bool
within low high b = leb low b && leb b high

-- How many continuation bytes follow a first byte.
abbrev tail_count : ℕ → ℕ
tail_count b = if ltb b 0x80 then 0 else if ltb b 0xE0 then 1 else if ltb b 0xF0 then 2 else 3

abbrev is_first : ℕ → Bool
is_first b = ltb b 0x80 || within 0xC2 0xF4 b

-- The range of the first continuation byte: no overlong form, no surrogate, nothing past U+10FFFF.
abbrev tail_low : ℕ → ℕ
tail_low b = if nat_eqb b 0xE0 then 0xA0 else if nat_eqb b 0xF0 then 0x90 else 0x80

abbrev tail_high : ℕ → ℕ
tail_high b = if nat_eqb b 0xED then 0x9F else if nat_eqb b 0xF4 then 0x8F else 0xBF

decode_from : ℕ → ℕ → ℕ → List ℕ → Bool
decode_from low high zero [] = true
decode_from low high (suc n) [] = false
decode_from low high (suc n) (b ∷ bs) = within low high b && decode_from 0x80 0xBF n bs
decode_from low high zero (b ∷ bs) =
    is_first b && decode_from (tail_low b) (tail_high b) (tail_count b) bs

-- `text.decode()` raises `UnicodeDecodeError` where this is false.
unfoldable pub is_utf8 : List ℕ → Bool
unfolding decode_from
is_utf8 bs = decode_from 0x80 0xBF 0 bs

is_utf8_runs :
    (is_utf8 (b'A' ∷ 0xC3 ∷ 0xA9 ∷ 0xF0 ∷ 0x9F ∷ 0x98 ∷ 0x80 ∷ []) ≡ true)
    × (is_utf8 (0xC0 ∷ 0x80 ∷ []) ≡ false)
    × (is_utf8 (0xED ∷ 0xA0 ∷ 0x80 ∷ []) ≡ false)
    × (is_utf8 (0xC3 ∷ []) ≡ false)
unfolding is_utf8
is_utf8_runs = (refl, refl, refl, refl)
