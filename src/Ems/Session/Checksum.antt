-- ===== src/Ems/Session/Checksum.antt =====
-- The trailing CheckSum of `verify_checksum`: a sealed message passes, and a changed byte is found.
use treble_tracker.Prelude.{
  ℕ, ◌+◌, ◌%◌, ◌<◌, ◌≡◌, ◌≢◌, sym, ap, ◌∙◌, [], ◌∷◌, ◌++◌, some, arith, ok, err, length,
  length-append, take, drop, true, append_assoc, bytes_eqb_iff, nat_eqb, if◌then◌else◌,
}
use treble_tracker.Prelude.Bytes.{Bytes}
use treble_tracker.Prelude.Bytes.Search.{
  rfind, rstrip, rfind-append, take-length_append, drop-length_append,
}
use treble_tracker.Prelude.Bytes.Number.{fixed_decimal, fixed_decimal_injective}
use treble_tracker.Prelude.Bytes.Utf8.{is_utf8}
use treble_tracker.Ems.Session.{sum, marker, verify_checksum, check_stated, checksum_error}

-- "\x0110=ddd\x01", which states the checksum `n`.
abbrev pub trailer : ℕ → Bytes
trailer n = marker ++ (fixed_decimal 3 n ++ 1 ∷ [])

rfind-trailer : (n : ℕ) → rfind marker (trailer n) ≡ some 0
unfolding rfind fixed_decimal
rfind-trailer n = ground arith

rstrip-digits : (n : ℕ) → rstrip 1 (fixed_decimal 3 n ++ 1 ∷ []) ≡ fixed_decimal 3 n
unfolding rstrip fixed_decimal
rstrip-digits n = ground arith

digits-is_utf8 : (n : ℕ) → is_utf8 (fixed_decimal 3 n) ≡ true
unfolding is_utf8 fixed_decimal
digits-is_utf8 n = ground arith

take-trailer :
    (body : Bytes) (n : ℕ) → take (length body + 0 + 1) (body ++ trailer n) ≡ body ++ 1 ∷ []
take-trailer body n =
    ap (take (length body + 0 + 1)) (sym (append_assoc body (1 ∷ []) (drop 1 (trailer n))))
    ∙ take-length_append _ (body ++ 1 ∷ []) _ (omega (arith, length-append body (1 ∷ [])))

drop-trailer :
    (body : Bytes) (n : ℕ)
    → drop (length body + 0 + length marker) (body ++ trailer n) ≡ fixed_decimal 3 n ++ 1 ∷ []
drop-trailer body n =
    ap (drop (length body + 0 + length marker))
      (sym (append_assoc body marker (fixed_decimal 3 n ++ 1 ∷ [])))
    ∙ drop-length_append _ (body ++ marker) _ (omega (arith, length-append body marker))

-- The bytes that the trailer states against those that the body asks for.
verify-trailer :
    (body : Bytes) (n : ℕ)
    → verify_checksum (body ++ trailer n)
      ≡ check_stated (fixed_decimal 3 n) (fixed_decimal 3 (sum (body ++ 1 ∷ []) % 256))
unfolding verify_checksum
verify-trailer body n = rw (
  rfind-append marker body (trailer n) 0 (rfind-trailer n),
  take-trailer body n,
  drop-trailer body n,
  rstrip-digits n,
  verify_checksum,
)

check_stated_digits :
    (n m : ℕ)
    → n < 256
    → m < 256
    → check_stated (fixed_decimal 3 n) (fixed_decimal 3 m)
      ≡ (if nat_eqb n m then ok tt else err checksum_error)
unfolding check_stated
check_stated_digits n m hn hm = ground (
  arith,
  digits-is_utf8 n,
  bytes_eqb_iff (fixed_decimal 3 n) (fixed_decimal 3 m),
  fixed_decimal_injective n m,
)

sum-append : (xs ys : Bytes) → sum (xs ++ ys) ≡ sum xs + sum ys
unfolding sum
sum-append [] ys = omega arith
sum-append (x ∷ xs) ys = omega (arith, sum-append xs ys)

sum-trailing :
    (xs : Bytes) (x : ℕ) (ys : Bytes) → sum ((xs ++ x ∷ ys) ++ 1 ∷ []) ≡ sum xs + x + sum ys + 1
unfolding sum
sum-trailing xs x ys = omega (arith, sum-append (xs ++ x ∷ ys) (1 ∷ []), sum-append xs (x ∷ ys))

-- Sealed with the sum of its bytes modulo 256, a message passes `verify_checksum`; sealed with any
-- other number below 256 it raises `ChecksumError`.
pub verify-seal :
    (body : Bytes) (n : ℕ)
    → n < 256
    → verify_checksum (body ++ trailer n)
      ≡ (if nat_eqb n (sum (body ++ 1 ∷ []) % 256) then ok tt else err checksum_error)
verify-seal body n h =
    verify-trailer body n ∙ check_stated_digits n (sum (body ++ 1 ∷ []) % 256) h (omega arith)

-- One byte that changes before the trailer of a message that passes is always found: the
-- message then raises `ChecksumError`, whatever stands around the byte.
pub corrupt_byte_found :
    (before after : Bytes) (b c n : ℕ)
    → b < 256
    → c < 256
    → b ≢ c
    → n < 256
    → verify_checksum ((before ++ b ∷ after) ++ trailer n) ≡ ok tt
    → verify_checksum ((before ++ c ∷ after) ++ trailer n) ≡ err checksum_error
corrupt_byte_found before after b c n hb hc ne hn passed = ground (
  arith,
  verify-seal (before ++ b ∷ after) n hn,
  verify-seal (before ++ c ∷ after) n hn,
  sum-trailing before b after,
  sum-trailing before c after,
)
