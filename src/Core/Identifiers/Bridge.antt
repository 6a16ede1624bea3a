-- ===== src/Core/Identifiers/Bridge.antt =====
-- A CUSIP and the ISIN that it sits inside.
use treble_tracker.Prelude.{
  ℕ, zero, suc, ◌+◌, ◌-◌, ◌<◌, ◌≡◌, refl, ◌∙◌, ap, List, [], ◌∷◌, ◌++◌, some, true, false, ok,
  bytes_eq, arith, Bool-cases, inl, inr, all, All, All-append, length, length-append, take, drop,
}
use treble_tracker.Prelude.Bytes.{Bytes, codes}
use treble_tracker.Prelude.Bytes.Blank.{is_blank, strip, strip_left, strip_right}
use treble_tracker.Core.Chars.{Chars, IsPython, upper, upper-same, is_digit, is_small}
use treble_tracker.Core.Identifiers.{
  digits_of, is_lei_char, base36_digits, luhn_check, isin_check_digit, isin_from_cusip,
  cusip_from_isin, looks_like_isin,
}

strip_right-ends :
    (front : Bytes) (c : ℕ) → is_blank c ≡ false → strip_right (front ++ c ∷ []) ≡ front ++ c ∷ []
unfolding strip_right
strip_right-ends [] c h = rw h refl
strip_right-ends (d ∷ []) c h = ground (arith, h)
strip_right-ends (d ∷ e ∷ front) c h = rw (strip_right-ends (e ∷ front) c h) refl

take-front : (front back : Bytes) (n : ℕ) → length front ≡ n → take n (front ++ back) ≡ front
take-front [] [] zero h = refl
take-front [] (c ∷ back) zero h = refl
take-front [] back (suc n) h = absurd (omega (arith, h))
take-front (c ∷ front) back zero h = absurd (omega (arith, h))
take-front (c ∷ front) back (suc n) h = ap (◌∷◌ c) (take-front front back n (omega (arith, h)))

drop-front : (front back : Bytes) (n : ℕ) → length front ≡ n → drop n (front ++ back) ≡ back
drop-front [] back zero h = refl
drop-front [] back (suc n) h = absurd (omega (arith, h))
drop-front (c ∷ front) back zero h = absurd (omega (arith, h))
drop-front (c ∷ front) back (suc n) h = drop-front front back n (omega (arith, h))

module _ (t : Chars) (p : IsPython t) where
  value : (x : ℕ) → is_lei_char x ≡ true → (w : ℕ) × (t.digit36 x ≡ some w)
  value x k = elim (Bool-cases (is_digit x)) [
    | inl d ↦ (x - 48, p.digit36_ascii x (ground (arith, k)) ∙ ground (arith, d))
    | inr n ↦ (x - 55, p.digit36_ascii x (ground (arith, k)) ∙ ground (arith, n, k))
  ]

  base36-total :
      (cs : Bytes)
      → All (λ c. is_lei_char c ≡ true) cs
      → (ds : List ℕ) × (base36_digits t cs ≡ ok ds)
  unfolding base36_digits
  base36-total [] h = ([], refl)
  base36-total (c ∷ cs) h =
      let rest = base36-total cs h.1 in
      let v = value c h.0 in (digits_of v.0 ++ rest.0, rw (v.1, rest.1) refl)

  all_alnum : (cs : Bytes) → All (λ c. is_lei_char c ≡ true) cs → all t.is_alnum cs ≡ true
  all_alnum [] h = refl
  all_alnum (c ∷ cs) h =
      rw (p.alnum_ascii c (ground (arith, h.0)), all_alnum cs h.1) (ground (arith, h.0))

  plain :
      (cs : Bytes)
      → All (λ c. is_lei_char c ≡ true) cs
      → All (λ c. (c < 128) × (is_small c ≡ false)) cs
  plain [] h = tt
  plain (c ∷ cs) h = ((ground (arith, h.0), ground (arith, h.0)), plain cs h.1)

  upper-plain : (cs : Bytes) → All (λ c. is_lei_char c ≡ true) cs → upper t cs ≡ cs
  upper-plain cs h = upper-same t p cs (plain cs h)

  check_of : (body : Bytes) → All (λ c. is_lei_char c ≡ true) body → ℕ
  check_of body h = 48 + luhn_check t (base36-total body h).0

  isin_check_digit-body :
      (body : Bytes) (h : All (λ c. is_lei_char c ≡ true) body)
      → isin_check_digit t body ≡ ok (check_of body h)
  unfolding isin_check_digit check_of
  isin_check_digit-body body h = rw (upper-plain body h, (base36-total body h).1) refl

  check_of-IsDigit :
      (body : Bytes) (h : All (λ c. is_lei_char c ≡ true) body) → is_digit (check_of body h) ≡ true
  unfolding check_of
  check_of-IsDigit body h = ground arith

  abbrev UsBody : Bytes → Bytes
  UsBody cusip = codes "US" ++ cusip

  -- What the readers make of a text of twelve digits and capitals behind `US`.
  upper-strip :
      (body : Bytes) (k : ℕ)
      → All (λ c. is_lei_char c ≡ true) body
      → is_digit k ≡ true
      → upper t (strip (codes "US" ++ (body ++ k ∷ []))) ≡ codes "US" ++ (body ++ k ∷ [])
  unfolding strip strip_left
  upper-strip body k h d = rw (strip_right-ends (codes "US" ++ body) k (ground (arith, d))) (
      upper-plain (codes "US" ++ (body ++ k ∷ [])) (
        refl,
        (refl, All-append (λ c. is_lei_char c ≡ true) body (k ∷ []) h (ground (arith, d), tt)),
      ))

  -- A CUSIP of nine digits and capitals has an ISIN under `US`, which is one for `looks_like_isin`,
  -- and the CUSIP is found in it again.
  pub cusip_from_isin-isin_from_cusip :
      (cusip : Bytes)
      → length cusip ≡ 9
      → All (λ c. is_lei_char c ≡ true) cusip
      → (isin : Bytes) × (isin_from_cusip t (codes "US") cusip ≡ ok isin)
        × (cusip_from_isin t isin ≡ some cusip)
        × (looks_like_isin t isin ≡ ok true)
  unfolding isin_from_cusip cusip_from_isin looks_like_isin
  cusip_from_isin-isin_from_cusip cusip n h =
      let us : All (λ c. is_lei_char c ≡ true) (codes "US" ++ cusip) = (refl, (refl, h)) in
      let k = check_of (codes "US" ++ cusip) us in
      let d = check_of-IsDigit (codes "US" ++ cusip) us in
      let checked = isin_check_digit-body (codes "US" ++ cusip) us in
      let read = upper-strip cusip k h d in
      (
        codes "US" ++ (cusip ++ k ∷ []),
        rw (upper-plain (codes "US") (refl, (refl, tt)), upper-plain cusip h, checked) refl,
        rw (read, length-append cusip (k ∷ []), n, take-front cusip (k ∷ []) 9 n) refl,
        rw
            (
              read,
              length-append cusip (k ∷ []),
              n,
              p.alpha_ascii b'U' (omega arith),
              p.alpha_ascii b'S' (omega arith),
              p.alnum_ascii b'U' (omega arith),
              p.alnum_ascii b'S' (omega arith),
              all_alnum (cusip ++ k ∷ [])
                  (All-append (λ c. is_lei_char c ≡ true) cusip (k ∷ []) h (ground (arith, d), tt)),
              take-front cusip (k ∷ []) 9 n,
              drop-front cusip (k ∷ []) 9 n,
              checked,
            )
            (ground arith),
      )
