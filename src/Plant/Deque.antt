-- ===== src/Plant/Deque.antt =====
-- `collections.deque(maxlen=...)`: an append to a full one drops the oldest.
use treble_tracker.Prelude.{
  ℕ, zero, suc, ◌-◌, ◌≤◌, ◌<◌, ◌≡◌, refl, ap, sym, ◌∙◌, List, [], ◌∷◌, ◌++◌, arith, ltb,
  if◌then◌else◌, length, length-append, lt→ltb, ltb→lt, drop, Bool-cases, false, inl, inr,
}

not_lt : (a b : ℕ) → ltb a b ≡ false → b ≤ a
not_lt a b h = ground arith

module _ {ℓ} {A : Type ℓ} where
  abbrev pub push : ℕ → List A → A → List A
  push maxlen xs a = if ltb (length xs) maxlen then xs ++ a ∷ [] else drop 1 (xs ++ a ∷ [])

  -- What is lost from the front, with how much of `whole` is still held.
  pub drop-append :
      (k : ℕ) (whole rest : List A)
      → k ≤ length whole
      → drop k (whole ++ rest) ≡ drop k whole ++ rest
  drop-append zero whole rest h = refl
  drop-append (suc k) [] rest h = absurd (omega arith)
  drop-append (suc k) (x ∷ whole) rest h = drop-append k whole rest (omega arith)

  pub drop_one : (k : ℕ) (whole : List A) → drop 1 (drop k whole) ≡ drop (suc k) whole
  drop_one zero whole = refl
  drop_one (suc k) [] = refl
  drop_one (suc k) (x ∷ whole) = drop_one k whole

  pub length-drop : (k : ℕ) (xs : List A) → length (drop k xs) ≡ length xs - k
  length-drop zero xs = omega arith
  length-drop (suc k) [] = omega arith
  length-drop (suc k) (x ∷ xs) = omega (arith, length-drop k xs)

  -- The last `n` of a list, which a deque of that length holds.
  abbrev pub last_of : ℕ → List A → List A
  last_of n whole = drop (length whole - n) whole

  pub last_of-all : (n : ℕ) (xs : List A) → length xs ≤ n → last_of n xs ≡ xs
  last_of-all n xs h = ap (λ k. drop k xs) {x = length xs - n} {y = zero} (omega (arith, h))

  pub push-room : (n : ℕ) (xs : List A) (a : A) → length xs < n → push n xs a ≡ xs ++ a ∷ []
  push-room n xs a h =
      ap (λ b. if b then xs ++ a ∷ [] else drop 1 (xs ++ a ∷ [])) (lt→ltb (length xs) n h)

  push-full : (n : ℕ) (xs : List A) (a : A) → n ≤ length xs → push n xs a ≡ drop 1 (xs ++ a ∷ [])
  push-full n xs a h = ground (arith, h)

  pub push-last_of :
      (n : ℕ) (whole : List A) (a : A) → push n (last_of n whole) a ≡ last_of n (whole ++ a ∷ [])
  push-last_of n whole a = elim (Bool-cases (ltb (length whole) n)) [
    | inl room ↦
        ap (λ xs. push n xs a) (last_of-all n whole (omega (arith, ltb→lt (length whole) n room)))
        ∙ push-room n whole a (ltb→lt (length whole) n room)
        ∙ sym (
            last_of-all n (whole ++ a ∷ [])
              (omega (arith, ltb→lt (length whole) n room, length-append whole (a ∷ []))))
    | inr full ↦
        push-full n (last_of n whole) a
          (omega (arith, length-drop (length whole - n) whole, not_lt (length whole) n full))
        ∙ ap (drop 1) (sym (drop-append (length whole - n) whole (a ∷ []) (omega arith)))
        ∙ drop_one (length whole - n) (whole ++ a ∷ [])
        ∙ ap (λ k. drop k (whole ++ a ∷ [])) {x = suc (length whole - n)}
            {y = length (whole ++ a ∷ []) - n}
            (omega (arith, not_lt (length whole) n full, length-append whole (a ∷ [])))
  ]
