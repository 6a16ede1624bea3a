-- ===== src/Prelude/Bytes/Blank.antt =====
-- Python's `str.isspace` of a character, and `rstrip`, `strip` and `split` of a text by it.
use Prim.Native.Nat.{ℕ, ◌-◌}
use mathlib.Core.Bool.{Bool, ◌&&◌, ◌||◌}
use mathlib.Core.List.{List, [], ◌∷◌, ◌++◌}
use treble_tracker.Prelude.Tests.{nat_eqb, leb, if◌then◌else◌}

unfoldable pub is_blank : ℕ → Bool
is_blank c =
    leb 9 c && leb c 13
    || leb 28 c && leb c 32
    || nat_eqb c 133
    || nat_eqb c 160
    || nat_eqb c 5760
    || leb 8192 c && leb c 8202
    || nat_eqb c 8232
    || nat_eqb c 8233
    || nat_eqb c 8239
    || nat_eqb c 8287
    || nat_eqb c 12288

unfoldable pub strip_right : List ℕ → List ℕ
unfolding is_blank
strip_right [] = []
strip_right (c ∷ cs) = elim (strip_right cs) [
  | [] ↦ if is_blank c then [] else c ∷ []
  | d ∷ ds ↦ c ∷ d ∷ ds
]

unfoldable pub strip_left : List ℕ → List ℕ
unfolding is_blank
strip_left [] = []
strip_left (c ∷ cs) = let rest = strip_left cs in if is_blank c then rest else c ∷ cs

-- `text.strip()`
unfoldable pub strip : List ℕ → List ℕ
unfolding strip_left strip_right
strip t = strip_left (strip_right t)

-- The words behind a word that is being read, which may be empty.
unfoldable pub words_from : List ℕ → List ℕ → List (List ℕ)
unfolding is_blank
words_from [] [] = []
words_from (c ∷ word) [] = (c ∷ word) ∷ []
words_from word (c ∷ cs) =
    let on = words_from (word ++ c ∷ []) cs in
    let off = words_from [] cs in
    if is_blank c then (elim word [ [] ↦ off | d ∷ ds ↦ (d ∷ ds) ∷ off ]) else on

-- `text.split()`
unfoldable pub words : List ℕ → List (List ℕ)
unfolding words_from
words t = words_from [] t

-- `sep.join(parts)`
abbrev pub join_with : List ℕ → List (List ℕ) → List ℕ
join_with sep [] = []
join_with sep (p ∷ []) = p
join_with sep (p ∷ q ∷ ps) = p ++ (sep ++ join_with sep (q ∷ ps))

-- `text.upper()` of ASCII letters
abbrev pub upper_char : ℕ → ℕ
upper_char c = if leb b'a' c && leb c b'z' then c - 32 else c

abbrev pub upper : List ℕ → List ℕ
upper [] = []
upper (c ∷ cs) = upper_char c ∷ upper cs
