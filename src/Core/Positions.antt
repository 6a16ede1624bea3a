-- ===== src/Core/Positions.antt =====
-- treble/core/identifiers.py: the subject of a position, and the filers' stand-ins.
mod Examples
use treble_tracker.Prelude.{
  ℕ, ◌≡◌, ◌≢◌, refl, sym, ap, ◌∙◌, subst, List, [], ◌∷◌, ◌++◌, append_assoc, is_empty, Option, none,
  some, Bool, true, false, not, ◌||◌, Result, ok, err, bytes_eq, ◌==◌, nat_eqb, if◌then◌else◌, any,
  arith, drop,
}
use treble_tracker.Prelude.Bytes.{Bytes, codes}
use treble_tracker.Prelude.Bytes.Blank.{strip, words, join_with}
use treble_tracker.Core.Chars.{Chars, upper, replace}

-- What a filer may write: nothing, a text, or some other object.
pub data Filed : Type 0 where
  absent : Filed
  written : Bytes → Filed
  other : Filed

abbrev pub placeholder_identifiers : List Bytes
placeholder_identifiers =
    codes ""
    ∷ codes "N/A"
    ∷ codes "NA"
    ∷ codes "N.A."
    ∷ codes "NONE"
    ∷ codes "NULL"
    ∷ codes "UNKNOWN"
    ∷ codes "000000000"
    ∷ codes "0"
    ∷ []

-- The `ValueError` of a position whose fund is unnamed.
pub data PositionError : Type 0 where
  unnamed_fund : PositionError

abbrev pub position_prefix : Bytes
position_prefix = codes "pos:"

-- `text.rpartition(":")`, none where there is no colon
unfoldable pub rpartition : Bytes → Option (Bytes × Bytes)
rpartition [] = none
rpartition (c ∷ cs) = elim (rpartition cs) [
  | some found ↦ some (c ∷ found.0, found.1)
  | none ↦ if nat_eqb c b':' then some ([], cs) else none
]

-- `text[len(prefix):]` of a text that starts with the prefix
abbrev pub after : Bytes → Bytes → Option Bytes
after [] text = some text
after (p ∷ prefix) [] = none
after (p ∷ prefix) (c ∷ text) = let rest = after prefix text in if nat_eqb p c then rest else none

-- The end of `parse_position_subject`
abbrev pub sides : Option (Bytes × Bytes) → Option (Bytes × Bytes)
sides none = none
sides (some found) = if is_empty found.1 || is_empty found.0 then none else some (found.1, found.0)

-- The fund and the instrument
unfoldable pub parse_position_subject : Bytes → Option (Bytes × Bytes)
unfolding rpartition
parse_position_subject subject = elim (after position_prefix subject) [
  | none ↦ none
  | some rest ↦ sides (rpartition rest)
]

abbrev pub position_prefix_for : Bytes → Bytes
position_prefix_for instrument = position_prefix ++ (instrument ++ codes ":")

module _ (t : Chars) where
  unfoldable pub is_placeholder_identifier : Filed → Bool
  unfolding upper strip
  is_placeholder_identifier absent = true
  is_placeholder_identifier other = false
  is_placeholder_identifier (written text) =
      any (λ p. upper t (strip text) == p) placeholder_identifiers

  -- The fund as the last part of a subject
  unfoldable pub scope_of : Bytes → Bytes
  unfolding upper words
  scope_of fund =
      replace b' ' b'_' (replace b':' b'-' (upper t (join_with (codes " ") (words fund))))

  unfoldable pub position_subject : Bytes → Bytes → Result PositionError Bytes
  unfolding scope_of
  position_subject fund instrument =
      if is_empty (scope_of fund)
      then err unnamed_fund
      else ok (position_prefix ++ (instrument ++ (codes ":" ++ scope_of fund)))

-- No colon is left after all are replaced, and none comes back.
abbrev pub no_colon : Bytes → Bool
no_colon cs = not (any (λ c. nat_eqb c b':') cs)

replace-gone : (cs : Bytes) → no_colon (replace b':' b'-' cs) ≡ true
replace-gone [] = refl
replace-gone (c ∷ cs) = ground (arith, replace-gone cs)

replace-kept : (cs : Bytes) → no_colon cs ≡ true → no_colon (replace b' ' b'_' cs) ≡ true
replace-kept [] h = refl
replace-kept (c ∷ cs) h = ground (arith, h, replace-kept cs)

scope_of-colon : (t : Chars) (fund : Bytes) → no_colon (scope_of t fund) ≡ true
unfolding scope_of
scope_of-colon t fund =
    let named = upper t (join_with (codes " ") (words fund)) in
    replace-kept (replace b':' b'-' named) (replace-gone named)

rpartition-none : (cs : Bytes) → no_colon cs ≡ true → rpartition cs ≡ none
unfolding rpartition
rpartition-none [] h = refl
rpartition-none (c ∷ cs) h = rw (rpartition-none cs (ground (arith, h))) (ground (arith, h))

pub rpartition-last :
    (front back : Bytes)
    → no_colon back ≡ true
    → rpartition (front ++ b':' ∷ back) ≡ some (front, back)
unfolding rpartition
rpartition-last [] back h = rw (rpartition-none back h) refl
rpartition-last (c ∷ front) back h = rw (rpartition-last front back h) refl

named :
    (blank : Bool) (made subject : Bytes)
    → ◌≡◌ {A = Result PositionError Bytes}
        (if blank then err unnamed_fund else ok made)
        (ok subject)
    → (blank ≡ false) × (made ≡ subject)
named true made subject h = cc
named false made subject h = (refl, cc)

-- Of a fund with a name and an instrument, the subject can be read back: the parts are the
-- instrument, unchanged, and the fund's scope; and it starts with the prefix that readers look for.
pub parse-position_subject :
    (t : Chars) (fund instrument subject : Bytes)
    → is_empty instrument ≡ false
    → position_subject t fund instrument ≡ ok subject
    → (parse_position_subject subject ≡ some (scope_of t fund, instrument))
      × (subject ≡ position_prefix_for instrument ++ scope_of t fund)
unfolding position_subject parse_position_subject
parse-position_subject t fund instrument subject i h =
    let scope = scope_of t fund in
    let m =
      named (is_empty scope) (position_prefix ++ (instrument ++ (codes ":" ++ scope))) subject h in
    (
      subst (λ s. parse_position_subject s ≡ some (scope, instrument)) m.1
          (rw (rpartition-last instrument scope (scope_of-colon t fund), m.0, i) refl),
      sym m.1 ∙ ap (λ s. position_prefix ++ s) (sym (append_assoc instrument (codes ":") scope)),
    )
