-- ===== src/Core/EntityGraph/Fields.antt =====
-- A relationship record in one field and one value, and read back from them.
use treble_tracker.Prelude.{
  ℕ, zero, suc, ◌-◌, ◌≡◌, refl, ◌∙◌, ap, subst, [], ◌∷◌, ◌++◌, append_assoc, is_empty, Option, some,
  Bool, true, false, ◌&&◌, bytes_eq, nat_eqb, leb, all, any, arith, length, length-append, take,
  drop, eqb_refl,
}
use treble_tracker.Prelude.Bytes.{Bytes, codes}
use treble_tracker.Core.Chars.{Chars, upper, is_digit}
use treble_tracker.Core.Identifiers.{is_lei_shape, is_lei_char}
use treble_tracker.Core.Positions.{rpartition, no_colon, rpartition-last}
use treble_tracker.Core.EntityGraph.{
  ends_with, or_empty, or_none, relationship_state_value, partition, halves,
  parse_relationship_state, matches_lei, type_and_parent, parse_relationship_state_field,
  relationship_state_field, rr_prefix, state_suffix,
}

-- A text without a slash.
abbrev pub has_slash : Bytes → Bool
has_slash cs = any (λ c. nat_eqb c b'/') cs

partition-first :
    (front back : Bytes)
    → has_slash front ≡ false
    → partition (front ++ b'/' ∷ back) ≡ some (front, back)
unfolding partition
partition-first [] back h = refl
partition-first (c ∷ front) back h =
    rw (partition-first front back (ground (arith, h))) (ground (arith, h))

-- An absent text and an empty one read the same.
abbrev pub filled : Option Bytes → Option Bytes
filled o = or_none (or_empty o)

-- Both statuses of a record come back from its one value, if the first has no slash; an empty one
-- comes back as absent.
pub parse-relationship_state_value :
    (status registration : Option Bytes)
    → has_slash (or_empty status) ≡ false
    → parse_relationship_state (some (relationship_state_value status registration))
      ≡ (filled status, filled registration)
unfolding parse_relationship_state relationship_state_value
parse-relationship_state_value status registration h =
    ap (halves (or_empty status ++ b'/' ∷ or_empty registration))
      (partition-first (or_empty status) (or_empty registration) h)

take-length : (front back : Bytes) → take (length front) (front ++ back) ≡ front
take-length [] back = refl
take-length (c ∷ front) back = ap (◌∷◌ c) (take-length front back)

drop-length : (front back : Bytes) → drop (length front) (front ++ back) ≡ back
drop-length [] back = refl
drop-length (c ∷ front) back = drop-length front back

no_colon-parts :
    (n : ℕ) (cs : Bytes)
    → all is_lei_char (take n cs) ≡ true
    → all is_digit (drop n cs) ≡ true
    → no_colon cs ≡ true
no_colon-parts zero [] h k = refl
no_colon-parts zero (c ∷ cs) h k = ground (arith, k, no_colon-parts zero cs refl)
no_colon-parts (suc n) [] h k = refl
no_colon-parts (suc n) (c ∷ cs) h k = ground (arith, h, k, no_colon-parts n cs)

and_inv : (a b c : Bool) → ((a && b) && c) ≡ true → (b ≡ true) × (c ≡ true)
and_inv a b c h = (ground (arith, h), ground (arith, h))

lei_shape-no_colon : (cs : Bytes) → is_lei_shape cs ≡ true → no_colon cs ≡ true
unfolding is_lei_shape
lei_shape-no_colon cs h =
    let parts =
      and_inv (nat_eqb (length cs) 20) (all is_lei_char (take 18 cs)) (all is_digit (drop 18 cs))
        h in
    no_colon-parts 18 cs parts.0 parts.1

-- A text ends with what was put behind it.
ends_with-append : (front suffix : Bytes) → ends_with suffix (front ++ suffix) ≡ true
ends_with-append front suffix =
    let n : length (front ++ suffix) - length suffix ≡ length front =
      omega (arith, length-append front suffix) in
    let fits : leb (length suffix) (length (front ++ suffix)) ≡ true =
      ground (arith, length-append front suffix) in
    rw (fits, n, drop-length front suffix) (eqb_refl suffix)

-- The middle of a field is what is read.
parse-middle :
    (middle : Bytes)
    → parse_relationship_state_field (rr_prefix ++ (middle ++ state_suffix))
      ≡ type_and_parent (rpartition middle)
unfolding parse_relationship_state_field
parse-middle middle =
    let n : length (rr_prefix ++ (middle ++ state_suffix)) - 6 - 9 ≡ length middle =
      omega (arith, length-append middle state_suffix) in
    rw (ends_with-append (rr_prefix ++ middle) state_suffix, n, take-length middle state_suffix)
      refl

-- The field names its type and its counterparty again, if the type is not empty and the counterparty
-- in upper case has the shape of an LEI.
pub parse-relationship_state_field :
    (t : Chars) (relationship_type counterparty : Bytes)
    → is_empty relationship_type ≡ false
    → is_lei_shape (upper t counterparty) ≡ true
    → parse_relationship_state_field (relationship_state_field t relationship_type counterparty)
      ≡ some (relationship_type, codes "lei:" ++ upper t counterparty)
unfolding parse_relationship_state_field relationship_state_field matches_lei
parse-relationship_state_field t relationship_type counterparty n s =
    let counter = upper t counterparty in
    subst
      (λ f.
        parse_relationship_state_field (rr_prefix ++ f)
        ≡ some (relationship_type, codes "lei:" ++ counter))
      (append_assoc relationship_type (b':' ∷ counter) state_suffix)
      (parse-middle (relationship_type ++ b':' ∷ counter)
        ∙ rw (rpartition-last relationship_type counter (lei_shape-no_colon counter s), n, s) refl)
