-- ===== src/Core/EntityGraph.antt =====
-- treble/core/entity_graph.py: who consolidates whom, from the facts of GLEIF's relationship records.
pub mod Fields
pub mod Resolve
mod Examples
use treble_tracker.Prelude.{
  ℕ, ◌+◌, ◌-◌, List, [], ◌∷◌, ◌++◌, is_empty, Option, none, some, Bool, true, false, ◌&&◌, ◌||◌,
  not, bytes_eq, ◌==◌, nat_eqb, ltb, leb, if◌then◌else◌, any, length, take, drop, keep_if, map,
  reverse,
}
use treble_tracker.Prelude.Dict.{Dict, get, put}
use treble_tracker.Prelude.Bytes.{Bytes, codes}
use treble_tracker.Prelude.Bytes.Order.{sorted, sort_by}
use treble_tracker.Core.Chars.{Chars, upper}
use treble_tracker.Core.Identifiers.{is_lei_shape}
use treble_tracker.Core.Positions.{rpartition, after}

abbrev pub direct_parent_type : Bytes
direct_parent_type = codes "IS_DIRECTLY_CONSOLIDATED_BY"

abbrev pub ultimate_parent_type : Bytes
ultimate_parent_type = codes "IS_ULTIMATELY_CONSOLIDATED_BY"

abbrev pub rr_prefix : Bytes
rr_prefix = codes "gleif:rr:"

abbrev pub state_suffix : Bytes
state_suffix = codes ":state"

abbrev pub active_status : Bytes
active_status = codes "ACTIVE"

abbrev pub withdrawn_registrations : List Bytes
withdrawn_registrations = codes "ANNULLED" ∷ codes "RETIRED" ∷ codes "DUPLICATE" ∷ []

-- `x or ''`, and back: `x or None`
abbrev pub or_empty : Option Bytes → Bytes
or_empty none = []
or_empty (some t) = t

abbrev pub or_none : Bytes → Option Bytes
or_none [] = none
or_none (c ∷ cs) = some (c ∷ cs)

unfoldable pub relationship_state_value : Option Bytes → Option Bytes → Bytes
relationship_state_value status registration =
    or_empty status ++ (codes "/" ++ or_empty registration)

-- `text.partition("/")`, none where there is no slash
unfoldable pub partition : Bytes → Option (Bytes × Bytes)
partition [] = none
partition (c ∷ cs) =
    let rest = partition cs in
    if nat_eqb c b'/'
    then some ([], cs)
    else (elim rest [ none ↦ none | some found ↦ some (c ∷ found.0, found.1) ])

abbrev pub halves : Bytes → Option (Bytes × Bytes) → Option Bytes × Option Bytes
halves text none = (or_none text, none)
halves text (some found) = (or_none found.0, or_none found.1)

-- Of a value as text, if there is one
unfoldable pub parse_relationship_state : Option Bytes → Option Bytes × Option Bytes
unfolding partition
parse_relationship_state none = (none, none)
parse_relationship_state (some text) = halves text (partition text)

-- `_LEI_SHAPE.match`: the `$` also stands before a newline at the end.
unfoldable pub matches_lei : Bytes → Bool
unfolding is_lei_shape
matches_lei cs = is_lei_shape cs || is_lei_shape (take 20 cs) && drop 20 cs == 10 ∷ []

abbrev pub starts_with : Bytes → Bytes → Bool
starts_with prefix text = take (length prefix) text == prefix

abbrev pub ends_with : Bytes → Bytes → Bool
ends_with suffix text =
    leb (length suffix) (length text) && drop (length text - length suffix) text == suffix

abbrev pub type_and_parent : Option (Bytes × Bytes) → Option (Bytes × Bytes)
type_and_parent none = none
type_and_parent (some found) =
    if is_empty found.0 || not (matches_lei found.1)
    then none
    else some (found.0, codes "lei:" ++ found.1)

unfoldable pub parse_relationship_state_field : Bytes → Option (Bytes × Bytes)
unfolding matches_lei rpartition
parse_relationship_state_field field =
    if not (starts_with rr_prefix field) || not (ends_with state_suffix field)
    then none
    else type_and_parent (
        rpartition (
          take (length field - length state_suffix - length rr_prefix)
            (drop (length rr_prefix) field)))

unfoldable pub relationship_state_field : Chars → Bytes → Bytes → Bytes
unfolding upper
relationship_state_field t relationship_type counterparty =
    rr_prefix ++ (relationship_type ++ (codes ":" ++ (upper t counterparty ++ state_suffix)))

-- A fact of the store, its value as text. A date is its ordinal, a time a number.
pub record Fact : Type 0 where
  pub subject : Bytes
  pub field : Bytes
  pub value : Option Bytes
  pub effective_from : ℕ
  pub effective_to : Option ℕ
  pub knowledge_from : ℕ
  pub provenance_id : Bytes

pub record RelationshipEdge : Type 0 where
  pub child : Bytes
  pub parent : Bytes
  pub relationship_type : Bytes
  pub status : Option Bytes
  pub registration : Option Bytes
  pub knowledge_from : ℕ
  pub provenance_id : Bytes

abbrev edge_of : Fact → Bytes × Bytes → RelationshipEdge
edge_of fact parsed = record {
  child = fact.subject;
  parent = parsed.1;
  relationship_type = parsed.0;
  status = (parse_relationship_state fact.value).0;
  registration = (parse_relationship_state fact.value).1;
  knowledge_from = fact.knowledge_from;
  provenance_id = fact.provenance_id;
}

unfoldable pub edges_from_facts : List Fact → List RelationshipEdge
unfolding parse_relationship_state_field parse_relationship_state
edges_from_facts [] = []
edges_from_facts (fact ∷ facts) =
    let rest = edges_from_facts facts in
    elim (parse_relationship_state_field fact.field) [
      | none ↦ rest
      | some parsed ↦ edge_of fact parsed ∷ rest
    ]

abbrev pub member : Bytes → List Bytes → Bool
member x ys = any (λ y. y == x) ys

-- `withdrawn`
abbrev pub is_withdrawn : RelationshipEdge → Bool
is_withdrawn e = elim e.registration [ none ↦ false | some r ↦ member r withdrawn_registrations ]

abbrev pub is_active : RelationshipEdge → Bool
is_active e = elim e.status [ none ↦ false | some s ↦ s == active_status ]

-- The test of `_visible`
abbrev pub is_visible : Bytes → ℕ → Bool → RelationshipEdge → Bool
is_visible relationship_type as_of active_only e =
    e.relationship_type == relationship_type
    && leb e.knowledge_from as_of
    && (not active_only || is_active e && not (is_withdrawn e))

-- `_visible`
unfoldable pub visible : Bytes → ℕ → Bool → List RelationshipEdge → List RelationshipEdge
visible relationship_type as_of active_only edges =
    keep_if (is_visible relationship_type as_of active_only) edges

-- The members of a set, each once
unfoldable pub distinct : List Bytes → List Bytes
distinct [] = []
distinct (x ∷ xs) = let rest = distinct xs in if member x rest then rest else x ∷ rest

-- `sorted({...})`
unfoldable pub sorted_set : List Bytes → List Bytes
unfolding distinct sort_by
sorted_set xs = sorted (distinct xs)

pub data ParentOutcome : Type 0 where
  resolved : ParentOutcome
  no_record : ParentOutcome
  none_active : ParentOutcome
  ambiguous : ParentOutcome

pub record ParentResolution : Type 0 where
  pub outcome : ParentOutcome
  pub parent : Option Bytes
  pub candidates : List Bytes

-- The parents that the visible edges of an entity assert
unfoldable pub asserted : List RelationshipEdge → Bytes → Bytes → ℕ → Bool → List Bytes
unfolding visible
asserted edges lei relationship_type as_of active_only =
    map (λ e. e.parent)
      (keep_if (λ e. e.child == lei) (visible relationship_type as_of active_only edges))

-- What `resolve_parent` returns, by the parents considered and those that are active
unfoldable pub resolution : List Bytes → List Bytes → ParentResolution
resolution [] active = record { outcome = no_record; parent = none; candidates = [] }
resolution (c ∷ cs) [] = record { outcome = none_active; parent = none; candidates = c ∷ cs }
resolution (c ∷ cs) (p ∷ []) = record { outcome = resolved; parent = some p; candidates = c ∷ cs }
resolution (c ∷ cs) (p ∷ q ∷ ps) = record {
  outcome = ambiguous;
  parent = none;
  candidates = c ∷ cs;
}

unfoldable pub resolve_parent : List RelationshipEdge → Bytes → Bytes → ℕ → Bool → ParentResolution
unfolding asserted sorted_set resolution
resolve_parent edges lei relationship_type as_of active_only =
    resolution (sorted_set (asserted edges lei relationship_type as_of false))
      (sorted_set (asserted edges lei relationship_type as_of active_only))

unfoldable pub direct_parent : List RelationshipEdge → Bytes → ℕ → Bool → Option Bytes
unfolding resolve_parent
direct_parent edges lei as_of active_only =
    (resolve_parent edges lei direct_parent_type as_of active_only).parent

unfoldable pub ultimate_parent : List RelationshipEdge → Bytes → ℕ → Bool → Option Bytes
unfolding resolve_parent
ultimate_parent edges lei as_of active_only =
    (resolve_parent edges lei ultimate_parent_type as_of active_only).parent

unfoldable pub children : List RelationshipEdge → Bytes → ℕ → Bytes → Bool → List Bytes
unfolding visible sorted_set
children edges lei as_of relationship_type active_only = sorted_set (
    map (λ e. e.child)
      (keep_if (λ e. e.parent == lei) (visible relationship_type as_of active_only edges)))

-- `by_child`
unfoldable pub parents_by_child :
    Dict Bytes (List Bytes) → List RelationshipEdge → Dict Bytes (List Bytes)
unfolding get put
parents_by_child d [] = d
parents_by_child d (e ∷ es) =
    let known : List Bytes = elim (get e.child d) [ none ↦ [] | some ps ↦ ps ] in
    parents_by_child (put e.child (if member e.parent known then known else e.parent ∷ known) d) es

unfoldable pub conflicting_parents :
    List RelationshipEdge → Bytes → ℕ → Bool → List (Bytes × List Bytes)
unfolding visible parents_by_child sort_by
conflicting_parents edges relationship_type as_of active_only =
    sort_by (λ c. c.0)
      (map (λ c. (c.0, sorted c.1))
        (keep_if (λ c. ltb 1 (length c.1))
          (parents_by_child [] (visible relationship_type as_of active_only edges))))
