-- ===== src/Core/EntityGraph/Examples.antt =====
-- An entity with a current and an annulled record.
use treble_tracker.Prelude.{◌≡◌, refl, List, [], ◌∷◌, ◌++◌, Option, none, some, true, bytes_eq}
use treble_tracker.Prelude.Bytes.{Bytes, codes}
use treble_tracker.Prelude.Bytes.Order.{sort_by, insert_by}
use treble_tracker.Core.Chars.{ascii, upper}
use treble_tracker.Core.Identifiers.{is_lei_shape}
use treble_tracker.Core.EntityGraph.{
  Fact, RelationshipEdge, edges_from_facts, resolve_parent, resolution, asserted, visible,
  sorted_set, distinct, direct_parent_type, parse_relationship_state_field,
  relationship_state_field, parse_relationship_state, relationship_state_value, partition,
  matches_lei,
}
use treble_tracker.Core.EntityGraph.Fields.{
  parse-relationship_state_value, parse-relationship_state_field,
}
use treble_tracker.Core.EntityGraph.Resolve.{OnlyOne, resolved_iff}
use treble_tracker.Core.Positions.{rpartition}

abbrev current : Bytes
current = codes "969500WDCPJAW65OHW35"

abbrev annulled : Bytes
annulled = codes "894500NGP61K2MQO3X40"

abbrev filing : Bytes → Option Bytes → Option Bytes → Fact
filing parent status registration = record {
  subject = codes "lei:x";
  field = relationship_state_field ascii direct_parent_type parent;
  value = some (relationship_state_value status registration);
  effective_from = 5;
  effective_to = none;
  knowledge_from = 5;
  provenance_id = codes "p";
}

abbrev facts : List Fact
facts =
    filing annulled none (some (codes "ANNULLED"))
    ∷ filing current (some (codes "ACTIVE")) (some (codes "LAPSED"))
    ∷ []

abbrev edges : List RelationshipEdge
edges = edges_from_facts facts

resolved_iff_example :
    OnlyOne (codes "lei:969500WDCPJAW65OHW35") (codes "lei:969500WDCPJAW65OHW35" ∷ [])
unfolding edges_from_facts resolve_parent resolution asserted visible sorted_set distinct sort_by
    insert_by parse_relationship_state_field relationship_state_field parse_relationship_state
    relationship_state_value partition matches_lei is_lei_shape rpartition upper
resolved_iff_example =
    (resolved_iff edges (codes "lei:x") direct_parent_type 9 true
        (codes "lei:969500WDCPJAW65OHW35")).0
      refl

parse-relationship_state_value_case :
    parse_relationship_state (some (relationship_state_value (some (codes "ACTIVE")) none))
    ≡ (some (codes "ACTIVE"), none)
parse-relationship_state_value_case =
    parse-relationship_state_value (some (codes "ACTIVE")) none refl

parse-relationship_state_field_case :
    parse_relationship_state_field (relationship_state_field ascii direct_parent_type current)
    ≡ some (direct_parent_type, codes "lei:" ++ upper ascii current)
unfolding is_lei_shape upper
parse-relationship_state_field_case =
    parse-relationship_state_field ascii direct_parent_type current refl refl
