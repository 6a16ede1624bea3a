-- ===== src/Compliance/Loader/Examples.antt =====
-- A mandate of one rule.
use treble_tracker.Prelude.{ℕ, refl, [], ◌∷◌, some}
use treble_tracker.Prelude.Int.{pos, pos_part}
use treble_tracker.Prelude.Dict.{get}
use treble_tracker.Prelude.Bytes.{codes}
use treble_tracker.Prelude.Bytes.Blank.{strip}
use treble_tracker.Compliance.Rules.{max_position_weight, number, run_rules}
use treble_tracker.Compliance.Rules.Examples.{whole_numbers, holdings}
use treble_tracker.Compliance.Loader.{
  Yaml, whole, text, sequence, mapping, end_items, item, end_fields, field, RuleSet, load_ruleset,
  load_named_set, load_rules, rule_of, named_rule, limit_in, limit_of, numeric_limit, predicate_in,
  predicate_of, name_of,
}
use treble_tracker.Compliance.Loader.Whole.{IsWhole, Returns, loaded-IsWhole, loaded_runs}

abbrev one_rule : Yaml ℕ
one_rule = mapping (
    field (codes "name") (text (codes "position")) (
      field (codes "predicate") (text (codes "max_position_weight"))
        (field (codes "limit") (whole (pos 5)) end_fields)))

abbrev mandate : Yaml ℕ
mandate = mapping (
    field (codes "name") (text (codes "fund"))
      (field (codes "rules") (sequence (item one_rule end_items)) end_fields))

abbrev loaded : RuleSet ℕ
loaded = record {
  name = codes "fund";
  rules =
      record { name = codes "position"; predicate = max_position_weight; limit = number 5 } ∷ [];
}

loaded-IsWhole_example : IsWhole (λ n. some (pos_part n)) (some mandate) loaded
unfolding load_ruleset load_named_set load_rules rule_of named_rule limit_in limit_of numeric_limit
    predicate_in predicate_of name_of get strip
loaded-IsWhole_example = loaded-IsWhole (λ n. some (pos_part n)) (some mandate) loaded refl

loaded_runs_example : Returns whole_numbers (run_rules whole_numbers loaded.rules holdings 0)
unfolding load_ruleset load_named_set load_rules rule_of named_rule limit_in limit_of numeric_limit
    predicate_in predicate_of name_of get strip
loaded_runs_example =
    loaded_runs (λ n. some (pos_part n)) whole_numbers (some mandate) loaded holdings 0 refl
