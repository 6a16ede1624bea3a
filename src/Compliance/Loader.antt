-- ===== src/Compliance/Loader.antt =====
-- treble/compliance/loader.py: a mandate file, read whole or refused.
pub mod Whole
mod Examples
use treble_tracker.Prelude.{
  ℕ, suc, List, [], ◌∷◌, is_empty, ◌++◌, Option, none, some, Bool, true, false, not, Result, ok,
  err, ◌>>=◌, required, bytes_eq, ◌==◌, if◌then◌else◌, any,
}
use treble_tracker.Prelude.Int.{ℤ}
use treble_tracker.Prelude.Dict.{Dict, get}
use treble_tracker.Prelude.Bytes.{Bytes, codes}
use treble_tracker.Prelude.Bytes.Blank.{strip}
use treble_tracker.Compliance.Rules.{
  Predicate, max_issuer_weight, max_position_weight, max_maturity_years, permitted_currencies,
  permitted_asset_categories, min_rating, Limit, number, labels, label, Rule,
}

-- What `yaml.safe_load` returns. Of a mapping, the fields whose key is a text: no other is read.
mutual
  pub data Yaml (F : Type 0) : Type 0 where
    null : Yaml F
    flag : Bool → Yaml F
    whole : ℤ → Yaml F
    real : F → Yaml F
    text : Bytes → Yaml F
    sequence : Items F → Yaml F
    mapping : Fields F → Yaml F
    other : Yaml F

  pub data Items (F : Type 0) : Type 0 where
    end_items : Items F
    item : Yaml F → Items F → Items F

  pub data Fields (F : Type 0) : Type 0 where
    end_fields : Fields F
    field : Bytes → Yaml F → Fields F → Fields F

-- Why one rule is refused.
pub data RuleFault : Type 0 where
  rule_not_mapping : RuleFault
  rule_unnamed : RuleFault
  unknown_predicate : RuleFault
  no_limit : RuleFault
  needs_number : RuleFault
  needs_list : RuleFault
  needs_strings : RuleFault
  needs_string : RuleFault
  too_large : RuleFault

-- A `MandateError`, with the number of the rule that it names. An integer limit too large for a
-- float is an `OverflowError`.
pub data MandateError : Type 0 where
  not_yaml : MandateError
  not_mapping : MandateError
  unnamed : MandateError
  no_rules : MandateError
  two_rules_named : Bytes → MandateError
  at_rule : ℕ → RuleFault → MandateError

pub record RuleSet (F : Type 0) : Type 0 where
  pub name : Bytes
  pub rules : List (Rule F)

abbrev pub predicate_values : Dict Bytes Predicate
predicate_values =
    (codes "max_issuer_weight", max_issuer_weight)
    ∷ (codes "max_position_weight", max_position_weight)
    ∷ (codes "max_maturity_years", max_maturity_years)
    ∷ (codes "permitted_currencies", permitted_currencies)
    ∷ (codes "permitted_asset_categories", permitted_asset_categories)
    ∷ (codes "min_rating", min_rating)
    ∷ []

-- `Predicate(predicate_name)`
unfoldable pub predicate_of : Bytes → Option Predicate
unfolding get
predicate_of name = get name predicate_values

-- The shapes of a limit: `_NUMERIC`, `_MEMBERSHIP`, `_SCALAR_TEXT`.
pub data Shape : Type 0 where
  numeric : Shape
  membership : Shape
  scalar_text : Shape

abbrev pub shape_of : Predicate → Shape
shape_of max_issuer_weight = numeric
shape_of max_position_weight = numeric
shape_of max_maturity_years = numeric
shape_of permitted_currencies = membership
shape_of permitted_asset_categories = membership
shape_of min_rating = scalar_text

module _ {F : Type 0} (float_of_int : ℤ → Option F) where
  -- `document.get(key)`, `raw.get(key)`
  abbrev pub field_of : Bytes → Fields F → Option (Yaml F)
  field_of key end_fields = none
  field_of key (field k v fs) = let rest = field_of key fs in if k == key then some v else rest

  -- The text of a name that is not blank
  unfoldable pub name_of : Option (Yaml F) → Option Bytes
  unfolding strip
  name_of (some (text t)) = if is_empty (strip t) then none else some t
  name_of _ = none

  -- A list of texts, if all are
  unfoldable pub texts_of : Items F → Option (List Bytes)
  texts_of end_items = some []
  texts_of (item (text t) is) = elim (texts_of is) [ none ↦ none | some ts ↦ some (t ∷ ts) ]
  texts_of (item _ is) = none

  unfoldable pub numeric_limit : Yaml F → Result RuleFault (Limit F)
  numeric_limit (whole n) = elim (float_of_int n) [ none ↦ err too_large | some x ↦ ok (number x) ]
  numeric_limit (real x) = ok (number x)
  numeric_limit _ = err needs_number

  unfoldable pub membership_limit : Yaml F → Result RuleFault (Limit F)
  unfolding texts_of
  membership_limit (text t) = ok (labels (t ∷ []))
  membership_limit (sequence end_items) = err needs_list
  membership_limit (sequence (item y is)) = elim (texts_of (item y is)) [
    | none ↦ err needs_strings
    | some ts ↦ ok (labels ts)
  ]
  membership_limit _ = err needs_list

  unfoldable pub scalar_limit : Yaml F → Result RuleFault (Limit F)
  unfolding name_of
  scalar_limit value = elim (name_of (some value)) [
    | none ↦ err needs_string
    | some t ↦ ok (label t)
  ]

  -- `_limit`
  unfoldable pub limit_of : Yaml F → Shape → Result RuleFault (Limit F)
  unfolding numeric_limit membership_limit scalar_limit
  limit_of value numeric = numeric_limit value
  limit_of value membership = membership_limit value
  limit_of value scalar_text = scalar_limit value

  unfoldable pub predicate_in : Option (Yaml F) → Result RuleFault Predicate
  unfolding predicate_of
  predicate_in (some (text value)) = required unknown_predicate (predicate_of value)
  predicate_in _ = err unknown_predicate

  unfoldable pub limit_in : Shape → Option (Yaml F) → Result RuleFault (Limit F)
  unfolding limit_of
  limit_in shape none = err no_limit
  limit_in shape (some value) = limit_of value shape

  -- `_rule`, from the name on
  unfoldable pub named_rule : Fields F → Bytes → Result RuleFault (Rule F)
  unfolding predicate_in limit_in
  named_rule raw name = predicate_in (field_of (codes "predicate") raw) >>= λ predicate.
      limit_in (shape_of predicate) (field_of (codes "limit") raw) >>= λ limit.
      ok (record { name = name; predicate = predicate; limit = limit })

  -- `_rule`
  unfoldable pub rule_of : Yaml F → Result RuleFault (Rule F)
  unfolding name_of named_rule
  rule_of (mapping raw) =
      required rule_unnamed (name_of (field_of (codes "name") raw)) >>= named_rule raw
  rule_of _ = err rule_not_mapping

  -- The fault of a rule, with the number that the message names
  abbrev pub at_index : ℕ → Result RuleFault (Rule F) → Result MandateError (Rule F)
  at_index index (err fault) = err (at_rule index fault)
  at_index index (ok rule) = ok rule

  -- The loop, with the names that it has seen
  unfoldable pub load_rules : ℕ → List Bytes → Items F → Result MandateError (List (Rule F))
  unfolding rule_of
  load_rules index seen end_items = ok []
  load_rules index seen (item raw raws) = at_index index (rule_of raw) >>= λ rule.
      if any (λ name. name == rule.name) seen
      then err (two_rules_named rule.name)
      else (load_rules (suc index) (rule.name ∷ seen) raws >>= λ rules. ok (rule ∷ rules))

  -- From the name on
  unfoldable pub load_named_set : Bytes → Option (Yaml F) → Result MandateError (RuleSet F)
  unfolding load_rules
  load_named_set name (some (sequence (item raw raws))) =
      load_rules 1 [] (item raw raws) >>= λ rules. ok (record { name = name; rules = rules })
  load_named_set name _ = err no_rules

  -- `load_ruleset` of what the file holds, none where it is not readable as YAML
  unfoldable pub load_ruleset : Option (Yaml F) → Result MandateError (RuleSet F)
  unfolding name_of load_named_set
  load_ruleset none = err not_yaml
  load_ruleset (some (mapping document)) =
      required unnamed (name_of (field_of (codes "name") document)) >>= λ name.
      load_named_set name (field_of (codes "rules") document)
  load_ruleset (some _) = err not_mapping
