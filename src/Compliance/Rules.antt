-- ===== src/Compliance/Rules.antt =====
-- treble/compliance/rules.py: `evaluate` of one rule, and `run` of a rule set.
pub mod Passes
pub mod Clean
pub mod Examples
use treble_tracker.Prelude.{
  ℕ, List, [], ◌∷◌, Option, none, some, Bool, true, false, ◌&&◌, not, Result, ok, err, ◌>>=◌,
  bytes_eq, ◌==◌, if◌then◌else◌, is_some, length, is_empty, any, all, keep_if, take, map, ◌-◌,
}
use treble_tracker.Prelude.Int.{ℤ, sub_ℕ}
use treble_tracker.Prelude.Float.{FloatOps}
use treble_tracker.Prelude.Dict.{Dict, get, put}
use treble_tracker.Prelude.Bytes.{Bytes, codes}
use treble_tracker.Prelude.Bytes.Order.{sort_by}

-- What the rules take from Python's built-ins: floats, the sum of a list of them, `float` of a
-- text (a `ValueError` where there is none), a number of days over 365.25, and `str.upper`.
pub record Builtins (F : Type 0) : Type 0 where
  pub ops : FloatOps F
  pub hundred : F
  pub sum : List F → F
  pub float_of : Bytes → Option F
  pub years_of : ℤ → F
  pub upper : Bytes → Bytes

pub data Predicate : Type 0 where
  max_issuer_weight : Predicate
  max_position_weight : Predicate
  max_maturity_years : Predicate
  permitted_currencies : Predicate
  permitted_asset_categories : Predicate
  min_rating : Predicate

pub data Outcome : Type 0 where
  pass : Outcome
  breach : Outcome
  not_evaluable : Outcome

-- A date is its ordinal.
pub record Holding (F : Type 0) : Type 0 where
  pub identifier : Bytes
  pub market_value : F
  pub issuer : Option Bytes
  pub maturity : Option ℕ
  pub currency : Option Bytes
  pub asset_category : Option Bytes
  pub rating : Option Bytes

pub data Limit (F : Type 0) : Type 0 where
  number : F → Limit F
  labels : List Bytes → Limit F
  label : Bytes → Limit F

pub record Rule (F : Type 0) : Type 0 where
  pub name : Bytes
  pub predicate : Predicate
  pub limit : Limit F

-- What a detail says, before it is put into words.
pub data Detail (F : Type 0) : Type 0 where
  no_holdings : Detail F
  unrated : ℕ → ℕ → Detail F
  unsettled : ℕ → F → F → F → Detail F
  above : ℕ → F → Detail F
  all_within : F → Detail F
  no_debt : ℕ → Detail F
  no_maturity : ℕ → ℕ → Detail F
  beyond : ℕ → F → ℕ → ℕ → Detail F
  none_beyond : F → ℕ → ℕ → Detail F
  no_label : ℕ → Bytes → Detail F
  outside : ℕ → List Bytes → Detail F
  permitted_only : List Bytes → Detail F

-- A position, with its weight or its label where the rule writes one.
pub data Offender (F : Type 0) : Type 0 where
  bare : Bytes → Offender F
  weighing : Bytes → F → Offender F
  labelled : Bytes → Bytes → Offender F

-- `Result` of rules.py
pub record RuleResult (F : Type 0) : Type 0 where
  pub rule : Rule F
  pub outcome : Outcome
  pub detail : Detail F
  pub offenders : List (Offender F)

-- What a limit of the wrong kind raises: a `TypeError`, or the `ValueError` of `float`.
pub data LimitError : Type 0 where
  type_error : LimitError
  value_error : LimitError

abbrev pub maturing_categories : List Bytes
maturing_categories =
    codes "DBT"
    ∷ codes "ABS-O"
    ∷ codes "ABS-MBS"
    ∷ codes "ABS-CBDO"
    ∷ codes "ABS-CDO"
    ∷ codes "ABS-ABS"
    ∷ []

abbrev pub text_or : Option Bytes → Bytes
text_or none = []
text_or (some t) = t

module _ {F : Type 0} where
  -- `_matures`
  unfoldable pub matures : Holding F → Bool
  matures h = elim h.asset_category [
    | none ↦ is_some h.maturity
    | some category ↦ any (λ c. category == c) maturing_categories
  ]

  -- The holdings that lack a field, and the first five of them for the report
  abbrev pub lacking : {A : Type 0} → (Holding F → Option A) → List (Holding F) → List (Holding F)
  lacking field hs = keep_if (λ h. not (is_some (field h))) hs

  abbrev pub first_five : List (Holding F) → List (Offender F)
  first_five hs = map (λ h. bare h.identifier) (take 5 hs)

  -- `getter`
  abbrev pub labelled_by : Bool → Holding F → Option Bytes
  labelled_by currencies h = if currencies then h.currency else h.asset_category

  module _ (py : Builtins F) where
    -- `_weight`
    unfoldable pub weight : F → F → F
    weight value total =
        if py.ops.le total py.ops.nought
        then py.ops.nought
        else py.ops.mul (py.ops.div value total) py.hundred

    abbrev pub total_value : List (Holding F) → F
    total_value hs = py.sum (map (λ h. h.market_value) hs)

    -- `float(rule.limit)`
    abbrev pub limit_number : Limit F → Result LimitError F
    limit_number (number x) = ok x
    limit_number (labels ts) = err type_error
    limit_number (label t) = elim (py.float_of t) [ none ↦ err value_error | some x ↦ ok x ]

    -- `tuple(str(v).upper() for v in rule.limit)`: the iteration over a text gives its letters.
    abbrev pub limit_labels : Limit F → Result LimitError (List Bytes)
    limit_labels (number x) = err type_error
    limit_labels (labels ts) = ok (map py.upper ts)
    limit_labels (label t) = ok (map (λ letter. py.upper (letter ∷ [])) t)

    -- `grouped`: the value of each issuer
    unfoldable pub grouped_from : Dict Bytes F → List (Holding F) → Dict Bytes F
    grouped_from d [] = d
    grouped_from d (h ∷ hs) = elim h.issuer [
      | none ↦ grouped_from d hs
      | some issuer ↦
          let held : F = elim (get issuer d) [ none ↦ py.ops.nought | some v ↦ v ] in
          grouped_from (put issuer (py.ops.add held h.market_value) d) hs
    ]

    unfoldable pub grouped : List (Holding F) → Dict Bytes F
    unfolding grouped_from
    grouped hs = grouped_from [] hs

    -- `max(weights, default=0.0)`
    abbrev pub largest_from : F → List F → F
    largest_from m [] = m
    largest_from m (x ∷ xs) = largest_from (if py.ops.lt m x then x else m) xs

    abbrev pub largest : List F → F
    largest [] = py.ops.nought
    largest (x ∷ xs) = largest_from x xs

    abbrev pub over : F → F → F → Bool
    over limit total value = py.ops.lt limit (weight value total)

    -- Those of the groups, in the order of the issuers, that are above the limit
    abbrev pub issuers_over : F → F → List (Holding F) → List (Bytes × F)
    issuers_over limit total hs =
        keep_if (λ g. over limit total g.1) (sort_by (λ g. g.0) (grouped hs))

    abbrev pub largest_issuer : F → List (Holding F) → F
    largest_issuer total hs = largest (map (λ g. weight g.1 total) (grouped hs))

    abbrev pub unattributed : F → List (Holding F) → F
    unattributed total hs = weight (total_value (lacking (λ h. h.issuer) hs)) total

    unfoldable pub weight_verdict : Rule F → F → List (Offender F) → RuleResult F
    weight_verdict rule limit [] = record {
      rule = rule;
      outcome = pass;
      detail = all_within limit;
      offenders = [];
    }
    weight_verdict rule limit (b ∷ bs) = record {
      rule = rule;
      outcome = breach;
      detail = above (length (b ∷ bs)) limit;
      offenders = b ∷ bs;
    }

    -- The branch of `MAX_ISSUER_WEIGHT`
    unfoldable pub issuer_test : Rule F → F → List (Holding F) → RuleResult F
    unfolding weight_verdict weight grouped sort_by
    issuer_test rule limit hs =
        let total = total_value hs in
        let missing = lacking (λ h. h.issuer) hs in
        let breaches = map (λ g. weighing g.0 (weight g.1 total)) (issuers_over limit total hs) in
        if is_empty breaches
          && not (is_empty missing)
          && py.ops.lt limit (py.ops.add (largest_issuer total hs) (unattributed total hs))
        then record {
          rule = rule;
          outcome = not_evaluable;
          detail =
              unsettled (length missing) (unattributed total hs) (largest_issuer total hs) limit;
          offenders = first_five missing;
        }
        else weight_verdict rule limit breaches

    -- The branch of `MAX_POSITION_WEIGHT`
    unfoldable pub position_test : Rule F → F → List (Holding F) → RuleResult F
    unfolding weight_verdict weight
    position_test rule limit hs =
        let total = total_value hs in
        weight_verdict rule limit (
          map (λ h. weighing h.identifier (weight h.market_value total))
            (keep_if (λ h. over limit total h.market_value) hs))

    -- `(h.maturity - today).days / 365.25 > limit`, of a holding that has a maturity
    abbrev pub matures_beyond : F → ℕ → Holding F → Bool
    matures_beyond limit today h = elim h.maturity [
      | none ↦ false
      | some day ↦ py.ops.lt limit (py.years_of (sub_ℕ day today))
    ]

    -- Of the holdings that mature, those without a maturity, those beyond the limit
    unfoldable pub maturity_verdict :
        Rule F → F → ℕ → List (Holding F) → List (Holding F) → List (Holding F) → RuleResult F
    maturity_verdict rule limit others applicable (m ∷ missing) late = record {
      rule = rule;
      outcome = not_evaluable;
      detail = no_maturity (length (m ∷ missing)) (length applicable);
      offenders = first_five (m ∷ missing);
    }
    maturity_verdict rule limit others applicable [] (b ∷ late) = record {
      rule = rule;
      outcome = breach;
      detail = beyond (length (b ∷ late)) limit (length applicable) others;
      offenders = map (λ h. bare h.identifier) (b ∷ late);
    }
    maturity_verdict rule limit others applicable [] [] = record {
      rule = rule;
      outcome = pass;
      detail = none_beyond limit (length applicable) others;
      offenders = [];
    }

    -- The branch of `MAX_MATURITY_YEARS`
    unfoldable pub maturity_test : Rule F → F → ℕ → List (Holding F) → RuleResult F
    unfolding matures maturity_verdict
    maturity_test rule limit today hs =
        let applicable = keep_if matures hs in
        if is_empty applicable
        then record {
          rule = rule;
          outcome = not_evaluable;
          detail = no_debt (length hs);
          offenders = [];
        }
        else maturity_verdict rule limit (length hs - length applicable) applicable
            (lacking (λ h. h.maturity) applicable) (keep_if (matures_beyond limit today) applicable)

    abbrev pub is_outside : Bool → List Bytes → Holding F → Bool
    is_outside currencies permitted h =
        not (any (λ p. py.upper (text_or (labelled_by currencies h)) == p) permitted)

    unfoldable pub label_verdict :
        Rule F → Bool → List Bytes → List (Holding F) → List (Holding F) → RuleResult F
    label_verdict rule currencies permitted (m ∷ missing) strangers = record {
      rule = rule;
      outcome = not_evaluable;
      detail =
          no_label (length (m ∷ missing))
            (if currencies then codes "currency" else codes "asset category");
      offenders = first_five (m ∷ missing);
    }
    label_verdict rule currencies permitted [] (b ∷ bs) = record {
      rule = rule;
      outcome = breach;
      detail = outside (length (b ∷ bs)) permitted;
      offenders = map (λ h. labelled h.identifier (text_or (labelled_by currencies h))) (b ∷ bs);
    }
    label_verdict rule currencies permitted [] [] = record {
      rule = rule;
      outcome = pass;
      detail = permitted_only permitted;
      offenders = [];
    }

    -- The end of `evaluate`, which every other predicate reaches
    unfoldable pub label_test : Rule F → Bool → List (Holding F) → Result LimitError (RuleResult F)
    unfolding label_verdict
    label_test rule currencies hs = limit_labels rule.limit >>= λ permitted. ok (
        label_verdict rule currencies permitted (lacking (labelled_by currencies) hs)
          (keep_if (is_outside currencies permitted) hs))

    -- The first check of `MIN_RATING`; it falls through once every holding is rated.
    unfoldable pub rating_test : Rule F → List (Holding F) → Result LimitError (RuleResult F)
    unfolding label_test
    rating_test rule hs =
        let bare_ones = lacking (λ h. h.rating) hs in
        if is_empty bare_ones
        then label_test rule false hs
        else ok (record {
          rule = rule;
          outcome = not_evaluable;
          detail = unrated (length bare_ones) (length hs);
          offenders = first_five bare_ones;
        })

    unfoldable pub evaluate_on :
        Rule F → ℕ → List (Holding F) → Predicate → Result LimitError (RuleResult F)
    unfolding issuer_test position_test maturity_test label_test rating_test
    evaluate_on rule today hs max_issuer_weight =
        limit_number rule.limit >>= λ limit. ok (issuer_test rule limit hs)
    evaluate_on rule today hs max_position_weight =
        limit_number rule.limit >>= λ limit. ok (position_test rule limit hs)
    evaluate_on rule today hs max_maturity_years =
        limit_number rule.limit >>= λ limit. ok (maturity_test rule limit today hs)
    evaluate_on rule today hs permitted_currencies = label_test rule true hs
    evaluate_on rule today hs permitted_asset_categories = label_test rule false hs
    evaluate_on rule today hs min_rating = rating_test rule hs

    unfoldable pub evaluate : Rule F → List (Holding F) → ℕ → Result LimitError (RuleResult F)
    unfolding evaluate_on
    evaluate rule [] today =
        ok (record { rule = rule; outcome = not_evaluable; detail = no_holdings; offenders = [] })
    evaluate rule (h ∷ hs) today = evaluate_on rule today (h ∷ hs) rule.predicate

    -- The results of `run`, one for each rule
    unfoldable pub run_rules :
        List (Rule F) → List (Holding F) → ℕ → Result LimitError (List (RuleResult F))
    unfolding evaluate
    run_rules [] hs today = ok []
    run_rules (r ∷ rs) hs today =
        evaluate r hs today >>= λ v. run_rules rs hs today >>= λ vs. ok (v ∷ vs)

  -- `Result.clean`
  abbrev pub is_pass : RuleResult F → Bool
  is_pass v = elim v.outcome [ pass ↦ true | breach ↦ false | not_evaluable ↦ false ]

  -- `Report.clean`
  unfoldable pub is_clean : List (RuleResult F) → Bool
  is_clean vs = all is_pass vs
