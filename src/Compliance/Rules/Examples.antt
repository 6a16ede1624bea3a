-- ===== src/Compliance/Rules/Examples.antt =====
-- Two mandates on a portfolio of two bonds, in whole numbers.
use treble_tracker.Prelude.{
  ℕ, ◌+◌, ◌-◌, ◌*◌, ◌/◌, ◌≡◌, refl, List, [], ◌∷◌, Option, none, some, ltb, leb, nat_eqb, All, map,
}
use treble_tracker.Prelude.Int.{pos_part}
use treble_tracker.Prelude.Float.{FloatOps}
use treble_tracker.Prelude.Dict.{get, put}
use treble_tracker.Prelude.Bytes.{Bytes, codes}
use treble_tracker.Prelude.Bytes.Blank.{upper}
use treble_tracker.Prelude.Bytes.Order.{sort_by}
use treble_tracker.Compliance.Rules.{
  Builtins, max_issuer_weight, permitted_currencies, min_rating, Holding, Rule, RuleResult, number,
  labels, label, pass, all_within, permitted_only, evaluate, evaluate_on, run_rules, is_clean,
  issuer_test, label_test, label_verdict, weight_verdict, weight, grouped,
}
use treble_tracker.Compliance.Rules.Passes.{Passes}
use treble_tracker.Compliance.Rules.Clean.{clean_iff, run_skips_nothing}

abbrev pub add_up : List ℕ → ℕ
add_up [] = 0
add_up (x ∷ xs) = x + add_up xs

abbrev counts : FloatOps ℕ
counts = record {
  nought = 0;
  add = λ a b. a + b;
  sub = λ a b. a - b;
  mul = λ a b. a * b;
  div = λ a b. a * 1000 / b;
  abs = λ a. a;
  le = leb;
  lt = ltb;
  eq = nat_eqb;
}

-- A quotient is in thousandths, so a weight is in thousandths of a percent.
abbrev pub whole_numbers : Builtins ℕ
whole_numbers = record {
  ops = counts;
  hundred = 100;
  sum = add_up;
  float_of = λ t. none;
  years_of = λ days. pos_part days / 365;
  upper = upper;
}

abbrev bond : ℕ → Bytes → Option Bytes → Holding ℕ
bond value id issuer = record {
  identifier = id;
  market_value = value;
  issuer = issuer;
  maturity = some 730000;
  currency = some (codes "usd");
  asset_category = some (codes "DBT");
  rating = some (codes "A");
}

abbrev pub holdings : List (Holding ℕ)
holdings =
    bond 9 (codes "x") (some (codes "I"))
    ∷ bond 1 (codes "y") none
    ∷ bond 5 (codes "z") (some (codes "J"))
    ∷ []

abbrev issuer_rule : Rule ℕ
issuer_rule = record {
  name = codes "one issuer";
  predicate = max_issuer_weight;
  limit = number 70000;
}

abbrev dollar_rule : Rule ℕ
dollar_rule = record {
  name = codes "dollars";
  predicate = permitted_currencies;
  limit = labels (codes "USD" ∷ []);
}

abbrev floor_rule : Rule ℕ
floor_rule = record { name = codes "floor"; predicate = min_rating; limit = label (codes "BBB-") }

abbrev verdicts : List (RuleResult ℕ)
verdicts =
    record { rule = issuer_rule; outcome = pass; detail = all_within 70000; offenders = [] }
    ∷ record {
      rule = dollar_rule;
      outcome = pass;
      detail = permitted_only (codes "USD" ∷ []);
      offenders = [];
    }
    ∷ []

clean_iff_example :
    All
      (λ r. Passes whole_numbers (evaluate whole_numbers r holdings 0))
      (issuer_rule ∷ dollar_rule ∷ [])
unfolding run_rules evaluate evaluate_on issuer_test weight_verdict weight grouped sort_by get put
    label_test label_verdict is_clean
clean_iff_example =
    (clean_iff whole_numbers (issuer_rule ∷ dollar_rule ∷ []) holdings 0).0 (verdicts, refl, refl)

run_skips_nothing_case : map (λ v. v.rule) verdicts ≡ issuer_rule ∷ dollar_rule ∷ []
unfolding run_rules evaluate evaluate_on issuer_test weight_verdict weight grouped sort_by get put
    label_test label_verdict
run_skips_nothing_case =
    run_skips_nothing whole_numbers (issuer_rule ∷ dollar_rule ∷ []) holdings 0 verdicts refl
