-- ===== src/Compliance/Rules/Clean.antt =====
-- A run of a whole rule set: no rule is skipped, and a clean report is one on which every rule passed.
use treble_tracker.Prelude.{
  ℕ, List, [], ◌∷◌, Bool, true, false, Result, ok, ◌>>=◌, >>=-ok, ◌≡◌, refl, ◌∙◌, ap, subst, ◌↔◌,
  All, all, map, if◌then◌else◌, arith,
}
use treble_tracker.Prelude.Bytes.{Bytes}
use treble_tracker.Compliance.Rules.{
  Builtins, Predicate, max_issuer_weight, max_position_weight, max_maturity_years,
  permitted_currencies, permitted_asset_categories, min_rating, Outcome, Offender, LimitError,
  limit_number, limit_labels, weight_verdict, issuer_test, position_test, maturity_verdict,
  maturity_test, label_verdict, pass, breach, not_evaluable, Holding, Rule, RuleResult, is_pass,
  is_clean, evaluate, evaluate_on, rating_test, label_test, run_rules,
}
use treble_tracker.Compliance.Rules.Passes.{Passes, ok_inj}

outcome_iff :
    (o : Outcome)
    → ((elim o [ pass ↦ true | breach ↦ false | not_evaluable ↦ false ]) ≡ true) ↔ (o ≡ pass)
outcome_iff pass = (λ _. refl, λ _. refl)
outcome_iff breach = (λ h. absurd (ground (arith, h)), λ h. cc)
outcome_iff not_evaluable = (λ h. absurd (ground (arith, h)), λ h. cc)

is_pass_iff : {F : Type 0} (v : RuleResult F) → (is_pass v ≡ true) ↔ (v.outcome ≡ pass)
is_pass_iff v = outcome_iff v.outcome

module _ {F : Type 0} (py : Builtins F) where
  weight_verdict-rule :
      (r : Rule F) (x : F) (bs : List (Offender F)) → (weight_verdict py r x bs).rule ≡ r
  unfolding weight_verdict
  weight_verdict-rule r x [] = refl
  weight_verdict-rule r x (b ∷ bs) = refl

  if-rule :
      (r : Rule F) (b : Bool) (u v : RuleResult F)
      → u.rule ≡ r
      → v.rule ≡ r
      → (if b then u else v).rule ≡ r
  if-rule r true u v h k = h
  if-rule r false u v h k = k

  issuer_test-rule : (r : Rule F) (x : F) (hs : List (Holding F)) → (issuer_test py r x hs).rule ≡ r
  unfolding issuer_test
  issuer_test-rule r x hs = if-rule r _ _ _ refl (weight_verdict-rule r x _)

  position_test-rule :
      (r : Rule F) (x : F) (hs : List (Holding F)) → (position_test py r x hs).rule ≡ r
  unfolding position_test
  position_test-rule r x hs = weight_verdict-rule r x _

  maturity_verdict-rule :
      (r : Rule F) (x : F) (others : ℕ) (due missing late : List (Holding F))
      → (maturity_verdict py r x others due missing late).rule ≡ r
  unfolding maturity_verdict
  maturity_verdict-rule r x others due (m ∷ ms) late = refl
  maturity_verdict-rule r x others due [] (b ∷ late) = refl
  maturity_verdict-rule r x others due [] [] = refl

  maturity_test-rule :
      (r : Rule F) (x : F) (today : ℕ) (hs : List (Holding F))
      → (maturity_test py r x today hs).rule ≡ r
  unfolding maturity_test
  maturity_test-rule r x today hs = if-rule r _ _ _ refl (maturity_verdict-rule r x _ _ _ _)

  label_verdict-rule :
      (r : Rule F) (currencies : Bool) (ps : List Bytes) (missing strangers : List (Holding F))
      → (label_verdict py r currencies ps missing strangers).rule ≡ r
  unfolding label_verdict
  label_verdict-rule r currencies ps (m ∷ ms) strangers = refl
  label_verdict-rule r currencies ps [] (b ∷ bs) = refl
  label_verdict-rule r currencies ps [] [] = refl

  -- A result that is there is of the rule.
  abbrev Keeps : Rule F → Result LimitError (RuleResult F) → Type 0
  Keeps r result = (v : RuleResult F) → result ≡ ok v → v.rule ≡ r

  ok-Keeps : (r : Rule F) (u : RuleResult F) → u.rule ≡ r → Keeps r (ok u)
  ok-Keeps r u h v e = ap (λ (w : RuleResult F). w.rule) (ok_inj u v e) ∙ h

  after-Keeps :
      {A : Type 0} (r : Rule F) (limit : Result LimitError A) (test : A → RuleResult F)
      → ((a : A) → (test a).rule ≡ r)
      → Keeps r (limit >>= λ a. ok (test a))
  after-Keeps r limit test k v e =
      let s = >>=-ok limit (λ a. ok (test a)) e in ok-Keeps r (test s.0) (k s.0) v s.2

  label_test-Keeps :
      (r : Rule F) (currencies : Bool) (hs : List (Holding F))
      → Keeps r (label_test py r currencies hs)
  unfolding label_test
  label_test-Keeps r currencies hs =
      after-Keeps r (limit_labels py r.limit) (λ ps. label_verdict py r currencies ps _ _)
        (λ ps. label_verdict-rule r currencies ps _ _)

  if-Keeps :
      (r : Rule F) (b : Bool) (u v : Result LimitError (RuleResult F))
      → Keeps r u
      → Keeps r v
      → Keeps r (if b then u else v)
  if-Keeps r true u v h k = h
  if-Keeps r false u v h k = k

  evaluate_on-Keeps :
      (r : Rule F) (today : ℕ) (hs : List (Holding F)) (p : Predicate)
      → Keeps r (evaluate_on py r today hs p)
  unfolding evaluate_on rating_test
  evaluate_on-Keeps r today hs max_issuer_weight =
      after-Keeps r (limit_number py r.limit) (λ x. issuer_test py r x hs)
        (λ x. issuer_test-rule r x hs)
  evaluate_on-Keeps r today hs max_position_weight =
      after-Keeps r (limit_number py r.limit) (λ x. position_test py r x hs)
        (λ x. position_test-rule r x hs)
  evaluate_on-Keeps r today hs max_maturity_years =
      after-Keeps r (limit_number py r.limit) (λ x. maturity_test py r x today hs)
        (λ x. maturity_test-rule r x today hs)
  evaluate_on-Keeps r today hs permitted_currencies = label_test-Keeps r true hs
  evaluate_on-Keeps r today hs permitted_asset_categories = label_test-Keeps r false hs
  evaluate_on-Keeps r today hs min_rating =
      if-Keeps r _ _ _ (label_test-Keeps r false hs) (ok-Keeps r _ refl)

  evaluate-rule :
      (r : Rule F) (today : ℕ) (hs : List (Holding F)) → Keeps r (evaluate py r hs today)
  unfolding evaluate
  evaluate-rule r today [] = ok-Keeps r _ refl
  evaluate-rule r today (h ∷ hs) = evaluate_on-Keeps r today (h ∷ hs) r.predicate

  -- The run returned a report, and it is clean.
  abbrev pub RunsClean : List (Rule F) → List (Holding F) → ℕ → Type 0
  RunsClean rs hs today =
      (vs : List (RuleResult F)) × (run_rules py rs hs today ≡ ok vs) × (is_clean vs ≡ true)

  -- A report is clean exactly if every rule of the set was tested and passed.
  pub clean_iff :
      (rs : List (Rule F)) (hs : List (Holding F)) (today : ℕ)
      → RunsClean rs hs today ↔ All (λ r. Passes py (evaluate py r hs today)) rs
  unfolding run_rules is_clean
  clean_iff [] hs today = (λ _. tt, λ _. ([], refl, refl))
  clean_iff (r ∷ rs) hs today =
      let rest = clean_iff rs hs today in
      (
        λ k.
            let a =
              >>=-ok (evaluate py r hs today) (λ v. run_rules py rs hs today >>= λ vs. ok (v ∷ vs))
                k.1 in
            let b = >>=-ok (run_rules py rs hs today) (λ vs. ok (a.0 ∷ vs)) a.2 in
            let whole = subst (λ vs. all is_pass vs ≡ true) (ok_inj (a.0 ∷ b.0) k.0 b.2) k.2 in
            (
              (a.0, a.1, (is_pass_iff a.0).0 (ground (arith, whole))),
              rest.0 (b.0, b.1, ground (arith, whole)),
            ),
        λ k.
            let v = k.0 in
            let c = rest.1 k.1 in (v.0 ∷ c.0, rw (v.1, c.1) refl, rw ((is_pass_iff v.0).1 v.2) c.2),
      )

  -- Every rule of the set has its own result in the report, in order.
  pub run_skips_nothing :
      (rs : List (Rule F)) (hs : List (Holding F)) (today : ℕ) (vs : List (RuleResult F))
      → run_rules py rs hs today ≡ ok vs
      → map (λ v. v.rule) vs ≡ rs
  unfolding run_rules
  run_skips_nothing [] hs today vs h = ap (map (λ v. v.rule)) (ok_inj [] vs h)
  run_skips_nothing (r ∷ rs) hs today vs h =
      let a =
        >>=-ok (evaluate py r hs today) (λ v. run_rules py rs hs today >>= λ vs. ok (v ∷ vs)) h in
      let b = >>=-ok (run_rules py rs hs today) (λ vs. ok (a.0 ∷ vs)) a.2 in
      ap (map (λ v. v.rule)) (ok_inj (a.0 ∷ b.0) vs b.2)
      ∙ rw (evaluate-rule r today hs a.0 a.1, run_skips_nothing rs hs today b.0 b.1) refl
