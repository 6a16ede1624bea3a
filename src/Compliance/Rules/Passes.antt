-- ===== src/Compliance/Rules/Passes.antt =====
-- When a rule passes: the code's verdicts against what the mandate asks of each holding.
use treble_tracker.Prelude.{
  ℕ, List, [], ◌∷◌, is_empty, Option, Bool, true, false, not, Result, ok, bytes_eq, is_some,
  keep_if, ◌≡◌, refl, ◌↔◌, ◌⊎◌, inl, inr, All, arith, Bool-cases,
}
use treble_tracker.Prelude.Bytes.{Bytes}
use treble_tracker.Compliance.Rules.{
  Builtins, Predicate, max_issuer_weight, max_position_weight, max_maturity_years,
  permitted_currencies, permitted_asset_categories, min_rating, pass, Holding, Rule, RuleResult,
  LimitError, matures, lacking, labelled_by, total_value, limit_number, limit_labels, grouped, over,
  largest_issuer, unattributed, matures_beyond, is_outside,
}

keep_none :
    {A : Type 0} (test : A → Bool) (xs : List A)
    → (is_empty (keep_if test xs) ≡ true) ↔ All (λ x. test x ≡ false) xs
keep_none test [] = (λ _. tt, λ _. refl)
keep_none test (x ∷ xs) = elim (Bool-cases (test x)) [
  | inl kept ↦ (λ h. absurd (ground (arith, h, kept)), λ k. absurd (ground (arith, k.0, kept)))
  | inr gone ↦ (
    λ h. (gone, (keep_none test xs).0 (ground (arith, h, gone))),
    λ k. ground (arith, gone, (keep_none test xs).1 k.1),
  )
]

All-map {ℓ κ} :
    {A : Type 0} (P : A → Type ℓ) (Q : A → Type κ) (xs : List A)
    → ((x : A) → P x → Q x)
    → All P xs
    → All Q xs
All-map P Q [] f h = tt
All-map P Q (x ∷ xs) f h = (f x h.0, All-map P Q xs f h.1)

pub ok_inj {ℓ} : {E A : Type ℓ} (a : A) (b : A) → ◌≡◌ {A = Result E A} (ok a) (ok b) → b ≡ a
ok_inj a b h = cc

module _ {F : Type 0} (py : Builtins F) where
  -- No position is above the limit.
  abbrev pub PositionsFit : F → List (Holding F) → Type 0
  PositionsFit limit hs = All (λ h. over py limit (total_value py hs) h.market_value ≡ false) hs

  -- Some holding matures, and each of those has a maturity within the limit.
  abbrev pub MaturitiesFit : F → ℕ → List (Holding F) → Type 0
  MaturitiesFit limit today hs =
      (is_empty (keep_if matures hs) ≡ false)
      × All (λ h. (is_some h.maturity ≡ true) × (matures_beyond py limit today h ≡ false))
          (keep_if matures hs)

  unnegated : (b : Bool) → (not b ≡ false) ↔ (b ≡ true)
  unnegated b = ground arith

  -- Nothing is lacking.
  pub lacking_none :
      {A : Type 0} (field : Holding F → Option A) (hs : List (Holding F))
      → (is_empty (lacking field hs) ≡ true) ↔ All (λ h. is_some (field h) ≡ true) hs
  lacking_none field hs =
      let k = keep_none (λ h. not (is_some (field h))) hs in
      (
        λ h.
            All-map (λ u. not (is_some (field u)) ≡ false) (λ u. is_some (field u) ≡ true) hs
              (λ u. (unnegated (is_some (field u))).0) (k.0 h),
        λ h. k.1 (
            All-map (λ u. is_some (field u) ≡ true) (λ u. not (is_some (field u)) ≡ false) hs
              (λ u. (unnegated (is_some (field u))).1) h),
      )

  -- Every holding has a label, and it is one of the permitted.
  abbrev pub LabelsFit : Bool → List Bytes → List (Holding F) → Type 0
  LabelsFit currencies permitted hs =
      All
        (λ h.
          (is_some (labelled_by currencies h) ≡ true)
          × (is_outside py currencies permitted h ≡ false))
        hs

  -- No issuer is above the limit, and none can get there through the holdings without an issuer.
  abbrev pub IssuersFit : F → List (Holding F) → Type 0
  IssuersFit limit hs =
      All (λ g. over py limit (total_value py hs) g.1 ≡ false) (grouped py hs)
      × (All (λ h. is_some h.issuer ≡ true) hs
          ⊎ (py.ops.lt limit (
                py.ops.add (largest_issuer py (total_value py hs) hs)
                  (unattributed py (total_value py hs) hs))
              ≡ false))

  -- What a rule asks of the holdings, and that its limit is of the right kind.
  abbrev pub Complies : Rule F → ℕ → List (Holding F) → Predicate → Type 0
  Complies r today hs max_issuer_weight =
      (x : F) × (limit_number py r.limit ≡ ok x) × IssuersFit x hs
  Complies r today hs max_position_weight =
      (x : F) × (limit_number py r.limit ≡ ok x) × PositionsFit x hs
  Complies r today hs max_maturity_years =
      (x : F) × (limit_number py r.limit ≡ ok x) × MaturitiesFit x today hs
  Complies r today hs permitted_currencies =
      (ps : List Bytes) × (limit_labels py r.limit ≡ ok ps) × LabelsFit true ps hs
  Complies r today hs permitted_asset_categories =
      (ps : List Bytes) × (limit_labels py r.limit ≡ ok ps) × LabelsFit false ps hs
  Complies r today hs min_rating =
      All (λ h. is_some h.rating ≡ true) hs
      × ((ps : List Bytes) × (limit_labels py r.limit ≡ ok ps) × LabelsFit false ps hs)

  -- The call returned, and the rule passed.
  abbrev pub Passes : Result LimitError (RuleResult F) → Type 0
  Passes result = (v : RuleResult F) × (result ≡ ok v) × (v.outcome ≡ pass)
