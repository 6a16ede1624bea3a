-- ===== src/Compliance/Loader/Whole.antt =====
-- A mandate is loaded whole, and a loaded mandate can always be tested.
use treble_tracker.Prelude.{
  ℕ, suc, List, [], ◌∷◌, Option, none, some, Bool, true, false, Result, ok, err, ◌>>=◌, required,
  >>=-ok, bytes_eq, ◌==◌, if◌then◌else◌, any, ◌≡◌, refl, sym, ap, subst, All, arith, length,
}
use treble_tracker.Prelude.Int.{ℤ}
use treble_tracker.Prelude.Bytes.{Bytes, codes}
use treble_tracker.Compliance.Rules.{
  Builtins, Predicate, max_issuer_weight, max_position_weight, max_maturity_years,
  permitted_currencies, permitted_asset_categories, min_rating, Limit, LimitError, number, labels,
  label, Rule, Holding, limit_number, limit_labels, evaluate, evaluate_on, rating_test, label_test,
  run_rules,
}
use treble_tracker.Compliance.Rules.Passes.{ok_inj}
use treble_tracker.Compliance.Loader.{
  Yaml, null, flag, whole, real, text, sequence, mapping, other, Items, end_items, item, Fields,
  RuleSet, RuleFault, Shape, numeric, membership, scalar_text, shape_of, numeric_limit,
  membership_limit, scalar_limit, limit_of, limit_in, predicate_in, rule_unnamed, unnamed,
  two_rules_named, MandateError, needs_string, needs_strings, too_large, named_rule, rule_of,
  at_index, load_rules, load_named_set, load_ruleset, field_of, name_of, texts_of,
}

module _ {F : Type 0} where
  -- A limit is of the kind that the predicate reads.
  abbrev pub fits : Shape → Limit F → Bool
  fits numeric (number x) = true
  fits membership (labels ts) = true
  fits scalar_text (label t) = true
  fits _ _ = false

  module _ (py : Builtins F) where
    -- The call does not raise.
    abbrev pub Returns : {A : Type 0} → Result LimitError A → Type 0
    Returns {A} result = (a : A) × (result ≡ ok a)

    then_Returns :
        {A B : Type 0} (r : Result LimitError A) (f : A → Result LimitError B)
        → Returns r
        → ((a : A) → Returns (f a))
        → Returns (r >>= f)
    then_Returns (ok a) f h k = k a
    then_Returns (err e) f h k = cc

    number_Returns : (l : Limit F) → fits numeric l ≡ true → Returns (limit_number py l)
    number_Returns (number x) h = (x, refl)
    number_Returns (labels ts) h = absurd (ground (arith, h))
    number_Returns (label t) h = absurd (ground (arith, h))

    labels_Returns : (l : Limit F) → fits numeric l ≡ false → Returns (limit_labels py l)
    labels_Returns (number x) n = absurd (ground (arith, n))
    labels_Returns (labels ts) n = (_, refl)
    labels_Returns (label t) n = (_, refl)

    label_test-Returns :
        (r : Rule F) (currencies : Bool) (hs : List (Holding F))
        → fits numeric r.limit ≡ false
        → Returns (label_test py r currencies hs)
    unfolding label_test
    label_test-Returns r currencies hs n =
        then_Returns (limit_labels py r.limit) _ (labels_Returns r.limit n) (λ ps. (_, refl))

    if_Returns :
        {A : Type 0} (b : Bool) (u v : Result LimitError A)
        → Returns u
        → Returns v
        → Returns (if b then u else v)
    if_Returns true u v h k = h
    if_Returns false u v h k = k

    membership_labels : (l : Limit F) → fits membership l ≡ true → fits numeric l ≡ false
    membership_labels (number x) h = absurd (ground (arith, h))
    membership_labels (labels ts) h = refl
    membership_labels (label t) h = refl

    scalar_labels : (l : Limit F) → fits scalar_text l ≡ true → fits numeric l ≡ false
    scalar_labels (number x) h = absurd (ground (arith, h))
    scalar_labels (labels ts) h = refl
    scalar_labels (label t) h = refl

    evaluate_on-Returns :
        (r : Rule F) (today : ℕ) (hs : List (Holding F)) (p : Predicate)
        → fits (shape_of p) r.limit ≡ true
        → Returns (evaluate_on py r today hs p)
    unfolding evaluate_on rating_test
    evaluate_on-Returns r today hs max_issuer_weight h =
        then_Returns (limit_number py r.limit) _ (number_Returns r.limit h) (λ x. (_, refl))
    evaluate_on-Returns r today hs max_position_weight h =
        then_Returns (limit_number py r.limit) _ (number_Returns r.limit h) (λ x. (_, refl))
    evaluate_on-Returns r today hs max_maturity_years h =
        then_Returns (limit_number py r.limit) _ (number_Returns r.limit h) (λ x. (_, refl))
    evaluate_on-Returns r today hs permitted_currencies h =
        label_test-Returns r true hs (membership_labels r.limit h)
    evaluate_on-Returns r today hs permitted_asset_categories h =
        label_test-Returns r false hs (membership_labels r.limit h)
    evaluate_on-Returns r today hs min_rating h =
        if_Returns _ _ _ (label_test-Returns r false hs (scalar_labels r.limit h)) (_, refl)

    evaluate-Returns :
        (r : Rule F) (hs : List (Holding F)) (today : ℕ)
        → fits (shape_of r.predicate) r.limit ≡ true
        → Returns (evaluate py r hs today)
    unfolding evaluate
    evaluate-Returns r [] today h = (_, refl)
    evaluate-Returns r (k ∷ hs) today h = evaluate_on-Returns r today (k ∷ hs) r.predicate h

    run_rules-Returns :
        (rs : List (Rule F)) (hs : List (Holding F)) (today : ℕ)
        → All (λ r. fits (shape_of r.predicate) r.limit ≡ true) rs
        → Returns (run_rules py rs hs today)
    unfolding run_rules
    run_rules-Returns [] hs today h = ([], refl)
    run_rules-Returns (r ∷ rs) hs today h =
        then_Returns (evaluate py r hs today) _ (evaluate-Returns r hs today h.0) (λ v.
          then_Returns (run_rules py rs hs today) _ (run_rules-Returns rs hs today h.1)
            (λ vs. (_, refl)))

  module _ (float_of_int : ℤ → Option F) where
    made-fits :
        {E : Type 0} (s : Shape) (a l : Limit F)
        → ◌≡◌ {A = Result E (Limit F)} (ok a) (ok l)
        → fits s a ≡ true
        → fits s l ≡ true
    made-fits s a l h f = subst (λ m. fits s m ≡ true) (sym (ok_inj a l h)) f

    option-fits :
        {A : Type 0} (s : Shape) (o : Option A) (f : A → Limit F) (e : RuleFault) (l : Limit F)
        → ((elim o as (λ _. Result RuleFault (Limit F)) [ none ↦ err e | some a ↦ ok (f a) ])
            ≡ ok l)
        → ((a : A) → fits s (f a) ≡ true)
        → fits s l ≡ true
    option-fits s none f e l h k = cc
    option-fits s (some a) f e l h k = made-fits s (f a) l h (k a)

    numeric_limit-fits :
        (v : Yaml F) (l : Limit F) → numeric_limit float_of_int v ≡ ok l → fits numeric l ≡ true
    unfolding numeric_limit
    numeric_limit-fits null l h = cc
    numeric_limit-fits (flag b) l h = cc
    numeric_limit-fits (whole n) l h =
        option-fits numeric (float_of_int n) number too_large l h (λ x. refl)
    numeric_limit-fits (real x) l h = made-fits numeric (number x) l h refl
    numeric_limit-fits (text t) l h = cc
    numeric_limit-fits (sequence is) l h = cc
    numeric_limit-fits (mapping fs) l h = cc
    numeric_limit-fits other l h = cc

    membership_limit-fits :
        (v : Yaml F) (l : Limit F)
        → membership_limit float_of_int v ≡ ok l
        → fits membership l ≡ true
    unfolding membership_limit
    membership_limit-fits null l h = cc
    membership_limit-fits (flag b) l h = cc
    membership_limit-fits (whole n) l h = cc
    membership_limit-fits (real x) l h = cc
    membership_limit-fits (text t) l h = made-fits membership (labels (t ∷ [])) l h refl
    membership_limit-fits (sequence end_items) l h = cc
    membership_limit-fits (sequence (item y is)) l h =
        option-fits membership (texts_of float_of_int (item y is)) labels needs_strings l h
          (λ ts. refl)
    membership_limit-fits (mapping fs) l h = cc
    membership_limit-fits other l h = cc

    scalar_limit-fits :
        (v : Yaml F) (l : Limit F) → scalar_limit float_of_int v ≡ ok l → fits scalar_text l ≡ true
    unfolding scalar_limit
    scalar_limit-fits v l h =
        option-fits scalar_text (name_of float_of_int (some v)) label needs_string l h (λ t. refl)

    limit_of-fits :
        (v : Yaml F) (s : Shape) (l : Limit F) → limit_of float_of_int v s ≡ ok l → fits s l ≡ true
    unfolding limit_of
    limit_of-fits v numeric l h = numeric_limit-fits v l h
    limit_of-fits v membership l h = membership_limit-fits v l h
    limit_of-fits v scalar_text l h = scalar_limit-fits v l h

    limit_in-fits :
        (s : Shape) (o : Option (Yaml F)) (l : Limit F)
        → limit_in float_of_int s o ≡ ok l
        → fits s l ≡ true
    unfolding limit_in
    limit_in-fits s none l h = cc
    limit_in-fits s (some v) l h = limit_of-fits v s l h

    -- A rule that `evaluate` can read.
    abbrev pub IsReadable : Rule F → Type 0
    IsReadable r = fits (shape_of r.predicate) r.limit ≡ true

    named_rule-IsReadable :
        (raw : Fields F) (name : Bytes) (r : Rule F)
        → named_rule float_of_int raw name ≡ ok r
        → IsReadable r
    unfolding named_rule
    named_rule-IsReadable raw name r h =
        let p =
          >>=-ok (predicate_in float_of_int (field_of float_of_int (codes "predicate") raw)) _ h in
        let l =
          >>=-ok (limit_in float_of_int (shape_of p.0) (field_of float_of_int (codes "limit") raw))
            _ p.2 in
        subst IsReadable (sym (ok_inj _ r l.2)) (limit_in-fits (shape_of p.0) _ l.0 l.1)

    rule_of-IsReadable :
        (raw : Yaml F) (r : Rule F) → rule_of float_of_int raw ≡ ok r → IsReadable r
    unfolding rule_of
    rule_of-IsReadable (mapping raw) r h =
        let n =
          >>=-ok
            (required rule_unnamed
              (name_of float_of_int (field_of float_of_int (codes "name") raw)))
            _ h in
        named_rule-IsReadable raw n.0 r n.2
    rule_of-IsReadable null r h = cc
    rule_of-IsReadable (flag b) r h = cc
    rule_of-IsReadable (whole n) r h = cc
    rule_of-IsReadable (real x) r h = cc
    rule_of-IsReadable (text t) r h = cc
    rule_of-IsReadable (sequence is) r h = cc
    rule_of-IsReadable other r h = cc

    at_index-ok :
        (i : ℕ) (made : Result RuleFault (Rule F)) (r : Rule F)
        → at_index float_of_int i made ≡ ok r
        → made ≡ ok r
    at_index-ok i (ok a) r h = ap ok (sym (ok_inj a r h))
    at_index-ok i (err fault) r h = cc

    -- The entries of a list.
    abbrev pub entries : Items F → ℕ
    entries end_items = 0
    entries (item raw raws) = suc (entries raws)

    -- No name stands among the names before it.
    abbrev pub IsFresh : List Bytes → List (Rule F) → Type 0
    IsFresh seen [] = Unit
    IsFresh seen (r ∷ rs) = (any (λ name. name == r.name) seen ≡ false) × IsFresh (r.name ∷ seen) rs

    unrepeated :
        (twice : Bool) (e : MandateError) (rest : Result MandateError (List (Rule F)))
        (rs : List (Rule F))
        → (if twice then err e else rest) ≡ ok rs
        → (twice ≡ false) × (rest ≡ ok rs)
    unrepeated true e rest rs h = cc
    unrepeated false e rest rs h = (refl, h)

    -- What the loop returns: one rule for each entry, each readable, under different names.
    abbrev IsLoaded : List Bytes → Items F → List (Rule F) → Type 0
    IsLoaded seen raws rs = (length rs ≡ entries raws) × IsFresh seen rs × All IsReadable rs

    load_rules-IsLoaded :
        (i : ℕ) (seen : List Bytes) (raws : Items F) (rs : List (Rule F))
        → load_rules float_of_int i seen raws ≡ ok rs
        → IsLoaded seen raws rs
    unfolding load_rules
    load_rules-IsLoaded i seen end_items rs h =
        subst (IsLoaded seen end_items) (sym (ok_inj [] rs h)) (refl, tt, tt)
    load_rules-IsLoaded i seen (item raw raws) rs h =
        let a = >>=-ok (at_index float_of_int i (rule_of float_of_int raw)) _ h in
        let b =
          unrepeated (any (λ name. name == (a.0).name) seen) (two_rules_named (a.0).name)
            (load_rules float_of_int (suc i) ((a.0).name ∷ seen) raws >>= λ rules. ok (a.0 ∷ rules))
            rs a.2 in
        let c =
          >>=-ok (load_rules float_of_int (suc i) ((a.0).name ∷ seen) raws)
            (λ rules. ok (a.0 ∷ rules)) b.1 in
        let rest = load_rules-IsLoaded (suc i) ((a.0).name ∷ seen) raws c.0 c.1 in
        subst (IsLoaded seen (item raw raws)) (sym (ok_inj (a.0 ∷ c.0) rs c.2)) (
          ap suc rest.0,
          (b.0, rest.1),
          (rule_of-IsReadable raw a.0 (at_index-ok i (rule_of float_of_int raw) a.0 a.1), rest.2),
        )

    -- The file is a mapping whose rules are a list, and they are all there.
    abbrev pub IsWhole : Option (Yaml F) → RuleSet F → Type 0
    IsWhole file set =
        (document : Fields F) × (raw : Yaml F) × (raws : Items F) × (file ≡ some (mapping document))
        × (field_of float_of_int (codes "rules") document ≡ some (sequence (item raw raws)))
        × (length set.rules ≡ suc (entries raws))
        × IsFresh [] set.rules
        × All IsReadable set.rules

    named_set-IsWhole :
        (name : Bytes) (document : Fields F) (rules : Option (Yaml F)) (set : RuleSet F)
        → field_of float_of_int (codes "rules") document ≡ rules
        → load_named_set float_of_int name rules ≡ ok set
        → IsWhole (some (mapping document)) set
    unfolding load_named_set
    named_set-IsWhole name document none set f h = cc
    named_set-IsWhole name document (some null) set f h = cc
    named_set-IsWhole name document (some (flag b)) set f h = cc
    named_set-IsWhole name document (some (whole n)) set f h = cc
    named_set-IsWhole name document (some (real x)) set f h = cc
    named_set-IsWhole name document (some (text t)) set f h = cc
    named_set-IsWhole name document (some (mapping fs)) set f h = cc
    named_set-IsWhole name document (some other) set f h = cc
    named_set-IsWhole name document (some (sequence end_items)) set f h = cc
    named_set-IsWhole name document (some (sequence (item raw raws))) set f h =
        let a = >>=-ok (load_rules float_of_int 1 [] (item raw raws)) _ h in
        let l = load_rules-IsLoaded 1 [] (item raw raws) a.0 a.1 in
        subst (IsWhole (some (mapping document))) (sym (ok_inj _ set a.2))
          (document, raw, raws, refl, f, l.0, l.1, l.2)

    -- A file that loads is a mapping with a list of at least one rule, and the rule set has a rule
    -- for each of the entries, under different names, each with a limit of the kind that its
    -- predicate reads.
    pub loaded-IsWhole :
        (file : Option (Yaml F)) (set : RuleSet F)
        → load_ruleset float_of_int file ≡ ok set
        → IsWhole file set
    unfolding load_ruleset
    loaded-IsWhole none set h = cc
    loaded-IsWhole (some (mapping document)) set h =
        let n =
          >>=-ok
            (required unnamed
              (name_of float_of_int (field_of float_of_int (codes "name") document)))
            _ h in
        named_set-IsWhole n.0 document _ set refl n.2
    loaded-IsWhole (some null) set h = cc
    loaded-IsWhole (some (flag b)) set h = cc
    loaded-IsWhole (some (whole n)) set h = cc
    loaded-IsWhole (some (real x)) set h = cc
    loaded-IsWhole (some (text t)) set h = cc
    loaded-IsWhole (some (sequence is)) set h = cc
    loaded-IsWhole (some other) set h = cc

    -- A run of a rule set that was loaded returns a report, whatever the holdings are.
    pub loaded_runs :
        (py : Builtins F) (file : Option (Yaml F)) (set : RuleSet F) (hs : List (Holding F))
        (today : ℕ)
        → load_ruleset float_of_int file ≡ ok set
        → Returns py (run_rules py set.rules hs today)
    loaded_runs py file set hs today h =
        run_rules-Returns py set.rules hs today (loaded-IsWhole file set h).7
