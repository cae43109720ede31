-- ===== src/JudgeEval/Validation/Reports.antt =====
-- judge_eval/validation.py: when a report is given and what it measures, and when two reports compare.
use evalstack.Prelude.{
  ℕ, ◌<◌, ◌≡◌, refl, ap, ◌∙◌, sym, String, Bool, true, false, not, ◌&&◌, Option, none, some, List,
  [], ◌∷◌, ◌++◌, length, length-map, is_empty, if◌then◌else◌, str_eq, eq_iff, ==_iff, ◌==◌, arith,
}
use evalstack.Prelude.Ratio.{Ratio}
use evalstack.JudgeEval.Agreement.Kappa.{Counts, agreement_report-Counts}
use evalstack.JudgeEval.Bias.{
  PositionBiasReport, position_bias, SelfPreferenceReport, self_preference,
}
use evalstack.JudgeEval.Gold.{GoldSet, verdicts}
use evalstack.JudgeEval.Validation.{
  JudgeIdentity, ValidationReport, position_of, preference_of, given, report_of, measure,
  validate_judge, Reason, fingerprint, comparable_to, differences_from,
}

-- The orders of a probe cover the same pairs.
abbrev pub SamePairs : Option (List String) → Option (List String) → List String → Type 0
SamePairs none forward verdicts = Unit
SamePairs (some swapped) none verdicts = length verdicts ≡ length swapped
SamePairs (some swapped) (some forward) verdicts = length forward ≡ length swapped

abbrev pub SameVerdicts : Option (List Bool) → List String → Type 0
SameVerdicts none verdicts = Unit
SameVerdicts (some flags) verdicts = length verdicts ≡ length flags

some_if :
    {A : Type 0} (b : Bool) (a : A) → b ≡ true → (r : A) × ((if b then some a else none) ≡ some r)
some_if b a h = (a, rw h refl)

position_given :
    (xs ys : List String)
    → length xs ≡ length ys
    → (r : PositionBiasReport) × (position_bias "a" "b" xs ys ≡ some r)
unfolding position_bias
position_given xs ys same = some_if _ _ ((==_iff (length xs) (length ys)).1 same)

position_of-given :
    (swapped forward : Option (List String)) (vs : List String)
    → SamePairs swapped forward vs
    → (o : Option PositionBiasReport) × (position_of swapped forward vs ≡ some o)
unfolding position_of
position_of-given none forward vs same = (none, refl)
position_of-given (some swapped) none vs same =
    let (r, e) = position_given vs swapped same in (some r, ap given e)
position_of-given (some swapped) (some forward) vs same =
    let (r, e) = position_given forward swapped same in (some r, ap given e)

preference_of-given :
    (flags : Option (List Bool)) (vs : List String)
    → SameVerdicts flags vs
    → (o : Option SelfPreferenceReport) × (preference_of flags vs ≡ some o)
unfolding preference_of self_preference
preference_of-given none vs same = (none, refl)
preference_of-given (some flags) vs same =
    let (r, e) =
      some_if (length vs == length flags) _ ((==_iff (length vs) (length flags)).1 same) in
    (some r, ap given e)

module _ (content_hash : GoldSet → String) (gold : GoldSet) (judge_verdicts : List String)
    (judge : JudgeIdentity) (threshold : Ratio) (swapped forward : Option (List String))
    (own_family_flags : Option (List Bool)) where
  abbrev validation : Option ValidationReport
  validation =
      validate_judge content_hash gold judge_verdicts judge threshold swapped forward
        own_family_flags

  -- For a gold set with examples, a verdict for each of them, orders that cover the same pairs and a
  -- flag for each verdict, there is a report; it is of that judge and that gold set, and its
  -- agreement counts the pairs of the human verdicts and the judge's.
  pub validate_judge-Counts :
      0 < length gold.examples
      → length judge_verdicts ≡ length gold.examples
      → SamePairs swapped forward judge_verdicts
      → SameVerdicts own_family_flags judge_verdicts
      → (r : ValidationReport) × (validation ≡ some r)
        × (r.judge ≡ judge)
        × (r.gold_hash ≡ content_hash gold)
        × Counts (verdicts gold) judge_verdicts r.agreement
  unfolding validate_judge measure verdicts
  validate_judge-Counts some_examples same pairs flags =
      let n : length (verdicts gold) ≡ length gold.examples =
        length-map gold.examples (λ e. e.human_verdict) in
      let (position, at_position) = position_of-given swapped forward judge_verdicts pairs in
      let (preference, at_preference) = preference_of-given own_family_flags judge_verdicts flags in
      let (agreement, at_agreement, counts) =
        agreement_report-Counts (verdicts gold) judge_verdicts (omega (arith, n)) (n ∙ sym same) in
      (
        report_of content_hash gold judge_verdicts judge threshold swapped forward own_family_flags
            position preference agreement,
        rw ((==_iff _ _).1 same, at_position, at_preference, at_agreement) refl,
        refl,
        refl,
        counts,
      )

no_reasons :
    (a b c d : Bool) (w x y z : Reason)
    → is_empty (
        (if not a then w ∷ [] else [])
        ++ (if not b then x ∷ [] else [])
        ++ (if not c then y ∷ [] else [])
        ++ (if not d then z ∷ [] else []))
      ≡ (a && b && c && d)
no_reasons false b c d w x y z = refl
no_reasons true false c d w x y z = refl
no_reasons true true false d w x y z = refl
no_reasons true true true false w x y z = refl
no_reasons true true true true w x y z = refl

-- The hash of an identity determines what it is of.
abbrev pub IsInjective : (String → String → ℕ → String) → Type 0
IsInjective hash =
    (m p m' p' : String) (t t' : ℕ) → hash m p t ≡ hash m' p' t' → (m ≡ m') × (p ≡ p') × (t ≡ t')

module _ (text_hash : String → String) (identity_hash : String → String → ℕ → String)
    (injective : IsInjective identity_hash) where
  same_fingerprint :
      (j k : JudgeIdentity)
      → str_eq (fingerprint text_hash identity_hash j) (fingerprint text_hash identity_hash k) ≡ (
          str_eq j.model k.model
          && str_eq (text_hash j.prompt) (text_hash k.prompt)
          && j.temperature == k.temperature)
  unfolding fingerprint
  same_fingerprint j k = ground (
    arith,
    eq_iff (identity_hash j.model (text_hash j.prompt) j.temperature)
        (identity_hash k.model (text_hash k.prompt) k.temperature),
    injective j.model (text_hash j.prompt) k.model (text_hash k.prompt) j.temperature k.temperature,
    eq_iff j.model k.model,
    eq_iff (text_hash j.prompt) (text_hash k.prompt),
    ==_iff j.temperature k.temperature,
  )

  -- Where the hash of an identity determines it, two reports are comparable exactly when there is no
  -- reason against it.
  comparable_to-differences_from :
      (r other : ValidationReport)
      → comparable_to text_hash identity_hash r other
        ≡ is_empty (differences_from text_hash identity_hash r other)
  unfolding comparable_to differences_from
  comparable_to-differences_from r other =
      ap (λ b. b && str_eq r.gold_hash other.gold_hash) (same_fingerprint r.judge other.judge)
      ∙ sym (
          no_reasons (str_eq r.judge.model other.judge.model)
            (str_eq (text_hash r.judge.prompt) (text_hash other.judge.prompt))
            (r.judge.temperature == other.judge.temperature) (str_eq r.gold_hash other.gold_hash) _
            _ _ _)
