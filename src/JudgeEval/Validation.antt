-- ===== src/JudgeEval/Validation.antt =====
-- judge_eval/validation.py: a judge measured against a gold set, and when two measurements compare.
-- The hashes are arguments: `text_hash` of a prompt, `content_hash` of a gold set, and `identity_hash`
-- of the dictionary that `fingerprint` hashes.
pub mod Reports
use evalstack.Prelude.{
  ℕ, ◌+◌, ◌-◌, ◌*◌, String, Bool, true, false, not, ◌&&◌, ◌||◌, Option, none, some, List, [], ◌∷◌,
  ◌++◌, map, length, sum_of, if◌then◌else◌, str_eq, ltb, leb, ◌==◌,
}
use evalstack.Prelude.Dict.{Dict}
use evalstack.Prelude.Ratio.{Ratio}
use evalstack.JudgeEval.Agreement.{AgreementReport, agreement_report, meets}
use evalstack.JudgeEval.Bias.{
  PositionBiasReport, position_bias, SelfPreferenceReport, self_preference, comparable, own_rate,
  other_rate,
}
use evalstack.JudgeEval.Gold.{GoldSet, verdicts, label_balance}

pub record JudgeIdentity : Type 0 where
  pub model : String
  pub prompt : String
  pub temperature : ℕ

-- The warnings, whose texts show these values.
pub data Warning : Type 0 where
  imbalanced : String → Ratio → Warning
  few_examples : ℕ → Warning
  self_preferring : Ratio → Ratio → Warning

pub record ValidationReport : Type 0 where
  pub judge : JudgeIdentity
  pub gold_name : String
  pub gold_version : String
  pub gold_hash : String
  pub agreement : AgreementReport
  pub threshold : Ratio
  pub position : Option PositionBiasReport
  pub preference : Option SelfPreferenceReport
  pub warnings : List Warning

-- `passed`
abbrev pub passed : ValidationReport → Bool
passed r = meets r.agreement r.threshold

-- `max(balance, key=...)`: the first label with the largest count.
unfoldable pub dominant : String × ℕ → Dict ℕ → String × ℕ
dominant best [] = best
dominant best (e ∷ es) = dominant (if ltb best.1 e.1 then e else best) es

-- `_imbalance_warning`, of the balance
unfoldable pub imbalance_warning : Dict ℕ → List Warning
unfolding dominant
imbalance_warning [] = []
imbalance_warning (e ∷ es) =
    let total = sum_of (λ x. x.1) (e ∷ es) in
    let largest = dominant e es in
    if total == 0
    then []
    else if leb (total * 80) (largest.1 * 100)
    then imbalanced largest.0 (record { num = largest.1; den = total }) ∷ []
    else []

abbrev few_warning : ℕ → List Warning
few_warning n = if ltb n 20 then few_examples n ∷ [] else []

-- The distance of two fractions is at least 0.15.
abbrev apart : Ratio → Ratio → Bool
apart x y =
    let a = x.num * y.den in
    let b = y.num * x.den in leb (15 * (x.den * y.den)) (100 * ((a - b) + (b - a)))

unfoldable pub preference_warning : Option SelfPreferenceReport → List Warning
preference_warning none = []
preference_warning (some r) =
    if comparable r && apart (own_rate r) (other_rate r)
    then self_preferring (own_rate r) (other_rate r) ∷ []
    else []

infixl 5 ◌>>=◌
abbrev pub ◌>>=◌ : {A B : Type 0} → Option A → (A → Option B) → Option B
none >>= f = none
some a >>= f = f a

abbrev given : {A : Type 0} → Option A → Option (Option A)
given none = none
given (some a) = some (some a)

unfoldable pub position_of :
    (swapped forward : Option (List String)) → List String → Option (Option PositionBiasReport)
unfolding position_bias
position_of none forward verdicts = some none
position_of (some swapped) none verdicts = given (position_bias "a" "b" verdicts swapped)
position_of (some swapped) (some forward) verdicts = given (position_bias "a" "b" forward swapped)

unfoldable pub preference_of :
    Option (List Bool) → List String → Option (Option SelfPreferenceReport)
unfolding self_preference
preference_of none verdicts = some none
preference_of (some flags) verdicts = given (self_preference "pass" verdicts flags)

-- `validate_judge`; `none` is a `ValueError`.
module _ (content_hash : GoldSet → String) (gold : GoldSet) (judge_verdicts : List String)
    (judge : JudgeIdentity) (threshold : Ratio) (swapped forward : Option (List String))
    (own_family_flags : Option (List Bool)) where
  -- The report of the three measurements.
  abbrev pub report_of :
      Option PositionBiasReport → Option SelfPreferenceReport → AgreementReport → ValidationReport
  report_of position preference agreement = record {
    judge = judge;
    gold_name = gold.name;
    gold_version = gold.version;
    gold_hash = content_hash gold;
    agreement = agreement;
    threshold = threshold;
    position = position;
    preference = preference;
    warnings =
        imbalance_warning (label_balance gold)
        ++ few_warning (length gold.examples)
        ++ preference_warning preference;
  }

  unfoldable pub measure : Option ValidationReport
  unfolding position_of preference_of verdicts agreement_report
  measure = do
    position ← position_of swapped forward judge_verdicts
    preference ← preference_of own_family_flags judge_verdicts
    agreement ← agreement_report (verdicts gold) judge_verdicts
    some (report_of position preference agreement)

  unfoldable pub validate_judge : Option ValidationReport
  unfolding measure
  validate_judge = if length judge_verdicts == length gold.examples then measure else none

-- The reasons, whose texts show the values of the other report and then of this one.
pub data Reason : Type 0 where
  other_model : (before now : String) → Reason
  prompt_changed : Reason
  other_temperature : (before now : ℕ) → Reason
  gold_changed : Reason

module _ (text_hash : String → String) (identity_hash : String → String → ℕ → String) where
  -- `fingerprint`
  unfoldable pub fingerprint : JudgeIdentity → String
  fingerprint j = identity_hash j.model (text_hash j.prompt) j.temperature

  unfoldable pub comparable_to : ValidationReport → ValidationReport → Bool
  unfolding fingerprint
  comparable_to r other =
      str_eq (fingerprint r.judge) (fingerprint other.judge) && str_eq r.gold_hash other.gold_hash

  abbrev reason_if : Bool → Reason → List Reason
  reason_if b reason = if b then reason ∷ [] else []

  unfoldable pub differences_from : ValidationReport → ValidationReport → List Reason
  differences_from r other =
      let j = r.judge in
      let k = other.judge in
      reason_if (not (str_eq j.model k.model)) (other_model k.model j.model)
      ++ reason_if (not (str_eq (text_hash j.prompt) (text_hash k.prompt))) prompt_changed
      ++ reason_if (not (j.temperature == k.temperature))
          (other_temperature k.temperature j.temperature)
      ++ reason_if (not (str_eq r.gold_hash other.gold_hash)) gold_changed
