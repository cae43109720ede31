-- ===== src/Regression/Compare.antt =====
-- regression/compare.py: comparing two runs over the cases they share.
pub mod Laws
pub mod Distinct
pub mod Shared
pub mod Verdicts
use evalstack.Prelude.{
  ℕ, zero, suc, ◌+◌, ◌-◌, ◌*◌, min, max, String, Bool, true, false, not, ◌&&◌, Option, none, some,
  List, [], ◌∷◌, ◌++◌, map, keep, length, is_empty, ltb, leb, ◌==◌, if◌then◌else◌, str_eq,
}
use evalstack.Prelude.Dict.{Dict, get, or_default}
use evalstack.Prelude.Sort.{sort, str_leb}
use evalstack.Prelude.Ratio.{Ratio, zero_ratio, one_ratio, ratio_leb, ratio_ltb, ratio_eq, mean}
use evalstack.Schema.Result.{RunResult, CaseTally, tallies, rate, evaluator_scores}
use evalstack.Stats.Significance.{McNemarResult, mcnemar, significant}
use evalstack.Stats.Required.{required_sample_size, default_power}

pub data Verdict : Type 0 where
  regression improvement no_significant_change not_comparable : Verdict

pub data TransitionKind : Type 0 where
  fixed broken stable_pass stable_fail mixed : TransitionKind

abbrev fallback_effect : Ratio
fallback_effect = record { num = 5; den = 100 }

pub record CaseTransition : Type 0 where
  pub case_id : String
  pub before_rate : Ratio
  pub after_rate : Ratio

unfoldable pub kind : CaseTransition → TransitionKind
kind t =
    let was = t.before_rate in
    let now = t.after_rate in
    if ratio_eq was zero_ratio && ratio_eq now one_ratio
    then fixed
    else if ratio_eq was one_ratio && ratio_eq now zero_ratio
    then broken
    else if ratio_eq was one_ratio && ratio_eq now one_ratio
    then stable_pass
    else if ratio_eq was zero_ratio && ratio_eq now zero_ratio
    then stable_fail
    else mixed

pub record DimensionDelta : Type 0 where
  pub name : String
  pub before : Ratio
  pub after : Ratio

pub data Warning : Type 0 where
  different_datasets different_suites same_agent no_shared_cases : Warning

-- `Interval` is the type of what the bootstrap returns; `none` is the zero interval that the source
-- puts when the runs share no cases.
pub record ComparisonReport (Interval : Type 0) : Type 0 where
  pub before_run_id : String
  pub after_run_id : String
  pub before_rate : Ratio
  pub after_rate : Ratio
  pub shared_cases : ℕ
  pub interval : Option Interval
  pub test : McNemarResult
  pub transitions : List CaseTransition
  pub dimensions : List DimensionDelta
  pub warnings : List Warning
  pub comparable : Bool
  pub required_cases : ℕ

module _ {Interval : Type 0} where
  -- `delta < 0` is `after_rate < before_rate`.
  unfoldable pub verdict : ComparisonReport Interval → Verdict
  verdict r =
      if not r.comparable
      then not_comparable
      else if not (significant r.test)
      then no_significant_change
      else if ratio_ltb r.after_rate r.before_rate
      then regression
      else improvement

  unfoldable pub underpowered : ComparisonReport Interval → Bool
  underpowered r = not (significant r.test) && ltb r.shared_cases r.required_cases

unfoldable pub case_rates : RunResult → Dict Ratio
unfolding tallies rate
case_rates run = map (λ e. (e.0, rate e.1)) (tallies run)

-- The warning texts of the source are one constructor each.
unfoldable pub comparability_warnings : RunResult → RunResult → List Warning
comparability_warnings before after =
    (if str_eq before.dataset_hash after.dataset_hash then [] else different_datasets ∷ [])
    ++ (if str_eq before.suite_hash after.suite_hash then [] else different_suites ∷ [])
    ++ (if str_eq before.agent_hash after.agent_hash && str_eq before.agent_ref after.agent_ref
        then same_agent ∷ []
        else [])

abbrev pub has_key : Dict Ratio → String → Bool
has_key d key = elim (get key d) [ none ↦ false | some v ↦ true ]

-- `sorted(set(before_rates) & set(after_rates))`: the keys of a dictionary differ.
unfoldable pub shared_keys : Dict Ratio → Dict Ratio → List String
unfolding get
shared_keys before after = sort str_leb (keep (has_key after) (map (λ e. e.0) before))

-- `rates[case_id]`, for a case that has one
abbrev pub rate_of : Dict Ratio → String → Ratio
rate_of rates case_id = or_default zero_ratio (get case_id rates)

-- A k-sampled case counts as passing when it passed more often than not.
abbrev pub passes : Ratio → Bool
passes value = ratio_ltb (record { num = 1; den = 2 }) value

-- `abs(a - b)`
unfoldable pub distance : Ratio → Ratio → Ratio
distance a b = record {
  num = a.num * b.den - b.num * a.den + (b.num * a.den - a.num * b.den);
  den = a.den * b.den;
}

-- `abs(after_rate - before_rate) or fallback_effect`
unfoldable pub effect_of : Ratio → Ratio → Ratio
unfolding distance
effect_of before after =
    let d = distance after before in if ratio_eq d zero_ratio then fallback_effect else d

-- `min(max(before_rate, 0.0), 1.0 - effect) if effect < 1.0 else 0.0`, for a rate that is not negative
unfoldable pub baseline_of : Ratio → Ratio → Ratio
baseline_of before effect =
    let room : Ratio = record { num = effect.den - effect.num; den = effect.den } in
    if ratio_ltb effect one_ratio
    then if ratio_leb before room then before else room
    else zero_ratio

-- `scores.get(name, 0.0)` over `sorted(set(before_scores) | set(after_scores))`
unfoldable pub dimension_deltas : RunResult → RunResult → List DimensionDelta
unfolding evaluator_scores get
dimension_deltas before after =
    let b = evaluator_scores before in
    let a = evaluator_scores after in
    let names = map (λ e. e.0) b ++ keep (λ k. not (has_key b k)) (map (λ e. e.0) a) in
    map (λ name. record { name = name; before = rate_of b name; after = rate_of a name })
      (sort str_leb names)

-- `bootstrap` is `paired_bootstrap` at the confidence and the seed of the call; `formula` as in
-- `required_sample_size`. `none` is an exception of the functions called.
module _ {Interval : Type 0} (bootstrap : List Ratio → List Ratio → Interval)
    (formula : Ratio → Ratio → Ratio → Ratio → Option ℕ) where
  unfoldable pub report_of :
      RunResult
      → RunResult
      → List String
      → Option McNemarResult
      → Option ℕ
      → Option (ComparisonReport Interval)
  unfolding case_rates comparability_warnings dimension_deltas get
  report_of before after shared (some test) (some required) =
      let before_rates = case_rates before in
      let after_rates = case_rates after in
      let before_values = map (rate_of before_rates) shared in
      let after_values = map (rate_of after_rates) shared in
      some (record {
        before_run_id = before.run_id;
        after_run_id = after.run_id;
        before_rate = mean before_values;
        after_rate = mean after_values;
        shared_cases = length shared;
        interval = if is_empty shared then none else some (bootstrap before_values after_values);
        test = test;
        transitions =
            map
              (λ c. record {
                case_id = c;
                before_rate = rate_of before_rates c;
                after_rate = rate_of after_rates c;
              })
              shared;
        dimensions = dimension_deltas before after;
        warnings =
            comparability_warnings before after
            ++ (if is_empty shared then no_shared_cases ∷ [] else []);
        comparable =
            not (is_empty shared)
            && str_eq before.dataset_hash after.dataset_hash
            && str_eq before.suite_hash after.suite_hash;
        required_cases = required;
      })
  report_of before after shared _ _ = none

  unfoldable pub compare : RunResult → RunResult → Ratio → Option (ComparisonReport Interval)
  unfolding report_of case_rates shared_keys effect_of baseline_of required_sample_size mcnemar get
  compare before after alpha =
      let before_rates = case_rates before in
      let after_rates = case_rates after in
      let shared = shared_keys before_rates after_rates in
      let before_values = map (rate_of before_rates) shared in
      let after_values = map (rate_of after_rates) shared in
      let effect = effect_of (mean before_values) (mean after_values) in
      report_of before after shared
        (mcnemar (map passes before_values) (map passes after_values) alpha)
        (required_sample_size formula (baseline_of (mean before_values) effect) effect alpha
          default_power)
