-- ===== src/Regression/Compare/Verdicts.antt =====
-- The verdicts of regression/compare.py.
pub mod SameRun
pub mod OneSample
use evalstack.Prelude.{
  count_if, ℕ, ◌<◌, ◌≤◌, ◌≡◌, refl, ap, sym, ◌∙◌, ◌⊎◌, inl, inr, String, Bool, true, false, not,
  ◌&&◌, Option, none, some, List, [], ◌∷◌, map, length, is_empty, ltb, if◌then◌else◌, str_eq, arith,
  length-map, eq_iff, Bool-cases, ◌≢◌, ◌↔◌, ◌++◌, keep, All,
}
use evalstack.Prelude.Dict.{Dict, get, or_default}
use evalstack.Prelude.Ratio.{Ratio, ratio_ltb, mean, IsUnit, one_ratio}
use evalstack.Schema.Result.{RunResult, CaseTally, tallies, rate}
use evalstack.Stats.Significance.{
  total, discordant, overflows_at, McNemarResult, mcnemar, significant, count_pairs, no_counts,
  direction,
}
use evalstack.Stats.Significance.Laws.{result_of, mcnemar-some, count_pairs-totals, mcnemar_same}
use evalstack.Stats.Required.{required_sample_size, default_power}
use evalstack.Regression.Compare.{
  Verdict, no_significant_change, not_comparable, regression, improvement, ComparisonReport,
  has_key, verdict, case_rates, shared_keys, rate_of, passes, effect_of, baseline_of, compare,
  report_of, comparability_warnings, dimension_deltas, CaseTransition, no_shared_cases,
}
use evalstack.Prelude.Sets.{mem, mem-sort, mem-keep}
use evalstack.Schema.Result.Tallies.{grown, attempts_at, passes_at, get-tallies}
use evalstack.Regression.Compare.Distinct.{count-shared_keys}
use evalstack.Regression.Compare.Shared.{
  transition, disagreements, in_both, CarriesRates, mem-shared_keys, transitions_ids,
  transitions-All,
}
use evalstack.Regression.Compare.Laws.{required-some, mean_rate-IsUnit}

is_empty-length {ℓ} : {A : Type ℓ} (xs : List A) → (is_empty xs ≡ false) ↔ (0 < length xs)
is_empty-length [] = ground arith
is_empty-length (x ∷ xs) = ground arith

-- Runs of the same dataset and suite that share a case.
abbrev pub AreComparable : RunResult → RunResult → Type 0
AreComparable before after =
    (before.dataset_hash ≡ after.dataset_hash)
    × (before.suite_hash ≡ after.suite_hash)
    × (0 < length (shared_keys (case_rates before) (case_rates after)))

-- What a report says of two runs.
pub record Reports {Interval : Type 0} (before after : RunResult) (r : ComparisonReport Interval)
    : Type 0 where
  pub refused : (verdict r ≡ not_comparable) ↔ ¬ AreComparable before after
  pub unchanged :
      (verdict r ≡ no_significant_change)
      ↔ (AreComparable before after × (significant r.test ≡ false))
  pub pairs : total r.test.counts ≡ r.shared_cases
  pub one_transition_each : length r.transitions ≡ r.shared_cases
  pub of_shared_cases :
      (id : String) → mem id (map (λ t. t.case_id) r.transitions) ≡ in_both before after id
  pub once : (id : String) → count_if (str_eq id) (map (λ t. t.case_id) r.transitions) ≤ 1
  pub rates : All (CarriesRates before after) r.transitions

module _ {Interval : Type 0} (bootstrap : List Ratio → List Ratio → Interval)
    (formula : Ratio → Ratio → Ratio → Ratio → Option ℕ) (before after : RunResult) (alpha : Ratio)
    (alpha_pos : 0 < alpha.num) (alpha_lt : alpha.num < alpha.den) (samples : Ratio → Ratio → ℕ)
    (sampled : (a e : Ratio) → formula a e alpha default_power ≡ some (samples a e))
    (few : disagreements before after < overflows_at) where
  abbrev shared : List String
  shared = shared_keys (case_rates before) (case_rates after)

  abbrev before_values : List Ratio
  before_values = map (rate_of (case_rates before)) shared

  abbrev after_values : List Ratio
  after_values = map (rate_of (case_rates after)) shared

  required : ℕ
  required =
      let e = effect_of (mean before_values) (mean after_values) in
      samples (baseline_of (mean before_values) e) e

  values-length : length (map passes before_values) ≡ length (map passes after_values)
  values-length =
      length-map before_values passes
      ∙ length-map shared (rate_of (case_rates before))
      ∙ sym (length-map shared (rate_of (case_rates after)))
      ∙ sym (length-map after_values passes)

  compared :
      (test : McNemarResult)
      → mcnemar (map passes before_values) (map passes after_values) alpha ≡ some test
      → compare bootstrap formula before after alpha
        ≡ report_of bootstrap formula before after shared (some test) (some required)
  unfolding compare required report_of case_rates comparability_warnings dimension_deltas get
  compared test h = rw h (
      rw
        (required-some formula (mean before_values) (mean after_values) alpha
          (mean_rate-IsUnit before shared) (mean_rate-IsUnit after shared) alpha_pos alpha_lt)
        (rw (sampled _ _) refl))

  test : McNemarResult
  test =
      result_of alpha (count_pairs (map passes before_values) (map passes after_values) no_counts)

  pub report : ComparisonReport Interval
  unfolding case_rates comparability_warnings dimension_deltas get
  report =
      let effect = effect_of (mean before_values) (mean after_values) in
      record {
        before_run_id = before.run_id;
        after_run_id = after.run_id;
        before_rate = mean before_values;
        after_rate = mean after_values;
        shared_cases = length shared;
        interval = if is_empty shared then none else some (bootstrap before_values after_values);
        test = test;
        transitions = map (transition before after) shared;
        dimensions = dimension_deltas before after;
        warnings =
            comparability_warnings before after
            ++ (if is_empty shared then no_shared_cases ∷ [] else []);
        comparable =
            not (is_empty shared)
            && str_eq before.dataset_hash after.dataset_hash
            && str_eq before.suite_hash after.suite_hash;
        required_cases = required;
      }

  pub compare-report : compare bootstrap formula before after alpha ≡ some report
  unfolding report test required report_of case_rates comparability_warnings dimension_deltas get
  compare-report =
      compared test
        (mcnemar-some (map passes before_values) (map passes after_values) alpha values-length few)

  verdict-refused : (verdict report ≡ not_comparable) ↔ ¬ AreComparable before after
  unfolding report verdict
  verdict-refused = ground (
    arith,
    eq_iff before.dataset_hash after.dataset_hash,
    eq_iff before.suite_hash after.suite_hash,
    is_empty-length shared,
  )

  verdict-unchanged :
      (verdict report ≡ no_significant_change)
      ↔ (AreComparable before after × (significant test ≡ false))
  unfolding report verdict
  verdict-unchanged = ground (
    arith,
    eq_iff before.dataset_hash after.dataset_hash,
    eq_iff before.suite_hash after.suite_hash,
    is_empty-length shared,
  )

  test-pairs : total test.counts ≡ length shared
  unfolding test result_of
  test-pairs = omega (
    arith,
    count_pairs-totals (map passes before_values) (map passes after_values) no_counts values-length,
    length-map before_values passes,
    length-map shared (rate_of (case_rates before)),
  )

  -- For a significance level strictly between 0 and 1 at which the sample-size formula returns, and
  -- runs that disagree on fewer than 1024 shared cases, comparing them returns a report: the formula
  -- is never asked for a rate outside the unit interval. The verdict is `not comparable` exactly when
  -- the datasets or the suites differ or no case is shared, and `no significant change` exactly when
  -- the runs are comparable and the test is not significant. There is one
  -- transition for each case at which both runs completed an attempt, and no other; each has the
  -- rates of its case in the two runs; and there are as many transitions, and pairs in the test, as
  -- shared cases.
  pub compare-Reports :
      (r : ComparisonReport Interval) × (compare bootstrap formula before after alpha ≡ some r)
      × Reports before after r
  unfolding report
  compare-Reports = (
    report,
    compare-report,
    record {
      refused = verdict-refused;
      unchanged = verdict-unchanged;
      pairs = test-pairs;
      one_transition_each = length-map shared (transition before after);
      of_shared_cases =
          λ id. ap (mem id) (transitions_ids before after shared) ∙ mem-shared_keys before after id;
      once = λ id. rw (transitions_ids before after shared) (count-shared_keys before after id);
      rates = transitions-All before after shared;
    },
  )
