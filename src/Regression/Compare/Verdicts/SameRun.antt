-- ===== src/Regression/Compare/Verdicts/SameRun.antt =====
-- A run compared with itself, by regression/compare.py.
use evalstack.Prelude.{Option, ℕ, ◌<◌, ◌≡◌, refl, false, List, map, arith, ◌≢◌, some}
use evalstack.Prelude.Ratio.{Ratio, one_ratio}
use evalstack.Schema.Result.{RunResult}
use evalstack.Stats.Significance.{significant, overflows_at, count_pairs, no_counts}
use evalstack.Stats.Significance.Laws.{count_pairs-same, undecided}
use evalstack.Stats.Required.{default_power}
use evalstack.Regression.Compare.Shared.{disagreements}
use evalstack.Regression.Compare.{
  regression, improvement, ComparisonReport, verdict, passes, compare, rate_of, case_rates,
  shared_keys,
}
use evalstack.Regression.Compare.Verdicts.{report, test, before_values, compare-report}

not_significant :
    {Interval : Type 0} (r : ComparisonReport Interval)
    → significant r.test ≡ false
    → (verdict r ≢ regression) × (verdict r ≢ improvement)
unfolding verdict
not_significant r h = ground arith

module _ {Interval : Type 0} (bootstrap : List Ratio → List Ratio → Interval)
    (formula : Ratio → Ratio → Ratio → Ratio → Option ℕ) (run : RunResult) (alpha : Ratio)
    (alpha_pos : 0 < alpha.num) (alpha_lt : alpha.num < alpha.den) (samples : Ratio → Ratio → ℕ)
    (sampled : (a e : Ratio) → formula a e alpha default_power ≡ some (samples a e)) where
  few : disagreements run run < overflows_at
  few = omega (
    arith,
    count_pairs-same
        (map passes
          (map (rate_of (case_rates run)) (shared_keys (case_rates run) (case_rates run))))
        no_counts,
  )

  undecided_test :
      (significant
          (report bootstrap formula run run alpha alpha_pos alpha_lt samples sampled few).test
        ≡ false)
      × ((report bootstrap formula run run alpha alpha_pos alpha_lt samples sampled
            few).test.p_value
          ≡ one_ratio)
  unfolding report test
  undecided_test =
      let xs =
        map passes
          (before_values bootstrap formula run run alpha alpha_pos alpha_lt samples sampled few) in
      let u =
        undecided alpha (count_pairs xs xs no_counts) (count_pairs-same xs no_counts)
          (omega arith) in
      (u.2, u.0)

  -- A run compared with itself at a significance level strictly between 0 and 1, at which the
  -- sample-size formula returns: the comparison
  -- returns, both rates are the same, the p-value is 1, and the verdict is neither `regression` nor
  -- `improvement`.
  compare_same :
      (r : ComparisonReport Interval) × (compare bootstrap formula run run alpha ≡ some r)
      × (r.before_rate ≡ r.after_rate)
      × (r.test.p_value ≡ one_ratio)
      × (verdict r ≢ regression)
      × (verdict r ≢ improvement)
  unfolding report
  compare_same =
      let r = report bootstrap formula run run alpha alpha_pos alpha_lt samples sampled few in
      (
        r,
        compare-report bootstrap formula run run alpha alpha_pos alpha_lt samples sampled few,
        refl,
        undecided_test.1,
        (not_significant r undecided_test.0).0,
        (not_significant r undecided_test.0).1,
      )
