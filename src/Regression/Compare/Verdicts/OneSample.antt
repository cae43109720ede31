-- ===== src/Regression/Compare/Verdicts/OneSample.antt =====
-- Runs with one sample per case, where every rate is 0 or 1: the verdict of regression/compare.py
-- and the direction of McNemar's test agree. With more samples they may not.
use evalstack.Prelude.{
  Option, ℕ, suc, ◌+◌, ◌*◌, ◌<◌, ◌≤◌, ◌≡◌, refl, true, false, List, [], ◌∷◌, map, arith, ◌≢◌, none,
  some, All, length, count_if, ◌⊎◌, inl, inr, ltb, String, ◌↔◌, sym, ap, length-map, ◌∙◌, dec_lt,
  lt→ltb, le→ltb,
}
use evalstack.Prelude.Ratio.{Ratio, ratio_sum, mean, ratio_ltb}
use evalstack.Prelude.Mean.{times_mono, times-pos}
use evalstack.Prelude.Dict.{or_default}
use evalstack.Schema.Result.{RunResult, rate, no_tally}
use evalstack.Schema.Result.Tallies.{grown, passes_at, attempts_at, passes_at-le}
use evalstack.Regression.Compare.Laws.{rate_of-case_rates}
use evalstack.Stats.Required.{default_power}
use evalstack.Stats.Significance as Test
use evalstack.Stats.Significance.{
  significant, overflows_at, count_pairs, no_counts, McNemarResult, direction,
}
use evalstack.Stats.Significance.Laws.{result_of, count_pairs-totals}
use evalstack.Regression.Compare.Shared.{disagreements}
use evalstack.Regression.Compare.{
  regression, improvement, ComparisonReport, verdict, case_rates, rate_of, passes, compare,
}
use evalstack.Regression.Compare.Verdicts.{
  report, test, shared, before_values, after_values, compare-report, values-length,
}

-- A rate of one attempt.
abbrev pub IsZeroOne : Ratio → Type 0
IsZeroOne r = (0 < r.den) × ((r.num ≡ 0) ⊎ (r.num ≡ r.den))

passes_of : List Ratio → ℕ
passes_of xs = count_if (λ b. b) (map passes xs)

sum-ZeroOne :
    (xs : List Ratio)
    → All IsZeroOne xs
    → (0 < (ratio_sum xs).den) × ((ratio_sum xs).num ≡ passes_of xs * (ratio_sum xs).den)
unfolding passes_of
sum-ZeroOne [] a = (omega arith, omega arith)
sum-ZeroOne (x ∷ xs) ((p, inl e), a) =
    let t = sum-ZeroOne xs a in
    let s = ratio_sum xs in
    let q : passes x ≡ false = ground arith in
    (
      times-pos x.den s.den p t.0,
      rw q omega (arith, ap (λ n. n * s.den) e, ap (λ n. n * x.den) t.1),
    )
sum-ZeroOne (x ∷ xs) ((p, inr e), a) =
    let t = sum-ZeroOne xs a in
    let s = ratio_sum xs in
    let q : passes x ≡ true = ground arith in
    (
      times-pos x.den s.den p t.0,
      rw q omega (arith, ap (λ n. n * s.den) e, ap (λ n. n * x.den) t.1),
    )

less-times : (a b c : ℕ) → a < b → 0 < c → a * c < b * c
less-times a b c h p = omega (arith, times_mono (suc a) b c (omega arith))

cancel : (p q c : ℕ) → 0 < c → ltb (p * c) (q * c) ≡ ltb p q
cancel p q c h = elim (dec_lt p q) [
  | yes lt ↦ rw (lt→ltb p q lt) (lt→ltb (p * c) (q * c) (less-times p q c lt h))
  | no ge ↦ rw (le→ltb p q (omega arith)) (le→ltb (p * c) (q * c) (times_mono q p c (omega arith)))
]

fraction-ltb :
    (p q d e l : ℕ) → 0 < d → 0 < e → 0 < l → ltb (p * d * (e * l)) (q * e * (d * l)) ≡ ltb p q
fraction-ltb p q d e l hd he hl =
    let left : p * d * (e * l) ≡ p * (d * (e * l)) = omega arith in
    let right : q * e * (d * l) ≡ q * (d * (e * l)) = omega arith in
    rw left (rw right (cancel p q (d * (e * l)) (times-pos d (e * l) hd (times-pos e l he hl))))

-- The order of two means is the order of the numbers of passes.
mean-ltb :
    (xs ys : List Ratio)
    → All IsZeroOne xs
    → All IsZeroOne ys
    → length xs ≡ length ys
    → ratio_ltb (mean xs) (mean ys) ≡ ltb (passes_of xs) (passes_of ys)
unfolding passes_of
mean-ltb [] [] a b h = refl
mean-ltb [] (y ∷ ys) a b h = absurd (omega arith)
mean-ltb (x ∷ xs) [] a b h = absurd (omega arith)
mean-ltb (x ∷ xs) (y ∷ ys) a b h =
    let s = sum-ZeroOne (x ∷ xs) a in
    let t = sum-ZeroOne (y ∷ ys) b in
    let d = (ratio_sum (x ∷ xs)).den in
    let e = (ratio_sum (y ∷ ys)).den in
    let n = length (x ∷ xs) in
    let same : length (y ∷ ys) ≡ n = sym h in
    let goal : ltb ((ratio_sum (x ∷ xs)).num * (e * length (y ∷ ys)))
          ((ratio_sum (y ∷ ys)).num * (d * n))
        ≡ ltb (passes_of (x ∷ xs)) (passes_of (y ∷ ys)) =
      rw same (
        rw (s.1) (
          rw (t.1) (
            fraction-ltb (passes_of (x ∷ xs)) (passes_of (y ∷ ys)) d e n s.0 t.0 (omega arith)))) in
    goal

-- At most one completed attempt at every case.
abbrev pub IsOneSample : RunResult → Type 0
IsOneSample run = (id : String) → attempts_at id run.case_results ≤ 1

rate-ZeroOne : (p n : ℕ) → p ≤ n → n ≤ 1 → IsZeroOne (rate (or_default no_tally (grown none p n)))
unfolding rate
rate-ZeroOne p n h k = ground arith

rates-ZeroOne :
    (run : RunResult)
    → IsOneSample run
    → (keys : List String) → All IsZeroOne (map (rate_of (case_rates run)) keys)
rates-ZeroOne run one [] = tt
rates-ZeroOne run one (k ∷ ks) = (
  rw (rate_of-case_rates run k) (
      rate-ZeroOne (passes_at k run.case_results) (attempts_at k run.case_results)
        (passes_at-le k run.case_results) (one k)),
  rates-ZeroOne run one ks,
)

-- What the verdict says in terms of the test.
pub record Agrees {Interval : Type 0} (r : ComparisonReport Interval) : Type 0 where
  pub worse :
      (verdict r ≡ regression)
      ↔ ((r.comparable ≡ true) × (significant r.test ≡ true) × (direction r.test ≡ Test.regression))
  pub not_worse :
      (verdict r ≡ improvement)
      ↔ ((r.comparable ≡ true) × (significant r.test ≡ true) × (direction r.test ≢ Test.regression))

agrees :
    {Interval : Type 0} (r : ComparisonReport Interval)
    → ratio_ltb r.after_rate r.before_rate
      ≡ ltb r.test.counts.only_after_passed r.test.counts.only_before_passed
    → Agrees r
unfolding verdict direction
agrees r h = record { worse = ground arith; not_worse = ground arith }

margins :
    (xs ys : List Ratio)
    → length (map passes xs) ≡ length (map passes ys)
    → ltb (passes_of ys) (passes_of xs)
      ≡ ltb
          (count_pairs (map passes xs) (map passes ys) no_counts).only_after_passed
          (count_pairs (map passes xs) (map passes ys) no_counts).only_before_passed
unfolding passes_of
margins xs ys h =
    let c = count_pairs (map passes xs) (map passes ys) no_counts in
    let t = count_pairs-totals (map passes xs) (map passes ys) no_counts h in
    shifted c.both_passed c.only_after_passed c.only_before_passed (passes_of ys) (passes_of xs)
      (omega (arith, t.2)) (omega (arith, t.1))
  where
    shifted : (k a b m n : ℕ) → k + a ≡ m → k + b ≡ n → ltb m n ≡ ltb a b
    shifted k a b m n e f = ground arith

module _ {Interval : Type 0} (bootstrap : List Ratio → List Ratio → Interval)
    (formula : Ratio → Ratio → Ratio → Ratio → Option ℕ) (before after : RunResult) (alpha : Ratio)
    (alpha_pos : 0 < alpha.num) (alpha_lt : alpha.num < alpha.den) (samples : Ratio → Ratio → ℕ)
    (sampled : (a e : Ratio) → formula a e alpha default_power ≡ some (samples a e))
    (few : disagreements before after < overflows_at) (before_one : IsOneSample before)
    (after_one : IsOneSample after) where
  abbrev r : ComparisonReport Interval
  r = report bootstrap formula before after alpha alpha_pos alpha_lt samples sampled few

  rates-counts :
      ratio_ltb r.after_rate r.before_rate
      ≡ ltb r.test.counts.only_after_passed r.test.counts.only_before_passed
  unfolding report test result_of passes_of
  rates-counts =
      let keys =
        shared bootstrap formula before after alpha alpha_pos alpha_lt samples sampled few in
      let xs =
        before_values bootstrap formula before after alpha alpha_pos alpha_lt samples sampled few in
      let ys =
        after_values bootstrap formula before after alpha alpha_pos alpha_lt samples sampled few in
      let l =
        values-length bootstrap formula before after alpha alpha_pos alpha_lt samples sampled few in
      mean-ltb ys xs (rates-ZeroOne after after_one keys) (rates-ZeroOne before before_one keys) (
        length-map keys (rate_of (case_rates after))
        ∙ sym (length-map keys (rate_of (case_rates before))))
      ∙ margins xs ys l

  -- For two runs with at most one completed attempt at every case, which disagree on fewer than 1024
  -- shared cases, and a significance level strictly between 0 and 1 at which the sample-size formula
  -- returns, the comparison returns, and its verdict follows the direction of its test: it
  -- is `regression` exactly for a significant difference of comparable runs in which more cases
  -- broke than were fixed, and `improvement` exactly for any other significant difference of
  -- comparable runs.
  pub verdict-Agrees :
      (r : ComparisonReport Interval) × (compare bootstrap formula before after alpha ≡ some r)
      × Agrees r
  verdict-Agrees = (
    r,
    compare-report bootstrap formula before after alpha alpha_pos alpha_lt samples sampled few,
    agrees r rates-counts,
  )
