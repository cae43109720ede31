-- ===== src/Stats/Sampling.antt =====
-- stats/sampling.py: pass@k and pass^k as unbiased estimators, and their report over a dataset.
pub mod Laws
use evalstack.Prelude.{
  ℕ, zero, suc, ◌+◌, ◌-◌, ◌*◌, ◌<◌, min, String, Bool, true, false, Option, none, some, List, [],
  ◌∷◌, length, ltb, ◌&&◌, ◌==◌, if◌then◌else◌, ◌||◌,
}
use evalstack.Prelude.Ratio.{Ratio, zero_ratio, one_ratio, mean}
use evalstack.Stats.Comb.{comb}

-- `_validate`: `true` where no `ValueError` is raised. The counts are natural numbers here, so
-- `0 <= correct` holds.
unfoldable pub validates : (samples correct k : ℕ) → Bool
validates samples correct k =
    if ltb samples 1
    then false
    else if ltb samples correct
    then false
    else if ltb k 1
    then false
    else if ltb samples k
    then false
    else true

unfoldable pub at_k : (samples correct k : ℕ) → Ratio
unfolding comb
at_k samples correct k =
    let failures = samples - correct in
    if ltb failures k
    then one_ratio
    else record { num = comb samples k - comb failures k; den = comb samples k }

unfoldable pub hat_k : (samples correct k : ℕ) → Ratio
unfolding comb
hat_k samples correct k =
    if ltb correct k then zero_ratio else record { num = comb correct k; den = comb samples k }

-- `none` where `_validate` raises.
unfoldable pub pass_at_k : (samples correct k : ℕ) → Option Ratio
unfolding validates at_k
pass_at_k samples correct k =
    if validates samples correct k then some (at_k samples correct k) else none

unfoldable pub pass_hat_k : (samples correct k : ℕ) → Option Ratio
unfolding validates hat_k
pass_hat_k samples correct k =
    if validates samples correct k then some (hat_k samples correct k) else none

pub record StabilityReport : Type 0 where
  pub k : ℕ
  pub pass_at_k : Ratio
  pub pass_hat_k : Ratio
  pub cases : ℕ
  pub flaky_cases : ℕ

-- The lists and the counter of the loop of `stability_report`.
pub record Tally : Type 0 where
  pub at : List Ratio
  pub hat : List Ratio
  pub flaky : ℕ

-- Puts an estimate before the others; `none`, a `ValueError`, ends the loop.
abbrev both : Option Ratio → Option Ratio → Bool → Option Tally → Option Tally
both (some a) (some h) is_flaky (some t) =
    some (record { at = a ∷ t.at; hat = h ∷ t.hat; flaky = (if is_flaky then 1 else 0) + t.flaky })
both _ _ _ _ = none

-- The loop over `(passed, total)`; a case with fewer than `k` samples is skipped.
unfoldable pub collect : ℕ → List (ℕ × ℕ) → Option Tally
unfolding pass_at_k pass_hat_k
collect k [] = some (record { at = []; hat = []; flaky = 0 })
collect k ((passed, total) ∷ rest) =
    let others = collect k rest in
    if ltb total k
    then others
    else both (pass_at_k total passed k) (pass_hat_k total passed k)
        (ltb 0 passed && ltb passed total) others

abbrev report_of : ℕ → Option Tally → Option StabilityReport
report_of k none = none
report_of k (some t) = some (record {
  k = k;
  pass_at_k = mean t.at;
  pass_hat_k = mean t.hat;
  cases = length t.at;
  flaky_cases = t.flaky;
})

unfoldable pub stability_report : List (ℕ × ℕ) → ℕ → Option StabilityReport
unfolding collect
stability_report tallies k = if ltb k 1 then none else report_of k (collect k tallies)

unfoldable pub max_usable_k : List (ℕ × ℕ) → ℕ
max_usable_k [] = 0
max_usable_k ((passed, total) ∷ []) = total
max_usable_k ((passed, total) ∷ t ∷ rest) = min total (max_usable_k (t ∷ rest))
