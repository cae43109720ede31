-- ===== src/Orchestrator/Jobs.antt =====
-- Job and build_jobs of orchestrator/scheduler.py.
pub mod Coverage
use evalstack.Prelude.{ℕ, zero, suc, ◌+◌, String, Option, none, some, List, [], ◌∷◌, ◌++◌, map}
use evalstack.Prelude.Text.{◌+++◌}
use evalstack.Prelude.Int.{ℤ, pos, negsuc}
use evalstack.Schema.Case.{EvalCase}
use evalstack.Trace.Truncate.Decimal.{decimal}

pub record Job : Type 0 where
  pub case : EvalCase
  pub attempt : ℕ

unfoldable pub label : Job → String
label j = j.case.case_id +++ ("#" +++ decimal j.attempt)

-- The jobs of the attempts `first`, `first + 1`, ..., `n` of them, each over all cases.
unfoldable pub jobs_from : ℕ → ℕ → List EvalCase → List Job
jobs_from first zero cases = []
jobs_from first (suc n) cases =
    map (λ c. record { case = c; attempt = first }) cases ++ jobs_from (first + 1) n cases

-- `none` where fewer than one sample per case raises `ValueError`.
unfoldable pub build_jobs : List EvalCase → ℤ → Option (List Job)
unfolding jobs_from
build_jobs cases (negsuc n) = none
build_jobs cases (pos zero) = none
build_jobs cases (pos (suc n)) = some (jobs_from 0 (suc n) cases)
