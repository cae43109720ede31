-- ===== src/Schema/Result.antt =====
-- schema/result.py: what an evaluator said, what an attempt did, and what a run measured.
pub mod Tallies
use evalstack.Prelude.{
  ℕ, ◌+◌, String, Bool, true, false, Option, none, some, List, [], ◌∷◌, sum_of, count_if, keep,
  length, str_eq, if◌then◌else◌, ◌==◌, map, ◌++◌,
}
use evalstack.Prelude.Dict.{Dict, update, sort_keys}
use evalstack.Prelude.Ratio.{Ratio, zero_ratio, mean}
use evalstack.Json.{Fields}

pub data CaseStatus : Type 0 where
  completed timed_out infra_error cancelled : CaseStatus

abbrev pub is_completed : CaseStatus → Bool
is_completed completed = true
is_completed _ = false

pub record EvaluatorResult : Type 0 where
  pub name : String
  pub version : String
  pub score : Ratio
  pub passed : Bool
  pub detail : Fields

pub record CaseResult : Type 0 where
  pub case_id : String
  pub attempt : ℕ
  pub status : CaseStatus
  pub passed : Bool
  pub evaluators : List EvaluatorResult
  pub duration_s : ℕ
  pub cost_usd : ℕ
  pub input_tokens : ℕ
  pub output_tokens : ℕ
  pub trajectory_path : Option String
  pub error : Option String

find_evaluator : String → List EvaluatorResult → Option EvaluatorResult
find_evaluator name [] = none
find_evaluator name (r ∷ rs) = if str_eq r.name name then some r else find_evaluator name rs

-- `CaseResult.evaluator`
unfoldable pub evaluator : CaseResult → String → Option EvaluatorResult
unfolding find_evaluator
evaluator result name = find_evaluator name result.evaluators

pub record CaseTally : Type 0 where
  pub passed : ℕ
  pub total : ℕ

-- `CaseTally.rate`
unfoldable pub rate : CaseTally → Ratio
rate t = if t.total == 0 then zero_ratio else record { num = t.passed; den = t.total }

pub record RunResult : Type 0 where
  pub run_id : String
  pub agent_ref : String
  pub agent_hash : String
  pub dataset_name : String
  pub dataset_version : String
  pub dataset_hash : String
  pub suite_name : String
  pub suite_hash : String
  pub samples_per_case : ℕ
  pub concurrency : ℕ
  pub case_results : List CaseResult
  pub notes : String

unfoldable pub completed_results : RunResult → List CaseResult
completed_results run = keep (λ r. is_completed r.status) run.case_results

unfoldable pub success_rate : RunResult → Ratio
unfolding completed_results
success_rate run =
    let done = completed_results run in
    if length done == 0
    then zero_ratio
    else record { num = count_if (λ r. r.passed) done; den = length done }

unfoldable pub run_cost_usd : RunResult → ℕ
run_cost_usd run = sum_of (λ r. r.cost_usd) run.case_results

unfoldable pub run_input_tokens : RunResult → ℕ
run_input_tokens run = sum_of (λ r. r.input_tokens) run.case_results

unfoldable pub run_output_tokens : RunResult → ℕ
run_output_tokens run = sum_of (λ r. r.output_tokens) run.case_results

-- The mean over completed attempts.
unfoldable pub mean_duration_s : RunResult → Ratio
unfolding completed_results
mean_duration_s run =
    let done = completed_results run in
    if length done == 0
    then zero_ratio
    else record { num = sum_of (λ r. r.duration_s) done; den = length done }

abbrev pub no_tally : CaseTally
no_tally = record { passed = 0; total = 0 }

-- `counts[case_id][1] += 1`, and `counts[case_id][0] += 1` for a pass.
abbrev pub tally_one : Bool → CaseTally → CaseTally
tally_one passed t = record { passed = t.passed + (if passed then 1 else 0); total = t.total + 1 }

-- The loop over the completed results.
unfoldable pub count_results : Dict CaseTally → List CaseResult → Dict CaseTally
count_results counts [] = counts
count_results counts (r ∷ rs) =
    count_results (update r.case_id no_tally (tally_one r.passed) counts) rs

unfoldable pub tallies : RunResult → Dict CaseTally
unfolding count_results completed_results
tallies run = sort_keys (count_results [] (completed_results run))

abbrev pub same_status : CaseStatus → CaseStatus → Bool
same_status completed completed = true
same_status timed_out timed_out = true
same_status infra_error infra_error = true
same_status cancelled cancelled = true
same_status _ _ = false

-- `counts[status] = counts.get(status, 0) + 1`
add_status : CaseStatus → List (CaseStatus × ℕ) → List (CaseStatus × ℕ)
add_status s [] = (s, 1) ∷ []
add_status s ((k, n) ∷ rest) =
    if same_status k s then (k, n + 1) ∷ rest else (k, n) ∷ add_status s rest

count_statuses : List (CaseStatus × ℕ) → List CaseResult → List (CaseStatus × ℕ)
count_statuses counts [] = counts
count_statuses counts (r ∷ rs) = count_statuses (add_status r.status counts) rs

unfoldable pub status_counts : RunResult → List (CaseStatus × ℕ)
unfolding count_statuses add_status
status_counts run = count_statuses [] run.case_results

-- `totals[evaluation.name].append(evaluation.score)`
abbrev add_score : EvaluatorResult → Dict (List Ratio) → Dict (List Ratio)
add_score r scores = update r.name [] (λ old. old ++ r.score ∷ []) scores

add_scores : Dict (List Ratio) → List EvaluatorResult → Dict (List Ratio)
add_scores scores [] = scores
add_scores scores (r ∷ rs) = add_scores (add_score r scores) rs

unfoldable pub collect_scores : Dict (List Ratio) → List CaseResult → Dict (List Ratio)
unfolding add_scores
collect_scores scores [] = scores
collect_scores scores (r ∷ rs) = collect_scores (add_scores scores r.evaluators) rs

-- A list of scores is never empty here, so the `if scores` of the source keeps every name.
unfoldable pub evaluator_scores : RunResult → Dict Ratio
unfolding collect_scores completed_results
evaluator_scores run =
    map (λ e. (e.0, mean e.1)) (sort_keys (collect_scores [] (completed_results run)))
