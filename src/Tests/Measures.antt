-- ===== src/Tests/Measures.antt =====
-- Statistics, comparisons, clusters and selection at concrete inputs.
use evalstack.Prelude.{
  str_eq, ◌&&◌, ◌<◌, Option, ℕ, ◌≡◌, refl, List, [], ◌∷◌, ◌++◌, none, some, Bool, true, false, not,
  String, map, arith, length, count_if, sum_of, All,
}
use mathlib.Core.List.{Perm}
use evalstack.Prelude.Dict.{Dict, get}
use evalstack.Prelude.Ratio.{zero_ratio, ratio_leb, Ratio, IsUnit}
use evalstack.Schema.Result.{CaseResult, completed, RunResult, tallies, rate}
use evalstack.Schema.Result.Tallies.{get-tallies, grown, passes_at, attempts_at}
use evalstack.Stats.Sampling.{pass_at_k, pass_hat_k}
use evalstack.Stats.Sampling.Laws.{Estimates, pass-Estimates}
use evalstack.Stats.Significance.{
  McNemarResult, mcnemar, discordant, count_pairs, no_counts, overflows_at,
}
use evalstack.Stats.Significance.Laws.{Tabulates, mcnemar-Tabulates}
use evalstack.Regression.Compare.Shared.{disagreements}
use evalstack.Regression.Compare.{ComparisonReport, compare, shared_keys, case_rates}
use evalstack.Regression.Compare.Verdicts.{Reports, compare-Reports}
use evalstack.Regression.Compare.Verdicts.OneSample.{Agrees, verdict-Agrees}
use evalstack.Regression.Clustering.{size, cluster_failures}
use evalstack.Regression.Clustering.Coverage.{IsProper, cluster_failures-covers}
use evalstack.Selection.{CaseValue, select_within_budget, within_budget}
use evalstack.Selection.Budget.{IsTooDear, cost_of, select-maximal}

pass-Estimates_example :
    (at : Ratio) × (hat : Ratio) × (pass_at_k 5 2 3 ≡ some at)
    × (pass_hat_k 5 2 3 ≡ some hat)
    × Estimates at hat
pass-Estimates_example = pass-Estimates 5 2 3 (omega arith) (omega arith) (omega arith)

abbrev alpha : Ratio
alpha = record { num = 5; den = 100 }

abbrev old_outcomes : List Bool
old_outcomes = true ∷ false ∷ true ∷ []

abbrev new_outcomes : List Bool
new_outcomes = true ∷ true ∷ false ∷ []

few_outcomes : discordant (count_pairs old_outcomes new_outcomes no_counts) < overflows_at
unfolding count_pairs
few_outcomes = omega arith

mcnemar-Tabulates_example :
    (r : McNemarResult) × (mcnemar old_outcomes new_outcomes alpha ≡ some r)
    × Tabulates old_outcomes new_outcomes r.counts
    × IsUnit r.p_value
mcnemar-Tabulates_example = mcnemar-Tabulates old_outcomes new_outcomes alpha refl few_outcomes

abbrev result_of : String → Bool → CaseResult
result_of id passed = record {
  case_id = id;
  attempt = 0;
  status = completed;
  passed = passed;
  evaluators = [];
  duration_s = 4;
  cost_usd = 1;
  input_tokens = 2;
  output_tokens = 3;
  trajectory_path = none;
  error = none;
}

abbrev old_run : RunResult
old_run = record {
  run_id = "r1";
  agent_ref = "agent@1";
  agent_hash = "x";
  dataset_name = "bugs";
  dataset_version = "1";
  dataset_hash = "d";
  suite_name = "default";
  suite_hash = "s";
  samples_per_case = 1;
  concurrency = 1;
  case_results = result_of "a" true ∷ [];
  notes = "";
}

abbrev new_run : RunResult
new_run = record old_run {
  run_id = "r2";
  agent_hash = "y";
  case_results = result_of "a" false ∷ [];
}

get-tallies_example :
    get "a" (tallies old_run)
    ≡ grown none (passes_at "a" old_run.case_results) (attempts_at "a" old_run.case_results)
get-tallies_example = get-tallies old_run "a"

abbrev bootstrap : List Ratio → List Ratio → ℕ
bootstrap before after = length before

abbrev formula : Ratio → Ratio → Ratio → Ratio → Option ℕ
formula baseline effect level power = some 100

few_disagreements : disagreements old_run new_run < overflows_at
unfolding count_pairs shared_keys case_rates tallies get rate evalstack.Prelude.Sort.sort
    evalstack.Prelude.Dict.sort_keys evalstack.Prelude.Dict.update
few_disagreements = omega arith

compare-Reports_example :
    (r : ComparisonReport ℕ) × (compare bootstrap formula old_run new_run alpha ≡ some r)
    × Reports old_run new_run r
compare-Reports_example =
    compare-Reports bootstrap formula old_run new_run alpha (omega arith) (omega arith) (λ a e. 100)
      (λ a e. refl) few_disagreements

verdict-Agrees_example :
    (r : ComparisonReport ℕ) × (compare bootstrap formula old_run new_run alpha ≡ some r) × Agrees r
verdict-Agrees_example =
    verdict-Agrees bootstrap formula old_run new_run alpha (omega arith) (omega arith) (λ a e. 100)
      (λ a e. refl) few_disagreements (λ id. ground arith) (λ id. ground arith)

abbrev value_of : String → ℕ → ℕ → CaseValue
value_of id passes cost = record {
  case_id = id;
  runs_seen = 4;
  pass_rate = record { num = passes; den = 4 };
  mean_cost = record { num = cost; den = 1 };
}

abbrev values : List CaseValue
values = value_of "a" 4 3 ∷ value_of "b" 2 5 ∷ []

abbrev budget : Ratio
budget = record { num = 6; den = 1 }

select-maximal_example :
    (chosen : List CaseValue) × (left : List CaseValue) × ((select_within_budget values budget
        true).case_ids
      ≡ map (λ v. v.case_id) chosen)
    × Perm (chosen ++ left) values
    × ((select_within_budget values budget true).total_cost ≡ cost_of zero_ratio chosen)
    × All (IsTooDear budget (select_within_budget values budget true).total_cost) left
    × (ratio_leb (select_within_budget values budget true).total_cost budget ≡ true)
    × (within_budget (select_within_budget values budget true) ≡ true)
select-maximal_example = select-maximal values budget (omega arith, (omega arith, tt))

abbrev kinds : Dict String
kinds = ("a", "off_by_one") ∷ []

cluster_failures-covers_example :
    (sum_of size (cluster_failures new_run kinds)
      ≡ count_if (λ r. not r.passed) new_run.case_results)
    × All IsProper (cluster_failures new_run kinds)
    × ((name : String)
        → sum_of (λ c. count_if (str_eq name) c.case_ids) (cluster_failures new_run kinds)
          ≡ count_if (λ r. not r.passed && str_eq name r.case_id) new_run.case_results)
cluster_failures-covers_example = cluster_failures-covers new_run kinds
