-- ===== src/Tests/Runs.antt =====
-- Jobs, retries and the scheduler at concrete inputs.
use evalstack.Prelude.{
  zero, suc, Bool, ℕ, ◌≡◌, ◌≤◌, ◌+◌, ◌*◌, ◌⊎◌, refl, List, [], ◌∷◌, none, some, true, false, String,
  map, arith, get_elem?, length,
}
use evalstack.Prelude.Int.{pos}
use evalstack.Schema.Case.{EvalCase, easy}
use evalstack.Schema.Result.{CaseResult, completed}
use evalstack.Orchestrator.Jobs.{Job, build_jobs}
use evalstack.Orchestrator.Jobs.Coverage.{build_jobs-interleaves}
use evalstack.Orchestrator.Retry.{RetryPolicy, Outcome, result, fault, Ending, ends, run_job}
use evalstack.Orchestrator.Retry.Attempts.{Stops, run_job-Stops}
use evalstack.Orchestrator.Scheduler as Scheduler
use evalstack.Orchestrator.Scheduler.{
  State, queued, running, done, begin, deliver, worker_result, collect,
}
use evalstack.Orchestrator.Scheduler.Order.{
  IsSound, schedule-IsSound, AllDone, expected, results_in_job_order,
}
use evalstack.Orchestrator.Scheduler.Progress.{not_stuck, steps, steps_left, steps_bounded, IsOwn}
use evalstack.Orchestrator.Scheduler.Delivery.{Delivered, Reach-Delivered}

abbrev case_of : String → EvalCase
case_of id = record {
  case_id = id;
  prompt = "fix it";
  files = [];
  test_command = [];
  setup_commands = [];
  timeout_s = 60;
  metadata = record { bug_kind = none; difficulty = easy; target_files = []; tags = [] };
  reference_solution = [];
}

abbrev job : Job
job = record { case = case_of "a"; attempt = 0 }

abbrev passed_result : CaseResult
passed_result = record {
  case_id = "a";
  attempt = 0;
  status = completed;
  passed = true;
  evaluators = [];
  duration_s = 4;
  cost_usd = 1;
  input_tokens = 2;
  output_tokens = 3;
  trajectory_path = none;
  error = none;
}

build_jobs-interleaves_example :
    (jobs : List Job) × (build_jobs (case_of "a" ∷ case_of "b" ∷ []) (pos 2) ≡ some jobs)
    × (length jobs ≡ 2 * 2)
    × (get_elem? jobs (1 * 2 + 1) ≡ some (record { case = case_of "b"; attempt = 1 }))
build_jobs-interleaves_example =
    build_jobs-interleaves (case_of "a" ∷ case_of "b" ∷ []) 2 1 1 (case_of "b") (omega arith) refl

abbrev policy : RetryPolicy
policy = record { max_attempts = 3; base_delay = 500; max_delay = 8000 }

-- One infrastructure fault, then a result.
abbrev backend : ℕ → Outcome
backend zero = fault "OSError: full"
backend (suc n) = result passed_result

run_job-Stops_example : Stops policy job "60" 7 backend 3 0 (run_job policy job "60" 7 backend)
run_job-Stops_example = run_job-Stops policy job "60" 7 backend (omega arith)

abbrev ending : ℕ → Ending
ending n = ends passed_result

abbrev sink : CaseResult → Bool
sink r = false

abbrev entered : State
entered = record { slots = running ∷ []; persisted = []; unpersisted = []; cancelled = false }

abbrev finished : State
finished = record {
  slots = done passed_result ∷ [];
  persisted = [];
  unpersisted = passed_result ∷ [];
  cancelled = false;
}

schedule : Scheduler.Reach (job ∷ []) ending 1 (some sink) finished
unfolding begin deliver worker_result
schedule =
    Scheduler.next
      (Scheduler.next {s' = entered} Scheduler.start
        (Scheduler.enters 0 refl refl (omega arith) refl))
      (Scheduler.finishes 0 job passed_result refl refl refl refl refl)

half_way : Scheduler.Reach (job ∷ []) ending 1 (some sink) entered
unfolding begin
half_way = Scheduler.next Scheduler.start (Scheduler.enters 0 refl refl (omega arith) refl)

schedule-IsSound_example : IsSound (job ∷ []) ending 1 finished
schedule-IsSound_example = schedule-IsSound (job ∷ []) ending 1 (some sink) schedule

results_in_job_order_example : map some (collect finished.slots) ≡ expected ending 0 (job ∷ [])
results_in_job_order_example = results_in_job_order (job ∷ []) ending 1 (some sink) schedule tt

not_stuck_example :
    AllDone entered.slots
    ⊎ ((s' : State) × (st : Scheduler.Step (job ∷ []) ending 1 (some sink) entered s') × IsOwn
          (job ∷ [])
          ending
          1
          (some sink)
          st)
not_stuck_example = not_stuck (job ∷ []) ending 1 (some sink) (omega arith) half_way refl

steps_bounded_example :
    steps (job ∷ []) ending 1 (some sink) schedule + steps_left finished ≤ 2 * 1 + 1
steps_bounded_example = steps_bounded (job ∷ []) ending 1 (some sink) schedule

Reach-Delivered_example : Delivered sink finished
Reach-Delivered_example = Reach-Delivered (job ∷ []) ending 1 sink schedule
