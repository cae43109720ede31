-- ===== src/Orchestrator/Retry.antt =====
-- RetryPolicy and Scheduler._run_job of orchestrator/scheduler.py. Times count milliseconds; the
-- outcome of each call of the backend is an argument.
pub mod Attempts
use evalstack.Prelude.{
  ℕ, zero, suc, ◌+◌, ◌-◌, ◌*◌, ◌^◌, min, String, Bool, true, false, Option, none, some, List, [],
  ◌∷◌, ltb, if◌then◌else◌,
}
use evalstack.Prelude.Text.{◌+++◌}
use evalstack.Prelude.Int.{ℤ, pos, negsuc}
use evalstack.Schema.Result.{CaseStatus, completed, timed_out, infra_error, cancelled, CaseResult}
use evalstack.Orchestrator.Jobs.{Job}

pub record RetryPolicy : Type 0 where
  pub max_attempts : ℕ
  pub base_delay : ℕ
  pub max_delay : ℕ

-- `none` where `__post_init__` raises `ValueError`.
unfoldable pub retry_policy : ℤ → ℕ → ℕ → Option RetryPolicy
retry_policy (negsuc n) base_delay max_delay = none
retry_policy (pos zero) base_delay max_delay = none
retry_policy (pos (suc n)) base_delay max_delay =
    some (record { max_attempts = suc n; base_delay = base_delay; max_delay = max_delay })

unfoldable pub delay_for : RetryPolicy → ℕ → ℕ
delay_for p retry_index = min p.max_delay (p.base_delay * 2 ^ retry_index)

-- How one `wait_for(backend.execute(job))` ends. `fault` is an `InfrastructureError` that is not
-- fatal, and `bug` any other exception; each holds the text `"{type}: {message}"`.
pub data Outcome : Type 0 where
  result : CaseResult → Outcome
  cancel : Outcome
  timeout : Outcome
  fatal : String → Outcome
  fault : String → Outcome
  bug : String → Outcome

-- How `_run_job` ends: with a result, or with an exception that it lets through.
pub data Ending : Type 0 where
  ends : CaseResult → Ending
  cancelled_error : Ending
  unhandled : String → Ending

-- What the scheduler did: the calls of the backend, and the delays that it slept for, in order.
pub record Run : Type 0 where
  pub ending : Ending
  pub calls : ℕ
  pub delays : List ℕ

unfoldable pub status_result : Job → CaseStatus → String → ℕ → CaseResult
status_result job status error duration = record {
  case_id = job.case.case_id;
  attempt = job.attempt;
  status = status;
  passed = false;
  evaluators = [];
  duration_s = duration;
  cost_usd = 0;
  input_tokens = 0;
  output_tokens = 0;
  trajectory_path = none;
  error = some error;
}

abbrev error_text : Option String → String
error_text none = "infrastructure error"
error_text (some text) = text

abbrev stop : ℕ → Ending → Run
stop calls ending = record { ending = ending; calls = calls; delays = [] }

abbrev pub after_delay : ℕ → Run → Run
after_delay d r = record r { delays = d ∷ r.delays }

-- `elapsed` is the clock's difference when the result is made, `limit_text` the printed job timeout.
module _ (policy : RetryPolicy) (job : Job) (limit_text : String) (elapsed : ℕ)
    (backend : ℕ → Outcome) where
  unfoldable give_up : ℕ → Option String → Run
  give_up calls last_error =
      stop calls (ends (status_result job infra_error (error_text last_error) elapsed))

  -- The `for` loop: `rounds` are left, and `index` is the round that comes.
  unfoldable run_rounds : (rounds index : ℕ) → Option String → Run
  unfolding give_up
  run_rounds zero index last_error = give_up index last_error
  run_rounds (suc rounds) index last_error = elim (backend index) [
    | result r ↦ stop (index + 1) (ends r)
    | cancel ↦ stop (index + 1) cancelled_error
    | timeout ↦
        stop (index + 1)
          (ends (status_result job timed_out ("job exceeded " +++ limit_text +++ "s") elapsed))
    | fatal e ↦ give_up (index + 1) (some e)
    | fault e ↦ elim (ltb (index + 1) policy.max_attempts) [
      | true ↦ after_delay (delay_for policy index) (run_rounds rounds (index + 1) (some e))
      | false ↦ run_rounds rounds (index + 1) (some e)
    ]
    | bug e ↦ stop (index + 1) (unhandled e)
  ]

  unfoldable pub run_job : Run
  unfolding run_rounds
  run_job = run_rounds policy.max_attempts 0 none
