-- ===== src/Tests/Calls.antt =====
-- Budgets, rate limits and the trace at concrete inputs.
use evalstack.Prelude.{
  Option, if◌then◌else◌, ◌==◌, ℕ, ◌≡◌, refl, List, [], ◌∷◌, none, some, false, String, arith,
}
use evalstack.Prelude.Int.{ℤ, pos}
use evalstack.Json.{end}
use evalstack.Model.{ModelRequest, ModelResponse, Usage, answered, end_turn}
use evalstack.Model.Pricing.{unknown}
use evalstack.Model.Budget.{BudgetLimits, BudgetGuard, fresh_guard, Reservation, reserve, settle}
use evalstack.Model.Budget.Ledger as Ledger
use evalstack.Model.Budget.Client.{BudgetedModelClient, complete, charge, complete-charge}
use evalstack.Model.RateLimit.{
  RateLimits, RateLimiter, new_limiter, observe, acquire, round, wait_needed, request_wait, prune,
  token_wait,
}
use evalstack.Model.RateLimit.Acquire.{acquire_terminates}
use evalstack.Model.RateLimit.History.{Grants, start, acquires, acquire-Grants}
use evalstack.Trace.Truncate.{truncate}
use evalstack.Trace.Truncate.Bounds.{Truncated, truncate-Truncated}
use evalstack.Trace.Recorder.{new_recorder, perform_all, Call, starts, submits, calls_tool}
use evalstack.Trace.Recorder.Invariant.{Goes, last_reading, recording-IsSound}

abbrev limits : BudgetLimits
limits = record { max_calls = some 2; max_tokens = some 100; max_usd = none }

abbrev reservation : Reservation
reservation = record { tokens = 40; usd = 3 }

abbrev usage : Usage
usage = record { input_tokens = 30; output_tokens = 15 }

abbrev reserved_guard : BudgetGuard
reserved_guard = record (fresh_guard limits) {
  reserved_tokens = 40;
  reserved_usd = 3;
  in_flight = 1;
}

abbrev one_call : Ledger.Ledger
one_call = record {
  guard = reserved_guard;
  outstanding = reservation ∷ [];
  overshoot_tokens = 0;
  overshoot_usd = 0;
}

abbrev settled_guard : BudgetGuard
settled_guard = record (fresh_guard limits) { calls = 1; tokens = 45; spent_usd = 2 }

abbrev settled_call : Ledger.Ledger
settled_call = record {
  guard = settled_guard;
  outstanding = [];
  overshoot_tokens = 5;
  overshoot_usd = 0;
}

run_of_calls : Ledger.Reach limits settled_call
unfolding reserve settle
run_of_calls =
    Ledger.next
      (Ledger.next {s' = one_call} Ledger.start
        (Ledger.admitted 40 3 reservation refl refl refl refl))
      (Ledger.settled [] [] reservation usage 2 refl refl refl refl refl)

Reach-IsSound_example : Ledger.IsSound limits settled_call
Reach-IsSound_example = Ledger.Reach-IsSound limits run_of_calls

abbrev request : ModelRequest
request = record { messages = []; tools = []; temperature = 0; max_tokens = 200 }

abbrev response : ModelResponse
response = record {
  model = "m";
  text = "done";
  tool_calls = [];
  usage = usage;
  stop_reason = end_turn;
  cost_usd = 2;
  latency_ms = 7;
  cached = false;
}

abbrev client : BudgetedModelClient
client = record {
  model = "m";
  inner = λ r. answered response;
  pricing = record { rates = []; default = unknown };
}

complete-charge_example :
    (complete client (λ x. x) request (fresh_guard limits)).0
    ≡ charge (complete client (λ x. x) request (fresh_guard limits)).1 (fresh_guard limits)
complete-charge_example = complete-charge client request (fresh_guard limits)

abbrev allowance : RateLimits
allowance = record { requests_per_minute = some 1; tokens_per_minute = some 50 }

abbrev quiet : ℕ → List (Option ℤ)
quiet k = []

abbrev limiter : RateLimiter
limiter = record {
  limits = allowance;
  events = record { at = 1000; tokens = 20 } ∷ [];
  waits = 0;
  total_wait = 0;
}

-- 40 tokens a minute are reported during the first sleep.
abbrev lowered : ℕ → List (Option ℤ)
lowered k = if k == 1 then some (pos 40) ∷ [] else []

acquire_terminates_example :
    (r : RateLimiter × ℕ) × (acquire (λ k. k) lowered 3 limiter 5000 30 ≡ some r)
acquire_terminates_example =
    acquire_terminates (λ k. k) lowered 1 limiter 5000 30 1 (omega arith, omega arith) (tt, tt)
      (λ k h. ground arith) (omega arith)

abbrev after_wait : RateLimiter
after_wait = record {
  limits = record { requests_per_minute = some 1; tokens_per_minute = some 40 };
  events = record { at = 61001; tokens = 30 } ∷ [];
  waits = 1;
  total_wait = 56000;
}

first_acquired : acquire (λ k. k) quiet 1 (new_limiter allowance) 1000 20 ≡ some (limiter, 1000)
unfolding acquire round wait_needed request_wait prune token_wait
first_acquired = refl

acquired : acquire (λ k. k) lowered 3 limiter 5000 30 ≡ some (after_wait, 61001)
unfolding acquire round wait_needed request_wait prune token_wait observe
acquired = refl

acquire-Grants_example :
    Grants limiter (record { at = 1000; tokens = 20 } ∷ []) 5000 30 (after_wait, 61001)
acquire-Grants_example =
    acquire-Grants (λ k. k) lowered 3 limiter 5000 30 (record { at = 1000; tokens = 20 } ∷ []) 1000
      (after_wait, 61001)
      (acquires (λ k. k) quiet 1 1000 20 (limiter, 1000)
        (start allowance 0 (omega arith, omega arith)) (omega arith) refl first_acquired)
      refl (omega arith) acquired

truncate-Truncated_example : (r : String) × (truncate "abcdef" 3 ≡ some r) × Truncated "abcdef" 3 r
truncate-Truncated_example = truncate-Truncated "abcdef" 3 (omega arith)

abbrev calls : List (ℕ × Call)
calls = (5, starts "p") ∷ (9, calls_tool "read_file" end) ∷ (9, submits "done") ∷ []

recording-IsSound_example :
    Goes
      (new_recorder "r" "c" 0 4000)
      (last_reading 0 calls)
      (perform_all calls (new_recorder "r" "c" 0 4000))
recording-IsSound_example =
    recording-IsSound "r" "c" 0 4000 calls (omega arith)
      (omega arith, (omega arith, (omega arith, tt)))
