-- ===== src/Orchestrator/Scheduler.antt =====
-- Scheduler.run of orchestrator/scheduler.py: a worker for each job, a semaphore, the slots of the
-- results, and the sink `on_result`. The order in which workers start and finish is the event
-- loop's choice, so it is a step relation; `ending i` is how `_run_job` ends for job `i`.
pub mod Order
pub mod Progress
pub mod Delivery
use evalstack.Prelude.{
  ℕ, zero, suc, ◌+◌, ◌<◌, ◌≡◌, Bool, true, false, Option, none, some, List, [], ◌∷◌, ◌++◌, map,
  length, get_elem?, set, count_if, if◌then◌else◌, String, ltb,
}
use evalstack.Prelude.Text.{◌+++◌}
use evalstack.Prelude.Int.{ℤ, pos, negsuc}
use evalstack.Schema.Result.{CaseResult, infra_error}
use evalstack.Orchestrator.Jobs.{Job}
use evalstack.Orchestrator.Retry.{Ending, ends, cancelled_error, unhandled, status_result}

-- A worker: before the semaphore, inside it, or past it with `results[index]` written; `dropped` is
-- a worker that was cancelled.
pub data Slot : Type 0 where
  queued running dropped : Slot
  done : CaseResult → Slot

abbrev pub is_running : Slot → Bool
is_running running = true
is_running _ = false

pub record State : Type 0 where
  pub slots : List Slot
  pub persisted : List CaseResult
  pub unpersisted : List CaseResult
  pub cancelled : Bool

-- `on_result`: absent, or a function that may raise (`false`).
abbrev pub Sink : Type 0
Sink = Option (CaseResult → Bool)

-- `none` where a concurrency below 1 raises `ValueError`.
unfoldable pub concurrency_of : ℤ → Option ℕ
concurrency_of (negsuc n) = none
concurrency_of (pos zero) = none
concurrency_of (pos (suc n)) = some (suc n)

-- The `try` of `worker`: any exception but cancellation becomes a recorded casualty.
unfoldable pub worker_result : Job → Ending → Option CaseResult
worker_result job (ends r) = some r
worker_result job (unhandled e) = some (status_result job infra_error ("unhandled " +++ e) 0)
worker_result job cancelled_error = none

-- The rest of `worker`: the slot is written, then the sink is told.
unfoldable pub deliver : Sink → ℕ → CaseResult → State → State
deliver none i r s = record s { slots = set s.slots i (done r) }
deliver (some sink) i r s =
    if sink r
    then record s { slots = set s.slots i (done r); persisted = s.persisted ++ r ∷ [] }
    else record s { slots = set s.slots i (done r); unpersisted = s.unpersisted ++ r ∷ [] }

abbrev pub drop_unfinished : Slot → Slot
drop_unfinished (done r) = done r
drop_unfinished _ = dropped

-- The handler of `CancelledError`: every task is cancelled.
unfoldable pub cancel_all : State → State
cancel_all s = record s { slots = map drop_unfinished s.slots; cancelled = true }

-- The slots hold as many queued workers as there are jobs.
unfoldable pub begin : List Job → State
begin jobs = record {
  slots = map (λ _. queued) jobs;
  persisted = [];
  unpersisted = [];
  cancelled = false;
}

-- `tuple(result for result in results if result is not None)`
abbrev pub collect : List Slot → List CaseResult
collect [] = []
collect (done r ∷ rest) = r ∷ collect rest
collect (_ ∷ rest) = collect rest

module _ (jobs : List Job) (ending : ℕ → Ending) (concurrency : ℕ) (sink : Sink) where
  pub data Step (s s' : State) : Type 0 where
    -- A worker enters the semaphore.
    enters :
        (i : ℕ)
        → s.cancelled ≡ false
        → get_elem? s.slots i ≡ some queued
        → count_if is_running s.slots < concurrency
        → s' ≡ record s { slots = set s.slots i running }
        → Step s s'
    -- A worker finishes its job.
    finishes :
        (i : ℕ) (job : Job) (r : CaseResult)
        → s.cancelled ≡ false
        → get_elem? s.slots i ≡ some running
        → get_elem? jobs i ≡ some job
        → worker_result job (ending i) ≡ some r
        → s' ≡ deliver sink i r s
        → Step s s'
    -- A job ends with `CancelledError`.
    aborts :
        (i : ℕ) (job : Job)
        → s.cancelled ≡ false
        → get_elem? s.slots i ≡ some running
        → get_elem? jobs i ≡ some job
        → worker_result job (ending i) ≡ none
        → s' ≡ cancel_all s
        → Step s s'
    -- `run` itself is cancelled from outside.
    interrupted : s.cancelled ≡ false → s' ≡ cancel_all s → Step s s'

  pub data Reach : State → Type 0 where
    start : Reach (begin jobs)
    next : {s s' : State} → Reach s → Step s s' → Reach s'
