-- ===== src/Orchestrator/Scheduler/Order.antt =====
-- Scheduler.run of orchestrator/scheduler.py: bounded concurrency, and results in the order of jobs.
use evalstack.Prelude.{
  ℕ, zero, suc, ◌+◌, ◌≤◌, ◌≡◌, refl, ap, Option, some, List, [], ◌∷◌, map, get_elem?, set, count_if,
  if◌then◌else◌, arith,
}
use evalstack.Schema.Result.{CaseResult}
use evalstack.Orchestrator.Jobs.{Job}
use evalstack.Orchestrator.Retry.{Ending}
use evalstack.Orchestrator.Scheduler.{
  Slot, queued, running, dropped, done, is_running, State, Sink, worker_result, deliver,
  drop_unfinished, cancel_all, begin, collect, Step, enters, finishes, aborts, interrupted, Reach,
  start, next,
}

-- Each written slot holds what the worker of the job at that place made of its job.
abbrev SlotOf : Job → Ending → Slot → Type 0
SlotOf job e (done r) = worker_result job e ≡ some r
SlotOf job e _ = Unit

abbrev pub Matches : (ℕ → Ending) → ℕ → List Job → List Slot → Type 0
Matches ending i [] [] = Unit
Matches ending i [] (_ ∷ _) = ⊥
Matches ending i (_ ∷ _) [] = ⊥
Matches ending i (job ∷ jobs) (slot ∷ slots) =
    SlotOf job (ending i) slot × Matches ending (suc i) jobs slots

count-set :
    (slots : List Slot) (i : ℕ) (old new : Slot)
    → get_elem? slots i ≡ some old
    → count_if is_running (set slots i new) + (if is_running old then 1 else 0)
      ≡ count_if is_running slots + (if is_running new then 1 else 0)
count-set [] i old new h = absurd (ground arith)
count-set (x ∷ slots) zero old new h = ground arith
count-set (x ∷ slots) (suc i) old new h = omega (arith, count-set slots i old new h)

Matches-set_done :
    (ending : ℕ → Ending) (k i at : ℕ) (jobs : List Job) (slots : List Slot) (job : Job)
    (r : CaseResult)
    → at ≡ k + i
    → get_elem? jobs i ≡ some job
    → worker_result job (ending at) ≡ some r
    → Matches ending k jobs slots
    → Matches ending k jobs (set slots i (done r))
Matches-set_done ending k i at [] [] job r e g n m = m
Matches-set_done ending k i at [] (x ∷ slots) job r e g n m = absurd m
Matches-set_done ending k i at (j ∷ jobs) [] job r e g n m = m
Matches-set_done ending k zero at (j ∷ jobs) (x ∷ slots) job r e g n m =
    let here : at ≡ k = omega arith in (cc (ap ending here), m.1)
Matches-set_done ending k (suc i) at (j ∷ jobs) (x ∷ slots) job r e g n m =
    (m.0, Matches-set_done ending (suc k) i at jobs slots job r (omega arith) g n m.1)

Matches-set_running :
    (ending : ℕ → Ending) (k i : ℕ) (jobs : List Job) (slots : List Slot)
    → Matches ending k jobs slots
    → Matches ending k jobs (set slots i running)
Matches-set_running ending k i [] [] m = m
Matches-set_running ending k i [] (x ∷ slots) m = absurd m
Matches-set_running ending k i (j ∷ jobs) [] m = m
Matches-set_running ending k zero (j ∷ jobs) (x ∷ slots) m = (tt, m.1)
Matches-set_running ending k (suc i) (j ∷ jobs) (x ∷ slots) m =
    (m.0, Matches-set_running ending (suc k) i jobs slots m.1)

SlotOf-drop :
    (job : Job) (e : Ending) (x : Slot) → SlotOf job e x → SlotOf job e (drop_unfinished x)
SlotOf-drop job e (done r) h = h
SlotOf-drop job e queued h = tt
SlotOf-drop job e running h = tt
SlotOf-drop job e dropped h = tt

Matches-drop :
    (ending : ℕ → Ending) (k : ℕ) (jobs : List Job) (slots : List Slot)
    → Matches ending k jobs slots
    → Matches ending k jobs (map drop_unfinished slots)
Matches-drop ending k [] [] m = m
Matches-drop ending k [] (x ∷ slots) m = absurd m
Matches-drop ending k (j ∷ jobs) [] m = m
Matches-drop ending k (j ∷ jobs) (x ∷ slots) m =
    (SlotOf-drop j (ending k) x m.0, Matches-drop ending (suc k) jobs slots m.1)

Matches-begin :
    (ending : ℕ → Ending) (k : ℕ) (jobs : List Job) → Matches ending k jobs (map (λ _. queued) jobs)
Matches-begin ending k [] = tt
Matches-begin ending k (j ∷ jobs) = (tt, Matches-begin ending (suc k) jobs)

count-queued : (jobs : List Job) → count_if is_running (map (λ _. queued) jobs) ≡ 0
count-queued [] = refl
count-queued (j ∷ jobs) = omega (arith, count-queued jobs)

count-drop : (slots : List Slot) → count_if is_running (map drop_unfinished slots) ≡ 0
count-drop [] = refl
count-drop (x ∷ slots) = ground (arith, count-drop slots)

pub collect-drop : (slots : List Slot) → collect (map drop_unfinished slots) ≡ collect slots
collect-drop [] = refl
collect-drop (x ∷ slots) = ground (arith, collect-drop slots)

pub record IsSound (jobs : List Job) (ending : ℕ → Ending) (concurrency : ℕ) (s : State)
    : Type 0 where
  pub matches : Matches ending 0 jobs s.slots
  pub bounded : count_if is_running s.slots ≤ concurrency

module _ (jobs : List Job) (ending : ℕ → Ending) (concurrency : ℕ) (sink : Sink) where
  pub deliver-slots :
      (i : ℕ) (r : CaseResult) (s : State) → (deliver sink i r s).slots ≡ set s.slots i (done r)
  unfolding deliver
  deliver-slots i r s = ground arith

  Step-IsSound :
      {s s' : State}
      → Step jobs ending concurrency sink s s'
      → IsSound jobs ending concurrency s
      → IsSound jobs ending concurrency s'
  unfolding cancel_all
  Step-IsSound {s} {s'} (enters i live at room e) h = rw e (record {
    matches = Matches-set_running ending 0 i jobs s.slots h.matches;
    bounded = omega (arith, count-set s.slots i queued running at);
  })
  Step-IsSound {s} {s'} (finishes i job r live at j w e) h = rw e (record {
    matches =
        rw (deliver-slots i r s)
          (Matches-set_done ending 0 i i jobs s.slots job r (omega arith) j w h.matches);
    bounded =
        rw (deliver-slots i r s)
          (omega (arith, h.bounded, count-set s.slots i running (done r) at));
  })
  Step-IsSound {s} {s'} (aborts i job live at j w e) h = rw e (record {
    matches = Matches-drop ending 0 jobs s.slots h.matches;
    bounded = omega (arith, count-drop s.slots);
  })
  Step-IsSound {s} {s'} (interrupted live e) h = rw e (record {
    matches = Matches-drop ending 0 jobs s.slots h.matches;
    bounded = omega (arith, count-drop s.slots);
  })

  -- In every reachable state at most `concurrency` workers are inside the semaphore, there is a slot
  -- for each job, and a written slot holds what the worker made of the job at its place.
  pub schedule-IsSound :
      {s : State} → Reach jobs ending concurrency sink s → IsSound jobs ending concurrency s
  unfolding begin
  schedule-IsSound start = record {
    matches = Matches-begin ending 0 jobs;
    bounded = omega (arith, count-queued jobs);
  }
  schedule-IsSound (next r st) = Step-IsSound st (schedule-IsSound r)

abbrev pub AllDone : List Slot → Type 0
AllDone [] = Unit
AllDone (done r ∷ rest) = AllDone rest
AllDone (_ ∷ rest) = ⊥

-- What each worker makes of its job, in the order of the jobs.
abbrev pub expected : (ℕ → Ending) → ℕ → List Job → List (Option CaseResult)
expected ending k [] = []
expected ending k (job ∷ jobs) = worker_result job (ending k) ∷ expected ending (suc k) jobs

collect-Matches :
    (ending : ℕ → Ending) (k : ℕ) (jobs : List Job) (slots : List Slot)
    → Matches ending k jobs slots
    → AllDone slots
    → map some (collect slots) ≡ expected ending k jobs
collect-Matches ending k [] [] m d = refl
collect-Matches ending k [] (x ∷ slots) m d = absurd m
collect-Matches ending k (j ∷ jobs) [] m d = absurd m
collect-Matches ending k (j ∷ jobs) (done r ∷ slots) m d =
    cc (m.0, collect-Matches ending (suc k) jobs slots m.1 d)
collect-Matches ending k (j ∷ jobs) (queued ∷ slots) m d = absurd d
collect-Matches ending k (j ∷ jobs) (running ∷ slots) m d = absurd d
collect-Matches ending k (j ∷ jobs) (dropped ∷ slots) m d = absurd d

-- Once every worker is done, in whatever order they started and finished, the results are those of
-- the jobs in the order of the jobs, one for each.
pub results_in_job_order :
    (jobs : List Job) (ending : ℕ → Ending) (concurrency : ℕ) (sink : Sink) {s : State}
    → Reach jobs ending concurrency sink s
    → AllDone s.slots
    → map some (collect s.slots) ≡ expected ending 0 jobs
results_in_job_order jobs ending concurrency sink {s} r d =
    collect-Matches ending 0 jobs s.slots (schedule-IsSound jobs ending concurrency sink r).matches
      d
