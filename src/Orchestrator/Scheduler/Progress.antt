-- ===== src/Orchestrator/Scheduler/Progress.antt =====
-- Scheduler.run of orchestrator/scheduler.py: no run gets stuck, every run ends, a cancelled run
-- keeps what had finished, and every result reaches the sink or is reported as unpersisted.
use evalstack.Prelude.{
  ℕ, zero, suc, ◌+◌, ◌*◌, ◌≤◌, ◌<◌, ◌≡◌, ◌≢◌, ◌⊎◌, inl, inr, refl, false, some, List, [], ◌∷◌, map,
  length, get_elem?, set, count_if, sum_of, if◌then◌else◌, arith, Option-cases,
}
use evalstack.Schema.Result.{CaseResult}
use evalstack.Orchestrator.Jobs.{Job}
use evalstack.Orchestrator.Retry.{Ending}
use evalstack.Orchestrator.Scheduler.{
  Slot, queued, running, dropped, done, is_running, State, Sink, worker_result, deliver,
  drop_unfinished, cancel_all, begin, Step, enters, finishes, aborts, interrupted, Reach, start,
  next,
}
use evalstack.Orchestrator.Scheduler.Order.{AllDone, Matches, schedule-IsSound, deliver-slots}

-- The steps that a worker still has before it.
abbrev weight : Slot → ℕ
weight queued = 2
weight running = 1
weight _ = 0

abbrev pub steps_left : State → ℕ
steps_left s = sum_of weight s.slots + (if s.cancelled then 0 else 1)

sum-set :
    (slots : List Slot) (i : ℕ) (old new : Slot)
    → get_elem? slots i ≡ some old
    → sum_of weight (set slots i new) + weight old ≡ sum_of weight slots + weight new
sum-set [] i old new h = absurd (ground arith)
sum-set (x ∷ slots) zero old new h = ground arith
sum-set (x ∷ slots) (suc i) old new h = omega (arith, sum-set slots i old new h)

sum-drop : (slots : List Slot) → sum_of weight (map drop_unfinished slots) ≡ 0
sum-drop [] = refl
sum-drop (x ∷ slots) = ground (arith, sum-drop slots)

sum-queued : (jobs : List Job) → sum_of weight (map (λ _. queued) jobs) ≡ 2 * length jobs
sum-queued [] = refl
sum-queued (j ∷ jobs) = omega (arith, sum-queued jobs)

-- Nothing is dropped while the run is live.
abbrev NoneDropped : List Slot → Type 0
NoneDropped [] = Unit
NoneDropped (dropped ∷ rest) = ⊥
NoneDropped (_ ∷ rest) = NoneDropped rest

NoneDropped-set :
    (slots : List Slot) (i : ℕ) (new : Slot)
    → new ≢ dropped
    → NoneDropped slots
    → NoneDropped (set slots i new)
NoneDropped-set [] i new n h = tt
NoneDropped-set (x ∷ slots) zero new n h = ground arith
NoneDropped-set (x ∷ slots) (suc i) new n h = ground (arith, NoneDropped-set slots i new n)

NoneDropped-begin : (jobs : List Job) → NoneDropped (map (λ _. queued) jobs)
NoneDropped-begin [] = tt
NoneDropped-begin (j ∷ jobs) = NoneDropped-begin jobs

-- A slot that is not done, in a list with nothing dropped.
data Pending (slots : List Slot) : Type 0 where
  all_done : AllDone slots → Pending slots
  some_running : (i : ℕ) → get_elem? slots i ≡ some running → Pending slots
  only_queued :
      (i : ℕ) → get_elem? slots i ≡ some queued → count_if is_running slots ≡ 0 → Pending slots

pending : (slots : List Slot) → NoneDropped slots → Pending slots
pending [] h = all_done tt
pending (dropped ∷ slots) h = absurd h
pending (running ∷ slots) h = some_running 0 refl
pending (queued ∷ slots) h = elim (pending slots h) [
  | all_done d ↦ only_queued 0 refl (omega (arith, none_running slots d))
  | some_running i e ↦ some_running (suc i) e
  | only_queued i e z ↦ only_queued 0 refl (omega arith)
]
  where
    none_running : (slots : List Slot) → AllDone slots → count_if is_running slots ≡ 0
    none_running [] d = refl
    none_running (done r ∷ slots) d = omega (arith, none_running slots d)
    none_running (queued ∷ slots) d = absurd d
    none_running (running ∷ slots) d = absurd d
    none_running (dropped ∷ slots) d = absurd d
pending (done r ∷ slots) h = elim (pending slots h) [
  | all_done d ↦ all_done d
  | some_running i e ↦ some_running (suc i) e
  | only_queued i e z ↦ only_queued (suc i) e (omega arith)
]

get-Matches :
    (ending : ℕ → Ending) (k i : ℕ) (jobs : List Job) (slots : List Slot) {x : Slot}
    → Matches ending k jobs slots
    → get_elem? slots i ≡ some x
    → (job : Job) × (get_elem? jobs i ≡ some job)
get-Matches ending k i [] [] m g = absurd (ground arith)
get-Matches ending k i [] (x ∷ slots) m g = absurd m
get-Matches ending k i (j ∷ jobs) [] m g = absurd m
get-Matches ending k zero (j ∷ jobs) (x ∷ slots) m g = (j, refl)
get-Matches ending k (suc i) (j ∷ jobs) (x ∷ slots) m g =
    get-Matches ending (suc k) i jobs slots m.1 g

module _ (jobs : List Job) (ending : ℕ → Ending) (concurrency : ℕ) (sink : Sink) where
  abbrev Live : State → Type 0
  Live s = s.cancelled ≡ false → NoneDropped s.slots

  deliver-cancelled :
      (i : ℕ) (r : CaseResult) (s : State) → (deliver sink i r s).cancelled ≡ s.cancelled
  unfolding deliver
  deliver-cancelled i r s = ground arith

  Reach-Live : {s : State} → Reach jobs ending concurrency sink s → Live s
  unfolding begin cancel_all
  Reach-Live start = λ _. NoneDropped-begin jobs
  Reach-Live (next {s} {s'} r (enters i live at room e)) =
      rw e (λ _. NoneDropped-set s.slots i running (λ p. cc p) (Reach-Live r live))
  Reach-Live (next {s} {s'} r (finishes i job x live at j w e)) =
      rw (e, deliver-slots jobs ending concurrency sink i x s)
        (λ _. NoneDropped-set s.slots i (done x) (λ p. cc p) (Reach-Live r live))
  Reach-Live (next r (aborts i job live at j w e)) = rw e (λ p. cc p)
  Reach-Live (next r (interrupted live e)) = rw e (λ p. cc p)

  -- The steps of the workers, as opposed to an interruption from outside.
  abbrev pub IsOwn : {s s' : State} → Step jobs ending concurrency sink s s' → Type 0
  IsOwn (interrupted _ _) = ⊥
  IsOwn _ = Unit

  -- A run that is not cancelled, with a concurrency of at least 1, is never stuck: all its workers
  -- are done, or one of them can take a step.
  pub not_stuck :
      {s : State}
      → 0 < concurrency
      → Reach jobs ending concurrency sink s
      → s.cancelled ≡ false
      → AllDone s.slots ⊎ ((s' : State) × (st : Step jobs ending concurrency sink s s') × IsOwn st)
  not_stuck {s} pos r live = elim (pending s.slots (Reach-Live r live)) [
    | all_done d ↦ inl d
    | some_running i at ↦
        let (job, j) =
          get-Matches ending 0 i jobs s.slots
            (schedule-IsSound jobs ending concurrency sink r).matches at in
        elim (Option-cases (worker_result job (ending i))) [
          | inl none_made ↦ inr (cancel_all s, aborts i job live at j none_made refl, tt)
          | inr (x, w) ↦ inr (deliver sink i x s, finishes i job x live at j w refl, tt)
        ]
    | only_queued i at z ↦
        inr (record s { slots = set s.slots i running }, enters i live at (omega arith) refl, tt)
  ]

  -- Every step brings the run closer to its end.
  Step-steps_left :
      {s s' : State} → Step jobs ending concurrency sink s s' → steps_left s' < steps_left s
  unfolding cancel_all
  Step-steps_left {s} {s'} (enters i live at room e) =
      rw e (omega (arith, sum-set s.slots i queued running at))
  Step-steps_left {s} {s'} (finishes i job x live at j w e) =
      rw (e, deliver-slots jobs ending concurrency sink i x s, deliver-cancelled i x s)
        (omega (arith, sum-set s.slots i running (done x) at))
  Step-steps_left {s} {s'} (aborts i job live at j w e) =
      rw (e, live) (omega (arith, sum-drop s.slots))
  Step-steps_left {s} {s'} (interrupted live e) = rw (e, live) (omega (arith, sum-drop s.slots))

  abbrev pub steps : {s : State} → Reach jobs ending concurrency sink s → ℕ
  steps start = 0
  steps (next r st) = suc (steps r)

  -- Whatever the event loop chooses, a run has at most two steps for each job and one more.
  pub steps_bounded :
      {s : State} (r : Reach jobs ending concurrency sink s)
      → steps r + steps_left s ≤ 2 * length jobs + 1
  unfolding begin
  steps_bounded start = omega (arith, sum-queued jobs)
  steps_bounded (next r st) = omega (arith, steps_bounded r, Step-steps_left st)
