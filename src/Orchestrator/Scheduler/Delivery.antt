-- ===== src/Orchestrator/Scheduler/Delivery.antt =====
-- Scheduler.run of orchestrator/scheduler.py: what reaches the sink.
use evalstack.Prelude.{
  ℕ, zero, suc, ◌+◌, ◌≡◌, refl, Bool, true, false, some, List, [], ◌∷◌, ◌++◌, map, get_elem?, set,
  count_if, if◌then◌else◌, All, All-append, arith, Bool-cases, inl, inr,
}
use evalstack.Schema.Result.{CaseResult}
use evalstack.Orchestrator.Jobs.{Job}
use evalstack.Orchestrator.Retry.{Ending}
use evalstack.Orchestrator.Scheduler.{
  Slot, queued, running, done, State, deliver, cancel_all, begin, collect, enters, finishes, aborts,
  interrupted, Reach, start, next,
}
use evalstack.Orchestrator.Scheduler.Order.{collect-drop}

count-append :
    (p : CaseResult → Bool) (xs : List CaseResult) (r : CaseResult)
    → count_if p (xs ++ r ∷ []) ≡ count_if p xs + (if p r then 1 else 0)
count-append p [] r = omega arith
count-append p (x ∷ xs) r = omega (arith, count-append p xs r)

count-collect_done :
    (p : CaseResult → Bool) (slots : List Slot) (i : ℕ) (r : CaseResult)
    → get_elem? slots i ≡ some running
    → count_if p (collect (set slots i (done r)))
      ≡ count_if p (collect slots) + (if p r then 1 else 0)
count-collect_done p [] i r h = absurd (ground arith)
count-collect_done p (x ∷ slots) zero r h = ground arith
count-collect_done p (x ∷ slots) (suc i) r h = ground (arith, count-collect_done p slots i r h)

count-collect_running :
    (slots : List Slot) (i : ℕ)
    → get_elem? slots i ≡ some queued
    → collect (set slots i running) ≡ collect slots
count-collect_running [] i h = refl
count-collect_running (x ∷ slots) zero h = ground arith
count-collect_running (x ∷ slots) (suc i) h = ground (arith, count-collect_running slots i h)

collect-queued : (jobs : List Job) → collect (map (λ _. queued) jobs) ≡ []
collect-queued [] = refl
collect-queued (j ∷ jobs) = collect-queued jobs

pub record Delivered (sink : CaseResult → Bool) (s : State) : Type 0 where
  pub as_often :
      (p : CaseResult → Bool)
      → count_if p s.persisted + count_if p s.unpersisted ≡ count_if p (collect s.slots)
  pub accepted : All (λ r. sink r ≡ true) s.persisted
  pub refused : All (λ r. sink r ≡ false) s.unpersisted

module _ (jobs : List Job) (ending : ℕ → Ending) (concurrency : ℕ) (sink : CaseResult → Bool) where
  deliver-Delivered :
      (i : ℕ) (r : CaseResult) (s : State)
      → get_elem? s.slots i ≡ some running
      → Delivered sink s
      → Delivered sink (deliver (some sink) i r s)
  unfolding deliver
  deliver-Delivered i r s at d = elim (Bool-cases (sink r)) [
    | inl ok ↦ rw ok (record {
      as_often = λ p.
          omega (
            arith,
            d.as_often p,
            count-append p s.persisted r,
            count-collect_done p s.slots i r at,
          );
      accepted = All-append (λ x. sink x ≡ true) s.persisted (r ∷ []) d.accepted (ok, tt);
      refused = d.refused;
    })
    | inr bad ↦ rw bad (record {
      as_often = λ p. omega (
        arith,
        d.as_often p,
        count-append p s.unpersisted r,
        count-collect_done p s.slots i r at,
      );
      accepted = d.accepted;
      refused = All-append (λ x. sink x ≡ false) s.unpersisted (r ∷ []) d.refused (bad, tt);
    })
  ]

  cancel_all-Delivered : (s : State) → Delivered sink s → Delivered sink (cancel_all s)
  unfolding cancel_all
  cancel_all-Delivered s d = record {
    as_often = λ p. rw (collect-drop s.slots) (d.as_often p);
    accepted = d.accepted;
    refused = d.refused;
  }

  -- In every reachable state, a cancelled one included, the results that `run` returns are those that
  -- the sink accepted and those reported as unpersisted, each as often (by any test on results), and
  -- the unpersisted ones are exactly those for which the sink raised.
  pub Reach-Delivered : {s : State} → Reach jobs ending concurrency (some sink) s → Delivered sink s
  unfolding begin
  Reach-Delivered start = record {
    as_often = λ p. rw (collect-queued jobs);
    accepted = tt;
    refused = tt;
  }
  Reach-Delivered (next {s} r (enters i live at room e)) =
      let d = Reach-Delivered r in
      rw e (record {
        as_often = λ p. rw (count-collect_running s.slots i at) (d.as_often p);
        accepted = d.accepted;
        refused = d.refused;
      })
  Reach-Delivered (next {s} r (finishes i job x live at j w e)) =
      rw e (deliver-Delivered i x s at (Reach-Delivered r))
  Reach-Delivered (next {s} r (aborts i job live at j w e)) =
      rw e (cancel_all-Delivered s (Reach-Delivered r))
  Reach-Delivered (next {s} r (interrupted live e)) =
      rw e (cancel_all-Delivered s (Reach-Delivered r))
