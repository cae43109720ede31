-- ===== src/Orchestrator/Retry/Attempts.antt =====
-- Scheduler._run_job of orchestrator/scheduler.py: only infrastructure faults are tried again.
use evalstack.Prelude.{
  ℕ, zero, suc, ◌+◌, ◌≤◌, ◌<◌, ◌≡◌, refl, ◌⊎◌, inl, inr, ◌∙◌, ap, sym, ◌*◌, ◌-◌, min, String,
  Option, none, some, List, [], ◌∷◌, arith, lt→ltb,
}
use mathlib.Core.Path.{subst}
use native.Mathlib.Nat.{pow-suc}
use evalstack.Prelude.Text.{◌+++◌}
use evalstack.Schema.Result.{timed_out, infra_error}
use evalstack.Orchestrator.Jobs.{Job}
use evalstack.Orchestrator.Retry.{
  RetryPolicy, delay_for, Outcome, result, cancel, timeout, fatal, fault, bug, Ending, ends,
  cancelled_error, unhandled, Run, status_result, after_delay, run_rounds, run_job,
}

abbrev pub IsFault : Outcome → Type 0
IsFault (fault e) = Unit
IsFault _ = ⊥

IsFault-dec : (o : Outcome) → Dec (IsFault o)
IsFault-dec (fault e) = yes tt
IsFault-dec (result r) = no (λ h. h)
IsFault-dec cancel = no (λ h. h)
IsFault-dec timeout = no (λ h. h)
IsFault-dec (fatal e) = no (λ h. h)
IsFault-dec (bug e) = no (λ h. h)

fault-text : (o : Outcome) → IsFault o → (x : String) × (o ≡ fault x)
fault-text (fault x) h = (x, refl)
fault-text (result r) h = absurd h
fault-text cancel h = absurd h
fault-text timeout h = absurd h
fault-text (fatal x) h = absurd h
fault-text (bug x) h = absurd h

module _ (policy : RetryPolicy) (job : Job) (limit_text : String) (elapsed : ℕ)
    (backend : ℕ → Outcome) where
  -- What is made of the outcome of the last call.
  abbrev pub verdict : Outcome → Ending
  verdict (result r) = ends r
  verdict cancel = cancelled_error
  verdict timeout =
      ends (status_result job timed_out ("job exceeded " +++ limit_text +++ "s") elapsed)
  verdict (fatal e) = ends (status_result job infra_error e elapsed)
  verdict (fault e) = ends (status_result job infra_error e elapsed)
  verdict (bug e) = unhandled e

  -- The `n` backoff delays from retry `index` on.
  abbrev pub delays_from : ℕ → ℕ → List ℕ
  delays_from index zero = []
  delays_from index (suc n) = delay_for policy index ∷ delays_from (index + 1) n

  -- The next `k` calls, from `index` on, end with an infrastructure fault.
  abbrev pub AllFault : ℕ → ℕ → Type 0
  AllFault index zero = Unit
  AllFault index (suc k) = IsFault (backend index) × AllFault (index + 1) k

  abbrev pub Ends : ℕ → ℕ → Type 0
  Ends last rounds_after = (¬ IsFault (backend last)) ⊎ (rounds_after ≡ 0)

  other_ends :
      (rounds index : ℕ) (e : Option String) (o : Outcome)
      → backend index ≡ o
      → ¬ IsFault o
      → run_rounds policy job limit_text elapsed backend (suc rounds) index e
        ≡ record { ending = verdict o; calls = index + 1; delays = [] }
  unfolding run_rounds
  other_ends rounds index e (fault x) b h = absurd (h tt)
  other_ends rounds index e o b h = rw (b, run_rounds)

  last_fault :
      (index : ℕ) (e : Option String) (x : String)
      → backend index ≡ fault x
      → index + 1 ≡ policy.max_attempts
      → run_rounds policy job limit_text elapsed backend 1 index e
        ≡ record { ending = verdict (fault x); calls = index + 1; delays = [] }
  unfolding run_rounds
  last_fault index e x b m = rw (b, run_rounds) (ground arith)

  early_fault :
      (rounds index : ℕ) (e : Option String) (x : String)
      → backend index ≡ fault x
      → index + 1 < policy.max_attempts
      → run_rounds policy job limit_text elapsed backend (suc rounds) index e
        ≡ after_delay
            (delay_for policy index)
            (run_rounds policy job limit_text elapsed backend rounds (index + 1) (some x))
  unfolding run_rounds
  early_fault rounds index e x b m = rw (b, run_rounds, lt→ltb _ _ m)

  abbrev pub attempts : ℕ → ℕ → Run
  attempts index k = record {
    ending = verdict (backend (index + k));
    calls = index + k + 1;
    delays = delays_from index k;
  }

  -- What the loop does with `rounds` rounds left.
  pub record Stops (rounds index : ℕ) (r : Run) : Type 0 where
    pub faults : ℕ
    pub within : faults < rounds
    pub all_fault : AllFault index faults
    pub last : (¬ IsFault (backend (index + faults))) ⊎ (faults + 1 ≡ rounds)
    pub is : r ≡ attempts index faults

  one_more :
      (rounds index : ℕ) (r : Run) (x : String)
      → backend index ≡ fault x
      → Stops (suc rounds) (index + 1) r
      → Stops (suc (suc rounds)) index (after_delay (delay_for policy index) r)
  one_more rounds index r x b s =
      let there : index + 1 + s.faults ≡ index + suc s.faults = omega arith in
      record {
        faults = suc s.faults;
        within = omega (arith, s.within);
        all_fault = (rw b tt, s.all_fault);
        last = elim s.last [
          | inl other ↦ inl (rw there at other)
          | inr none_left ↦ inr (omega arith)
        ];
        is = ap (after_delay (delay_for policy index)) s.is ∙ rw there;
      }

  rounds-Stops :
      (rounds index : ℕ) (e : Option String)
      → index + suc rounds ≡ policy.max_attempts
      → Stops
          (suc rounds)
          index
          (run_rounds policy job limit_text elapsed backend (suc rounds) index e)
  rounds-Stops zero index e m =
      let here : index + 0 ≡ index = omega arith in
      elim (IsFault-dec (backend index)) [
        | no other ↦ record {
          faults = 0;
          within = omega arith;
          all_fault = tt;
          last = inl (rw here other);
          is = rw here (other_ends 0 index e (backend index) refl other);
        }
        | yes f ↦
            let (x, b) = fault-text (backend index) f in
            record {
              faults = 0;
              within = omega arith;
              all_fault = tt;
              last = inr refl;
              is = rw (here, b) (last_fault index e x b (omega arith));
            }
      ]
  rounds-Stops (suc rounds) index e m =
      let here : index + 0 ≡ index = omega arith in
      elim (IsFault-dec (backend index)) [
        | no other ↦ record {
          faults = 0;
          within = omega arith;
          all_fault = tt;
          last = inl (rw here other);
          is = rw here (other_ends (suc rounds) index e (backend index) refl other);
        }
        | yes f ↦
            let (x, b) = fault-text (backend index) f in
            rw (early_fault (suc rounds) index e x b (omega arith))
              (one_more rounds index _ x b (rounds-Stops rounds (index + 1) (some x) (omega arith)))
      ]

  -- Every job ends. The calls of the backend go on exactly as long as they end with an
  -- infrastructure fault that is not fatal and attempts are left: after some number of such faults,
  -- below `max_attempts`, comes a call that ended otherwise or was the last one allowed. The result
  -- is that call's verdict (a returned result as it is, a timeout and a fatal fault recorded without
  -- another try), and between the calls the policy's delays were slept, in order.
  pub run_job-Stops :
      0 < policy.max_attempts
      → Stops policy.max_attempts 0 (run_job policy job limit_text elapsed backend)
  unfolding run_job
  run_job-Stops h =
      let e : policy.max_attempts ≡ suc (policy.max_attempts - 1) = omega arith in
      subst (λ n. Stops n 0 (run_rounds policy job limit_text elapsed backend n 0 none)) (sym e)
        (rounds-Stops (policy.max_attempts - 1) 0 none (omega arith))

-- Each delay is at most the maximum, and is twice the one before it until the maximum is reached.
pub delay_for_doubles :
    (p : RetryPolicy) (i : ℕ)
    → (delay_for p i ≤ p.max_delay)
      × (delay_for p i ≤ delay_for p (suc i))
      × (delay_for p (suc i) ≡ min p.max_delay (2 * delay_for p i))
unfolding delay_for
delay_for_doubles p i = omega (arith, ap (λ (x : ℕ). p.base_delay * x) (pow-suc 2 i))
