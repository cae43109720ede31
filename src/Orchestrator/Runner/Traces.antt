-- ===== src/Orchestrator/Runner/Traces.antt =====
-- LocalBackend.execute of orchestrator/runner.py: which trajectory is kept, and what a verdict rests on.
use evalstack.Prelude.{
  ◌≡◌, refl, ap, sym, subst, Option-cases, ◌⊎◌, inl, inr, String, Bool, true, false, Option, none,
  some, List, [], ◌∷◌,
}
use evalstack.Prelude.Effect.{
  Fault, path_escape, file_not_found, os_error, value_error, Result, done, failed,
}
use evalstack.Schema.Trajectory.{
  Trajectory, total_cost_usd, total_input_tokens, total_output_tokens,
}
use evalstack.Schema.Result.{EvaluatorResult, completed}
use evalstack.Trace.Recorder.{TrajectoryRecorder, build}
use evalstack.Env.Disk.{FilePath, WriteText, written, unwritable, not_encodable}
use evalstack.Env.Workspace as Workspace
use evalstack.Env.Workspace.{Workspace, FileDiff}
use evalstack.Orchestrator.Jobs.{Job}
use evalstack.Orchestrator.Retry.{Outcome, result, cancel, fatal, fault, bug, timeout}
use evalstack.Orchestrator.Runner.{
  AgentEnd, finished, agent_cancelled, outage, crashed, Evaluation, evaluated, evaluation_timeout,
  evaluation_cancelled, evaluator_raised, Saved, saved, unsaved, Execution, Backend, materialise,
  persist, after_write, after_mkdir, give_up, escape, on_fault, after_evaluation, after_diff,
  evaluate_attempt, after_agent, after_setup, execute, completed_as, after_persist, crash,
}

abbrev pub IsBug : Outcome → Type 0
IsBug (bug text) = Unit
IsBug _ = ⊥

abbrev pub IsResult : Outcome → Type 0
IsResult (result c) = Unit
IsResult _ = ⊥

module _ {D : Type 0} (b : Backend D) where
  -- What a result says is what its trajectory and the suite's verdict say, and its path is where that
  -- trajectory was written, which left the workspace `v`.
  abbrev pub Rests : Job → Outcome → Trajectory → Workspace D TrajectoryRecorder → Type 0
  Rests job (result c) t v =
      (c.case_id ≡ job.case.case_id)
      × (c.attempt ≡ job.attempt)
      × (c.status ≡ completed)
      × (b.verdict c.evaluators ≡ some c.passed)
      × (c.cost_usd ≡ total_cost_usd t)
      × (c.input_tokens ≡ total_input_tokens t)
      × (c.output_tokens ≡ total_output_tokens t)
      × ((w : Workspace D TrajectoryRecorder) × (persist b t w ≡ (v, saved c.trajectory_path)))
  Rests job o t v = Unit

  pub record Accounts (job : Job) (x : Execution D) : Type 0 where
    pub kept : (x.traces ≡ build x.workspace.observer ∷ []) ⊎ ((x.traces ≡ []) × IsBug x.outcome)
    pub rests : Rests job x.outcome (build x.workspace.observer) x.workspace

  after_write-observer :
      (path : FilePath) (w : Workspace D TrajectoryRecorder) (x : D × WriteText)
      → (after_write b path w x).0.observer ≡ w.observer
  after_write-observer path w (d, written) = refl
  after_write-observer path w (d, unwritable e) = refl
  after_write-observer path w (d, not_encodable e) = refl

  after_mkdir-observer :
      (path : FilePath) (text : String) (w : Workspace D TrajectoryRecorder) (x : D × Option String)
      → (after_mkdir b path text w x).0.observer ≡ w.observer
  after_mkdir-observer path text w (d, some e) = refl
  after_mkdir-observer path text w (d, none) = after_write-observer path w _

  -- Persisting records nothing.
  pub persist-observer :
      (t : Trajectory) (w : Workspace D TrajectoryRecorder)
      → (persist b t w).0.observer ≡ w.observer
  unfolding persist
  persist-observer t w = elim (Option-cases b.trajectory_dir) [
    | inl e ↦ rw e refl
    | inr (directory, e) ↦ rw e (after_mkdir-observer _ _ w _)
  ]

  -- An execution that persists what the workspace has recorded.
  persisted-Accounts :
      (job : Job) (w : Workspace D TrajectoryRecorder) (o : Outcome)
      → Rests job o (build w.observer) (persist b (build w.observer) w).0
      → Accounts job (record {
        outcome = o;
        traces = build w.observer ∷ [];
        workspace = (persist b (build w.observer) w).0;
      })
  persisted-Accounts job w o h =
      let same = sym (persist-observer (build w.observer) w) in
      record {
        kept = inl (ap (λ r. build r ∷ []) same);
        rests = subst (λ r. Rests job o (build r) (persist b (build w.observer) w).0) same h;
      }

  give_up-Accounts :
      (job : Job) (o : Outcome) (w : Workspace D TrajectoryRecorder)
      → (IsResult o → ⊥)
      → Accounts job (give_up b o w)
  unfolding give_up
  give_up-Accounts job o w no_result =
      let x = persist b (build w.observer) w in
      persisted-Accounts job w (after_persist b x.1 o) (persisted x.0 x.1 o no_result)
    where
      persisted :
          (v : Workspace D TrajectoryRecorder) (s : Saved) (o : Outcome)
          → (IsResult o → ⊥)
          → Rests job (after_persist b s o) (build w.observer) v
      persisted v (unsaved e) o h = tt
      persisted v (saved path) (result c) h = absurd (h tt)
      persisted v (saved path) cancel h = tt
      persisted v (saved path) timeout h = tt
      persisted v (saved path) (fatal e) h = tt
      persisted v (saved path) (fault e) h = tt
      persisted v (saved path) (bug e) h = tt

  escape-Accounts :
      (job : Job) (text : String) (w : Workspace D TrajectoryRecorder)
      → Accounts job (escape b text w)
  unfolding escape
  escape-Accounts job text w = record { kept = inr (refl, tt); rests = tt }

  on_fault-Accounts :
      (job : Job) (e : Fault) (w : Workspace D TrajectoryRecorder) → Accounts job (on_fault b e w)
  unfolding on_fault
  on_fault-Accounts job (os_error e) w = give_up-Accounts job _ w (λ h. h)
  on_fault-Accounts job (file_not_found e) w = give_up-Accounts job _ w (λ h. h)
  on_fault-Accounts job (path_escape e) w = escape-Accounts job _ w
  on_fault-Accounts job (value_error e) w = escape-Accounts job _ w

  judged-Rests :
      (job : Job) (results : List EvaluatorResult) (t : Trajectory)
      (w v : Workspace D TrajectoryRecorder) (s : Saved) (verdict : Option Bool)
      → persist b t w ≡ (v, s)
      → b.verdict results ≡ verdict
      → Rests job (completed_as b job s results t) t v
  judged-Rests job results t w v (unsaved e) verdict p q = tt
  judged-Rests job results t w v (saved path) none p q = rw q tt
  judged-Rests job results t w v (saved path) (some passed) p q =
      rw q (refl, refl, refl, q, refl, refl, refl, (w, p))

  after_evaluation-Accounts :
      (job : Job) (w : Workspace D TrajectoryRecorder) (e : Evaluation)
      → Accounts job (after_evaluation b job (w, e))
  unfolding after_evaluation
  after_evaluation-Accounts job w (evaluated results) =
      let t = build w.observer in
      let x = persist b t w in
      persisted-Accounts job w (completed_as b job x.1 results t)
        (judged-Rests job results t w x.0 x.1 _ refl refl)
  after_evaluation-Accounts job w evaluation_timeout = give_up-Accounts job _ w (λ h. h)
  after_evaluation-Accounts job w evaluation_cancelled = give_up-Accounts job _ w (λ h. h)
  after_evaluation-Accounts job w (evaluator_raised t e) = give_up-Accounts job _ w (λ h. h)

  after_diff-Accounts :
      (job : Job) (x : Workspace D TrajectoryRecorder × Result FileDiff)
      → Accounts job (after_diff b job x)
  unfolding after_diff
  after_diff-Accounts job (w, failed e) = on_fault-Accounts job e w
  after_diff-Accounts job (w, done diff) =
      let x = b.evaluate (build w.observer) diff w in after_evaluation-Accounts job x.0 x.1

  evaluate-Accounts :
      (job : Job) (w : Workspace D TrajectoryRecorder) → Accounts job (evaluate_attempt b job w)
  unfolding evaluate_attempt
  evaluate-Accounts job w = after_diff-Accounts job (Workspace.diff b.tools w)

  crash-Accounts :
      (job : Job) (w : Workspace D TrajectoryRecorder) (o : Option TrajectoryRecorder)
      → Accounts job (crash b job w o)
  crash-Accounts job w none = escape-Accounts job _ w
  crash-Accounts job w (some r) = evaluate-Accounts job (record w { observer = r })

  after_agent-Accounts :
      (job : Job) (w : Workspace D TrajectoryRecorder) (e : AgentEnd)
      → Accounts job (after_agent b job (w, e))
  unfolding after_agent
  after_agent-Accounts job w finished = evaluate-Accounts job w
  after_agent-Accounts job w agent_cancelled = give_up-Accounts job _ w (λ h. h)
  after_agent-Accounts job w (outage true text) = give_up-Accounts job _ w (λ h. h)
  after_agent-Accounts job w (outage false text) = give_up-Accounts job _ w (λ h. h)
  after_agent-Accounts job w (crashed t e) = crash-Accounts job w _

  after_setup-Accounts :
      (job : Job) (x : Workspace D TrajectoryRecorder × Result (Unit {0}))
      → Accounts job (after_setup b job x)
  unfolding after_setup
  after_setup-Accounts job (w, failed e) = on_fault-Accounts job e w
  after_setup-Accounts job (w, done _) = let x = b.agent w in after_agent-Accounts job x.0 x.1

  -- However an attempt ends, one trajectory is persisted, the one with everything that was recorded;
  -- the exception is an exception that no handler catches, which persists none. A result is that of
  -- the job, completed, with the verdict of the suite on its evaluators, and its cost, its tokens and
  -- its path are those of that trajectory.
  pub execute-Accounts :
      (job : Job) (w : Workspace D TrajectoryRecorder) → Accounts job (execute b job w)
  unfolding execute
  execute-Accounts job w = after_setup-Accounts job (materialise b job.case.files w)

  no_result : (s : Saved) (o : Outcome) → (IsResult o → ⊥) → IsResult (after_persist b s o) → ⊥
  no_result (saved p) o f x = f x
  no_result (unsaved e) o f x = x

  -- An outage of the provider that ends the agent's run never becomes a verdict on the agent.
  outage-no-result :
      (job : Job) (w v u : Workspace D TrajectoryRecorder) (is_fatal : Bool) (text : String)
      → materialise b job.case.files w ≡ (v, done tt)
      → b.agent v ≡ (u, outage is_fatal text)
      → IsResult (execute b job w).outcome
      → ⊥
  unfolding execute after_setup after_agent give_up
  outage-no-result job w v u true text set_up ended h =
      no_result (persist b (build u.observer) u).1 (fatal text) (λ x. x) (rw (set_up, ended) at h)
  outage-no-result job w v u false text set_up ended h =
      no_result (persist b (build u.observer) u).1 (fault text) (λ x. x) (rw (set_up, ended) at h)
