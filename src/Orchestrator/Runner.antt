-- ===== src/Orchestrator/Runner.antt =====
-- LocalBackend.execute of orchestrator/runner.py: one attempt, from the files of its case to its
-- verdict. The workspace and the recorder are those of the attempt; the agent, the suite and the text
-- of a trajectory are arguments. Violations reach the recorder through the workspace. A trajectory is
-- written to the disk that the workspace is on.
pub mod Traces
pub mod Persisting
pub mod Containment
use evalstack.Prelude.{
  ℕ, String, Bool, true, false, not, ◌&&◌, ◌||◌, ◌==◌, leb, str_eq, if◌then◌else◌, Option, none,
  some, List, [], ◌∷◌, ◌++◌, length,
}
use evalstack.Prelude.Text.{◌+++◌}
use evalstack.Prelude.Effect.{
  Fault, path_escape, file_not_found, os_error, value_error, Result, done, failed, Effect, pure,
  ◌>>=◌, ◌>>◌,
}
use evalstack.Schema.Case.{FileSpec}
use evalstack.Schema.Trajectory.{
  Trajectory, SafetyViolation, total_cost_usd, total_input_tokens, total_output_tokens,
}
use evalstack.Schema.Result.{EvaluatorResult, CaseResult, completed}
use evalstack.Trace.Recorder.{
  TrajectoryRecorder, new_recorder, build, record_agent_error, record_safety_violation,
}
use Prim.Native.Char.{code}
use evalstack.Trace.Truncate.Decimal.{decimal}
use evalstack.Env.Disk.{FilePath, WriteText, written, unwritable, not_encodable}
use evalstack.Env.Workspace as Workspace
use evalstack.Env.Workspace.{Workspace, Violation, Tools, FileDiff}
use evalstack.Orchestrator.Filename.{safe_filename}
use evalstack.Orchestrator.Jobs.{Job}
use evalstack.Orchestrator.Retry.{Outcome, result, cancel, fatal, fault, bug}

-- How the agent's run ends: it returns, is cancelled, meets an `InfrastructureError`, or crashes with
-- any other exception, given by its type and text.
pub data AgentEnd : Type 0 where
  finished : AgentEnd
  agent_cancelled : AgentEnd
  outage : (is_fatal : Bool) → String → AgentEnd
  crashed : (error_type text : String) → AgentEnd

pub data Evaluation : Type 0 where
  evaluated : List EvaluatorResult → Evaluation
  evaluation_timeout : Evaluation
  evaluation_cancelled : Evaluation
  evaluator_raised : (error_type text : String) → Evaluation

-- What `_persist` returns, or the exception that it raises.
pub data Saved : Type 0 where
  saved : Option String → Saved
  unsaved : String → Saved

pub record Execution (D : Type 0) : Type 0 where
  pub outcome : Outcome
  -- the trajectories that `_persist` was called with, in order
  pub traces : List Trajectory
  pub workspace : Workspace D TrajectoryRecorder

pub record Backend (D : Type 0) : Type 0 where
  pub tools : Tools D TrajectoryRecorder
  pub clock : ℕ → ℕ
  pub agent : Workspace D TrajectoryRecorder → Workspace D TrajectoryRecorder × AgentEnd
  pub evaluate :
      Trajectory
      → FileDiff
      → Workspace D TrajectoryRecorder
      → Workspace D TrajectoryRecorder × Evaluation
  -- the suite's verdict, where `none` is its `ValueError`
  pub verdict : List EvaluatorResult → Option Bool
  -- `RunnerConfig.trajectory_dir`
  pub trajectory_dir : Option FilePath
  pub run_id : String
  -- `short(text_hash(value), 8)`
  pub short_hash : String → String
  pub to_jsonl : Trajectory → String
  -- `str` of a path
  pub show_path : FilePath → String
  pub duration : ℕ
  pub timeout_text : String

-- `record_violation`, which the workspace is given as `on_violation`
abbrev pub record_violation : (ℕ → ℕ) → Violation → TrajectoryRecorder → TrajectoryRecorder
record_violation clock v r =
    record_safety_violation r (clock (length r.events))
      (record { rule = v.rule; detail = v.detail; attempted = v.attempted })

module _ {D : Type 0} (b : Backend D) where
  abbrev pub target_dir : FilePath → FilePath
  target_dir directory = directory ++ safe_filename b.short_hash b.run_id ∷ []

  -- The file of a trajectory in the given `trajectory_dir`.
  abbrev pub trace_path : FilePath → Trajectory → FilePath
  trace_path directory t =
      target_dir directory
      ++ (safe_filename b.short_hash t.case_id +++ "--" +++ decimal t.attempt +++ ".jsonl") ∷ []

  -- After `path.write_text(...)`.
  abbrev pub after_write :
      FilePath
      → Workspace D TrajectoryRecorder
      → D × WriteText
      → Workspace D TrajectoryRecorder × Saved
  after_write path w (d, written) = (record w { disk = d }, saved (some (b.show_path path)))
  after_write path w (d, unwritable e) = (record w { disk = d }, unsaved ("OSError: " +++ e))
  after_write path w (d, not_encodable e) =
      (record w { disk = d }, unsaved ("UnicodeEncodeError: " +++ e))

  -- After `target_dir.mkdir(...)`.
  abbrev pub after_mkdir :
      (path : FilePath) (text : String)
      → Workspace D TrajectoryRecorder
      → D × Option String
      → Workspace D TrajectoryRecorder × Saved
  after_mkdir path text w (d, some e) = (record w { disk = d }, unsaved ("OSError: " +++ e))
  after_mkdir path text w (d, none) = after_write path w (b.tools.disk.write_text d path text)

  -- `_persist`
  unfoldable pub persist :
      Trajectory → Workspace D TrajectoryRecorder → Workspace D TrajectoryRecorder × Saved
  persist t w = elim b.trajectory_dir [
    | none ↦ (w, saved none)
    | some directory ↦
        after_mkdir (trace_path directory t) (b.to_jsonl t) w
          (b.tools.disk.make_directory w.disk (target_dir directory))
  ]

  -- The loop of `workspace_for` over the files of the case, and the baseline.
  unfoldable pub materialise : List FileSpec → Effect (Workspace D TrajectoryRecorder) (Unit {0})
  materialise [] = Workspace.set_baseline b.tools
  materialise (f ∷ fs) = do edit ← Workspace.write_file b.tools f.path f.contents; materialise fs

  abbrev after_persist : Saved → Outcome → Outcome
  after_persist (saved path) o = o
  after_persist (unsaved e) o = bug e

  -- `self._persist(recorder.build())` in a handler, before the exception goes on.
  unfoldable pub give_up : Outcome → Workspace D TrajectoryRecorder → Execution D
  unfolding persist
  give_up o w =
      let trajectory = build w.observer in
      let x = persist trajectory w in
      record { outcome = after_persist x.1 o; traces = trajectory ∷ []; workspace = x.0 }

  -- An exception that no handler catches: nothing is persisted.
  unfoldable pub escape : String → Workspace D TrajectoryRecorder → Execution D
  escape text w = record { outcome = bug text; traces = []; workspace = w }

  -- A fault of the workspace: only an `OSError` is a workspace failure.
  unfoldable pub on_fault : Fault → Workspace D TrajectoryRecorder → Execution D
  on_fault (os_error e) w = give_up (fault ("InfrastructureError: workspace failure: " +++ e)) w
  on_fault (file_not_found e) w =
      give_up (fault ("InfrastructureError: workspace failure: " +++ e)) w
  on_fault (path_escape e) w = escape ("PathEscapeError: " +++ e) w
  on_fault (value_error e) w = escape ("ValueError: " +++ e) w

  abbrev case_result : Job → Bool → List EvaluatorResult → Trajectory → Option String → CaseResult
  case_result job passed results trajectory path = record {
    case_id = job.case.case_id;
    attempt = job.attempt;
    status = completed;
    passed = passed;
    evaluators = results;
    duration_s = b.duration;
    cost_usd = total_cost_usd trajectory;
    input_tokens = total_input_tokens trajectory;
    output_tokens = total_output_tokens trajectory;
    trajectory_path = path;
    error = none;
  }

  abbrev judged : Job → Option Bool → List EvaluatorResult → Trajectory → Option String → Outcome
  judged job none results trajectory path = bug "ValueError: no result for a gating evaluator"
  judged job (some passed) results trajectory path =
      result (case_result job passed results trajectory path)

  abbrev completed_as : Job → Saved → List EvaluatorResult → Trajectory → Outcome
  completed_as job (saved path) results trajectory =
      judged job (b.verdict results) results trajectory path
  completed_as job (unsaved e) results trajectory = bug e

  -- After the evaluators.
  unfoldable pub after_evaluation : Job → Workspace D TrajectoryRecorder × Evaluation → Execution D
  unfolding persist
  after_evaluation job (w, evaluated results) =
      let trajectory = build w.observer in
      let x = persist trajectory w in
      record {
        outcome = completed_as job x.1 results trajectory;
        traces = trajectory ∷ [];
        workspace = x.0;
      }
  after_evaluation job (w, evaluation_timeout) =
      give_up (fault ("InfrastructureError: evaluation exceeded " +++ b.timeout_text)) w
  after_evaluation job (w, evaluation_cancelled) = give_up cancel w
  after_evaluation job (w, evaluator_raised error_type text) =
      give_up (fault ("InfrastructureError: evaluator raised " +++ error_type +++ ": " +++ text)) w

  -- The diff is frozen before an evaluator runs.
  unfoldable pub after_diff : Job → Workspace D TrajectoryRecorder × Result FileDiff → Execution D
  after_diff job (w, failed e) = on_fault e w
  after_diff job (w, done diff) = after_evaluation job (b.evaluate (build w.observer) diff w)

  unfoldable pub evaluate_attempt : Job → Workspace D TrajectoryRecorder → Execution D
  evaluate_attempt job w = after_diff job (Workspace.diff b.tools w)

  abbrev crash : Job → Workspace D TrajectoryRecorder → Option TrajectoryRecorder → Execution D
  crash job w none = escape "ValueError: max_output_chars must be positive" w
  crash job w (some r) = evaluate_attempt job (record w { observer = r })

  unfoldable pub after_agent : Job → Workspace D TrajectoryRecorder × AgentEnd → Execution D
  after_agent job (w, finished) = evaluate_attempt job w
  after_agent job (w, agent_cancelled) = give_up cancel w
  after_agent job (w, outage true text) = give_up (fatal text) w
  after_agent job (w, outage false text) = give_up (fault text) w
  after_agent job (w, crashed error_type text) =
      crash job w
        (record_agent_error w.observer (b.clock (length w.observer.events)) error_type text)

  unfoldable pub after_setup :
      Job → Workspace D TrajectoryRecorder × Result (Unit {0}) → Execution D
  after_setup job (w, failed e) = on_fault e w
  after_setup job (w, done _) = after_agent job (b.agent w)

  -- `execute` in the fresh workspace of the attempt
  unfoldable pub execute : Job → Workspace D TrajectoryRecorder → Execution D
  execute job w = after_setup job (materialise job.case.files w)
