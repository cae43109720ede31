-- ===== src/Agent/Replay.antt =====
-- ReplayAgent of agent/replay.py: the tool calls of a recorded trajectory on a fresh workspace.
pub mod Calls
pub mod Containment
use evalstack.Prelude.{
  ℕ, ◌+◌, ◌≡◌, String, Bool, true, false, Option, none, some, List, [], ◌∷◌, ◌++◌, ◌&&◌, length,
}
use evalstack.Prelude.Effect.{Result, done, failed, Effect, pure, ◌>>=◌, ◌>>◌}
use evalstack.Json.{get_field, as_string}
use evalstack.Schema.Trajectory.{
  Event, Body, ModelCall, ToolCall, AgentError, task_started, model_call, tool_call, tool_result,
  file_edit, command_run, safety_violation, submission, agent_error,
}
use evalstack.Trace.Recorder.{
  TrajectoryRecorder, record_task_started, record_model_call, record_agent_error,
}
use evalstack.Agent.Tools.{
  ToolContext, ToolBox, with_recorder, recorded, now, list_files, read_file, write_file, run_tests,
  submit,
}
use evalstack.Agent.Tools.Dispatch.{
  ToolName, lists, reads, writes, replaces, tests, submits, unknown, tool_name, or_empty,
}

-- What `run` works on: the tools and `_skipped`.
pub record Replaying (D : Type 0) : Type 0 where
  pub box : ToolBox D
  pub skipped : List String

-- `_string_argument`
unfoldable pub argument : ToolCall → String → Option String
unfolding get_field as_string
argument t name = as_string (get_field name t.args)

-- The model call is recorded again at no cost.
abbrev pub free : ModelCall → ModelCall
free call = record call { cost_usd = 0; cached = true }

abbrev without_value : {A : Type 0} → Result A → Result (Unit {0})
without_value (done a) = done tt
without_value (failed e) = failed e

module _ {D : Type 0} where
  abbrev on_box : {A : Type 0} → Effect (ToolBox D) A → Effect (Replaying D) (Unit {0})
  on_box m s = let (b, r) = m s.box in (record s { box = b }, without_value r)

  abbrev skip : String → Effect (Replaying D) (Unit {0})
  skip tool s = (record s { skipped = s.skipped ++ tool ∷ [] }, done tt)

module _ {D : Type 0} (c : ToolContext D) where
  abbrev replay_read : String → Option String → Effect (Replaying D) (Unit {0})
  replay_read tool none = skip tool
  replay_read tool (some path) = on_box (read_file c path)

  abbrev replay_write : String → Option String → Option String → Effect (Replaying D) (Unit {0})
  replay_write tool (some path) (some contents) = on_box (write_file c path contents)
  replay_write tool _ _ = skip tool

  -- The cases of the `match` on the name of the tool, which has none for `replace_text`.
  unfoldable pub replay_as : ToolName → ToolCall → Effect (Replaying D) (Unit {0})
  replay_as lists t = on_box (list_files c)
  replay_as reads t = replay_read t.tool (argument t "path")
  replay_as writes t = replay_write t.tool (argument t "path") (argument t "contents")
  replay_as tests t = on_box (run_tests c)
  replay_as submits t = on_box (submit c (or_empty c (argument t "summary")))
  replay_as replaces t = skip t.tool
  replay_as unknown t = skip t.tool

  -- `_replay_call`
  unfoldable pub replay_call : ToolCall → Effect (Replaying D) (Unit {0})
  unfolding replay_as
  replay_call t = replay_as (tool_name t.tool) t

  unfoldable pub replay_model : ModelCall → Effect (ToolBox D) (Unit {0})
  unfolding record_model_call
  replay_model call b =
      (with_recorder (record_model_call b.workspace.observer (now c b) (free call)) b, done tt)

  unfoldable pub replay_error : AgentError → Effect (ToolBox D) (Unit {0})
  unfolding record_agent_error
  replay_error e =
      recorded (λ b. record_agent_error b.workspace.observer (now c b) e.error_type e.message)

  -- The body of the loop over the events.
  unfoldable pub replay_event : Body → Effect (Replaying D) (Unit {0})
  unfolding replay_call
  replay_event (model_call call) = on_box (replay_model call)
  replay_event (tool_call t) = replay_call t
  replay_event (agent_error e) = on_box (replay_error e)
  replay_event _ = pure tt

  unfoldable pub replay_events : List (Event Body) → Effect (Replaying D) (Unit {0})
  unfolding replay_event
  replay_events [] = pure tt
  replay_events (e ∷ es) = do replay_event e.body; replay_events es

  unfoldable pub start_task : (prompt_hash : String) → Effect (ToolBox D) (Unit {0})
  unfolding record_task_started
  start_task prompt_hash b =
      (with_recorder (record_task_started b.workspace.observer (now c b) prompt_hash) b, done tt)

  -- `run`, on the events of the trajectory
  unfoldable pub run : (prompt_hash : String) → List (Event Body) → Effect (Replaying D) (Unit {0})
  unfolding replay_events start_task
  run prompt_hash events = do on_box (start_task prompt_hash); replay_events events
