-- ===== src/Agent/Run.antt =====
-- ModelAgent.run of agent/model_agent.py on its tool box: the loop with the tools of agent/tools.py,
-- which share the recorder of the workspace.
pub mod Containment
use evalstack.Prelude.{ℕ, ◌≡◌, refl, String, Bool, true, false, none, List, [], ◌∷◌}
use evalstack.Prelude.Text.{◌+++◌}
use evalstack.Prelude.Effect.{
  Fault, path_escape, file_not_found, os_error, value_error, Result, done, failed,
}
use evalstack.Model.{ModelRequest, Reply, cancelled, exception, ToolSpec, ToolInvocation}
use evalstack.Trace.Recorder.{TrajectoryRecorder}
use evalstack.Env.Workspace.{Workspace}
use evalstack.Agent.Tools.{ToolContext, ToolBox}
use evalstack.Agent.Tools.Dispatch.{invoke}
use evalstack.Agent.Loop as Loop
use evalstack.Agent.Loop.{
  ModelAgentConfig, AgentEnding, returned, fatal_infrastructure, infrastructure_error, escaped,
  client_threw, Attempt,
}
use evalstack.Orchestrator.Runner.{AgentEnd, finished, agent_cancelled, outage, crashed}

-- The box of `ToolBox(case=case, workspace=..., recorder=...)`
abbrev new_box : {D : Type 0} → Workspace D TrajectoryRecorder → ToolBox D
new_box w = record { workspace = w; tests_passed = none; submitted = false }

module _ {D : Type 0} (c : ToolContext D) where
  -- A call of a tool with the shared recorder.
  unfoldable pub invoke_shared :
      TrajectoryRecorder
      → ToolBox D
      → ToolInvocation
      → (TrajectoryRecorder × ToolBox D) × Result String
  invoke_shared r b call =
      let (after, text) =
        invoke c call (record b { workspace = record (b.workspace) { observer = r } }) in
      ((after.workspace.observer, after), text)

  abbrev was_submitted : ToolBox D → Bool
  was_submitted b = b.submitted

  -- The workspace that an attempt leaves, with its recorder.
  abbrev left_by : Attempt (ToolBox D) → Workspace D TrajectoryRecorder
  left_by a = record (a.world.workspace) { observer = a.recorder }

  abbrev crash_of : Fault → AgentEnd
  crash_of (path_escape e) = crashed "PathEscapeError" e
  crash_of (file_not_found e) = crashed "FileNotFoundError" e
  crash_of (os_error e) = crashed "OSError" e
  crash_of (value_error e) = crashed "ValueError" e

  -- How the runner sees the ending.
  abbrev pub end_of : AgentEnding → AgentEnd
  end_of returned = finished
  end_of (fatal_infrastructure e) = outage true e
  end_of (infrastructure_error e) = outage false e
  end_of (escaped e) = crash_of e
  end_of (client_threw cancelled) = agent_cancelled
  end_of (client_threw (exception error_type text)) = crashed error_type text

  module _ (client : ℕ → ModelRequest → Reply) (specs : List ToolSpec)
      (settings : ModelAgentConfig) where
    -- The run of the loop on the tools of a workspace.
    unfoldable pub attempt :
        (prompt_hash prompt : String) → Workspace D TrajectoryRecorder → Attempt (ToolBox D)
    unfolding invoke_shared
    attempt prompt_hash prompt w =
        Loop.run invoke_shared was_submitted client c.clock specs settings w.observer (new_box w)
          prompt_hash prompt

    -- `agent.run(context)`, as the runner calls it.
    unfoldable pub run_agent :
        (prompt_hash prompt : String)
        → Workspace D TrajectoryRecorder
        → Workspace D TrajectoryRecorder × AgentEnd
    unfolding attempt
    run_agent prompt_hash prompt w =
        let a = attempt prompt_hash prompt w in (left_by a, end_of a.ending)
