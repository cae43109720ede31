-- ===== src/Agent/Run/Containment.antt =====
-- ModelAgent.run of agent/model_agent.py with its tools: an attempt leaves the files outside the
-- workspace alone.
use evalstack.Prelude.{ℕ, refl, String, List}
use evalstack.Model.{ModelRequest, Reply, ToolSpec, ToolInvocation}
use evalstack.Trace.Recorder.{TrajectoryRecorder}
use evalstack.Env.Disk.{FilePath, IsLocal}
use evalstack.Env.Workspace.{Workspace}
use evalstack.Env.Workspace.Containment.{
  Contained, Contained_refl, Contained_trans, From, From-trans, observed-Contained,
}
use evalstack.Agent.Tools.{ToolContext, ToolBox}
use evalstack.Agent.Tools.Containment.{IsConfined, invoke-From}
use evalstack.Agent.Loop.{ModelAgentConfig}
use evalstack.Agent.Loop.World.{run-world}
use evalstack.Agent.Run.{invoke_shared, was_submitted, attempt, run_agent, new_box}

module _ {D : Type 0} (c : ToolContext D) (root : FilePath) (local : IsLocal c.tools.disk)
    (confined : IsConfined c.tools.disk root c.test_command c.test_timeout) where
  FromBox : ToolBox D → ToolBox D → Type 0
  FromBox u v = From c.tools root u.workspace v.workspace

  shared-FromBox :
      (r : TrajectoryRecorder) (b : ToolBox D) (call : ToolInvocation)
      → FromBox b (invoke_shared c r b call).0.1
  unfolding FromBox invoke_shared
  shared-FromBox r b call e =
      let heard : ToolBox D = record b { workspace = record (b.workspace) { observer = r } } in
      Contained_trans c.tools b.workspace heard.workspace _
        (observed-Contained c.tools b.workspace r) (invoke-From c root call heard local confined e)

  module _ (client : ℕ → ModelRequest → Reply) (specs : List ToolSpec)
      (settings : ModelAgentConfig) where
    attempt-FromBox :
        (prompt_hash prompt : String) (w : Workspace D TrajectoryRecorder)
        → FromBox (new_box w) (attempt c client specs settings prompt_hash prompt w).world
    unfolding attempt FromBox
    attempt-FromBox prompt_hash prompt w =
        run-world (invoke_shared c) (was_submitted c) client c.clock specs settings FromBox
          (λ b e. Contained_refl c.tools b.workspace)
          (λ u v x. From-trans c.tools root u.workspace v.workspace x.workspace) shared-FromBox
          w.observer (new_box w) prompt_hash prompt

-- Whatever the model replies and however the run ends, on a disk whose operations are local and with a
-- test command that leaves the outside alone: the root stays, every file outside of it is as before the
-- run, and recorded violations are only added.
pub run_agent-Contained :
    {D : Type 0} (c : ToolContext D) (client : ℕ → ModelRequest → Reply) (specs : List ToolSpec)
    (settings : ModelAgentConfig) (prompt_hash prompt : String) (w : Workspace D TrajectoryRecorder)
    → IsLocal c.tools.disk
    → IsConfined c.tools.disk w.root c.test_command c.test_timeout
    → Contained c.tools w (run_agent c client specs settings prompt_hash prompt w).0
unfolding run_agent
run_agent-Contained c client specs settings prompt_hash prompt w local confined =
    let a = attempt c client specs settings prompt_hash prompt w in
    Contained_trans c.tools w a.world.workspace _
      (unfold FromBox in
        attempt-FromBox c w.root local confined client specs settings prompt_hash prompt w refl)
      (observed-Contained c.tools a.world.workspace a.recorder)
