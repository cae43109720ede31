-- ===== src/Agent/Replay/Containment.antt =====
-- ReplayAgent of agent/replay.py: a replay leaves the files outside the workspace alone.
use evalstack.Prelude.{refl, sym, subst, String, List, [], ◌∷◌, Bool-cases, inl, inr}
use evalstack.Prelude.Effect.{Keeps, bind-Keeps}
use evalstack.Schema.Trajectory.{
  Event, Body, ToolCall, AgentError, task_started, model_call, tool_call, tool_result, file_edit,
  command_run, safety_violation, submission, agent_error,
}
use evalstack.Env.Disk.{FilePath, IsLocal}
use evalstack.Env.Workspace.Containment.{
  Contained, Contained_refl, From, From-trans, observed-Contained,
}
use evalstack.Agent.Tools.{ToolContext}
use evalstack.Agent.Tools.Containment.{IsConfined, invoke-From, recorded-Safe, Safe}
use evalstack.Agent.Replay.{
  Replaying, replay_call, replay_model, replay_error, replay_event, replay_events, start_task, run,
  on_box,
}
use evalstack.Agent.Replay.Calls.{replays, after_call, asked, replay_call-invoke}

module _ {D : Type 0} (c : ToolContext D) (root : FilePath) (local : IsLocal c.tools.disk)
    (confined : IsConfined c.tools.disk root c.test_command c.test_timeout) where
  abbrev Reaches : Replaying D → Replaying D → Type 0
  Reaches s u = From c.tools root s.box.workspace u.box.workspace

  Reaches-trans : (s u v : Replaying D) → Reaches s u → Reaches u v → Reaches s v
  Reaches-trans s u v = From-trans c.tools root s.box.workspace u.box.workspace v.box.workspace

  after_call-Reaches : (t : ToolCall) (s : Replaying D) → Reaches s (after_call c t s)
  after_call-Reaches t s = elim (Bool-cases (replays t)) [
    | inl same ↦ rw same (invoke-From c root (asked t) s.box local confined)
    | inr other ↦ rw other (λ e. Contained_refl c.tools s.box.workspace)
  ]

  call-Reaches : (t : ToolCall) → Keeps Reaches (replay_call c t)
  call-Reaches t s = subst (Reaches s) (sym (replay_call-invoke c t s)) (after_call-Reaches t s)

  error-Safe : (e : AgentError) → Keeps (Safe c root) (replay_error c e)
  unfolding replay_error
  error-Safe e = recorded-Safe c root _

  event-Reaches : (b : Body) → Keeps Reaches (replay_event c b)
  unfolding replay_event replay_model
  event-Reaches (tool_call t) = call-Reaches t
  event-Reaches (model_call x) = λ s e. observed-Contained c.tools s.box.workspace _
  event-Reaches (agent_error x) = λ s. (error-Safe x s.box).safe
  event-Reaches (task_started x) = λ s e. Contained_refl c.tools s.box.workspace
  event-Reaches (tool_result x) = λ s e. Contained_refl c.tools s.box.workspace
  event-Reaches (file_edit x) = λ s e. Contained_refl c.tools s.box.workspace
  event-Reaches (command_run x) = λ s e. Contained_refl c.tools s.box.workspace
  event-Reaches (safety_violation x) = λ s e. Contained_refl c.tools s.box.workspace
  event-Reaches (submission x) = λ s e. Contained_refl c.tools s.box.workspace

  events-Reaches : (es : List (Event Body)) → Keeps Reaches (replay_events c es)
  unfolding replay_events
  events-Reaches [] = λ s e. Contained_refl c.tools s.box.workspace
  events-Reaches (e ∷ es) =
      bind-Keeps Reaches Reaches-trans (replay_event c e.body) _ (event-Reaches e.body)
        (λ _. events-Reaches es)

  run-Reaches :
      (prompt_hash : String) (es : List (Event Body)) → Keeps Reaches (run c prompt_hash es)
  unfolding run start_task
  run-Reaches prompt_hash es =
      bind-Keeps Reaches Reaches-trans (on_box (start_task c prompt_hash)) (λ _. replay_events c es)
        (λ s e. observed-Contained c.tools s.box.workspace _) (λ _. events-Reaches es)

-- Whatever trajectory is replayed, also one that was made up, on a disk whose operations are local and
-- with a test command that leaves the outside alone: the root stays, every file outside of it is as
-- before, and recorded violations are only added.
replay-Contained :
    {D : Type 0} (c : ToolContext D) (prompt_hash : String) (es : List (Event Body))
    (s : Replaying D)
    → IsLocal c.tools.disk
    → IsConfined c.tools.disk s.box.workspace.root c.test_command c.test_timeout
    → Contained c.tools s.box.workspace (run c prompt_hash es s).0.box.workspace
replay-Contained c prompt_hash es s local confined =
    run-Reaches c s.box.workspace.root local confined prompt_hash es s refl
