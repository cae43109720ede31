-- ===== src/Tests/Attempts.antt =====
-- An attempt of the model agent at a concrete model.
use evalstack.Prelude.{ℕ, String, Bool, true, false, none, List, [], ◌∷◌}
use evalstack.Prelude.Effect.{Result, done}
use evalstack.Json.{end}
use evalstack.Model.{ModelRequest, Reply, answered, tool_use, ToolInvocation, ToolSpec}
use evalstack.Trace.Recorder.{TrajectoryRecorder, new_recorder}
use evalstack.Agent.Loop.{ModelAgentConfig, run}
use evalstack.Agent.Loop.Endings.{Ends, run-Ends}

-- The state of the tools is whether `submit` was called.
abbrev invoke_submit :
    TrajectoryRecorder → Bool → ToolInvocation → (TrajectoryRecorder × Bool) × Result String
invoke_submit r w call = ((r, true), done "submitted")

abbrev was_submitted : Bool → Bool
was_submitted w = w

abbrev submit_call : ToolInvocation
submit_call = record { id = "1"; name = "submit"; arguments = end; malformed_arguments = none }

abbrev answer : ℕ → ModelRequest → Reply
answer step request = answered (record {
  model = "m";
  text = "";
  tool_calls = submit_call ∷ [];
  usage = record { input_tokens = 3; output_tokens = 2 };
  stop_reason = tool_use;
  cost_usd = 0;
  latency_ms = 1;
  cached = false;
})

abbrev clock : ℕ → ℕ
clock n = n

abbrev specs : List ToolSpec
specs = []

abbrev settings : ModelAgentConfig
settings = record { max_steps = 3; max_tokens = 100; temperature = 0; system_prompt = "fix" }

run-Ends_example : Ends invoke_submit was_submitted answer clock specs settings 3 (
    run invoke_submit was_submitted answer clock specs settings
      (new_recorder "r" "c" 0 4000)
      false
      "h"
      "p")
run-Ends_example =
    run-Ends invoke_submit was_submitted answer clock specs settings (new_recorder "r" "c" 0 4000)
      false "h" "p"
