-- ===== src/Agent/Loop.antt =====
-- ModelAgent.run of agent/model_agent.py. The tools, which act on a workspace of type `W` and record
-- what they do, are the argument `invoke` (`_invoke`), with `submitted` for `tools.submitted`; the
-- model is `client`, by the number of the step; `clock` is the reading at the event of that number.
pub mod Endings
pub mod World
use evalstack.Prelude.{
  ℕ, zero, suc, ◌+◌, String, Bool, true, false, not, ◌&&◌, Option, none, some, List, [], ◌∷◌, ◌++◌,
  length, is_empty, if◌then◌else◌,
}
use evalstack.Prelude.Text.{◌+++◌}
use evalstack.Prelude.Effect.{Fault, value_error, Result, done, failed, Effect, continue_with}
use evalstack.Model.{
  Message, system_role, user_role, assistant_role, tool_role, ModelRequest, ModelResponse, Reply,
  answered, raised, threw, Thrown, ModelError, transient, permanent, quota_exhausted,
  model_behaviour, budget_exceeded, ToolSpec, ToolInvocation, StopReason, end_turn, tool_use,
  max_tokens_stop, stop_sequence, other,
}
use evalstack.Schema.Trajectory.{ModelCall}
use evalstack.Trace.Truncate.Decimal.{decimal}
use evalstack.Trace.Recorder.{
  TrajectoryRecorder, record_task_started, record_model_call, record_agent_error,
}

pub record ModelAgentConfig : Type 0 where
  pub max_steps : ℕ
  pub max_tokens : ℕ
  pub temperature : ℕ
  pub system_prompt : String

-- `user`, `system`, `assistant` and `tool_result` of model/base.py
abbrev message : String → Message
message content = record {
  role = user_role;
  content = content;
  tool_calls = [];
  tool_call_id = none;
}

abbrev system_message : String → Message
system_message content = record (message content) { role = system_role }

abbrev assistant_message : String → List ToolInvocation → Message
assistant_message content calls = record (message content) {
  role = assistant_role;
  tool_calls = calls;
}

abbrev tool_message : String → String → Message
tool_message id content = record (message content) { role = tool_role; tool_call_id = some id }

abbrev nudge : String
nudge =
    "You did not call a tool. Use the tools to inspect and fix the repository, "
    +++ "then call submit when the tests pass."

abbrev stop_text : StopReason → String
stop_text end_turn = "end_turn"
stop_text tool_use = "tool_use"
stop_text max_tokens_stop = "max_tokens"
stop_text stop_sequence = "stop_sequence"
stop_text other = "other"

abbrev call_of : ModelResponse → ModelCall
call_of r = record {
  model = r.model;
  input_tokens = r.usage.input_tokens;
  output_tokens = r.usage.output_tokens;
  cost_usd = r.cost_usd;
  latency_ms = r.latency_ms;
  cached = r.cached;
  stop_reason = some (stop_text r.stop_reason);
}

-- How `run` ends: it returns, raises an infrastructure error, fatal or not, or lets an exception
-- escape, of a tool or the recorder, or of the model client.
pub data AgentEnding : Type 0 where
  returned : AgentEnding
  fatal_infrastructure infrastructure_error : String → AgentEnding
  escaped : Fault → AgentEnding
  client_threw : Thrown → AgentEnding

-- What the loop works on.
pub record Progress (W : Type 0) : Type 0 where
  pub recorder : TrajectoryRecorder
  pub world : W
  pub messages : List Message

pub record Attempt (W : Type 0) : Type 0 where
  pub recorder : TrajectoryRecorder
  pub world : W
  pub ending : AgentEnding
  pub model_calls : ℕ

module _ {W : Type 0} where
  abbrev ended : ℕ → AgentEnding → Progress W → Attempt W
  ended calls ending p = record {
    recorder = p.recorder;
    world = p.world;
    ending = ending;
    model_calls = calls;
  }

  -- After `recorder.agent_error(...)`.
  abbrev after_error : ℕ → Progress W → Option TrajectoryRecorder → Attempt W
  after_error calls p none =
      ended calls (escaped (value_error "max_output_chars must be positive")) p
  after_error calls p (some r) = ended calls returned (record p { recorder = r })

module _ {W : Type 0}
    (invoke : TrajectoryRecorder → W → ToolInvocation → (TrajectoryRecorder × W) × Result String)
    (submitted : W → Bool) (client : ℕ → ModelRequest → Reply) (clock : ℕ → ℕ)
    (specs : List ToolSpec) (settings : ModelAgentConfig) where
  -- The result of a call is added to the messages.
  abbrev heard_of :
      ToolInvocation
      → Progress W
      → (TrajectoryRecorder × W) × Result String
      → Progress W × Result (Unit {0})
  heard_of call p ((r, w), failed e) =
      (record { recorder = r; world = w; messages = p.messages }, failed e)
  heard_of call p ((r, w), done text) = (
    record { recorder = r; world = w; messages = p.messages ++ tool_message call.id text ∷ [] },
    done tt,
  )

  -- The loop over the tool calls of one response.
  unfoldable pub invoke_all : List ToolInvocation → Effect (Progress W) (Unit {0})
  invoke_all [] p = (p, done tt)
  invoke_all (call ∷ calls) p =
      continue_with (heard_of call p (invoke p.recorder p.world call)) (λ _. invoke_all calls)

  unfoldable pub agent_error : ℕ → Progress W → (error_type text : String) → Attempt W
  unfolding record_agent_error
  agent_error calls p error_type text =
      after_error calls p
        (record_agent_error p.recorder (clock (length p.recorder.events)) error_type text)

  -- The handlers around the model call.
  unfoldable pub on_model_error : ℕ → Progress W → ModelError → Attempt W
  unfolding agent_error
  on_model_error calls p (budget_exceeded e) = agent_error calls p "BudgetExceeded" e
  on_model_error calls p (model_behaviour e) = agent_error calls p "ModelBehaviourError" e
  on_model_error calls p (permanent e) =
      ended calls (fatal_infrastructure ("model rejected the request: " +++ e)) p
  on_model_error calls p (quota_exhausted e) =
      ended calls (fatal_infrastructure ("model rejected the request: " +++ e)) p
  on_model_error calls p (transient e) =
      ended calls (infrastructure_error ("model call failed: " +++ e)) p

  abbrev request_of : Progress W → ModelRequest
  request_of p = record {
    messages = p.messages;
    tools = specs;
    temperature = settings.temperature;
    max_tokens = settings.max_tokens;
  }

  -- The rest of a step after the response: the call is recorded, then the tools run or the model is
  -- nudged.
  unfoldable pub respond : Progress W → ModelResponse → Progress W × Result (Unit {0})
  unfolding record_model_call invoke_all
  respond p response =
      let heard : Progress W = record {
        recorder =
            record_model_call p.recorder (clock (length p.recorder.events)) (call_of response);
        world = p.world;
        messages = p.messages ++ assistant_message response.text response.tool_calls ∷ [];
      } in
      if is_empty response.tool_calls
      then (record heard { messages = heard.messages ++ message nudge ∷ [] }, done tt)
      else invoke_all response.tool_calls heard

  -- After the tools of a step; `rest` is the rest of the loop.
  unfoldable pub after_tools :
      (Progress W → Attempt W) → ℕ → ModelResponse → Progress W × Result (Unit {0}) → Attempt W
  after_tools rest calls response (next, failed e) = ended calls (escaped e) next
  after_tools rest calls response (next, done _) =
      if not (is_empty response.tool_calls) && submitted next.world
      then ended calls returned next
      else rest next

  -- One step, after the model's reply.
  unfoldable pub after_reply : (Progress W → Attempt W) → ℕ → Progress W → Reply → Attempt W
  unfolding respond on_model_error after_tools
  after_reply rest calls p (raised e) = on_model_error calls p e
  after_reply rest calls p (threw e) = ended calls (client_threw e) p
  after_reply rest calls p (answered response) =
      after_tools rest calls response (respond p response)

  -- The `for` loop with `steps` steps left, after `calls` model calls.
  unfoldable pub loop : (steps calls : ℕ) → Progress W → Attempt W
  unfolding after_reply agent_error
  loop zero calls p =
      agent_error calls p "StepLimitReached"
        ("stopped after " +++ decimal settings.max_steps +++ " steps without submitting")
  loop (suc steps) calls p =
      after_reply (loop steps (calls + 1)) (calls + 1) p (client calls (request_of p))

  unfoldable pub run : TrajectoryRecorder → W → (prompt_hash prompt : String) → Attempt W
  unfolding loop record_task_started
  run r w prompt_hash prompt = loop settings.max_steps 0 (record {
    recorder = record_task_started r (clock (length r.events)) prompt_hash;
    world = w;
    messages = system_message settings.system_prompt ∷ message prompt ∷ [];
  })
