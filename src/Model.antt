-- ===== src/Model.antt =====
-- model/base.py: the messages, requests and responses of the provider-agnostic model interface,
-- and the character-based estimate that the budget reserves by.
pub mod Pricing
pub mod Budget
pub mod RateLimit
pub mod Cache
pub mod Chat
use evalstack.Prelude.{
  ℕ, ◌+◌, ◌/◌, max, String, Bool, Option, List, [], ◌∷◌, length, sum_of, is_empty, not,
}
use evalstack.Prelude.Text.{len}
use evalstack.Json.{Fields}

pub data Role : Type 0 where
  system_role user_role assistant_role tool_role : Role

pub data StopReason : Type 0 where
  end_turn tool_use max_tokens_stop stop_sequence other : StopReason

-- The exceptions of a model call. `quota_exhausted` is a subclass of `permanent`, and
-- `budget_exceeded` (budget.py) is a direct subclass of `ModelError`.
pub data ModelError : Type 0 where
  transient permanent quota_exhausted model_behaviour budget_exceeded : String → ModelError

-- `parameters` is the text that `str(tool.parameters)` gives.
pub record ToolSpec : Type 0 where
  pub name : String
  pub description : String
  pub parameters : String

pub record ToolInvocation : Type 0 where
  pub id : String
  pub name : String
  pub arguments : Fields
  pub malformed_arguments : Option String

pub record Message : Type 0 where
  pub role : Role
  pub content : String
  pub tool_calls : List ToolInvocation
  pub tool_call_id : Option String

pub record Usage : Type 0 where
  pub input_tokens : ℕ
  pub output_tokens : ℕ

-- `Usage.total`
abbrev pub total : Usage → ℕ
total u = u.input_tokens + u.output_tokens

pub record ModelResponse : Type 0 where
  pub model : String
  pub text : String
  pub tool_calls : List ToolInvocation
  pub usage : Usage
  pub stop_reason : StopReason
  pub cost_usd : ℕ
  pub latency_ms : ℕ
  pub cached : Bool

abbrev pub wants_tools : ModelResponse → Bool
wants_tools r = not (is_empty r.tool_calls)

pub record ModelRequest : Type 0 where
  pub messages : List Message
  pub tools : List ToolSpec
  pub temperature : ℕ
  pub max_tokens : ℕ

abbrev message_characters : Message → ℕ
message_characters m = len m.content + sum_of (λ call. len call.name + 32) m.tool_calls

unfoldable pub estimated_input_tokens : ModelRequest → ℕ
estimated_input_tokens r =
    let characters =
      sum_of message_characters r.messages
      + sum_of (λ tool. len tool.description + len tool.parameters) r.tools in
    max 1 (characters / 4)

-- An exception that is no `ModelError`, such as an `OSError` of a cache that cannot be written or a
-- `KeyError` of a malformed body, given by its type and text, or a cancellation.
pub data Thrown : Type 0 where
  cancelled : Thrown
  exception : (error_type text : String) → Thrown

-- What a model client answers: a response, a `ModelError`, or another exception.
pub data Reply : Type 0 where
  answered : ModelResponse → Reply
  raised : ModelError → Reply
  threw : Thrown → Reply
