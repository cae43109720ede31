-- ===== src/Schema/Trajectory.antt =====
-- schema/trajectory.py: the events of one attempt. Times count milliseconds, money a small unit.
use evalstack.Prelude.{ℕ, String, Bool, Option, none, some, List, [], ◌∷◌, sum_of, is_empty, not}
use evalstack.Prelude.Int.{ℤ}
use evalstack.Json.{Fields}

pub record TaskStarted : Type 0 where
  pub case_id : String
  pub prompt_hash : String

pub record ModelCall : Type 0 where
  pub model : String
  pub input_tokens : ℕ
  pub output_tokens : ℕ
  pub cost_usd : ℕ
  pub latency_ms : ℕ
  pub cached : Bool
  pub stop_reason : Option String

pub record ToolCall : Type 0 where
  pub call_id : String
  pub tool : String
  pub args : Fields

pub record ToolResult : Type 0 where
  pub call_id : String
  pub tool : String
  pub ok : Bool
  pub output : String
  pub error : Option String

pub record FileEdit : Type 0 where
  pub path : String
  pub before_hash : Option String
  pub after_hash : String
  pub lines_added : ℕ
  pub lines_removed : ℕ
  pub diff : String

pub record CommandRun : Type 0 where
  pub argv : List String
  pub exit_code : Option ℤ
  pub duration_ms : ℕ
  pub timed_out : Bool
  pub stdout_tail : String
  pub stderr_tail : String

pub record SafetyViolation : Type 0 where
  pub rule : String
  pub detail : String
  pub attempted : String

pub record Submission : Type 0 where
  pub summary : String

pub record AgentError : Type 0 where
  pub error_type : String
  pub message : String

-- The discriminated union `Event`, without the fields of `_EventBase`.
pub data Body : Type 0 where
  task_started : TaskStarted → Body
  model_call : ModelCall → Body
  tool_call : ToolCall → Body
  tool_result : ToolResult → Body
  file_edit : FileEdit → Body
  command_run : CommandRun → Body
  safety_violation : SafetyViolation → Body
  submission : Submission → Body
  agent_error : AgentError → Body

-- `_EventBase` with the rest of the event: the whole union at `Body`, one class at a record above.
pub record Event (B : Type 0) : Type 0 where
  pub seq : ℕ
  pub t_ms : ℕ
  pub body : B

pub record Trajectory : Type 0 where
  pub run_id : String
  pub case_id : String
  pub attempt : ℕ
  pub events : List (Event Body)

-- `isinstance(event, C)` for each class that the source asks for.
abbrev pub as_model_call : Body → Option ModelCall
as_model_call (model_call c) = some c
as_model_call _ = none

abbrev pub as_tool_call : Body → Option ToolCall
as_tool_call (tool_call c) = some c
as_tool_call _ = none

abbrev pub as_tool_result : Body → Option ToolResult
as_tool_result (tool_result r) = some r
as_tool_result _ = none

abbrev pub as_file_edit : Body → Option FileEdit
as_file_edit (file_edit e) = some e
as_file_edit _ = none

abbrev pub as_command_run : Body → Option CommandRun
as_command_run (command_run c) = some c
as_command_run _ = none

abbrev pub as_safety_violation : Body → Option SafetyViolation
as_safety_violation (safety_violation v) = some v
as_safety_violation _ = none

abbrev pub as_submission : Body → Option Submission
as_submission (submission s) = some s
as_submission _ = none

-- Puts the event before the rest if its class is the wanted one.
abbrev pub cons_if : {A : Type 0} → ℕ → ℕ → Option A → List (Event A) → List (Event A)
cons_if seq t_ms none rest = rest
cons_if seq t_ms (some a) rest = record { seq = seq; t_ms = t_ms; body = a } ∷ rest

-- `Trajectory.of_type`, on the events
unfoldable pub of_type : {A : Type 0} → (Body → Option A) → List (Event Body) → List (Event A)
of_type select [] = []
of_type select (e ∷ es) = cons_if e.seq e.t_ms (select e.body) (of_type select es)

unfoldable pub total_cost_usd : Trajectory → ℕ
unfolding of_type
total_cost_usd t = sum_of (λ e. e.body.cost_usd) (of_type as_model_call t.events)

unfoldable pub total_input_tokens : Trajectory → ℕ
unfolding of_type
total_input_tokens t = sum_of (λ e. e.body.input_tokens) (of_type as_model_call t.events)

unfoldable pub total_output_tokens : Trajectory → ℕ
unfolding of_type
total_output_tokens t = sum_of (λ e. e.body.output_tokens) (of_type as_model_call t.events)

last_time : ℕ → List (Event Body) → ℕ
last_time t [] = t
last_time t (e ∷ es) = last_time e.t_ms es

-- `events[-1].t_ms`, and 0 without events
unfoldable pub duration_ms : Trajectory → ℕ
unfolding last_time
duration_ms t = last_time 0 t.events

unfoldable pub submitted : Trajectory → Bool
unfolding of_type
submitted t = not (is_empty (of_type as_submission t.events))
