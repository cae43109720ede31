-- ===== src/Trace/Recorder.antt =====
-- TrajectoryRecorder of trace.py. A method that cuts a text returns `none` where `truncate` raises,
-- which is before the event is appended.
pub mod Invariant
use evalstack.Prelude.{
  ℕ, zero, suc, ◌+◌, String, Bool, Option, none, some, List, [], ◌∷◌, ◌++◌, length,
}
use evalstack.Prelude.Int.{ℤ}
use evalstack.Prelude.Text.{◌+++◌}
use evalstack.Json.{Fields}
use evalstack.Schema.Trajectory.{
  ModelCall, ToolCall, ToolResult, FileEdit, CommandRun, SafetyViolation, Body, task_started,
  model_call, tool_call, tool_result, file_edit, command_run, safety_violation, submission,
  agent_error, Event, Trajectory,
}
use evalstack.Trace.Truncate.{truncate}
use evalstack.Trace.Truncate.Decimal.{decimal}

pub record TrajectoryRecorder : Type 0 where
  pub run_id : String
  pub case_id : String
  pub attempt : ℕ
  pub max_output_chars : ℕ
  pub events : List (Event Body)
  pub call_counter : ℕ

abbrev pub new_recorder : String → String → ℕ → ℕ → TrajectoryRecorder
new_recorder run_id case_id attempt max_output_chars = record {
  run_id = run_id;
  case_id = case_id;
  attempt = attempt;
  max_output_chars = max_output_chars;
  events = [];
  call_counter = 0;
}

infixl 5 ◌>>=◌
abbrev pub ◌>>=◌ : {A B : Type 0} → Option A → (A → Option B) → Option B
none >>= f = none
some a >>= f = f a

-- `_next_seq` and the append of each method: the number of an event is its position.
unfoldable pub append : TrajectoryRecorder → (t_ms : ℕ) → Body → TrajectoryRecorder
append r t_ms body = record r {
  events = r.events ++ record { seq = length r.events; t_ms = t_ms; body = body } ∷ [];
}

-- `_cut`
unfoldable pub cut : TrajectoryRecorder → String → Option String
cut r text = truncate text r.max_output_chars

unfoldable pub record_task_started :
    TrajectoryRecorder → ℕ → (prompt_hash : String) → TrajectoryRecorder
unfolding append
record_task_started r t prompt_hash =
    append r t (task_started (record { case_id = r.case_id; prompt_hash = prompt_hash }))

unfoldable pub record_model_call : TrajectoryRecorder → ℕ → ModelCall → TrajectoryRecorder
unfolding append
record_model_call r t call = append r t (model_call call)

abbrev pub call_id : ℕ → String
call_id n = "call-" +++ decimal n

-- The recorder, and the generated id of the call.
unfoldable pub record_tool_call :
    TrajectoryRecorder → ℕ → (tool : String) → Fields → TrajectoryRecorder × String
unfolding append
record_tool_call r t tool args =
    let n = r.call_counter + 1 in
    (
      append (record r { call_counter = n }) t
          (tool_call (record { call_id = call_id n; tool = tool; args = args })),
      call_id n,
    )

unfoldable pub record_tool_result : TrajectoryRecorder → ℕ → ToolResult → Option TrajectoryRecorder
unfolding append cut
record_tool_result r t result = do
  output ← cut r result.output
  some (append r t (tool_result (record result { output = output })))

unfoldable pub record_file_edit : TrajectoryRecorder → ℕ → FileEdit → Option TrajectoryRecorder
unfolding append cut
record_file_edit r t edit = do
  diff ← cut r edit.diff
  some (append r t (file_edit (record edit { diff = diff })))

unfoldable pub record_command_run : TrajectoryRecorder → ℕ → CommandRun → Option TrajectoryRecorder
unfolding append cut
record_command_run r t run = do
  out ← cut r run.stdout_tail
  err ← cut r run.stderr_tail
  some (append r t (command_run (record run { stdout_tail = out; stderr_tail = err })))

unfoldable pub record_safety_violation :
    TrajectoryRecorder → ℕ → SafetyViolation → TrajectoryRecorder
unfolding append
record_safety_violation r t violation = append r t (safety_violation violation)

unfoldable pub record_submission :
    TrajectoryRecorder → ℕ → (summary : String) → Option TrajectoryRecorder
unfolding append cut
record_submission r t summary = do
  text ← cut r summary
  some (append r t (submission (record { summary = text })))

unfoldable pub record_agent_error :
    TrajectoryRecorder → ℕ → (error_type message : String) → Option TrajectoryRecorder
unfolding append cut
record_agent_error r t error_type message = do
  text ← cut r message
  some (append r t (agent_error (record { error_type = error_type; message = text })))

abbrev pub build : TrajectoryRecorder → Trajectory
build r = record { run_id = r.run_id; case_id = r.case_id; attempt = r.attempt; events = r.events }

-- A call of one of the recording methods.
pub data Call : Type 0 where
  starts : (prompt_hash : String) → Call
  calls_model : ModelCall → Call
  calls_tool : (tool : String) → Fields → Call
  gets_result : ToolResult → Call
  edits : FileEdit → Call
  runs : CommandRun → Call
  violates : SafetyViolation → Call
  submits : (summary : String) → Call
  errs : (error_type message : String) → Call

unfoldable pub perform : Call → ℕ → TrajectoryRecorder → Option TrajectoryRecorder
perform (starts h) t r = some (record_task_started r t h)
perform (calls_model c) t r = some (record_model_call r t c)
perform (calls_tool tool args) t r = some (record_tool_call r t tool args).0
perform (gets_result x) t r = record_tool_result r t x
perform (edits e) t r = record_file_edit r t e
perform (runs c) t r = record_command_run r t c
perform (violates v) t r = some (record_safety_violation r t v)
perform (submits s) t r = record_submission r t s
perform (errs e m) t r = record_agent_error r t e m

-- Calls one after another, each with its clock reading.
unfoldable pub perform_all : List (ℕ × Call) → TrajectoryRecorder → Option TrajectoryRecorder
perform_all [] r = some r
perform_all ((t, c) ∷ rest) r = do r' ← perform c t r; perform_all rest r'
