-- ===== src/Agent/Tools.antt =====
-- ToolBox of agent/tools.py. The recorder is the
-- observer of the workspace, which its violations reach. `clock` is the reading at the event of that
-- number; `show_g` prints a timeout in seconds.
pub mod Dispatch
pub mod Containment
pub mod Replace
use evalstack.Prelude.{
  ℕ, zero, suc, ◌+◌, ◌-◌, String, Bool, true, false, not, Option, none, some, List, [], ◌∷◌, length,
  take, ltb, ◌==◌, if◌then◌else◌, str_eq,
}
use evalstack.Prelude.Int.{ℤ, pos, negsuc}
use evalstack.Prelude.Text.{◌+++◌, prefix}
use evalstack.Prelude.Search.{count, replace_first, join, is_blank}
use evalstack.Prelude.Effect.{
  Fault, path_escape, file_not_found, os_error, value_error, Result, done, failed, Effect, pure,
  raise, ◌>>=◌, ◌>>◌,
}
use evalstack.Json.{Json, str, Fields, end, field, get_field, as_string}
use evalstack.Model.{ToolInvocation}
use evalstack.Schema.Trajectory.{ToolResult, FileEdit, CommandRun}
use evalstack.Trace.Truncate.Decimal.{decimal}
use evalstack.Trace.Recorder.{
  TrajectoryRecorder, record_tool_call, record_tool_result, record_file_edit, record_command_run,
  record_submission,
}
use evalstack.Env.Workspace.{Workspace, Tools, FileEditRecord, created, CommandResult, ok}
use evalstack.Env.Workspace as Workspace

abbrev pub max_listed_files : ℕ
max_listed_files = 200

pub record ToolOutcome : Type 0 where
  pub ok : Bool
  pub output : String
  pub error : Option String

-- `ToolOutcome.failure`
abbrev pub failure : String → ToolOutcome
failure error = record { ok = false; output = ""; error = some error }

abbrev pub success : String → ToolOutcome
success output = record { ok = true; output = output; error = none }

pub record ToolBox (D : Type 0) : Type 0 where
  pub workspace : Workspace D TrajectoryRecorder
  pub tests_passed : Option Bool
  pub submitted : Bool

abbrev show_int : ℤ → String
show_int (pos n) = decimal n
show_int (negsuc n) = "-" +++ decimal (suc n)

abbrev show_status : Option ℤ → String
show_status none = "None"
show_status (some n) = show_int n

-- The error that `run_tests` reports.
unfoldable pub test_error : (ℕ → String) → ℕ → CommandResult → Option String
unfolding ok
test_error show_g timeout result =
    if result.timed_out
    then some ("test command timed out after " +++ show_g timeout +++ "s")
    else if not (ok result)
    then some ("test command exited with status " +++ show_status result.exit_code)
    else none

-- The handlers of the `except` clauses: the text of the failure, or `none` for a fault that none
-- of them catches.
unfoldable pub caught : (doing path : String) → Fault → Option String
caught doing path (path_escape e) = some e
caught doing path (file_not_found e) = some e
caught doing path (os_error e) = some ("could not " +++ doing +++ " " +++ path +++ ": " +++ e)
caught doing path (value_error e) = none

unfoldable pub caught_replace : Fault → Option String
caught_replace (path_escape e) = some e
caught_replace (file_not_found e) = some e
caught_replace (os_error e) = some e
caught_replace (value_error e) = none

module _ {D : Type 0} where
  -- A call of the workspace.
  unfoldable pub on_workspace :
      {A : Type 0} → Effect (Workspace D TrajectoryRecorder) A → Effect (ToolBox D) A
  on_workspace m b = let (w, r) = m b.workspace in (record b { workspace = w }, r)

  abbrev pub with_recorder : TrajectoryRecorder → ToolBox D → ToolBox D
  with_recorder r b = record b { workspace = record (b.workspace) { observer = r } }

  -- A recording method that cuts a text, whose `ValueError` is not caught.
  abbrev pub recorded : (ToolBox D → Option TrajectoryRecorder) → Effect (ToolBox D) (Unit {0})
  recorded f b = elim (f b) [
    | none ↦ (b, failed (value_error "max_output_chars must be positive"))
    | some r ↦ (with_recorder r b, done tt)
  ]

  -- `try: a = m; except ...: return fail(...)`, with the code after it.
  abbrev pub after_try :
      {A B : Type 0}
      → ToolBox D × Result A
      → (Fault → Option String)
      → (String → Effect (ToolBox D) B)
      → (A → Effect (ToolBox D) B)
      → ToolBox D × Result B
  after_try (b, done a) catch fail go = go a b
  after_try (b, failed e) catch fail go = elim (catch e) [
    | none ↦ (b, failed e)
    | some text ↦ fail text b
  ]

  unfoldable pub try_workspace :
      {A B : Type 0}
      → Effect (Workspace D TrajectoryRecorder) A
      → (Fault → Option String)
      → (String → Effect (ToolBox D) B)
      → (A → Effect (ToolBox D) B)
      → Effect (ToolBox D) B
  unfolding on_workspace
  try_workspace m catch fail go b = after_try (on_workspace m b) catch fail go

-- What a tool box is bound to, and what it calls.
pub record ToolContext (D : Type 0) : Type 0 where
  pub tools : Tools D TrajectoryRecorder
  pub clock : ℕ → ℕ
  pub show_g : ℕ → String
  pub test_command : List String
  pub test_timeout : ℕ
  pub known_tools : List String

module _ {D : Type 0} (c : ToolContext D) where
  abbrev pub now : ToolBox D → ℕ
  now b = c.clock (length b.workspace.observer.events)

  unfoldable pub start : String → Fields → Effect (ToolBox D) String
  unfolding record_tool_call
  start tool args b =
      let (r, id) = record_tool_call b.workspace.observer (now b) tool args in
      (with_recorder r b, done id)

  unfoldable pub finish : (call_id tool : String) → ToolOutcome → Effect (ToolBox D) (Unit {0})
  unfolding record_tool_result
  finish call_id tool outcome = recorded (λ b.
      record_tool_result b.workspace.observer (now b) (record {
        call_id = call_id;
        tool = tool;
        ok = outcome.ok;
        output = outcome.output;
        error = outcome.error;
      }))

  -- The result is recorded and returned: `_fail`, and the end of each tool.
  unfoldable pub answer : (call_id tool : String) → ToolOutcome → Effect (ToolBox D) ToolOutcome
  answer call_id tool outcome = do finish call_id tool outcome; pure outcome

  unfoldable pub record_edit : FileEditRecord → Effect (ToolBox D) (Unit {0})
  unfolding record_file_edit
  record_edit e = recorded (λ b. record_file_edit b.workspace.observer (now b) (record {
    path = e.path;
    before_hash = e.before_hash;
    after_hash = e.after_hash;
    lines_added = e.lines_added;
    lines_removed = e.lines_removed;
    diff = e.diff;
  }))

  unfoldable pub record_command : CommandResult → Effect (ToolBox D) (Unit {0})
  unfolding record_command_run
  record_command result = recorded (λ b. record_command_run b.workspace.observer (now b) (record {
    argv = result.argv;
    exit_code = result.exit_code;
    duration_ms = result.duration_ms;
    timed_out = result.timed_out;
    stdout_tail = result.stdout;
    stderr_tail = result.stderr;
  }))

  unfoldable pub record_summary : String → Effect (ToolBox D) (Unit {0})
  unfolding record_submission
  record_summary summary = recorded (λ b. record_submission b.workspace.observer (now b) summary)

  -- `self._tests_passed = ...`
  unfoldable pub set_tests_passed : Bool → Effect (ToolBox D) (Unit {0})
  set_tests_passed passed b = (record b { tests_passed = some passed }, done tt)

  -- `self._submitted = True`
  unfoldable pub set_submitted : Effect (ToolBox D) (Unit {0})
  set_submitted b = (record b { submitted = true }, done tt)

  unfoldable pub listing : List String → String
  unfolding join
  listing names =
      let shown = take max_listed_files names in
      if ltb (length shown) (length names)
      then join "\n" shown
        +++ "\n… "
        +++ decimal (length names - length shown)
        +++ " more files not shown"
      else join "\n" shown

  unfoldable pub list_files : Effect (ToolBox D) ToolOutcome
  list_files = do
    call_id ← start "list_files" end
    λ b.
        answer call_id "list_files" (success (listing (Workspace.list_files c.tools b.workspace))) b

  unfoldable pub read_file : String → Effect (ToolBox D) ToolOutcome
  read_file path = do
    call_id ← start "read_file" (field "path" (str path) end)
    try_workspace (Workspace.read_file c.tools path) (caught "read" path)
        (λ error. answer call_id "read_file" (failure error))
        (λ contents. answer call_id "read_file" (success contents))

  unfoldable pub write_summary : String → FileEditRecord → String
  write_summary path e =
      let mark = if created e then ", created" else "" in
      "wrote "
      +++ path
      +++ " (+"
      +++ decimal e.lines_added
      +++ "/-"
      +++ decimal e.lines_removed
      +++ mark
      +++ ")"

  unfoldable pub write_file : (path contents : String) → Effect (ToolBox D) ToolOutcome
  write_file path contents = do
    call_id ← start "write_file" (field "path" (str path) (field "contents" (str contents) end))
    try_workspace (Workspace.write_file c.tools path contents) (caught "write" path)
        (λ error. answer call_id "write_file" (failure error))
        (λ e. do record_edit e; answer call_id "write_file" (success (write_summary path e)))

  unfoldable pub replace_summary : String → FileEditRecord → String
  replace_summary path e =
      "replaced 1 occurrence in "
      +++ path
      +++ " (+"
      +++ decimal e.lines_added
      +++ "/-"
      +++ decimal e.lines_removed
      +++ ")"

  -- Why a replacement is refused, by the number of occurrences.
  unfoldable pub refusal : (path old contents : String) → Option String
  refusal path old contents =
      let n = count old contents in
      if str_eq old ""
      then some "'old' must not be empty"
      else if n == 0
      then some ("'old' does not appear in " +++ path +++ "; read the file again")
      else if ltb 1 n
      then some (
          "'old' appears "
          +++ decimal n
          +++ " times in "
          +++ path
          +++ "; include more surrounding text so it matches exactly once")
      else none

  -- The end of `replace_text`: the new contents are written.
  unfoldable pub write_replaced : (call_id path contents : String) → Effect (ToolBox D) ToolOutcome
  write_replaced call_id path contents =
      try_workspace (Workspace.write_file c.tools path contents) caught_replace
        (λ error. answer call_id "replace_text" (failure error))
        (λ e. do record_edit e; answer call_id "replace_text" (success (replace_summary path e)))

  unfoldable pub replace_text : (path old new : String) → Effect (ToolBox D) ToolOutcome
  replace_text path old new = do
    call_id ←
        start "replace_text"
          (field "path" (str path) (field "old" (str old) (field "new" (str new) end)))
    try_workspace (Workspace.read_file c.tools path) (caught "read" path)
        (λ error. answer call_id "replace_text" (failure error))
        (λ contents. elim (refusal path old contents) [
          | some error ↦ answer call_id "replace_text" (failure error)
          | none ↦ write_replaced call_id path (replace_first old new contents)
        ])

  unfoldable pub run_tests : Effect (ToolBox D) ToolOutcome
  run_tests = do
    call_id ← start "run_tests" (field "command" (str (join " " c.test_command)) end)
    result ← on_workspace (Workspace.run c.tools c.test_command c.test_timeout)
    record_command result
    set_tests_passed (ok result)
    answer call_id "run_tests" (record {
      ok = ok result;
      output = if is_blank result.stdout then result.stderr else result.stdout;
      error = test_error c.show_g c.test_timeout result;
    })

  unfoldable pub submit : String → Effect (ToolBox D) ToolOutcome
  submit summary = do
    call_id ← start "submit" (field "summary" (str summary) end)
    finish call_id "submit" (success summary)
    record_summary summary
    set_submitted
    pure (success summary)
