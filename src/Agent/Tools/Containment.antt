-- ===== src/Agent/Tools/Containment.antt =====
-- ToolBox of agent/tools.py: the tool calls of a model leave the files outside the workspace alone.
use evalstack.Prelude.{
  ℕ, refl, String, Bool, Option, none, some, List, [], ◌∷◌, sym, Bool-cases, Option-cases, inl, inr,
  is_empty,
}
use mathlib.Core.List.{append-nil}
use evalstack.Prelude.Effect.{
  Fault, Result, done, failed, Effect, pure, ◌>>=◌, ◌>>◌, Keeps, bind-Keeps,
}
use evalstack.Model.{ToolInvocation}
use evalstack.Json.{Fields}
use evalstack.Trace.Recorder.{TrajectoryRecorder}
use evalstack.Env.Disk.{FilePath, Disk, SameAt, IsLocal}
use evalstack.Env.Workspace as Workspace
use evalstack.Env.Workspace.{Workspace, Tools, FileEditRecord, CommandResult, ok}
use evalstack.Env.Workspace.Containment.{
  Inside, Contained, Contained_refl, From, From-trans, write_file-From, read_file-From,
}
use evalstack.Agent.Tools.{
  ToolContext, ToolOutcome, ToolBox, success, on_workspace, after_try, try_workspace, recorded,
  with_recorder, start, finish, answer, record_edit, record_command, record_summary,
  set_tests_passed, set_submitted, list_files, read_file, write_file, replace_text, write_replaced,
  run_tests, submit, refusal,
}
use evalstack.Agent.Tools.Dispatch.{
  dispatch, invoke, invoke_many, rendered, invoke_read, invoke_write, invoke_replace, render,
  string_argument, ToolName, lists, reads, writes, replaces, tests, submits, unknown, tool_name,
  invoke_parsed,
}

-- The command that runs the tests leaves every file outside the root alone.
abbrev pub IsConfined : {D : Type 0} → Disk D → FilePath → List String → ℕ → Type 0
IsConfined {D} disk root argv timeout =
    (d : D) (p : FilePath)
    → (Inside root p → ⊥)
    → SameAt disk p d (disk.spawn d root argv timeout).0

module _ {D : Type 0} (c : ToolContext D) (root : FilePath) where
  abbrev t : Tools D TrajectoryRecorder
  t = c.tools

  pub record Safe (a b : ToolBox D) : Type 0 where
    pub safe : From t root a.workspace b.workspace

  Safe-trans : (a b d : ToolBox D) → Safe a b → Safe b d → Safe a d
  Safe-trans a b d x y = record {
    safe = From-trans t root a.workspace b.workspace d.workspace x.safe y.safe;
  }

  unchanged : (b : ToolBox D) → Safe b b
  unchanged b = record { safe = λ e. Contained_refl t b.workspace }

  bind :
      {A B : Type 0} (m : Effect (ToolBox D) A) (f : A → Effect (ToolBox D) B)
      → Keeps Safe m
      → ((a : A) → Keeps Safe (f a))
      → Keeps Safe (m >>= f)
  bind = bind-Keeps Safe Safe-trans

  after_try-Safe :
      {A B : Type 0} (b : ToolBox D) (x : ToolBox D × Result A) (catch : Fault → Option String)
      (fail : String → Effect (ToolBox D) B) (go : A → Effect (ToolBox D) B)
      → Safe b x.0
      → ((e : String) → Keeps Safe (fail e))
      → ((a : A) → Keeps Safe (go a))
      → Safe b (after_try x catch fail go).0
  after_try-Safe b (d, done a) catch fail go h hf hg = Safe-trans b d (go a d).0 h (hg a d)
  after_try-Safe b (d, failed e) catch fail go h hf hg = elim (Option-cases (catch e)) [
    | inl p ↦ rw (p, after_try) h
    | inr (text, p) ↦ rw (p, after_try) (Safe-trans b d (fail text d).0 h (hf text d))
  ]

  recording : (r : TrajectoryRecorder) (b : ToolBox D) → Safe b (with_recorder r b)
  recording r b = record {
    safe = λ e. record {
      same_root = refl;
      outside = λ q out. record { same_file = refl; same_text = refl };
      recorded = ([], sym (append-nil b.workspace.violations));
    };
  }

  pub recorded-Safe : (f : ToolBox D → Option TrajectoryRecorder) → Keeps Safe (recorded f)
  recorded-Safe f b = elim (Option-cases (f b)) [
    | inl p ↦ rw (p, recorded) (unchanged b)
    | inr (r, p) ↦ rw (p, recorded) (recording r b)
  ]

  start-Safe : (tool : String) (args : Fields) → Keeps Safe (start c tool args)
  unfolding start
  start-Safe tool args b = recording _ b

  on_workspace-Safe :
      {A : Type 0} (m : Effect (Workspace D TrajectoryRecorder) A)
      → Keeps (From t root) m
      → Keeps Safe (on_workspace m)
  unfolding on_workspace
  on_workspace-Safe m h b = record { safe = h b.workspace }

  try-Safe :
      {A B : Type 0} (m : Effect (Workspace D TrajectoryRecorder) A) (catch : Fault → Option String)
      (fail : String → Effect (ToolBox D) B) (go : A → Effect (ToolBox D) B)
      → Keeps (From t root) m
      → ((e : String) → Keeps Safe (fail e))
      → ((a : A) → Keeps Safe (go a))
      → Keeps Safe (try_workspace m catch fail go)
  unfolding try_workspace
  try-Safe m catch fail go h hf hg b =
      after_try-Safe b (on_workspace m b) catch fail go (on_workspace-Safe m h b) hf hg

  finish-Safe : (id tool : String) (o : ToolOutcome) → Keeps Safe (finish c id tool o)
  unfolding finish
  finish-Safe id tool o = recorded-Safe _

  record_edit-Safe : (e : FileEditRecord) → Keeps Safe (record_edit c e)
  unfolding record_edit
  record_edit-Safe e = recorded-Safe _

  record_command-Safe : (r : CommandResult) → Keeps Safe (record_command c r)
  unfolding record_command
  record_command-Safe r = recorded-Safe _

  record_summary-Safe : (s : String) → Keeps Safe (record_summary c s)
  unfolding record_summary
  record_summary-Safe s = recorded-Safe _

  set_tests_passed-Safe : (passed : Bool) → Keeps Safe (set_tests_passed c passed)
  unfolding set_tests_passed
  set_tests_passed-Safe passed b = record { safe = λ e. Contained_refl t b.workspace }

  set_submitted-Safe : Keeps Safe (set_submitted c)
  unfolding set_submitted
  set_submitted-Safe b = record { safe = λ e. Contained_refl t b.workspace }

  pure-Safe : {A : Type 0} (a : A) → Keeps Safe (pure a)
  pure-Safe a = unchanged

  answer-Safe : (id tool : String) (o : ToolOutcome) → Keeps Safe (answer c id tool o)
  unfolding answer
  answer-Safe id tool o = bind (finish c id tool o) _ (finish-Safe id tool o) (λ _. pure-Safe o)

  edit_then-Safe :
      (e : FileEditRecord) (id tool : String) (o : ToolOutcome)
      → Keeps Safe (record_edit c e >> answer c id tool o)
  edit_then-Safe e id tool o =
      bind (record_edit c e) _ (record_edit-Safe e) (λ _. answer-Safe id tool o)

  list_files-Safe : Keeps Safe (list_files c)
  unfolding list_files
  list_files-Safe = bind (start c _ _) _ (start-Safe _ _) (λ id b. answer-Safe id _ _ b)

  submit-Safe : (summary : String) → Keeps Safe (submit c summary)
  unfolding submit
  submit-Safe summary = bind (start c _ _) _ (start-Safe _ _) λ id.
      bind (finish c id _ _) _ (finish-Safe id _ _) λ _.
        bind (record_summary c summary) _ (record_summary-Safe summary)
          λ _. bind (set_submitted c) _ set_submitted-Safe (λ _. pure-Safe (success summary))

  module _ (local : IsLocal t.disk) where
    read_file-Safe : (path : String) → Keeps Safe (read_file c path)
    unfolding read_file
    read_file-Safe path = bind (start c _ _) _ (start-Safe _ _) λ id.
        try-Safe _ _ _ _ (read_file-From t local root path) (λ error. answer-Safe id _ _)
          (λ contents. answer-Safe id _ _)

    write_file-Safe : (path contents : String) → Keeps Safe (write_file c path contents)
    unfolding write_file
    write_file-Safe path contents = bind (start c _ _) _ (start-Safe _ _) λ id.
        try-Safe _ _ _ _ (write_file-From t local root path contents) (λ error. answer-Safe id _ _)
          (λ edit. edit_then-Safe edit id _ _)

    write_replaced-Safe :
        (id path contents : String) → Keeps Safe (write_replaced c id path contents)
    unfolding write_replaced
    write_replaced-Safe id path contents =
        try-Safe _ _ _ _ (write_file-From t local root path contents) (λ error. answer-Safe id _ _)
          (λ edit. edit_then-Safe edit id _ _)

    replace_text-Safe : (path old new : String) → Keeps Safe (replace_text c path old new)
    unfolding replace_text
    replace_text-Safe path old new = bind (start c _ _) _ (start-Safe _ _) λ id.
        try-Safe _ _ _ _ (read_file-From t local root path) (λ error. answer-Safe id _ _)
          (λ contents d. elim (Option-cases (refusal c path old contents)) [
            | inl e ↦ rw e (write_replaced-Safe id path _ d)
            | inr (error, e) ↦ rw e (answer-Safe id _ _ d)
          ])

    module _ (confined : IsConfined t.disk root c.test_command c.test_timeout) where
      run-From : Keeps (From t root) (Workspace.run t c.test_command c.test_timeout)
      unfolding Workspace.run
      run-From w e = elim (Bool-cases (is_empty c.test_command)) [
        | inl none_given ↦ rw none_given (Contained_refl t w)
        | inr given ↦
            rw (given, e)
              (record {
                same_root = refl;
                outside = λ p out. confined w.disk p out;
                recorded = ([], sym (append-nil w.violations));
              })
      ]

      run_tests-Safe : Keeps Safe (run_tests c)
      unfolding run_tests
      run_tests-Safe = bind (start c _ _) _ (start-Safe _ _) λ id.
          bind (on_workspace (Workspace.run t c.test_command c.test_timeout)) _
            (on_workspace-Safe _ run-From)
            λ result. bind (record_command c result) _ (record_command-Safe result) λ _.
              bind (set_tests_passed c (ok result)) _ (set_tests_passed-Safe (ok result))
                λ _. answer-Safe id _ _

      rendered-Safe :
          (m : Effect (ToolBox D) ToolOutcome) → Keeps Safe m → Keeps Safe (rendered c m)
      rendered-Safe m h = bind m _ h (λ o. pure-Safe (render o))

      invoke_read-Safe : (path : Option String) → Keeps Safe (invoke_read c path)
      invoke_read-Safe none = unchanged
      invoke_read-Safe (some path) = rendered-Safe (read_file c path) (read_file-Safe path)

      invoke_write-Safe :
          (path contents : Option String) → Keeps Safe (invoke_write c path contents)
      invoke_write-Safe (some path) (some contents) =
          rendered-Safe (write_file c path contents) (write_file-Safe path contents)
      invoke_write-Safe (some path) none = unchanged
      invoke_write-Safe none contents = unchanged

      invoke_replace-Safe :
          (path old new : Option String) → Keeps Safe (invoke_replace c path old new)
      invoke_replace-Safe (some path) (some old) (some new) =
          rendered-Safe (replace_text c path old new) (replace_text-Safe path old new)
      invoke_replace-Safe (some path) (some old) none = unchanged
      invoke_replace-Safe (some path) none new = unchanged
      invoke_replace-Safe none old new = unchanged

      dispatch-Safe : (name : ToolName) (call : ToolInvocation) → Keeps Safe (dispatch c name call)
      unfolding dispatch
      dispatch-Safe lists call = rendered-Safe (list_files c) list_files-Safe
      dispatch-Safe reads call = invoke_read-Safe (string_argument call "path")
      dispatch-Safe writes call =
          invoke_write-Safe (string_argument call "path") (string_argument call "contents")
      dispatch-Safe replaces call =
          invoke_replace-Safe (string_argument call "path") (string_argument call "old")
            (string_argument call "new")
      dispatch-Safe tests call = rendered-Safe (run_tests c) run_tests-Safe
      dispatch-Safe submits call = rendered-Safe (submit c _) (submit-Safe _)
      dispatch-Safe unknown call = unchanged

      invoke_parsed-Safe :
          (malformed : Option String) (call : ToolInvocation)
          → Keeps Safe (invoke_parsed c malformed call)
      unfolding invoke_parsed
      invoke_parsed-Safe none call = dispatch-Safe (tool_name call.name) call
      invoke_parsed-Safe (some text) call = unchanged

      invoke-Safe : (call : ToolInvocation) → Keeps Safe (invoke c call)
      unfolding invoke
      invoke-Safe call = invoke_parsed-Safe call.malformed_arguments call

      invoke_many-Safe : (calls : List ToolInvocation) → Keeps Safe (invoke_many c calls)
      unfolding invoke_many
      invoke_many-Safe [] = unchanged
      invoke_many-Safe (call ∷ calls) = bind (invoke c call) _ (invoke-Safe call) λ text.
          bind (invoke_many c calls) _ (invoke_many-Safe calls) (λ rest. pure-Safe (text ∷ rest))

-- The same of one call, of a box whose workspace has the given root.
pub invoke-From :
    {D : Type 0} (c : ToolContext D) (root : FilePath) (call : ToolInvocation) (b : ToolBox D)
    → IsLocal c.tools.disk
    → IsConfined c.tools.disk root c.test_command c.test_timeout
    → From c.tools root b.workspace (invoke c call b).0.workspace
invoke-From c root call b local confined = (invoke-Safe c root local confined call b).safe

-- Whatever sequence of tool calls a model asks for, on a disk whose operations are local and with a
-- test command that leaves the outside alone: the root stays, every file outside the root is as
-- before, and recorded violations are only added.
invoke_many-Contained :
    {D : Type 0} (c : ToolContext D) (calls : List ToolInvocation) (b : ToolBox D)
    → IsLocal c.tools.disk
    → IsConfined c.tools.disk b.workspace.root c.test_command c.test_timeout
    → Contained c.tools b.workspace (invoke_many c calls b).0.workspace
invoke_many-Contained c calls b local confined =
    (invoke_many-Safe c b.workspace.root local confined calls b).safe refl
