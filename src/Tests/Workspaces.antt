-- ===== src/Tests/Workspaces.antt =====
-- Workspaces, tools and attempts at concrete inputs.
use evalstack.Prelude.{
  ◌⊎◌, ◌&&◌, ℕ, if◌then◌else◌, ◌==◌, ℕ, ◌≡◌, ◌≢◌, refl, ◌++◌, String, true, false, not, none, some,
  List, [], ◌∷◌, is_empty,
}
use evalstack.Prelude.Dict.{Dict, get}
use evalstack.Prelude.Effect.{Result, done}
use evalstack.Prelude.Search.{count}
use evalstack.Prelude.Sets.{mem}
use evalstack.Json.{str, field, end}
use evalstack.Model.{ToolInvocation, ModelRequest, Reply, answered, tool_use}
use evalstack.Schema.Case.{easy}
use evalstack.Trace.Recorder.{TrajectoryRecorder, new_recorder}
use evalstack.Env.Disk.Path.{FilePath, parents, parent, path_eq}
use evalstack.Env.Disk.Memory.{Files, memory, memory-IsLocal, memory-KeepsText}
use evalstack.Env.Workspace as Workspace
use evalstack.Env.Workspace.{
  Workspace, Tools, Violation, FileEditRecord, FileDiff, compare_snapshots,
}
use evalstack.Env.Workspace.Containment.{Contained, Contained_refl}
use evalstack.Env.Workspace.Roundtrip.{read_file-write_file}
use evalstack.Env.Workspace.Diff.{there, differ, same_hash, diff-differs}
use evalstack.Agent.Tools.{ToolContext, ToolBox, replace_text}
use evalstack.Agent.Tools.Containment.{IsConfined}
use evalstack.Agent.Tools.Dispatch.{tool_name}
use evalstack.Schema.Trajectory.{Event, Body, ToolCall, tool_call, submission}
use evalstack.Agent.Replay as Replay
use evalstack.Agent.Replay.{Replaying, replay_call}
use evalstack.Agent.Replay.Calls.{after_call, replay_call-invoke, left_out, calls_in, run-skipped}
use evalstack.Agent.Loop.{ModelAgentConfig}
use evalstack.Agent.Run.{run_agent}
use evalstack.Agent.Run.Containment.{run_agent-Contained}
use evalstack.Agent.Tools.Replace.{Edits, replace_text_edit}
use evalstack.Orchestrator.Jobs.{Job}
use evalstack.Orchestrator.Runner as Runner
use evalstack.Orchestrator.Runner.{
  AgentEnd, outage, Evaluation, evaluated, saved, Backend, execute, materialise,
}
use evalstack.Orchestrator.Runner.Traces.{Accounts, execute-Accounts}
use evalstack.Orchestrator.Runner.Containment as Runs
use evalstack.Orchestrator.Runner.Containment.{Leaves, execute-Contained}
use evalstack.Evaluators.Patch.{PatchWeights, evaluate, is_changed, touched, evaluate-is_changed}

abbrev tools : Tools Files TrajectoryRecorder
tools = record {
  disk = memory;
  on_violation = Runner.record_violation (λ n. n);
  repr = λ s. s;
  text_hash = λ s. s;
  changed_lines = λ before after. "-old" ∷ "+new" ∷ [];
  unified_diff = λ before after path. "-old+new";
}

-- A file inside of the root and one outside of it.
abbrev files : Files
files p = elim (path_eq p ("ws" ∷ "a.py" ∷ [])) [
  | true ↦ some "x = old"
  | false ↦ elim (path_eq p ("secret" ∷ [])) [ true ↦ some "key" | false ↦ none ]
]

abbrev workspace : Workspace Files TrajectoryRecorder
workspace = record {
  root = "ws" ∷ [];
  disk = files;
  observer = new_recorder "run" "a" 0 100;
  violations = [];
  baseline = [];
}

abbrev context : ToolContext Files
context = record {
  tools = tools;
  clock = λ n. n;
  show_g = λ n. "60";
  test_command = "pytest" ∷ [];
  test_timeout = 60;
  known_tools = "read_file" ∷ "write_file" ∷ [];
}

abbrev box : ToolBox Files
box = record { workspace = workspace; tests_passed = none; submitted = false }

abbrev writing : String → ToolInvocation
writing path = record {
  id = "t";
  name = "write_file";
  arguments = field "path" (str path) (field "contents" (str "pwned") end);
  malformed_arguments = none;
}

-- One write inside of the workspace, and one that tries to leave it.
abbrev writes : List ToolInvocation
writes = writing "a.py" ∷ writing "../secret" ∷ []

confined : (root : FilePath) → IsConfined memory root ("pytest" ∷ []) 60
confined root d p outside = record { same_file = refl; same_text = refl }

-- A model that asks for the writes, and then for nothing.
abbrev client : ℕ → ModelRequest → Reply
client step request = answered (record {
  model = "m";
  text = "";
  tool_calls = if step == 0 then writes else [];
  usage = record { input_tokens = 3; output_tokens = 2 };
  stop_reason = tool_use;
  cost_usd = 0;
  latency_ms = 1;
  cached = false;
})

abbrev settings : ModelAgentConfig
settings = record { max_steps = 3; max_tokens = 100; temperature = 0; system_prompt = "fix" }

run_agent-Contained_example :
    Contained tools workspace (run_agent context client [] settings "h" "p" workspace).0
run_agent-Contained_example =
    run_agent-Contained context client [] settings "h" "p" workspace memory-IsLocal
      (confined ("ws" ∷ []))

-- A recorded trace: a write and an edit by `replace_text`.
abbrev recorded_write : ToolCall
recorded_write = record {
  call_id = "call-1";
  tool = "write_file";
  args = (writing "a.py").arguments;
}

abbrev recorded_replace : ToolCall
recorded_replace = record { call_id = "call-2"; tool = "replace_text"; args = end }

abbrev trace : List (Event Body)
trace =
    record { seq = 0; t_ms = 0; body = tool_call recorded_replace }
    ∷ record { seq = 1; t_ms = 5; body = submission (record { summary = "done" }) }
    ∷ []

abbrev replaying : Replaying Files
replaying = record { box = box; skipped = [] }

replay_call-invoke_example :
    (replay_call context recorded_write replaying).0 ≡ after_call context recorded_write replaying
replay_call-invoke_example = replay_call-invoke context recorded_write replaying

replay_returns :
    Replay.run context "h" trace replaying ≡ ((Replay.run context "h" trace replaying).0, done tt)
unfolding Replay.run Replay.replay_events Replay.replay_event replay_call Replay.replay_as
    Replay.start_task tool_name
replay_returns = refl

run-skipped_example :
    (Replay.run context "h" trace replaying).0.skipped ≡ [] ++ left_out context (calls_in trace)
run-skipped_example =
    run-skipped context "h" trace replaying (Replay.run context "h" trace replaying).0
      replay_returns

abbrev written : Workspace Files TrajectoryRecorder × Result FileEditRecord
written = Workspace.write_file tools "a.py" "x = new" workspace

abbrev edit : FileEditRecord
edit = Workspace.edit_record tools "a.py" (some "x = old") "x = new"

write_returns : Workspace.write_file tools "a.py" "x = new" workspace ≡ (written.0, done edit)
unfolding Workspace.write_file Workspace.resolve Workspace.read_before Workspace.make_parent
    Workspace.write_text Workspace.read_text parents path_eq parent
write_returns = refl

read_file-write_file_example :
    Workspace.read_file tools "a.py" written.0 ≡ (written.0, done "x = new")
read_file-write_file_example =
    read_file-write_file tools "a.py" "x = new" workspace written.0 edit
      (memory-KeepsText "x = new") write_returns

abbrev old_text : String
old_text = "old"

abbrev observed_by : TrajectoryRecorder → Workspace Files TrajectoryRecorder
observed_by s = record workspace { observer = s }

reads_old :
    (s : TrajectoryRecorder)
    → Workspace.read_file tools "a.py" (observed_by s) ≡ (observed_by s, done "x = old")
unfolding Workspace.read_file Workspace.resolve Workspace.read_text parents path_eq
reads_old s = refl

replace_text_edit_example :
    ((old_text ≡ "") ⊎ (count old_text "x = old" ≢ 1)
      → (replace_text context "a.py" old_text "new" box).0.workspace.disk ≡ workspace.disk)
    × (old_text ≢ ""
        → count old_text "x = old" ≡ 1
        → (edited : String) × (s : TrajectoryRecorder) × Edits old_text "new" "x = old" edited
          × ((replace_text context "a.py" old_text "new" box).0.workspace.disk
              ≡ (Workspace.write_file tools "a.py" edited (observed_by s)).0.disk))
replace_text_edit_example = replace_text_edit context "a.py" old_text "new" "x = old" box reads_old

abbrev before : Dict String
before = ("a.py", "1") ∷ ("b.py", "2") ∷ []

abbrev after : Dict String
after = ("a.py", "3") ∷ ("c.py", "4") ∷ []

abbrev changes : FileDiff
changes = compare_snapshots tools before after

diff-differs_example :
    (mem "b.py" changes.added ≡ (not (there (get "b.py" before)) && there (get "b.py" after)))
    × (mem "b.py" changes.deleted ≡ (there (get "b.py" before) && not (there (get "b.py" after))))
    × (mem "b.py" changes.modified ≡ differ (get "b.py" after) (get "b.py" before))
    × (mem "b.py" (changes.added ++ changes.modified ++ changes.deleted)
        ≡ not (same_hash (get "b.py" before) (get "b.py" after)))
diff-differs_example = diff-differs tools before after "b.py"

abbrev job : Job
job = record {
  case = record {
    case_id = "a";
    prompt = "fix it";
    files = [];
    test_command = [];
    setup_commands = [];
    timeout_s = 60;
    metadata = record { bug_kind = none; difficulty = easy; target_files = []; tags = [] };
    reference_solution = [];
  };
  attempt = 0;
}

abbrev backend : AgentEnd → Backend Files
backend how = record {
  tools = tools;
  clock = λ n. n;
  agent = λ w. (w, how);
  evaluate = λ t d w. (w, evaluated []);
  verdict = λ results. some true;
  trajectory_dir = some ("traces" ∷ []);
  run_id = "run";
  short_hash = λ s. "00000000";
  to_jsonl = λ t. t.case_id;
  show_path = λ p. "traces/run/a--0.jsonl";
  duration = 4;
  timeout_text = "60s";
}

execute-Accounts_example :
    Accounts (backend Runner.finished) job (execute (backend Runner.finished) job workspace)
execute-Accounts_example = execute-Accounts (backend Runner.finished) job workspace

-- The model agent in the runner.
abbrev model_backend : Backend Files
model_backend = record (backend Runner.finished) {
  agent = run_agent context client [] settings "h" "p";
}

model-IsConfined : Runs.IsConfined model_backend ("ws" ∷ [])
model-IsConfined = record {
  agent-From = λ w e.
      run_agent-Contained context client [] settings "h" "p" w memory-IsLocal (confined w.root);
  evaluate-From = λ t d w e. Contained_refl tools w;
}

execute-Contained_example : Leaves model_backend workspace (execute model_backend job workspace)
execute-Contained_example =
    execute-Contained model_backend job workspace memory-IsLocal model-IsConfined

abbrev weights : PatchWeights
weights = record { unrelated_file_penalty = 25; untouched_target_penalty = 20 }

evaluate-is_changed_example :
    ((evaluate weights changes ("a.py" ∷ [])).passed ≡ true
      → (is_empty (touched changes) ≡ false)
        × ((a : String) → is_changed changes a ≡ mem a ("a.py" ∷ [])))
    × (is_empty (touched changes) ≡ false
        → ((a : String) → is_changed changes a ≡ mem a ("a.py" ∷ []))
        → (evaluate weights changes ("a.py" ∷ [])).passed ≡ true)
evaluate-is_changed_example = evaluate-is_changed weights changes ("a.py" ∷ [])
