-- ===== src/Evaluators/Behaviour.antt =====
-- evaluators/trajectory.py: what a trace says of the agent's behaviour. The weights are fractions that
-- are not negative; the dictionary of details is left out.
pub mod Laws
pub mod Score
use evalstack.Prelude.{
  ℕ, zero, suc, ◌+◌, ◌-◌, ◌*◌, String, Bool, true, false, not, ◌&&◌, ◌||◌, Option, none, some, List,
  [], ◌∷◌, length, count_if, sum_of, any, keep, map, if◌then◌else◌, ltb, str_eq,
}
use evalstack.Prelude.Dict.{Dict, update}
use evalstack.Prelude.Ratio.{Ratio, zero_ratio, one_ratio, ratio_leb, ratio_ltb, ratio_add}
use evalstack.Json.{Fields, get_field, as_string}
use evalstack.Schema.Trajectory.{
  Event, Body, Trajectory, ToolCall, ToolResult, FileEdit, of_type, as_tool_call, as_tool_result,
  as_file_edit,
}

pub record TrajectoryWeights : Type 0 where
  pub redundant_read : Ratio
  pub failed_tool_call : Ratio
  pub blind_edit : Ratio
  pub excess_tool_call : Ratio
  pub tool_call_budget : ℕ
  pub recovery_credit : Ratio
  pub pass_threshold : Ratio

pub record TrajectorySignals : Type 0 where
  pub tool_calls : ℕ
  pub redundant_reads : ℕ
  pub failed_tool_calls : ℕ
  pub blind_edits : ℕ
  pub files_read : ℕ
  pub files_edited : ℕ
  pub test_runs : ℕ
  pub recovered_after_failure : Bool

-- The path of a call of `read_file` whose argument is text.
unfoldable pub read_path : ToolCall → Option String
unfolding get_field as_string
read_path c = if str_eq c.tool "read_file" then as_string (get_field "path" c.args) else none

abbrev pub count_path : Option String → Dict ℕ → Dict ℕ
count_path none counts = counts
count_path (some path) counts = update path 0 suc counts

unfoldable pub count_reads : Dict ℕ → List (Event ToolCall) → Dict ℕ
unfolding read_path
count_reads counts [] = counts
count_reads counts (c ∷ cs) = count_reads (count_path (read_path c.body) counts) cs

abbrev pub contains : String → List String → Bool
contains path paths = any (λ p. str_eq p path) paths

-- `{edit.path for edit in edits}`, in the order of the first edits
unfoldable pub edited_paths : List String → List (Event FileEdit) → List String
edited_paths seen [] = seen
edited_paths seen (e ∷ es) =
    edited_paths (if contains e.body.path seen then seen else e.body.path ∷ seen) es

-- An edit after `failed` and before `green`.
abbrev pub edit_between : ℕ → ℕ → List (Event FileEdit) → Bool
edit_between failed green edits = any (λ e. ltb failed e.seq && ltb e.seq green) edits

-- One result: `failed_test_seq` and `recovered`.
unfoldable pub test_result :
    List (Event FileEdit) → Event ToolResult → Option ℕ × Bool → Option ℕ × Bool
test_result edits r (failed, recovered) =
    if not (str_eq r.body.tool "run_tests")
    then (failed, recovered)
    else if not r.body.ok
    then (some r.seq, recovered)
    else elim failed [ some at ↦ (some at, edit_between at r.seq edits) | none ↦ (none, recovered) ]

unfoldable pub test_results :
    List (Event FileEdit) → Option ℕ × Bool → List (Event ToolResult) → Option ℕ × Bool
unfolding test_result
test_results edits s [] = s
test_results edits s (r ∷ rs) = test_results edits (test_result edits r s) rs

unfoldable pub extract_signals : Trajectory → TrajectorySignals
unfolding count_reads edited_paths test_results of_type
extract_signals t =
    let calls = of_type as_tool_call t.events in
    let results = of_type as_tool_result t.events in
    let edits = of_type as_file_edit t.events in
    let read_counts = count_reads [] calls in
    let edited = edited_paths [] edits in
    record {
      tool_calls = length calls;
      redundant_reads = sum_of (λ e. e.1 - 1) read_counts;
      failed_tool_calls = count_if (λ r. not r.body.ok) results;
      blind_edits = count_if (λ p. not (contains p (map (λ e. e.0) read_counts))) edited;
      files_read = length read_counts;
      files_edited = length edited;
      test_runs = count_if (λ c. str_eq c.body.tool "run_tests") calls;
      recovered_after_failure = (test_results edits (none, false) results).1;
    }

abbrev times : ℕ → Ratio → Ratio
times n w = record { num = w.num * n; den = w.den }

-- `max(0.0, min(1.0, 1.0 - penalty + credit))`
abbrev pub clipped : (penalty credit : Ratio) → Ratio
clipped penalty credit =
    let up = ratio_add one_ratio credit in
    let score : Ratio = record {
      num = up.num * penalty.den - penalty.num * up.den;
      den = up.den * penalty.den;
    } in
    if ratio_ltb one_ratio score then one_ratio else score

unfoldable pub penalty_of : TrajectoryWeights → TrajectorySignals → Ratio
penalty_of w s =
    ratio_add
      (ratio_add
        (ratio_add (times s.redundant_reads w.redundant_read)
          (times s.failed_tool_calls w.failed_tool_call))
        (times s.blind_edits w.blind_edit))
      (times (s.tool_calls - w.tool_call_budget) w.excess_tool_call)

unfoldable pub score_signals : TrajectoryWeights → TrajectorySignals → Ratio
unfolding penalty_of
score_signals w s =
    clipped (penalty_of w s) (if s.recovered_after_failure then w.recovery_credit else zero_ratio)

-- The score and `passed` of `TrajectoryEvaluator.evaluate`.
unfoldable pub evaluate : TrajectoryWeights → Trajectory → Ratio × Bool
unfolding extract_signals score_signals
evaluate w t =
    let score = score_signals w (extract_signals t) in (score, ratio_leb w.pass_threshold score)
