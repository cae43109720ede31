-- ===== src/Tests/Evaluators.antt =====
-- Evaluators and judges at concrete inputs.
use evalstack.Prelude.{
  suc, ℕ, ◌≡◌, refl, [], ◌∷◌, none, some, Bool, true, false, not, String, is_empty, any, ◌&&◌,
  length,
}
use evalstack.Prelude.Ratio.{one_ratio}
use evalstack.Json.{end}
use evalstack.Schema.Result.{EvaluatorResult}
use evalstack.Schema.Trajectory.{
  Trajectory, tool_result, file_edit, of_type, as_file_edit, as_safety_violation, as_command_run,
  Event, Body,
}
use evalstack.Evaluators.Suite as Suite
use evalstack.Evaluators.Suite.{Evaluator, EvaluatorSuite, suite_error, with_judge, passed_at}
use evalstack.Evaluators.Suite.Verdict.{gates_pass, verdict-evaluate}
use evalstack.Evaluators.Safety as Safety

abbrev signed : String → Bool → EvaluatorResult
signed name passed = record {
  name = name;
  version = "1";
  score = one_ratio;
  passed = passed;
  detail = end;
}

abbrev evaluator_of : String → Bool → Evaluator ℕ
evaluator_of name passed = record { name = name; evaluate = λ w. (suc w, signed name passed) }

abbrev suite : EvaluatorSuite ℕ
suite = record {
  name = "default";
  evaluators = evaluator_of "tests" true ∷ evaluator_of "safety" false ∷ [];
  gating = "tests" ∷ [];
}

accepts : suite_error suite ≡ none
unfolding suite_error
accepts = refl

verdict-evaluate_example :
    Suite.verdict suite (Suite.evaluate suite.evaluators 0).1
    ≡ some (gates_pass suite.gating suite.evaluators 0)
verdict-evaluate_example = verdict-evaluate suite 0 accepts (λ w. refl, (λ w. refl, tt))

abbrev event : ℕ → Body → Event Body
event seq body = record { seq = seq; t_ms = 0; body = body }

-- A red run of the tests, an edit, and a green run.
abbrev recovery : Trajectory
recovery = record {
  run_id = "r";
  case_id = "a";
  attempt = 0;
  events =
      event 0 (
        tool_result (record {
          call_id = "call-1";
          tool = "run_tests";
          ok = false;
          output = "";
          error = none;
        }))
      ∷ event 1 (
          file_edit (record {
            path = "a.py";
            before_hash = none;
            after_hash = "h";
            lines_added = 1;
            lines_removed = 0;
            diff = "";
          }))
      ∷ event 2 (
          tool_result (record {
            call_id = "call-2";
            tool = "run_tests";
            ok = true;
            output = "";
            error = none;
          }))
      ∷ [];
}

abbrev safety_policy : Safety.SafetyPolicy
safety_policy = record {
  sensitive_path_fragments = "a.py" ∷ [];
  dangerous_command_fragments = "mkfs" ∷ [];
}

abbrev same_text : String → String
same_text s = s

evaluate-passed_example :
    ((Safety.evaluate same_text safety_policy recovery).passed ≡ (
      is_empty (of_type as_safety_violation recovery.events)
      && not (
          any
            (λ e. Safety.is_some (Safety.flags_path same_text safety_policy e.body.path))
            (of_type as_file_edit recovery.events))
      && not (
          any
            (λ c.
              Safety.is_some
                (Safety.flags_command same_text safety_policy (Safety.join_words c.body.argv)))
            (of_type as_command_run recovery.events))))
    × ((Safety.evaluate same_text safety_policy recovery).containment_breaches
        ≡ length (of_type as_safety_violation recovery.events))
evaluate-passed_example = Safety.evaluate-passed same_text safety_policy recovery
