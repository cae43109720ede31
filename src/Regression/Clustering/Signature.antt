-- ===== src/Regression/Clustering/Signature.antt =====
-- FailureSignature of regression/clustering.py: the observable shape of one failure.
use evalstack.Prelude.{
  ℕ, zero, String, Bool, true, false, not, ◌&&◌, Option, none, some, ◌==◌, if◌then◌else◌, str_eq,
}
use evalstack.Prelude.Int.{pos}
use evalstack.Json.{
  Json, null, boolean, int, str, arr, obj, nil, cons, Fields, end, field, get_field,
}
use evalstack.Schema.Result.{
  CaseStatus, completed, timed_out, infra_error, cancelled, EvaluatorResult, CaseResult, evaluator,
}

-- The values of `FailureSignature.edit` and `FailureSignature.outcome`.
pub data Edit : Type 0 where
  nothing off_target wider_than_target on_target unknown : Edit

pub data FailureOutcome : Type 0 where
  infrastructure out_of_time tests_failing : FailureOutcome

pub record FailureSignature : Type 0 where
  pub edit : Edit
  pub ran_tests : Bool
  pub outcome : FailureOutcome
  pub unsafe : Bool

abbrev is_nothing : Edit → Bool
is_nothing nothing = true
is_nothing _ = false

abbrev is_off_target : Edit → Bool
is_off_target off_target = true
is_off_target _ = false

abbrev is_wider : Edit → Bool
is_wider wider_than_target = true
is_wider _ = false

abbrev is_infrastructure : FailureOutcome → Bool
is_infrastructure infrastructure = true
is_infrastructure _ = false

abbrev is_out_of_time : FailureOutcome → Bool
is_out_of_time out_of_time = true
is_out_of_time _ = false

unfoldable pub label : FailureSignature → String
label s =
    if is_infrastructure s.outcome
    then "infrastructure fault, not the agent"
    else if is_out_of_time s.outcome
    then "ran out of time"
    else if s.unsafe
    then "unsafe behaviour recorded"
    else if is_nothing s.edit
    then "changed nothing"
    else if not s.ran_tests
    then "edited without ever running the tests"
    else if is_off_target s.edit
    then "edited the wrong files"
    else if is_wider s.edit
    then "fixed the target but disturbed other files"
    else "edited the right file, tests still failing"

abbrev detail_of : Option EvaluatorResult → Fields
detail_of none = end
detail_of (some r) = r.detail

-- `_detail`
unfoldable pub detail : CaseResult → String → Fields
unfolding evaluator
detail result name = detail_of (evaluator result name)

-- Whether `_as_list(value)` has an element.
abbrev pub has_items : Option Json → Bool
has_items (some (arr (cons x xs))) = true
has_items _ = false

-- `bool(value) if isinstance(value, int) else False`: a Boolean is an `int` in Python.
abbrev pub is_nonzero : Option Json → Bool
is_nonzero (some (int (pos zero))) = false
is_nonzero (some (int _)) = true
is_nonzero (some (boolean b)) = b
is_nonzero _ = false

-- The truth of a JSON value.
abbrev pub is_truthy : Option Json → Bool
is_truthy none = false
is_truthy (some null) = false
is_truthy (some (boolean b)) = b
is_truthy (some (int (pos zero))) = false
is_truthy (some (int _)) = true
is_truthy (some (str text)) = not (str_eq text "")
is_truthy (some (arr nil)) = false
is_truthy (some (arr (cons x xs))) = true
is_truthy (some (obj end)) = false
is_truthy (some (obj (field k v rest))) = true

unfoldable pub edit_of : Fields → Edit
unfolding get_field
edit_of patch =
    let unrelated = has_items (get_field "unrelated_files" patch) in
    let untouched = has_items (get_field "untouched_targets" patch) in
    if not (has_items (get_field "touched" patch))
    then nothing
    else if unrelated && untouched
    then off_target
    else if unrelated
    then wider_than_target
    else if untouched
    then off_target
    else on_target

abbrev finished_signature : CaseResult → FailureSignature
unfolding detail edit_of get_field
finished_signature r = record {
  edit = edit_of (detail r "patch_locality");
  ran_tests = is_nonzero (get_field "test_runs" (detail r "trajectory"));
  outcome =
      if is_truthy (get_field "timed_out" (detail r "tests")) then out_of_time else tests_failing;
  unsafe = is_nonzero (get_field "finding_count" (detail r "safety"));
}

signature_at : CaseStatus → CaseResult → FailureSignature
unfolding finished_signature
signature_at infra_error r = record {
  edit = nothing;
  ran_tests = false;
  outcome = infrastructure;
  unsafe = false;
}
signature_at timed_out r = record {
  edit = unknown;
  ran_tests = false;
  outcome = out_of_time;
  unsafe = false;
}
signature_at completed r = finished_signature r
signature_at cancelled r = finished_signature r

unfoldable pub signature_for : CaseResult → FailureSignature
unfolding signature_at
signature_for r = signature_at r.status r

abbrev edit_number : Edit → ℕ
edit_number nothing = 0
edit_number off_target = 1
edit_number wider_than_target = 2
edit_number on_target = 3
edit_number unknown = 4

abbrev outcome_number : FailureOutcome → ℕ
outcome_number infrastructure = 0
outcome_number out_of_time = 1
outcome_number tests_failing = 2

abbrev same_bool : Bool → Bool → Bool
same_bool true b = b
same_bool false b = not b

-- `==` of the frozen dataclass
abbrev pub same_signature : FailureSignature → FailureSignature → Bool
same_signature s t =
    (edit_number s.edit == edit_number t.edit)
    && same_bool s.ran_tests t.ran_tests
    && (outcome_number s.outcome == outcome_number t.outcome)
    && same_bool s.unsafe t.unsafe
