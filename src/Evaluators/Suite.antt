-- ===== src/Evaluators/Suite.antt =====
-- EvaluatorSuite of evaluators/base.py, and `with_judge` of evaluators/registry.py. The evaluators
-- of a suite share one workspace, whose state is `W`.
pub mod Verdict
pub mod Judge
use evalstack.Prelude.{
  ℕ, ◌+◌, String, Bool, true, false, not, ◌&&◌, ◌||◌, Option, none, some, List, [], ◌∷◌, ◌++◌, map,
  any, all, keep, is_empty, count_if, ltb, if◌then◌else◌, str_eq,
}
use evalstack.Prelude.Text.{◌+++◌}
use evalstack.Schema.Result.{EvaluatorResult}

-- `name in names`
abbrev pub contains : String → List String → Bool
contains name names = any (λ n. str_eq n name) names

-- The last result of that name: `{result.name: result for result in results}.get(name)`.
unfoldable pub by_name : String → List EvaluatorResult → Option EvaluatorResult
by_name name [] = none
by_name name (r ∷ rs) =
    let later = by_name name rs in
    elim later [ some s ↦ some s | none ↦ if str_eq r.name name then some r else none ]

pub data SuiteError : Type 0 where
  duplicate_names unknown_gating no_gating : SuiteError

pub record Evaluator (W : Type 0) : Type 0 where
  pub name : String
  pub evaluate : W → W × EvaluatorResult

-- `gating` is a frozen set, as the list of its elements.
pub record EvaluatorSuite (W : Type 0) : Type 0 where
  pub name : String
  pub evaluators : List (Evaluator W)
  pub gating : List String

abbrev pub has_duplicate : List String → Bool
has_duplicate [] = false
has_duplicate (n ∷ ns) = contains n ns || has_duplicate ns

unfoldable pub passed_at : List EvaluatorResult → String → Bool
unfolding by_name
passed_at results name = elim (by_name name results) [ some r ↦ r.passed | none ↦ false ]

unfoldable pub missing_at : List EvaluatorResult → String → Bool
unfolding by_name
missing_at results name = elim (by_name name results) [ some r ↦ false | none ↦ true ]

module _ {W : Type 0} where
  abbrev pub names_of : List (Evaluator W) → List String
  names_of es = map (λ e. e.name) es

  -- `__post_init__`: the first check that raises.
  unfoldable pub suite_error : EvaluatorSuite W → Option SuiteError
  suite_error suite =
      let names = names_of suite.evaluators in
      if has_duplicate names
      then some duplicate_names
      else if not (is_empty (keep (λ n. not (contains n names)) suite.gating))
      then some unknown_gating
      else if is_empty suite.gating
      then some no_gating
      else none

  -- `evaluate`: one after another, each in the workspace that the one before left.
  unfoldable pub evaluate : List (Evaluator W) → W → W × List EvaluatorResult
  evaluate [] w = (w, [])
  evaluate (e ∷ es) w =
      let one = e.evaluate w in let rest = evaluate es one.0 in (rest.0, one.1 ∷ rest.1)

  -- `verdict`: `none` is the `ValueError` on a gating evaluator without a result.
  unfoldable pub verdict : EvaluatorSuite W → List EvaluatorResult → Option Bool
  unfolding passed_at missing_at
  verdict suite results =
      if any (missing_at results) suite.gating
      then none
      else some (all (passed_at results) suite.gating)

  -- `none` is a `ValueError`: of the name that is taken, or of the new suite's constructor.
  unfoldable pub with_judge : EvaluatorSuite W → Evaluator W → Option (EvaluatorSuite W)
  unfolding suite_error
  with_judge suite judge =
      let judged : EvaluatorSuite W = record {
        name = suite.name +++ "+judge";
        evaluators = suite.evaluators ++ judge ∷ [];
        gating = suite.gating;
      } in
      if contains judge.name (names_of suite.evaluators)
      then none
      else elim (suite_error judged) [ some e ↦ none | none ↦ some judged ]
