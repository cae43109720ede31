-- ===== src/Evaluators/Outcome.antt =====
-- evaluators/outcome.py: the case's own tests, run on the final workspace. `digit` is the value of a
-- decimal digit and `is_word` what `\w` matches, by code point. The dictionary of details is the record
-- `OutcomeDetail`.
use evalstack.Prelude.{
  ℕ, ◌+◌, ◌*◌, ◌≡◌, ◌∙◌, String, Bool, true, false, not, ◌&&◌, ◌||◌, Option, none, some, List, [],
  ◌∷◌, is_empty, sum_of, if◌then◌else◌, str_eq, ◌==◌, leb, arith,
}
use evalstack.Prelude.Int.{ℤ}
use evalstack.Prelude.Text.{len, suffix_from}
use evalstack.Prelude.Search.{starts, is_space}
use evalstack.Prelude.Dict.{Dict, update, sort_keys}
use evalstack.Prelude.Ratio.{Ratio, zero_ratio, one_ratio}
use evalstack.Prelude.Effect.{Effect, pure, ◌>>=◌}
use evalstack.Env.Workspace as Workspace
use evalstack.Env.Workspace.{Workspace, Tools, CommandResult, ok}
use Prim.Native.Char.{Char, code}

-- What ends a line for `splitlines`.
abbrev is_break : ℕ → Bool
is_break n = (leb 10 n && leb n 13) || (leb 28 n && leb n 30) || n == 133 || n == 8232 || n == 8233

abbrev put_char : Char → List String → List String
put_char c [] = String.◌∷◌ c "" ∷ []
put_char c (line ∷ lines) = String.◌∷◌ c line ∷ lines

-- `splitlines`, with an empty line more between a carriage return and its newline, and at the end.
unfoldable pub lines_of : String → List String
lines_of String.[] = "" ∷ []
lines_of (String.◌∷◌ c s) =
    let rest = lines_of s in if is_break (code c) then "" ∷ rest else put_char c rest

-- The labels of `_SUMMARY_COUNT_RE`, in its order.
abbrev summary_labels : List String
summary_labels = "passed" ∷ "failed" ∷ "error" ∷ "errors" ∷ "skipped" ∷ "xfailed" ∷ "xpassed" ∷ []

pub record OutcomeDetail : Type 0 where
  pub exit_code : Option ℤ
  pub timed_out : Bool
  pub command : List String
  pub duration_ms : ℕ
  pub counts : Dict ℕ

pub record OutcomeResult : Type 0 where
  pub score : Ratio
  pub passed : Bool
  pub detail : OutcomeDetail

abbrev shown : CommandResult → String
shown r = if str_eq r.stdout "" then r.stderr else r.stdout

-- `_VERIFICATION_TIMEOUT_MARGIN_S`
abbrev timeout_margin : ℕ
timeout_margin = 30000

module _ (digit : ℕ → Option ℕ) (is_word : ℕ → Bool) where
  -- `\b` after a label
  abbrev at_boundary : String → Bool
  at_boundary String.[] = true
  at_boundary (String.◌∷◌ c s) = not (is_word (code c))

  unfoldable pub label_at : List String → String → Option String
  label_at [] s = none
  label_at (l ∷ ls) s =
      if starts l s && at_boundary (suffix_from (len l) s) then some l else label_at ls s

  -- `\s*` and then a label
  unfoldable pub after_space : String → Option String
  unfolding label_at
  after_space String.[] = none
  after_space (String.◌∷◌ c s) =
      let later = after_space s in
      if is_space (code c) then later else label_at summary_labels (String.◌∷◌ c s)

  -- `\s+` and then a label, with the number before
  abbrev with_label : ℕ → String → Option (ℕ × String)
  with_label n String.[] = none
  with_label n (String.◌∷◌ c s) =
      if is_space (code c)
      then elim (after_space s) [ none ↦ none | some l ↦ some (n, l) ]
      else none

  -- The pattern from a digit on, with the value of the digits before.
  unfoldable pub match_from : ℕ → String → Option (ℕ × String)
  unfolding after_space
  match_from n String.[] = none
  match_from n (String.◌∷◌ c s) = elim (digit (code c)) [
    | some d ↦ match_from (n * 10 + d) s
    | none ↦ with_label n (String.◌∷◌ c s)
  ]

  abbrev is_digit : Char → Bool
  is_digit c = elim (digit (code c)) [ none ↦ false | some d ↦ true ]

  abbrev put_match : Option (ℕ × String) → List (ℕ × String) → List (ℕ × String)
  put_match none rest = rest
  put_match (some m) rest = m ∷ rest

  -- `findall` on a line: a match begins at a digit that follows no digit.
  unfoldable pub matches_in : (after_digit : Bool) → String → List (ℕ × String)
  unfolding match_from
  matches_in after_digit String.[] = []
  matches_in after_digit (String.◌∷◌ c s) =
      let rest = matches_in (is_digit c) s in
      if is_digit c && not after_digit then put_match (match_from 0 (String.◌∷◌ c s)) rest else rest

  -- `"error" if label.startswith("error") else label`
  abbrev key_of : String → String
  key_of label = if starts "error" label then "error" else label

  unfoldable pub count_matches : List (ℕ × String) → Dict ℕ → Dict ℕ
  count_matches [] counts = counts
  count_matches ((value, label) ∷ rest) counts =
      count_matches rest (update (key_of label) 0 (λ n. n + value) counts)

  -- The matches of the last line that has any.
  unfoldable pub last_matches : List String → List (ℕ × String)
  unfolding matches_in
  last_matches [] = []
  last_matches (line ∷ lines) =
      let later = last_matches lines in if is_empty later then matches_in false line else later

  -- `parse_pytest_counts`
  unfoldable pub parse_pytest_counts : String → Dict ℕ
  unfolding last_matches count_matches lines_of
  parse_pytest_counts output = count_matches (last_matches (lines_of output)) []

  sum_of-update :
      (key : String) (n : ℕ) (d : Dict ℕ)
      → sum_of (λ e. e.1) (update key 0 (λ m. m + n) d) ≡ sum_of (λ e. e.1) d + n
  unfolding update
  sum_of-update key n [] = omega arith
  sum_of-update key n ((k, v) ∷ d) = ground (arith, sum_of-update key n d)

  sum_of-count_matches :
      (ms : List (ℕ × String)) (d : Dict ℕ)
      → sum_of (λ e. e.1) (count_matches ms d) ≡ sum_of (λ e. e.1) d + sum_of (λ m. m.0) ms
  unfolding count_matches
  sum_of-count_matches [] d = omega arith
  sum_of-count_matches ((value, label) ∷ ms) d =
      sum_of-count_matches ms (update (key_of label) 0 (λ n. n + value) d)
      ∙ omega (arith, sum_of-update (key_of label) value d)

  -- The counts add up to the numbers of the last line that has any.
  sum_of-parse_pytest_counts :
      (output : String)
      → sum_of (λ e. e.1) (parse_pytest_counts output)
        ≡ sum_of (λ m. m.0) (last_matches (lines_of output))
  unfolding parse_pytest_counts
  sum_of-parse_pytest_counts output =
      sum_of-count_matches (last_matches (lines_of output)) [] ∙ omega arith

  abbrev outcome_of : List String → CommandResult → OutcomeResult
  outcome_of command r = record {
    score = if ok r then one_ratio else zero_ratio;
    passed = ok r;
    detail = record {
      exit_code = r.exit_code;
      timed_out = r.timed_out;
      command = command;
      duration_ms = r.duration_ms;
      counts = sort_keys (parse_pytest_counts (shown r));
    };
  }

  -- `SuiteOutcomeEvaluator.evaluate`, of a case with this command and timeout
  unfoldable pub evaluate :
      {D S : Type 0}
      → Tools D S
      → (test_command : List String) (timeout : ℕ) → Effect (Workspace D S) OutcomeResult
  unfolding ok parse_pytest_counts
  evaluate tools test_command timeout = do
    result ← Workspace.run tools test_command (timeout + timeout_margin)
    pure (outcome_of test_command result)
