-- ===== src/Evaluators/Efficiency.antt =====
-- evaluators/efficiency.py: consumption against allowances. The dictionary of details is left out.
use evalstack.Prelude.{
  ℕ, ◌+◌, ◌-◌, ◌*◌, ◌≤◌, ◌<◌, ◌≡◌, refl, ◌↔◌, Bool, true, false, List, [], ◌∷◌, length,
  if◌then◌else◌, arith, leb,
}
use evalstack.Prelude.Ratio.{Ratio, zero_ratio, one_ratio, ratio_leb, ratio_eq, mean, IsUnit}
use evalstack.Prelude.Mean.{mean-IsUnit, times-pos}
use evalstack.Schema.Trajectory.{
  Trajectory, of_type, as_model_call, total_input_tokens, total_output_tokens, duration_ms,
}

-- The constructor refuses an allowance that is not positive.
pub record EfficiencyBudgets : Type 0 where
  pub tokens : ℕ
  pub model_calls : ℕ
  pub wall_seconds : Ratio
  pub pass_threshold : Ratio

-- `true` where `__post_init__` raises no `ValueError`.
unfoldable pub are_positive : EfficiencyBudgets → Bool
are_positive b =
    if leb b.tokens 0
    then false
    else if leb b.model_calls 0
    then false
    else if ratio_leb b.wall_seconds zero_ratio
    then false
    else true

-- `max(0.0, 1.0 - (used - budget) / budget)` past the budget.
unfoldable pub score_against_budget : (used budget : Ratio) → Ratio
score_against_budget used budget =
    let whole = budget.num * used.den in
    let excess = used.num * budget.den - whole in
    if ratio_leb used budget then one_ratio else record { num = whole - excess; den = whole }

abbrev whole_number : ℕ → Ratio
whole_number n = record { num = n; den = 1 }

unfoldable pub axes : EfficiencyBudgets → Trajectory → List Ratio
unfolding score_against_budget total_input_tokens total_output_tokens duration_ms of_type
axes budgets t =
    score_against_budget (whole_number (total_input_tokens t + total_output_tokens t))
      (whole_number budgets.tokens)
    ∷ score_against_budget (whole_number (length (of_type as_model_call t.events)))
        (whole_number budgets.model_calls)
    ∷ score_against_budget (record { num = duration_ms t; den = 1000 }) budgets.wall_seconds
    ∷ []

-- The score and `passed` of `EfficiencyEvaluator.evaluate`.
unfoldable pub efficiency : EfficiencyBudgets → Trajectory → Ratio × Bool
unfolding axes
efficiency budgets t =
    let score = mean (axes budgets t) in (score, ratio_leb budgets.pass_threshold score)

-- For a positive allowance the score of one axis is a fraction between 0 and 1; it is 1 exactly
-- within the allowance, and 0 exactly from twice the allowance on.
pub record Scores (used budget score : Ratio) : Type 0 where
  pub unit : IsUnit score
  pub full : (ratio_eq score one_ratio ≡ true) ↔ (ratio_leb used budget ≡ true)
  pub nothing :
      (ratio_eq score zero_ratio ≡ true)
      ↔ (ratio_leb (record { num = 2 * budget.num; den = budget.den }) used ≡ true)

score-Scores :
    (used budget : Ratio)
    → 0 < used.den
    → 0 < budget.den
    → 0 < budget.num
    → Scores used budget (score_against_budget used budget)
unfolding score_against_budget
score-Scores used budget u b n =
    let w = times-pos budget.num used.den n u in
    record { unit = ground (arith, w); full = ground (arith, w); nothing = ground (arith, w) }

axis-one :
    (used budget : Ratio)
    → ratio_leb used budget ≡ true
    → score_against_budget used budget ≡ one_ratio
unfolding score_against_budget
axis-one used budget h = ground arith

-- Whether an attempt kept to every allowance.
abbrev pub IsWithin : EfficiencyBudgets → Trajectory → Type 0
unfolding total_input_tokens total_output_tokens duration_ms of_type
IsWithin b t =
    (total_input_tokens t + total_output_tokens t ≤ b.tokens)
    × (length (of_type as_model_call t.events) ≤ b.model_calls)
    × (duration_ms t * b.wall_seconds.den ≤ b.wall_seconds.num * 1000)

-- For allowances that the constructor accepts, the score of an attempt is a fraction between 0 and 1.
efficiency-IsUnit :
    (b : EfficiencyBudgets) (t : Trajectory)
    → are_positive b ≡ true
    → 0 < b.wall_seconds.den
    → IsUnit (efficiency b t).0
unfolding efficiency are_positive axes
efficiency-IsUnit b t p d =
    let tokens = whole_number (total_input_tokens t + total_output_tokens t) in
    let calls = whole_number (length (of_type as_model_call t.events)) in
    let wall : Ratio = record { num = duration_ms t; den = 1000 } in
    let s1 =
      score-Scores tokens (whole_number b.tokens) (omega arith) (omega arith) (ground arith) in
    let s2 =
      score-Scores calls (whole_number b.model_calls) (omega arith) (omega arith) (ground arith) in
    let s3 = score-Scores wall b.wall_seconds (omega arith) d (ground arith) in
    mean-IsUnit (axes b t) (s1.unit, (s2.unit, (s3.unit, tt)))

-- An attempt that keeps to every allowance has the full score.
efficiency-IsWithin :
    (b : EfficiencyBudgets) (t : Trajectory)
    → IsWithin b t
    → ratio_eq (efficiency b t).0 one_ratio ≡ true
unfolding efficiency axes
efficiency-IsWithin b t w =
    let tokens = whole_number (total_input_tokens t + total_output_tokens t) in
    let calls = whole_number (length (of_type as_model_call t.events)) in
    let wall : Ratio = record { num = duration_ms t; den = 1000 } in
    rw (axis-one tokens (whole_number b.tokens) (ground arith)) (
      rw (axis-one calls (whole_number b.model_calls) (ground arith))
        (rw (axis-one wall b.wall_seconds (ground arith)) refl))
