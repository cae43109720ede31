-- ===== src/JudgeEval/Bias.antt =====
-- judge_eval/bias.py: verdicts on the same pairs in both orders, and verdicts by authorship.
pub mod Laws
use evalstack.Prelude.{
  ℕ, ◌+◌, ◌≤◌, ◌≡◌, refl, String, Bool, true, false, ◌&&◌, Option, none, some, List, [], ◌∷◌, map,
  length, count_if, if◌then◌else◌, str_eq, eq_iff, ◌==◌, arith, length-map, ap, ◌∙◌, ltb,
}
use evalstack.Prelude.Ratio.{Ratio, zero_ratio}

pub record PositionBiasReport : Type 0 where
  pub pairs : ℕ
  pub consistent : ℕ
  pub favoured_first : ℕ
  pub favoured_second : ℕ

unfoldable pub consistency : PositionBiasReport → Ratio
consistency r = if r.pairs == 0 then zero_ratio else record { num = r.consistent; den = r.pairs }

-- `{first: second, second: first}.get(swapped, swapped)`: the later entry wins.
unfoldable pub undone : (first second swapped : String) → String
undone first second swapped =
    if str_eq swapped second then first else if str_eq swapped first then second else swapped

-- One pair.
unfoldable pub judge_pair :
    (first second original swapped : String) → PositionBiasReport → PositionBiasReport
unfolding undone
judge_pair first second original swapped r =
    if str_eq original (undone first second swapped)
    then record r { consistent = r.consistent + 1 }
    else if str_eq original first && str_eq swapped first
    then record r { favoured_first = r.favoured_first + 1 }
    else if str_eq original second && str_eq swapped second
    then record r { favoured_second = r.favoured_second + 1 }
    else r

unfoldable pub judge_pairs :
    (first second : String) → List String → List String → PositionBiasReport → PositionBiasReport
unfolding judge_pair
judge_pairs first second (o ∷ os) (s ∷ ss) r =
    judge_pairs first second os ss (judge_pair first second o s r)
judge_pairs first second _ _ r = r

-- `none` is the `ValueError` on orders that cover different numbers of pairs.
unfoldable pub position_bias :
    (first second : String) → List String → List String → Option PositionBiasReport
unfolding judge_pairs
position_bias first second forward reversed_order =
    if length forward == length reversed_order
    then some (
        judge_pairs first second forward reversed_order (record {
          pairs = length forward;
          consistent = 0;
          favoured_first = 0;
          favoured_second = 0;
        }))
    else none

pub record SelfPreferenceReport : Type 0 where
  pub own_family : ℕ
  pub own_family_favourable : ℕ
  pub other_family : ℕ
  pub other_family_favourable : ℕ

unfoldable pub own_rate : SelfPreferenceReport → Ratio
own_rate r =
    if r.own_family == 0
    then zero_ratio
    else record { num = r.own_family_favourable; den = r.own_family }

unfoldable pub other_rate : SelfPreferenceReport → Ratio
other_rate r =
    if r.other_family == 0
    then zero_ratio
    else record { num = r.other_family_favourable; den = r.other_family }

abbrev pub comparable : SelfPreferenceReport → Bool
comparable r = ltb 0 r.own_family && ltb 0 r.other_family

abbrev pub one_if : Bool → ℕ
one_if b = if b then 1 else 0

unfoldable pub count_authors :
    String → List String → List Bool → SelfPreferenceReport → SelfPreferenceReport
count_authors favourable (v ∷ vs) (is_own ∷ os) r = count_authors favourable vs os (
    if is_own
    then record r {
      own_family = r.own_family + 1;
      own_family_favourable = r.own_family_favourable + one_if (str_eq v favourable);
    }
    else record r {
      other_family = r.other_family + 1;
      other_family_favourable = r.other_family_favourable + one_if (str_eq v favourable);
    })
count_authors favourable _ _ r = r

unfoldable pub self_preference : String → List String → List Bool → Option SelfPreferenceReport
unfolding count_authors
self_preference favourable verdicts authored =
    if length verdicts == length authored
    then some (
        count_authors favourable verdicts authored (record {
          own_family = 0;
          own_family_favourable = 0;
          other_family = 0;
          other_family_favourable = 0;
        }))
    else none
