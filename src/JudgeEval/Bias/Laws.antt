-- ===== src/JudgeEval/Bias/Laws.antt =====
-- What the reports of judge_eval/bias.py count.
use evalstack.Prelude.{
  ℕ, ◌+◌, ◌≤◌, ◌≡◌, refl, String, Bool, true, false, some, List, [], ◌∷◌, map, length, count_if,
  str_eq, eq_iff, arith, length-map, ap, ◌∙◌,
}
use evalstack.JudgeEval.Bias.{
  PositionBiasReport, undone, judge_pair, judge_pairs, position_bias, SelfPreferenceReport, one_if,
  count_authors, self_preference,
}

undone-undone : (first second s : String) → undone first second (undone first second s) ≡ s
unfolding undone
undone-undone first second s = ground (
  arith,
  eq_iff s second,
  eq_iff s first,
  eq_iff first second,
  eq_iff second first,
  eq_iff second second,
  eq_iff first first,
)

judge_pair-fair :
    (first second v : String) (r : PositionBiasReport)
    → judge_pair first second v (undone first second v) r
      ≡ record r { consistent = r.consistent + 1 }
unfolding judge_pair
judge_pair-fair first second v r = rw (undone-undone first second v) (ground (arith, eq_iff v v))

judge_pairs-fair :
    (first second : String) (vs : List String) (r : PositionBiasReport)
    → judge_pairs first second vs (map (undone first second) vs) r
      ≡ record r { consistent = r.consistent + length vs }
unfolding judge_pairs
judge_pairs-fair first second [] r = ground arith
judge_pairs-fair first second (v ∷ vs) r = rw (judge_pair-fair first second v r) (
    judge_pairs-fair first second vs (record r { consistent = r.consistent + 1 })
    ∙ ap (λ n. record r { consistent = n }) (omega arith))

-- A judge that names the same winner in both orders, under the label of its new place, is
-- consistent on every pair and favours no position.
position_bias-fair :
    (first second : String) (vs : List String)
    → position_bias first second vs (map (undone first second) vs)
      ≡ some (record {
        pairs = length vs;
        consistent = length vs;
        favoured_first = 0;
        favoured_second = 0;
      })
unfolding position_bias
position_bias-fair first second vs =
    let start : PositionBiasReport = record {
      pairs = length vs;
      consistent = 0;
      favoured_first = 0;
      favoured_second = 0;
    } in
    let e = judge_pairs-fair first second vs start in
    ground (arith, e, length-map vs (undone first second))

abbrev judged : PositionBiasReport → ℕ
judged r = r.consistent + r.favoured_first + r.favoured_second

judge_pairs-bounds :
    (first second : String) (os ss : List String) (r : PositionBiasReport)
    → (judged (judge_pairs first second os ss r) ≤ judged r + length os)
      × ((judge_pairs first second os ss r).pairs ≡ r.pairs)
unfolding judge_pairs judge_pair
judge_pairs-bounds first second [] ss r = (omega arith, refl)
judge_pairs-bounds first second (o ∷ os) [] r = (omega arith, refl)
judge_pairs-bounds first second (o ∷ os) (s ∷ ss) r =
    ground (arith, judge_pairs-bounds first second os ss (judge_pair first second o s r))

-- For orders that cover the same number of pairs the report is given, and every pair counts at most
-- once: as consistent, as favouring the first place or as favouring the second.
position_bias-bounds :
    (first second : String) (forward reversed_order : List String)
    → length forward ≡ length reversed_order
    → (r : PositionBiasReport) × (position_bias first second forward reversed_order ≡ some r)
      × (r.consistent + r.favoured_first + r.favoured_second ≤ r.pairs)
      × (r.pairs ≡ length forward)
unfolding position_bias
position_bias-bounds first second forward reversed_order h =
    let start : PositionBiasReport = record {
      pairs = length forward;
      consistent = 0;
      favoured_first = 0;
      favoured_second = 0;
    } in
    let b = judge_pairs-bounds first second forward reversed_order start in
    (
      judge_pairs first second forward reversed_order start,
      ground arith,
      omega (arith, b.0, b.1),
      b.1,
    )

-- What the split by authorship counts, for verdicts and flags of the same length.
pub record Splits (verdicts : List String) (authored : List Bool) (favourable : String)
    (r : SelfPreferenceReport) : Type 0 where
  pub own : r.own_family ≡ count_if (λ b. b) authored
  pub everyone : r.own_family + r.other_family ≡ length verdicts
  pub favoured :
      r.own_family_favourable + r.other_family_favourable
      ≡ count_if (λ v. str_eq v favourable) verdicts
  pub own_bound : r.own_family_favourable ≤ r.own_family
  pub other_bound : r.other_family_favourable ≤ r.other_family

count_authors-totals :
    (favourable : String) (vs : List String) (os : List Bool) (r : SelfPreferenceReport)
    → length vs ≡ length os
    → r.own_family_favourable ≤ r.own_family
    → r.other_family_favourable ≤ r.other_family
    → ((count_authors favourable vs os r).own_family ≡ r.own_family + count_if (λ b. b) os)
      × ((count_authors favourable vs os r).own_family
            + (count_authors favourable vs os r).other_family
          ≡ r.own_family + r.other_family + length vs)
      × ((count_authors favourable vs os r).own_family_favourable
            + (count_authors favourable vs os r).other_family_favourable
          ≡ r.own_family_favourable
            + r.other_family_favourable
            + count_if (λ v. str_eq v favourable) vs)
      × ((count_authors favourable vs os r).own_family_favourable
          ≤ (count_authors favourable vs os r).own_family)
      × ((count_authors favourable vs os r).other_family_favourable
          ≤ (count_authors favourable vs os r).other_family)
unfolding count_authors
count_authors-totals favourable [] [] r h p q = ground arith
count_authors-totals favourable [] (o ∷ os) r h p q = absurd (omega arith)
count_authors-totals favourable (v ∷ vs) [] r h p q = absurd (omega arith)
count_authors-totals favourable (v ∷ vs) (true ∷ os) r h p q = ground (
  arith,
  count_authors-totals favourable vs os
      (record r {
        own_family = r.own_family + 1;
        own_family_favourable = r.own_family_favourable + one_if (str_eq v favourable);
      })
      (omega arith) (ground arith) q,
)
count_authors-totals favourable (v ∷ vs) (false ∷ os) r h p q = ground (
  arith,
  count_authors-totals favourable vs os
      (record r {
        other_family = r.other_family + 1;
        other_family_favourable = r.other_family_favourable + one_if (str_eq v favourable);
      })
      (omega arith) p (ground arith),
)

-- For verdicts and flags of the same length the report is given: its own family is what is flagged,
-- both families make up the verdicts, the favourable ones are counted once each, and no family has
-- more favourable verdicts than verdicts.
self_preference-Splits :
    (favourable : String) (verdicts : List String) (authored : List Bool)
    → length verdicts ≡ length authored
    → (r : SelfPreferenceReport) × (self_preference favourable verdicts authored ≡ some r)
      × Splits verdicts authored favourable r
unfolding self_preference
self_preference-Splits favourable verdicts authored h =
    let start : SelfPreferenceReport = record {
      own_family = 0;
      own_family_favourable = 0;
      other_family = 0;
      other_family_favourable = 0;
    } in
    let t = count_authors-totals favourable verdicts authored start h (omega arith) (omega arith) in
    (
      count_authors favourable verdicts authored start,
      ground arith,
      record {
        own = omega (arith, t.0);
        everyone = omega (arith, t.1);
        favoured = omega (arith, t.2);
        own_bound = t.3;
        other_bound = t.4;
      },
    )
