-- ===== src/Stats/Significance/Laws.antt =====
-- McNemar's test of stats/significance.py: its table, its p-value, and the exchange of the two runs.
use evalstack.Prelude.{
  ℕ, zero, suc, ◌+◌, ◌-◌, ◌^◌, min, Bool, leb, true, false, some, List, [], ◌∷◌, length, arith, ◌≡◌,
  refl, count_if, ap, ◌∙◌, sym, ◌≤◌, ◌<◌,
}
use evalstack.Prelude.Ratio.{Ratio, one_ratio, ratio_ltb, IsUnit}
use evalstack.Stats.Significance.{
  PairedCounts, discordant, total, no_counts, count_pair, count_pairs, paired_counts, two_sided_p,
  McNemarResult, significant, Direction, improvement, regression, no_change, direction, mcnemar,
  overflows_at, binomial_two_sided_p,
}

-- The result of the test with these counts, where it returns.
unfoldable pub result_of : Ratio → PairedCounts → McNemarResult
unfolding two_sided_p
result_of alpha counts = record {
  counts = counts;
  p_value = two_sided_p counts.only_after_passed (discordant counts);
  alpha = alpha;
}

-- What the table says of the two lists.
pub record Tabulates (before after : List Bool) (c : PairedCounts) : Type 0 where
  pub all_pairs : total c ≡ length before
  pub before_passes : c.both_passed + c.only_before_passed ≡ count_if (λ b. b) before
  pub after_passes : c.both_passed + c.only_after_passed ≡ count_if (λ b. b) after

pub count_pairs-totals :
    (before after : List Bool) (c : PairedCounts)
    → length before ≡ length after
    → (total (count_pairs before after c) ≡ total c + length before)
      × ((count_pairs before after c).both_passed + (count_pairs before after c).only_before_passed
          ≡ c.both_passed + c.only_before_passed + count_if (λ b. b) before)
      × ((count_pairs before after c).both_passed + (count_pairs before after c).only_after_passed
          ≡ c.both_passed + c.only_after_passed + count_if (λ b. b) after)
unfolding count_pairs
count_pairs-totals [] [] c h = ground arith
count_pairs-totals [] (b ∷ newer) c h = absurd (omega arith)
count_pairs-totals (a ∷ older) [] c h = absurd (omega arith)
count_pairs-totals (true ∷ older) (true ∷ newer) c h =
    ground (arith, count_pairs-totals older newer (count_pair true true c) (omega arith))
count_pairs-totals (true ∷ older) (false ∷ newer) c h =
    ground (arith, count_pairs-totals older newer (count_pair true false c) (omega arith))
count_pairs-totals (false ∷ older) (true ∷ newer) c h =
    ground (arith, count_pairs-totals older newer (count_pair false true c) (omega arith))
count_pairs-totals (false ∷ older) (false ∷ newer) c h =
    ground (arith, count_pairs-totals older newer (count_pair false false c) (omega arith))

abbrev pub mirror : PairedCounts → PairedCounts
mirror c = record c {
  only_before_passed = c.only_after_passed;
  only_after_passed = c.only_before_passed;
}

count_pairs-mirror :
    (before after : List Bool) (c : PairedCounts)
    → count_pairs after before (mirror c) ≡ mirror (count_pairs before after c)
unfolding count_pairs
count_pairs-mirror [] [] c = refl
count_pairs-mirror [] (b ∷ newer) c = refl
count_pairs-mirror (a ∷ older) [] c = refl
count_pairs-mirror (true ∷ older) (true ∷ newer) c =
    count_pairs-mirror older newer (count_pair true true c)
count_pairs-mirror (true ∷ older) (false ∷ newer) c =
    count_pairs-mirror older newer (count_pair true false c)
count_pairs-mirror (false ∷ older) (true ∷ newer) c =
    count_pairs-mirror older newer (count_pair false true c)
count_pairs-mirror (false ∷ older) (false ∷ newer) c =
    count_pairs-mirror older newer (count_pair false false c)

pub count_pairs-same :
    (xs : List Bool) (c : PairedCounts) → discordant (count_pairs xs xs c) ≡ discordant c
unfolding count_pairs
count_pairs-same [] c = refl
count_pairs-same (true ∷ xs) c = count_pairs-same xs (count_pair true true c)
count_pairs-same (false ∷ xs) c = count_pairs-same xs (count_pair false false c)

binomial-mirror : (a b : ℕ) → two_sided_p a (b + a) ≡ two_sided_p b (a + b)
unfolding two_sided_p
binomial-mirror a b =
    let e : b + a ≡ a + b = omega arith in
    let m : min a (a + b - a) ≡ min b (a + b - b) = omega arith in rw e (rw m refl)

abbrev opposite : Direction → Direction
opposite improvement = regression
opposite regression = improvement
opposite no_change = no_change

-- The result of the same comparison made the other way round.
abbrev pub Mirrors : McNemarResult → McNemarResult → Type 0
Mirrors r s =
    (s.counts ≡ mirror r.counts)
    × (s.p_value ≡ r.p_value)
    × (significant s ≡ significant r)
    × (direction s ≡ opposite (direction r))

turned :
    (r : McNemarResult) → direction (record r { counts = mirror r.counts }) ≡ opposite (direction r)
unfolding direction
turned r = ground arith

direction-counts :
    (r s : McNemarResult) → s.counts ≡ mirror r.counts → direction s ≡ opposite (direction r)
unfolding direction
direction-counts r s e = rw e (turned r)

result_of-Mirrors :
    (alpha : Ratio) (c : PairedCounts) → Mirrors (result_of alpha c) (result_of alpha (mirror c))
unfolding result_of
result_of-Mirrors alpha c =
    let e = binomial-mirror c.only_before_passed c.only_after_passed in
    (
      refl,
      e,
      ap (λ p. ratio_ltb p alpha) e,
      direction-counts (result_of alpha c) (result_of alpha (mirror c)) refl,
    )

paired_counts-some :
    (before after : List Bool)
    → length before ≡ length after
    → paired_counts before after ≡ some (count_pairs before after no_counts)
unfolding paired_counts
paired_counts-some before after h = ground arith

pub mcnemar-some :
    (before after : List Bool) (alpha : Ratio)
    → length before ≡ length after
    → discordant (count_pairs before after no_counts) < overflows_at
    → mcnemar before after alpha ≡ some (result_of alpha (count_pairs before after no_counts))
unfolding mcnemar result_of binomial_two_sided_p
mcnemar-some before after alpha h few =
    let c = count_pairs before after no_counts in
    let in_range : leb overflows_at (discordant c) ≡ false = ground arith in
    rw (paired_counts-some before after h) (rw in_range refl)

-- For two runs of the same length that disagree on fewer than 1024 cases, exchanging them exchanges the two kinds of disagreement and the
-- direction, and changes neither the p-value nor the significance.
mcnemar-Mirrors :
    (before after : List Bool) (alpha : Ratio)
    → length before ≡ length after
    → discordant (count_pairs before after no_counts) < overflows_at
    → (r : McNemarResult) × (s : McNemarResult) × (mcnemar before after alpha ≡ some r)
      × (mcnemar after before alpha ≡ some s)
      × Mirrors r s
mcnemar-Mirrors before after alpha h few =
    let c = count_pairs before after no_counts in
    let turn : count_pairs after before no_counts ≡ mirror c =
      count_pairs-mirror before after no_counts in
    (
      result_of alpha c,
      result_of alpha (mirror c),
      mcnemar-some before after alpha h few,
      mcnemar-some after before alpha (sym h) (omega (arith, ap discordant turn))
          ∙ ap (λ x. some (result_of alpha x)) turn,
      result_of-Mirrors alpha c,
    )

power-pos : (n : ℕ) → 0 < 2 ^ n
power-pos zero = omega arith
power-pos (suc n) = omega (arith, power-pos n)

binomial-IsUnit : (successes trials : ℕ) → IsUnit (two_sided_p successes trials)
unfolding two_sided_p
binomial-IsUnit successes trials = ground (arith, power-pos trials)

-- For outcomes of the same length that differ in fewer than 1024 places the test returns; its table counts every pair in exactly one of
-- four cells and has the numbers of passes of the two runs as margins, and its p-value is a fraction
-- between 0 and 1.
pub mcnemar-Tabulates :
    (before after : List Bool) (alpha : Ratio)
    → length before ≡ length after
    → discordant (count_pairs before after no_counts) < overflows_at
    → (r : McNemarResult) × (mcnemar before after alpha ≡ some r)
      × Tabulates before after r.counts
      × IsUnit r.p_value
unfolding result_of
mcnemar-Tabulates before after alpha h few =
    let c = count_pairs before after no_counts in
    let t = count_pairs-totals before after no_counts h in
    (
      result_of alpha c,
      mcnemar-some before after alpha h few,
      record {
        all_pairs = omega (arith, t.0);
        before_passes = omega (arith, t.1);
        after_passes = omega (arith, t.2);
      },
      binomial-IsUnit c.only_after_passed (discordant c),
    )

pub undecided :
    (alpha : Ratio) (c : PairedCounts)
    → discordant c ≡ 0
    → alpha.num ≤ alpha.den
    → ((result_of alpha c).p_value ≡ one_ratio)
      × (direction (result_of alpha c) ≡ no_change)
      × (significant (result_of alpha c) ≡ false)
unfolding result_of two_sided_p direction
undecided alpha c d h = ground arith

-- Two runs that agree on every case are never told apart: the p-value is 1, the direction is
-- `no change`, and no significance level up to 1 makes the difference significant.
pub mcnemar_same :
    (xs : List Bool) (alpha : Ratio)
    → alpha.num ≤ alpha.den
    → (r : McNemarResult) × (mcnemar xs xs alpha ≡ some r)
      × (r.p_value ≡ one_ratio)
      × (direction r ≡ no_change)
      × (significant r ≡ false)
mcnemar_same xs alpha h =
    let c = count_pairs xs xs no_counts in
    let d : discordant c ≡ 0 = count_pairs-same xs no_counts in
    (
      result_of alpha c,
      mcnemar-some xs xs alpha refl (omega (arith, d)),
      (undecided alpha c d h).0,
      (undecided alpha c d h).1,
      (undecided alpha c d h).2,
    )
