-- ===== src/Stats/Significance.antt =====
-- stats/significance.py: McNemar's exact test on paired outcomes. A probability is an exact fraction.
pub mod Laws
use evalstack.Prelude.{
  ℕ, zero, suc, ◌+◌, ◌-◌, ◌*◌, ◌^◌, min, Bool, true, false, not, ◌&&◌, Option, none, some, List, [],
  ◌∷◌, length, ltb, leb, ◌==◌, if◌then◌else◌,
}
use evalstack.Prelude.Ratio.{Ratio, one_ratio, ratio_ltb}
use evalstack.Stats.Comb.{comb}

pub record PairedCounts : Type 0 where
  pub both_passed : ℕ
  pub only_before_passed : ℕ
  pub only_after_passed : ℕ
  pub both_failed : ℕ

abbrev pub discordant : PairedCounts → ℕ
discordant c = c.only_before_passed + c.only_after_passed

abbrev pub total : PairedCounts → ℕ
total c = c.both_passed + c.only_before_passed + c.only_after_passed + c.both_failed

abbrev pub no_counts : PairedCounts
no_counts = record {
  both_passed = 0;
  only_before_passed = 0;
  only_after_passed = 0;
  both_failed = 0;
}

-- The four branches of the loop of `paired_counts`.
abbrev pub count_pair : Bool → Bool → PairedCounts → PairedCounts
count_pair was now c =
    if was && now
    then record c { both_passed = c.both_passed + 1 }
    else if was && not now
    then record c { only_before_passed = c.only_before_passed + 1 }
    else if not was && now
    then record c { only_after_passed = c.only_after_passed + 1 }
    else record c { both_failed = c.both_failed + 1 }

-- The loop over `zip(before, after, strict=True)`.
unfoldable pub count_pairs : List Bool → List Bool → PairedCounts → PairedCounts
count_pairs (was ∷ before) (now ∷ after) c = count_pairs before after (count_pair was now c)
count_pairs _ _ c = c

-- `none` is the `ValueError` on sequences of different lengths.
unfoldable pub paired_counts : List Bool → List Bool → Option PairedCounts
unfolding count_pairs
paired_counts before after =
    if length before == length after then some (count_pairs before after no_counts) else none

-- `sum(comb(trials, i) for i in range(n))`
unfoldable pub comb_sum : ℕ → ℕ → ℕ
unfolding comb
comb_sum trials zero = 0
comb_sum trials (suc n) = comb_sum trials n + comb trials n

-- `min(1.0, x)`
abbrev pub at_most_one : Ratio → Ratio
at_most_one r = if ratio_ltb one_ratio r then one_ratio else r

-- What `binomial_two_sided_p` computes, as an exact fraction.
unfoldable pub two_sided_p : (successes trials : ℕ) → Ratio
unfolding comb_sum
two_sided_p successes trials =
    if trials == 0
    then one_ratio
    else let smaller = min successes (trials - successes) in
      at_most_one (record { num = 2 * comb_sum trials (smaller + 1); den = 2 ^ trials })

-- The first number of trials for which `2.0**trials` is no float.
abbrev pub overflows_at : ℕ
overflows_at = 1024

-- `none` is the `OverflowError` of `2.0**trials`.
unfoldable pub binomial_two_sided_p : (successes trials : ℕ) → Option Ratio
unfolding two_sided_p
binomial_two_sided_p successes trials =
    if leb overflows_at trials then none else some (two_sided_p successes trials)

pub record McNemarResult : Type 0 where
  pub counts : PairedCounts
  pub p_value : Ratio
  pub alpha : Ratio

abbrev pub significant : McNemarResult → Bool
significant r = ratio_ltb r.p_value r.alpha

pub data Direction : Type 0 where
  improvement : Direction
  regression : Direction
  no_change : Direction

unfoldable pub direction : McNemarResult → Direction
direction r =
    if ltb r.counts.only_before_passed r.counts.only_after_passed
    then improvement
    else if ltb r.counts.only_after_passed r.counts.only_before_passed
    then regression
    else no_change

abbrev with_p : Ratio → PairedCounts → Option Ratio → Option McNemarResult
with_p alpha counts none = none
with_p alpha counts (some p) = some (record { counts = counts; p_value = p; alpha = alpha })

abbrev test_of : Ratio → Option PairedCounts → Option McNemarResult
unfolding binomial_two_sided_p
test_of alpha none = none
test_of alpha (some counts) =
    with_p alpha counts (binomial_two_sided_p counts.only_after_passed (discordant counts))

-- `none` is an exception: of lists of different lengths, or of too many discordant pairs.
unfoldable pub mcnemar : List Bool → List Bool → Ratio → Option McNemarResult
unfolding paired_counts test_of
mcnemar before after alpha = test_of alpha (paired_counts before after)
