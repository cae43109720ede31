-- ===== src/Stats/Required.antt =====
-- `required_sample_size` of stats/significance.py: its guards. What it computes after them uses
-- floating-point roots and the quantiles of Python's `NormalDist`, and is the argument `formula`:
-- `none` is the `StatisticsError` of `inv_cdf` where `1 - alpha / 2` rounds to 1.
use evalstack.Prelude.{ℕ, Bool, false, Option, none, if◌then◌else◌, not, ◌&&◌}
use evalstack.Prelude.Ratio.{Ratio, zero_ratio, one_ratio, ratio_leb, ratio_ltb, ratio_add}

-- `true` where no `ValueError` is raised. Rates are not negative here.
unfoldable pub sample_size_arguments : (baseline difference alpha power : Ratio) → Bool
sample_size_arguments baseline difference alpha power =
    if not (ratio_leb baseline one_ratio)
    then false
    else if ratio_leb difference zero_ratio
    then false
    else if not (ratio_ltb zero_ratio alpha && ratio_ltb alpha one_ratio)
    then false
    else if not (ratio_ltb zero_ratio power && ratio_ltb power one_ratio)
    then false
    else ratio_leb (ratio_add baseline difference) one_ratio

unfoldable pub required_sample_size :
    (formula : Ratio → Ratio → Ratio → Ratio → Option ℕ) (baseline difference alpha power : Ratio)
    → Option ℕ
unfolding sample_size_arguments
required_sample_size formula baseline difference alpha power =
    if sample_size_arguments baseline difference alpha power
    then formula baseline difference alpha power
    else none

abbrev pub default_power : Ratio
default_power = record { num = 80; den = 100 }
