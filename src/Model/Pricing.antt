-- ===== src/Model/Pricing.antt =====
-- model/pricing.py: the cost of a call. A rate counts some unit of money per million tokens, and a
-- cost counts millionths of that unit, so the division by `TOKENS_PER_MILLION` is exact.
use evalstack.Prelude.{
  ℕ, ◌+◌, ◌*◌, String, Bool, true, false, List, [], ◌∷◌, str_eq, if◌then◌else◌, not,
}
use evalstack.Model.{Usage}

pub record ModelPricing : Type 0 where
  pub input_per_mtok : ℕ
  pub output_per_mtok : ℕ
  pub tracked : Bool

unfoldable pub model_cost : ModelPricing → Usage → ℕ
model_cost p u =
    if not p.tracked
    then 0
    else u.input_tokens * p.input_per_mtok + u.output_tokens * p.output_per_mtok

abbrev pub free : ModelPricing
free = record { input_per_mtok = 0; output_per_mtok = 0; tracked = true }

abbrev pub unknown : ModelPricing
unknown = record { input_per_mtok = 0; output_per_mtok = 0; tracked = false }

pub record PricingTable : Type 0 where
  pub rates : List (String × ModelPricing)
  pub default : ModelPricing

lookup_rate : String → List (String × ModelPricing) → ModelPricing → ModelPricing
lookup_rate model [] d = d
lookup_rate model ((m, p) ∷ rest) d = if str_eq m model then p else lookup_rate model rest d

unfoldable pub for_model : PricingTable → String → ModelPricing
unfolding lookup_rate
for_model table model = lookup_rate model table.rates table.default

unfoldable pub cost_for : PricingTable → String → Usage → ℕ
unfolding for_model model_cost
cost_for table model usage = model_cost (for_model table model) usage

unfoldable pub tracks : PricingTable → String → Bool
unfolding for_model
tracks table model = (for_model table model).tracked
