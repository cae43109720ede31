-- ===== src/Regression/Compare/Laws.antt =====
-- What a comparison of two runs promises: it returns, a run compared with itself shows no change,
-- and a verdict needs runs that are comparable.
use evalstack.Prelude.{
  Option, ℕ, zero, suc, ◌+◌, ◌-◌, ◌*◌, ◌≤◌, ◌<◌, ◌≡◌, refl, ap, sym, ◌∙◌, String, Bool, none, List,
  [], ◌∷◌, map, length, arith, All, length-map,
}
use evalstack.Prelude.Dict.{Dict, get, or_default}
use evalstack.Prelude.Ratio.{Ratio, ratio_add, mean, IsUnit}
use evalstack.Prelude.Mean.{times_mono, times-pos, mean-IsUnit}
use evalstack.Schema.Result.{RunResult, CaseTally, tallies, rate, no_tally}
use evalstack.Schema.Result.Tallies.{grown, passes_at, attempts_at, passes_at-le, get-tallies}
use evalstack.Stats.Required.{sample_size_arguments, required_sample_size, default_power}
use evalstack.Regression.Compare.{case_rates, rate_of, distance, effect_of, baseline_of}

rate-IsUnit : (t : CaseTally) → t.passed ≤ t.total → IsUnit (rate t)
unfolding rate
rate-IsUnit t h = ground arith

rate_of-map :
    (key : String) (d : Dict CaseTally)
    → rate_of (map (λ e. (e.0, rate e.1)) d) key ≡ rate (or_default no_tally (get key d))
unfolding get rate
rate_of-map key [] = refl
rate_of-map key ((k, t) ∷ d) = ground (arith, rate_of-map key d)

-- The rate of a case is its passes over its completed attempts, and 0 without any.
pub rate_of-case_rates :
    (run : RunResult) (key : String)
    → rate_of (case_rates run) key
      ≡ rate (
          or_default no_tally
            (grown none (passes_at key run.case_results) (attempts_at key run.case_results)))
unfolding case_rates
rate_of-case_rates run key =
    rate_of-map key (tallies run) ∙ ap (λ o. rate (or_default no_tally o)) (get-tallies run key)

rate_of-IsUnit : (run : RunResult) (key : String) → IsUnit (rate_of (case_rates run) key)
rate_of-IsUnit run key =
    let p = passes_at key run.case_results in
    let n = attempts_at key run.case_results in
    let t = or_default no_tally (grown none p n) in
    let le : t.passed ≤ t.total = ground (arith, passes_at-le key run.case_results) in
    rw (rate_of-case_rates run key) (rate-IsUnit t le)

rates-IsUnit :
    (run : RunResult) (keys : List String) → All IsUnit (map (rate_of (case_rates run)) keys)
rates-IsUnit run [] = tt
rates-IsUnit run (k ∷ ks) = (rate_of-IsUnit run k, rates-IsUnit run ks)

pub mean_rate-IsUnit :
    (run : RunResult) (keys : List String) → IsUnit (mean (map (rate_of (case_rates run)) keys))
mean_rate-IsUnit run keys =
    mean-IsUnit (map (rate_of (case_rates run)) keys) (rates-IsUnit run keys)

monus-times : (a b c : ℕ) → a ≤ b → (b - a) * c + a * c ≡ b * c
monus-times a b zero h = omega arith
monus-times a b (suc c) h = omega (arith, monus-times a b c h)

distance-IsUnit : (a b : Ratio) → IsUnit a → IsUnit b → IsUnit (distance a b)
unfolding distance
distance-IsUnit a b u v = record {
  positive = times-pos a.den b.den u.positive v.positive;
  at_most_one = omega (
    arith,
    times_mono a.num a.den b.den u.at_most_one,
    times_mono b.num b.den a.den v.at_most_one,
  );
}

effect_of-IsUnit : (a b : Ratio) → IsUnit a → IsUnit b → IsUnit (effect_of a b)
unfolding effect_of
effect_of-IsUnit a b u v = ground (arith, distance-IsUnit b a v u)

effect_of-positive : (a b : Ratio) → 0 < (effect_of a b).num
unfolding effect_of
effect_of-positive a b = ground arith

baseline_of-IsUnit : (a e : Ratio) → IsUnit a → IsUnit e → IsUnit (baseline_of a e)
unfolding baseline_of
baseline_of-IsUnit a e u v = ground arith

baseline_of-target :
    (a e : Ratio)
    → IsUnit a
    → IsUnit e
    → (ratio_add (baseline_of a e) e).num ≤ (ratio_add (baseline_of a e) e).den
unfolding baseline_of
baseline_of-target a e u v = ground (
  arith,
  monus-times e.num e.den a.den v.at_most_one,
  monus-times e.num e.den e.den v.at_most_one,
)

-- The arguments that `compare` passes on are among those that `required_sample_size` accepts.
pub required-some :
    (formula : Ratio → Ratio → Ratio → Ratio → Option ℕ) (a b alpha : Ratio)
    → IsUnit a
    → IsUnit b
    → 0 < alpha.num
    → alpha.num < alpha.den
    → required_sample_size formula
        (baseline_of a (effect_of a b))
        (effect_of a b)
        alpha
        default_power
      ≡ formula (baseline_of a (effect_of a b)) (effect_of a b) alpha default_power
unfolding required_sample_size sample_size_arguments
required-some formula a b alpha u v p q =
    let e = effect_of a b in
    let w = effect_of-IsUnit a b u v in
    let pos = effect_of-positive a b in
    let x = baseline_of-IsUnit a e u w in let y = baseline_of-target a e u w in ground arith

lengths : (f g : String → Bool) (keys : List String) → length (map f keys) ≡ length (map g keys)
lengths f g keys = length-map keys f ∙ sym (length-map keys g)
