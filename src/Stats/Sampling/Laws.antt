-- ===== src/Stats/Sampling/Laws.antt =====
-- pass@k and pass^k of stats/sampling.py: fractions between 0 and 1, with reliability never above
-- capability, and equal at one sample.
use evalstack.Prelude.{
  ℕ, zero, suc, ◌+◌, ◌-◌, ◌*◌, ◌≤◌, ◌<◌, ◌≡◌, refl, ap, none, some, arith, ◌⊎◌, dec_lt, lt→ltb,
  le→ltb,
}
use evalstack.Prelude.Ratio.{Ratio, IsUnit}
use evalstack.Prelude.Mean.{times_mono}
use evalstack.Stats.Comb.{comb, comb-pos, comb-zero, comb-one, comb-superadd}
use evalstack.Stats.Sampling.{validates, at_k, hat_k, pass_at_k, pass_hat_k}

-- What both estimators promise.
pub record Estimates (at hat : Ratio) : Type 0 where
  pub at_unit : IsUnit at
  pub hat_unit : IsUnit hat
  pub gap : hat.num * at.den ≤ at.num * hat.den

module _ (samples correct k : ℕ) (c : correct ≤ samples) (k1 : 0 < k) (ks : k ≤ samples) where
  failures-le : comb (samples - correct) k + comb correct k ≤ comb samples k
  failures-le =
      let e : k ≡ suc (k - 1) = omega arith in
      let s : samples - correct + correct ≡ samples = omega arith in
      omega (
        arith,
        comb-superadd (samples - correct) correct (k - 1),
        ap (comb (samples - correct)) e,
        ap (comb correct) e,
        ap (comb samples) e,
        ap (λ n. comb n (suc (k - 1))) s,
      )

comb_self : (k : ℕ) → comb k k ≡ 1
unfolding comb
comb_self zero = refl
comb_self (suc k) = omega (arith, comb_self k, comb-zero k (suc k) (omega arith))

module _ (samples correct k : ℕ) (c : correct ≤ samples) (k1 : 0 < k) (ks : k ≤ samples) where
  whole : 0 < comb samples k
  whole = comb-pos samples k ks

  at-IsUnit : IsUnit (at_k samples correct k)
  unfolding at_k
  at-IsUnit = elim (dec_lt (samples - correct) k) [
    | yes few ↦
        rw (lt→ltb (samples - correct) k few)
          record { positive = omega arith; at_most_one = omega arith }
    | no many ↦
        rw (le→ltb (samples - correct) k (omega arith))
          record { positive = whole; at_most_one = omega arith }
  ]

  hat-IsUnit : IsUnit (hat_k samples correct k)
  unfolding hat_k
  hat-IsUnit = elim (dec_lt correct k) [
    | yes few ↦
        rw (lt→ltb correct k few) record { positive = omega arith; at_most_one = omega arith }
    | no many ↦ rw (le→ltb correct k (omega arith)) record {
      positive = whole;
      at_most_one = omega (arith, failures-le samples correct k c k1 ks);
    }
  ]

  hat-le-at :
      (hat_k samples correct k).num * (at_k samples correct k).den
      ≤ (at_k samples correct k).num * (hat_k samples correct k).den
  unfolding at_k hat_k
  hat-le-at = elim (dec_lt correct k) [
    | yes few ↦ rw (lt→ltb correct k few) omega arith
    | no many ↦ rw (le→ltb correct k (omega arith)) (elim (dec_lt (samples - correct) k) [
      | yes rare ↦
          rw (lt→ltb (samples - correct) k rare) omega
            (arith, failures-le samples correct k c k1 ks)
      | no common ↦ rw (le→ltb (samples - correct) k (omega arith)) (
          times_mono (comb correct k) (comb samples k - comb (samples - correct) k) (comb samples k)
            (omega (arith, failures-le samples correct k c k1 ks)))
    ])
  ]

-- The estimators at the two ends and at one sample.
none-at : (samples k : ℕ) → 0 < k → k ≤ samples → (at_k samples 0 k).num ≡ 0
unfolding at_k
none-at samples k k1 ks =
    let e : samples - 0 ≡ samples = omega arith in
    rw (le→ltb (samples - 0) k (omega arith)) (rw e omega arith)

none-hat : (samples k : ℕ) → 0 < k → (hat_k samples 0 k).num ≡ 0
unfolding hat_k
none-hat samples k k1 = rw (lt→ltb 0 k k1) refl

all-at : (samples k : ℕ) → 0 < k → (at_k samples samples k).num ≡ (at_k samples samples k).den
unfolding at_k
all-at samples k k1 = rw (lt→ltb (samples - samples) k (omega arith)) refl

all-hat :
    (samples k : ℕ) → k ≤ samples → (hat_k samples samples k).num ≡ (hat_k samples samples k).den
unfolding hat_k
all-hat samples k ks = rw (le→ltb samples k ks) refl

one-at :
    (samples correct : ℕ)
    → correct ≤ samples
    → (at_k samples correct 1).num * samples ≡ correct * (at_k samples correct 1).den
unfolding at_k
one-at samples correct c = elim (dec_lt (samples - correct) 1) [
  | yes few ↦ rw (lt→ltb (samples - correct) 1 few) omega arith
  | no many ↦ rw (le→ltb (samples - correct) 1 (omega arith)) (
      rw (comb-one samples) (
        rw (comb-one (samples - correct))
          let e : samples - (samples - correct) ≡ correct = omega arith in rw e refl))
]

one-hat :
    (samples correct : ℕ)
    → (hat_k samples correct 1).num * samples ≡ correct * (hat_k samples correct 1).den
unfolding hat_k
one-hat samples correct = elim (dec_lt correct 1) [
  | yes few ↦ rw (lt→ltb correct 1 few) omega arith
  | no many ↦
      rw (le→ltb correct 1 (omega arith)) (rw (comb-one samples) (rw (comb-one correct) refl))
]

at-Estimates :
    (samples correct k : ℕ)
    → correct ≤ samples
    → 0 < k
    → k ≤ samples
    → Estimates (at_k samples correct k) (hat_k samples correct k)
at-Estimates samples correct k c k1 ks = record {
  at_unit = at-IsUnit samples correct k c k1 ks;
  hat_unit = hat-IsUnit samples correct k c k1 ks;
  gap = hat-le-at samples correct k c k1 ks;
}

-- For `correct` successes among `samples` and a `k` from 1 to `samples`, both estimators return a
-- fraction between 0 and 1, and pass^k is at most pass@k.
pub pass-Estimates :
    (samples correct k : ℕ)
    → correct ≤ samples
    → 0 < k
    → k ≤ samples
    → (at : Ratio) × (hat : Ratio) × (pass_at_k samples correct k ≡ some at)
      × (pass_hat_k samples correct k ≡ some hat)
      × Estimates at hat
unfolding pass_at_k pass_hat_k validates
pass-Estimates samples correct k c k1 ks = (
  at_k samples correct k,
  hat_k samples correct k,
  ground arith,
  ground arith,
  at-Estimates samples correct k c k1 ks,
)

-- Outside those bounds both raise.
pub pass_refuses :
    (samples correct k : ℕ)
    → (samples < correct) ⊎ (k ≡ 0) ⊎ (samples < k)
    → (pass_at_k samples correct k ≡ none) × (pass_hat_k samples correct k ≡ none)
unfolding pass_at_k pass_hat_k validates
pass_refuses samples correct k h = ground arith

-- With at least one sample and no more successes than samples, both estimators at `k` = 1 return the
-- plain success rate.
pass_one_sample :
    (samples correct : ℕ)
    → correct ≤ samples
    → 0 < samples
    → (at : Ratio) × (hat : Ratio) × (pass_at_k samples correct 1 ≡ some at)
      × (pass_hat_k samples correct 1 ≡ some hat)
      × (at.num * samples ≡ correct * at.den)
      × (hat.num * samples ≡ correct * hat.den)
unfolding pass_at_k pass_hat_k validates
pass_one_sample samples correct c s = (
  at_k samples correct 1,
  hat_k samples correct 1,
  ground arith,
  ground arith,
  one-at samples correct c,
  one-hat samples correct,
)
