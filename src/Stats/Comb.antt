-- ===== src/Stats/Comb.antt =====
-- `math.comb`, by Pascal's rule, and the facts about it that the estimators of stats/ rest on.
use evalstack.Prelude.{ℕ, zero, suc, ◌+◌, ◌≤◌, ◌<◌, ◌≡◌, refl, ap, arith}

unfoldable pub comb : ℕ → ℕ → ℕ
comb n zero = 1
comb zero (suc k) = 0
comb (suc n) (suc k) = comb n k + comb n (suc k)

pub comb-pos : (n k : ℕ) → k ≤ n → 0 < comb n k
unfolding comb
comb-pos n zero h = omega arith
comb-pos zero (suc k) h = absurd (omega arith)
comb-pos (suc n) (suc k) h = omega (arith, comb-pos n k (omega arith))

pub comb-zero : (n k : ℕ) → n < k → comb n k ≡ 0
unfolding comb
comb-zero n zero h = absurd (omega arith)
comb-zero zero (suc k) h = refl
comb-zero (suc n) (suc k) h =
    omega (arith, comb-zero n k (omega arith), comb-zero n (suc k) (omega arith))

pub comb-one : (n : ℕ) → comb n 1 ≡ n
unfolding comb
comb-one zero = refl
comb-one (suc n) = ground (arith, comb-one n)

comb-step : (n k : ℕ) → comb n k ≤ comb (suc n) k
unfolding comb
comb-step n zero = omega arith
comb-step n (suc k) = omega arith

pub comb_mono : (a b k : ℕ) → comb a k ≤ comb (b + a) k
unfolding comb
comb_mono a zero k = let e : 0 + a ≡ a = omega arith in rw e (omega arith)
comb_mono a (suc b) k =
    let e : suc b + a ≡ suc (b + a) = omega arith in
    rw e (omega (arith, comb_mono a b k, comb-step (b + a) k))

-- Subsets of one part and subsets of the other are different subsets of the whole.
pub comb-superadd : (a b k : ℕ) → comb a (suc k) + comb b (suc k) ≤ comb (a + b) (suc k)
unfolding comb
comb-superadd zero b k = let e : 0 + b ≡ b = omega arith in rw e (omega arith)
comb-superadd (suc a) b k =
    let e : suc a + b ≡ suc (a + b) = omega arith in
    let c : a + b ≡ b + a = omega arith in
    rw e (omega (arith, comb-superadd a b k, comb_mono a b k, ap (λ n. comb n k) c))
