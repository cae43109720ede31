-- ===== src/Prelude/Mean.antt =====
-- The mean of fractions between 0 and 1 is one.
use Prim.Native.Nat.{ℕ, zero, suc, ◌*◌, ◌≤◌, ◌<◌}
use mathlib.Core.List.{List, [], ◌∷◌}
use native.Mathlib.Omega.{arith}
use evalstack.Prelude.Lists.{length, All}
use evalstack.Prelude.Ratio.{Ratio, ratio_sum, mean, IsUnit}

pub times_mono : (a b c : ℕ) → a ≤ b → a * c ≤ b * c
times_mono a b zero h = omega arith
times_mono a b (suc c) h = omega (arith, times_mono a b c h)

pub times-pos : (a b : ℕ) → 0 < a → 0 < b → 0 < a * b
times-pos a zero p q = absurd (omega arith)
times-pos a (suc b) p q = omega arith

ratio_sum-bound :
    (xs : List Ratio)
    → All IsUnit xs
    → (0 < (ratio_sum xs).den) × ((ratio_sum xs).num ≤ (ratio_sum xs).den * length xs)
ratio_sum-bound [] a = (omega arith, omega arith)
ratio_sum-bound (x ∷ xs) (u, a) =
    let t = ratio_sum-bound xs a in
    let s = ratio_sum xs in
    (
      times-pos x.den s.den u.positive t.0,
      omega (
        arith,
        times_mono x.num x.den s.den u.at_most_one,
        times_mono s.num (s.den * length xs) x.den t.1,
      ),
    )

pub mean-IsUnit : (xs : List Ratio) → All IsUnit xs → IsUnit (mean xs)
mean-IsUnit [] a = record { positive = omega arith; at_most_one = omega arith }
mean-IsUnit (x ∷ xs) a =
    let t = ratio_sum-bound (x ∷ xs) a in
    record {
      positive = times-pos (ratio_sum (x ∷ xs)).den (length (x ∷ xs)) t.0 (omega arith);
      at_most_one = t.1;
    }
