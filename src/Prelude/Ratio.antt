-- ===== src/Prelude/Ratio.antt =====
-- A quotient that the source computes in floating point, kept as an exact fraction.
use Prim.Native.Nat.{ℕ, ◌+◌, ◌*◌, ◌≤◌, ◌<◌}
use mathlib.Core.List.{List, [], ◌∷◌}
use mathlib.Core.Bool.{Bool}
use evalstack.Prelude.Tests.{ltb, leb, ◌==◌}
use evalstack.Prelude.Lists.{length}

pub record Ratio : Type 0 where
  pub num : ℕ
  pub den : ℕ

abbrev pub zero_ratio : Ratio
zero_ratio = record { num = 0; den = 1 }

abbrev pub one_ratio : Ratio
one_ratio = record { num = 1; den = 1 }

-- `a <= b` and `a < b`, for positive denominators
abbrev pub ratio_leb : Ratio → Ratio → Bool
ratio_leb a b = leb (a.num * b.den) (b.num * a.den)

abbrev pub ratio_ltb : Ratio → Ratio → Bool
ratio_ltb a b = ltb (a.num * b.den) (b.num * a.den)

abbrev pub ratio_eq : Ratio → Ratio → Bool
ratio_eq a b = a.num * b.den == b.num * a.den

abbrev pub ratio_add : Ratio → Ratio → Ratio
ratio_add a b = record { num = a.num * b.den + b.num * a.den; den = a.den * b.den }

abbrev pub ratio_sum : List Ratio → Ratio
ratio_sum [] = zero_ratio
ratio_sum (x ∷ xs) = ratio_add x (ratio_sum xs)

-- `sum(xs) / len(xs) if xs else 0.0`
abbrev pub mean : List Ratio → Ratio
mean [] = zero_ratio
mean (x ∷ xs) = let s = ratio_sum (x ∷ xs) in record { num = s.num; den = s.den * length (x ∷ xs) }

-- A proper fraction between 0 and 1.
pub record IsUnit (r : Ratio) : Type 0 where
  pub positive : 0 < r.den
  pub at_most_one : r.num ≤ r.den
