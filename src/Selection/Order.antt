-- ===== src/Selection/Order.antt =====
-- Sums of fractions, for the running total of selection/discriminative.py.
use evalstack.Prelude.{ℕ, ◌+◌, ◌*◌, ◌<◌, ◌≡◌, true, arith, suc, lt→ltb}
use evalstack.Prelude.Ratio.{Ratio, ratio_add, ratio_ltb}
use evalstack.Prelude.Mean.{times_mono}

less-times : (a b c : ℕ) → a < b → 0 < c → a * c < b * c
less-times a b c h p = omega (arith, times_mono (suc a) b c (omega arith))

-- A total that exceeds the budget still does after more has been added to it.
pub exceeds-add :
    (budget spent cost more : Ratio)
    → 0 < more.den
    → ratio_ltb budget (ratio_add spent cost) ≡ true
    → ratio_ltb budget (ratio_add (ratio_add spent more) cost) ≡ true
exceeds-add budget spent cost more p h =
    let k : budget.num * (spent.den * cost.den)
        < (spent.num * cost.den + cost.num * spent.den) * budget.den =
      ground arith in
    let m =
      less-times (budget.num * (spent.den * cost.den))
        ((spent.num * cost.den + cost.num * spent.den) * budget.den) more.den k p in
    let goal : budget.num * (spent.den * more.den * cost.den)
        < ((spent.num * more.den + more.num * spent.den) * cost.den
            + cost.num * (spent.den * more.den))
          * budget.den =
      omega (arith, m) in
    lt→ltb (budget.num * (spent.den * more.den * cost.den))
      (((spent.num * more.den + more.num * spent.den) * cost.den
          + cost.num * (spent.den * more.den))
        * budget.den)
      goal
