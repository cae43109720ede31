-- ===== src/Selection/Budget.antt =====
-- select_within_budget of selection/discriminative.py: what it takes, what it leaves, and the order.
use mathlib.Core.List.{Perm}
use mathlib.Core.List.Perm
use evalstack.Prelude.{
  ◌<◌, ◌≡◌, refl, ap, inl, inr, Bool, true, false, not, List, [], ◌∷◌, ◌++◌, map, keep,
  if◌then◌else◌, arith, All, All-append, Bool-cases,
}
use evalstack.Prelude.Sort.{sort, sort-perm, sort-All}
use evalstack.Prelude.Ratio.{Ratio, zero_ratio, ratio_add, ratio_leb, ratio_ltb}
use evalstack.Selection.{
  CaseValue, informative, within_budget, comes_first, choose, candidates, select_within_budget,
}
use evalstack.Selection.Order.{exceeds-add}

-- A cost that is a proper fraction.
abbrev pub HasCost : CaseValue → Type 0
HasCost v = 0 < v.mean_cost.den

perm_middle : (v : CaseValue) (us vs : List CaseValue) → Perm (us ++ v ∷ vs) (v ∷ us ++ vs)
perm_middle v [] vs = Perm.rfl
perm_middle v (u ∷ us) vs =
    Perm.trans (Perm.cons u (perm_middle v us vs)) (Perm.swap v u (us ++ vs))

-- One case more would not fit.
abbrev pub IsTooDear : (budget spent : Ratio) → CaseValue → Type 0
IsTooDear budget spent v = ratio_ltb budget (ratio_add spent v.mean_cost) ≡ true

-- `spent` after those cases.
abbrev pub cost_of : Ratio → List CaseValue → Ratio
cost_of spent [] = spent
cost_of spent (v ∷ vs) = cost_of (ratio_add spent v.mean_cost) vs

module _ (budget : Ratio) where
  choose-cost_of :
      (spent : Ratio) (vs : List CaseValue)
      → (choose budget spent vs).1 ≡ cost_of spent (choose budget spent vs).0
  unfolding choose
  choose-cost_of spent [] = refl
  choose-cost_of spent (w ∷ vs) =
      elim (Bool-cases (ratio_ltb budget (ratio_add spent w.mean_cost))) [
        | inl e ↦ rw e (choose-cost_of spent vs)
        | inr e ↦ rw e (choose-cost_of (ratio_add spent w.mean_cost) vs)
      ]

  choose-IsTooDear :
      (spent : Ratio) (vs : List CaseValue) (v : CaseValue)
      → All HasCost vs
      → IsTooDear budget spent v
      → IsTooDear budget (choose budget spent vs).1 v
  unfolding choose
  choose-IsTooDear spent [] v a h = h
  choose-IsTooDear spent (w ∷ vs) v a h =
      elim (Bool-cases (ratio_ltb budget (ratio_add spent w.mean_cost))) [
        | inl e ↦ rw e (choose-IsTooDear spent vs v a.1 h)
        | inr e ↦ rw e (
            choose-IsTooDear (ratio_add spent w.mean_cost) vs v a.1
              (exceeds-add budget spent v.mean_cost w.mean_cost a.0 h))
      ]

  not_over : (a b : Ratio) → ratio_ltb b a ≡ false → ratio_leb a b ≡ true
  not_over a b h = ground arith

  choose-fits :
      (spent : Ratio) (vs : List CaseValue)
      → ratio_leb spent budget ≡ true
      → ratio_leb (choose budget spent vs).1 budget ≡ true
  unfolding choose
  choose-fits spent [] h = h
  choose-fits spent (w ∷ vs) h =
      elim (Bool-cases (ratio_ltb budget (ratio_add spent w.mean_cost))) [
        | inl e ↦ rw e (choose-fits spent vs h)
        | inr e ↦ rw e (
            choose-fits (ratio_add spent w.mean_cost) vs
              (not_over (ratio_add spent w.mean_cost) budget e))
      ]

  choose-left :
      (spent : Ratio) (vs : List CaseValue)
      → All HasCost vs
      → (left : List CaseValue) × Perm ((choose budget spent vs).0 ++ left) vs
        × All (IsTooDear budget (choose budget spent vs).1) left
  unfolding choose
  choose-left spent [] a = ([], Perm.rfl, tt)
  choose-left spent (w ∷ vs) a =
      elim (Bool-cases (ratio_ltb budget (ratio_add spent w.mean_cost))) [
        | inl e ↦
            let t = choose-left spent vs a.1 in
            rw e (
              w ∷ t.0,
              Perm.trans (perm_middle w (choose budget spent vs).0 t.0) (Perm.cons w t.1),
              (choose-IsTooDear spent vs w a.1 e, t.2),
            )
        | inr e ↦
            let t = choose-left (ratio_add spent w.mean_cost) vs a.1 in
            rw e (t.0, Perm.cons w t.1, t.2)
      ]

  choose-append :
      (spent : Ratio) (us vs : List CaseValue)
      → (choose budget spent (us ++ vs)).0
        ≡ (choose budget spent us).0 ++ (choose budget (choose budget spent us).1 vs).0
  unfolding choose
  choose-append spent [] vs = refl
  choose-append spent (w ∷ us) vs =
      elim (Bool-cases (ratio_ltb budget (ratio_add spent w.mean_cost))) [
        | inl e ↦ rw e (choose-append spent us vs)
        | inr e ↦ rw e (ap (λ xs. w ∷ xs) (choose-append (ratio_add spent w.mean_cost) us vs))
      ]

  choose-All :
      (P : CaseValue → Type 0) (spent : Ratio) (vs : List CaseValue)
      → All P vs
      → All P (choose budget spent vs).0
  unfolding choose
  choose-All P spent [] a = tt
  choose-All P spent (w ∷ vs) a =
      elim (Bool-cases (ratio_ltb budget (ratio_add spent w.mean_cost))) [
        | inl e ↦ rw e (choose-All P spent vs a.1)
        | inr e ↦ rw e (a.0, choose-All P (ratio_add spent w.mean_cost) vs a.1)
      ]

keep-parts :
    (p : CaseValue → Bool) (xs : List CaseValue) → Perm (keep p xs ++ keep (λ v. not (p v)) xs) xs
keep-parts p [] = Perm.rfl
keep-parts p (x ∷ xs) = elim (Bool-cases (p x)) [
  | inl e ↦ rw e (Perm.cons x (keep-parts p xs))
  | inr e ↦ rw e (
      Perm.trans (perm_middle x (keep p xs) (keep (λ v. not (p v)) xs))
        (Perm.cons x (keep-parts p xs)))
]

keep-All : (p : CaseValue → Bool) (xs : List CaseValue) → All (λ v. p v ≡ true) (keep p xs)
keep-All p [] = tt
keep-All p (x ∷ xs) = elim (Bool-cases (p x)) [
  | inl e ↦ rw e (e, keep-All p xs)
  | inr e ↦ rw e (keep-All p xs)
]

candidates-Perm : (values : List CaseValue) → Perm (candidates true values) values
unfolding candidates
candidates-Perm values =
    Perm.trans (keep-parts informative (sort comes_first values)) (sort-perm comes_first values)

All-keep :
    (P : CaseValue → Type 0) (p : CaseValue → Bool) (xs : List CaseValue)
    → All P xs
    → All P (keep p xs)
All-keep P p [] a = tt
All-keep P p (x ∷ xs) a = elim (Bool-cases (p x)) [
  | inl e ↦ rw e (a.0, All-keep P p xs a.1)
  | inr e ↦ rw e (All-keep P p xs a.1)
]

candidates-HasCost :
    (values : List CaseValue) → All HasCost values → All HasCost (candidates true values)
unfolding candidates
candidates-HasCost values a =
    let ranked = sort comes_first values in
    let b = sort-All comes_first HasCost values a in
    All-append HasCost (keep informative ranked) (keep (λ v. not (informative v)) ranked)
      (All-keep HasCost informative ranked b) (All-keep HasCost (λ v. not (informative v)) ranked b)

-- With every value considered, the greedy choice keeps to the budget and is maximal: the values are
-- those chosen and those left, the total cost is the sum of the costs of those chosen, it does not
-- exceed the budget, and with any one of those left added to it it would.
pub select-maximal :
    (values : List CaseValue) (budget : Ratio)
    → All HasCost values
    → (chosen : List CaseValue) × (left : List CaseValue) × ((select_within_budget values budget
          true).case_ids
        ≡ map (λ v. v.case_id) chosen)
      × Perm (chosen ++ left) values
      × ((select_within_budget values budget true).total_cost ≡ cost_of zero_ratio chosen)
      × All (IsTooDear budget (select_within_budget values budget true).total_cost) left
      × (ratio_leb (select_within_budget values budget true).total_cost budget ≡ true)
      × (within_budget (select_within_budget values budget true) ≡ true)
unfolding select_within_budget
select-maximal values budget a =
    let vs = candidates true values in
    let t = choose-left budget zero_ratio vs (candidates-HasCost values a) in
    (
      (choose budget zero_ratio vs).0,
      t.0,
      refl,
      Perm.trans t.1 (candidates-Perm values),
      choose-cost_of budget zero_ratio vs,
      t.2,
      choose-fits budget zero_ratio vs (ground arith),
      choose-fits budget zero_ratio vs (ground arith),
    )

-- Cases that have told runs apart come first: the chosen ids are those of informative values, then
-- those of values that are not informative, which are there only if unmeasured cases are included.
select_informative_first :
    (values : List CaseValue) (budget : Ratio) (include_unmeasured : Bool)
    → (first : List CaseValue) × (rest : List CaseValue) × ((select_within_budget values budget
          include_unmeasured).case_ids
        ≡ map (λ v. v.case_id) (first ++ rest))
      × All (λ v. informative v ≡ true) first
      × All (λ v. (not (informative v) ≡ true) × (include_unmeasured ≡ true)) rest
unfolding select_within_budget candidates choose
select_informative_first values budget include_unmeasured =
    let ranked = sort comes_first values in
    let us = keep informative ranked in
    let vs : List CaseValue =
      if include_unmeasured then keep (λ v. not (informative v)) ranked else [] in
    let us_all = keep-All informative ranked in
    let after = (choose budget zero_ratio us).1 in
    (
      (choose budget zero_ratio us).0,
      (choose budget after vs).0,
      ap (map (λ v. v.case_id)) (choose-append budget zero_ratio us vs),
      choose-All budget (λ v. informative v ≡ true) zero_ratio us us_all,
      choose-All budget (λ v. (not (informative v) ≡ true) × (include_unmeasured ≡ true)) after vs
          (rest-All include_unmeasured ranked),
    )
  where
    both :
        (xs : List CaseValue)
        → All (λ v. not (informative v) ≡ true) xs
        → All (λ v. (not (informative v) ≡ true) × (true ≡ true)) xs
    both [] a = tt
    both (x ∷ xs) a = ((a.0, refl), both xs a.1)

    rest-All :
        (b : Bool) (ranked : List CaseValue)
        → All
            (λ v. (not (informative v) ≡ true) × (b ≡ true))
            (if b then keep (λ v. not (informative v)) ranked else [])
    rest-All true ranked =
        both (keep (λ v. not (informative v)) ranked) (keep-All (λ v. not (informative v)) ranked)
    rest-All false ranked = tt
