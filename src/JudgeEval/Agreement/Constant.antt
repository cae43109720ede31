-- ===== src/JudgeEval/Agreement/Constant.antt =====
-- judge_eval/agreement.py: kappa of a judge that gives every item the same verdict.
use evalstack.Prelude.{
  ℕ, ◌*◌, ◌<◌, ◌≡◌, refl, ap, ◌∙◌, sym, String, true, false, some, List, [], ◌∷◌, ◌++◌, sum_of, any,
  length, if◌then◌else◌, str_eq, eq_iff, arith, Bool-cases, inl, inr, leb, replicate, subst,
}
use evalstack.JudgeEval.Agreement.{
  zip, correct, row_total, column_total, kappa_of, AgreementReport, report_of, agreement_report,
}
use evalstack.JudgeEval.Agreement.Counts.{one_if, sum_of_ext, at-labels, Once}
use evalstack.JudgeEval.Agreement.Kappa.{
  agreeing, pairs, labels, counts, from_lengths, correct_count, row_count, column_count,
}

-- A judge that always gives the same verdict.
agreeing_constant :
    (label : String) (xs : List String)
    → agreeing (zip xs (replicate (length xs) label))
      ≡ sum_of (λ p. one_if (str_eq label p.0)) (zip xs (replicate (length xs) label))
unfolding zip
agreeing_constant label [] = refl
agreeing_constant label (x ∷ xs) =
    ground (arith, agreeing_constant label xs, eq_iff x label, eq_iff label x)

column_constant :
    (l label : String) (xs : List String)
    → sum_of (λ p. one_if (str_eq l p.1)) (zip xs (replicate (length xs) label))
      ≡ (if str_eq label l then length xs else 0)
unfolding zip
column_constant l label [] = ground arith
column_constant l label (x ∷ xs) =
    ground (arith, column_constant l label xs, eq_iff l label, eq_iff label l)

only_at :
    (f : String → ℕ) (n : ℕ) (label : String) (ls : List String)
    → sum_of (λ l. f l * (if str_eq label l then n else 0)) ls
      ≡ f label * n * sum_of (λ l. one_if (str_eq label l)) ls
only_at f n label [] = grind arith
only_at f n label (x ∷ ls) = elim (Bool-cases (str_eq label x)) [
  | inl same ↦ rw same (rw (← (eq_iff label x).0 same) (grind (arith, only_at f n label ls)))
  | inr other ↦ rw other (grind (arith, only_at f n label ls))
]

no_gain :
    (ls : List String) (m : List ((String × String) × ℕ)) (total : ℕ)
    → sum_of (λ l. row_total ls m l * column_total ls m l) ls ≡ correct ls m * total
    → correct ls m < total
    → (kappa_of ls m total).plus ≡ (kappa_of ls m total).minus
unfolding kappa_of
no_gain ls m total e less =
    let room : leb (total * total) (correct ls m * total) ≡ false = le_false _ _ (grind arith) in
    rw e (rw room refl)
  where
    le_false : (a b : ℕ) → b < a → leb a b ≡ false
    le_false a b h = ground arith

module _ (h : String) (human : List String) (label : String) where
  abbrev all_items : List String
  all_items = h ∷ human

  abbrev same_verdicts : List String
  same_verdicts = replicate (length all_items) label

  label-Once : Once (labels all_items same_verdicts) label
  label-Once = at-labels label all_items same_verdicts (
      in_right label all_items (label ∷ replicate (length human) label)
        (ground (arith, eq_iff label label)))
    where
      in_right :
          (a : String) (xs ys : List String)
          → any (str_eq a) ys ≡ true
          → any (str_eq a) (xs ++ ys) ≡ true
      in_right a [] ys m = m
      in_right a (x ∷ xs) ys m = ground (arith, in_right a xs ys m)

  expected_constant :
      sum_of
        (λ l.
          row_total (labels all_items same_verdicts) (counts all_items same_verdicts) l
          * column_total (labels all_items same_verdicts) (counts all_items same_verdicts) l)
        (labels all_items same_verdicts)
      ≡ agreeing (pairs all_items same_verdicts) * length all_items
  expected_constant =
      let row : String → ℕ =
        λ l. sum_of (λ p. one_if (str_eq l p.0)) (pairs all_items same_verdicts) in
      sum_of_ext _ (λ l. row l * (if str_eq label l then length all_items else 0))
        (labels all_items same_verdicts)
        (λ l.
          rw
            (
              row_count all_items same_verdicts l,
              column_count all_items same_verdicts l,
              column_constant l label all_items,
            )
            refl)
      ∙ only_at row (length all_items) label (labels all_items same_verdicts)
      ∙ rw (label-Once, agreeing_constant label all_items) (grind arith)

  -- A judge that gives every item the same verdict has kappa 0, whatever share of the labels it hits,
  -- unless it hits them all.
  pub kappa_constant :
      (r : AgreementReport)
      → agreement_report all_items same_verdicts ≡ some r
      → agreeing (zip all_items same_verdicts) < length all_items
      → r.kappa.plus ≡ r.kappa.minus
  unfolding report_of
  kappa_constant r got fewer =
      subst (λ x. x.kappa.plus ≡ x.kappa.minus) (sym (from_lengths all_items same_verdicts r got))
        (no_gain (labels all_items same_verdicts) (counts all_items same_verdicts)
          (length all_items)
          (expected_constant
            ∙ ap (λ c. c * length all_items) (sym (correct_count all_items same_verdicts)))
          (omega (arith, correct_count all_items same_verdicts)))
