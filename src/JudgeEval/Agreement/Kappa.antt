-- ===== src/JudgeEval/Agreement/Kappa.antt =====
-- judge_eval/agreement.py: what the accuracy and kappa of a report say of the judge.
use evalstack.Prelude.{
  ℕ, ◌+◌, ◌-◌, ◌*◌, ◌≤◌, ◌<◌, ◌≡◌, refl, ◌∙◌, sym, String, false, some, List, [], ◌∷◌, sum_of,
  length, str_eq, arith, Bool-cases, inl, inr, leb, le→leb, ◌==◌, ==_iff, subst, dec_lt,
}
use evalstack.JudgeEval.Agreement.{
  Signed, cell, labels_of, zeros, zip, tabulate, confusion_matrix, correct, row_total, column_total,
  kappa_of, AgreementReport, report_of, agreement_report,
}
use evalstack.JudgeEval.Agreement.Counts.{
  pairs_at, cell_count, one_if, sum_of_ext, covered, row_sum, column_sum, diagonal_sum,
}

-- How many pairs agree.
abbrev pub agreeing : List (String × String) → ℕ
agreeing ps = sum_of (λ p. one_if (str_eq p.0 p.1)) ps

module _ (human judge : List String) where
  abbrev pub pairs : List (String × String)
  pairs = zip human judge

  abbrev pub labels : List String
  labels = labels_of human judge

  -- The matrix of the two lists.
  abbrev pub counts : List ((String × String) × ℕ)
  counts = tabulate pairs (zeros labels labels)

  pub correct_count : correct labels counts ≡ agreeing pairs
  unfolding correct
  correct_count =
      sum_of_ext _ (λ l. pairs_at (l, l) pairs) labels (λ l. cell_count (l, l) pairs labels labels)
      ∙ diagonal_sum labels pairs (covered human judge)

  pub row_count :
      (l : String) → row_total labels counts l ≡ sum_of (λ p. one_if (str_eq l p.0)) pairs
  unfolding row_total
  row_count l =
      sum_of_ext _ (λ o. pairs_at (l, o) pairs) labels (λ o. cell_count (l, o) pairs labels labels)
      ∙ row_sum labels pairs (covered human judge) l

  pub column_count :
      (l : String) → column_total labels counts l ≡ sum_of (λ p. one_if (str_eq l p.1)) pairs
  unfolding column_total
  column_count l =
      sum_of_ext _ (λ o. pairs_at (o, l) pairs) labels (λ o. cell_count (o, l) pairs labels labels)
      ∙ column_sum labels pairs (covered human judge) l

  -- What a report says of the pairs.
  pub record Counts (r : AgreementReport) : Type 0 where
    pub count : r.count ≡ length human
    pub cells : (p : String × String) → cell p r.matrix ≡ pairs_at p pairs
    pub correct : r.accuracy.num ≡ agreeing pairs
    pub total : r.accuracy.den ≡ length human

abbrev pub report : List String → List String → AgreementReport
report human judge = report_of (labels human judge) (counts human judge) (length human)

pub reported :
    (h : String) (human judge : List String)
    → length (h ∷ human) ≡ length judge
    → agreement_report (h ∷ human) judge ≡ some (report (h ∷ human) judge)
unfolding agreement_report confusion_matrix
reported h human judge same = rw ((==_iff _ _).1 same) refl

-- For verdicts on the same items, at least one, there is a report, its matrix counts the pairs of each
-- human and judge's label, and its accuracy is the share of the pairs that agree.
pub agreement_report-Counts :
    (human judge : List String)
    → 0 < length human
    → length human ≡ length judge
    → (r : AgreementReport) × (agreement_report human judge ≡ some r) × Counts human judge r
unfolding report_of
agreement_report-Counts [] judge pos same = elim pos [ ]
agreement_report-Counts (h ∷ human) judge pos same = (
  report (h ∷ human) judge,
  unfold report_of in reported h human judge same,
  record {
    count = refl;
    cells = λ p. cell_count p (pairs (h ∷ human) judge) _ _;
    correct = correct_count (h ∷ human) judge;
    total = refl;
  },
)

-- kappa is 1.
abbrev pub IsPerfect : Signed → Type 0
IsPerfect k = k.plus ≡ k.minus + k.den

IsPerfect-kappa :
    (ls : List String) (m : List ((String × String) × ℕ)) (total : ℕ)
    → correct ls m ≡ total
    → IsPerfect (kappa_of ls m total)
unfolding kappa_of
IsPerfect-kappa ls m total h =
    let expected = sum_of (λ l. row_total ls m l * column_total ls m l) ls in
    elim (Bool-cases (leb (total * total) expected)) [
      | inl e ↦ rw e (rw h (rw (le→leb total total (omega arith)) refl))
      | inr e ↦ rw e (rw h (ground arith))
    ]

imperfect_kappa :
    (ls : List String) (m : List ((String × String) × ℕ)) (total : ℕ)
    → correct ls m < total
    → (kappa_of ls m total).plus < (kappa_of ls m total).minus + (kappa_of ls m total).den
unfolding kappa_of
imperfect_kappa ls m total h =
    let expected = sum_of (λ l. row_total ls m l * column_total ls m l) ls in
    let fewer : leb total (correct ls m) ≡ false = ground arith in
    elim (Bool-cases (leb (total * total) expected)) [
      | inl e ↦ rw e (rw fewer (omega arith))
      | inr e ↦ rw e (below (correct ls m) total expected h (ground arith))
    ]
  where
    below : (c n x : ℕ) → c < n → x < n * n → c * n < x + (n * n - x)
    below c n x h k = grind arith

agreeing-le : (xs ys : List String) → agreeing (zip xs ys) ≤ length xs
unfolding zip
agreeing-le [] ys = omega arith
agreeing-le (x ∷ xs) [] = omega arith
agreeing-le (x ∷ xs) (y ∷ ys) = ground (arith, agreeing-le xs ys)

pub from_lengths :
    (human judge : List String) (r : AgreementReport)
    → agreement_report human judge ≡ some r
    → r ≡ report human judge
unfolding agreement_report confusion_matrix
from_lengths [] judge r h = absurd (ground arith)
from_lengths (x ∷ human) judge r h = elim (Bool-cases (length (x ∷ human) == length judge)) [
  | inl same ↦ ground arith
  | inr differ ↦ absurd (ground arith)
]

abbrev Bounded : ℕ → ℕ → Signed → Type 0
Bounded c n k = (k.plus ≤ k.minus + k.den) × (c ≡ n → IsPerfect k) × (IsPerfect k → c ≡ n)

kappa_of-Bounded :
    (ls : List String) (m : List ((String × String) × ℕ)) (total : ℕ)
    → correct ls m ≤ total
    → Bounded (correct ls m) total (kappa_of ls m total)
kappa_of-Bounded ls m total le = elim (dec_lt (correct ls m) total) [
  | yes fewer ↦
      let less = imperfect_kappa ls m total fewer in
      (omega arith, λ e. absurd (omega arith), λ p. absurd (omega (arith, p)))
  | no all ↦
      let perfect = IsPerfect-kappa ls m total (omega arith) in
      (omega arith, λ e. perfect, λ p. omega arith)
]

-- kappa is at most 1, and it is 1 exactly for a judge that agrees with every human label.
pub kappa_bounds :
    (human judge : List String) (r : AgreementReport)
    → agreement_report human judge ≡ some r
    → (r.kappa.plus ≤ r.kappa.minus + r.kappa.den)
      × (agreeing (zip human judge) ≡ length human → IsPerfect r.kappa)
      × (IsPerfect r.kappa → agreeing (zip human judge) ≡ length human)
unfolding report_of
kappa_bounds human judge r h =
    let c = correct_count human judge in
    let at : Bounded (agreeing (pairs human judge)) (length human) (report human judge).kappa =
      subst
        (λ x.
          Bounded x (length human)
            (kappa_of (labels human judge) (counts human judge) (length human)))
        c
        (kappa_of-Bounded (labels human judge) (counts human judge) (length human)
          (omega (arith, c, agreeing-le human judge))) in
    subst (λ x. Bounded (agreeing (pairs human judge)) (length human) x.kappa)
      (sym (from_lengths human judge r h)) at
