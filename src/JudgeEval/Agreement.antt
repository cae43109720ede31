-- ===== src/JudgeEval/Agreement.antt =====
-- judge_eval/agreement.py: a judge's verdicts measured against human labels, in exact fractions.
pub mod Counts
pub mod Kappa
pub mod Constant
use evalstack.Prelude.{
  ℕ, zero, suc, ◌+◌, ◌-◌, ◌*◌, String, Bool, true, false, not, ◌&&◌, Option, none, some, List, [],
  ◌∷◌, ◌++◌, map, keep, sum_of, length, is_empty, if◌then◌else◌, str_eq, ltb, leb, ◌==◌,
}
use evalstack.Prelude.Sort.{sort, str_leb}
use evalstack.Prelude.Sets.{distinct}
use evalstack.Prelude.Ratio.{Ratio, zero_ratio}

-- A fraction that may be negative: (plus - minus) / den.
pub record Signed : Type 0 where
  pub plus : ℕ
  pub minus : ℕ
  pub den : ℕ

abbrev at_least_percent : ℕ → Signed → Bool
at_least_percent p k = leb (k.den * p + k.minus * 100) (k.plus * 100)

-- `interpret_kappa`
unfoldable pub interpret_kappa : Signed → String
interpret_kappa k =
    if at_least_percent 81 k
    then "almost perfect"
    else if at_least_percent 61 k
    then "substantial"
    else if at_least_percent 41 k
    then "moderate"
    else if at_least_percent 21 k
    then "fair"
    else if at_least_percent 1 k
    then "slight"
    else "none or worse than chance"

pub record ClassMetrics : Type 0 where
  pub label : String
  pub true_positives : ℕ
  pub false_positives : ℕ
  pub false_negatives : ℕ

abbrev pub support : ClassMetrics → ℕ
support m = m.true_positives + m.false_negatives

-- `a / b if b else 0.0`
abbrev share : ℕ → ℕ → Ratio
share a b = if b == 0 then zero_ratio else record { num = a; den = b }

abbrev pub precision : ClassMetrics → Ratio
precision m = share m.true_positives (m.true_positives + m.false_positives)

abbrev pub recall : ClassMetrics → Ratio
recall m = share m.true_positives (support m)

-- The counts by human label and judge's label.
abbrev pub Matrix : Type 0
Matrix = List ((String × String) × ℕ)

abbrev pub same_pair : String × String → String × String → Bool
same_pair p q = str_eq p.0 q.0 && str_eq p.1 q.1

-- `counts[(actual, predicted)] += 1`; a key that is missing does not occur, as the labels are all
-- there.
unfoldable pub bump : String × String → Matrix → Matrix
bump p [] = (p, 1) ∷ []
bump p ((q, n) ∷ rest) = if same_pair p q then (q, n + 1) ∷ rest else (q, n) ∷ bump p rest

-- `counts[(human, judge)]`
unfoldable pub cell : String × String → Matrix → ℕ
cell p [] = 0
cell p ((q, n) ∷ rest) = if same_pair p q then n else cell p rest

-- `sorted(set(human) | set(judge))`
unfoldable pub labels_of : List String → List String → List String
unfolding distinct sort
labels_of human judge = sort str_leb (distinct (human ++ judge))

unfoldable pub zero_row : String → List String → Matrix → Matrix
zero_row a [] rest = rest
zero_row a (b ∷ bs) rest = ((a, b), 0) ∷ zero_row a bs rest

-- `{(a, b): 0 for a in labels for b in labels}`
unfoldable pub zeros : List String → List String → Matrix
unfolding zero_row
zeros [] all_labels = []
zeros (a ∷ rest) all_labels = zero_row a all_labels (zeros rest all_labels)

unfoldable pub zip : List String → List String → List (String × String)
zip (x ∷ xs) (y ∷ ys) = (x, y) ∷ zip xs ys
zip _ _ = []

unfoldable pub tabulate : List (String × String) → Matrix → Matrix
unfolding bump
tabulate [] m = m
tabulate (p ∷ ps) m = tabulate ps (bump p m)

-- `confusion_matrix`; `none` is a `ValueError`.
unfoldable pub confusion_matrix : List String → List String → Option (List String × Matrix)
confusion_matrix human judge =
    let labels = labels_of human judge in
    if length human == length judge
    then some (labels, tabulate (zip human judge) (zeros labels labels))
    else none

-- The sum over `(label, label)`
unfoldable pub correct : List String → Matrix → ℕ
correct labels m = sum_of (λ l. cell (l, l) m) labels

unfoldable pub row_total : List String → Matrix → String → ℕ
row_total labels m l = sum_of (λ o. cell (l, o) m) labels

unfoldable pub column_total : List String → Matrix → String → ℕ
column_total labels m l = sum_of (λ o. cell (o, l) m) labels

-- `cohens_kappa` of `total` pairs, with the observed and the expected agreement over the common
-- denominators `total` and `total * total`.
unfoldable pub kappa_of : List String → Matrix → ℕ → Signed
kappa_of labels m total =
    let observed = correct labels m in
    let expected = sum_of (λ l. row_total labels m l * column_total labels m l) labels in
    if leb (total * total) expected
    then if leb total observed
      then record { plus = 1; minus = 0; den = 1 }
      else record { plus = 0; minus = 0; den = 1 }
    else record { plus = observed * total; minus = expected; den = total * total - expected }

unfoldable pub cohens_kappa : List String → List String → Option Signed
cohens_kappa human judge =
    let k : Option Signed = elim (confusion_matrix human judge) [
      | none ↦ none
      | some (labels, m) ↦ some (kappa_of labels m (length human))
    ] in
    if is_empty human then none else k

pub record AgreementReport : Type 0 where
  pub labels : List String
  pub matrix : Matrix
  pub accuracy : Ratio
  pub kappa : Signed
  pub per_class : List ClassMetrics
  pub count : ℕ

-- `meets`, for a threshold that is not negative
unfoldable pub meets : AgreementReport → Ratio → Bool
meets r t = leb (t.num * r.kappa.den + r.kappa.minus * t.den) (r.kappa.plus * t.den)

unfoldable pub disagreements : AgreementReport → ℕ
disagreements r = sum_of (λ e. if str_eq e.0.0 e.0.1 then 0 else e.1) r.matrix

unfoldable pub metrics_of : List String → Matrix → String → ClassMetrics
metrics_of labels m label =
    let others = keep (λ o. not (str_eq o label)) labels in
    record {
      label = label;
      true_positives = cell (label, label) m;
      false_positives = sum_of (λ o. cell (o, label) m) others;
      false_negatives = sum_of (λ o. cell (label, o) m) others;
    }

unfoldable pub report_of : List String → Matrix → ℕ → AgreementReport
report_of labels m total = record {
  labels = labels;
  matrix = m;
  accuracy = record { num = correct labels m; den = total };
  kappa = kappa_of labels m total;
  per_class = map (metrics_of labels m) labels;
  count = total;
}

-- `agreement_report`; `none` is a `ValueError`.
unfoldable pub agreement_report : List String → List String → Option AgreementReport
agreement_report human judge =
    let r : Option AgreementReport = elim (confusion_matrix human judge) [
      | none ↦ none
      | some (labels, m) ↦ some (report_of labels m (length human))
    ] in
    if is_empty human then none else r
