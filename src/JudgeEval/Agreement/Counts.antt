-- ===== src/JudgeEval/Agreement/Counts.antt =====
-- judge_eval/agreement.py: the confusion matrix counts the pairs.
use evalstack.Prelude.{
  ℕ, ◌+◌, ◌≡◌, refl, ◌∙◌, String, Bool, true, false, not, ◌&&◌, ◌||◌, List, [], ◌∷◌, ◌++◌, keep,
  sum_of, any, if◌then◌else◌, str_eq, eq_iff, arith, count_if, All,
}
use evalstack.Prelude.Sort.{sort, str_leb, insert_sorted}
use evalstack.Prelude.Sets.{distinct}
use evalstack.JudgeEval.Agreement.{
  Matrix, same_pair, bump, cell, labels_of, zero_row, zeros, zip, tabulate,
}

abbrev pub one_if : Bool → ℕ
one_if b = if b then 1 else 0

cell-bump :
    (p q : String × String) (m : Matrix) → cell p (bump q m) ≡ one_if (same_pair p q) + cell p m
unfolding cell bump
cell-bump (a, b) (x, y) [] = ground arith
cell-bump (a, b) (x, y) (((c, d), n) ∷ rest) = ground (
  arith,
  cell-bump (a, b) (x, y) rest,
  eq_iff a x,
  eq_iff b y,
  eq_iff x c,
  eq_iff y d,
  eq_iff a c,
  eq_iff b d,
)

-- How many pairs are this one.
abbrev pub pairs_at : String × String → List (String × String) → ℕ
pairs_at p ps = count_if (same_pair p) ps

cell-tabulate :
    (p : String × String) (ps : List (String × String)) (m : Matrix)
    → cell p (tabulate ps m) ≡ pairs_at p ps + cell p m
unfolding tabulate
cell-tabulate p [] m = omega arith
cell-tabulate p (q ∷ ps) m = omega (arith, cell-tabulate p ps (bump q m), cell-bump p q m)

cell-zero_row :
    (p : String × String) (a : String) (bs : List String) (rest : Matrix)
    → cell p rest ≡ 0
    → cell p (zero_row a bs rest) ≡ 0
unfolding cell zero_row
cell-zero_row p a [] rest h = h
cell-zero_row p a (b ∷ bs) rest h = ground (arith, cell-zero_row p a bs rest h)

cell-zeros : (p : String × String) (xs ys : List String) → cell p (zeros xs ys) ≡ 0
unfolding zeros
cell-zeros p [] ys = unfold cell in refl
cell-zeros p (a ∷ xs) ys = cell-zero_row p a ys (zeros xs ys) (cell-zeros p xs ys)

-- Each cell of the matrix holds the number of the pairs with its two labels.
pub cell_count :
    (p : String × String) (ps : List (String × String)) (xs ys : List String)
    → cell p (tabulate ps (zeros xs ys)) ≡ pairs_at p ps
cell_count p ps xs ys = omega (arith, cell-tabulate p ps (zeros xs ys), cell-zeros p xs ys)

-- Sums over the labels.
sum_of-insert :
    (f : String → ℕ) (x : String) (xs : List String)
    → sum_of f (insert_sorted str_leb x xs) ≡ f x + sum_of f xs
unfolding insert_sorted
sum_of-insert f x [] = refl
sum_of-insert f x (y ∷ ys) = ground (arith, sum_of-insert f x ys)

sum_of-sort : (f : String → ℕ) (xs : List String) → sum_of f (sort str_leb xs) ≡ sum_of f xs
unfolding sort
sum_of-sort f [] = refl
sum_of-sort f (x ∷ xs) = sum_of-insert f x (sort str_leb xs) ∙ omega (arith, sum_of-sort f xs)

at-keep :
    (a x : String) (xs : List String)
    → sum_of (λ l. one_if (str_eq a l)) (keep (λ y. not (str_eq x y)) xs)
      ≡ (if str_eq a x then 0 else sum_of (λ l. one_if (str_eq a l)) xs)
at-keep a x [] = ground arith
at-keep a x (y ∷ ys) = ground (arith, at-keep a x ys, eq_iff a x, eq_iff x y, eq_iff a y)

at-distinct :
    (a : String) (xs : List String)
    → sum_of (λ l. one_if (str_eq a l)) (distinct xs) ≡ one_if (any (str_eq a) xs)
unfolding distinct
at-distinct a [] = refl
at-distinct a (x ∷ xs) = ground (arith, at-keep a x (distinct xs), at-distinct a xs)

-- A label that occurs is one of the labels, once.
pub at-labels :
    (a : String) (human judge : List String)
    → any (str_eq a) (human ++ judge) ≡ true
    → sum_of (λ l. one_if (str_eq a l)) (labels_of human judge) ≡ 1
unfolding labels_of
at-labels a human judge h =
    sum_of-sort (λ l. one_if (str_eq a l)) (distinct (human ++ judge))
    ∙ at-distinct a (human ++ judge)
    ∙ rw h refl

sum_of-plus :
    (f g : String → ℕ) (xs : List String) → sum_of (λ x. f x + g x) xs ≡ sum_of f xs + sum_of g xs
sum_of-plus f g [] = omega arith
sum_of-plus f g (x ∷ xs) = omega (arith, sum_of-plus f g xs)

pub sum_of_ext :
    (f g : String → ℕ) (xs : List String) → ((x : String) → f x ≡ g x) → sum_of f xs ≡ sum_of g xs
sum_of_ext f g [] h = refl
sum_of_ext f g (x ∷ xs) h = omega (arith, h x, sum_of_ext f g xs h)

sum_of_zero : (xs : List String) → sum_of (λ x. 0) xs ≡ 0
sum_of_zero [] = refl
sum_of_zero (x ∷ xs) = omega (arith, sum_of_zero xs)

-- Counting the pairs of each label is counting every pair by how many labels it has.
pub sum_counts :
    (hit : String → String × String → Bool) (w : String × String → ℕ) (labels : List String)
    (ps : List (String × String))
    → All (λ p. sum_of (λ l. one_if (hit l p)) labels ≡ w p) ps
    → sum_of (λ l. count_if (hit l) ps) labels ≡ sum_of w ps
sum_counts hit w labels [] h = sum_of_zero labels
sum_counts hit w labels (p ∷ ps) h =
    sum_of-plus (λ l. one_if (hit l p)) (λ l. count_if (hit l) ps) labels
    ∙ omega (arith, h.0, sum_counts hit w labels ps h.1)

All-members :
    (P : String → Type 0) (xs : List String)
    → ((a : String) → any (str_eq a) xs ≡ true → P a)
    → All P xs
All-members P [] h = tt
All-members P (x ∷ xs) h =
    (h x (ground (arith, eq_iff x x)), All-members P xs (λ a m. h a (ground arith)))

any-append :
    (a : String) (xs ys : List String)
    → any (str_eq a) (xs ++ ys) ≡ (any (str_eq a) xs || any (str_eq a) ys)
any-append a [] ys = ground arith
any-append a (x ∷ xs) ys = ground (arith, any-append a xs ys)

All-zip :
    (P : String → Type 0) (xs ys : List String)
    → All P xs
    → All P ys
    → All (λ p. P p.0 × P p.1) (zip xs ys)
unfolding zip
All-zip P [] [] h k = tt
All-zip P [] (y ∷ ys) h k = tt
All-zip P (x ∷ xs) [] h k = tt
All-zip P (x ∷ xs) (y ∷ ys) h k = ((h.0, k.0), All-zip P xs ys h.1 k.1)

abbrev pub Once : List String → String → Type 0
Once labels a = sum_of (λ l. one_if (str_eq a l)) labels ≡ 1

-- Both labels of every pair are among the labels, once.
pub covered :
    (human judge : List String)
    → All
        (λ p. Once (labels_of human judge) p.0 × Once (labels_of human judge) p.1)
        (zip human judge)
covered human judge =
    All-zip (Once (labels_of human judge)) human judge
      (All-members _ human
        (λ a m. at-labels a human judge (ground (arith, any-append a human judge))))
      (All-members _ judge
        (λ a m. at-labels a human judge (ground (arith, any-append a human judge))))

pub All_map :
    {P Q : String × String → Type 0} (ps : List (String × String))
    → ((p : String × String) → P p → Q p)
    → All P ps
    → All Q ps
All_map [] f h = tt
All_map (p ∷ ps) f h = (f p h.0, All_map ps f h.1)

module _ (labels : List String) where
  guarded :
      (b : Bool) (a : String)
      → Once labels a
      → sum_of (λ o. one_if (b && str_eq o a)) labels ≡ one_if b
  guarded true a h =
      sum_of_ext (λ o. one_if (str_eq o a)) (λ o. one_if (str_eq a o)) labels
        (λ o. ground (arith, eq_iff o a, eq_iff a o))
      ∙ h
  guarded false a h = sum_of_zero labels

  module _ (ps : List (String × String))
      (cover : All (λ p. Once labels p.0 × Once labels p.1) ps) where
    -- The sums of the matrix along a row, along a column and along the diagonal.
    pub row_sum :
        (l : String)
        → sum_of (λ o. pairs_at (l, o) ps) labels ≡ sum_of (λ p. one_if (str_eq l p.0)) ps
    row_sum l =
        sum_counts (λ o. same_pair (l, o)) (λ p. one_if (str_eq l p.0)) labels ps
          (All_map ps (λ p h. guarded (str_eq l p.0) p.1 h.1) cover)

    pub column_sum :
        (l : String)
        → sum_of (λ o. pairs_at (o, l) ps) labels ≡ sum_of (λ p. one_if (str_eq l p.1)) ps
    column_sum l =
        sum_counts (λ o. same_pair (o, l)) (λ p. one_if (str_eq l p.1)) labels ps
          (All_map ps
            (λ p h.
              sum_of_ext _ (λ o. one_if (str_eq l p.1 && str_eq o p.0)) labels (λ o. ground arith)
              ∙ guarded (str_eq l p.1) p.0 h.0)
            cover)

    pub diagonal_sum :
        sum_of (λ l. pairs_at (l, l) ps) labels ≡ sum_of (λ p. one_if (str_eq p.0 p.1)) ps
    diagonal_sum =
        sum_counts (λ l. same_pair (l, l)) (λ p. one_if (str_eq p.0 p.1)) labels ps
          (All_map ps
            (λ p h.
              sum_of_ext _ (λ o. one_if (str_eq p.0 p.1 && str_eq o p.0)) labels
                (λ o. ground (arith, eq_iff o p.0, eq_iff o p.1, eq_iff p.0 p.1))
              ∙ guarded (str_eq p.0 p.1) p.0 h.0)
            cover)
