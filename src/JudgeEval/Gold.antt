-- ===== src/JudgeEval/Gold.antt =====
-- GoldSet of judge_eval/gold.py: human-labelled examples. Files and the content hash are left out.
use evalstack.Prelude.{
  ℕ, ◌+◌, ◌≡◌, ◌∙◌, String, Option, none, some, List, [], ◌∷◌, map, count_if, if◌then◌else◌, str_eq,
  eq_iff, arith, ◌==◌,
}
use evalstack.Prelude.Dict.{Dict, get, update, get-update, sort_keys, get-sort_keys, or_default}
use evalstack.Prelude.Sets.{distinct}
use evalstack.Prelude.Sort.{sort, str_leb}

pub record JudgeExample : Type 0 where
  pub case_id : String
  pub task : String
  pub agent_summary : String
  pub expected_behaviour : String
  pub human_verdict : String
  pub rationale : String
  pub author_family : String

pub record GoldSet : Type 0 where
  pub name : String
  pub version : String
  pub examples : List JudgeExample

unfoldable pub verdicts : GoldSet → List String
verdicts g = map (λ e. e.human_verdict) g.examples

unfoldable pub labels : GoldSet → List String
unfolding verdicts distinct sort
labels g = sort str_leb (distinct (verdicts g))

-- The loop of `label_balance` over the labels.
unfoldable pub count_labels : List String → Dict ℕ → Dict ℕ
unfolding update
count_labels [] counts = counts
count_labels (l ∷ ls) counts = count_labels ls (update l 0 (λ n. n + 1) counts)

unfoldable pub label_balance : GoldSet → Dict ℕ
unfolding count_labels verdicts sort_keys
label_balance g = sort_keys (count_labels (verdicts g) [])

-- A count, or no entry for a label that does not occur.
abbrev pub entry : ℕ → Option ℕ
entry n = if n == 0 then none else some n

get-count_labels :
    (l : String) (ls : List String) (counts : Dict ℕ)
    → or_default 0 (get l (count_labels ls counts))
      ≡ or_default 0 (get l counts) + count_if (str_eq l) ls
unfolding count_labels
get-count_labels l [] counts = omega arith
get-count_labels l (x ∷ ls) counts =
    get-count_labels l ls (update x 0 (λ n. n + 1) counts)
    ∙ ground (arith, get-update x 0 (λ n. n + 1) l counts, eq_iff x l, eq_iff l x)

-- Every label has its number of examples in the balance.
pub get-label_balance :
    (g : GoldSet) (l : String)
    → or_default 0 (get l (label_balance g)) ≡ count_if (str_eq l) (verdicts g)
unfolding label_balance get
get-label_balance g l =
    rw (get-sort_keys l (count_labels (verdicts g) []))
      (get-count_labels l (verdicts g) [] ∙ omega arith)
