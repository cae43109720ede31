-- ===== src/Regression/Clustering.antt =====
-- regression/clustering.py: failures grouped by their observable shape.
pub mod Signature
pub mod Coverage
use evalstack.Prelude.{
  ℕ, zero, suc, ◌+◌, ◌*◌, ◌-◌, String, Bool, true, false, not, ◌&&◌, ◌||◌, Option, none, some, List,
  [], ◌∷◌, ◌++◌, map, keep, length, sum_of, ltb, leb, ◌==◌, if◌then◌else◌, str_eq, is_empty,
}
use evalstack.Prelude.Int.{ℤ, pos, negsuc}
use evalstack.Prelude.Dict.{Dict, get, update, or_default}
use evalstack.Prelude.Sort.{sort, str_leb}
use evalstack.Prelude.Ratio.{Ratio, zero_ratio, ratio_sum}
use evalstack.Json.{
  Json, null, boolean, int, str, arr, obj, Items, nil, cons, Fields, end, field, get_field,
}
use evalstack.Schema.Result.{
  CaseStatus, completed, timed_out, infra_error, cancelled, EvaluatorResult, CaseResult, RunResult,
  evaluator,
}
use evalstack.Regression.Clustering.Signature.{
  FailureSignature, label, signature_for, same_signature,
}

abbrev pub Groups : Type 0
Groups = List (FailureSignature × List String)

-- `grouped.setdefault(signature, []).append(case_id)`
unfoldable pub add_failure : FailureSignature → String → Groups → Groups
add_failure s id [] = (s, id ∷ []) ∷ []
add_failure s id ((t, ids) ∷ rest) =
    let later = add_failure s id rest in
    if same_signature t s then (t, ids ++ id ∷ []) ∷ rest else (t, ids) ∷ later

unfoldable pub group_failures : Groups → List CaseResult → Groups
unfolding add_failure signature_for
group_failures groups [] = groups
group_failures groups (r ∷ rs) =
    group_failures (if r.passed then groups else add_failure (signature_for r) r.case_id groups) rs

pub record FailureCluster : Type 0 where
  pub signature : FailureSignature
  pub case_ids : List String
  pub bug_kinds : List (String × ℕ)

abbrev pub size : FailureCluster → ℕ
size c = length c.case_ids

abbrev labelled : FailureCluster → ℕ
labelled c = sum_of (λ k. k.1) c.bug_kinds

abbrev first_count : List (String × ℕ) → ℕ
first_count [] = 0
first_count (k ∷ ks) = k.1

unfoldable pub purity : FailureCluster → Ratio
purity c =
    if labelled c == 0
    then zero_ratio
    else record { num = first_count c.bug_kinds; den = labelled c }

abbrev count_kind : Option String → Dict ℕ → Dict ℕ
count_kind none counts = counts
count_kind (some kind) counts = update kind 0 suc counts

-- The `Counter` over the cases whose kind is known.
unfoldable pub count_kinds : Dict String → Dict ℕ → List String → Dict ℕ
unfolding get update
count_kinds kinds counts [] = counts
count_kinds kinds counts (id ∷ ids) = count_kinds kinds (count_kind (get id kinds) counts) ids

-- `most_common`: equal counts stay in the order of insertion.
abbrev most_common : Dict ℕ → List (String × ℕ)
most_common counts = sort (λ a b. leb b.1 a.1) counts

unfoldable pub cluster_of : Dict String → FailureSignature × List String → FailureCluster
unfolding count_kinds
cluster_of kinds (s, ids) = record {
  signature = s;
  case_ids = sort str_leb ids;
  bug_kinds = most_common (count_kinds kinds [] ids);
}

-- The key `(-size, label)`, ascending.
unfoldable pub larger_first : FailureCluster → FailureCluster → Bool
unfolding label
larger_first a b =
    ltb (size b) (size a) || size a == size b && str_leb (label a.signature) (label b.signature)

-- No known bug kinds is the empty dictionary.
unfoldable pub cluster_failures : RunResult → Dict String → List FailureCluster
unfolding group_failures cluster_of larger_first
cluster_failures run kinds =
    sort larger_first (map (cluster_of kinds) (group_failures [] run.case_results))

abbrev weighted : FailureCluster → Ratio
unfolding purity
weighted c = let p = purity c in record { num = p.num * size c; den = p.den }

unfoldable pub overall_purity : List FailureCluster → Ratio
unfolding weighted
overall_purity clusters =
    let with_kinds = keep (λ c. not (is_empty c.bug_kinds)) clusters in
    let all_sizes = sum_of size with_kinds in
    let s = ratio_sum (map weighted with_kinds) in
    if all_sizes == 0 then zero_ratio else record { num = s.num; den = s.den * all_sizes }

-- `{cluster.label: cluster.size for cluster in clusters}`: a later cluster of the same label
-- replaces an earlier one.
unfoldable pub sizes_by_label : Dict ℕ → List FailureCluster → Dict ℕ
unfolding label update
sizes_by_label sizes [] = sizes
sizes_by_label sizes (c ∷ cs) = sizes_by_label (update (label c.signature) 0 (λ _. size c) sizes) cs

pub record Shift : Type 0 where
  pub shape : String
  pub before : ℕ
  pub after : ℕ

-- The key `(-(after - before), label)`, ascending.
abbrev grew_first : Shift → Shift → Bool
grew_first a b =
    ltb (b.after + a.before) (a.after + b.before)
    || a.after + b.before == b.after + a.before && str_leb a.shape b.shape

abbrev shift_of : Dict ℕ → Dict ℕ → String → Shift
unfolding get
shift_of before after shape = record {
  shape = shape;
  before = or_default 0 (get shape before);
  after = or_default 0 (get shape after);
}

abbrev is_new : Dict ℕ → String × ℕ → Bool
unfolding get
is_new old (shape, n) = elim (get shape old) [ none ↦ true | some m ↦ false ]

-- The union of the labels is the keys of the first dictionary and the new ones of the second.
unfoldable pub cluster_shift : List FailureCluster → List FailureCluster → List Shift
unfolding sizes_by_label shift_of is_new
cluster_shift before after =
    let sizes_before = sizes_by_label [] before in
    let sizes_after = sizes_by_label [] after in
    let labels =
      map (λ e. e.0) sizes_before ++ map (λ e. e.0) (keep (is_new sizes_before) sizes_after) in
    sort grew_first (map (shift_of sizes_before sizes_after) (sort str_leb labels))
