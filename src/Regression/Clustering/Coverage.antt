-- ===== src/Regression/Clustering/Coverage.antt =====
-- cluster_failures of regression/clustering.py: which cases its clusters hold.
use evalstack.Prelude.{
  str_eq, ◌&&◌, count_if-append, ℕ, suc, ◌+◌, ◌≤◌, ◌<◌, ◌≡◌, refl, ◌∙◌, sym, String, Bool, true,
  false, not, List, [], ◌∷◌, map, sum_of, length, count_if, if◌then◌else◌, arith, All,
  length-append, Bool-cases, inl, inr,
}
use evalstack.Prelude.Dict.{Dict}
use evalstack.Prelude.Sort.{sort, insert_sorted, sort-All, str_leb}
use evalstack.Prelude.Ratio.{IsUnit}
use evalstack.Schema.Result.{CaseResult, RunResult}
use evalstack.Regression.Clustering.Signature.{FailureSignature, signature_for, same_signature}
use evalstack.Regression.Clustering.{
  Groups, add_failure, group_failures, FailureCluster, size, first_count, purity, cluster_of,
  larger_first, cluster_failures,
}

module _ {ℓ} {A : Type ℓ} (le : A → A → Bool) (f : A → ℕ) where
  sum-insert_sorted : (x : A) (xs : List A) → sum_of f (insert_sorted le x xs) ≡ f x + sum_of f xs
  unfolding insert_sorted
  sum-insert_sorted x [] = refl
  sum-insert_sorted x (y ∷ ys) = elim (Bool-cases (le x y)) [
    | inl e ↦ rw e refl
    | inr e ↦ rw e (omega (arith, sum-insert_sorted x ys))
  ]

  sum-sort : (xs : List A) → sum_of f (sort le xs) ≡ sum_of f xs
  unfolding sort
  sum-sort [] = refl
  sum-sort (x ∷ xs) = omega (arith, sum-insert_sorted x (sort le xs), sum-sort xs)

-- How often a case id is in the groups.
abbrev occurrences : String → Groups → ℕ
occurrences name groups = sum_of (λ g. count_if (str_eq name) g.1) groups

abbrev fails_at : String → CaseResult → Bool
fails_at name r = not r.passed && str_eq name r.case_id

occurrences-add_failure :
    (name : String) (s : FailureSignature) (id : String) (groups : Groups)
    → occurrences name (add_failure s id groups)
      ≡ occurrences name groups + (if str_eq name id then 1 else 0)
unfolding add_failure
occurrences-add_failure name s id [] = ground arith
occurrences-add_failure name s id ((t, ids) ∷ rest) = elim (Bool-cases (same_signature t s)) [
  | inl e ↦ rw e (ground (arith, count_if-append (str_eq name) ids (id ∷ [])))
  | inr e ↦ rw e (omega (arith, occurrences-add_failure name s id rest))
]

occurrences_step :
    (name : String) (r : CaseResult) (groups : Groups)
    → occurrences name (if r.passed then groups else add_failure (signature_for r) r.case_id groups)
      ≡ occurrences name groups + (if fails_at name r then 1 else 0)
occurrences_step name r groups = step r.passed (signature_for r)
  where
    step :
        (passed : Bool) (s : FailureSignature)
        → occurrences name (if passed then groups else add_failure s r.case_id groups)
          ≡ occurrences name groups + (if not passed && str_eq name r.case_id then 1 else 0)
    step true s = omega arith
    step false s = occurrences-add_failure name s r.case_id groups

occurrences-group_failures :
    (name : String) (groups : Groups) (rs : List CaseResult)
    → occurrences name (group_failures groups rs)
      ≡ occurrences name groups + count_if (fails_at name) rs
unfolding group_failures
occurrences-group_failures name groups [] = omega arith
occurrences-group_failures name groups (r ∷ rs) =
    occurrences-group_failures name
      (if r.passed then groups else add_failure (signature_for r) r.case_id groups) rs
    ∙ ground (arith, occurrences_step name r groups)

abbrev members : Groups → ℕ
members groups = sum_of (λ g. length g.1) groups

members-add_failure :
    (s : FailureSignature) (id : String) (groups : Groups)
    → members (add_failure s id groups) ≡ suc (members groups)
unfolding add_failure
members-add_failure s id [] = refl
members-add_failure s id ((t, ids) ∷ rest) = elim (Bool-cases (same_signature t s)) [
  | inl e ↦ rw e (omega (arith, length-append ids (id ∷ [])))
  | inr e ↦ rw e (omega (arith, members-add_failure s id rest))
]

members_step :
    (passed : Bool) (s : FailureSignature) (id : String) (groups : Groups)
    → members (if passed then groups else add_failure s id groups)
      ≡ members groups + (if not passed then 1 else 0)
members_step true s id groups = omega arith
members_step false s id groups = omega (arith, members-add_failure s id groups)

members-group_failures :
    (groups : Groups) (rs : List CaseResult)
    → members (group_failures groups rs) ≡ members groups + count_if (λ r. not r.passed) rs
unfolding group_failures
members-group_failures groups [] = omega arith
members-group_failures groups (r ∷ rs) = omega (
  arith,
  members-group_failures
      (if r.passed then groups else add_failure (signature_for r) r.case_id groups) rs,
  members_step r.passed (signature_for r) r.case_id groups,
)

abbrev IsOccupied : FailureSignature × List String → Type 0
IsOccupied g = 0 < length g.1

IsOccupied-add_failure :
    (s : FailureSignature) (id : String) (groups : Groups)
    → All IsOccupied groups
    → All IsOccupied (add_failure s id groups)
unfolding add_failure
IsOccupied-add_failure s id [] a = (omega arith, tt)
IsOccupied-add_failure s id ((t, ids) ∷ rest) a = elim (Bool-cases (same_signature t s)) [
  | inl e ↦ rw e (omega (arith, length-append ids (id ∷ [])), a.1)
  | inr e ↦ rw e (a.0, IsOccupied-add_failure s id rest a.1)
]

step-IsOccupied :
    (passed : Bool) (s : FailureSignature) (id : String) (groups : Groups)
    → All IsOccupied groups
    → All IsOccupied (if passed then groups else add_failure s id groups)
step-IsOccupied true s id groups a = a
step-IsOccupied false s id groups a = IsOccupied-add_failure s id groups a

IsOccupied-group_failures :
    (groups : Groups) (rs : List CaseResult)
    → All IsOccupied groups
    → All IsOccupied (group_failures groups rs)
unfolding group_failures
IsOccupied-group_failures groups [] a = a
IsOccupied-group_failures groups (r ∷ rs) a =
    IsOccupied-group_failures
      (if r.passed then groups else add_failure (signature_for r) r.case_id groups) rs
      (step-IsOccupied r.passed (signature_for r) r.case_id groups a)

length-sum : (xs : List String) → sum_of (λ x. 1) xs ≡ length xs
length-sum [] = refl
length-sum (x ∷ xs) = omega (arith, length-sum xs)

size-cluster_of :
    (kinds : Dict String) (g : FailureSignature × List String)
    → size (cluster_of kinds g) ≡ length g.1
unfolding cluster_of
size-cluster_of kinds (s, ids) =
    sym (length-sum (sort str_leb ids)) ∙ sum-sort str_leb (λ x. 1) ids ∙ length-sum ids

occurrences-cluster_of :
    (name : String) (kinds : Dict String) (g : FailureSignature × List String)
    → count_if (str_eq name) (cluster_of kinds g).case_ids ≡ count_if (str_eq name) g.1
unfolding cluster_of
occurrences-cluster_of name kinds (s, ids) =
    count_sum (str_eq name) (sort str_leb ids)
    ∙ sum-sort str_leb (λ x. if str_eq name x then 1 else 0) ids
    ∙ sym (count_sum (str_eq name) ids)
  where
    count_sum :
        (p : String → Bool) (xs : List String)
        → count_if p xs ≡ sum_of (λ x. if p x then 1 else 0) xs
    count_sum p [] = refl
    count_sum p (x ∷ xs) = ground (arith, count_sum p xs)

occurrences-map :
    (name : String) (kinds : Dict String) (groups : Groups)
    → sum_of (λ c. count_if (str_eq name) c.case_ids) (map (cluster_of kinds) groups)
      ≡ occurrences name groups
occurrences-map name kinds [] = refl
occurrences-map name kinds (g ∷ groups) =
    omega (arith, occurrences-cluster_of name kinds g, occurrences-map name kinds groups)

sizes-map :
    (kinds : Dict String) (groups : Groups)
    → sum_of size (map (cluster_of kinds) groups) ≡ members groups
sizes-map kinds [] = refl
sizes-map kinds (g ∷ groups) = omega (arith, size-cluster_of kinds g, sizes-map kinds groups)

purity-IsUnit : (c : FailureCluster) → IsUnit (purity c)
unfolding purity
purity-IsUnit c = ground (arith, head-le c.bug_kinds)
  where
    head-le : (ks : List (String × ℕ)) → first_count ks ≤ sum_of (λ k. k.1) ks
    head-le [] = omega arith
    head-le (k ∷ ks) = omega arith

-- A cluster has a case, and its purity is a fraction between 0 and 1.
abbrev pub IsProper : FailureCluster → Type 0
IsProper c = (0 < size c) × IsUnit (purity c)

IsProper-map :
    (kinds : Dict String) (groups : Groups)
    → All IsOccupied groups
    → All IsProper (map (cluster_of kinds) groups)
IsProper-map kinds [] a = tt
IsProper-map kinds (g ∷ groups) a = (
  (rw (size-cluster_of kinds g) a.0, purity-IsUnit (cluster_of kinds g)),
  IsProper-map kinds groups a.1,
)

-- A case id is in the clusters as often as an attempt at that case did not pass, the sizes of the
-- clusters add up to the number of attempts that did not pass, no cluster is empty, and the purity
-- of each is a fraction between 0 and 1.
pub cluster_failures-covers :
    (run : RunResult) (kinds : Dict String)
    → (sum_of size (cluster_failures run kinds) ≡ count_if (λ r. not r.passed) run.case_results)
      × All IsProper (cluster_failures run kinds)
      × ((name : String)
          → sum_of (λ c. count_if (str_eq name) c.case_ids) (cluster_failures run kinds)
            ≡ count_if (λ r. not r.passed && str_eq name r.case_id) run.case_results)
unfolding cluster_failures
cluster_failures-covers run kinds =
    let groups = group_failures [] run.case_results in
    (
      sum-sort larger_first size (map (cluster_of kinds) groups)
          ∙ sizes-map kinds groups
          ∙ omega (arith, members-group_failures [] run.case_results),
      sort-All larger_first IsProper (map (cluster_of kinds) groups)
          (IsProper-map kinds groups (IsOccupied-group_failures [] run.case_results tt)),
      λ name.
          sum-sort larger_first (λ c. count_if (str_eq name) c.case_ids)
            (map (cluster_of kinds) groups)
          ∙ occurrences-map name kinds groups
          ∙ omega (arith, occurrences-group_failures name [] run.case_results),
    )
