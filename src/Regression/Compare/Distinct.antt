-- ===== src/Regression/Compare/Distinct.antt =====
-- The shared cases in regression/compare.py are listed once each, as the keys of a dictionary.
use evalstack.Prelude.{
  ℕ, ◌+◌, ◌≤◌, ◌≡◌, refl, String, Bool, ◌&&◌, List, [], ◌∷◌, map, keep, arith, eq_iff, str_eq,
  if◌then◌else◌, ◌==◌, count_if, Bool-cases, inl, inr,
}
use evalstack.Prelude.Dict.{Dict, update, sort_keys}
use evalstack.Prelude.Sort.{sort, insert_sorted, str_leb}
use evalstack.Prelude.Ratio.{Ratio}
use evalstack.Schema.Result.{
  RunResult, CaseResult, CaseTally, count_results, completed_results, tallies, tally_one, no_tally,
  rate,
}
use evalstack.Regression.Compare.{case_rates, has_key, shared_keys}

module _ {ℓ} {A : Type ℓ} (le : A → A → Bool) (p : A → Bool) where
  count-insert_sorted :
      (x : A) (xs : List A) → count_if p (insert_sorted le x xs) ≡ count_if p (x ∷ xs)
  unfolding insert_sorted
  count-insert_sorted x [] = refl
  count-insert_sorted x (y ∷ ys) = elim (Bool-cases (le x y)) [
    | inl e ↦ rw e refl
    | inr e ↦ rw e (omega (arith, count-insert_sorted x ys))
  ]

  count-sort : (xs : List A) → count_if p (sort le xs) ≡ count_if p xs
  unfolding sort
  count-sort [] = refl
  count-sort (x ∷ xs) = omega (arith, count-insert_sorted x (sort le xs), count-sort xs)

-- How often a key is in a dictionary.
abbrev occurs : {V : Type 0} → String → Dict V → ℕ
occurs id d = count_if (λ e. str_eq id e.0) d

occurs-update :
    (id key : String) (v : CaseTally) (f : CaseTally → CaseTally) (m : Dict CaseTally)
    → occurs id (update key v f m)
      ≡ occurs id m + (if str_eq id key && occurs id m == 0 then 1 else 0)
unfolding update
occurs-update id key v f [] = ground arith
occurs-update id key v f ((k, w) ∷ rest) =
    ground (arith, occurs-update id key v f rest, eq_iff id k, eq_iff id key, eq_iff k key)

occurs-count_results :
    (id : String) (m : Dict CaseTally) (rs : List CaseResult)
    → occurs id m ≤ 1
    → occurs id (count_results m rs) ≤ 1
unfolding count_results
occurs-count_results id m [] h = h
occurs-count_results id m (r ∷ rs) h =
    let m' = update r.case_id no_tally (tally_one r.passed) m in
    let once : occurs id m' ≤ 1 =
      ground (arith, occurs-update id r.case_id no_tally (tally_one r.passed) m) in
    occurs-count_results id m' rs once

occurs-tallies : (run : RunResult) (id : String) → occurs id (tallies run) ≤ 1
unfolding tallies sort_keys
occurs-tallies run id =
    let counted = count_results [] (completed_results run) in
    omega (
      arith,
      count-sort (λ a b. str_leb a.0 b.0) (λ (e : String × CaseTally). str_eq id e.0) counted,
      occurs-count_results id [] (completed_results run) (omega arith),
    )

count-keys :
    (id : String) (d : Dict CaseTally)
    → count_if
        (str_eq id)
        (map (λ (e : String × Ratio). e.0) (map (λ (e : String × CaseTally). (e.0, rate e.1)) d))
      ≡ occurs id d
count-keys id [] = refl
count-keys id ((k, t) ∷ d) = omega (arith, count-keys id d)

count-keep-le : (p q : String → Bool) (xs : List String) → count_if p (keep q xs) ≤ count_if p xs
count-keep-le p q [] = omega arith
count-keep-le p q (x ∷ xs) = ground (arith, count-keep-le p q xs)

pub count-shared_keys :
    (before after : RunResult) (id : String)
    → count_if (str_eq id) (shared_keys (case_rates before) (case_rates after)) ≤ 1
unfolding shared_keys case_rates
count-shared_keys before after id =
    let keys = map (λ e. e.0) (case_rates before) in
    omega (
      arith,
      count-sort str_leb (str_eq id) (keep (has_key (case_rates after)) keys),
      count-keep-le (str_eq id) (has_key (case_rates after)) keys,
      count-keys id (tallies before),
      occurs-tallies before id,
    )
