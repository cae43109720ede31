-- ===== src/Schema/Result/Tallies.antt =====
-- RunResult.tallies and the rates of schema/result.py, against plain counting.
use evalstack.Prelude.{
  ℕ, zero, suc, ◌+◌, ◌≤◌, ◌≡◌, refl, String, Bool, false, Option, none, some, List, [], ◌∷◌, ◌++◌,
  count_if, keep, str_eq, eq_iff, ◌&&◌, ◌∙◌, ap, sym, if◌then◌else◌, arith, keep-append, Bool-cases,
  inl, inr,
}
use evalstack.Prelude.Dict.{Dict, get, update, or_default, get-update, get-sort_keys}
use evalstack.Schema.Result.{
  is_completed, CaseResult, CaseTally, no_tally, tally_one, RunResult, completed_results,
  success_rate, mean_duration_s, count_results, tallies,
}

-- Completed attempts at the case, and those of them that passed.
abbrev pub attempts_at : String → List CaseResult → ℕ
attempts_at id = count_if (λ r. is_completed r.status && str_eq r.case_id id)

abbrev pub passes_at : String → List CaseResult → ℕ
passes_at id = count_if (λ r. is_completed r.status && str_eq r.case_id id && r.passed)

abbrev pub grown : Option CaseTally → ℕ → ℕ → Option CaseTally
grown o passes zero = o
grown o passes (suc n) = some (record {
  passed = (or_default no_tally o).passed + passes;
  total = (or_default no_tally o).total + suc n;
})

pub passes_at-le : (id : String) (rs : List CaseResult) → passes_at id rs ≤ attempts_at id rs
passes_at-le id [] = omega arith
passes_at-le id (r ∷ rs) = ground (arith, passes_at-le id rs)

tally_step :
    (passed same : Bool) (o : Option CaseTally) (p n : ℕ)
    → p ≤ n
    → grown (if same then some (tally_one passed (or_default no_tally o)) else o) p n
      ≡ grown o ((if same && passed then 1 else 0) + p) ((if same then 1 else 0) + n)
tally_step passed same o p n h = ground arith

get-tally_one :
    (k id : String) (passed : Bool) (m : Dict CaseTally)
    → get id (update k no_tally (tally_one passed) m)
      ≡ (if str_eq k id then some (tally_one passed (or_default no_tally (get id m))) else get id m)
get-tally_one k id passed m = elim (Bool-cases (str_eq k id)) [
  | inl e ↦
      get-update k no_tally (tally_one passed) id m
      ∙ rw e (ap (λ x. some (tally_one passed (or_default no_tally (get x m)))) ((eq_iff k id).0 e))
  | inr e ↦ get-update k no_tally (tally_one passed) id m ∙ rw e
]

get-count_results :
    (id : String) (m : Dict CaseTally) (rs : List CaseResult)
    → get id (count_results m (keep (λ r. is_completed r.status) rs))
      ≡ grown (get id m) (passes_at id rs) (attempts_at id rs)
unfolding count_results
get-count_results id m [] = refl
get-count_results id m (r ∷ rs) =
    let m' = update r.case_id no_tally (tally_one r.passed) m in
    ground (
      arith,
      get-count_results id m' rs,
      get-count_results id m rs,
      get-tally_one r.case_id id r.passed m,
      tally_step r.passed (str_eq r.case_id id) (get id m) (passes_at id rs) (attempts_at id rs),
      passes_at-le id rs,
    )

-- The tally of a case counts its completed attempts and those of them that passed; a case with no
-- completed attempt has no entry.
pub get-tallies :
    (run : RunResult) (id : String)
    → get id (tallies run)
      ≡ grown none (passes_at id run.case_results) (attempts_at id run.case_results)
unfolding tallies completed_results get
get-tallies run id =
    get-sort_keys id (count_results [] (keep (λ r. is_completed r.status) run.case_results))
    ∙ get-count_results id [] run.case_results

-- A result that did not complete changes no rate: neither the success rate, nor the mean duration,
-- nor any tally depends on it.
not_completed_ignored :
    (run : RunResult) (r : CaseResult) (before after : List CaseResult)
    → is_completed r.status ≡ false
    → let with_it = record run { case_results = before ++ r ∷ after } in
      let without = record run { case_results = before ++ after } in
      (success_rate with_it ≡ success_rate without)
      × (mean_duration_s with_it ≡ mean_duration_s without)
      × (tallies with_it ≡ tallies without)
unfolding success_rate mean_duration_s tallies completed_results
not_completed_ignored run r before after h =
    let same : keep (λ (x : CaseResult). is_completed x.status) (before ++ r ∷ after)
        ≡ keep (λ (x : CaseResult). is_completed x.status) (before ++ after) =
      keep-append (λ (x : CaseResult). is_completed x.status) before (r ∷ after)
      ∙ rw h (sym (keep-append (λ (x : CaseResult). is_completed x.status) before after)) in
    (rw same, rw same, rw same)
