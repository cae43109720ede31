-- ===== src/Schema/Dataset/Subset.antt =====
-- `Dataset.subset` of schema/dataset.py: which cases a subset has.
use evalstack.Prelude.{
  ◌≡◌, ◌≢◌, ap, subst, String, Bool, true, none, some, List, [], ◌∷◌, keep, any, all, All, arith,
  eq_iff, str_eq, if◌then◌else◌, Bool-cases, inl, inr,
}
use evalstack.Schema.Case.{EvalCase}
use evalstack.Schema.Dataset.{Dataset, find_case, case_by_id, has_id, subset}

abbrev pub wanted : List String → String → Bool
wanted case_ids case_id = any (str_eq case_id) case_ids

find-keep :
    (case_ids : List String) (case_id : String) (cs : List EvalCase)
    → find_case case_id (keep (λ c. wanted case_ids c.case_id) cs)
      ≡ (if wanted case_ids case_id then find_case case_id cs else none)
unfolding find_case
find-keep case_ids case_id [] = ground arith
find-keep case_ids case_id (c ∷ cs) = elim (Bool-cases (str_eq c.case_id case_id)) [
  | inl same ↦
      let e : c.case_id ≡ case_id = (eq_iff c.case_id case_id).0 same in
      let w : wanted case_ids c.case_id ≡ wanted case_ids case_id = ap (wanted case_ids) e in
      ground (arith, find-keep case_ids case_id cs)
  | inr other ↦ ground (arith, find-keep case_ids case_id cs)
]

has_id-found :
    (case_id : String) (cs : List EvalCase) → has_id cs case_id ≡ true → find_case case_id cs ≢ none
unfolding find_case
has_id-found case_id [] h = absurd (ground arith)
has_id-found case_id (c ∷ cs) h = ground (arith, has_id-found case_id cs)

all-found :
    (cs : List EvalCase) (ids : List String)
    → all (has_id cs) ids ≡ true
    → All (λ case_id. find_case case_id cs ≢ none) ids
all-found cs [] h = tt
all-found cs (x ∷ ids) h = (has_id-found x cs (ground arith), all-found cs ids (ground arith))

module _ (d : Dataset) (case_ids : List String) where
  subset-parts :
      (e : Dataset)
      → subset d case_ids ≡ some e
      → (all (has_id d.cases) case_ids ≡ true)
        × (keep (λ c. wanted case_ids c.case_id) d.cases ≡ e.cases)
  unfolding subset
  subset-parts e h = ground arith

  -- A subset that is returned has exactly the wanted cases, each found under its id as before, and
  -- there is a case for every wanted id.
  subset-finds :
      (e : Dataset)
      → subset d case_ids ≡ some e
      → ((case_id : String)
          → case_by_id e case_id ≡ (if wanted case_ids case_id then case_by_id d case_id else none))
        × All (λ case_id. case_by_id d case_id ≢ none) case_ids
  unfolding case_by_id
  subset-finds e h =
      let (known, cases) = subset-parts e h in
      (
        λ case_id.
            subst
              (λ cs.
                find_case case_id cs
                ≡ (if wanted case_ids case_id then find_case case_id d.cases else none))
              cases (find-keep case_ids case_id d.cases),
        all-found d.cases case_ids known,
      )
