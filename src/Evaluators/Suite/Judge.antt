-- ===== src/Evaluators/Suite/Judge.antt =====
-- `with_judge` of evaluators/registry.py: a judge is measured and never decides.
use evalstack.Prelude.{
  ◌≡◌, refl, ap, inl, inr, String, true, false, not, ◌&&◌, ◌||◌, none, some, List, [], ◌∷◌, ◌++◌,
  any, all, keep, is_empty, str_eq, eq_iff, arith, Bool-cases,
}
use evalstack.Schema.Result.{EvaluatorResult}
use evalstack.Evaluators.Suite.{
  contains, by_name, Evaluator, EvaluatorSuite, names_of, suite_error, passed_at, missing_at,
  verdict, with_judge,
}

by_name-append :
    (name : String) (rs : List EvaluatorResult) (r : EvaluatorResult)
    → str_eq r.name name ≡ false
    → by_name name (rs ++ r ∷ []) ≡ by_name name rs
unfolding by_name
by_name-append name [] r h = ground arith
by_name-append name (s ∷ rs) r h = ground (arith, by_name-append name rs r h)

contains-gating :
    (n : String) (gating names : List String)
    → is_empty (keep (λ m. not (contains m names)) gating) ≡ true
    → contains n names ≡ false
    → contains n gating ≡ false
contains-gating n [] names h k = refl
contains-gating n (m ∷ gating) names h k = elim (Bool-cases (contains m names)) [
  | inl e ↦
      let later : contains n gating ≡ false = contains-gating n gating names (ground arith) k in
      ground (arith, eq_iff m n)
  | inr e ↦ absurd (ground arith)
]

module _ (rs : List EvaluatorResult) (r : EvaluatorResult) where
  any_missing-append :
      (gating : List String)
      → contains r.name gating ≡ false
      → any (missing_at (rs ++ r ∷ [])) gating ≡ any (missing_at rs) gating
  unfolding missing_at
  any_missing-append [] h = refl
  any_missing-append (n ∷ gating) h =
      let other : str_eq r.name n ≡ false = ground (arith, eq_iff n r.name, eq_iff r.name n) in
      let later = any_missing-append gating (ground arith) in
      rw (missing_at, by_name-append n rs r other) (ap (λ b. missing_at rs n || b) later)

  all_passed-append :
      (gating : List String)
      → contains r.name gating ≡ false
      → all (passed_at (rs ++ r ∷ [])) gating ≡ all (passed_at rs) gating
  unfolding passed_at
  all_passed-append [] h = refl
  all_passed-append (n ∷ gating) h =
      let other : str_eq r.name n ≡ false = ground (arith, eq_iff n r.name, eq_iff r.name n) in
      let later = all_passed-append gating (ground arith) in
      rw (passed_at, by_name-append n rs r other) (ap (λ b. passed_at rs n && b) later)

module _ {W : Type 0} where
  accepted :
      (suite judged : EvaluatorSuite W) (judge : Evaluator W)
      → suite_error suite ≡ none
      → with_judge suite judge ≡ some judged
      → (contains judge.name suite.gating ≡ false)
        × (judged.gating ≡ suite.gating)
        × (judged.evaluators ≡ suite.evaluators ++ judge ∷ [])
  unfolding with_judge suite_error
  accepted suite judged judge ok h =
      let names = names_of suite.evaluators in
      let fresh : contains judge.name names ≡ false = ground arith in
      let known : is_empty (keep (λ m. not (contains m names)) suite.gating) ≡ true =
        ground arith in
      (contains-gating judge.name suite.gating names known fresh, ground arith, ground arith)

  -- A judge that was added to an accepted suite changes no verdict: with its own result appended,
  -- the verdict of the new suite is that of the old one on the results it had.
  verdict-with_judge :
      (suite judged : EvaluatorSuite W) (judge : Evaluator W) (results : List EvaluatorResult)
      (r : EvaluatorResult)
      → suite_error suite ≡ none
      → with_judge suite judge ≡ some judged
      → r.name ≡ judge.name
      → verdict judged (results ++ r ∷ []) ≡ verdict suite results
  unfolding verdict
  verdict-with_judge suite judged judge results r ok h signed =
      let a = accepted suite judged judge ok h in
      let fresh : contains r.name suite.gating ≡ false = rw signed a.0 in
      rw a.1 (
        rw (any_missing-append results r suite.gating fresh)
          (rw (all_passed-append results r suite.gating fresh) refl))
