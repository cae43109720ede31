-- ===== src/Evaluators/Suite/Verdict.antt =====
-- The verdict of a suite in evaluators/base.py.
use evalstack.Prelude.{
  ◌≡◌, refl, ap, sym, Bool, ◌&&◌, ◌||◌, str_eq, eq_iff, inl, inr, String, true, false, not, none,
  some, List, [], ◌∷◌, any, all, keep, is_empty, arith, All, Bool-cases,
}
use evalstack.Evaluators.Suite.{
  has_duplicate, contains, by_name, Evaluator, EvaluatorSuite, names_of, suite_error, evaluate,
  passed_at, missing_at, verdict,
}
use evalstack.Schema.Result.{EvaluatorResult}

-- Every evaluator signs its result with its own name.
abbrev pub SignsResults : {W : Type 0} → List (Evaluator W) → Type 0
SignsResults {W = W} es = All (λ e. (w : W) → (e.evaluate w).1.name ≡ e.name) es

passed_at-later :
    (r : EvaluatorResult) (rs : List EvaluatorResult) (name : String)
    → str_eq r.name name ≡ false
    → passed_at (r ∷ rs) name ≡ passed_at rs name
unfolding passed_at by_name
passed_at-later r rs name h = ground arith

passed_at-first :
    (r : EvaluatorResult) (rs : List EvaluatorResult) (name : String)
    → str_eq r.name name ≡ true
    → by_name name rs ≡ none
    → passed_at (r ∷ rs) name ≡ r.passed
unfolding passed_at by_name
passed_at-first r rs name h e = ground (arith, h, e)

swapped : (c p q g : Bool) → ((not c || p) && (q && g)) ≡ (q && ((not c || p) && g))
swapped c p q g = ground arith

module _ {W : Type 0} where
  by_name-evaluate :
      (es : List (Evaluator W)) (w : W) (name : String)
      → SignsResults es
      → contains name (names_of es) ≡ true
      → missing_at (evaluate es w).1 name ≡ false
  unfolding evaluate by_name missing_at
  by_name-evaluate [] w name s h = absurd (ground arith)
  by_name-evaluate (e ∷ es) w name s h =
      ground (arith, by_name-evaluate es (e.evaluate w).0 name s.1, s.0 w)

  none-missing :
      (es : List (Evaluator W)) (w : W) (gating : List String)
      → SignsResults es
      → is_empty (keep (λ n. not (contains n (names_of es))) gating) ≡ true
      → any (missing_at (evaluate es w).1) gating ≡ false
  none-missing es w [] s h = refl
  none-missing es w (n ∷ ns) s h = elim (Bool-cases (contains n (names_of es))) [
    | inl e ↦
        let later : any (missing_at (evaluate es w).1) ns ≡ false =
          none-missing es w ns s (ground arith) in
        rw (by_name-evaluate es w n s e) later
    | inr e ↦ absurd (ground arith)
  ]

  -- Every evaluator whose name is gating passes, each in the state that those before it left.
  abbrev pub gates_pass : List String → List (Evaluator W) → W → Bool
  gates_pass gating [] w = true
  gates_pass gating (e ∷ es) w =
      (not (contains e.name gating) || (e.evaluate w).1.passed)
      && gates_pass gating es (e.evaluate w).0

  gates_pass-nil : (es : List (Evaluator W)) (w : W) → gates_pass [] es w ≡ true
  gates_pass-nil [] w = refl
  gates_pass-nil (e ∷ es) w = gates_pass-nil es (e.evaluate w).0

  gates_pass-absent :
      (n : String) (ns : List String) (es : List (Evaluator W)) (w : W)
      → contains n (names_of es) ≡ false
      → gates_pass (n ∷ ns) es w ≡ gates_pass ns es w
  gates_pass-absent n ns [] w h = refl
  gates_pass-absent n ns (e ∷ es) w h =
      ground (arith, gates_pass-absent n ns es (e.evaluate w).0, eq_iff n e.name, eq_iff e.name n)

  by_name-absent :
      (es : List (Evaluator W)) (w : W) (name : String)
      → SignsResults es
      → contains name (names_of es) ≡ false
      → by_name name (evaluate es w).1 ≡ none
  unfolding evaluate by_name
  by_name-absent [] w name s h = refl
  by_name-absent (e ∷ es) w name s h =
      let later : by_name name (evaluate es (e.evaluate w).0).1 ≡ none =
        by_name-absent es (e.evaluate w).0 name s.1 (ground arith) in
      rw (later, s.0 w) (ground arith)

  gates_pass-cons :
      (n : String) (ns : List String) (es : List (Evaluator W)) (w : W)
      → SignsResults es
      → has_duplicate (names_of es) ≡ false
      → contains n (names_of es) ≡ true
      → gates_pass (n ∷ ns) es w ≡ (passed_at (evaluate es w).1 n && gates_pass ns es w)
  unfolding evaluate
  gates_pass-cons n ns [] w s d h = absurd (ground arith)
  gates_pass-cons n ns (e ∷ es) w s d h =
      let r = (e.evaluate w).1 in
      let w' = (e.evaluate w).0 in
      let rs = (evaluate es w').1 in
      elim (Bool-cases (str_eq e.name n)) [
        | inl same ↦
            let absent : contains n (names_of es) ≡ false =
              ground (arith, d, same, eq_iff e.name n) in
            let found =
              passed_at-first r rs n (rw (s.0 w) same) (by_name-absent es w' n s.1 absent) in
            ground (arith, found, gates_pass-absent n ns es w' absent, same, eq_iff e.name n)
        | inr other ↦
            let later = passed_at-later r rs n (rw (s.0 w) other) in
            let known : contains n (names_of es) ≡ true = ground (arith, h, other) in
            let distinct : has_duplicate (names_of es) ≡ false = ground (arith, d) in
            let flipped : str_eq n e.name ≡ false =
              ground (arith, other, eq_iff e.name n, eq_iff n e.name) in
            rw (flipped, gates_pass-cons n ns es w' s.1 distinct known, later)
              (swapped (contains e.name ns) r.passed (passed_at rs n) (gates_pass ns es w'))
      ]

  all-gates_pass :
      (es : List (Evaluator W)) (w : W) (gating : List String)
      → SignsResults es
      → has_duplicate (names_of es) ≡ false
      → is_empty (keep (λ n. not (contains n (names_of es))) gating) ≡ true
      → all (passed_at (evaluate es w).1) gating ≡ gates_pass gating es w
  all-gates_pass es w [] s d h = sym (gates_pass-nil es w)
  all-gates_pass es w (n ∷ ns) s d h = elim (Bool-cases (contains n (names_of es))) [
    | inl e ↦
        let later = all-gates_pass es w ns s d (ground arith) in
        ground (arith, later, gates_pass-cons n ns es w s d e)
    | inr e ↦ absurd (ground arith)
  ]

  -- For a suite that its constructor accepts, whose evaluators sign their results, the verdict on
  -- the suite's own results is given, from any state of the workspace, and it is that every
  -- evaluator whose name is gating passed, each in the state that those before it left.
  pub verdict-evaluate :
      (suite : EvaluatorSuite W) (w : W)
      → suite_error suite ≡ none
      → SignsResults suite.evaluators
      → verdict suite (evaluate suite.evaluators w).1
        ≡ some (gates_pass suite.gating suite.evaluators w)
  unfolding verdict suite_error
  verdict-evaluate suite w ok s =
      let es = suite.evaluators in
      let known : is_empty (keep (λ n. not (contains n (names_of es))) suite.gating) ≡ true =
        ground arith in
      let distinct : has_duplicate (names_of es) ≡ false = ground arith in
      rw (none-missing es w suite.gating s known)
        (ap some (all-gates_pass es w suite.gating s distinct known))
