-- ===== src/Orchestrator/Jobs/Coverage.antt =====
-- build_jobs of orchestrator/scheduler.py: which job stands where.
use evalstack.Prelude.{
  ℕ, zero, suc, ◌+◌, ◌*◌, ◌<◌, ◌≡◌, refl, ◌∙◌, some, List, [], ◌∷◌, ◌++◌, map, length, get_elem?,
  arith, length-append, length-map,
}
use evalstack.Prelude.Int.{pos}
use evalstack.Schema.Case.{EvalCase}
use evalstack.Orchestrator.Jobs.{Job, jobs_from, build_jobs}

get_elem?-append_left :
    {A : Type 0} (xs ys : List A) (i : ℕ) {a : A}
    → get_elem? xs i ≡ some a
    → get_elem? (xs ++ ys) i ≡ some a
get_elem?-append_left [] ys i h = absurd (ground arith)
get_elem?-append_left (x ∷ xs) ys zero h = h
get_elem?-append_left (x ∷ xs) ys (suc i) h = get_elem?-append_left xs ys i h

get_elem?-append_right :
    {A : Type 0} (xs ys : List A) (i j : ℕ)
    → j ≡ length xs + i
    → get_elem? (xs ++ ys) j ≡ get_elem? ys i
get_elem?-append_right [] ys i j e = let e' : j ≡ i = omega arith in rw e'
get_elem?-append_right (x ∷ xs) ys i zero e = absurd (omega arith)
get_elem?-append_right (x ∷ xs) ys i (suc j) e = get_elem?-append_right xs ys i j (omega arith)

get_elem?-map :
    {A B : Type 0} (f : A → B) (xs : List A) (i : ℕ) {a : A}
    → get_elem? xs i ≡ some a
    → get_elem? (map f xs) i ≡ some (f a)
get_elem?-map f [] i h = absurd (ground arith)
get_elem?-map f (x ∷ xs) zero h = ground arith
get_elem?-map f (x ∷ xs) (suc i) h = get_elem?-map f xs i h

length-jobs_from :
    (first n : ℕ) (cases : List EvalCase) → length (jobs_from first n cases) ≡ n * length cases
unfolding jobs_from
length-jobs_from first zero cases = omega arith
length-jobs_from first (suc n) cases =
    let f = λ (c : EvalCase). let j : Job = record { case = c; attempt = first } in j in
    omega (
      arith,
      length-append (map f cases) (jobs_from (first + 1) n cases),
      length-map cases f,
      length-jobs_from (first + 1) n cases,
    )

get-jobs_from :
    (first n s i k : ℕ) (cases : List EvalCase) (c : EvalCase)
    → s < n
    → get_elem? cases i ≡ some c
    → k ≡ s * length cases + i
    → get_elem? (jobs_from first n cases) k ≡ some (record { case = c; attempt = first + s })
unfolding jobs_from
get-jobs_from first zero s i k cases c lt h e = absurd (omega arith)
get-jobs_from first (suc n) zero i k cases c lt h e =
    let f = λ (c : EvalCase). let j : Job = record { case = c; attempt = first } in j in
    let k≡i : k ≡ i = omega arith in
    let same : first + 0 ≡ first = omega arith in
    rw (k≡i, same)
      (get_elem?-append_left (map f cases) (jobs_from (first + 1) n cases) i
        (get_elem?-map f cases i h))
get-jobs_from first (suc n) (suc s) i k cases c lt h e =
    let f = λ (c : EvalCase). let j : Job = record { case = c; attempt = first } in j in
    let same : first + suc s ≡ first + 1 + s = omega arith in
    rw same (
      get_elem?-append_right (map f cases) (jobs_from (first + 1) n cases) (s * length cases + i) k
        (omega (arith, length-map cases f))
      ∙ get-jobs_from (first + 1) n s i (s * length cases + i) cases c (omega arith) h refl)

-- With `samples` attempts per case, from 1 on, there are as many jobs as attempts times cases, and
-- attempt `s` of the case at place `i` is the job at place s * (number of cases) + i: all the cases
-- have had their attempt `s` before any has its attempt `s + 1`.
pub build_jobs-interleaves :
    (cases : List EvalCase) (samples s i : ℕ) (c : EvalCase)
    → s < samples
    → get_elem? cases i ≡ some c
    → (jobs : List Job) × (build_jobs cases (pos samples) ≡ some jobs)
      × (length jobs ≡ samples * length cases)
      × (get_elem? jobs (s * length cases + i) ≡ some (record { case = c; attempt = s }))
unfolding build_jobs
build_jobs-interleaves cases zero s i c h e = absurd (omega arith)
build_jobs-interleaves cases (suc n) s i c lt e = (
  jobs_from 0 (suc n) cases,
  refl,
  length-jobs_from 0 (suc n) cases,
  get-jobs_from 0 (suc n) s i (s * length cases + i) cases c lt e refl
      ∙ (let z : 0 + s ≡ s = omega arith in rw z),
)
