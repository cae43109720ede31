-- ===== src/Evaluators/Behaviour/Laws.antt =====
-- The behavioural signals and the score of evaluators/trajectory.py.
use evalstack.Prelude.{
  ℕ, suc, ◌+◌, ◌-◌, ◌≤◌, ◌≡◌, refl, String, Bool, true, false, not, ◌&&◌, ◌||◌, Option, none, some,
  List, [], ◌∷◌, length, count_if, sum_of, any, map, if◌then◌else◌, str_eq, arith, All, Bool-cases,
  inl, inr, sym, subst,
}
use evalstack.Prelude.Dict.{Dict, update}
use evalstack.Schema.Trajectory.{
  Event, Trajectory, ToolCall, ToolResult, FileEdit, of_type, as_tool_call, as_tool_result,
  as_file_edit,
}
use evalstack.Evaluators.Behaviour.{
  read_path, count_path, count_reads, edit_between, test_result, test_results, extract_signals,
  contains, edited_paths,
}

-- Whether an option has a value.
abbrev pub is_some : Option String → Bool
is_some none = false
is_some (some p) = true

abbrev Counted : Dict ℕ → Type 0
Counted d = All (λ e. 1 ≤ e.1) d

abbrev total_reads : Dict ℕ → ℕ
total_reads d = sum_of (λ e. e.1) d

update-total :
    (path : String) (d : Dict ℕ)
    → Counted d
    → Counted (update path 0 suc d) × (total_reads (update path 0 suc d) ≡ suc (total_reads d))
unfolding update
update-total path [] c = ((omega arith, tt), refl)
update-total path ((k, n) ∷ d) c = elim (Bool-cases (str_eq k path)) [
  | inl e ↦ rw e ((omega arith, c.1), omega arith)
  | inr e ↦ let t = update-total path d c.1 in rw e ((c.0, t.0), omega (arith, t.1))
]

count_path-total :
    (o : Option String) (d : Dict ℕ)
    → Counted d
    → Counted (count_path o d)
      × (total_reads (count_path o d) ≡ total_reads d + (if is_some o then 1 else 0))
count_path-total none d c = (c, omega arith)
count_path-total (some path) d c = let t = update-total path d c in (t.0, omega (arith, t.1))

count_reads-total :
    (d : Dict ℕ) (cs : List (Event ToolCall))
    → Counted d
    → Counted (count_reads d cs)
      × (total_reads (count_reads d cs)
          ≡ total_reads d + count_if (λ c. is_some (read_path c.body)) cs)
unfolding count_reads
count_reads-total d [] c = (c, omega arith)
count_reads-total d (x ∷ cs) c =
    let one = count_path-total (read_path x.body) d c in
    let rest = count_reads-total (count_path (read_path x.body) d) cs one.0 in
    (rest.0, omega (arith, rest.1, one.1))

extra-total : (d : Dict ℕ) → Counted d → sum_of (λ e. e.1 - 1) d + length d ≡ total_reads d
extra-total [] c = refl
extra-total ((k, n) ∷ d) c = omega (arith, extra-total d c.1, c.0)

-- Every call of `read_file` with a path is either the first one of its file or redundant, and no
-- more edited files are blind than there are edited files.
extract_signals-reads :
    (t : Trajectory)
    → ((extract_signals t).redundant_reads + (extract_signals t).files_read
        ≡ count_if (λ c. is_some (read_path c.body)) (of_type as_tool_call t.events))
      × ((extract_signals t).blind_edits ≤ (extract_signals t).files_edited)
unfolding extract_signals
extract_signals-reads t =
    let d = count_reads [] (of_type as_tool_call t.events) in
    let c = count_reads-total [] (of_type as_tool_call t.events) tt in
    (
      omega (arith, extra-total d c.0, c.1),
      count_if-le (λ p. not (contains p (map (λ e. e.0) d)))
          (edited_paths [] (of_type as_file_edit t.events)),
    )
  where
    count_if-le : (p : String → Bool) (xs : List String) → count_if p xs ≤ length xs
    count_if-le p [] = omega arith
    count_if-le p (x ∷ xs) = ground (arith, count_if-le p xs)

-- Loop invariant of the recovery test, over the results of the whole trace.
module _ (edits : List (Event FileEdit)) (trace : List (Event ToolResult)) where
  abbrev is_red : Event ToolResult → Bool
  is_red r = str_eq r.body.tool "run_tests" && not r.body.ok

  abbrev is_green : Event ToolResult → Bool
  is_green r = str_eq r.body.tool "run_tests" && r.body.ok

  -- Some red run of the tests, some green one, and an edit between them.
  abbrev pub has_recovery : Bool
  has_recovery =
      any
        (λ red.
          is_red red && any (λ green. is_green green && edit_between red.seq green.seq edits) trace)
        trace

  abbrev Comes : Event ToolResult → Type 0
  Comes r = (P : Event ToolResult → Bool) → P r ≡ true → any P trace ≡ true

  abbrev IsRecorded : Option ℕ → Type 0
  IsRecorded none = Unit
  IsRecorded (some at) = (r : Event ToolResult) × (r.seq ≡ at) × (is_red r ≡ true) × Comes r

  abbrev Sound : Option ℕ × Bool → Type 0
  Sound (failed, recovered) = IsRecorded failed × (recovered ≡ true → has_recovery ≡ true)

  abbrev green_of : Event ToolResult → Option ℕ → Bool → Option ℕ × Bool
  green_of r none recovered = (none, recovered)
  green_of r (some at) recovered = (some at, edit_between at r.seq edits)

  red_step :
      (r : Event ToolResult) (failed : Option ℕ) (recovered : Bool)
      → str_eq r.body.tool "run_tests" ≡ true
      → r.body.ok ≡ false
      → test_result edits r (failed, recovered) ≡ (some r.seq, recovered)
  unfolding test_result
  red_step r failed recovered t red = ground arith

  green_step :
      (r : Event ToolResult) (failed : Option ℕ) (recovered : Bool)
      → str_eq r.body.tool "run_tests" ≡ true
      → r.body.ok ≡ true
      → test_result edits r (failed, recovered) ≡ green_of r failed recovered
  unfolding test_result
  green_step r none recovered t ok = ground arith
  green_step r (some at) recovered t ok = ground arith

  recovers :
      (red green : Event ToolResult)
      → is_red red ≡ true
      → Comes red
      → is_green green ≡ true
      → Comes green
      → edit_between red.seq green.seq edits ≡ true
      → has_recovery ≡ true
  recovers red green r cr g cg h =
      let after : any (λ x. is_green x && edit_between red.seq x.seq edits) trace ≡ true =
        cg (λ x. is_green x && edit_between red.seq x.seq edits) (rw g h) in
      cr (λ x. is_red x && any (λ y. is_green y && edit_between x.seq y.seq edits) trace)
        (rw r after)

  test_result-Sound :
      (r : Event ToolResult) (s : Option ℕ × Bool)
      → Comes r
      → Sound s
      → Sound (test_result edits r s)
  unfolding test_result
  test_result-Sound r (failed, recovered) m k = elim (Bool-cases (str_eq r.body.tool "run_tests")) [
    | inr other ↦ rw other k
    | inl t ↦ elim (Bool-cases r.body.ok) [
      | inr red ↦
          let is : is_red r ≡ true = ground arith in
          subst (λ x. Sound x) (sym (red_step r failed recovered t red)) ((r, refl, is, m), k.1)
      | inl ok ↦
          let is : is_green r ≡ true = ground arith in
          subst (λ x. Sound x) (sym (green_step r failed recovered t ok))
            (elim failed as (λ f. Sound (f, recovered) → Sound (green_of r f recovered)) [
              | none ↦ λ q. q
              | some at ↦ λ q. (q.0, λ h. recovers q.0.0 r q.0.2 q.0.3 is m (rw q.0.1 h))
            ]
              k)
    ]
  ]

  test_results-Sound :
      (s : Option ℕ × Bool) (rs : List (Event ToolResult))
      → All Comes rs
      → Sound s
      → Sound (test_results edits s rs)
  unfolding test_results
  test_results-Sound s [] m k = k
  test_results-Sound s (r ∷ rs) m k =
      test_results-Sound (test_result edits r s) rs m.1 (test_result-Sound r s m.0 k)

all_come :
    (trace rs : List (Event ToolResult))
    → ((P : Event ToolResult → Bool) → any P rs ≡ true → any P trace ≡ true)
    → All (λ r. (P : Event ToolResult → Bool) → P r ≡ true → any P trace ≡ true) rs
all_come trace [] h = tt
all_come trace (r ∷ rs) h =
    (λ P e. h P (rw e refl), all_come trace rs (λ P e. h P (or_right (P r) (any P rs) e)))
  where
    or_right : (a b : Bool) → b ≡ true → (a || b) ≡ true
    or_right a b e = ground arith

-- Credit for recovery is given only to a trace that has a red run of the tests, a green one, and an
-- edit between the two.
recovered-has_recovery :
    (t : Trajectory)
    → (extract_signals t).recovered_after_failure ≡ true
    → has_recovery (of_type as_file_edit t.events) (of_type as_tool_result t.events) ≡ true
unfolding extract_signals
recovered-has_recovery t h =
    let edits = of_type as_file_edit t.events in
    let rs = of_type as_tool_result t.events in
    (test_results-Sound edits rs (none, false) rs (all_come rs rs (λ P e. e))
        (tt, λ e. absurd (ground arith))).1
      h
