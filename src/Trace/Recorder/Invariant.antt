-- ===== src/Trace/Recorder/Invariant.antt =====
-- TrajectoryRecorder of trace.py: what holds of every trajectory that its methods build.
use evalstack.Prelude.{
  ℕ, zero, suc, ◌+◌, ◌≤◌, ◌<◌, ◌≡◌, refl, String, Option, none, some, List, [], ◌∷◌, ◌++◌, length,
  All, All-append, arith, ap, ◌∙◌, map,
}
use evalstack.Prelude.Text.{len}
use evalstack.Json.{Fields}
use mathlib.Core.List.{map-append, append-nil}
use native.Mathlib.Numerals.{add-one}
use evalstack.Schema.Trajectory.{
  Body, tool_call, tool_result, file_edit, command_run, submission, agent_error, Event, of_type,
  as_tool_call,
}
use evalstack.Trace.Truncate.{truncate}
use evalstack.Trace.Truncate.Bounds.{Truncated, truncate-Truncated}
use evalstack.Trace.Recorder.{
  TrajectoryRecorder, new_recorder, append, call_id, record_task_started, record_model_call,
  record_tool_call, record_tool_result, record_file_edit, record_command_run,
  record_safety_violation, record_submission, record_agent_error, Call, starts, calls_model,
  calls_tool, gets_result, edits, runs, violates, submits, errs, perform, perform_all,
}

-- The texts that the recorder cuts are within the limit. Not cut are the arguments of a tool call, the
-- error of a tool result and the path that a violation attempted.
abbrev pub Bounded : ℕ → Body → Type 0
Bounded limit (tool_result r) = len r.output ≤ limit
Bounded limit (file_edit e) = len e.diff ≤ limit
Bounded limit (command_run c) = (len c.stdout_tail ≤ limit) × (len c.stderr_tail ≤ limit)
Bounded limit (submission s) = len s.summary ≤ limit
Bounded limit (agent_error e) = len e.message ≤ limit
Bounded limit _ = Unit

-- The events are numbered from `k` on without a gap.
abbrev pub IsNumbered : ℕ → List (Event Body) → Type 0
IsNumbered k [] = Unit
IsNumbered k (e ∷ es) = (e.seq ≡ k) × IsNumbered (suc k) es

-- The ids of the tool calls, in order.
abbrev pub call_ids : List (Event Body) → List String
call_ids es = map (λ e. e.body.call_id) (of_type as_tool_call es)

-- "call-1", ..., "call-n"
abbrev pub ids_to : ℕ → List String
ids_to zero = []
ids_to (suc n) = ids_to n ++ call_id (suc n) ∷ []

pub record IsSound (now : ℕ) (r : TrajectoryRecorder) : Type 0 where
  pub numbered : IsNumbered 0 r.events
  pub bounded : All (λ e. Bounded r.max_output_chars e.body) r.events
  pub past : All (λ e. e.t_ms ≤ now) r.events
  pub ids : call_ids r.events ≡ ids_to r.call_counter

IsNumbered-snoc :
    (k t : ℕ) (b : Body) (es : List (Event Body)) (n : ℕ)
    → n ≡ k + length es
    → IsNumbered k es
    → IsNumbered k (es ++ record { seq = n; t_ms = t; body = b } ∷ [])
IsNumbered-snoc k t b [] n e h = (omega arith, tt)
IsNumbered-snoc k t b (x ∷ es) n e h = (h.0, IsNumbered-snoc (suc k) t b es n (omega arith) h.1)

later :
    (now t : ℕ) (es : List (Event Body))
    → now ≤ t
    → All (λ e. e.t_ms ≤ now) es
    → All (λ e. e.t_ms ≤ t) es
later now t [] le h = tt
later now t (e ∷ es) le h = (omega arith, later now t es le h.1)

of_type-append :
    {A : Type 0} (f : Body → Option A) (xs ys : List (Event Body))
    → of_type f (xs ++ ys) ≡ of_type f xs ++ of_type f ys
unfolding of_type
of_type-append f [] ys = refl
of_type-append f (x ∷ xs) ys = ground (arith, of_type-append f xs ys)

call_ids-append : (xs ys : List (Event Body)) → call_ids (xs ++ ys) ≡ call_ids xs ++ call_ids ys
call_ids-append xs ys =
    ap (map (λ e. e.body.call_id)) (of_type-append as_tool_call xs ys)
    ∙ map-append (λ e. e.body.call_id) (of_type as_tool_call xs) (of_type as_tool_call ys)

module _ (r : TrajectoryRecorder) (now t : ℕ) (s : IsSound now r) (le : now ≤ t) where
  append-IsSound :
      (b : Body) → as_tool_call b ≡ none → Bounded r.max_output_chars b → IsSound t (append r t b)
  unfolding append of_type
  append-IsSound b other fits =
      let new : List (Event Body) = record { seq = length r.events; t_ms = t; body = b } ∷ [] in
      record {
        numbered = IsNumbered-snoc 0 t b r.events (length r.events) (omega arith) s.numbered;
        bounded =
            All-append (λ e. Bounded r.max_output_chars e.body) r.events new s.bounded (fits, tt);
        past =
            All-append (λ e. e.t_ms ≤ t) r.events new (later now t r.events le s.past)
              (omega arith, tt);
        ids = call_ids-append r.events new ∙ rw other (append-nil (call_ids r.events) ∙ s.ids);
      }

  tool_call-IsSound : (tool : String) (args : Fields) → IsSound t (record_tool_call r t tool args).0
  unfolding record_tool_call of_type
  tool_call-IsSound tool args =
      let id = call_id (r.call_counter + 1) in
      let b = tool_call (record { call_id = id; tool = tool; args = args }) in
      let new : List (Event Body) = record { seq = length r.events; t_ms = t; body = b } ∷ [] in
      record {
        numbered = IsNumbered-snoc 0 t b r.events (length r.events) (omega arith) s.numbered;
        bounded =
            All-append (λ e. Bounded r.max_output_chars e.body) r.events new s.bounded (tt, tt);
        past =
            All-append (λ e. e.t_ms ≤ t) r.events new (later now t r.events le s.past)
              (omega arith, tt);
        ids = call_ids-append r.events new ∙ ap (λ l. l ++ id ∷ []) s.ids ∙ rw add-one;
      }

-- The call returned, with a sound recorder of the same limit.
abbrev pub Goes : TrajectoryRecorder → ℕ → Option TrajectoryRecorder → Type 0
Goes r t o =
    (r' : TrajectoryRecorder) × (o ≡ some r')
    × IsSound t r'
    × (r'.max_output_chars ≡ r.max_output_chars)

module _ (r : TrajectoryRecorder) (now t : ℕ) (s : IsSound now r) (le : now ≤ t)
    (room : 0 < r.max_output_chars) where
  abbrev shortened :
      (text : String)
      → (x : String) × (truncate text r.max_output_chars ≡ some x)
        × Truncated text r.max_output_chars x
  shortened text = truncate-Truncated text r.max_output_chars room

  perform-Goes : (c : Call) → Goes r t (perform c t r)
  unfolding perform record_task_started record_model_call record_tool_result record_file_edit
      record_command_run record_safety_violation record_submission record_agent_error
  perform-Goes (starts h) = (_, refl, append-IsSound r now t s le _ refl tt, refl)
  perform-Goes (calls_model c) = (_, refl, append-IsSound r now t s le _ refl tt, refl)
  perform-Goes (calls_tool tool args) =
      (_, refl, tool_call-IsSound r now t s le tool args, unfold record_tool_call in refl)
  perform-Goes (gets_result x) =
      let (o, e, f) = shortened x.output in
      (
        append r t (tool_result (record x { output = o })),
        rw e,
        append-IsSound r now t s le _ refl f.fits,
        refl,
      )
  perform-Goes (edits x) =
      let (o, e, f) = shortened x.diff in
      (
        append r t (file_edit (record x { diff = o })),
        rw e,
        append-IsSound r now t s le _ refl f.fits,
        refl,
      )
  perform-Goes (runs x) =
      let (o, e, f) = shortened x.stdout_tail in
      let (o', e', f') = shortened x.stderr_tail in
      (
        append r t (command_run (record x { stdout_tail = o; stderr_tail = o' })),
        rw (e, e'),
        append-IsSound r now t s le _ refl (f.fits, f'.fits),
        refl,
      )
  perform-Goes (violates v) = (_, refl, append-IsSound r now t s le _ refl tt, refl)
  perform-Goes (submits x) =
      let (o, e, f) = shortened x in
      (
        append r t (submission (record { summary = o })),
        rw e,
        append-IsSound r now t s le _ refl f.fits,
        refl,
      )
  perform-Goes (errs k x) =
      let (o, e, f) = shortened x in
      (
        append r t (agent_error (record { error_type = k; message = o })),
        rw e,
        append-IsSound r now t s le _ refl f.fits,
        refl,
      )

-- The clock never goes back.
abbrev pub IsMonotone : ℕ → List (ℕ × Call) → Type 0
IsMonotone now [] = Unit
IsMonotone now ((t, c) ∷ rest) = (now ≤ t) × IsMonotone t rest

abbrev pub last_reading : ℕ → List (ℕ × Call) → ℕ
last_reading now [] = now
last_reading now ((t, c) ∷ rest) = last_reading t rest

perform_all-Goes :
    (calls : List (ℕ × Call)) (r : TrajectoryRecorder) (now : ℕ)
    → IsSound now r
    → 0 < r.max_output_chars
    → IsMonotone now calls
    → Goes r (last_reading now calls) (perform_all calls r)
unfolding perform_all
perform_all-Goes [] r now s room m = (r, refl, s, refl)
perform_all-Goes ((t, c) ∷ rest) r now s room m =
    let (r', e, s', same) = perform-Goes r now t s m.0 room c in
    let (r'', e', s'', same') = perform_all-Goes rest r' t s' (rw same room) m.1 in
    (r'', rw e e', s'', same' ∙ same)

-- With a positive limit on texts and a clock that never goes back, no sequence of recording calls
-- raises, and the trajectory has its events numbered 0, 1, 2, ... without a gap, the ids of its tool
-- calls are call-1, call-2, ... in order, the outputs of tools, the diffs of edits, the two tails of
-- commands, the summaries of submissions and the messages of errors are within the limit, and no
-- event is later than the last clock reading.
pub recording-IsSound :
    (run_id case_id : String) (attempt limit : ℕ) (calls : List (ℕ × Call))
    → 0 < limit
    → IsMonotone 0 calls
    → Goes
        (new_recorder run_id case_id attempt limit)
        (last_reading 0 calls)
        (perform_all calls (new_recorder run_id case_id attempt limit))
unfolding of_type
recording-IsSound run_id case_id attempt limit calls room m =
    perform_all-Goes calls (new_recorder run_id case_id attempt limit) 0
      (record { numbered = tt; bounded = tt; past = tt; ids = refl }) room m
