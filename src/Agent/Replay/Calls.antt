-- ===== src/Agent/Replay/Calls.antt =====
-- ReplayAgent of agent/replay.py: which calls are replayed, and which are skipped.
use evalstack.Prelude.{
  ℕ, ◌≡◌, refl, ap, ◌∙◌, sym, String, Bool, true, false, not, ◌&&◌, Option, none, some, List, [],
  ◌∷◌, ◌++◌, map, keep, if◌then◌else◌, Bool-cases, inl, inr,
}
use mathlib.Core.List.{append-nil, append_assoc}
use evalstack.Prelude.Effect.{Result, done, failed, pure, >>=-done, continue_with}
use evalstack.Model.{ToolInvocation}
use evalstack.Schema.Trajectory.{
  Event, Body, ToolCall, task_started, model_call, tool_call, tool_result, file_edit, command_run,
  safety_violation, submission, agent_error, of_type, as_tool_call,
}
use evalstack.Agent.Tools.{
  ToolContext, ToolBox, ToolOutcome, list_files, read_file, write_file, run_tests, submit,
}
use evalstack.Agent.Tools.Dispatch.{
  ToolName, lists, reads, writes, replaces, tests, submits, unknown, tool_name, render,
  string_argument, dispatch, invoke_parsed, invoke, invoke_read, invoke_write, or_empty,
}
use evalstack.Agent.Replay.{
  Replaying, argument, replay_as, replay_call, replay_event, replay_events, run, replay_read,
  replay_write,
}

abbrev is_given : Option String → Bool
is_given none = false
is_given (some s) = true

-- The call is one that a replay executes.
abbrev replays_as : ToolName → ToolCall → Bool
replays_as lists t = true
replays_as reads t = is_given (argument t "path")
replays_as writes t = is_given (argument t "path") && is_given (argument t "contents")
replays_as tests t = true
replays_as submits t = true
replays_as replaces t = false
replays_as unknown t = false

abbrev pub replays : ToolCall → Bool
replays t = replays_as (tool_name t.tool) t

-- A model that asks for the recorded call.
abbrev pub asked : ToolCall → ToolInvocation
asked t = record { id = t.call_id; name = t.tool; arguments = t.args; malformed_arguments = none }

abbrev pub calls_in : List (Event Body) → List ToolCall
calls_in events = map (λ e. e.body) (of_type as_tool_call events)

module _ {D : Type 0} (c : ToolContext D) where
  rendered-state :
      (x : ToolBox D × Result ToolOutcome)
      → (continue_with x (λ outcome. pure (render outcome))).0 ≡ x.0
  rendered-state (b, done o) = refl
  rendered-state (b, failed e) = refl

  -- The state after a call that is replayed, or skipped.
  abbrev pub after_call : ToolCall → Replaying D → Replaying D
  after_call t s =
      if replays t
      then record s { box = (invoke c (asked t) s.box).0 }
      else record s { skipped = s.skipped ++ t.tool ∷ [] }

  abbrev after_name : ToolName → ToolCall → Replaying D → Replaying D
  after_name name t s =
      if replays_as name t
      then record s { box = (dispatch c name (asked t) s.box).0 }
      else record s { skipped = s.skipped ++ t.tool ∷ [] }

  in_box : (s : Replaying D) {b d : ToolBox D} → b ≡ d → record s { box = d } ≡ record s { box = b }
  in_box s e = ap (λ x. record s { box = x }) (sym e)

  read-state :
      (tool : String) (path : Option String) (s : Replaying D)
      → (replay_read c tool path s).0 ≡ (
          if is_given path
          then record s { box = (invoke_read c path s.box).0 }
          else record s { skipped = s.skipped ++ tool ∷ [] })
  read-state tool none s = refl
  read-state tool (some path) s = in_box s (rendered-state (read_file c path s.box))

  write-state :
      (tool : String) (path contents : Option String) (s : Replaying D)
      → (replay_write c tool path contents s).0 ≡ (
          if is_given path && is_given contents
          then record s { box = (invoke_write c path contents s.box).0 }
          else record s { skipped = s.skipped ++ tool ∷ [] })
  write-state tool none contents s = refl
  write-state tool (some path) none s = refl
  write-state tool (some path) (some contents) s =
      in_box s (rendered-state (write_file c path contents s.box))

  replay_as-state :
      (name : ToolName) (t : ToolCall) (s : Replaying D)
      → (replay_as c name t s).0 ≡ after_name name t s
  unfolding replay_as dispatch argument string_argument
  replay_as-state lists t s = in_box s (rendered-state (list_files c s.box))
  replay_as-state reads t s = read-state t.tool (argument t "path") s
  replay_as-state writes t s = write-state t.tool (argument t "path") (argument t "contents") s
  replay_as-state tests t s = in_box s (rendered-state (run_tests c s.box))
  replay_as-state submits t s =
      in_box s (rendered-state (submit c (or_empty c (argument t "summary")) s.box))
  replay_as-state replaces t s = refl
  replay_as-state unknown t s = refl

  -- A recorded call of a tool other than `replace_text`, with the arguments that the tool needs,
  -- is executed as if a model asked for it: the workspace, the trace and the flags of the tools are
  -- those after that call, and nothing is skipped. Any other call changes nothing but the list of
  -- skipped calls, where its tool is added.
  pub replay_call-invoke : (t : ToolCall) (s : Replaying D) → (replay_call c t s).0 ≡ after_call t s
  unfolding replay_call invoke invoke_parsed
  replay_call-invoke t s = replay_as-state (tool_name t.tool) t s

  -- The tools of the recorded calls that are not replayed.
  abbrev pub left_out : List ToolCall → List String
  left_out ts = map (λ t. t.tool) (keep (λ t. not (replays t)) ts)

  after_call-skipped :
      (t : ToolCall) (s : Replaying D) → (after_call t s).skipped ≡ s.skipped ++ left_out (t ∷ [])
  after_call-skipped t s = elim (Bool-cases (replays t)) [
    | inl same ↦ rw same (sym (append-nil s.skipped))
    | inr other ↦ rw other refl
  ]

  event-skipped :
      (seq t_ms : ℕ) (b : Body) (s : Replaying D)
      → (replay_event c b s).0.skipped
        ≡ s.skipped ++ left_out (calls_in (record { seq = seq; t_ms = t_ms; body = b } ∷ []))
  unfolding replay_event of_type
  event-skipped seq t_ms (tool_call t) s =
      ap (λ x. x.skipped) (replay_call-invoke t s) ∙ after_call-skipped t s
  event-skipped seq t_ms (model_call x) s = sym (append-nil s.skipped)
  event-skipped seq t_ms (agent_error x) s = sym (append-nil s.skipped)
  event-skipped seq t_ms (task_started x) s = sym (append-nil s.skipped)
  event-skipped seq t_ms (tool_result x) s = sym (append-nil s.skipped)
  event-skipped seq t_ms (file_edit x) s = sym (append-nil s.skipped)
  event-skipped seq t_ms (command_run x) s = sym (append-nil s.skipped)
  event-skipped seq t_ms (safety_violation x) s = sym (append-nil s.skipped)
  event-skipped seq t_ms (submission x) s = sym (append-nil s.skipped)

  calls_in-cons :
      (e : Event Body) (es : List (Event Body))
      → calls_in (e ∷ es)
        ≡ calls_in (record { seq = e.seq; t_ms = e.t_ms; body = e.body } ∷ []) ++ calls_in es
  unfolding of_type
  calls_in-cons e es = cons-body e.body
    where
      cons-body :
          (b : Body)
          → calls_in (record { seq = e.seq; t_ms = e.t_ms; body = b } ∷ es)
            ≡ calls_in (record { seq = e.seq; t_ms = e.t_ms; body = b } ∷ []) ++ calls_in es
      cons-body (tool_call t) = refl
      cons-body (model_call x) = refl
      cons-body (agent_error x) = refl
      cons-body (task_started x) = refl
      cons-body (tool_result x) = refl
      cons-body (file_edit x) = refl
      cons-body (command_run x) = refl
      cons-body (safety_violation x) = refl
      cons-body (submission x) = refl

  left_out-append : (xs ys : List ToolCall) → left_out (xs ++ ys) ≡ left_out xs ++ left_out ys
  left_out-append [] ys = refl
  left_out-append (t ∷ xs) ys = elim (Bool-cases (replays t)) [
    | inl same ↦ rw same (left_out-append xs ys)
    | inr other ↦ rw other (ap (λ l. t.tool ∷ l) (left_out-append xs ys))
  ]

  events-skipped :
      (es : List (Event Body)) (s u : Replaying D)
      → replay_events c es s ≡ (u, done tt)
      → u.skipped ≡ s.skipped ++ left_out (calls_in es)
  unfolding replay_events of_type
  events-skipped [] s u h = ap (λ x. x.0.skipped) (sym h) ∙ sym (append-nil s.skipped)
  events-skipped (e ∷ es) s u h =
      let (v, unit, first, later) = >>=-done (replay_event c e.body) _ s h in
      let at_v : v.skipped
          ≡ s.skipped
            ++ left_out (calls_in (record { seq = e.seq; t_ms = e.t_ms; body = e.body } ∷ [])) =
        ap (λ x. x.0.skipped) (sym first) ∙ event-skipped e.seq e.t_ms e.body s in
      events-skipped es v u later
      ∙ ap (λ l. l ++ left_out (calls_in es)) at_v
      ∙ append_assoc s.skipped _ _
      ∙ ap (λ l. s.skipped ++ l)
          (sym (left_out-append _ (calls_in es)) ∙ ap left_out (sym (calls_in-cons e es)))

  -- If a replay returns, the calls it skipped are, in order, those of the trajectory that are of
  -- `replace_text` or of an unknown tool, and those that lack an argument.
  pub run-skipped :
      (prompt_hash : String) (es : List (Event Body)) (s u : Replaying D)
      → run c prompt_hash es s ≡ (u, done tt)
      → u.skipped ≡ s.skipped ++ left_out (calls_in es)
  unfolding run
  run-skipped prompt_hash es s u h = events-skipped es _ u h
