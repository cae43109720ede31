-- ===== src/Agent/Loop/Endings.antt =====
-- How ModelAgent.run of agent/model_agent.py ends: within its steps, with a submission or a recorded
-- error, with an infrastructure error only for an outage of the model, or with an exception of a tool,
-- of the recorder or of the model client.
use evalstack.Prelude.{
  ℕ, zero, suc, ◌+◌, ◌≤◌, ◌≡◌, refl, ◌⊎◌, inl, inr, String, Bool, true, false, not, ◌&&◌, none,
  List, [], ◌∷◌, ◌++◌, arith, is_empty, Bool-cases, Option-cases,
}
use evalstack.Prelude.Effect.{Fault, Result, done, failed, continue_with}
use evalstack.Model.{
  ModelRequest, Reply, answered, raised, threw, ModelError, transient, permanent, quota_exhausted,
  model_behaviour, budget_exceeded, ModelResponse, ToolSpec, ToolInvocation,
}
use evalstack.Schema.Trajectory.{Event, Body, agent_error}
use evalstack.Trace.Truncate.{truncate}
use evalstack.Trace.Recorder.{TrajectoryRecorder, append, record_agent_error}
use evalstack.Agent.Loop as Loop
use evalstack.Agent.Loop.{
  ModelAgentConfig, AgentEnding, returned, fatal_infrastructure, infrastructure_error, escaped,
  client_threw, heard_of, invoke_all, after_tools, Progress, Attempt, after_error, on_model_error,
  after_reply, loop, run, respond, request_of,
}

abbrev is_error : Body → Bool
is_error (agent_error e) = true
is_error _ = false

-- The last event is an error of the agent.
abbrev pub last_is_error : List (Event Body) → Bool
last_is_error [] = false
last_is_error (e ∷ []) = is_error e.body
last_is_error (_ ∷ e ∷ es) = last_is_error (e ∷ es)

-- An error of the provider, not of the model's behaviour and not a ceiling.
abbrev pub IsOutage : ModelError → Type 0
IsOutage (transient e) = Unit
IsOutage (permanent e) = Unit
IsOutage (quota_exhausted e) = Unit
IsOutage _ = ⊥

last-append :
    (es : List (Event Body)) (x : Event Body)
    → is_error x.body ≡ true
    → last_is_error (es ++ x ∷ []) ≡ true
last-append [] x h = h
last-append (e ∷ []) x h = h
last-append (e ∷ f ∷ es) x h = last-append (f ∷ es) x h

module _ {W : Type 0}
    (invoke : TrajectoryRecorder → W → ToolInvocation → (TrajectoryRecorder × W) × Result String)
    (submitted : W → Bool) (client : ℕ → ModelRequest → Reply) (clock : ℕ → ℕ)
    (specs : List ToolSpec) (settings : ModelAgentConfig) where
  -- Some call of a tool raises this exception.
  abbrev pub Raised : Fault → Type 0
  Raised e =
      (r : TrajectoryRecorder) × (w : W) × (call : ToolInvocation) × ((x : TrajectoryRecorder × W)
        × (invoke r w call ≡ (x, failed e)))

  -- What each ending means.
  abbrev pub Means : AgentEnding → Attempt W → Type 0
  Means returned a = (submitted a.world ≡ true) ⊎ (last_is_error a.recorder.events ≡ true)
  Means (fatal_infrastructure text) a =
      (k : ℕ) × (r : ModelRequest) × (e : ModelError) × (client k r ≡ raised e) × IsOutage e
  Means (infrastructure_error text) a =
      (k : ℕ) × (r : ModelRequest) × (e : ModelError) × (client k r ≡ raised e) × IsOutage e
  Means (escaped e) a =
      ((text : String) × (truncate text a.recorder.max_output_chars ≡ none)) ⊎ Raised e
  Means (client_threw e) a = (k : ℕ) × (r : ModelRequest) × (client k r ≡ threw e)

  pub record Ends (limit : ℕ) (a : Attempt W) : Type 0 where
    pub within : a.model_calls ≤ limit
    pub means : Means a.ending a

  agent_error-Ends :
      (calls : ℕ) (p : Progress W) (error_type text : String)
      → Ends calls
          (Loop.agent_error invoke submitted client clock specs settings calls p error_type text)
  unfolding Loop.agent_error record_agent_error append
  agent_error-Ends calls p error_type text =
      elim (Option-cases (truncate text p.recorder.max_output_chars)) [
        | inl e ↦ rw e (record { within = omega arith; means = inl (text, e) })
        | inr (cut_text, e) ↦
            rw e
              (record { within = omega arith; means = inr (last-append p.recorder.events _ refl) })
      ]

  on_model_error-Ends :
      (calls : ℕ) (p : Progress W) (e : ModelError)
      → client calls (request_of invoke submitted client clock specs settings p) ≡ raised e
      → Ends
          (calls + 1)
          (on_model_error invoke submitted client clock specs settings (calls + 1) p e)
  unfolding on_model_error
  on_model_error-Ends calls p (budget_exceeded e) h =
      agent_error-Ends (calls + 1) p "BudgetExceeded" e
  on_model_error-Ends calls p (model_behaviour e) h =
      agent_error-Ends (calls + 1) p "ModelBehaviourError" e
  on_model_error-Ends calls p (permanent e) h = record {
    within = omega arith;
    means = (calls, _, permanent e, h, tt);
  }
  on_model_error-Ends calls p (quota_exhausted e) h = record {
    within = omega arith;
    means = (calls, _, quota_exhausted e, h, tt);
  }
  on_model_error-Ends calls p (transient e) h = record {
    within = omega arith;
    means = (calls, _, transient e, h, tt);
  }

  later-Ends : (m n : ℕ) (a : Attempt W) → m ≤ n → Ends m a → Ends n a
  later-Ends m n a h e = record { within = omega (arith, e.within); means = e.means }

  -- What the tools of a step raise, some call raised.
  RaisedBy : Progress W × Result (Unit {0}) → Type 0
  RaisedBy (p, done _) = Unit
  RaisedBy (p, failed e) = Raised e

  heard-RaisedBy :
      (call : ToolInvocation) (p : Progress W) (x : (TrajectoryRecorder × W) × Result String)
      (k : Progress W → Progress W × Result (Unit {0}))
      → invoke p.recorder p.world call ≡ x
      → ((q : Progress W) → RaisedBy (k q))
      → RaisedBy
          (continue_with (heard_of invoke submitted client clock specs settings call p x) (λ _. k))
  unfolding RaisedBy
  heard-RaisedBy call p ((r, w), failed e) k h later = (p.recorder, p.world, call, ((r, w), h))
  heard-RaisedBy call p ((r, w), done text) k h later = later _

  all-RaisedBy :
      (calls : List ToolInvocation) (p : Progress W)
      → RaisedBy (invoke_all invoke submitted client clock specs settings calls p)
  unfolding RaisedBy invoke_all
  all-RaisedBy [] p = tt
  all-RaisedBy (call ∷ calls) p =
      heard-RaisedBy call p (invoke p.recorder p.world call)
        (invoke_all invoke submitted client clock specs settings calls) refl (all-RaisedBy calls)

  respond-RaisedBy :
      (p : Progress W) (response : ModelResponse)
      → RaisedBy (respond invoke submitted client clock specs settings p response)
  unfolding RaisedBy respond
  respond-RaisedBy p response = elim (Bool-cases (is_empty response.tool_calls)) [
    | inl none_asked ↦ rw none_asked tt
    | inr asked ↦ rw asked (all-RaisedBy response.tool_calls _)
  ]

  after_tools-Ends :
      (rest : Progress W → Attempt W) (steps calls : ℕ) (response : ModelResponse)
      (x : Progress W × Result (Unit {0}))
      → RaisedBy x
      → ((next : Progress W) → Ends (calls + 1 + steps) (rest next))
      → Ends
          (calls + 1 + steps)
          (after_tools invoke submitted client clock specs settings rest (calls + 1) response x)
  unfolding RaisedBy after_tools
  after_tools-Ends rest steps calls response (next, failed e) raised_by later = record {
    within = omega arith;
    means = inr raised_by;
  }
  after_tools-Ends rest steps calls response (next, done _) raised_by later =
      elim (Bool-cases (not (is_empty response.tool_calls) && submitted next.world)) [
        | inl over ↦ rw over (record { within = omega arith; means = inl (and_right _ _ over) })
        | inr more ↦ rw more (later next)
      ]
    where
      and_right : (a b : Bool) → (a && b) ≡ true → b ≡ true
      and_right a b e = ground arith

  after_reply-Ends :
      (rest : Progress W → Attempt W) (steps calls : ℕ) (p : Progress W) (x : Reply)
      → client calls (request_of invoke submitted client clock specs settings p) ≡ x
      → ((next : Progress W) → Ends (calls + 1 + steps) (rest next))
      → Ends
          (calls + 1 + steps)
          (after_reply invoke submitted client clock specs settings rest (calls + 1) p x)
  unfolding after_reply
  after_reply-Ends rest steps calls p (raised e) h later =
      later-Ends (calls + 1) (calls + 1 + steps) _ (omega arith) (on_model_error-Ends calls p e h)
  after_reply-Ends rest steps calls p (threw e) h later = record {
    within = omega arith;
    means = (calls, _, h);
  }
  after_reply-Ends rest steps calls p (answered r) h later =
      after_tools-Ends rest steps calls r (respond invoke submitted client clock specs settings p r)
        (respond-RaisedBy p r) later

  loop-Ends :
      (steps calls : ℕ) (p : Progress W)
      → Ends (calls + steps) (loop invoke submitted client clock specs settings steps calls p)
  unfolding loop
  loop-Ends zero calls p =
      later-Ends calls (calls + 0) _ (omega arith) (agent_error-Ends calls p "StepLimitReached" _)
  loop-Ends (suc steps) calls p =
      later-Ends (calls + 1 + steps) (calls + suc steps) _ (omega arith) (
        after_reply-Ends (loop invoke submitted client clock specs settings steps (calls + 1)) steps
          calls p (client calls (request_of invoke submitted client clock specs settings p)) refl
          (loop-Ends steps (calls + 1)))

  -- An attempt makes at most `max_steps` model calls. If it returns, the agent submitted or the last
  -- event is a recorded error of the agent; it raises an infrastructure error only when some model
  -- call ended with an outage; and another exception escapes only when a call of a tool raised it,
  -- when a model call raised it (a cancellation, or an exception that is no `ModelError`), or when the
  -- recorder's limit on texts lets no text be cut.
  pub run-Ends :
      (r : TrajectoryRecorder) (w : W) (prompt_hash prompt : String)
      → Ends settings.max_steps
          (run invoke submitted client clock specs settings r w prompt_hash prompt)
  unfolding run
  run-Ends r w prompt_hash prompt =
      later-Ends (0 + settings.max_steps) settings.max_steps _ (omega arith)
        (loop-Ends settings.max_steps 0 _)
