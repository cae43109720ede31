-- ===== src/Agent/Loop/World.antt =====
-- ModelAgent.run of agent/model_agent.py: what every call of a tool does to the world, an attempt does.
use evalstack.Prelude.{
  ℕ, zero, suc, ◌+◌, String, Bool, not, ◌&&◌, List, [], ◌∷◌, is_empty, Bool-cases, inl, inr, Option,
  none, some,
}
use evalstack.Prelude.Effect.{Result, done, failed, continue_with}
use evalstack.Model.{
  ModelRequest, ModelResponse, Reply, answered, raised, threw, ModelError, transient, permanent,
  quota_exhausted, model_behaviour, budget_exceeded, ToolSpec, ToolInvocation,
}
use evalstack.Trace.Recorder.{TrajectoryRecorder}
use evalstack.Agent.Loop as Loop
use evalstack.Agent.Loop.{
  ModelAgentConfig, Progress, Attempt, after_error, heard_of, invoke_all, on_model_error,
  after_tools, after_reply, loop, run, respond, request_of,
}

module _ {W : Type 0}
    (invoke : TrajectoryRecorder → W → ToolInvocation → (TrajectoryRecorder × W) × Result String)
    (submitted : W → Bool) (client : ℕ → ModelRequest → Reply) (clock : ℕ → ℕ)
    (specs : List ToolSpec) (settings : ModelAgentConfig) (R : W → W → Type 0)
    (R_refl : (w : W) → R w w) (R_trans : (u v w : W) → R u v → R v w → R u w)
    (step : (r : TrajectoryRecorder) (w : W) (call : ToolInvocation)
      → R w (invoke r w call).0.1) where
  heard_world :
      (w : W) (call : ToolInvocation) (p : Progress W)
      (x : (TrajectoryRecorder × W) × Result String)
      (k : Progress W → Progress W × Result (Unit {0}))
      → R w x.0.1
      → ((q : Progress W) → R q.world (k q).0.world)
      → R w
          (continue_with
            (heard_of invoke submitted client clock specs settings call p x)
            (λ _. k)).0.world
  heard_world w call p ((r, v), failed e) k h later = h
  heard_world w call p ((r, v), done text) k h later = R_trans w v _ h (later _)

  invoke_all-world :
      (calls : List ToolInvocation) (p : Progress W)
      → R p.world (invoke_all invoke submitted client clock specs settings calls p).0.world
  unfolding invoke_all
  invoke_all-world [] p = R_refl p.world
  invoke_all-world (call ∷ calls) p =
      heard_world p.world call p (invoke p.recorder p.world call)
        (invoke_all invoke submitted client clock specs settings calls)
        (step p.recorder p.world call) (invoke_all-world calls)

  respond-world :
      (p : Progress W) (response : ModelResponse)
      → R p.world (respond invoke submitted client clock specs settings p response).0.world
  unfolding respond
  respond-world p response = elim (Bool-cases (is_empty response.tool_calls)) [
    | inl none_asked ↦ rw none_asked (R_refl p.world)
    | inr asked ↦ rw asked (invoke_all-world response.tool_calls _)
  ]

  after_error-world :
      (calls : ℕ) (p : Progress W) (o : Option TrajectoryRecorder)
      → R p.world (after_error calls p o).world
  after_error-world calls p none = R_refl p.world
  after_error-world calls p (some r) = R_refl p.world

  agent_error-world :
      (calls : ℕ) (p : Progress W) (error_type text : String)
      → R p.world
          (Loop.agent_error invoke submitted client clock specs settings calls p error_type
            text).world
  unfolding Loop.agent_error
  agent_error-world calls p error_type text = after_error-world calls p _

  on_model_error-world :
      (calls : ℕ) (p : Progress W) (e : ModelError)
      → R p.world (on_model_error invoke submitted client clock specs settings calls p e).world
  unfolding on_model_error
  on_model_error-world calls p (budget_exceeded e) = agent_error-world calls p "BudgetExceeded" e
  on_model_error-world calls p (model_behaviour e) =
      agent_error-world calls p "ModelBehaviourError" e
  on_model_error-world calls p (permanent e) = R_refl p.world
  on_model_error-world calls p (quota_exhausted e) = R_refl p.world
  on_model_error-world calls p (transient e) = R_refl p.world

  after_tools-world :
      (w : W) (rest : Progress W → Attempt W) (calls : ℕ) (response : ModelResponse)
      (x : Progress W × Result (Unit {0}))
      → R w x.0.world
      → ((next : Progress W) → R next.world (rest next).world)
      → R w (after_tools invoke submitted client clock specs settings rest calls response x).world
  unfolding after_tools
  after_tools-world w rest calls response (next, failed e) h later = h
  after_tools-world w rest calls response (next, done _) h later =
      elim (Bool-cases (not (is_empty response.tool_calls) && submitted next.world)) [
        | inl over ↦ rw over h
        | inr more ↦ rw more (R_trans w next.world _ h (later next))
      ]

  after_reply-world :
      (rest : Progress W → Attempt W) (calls : ℕ) (p : Progress W) (x : Reply)
      → ((next : Progress W) → R next.world (rest next).world)
      → R p.world (after_reply invoke submitted client clock specs settings rest calls p x).world
  unfolding after_reply
  after_reply-world rest calls p (raised e) later = on_model_error-world calls p e
  after_reply-world rest calls p (threw e) later = R_refl p.world
  after_reply-world rest calls p (answered response) later =
      after_tools-world p.world rest calls response
        (respond invoke submitted client clock specs settings p response) (respond-world p response)
        later

  loop-world :
      (steps calls : ℕ) (p : Progress W)
      → R p.world (loop invoke submitted client clock specs settings steps calls p).world
  unfolding loop
  loop-world zero calls p = agent_error-world calls p "StepLimitReached" _
  loop-world (suc steps) calls p =
      after_reply-world (loop invoke submitted client clock specs settings steps (calls + 1))
        (calls + 1) p _ (loop-world steps (calls + 1))

  -- A relation that every call of a tool keeps, from the world before to the world after, holds from
  -- the world before an attempt to the world that it leaves.
  pub run-world :
      (r : TrajectoryRecorder) (w : W) (prompt_hash prompt : String)
      → R w (run invoke submitted client clock specs settings r w prompt_hash prompt).world
  unfolding run
  run-world r w prompt_hash prompt = loop-world settings.max_steps 0 _
