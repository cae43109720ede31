-- ===== src/Orchestrator/Runner/Containment.antt =====
-- LocalBackend.execute of orchestrator/runner.py: what an attempt does to the files outside of its
-- workspace, from the files of the case to the file of its trajectory.
use mathlib.Core.List.{append-nil, append_assoc}
use evalstack.Prelude.{
  ◌≡◌, ap, sym, subst, ◌∙◌, ◌++◌, refl, String, Option, none, some, List, [], ◌∷◌, true, false,
  arith,
}
use evalstack.Prelude.Dict.{Dict}
use evalstack.Prelude.Effect.{
  Fault, path_escape, file_not_found, os_error, value_error, Result, done, failed, Keeps,
  bind-Keeps,
}
use evalstack.Schema.Case.{FileSpec}
use evalstack.Schema.Trajectory.{Trajectory}
use evalstack.Trace.Recorder.{TrajectoryRecorder, build}
use evalstack.Env.Disk.{FilePath, SameAt, IsLocal}
use evalstack.Env.Workspace as Workspace
use evalstack.Env.Workspace.{Workspace, Tools, Violation, FileDiff}
use evalstack.Env.Workspace.Containment.{
  Inside, Contained, Contained_refl, From, From-trans, write_file-From, resolve-then,
  observed-Contained, kept,
}
use evalstack.Orchestrator.Jobs.{Job}
use evalstack.Orchestrator.Retry.{Outcome}
use evalstack.Orchestrator.Runner.Persisting.{IsTrace, same_trans, persist-outside, persist-kept}
use evalstack.Orchestrator.Runner.Traces.{persist-observer}
use evalstack.Orchestrator.Runner.{
  AgentEnd, finished, agent_cancelled, outage, crashed, Evaluation, evaluated, evaluation_timeout,
  evaluation_cancelled, evaluator_raised, Backend, Execution, materialise, persist, give_up, escape,
  on_fault, after_evaluation, after_diff, evaluate_attempt, after_agent, after_setup, execute,
  crash,
}

module _ {D S : Type 0} (t : Tools D S) (root : FilePath) where
  hash_of-From : (name : String) → Keeps (From t root) (Workspace.hash_of t name)
  unfolding Workspace.hash_of
  hash_of-From name = resolve-then t root name _ (λ p inside w e. kept t w (ground arith))

  hash_all-From : (names : List String) → Keeps (From t root) (Workspace.hash_all t names)
  unfolding Workspace.hash_all
  hash_all-From [] = λ w e. Contained_refl t w
  hash_all-From (name ∷ names) =
      bind-Keeps (From t root) (From-trans t root) (Workspace.hash_of t name) _ (hash_of-From name)
        λ h.
          bind-Keeps (From t root) (From-trans t root) (Workspace.hash_all t names) _
            (hash_all-From names) (λ rest w e. Contained_refl t w)

  snapshot-From : Keeps (From t root) (Workspace.snapshot t)
  unfolding Workspace.snapshot
  snapshot-From w = hash_all-From (Workspace.list_files t w) w

  set_baseline-From : Keeps (From t root) (Workspace.set_baseline t)
  unfolding Workspace.set_baseline
  set_baseline-From =
      bind-Keeps (From t root) (From-trans t root) (Workspace.snapshot t) _ snapshot-From
        (λ current w e. based w current)
    where
      based :
          (w : Workspace D S) (current : Dict String)
          → Contained t w (record w { baseline = current })
      based w current = record {
        same_root = refl;
        outside = (Contained_refl t w).outside;
        recorded = (Contained_refl t w).recorded;
      }

  diff-From : Keeps (From t root) (Workspace.diff t)
  unfolding Workspace.diff
  diff-From =
      bind-Keeps (From t root) (From-trans t root) (Workspace.snapshot t) _ snapshot-From
        (λ current w e. Contained_refl t w)

-- What the agent and the suite do to a workspace with the given root.
pub record IsConfined {D : Type 0} (b : Backend D) (root : FilePath) : Type 0 where
  pub agent-From : (w : Workspace D TrajectoryRecorder) → From b.tools root w (b.agent w).0
  pub evaluate-From :
      (t : Trajectory) (d : FileDiff) (w : Workspace D TrajectoryRecorder)
      → From b.tools root w (b.evaluate t d w).0

module _ {D : Type 0} (b : Backend D) where
  -- What an execution leaves of the disk and the workspace that it starts with.
  pub record Leaves (w : Workspace D TrajectoryRecorder) (x : Execution D) : Type 0 where
    pub same_root : x.workspace.root ≡ w.root
    pub outside :
        (p : FilePath)
        → ¬ Inside w.root p
        → ¬ IsTrace b (build x.workspace.observer) p
        → SameAt b.tools.disk p w.disk x.workspace.disk
    pub recorded : (new : List Violation) × (x.workspace.violations ≡ w.violations ++ new)

module _ {D : Type 0} (b : Backend D) (root : FilePath) (local : IsLocal b.tools.disk)
    (confined : IsConfined b root) where
  abbrev Box : Type 0
  Box = Workspace D TrajectoryRecorder

  abbrev Reaches : Box → Box → Type 0
  Reaches = From b.tools root

  materialise-From : (files : List FileSpec) → Keeps Reaches (materialise b files)
  unfolding materialise
  materialise-From [] = set_baseline-From b.tools root
  materialise-From (f ∷ fs) =
      bind-Keeps Reaches (From-trans b.tools root) (Workspace.write_file b.tools f.path f.contents)
        _ (write_file-From b.tools local root f.path f.contents) (λ edit. materialise-From fs)

  abbrev Leads : Box → Execution D → Type 0
  Leads w x = w.root ≡ root → Leaves b w x

  -- What comes after a contained part.
  then-Leaves : (u v : Box) (x : Execution D) → Reaches u v → Leads v x → Leads u x
  then-Leaves u v x first later e =
      let a = first e in
      let l = later (a.same_root ∙ e) in
      record {
        same_root = l.same_root ∙ a.same_root;
        outside = λ p out other.
            same_trans b.tools.disk p u.disk v.disk x.workspace.disk (a.outside p out)
              (l.outside p (λ i. out (i.0, i.1 ∙ ap (λ r. r ++ i.0) a.same_root)) other);
        recorded = (
          a.recorded.0 ++ l.recorded.0,
          l.recorded.1
              ∙ ap (λ vs. vs ++ l.recorded.0) a.recorded.1
              ∙ append_assoc u.violations a.recorded.0 l.recorded.0,
        );
      }

  persisted-Leaves :
      (o : Outcome) (w : Box)
      → Leaves b w (record {
        outcome = o;
        traces = build w.observer ∷ [];
        workspace = (persist b (build w.observer) w).0;
      })
  persisted-Leaves o w =
      let t = build w.observer in
      let k = persist-kept b local t w in
      record {
        same_root = k.0;
        outside = λ p out other.
            persist-outside b local t w p
              (λ is. other (subst (λ r. IsTrace b (build r) p) (sym (persist-observer b t w)) is));
        recorded = ([], k.1 ∙ sym (append-nil w.violations));
      }

  give_up-Leaves : (o : Outcome) (w : Box) → Leads w (give_up b o w)
  unfolding give_up
  give_up-Leaves o w e = persisted-Leaves _ w

  escape-Leaves : (text : String) (w : Box) → Leads w (escape b text w)
  unfolding escape
  escape-Leaves text w e =
      let c = Contained_refl b.tools w in
      record {
        same_root = c.same_root;
        outside = λ p out other. c.outside p out;
        recorded = c.recorded;
      }

  on_fault-Leaves : (e : Fault) (w : Box) → Leads w (on_fault b e w)
  unfolding on_fault
  on_fault-Leaves (os_error e) w = give_up-Leaves _ w
  on_fault-Leaves (file_not_found e) w = give_up-Leaves _ w
  on_fault-Leaves (path_escape e) w = escape-Leaves _ w
  on_fault-Leaves (value_error e) w = escape-Leaves _ w

  after_evaluation-Leaves :
      (job : Job) (w : Box) (e : Evaluation) → Leads w (after_evaluation b job (w, e))
  unfolding after_evaluation
  after_evaluation-Leaves job w (evaluated results) = λ h. persisted-Leaves _ w
  after_evaluation-Leaves job w evaluation_timeout = give_up-Leaves _ w
  after_evaluation-Leaves job w evaluation_cancelled = give_up-Leaves _ w
  after_evaluation-Leaves job w (evaluator_raised t e) = give_up-Leaves _ w

  after_diff-Leaves :
      (job : Job) (v : Box) (x : Box × Result FileDiff)
      → Reaches v x.0
      → Leads v (after_diff b job x)
  unfolding after_diff
  after_diff-Leaves job v (w, failed e) h = then-Leaves v w _ h (on_fault-Leaves e w)
  after_diff-Leaves job v (w, done diff) h =
      let x = b.evaluate (build w.observer) diff w in
      then-Leaves v w _ h (
        then-Leaves w x.0 _ (confined.evaluate-From (build w.observer) diff w)
          (after_evaluation-Leaves job x.0 x.1))

  evaluate-Leaves : (job : Job) (w : Box) → Leads w (evaluate_attempt b job w)
  unfolding evaluate_attempt
  evaluate-Leaves job w =
      after_diff-Leaves job w (Workspace.diff b.tools w) (diff-From b.tools root w)

  crash-Leaves : (job : Job) (w : Box) (o : Option TrajectoryRecorder) → Leads w (crash b job w o)
  crash-Leaves job w none = escape-Leaves _ w
  crash-Leaves job w (some r) =
      then-Leaves w (record w { observer = r }) _ (λ e. observed-Contained b.tools w r)
        (evaluate-Leaves job (record w { observer = r }))

  after_agent-Leaves : (job : Job) (w : Box) (e : AgentEnd) → Leads w (after_agent b job (w, e))
  unfolding after_agent
  after_agent-Leaves job w finished = evaluate-Leaves job w
  after_agent-Leaves job w agent_cancelled = give_up-Leaves _ w
  after_agent-Leaves job w (outage true text) = give_up-Leaves _ w
  after_agent-Leaves job w (outage false text) = give_up-Leaves _ w
  after_agent-Leaves job w (crashed t e) = crash-Leaves job w _

  after_setup-Leaves :
      (job : Job) (v : Box) (x : Box × Result (Unit {0}))
      → Reaches v x.0
      → Leads v (after_setup b job x)
  unfolding after_setup
  after_setup-Leaves job v (w, failed e) h = then-Leaves v w _ h (on_fault-Leaves e w)
  after_setup-Leaves job v (w, done _) h =
      let x = b.agent w in
      then-Leaves v w _ h
        (then-Leaves w x.0 _ (confined.agent-From w) (after_agent-Leaves job x.0 x.1))

-- Whatever the files of the case and however the attempt ends, on a disk whose operations are local,
-- with an agent and a suite that leave the outside alone: every file outside of the root of the
-- workspace is as before, but the one file in the trajectory directory, if there is one, that is
-- named after the run, the case and the attempt of the trajectory; the root stays, and recorded
-- violations are only added.
pub execute-Contained :
    {D : Type 0} (b : Backend D) (job : Job) (w : Workspace D TrajectoryRecorder)
    → IsLocal b.tools.disk
    → IsConfined b w.root
    → Leaves b w (execute b job w)
unfolding execute
execute-Contained b job w local confined =
    after_setup-Leaves b w.root local confined job w (materialise b job.case.files w)
      (materialise-From b w.root local confined job.case.files w) refl
