-- ===== src/Orchestrator/Runner/Persisting.antt =====
-- `LocalBackend._persist` of orchestrator/runner.py: what it does to the disk.

use evalstack.Prelude.{
  ◌≡◌, ◌≢◌, subst, ◌∙◌, Option-cases, inl, inr, refl, String, Option, none, some,
}
use evalstack.Schema.Trajectory.{Trajectory}
use evalstack.Trace.Recorder.{TrajectoryRecorder}
use evalstack.Env.Disk.{
  FilePath, Disk, SameAt, IsLocal, WriteText, written, unwritable, not_encodable,
}
use evalstack.Env.Workspace.{Workspace}
use evalstack.Orchestrator.Runner.{
  Backend, persist, after_write, after_mkdir, trace_path, target_dir,
}

pub same_trans :
    {D : Type 0} (disk : Disk D) (p : FilePath) (d e f : D)
    → SameAt disk p d e
    → SameAt disk p e f
    → SameAt disk p d f
same_trans disk p d e f a b = record {
  same_file = b.same_file ∙ a.same_file;
  same_text = b.same_text ∙ a.same_text;
}

module _ {D : Type 0} (b : Backend D) where
  -- The path of the trajectory's file.
  abbrev pub IsTrace : Trajectory → FilePath → Type 0
  IsTrace t p =
      (directory : FilePath) × (b.trajectory_dir ≡ some directory) × (p ≡ trace_path b directory t)

module _ {D : Type 0} (b : Backend D) (local : IsLocal b.tools.disk) where
  after_write-outside :
      (path : FilePath) (text : String) (w : Workspace D TrajectoryRecorder) (d : D) (p : FilePath)
      → p ≢ path
      → SameAt b.tools.disk p w.disk d
      → (x : D × WriteText) → b.tools.disk.write_text d path text ≡ x
      → SameAt b.tools.disk p w.disk (after_write b path w x).0.disk
  after_write-outside path text w d p ne h x e =
      let s : SameAt b.tools.disk p d x.0 =
        subst (λ x. SameAt b.tools.disk p d x.0) e (local.write_text-SameAt d path p text ne) in
      let t = same_trans b.tools.disk p w.disk d x.0 h s in by_result x t
    where
      by_result :
          (x : D × WriteText)
          → SameAt b.tools.disk p w.disk x.0
          → SameAt b.tools.disk p w.disk (after_write b path w x).0.disk
      by_result (d, written) t = t
      by_result (d, unwritable e) t = t
      by_result (d, not_encodable e) t = t

  after_mkdir-outside :
      (path : FilePath) (text : String) (w : Workspace D TrajectoryRecorder) (p : FilePath)
      → p ≢ path
      → (x : D × Option String) → SameAt b.tools.disk p w.disk x.0
      → SameAt b.tools.disk p w.disk (after_mkdir b path text w x).0.disk
  after_mkdir-outside path text w p ne (d, some e) h = h
  after_mkdir-outside path text w p ne (d, none) h = after_write-outside path text w d p ne h _ refl

  -- Persisting changes no file but that of the trajectory.
  pub persist-outside :
      (t : Trajectory) (w : Workspace D TrajectoryRecorder) (p : FilePath)
      → ¬ IsTrace b t p
      → SameAt b.tools.disk p w.disk (persist b t w).0.disk
  unfolding persist
  persist-outside t w p other = elim (Option-cases b.trajectory_dir) [
    | inl e ↦ rw e (record { same_file = refl; same_text = refl })
    | inr (directory, e) ↦ rw e (
        after_mkdir-outside (trace_path b directory t) (b.to_jsonl t) w p
          (λ same. other (directory, e, same)) _
          (local.make_directory-SameAt w.disk (target_dir b directory) p))
  ]

  pub persist-kept :
      (t : Trajectory) (w : Workspace D TrajectoryRecorder)
      → ((persist b t w).0.root ≡ w.root) × ((persist b t w).0.violations ≡ w.violations)
  unfolding persist
  persist-kept t w = elim (Option-cases b.trajectory_dir) [
    | inl e ↦ rw e (refl, refl)
    | inr (directory, e) ↦ rw e (made (trace_path b directory t) (b.to_jsonl t) _)
  ]
    where
      wrote :
          (path : FilePath) (x : D × WriteText)
          → ((after_write b path w x).0.root ≡ w.root)
            × ((after_write b path w x).0.violations ≡ w.violations)
      wrote path (d, written) = (refl, refl)
      wrote path (d, unwritable e) = (refl, refl)
      wrote path (d, not_encodable e) = (refl, refl)

      made :
          (path : FilePath) (text : String) (x : D × Option String)
          → ((after_mkdir b path text w x).0.root ≡ w.root)
            × ((after_mkdir b path text w x).0.violations ≡ w.violations)
      made path text (d, some e) = (refl, refl)
      made path text (d, none) = wrote path _
