-- ===== src/Agent/Tools/Replace.antt =====
-- `replace_text` of agent/tools.py: when it edits, and what the edit is.
use evalstack.Prelude.{
  ◌≡◌, ◌≢◌, refl, String, none, some, false, arith, eq_iff, str_eq, Option, Option-cases, ◌∙◌, ◌⊎◌,
  inl, inr, ap,
}
use evalstack.Prelude.Text.{◌+++◌}
use evalstack.Prelude.Search.{count, split_at, Split, split_at-Split, replace_first}
use evalstack.Prelude.Effect.{Fault, Result, done, failed, Effect, Keeps, bind-Keeps}
use evalstack.Trace.Recorder.{TrajectoryRecorder, record_tool_call}
use evalstack.Json.{str, field, end}
use evalstack.Env.Workspace as Workspace
use evalstack.Env.Workspace.{Workspace}
use evalstack.Agent.Tools.{
  ToolContext, ToolBox, ToolOutcome, refusal, recorded, after_try, answer, finish, failure, success,
  try_workspace, on_workspace, write_replaced, replace_text, record_edit, replace_summary, start,
  caught_replace, caught, now, with_recorder,
}

-- The edit of `contents`: the only occurrence of `old` gives way to `new`.
pub record Edits (old new contents edited : String) : Type 0 where
  pub before : String
  pub after : String
  pub found : contents ≡ before +++ old +++ after
  pub replaced : edited ≡ before +++ new +++ after
  pub no_more : count old after ≡ 0

Edits-of :
    (old new contents : String) (o : Option (String × String))
    → split_at old contents ≡ o
    → Split old contents o
    → count old contents ≡ 1
    → Edits old new contents (replace_first old new contents)
unfolding replace_first
Edits-of old new contents none e s once = absurd (omega arith)
Edits-of old new contents (some (a, b)) e s once = record {
  before = a;
  after = b;
  found = s.0;
  replaced = rw (e, replace_first);
  no_more = omega (arith, s.1);
}

abbrev SameDisk : {D : Type 0} → ToolBox D → ToolBox D → Type 0
SameDisk a b = b.workspace.disk ≡ a.workspace.disk

module _ {D : Type 0} (c : ToolContext D) (path : String) where
  refusal-once :
      (old contents : String)
      → refusal c path old contents ≡ none
      → (str_eq old "" ≡ false) × (count old contents ≡ 1)
  unfolding refusal
  refusal-once old contents h = ground arith

  recorded-disk : (f : ToolBox D → Option TrajectoryRecorder) → Keeps SameDisk (recorded f)
  recorded-disk f b = elim (Option-cases (f b)) [
    | inl e ↦ rw (e, recorded) refl
    | inr (r, e) ↦ rw (e, recorded) refl
  ]

  answer-disk :
      (call_id tool : String) (outcome : ToolOutcome)
      → Keeps SameDisk (answer c call_id tool outcome)
  unfolding answer finish
  answer-disk call_id tool outcome =
      bind-Keeps SameDisk (λ a b d h k. k ∙ h) (finish c call_id tool outcome) _ (recorded-disk _)
        (λ _ b. refl)

  after_try-disk :
      {A B : Type 0} (x : ToolBox D × Result A) (catch : Fault → Option String)
      (fail : String → Effect (ToolBox D) B) (go : A → Effect (ToolBox D) B)
      → ((text : String) → Keeps SameDisk (fail text))
      → ((a : A) → Keeps SameDisk (go a))
      → SameDisk x.0 (after_try x catch fail go).0
  after_try-disk (b, done a) catch fail go f g = g a b
  after_try-disk (b, failed e) catch fail go f g = elim (Option-cases (catch e)) [
    | inl k ↦ rw (k, after_try) refl
    | inr (text, k) ↦ rw (k, after_try) (f text b)
  ]

  write_replaced-disk :
      (call_id edited : String) (b : ToolBox D)
      → (write_replaced c call_id path edited b).0.workspace.disk
        ≡ (Workspace.write_file c.tools path edited b.workspace).0.disk
  unfolding write_replaced try_workspace on_workspace record_edit
  write_replaced-disk call_id edited b =
      after_try-disk (on_workspace (Workspace.write_file c.tools path edited) b) caught_replace
        (λ error. answer c call_id "replace_text" (failure error)) _
        (λ error. answer-disk call_id "replace_text" (failure error))
        (λ e.
          bind-Keeps SameDisk (λ a b d h k. k ∙ h) (record_edit c e) _ (recorded-disk _)
            (λ _. answer-disk call_id "replace_text" (success (replace_summary c path e))))

  module _ (old new contents : String) (b : ToolBox D)
      (reads : (s : TrajectoryRecorder)
        → Workspace.read_file c.tools path (record (b.workspace) { observer = s })
          ≡ (record (b.workspace) { observer = s }, done contents)) where
    -- After the call is recorded.
    abbrev noted : TrajectoryRecorder × String
    noted =
        record_tool_call b.workspace.observer (now c b) "replace_text"
          (field "path" (str path) (field "old" (str old) (field "new" (str new) end)))

    abbrev noted_box : ToolBox D
    noted_box = with_recorder noted.0 b

    abbrev chosen : Option String → Effect (ToolBox D) ToolOutcome
    chosen o = elim o [
      | some error ↦ answer c noted.1 "replace_text" (failure error)
      | none ↦ write_replaced c noted.1 path (replace_first old new contents)
    ]

    read_first :
        on_workspace (Workspace.read_file c.tools path) noted_box ≡ (noted_box, done contents)
    unfolding on_workspace
    read_first = ap (λ x. (record noted_box { workspace = x.0 }, x.1)) (reads noted.0)

    replace_text-chosen :
        replace_text c path old new b ≡ chosen (refusal c path old contents) noted_box
    unfolding replace_text start try_workspace
    replace_text-chosen =
        ap
          (λ x.
            after_try x (caught "read" path)
              (λ error. answer c noted.1 "replace_text" (failure error))
              (λ text. elim (refusal c path old text) [
                | some error ↦ answer c noted.1 "replace_text" (failure error)
                | none ↦ write_replaced c noted.1 path (replace_first old new text)
              ]))
          read_first

    refused-disk :
        (error : String)
        → refusal c path old contents ≡ some error
        → (replace_text c path old new b).0.workspace.disk ≡ b.workspace.disk
    refused-disk error e =
        ap (λ x. x.0.workspace.disk) (replace_text-chosen ∙ ap (λ o. chosen o noted_box) e)
        ∙ answer-disk noted.1 "replace_text" (failure error) noted_box

    edited-disk :
        refusal c path old contents ≡ none
        → (replace_text c path old new b).0.workspace.disk
          ≡ (Workspace.write_file c.tools path
              (replace_first old new contents)
              (record (b.workspace) { observer = noted.0 })).0.disk
    edited-disk e =
        ap (λ x. x.0.workspace.disk) (replace_text-chosen ∙ ap (λ o. chosen o noted_box) e)
        ∙ write_replaced-disk noted.1 (replace_first old new contents) noted_box

    refused :
        (old ≡ "") ⊎ (count old contents ≢ 1)
        → (error : String) × (refusal c path old contents ≡ some error)
    unfolding refusal
    refused h = elim (Option-cases (refusal c path old contents)) [
      | inl e ↦
          let (filled, once) = refusal-once old contents e in absurd (ground (arith, eq_iff old ""))
      | inr found ↦ found
    ]

  Edits-first :
      (old new contents : String)
      → old ≢ ""
      → count old contents ≡ 1
      → Edits old new contents (replace_first old new contents)
  Edits-first String.[] new contents ne once = absurd (ne refl)
  Edits-first (String.◌∷◌ x old) new contents ne once =
      Edits-of (String.◌∷◌ x old) new contents _ refl (split_at-Split x old contents) once

  accepted :
      (old contents : String)
      → old ≢ ""
      → count old contents ≡ 1
      → refusal c path old contents ≡ none
  unfolding refusal
  accepted old contents ne once = ground (arith, eq_iff old "")

  -- For a path whose contents can be read, whoever observes the read: `replace_text` leaves the disk
  -- as it is if `old` is empty or does not occur exactly once; and otherwise it leaves the disk as a
  -- write of that path does, of the contents with that occurrence replaced by `new` and nothing else
  -- changed.
  pub replace_text_edit :
      (old new contents : String) (b : ToolBox D)
      → ((s : TrajectoryRecorder)
          → Workspace.read_file c.tools path (record (b.workspace) { observer = s })
            ≡ (record (b.workspace) { observer = s }, done contents))
      → ((old ≡ "") ⊎ (count old contents ≢ 1)
          → (replace_text c path old new b).0.workspace.disk ≡ b.workspace.disk)
        × (old ≢ ""
            → count old contents ≡ 1
            → (edited : String) × (s : TrajectoryRecorder) × Edits old new contents edited
              × ((replace_text c path old new b).0.workspace.disk
                  ≡ (Workspace.write_file c.tools path edited
                      (record (b.workspace) { observer = s })).0.disk))
  replace_text_edit old new contents b reads = (
    λ h.
        let (error, e) = refused old new contents b reads h in
        refused-disk old new contents b reads error e,
    λ ne once. (
      replace_first old new contents,
      (noted old new contents b reads).0,
      Edits-first old new contents ne once,
      edited-disk old new contents b reads (accepted old contents ne once),
    ),
  )
