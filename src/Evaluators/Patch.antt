-- ===== src/Evaluators/Patch.antt =====
-- evaluators/patch.py: how tightly the changes of an attempt match the declared target files, with
-- `FileDiff.touched` of env/workspace.py. The dictionary of details is left out.
use evalstack.Prelude.{
  ℕ, ◌+◌, ◌-◌, ◌*◌, ◌≡◌, refl, ◌∙◌, String, Bool, true, false, not, ◌&&◌, ◌||◌, List, ◌++◌, keep,
  length, is_empty, if◌then◌else◌, arith,
}
use evalstack.Prelude.Sort.{sort, str_leb}
use evalstack.Prelude.Sets.{mem, distinct, mem-keep, mem-distinct, mem-sort, empty_iff, empty-mem}
use evalstack.Prelude.Ratio.{Ratio, zero_ratio}
use evalstack.Env.Workspace.{FileDiff}

-- `FileDiff.touched`
unfoldable pub touched : FileDiff → List String
unfolding distinct sort
touched d = sort str_leb (distinct (d.added ++ d.modified ++ d.deleted))

-- Percentages of a point.
pub record PatchWeights : Type 0 where
  pub unrelated_file_penalty : ℕ
  pub untouched_target_penalty : ℕ

pub record PatchResult : Type 0 where
  pub score : Ratio
  pub passed : Bool
  pub unrelated : List String
  pub untouched_targets : List String

-- `sorted(xs - ys)` of two sets
abbrev minus : List String → List String → List String
minus xs ys = sort str_leb (keep (λ x. not (mem x ys)) xs)

-- `PatchLocalityEvaluator.evaluate`, for the target files of the case
unfoldable pub evaluate : PatchWeights → FileDiff → List String → PatchResult
unfolding touched distinct sort
evaluate weights diff target_files =
    let targets = distinct target_files in
    let changed = touched diff in
    let unrelated = minus changed targets in
    let untouched_targets = minus targets changed in
    let for_targets =
      if is_empty targets || is_empty untouched_targets
      then 0
      else weights.untouched_target_penalty in
    let penalty = weights.unrelated_file_penalty * length unrelated + for_targets in
    let score : Ratio = record { num = 100 - penalty; den = 100 } in
    record {
      score = if is_empty changed then zero_ratio else score;
      passed = not (is_empty changed) && is_empty unrelated && is_empty untouched_targets;
      unrelated = unrelated;
      untouched_targets = untouched_targets;
    }

mem-minus : (a : String) (xs ys : List String) → mem a (minus xs ys) ≡ (not (mem a ys) && mem a xs)
mem-minus a xs ys = mem-sort a (keep (λ x. not (mem x ys)) xs) ∙ mem-keep (λ x. not (mem x ys)) a xs

-- The name was changed: it is one of the three lists of the diff.
abbrev pub is_changed : FileDiff → String → Bool
is_changed d a = mem a (d.added ++ d.modified ++ d.deleted)

mem-touched : (d : FileDiff) (a : String) → mem a (touched d) ≡ is_changed d a
unfolding touched
mem-touched d a =
    mem-sort a (distinct (d.added ++ d.modified ++ d.deleted))
    ∙ mem-distinct a (d.added ++ d.modified ++ d.deleted)

module _ (weights : PatchWeights) (d : FileDiff) (target_files : List String) where
  abbrev result : PatchResult
  result = evaluate weights d target_files

  mem-unrelated :
      (a : String) → mem a result.unrelated ≡ (not (mem a target_files) && is_changed d a)
  unfolding evaluate
  mem-unrelated a =
      mem-minus a (touched d) (distinct target_files)
      ∙ rw (mem-distinct a target_files, mem-touched d a) refl

  mem-untouched :
      (a : String) → mem a result.untouched_targets ≡ (not (is_changed d a) && mem a target_files)
  unfolding evaluate
  mem-untouched a =
      mem-minus a (distinct target_files) (touched d)
      ∙ rw (mem-distinct a target_files, mem-touched d a) refl

  passed_parts : result.passed ≡ (
      not (is_empty (touched d)) && is_empty result.unrelated && is_empty result.untouched_targets)
  unfolding evaluate
  passed_parts = refl

  -- An attempt passes the patch evaluator exactly when it changed some file and the files that it
  -- changed are the declared target files, no more and no less.
  pub evaluate-is_changed :
      (result.passed ≡ true
        → (is_empty (touched d) ≡ false) × ((a : String) → is_changed d a ≡ mem a target_files))
      × (is_empty (touched d) ≡ false
          → ((a : String) → is_changed d a ≡ mem a target_files)
          → result.passed ≡ true)
  evaluate-is_changed = (
    λ h. (
      ground (arith, passed_parts),
      λ a. ground (
        arith,
        passed_parts,
        mem-unrelated a,
        mem-untouched a,
        empty-mem result.unrelated a,
        empty-mem result.untouched_targets a,
      ),
    ),
    λ some_change same.
        let a : is_empty result.unrelated ≡ true =
          empty_iff result.unrelated (λ x. ground (arith, mem-unrelated x, same x)) in
        let b : is_empty result.untouched_targets ≡ true =
          empty_iff result.untouched_targets (λ x. ground (arith, mem-untouched x, same x)) in
        ground (arith, passed_parts),
  )
