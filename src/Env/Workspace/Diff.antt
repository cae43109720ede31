-- ===== src/Env/Workspace/Diff.antt =====
-- `Workspace.diff` of env/workspace.py: which names each of the three lists has.
use evalstack.Prelude.{
  ◌≡◌, refl, ◌∙◌, String, Bool, true, false, not, ◌&&◌, ◌||◌, Option, none, some, [], ◌∷◌, ◌++◌,
  map, keep, arith, eq_iff, str_eq,
}
use evalstack.Prelude.Dict.{Dict, get}
use evalstack.Prelude.Sets.{mem, mem-append, mem-keep, mem-sort}
use evalstack.Env.Workspace.{Tools, FileDiff, compare_snapshots, has_key, differs}

-- The same hash, or no file on both sides.
abbrev pub same_hash : Option String → Option String → Bool
same_hash none none = true
same_hash (some x) (some y) = str_eq x y
same_hash _ _ = false

abbrev pub there : Option String → Bool
there none = false
there (some h) = true

mem-names : (a : String) (d : Dict String) → mem a (map (λ e. e.0) d) ≡ there (get a d)
unfolding get
mem-names a [] = refl
mem-names a ((k, h) ∷ d) = ground (arith, mem-names a d, eq_iff a k, eq_iff k a)

-- A file on both sides, with different hashes.
abbrev pub differ : Option String → Option String → Bool
differ none y = false
differ (some x) none = false
differ (some x) (some y) = not (str_eq x y)

same_differ :
    (x y : Option String)
    → elim x [ none ↦ false | some h ↦ elim y [ none ↦ false | some k ↦ not (str_eq h k) ] ]
      ≡ differ x y
same_differ none y = refl
same_differ (some h) none = refl
same_differ (some h) (some k) = refl

same_there : (x : Option String) → elim x [ none ↦ false | some h ↦ true ] ≡ there x
same_there none = refl
same_there (some h) = refl

cases :
    (b c : Option String)
    → (((not (there b) && there c) || (differ c b && there c)) || (not (there c) && there b))
      ≡ not (same_hash b c)
cases none none = refl
cases none (some y) = refl
cases (some x) none = refl
cases (some x) (some y) = ground (arith, eq_iff x y, eq_iff y x)

differ-there : (b c : Option String) → (differ c b && there c) ≡ differ c b
differ-there none none = refl
differ-there none (some y) = refl
differ-there (some x) none = refl
differ-there (some x) (some y) = ground arith

module _ {D S : Type 0} (t : Tools D S) (baseline current : Dict String) (a : String) where
  abbrev changes : FileDiff
  changes = compare_snapshots t baseline current

  mem-added : mem a changes.added ≡ (not (there (get a baseline)) && there (get a current))
  unfolding compare_snapshots
  mem-added =
      mem-sort a (keep (λ k. not (has_key t baseline k)) (map (λ e. e.0) current))
      ∙ mem-keep (λ k. not (has_key t baseline k)) a (map (λ e. e.0) current)
      ∙ rw (mem-names a current, same_there (get a baseline)) refl

  mem-modified :
      mem a changes.modified ≡ (differ (get a current) (get a baseline) && there (get a current))
  unfolding compare_snapshots
  mem-modified =
      mem-sort a (keep (differs t current baseline) (map (λ e. e.0) current))
      ∙ mem-keep (differs t current baseline) a (map (λ e. e.0) current)
      ∙ rw (mem-names a current, same_differ (get a current) (get a baseline)) refl

  mem-deleted : mem a changes.deleted ≡ (not (there (get a current)) && there (get a baseline))
  unfolding compare_snapshots
  mem-deleted =
      mem-sort a (keep (λ k. not (has_key t current k)) (map (λ e. e.0) baseline))
      ∙ mem-keep (λ k. not (has_key t current k)) a (map (λ e. e.0) baseline)
      ∙ rw (mem-names a baseline, same_there (get a current)) refl

  mem-changes :
      mem a (changes.added ++ changes.modified ++ changes.deleted)
      ≡ not (same_hash (get a baseline) (get a current))
  mem-changes =
      mem-append a (changes.added ++ changes.modified) changes.deleted
      ∙ rw (mem-append a changes.added changes.modified, mem-added, mem-modified, mem-deleted)
          (cases (get a baseline) (get a current))

  -- A name is added exactly when only the later snapshot has it, deleted exactly when only the
  -- earlier one has it, and modified exactly when both have it with different hashes; it is in one
  -- of the three lists exactly when the snapshots do not agree on it.
  pub diff-differs :
      (mem a changes.added ≡ (not (there (get a baseline)) && there (get a current)))
      × (mem a changes.deleted ≡ (there (get a baseline) && not (there (get a current))))
      × (mem a changes.modified ≡ differ (get a current) (get a baseline))
      × (mem a (changes.added ++ changes.modified ++ changes.deleted)
          ≡ not (same_hash (get a baseline) (get a current)))
  diff-differs = (
    mem-added,
    mem-deleted ∙ ground arith,
    mem-modified ∙ differ-there (get a baseline) (get a current),
    mem-changes,
  )
