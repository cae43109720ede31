-- ===== src/Env/Workspace/Containment.antt =====
-- Workspace of env/workspace.py: a path that is resolved lies inside the root, and no operation
-- changes a file outside of it.
use evalstack.Prelude.{
  ◌≡◌, refl, ap, ◌∙◌, String, Bool, true, false, not, ◌&&◌, List, [], ◌∷◌, ◌++◌, map, any, arith,
  eq_iff, Bool-cases, inl, inr, sym, str_eq,
}
use mathlib.Core.List.{append-nil, append_assoc}
use evalstack.Prelude.Effect.{
  Result, done, failed, path_escape, value_error, Effect, ◌>>=◌, Keeps, bind-Keeps, continue_with,
}
use evalstack.Env.Disk.Path.{parents, path_eq, path_eq_sound, path_eq_refl}
use evalstack.Env.Disk.{FilePath, SameAt, IsLocal}
use evalstack.Env.Workspace.{
  Workspace, Violation, Tools, has_nul, record_violation, resolve, exists, read_text, read_file,
  read_before, make_parent, write_text, write_file, delete_file,
}

-- The path is the root or lies below it.
abbrev pub Inside : FilePath → FilePath → Type 0
Inside root p = (rest : FilePath) × (p ≡ root ++ rest)

any-cons :
    (x y : String) (ys : FilePath) (ps : List FilePath)
    → any (path_eq (y ∷ ys)) (map (λ p. x ∷ p) ps) ≡ (str_eq y x && any (path_eq ys) ps)
unfolding path_eq
any-cons x y ys [] = ground arith
any-cons x y ys (p ∷ ps) = ground (arith, any-cons x y ys ps)

-- The root is among the parents exactly of the paths below it.
parents-Inside : (root p : FilePath) → any (path_eq root) (parents p) ≡ true → Inside root p
unfolding parents path_eq
parents-Inside root [] h = absurd (ground arith)
parents-Inside [] (x ∷ p) h = (x ∷ p, refl)
parents-Inside (y ∷ ys) (x ∷ p) h =
    let both : (str_eq y x && any (path_eq ys) (parents p)) ≡ true =
      sym (any-cons x y ys (parents p)) ∙ h in
    let (rest, e) =
      parents-Inside ys p (and_right (str_eq y x) (any (path_eq ys) (parents p)) both) in
    (rest, ground (arith, eq_iff y x))
  where
    and_right : (a b : Bool) → (a && b) ≡ true → b ≡ true
    and_right a b k = ground arith

parents-below :
    (root : FilePath) (x : String) (rest : FilePath)
    → any (path_eq root) (parents (root ++ x ∷ rest)) ≡ true
unfolding parents path_eq
parents-below [] x rest = refl
parents-below (y ∷ ys) x rest =
    any-cons y y ys (parents (ys ++ x ∷ rest)) ∙ ground (arith, eq_iff y y, parents-below ys x rest)

abbrev pub accepts : FilePath → FilePath → Bool
accepts root real = not (not (path_eq real root) && not (any (path_eq root) (parents real)))

accepts-Inside : (root real : FilePath) → accepts root real ≡ true → Inside root real
accepts-Inside root real h = elim (Bool-cases (path_eq real root)) [
  | inl e ↦ ([], path_eq_sound real root e ∙ sym (append-nil root))
  | inr e ↦ parents-Inside root real (ground arith)
]

Inside-accepts : (root real : FilePath) → Inside root real → accepts root real ≡ true
Inside-accepts root real ([], e) = rw (e ∙ append-nil root) (ground (arith, path_eq_refl root))
Inside-accepts root real (x ∷ rest, e) = rw e (ground (arith, parents-below root x rest))

module _ {D S : Type 0} (t : Tools D S) where
  -- What an operation may do: the root stays, no file outside the root changes, and violations are
  -- only added.
  pub record Contained (w v : Workspace D S) : Type 0 where
    pub same_root : v.root ≡ w.root
    pub outside : (p : FilePath) → (Inside w.root p → ⊥) → SameAt t.disk p w.disk v.disk
    pub recorded : (new : List Violation) × (v.violations ≡ w.violations ++ new)

  same : (p : FilePath) (d : D) → SameAt t.disk p d d
  same p d = record { same_file = refl; same_text = refl }

  pub Contained_refl : (w : Workspace D S) → Contained w w
  Contained_refl w = record {
    same_root = refl;
    outside = λ p out. same p w.disk;
    recorded = ([], sym (append-nil w.violations));
  }

  -- Another observer changes nothing that containment speaks of.
  pub observed-Contained : (w : Workspace D S) (s : S) → Contained w (record w { observer = s })
  observed-Contained w s = record {
    same_root = refl;
    outside = λ p out. same p w.disk;
    recorded = ([], sym (append-nil w.violations));
  }

  pub Contained_trans : (u v w : Workspace D S) → Contained u v → Contained v w → Contained u w
  Contained_trans u v w a b = record {
    same_root = b.same_root ∙ a.same_root;
    outside = λ p out.
        let first = a.outside p out in
        let second = b.outside p (λ i. out (i.0, i.1 ∙ ap (λ r. r ++ i.0) a.same_root)) in
        record {
          same_file = second.same_file ∙ first.same_file;
          same_text = second.same_text ∙ first.same_text;
        };
    recorded = (
      a.recorded.0 ++ b.recorded.0,
      b.recorded.1
          ∙ ap (λ l. l ++ b.recorded.0) a.recorded.1
          ∙ append_assoc u.violations a.recorded.0 b.recorded.0,
    );
  }

  -- A resolved path, the state that is left, and what a refusal records.
  pub data Resolves (relative : String) (w : Workspace D S)
      : Workspace D S × Result FilePath → Type 0 where
    granted : (p : FilePath) → Inside w.root p → Resolves relative w (w, done p)
    refused :
        (v : Violation) (text : String)
        → v.attempted ≡ relative
        → Resolves relative w (record_violation t v w, failed (path_escape text))
    invalid : (text : String) → Resolves relative w (w, failed (value_error text))

  resolve_with :
      (relative : String) (w : Workspace D S) (b : Bool)
      → accepts w.root (t.disk.realpath w.disk w.root relative) ≡ b
      → has_nul t relative ≡ false
      → Resolves relative w (resolve t relative w)
  unfolding resolve
  resolve_with relative w true h valid =
      let real = t.disk.realpath w.disk w.root relative in
      let passes : (not (path_eq real w.root) && not (any (path_eq w.root) (parents real)))
          ≡ false =
        ground arith in
      rw valid (rw passes (granted real (accepts-Inside w.root real h)))
  resolve_with relative w false h valid =
      let real = t.disk.realpath w.disk w.root relative in
      let fails : (not (path_eq real w.root) && not (any (path_eq w.root) (parents real))) ≡ true =
        ground arith in
      rw valid (rw fails (refused _ _ refl))

  pub resolve_lem :
      (relative : String) (w : Workspace D S) → Resolves relative w (resolve t relative w)
  unfolding resolve
  resolve_lem relative w = elim (Bool-cases (has_nul t relative)) [
    | inl e ↦ rw e (invalid _)
    | inr e ↦ resolve_with relative w _ refl e
  ]

  -- A change of a workspace with the given root.
  abbrev pub From : FilePath → Workspace D S → Workspace D S → Type 0
  From root w v = w.root ≡ root → Contained w v

  pub From-trans :
      (root : FilePath) (u v w : Workspace D S) → From root u v → From root v w → From root u w
  From-trans root u v w a b e =
      let first = a e in Contained_trans u v w first (b (first.same_root ∙ e))

  record_violation-Contained :
      (v : Violation) (w : Workspace D S) → Contained w (record_violation t v w)
  unfolding record_violation
  record_violation-Contained v w = record {
    same_root = refl;
    outside = λ p out. same p w.disk;
    recorded = (v ∷ [], refl);
  }

  after_resolve :
      {A : Type 0} (root : FilePath) (relative : String) (f : FilePath → Effect (Workspace D S) A)
      → ((p : FilePath) → Inside root p → Keeps (From root) (f p))
      → (w : Workspace D S) (x : Workspace D S × Result FilePath) → Resolves relative w x
      → From root w (continue_with x f).0
  after_resolve root relative f k w _ (granted p inside) e =
      k p (inside.0, inside.1 ∙ ap (λ r. r ++ inside.0) e) w e
  after_resolve root relative f k w _ (refused v text same_text) e = record_violation-Contained v w
  after_resolve root relative f k w _ (invalid text) e = Contained_refl w

  pub resolve-then :
      {A : Type 0} (root : FilePath) (relative : String) (f : FilePath → Effect (Workspace D S) A)
      → ((p : FilePath) → Inside root p → Keeps (From root) (f p))
      → Keeps (From root) (resolve t relative >>= f)
  resolve-then root relative f k w =
      after_resolve root relative f k w (resolve t relative w) (resolve_lem relative w)

  read_text-state : (p : FilePath) (w : Workspace D S) → (read_text t p w).0 ≡ w
  unfolding read_text
  read_text-state p w = ground arith

  read_before-state : (p : FilePath) (w : Workspace D S) → (read_before t p w).0 ≡ w
  unfolding read_before read_text
  read_before-state p w = ground arith

  pub kept : {v : Workspace D S} (w : Workspace D S) → v ≡ w → Contained w v
  kept w e = rw e (Contained_refl w)

  module _ (local : IsLocal t.disk) where
    make_parent-Keeps : (root p : FilePath) → Keeps (From root) (make_parent t p)
    unfolding make_parent
    make_parent-Keeps root p w e = record {
      same_root = refl;
      outside = λ q out. local.make_directory-SameAt w.disk _ q;
      recorded = ([], sym (append-nil w.violations));
    }

    write_text-Keeps :
        (root p : FilePath) (s : String) → Inside root p → Keeps (From root) (write_text t p s)
    unfolding write_text
    write_text-Keeps root p s inside w e = record {
      same_root = refl;
      outside = λ q out.
          local.write_text-SameAt w.disk p q s
            (λ same_path. out (inside.0, same_path ∙ inside.1 ∙ ap (λ r. r ++ inside.0) (sym e)));
      recorded = ([], sym (append-nil w.violations));
    }

    pub write_file-From :
        (root : FilePath) (relative contents : String)
        → Keeps (From root) (write_file t relative contents)
    unfolding write_file
    write_file-From root relative contents = resolve-then root relative _ λ p inside.
        bind_from (read_before t p) _ (λ w e. kept w (read_before-state p w))
          λ before. bind_from (make_parent t p) _ (make_parent-Keeps root p) λ _.
            bind_from (write_text t p contents) _ (write_text-Keeps root p contents inside)
              λ _ w e. Contained_refl w
      where
        bind_from :
            {A B : Type 0} (m : Effect (Workspace D S) A) (f : A → Effect (Workspace D S) B)
            → Keeps (From root) m
            → ((a : A) → Keeps (From root) (f a))
            → Keeps (From root) (m >>= f)
        bind_from = bind-Keeps (From root) (From-trans root)

    pub read_file-From :
        (root : FilePath) (relative : String) → Keeps (From root) (read_file t relative)
    unfolding read_file
    read_file-From root relative =
        resolve-then root relative _ (λ p inside w e. kept w (ground (arith, read_text-state p w)))

    removed :
        (root p : FilePath)
        → Inside root p
        → (w : Workspace D S) → w.root ≡ root
        → Contained w (record w { disk = (t.disk.unlink w.disk p).0 })
    removed root p inside w e = record {
      same_root = refl;
      outside = λ q out.
          local.unlink-SameAt w.disk p q
            (λ same_path. out (inside.0, same_path ∙ inside.1 ∙ ap (λ r. r ++ inside.0) (sym e)));
      recorded = ([], sym (append-nil w.violations));
    }

    delete_file-From :
        (root : FilePath) (relative : String) → Keeps (From root) (delete_file t relative)
    unfolding delete_file
    delete_file-From root relative = resolve-then root relative _ λ p inside w e.
        elim (Bool-cases (t.disk.is_file w.disk p)) [
          | inl file ↦ rw file (removed root p inside w e)
          | inr none_there ↦ rw none_there (Contained_refl w)
        ]

    -- On a disk whose operations are local, no file operation changes a file outside the root, and
    -- none takes back a recorded violation.
    operations-Contained :
        (relative contents : String) (w : Workspace D S)
        → Contained w (write_file t relative contents w).0
          × Contained w (read_file t relative w).0
          × Contained w (delete_file t relative w).0
          × Contained w (exists t relative w).0
    operations-Contained relative contents w = (
      write_file-From w.root relative contents w refl,
      read_file-From w.root relative w refl,
      delete_file-From w.root relative w refl,
      unfold exists in resolve-then w.root relative _ (λ p inside w e. Contained_refl w) w refl,
    )
