-- ===== src/Env/Workspace.antt =====
-- Workspace of env/workspace.py. `on_violation` acts on an observer of type `S`, which the caller
-- shares. `repr`, `posix`, the hash and the diff of two texts are arguments.
pub mod Containment
pub mod Roundtrip
pub mod Diff
use Prim.Native.Char.{code}
use evalstack.Prelude.{
  ℕ, zero, ◌+◌, ◌≡◌, String, Bool, true, false, not, ◌&&◌, ◌||◌, Option, none, some, List, [], ◌∷◌,
  ◌++◌, map, keep, any, is_empty, if◌then◌else◌, str_eq, ◌==◌, ltb, leb, length,
}
use evalstack.Prelude.Int.{ℤ, pos, negsuc}
use evalstack.Prelude.Text.{◌+++◌, len, prefix, last_chars}
use evalstack.Prelude.Dict.{Dict, get}
use evalstack.Prelude.Sort.{sort, str_leb}
use evalstack.Prelude.Effect.{
  Fault, path_escape, file_not_found, os_error, value_error, Result, done, failed, Effect, pure,
  raise, ◌>>=◌, ◌>>◌, continue_with,
}
use evalstack.Env.Disk.Path.{parents, parent, path_eq}
use evalstack.Env.Disk.{
  FilePath, Disk, ReadText, decoded, unreadable, not_text, WriteText, written, unwritable,
  not_encodable, ProcessResult,
}

pub record Violation : Type 0 where
  pub rule : String
  pub detail : String
  pub attempted : String

pub record CommandResult : Type 0 where
  pub argv : List String
  pub process : ProcessResult
  pub open process use *

-- `CommandResult.ok`
unfoldable pub ok : CommandResult → Bool
ok r =
    let clean : Bool = elim r.exit_code [
      | none ↦ false
      | some (pos n) ↦ n == 0
      | some (negsuc n) ↦ false
    ] in
    clean && not r.timed_out

pub record FileEditRecord : Type 0 where
  pub path : String
  pub before_hash : Option String
  pub after_hash : String
  pub lines_added : ℕ
  pub lines_removed : ℕ
  pub diff : String

-- `FileEditRecord.created`
abbrev pub created : FileEditRecord → Bool
created r = elim r.before_hash [ none ↦ true | some h ↦ false ]

pub record FileDiff : Type 0 where
  pub added : List String
  pub modified : List String
  pub deleted : List String

abbrev starts_with : String → String → Bool
starts_with text fragment = str_eq (prefix (len fragment) text) fragment

-- The loop of `_count_line_changes` over the lines of the diff: added and removed lines.
unfoldable pub count_changes : List String → ℕ × ℕ
count_changes [] = (0, 0)
count_changes (line ∷ lines) =
    let rest = count_changes lines in
    if starts_with line "+++" || starts_with line "---" || starts_with line "@@"
    then rest
    else if starts_with line "+"
    then (rest.0 + 1, rest.1)
    else if starts_with line "-"
    then (rest.0, rest.1 + 1)
    else rest

abbrev ignored_names : List String
ignored_names = "__pycache__" ∷ ".pytest_cache" ∷ ".mypy_cache" ∷ ".git" ∷ []

abbrev has_suffix : String → String → Bool
has_suffix suffix name = ltb (len suffix) (len name) && str_eq (last_chars (len suffix) name) suffix

abbrev last_part : FilePath → String
last_part [] = ""
last_part (p ∷ []) = p
last_part (_ ∷ p ∷ ps) = last_part (p ∷ ps)

-- `_is_ignored`
unfoldable pub is_ignored : FilePath → Bool
is_ignored relative =
    any (λ part. any (str_eq part) ignored_names) relative
    || has_suffix ".pyc" (last_part relative)
    || has_suffix ".pyo" (last_part relative)

-- `relative.as_posix()`
abbrev as_posix : FilePath → String
as_posix [] = ""
as_posix (p ∷ []) = p
as_posix (p ∷ q ∷ rest) = p +++ "/" +++ as_posix (q ∷ rest)

pub record Workspace (D S : Type 0) : Type 0 where
  pub root : FilePath
  pub disk : D
  pub observer : S
  pub violations : List Violation
  pub baseline : Dict String

-- What the workspace calls and does not implement.
pub record Tools (D S : Type 0) : Type 0 where
  pub disk : Disk D
  pub on_violation : Violation → S → S
  pub repr : String → String
  pub text_hash : String → String
  -- `difflib.unified_diff` of the two texts by lines, with no context
  pub changed_lines : String → String → List String
  -- `_unified_diff`
  pub unified_diff : String → String → String → String

module _ {D S : Type 0} (t : Tools D S) where
  -- `_record_violation`
  unfoldable pub record_violation : Violation → Workspace D S → Workspace D S
  record_violation v w = record w {
    violations = w.violations ++ v ∷ [];
    observer = t.on_violation v w.observer;
  }

  -- A NUL character, with which `os.path.realpath` raises a `ValueError`.
  abbrev pub has_nul : String → Bool
  has_nul String.[] = false
  has_nul (String.◌∷◌ x s) = code x == 0 || has_nul s

  unfoldable pub resolve : String → Effect (Workspace D S) FilePath
  unfolding record_violation parents path_eq
  resolve relative w =
      let real = t.disk.realpath w.disk w.root relative in
      let violation : Violation = record {
        rule = "path_escape";
        detail = "resolved outside workspace root to /" +++ as_posix real;
        attempted = relative;
      } in
      if has_nul relative
      then raise (value_error "embedded null byte") w
      else if not (path_eq real w.root) && not (any (path_eq w.root) (parents real))
      then (
        record_violation violation w,
        failed (path_escape ("path " +++ t.repr relative +++ " resolves outside the workspace")),
      )
      else (w, done real)

  unfoldable pub exists : String → Effect (Workspace D S) Bool
  unfolding resolve
  exists relative = do path ← resolve relative; λ w. (w, done (t.disk.is_file w.disk path))

  unfoldable pub list_files : Workspace D S → List String
  unfolding is_ignored
  list_files w =
      let files = keep (λ p. t.disk.is_file w.disk (w.root ++ p)) (t.disk.rglob w.disk w.root) in
      sort str_leb (map as_posix (keep (λ p. not (is_ignored p)) files))

  -- `path.read_text(encoding="utf-8")`
  unfoldable pub read_text : FilePath → Effect (Workspace D S) String
  read_text path w = elim (t.disk.read_text w.disk path) [
    | decoded s ↦ (w, done s)
    | unreadable e ↦ (w, failed (os_error e))
    | not_text e ↦ (w, failed (value_error e))
  ]

  unfoldable pub read_file : String → Effect (Workspace D S) String
  unfolding resolve read_text
  read_file relative = do
    path ← resolve relative
    λ w.
        if t.disk.is_file w.disk path
        then read_text path w
        else raise (file_not_found ("no such file in workspace: " +++ relative)) w

  -- The text before the write, if there is a file.
  unfoldable pub read_before : FilePath → Effect (Workspace D S) (Option String)
  unfolding read_text
  read_before path w =
      let before : Effect (Workspace D S) (Option String) = (do
        s ← read_text path
        pure (some s)) in
      if t.disk.is_file w.disk path then before w else (w, done none)

  unfoldable pub make_parent : FilePath → Effect (Workspace D S) (Unit {0})
  unfolding parent
  make_parent path w =
      let (d, e) = t.disk.make_directory w.disk (parent path) in
      let fault : Result (Unit {0}) = elim e [
        | none ↦ done tt
        | some text ↦ failed (os_error text)
      ] in
      (record w { disk = d }, fault)

  unfoldable pub write_text : FilePath → String → Effect (Workspace D S) (Unit {0})
  write_text path contents w =
      let (d, e) = t.disk.write_text w.disk path contents in
      let result : Result (Unit {0}) = elim e [
        | written ↦ done tt
        | unwritable text ↦ failed (os_error text)
        | not_encodable text ↦ failed (value_error text)
      ] in
      (record w { disk = d }, result)

  abbrev or_empty : Option String → String
  or_empty none = ""
  or_empty (some s) = s

  -- `_count_line_changes` and the record of the edit.
  unfoldable pub edit_record : String → Option String → String → FileEditRecord
  unfolding count_changes
  edit_record relative before contents =
      let changes = count_changes (t.changed_lines (or_empty before) contents) in
      let before_hash : Option String = elim before [
        | none ↦ none
        | some s ↦ some (t.text_hash s)
      ] in
      record {
        path = relative;
        before_hash = before_hash;
        after_hash = t.text_hash contents;
        lines_added = changes.0;
        lines_removed = changes.1;
        diff = t.unified_diff (or_empty before) contents relative;
      }

  unfoldable pub write_file : String → String → Effect (Workspace D S) FileEditRecord
  unfolding resolve read_before make_parent write_text edit_record
  write_file relative contents = do
    path ← resolve relative
    before ← read_before path
    make_parent path
    write_text path contents
    pure (edit_record relative before contents)

  unfoldable pub delete_file : String → Effect (Workspace D S) Bool
  unfolding resolve
  delete_file relative = do
    path ← resolve relative
    λ w.
        let (d, e) = t.disk.unlink w.disk path in
        let result : Result Bool = elim e [
          | none ↦ done true
          | some text ↦ failed (os_error text)
        ] in
        if t.disk.is_file w.disk path then (record w { disk = d }, result) else (w, done false)

  -- `bytes_hash(self.resolve(name).read_bytes())`
  unfoldable pub hash_of : String → Effect (Workspace D S) String
  unfolding resolve
  hash_of name = do
    path ← resolve name
    λ w. elim (t.disk.bytes_hash w.disk path) [
      | decoded s ↦ (w, done s)
      | unreadable e ↦ (w, failed (os_error e))
      | not_text e ↦ (w, failed (value_error e))
    ]

  unfoldable pub hash_all : List String → Effect (Workspace D S) (Dict String)
  unfolding hash_of
  hash_all [] = pure []
  hash_all (name ∷ names) = do h ← hash_of name; rest ← hash_all names; pure ((name, h) ∷ rest)

  unfoldable pub snapshot : Effect (Workspace D S) (Dict String)
  unfolding list_files hash_all
  snapshot w = hash_all (list_files w) w

  unfoldable pub set_baseline : Effect (Workspace D S) (Unit {0})
  unfolding snapshot
  set_baseline = do current ← snapshot; λ w. (record w { baseline = current }, done tt)

  abbrev has_key : Dict String → String → Bool
  has_key d k = elim (get k d) [ none ↦ false | some h ↦ true ]

  abbrev differs : Dict String → Dict String → String → Bool
  differs a b k = elim (get k a) [
    | none ↦ false
    | some x ↦ elim (get k b) [ none ↦ false | some y ↦ not (str_eq x y) ]
  ]

  -- The three lists of `diff`, of the names of a baseline and a snapshot.
  unfoldable pub compare_snapshots : (baseline current : Dict String) → FileDiff
  unfolding get
  compare_snapshots baseline current =
      let old = map (λ e. e.0) baseline in
      let new = map (λ e. e.0) current in
      record {
        added = sort str_leb (keep (λ k. not (has_key baseline k)) new);
        modified = sort str_leb (keep (differs current baseline) new);
        deleted = sort str_leb (keep (λ k. not (has_key current k)) old);
      }

  unfoldable pub diff : Effect (Workspace D S) FileDiff
  unfolding snapshot compare_snapshots
  diff = do current ← snapshot; λ w. (w, done (compare_snapshots w.baseline current))

  unfoldable pub run : List String → ℕ → Effect (Workspace D S) CommandResult
  run argv timeout w =
      let (d, p) = t.disk.spawn w.disk w.root argv timeout in
      if is_empty argv
      then raise (value_error "argv must not be empty") w
      else (record w { disk = d }, done (record { argv = argv; process = p }))
