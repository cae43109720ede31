-- ===== src/Env/Disk/Memory.antt =====
-- A disk in memory: a text for each path that is a file, and no links but one way out of any root.
use evalstack.Prelude.{
  ◌≡◌, ◌≢◌, refl, ap, String, Bool, true, false, Option, none, some, [], ◌∷◌, ◌++◌, str_eq,
  if◌then◌else◌, Bool-cases, inl, inr,
}
use evalstack.Prelude.Int.{pos}
use evalstack.Env.Disk.Path.{FilePath, path_eq, path_eq_sound, path_eq_refl}
use evalstack.Env.Disk.{
  Disk, ReadText, decoded, unreadable, written, ProcessResult, SameAt, IsLocal, KeepsText,
}

abbrev pub Files : Type 0
Files = FilePath → Option String

abbrev read : Option String → ReadText
read none = unreadable "no such file"
read (some s) = decoded s

abbrev is_some : Option String → Bool
is_some none = false
is_some (some s) = true

abbrev put : Option String → FilePath → Files → Files
put value p d q = if path_eq q p then value else d q

abbrev quiet : ProcessResult
quiet = record {
  exit_code = some (pos 0);
  stdout = "2 passed";
  stderr = "";
  duration_ms = 1;
  timed_out = false;
}

abbrev pub memory : Disk Files
memory = record {
  realpath = λ d root relative.
      if str_eq relative "../secret" then "secret" ∷ [] else root ++ relative ∷ [];
  is_file = λ d p. is_some (d p);
  read_text = λ d p. read (d p);
  bytes_hash = λ d p. read (d p);
  make_directory = λ d p. (d, none);
  write_text = λ d p s. (put (some s) p d, written);
  unlink = λ d p. (put none p d, none);
  rglob = λ d root. [];
  spawn = λ d root argv timeout. (d, quiet);
}

put_ne : (value : Option String) (p q : FilePath) (d : Files) → q ≢ p → put value p d q ≡ d q
put_ne value p q d ne = elim (Bool-cases (path_eq q p)) [
  | inl e ↦ absurd (ne (path_eq_sound q p e))
  | inr e ↦ rw e
]

elsewhere :
    (value : Option String) (p q : FilePath) (d : Files) → q ≢ p → SameAt memory q d (put value p d)
elsewhere value p q d ne = record {
  same_file = ap is_some (put_ne value p q d ne);
  same_text = ap read (put_ne value p q d ne);
}

pub memory-IsLocal : IsLocal memory
memory-IsLocal = record {
  make_directory-SameAt = λ d p q. record { same_file = refl; same_text = refl };
  write_text-SameAt = λ d p q s. elsewhere (some s) p q d;
  unlink-SameAt = λ d p q. elsewhere none p q d;
}

pub memory-KeepsText : (s : String) → KeepsText memory s
memory-KeepsText s = record {
  read-write = λ d p ok. rw (path_eq_refl p);
  is_file-write = λ d p ok. rw (path_eq_refl p);
  realpath-write = λ d p root relative. refl;
  realpath-make_directory = λ d p root relative. refl;
}
