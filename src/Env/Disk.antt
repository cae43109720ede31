-- ===== src/Env/Disk.antt =====
-- The file system and the processes that env/workspace.py works on. A path is the list of its parts.
pub mod Path
pub mod Memory
pub use Path.{FilePath}
use evalstack.Prelude.{ℕ, ◌≡◌, ◌≢◌, String, Bool, true, Option, List}
use evalstack.Prelude.Int.{ℤ}

-- What reading or writing a text gives; `not_text` is a `UnicodeError`.
pub data ReadText : Type 0 where
  decoded : String → ReadText
  unreadable not_text : String → ReadText

pub data WriteText : Type 0 where
  written : WriteText
  unwritable not_encodable : String → WriteText

-- A finished process: `timed_out` with no exit code.
pub record ProcessResult : Type 0 where
  pub exit_code : Option ℤ
  pub stdout : String
  pub stderr : String
  pub duration_ms : ℕ
  pub timed_out : Bool

pub record Disk (D : Type 0) : Type 0 where
  -- `os.path.realpath(root / relative)`
  pub realpath : D → FilePath → String → FilePath
  pub is_file : D → FilePath → Bool
  pub read_text : D → FilePath → ReadText
  -- `read_bytes`, or the text of an `OSError`
  pub bytes_hash : D → FilePath → ReadText
  -- `mkdir(parents=True, exist_ok=True)` of a directory, with the text of an `OSError`
  pub make_directory : D → FilePath → D × Option String
  pub write_text : D → FilePath → String → D × WriteText
  pub unlink : D → FilePath → D × Option String
  -- `root.rglob("*")`, relative to `root`
  pub rglob : D → FilePath → List FilePath
  -- a process in the directory, with its arguments and a timeout in milliseconds
  pub spawn : D → FilePath → List String → ℕ → D × ProcessResult

module _ {D : Type 0} (disk : Disk D) where
  -- The file at `p` is the same on both disks.
  pub record SameAt (p : FilePath) (d e : D) : Type 0 where
    pub same_file : disk.is_file e p ≡ disk.is_file d p
    pub same_text : disk.read_text e p ≡ disk.read_text d p

  -- Making a directory leaves every file alone; writing and unlinking leave the other files alone.
  pub record IsLocal : Type 0 where
    pub make_directory-SameAt : (d : D) (p q : FilePath) → SameAt q d (disk.make_directory d p).0
    pub write_text-SameAt :
        (d : D) (p q : FilePath) (s : String) → q ≢ p → SameAt q d (disk.write_text d p s).0
    pub unlink-SameAt : (d : D) (p q : FilePath) → q ≢ p → SameAt q d (disk.unlink d p).0

  -- A text that was written reads back, and where paths lead is not changed by writing. Universal
  -- newlines make the first false of a text with a carriage return, so it is asked of one text.
  pub record KeepsText (s : String) : Type 0 where
    pub read-write :
        (d : D) (p : FilePath)
        → (disk.write_text d p s).1 ≡ written
        → disk.read_text (disk.write_text d p s).0 p ≡ decoded s
    pub is_file-write :
        (d : D) (p : FilePath)
        → (disk.write_text d p s).1 ≡ written
        → disk.is_file (disk.write_text d p s).0 p ≡ true
    pub realpath-write :
        (d : D) (p root : FilePath) (relative : String)
        → disk.realpath (disk.write_text d p s).0 root relative ≡ disk.realpath d root relative
    pub realpath-make_directory :
        (d : D) (p root : FilePath) (relative : String)
        → disk.realpath (disk.make_directory d p).0 root relative ≡ disk.realpath d root relative
