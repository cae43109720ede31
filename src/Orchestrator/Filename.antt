-- ===== src/Orchestrator/Filename.antt =====
-- `_safe_filename` of orchestrator/runner.py. The hash of a text is an argument.
use evalstack.Prelude.{
  ℕ, String, Bool, true, false, not, ◌&&◌, ◌||◌, ◌==◌, leb, str_eq, if◌then◌else◌,
}
use evalstack.Prelude.Text.{◌+++◌}
use Prim.Native.Char.{code}

abbrev in_range : (low high n : ℕ) → Bool
in_range low high n = leb low n && leb n high

-- `[A-Za-z0-9._-]`
abbrev is_safe : ℕ → Bool
is_safe n =
    in_range 65 90 n || in_range 97 122 n || in_range 48 57 n || n == 46 || n == 95 || n == 45

-- `_UNSAFE_FILENAME_CHARS.sub("_", value)`; `inside` tells that the character before was replaced.
abbrev sanitised : (inside : Bool) → String → String
sanitised inside String.[] = String.[]
sanitised inside (String.◌∷◌ x s) =
    let after_safe = sanitised false s in
    let after_unsafe = sanitised true s in
    if is_safe (code x)
    then String.◌∷◌ x after_safe
    else if inside
    then after_unsafe
    else "_" +++ after_unsafe

-- A character that `strip("._")` takes off.
abbrev is_stripped : ℕ → Bool
is_stripped n = n == 46 || n == 95

abbrev strip_start : String → String
strip_start String.[] = String.[]
strip_start (String.◌∷◌ x s) =
    let rest = strip_start s in if is_stripped (code x) then rest else String.◌∷◌ x s

abbrev strip_end : String → String
strip_end String.[] = String.[]
strip_end (String.◌∷◌ x s) =
    let rest = strip_end s in
    if str_eq rest "" && is_stripped (code x) then "" else String.◌∷◌ x rest

unfoldable pub safe_filename : (short_hash : String → String) → String → String
safe_filename short_hash value =
    let cleaned = strip_end (strip_start (sanitised false value)) in
    if str_eq cleaned ""
    then "unnamed-" +++ short_hash value
    else if not (str_eq cleaned value)
    then cleaned +++ "-" +++ short_hash value
    else cleaned
