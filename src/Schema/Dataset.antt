-- ===== src/Schema/Dataset.antt =====
-- schema/dataset.py: references to datasets, and datasets with their checks. `digit` is what `\d`
-- matches, the decimal digits of Unicode, by code point.
pub mod Reference
pub mod Subset
use evalstack.Prelude.{
  ℕ, ◌+◌, String, Bool, true, false, not, ◌&&◌, ◌||◌, Option, none, some, List, [], ◌∷◌, ◌++◌, map,
  keep, any, all, is_empty, length, if◌then◌else◌, str_eq, leb, ◌==◌,
}
use evalstack.Prelude.Text.{◌+++◌}
use evalstack.Schema.Case.{EvalCase}
use Prim.Native.Char.{Char, code}

-- `[a-z0-9]`
abbrev pub is_name_start : ℕ → Bool
is_name_start n = (leb 97 n && leb n 122) || (leb 48 n && leb n 57)

-- `[a-z0-9._-]`
abbrev pub is_name_char : ℕ → Bool
is_name_char n = is_name_start n || n == 46 || n == 95 || n == 45

-- `p*$`: the end is also matched before a newline that ends the text.
unfoldable pub matches_rest : (ℕ → Bool) → String → Bool
matches_rest p String.[] = true
matches_rest p (String.◌∷◌ c s) =
    let rest = matches_rest p s in (p (code c) && rest) || (code c == 10 && str_eq s "")

-- `_NAME_RE`
unfoldable pub name_matches : String → Bool
unfolding matches_rest
name_matches String.[] = false
name_matches (String.◌∷◌ c s) = is_name_start (code c) && matches_rest is_name_char s

-- `_VERSION_RE`
unfoldable pub digits_match : (ℕ → Bool) → String → Bool
unfolding matches_rest
digits_match digit String.[] = false
digits_match digit (String.◌∷◌ c s) = digit (code c) && matches_rest digit s

unfoldable pub version_matches : (ℕ → Bool) → String → Bool
unfolding digits_match
version_matches digit String.[] = false
version_matches digit (String.◌∷◌ c s) = code c == 118 && digits_match digit s

abbrev put_first : Char → Option (String × String) → Option (String × String)
put_first c none = none
put_first c (some (a, b)) = some (String.◌∷◌ c a, b)

-- `ref.partition("@")`, or `none` with no separator
unfoldable pub partition : String → Option (String × String)
partition String.[] = none
partition (String.◌∷◌ c s) =
    let later = put_first c (partition s) in if code c == 64 then some ("", s) else later

pub record DatasetRef : Type 0 where
  pub name : String
  pub version : String

-- `__str__`
unfoldable pub show : DatasetRef → String
show r = r.name +++ "@" +++ r.version

-- The `ValueError`s of the checks.
pub data RefError : Type 0 where
  no_separator bad_name bad_version : RefError

pub data Parsed : Type 0 where
  reference : DatasetRef → Parsed
  invalid : RefError → Parsed

module _ (digit : ℕ → Bool) where
  unfoldable pub checked : (name version : String) → Parsed
  unfolding name_matches version_matches
  checked name version =
      if not (name_matches name)
      then invalid bad_name
      else if not (version_matches digit version)
      then invalid bad_version
      else reference (record { name = name; version = version })

  -- `DatasetRef.parse`
  unfoldable pub parse : String → Parsed
  unfolding checked partition
  parse ref = elim (partition ref) [
    | none ↦ invalid no_separator
    | some (name, version) ↦ checked name version
  ]

pub record Dataset : Type 0 where
  pub name : String
  pub version : String
  pub description : String
  pub cases : List EvalCase

-- The loop of `_check_unique_case_ids`, with the ids seen.
unfoldable pub duplicates : List String → List EvalCase → List String
duplicates seen [] = []
duplicates seen (c ∷ cs) =
    let rest = duplicates (c.case_id ∷ seen) cs in
    if any (str_eq c.case_id) seen then c.case_id ∷ rest else rest

-- The constructor; `none` is a `ValidationError`.
unfoldable pub dataset : (ℕ → Bool) → Dataset → Option Dataset
unfolding duplicates name_matches version_matches
dataset digit d =
    let valid =
      name_matches d.name
      && version_matches digit d.version
      && not (is_empty d.cases)
      && is_empty (duplicates [] d.cases) in
    if valid then some d else none

-- `ref`
abbrev pub ref : Dataset → DatasetRef
ref d = record { name = d.name; version = d.version }

-- `case_by_id`, over the cases; `none` is a `KeyError`.
unfoldable pub find_case : String → List EvalCase → Option EvalCase
find_case case_id [] = none
find_case case_id (c ∷ cs) = if str_eq c.case_id case_id then some c else find_case case_id cs

unfoldable pub case_by_id : Dataset → String → Option EvalCase
unfolding find_case
case_by_id d case_id = find_case case_id d.cases

abbrev has_id : List EvalCase → String → Bool
has_id cases case_id = any (λ c. str_eq c.case_id case_id) cases

unfoldable pub subset : Dataset → List String → Option Dataset
subset d case_ids =
    let kept = keep (λ c. any (str_eq c.case_id) case_ids) d.cases in
    if all (has_id d.cases) case_ids then some (record d { cases = kept }) else none

pub record DatasetManifest : Type 0 where
  pub name : String
  pub version : String
  pub description : String
  pub case_count : ℕ
  pub content_hash : String
  pub generator : String
  pub seed : Option ℕ

-- `DatasetManifest.for_dataset`, with the content hash of the dataset
unfoldable pub for_dataset : (Dataset → String) → Dataset → String → Option ℕ → DatasetManifest
for_dataset content_hash d generator seed = record {
  name = d.name;
  version = d.version;
  description = d.description;
  case_count = length d.cases;
  content_hash = content_hash d;
  generator = generator;
  seed = seed;
}
