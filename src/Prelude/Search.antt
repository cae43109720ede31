-- ===== src/Prelude/Search.antt =====
-- Python's `str.count` and `str.replace(old, new, 1)` for an `old` that is not empty, `str.join`, and
-- the test that `str.strip` leaves nothing.
use Prim.Native.Nat.{ℕ, zero, suc, ◌+◌, ◌-◌}
use Prim.Native.String.{String}
use Prim.Native.Char.{Char, code}
use mathlib.Core.Path.{◌≡◌, refl, ◌∙◌, ap, sym}
use mathlib.Core.Logic.{inl, inr}
use mathlib.Core.Bool.{Bool, true, false, ◌&&◌, ◌||◌}
use mathlib.Core.Option.{Option, none, some}
use mathlib.Core.List.{List, [], ◌∷◌}
use native.Mathlib.Omega.{arith}
use text.Mathlib.Text.{◌==◌ as str_eq}
use text.Mathlib.TextEquality.{eq_iff}
use evalstack.Prelude.Tests.{if◌then◌else◌, leb, ◌==◌, Bool-cases}
use evalstack.Prelude.Text.{len, prefix, suffix_from, ◌+++◌}

-- `text.startswith(old)`
abbrev pub starts : String → String → Bool
starts old text = str_eq (prefix (len old) text) old

-- The occurrences found from the left, after `skip` more characters.
unfoldable pub count_from : ℕ → String → String → ℕ
count_from skip old String.[] = 0
count_from zero old (String.◌∷◌ c text) =
    let found = starts old (String.◌∷◌ c text) in
    (if found then 1 else 0) + count_from (if found then len old - 1 else 0) old text
count_from (suc skip) old (String.◌∷◌ c text) = count_from skip old text

-- `text.count(old)`
abbrev pub count : String → String → ℕ
count old text = count_from 0 old text

abbrev put_first : Char → Option (String × String) → Option (String × String)
put_first c none = none
put_first c (some (a, b)) = some (String.◌∷◌ c a, b)

-- What stands before and after the first occurrence.
unfoldable pub split_at : String → String → Option (String × String)
split_at old String.[] = none
split_at old (String.◌∷◌ c text) =
    let later = put_first c (split_at old text) in
    if starts old (String.◌∷◌ c text)
    then some ("", suffix_from (len old) (String.◌∷◌ c text))
    else later

-- `text.replace(old, new, 1)`
unfoldable pub replace_first : String → String → String → String
unfolding split_at
replace_first old new text = elim (split_at old text) [
  | none ↦ text
  | some (a, b) ↦ a +++ new +++ b
]

-- `separator.join(texts)`
unfoldable pub join : String → List String → String
join separator [] = ""
join separator (x ∷ []) = x
join separator (x ∷ y ∷ rest) = x +++ separator +++ join separator (y ∷ rest)

-- `str.isspace` of one character
abbrev pub is_space : ℕ → Bool
is_space n =
    (leb 9 n && leb n 13)
    || (leb 28 n && leb n 32)
    || n == 133
    || n == 160
    || n == 5760
    || (leb 8192 n && leb n 8202)
    || n == 8232
    || n == 8233
    || n == 8239
    || n == 8287
    || n == 12288

-- `not text.strip()`
unfoldable pub is_blank : String → Bool
is_blank String.[] = true
is_blank (String.◌∷◌ c text) = is_space (code c) && is_blank text

count_from-skip :
    (skip : ℕ) (old text : String) → count_from skip old text ≡ count old (suffix_from skip text)
unfolding count_from
count_from-skip zero old text = refl
count_from-skip (suc skip) old String.[] = refl
count_from-skip (suc skip) old (String.◌∷◌ c text) = count_from-skip skip old text

prefix-suffix : (n : ℕ) (s : String) → prefix n s +++ suffix_from n s ≡ s
prefix-suffix zero s = refl
prefix-suffix (suc n) String.[] = refl
prefix-suffix (suc n) (String.◌∷◌ c s) = ap (String.◌∷◌ c) (prefix-suffix n s)

module _ (old : String) (c : Char) (text : String) where
  count_found :
      starts old (String.◌∷◌ c text) ≡ true
      → count old (String.◌∷◌ c text) ≡ suc (count old (suffix_from (len old - 1) text))
  unfolding count_from
  count_found h = rw h (omega (arith, count_from-skip (len old - 1) old text))

  count_later :
      starts old (String.◌∷◌ c text) ≡ false → count old (String.◌∷◌ c text) ≡ count old text
  unfolding count_from
  count_later h = rw h (omega arith)

-- What the first occurrence splits the text into, and how many occurrences follow it.
abbrev pub Split : String → String → Option (String × String) → Type 0
Split old text none = count old text ≡ 0
Split old text (some (a, b)) = (text ≡ a +++ old +++ b) × (count old text ≡ suc (count old b))

Split-cons :
    (old : String) (c : Char) (text : String) (o : Option (String × String))
    → starts old (String.◌∷◌ c text) ≡ false
    → Split old text o
    → Split old (String.◌∷◌ c text) (put_first c o)
Split-cons old c text none no_start h = count_later old c text no_start ∙ h
Split-cons old c text (some (a, b)) no_start h =
    (ap (String.◌∷◌ c) h.0, count_later old c text no_start ∙ h.1)

pub split_at-Split :
    (d : Char) (old text : String)
    → Split (String.◌∷◌ d old) text (split_at (String.◌∷◌ d old) text)
unfolding split_at
split_at-Split d old String.[] = unfold count_from in refl
split_at-Split d old (String.◌∷◌ c text) =
    elim (Bool-cases (starts (String.◌∷◌ d old) (String.◌∷◌ c text))) [
      | inl found ↦ rw found (
        sym (prefix-suffix (len (String.◌∷◌ d old)) (String.◌∷◌ c text))
            ∙ ap (λ p. p +++ suffix_from (len (String.◌∷◌ d old)) (String.◌∷◌ c text))
                ((eq_iff _ _).0 found),
        count_found (String.◌∷◌ d old) c text found
            ∙ ap (λ n. suc (count (String.◌∷◌ d old) (suffix_from n text))) (pred_suc (len old)),
      )
      | inr later ↦
          rw later (Split-cons (String.◌∷◌ d old) c text _ later (split_at-Split d old text))
    ]
  where
    pred_suc : (n : ℕ) → suc n - 1 ≡ n
    pred_suc n = omega arith
