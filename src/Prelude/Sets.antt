-- ===== src/Prelude/Sets.antt =====
-- Python's sets of texts, as lists with no repetition.
use Prim.Native.String.{String}
use mathlib.Core.List.{List, [], ◌∷◌, ◌++◌}
use mathlib.Core.Path.{◌≡◌, refl, ◌∙◌}
use mathlib.Core.Bool.{Bool, true, false, not, ◌&&◌, ◌||◌}
use native.Mathlib.Omega.{arith}
use text.Mathlib.Text.{◌==◌ as str_eq}
use text.Mathlib.TextEquality.{eq_iff}
use evalstack.Prelude.Lists.{keep, any, is_empty}
use evalstack.Prelude.Sort.{sort, str_leb, insert_sorted}

-- `a in xs`
abbrev pub mem : String → List String → Bool
mem a xs = any (str_eq a) xs

unfoldable pub distinct : List String → List String
distinct [] = []
distinct (x ∷ xs) = x ∷ keep (λ y. not (str_eq x y)) (distinct xs)

pub mem-append : (a : String) (xs ys : List String) → mem a (xs ++ ys) ≡ (mem a xs || mem a ys)
mem-append a [] ys = ground arith
mem-append a (x ∷ xs) ys = ground (arith, mem-append a xs ys)

pub mem-keep :
    (p : String → Bool) (a : String) (xs : List String) → mem a (keep p xs) ≡ (p a && mem a xs)
mem-keep p a [] = ground arith
mem-keep p a (x ∷ xs) = ground (arith, mem-keep p a xs, eq_iff a x)

pub mem-distinct : (a : String) (xs : List String) → mem a (distinct xs) ≡ mem a xs
unfolding distinct
mem-distinct a [] = refl
mem-distinct a (x ∷ xs) = ground (
  arith,
  mem-keep (λ y. not (str_eq x y)) a (distinct xs),
  mem-distinct a xs,
  eq_iff a x,
  eq_iff x a,
)

mem-insert :
    (a x : String) (xs : List String)
    → mem a (insert_sorted str_leb x xs) ≡ (str_eq a x || mem a xs)
unfolding insert_sorted
mem-insert a x [] = refl
mem-insert a x (y ∷ ys) = ground (arith, mem-insert a x ys)

pub mem-sort : (a : String) (xs : List String) → mem a (sort str_leb xs) ≡ mem a xs
unfolding sort
mem-sort a [] = refl
mem-sort a (x ∷ xs) = mem-insert a x (sort str_leb xs) ∙ ground (arith, mem-sort a xs)

-- A list is empty exactly if nothing is in it.
pub empty_iff : (xs : List String) → ((a : String) → mem a xs ≡ false) → is_empty xs ≡ true
empty_iff [] h = refl
empty_iff (x ∷ xs) h = absurd (ground (arith, h x, eq_iff x x))

pub empty-mem : (xs : List String) (a : String) → is_empty xs ≡ true → mem a xs ≡ false
empty-mem [] a h = refl
empty-mem (x ∷ xs) a h = absurd (ground arith)
