-- ===== src/Schema/Dataset/Reference.antt =====
-- DatasetRef of schema/dataset.py: parsing and printing are inverse.
use evalstack.Prelude.{
  ℕ, ◌≡◌, refl, ap, ◌∙◌, String, Bool, true, false, Option, none, some, arith, eq_iff, ◌==◌,
  Bool-cases, inl, inr,
}
use evalstack.Prelude.Text.{◌+++◌}
use text.Mathlib.TextEquality.{codes_equal}
use Prim.Native.Char.{Char, code}
use evalstack.Schema.Dataset.{
  matches_rest, name_matches, is_name_char, version_matches, partition, DatasetRef, show, reference,
  checked, parse, put_first,
}

at_sign : (c : Char) → (code c == 64) ≡ true → c ≡ "@"
at_sign c h = codes_equal c "@" (ground arith)

splits_cons :
    (c : Char) (s a b : String) (o : Option (String × String))
    → ((a' b' : String) → o ≡ some (a', b') → s ≡ a' +++ "@" +++ b')
    → put_first c o ≡ some (a, b)
    → String.◌∷◌ c s ≡ a +++ "@" +++ b
splits_cons c s a b none ih h = absurd (ground arith)
splits_cons c s a b (some (a', b')) ih h =
    let e : String.◌∷◌ c a' ≡ a = ground arith in
    let f : b' ≡ b = ground arith in ap (String.◌∷◌ c) (ih a' b' refl) ∙ rw (← e, ← f) refl

partition-splits : (s a b : String) → partition s ≡ some (a, b) → s ≡ a +++ "@" +++ b
unfolding partition
partition-splits String.[] a b h = absurd (ground arith)
partition-splits (String.◌∷◌ c s) a b h = elim (Bool-cases (code c == 64)) [
  | inl at ↦
      let e : "" ≡ a = ground arith in
      let f : s ≡ b = ground arith in ap (λ x. String.◌∷◌ x s) (at_sign c at) ∙ rw (← e, ← f) refl
  | inr more ↦ splits_cons c s a b (partition s) (partition-splits s) (rw more at h)
]

-- A text that a name pattern accepts has no separator in it.
rest-partition :
    (a b : String) → matches_rest is_name_char a ≡ true → partition (a +++ "@" +++ b) ≡ some (a, b)
unfolding matches_rest partition
rest-partition String.[] b h = refl
rest-partition (String.◌∷◌ c a) b h = elim (Bool-cases (matches_rest is_name_char a)) [
  | inl ok ↦
      let other : (code c == 64) ≡ false = ground arith in rw (other, rest-partition a b ok) refl
  | inr bad ↦
      let newline : code c ≡ 10 = ground arith in
      let last : a ≡ "" = ground (arith, eq_iff a "") in
      let other : (code c == 64) ≡ false = ground arith in rw (other, last) refl
]

name-partition : (a b : String) → name_matches a ≡ true → partition (a +++ "@" +++ b) ≡ some (a, b)
unfolding name_matches partition
name-partition String.[] b h = absurd (ground arith)
name-partition (String.◌∷◌ c a) b h =
    let other : (code c == 64) ≡ false = ground arith in
    rw (other, rest-partition a b (ground arith)) refl

module _ (digit : ℕ → Bool) where
  abbrev pub IsWellFormed : DatasetRef → Type 0
  IsWellFormed r = (name_matches r.name ≡ true) × (version_matches digit r.version ≡ true)

  checked-reference :
      (name version : String) (r : DatasetRef)
      → checked digit name version ≡ reference r
      → (r ≡ record { name = name; version = version }) × IsWellFormed r
  unfolding checked
  checked-reference name version r h = ground arith

  parsed_at :
      (ref : String) (r : DatasetRef) (o : Option (String × String))
      → partition ref ≡ o
      → parse digit ref ≡ reference r
      → (ref ≡ show r) × IsWellFormed r
  unfolding parse show
  parsed_at ref r none e h = absurd (ground arith)
  parsed_at ref r (some (a, b)) e h =
      let (same, good) = checked-reference a b r (rw (e, parse) at h) in
      (partition-splits ref a b e ∙ rw same refl, good)

  -- A well-formed reference parses back from what it prints, and a text parses to a reference only
  -- if the reference is well-formed and prints as that text.
  pub parse-show :
      (r : DatasetRef) (text : String)
      → (IsWellFormed r → parse digit (show r) ≡ reference r)
        × (parse digit text ≡ reference r → (text ≡ show r) × IsWellFormed r)
  unfolding parse show checked
  parse-show r text = (
    λ good. rw (name-partition r.name r.version good.0, parse) (rw (good.0, good.1) refl),
    parsed_at text r _ refl,
  )
