-- ===== src/Trace/Truncate/Bounds.antt =====
-- `truncate` of trace.py: the result never exceeds the limit, and keeps both ends of a long text.
use evalstack.Prelude.{
  ℕ, zero, suc, ◌-◌, ◌/◌, ◌≤◌, ◌<◌, ◌≡◌, ◌⊎◌, refl, String, Bool-cases, inl, inr, some, arith, leb,
  ℕ_discrete,
}
use evalstack.Prelude.Text.{
  len, prefix, last_chars, ◌+++◌, len-+++, len-prefix, len-prefix-le, len-last_chars,
}
use evalstack.Trace.Truncate.Decimal.{decimal, len-decimal_mono}
use evalstack.Trace.Truncate.{elision, cut, truncate}

len-elision_mono : (n m : ℕ) → n ≤ m → len (elision n) ≤ len (elision m)
unfolding elision
len-elision_mono n m h = omega (
  arith,
  len-decimal_mono n m h,
  len-+++ (decimal n) " characters omitted] …\n",
  len-+++ (decimal m) " characters omitted] …\n",
)

-- How much of a text too long for the limit is kept.
abbrev pub kept : String → ℕ → ℕ
kept text limit = limit - len (elision (len text))

-- What a cut text looks like: the first and the last characters that are kept, and how many between
-- them are gone.
abbrev pub both_ends : String → ℕ → String
both_ends text budget =
    prefix (budget / 2) text
    +++ (elision (len text - budget) +++ last_chars (budget - budget / 2) text)

cut-le :
    (text : String) (limit : ℕ) → limit < len text → len (cut text limit (kept text limit)) ≤ limit
unfolding cut
cut-le text limit long =
    let budget = kept text limit in
    let head = budget / 2 in
    let tail = budget - head in
    let marker = elision (len text - budget) in
    ground (
      arith,
      len-prefix-le limit text,
      len-prefix head text,
      len-last_chars tail text,
      len-+++ (prefix head text) marker,
      len-+++ (prefix head text) (marker +++ last_chars tail text),
      len-+++ marker (last_chars tail text),
      len-elision_mono (len text - budget) (len text),
    )

cut-both_ends :
    (text : String) (limit : ℕ)
    → 0 < kept text limit
    → cut text limit (kept text limit) ≡ both_ends text (kept text limit)
unfolding cut
cut-both_ends text limit h = ground arith

pub record Truncated (text : String) (limit : ℕ) (r : String) : Type 0 where
  pub fits : len r ≤ limit
  pub shape :
      ((len text ≤ limit) × (r ≡ text))
      ⊎ ((limit < len text) × (0 < kept text limit) × (r ≡ both_ends text (kept text limit)))
      ⊎ ((limit < len text) × (kept text limit ≡ 0) × (r ≡ prefix limit text))

cut-shape :
    (text : String) (limit : ℕ)
    → limit < len text
    → ((limit < len text)
        × (0 < kept text limit)
        × (cut text limit (kept text limit) ≡ both_ends text (kept text limit)))
      ⊎ ((limit < len text)
          × (kept text limit ≡ 0)
          × (cut text limit (kept text limit) ≡ prefix limit text))
unfolding cut
cut-shape text limit long = elim (ℕ_discrete (kept text limit) 0) [
  | yes gone ↦ inr (long, gone, ground arith)
  | no room ↦ inl (long, omega arith, cut-both_ends text limit (omega arith))
]

-- With a positive limit a text is always cut to at most the limit, the marker counted in; a text
-- that fits is unchanged; a longer one keeps its two ends if the marker leaves room for them, and
-- its beginning if not.
pub truncate-Truncated :
    (text : String) (limit : ℕ)
    → 0 < limit
    → (r : String) × (truncate text limit ≡ some r) × Truncated text limit r
unfolding truncate
truncate-Truncated text zero h = absurd (omega arith)
truncate-Truncated text (suc n) h = elim (Bool-cases (leb (len text) (suc n))) [
  | inl fits ↦ (text, rw fits, record { fits = ground arith; shape = inl (ground arith, refl) })
  | inr long ↦ (
    cut text (suc n) (kept text (suc n)),
    rw long,
    record {
      fits = cut-le text (suc n) (ground arith);
      shape = inr (cut-shape text (suc n) (ground arith));
    },
  )
]

truncate-le :
    (text : String) (limit : ℕ) {r : String} → truncate text limit ≡ some r → len r ≤ limit
unfolding truncate
truncate-le text zero h = absurd (ground arith)
truncate-le text (suc n) {r} h = elim (Bool-cases (leb (len text) (suc n))) [
  | inl fits ↦ ground arith
  | inr long ↦ ground (arith, cut-le text (suc n))
]
