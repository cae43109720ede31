-- ===== src/Trace/Truncate.antt =====
-- `truncate` of trace.py: a text is cut to a limit, with both of its ends kept.
pub mod Decimal
pub mod Bounds
use evalstack.Prelude.{
  ℕ, zero, suc, ◌+◌, ◌-◌, ◌/◌, ◌≤◌, ◌<◌, ◌≡◌, refl, String, Bool-cases, inl, inr, Option, none,
  some, arith, leb, ◌==◌, if◌then◌else◌, ℕ_discrete, ◌∙◌, sym, ap,
}
use evalstack.Prelude.Text.{
  len, prefix, last_chars, suffix_from, ◌+++◌, len-+++, len-prefix, len-prefix-le, len-last_chars,
  prefix-+++, +++_assoc,
}
use Decimal.{decimal, len-decimal_mono}

-- `_ELISION.format(omitted=n)`
pub elision : ℕ → String
unfolding decimal
elision omitted = "\n… [" +++ (decimal omitted +++ " characters omitted] …\n")

-- The cases of a positive limit.
cut : String → ℕ → (budget : ℕ) → String
cut text limit budget =
    let head = budget / 2 in
    let tail = budget - head in
    let marker = elision (len text - budget) in
    if budget == 0
    then prefix limit text
    else if tail == 0
    then prefix head text +++ marker
    else prefix head text +++ (marker +++ last_chars tail text)

-- `none` where a limit of 0 raises `ValueError`.
unfoldable pub truncate : String → ℕ → Option String
unfolding cut elision
truncate text zero = none
truncate text (suc n) =
    let limit = suc n in
    if leb (len text) limit
    then some text
    else some (cut text limit (limit - len (elision (len text))))
