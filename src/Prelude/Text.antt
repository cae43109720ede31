-- ===== src/Prelude/Text.antt =====
-- Python's `str` as the native text: its length, slices and concatenation in code points.

use Prim.Native.String.{String}
use Prim.Native.Nat.{ℕ, zero, suc, ◌+◌, ◌-◌, ◌≤◌}
use mathlib.Core.Path.{◌≡◌, refl, ap}
use native.Mathlib.Omega.{arith}

-- `len(s)`
abbrev pub len : String → ℕ
len String.[] = 0
len (String.◌∷◌ c s) = suc (len s)

-- `s[:n]`
abbrev pub prefix : ℕ → String → String
prefix zero s = String.[]
prefix (suc n) String.[] = String.[]
prefix (suc n) (String.◌∷◌ c s) = String.◌∷◌ c (prefix n s)

-- `s[n:]`
abbrev pub suffix_from : ℕ → String → String
suffix_from zero s = s
suffix_from (suc n) String.[] = String.[]
suffix_from (suc n) (String.◌∷◌ c s) = suffix_from n s

-- `s[-n:]`, for 0 < n
abbrev pub last_chars : ℕ → String → String
last_chars n s = suffix_from (len s - n) s

-- `s + t`
infixr 65 ◌+++◌
abbrev pub ◌+++◌ : String → String → String
String.[] +++ t = t
(String.◌∷◌ c s) +++ t = String.◌∷◌ c (s +++ t)

pub len-+++ : (s t : String) → len (s +++ t) ≡ len s + len t
len-+++ String.[] t = omega arith
len-+++ (String.◌∷◌ c s) t = omega (arith, len-+++ s t)

pub len-prefix : (n : ℕ) (s : String) → n ≤ len s → len (prefix n s) ≡ n
len-prefix zero s h = refl
len-prefix (suc n) String.[] h = absurd (omega arith)
len-prefix (suc n) (String.◌∷◌ c s) h = ap suc (len-prefix n s (omega arith))

pub len-prefix-le : (n : ℕ) (s : String) → len (prefix n s) ≤ n
len-prefix-le zero s = omega arith
len-prefix-le (suc n) String.[] = omega arith
len-prefix-le (suc n) (String.◌∷◌ c s) = omega (arith, len-prefix-le n s)

len-suffix_from : (n : ℕ) (s : String) → len (suffix_from n s) ≡ len s - n
len-suffix_from zero s = omega arith
len-suffix_from (suc n) String.[] = omega arith
len-suffix_from (suc n) (String.◌∷◌ c s) = omega (arith, len-suffix_from n s)

pub len-last_chars : (n : ℕ) (s : String) → n ≤ len s → len (last_chars n s) ≡ n
len-last_chars n s h = omega (arith, len-suffix_from (len s - n) s)

pub prefix-+++ : (n : ℕ) (s t : String) → n ≤ len s → prefix n (prefix n s +++ t) ≡ prefix n s
prefix-+++ zero s t h = refl
prefix-+++ (suc n) String.[] t h = absurd (omega arith)
prefix-+++ (suc n) (String.◌∷◌ c s) t h = ap (String.◌∷◌ c) (prefix-+++ n s t (omega arith))

suffix_from-+++ : (s t : String) → suffix_from (len s) (s +++ t) ≡ t
suffix_from-+++ String.[] t = refl
suffix_from-+++ (String.◌∷◌ c s) t = suffix_from-+++ s t

pub +++_assoc : (s t u : String) → (s +++ t) +++ u ≡ s +++ (t +++ u)
+++_assoc String.[] t u = refl
+++_assoc (String.◌∷◌ c s) t u = ap (String.◌∷◌ c) (+++_assoc s t u)
