-- ===== src/Trace/Truncate/Decimal.antt =====
-- `str(n)` of a natural number, as the elision marker prints it.
use evalstack.Prelude.{
  ℕ, zero, suc, ◌/◌, ◌%◌, ◌≤◌, ◌≡◌, refl, String, List, [], ◌∷◌, arith, get_or, ltb, if◌then◌else◌,
}
use evalstack.Prelude.Text.{len, ◌+++◌, len-+++}

abbrev digits : List String
digits = "0" ∷ "1" ∷ "2" ∷ "3" ∷ "4" ∷ "5" ∷ "6" ∷ "7" ∷ "8" ∷ "9" ∷ []

digit : ℕ → String
digit d = get_or digits d "?"

-- The fuel bounds the number of digits.
decimal_from : ℕ → ℕ → String
unfolding digit
decimal_from zero n = digit n
decimal_from (suc fuel) n =
    let front = decimal_from fuel (n / 10) in if ltb n 10 then digit n else front +++ digit (n % 10)

unfoldable pub decimal : ℕ → String
unfolding decimal_from
decimal n = decimal_from n n

len-digit : (d : ℕ) → len (digit d) ≡ 1
unfolding digit
len-digit zero = refl
len-digit (suc zero) = refl
len-digit (suc (suc zero)) = refl
len-digit (suc (suc (suc zero))) = refl
len-digit (suc (suc (suc (suc zero)))) = refl
len-digit (suc (suc (suc (suc (suc zero))))) = refl
len-digit (suc (suc (suc (suc (suc (suc zero)))))) = refl
len-digit (suc (suc (suc (suc (suc (suc (suc zero))))))) = refl
len-digit (suc (suc (suc (suc (suc (suc (suc (suc zero)))))))) = refl
len-digit (suc (suc (suc (suc (suc (suc (suc (suc (suc n))))))))) = rest n
  where
    rest : (n : ℕ) → len (get_or ("9" ∷ []) n "?") ≡ 1
    rest zero = refl
    rest (suc n) = refl

len-decimal_from-pos : (f n : ℕ) → 1 ≤ len (decimal_from f n)
unfolding decimal_from
len-decimal_from-pos zero n = omega (arith, len-digit n)
len-decimal_from-pos (suc f) n =
    ground
      (arith, len-digit n, len-digit (n % 10), len-+++ (decimal_from f (n / 10)) (digit (n % 10)))

len-decimal_from_mono :
    (f g n m : ℕ) → n ≤ m → n ≤ f → m ≤ g → len (decimal_from f n) ≤ len (decimal_from g m)
unfolding decimal_from
len-decimal_from_mono zero g n m le nf mg = omega (arith, len-digit n, len-decimal_from-pos g m)
len-decimal_from_mono (suc f) zero n m le nf mg = ground (arith, len-digit n, len-digit m)
len-decimal_from_mono (suc f) (suc g) n m le nf mg = ground (
  arith,
  len-digit n,
  len-digit m,
  len-digit (n % 10),
  len-digit (m % 10),
  len-+++ (decimal_from f (n / 10)) (digit (n % 10)),
  len-+++ (decimal_from g (m / 10)) (digit (m % 10)),
  len-decimal_from_mono f g (n / 10) (m / 10),
)

-- A larger number is at least as long.
pub len-decimal_mono : (n m : ℕ) → n ≤ m → len (decimal n) ≤ len (decimal m)
unfolding decimal
len-decimal_mono n m le = len-decimal_from_mono n m n m le (omega arith) (omega arith)

decimal_runs : decimal 1206 ≡ "1206"
unfolding decimal
decimal_runs = refl
