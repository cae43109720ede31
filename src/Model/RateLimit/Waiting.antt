-- ===== src/Model/RateLimit/Waiting.antt =====
-- RateLimiter._wait_needed of model/rate_limit.py: after the wait that it asks for, no wait is left.
use evalstack.Prelude.{
  ℕ, zero, suc, ◌+◌, ◌-◌, ◌≤◌, ◌<◌, ◌≡◌, refl, ◌⊎◌, inl, inr, Option, none, some, List, [], ◌∷◌,
  length, get_elem?, leb, All, arith, Bool-cases,
}
use evalstack.Model.RateLimit.{
  window, RateLimits, Event, prune, request_wait, used_tokens, wait_to_fit, token_wait,
}
use evalstack.Model.RateLimit.Window.{IsFresh, IsChronological, later-IsFresh}

prune-fresh : (now : ℕ) (es : List Event) → IsFresh now es → prune now es ≡ es
unfolding prune
prune-fresh now [] f = refl
prune-fresh now (e ∷ es) f = ground arith

length-prune-le : (now : ℕ) (es : List Event) → length (prune now es) ≤ length es
unfolding prune
length-prune-le now [] = omega arith
length-prune-le now (e ∷ es) = ground (arith, length-prune-le now es)

used-prune-le : (now : ℕ) (es : List Event) → used_tokens (prune now es) ≤ used_tokens es
unfolding prune
used-prune-le now [] = omega arith
used-prune-le now (e ∷ es) = ground (arith, used-prune-le now es)

aged-all :
    (now i : ℕ) (e x : Event) (es : List Event)
    → All (λ x. e.at ≤ x.at) es
    → get_elem? es i ≡ some x
    → e.at ≤ x.at
aged-all now i e x [] a g = absurd (ground arith)
aged-all now zero e x (y ∷ es) a g = ground arith
aged-all now (suc i) e x (y ∷ es) a g = aged-all now i e x es a.1 g

-- Once event `i` has aged out, so have those before it.
length-prune :
    (now i : ℕ) (e : Event) (es : List Event)
    → IsChronological es
    → get_elem? es i ≡ some e
    → e.at + window ≤ now
    → length (prune now es) + i + 1 ≤ length es
unfolding prune
length-prune now i e [] c g a = absurd (ground arith)
length-prune now zero e (x ∷ es) c g a = ground (arith, length-prune-le now es)
length-prune now (suc i) e (x ∷ es) c g a =
    ground (arith, length-prune now i e es c.1 g a, aged-all now i x e es c.0 g)

-- After the wait the tokens fit, or no window could hold the call.
wait_to_fit-enough :
    (cap used tokens now later freed : ℕ) (es : List Event)
    → IsChronological es
    → freed + used_tokens es ≡ used
    → now + wait_to_fit cap used tokens now freed es ≤ later
    → (used_tokens (prune later es) + tokens ≤ cap) ⊎ (cap < tokens)
unfolding wait_to_fit prune
wait_to_fit-enough cap used tokens now later freed [] c e w = ground arith
wait_to_fit-enough cap used tokens now later freed (x ∷ es) c e w = ground (
  arith,
  wait_to_fit-enough cap used tokens now later (freed + x.tokens) es c.1,
  used-prune-le later es,
  later-IsFresh later x es,
  prune-fresh later es,
)

wait_to_fit-oversize :
    (cap used tokens now freed : ℕ) (es : List Event)
    → cap < tokens
    → wait_to_fit cap used tokens now freed es ≡ 0
unfolding wait_to_fit
wait_to_fit-oversize cap used tokens now freed [] h = refl
wait_to_fit-oversize cap used tokens now freed (x ∷ es) h =
    ground (arith, wait_to_fit-oversize cap used tokens now (freed + x.tokens) es h)

pub token_wait-enough :
    (cap : Option ℕ) (tokens now later : ℕ) (es : List Event)
    → IsChronological es
    → now + token_wait cap es now tokens ≤ later
    → token_wait cap (prune later es) later tokens ≡ 0
unfolding token_wait
token_wait-enough none tokens now later es c w = refl
token_wait-enough (some cap) tokens now later es c w = ground (
  arith,
  wait_to_fit-enough cap (used_tokens es) tokens now later 0 es c,
  used-prune-le later es,
  wait_to_fit-oversize cap (used_tokens (prune later es)) tokens later 0 (prune later es),
)

abbrev pub IsPositive : Option ℕ → Type 0
IsPositive none = Unit
IsPositive (some n) = 0 < n

get_elem?-some :
    {A : Type 0} (i : ℕ) (xs : List A) → i < length xs → (a : A) × (get_elem? xs i ≡ some a)
get_elem?-some i [] h = absurd (omega arith)
get_elem?-some zero (x ∷ xs) h = (x, refl)
get_elem?-some (suc i) (x ∷ xs) h = get_elem?-some i xs (omega arith)

pub request_wait-enough :
    (cap : Option ℕ) (now later : ℕ) (es : List Event)
    → IsPositive cap
    → IsChronological es
    → now + request_wait cap es now ≤ later
    → request_wait cap (prune later es) later ≡ 0
unfolding request_wait
request_wait-enough none now later es p c w = refl
request_wait-enough (some cap) now later es p c w = elim (Bool-cases (leb cap (length es))) [
  | inl full ↦
      let (e, g) = get_elem?-some (length es - cap) es (ground arith) in
      ground (arith, length-prune later (length es - cap) e es c g)
  | inr room ↦ ground (arith, length-prune-le later es)
]

-- The constructor of `RateLimits` and `observe` keep every allowance at least 1.
abbrev pub IsValid : RateLimits → Type 0
IsValid l = IsPositive l.requests_per_minute × IsPositive l.tokens_per_minute
