-- ===== src/Model/RateLimit/Window.antt =====
-- RateLimiter of model/rate_limit.py: what one round of `acquire` admits.
use evalstack.Prelude.{
  ℕ, zero, suc, ◌+◌, ◌-◌, ◌≤◌, ◌<◌, ◌≡◌, refl, ◌⊎◌, inl, inr, some, List, [], ◌∷◌, length,
  get_elem?, leb, All, arith, Bool-cases,
}
use evalstack.Model.RateLimit.{
  window, Event, prune, request_wait, used_tokens, wait_to_fit, token_wait,
}

-- Every event is still inside the window that ends now.
abbrev pub IsFresh : ℕ → List Event → Type 0
IsFresh now = All (λ e. now < e.at + window)

-- Oldest first, as time goes on.
abbrev pub IsChronological : List Event → Type 0
IsChronological [] = Unit
IsChronological (e ∷ es) = All (λ x. e.at ≤ x.at) es × IsChronological es

pub later-IsFresh :
    (now : ℕ) (e : Event) (es : List Event)
    → now < e.at + window
    → All (λ x. e.at ≤ x.at) es
    → IsFresh now es
later-IsFresh now e [] h a = tt
later-IsFresh now e (x ∷ es) h a = (omega arith, later-IsFresh now e es h a.1)

pub prune-IsFresh : (now : ℕ) (es : List Event) → IsChronological es → IsFresh now (prune now es)
unfolding prune
prune-IsFresh now [] c = tt
prune-IsFresh now (e ∷ es) c = ground (arith, prune-IsFresh now es c.1, later-IsFresh now e es)

pub prune-IsChronological :
    (now : ℕ) (es : List Event) → IsChronological es → IsChronological (prune now es)
unfolding prune
prune-IsChronological now [] c = tt
prune-IsChronological now (e ∷ es) c = ground (arith, prune-IsChronological now es c.1)

get-IsFresh :
    (now i : ℕ) (es : List Event)
    → i < length es
    → IsFresh now es
    → (e : Event) × (get_elem? es i ≡ some e) × (now < e.at + window)
get-IsFresh now i [] h f = absurd (omega arith)
get-IsFresh now zero (e ∷ es) h f = (e, refl, f.0)
get-IsFresh now (suc i) (e ∷ es) h f = get-IsFresh now i es (omega arith) f.1

-- With a fresh window and no wait there is room for one more request.
pub request_wait-zero :
    (cap now : ℕ) (es : List Event)
    → 0 < cap
    → IsFresh now es
    → request_wait (some cap) es now ≡ 0
    → length es < cap
unfolding request_wait
request_wait-zero cap now es p f z = elim (Bool-cases (leb cap (length es))) [
  | inl full ↦
      let (e, at, fresh) = get-IsFresh now (length es - cap) es (ground arith) f in
      absurd (ground arith)
  | inr room ↦ ground arith
]

wait_to_fit-zero :
    (cap used tokens now freed : ℕ) (es : List Event)
    → IsFresh now es
    → freed + used_tokens es ≡ used
    → wait_to_fit cap used tokens now freed es ≡ 0
    → cap < used - freed + tokens
    → cap < tokens
unfolding wait_to_fit
wait_to_fit-zero cap used tokens now freed [] f e z h = omega arith
wait_to_fit-zero cap used tokens now freed (x ∷ es) f e z h =
    ground (arith, wait_to_fit-zero cap used tokens now (freed + x.tokens) es f.1)

-- With a fresh window and no wait the tokens fit, or no window could hold the call.
pub token_wait-zero :
    (cap now tokens : ℕ) (es : List Event)
    → IsFresh now es
    → token_wait (some cap) es now tokens ≡ 0
    → (used_tokens es + tokens ≤ cap) ⊎ (cap < tokens)
unfolding token_wait
token_wait-zero cap now tokens es f z =
    ground (arith, wait_to_fit-zero cap (used_tokens es) tokens now 0 es f)
