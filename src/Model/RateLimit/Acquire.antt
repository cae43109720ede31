-- ===== src/Model/RateLimit/Acquire.antt =====
-- RateLimiter.acquire of model/rate_limit.py: the rounds of its loop, and how many there are.
use evalstack.Prelude.{
  ◌≢◌, ℕ_discrete, ℕ, zero, suc, ◌+◌, ◌≤◌, ◌<◌, ◌≡◌, inl, inr, some, Option, List, [], ◌∷◌, ◌++◌,
  arith, Bool-cases, ◌∙◌, sym, subst,
}
use evalstack.Model.RateLimit.{
  RateLimits, Event, RateLimiter, prune, wait_needed, round, acquire_loop, acquire, is_unlimited,
  observe_all,
}
use evalstack.Model.RateLimit.Window.{IsChronological, prune-IsChronological}
use evalstack.Prelude.Int.{ℤ}
use evalstack.Model.RateLimit.Observe.{Kept, observe_all-Kept}
use evalstack.Model.RateLimit.Waiting.{IsPositive, IsValid, request_wait-enough, token_wait-enough}

wait_needed-enough :
    (l : RateLimits) (tokens now later : ℕ) (es : List Event)
    → IsPositive l.requests_per_minute
    → IsChronological es
    → now + wait_needed l es now tokens ≤ later
    → wait_needed l (prune later es) later tokens ≡ 0
unfolding wait_needed
wait_needed-enough l tokens now later es p c w = omega (
  arith,
  request_wait-enough l.requests_per_minute now later es p c (omega arith),
  token_wait-enough l.tokens_per_minute tokens now later es c (omega arith),
)

-- The limiter after an admission, and after a wait.
abbrev pub admitted : RateLimiter → ℕ → ℕ → RateLimiter
admitted s now tokens = record s {
  events = prune now s.events ++ record { at = now; tokens = tokens } ∷ [];
}

abbrev pub wait_of : RateLimiter → ℕ → ℕ → ℕ
wait_of s now tokens = wait_needed s.limits (prune now s.events) now tokens

abbrev pub waited : RateLimiter → ℕ → ℕ → RateLimiter
waited s now tokens = record s {
  events = prune now s.events;
  waits = s.waits + 1;
  total_wait = s.total_wait + wait_of s now tokens;
}

-- The limiter after the wait, with the allowances observed meanwhile.
abbrev pub woken : (ℕ → List (Option ℤ)) → RateLimiter → ℕ → ℕ → RateLimiter
woken reported s now tokens = observe_all (reported (s.waits + 1)) (waited s now tokens)

module _ (late : ℕ → ℕ) (reported : ℕ → List (Option ℤ)) (s : RateLimiter)
    (now tokens fuel : ℕ) where
  -- One round of the loop.
  pub loop-admit :
      wait_of s now tokens ≡ 0
      → acquire_loop late reported (suc fuel) s now tokens ≡ some (admitted s now tokens, now)
  unfolding acquire_loop round
  loop-admit h = ground arith

  pub loop-sleep :
      wait_of s now tokens ≢ 0
      → acquire_loop late reported (suc fuel) s now tokens
        ≡ acquire_loop late reported fuel
            (woken reported s now tokens)
            (now + wait_of s now tokens + late (s.waits + 1))
            tokens
  unfolding acquire_loop round
  loop-sleep h = ground arith

-- No allowance is observed once the number of waits is past `n`.
abbrev pub IsQuietAfter : ℕ → (ℕ → List (Option ℤ)) → Type 0
IsQuietAfter n reported = (k : ℕ) → n < k → reported k ≡ []

module _ (late : ℕ → ℕ) (reported : ℕ → List (Option ℤ)) (s : RateLimiter) (now tokens : ℕ)
    (v : IsValid s.limits) (c : IsChronological s.events) where
  waited-wait :
      wait_of (waited s now tokens) (now + wait_of s now tokens + late (s.waits + 1)) tokens ≡ 0
  waited-wait =
      wait_needed-enough s.limits tokens now (now + wait_of s now tokens + late (s.waits + 1))
        (prune now s.events) v.0 (prune-IsChronological now s.events c) (omega arith)

  woken-wait :
      reported (s.waits + 1) ≡ []
      → wait_of
          (woken reported s now tokens)
          (now + wait_of s now tokens + late (s.waits + 1))
          tokens
        ≡ 0
  unfolding observe_all
  woken-wait q = rw q waited-wait

  woken-Kept : Kept (waited s now tokens) (woken reported s now tokens)
  woken-Kept = observe_all-Kept (reported (s.waits + 1)) (waited s now tokens) v

  woken-IsChronological : IsChronological (woken reported s now tokens).events
  woken-IsChronological =
      subst IsChronological (sym woken-Kept.events_kept) (prune-IsChronological now s.events c)

acquire_loop_terminates :
    (late : ℕ → ℕ) (reported : ℕ → List (Option ℤ)) (n : ℕ) (s : RateLimiter) (now tokens fuel : ℕ)
    → IsValid s.limits
    → IsChronological s.events
    → IsQuietAfter (s.waits + n) reported
    → n ≤ fuel
    → (r : RateLimiter × ℕ) × (acquire_loop late reported (suc (suc fuel)) s now tokens ≡ some r)
acquire_loop_terminates late reported zero s now tokens fuel v c q room =
    elim (ℕ_discrete (wait_of s now tokens) 0) [
      | yes ready ↦
          ((admitted s now tokens, now), loop-admit late reported s now tokens (suc fuel) ready)
      | no busy ↦
          let later = now + wait_of s now tokens + late (s.waits + 1) in
          let awake = woken reported s now tokens in
          (
            (admitted awake later tokens, later),
            loop-sleep late reported s now tokens (suc fuel) busy
                ∙ loop-admit late reported awake later tokens fuel
                    (woken-wait late reported s now tokens v c (q (s.waits + 1) (omega arith))),
          )
    ]
acquire_loop_terminates late reported (suc n) s now tokens zero v c q room = absurd (omega arith)
acquire_loop_terminates late reported (suc n) s now tokens (suc fuel) v c q room =
    elim (ℕ_discrete (wait_of s now tokens) 0) [
      | yes ready ↦ (
        (admitted s now tokens, now),
        loop-admit late reported s now tokens (suc (suc fuel)) ready,
      )
      | no busy ↦
          let later = now + wait_of s now tokens + late (s.waits + 1) in
          let awake = woken reported s now tokens in
          let k = woken-Kept late reported s now tokens v c in
          let (r, e) =
            acquire_loop_terminates late reported n awake later tokens fuel k.valid
              (woken-IsChronological late reported s now tokens v c)
              (λ m above. q m (omega (arith, k.waits_kept))) (omega arith) in
          (r, loop-sleep late reported s now tokens (suc (suc fuel)) busy ∙ e)
    ]

-- With valid limits and the admissions in order of time, `acquire` returns, however late its sleeps
-- wake up: if no allowance is observed during the sleeps after the first `n`, it returns within any
-- number of rounds that is at least `n + 2`.
pub acquire_terminates :
    (late : ℕ → ℕ) (reported : ℕ → List (Option ℤ)) (n : ℕ) (s : RateLimiter) (now tokens fuel : ℕ)
    → IsValid s.limits
    → IsChronological s.events
    → IsQuietAfter (s.waits + n) reported
    → n ≤ fuel
    → (r : RateLimiter × ℕ) × (acquire late reported (suc (suc fuel)) s now tokens ≡ some r)
unfolding acquire
acquire_terminates late reported n s now tokens fuel v c q room =
    let (r, e) = acquire_loop_terminates late reported n s now tokens fuel v c q room in
    elim (Bool-cases (is_unlimited s.limits)) [
      | inl free ↦ ((s, now), rw free)
      | inr limited ↦ (r, rw limited e)
    ]
