-- ===== src/Model/RateLimit/Observe.antt =====
-- RateLimiter.observe of model/rate_limit.py only ever tightens.
use evalstack.Prelude.{
  ℕ, zero, suc, ◌≤◌, ◌≡◌, ◌⊎◌, ◌∙◌, refl, List, [], ◌∷◌, Bool, true, Option, none, some, arith,
}
use evalstack.Prelude.Int.{ℤ, pos, negsuc}
use evalstack.Model.RateLimit.{RateLimits, RateLimiter, observe, observe_all, rate_limits}
use evalstack.Model.RateLimit.Waiting.{IsValid}

-- The allowance `b` is `a` or a tighter one.
abbrev pub IsTighter : Option ℕ → Option ℕ → Type 0
IsTighter none b = Unit
IsTighter (some a) none = ⊥
IsTighter (some a) (some b) = b ≤ a

abbrev AtMost : Option ℕ → ℤ → Type 0
AtMost none _ = ⊥
AtMost (some a) (pos n) = a ≤ n
AtMost (some a) (negsuc n) = ⊥

-- A reported allowance of 1 or more is heeded.
abbrev Heeded : Option ℤ → Option ℕ → Type 0
Heeded (some (pos (suc n))) allowance = AtMost allowance (pos (suc n))
Heeded _ allowance = Unit

pub record Tightened (s : RateLimiter) (reported : Option ℤ) (r : RateLimiter × Bool) : Type 0 where
  pub tighter : IsTighter s.limits.tokens_per_minute r.0.limits.tokens_per_minute
  pub requests_kept : r.0.limits.requests_per_minute ≡ s.limits.requests_per_minute
  pub events_kept : r.0.events ≡ s.events
  pub waits_kept : r.0.waits ≡ s.waits
  pub valid : IsValid r.0.limits
  pub taken_or_kept : (r.1 ≡ true) ⊎ (r.0 ≡ s)
  pub heeded : Heeded reported r.0.limits.tokens_per_minute

-- A reported allowance never loosens the limiter: the token allowance stays or falls, and is at most
-- a reported allowance of 1 or more; everything else, and the validity of the limits, is kept, and
-- an observation that is turned down changes nothing.
pub observe-Tightened :
    (s : RateLimiter) (reported : Option ℤ)
    → IsValid s.limits
    → Tightened s reported (observe s reported)
unfolding observe
observe-Tightened s none v = ground arith
observe-Tightened s (some (negsuc n)) v = ground arith
observe-Tightened s (some (pos zero)) v = ground arith
observe-Tightened s (some (pos (suc n))) v = ground arith

-- What is kept of a limiter while allowances are observed.
pub record Kept (s r : RateLimiter) : Type 0 where
  pub tighter : IsTighter s.limits.tokens_per_minute r.limits.tokens_per_minute
  pub requests_kept : r.limits.requests_per_minute ≡ s.limits.requests_per_minute
  pub events_kept : r.events ≡ s.events
  pub waits_kept : r.waits ≡ s.waits
  pub valid : IsValid r.limits

pub IsTighter-refl : (a : Option ℕ) → IsTighter a a
IsTighter-refl none = tt
IsTighter-refl (some a) = omega arith

pub IsTighter-trans : (a b c : Option ℕ) → IsTighter a b → IsTighter b c → IsTighter a c
IsTighter-trans none b c h k = tt
IsTighter-trans (some a) none c h k = absurd h
IsTighter-trans (some a) (some b) none h k = absurd k
IsTighter-trans (some a) (some b) (some c) h k = omega arith

pub observe_all-Kept :
    (rs : List (Option ℤ)) (s : RateLimiter) → IsValid s.limits → Kept s (observe_all rs s)
unfolding observe_all
observe_all-Kept [] s v = record {
  tighter = IsTighter-refl s.limits.tokens_per_minute;
  requests_kept = refl;
  events_kept = refl;
  waits_kept = refl;
  valid = v;
}
observe_all-Kept (r ∷ rs) s v =
    let t = observe-Tightened s r v in
    let k = observe_all-Kept rs (observe s r).0 t.valid in
    record {
      tighter = IsTighter-trans _ _ _ t.tighter k.tighter;
      requests_kept = k.requests_kept ∙ t.requests_kept;
      events_kept = k.events_kept ∙ t.events_kept;
      waits_kept = k.waits_kept ∙ t.waits_kept;
      valid = k.valid;
    }

abbrev WhenSome : (RateLimits → Type 0) → Option RateLimits → Type 0
WhenSome P none = Unit
WhenSome P (some l) = P l

-- Limits that the constructor accepts are valid.
rate_limits-IsValid : (requests tokens : Option ℤ) → WhenSome IsValid (rate_limits requests tokens)
unfolding rate_limits
rate_limits-IsValid none none = (tt, tt)
rate_limits-IsValid requests tokens = ground arith
