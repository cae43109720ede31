-- ===== src/Model/RateLimit/History.antt =====
-- RateLimiter of model/rate_limit.py from its construction on, against the list of all the admissions
-- that it recorded.
use evalstack.Prelude.{
  ℕ, zero, suc, ◌+◌, ◌≤◌, ◌≡◌, refl, false, Option, true, some, List, [], ◌∷◌, ◌++◌, arith, sym,
  ◌∙◌, ℕ_discrete,
}
use mathlib.Core.Path.{subst}
use mathlib.Core.Option.{some-injective}
use evalstack.Model.RateLimit.{
  RateLimits, Event, RateLimiter, prune, acquire_loop, acquire, is_unlimited, observe, new_limiter,
}
use evalstack.Model.RateLimit.Window.{prune-IsFresh}
use evalstack.Prelude.Int.{ℤ}
use evalstack.Model.RateLimit.Waiting.{IsValid}
use evalstack.Model.RateLimit.Observe.{
  IsTighter, IsTighter-refl, IsTighter-trans, observe-Tightened, observe_all-Kept,
}
use evalstack.Model.RateLimit.Acquire.{waited, woken, wait_of, loop-admit, loop-sleep}
use evalstack.Model.RateLimit.Admission.{
  Remembers, Admission, later-IsOld, later-IsPast, Remembers-prune, admit-Admission,
}

-- The promise of `acquire` to a limiter `s`, for its result: it holds under the limits in force when
-- it returns, which are those it was called under or tighter.
pub record Grants (s : RateLimiter) (h : List Event) (now tokens : ℕ) (r : RateLimiter × ℕ)
    : Type 0 where
  pub admission : Admission r.0.limits h r.1 tokens r.0.events
  pub later : now ≤ r.1
  pub valid : IsValid r.0.limits
  pub requests_kept : r.0.limits.requests_per_minute ≡ s.limits.requests_per_minute
  pub tighter : IsTighter s.limits.tokens_per_minute r.0.limits.tokens_per_minute

acquire_loop-Grants :
    (late : ℕ → ℕ) (reported : ℕ → List (Option ℤ)) (fuel : ℕ) (s : RateLimiter) (now tokens : ℕ)
    (h : List Event) (since : ℕ) (r : RateLimiter × ℕ)
    → IsValid s.limits
    → Remembers h since s.events
    → since ≤ now
    → acquire_loop late reported fuel s now tokens ≡ some r
    → Grants s h now tokens r
unfolding acquire_loop
acquire_loop-Grants late reported zero s now tokens h since r v m le e = absurd (ground arith)
acquire_loop-Grants late reported (suc fuel) s now tokens h since r v m le e =
    let m' = Remembers-prune now le m in
    elim (ℕ_discrete (wait_of s now tokens) 0) [
      | yes ready ↦
          subst (Grants s h now tokens)
            (some-injective _ _ (sym (loop-admit late reported s now tokens fuel ready) ∙ e))
            (record {
              admission =
                  admit-Admission s.limits h now tokens (prune now s.events) v m'
                    (prune-IsFresh now s.events m.chronological) ready;
              later = omega arith;
              valid = v;
              requests_kept = refl;
              tighter = IsTighter-refl s.limits.tokens_per_minute;
            })
      | no busy ↦
          let awake = woken reported s now tokens in
          let k = observe_all-Kept (reported (s.waits + 1)) (waited s now tokens) v in
          let g =
            acquire_loop-Grants late reported fuel awake
              (now + wait_of s now tokens + late (s.waits + 1)) tokens h now r k.valid
              (subst (Remembers h now) (sym k.events_kept) m') (omega arith)
              (sym (loop-sleep late reported s now tokens fuel busy) ∙ e) in
          record {
            admission = g.admission;
            later = omega (arith, g.later);
            valid = g.valid;
            requests_kept = g.requests_kept ∙ k.requests_kept;
            tighter = IsTighter-trans _ _ _ k.tighter g.tighter;
          }
    ]

limited-Grants :
    (late : ℕ → ℕ) (reported : ℕ → List (Option ℤ)) (fuel : ℕ) (s : RateLimiter) (now tokens : ℕ)
    (h : List Event) (since : ℕ) (r : RateLimiter × ℕ)
    → IsValid s.limits
    → is_unlimited s.limits ≡ false
    → Remembers h since s.events
    → since ≤ now
    → acquire late reported fuel s now tokens ≡ some r
    → Grants s h now tokens r
unfolding acquire
limited-Grants late reported fuel s now tokens h since r v limited m le e =
    acquire_loop-Grants late reported fuel s now tokens h since r v m le (rw limited at e)

-- The limiters that its operations reach, with the admissions made under some limit so far and the
-- time. A call under no limit admits without recording.
pub data Reach : RateLimiter → List Event → ℕ → Type 0 where
  start : (l : RateLimits) (now : ℕ) → IsValid l → Reach (new_limiter l) [] now
  observes :
      {s : RateLimiter} {h : List Event} {now : ℕ} (reported : Option ℤ)
      → Reach s h now
      → Reach (observe s reported).0 h now
  passes :
      {s : RateLimiter} {h : List Event} {now : ℕ} (late : ℕ → ℕ) (reported : ℕ → List (Option ℤ))
      (fuel later tokens : ℕ) (r : RateLimiter × ℕ)
      → Reach s h now
      → now ≤ later
      → is_unlimited s.limits ≡ true
      → acquire late reported fuel s later tokens ≡ some r
      → Reach r.0 h r.1
  acquires :
      {s : RateLimiter} {h : List Event} {now : ℕ} (late : ℕ → ℕ) (reported : ℕ → List (Option ℤ))
      (fuel later tokens : ℕ) (r : RateLimiter × ℕ)
      → Reach s h now
      → now ≤ later
      → is_unlimited s.limits ≡ false
      → acquire late reported fuel s later tokens ≡ some r
      → Reach r.0 (h ++ record { at = r.1; tokens = tokens } ∷ []) r.1

unlimited-acquire :
    (late : ℕ → ℕ) (reported : ℕ → List (Option ℤ)) (fuel : ℕ) (s : RateLimiter) (now tokens : ℕ)
    → is_unlimited s.limits ≡ true
    → acquire late reported fuel s now tokens ≡ some (s, now)
unfolding acquire
unlimited-acquire late reported fuel s now tokens u = rw u refl

later-Remembers :
    {h : List Event} {now : ℕ} {es : List Event} (later : ℕ)
    → now ≤ later
    → Remembers h now es
    → Remembers h later es
later-Remembers {now} {es} later le m = record {
  dropped = m.dropped;
  split = m.split;
  old = later-IsOld now later m.dropped le m.old;
  chronological = m.chronological;
  past = later-IsPast now later es le m.past;
}

abbrev Sound : List Event → ℕ → RateLimiter → Type 0
Sound h now s = IsValid s.limits × Remembers h now s.events

-- In every state that is reached, the limits are valid and the deque holds the end of the history.
Reach-Sound : {s : RateLimiter} {h : List Event} {now : ℕ} → Reach s h now → Sound h now s
Reach-Sound (start l now v) =
    (v, record { dropped = []; split = refl; old = tt; chronological = tt; past = tt })
Reach-Sound (observes {s} {h} {now} reported reach) =
    let (v, m) = Reach-Sound reach in
    let t = observe-Tightened s reported v in
    (t.valid, subst (Remembers h now) (sym t.events_kept) m)
Reach-Sound (passes {s} {h} late reported fuel later tokens r reach le u e) =
    let (v, m) = Reach-Sound reach in
    subst (λ r. Sound h r.1 r.0)
      (some-injective _ _ (sym (unlimited-acquire late reported fuel s later tokens u) ∙ e))
      (v, later-Remembers later le m)
Reach-Sound (acquires {s} {h} {now} late reported fuel later tokens r reach le limited e) =
    let (v, m) = Reach-Sound reach in
    let g = limited-Grants late reported fuel s later tokens h now r v limited m le e in
    (g.valid, g.admission.remembers)

-- Whenever `acquire` returns under some limit, the admissions that the limiter ever made under some
-- limit and in the minute that ends then, this one included, are within the request allowance that
-- is in force then; their tokens are within the token allowance, unless the call alone is larger
-- than it; the allowances are those at the call or tighter, whatever was observed while it slept;
-- and time has not gone back. Admissions under no limit are not recorded and not counted.
pub acquire-Grants :
    (late : ℕ → ℕ) (reported : ℕ → List (Option ℤ)) (fuel : ℕ) (s : RateLimiter) (now tokens : ℕ)
    (h : List Event) (since : ℕ) (r : RateLimiter × ℕ)
    → Reach s h since
    → is_unlimited s.limits ≡ false
    → since ≤ now
    → acquire late reported fuel s now tokens ≡ some r
    → Grants s h now tokens r
acquire-Grants late reported fuel s now tokens h since r reach limited le e =
    let (v, m) = Reach-Sound reach in
    limited-Grants late reported fuel s now tokens h since r v limited m le e
