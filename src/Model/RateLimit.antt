-- ===== src/Model/RateLimit.antt =====
-- model/rate_limit.py: a sliding-window limiter. Times count milliseconds. The lock makes the limited
-- calls of `acquire` follow one another, so a limiter is a state that each call takes and returns.
-- `observe` takes no lock: the allowances that are reported while `acquire` sleeps are an argument of
-- it, and each round reads the limits again. An unlimited call takes no lock and changes nothing.
pub mod Window
pub mod Waiting
pub mod Observe
pub mod Acquire
pub mod Admission
pub mod History
use evalstack.Prelude.{
  ℕ, zero, suc, ◌+◌, ◌-◌, max, Bool, true, false, Option, none, some, List, [], ◌∷◌, ◌++◌, length,
  get_elem?, sum_of, ltb, leb, ◌==◌, if◌then◌else◌, ◌&&◌,
}
use evalstack.Prelude.Int.{ℤ, pos, negsuc}

-- `WINDOW_SECONDS`
abbrev pub window : ℕ
window = 60000

pub record RateLimits : Type 0 where
  pub requests_per_minute : Option ℕ
  pub tokens_per_minute : Option ℕ

-- `__post_init__` raises `ValueError` for an allowance below 1.
unfoldable at_least_one : Option ℤ → Option (Option ℕ)
at_least_one none = some none
at_least_one (some (pos zero)) = none
at_least_one (some (pos (suc n))) = some (some (suc n))
at_least_one (some (negsuc n)) = none

unfoldable limits_of : Option (Option ℕ) → Option (Option ℕ) → Option RateLimits
limits_of (some r) (some t) = some (record { requests_per_minute = r; tokens_per_minute = t })
limits_of _ _ = none

unfoldable pub rate_limits : Option ℤ → Option ℤ → Option RateLimits
unfolding at_least_one limits_of
rate_limits requests tokens = limits_of (at_least_one requests) (at_least_one tokens)

abbrev is_none : Option ℕ → Bool
is_none none = true
is_none (some _) = false

abbrev pub is_unlimited : RateLimits → Bool
is_unlimited l = is_none l.requests_per_minute && is_none l.tokens_per_minute

-- An admission: when, and for how many tokens.
pub record Event : Type 0 where
  pub at : ℕ
  pub tokens : ℕ

pub record RateLimiter : Type 0 where
  pub limits : RateLimits
  pub events : List Event
  pub waits : ℕ
  pub total_wait : ℕ

abbrev pub new_limiter : RateLimits → RateLimiter
new_limiter l = record { limits = l; events = []; waits = 0; total_wait = 0 }

-- `current is not None and current <= reported`
abbrev already_tighter : Option ℕ → ℕ → Bool
already_tighter none reported = false
already_tighter (some current) reported = leb current reported

unfoldable tighten : RateLimiter → ℕ → RateLimiter × Bool
tighten s reported = if already_tighter s.limits.tokens_per_minute reported then (s, false) else (
  record s {
    limits = record {
      requests_per_minute = s.limits.requests_per_minute;
      tokens_per_minute = some reported;
    };
  },
  true,
)

-- Adopts an allowance that the provider reported, if it is tighter.
unfoldable pub observe : RateLimiter → Option ℤ → RateLimiter × Bool
unfolding tighten
observe s none = (s, false)
observe s (some (negsuc n)) = (s, false)
observe s (some (pos zero)) = (s, false)
observe s (some (pos (suc n))) = tighten s (suc n)

-- An event has left the window: `timestamp <= now - WINDOW_SECONDS`.
abbrev pub aged_out : ℕ → Event → Bool
aged_out now e = leb (e.at + window) now

-- The `popleft` loop.
unfoldable pub prune : ℕ → List Event → List Event
prune now [] = []
prune now (e ∷ es) = let rest = prune now es in if aged_out now e then rest else e ∷ es

-- `timestamp + WINDOW_SECONDS - now`; the caller takes the maximum with 0, as `-` does here.
abbrev pub until_aged : ℕ → Event → ℕ
until_aged now e = e.at + window - now

abbrev until_index : ℕ → Option Event → ℕ
until_index now none = 0
until_index now (some e) = until_aged now e

-- The wait for the request allowance.
unfoldable pub request_wait : Option ℕ → List Event → ℕ → ℕ
request_wait none events now = 0
request_wait (some cap) events now =
    if leb cap (length events) then until_index now (get_elem? events (length events - cap)) else 0

abbrev pub used_tokens : List Event → ℕ
used_tokens = sum_of (λ e. e.tokens)

-- The loop over the oldest events, with its `else` at the end of the list.
unfoldable pub wait_to_fit : (cap used tokens now freed : ℕ) → List Event → ℕ
wait_to_fit cap used tokens now freed [] = 0
wait_to_fit cap used tokens now freed (e ∷ es) =
    let rest = wait_to_fit cap used tokens now (freed + e.tokens) es in
    if leb (used - (freed + e.tokens) + tokens) cap then until_aged now e else rest

unfoldable pub token_wait : Option ℕ → List Event → ℕ → ℕ → ℕ
token_wait none events now tokens = 0
token_wait (some cap) events now tokens =
    let used = used_tokens events in
    if ltb cap (used + tokens) then wait_to_fit cap used tokens now 0 events else 0

unfoldable pub wait_needed : RateLimits → List Event → ℕ → ℕ → ℕ
wait_needed l events now tokens =
    max (request_wait l.requests_per_minute events now)
      (token_wait l.tokens_per_minute events now tokens)

-- One round of the loop of `acquire` at the time `now`: admission, or the wait to sleep for.
pub data Round : Type 0 where
  admit : RateLimiter → Round
  sleep : RateLimiter → (wait : ℕ) → Round

unfoldable pub round : RateLimiter → ℕ → ℕ → Round
round s now tokens =
    let events = prune now s.events in
    let wait = wait_needed s.limits events now tokens in
    if wait == 0
    then admit (record s { events = events ++ record { at = now; tokens = tokens } ∷ [] })
    else sleep (record s { events = events; waits = s.waits + 1; total_wait = s.total_wait + wait })
        wait

-- The allowances observed one after another.
unfoldable pub observe_all : List (Option ℤ) → RateLimiter → RateLimiter
observe_all [] s = s
observe_all (r ∷ rs) s = observe_all rs (observe s r).0

-- `acquire`, with the time at which it returns. `late k` is by how much the sleep that makes the
-- number of waits `k` oversleeps, and `reported k` are the allowances that other calls observe
-- during it; `none` means that the fuel ran out.
unfoldable pub acquire_loop :
    (late : ℕ → ℕ)
    → (reported : ℕ → List (Option ℤ)) → ℕ
    → RateLimiter
    → ℕ
    → ℕ
    → Option (RateLimiter × ℕ)
unfolding observe_all
acquire_loop late reported zero s now tokens = none
acquire_loop late reported (suc fuel) s now tokens = elim (round s now tokens) [
  | admit s' ↦ some (s', now)
  | sleep s' wait ↦
      acquire_loop late reported fuel (observe_all (reported s'.waits) s')
        (now + wait + late s'.waits) tokens
]

unfoldable pub acquire :
    (late : ℕ → ℕ)
    → (reported : ℕ → List (Option ℤ)) → ℕ
    → RateLimiter
    → ℕ
    → ℕ
    → Option (RateLimiter × ℕ)
unfolding acquire_loop
acquire late reported fuel s now tokens =
    if is_unlimited s.limits then some (s, now) else acquire_loop late reported fuel s now tokens
