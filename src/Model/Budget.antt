-- ===== src/Model/Budget.antt =====
-- model/budget.py: ceilings that refuse a call before it is made. Dollars are counted in a fixed
-- small unit, so that sums are exact; `none` is an axis without a limit.
pub mod Ledger
pub mod Client
use evalstack.Prelude.{
  ℕ, ◌+◌, ◌-◌, String, Bool, true, false, Option, none, some, ltb, if◌then◌else◌, ◌&&◌,
}
use evalstack.Prelude.Int.{ℤ, pos, negsuc}
use evalstack.Model.{Usage, total}

pub record BudgetLimits : Type 0 where
  pub max_calls : Option ℕ
  pub max_tokens : Option ℕ
  pub max_usd : Option ℕ

-- The check of `__post_init__` on one axis: `none` where `ValueError` is raised.
unfoldable not_negative : Option ℤ → Option (Option ℕ)
not_negative none = some none
not_negative (some (pos n)) = some (some n)
not_negative (some (negsuc n)) = none

unfoldable limits_of :
    Option (Option ℕ) → Option (Option ℕ) → Option (Option ℕ) → Option BudgetLimits
limits_of (some c) (some t) (some u) = some (record { max_calls = c; max_tokens = t; max_usd = u })
limits_of _ _ _ = none

-- `BudgetLimits(...)`: `none` where the constructor raises `ValueError`.
unfoldable pub budget_limits : Option ℤ → Option ℤ → Option ℤ → Option BudgetLimits
unfolding not_negative limits_of
budget_limits calls tokens usd =
    limits_of (not_negative calls) (not_negative tokens) (not_negative usd)

abbrev is_none : Option ℕ → Bool
is_none none = true
is_none (some _) = false

unfoldable pub is_unlimited : BudgetLimits → Bool
is_unlimited l = is_none l.max_calls && is_none l.max_tokens && is_none l.max_usd

pub record Reservation : Type 0 where
  pub tokens : ℕ
  pub usd : ℕ

pub record BudgetGuard : Type 0 where
  pub limits : BudgetLimits
  pub calls : ℕ
  pub tokens : ℕ
  pub spent_usd : ℕ
  pub refusals : ℕ
  pub in_flight : ℕ
  pub reserved_tokens : ℕ
  pub reserved_usd : ℕ

abbrev pub fresh_guard : BudgetLimits → BudgetGuard
fresh_guard l = record {
  limits = l;
  calls = 0;
  tokens = 0;
  spent_usd = 0;
  refusals = 0;
  in_flight = 0;
  reserved_tokens = 0;
  reserved_usd = 0;
}

abbrev pub committed_tokens : BudgetGuard → ℕ
committed_tokens g = g.tokens + g.reserved_tokens

abbrev pub committed_usd : BudgetGuard → ℕ
committed_usd g = g.spent_usd + g.reserved_usd

-- The message of `BudgetExceeded`, as the numbers that it reports.
pub data Breach : Type 0 where
  over_calls : (attempted limit : ℕ) → Breach
  over_tokens : (estimated remaining limit : ℕ) → Breach
  over_usd : (estimated remaining limit : ℕ) → Breach

-- `limit is not None and used > limit`
abbrev pub exceeds : Option ℕ → ℕ → Bool
exceeds none used = false
exceeds (some limit) used = ltb limit used

abbrev limit_of : Option ℕ → ℕ
limit_of none = 0
limit_of (some limit) = limit

unfoldable pub breach : BudgetGuard → ℕ → ℕ → Option Breach
breach g estimated_tokens estimated_usd =
    let attempted_call = g.calls + g.in_flight + 1 in
    if exceeds g.limits.max_calls attempted_call
    then some (over_calls attempted_call (limit_of g.limits.max_calls))
    else if exceeds g.limits.max_tokens (committed_tokens g + estimated_tokens)
    then some (
        over_tokens estimated_tokens (limit_of g.limits.max_tokens - committed_tokens g)
          (limit_of g.limits.max_tokens))
    else if exceeds g.limits.max_usd (committed_usd g + estimated_usd)
    then some (
        over_usd estimated_usd (limit_of g.limits.max_usd - committed_usd g)
          (limit_of g.limits.max_usd))
    else none

pub data Reserved : Type 0 where
  held : Reservation → Reserved
  exceeded : Breach → Reserved

-- `reserve` either holds capacity or counts a refusal and raises.
unfoldable admit_or_refuse : BudgetGuard → ℕ → ℕ → Option Breach → BudgetGuard × Reserved
admit_or_refuse g estimated_tokens estimated_usd (some reason) =
    (record g { refusals = g.refusals + 1 }, exceeded reason)
admit_or_refuse g estimated_tokens estimated_usd none = (
  record g {
    reserved_tokens = g.reserved_tokens + estimated_tokens;
    reserved_usd = g.reserved_usd + estimated_usd;
    in_flight = g.in_flight + 1;
  },
  held (record { tokens = estimated_tokens; usd = estimated_usd }),
)

unfoldable pub reserve : BudgetGuard → ℕ → ℕ → BudgetGuard × Reserved
unfolding breach admit_or_refuse
reserve g estimated_tokens estimated_usd =
    admit_or_refuse g estimated_tokens estimated_usd (breach g estimated_tokens estimated_usd)

-- `max(0, a - b)` is the truncated difference.
unfoldable release : BudgetGuard → Reservation → BudgetGuard
release g r = record g {
  reserved_tokens = g.reserved_tokens - r.tokens;
  reserved_usd = g.reserved_usd - r.usd;
  in_flight = g.in_flight - 1;
}

unfoldable pub settle : BudgetGuard → Reservation → Usage → ℕ → BudgetGuard
unfolding release
settle g r usage cost_usd =
    let g' = release g r in
    record g' {
      calls = g'.calls + 1;
      tokens = g'.tokens + total usage;
      spent_usd = g'.spent_usd + cost_usd;
    }

unfoldable pub abandon : BudgetGuard → Reservation → BudgetGuard
unfolding release
abandon g r = release g r
