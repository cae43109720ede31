-- ===== src/Model/Budget/Ledger.antt =====
-- BudgetGuard of model/budget.py shared by concurrent attempts: any interleaving of reservations,
-- settlements and abandonments, with the reservations that are in flight kept beside the guard.
use evalstack.Prelude.{
  ℕ, suc, ◌+◌, ◌-◌, ◌≤◌, ◌≡◌, List, [], ◌∷◌, ◌++◌, Option, none, some, arith, length, sum_of, ap,
}
use evalstack.Model.{Usage, total}
use evalstack.Model.Budget.{
  BudgetLimits, BudgetGuard, fresh_guard, Reservation, Breach, held, exceeded, reserve, settle,
  abandon, committed_tokens, committed_usd,
}

-- `overshoot_tokens` and `overshoot_usd` add up by how much settled calls passed their estimates.
pub record Ledger : Type 0 where
  pub guard : BudgetGuard
  pub outstanding : List Reservation
  pub overshoot_tokens : ℕ
  pub overshoot_usd : ℕ

abbrev pub opening : BudgetLimits → Ledger
opening l = record {
  guard = fresh_guard l;
  outstanding = [];
  overshoot_tokens = 0;
  overshoot_usd = 0;
}

-- One event-loop step of one of the attempts that share the guard.
pub data Step (s s' : Ledger) : Type 0 where
  admitted :
      (t u : ℕ) (r : Reservation)
      → reserve s.guard t u ≡ (s'.guard, held r)
      → s'.outstanding ≡ r ∷ s.outstanding
      → s'.overshoot_tokens ≡ s.overshoot_tokens
      → s'.overshoot_usd ≡ s.overshoot_usd
      → Step s s'
  refused :
      (t u : ℕ) (b : Breach)
      → reserve s.guard t u ≡ (s'.guard, exceeded b)
      → s'.outstanding ≡ s.outstanding
      → s'.overshoot_tokens ≡ s.overshoot_tokens
      → s'.overshoot_usd ≡ s.overshoot_usd
      → Step s s'
  settled :
      (before after : List Reservation) (r : Reservation) (usage : Usage) (cost : ℕ)
      → s.outstanding ≡ before ++ r ∷ after
      → s'.outstanding ≡ before ++ after
      → s'.guard ≡ settle s.guard r usage cost
      → s'.overshoot_tokens ≡ s.overshoot_tokens + (total usage - r.tokens)
      → s'.overshoot_usd ≡ s.overshoot_usd + (cost - r.usd)
      → Step s s'
  abandoned :
      (before after : List Reservation) (r : Reservation)
      → s.outstanding ≡ before ++ r ∷ after
      → s'.outstanding ≡ before ++ after
      → s'.guard ≡ abandon s.guard r
      → s'.overshoot_tokens ≡ s.overshoot_tokens
      → s'.overshoot_usd ≡ s.overshoot_usd
      → Step s s'

pub data Reach (l : BudgetLimits) : Ledger → Type 0 where
  start : Reach l (opening l)
  next : {s s' : Ledger} → Reach l s → Step s s' → Reach l s'

abbrev pub tokens_of : List Reservation → ℕ
tokens_of = sum_of (λ r. r.tokens)

abbrev pub usd_of : List Reservation → ℕ
usd_of = sum_of (λ r. r.usd)

-- `used` is within the limit, if there is one.
abbrev pub Within : Option ℕ → ℕ → ℕ → Type 0
Within none slack used = Unit
Within (some limit) slack used = used ≤ limit + slack

pub record IsSound (l : BudgetLimits) (s : Ledger) : Type 0 where
  pub same : s.guard.limits ≡ l
  pub tokens_held : s.guard.reserved_tokens ≡ tokens_of s.outstanding
  pub usd_held : s.guard.reserved_usd ≡ usd_of s.outstanding
  pub flying : s.guard.in_flight ≡ length s.outstanding
  pub calls_within : Within l.max_calls 0 (s.guard.calls + s.guard.in_flight)
  pub tokens_within : Within l.max_tokens s.overshoot_tokens (committed_tokens s.guard)
  pub usd_within : Within l.max_usd s.overshoot_usd (committed_usd s.guard)

opening-IsSound : (l : BudgetLimits) → IsSound l (opening l)
opening-IsSound l = ground arith

-- What a list holds is the taken reservation and the rest.
split_tokens :
    (before after : List Reservation) (r : Reservation)
    → tokens_of (before ++ r ∷ after) ≡ r.tokens + tokens_of (before ++ after)
split_tokens [] after r = omega arith
split_tokens (x ∷ before) after r = omega (arith, split_tokens before after r)

split_usd :
    (before after : List Reservation) (r : Reservation)
    → usd_of (before ++ r ∷ after) ≡ r.usd + usd_of (before ++ after)
split_usd [] after r = omega arith
split_usd (x ∷ before) after r = omega (arith, split_usd before after r)

split_length :
    (before after : List Reservation) (r : Reservation)
    → length (before ++ r ∷ after) ≡ suc (length (before ++ after))
split_length [] after r = omega arith
split_length (x ∷ before) after r = omega (arith, split_length before after r)

admitted-IsSound :
    (l : BudgetLimits) (s s' : Ledger) (t u : ℕ) (r : Reservation)
    → reserve s.guard t u ≡ (s'.guard, held r)
    → s'.outstanding ≡ r ∷ s.outstanding
    → s'.overshoot_tokens ≡ s.overshoot_tokens
    → s'.overshoot_usd ≡ s.overshoot_usd
    → IsSound l s
    → IsSound l s'
unfolding reserve
admitted-IsSound l s s' t u r e o x y h = ground arith

refused-IsSound :
    (l : BudgetLimits) (s s' : Ledger) (t u : ℕ) (b : Breach)
    → reserve s.guard t u ≡ (s'.guard, exceeded b)
    → s'.outstanding ≡ s.outstanding
    → s'.overshoot_tokens ≡ s.overshoot_tokens
    → s'.overshoot_usd ≡ s.overshoot_usd
    → IsSound l s
    → IsSound l s'
unfolding reserve
refused-IsSound l s s' t u b e o x y h = ground arith

settled-IsSound :
    (l : BudgetLimits) (s s' : Ledger) (before after : List Reservation) (r : Reservation)
    (usage : Usage) (cost : ℕ)
    → s.outstanding ≡ before ++ r ∷ after
    → s'.outstanding ≡ before ++ after
    → s'.guard ≡ settle s.guard r usage cost
    → s'.overshoot_tokens ≡ s.overshoot_tokens + (total usage - r.tokens)
    → s'.overshoot_usd ≡ s.overshoot_usd + (cost - r.usd)
    → IsSound l s
    → IsSound l s'
unfolding settle
settled-IsSound l s s' before after r usage cost o o' e x y h = ground (
  arith,
  split_tokens before after r,
  split_usd before after r,
  split_length before after r,
  ap tokens_of o,
  ap usd_of o,
  ap (length {A = Reservation}) o,
  ap tokens_of o',
  ap usd_of o',
  ap (length {A = Reservation}) o',
)

abandoned-IsSound :
    (l : BudgetLimits) (s s' : Ledger) (before after : List Reservation) (r : Reservation)
    → s.outstanding ≡ before ++ r ∷ after
    → s'.outstanding ≡ before ++ after
    → s'.guard ≡ abandon s.guard r
    → s'.overshoot_tokens ≡ s.overshoot_tokens
    → s'.overshoot_usd ≡ s.overshoot_usd
    → IsSound l s
    → IsSound l s'
unfolding abandon
abandoned-IsSound l s s' before after r o o' e x y h = ground (
  arith,
  split_tokens before after r,
  split_usd before after r,
  split_length before after r,
  ap tokens_of o,
  ap usd_of o,
  ap (length {A = Reservation}) o,
  ap tokens_of o',
  ap usd_of o',
  ap (length {A = Reservation}) o',
)

Step-IsSound : (l : BudgetLimits) {s s' : Ledger} → Step s s' → IsSound l s → IsSound l s'
Step-IsSound l {s} {s'} (admitted t u r e o x y) h = admitted-IsSound l s s' t u r e o x y h
Step-IsSound l {s} {s'} (refused t u b e o x y) h = refused-IsSound l s s' t u b e o x y h
Step-IsSound l {s} {s'} (settled front back r us c o o' e x y) h =
    settled-IsSound l s s' front back r us c o o' e x y h
Step-IsSound l {s} {s'} (abandoned front back r o o' e x y) h =
    abandoned-IsSound l s s' front back r o o' e x y h

-- However the attempts that share a guard interleave, the guard holds exactly the capacity of the
-- calls in flight; finished calls and calls in flight never pass `max_calls`; and the tokens and
-- dollars committed pass their ceilings by at most what settled calls used beyond their estimates.
pub Reach-IsSound : (l : BudgetLimits) {s : Ledger} → Reach l s → IsSound l s
Reach-IsSound l start = opening-IsSound l
Reach-IsSound l (next r st) = Step-IsSound l st (Reach-IsSound l r)
