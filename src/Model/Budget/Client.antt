-- ===== src/Model/Budget/Client.antt =====
-- BudgetedModelClient of model/budget.py. `others` is what other coroutines do to the guard while
-- the wrapped client is awaited.
use evalstack.Prelude.{ℕ, ◌+◌, ◌≤◌, ◌≡◌, Option, none, some, String, Bool, true, false, arith}
use evalstack.Model.{
  Usage, total, ModelRequest, ModelResponse, ModelError, Reply, answered, raised, threw, Thrown,
  estimated_input_tokens,
}
use evalstack.Model.Pricing.{PricingTable, cost_for}
use evalstack.Model.Budget.{
  BudgetGuard, Reservation, Breach, Reserved, held, exceeded, reserve, settle, abandon,
  committed_tokens, committed_usd,
}

pub record BudgetedModelClient : Type 0 where
  pub model : String
  pub inner : ModelRequest → Reply
  pub pricing : PricingTable

-- What `complete` ends with: the response, the exception of the wrapped client, or
-- `BudgetExceeded` before the wrapped client was called.
pub data Completion : Type 0 where
  returned : ModelResponse → Completion
  inner_raised : ModelError → Completion
  inner_threw : Thrown → Completion
  budget_exceeded : Breach → Completion

unfoldable pub worst_case : ModelRequest → Usage
worst_case r = record { input_tokens = estimated_input_tokens r; output_tokens = r.max_tokens }

unfoldable finish : BudgetGuard → Reservation → Reply → BudgetGuard × Completion
finish g r (answered response) = (settle g r response.usage response.cost_usd, returned response)
finish g r (raised e) = (abandon g r, inner_raised e)
finish g r (threw e) = (abandon g r, inner_threw e)

unfoldable after_reserve :
    BudgetedModelClient
    → (BudgetGuard → BudgetGuard)
    → ModelRequest
    → BudgetGuard × Reserved
    → BudgetGuard × Completion
unfolding finish
after_reserve c others request (g, exceeded b) = (g, budget_exceeded b)
after_reserve c others request (g, held r) = finish (others g) r (c.inner request)

unfoldable pub complete :
    BudgetedModelClient
    → (BudgetGuard → BudgetGuard)
    → ModelRequest
    → BudgetGuard
    → BudgetGuard × Completion
unfolding after_reserve worst_case
complete c others request g =
    let usage = worst_case request in
    after_reserve c others request (reserve g (total usage) (cost_for c.pricing c.model usage))

-- No ceiling, or a ceiling that `used` stays below or meets.
abbrev pub Fits : Option ℕ → ℕ → Type 0
Fits none used = Unit
Fits (some limit) used = used ≤ limit

abbrev pub HasRoom : BudgetGuard → ℕ → ℕ → Type 0
HasRoom g t u =
    Fits g.limits.max_calls (g.calls + g.in_flight + 1)
    × Fits g.limits.max_tokens (committed_tokens g + t)
    × Fits g.limits.max_usd (committed_usd g + u)

abbrev reservation_of : Reserved → Option Reservation
reservation_of (held r) = some r
reservation_of (exceeded b) = none

-- A call with room on every axis is admitted: its estimate is held and one more call is in flight.
reserve-HasRoom :
    (g : BudgetGuard) (t u : ℕ)
    → HasRoom g t u
    → reserve g t u ≡ (
      record g {
        reserved_tokens = g.reserved_tokens + t;
        reserved_usd = g.reserved_usd + u;
        in_flight = g.in_flight + 1;
      },
      held (record { tokens = t; usd = u }),
    )
unfolding reserve
reserve-HasRoom g t u h = ground arith

-- A call with no room on some axis is refused, and only the counter of refusals changes.
reserve-not-HasRoom :
    (g : BudgetGuard) (t u : ℕ)
    → ¬ HasRoom g t u
    → ((reserve g t u).0 ≡ record g { refusals = g.refusals + 1 })
      × (reservation_of (reserve g t u).1 ≡ none)
unfolding reserve
reserve-not-HasRoom g t u h = ground arith

-- What an outcome charges to the guard.
abbrev pub charge : Completion → BudgetGuard → BudgetGuard
charge (returned r) g = record g {
  calls = g.calls + 1;
  tokens = g.tokens + total r.usage;
  spent_usd = g.spent_usd + r.cost_usd;
}
charge (inner_raised e) g = g
charge (inner_threw e) g = g
charge (budget_exceeded b) g = record g { refusals = g.refusals + 1 }

-- While nobody else uses the guard, a call charges exactly what its outcome says: the reported
-- usage for a response, nothing for a failed call, one refusal for a refused one.
pub complete-charge :
    (c : BudgetedModelClient) (request : ModelRequest) (g : BudgetGuard)
    → (complete c (λ x. x) request g).0 ≡ charge (complete c (λ x. x) request g).1 g
unfolding complete reserve settle abandon
complete-charge c request g = ground arith

abbrev pub was_refused : Completion → Bool
was_refused (budget_exceeded b) = true
was_refused _ = false

-- A call whose worst case has no room on some axis ends with `BudgetExceeded`, whatever the wrapped
-- client would have answered, and only the counter of refusals changes.
complete-not-HasRoom :
    (c : BudgetedModelClient) (others : BudgetGuard → BudgetGuard) (request : ModelRequest)
    (g : BudgetGuard)
    → ¬ HasRoom g (total (worst_case request)) (cost_for c.pricing c.model (worst_case request))
    → ((complete c others request g).0 ≡ record g { refusals = g.refusals + 1 })
      × (was_refused (complete c others request g).1 ≡ true)
unfolding complete reserve
complete-not-HasRoom c others request g h = ground arith
