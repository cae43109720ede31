-- ===== src/Regression/Compare/Shared.antt =====
-- The shared cases of two runs and their transitions, in regression/compare.py.
use evalstack.Prelude.{
  ℕ, ◌≡◌, refl, ap, ◌∙◌, String, Bool, true, false, ◌&&◌, Option, none, some, List, [], ◌∷◌, map,
  ltb, arith, eq_iff, keep, All,
}
use evalstack.Prelude.Dict.{Dict, get}
use evalstack.Prelude.Ratio.{Ratio}
use evalstack.Schema.Result.{RunResult, CaseTally, tallies, rate}
use evalstack.Stats.Significance.{discordant, count_pairs, no_counts}
use evalstack.Regression.Compare.{has_key, case_rates, shared_keys, rate_of, passes, CaseTransition}
use evalstack.Prelude.Sets.{mem, mem-sort, mem-keep}
use evalstack.Schema.Result.Tallies.{grown, attempts_at, passes_at, get-tallies}

abbrev pub transition : RunResult → RunResult → String → CaseTransition
transition before after c = record {
  case_id = c;
  before_rate = rate_of (case_rates before) c;
  after_rate = rate_of (case_rates after) c;
}

abbrev pub outcomes : RunResult → List String → List Bool
outcomes run keys = map passes (map (rate_of (case_rates run)) keys)

-- The number of shared cases that pass in one run only.
abbrev pub disagreements : RunResult → RunResult → ℕ
disagreements before after =
    let keys = shared_keys (case_rates before) (case_rates after) in
    discordant (count_pairs (outcomes before keys) (outcomes after keys) no_counts)

-- Both runs completed an attempt at the case.
abbrev pub in_both : RunResult → RunResult → String → Bool
in_both before after id =
    ltb 0 (attempts_at id before.case_results) && ltb 0 (attempts_at id after.case_results)

-- A transition carries the rates of its case in the two runs.
abbrev pub CarriesRates : RunResult → RunResult → CaseTransition → Type 0
CarriesRates before after t =
    (t.before_rate ≡ rate_of (case_rates before) t.case_id)
    × (t.after_rate ≡ rate_of (case_rates after) t.case_id)

mem-keys : (id : String) (d : Dict Ratio) → mem id (map (λ e. e.0) d) ≡ has_key d id
unfolding get
mem-keys id [] = refl
mem-keys id ((k, v) ∷ d) = ground (arith, mem-keys id d, eq_iff id k, eq_iff k id)

has_tally : Option CaseTally → Bool
has_tally none = false
has_tally (some t) = true

has_key-map :
    (id : String) (d : Dict CaseTally)
    → has_key (map (λ e. (e.0, rate e.1)) d) id ≡ has_tally (get id d)
unfolding get has_tally
has_key-map id [] = refl
has_key-map id ((k, t) ∷ d) = ground (arith, has_key-map id d)

has_key-case_rates :
    (run : RunResult) (id : String)
    → has_key (case_rates run) id ≡ ltb 0 (attempts_at id run.case_results)
unfolding case_rates has_tally
has_key-case_rates run id =
    has_key-map id (tallies run)
    ∙ ap has_tally (get-tallies run id)
    ∙ grows (passes_at id run.case_results) (attempts_at id run.case_results)
  where
    grows : (p n : ℕ) → has_tally (grown none p n) ≡ ltb 0 n
    grows p n = ground arith

pub mem-shared_keys :
    (before after : RunResult) (id : String)
    → mem id (shared_keys (case_rates before) (case_rates after)) ≡ in_both before after id
unfolding shared_keys
mem-shared_keys before after id =
    let b = case_rates before in
    let a = case_rates after in
    mem-sort id (keep (has_key a) (map (λ e. e.0) b))
    ∙ mem-keep (has_key a) id (map (λ e. e.0) b)
    ∙ rw (mem-keys id b, has_key-case_rates before id, has_key-case_rates after id) (ground arith)

pub transitions_ids :
    (before after : RunResult) (keys : List String)
    → map (λ t. t.case_id) (map (transition before after) keys) ≡ keys
transitions_ids before after [] = refl
transitions_ids before after (k ∷ ks) = ap (λ l. k ∷ l) (transitions_ids before after ks)

pub transitions-All :
    (before after : RunResult) (keys : List String)
    → All (CarriesRates before after) (map (transition before after) keys)
transitions-All before after [] = tt
transitions-All before after (k ∷ ks) = ((refl, refl), transitions-All before after ks)
