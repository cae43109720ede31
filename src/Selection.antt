-- ===== src/Selection.antt =====
-- selection/discriminative.py: which cases are worth running under a budget. A float is an exact
-- fraction, and a duration in milliseconds is a fraction of seconds.
pub mod Order
pub mod Budget
use evalstack.Prelude.{
  ℕ, ◌+◌, ◌-◌, ◌*◌, String, Bool, true, false, not, ◌&&◌, ◌||◌, List, [], ◌∷◌, ◌++◌, map, keep,
  length, ltb, leb, ◌==◌, if◌then◌else◌,
}
use evalstack.Prelude.Dict.{Dict, update}
use evalstack.Prelude.Sort.{sort, str_leb}
use evalstack.Prelude.Ratio.{
  Ratio, zero_ratio, one_ratio, ratio_leb, ratio_ltb, ratio_eq, ratio_add, ratio_sum,
}
use evalstack.Schema.Result.{CaseResult, RunResult, is_completed}

abbrev default_cost : Ratio
default_cost = one_ratio

pub record CaseValue : Type 0 where
  pub case_id : String
  pub runs_seen : ℕ
  pub pass_rate : Ratio
  pub mean_cost : Ratio

-- `4 * p * (1 - p)`
unfoldable pub discrimination : CaseValue → Ratio
discrimination v =
    let p = v.pass_rate in record { num = 4 * p.num * (p.den - p.num); den = p.den * p.den }

unfoldable pub value_per_cost : CaseValue → Ratio
unfolding discrimination
value_per_cost v =
    let d = discrimination v in
    if ratio_ltb zero_ratio v.mean_cost
    then record { num = d.num * v.mean_cost.den; den = d.den * v.mean_cost.num }
    else zero_ratio

unfoldable pub informative : CaseValue → Bool
unfolding discrimination
informative v = ratio_ltb zero_ratio (discrimination v)

pub record Selection : Type 0 where
  pub case_ids : List String
  pub total_cost : Ratio
  pub total_discrimination : Ratio
  pub budget : Ratio
  pub considered : ℕ

abbrev pub within_budget : Selection → Bool
within_budget s = ratio_leb s.total_cost s.budget

unfoldable pub coverage : Selection → Ratio
coverage s =
    if s.considered == 0 then zero_ratio else record { num = length s.case_ids; den = s.considered }

-- `(hits, count, cost)` of one case in one run
pub record Seen : Type 0 where
  pub hits : ℕ
  pub count : ℕ
  pub cost : Ratio

-- The three dictionaries of `score_cases`, which have the same keys, as one.
pub record History : Type 0 where
  pub passes : ℕ
  pub totals : ℕ
  pub costs : Ratio

-- `tokens or result.duration_s`
abbrev price : CaseResult → Ratio
price r =
    let tokens = r.input_tokens + r.output_tokens in
    if tokens == 0
    then record { num = r.duration_s; den = 1000 }
    else record { num = tokens; den = 1 }

abbrev never_seen : Seen
never_seen = record { hits = 0; count = 0; cost = zero_ratio }

abbrev see : CaseResult → Seen → Seen
see r s = record {
  hits = s.hits + (if r.passed then 1 else 0);
  count = s.count + 1;
  cost = ratio_add s.cost (price r);
}

-- The inner loop over one run's results: only completed attempts count.
unfoldable pub see_results : Dict Seen → List CaseResult → Dict Seen
see_results seen [] = seen
see_results seen (r ∷ rs) =
    see_results (if is_completed r.status then update r.case_id never_seen (see r) seen else seen)
      rs

abbrev no_history : History
no_history = record { passes = 0; totals = 0; costs = zero_ratio }

-- One case of one run: a vote of its attempts, and their mean cost.
abbrev add_run : Seen → History → History
add_run s h = record {
  passes = h.passes + (if leb s.count (s.hits * 2) then 1 else 0);
  totals = h.totals + 1;
  costs = ratio_add h.costs (record { num = s.cost.num; den = s.cost.den * s.count });
}

unfoldable pub add_seen : Dict History → Dict Seen → Dict History
add_seen histories [] = histories
add_seen histories ((id, s) ∷ rest) = add_seen (update id no_history (add_run s) histories) rest

unfoldable pub add_runs : Dict History → List RunResult → Dict History
unfolding add_seen see_results
add_runs histories [] = histories
add_runs histories (run ∷ runs) =
    add_runs (add_seen histories (see_results [] run.case_results)) runs

-- `max(cost, default_cost)`
abbrev at_least : Ratio → Ratio
at_least cost = if ratio_ltb cost default_cost then default_cost else cost

abbrev value_of : String × History → CaseValue
value_of (id, h) = record {
  case_id = id;
  runs_seen = h.totals;
  pass_rate = record { num = h.passes; den = h.totals };
  mean_cost = at_least (record { num = h.costs.num; den = h.costs.den * h.totals });
}

-- The key `(-value_per_cost, case_id)`, ascending.
unfoldable pub comes_first : CaseValue → CaseValue → Bool
unfolding value_per_cost
comes_first a b =
    ratio_ltb (value_per_cost b) (value_per_cost a)
    || ratio_eq (value_per_cost b) (value_per_cost a) && str_leb a.case_id b.case_id

unfoldable pub score_cases : List RunResult → List CaseValue
unfolding add_runs comes_first
score_cases runs = sort comes_first (map value_of (add_runs [] runs))

-- The greedy loop from `spent`: the values taken, in order, and what they cost.
unfoldable pub choose : (budget spent : Ratio) → List CaseValue → List CaseValue × Ratio
choose budget spent [] = ([], spent)
choose budget spent (v ∷ vs) =
    let too_much = ratio_ltb budget (ratio_add spent v.mean_cost) in
    let rest = choose budget (if too_much then spent else ratio_add spent v.mean_cost) vs in
    (if too_much then rest.0 else v ∷ rest.0, rest.1)

-- `informative + (rest if include_unmeasured else [])`
unfoldable pub candidates : Bool → List CaseValue → List CaseValue
unfolding comes_first informative
candidates include_unmeasured values =
    let ranked = sort comes_first values in
    keep informative ranked
    ++ (if include_unmeasured then keep (λ v. not (informative v)) ranked else [])

-- A budget is not negative here, so no `ValueError` is raised.
unfoldable pub select_within_budget : List CaseValue → Ratio → Bool → Selection
unfolding choose candidates discrimination
select_within_budget values budget include_unmeasured =
    let chosen = choose budget zero_ratio (candidates include_unmeasured values) in
    record {
      case_ids = map (λ v. v.case_id) chosen.0;
      total_cost = chosen.1;
      total_discrimination = ratio_sum (map discrimination chosen.0);
      budget = budget;
      considered = length (sort comes_first values);
    }

unfoldable pub select_from_runs : List RunResult → Ratio → Selection
unfolding score_cases select_within_budget
select_from_runs runs budget = select_within_budget (score_cases runs) budget true
