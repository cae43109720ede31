-- ===== src/Tests/Providers.antt =====
-- The response cache, the provider's client, datasets and the agreement of judges at concrete inputs.
use evalstack.Prelude.{
  map, ℕ, zero, suc, ◌≡◌, ◌≤◌, ◌<◌, ◌+◌, refl, String, Bool, true, false, Option, none, some, List,
  [], ◌∷◌, arith, All, length,
}
use evalstack.Prelude.Dict.{get, update}
use evalstack.Json.{
  Json, str, obj, Items, nil, cons, end, field, get_field, truthy, is_falsy, sort_fields,
}
use evalstack.Model.{ModelResponse, ToolInvocation, raised, transient, answered, end_turn}
use evalstack.Model.Cache as Cache
use evalstack.Model.Cache.{ResponseCache, encode, decode, complete, from_cache, from_model}
use evalstack.Model.Cache.Codec.{replayed}
use evalstack.Model.Cache.Replay.{complete_again}
use evalstack.Model.Chat as Chat
use evalstack.Model.Chat.Body as Body
use evalstack.Model.Chat.{Provider, HttpResult, unreachable, responded, post_with_retries}
use evalstack.Model.Chat.Body.{Loaded, loaded, not_decodable, parse_tool_calls}
use evalstack.Model.Chat.Retries.{Stops, post_with_retries-Stops, IsShort, sleeps_bounded}
use evalstack.Model.Chat.Calls.{AllRead, parse_tool_calls-Reads}
use evalstack.Schema.Dataset.{DatasetRef, show, parse, reference}
use evalstack.Schema.Dataset.Reference.{IsWellFormed, parse-show}
use evalstack.Prelude.Ratio.{Ratio}
use evalstack.JudgeEval.Gold as Gold
use evalstack.JudgeEval.Gold.{JudgeExample, GoldSet, label_balance, get-label_balance}
use evalstack.JudgeEval.Validation.{JudgeIdentity, ValidationReport, validate_judge}
use evalstack.JudgeEval.Validation.Reports.{validate_judge-Counts}
use evalstack.JudgeEval.Agreement.{agreement_report, zip}
use evalstack.JudgeEval.Agreement.Kappa.{
  Counts, agreeing, IsPerfect, kappa_bounds, report, reported,
}
use evalstack.JudgeEval.Agreement.Constant.{kappa_constant}

abbrev text_of : Json → String
text_of v = "value"

abbrev number_of : Json → Option ℕ
number_of v = none

abbrev call : ToolInvocation
call = record {
  id = "t1";
  name = "write_file";
  arguments = field "path" (str "a.py") (field "contents" (str "x") end);
  malformed_arguments = none;
}

abbrev response : ModelResponse
response = record {
  model = "m";
  text = "";
  tool_calls = call ∷ [];
  usage = record { input_tokens = 3; output_tokens = 0 };
  stop_reason = end_turn;
  cost_usd = 7;
  latency_ms = 5;
  cached = false;
}

abbrev empty_cache : ResponseCache
empty_cache = record { files = []; hits = 0; misses = 0 }

abbrev filled_cache : ResponseCache
filled_cache = record {
  files = ("ab12", Cache.json (obj (sort_fields (encode response)))) ∷ [];
  hits = 0;
  misses = 1;
}

first_call :
    complete text_of number_of "sha256:ab12" (answered response) empty_cache
    ≡ (filled_cache, from_model response)
unfolding complete Cache.get_response Cache.put Cache.path_for Cache.read get update
first_call = refl

complete_again_example :
    complete text_of number_of "sha256:ab12" (raised (transient "down")) filled_cache
    ≡ (record filled_cache { hits = 1 }, from_cache (replayed response))
complete_again_example =
    complete_again text_of number_of "sha256:ab12" response (raised (transient "down")) empty_cache
      filled_cache first_call

abbrev provider : Provider
provider = record {
  base_url = "https://llm";
  seconds = λ s. some 200000;
  text_of = text_of;
  lower = λ s. s;
  show_0f = λ n. "200";
}

-- Twice unreachable, then a body.
abbrev http : ℕ → HttpResult
http zero = unreachable "reset"
http (suc zero) = unreachable "reset"
http (suc (suc n)) = responded (record {
  status = 200;
  retry_after = none;
  limit_tokens = some "6000";
  content = Chat.json (obj end);
})

post_with_retries-Stops_example :
    Stops provider true http 4 0 (post_with_retries provider true http 4)
post_with_retries-Stops_example = post_with_retries-Stops provider true http 4

sleeps_bounded_example : All IsShort (post_with_retries provider true http 4).0
sleeps_bounded_example = sleeps_bounded provider true http 4

abbrev loads : String → Loaded
loads text = not_decodable

abbrev sent : Items
sent =
    cons
      (obj (
        field "id" (str "t2") (
          field "function" (obj (field "name" (str "submit") (field "arguments" (str "{oops") end)))
            end)))
      nil

abbrev received : ToolInvocation
received = record {
  id = "t2";
  name = "submit";
  arguments = end;
  malformed_arguments = some "{oops";
}

parsed : parse_tool_calls provider loads number_of 0 sent ≡ some (received ∷ [])
unfolding parse_tool_calls Body.parse_call Body.fields_or_empty Body.name_in Body.arguments_of
    Body.id_of get_field truthy is_falsy
parsed = refl

parse_tool_calls-Reads_example : AllRead provider loads number_of sent (received ∷ [])
parse_tool_calls-Reads_example =
    parse_tool_calls-Reads provider loads number_of 0 sent (received ∷ []) parsed

abbrev digit : ℕ → Bool
digit n = true

abbrev dataset_ref : DatasetRef
dataset_ref = record { name = "bugs"; version = "v1" }

parse-show_example :
    (IsWellFormed digit dataset_ref → parse digit (show dataset_ref) ≡ reference dataset_ref)
    × (parse digit "bugs@v1" ≡ reference dataset_ref
        → ("bugs@v1" ≡ show dataset_ref) × IsWellFormed digit dataset_ref)
parse-show_example = parse-show digit dataset_ref "bugs@v1"

abbrev human : List String
human = "pass" ∷ "fail" ∷ "pass" ∷ []

abbrev verdicts : List String
verdicts = "pass" ∷ "pass" ∷ "pass" ∷ []

reports : agreement_report human verdicts ≡ some (report human verdicts)
reports = reported "pass" ("fail" ∷ "pass" ∷ []) verdicts refl

kappa_bounds_example :
    ((report human verdicts).kappa.plus
      ≤ (report human verdicts).kappa.minus + (report human verdicts).kappa.den)
    × (agreeing (zip human verdicts) ≡ length human → IsPerfect (report human verdicts).kappa)
    × (IsPerfect (report human verdicts).kappa → agreeing (zip human verdicts) ≡ length human)
kappa_bounds_example = kappa_bounds human verdicts (report human verdicts) reports

fewer : agreeing (zip human verdicts) < length human
unfolding zip
fewer = omega arith

kappa_constant_example : (report human verdicts).kappa.plus ≡ (report human verdicts).kappa.minus
kappa_constant_example =
    kappa_constant "pass" ("fail" ∷ "pass" ∷ []) "pass" (report human verdicts) reports fewer

abbrev example : String → JudgeExample
example verdict = record {
  case_id = "a";
  task = "fix it";
  agent_summary = "";
  expected_behaviour = "";
  human_verdict = verdict;
  rationale = "";
  author_family = "";
}

abbrev gold : GoldSet
gold = record { name = "g"; version = "v1"; examples = map example human }

abbrev identity : JudgeIdentity
identity = record { model = "m"; prompt = "is it right?"; temperature = 0 }

abbrev threshold : Ratio
threshold = record { num = 3; den = 5 }

abbrev gold_hash : GoldSet → String
gold_hash g = g.name

validate_judge-Counts_example :
    (r : ValidationReport) × (validate_judge gold_hash gold verdicts identity threshold
        (some verdicts)
        none
        none
      ≡ some r)
    × (r.judge ≡ identity)
    × (r.gold_hash ≡ gold_hash gold)
    × Counts (Gold.verdicts gold) verdicts r.agreement
validate_judge-Counts_example =
    validate_judge-Counts gold_hash gold verdicts identity threshold (some verdicts) none none
      (omega arith) refl refl tt
