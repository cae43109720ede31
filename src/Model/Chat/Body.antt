-- ===== src/Model/Chat/Body.antt =====
-- `_to_response` of model/chat_completions.py: the reading of a response's body.
use evalstack.Prelude.{
  ℕ, ◌+◌, String, false, ◌||◌, Option, none, some, List, [], ◌∷◌, if◌then◌else◌, str_eq,
}
use evalstack.Prelude.Int.{pos}
use evalstack.Prelude.Text.{◌+++◌}
use evalstack.Prelude.Search.{is_blank}
use evalstack.Json.{Json, int, str, arr, obj, Items, nil, cons, Fields, end, get_field, truthy}
use evalstack.Trace.Truncate.Decimal.{decimal}
use evalstack.Model.{
  ModelResponse, ToolInvocation, Usage, StopReason, end_turn, tool_use, max_tokens_stop,
  stop_sequence, other,
}
use evalstack.Model.Chat.{Provider, show}

-- The table `_STOP_REASONS`, with `other` for what it lacks
unfoldable pub stop_reason_of : String → StopReason
stop_reason_of reason =
    if str_eq reason "stop"
    then end_turn
    else if str_eq reason "tool_calls" || str_eq reason "function_call"
    then tool_use
    else if str_eq reason "length" || str_eq reason "max_tokens"
    then max_tokens_stop
    else if str_eq reason "stop_sequence"
    then stop_sequence
    else other

-- `stop_reason`, where some providers omit or mislabel the reason when they return tools.
unfoldable pub final_reason : StopReason → List ToolInvocation → StopReason
final_reason other (call ∷ calls) = tool_use
final_reason reason calls = reason

-- What `json.loads` makes of a text.
pub data Loaded : Type 0 where
  loaded : Json → Loaded
  not_decodable : Loaded

infixl 5 ◌>>=◌
abbrev pub ◌>>=◌ : {A B : Type 0} → Option A → (A → Option B) → Option B
none >>= f = none
some a >>= f = f a

-- `loads` is `json.loads`, and `number_of` is `int(value)` of a value that is not a natural number.
-- `none` is an exception, or a value of a type that the annotations rule out.
module _ (v : Provider) (loads : String → Loaded) (number_of : Json → Option ℕ) where
  -- The arguments of a call, and the text that is malformed.
  abbrev pub of_text : String → Loaded → Fields × Option String
  of_text text (loaded (obj fs)) = (fs, none)
  of_text text (loaded x) = (end, some text)
  of_text text not_decodable = (end, some text)

  unfoldable pub arguments_of : Option Json → Fields × Option String
  unfolding is_blank
  arguments_of (some (obj fs)) = (fs, none)
  arguments_of (some (str text)) = if is_blank text then (end, none) else of_text text (loads text)
  arguments_of o = (end, none)

  -- `m.get(key) or {}`, which has to be a dictionary
  unfoldable pub fields_or_empty : String → Fields → Option Fields
  unfolding get_field truthy
  fields_or_empty key m = elim (truthy (get_field key m)) [
    | none ↦ some end
    | some (obj fs) ↦ some fs
    | some x ↦ none
  ]

  -- `m.get("name") or ""`
  unfoldable pub name_in : Fields → Option String
  unfolding get_field truthy
  name_in m = elim (truthy (get_field "name" m)) [
    | none ↦ some ""
    | some (str s) ↦ some s
    | some x ↦ none
  ]

  -- `str(raw.get("id") or f"call-{index + 1}")`
  unfoldable pub id_of : ℕ → Fields → String
  unfolding get_field truthy
  id_of index raw = elim (truthy (get_field "id" raw)) [
    | none ↦ "call-" +++ decimal (index + 1)
    | some x ↦ show v x
  ]

  unfoldable pub parse_call : ℕ → Json → Option ToolInvocation
  parse_call index (obj raw) = do
    function ← fields_or_empty "function" raw
    name ← name_in function
    let arguments = arguments_of (get_field "arguments" function)
    some (record {
      id = id_of index raw;
      name = name;
      arguments = arguments.0;
      malformed_arguments = arguments.1;
    })
  parse_call index x = none

  -- `_parse_tool_calls`, from the index on
  unfoldable pub parse_tool_calls : ℕ → Items → Option (List ToolInvocation)
  parse_tool_calls index nil = some []
  parse_tool_calls index (cons x xs) = do
    call ← parse_call index x
    calls ← parse_tool_calls (index + 1) xs
    some (call ∷ calls)

  -- `message.get("tool_calls") or []`, or no call if it is no list
  abbrev items_of : Option Json → Items
  items_of (some (arr xs)) = xs
  items_of o = nil

  abbrev count_of : Option Json → Option ℕ
  count_of none = some 0
  count_of (some (int (pos n))) = some n
  count_of (some x) = number_of x

  abbrev text_in : String → Fields → String
  text_in key m = elim (truthy (get_field key m)) [ none ↦ "" | some x ↦ show v x ]

  pub data Converted : Type 0 where
    converted : ModelResponse → Converted
    no_choices : Converted
    unexpected : Converted

  abbrev as_converted : Option ModelResponse → Converted
  as_converted none = unexpected
  as_converted (some r) = converted r

  unfoldable pub from_choice :
      (model : String) (cost : String → Usage → ℕ) (latency_ms : ℕ)
      → Fields
      → Fields
      → Option ModelResponse
  unfolding get_field truthy
  from_choice model cost latency_ms body choice = do
    message ← fields_or_empty "message" choice
    calls ← parse_tool_calls 0 (items_of (truthy (get_field "tool_calls" message)))
    usage ← fields_or_empty "usage" body
    input_tokens ← count_of (truthy (get_field "prompt_tokens" usage))
    output_tokens ← count_of (truthy (get_field "completion_tokens" usage))
    let used : Usage = record { input_tokens = input_tokens; output_tokens = output_tokens }
    let named = text_in "model" body
    let answering = if str_eq named "" then model else named
    some (record {
      model = answering;
      text = text_in "content" message;
      tool_calls = calls;
      usage = used;
      stop_reason = final_reason (stop_reason_of (text_in "finish_reason" choice)) calls;
      cost_usd = cost answering used;
      latency_ms = latency_ms;
      cached = false;
    })

  -- `_to_response` of a client of this model
  unfoldable pub to_response :
      (model : String) (cost : String → Usage → ℕ) (latency_ms : ℕ) → Fields → Converted
  unfolding get_field truthy
  to_response model cost latency_ms body = elim (truthy (get_field "choices" body)) [
    | none ↦ no_choices
    | some (arr (cons (obj choice) rest)) ↦
        as_converted (from_choice model cost latency_ms body choice)
    | some x ↦ unexpected
  ]
