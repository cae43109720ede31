-- ===== src/Model/Cache.antt =====
-- model/cache.py: responses kept as JSON by the key of their request, and the client that serves
-- them. `text_of` is `str(v)` and `number_of` is `int(v)` or `float(v)` of a value that is not of that
-- type already, with `none` where it raises. A file is looked up by the digest that names it.
pub mod Codec
pub mod Replay
use evalstack.Prelude.{
  ℕ, zero, suc, ◌+◌, String, Bool, true, false, not, ◌&&◌, ◌||◌, Option, none, some, List, [], ◌∷◌,
  if◌then◌else◌, str_eq, ltb, leb,
}
use evalstack.Prelude.Int.{ℤ, pos, negsuc}
use evalstack.Prelude.Text.{len, prefix, suffix_from}
use evalstack.Prelude.Dict.{Dict, get, update}
use evalstack.Json.{
  Json, null, boolean, int, str, arr, obj, Items, nil, cons, Fields, end, field, get_field, truthy,
  sort_fields,
}
use evalstack.Model.{
  ModelRequest, ModelResponse, Reply, answered, raised, threw, ToolInvocation, Usage, StopReason,
  end_turn, tool_use, max_tokens_stop, stop_sequence, other,
}
use Prim.Native.Char.{code}

abbrev pub stop_text : StopReason → String
stop_text end_turn = "end_turn"
stop_text tool_use = "tool_use"
stop_text max_tokens_stop = "max_tokens"
stop_text stop_sequence = "stop_sequence"
stop_text other = "other"

-- `_coerce_stop_reason`
unfoldable pub coerce_stop_reason : String → StopReason
coerce_stop_reason value =
    if str_eq value "end_turn"
    then end_turn
    else if str_eq value "tool_use"
    then tool_use
    else if str_eq value "max_tokens"
    then max_tokens_stop
    else if str_eq value "stop_sequence"
    then stop_sequence
    else other

abbrev optional_text : Option String → Json
optional_text none = null
optional_text (some text) = str text

-- `ToolInvocation.describe`
unfoldable pub describe_call : ToolInvocation → Json
describe_call c = obj (
    field "id" (str c.id) (
      field "name" (str c.name) (
        field "arguments" (obj c.arguments)
          (field "malformed_arguments" (optional_text c.malformed_arguments) end))))

unfoldable pub describe_calls : List ToolInvocation → Items
unfolding describe_call
describe_calls [] = nil
describe_calls (c ∷ cs) = cons (describe_call c) (describe_calls cs)

-- `_encode`. The cost counts a small unit of money and the latency milliseconds.
unfoldable pub encode : ModelResponse → Fields
unfolding describe_calls
encode r = field "model" (str r.model) (
    field "text" (str r.text) (
      field "tool_calls" (arr (describe_calls r.tool_calls)) (
        field "usage"
          (obj (
            field "input_tokens" (int (pos r.usage.input_tokens))
              (field "output_tokens" (int (pos r.usage.output_tokens)) end)))
          (field "stop_reason" (str (stop_text r.stop_reason)) (
            field "cost_usd" (int (pos r.cost_usd))
              (field "latency_ms" (int (pos r.latency_ms)) end))))))

infixl 5 ◌>>=◌
abbrev pub ◌>>=◌ : {A B : Type 0} → Option A → (A → Option B) → Option B
none >>= f = none
some a >>= f = f a

module _ (text_of : Json → String) (number_of : Json → Option ℕ) where
  abbrev show : Json → String
  show (str s) = s
  show v = text_of v

  -- `str(payload.get(key) or default)`
  unfoldable pub text_field : String → String → Fields → String
  unfolding get_field truthy
  text_field key default payload = elim (truthy (get_field key payload)) [
    | none ↦ default
    | some v ↦ show v
  ]

  abbrev number : Json → Option ℕ
  number (int (pos n)) = some n
  number v = number_of v

  -- `int(payload.get(key) or 0)`
  unfoldable pub number_field : String → Fields → Option ℕ
  unfolding get_field truthy
  number_field key payload = elim (truthy (get_field key payload)) [
    | none ↦ some 0
    | some v ↦ number v
  ]

  -- `payload.get(key) or {}`, which has to be a dictionary for what follows.
  unfoldable pub fields_at : String → Fields → Option Fields
  unfolding get_field truthy
  fields_at key payload = elim (truthy (get_field key payload)) [
    | none ↦ some end
    | some (obj fs) ↦ some fs
    | some v ↦ none
  ]

  -- `call.get("malformed_arguments")`; a value that is no text is outside of the model.
  unfoldable pub malformed_at : Fields → Option (Option String)
  unfolding get_field
  malformed_at call = elim (get_field "malformed_arguments" call) [
    | none ↦ some none
    | some null ↦ some none
    | some (str s) ↦ some (some s)
    | some v ↦ none
  ]

  unfoldable pub decode_call : Json → Option ToolInvocation
  decode_call (obj call) = do
    arguments ← fields_at "arguments" call
    malformed ← malformed_at call
    some (record {
      id = text_field "id" "" call;
      name = text_field "name" "" call;
      arguments = arguments;
      malformed_arguments = malformed;
    })
  decode_call v = none

  unfoldable pub decode_calls : Items → Option (List ToolInvocation)
  decode_calls nil = some []
  decode_calls (cons v vs) = do call ← decode_call v; calls ← decode_calls vs; some (call ∷ calls)

  -- `payload.get("tool_calls") or []`
  unfoldable pub calls_at : Fields → Option (List ToolInvocation)
  unfolding get_field truthy
  calls_at payload = elim (truthy (get_field "tool_calls" payload)) [
    | none ↦ some []
    | some (arr vs) ↦ decode_calls vs
    | some v ↦ none
  ]

  -- `_decode`
  unfoldable pub decode : Fields → Option ModelResponse
  decode payload = do
    usage ← fields_at "usage" payload
    calls ← calls_at payload
    input_tokens ← number_field "input_tokens" usage
    output_tokens ← number_field "output_tokens" usage
    latency_ms ← number_field "latency_ms" payload
    some (record {
      model = text_field "model" "" payload;
      text = text_field "text" "" payload;
      tool_calls = calls;
      usage = record { input_tokens = input_tokens; output_tokens = output_tokens };
      stop_reason = coerce_stop_reason (text_field "stop_reason" "end_turn" payload);
      cost_usd = 0;
      latency_ms = latency_ms;
      cached = true;
    })

-- A file of the cache: `not_json` cannot be read or is no JSON, `not_utf8` makes `read_text` raise a
-- `UnicodeDecodeError`, which `get` does not catch.
pub data Stored : Type 0 where
  not_json not_utf8 : Stored
  json : Json → Stored

pub record ResponseCache : Type 0 where
  pub files : Dict Stored
  pub hits : ℕ
  pub misses : ℕ

abbrev is_hex : ℕ → Bool
is_hex n = (leb 48 n && leb n 57) || (leb 97 n && leb n 102)

abbrev all_hex : String → Bool
all_hex String.[] = true
all_hex (String.◌∷◌ c s) = is_hex (code c) && all_hex s

-- `key.removeprefix(HASH_PREFIX)`
abbrev digest_of : String → String
digest_of key = if str_eq (prefix 7 key) "sha256:" then suffix_from 7 key else key

-- `path_for`: the digest, by which a file is named; `none` is an `InvalidCacheKey`.
unfoldable pub path_for : String → Option String
path_for key =
    let digest = digest_of key in
    if ltb (len digest) 2 || not (all_hex digest) then none else some digest

-- What `get` does: a response, nothing, or an exception.
pub data Lookup : Type 0 where
  hit : ModelResponse → Lookup
  miss : Lookup
  invalid_key : Lookup
  undecodable : Lookup

module _ (text_of : Json → String) (number_of : Json → Option ℕ) where
  abbrev missed : ResponseCache → ResponseCache × Lookup
  missed c = (record c { misses = c.misses + 1 }, miss)

  abbrev found : Option ModelResponse → Lookup
  found none = undecodable
  found (some r) = hit r

  -- `get` of a file that may be there.
  unfoldable pub read : Option Stored → ResponseCache → ResponseCache × Lookup
  read (some (json (obj payload))) c =
      (record c { hits = c.hits + 1 }, found (decode text_of number_of payload))
  read (some (json v)) c = missed c
  read (some not_json) c = missed c
  read (some not_utf8) c = (c, undecodable)
  read none c = missed c

  abbrev get_at : Option String → ResponseCache → ResponseCache × Lookup
  get_at none c = (c, invalid_key)
  get_at (some path) c = read (get path c.files) c

  -- `ResponseCache.get`
  unfoldable pub get_response : String → ResponseCache → ResponseCache × Lookup
  get_response key c = get_at (path_for key) c

  abbrev put_at : Option String → ModelResponse → ResponseCache → Option ResponseCache
  put_at none r c = none
  put_at (some path) r c =
      let stored = json (obj (sort_fields (encode r))) in
      some (record c { files = update path stored (λ _. stored) c.files })

  -- `ResponseCache.put`, of a file that can be written; `none` is an `InvalidCacheKey`.
  unfoldable pub put : String → ModelResponse → ResponseCache → Option ResponseCache
  put key r c = put_at (path_for key) r c

  -- How `complete` ends: an answer with whether the inner client was called, or an exception.
  pub data Served : Type 0 where
    from_cache : ModelResponse → Served
    from_model : ModelResponse → Served
    model_error : Reply → Served
    cache_error : Served

  abbrev stored_or_error :
      Option ResponseCache → ResponseCache → ModelResponse → ResponseCache × Served
  stored_or_error none c r = (c, cache_error)
  stored_or_error (some d) c r = (d, from_model r)

  abbrev ask : String → Reply → ResponseCache → ResponseCache × Served
  ask key (answered r) c = stored_or_error (put key r c) c r
  ask key (raised e) c = (c, model_error (raised e))
  ask key (threw e) c = (c, model_error (threw e))

  abbrev after_get : String → Reply → ResponseCache × Lookup → ResponseCache × Served
  after_get key inner (c, hit r) = (c, from_cache r)
  after_get key inner (c, miss) = ask key inner c
  after_get key inner (c, invalid_key) = (c, cache_error)
  after_get key inner (c, undecodable) = (c, cache_error)

  -- `CachingModelClient.complete` of a request with this key, where the inner client would answer
  -- `inner` if it were called.
  unfoldable pub complete : String → Reply → ResponseCache → ResponseCache × Served
  complete key inner c = after_get key inner (get_response key c)
