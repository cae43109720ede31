-- ===== src/Model/Chat.antt =====
-- model/chat_completions.py: the posts with their retries. Times count milliseconds. `http` is what
-- the provider answers to the post of that number; `seconds` is `float(header)`, with `none` where it
-- raises; `text_of` is `str`, and `show_0f` prints a wait in whole seconds.
pub mod Body
pub mod Retries
pub mod Calls
use evalstack.Prelude.{
  ℕ, zero, suc, ◌+◌, ◌*◌, ◌^◌, String, Bool, true, false, not, ◌&&◌, ◌||◌, Option, none, some, List,
  [], ◌∷◌, ◌++◌, any, is_empty, if◌then◌else◌, str_eq, ltb, leb, ◌==◌, min,
}
use evalstack.Prelude.Int.{pos}
use evalstack.Prelude.Text.{◌+++◌, prefix, len}
use evalstack.Prelude.Search.{is_blank, starts}
use evalstack.Json.{
  Json, null, boolean, int, str, arr, obj, Items, nil, cons, Fields, end, field, get_field, truthy,
}
use evalstack.Trace.Truncate.Decimal.{decimal}
use evalstack.Model.{
  ModelResponse, ModelError, transient, permanent, quota_exhausted, model_behaviour, ToolInvocation,
  Usage, StopReason, end_turn, tool_use, max_tokens_stop, stop_sequence, other,
}

abbrev pub max_backoff : ℕ
max_backoff = 30000

abbrev pub max_retry_after : ℕ
max_retry_after = 120000

-- `_backoff_for`
unfoldable pub backoff_for : ℕ → ℕ
backoff_for attempt = min max_backoff (1000 * 2 ^ attempt)

-- The body of a response: JSON, or a text that is not.
pub data Content : Type 0 where
  json : Json → Content
  not_json : String → Content

pub record Response : Type 0 where
  pub status : ℕ
  pub retry_after : Option String
  pub limit_tokens : Option String
  pub content : Content

pub data HttpResult : Type 0 where
  responded : Response → HttpResult
  unreachable : String → HttpResult

abbrev retryable_status : List ℕ
retryable_status = 408 ∷ 409 ∷ 425 ∷ 429 ∷ 500 ∷ 502 ∷ 503 ∷ 504 ∷ []

-- What the client does beside building texts.
pub data Action : Type 0 where
  pace : Action
  post : Action
  learn : String → Action
  sleep : ℕ → Action

pub data Posted : Type 0 where
  decoded : Fields → Posted
  failed : ModelError → Posted

-- What one attempt comes to: an end, or a fault to retry with the wait that the provider asks for.
pub data Verdict : Type 0 where
  ends : Posted → Verdict
  again : ModelError → Option ℕ → Verdict

-- `value or none`
abbrev non_zero : Option ℕ → Option ℕ
non_zero none = none
non_zero (some n) = if n == 0 then none else some n

-- `_learn_limits`, where a header that is no number, or no allowance, is passed over by `observe`.
unfoldable pub learned : Bool → HttpResult → List Action
learned true (responded r) = elim r.limit_tokens [
  | none ↦ []
  | some raw ↦ if str_eq raw "" then [] else learn raw ∷ []
]
learned true (unreachable text) = []
learned false x = []

abbrev paced : Bool → List Action
paced limited = if limited then pace ∷ [] else []

abbrev wait_or : Option ℕ → ℕ → ℕ
wait_or none d = d
wait_or (some w) d = w

abbrev before : List Action → List Action × Posted → List Action × Posted
before actions (rest, x) = (actions ++ rest, x)

abbrev too_long : Option ℕ → Bool
too_long none = false
too_long (some wait) = ltb max_retry_after wait

-- What the client is bound to, and the functions of the language that it calls.
pub record Provider : Type 0 where
  pub base_url : String
  pub seconds : String → Option ℕ
  pub text_of : Json → String
  pub lower : String → String
  pub show_0f : ℕ → String

module _ (v : Provider) where
  abbrev show : Json → String
  show (str s) = s
  show x = v.text_of x

  -- `_retry_after_seconds`
  unfoldable pub retry_after : Response → Option ℕ
  retry_after r = elim r.retry_after [
    | none ↦ none
    | some header ↦ if str_eq header "" then none else v.seconds header
  ]

  abbrev detail_of : Option Json → Json → String
  detail_of (some (obj error)) body = elim (truthy (get_field "message" error)) [
    | none ↦ v.text_of (obj error)
    | some message ↦ show message
  ]
  detail_of (some error) body = show error
  detail_of none body = prefix 200 (v.text_of body)

  -- `error` of the body, where a dictionary counts also when it is empty.
  abbrev error_in : Option Json → Option Json
  error_in (some (obj error)) = some (obj error)
  error_in o = truthy o

  -- `_error_detail`
  unfoldable pub error_detail : Content → String
  unfolding get_field truthy
  error_detail (not_json text) = prefix 200 text
  error_detail (json (obj body)) = detail_of (error_in (get_field "error" body)) (obj body)
  error_detail (json x) = prefix 200 (show x)

  abbrev fields_of : Option Json → Fields
  fields_of (some (obj fs)) = fs
  fields_of o = end

  abbrev first_of : Option Json → Option Json → Option Json
  first_of (some x) o = some x
  first_of none o = o

  unfoldable pub inside : String → String → Bool
  inside marker String.[] = starts marker ""
  inside marker (String.◌∷◌ c text) =
      let later = inside marker text in starts marker (String.◌∷◌ c text) || later

  abbrev text_or_empty : Option Json → String
  text_or_empty none = ""
  text_or_empty (some x) = show x

  -- `_failed_generation`
  unfoldable pub failed_generation : Content → Option String
  unfolding get_field truthy inside
  failed_generation (json (obj body)) =
      let error = get_field "error" body in
      let generation =
        first_of (truthy (get_field "failed_generation" (fields_of error)))
          (truthy (get_field "failed_generation" body)) in
      let message = v.lower (
        text_or_empty (first_of (truthy (get_field "message" (fields_of error))) (truthy error))) in
      let blamed =
        inside "failed_generation" message || inside "failed to call a function" message in
      elim generation [
        | some text ↦ some (prefix 1200 (show text))
        | none ↦
            if blamed
            then some "(provider reported a failed generation without returning it)"
            else none
      ]
  failed_generation content = none

  abbrev http_error : Response → String
  http_error r =
      "HTTP " +++ decimal r.status +++ " from " +++ v.base_url +++ ": " +++ error_detail r.content

  -- `_decode`
  unfoldable pub decode : Content → Posted
  decode (json (obj body)) = decoded body
  decode (json x) = failed (transient "response JSON was not an object")
  decode (not_json text) = failed (transient ("response was not JSON: " +++ text))

  -- A client error that is not retried.
  unfoldable pub rejected : Response → ModelError
  unfolding failed_generation error_detail
  rejected r = elim (failed_generation r.content) [
    | some generation ↦ model_behaviour (
        "the model produced an unusable tool call (HTTP "
        +++ decimal r.status
        +++ "): "
        +++ generation)
    | none ↦ permanent (http_error r)
  ]

  unfoldable pub quota_text : Option ℕ → Response → String
  unfolding error_detail
  quota_text none r = ""
  quota_text (some wait) r =
      v.base_url
      +++ " asks for a "
      +++ v.show_0f wait
      +++ "s wait, which is a "
      +++ "spent quota rather than a moment's pacing: "
      +++ error_detail r.content

  -- The body of the loop after the post, without its sleeps.
  unfoldable pub judge : HttpResult → Verdict
  unfolding retry_after decode rejected error_detail quota_text
  judge (unreachable text) = again (transient text) none
  judge (responded r) =
      let wait = retry_after r in
      if ltb r.status 400
      then ends (decode r.content)
      else if any (λ s. s == r.status) retryable_status
      then if too_long wait
        then ends (failed (quota_exhausted (quota_text wait r)))
        else again (transient (http_error r)) (non_zero wait)
      else ends (failed (rejected r))

  -- The loop with `left` attempts left after this one. The sleep stands before the next attempt.
  unfoldable pub attempts : Bool → (ℕ → HttpResult) → (left attempt : ℕ) → List Action × Posted
  attempts limited http zero attempt =
      let actions = paced limited ++ post ∷ learned limited (http attempt) in
      elim (judge (http attempt)) [ ends x ↦ (actions, x) | again e wait ↦ (actions, failed e) ]
  attempts limited http (suc left) attempt =
      let actions = paced limited ++ post ∷ learned limited (http attempt) in
      let rest = attempts limited http left (attempt + 1) in
      elim (judge (http attempt)) [
        | ends x ↦ (actions, x)
        | again e wait ↦ before (actions ++ sleep (wait_or wait (backoff_for attempt)) ∷ []) rest
      ]

  -- `_post_with_retries`
  abbrev pub post_with_retries : Bool → (ℕ → HttpResult) → ℕ → List Action × Posted
  post_with_retries limited http max_retries = attempts limited http max_retries 0
