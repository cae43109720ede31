-- ===== src/Model/Cache/Codec.antt =====
-- `_encode` and `_decode` of model/cache.py: what comes back from a file.
use evalstack.Prelude.{
  ℕ, zero, suc, ◌≡◌, refl, ap, String, true, Option, none, some, List, [], ◌∷◌, map, arith, eq_iff,
  str_eq, Bool-cases, inl, inr,
}
use evalstack.Prelude.Int.{pos}
use evalstack.Json.{
  Json, int, str, arr, obj, Items, nil, cons, Fields, end, field, get_field, truthy, is_falsy,
  sort_fields, sort_items, sort_json,
}
use evalstack.Model.{
  ModelResponse, ToolInvocation, StopReason, end_turn, tool_use, max_tokens_stop, stop_sequence,
  other,
}
use evalstack.Model.Cache.{
  stop_text, coerce_stop_reason, describe_call, describe_calls, encode, text_field, number_field,
  fields_at, malformed_at, decode_call, decode_calls, calls_at, decode, optional_text,
}

-- The call with its arguments in the order of their names.
abbrev pub sorted_call : ToolInvocation → ToolInvocation
sorted_call c = record c { arguments = sort_fields c.arguments }

-- The response as the cache gives it back.
abbrev pub replayed : ModelResponse → ModelResponse
replayed r = record r { tool_calls = map sorted_call r.tool_calls; cost_usd = 0; cached = true }

module _ (text_of : Json → String) (number_of : Json → Option ℕ) where
  text_back :
      (key s : String) (fs : Fields)
      → get_field key fs ≡ some (str s)
      → text_field text_of number_of key "" fs ≡ s
  unfolding text_field truthy is_falsy
  text_back key s fs h = elim (Bool-cases (str_eq s "")) [
    | inl e ↦ rw (h, text_field) (ground (arith, eq_iff s ""))
    | inr e ↦ rw (h, text_field) (ground arith)
  ]

  number_back :
      (key : String) (n : ℕ) (fs : Fields)
      → get_field key fs ≡ some (int (pos n))
      → number_field text_of number_of key fs ≡ some n
  unfolding number_field truthy is_falsy
  number_back key zero fs h = rw (h, number_field) refl
  number_back key (suc n) fs h = rw (h, number_field) refl

  fields_back :
      (key : String) (gs fs : Fields)
      → get_field key fs ≡ some (obj gs)
      → fields_at text_of number_of key fs ≡ some gs
  unfolding fields_at truthy is_falsy
  fields_back key end fs h = rw (h, fields_at) refl
  fields_back key (field k v gs) fs h = rw (h, fields_at) refl

  calls_back :
      (vs : Items) (fs : Fields)
      → get_field "tool_calls" fs ≡ some (arr vs)
      → calls_at text_of number_of fs ≡ decode_calls text_of number_of vs
  unfolding calls_at truthy is_falsy
  calls_back nil fs h = rw (h, calls_at) (unfold decode_calls in refl)
  calls_back (cons v vs) fs h = rw (h, calls_at) refl

  malformed_back :
      (m : Option String) (fs : Fields)
      → get_field "malformed_arguments" fs ≡ some (optional_text m)
      → malformed_at text_of number_of fs ≡ some m
  unfolding malformed_at
  malformed_back none fs h = rw (h, malformed_at) refl
  malformed_back (some s) fs h = rw (h, malformed_at) refl

  optional_sorted : (m : Option String) → sort_json (optional_text m) ≡ optional_text m
  unfolding sort_json
  optional_sorted none = refl
  optional_sorted (some s) = refl

  -- The fields of a call, as the file has them.
  abbrev call_fields : ToolInvocation → Fields
  call_fields c = field "arguments" (obj (sort_fields c.arguments)) (
      field "id" (str c.id) (
        field "malformed_arguments" (optional_text c.malformed_arguments)
          (field "name" (str c.name) end)))

  stored_call : (c : ToolInvocation) → sort_json (describe_call c) ≡ obj (call_fields c)
  unfolding describe_call sort_json
  stored_call c =
      ap
        (λ m. obj (
          field "arguments" (obj (sort_fields c.arguments)) (
            field "id" (str c.id) (field "malformed_arguments" m (field "name" (str c.name) end)))))
        (optional_sorted c.malformed_arguments)

  decode-describe :
      (c : ToolInvocation)
      → decode_call text_of number_of (sort_json (describe_call c)) ≡ some (sorted_call c)
  unfolding decode_call
  decode-describe c =
      let fs = call_fields c in
      rw (stored_call c) (
        rw
          (
            fields_back "arguments" (sort_fields c.arguments) fs (unfold get_field in refl),
            malformed_back c.malformed_arguments fs (unfold get_field in refl),
            text_back "id" c.id fs (unfold get_field in refl),
            text_back "name" c.name fs (unfold get_field in refl),
          )
          refl)

  decode-describe_all :
      (cs : List ToolInvocation)
      → decode_calls text_of number_of (sort_items (describe_calls cs)) ≡ some (map sorted_call cs)
  unfolding decode_calls describe_calls sort_items
  decode-describe_all [] = refl
  decode-describe_all (c ∷ cs) = rw (decode-describe c, decode-describe_all cs) refl

  -- The fields of a response, as the file has them.
  abbrev response_fields : ModelResponse → Fields
  response_fields r = field "cost_usd" (int (pos r.cost_usd)) (
      field "latency_ms" (int (pos r.latency_ms)) (
        field "model" (str r.model) (
          field "stop_reason" (str (stop_text r.stop_reason)) (
            field "text" (str r.text) (
              field "tool_calls" (arr (sort_items (describe_calls r.tool_calls))) (
                field "usage"
                  (obj (
                    field "input_tokens" (int (pos r.usage.input_tokens))
                      (field "output_tokens" (int (pos r.usage.output_tokens)) end)))
                  end))))))

  stored_response : (r : ModelResponse) → sort_fields (encode r) ≡ response_fields r
  unfolding encode sort_fields
  stored_response r = refl

  stop_reason_back :
      (s : StopReason) (fs : Fields)
      → get_field "stop_reason" fs ≡ some (str (stop_text s))
      → coerce_stop_reason (text_field text_of number_of "stop_reason" "end_turn" fs) ≡ s
  unfolding text_field truthy is_falsy coerce_stop_reason
  stop_reason_back end_turn fs h = rw (h, text_field) refl
  stop_reason_back tool_use fs h = rw (h, text_field) refl
  stop_reason_back max_tokens_stop fs h = rw (h, text_field) refl
  stop_reason_back stop_sequence fs h = rw (h, text_field) refl
  stop_reason_back other fs h = rw (h, text_field) refl

  -- A response that is written to a file and read back is the response with the arguments of its
  -- tool calls sorted by name, at no cost, and marked as cached.
  pub decode-encode :
      (r : ModelResponse) → decode text_of number_of (sort_fields (encode r)) ≡ some (replayed r)
  unfolding decode
  decode-encode r =
      let fs = response_fields r in
      let usage : Fields =
        field "input_tokens" (int (pos r.usage.input_tokens))
          (field "output_tokens" (int (pos r.usage.output_tokens)) end) in
      rw (stored_response r) (
        rw
          (
            fields_back "usage" usage fs (unfold get_field in refl),
            calls_back (sort_items (describe_calls r.tool_calls)) fs (unfold get_field in refl),
            decode-describe_all r.tool_calls,
            number_back "input_tokens" r.usage.input_tokens usage (unfold get_field in refl),
            number_back "output_tokens" r.usage.output_tokens usage (unfold get_field in refl),
            number_back "latency_ms" r.latency_ms fs (unfold get_field in refl),
            text_back "model" r.model fs (unfold get_field in refl),
            text_back "text" r.text fs (unfold get_field in refl),
            stop_reason_back r.stop_reason fs (unfold get_field in refl),
          )
          refl)
