-- ===== src/Model/Chat/Calls.antt =====
-- `_parse_tool_calls` of model/chat_completions.py: what becomes of the arguments of a call.
use evalstack.Prelude.{
  ℕ, ◌+◌, ◌≡◌, ◌≢◌, refl, ◌⊎◌, inl, inr, String, true, false, Option, none, some, List, [], ◌∷◌,
  arith, Bool-cases, subst,
}
use evalstack.Prelude.Search.{is_blank}
use evalstack.Json.{
  Json, null, boolean, int, str, arr, obj, Items, nil, cons, Fields, end, get_field,
}
use evalstack.Model.{ToolInvocation}
use evalstack.Model.Chat.{Provider}
use evalstack.Model.Chat.Body.{
  Loaded, loaded, not_decodable, arguments_of, parse_call, parse_tool_calls, fields_or_empty,
  name_in, of_text, ◌>>=◌,
}

bind-some :
    {A B : Type 0} (o : Option A) (f : A → Option B) {b : B}
    → (o >>= f) ≡ some b
    → (a : A) × (o ≡ some a) × (f a ≡ some b)
bind-some none f h = absurd (ground arith)
bind-some (some a) f h = (a, refl, h)

module _ (v : Provider) (loads : String → Loaded) (number_of : Json → Option ℕ) where
  -- Either the arguments are those that the call came with, decoded if they are a text; or the call
  -- came with no object and no text but a blank one, and there are no arguments; or the text is kept
  -- for the agent, is not blank, decodes to no object, and there are no arguments.
  abbrev pub Reads : Option Json → Fields × Option String → Type 0
  Reads raw (fs, none) =
      (raw ≡ some (obj fs))
      ⊎ ((text : String) × (raw ≡ some (str text)) × (loads text ≡ loaded (obj fs)))
      ⊎ (fs ≡ end)
        × ((gs : Fields) → raw ≢ some (obj gs))
        × ((text : String) → raw ≡ some (str text) → is_blank text ≡ true)
  Reads raw (fs, some text) =
      (raw ≡ some (str text))
      × (is_blank text ≡ false)
      × (fs ≡ end)
      × ((gs : Fields) → loads text ≢ loaded (obj gs))

  text-Reads :
      (text : String) (x : Loaded)
      → loads text ≡ x
      → is_blank text ≡ false
      → Reads (some (str text)) (of_text v loads number_of text x)
  text-Reads text (loaded (obj fs)) e b = inr (inl (text, refl, e))
  text-Reads text (loaded null) e b = (refl, b, refl, λ gs h. ground (arith, e, h))
  text-Reads text (loaded (boolean x)) e b = (refl, b, refl, λ gs h. ground (arith, e, h))
  text-Reads text (loaded (int x)) e b = (refl, b, refl, λ gs h. ground (arith, e, h))
  text-Reads text (loaded (str x)) e b = (refl, b, refl, λ gs h. ground (arith, e, h))
  text-Reads text (loaded (arr x)) e b = (refl, b, refl, λ gs h. ground (arith, e, h))
  text-Reads text not_decodable e b = (refl, b, refl, λ gs h. ground (arith, e, h))

  arguments_of-Reads : (raw : Option Json) → Reads raw (arguments_of v loads number_of raw)
  unfolding arguments_of
  arguments_of-Reads none = inr (inr (refl, λ gs h. ground (arith, h), λ text h. ground (arith, h)))
  arguments_of-Reads (some null) =
      inr (inr (refl, λ gs h. ground (arith, h), λ text h. ground (arith, h)))
  arguments_of-Reads (some (boolean b)) =
      inr (inr (refl, λ gs h. ground (arith, h), λ text h. ground (arith, h)))
  arguments_of-Reads (some (int n)) =
      inr (inr (refl, λ gs h. ground (arith, h), λ text h. ground (arith, h)))
  arguments_of-Reads (some (arr xs)) =
      inr (inr (refl, λ gs h. ground (arith, h), λ text h. ground (arith, h)))
  arguments_of-Reads (some (obj fs)) = inl refl
  arguments_of-Reads (some (str text)) = elim (Bool-cases (is_blank text)) [
    | inl blank ↦
        rw blank (inr (inr (refl, λ gs h. ground (arith, h), λ text' h. ground (arith, h, blank))))
    | inr there ↦ rw there (text-Reads text (loads text) refl there)
  ]

  abbrev ReadCall : Json → ToolInvocation → Type 0
  ReadCall (obj raw) c =
      (function : Fields) × (fields_or_empty v loads number_of "function" raw ≡ some function)
      × Reads (get_field "arguments" function) (c.arguments, c.malformed_arguments)
  ReadCall x c = ⊥

  -- One invocation for each call, in order.
  abbrev pub AllRead : Items → List ToolInvocation → Type 0
  AllRead nil [] = Unit
  AllRead (cons x xs) (c ∷ cs) = ReadCall x c × AllRead xs cs
  AllRead _ _ = ⊥

  parse_call-ReadCall :
      (index : ℕ) (x : Json) (c : ToolInvocation)
      → parse_call v loads number_of index x ≡ some c
      → ReadCall x c
  unfolding parse_call
  parse_call-ReadCall index null c h = absurd (ground arith)
  parse_call-ReadCall index (boolean b) c h = absurd (ground arith)
  parse_call-ReadCall index (int n) c h = absurd (ground arith)
  parse_call-ReadCall index (str s) c h = absurd (ground arith)
  parse_call-ReadCall index (arr xs) c h = absurd (ground arith)
  parse_call-ReadCall index (obj raw) c h =
      let (function, e, h1) = bind-some (fields_or_empty v loads number_of "function" raw) _ h in
      let (name, e', h2) = bind-some (name_in v loads number_of function) _ h1 in
      let same : arguments_of v loads number_of (get_field "arguments" function)
          ≡ (c.arguments, c.malformed_arguments) =
        ground arith in
      (
        function,
        e,
        subst (Reads (get_field "arguments" function)) same
            (arguments_of-Reads (get_field "arguments" function)),
      )

  -- If the calls are parsed, there is one invocation for each of them in order. An object sent as
  -- the arguments is its arguments, and so is the object that a text decodes to; a text that is not
  -- blank and decodes to no object is kept as malformed, and then there are no arguments; nothing
  -- else leaves a call without arguments but that neither an object nor a text that is not blank was
  -- sent.
  pub parse_tool_calls-Reads :
      (index : ℕ) (xs : Items) (calls : List ToolInvocation)
      → parse_tool_calls v loads number_of index xs ≡ some calls
      → AllRead xs calls
  unfolding parse_tool_calls
  parse_tool_calls-Reads index nil calls h =
      let e : [] ≡ calls = ground arith in subst (AllRead nil) e tt
  parse_tool_calls-Reads index (cons x xs) calls h =
      let (c, e, h1) = bind-some (parse_call v loads number_of index x) _ h in
      let (cs, e', h2) = bind-some (parse_tool_calls v loads number_of (index + 1) xs) _ h1 in
      let same : c ∷ cs ≡ calls = ground arith in
      subst (AllRead (cons x xs)) same
        (parse_call-ReadCall index x c e, parse_tool_calls-Reads (index + 1) xs cs e')
