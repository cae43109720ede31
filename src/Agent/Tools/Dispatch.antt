-- ===== src/Agent/Tools/Dispatch.antt =====
-- `_invoke` of agent/model_agent.py: the dispatch of a call to the tool box.
use evalstack.Prelude.{String, Option, none, some, List, [], ◌∷◌, if◌then◌else◌, str_eq}
use evalstack.Prelude.Text.{◌+++◌, prefix}
use evalstack.Prelude.Search.{join}
use evalstack.Prelude.Effect.{Effect, pure, ◌>>=◌}
use evalstack.Json.{get_field, as_string}
use evalstack.Model.{ToolInvocation}
use evalstack.Agent.Tools.{
  ToolContext, ToolBox, ToolOutcome, list_files, read_file, write_file, replace_text, run_tests,
  submit,
}

-- `_string_argument`
unfoldable pub string_argument : ToolInvocation → String → Option String
unfolding get_field as_string
string_argument call name = as_string (get_field name call.arguments)

-- `_render`
unfoldable pub render : ToolOutcome → String
render outcome =
    let shown = if str_eq outcome.output "" then "ok" else outcome.output in
    let error : String = elim outcome.error [ none ↦ "None" | some e ↦ e ] in
    if outcome.ok then shown else "error: " +++ error

pub data ToolName : Type 0 where
  lists reads writes replaces tests submits unknown : ToolName

unfoldable pub tool_name : String → ToolName
tool_name name =
    if str_eq name "list_files"
    then lists
    else if str_eq name "read_file"
    then reads
    else if str_eq name "write_file"
    then writes
    else if str_eq name "replace_text"
    then replaces
    else if str_eq name "run_tests"
    then tests
    else if str_eq name "submit"
    then submits
    else unknown

module _ {D : Type 0} (c : ToolContext D) where
  abbrev pub rendered : Effect (ToolBox D) ToolOutcome → Effect (ToolBox D) String
  rendered m = do outcome ← m; pure (render outcome)

  abbrev pub needs : String → Effect (ToolBox D) String
  needs text = pure ("error: " +++ text)

  abbrev pub invoke_read : Option String → Effect (ToolBox D) String
  invoke_read none = needs "read_file needs a string 'path' argument"
  invoke_read (some path) = rendered (read_file c path)

  abbrev pub invoke_write : Option String → Option String → Effect (ToolBox D) String
  invoke_write (some path) (some contents) = rendered (write_file c path contents)
  invoke_write _ _ = needs "write_file needs string 'path' and 'contents' arguments"

  abbrev pub invoke_replace :
      Option String → Option String → Option String → Effect (ToolBox D) String
  invoke_replace (some path) (some old) (some new) = rendered (replace_text c path old new)
  invoke_replace _ _ _ = needs "replace_text needs string 'path', 'old' and 'new' arguments"

  abbrev pub or_empty : Option String → String
  or_empty none = ""
  or_empty (some s) = s

  -- The cases of the `match` on the name of the tool.
  unfoldable pub dispatch : ToolName → ToolInvocation → Effect (ToolBox D) String
  dispatch lists call = rendered (list_files c)
  dispatch reads call = invoke_read (string_argument call "path")
  dispatch writes call =
      invoke_write (string_argument call "path") (string_argument call "contents")
  dispatch replaces call =
      invoke_replace (string_argument call "path") (string_argument call "old")
        (string_argument call "new")
  dispatch tests call = rendered (run_tests c)
  dispatch submits call = rendered (submit c (or_empty (string_argument call "summary")))
  dispatch unknown call = needs (
      "no tool named "
      +++ c.tools.repr call.name
      +++ ". Available tools: "
      +++ join ", " c.known_tools)

  unfoldable pub invoke_parsed : Option String → ToolInvocation → Effect (ToolBox D) String
  invoke_parsed (some text) call = needs (
      "arguments were not valid JSON. Send a JSON object matching "
      +++ "the tool's schema. Received: "
      +++ prefix 200 text)
  invoke_parsed none call = dispatch (tool_name call.name) call

  -- `_invoke`
  unfoldable pub invoke : ToolInvocation → Effect (ToolBox D) String
  unfolding invoke_parsed
  invoke call = invoke_parsed call.malformed_arguments call

  -- The tool calls that a model asks for, one after another.
  unfoldable pub invoke_many : List ToolInvocation → Effect (ToolBox D) (List String)
  invoke_many [] = pure []
  invoke_many (call ∷ calls) = do text ← invoke call; rest ← invoke_many calls; pure (text ∷ rest)
