-- ===== src/Tools.antt =====
-- src/beam_agents/tools: registry.py and runner.py. A tool's argument model and its function are
-- parameters; a schema, arguments and a tool's value are texts.
use beam_agents.Base.{ℕ, String, Bool, Option, none, some, List, [], ◌∷◌, if◌then◌else◌, is_some}
use beam_agents.Base.Dict.{lookup, insert_last}
use beam_agents.Core.State.{Cause}

-- how a call of a tool ends
pub data ToolEnd : Type 0 where
  value : String → ToolEnd
  side_effect_error : (name : String) → ToolEnd
  argument_error : (name : String) → ToolEnd
  tool_raised : Cause → ToolEnd

-- a `Tool`; `validate` is its argument model, whose `none` is a ValidationError, and `func` the
-- callable that it wraps, by how often tools ran before
pub record Tool : Type 0 where
  pub name : String
  pub description : String
  pub side_effect : Bool
  pub accepts_intent : Bool
  pub schema : String
  pub validate : (arguments : String) → Option String
  pub func : (ran : ℕ) (validated : String) → ToolEnd

-- `ToolRegistry`
abbrev pub ToolRegistry : Type 0
ToolRegistry = List (String × Tool)

-- `register`; `none` is the ToolError of a name that is taken
unfoldable pub register : Tool → ToolRegistry → Option ToolRegistry
register t tools = if is_some (lookup t.name tools) then none else some (insert_last t.name t tools)

-- `get`; `none` is the ToolNotFoundError
unfoldable pub find_tool : (name : String) → ToolRegistry → Option Tool
unfolding lookup
find_tool name tools = lookup name tools

-- `tools_schema`
unfoldable pub tools_schema : ToolRegistry → List String
tools_schema [] = []
tools_schema ((k, t) ∷ tools) = t.schema ∷ tools_schema tools

-- `Tool.__call__`
unfoldable pub call_tool : (ran : ℕ) → Tool → (validated : String) → ToolEnd
call_tool ran t validated = if t.side_effect then side_effect_error t.name else t.func ran validated

abbrev pub run_validated : (ran : ℕ) → Tool → Option String → ToolEnd
run_validated ran t none = argument_error t.name
run_validated ran t (some validated) = call_tool ran t validated

-- `ToolRunner.run`
unfoldable pub run_tool_inline : (ran : ℕ) → Tool → (arguments : String) → ToolEnd
unfolding call_tool
run_tool_inline ran t arguments =
    if t.side_effect then side_effect_error t.name else run_validated ran t (t.validate arguments)
