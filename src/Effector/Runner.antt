-- ===== src/Effector/Runner.antt =====
-- effector/runner.py: one tool intent to a terminal ToolResult. The registry, JSON, pydantic's
-- validation and the tool itself are parameters.
pub mod Statuses
use beam_agents.Base.{ℤ, String, Bool, true, false, Option, none, some, [], if◌then◌else◌}
use beam_agents.Wire.{
  Bytes, ToolIntent, ToolResult, Status, Message, blank, text, tool_not_found, read_only_tool,
  timed_out_after, exception, unencodable,
}

pub record Tool : Type 0 where
  pub name : String
  pub side_effect : Bool
  pub accepts_intent : Bool

-- `json.loads(args_json)` and the check that it is an object; `invalid` has the error's text
pub data Parsed : Type 0 where
  object : (arguments : Bytes) → Parsed
  invalid : String → Parsed

-- an exception, as the handlers of `_execute_intent` tell them apart: `rejection` is a
-- ReadOnlyToolError or a ToolArgumentError, whoever raised it
pub data Raised : Type 0 where
  rejection : (message : String) → Raised
  timeout cancellation : Raised
  other : (type_name message : String) → Raised

-- how `model_validate` ends
pub data Validated : Type 0 where
  valid : (call_kwargs : Bytes) → Validated
  validation_error : (message : String) → Validated
  invalidated : Raised → Validated

-- How the call of the tool ends within the timeout, which raises `timeout`. `unserializable` is a
-- value that `json.dumps` refuses, with the exception's type and text.
pub data Returned : Type 0 where
  value : (json : Bytes) → Returned
  unserializable : (type_name message : String) → Returned
  raised : Raised → Returned

pub record Registry : Type 0 where
  pub get : String → Option Tool
  pub parse : String → Parsed
  pub validate : Tool → (arguments : Bytes) → Validated
  pub call : Tool → (call_kwargs : Bytes) → (intent_info : Option ToolIntent) → Returned
  pub tool_timeout_ms : ℤ

-- the result of `_execute_intent`, whether `on_invoke` fired, or its cancellation
pub data Execution : Type 0 where
  concluded : (invoked : Bool) → ToolResult → Execution
  was_cancelled : (invoked : Bool) → Execution

-- `_result`
unfoldable pub result_of : ToolIntent → Status → ℤ → Bytes → Message → ToolResult
result_of intent status now_ms payload error_message = record {
  intent_id = intent.intent_id;
  entity_key = intent.entity_key;
  seq = intent.seq;
  status = status;
  payload = payload;
  error_message = error_message;
  completed_at_ms = now_ms;
}

-- the handlers of `_execute_intent`; `invoked` is whether `on_invoke` fired before
unfoldable pub caught :
    ToolIntent → (tool_timeout_ms now_ms : ℤ) → (invoked : Bool) → Raised → Execution
caught intent tool_timeout_ms now_ms invoked (rejection m) =
    concluded invoked (result_of intent Status.rejected now_ms [] (text m))
caught intent tool_timeout_ms now_ms invoked timeout =
    concluded invoked
      (result_of intent Status.error now_ms [] (timed_out_after intent.tool_name tool_timeout_ms))
caught intent tool_timeout_ms now_ms invoked cancellation = was_cancelled invoked
caught intent tool_timeout_ms now_ms invoked (other t m) =
    concluded invoked (result_of intent Status.error now_ms [] (exception t m))

-- the exits once the tool was called, with `_encode_result`
unfoldable pub settle : ToolIntent → (tool_timeout_ms now_ms : ℤ) → Returned → Execution
unfolding caught
settle intent tool_timeout_ms now_ms (value json) =
    concluded true (result_of intent Status.ok now_ms json blank)
settle intent tool_timeout_ms now_ms (unserializable t m) =
    concluded true (result_of intent Status.error now_ms [] (unencodable intent.tool_name t m))
settle intent tool_timeout_ms now_ms (raised e) = caught intent tool_timeout_ms now_ms true e

unfoldable pub rejected : ToolIntent → ℤ → Message → Execution
rejected intent now_ms why = concluded false (result_of intent Status.rejected now_ms [] why)

module _ (registry : Registry) (intent : ToolIntent) (now_ms : ℤ) where
  -- `EffectorToolRunner.run`, past the check that the tool has a side effect
  unfoldable pub invoke : Tool → Validated → Execution
  unfolding settle rejected caught
  invoke tool (valid call_kwargs) =
      settle intent registry.tool_timeout_ms now_ms
        (registry.call tool call_kwargs (if tool.accepts_intent then some intent else none))
  invoke tool (validation_error why) = rejected intent now_ms (text why)
  invoke tool (invalidated e) = caught intent registry.tool_timeout_ms now_ms false e

  -- `EffectorToolRunner.run`
  unfoldable pub run : Tool → Parsed → Execution
  unfolding invoke
  run tool (invalid why) = rejected intent now_ms (text why)
  run tool (object arguments) =
      if tool.side_effect
      then invoke tool (registry.validate tool arguments)
      else rejected intent now_ms (read_only_tool tool.name)

  unfoldable pub execute_found : Option Tool → Execution
  unfolding run
  execute_found none = rejected intent now_ms (tool_not_found intent.tool_name)
  execute_found (some tool) = run tool (registry.parse intent.args_json)

  -- `_execute_intent`
  unfoldable pub execute_intent : Execution
  unfolding execute_found
  execute_intent = execute_found (registry.get intent.tool_name)
