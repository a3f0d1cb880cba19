-- ===== src/Effector/Runner/Statuses.antt =====
-- What the status of a result says of the tool: `_execute_intent` of effector/runner.py.
use beam_agents.Base.{◌≡◌, refl, ℤ, Bool, true, false, Option, none, some, if◌then◌else◌, String}
use beam_agents.Wire.{Bytes, ToolIntent, ToolResult, Status, Message, read_only_tool}
use beam_agents.Effector.Runner.{
  Tool, Parsed, object, invalid, Raised, rejection, timeout, cancellation, other, Validated, valid,
  validation_error, invalidated, Returned, value, unserializable, raised, Registry, Execution,
  concluded, was_cancelled, result_of, caught, settle, rejected, invoke, run, execute_found,
  execute_intent,
}

module _ (registry : Registry) (intent : ToolIntent) (now_ms : ℤ) where
  pub record IsOwn (r : ToolResult) : Type 0 where
    pub id : r.intent_id ≡ intent.intent_id
    pub key : r.entity_key ≡ intent.entity_key
    pub number : r.seq ≡ intent.seq
    pub at : r.completed_at_ms ≡ now_ms

  -- why the tool is not called
  pub data Refused : Type 0 where
    unknown : registry.get intent.tool_name ≡ none → Refused
    unparsable :
        (tool : Tool) (why : String)
        → registry.get intent.tool_name ≡ some tool
        → registry.parse intent.args_json ≡ invalid why
        → Refused
    read_only :
        (tool : Tool)
        → registry.get intent.tool_name ≡ some tool
        → tool.side_effect ≡ false
        → Refused
    unfit :
        (tool : Tool) (arguments : Bytes) (why : String)
        → registry.get intent.tool_name ≡ some tool
        → registry.parse intent.args_json ≡ object arguments
        → registry.validate tool arguments ≡ validation_error why
        → Refused

  -- the arguments' validation comes to `v`
  pub record Validates (tool : Tool) (v : Validated) : Type 0 where
    pub found : registry.get intent.tool_name ≡ some tool
    pub arguments : Bytes
    pub parsed : registry.parse intent.args_json ≡ object arguments
    pub effectful : tool.side_effect ≡ true
    pub validated : registry.validate tool arguments ≡ v

  -- the tool is called, and that comes to `o`
  pub record Calls (o : Returned) : Type 0 where
    pub tool : Tool
    pub call_kwargs : Bytes
    pub validates : Validates tool (valid call_kwargs)
    pub returns :
        registry.call tool call_kwargs (if tool.accepts_intent then some intent else none) ≡ o

  -- a validator's own exception
  pub record Breaks (e : Raised) : Type 0 where
    pub tool : Tool
    pub validates : Validates tool (invalidated e)

  pub data IsFault : Raised → Type 0 where
    late : IsFault timeout
    faulty : (type_name message : String) → IsFault (other type_name message)

  pub data Reports : Execution → Type 0 where
    untouched :
        (r : ToolResult)
        → IsOwn r
        → r.status ≡ Status.rejected
        → Refused
        → Reports (concluded false r)
    unvalidated :
        (r : ToolResult) (e : Raised)
        → IsOwn r
        → r.status ≡ Status.error
        → IsFault e
        → Breaks e
        → Reports (concluded false r)
    refused_by_validator :
        (r : ToolResult) (message : String)
        → IsOwn r
        → r.status ≡ Status.rejected
        → Breaks (rejection message)
        → Reports (concluded false r)
    succeeded :
        (r : ToolResult)
        → IsOwn r
        → r.status ≡ Status.ok
        → Calls (value r.payload)
        → Reports (concluded true r)
    unencoded :
        (r : ToolResult) (type_name message : String)
        → IsOwn r
        → r.status ≡ Status.error
        → Calls (unserializable type_name message)
        → Reports (concluded true r)
    failed :
        (r : ToolResult) (e : Raised)
        → IsOwn r
        → r.status ≡ Status.error
        → IsFault e
        → Calls (raised e)
        → Reports (concluded true r)
    refused_by_tool :
        (r : ToolResult) (message : String)
        → IsOwn r
        → r.status ≡ Status.rejected
        → Calls (raised (rejection message))
        → Reports (concluded true r)
    interrupted : Calls (raised cancellation) → Reports (was_cancelled true)
    interrupted_early : Breaks cancellation → Reports (was_cancelled false)

  own :
      (status : Status) (payload : Bytes) (m : Message)
      → IsOwn (result_of intent status now_ms payload m)
  unfolding result_of
  own status payload m = record { id = refl; key = refl; number = refl; at = refl }

  rejected-Reports : (why : Message) → Refused → Reports (rejected intent now_ms why)
  unfolding rejected result_of
  rejected-Reports why r = untouched _ (own _ _ _) refl r

  settle-Reports :
      (o : Returned) → Calls o → Reports (settle intent registry.tool_timeout_ms now_ms o)
  unfolding settle caught result_of
  settle-Reports (value json) h = succeeded _ (own _ _ _) refl h
  settle-Reports (unserializable n m) h = unencoded _ n m (own _ _ _) refl h
  settle-Reports (raised (rejection m)) h = refused_by_tool _ m (own _ _ _) refl h
  settle-Reports (raised timeout) h = failed _ timeout (own _ _ _) refl late h
  settle-Reports (raised cancellation) h = interrupted h
  settle-Reports (raised (other n m)) h = failed _ (other n m) (own _ _ _) refl (faulty n m) h

  caught-Reports :
      (e : Raised) → Breaks e → Reports (caught intent registry.tool_timeout_ms now_ms false e)
  unfolding caught result_of
  caught-Reports (rejection m) h = refused_by_validator _ m (own _ _ _) refl h
  caught-Reports timeout h = unvalidated _ timeout (own _ _ _) refl late h
  caught-Reports cancellation h = interrupted_early h
  caught-Reports (other n m) h = unvalidated _ (other n m) (own _ _ _) refl (faulty n m) h

  invoke-Reports :
      (tool : Tool) (v : Validated)
      → Validates tool v
      → Reports (invoke registry intent now_ms tool v)
  unfolding invoke
  invoke-Reports tool (valid call_kwargs) h =
      settle-Reports _
        (record { tool = tool; call_kwargs = call_kwargs; validates = h; returns = refl })
  invoke-Reports tool (validation_error why) h =
      rejected-Reports _ (unfit tool h.arguments why h.found h.parsed h.validated)
  invoke-Reports tool (invalidated e) h = caught-Reports e (record { tool = tool; validates = h })

  sided-Reports :
      (b : Bool) (tool : Tool) (arguments : Bytes)
      → registry.get intent.tool_name ≡ some tool
      → registry.parse intent.args_json ≡ object arguments
      → tool.side_effect ≡ b
      → Reports (
          if b
          then invoke registry intent now_ms tool (registry.validate tool arguments)
          else rejected intent now_ms (read_only_tool tool.name))
  sided-Reports false tool arguments found parsed pure =
      rejected-Reports _ (read_only tool found pure)
  sided-Reports true tool arguments found parsed effect =
      invoke-Reports tool (registry.validate tool arguments) (record {
        found = found;
        arguments = arguments;
        parsed = parsed;
        effectful = effect;
        validated = refl;
      })

  run-Reports :
      (tool : Tool) (p : Parsed)
      → registry.get intent.tool_name ≡ some tool
      → registry.parse intent.args_json ≡ p
      → Reports (run registry intent now_ms tool p)
  unfolding run
  run-Reports tool (invalid why) found parsed =
      rejected-Reports _ (unparsable tool why found parsed)
  run-Reports tool (object arguments) found parsed =
      sided-Reports tool.side_effect tool arguments found parsed refl

  found-Reports :
      (o : Option Tool)
      → registry.get intent.tool_name ≡ o
      → Reports (execute_found registry intent now_ms o)
  unfolding execute_found
  found-Reports none absent = rejected-Reports _ (unknown absent)
  found-Reports (some tool) found = run-Reports tool _ found refl

  -- Every execution comes to one result of the intent's own identifier, key and number, or to a
  -- cancellation. Unless it is cancelled, it is a rejection, without a call of the tool, when the
  -- tool is unknown or read-only or its arguments do not parse or validate; a success when the
  -- called tool returned a value that encodes, whose encoding it carries; and an error when the
  -- value does not encode. What the call or the validation raises itself is an error, but a
  -- rejection where it is a ReadOnlyToolError or a ToolArgumentError, after a call too.
  pub execute_intent-Reports : Reports (execute_intent registry intent now_ms)
  unfolding execute_intent
  execute_intent-Reports = found-Reports _ refl
