-- ===== src/Core/AgentContext.antt =====
-- core/context.py, `AgentContext`: the surface that an authored agent is handed. The model facade
-- stages its events and usages through it; the canonical JSON of arguments is a text, and `none`
-- where `json.dumps` raises.
pub mod Staging
pub mod Program
pub mod Counts
pub mod Orderly
use beam_agents.Base.{
  ℕ, suc, ◌+◌, ℤ, ◌+ℤ◌, pos, String, Bool, true, false, Option, none, some, List, [], ◌∷◌, ◌++◌,
  map, if◌then◌else◌,
}
use beam_agents.Wire.{
  Bytes, ToolIntent, Kind, tool, approval, scheme_unspecified, MemoryBlob, LlmCacheBlob,
}
use beam_agents.Core.State.{ActivationTally, TokenUsage, Cause}
use beam_agents.Core.Context.{MemoryRecord, empty_tally, LlmRequest}
use beam_agents.Core.Context.Operations.{or_default}
use beam_agents.Core.IntentId.{intent_id_for}
use beam_agents.Memory.{Memory, to_blob as memory_blob_of}
use beam_agents.Memory.Calls.{Op, Reply, call_memory, Strategy}
use beam_agents.Model.Breaker.{CircuitState, CircuitBreaker, closed, open_state, half_open}
use beam_agents.Model.Budget.{TokenBudget, new_budget}
use beam_agents.Model.ReplayCache.{ReplayCache, to_blob as cache_blob_of}
use beam_agents.Model.Facade.{
  LlmFacade, Call, FacadeState, FacadeEnd, LlmTrace, OutputSchema, complete,
}
use beam_agents.Replay.{WireEvent, llm_call, kind_name, int_text}
use beam_agents.Tools.{
  Tool, ToolRegistry, ToolEnd, value, side_effect_error, argument_error, tool_raised, find_tool,
  run_tool_inline,
}
use beam_agents.Traces.{
  ActivationTrace, usage_attributes, bool_text, stamp, intent_event, tool_event, trace_id_for,
}

-- the arguments of `__init__` that stay; `uuid5` is over the namespace of intents or of traces
pub record AgentScope : Type 0 where
  pub entity_key : Bytes
  pub seq : ℕ
  pub now_ms : ℤ
  pub intent_ttl_ms : ℤ
  pub approval_channel : String
  pub max_tokens_per_activation : Option ℕ
  pub intent_uuid5 : Bytes → String
  pub trace_uuid5 : String → Bytes
  pub model : LlmFacade
  pub tool_registry : ToolRegistry
  pub compactor : Option Strategy

-- the fields that change; `longterm` is what the memory has staged for the long-term store
pub record AgentContext : Type 0 where
  pub memory : Memory
  pub longterm : List MemoryRecord
  pub model_state : FacadeState
  pub step_index : ℕ
  pub tool_index : ℕ
  pub intents : List ToolIntent
  pub traces : List WireEvent
  pub outputs : List String
  pub usage : TokenUsage
  pub tally : ActivationTally
  pub drained : Bool

pub data ContextError : Type 0 where
  not_registered not_side_effect : (tool_name : String) → ContextError
  unserializable drained_twice : ContextError

-- `AgentResult`
pub record AgentResult : Type 0 where
  pub outputs : List String
  pub intents : List ToolIntent
  pub traces : List WireEvent
  pub usage : TokenUsage
  pub memory_blob : Option MemoryBlob
  pub cache_blob : Option LlmCacheBlob
  pub tally : ActivationTally
  pub upserts : List MemoryRecord

pub data ContextReply : Type 0 where
  staged : ContextReply
  staged_as : (intent_id : String) → ContextReply
  tool_end : ToolEnd → ContextReply
  model_end : FacadeEnd → ContextReply
  memory_reply : Reply → ContextReply
  drained_as : AgentResult → ContextReply
  refused : ContextError → ContextReply

abbrev pub no_usage : TokenUsage
no_usage = record { prompt_tokens = 0; completion_tokens = 0; total_tokens = 0 }

abbrev pub opened_budget : Option ℕ → Option TokenBudget
opened_budget none = none
opened_budget (some limit) = some (new_budget limit)

-- `CircuitState.value`
abbrev pub circuit_text : CircuitState → String
circuit_text closed = "closed"
circuit_text open_state = "open"
circuit_text half_open = "half_open"

abbrev pub error_attribute : Option String → List (String × String)
error_attribute none = []
error_attribute (some name) = ("error.type", name) ∷ []

abbrev pub is_known : Option TokenUsage → Bool
is_known none = false
is_known (some usage) = true

-- `_stage_trace`'s attributes, of what the facade staged
unfoldable pub llm_attributes : LlmTrace → List (String × String)
unfolding usage_attributes
llm_attributes t =
    ("gen_ai.operation.name", "chat")
      ∷ ("gen_ai.request.model", t.model_id)
      ∷ ("beam_agents.cache_hit", bool_text t.cache_hit)
      ∷ ("beam_agents.attempts", int_text (pos t.attempts))
      ∷ ("beam_agents.circuit_state", circuit_text t.circuit_state)
      ∷ usage_attributes t.usage (if t.cache_hit then false else is_known t.usage)
    ++ error_attribute t.error_type
