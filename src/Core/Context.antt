-- ===== src/Core/Context.antt =====
-- core/context.py, `ActivationContext`: what one activation stages, and the operations that the
-- agent calls. The model provider, the tools' own code, the long-term store, the clock and the
-- hashes are fields of `Environment`; an answer may depend on how often the environment was asked.
pub mod Operations
pub mod Replay
use beam_agents.Base.{
  ℕ, ◌+◌, ℤ, String, Bool, true, false, Option, none, some, List, [], ◌∷◌, ◌++◌, map, length,
  is_some,
}
use beam_agents.Base.Digits.{hex}
use beam_agents.Wire.{Bytes, ToolIntent, Continuation, LlmCacheBlob, MemoryBlob}
use beam_agents.Core.Migration.{current_state_schema_version}
use beam_agents.Core.State.{ActivationTally, TraceEvent, TokenUsage, Cause}
use beam_agents.Core.Engine.{ActivationArgs}
use beam_agents.Model.Budget.{TokenBudget, new_budget}
use beam_agents.Model.ReplayCache.{ReplayCache, Codec, replay_cache}
use beam_agents.Memory.{Memory, MemoryError, open_memory}
use beam_agents.Memory.Calls.{Op, Reply, Strategy}

-- model/client.py, `LlmRequest`; the JSON values are texts here
pub record LlmRequest : Type 0 where
  pub model_id : String
  pub messages : String
  pub tools_schema : String
  pub sampling_params : String

-- the document that `compute_cache_key` of model/replay_cache.py serializes
pub record CacheDocument : Type 0 where
  pub model : String
  pub messages : String
  pub tools : String
  pub params : String
  pub key : Bytes
  pub seq : ℕ

-- memory/stores/base.py, `MemoryRecord`
pub record MemoryRecord : Type 0 where
  pub entity_key : Bytes
  pub key : String
  pub value : Bytes
  pub seq : ℕ
  pub updated_at_ms : ℤ

-- the exceptions that the context raises, and those of the code that it calls
pub data Raise : Type 0 where
  user_error : Cause → Raise
  budget_exceeded : (limit consumed : ℕ) → Raise
  tool_not_found side_effect_tool : String → Raise
  memory_error : MemoryError → Raise
  empty_longterm_key no_longterm_store not_an_outcome assertion_error invalid_arguments : Raise
  longterm_flush_failed : (key : String) → Raise

-- what code outside answers: a value, or an exception
pub data Answer (A : Type 0) : Type 0 where
  answered : A → Answer A
  threw : Cause → Answer A

pub record Environment : Type 0 where
  pub uuid5 : Bytes → String
  pub trace_id_for : (entity_key : Bytes) (seq : ℕ) → Bytes
  pub codec : Codec
  -- the SHA-256 of the document's canonical JSON, in hexadecimal
  pub hexdigest : CacheDocument → String
  pub complete : (asked : ℕ) → LlmRequest → Answer Bytes
  pub elapsed_ns : (asked : ℕ) → ℕ
  -- whether a registered tool has `side_effect`
  pub registry : String → Option Bool
  -- a read-only tool on arguments, its model's validation included
  pub run_inline : (asked : ℕ) (tool_name : String) (arguments : String) → Answer String
  pub store_load : (asked : ℕ) (key : String) → Answer (Option MemoryRecord)
  pub store_save : (asked : ℕ) → MemoryRecord → Answer (Unit {0})
  -- `repr` of an exception
  pub repr : Raise → String

-- what the agent asks of the context
pub data AgentOp : Type 0 where
  call_model : LlmRequest → AgentOp
  run_tool : (tool_name arguments : String) → AgentOp
  act : (tool_name args_json : String) (ttl_ms : Option ℤ) → AgentOp
  request_approval : (args_json : String) (channel : Option String) (ttl_ms : Option ℤ) → AgentOp
  memory_call : Op → AgentOp
  longterm_save : (key : String) → Bytes → AgentOp
  longterm_load : (key : String) → AgentOp
  stage_trace : (event_type : String) → AgentOp
  accumulate_usage : TokenUsage → AgentOp

pub data AgentReply : Type 0 where
  response : Bytes → AgentReply
  tool_value : String → AgentReply
  intent_id : String → AgentReply
  memory_reply : Reply → AgentReply
  record_found : Option MemoryRecord → AgentReply
  ok : AgentReply
  raised : Raise → AgentReply

-- A coroutine over the context: it calls operations and reads their replies, and returns or
-- raises.
pub data Program (A : Type 0) : Type 0 where
  finish : A → Program A
  fail : Raise → Program A
  call : AgentOp → (AgentReply → Program A) → Program A

-- memory/compaction.py: a summarizer's trigger, and its run
pub record Summarizer : Type 0 where
  pub trigger_bytes : ℕ
  pub compact : Program (Unit {0})

pub record Settings : Type 0 where
  pub intent_ttl_ms : ℤ
  pub default_hitl_timeout_ms : ℤ
  pub approval_channel : String
  pub decode : Option (Bytes → Answer TokenUsage)
  pub compactor : Option Strategy
  pub summarizer : Option Summarizer
  pub max_tokens_per_activation : Option ℕ
  pub longterm_store : Bool

-- The fields of an `ActivationContext` that change; `asked` counts the calls of the environment.
pub record ActivationContext : Type 0 where
  pub step_index : ℕ
  pub tool_index : ℕ
  pub intents : List ToolIntent
  pub traces : List TraceEvent
  pub memory : Memory
  pub longterm : List (String × MemoryRecord)
  pub replay_cache : ReplayCache
  pub budget : Option TokenBudget
  pub tally : ActivationTally
  pub asked : ℕ

abbrev pub empty_tally : ActivationTally
empty_tally = record {
  llm_calls = 0;
  tool_calls = 0;
  iterations = 0;
  usage_observed = false;
  total_tokens = 0;
  prompt_tokens = 0;
  completion_tokens = 0;
  llm_ms = [];
  tool_ms = [];
}

-- `__init__`, past its checks
unfoldable pub new_context : Environment → Settings → ActivationArgs → ActivationContext
unfolding open_memory replay_cache new_budget
new_context env settings args = record {
  step_index = args.step_index;
  tool_index = 0;
  intents = [];
  traces = [];
  memory = open_memory args.memory_blob args.now_ms;
  longterm = [];
  replay_cache = replay_cache env.codec args.cache_blob args.now_ms;
  budget = elim settings.max_tokens_per_activation [
    | none ↦ none
    | some limit ↦ some (new_budget limit)
  ];
  tally = empty_tally;
  asked = 0;
}

-- `compute_cache_key`
unfoldable pub compute_cache_key :
    (CacheDocument → String) → LlmRequest → (entity_key : Bytes) (seq : ℕ) → String
unfolding hex
compute_cache_key hexdigest request entity_key seq = hexdigest (record {
  model = request.model_id;
  messages = request.messages;
  tools = request.tools_schema;
  params = request.sampling_params;
  key = hex entity_key;
  seq = seq;
})

-- `is_resume`
abbrev pub is_resume : ActivationArgs → Bool
is_resume args = elim args.resume_result [
  | some result ↦ true
  | none ↦ is_some args.resume_approval
]

-- the property `events`
unfoldable pub events_of : ActivationArgs → List Bytes
events_of args = elim args.events [
  | some events ↦ events
  | none ↦ elim (is_resume args) [ true ↦ [] | false ↦ args.event ∷ [] ]
]

-- `build_continuation`
unfoldable pub build_continuation :
    ActivationArgs
    → (snapshot : Bytes) (adapter : String) (deadline_ms : ℤ) → ActivationContext
    → Continuation
build_continuation args snapshot adapter deadline_ms c = record {
  state_schema_version = current_state_schema_version;
  seq = args.seq;
  step_index = c.step_index;
  pending_intent_ids = map (λ i. i.intent_id) c.intents;
  adapter = adapter;
  snapshot = snapshot;
  suspended_at_ms = args.now_ms;
  deadline_ms = deadline_ms;
  escalations = 0;
}
