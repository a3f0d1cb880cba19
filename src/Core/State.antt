-- ===== src/Core/State.antt =====
-- The keyed state and the timers of core/dofn.py, and what one element or timer callback produces.
use beam_agents.Base.{ℕ, ℤ, String, Bool, Option, none, List, []}
use beam_agents.Wire.{
  Bytes, ToolIntent, MemoryBlob, LlmCacheBlob, Continuation, AgentEnvelope, StateSnapshot, Kind,
}
use beam_agents.Core.Batching.{Trigger}

-- The state cells and the timers of one key. `seq` is the sum of what was added to SEQ, a bag is
-- a list, and a timer is the time it is set to.
pub record KeyState : Type 0 where
  pub memory : Option MemoryBlob
  pub continuation : Option Continuation
  pub llm_cache : Option LlmCacheBlob
  pub pending : List ToolIntent
  pub seq : ℕ
  pub batch : List AgentEnvelope
  pub ttl_timer : Option ℤ
  pub hitl_timer : Option ℤ
  pub flush_timer : Option ℤ

-- a key that was never written
abbrev pub fresh : KeyState
fresh = record {
  memory = none;
  continuation = none;
  llm_cache = none;
  pending = [];
  seq = 0;
  batch = [];
  ttl_timer = none;
  hitl_timer = none;
  flush_timer = none;
}

-- loop.py, `FailureContext`
pub record FailureContext : Type 0 where
  pub step_index : ℕ
  pub last_event : String
  pub staged_intents : ℕ
  pub llm_calls : ℕ

-- the REASON_* constants
abbrev pub reason_timeout : String
reason_timeout = "activation_timeout"

abbrev pub reason_error : String
reason_error = "activation_error"

abbrev pub reason_orphaned : String
reason_orphaned = "orphaned_result"

abbrev pub reason_ttl_wiped_suspension : String
reason_ttl_wiped_suspension = "ttl_wiped_suspension"

abbrev pub reason_ttl_wiped_batch : String
reason_ttl_wiped_batch = "ttl_wiped_batch"

abbrev pub reason_batch_overflow : String
reason_batch_overflow = "batch_buffer_overflow"

abbrev pub reason_budget_exceeded : String
reason_budget_exceeded = "budget_exceeded"

abbrev pub reason_hitl_timeout : String
reason_hitl_timeout = "hitl_timeout"

-- the DETAIL_* constants of the admission check
pub data Refusal : Type 0 where
  no_continuation unknown_intent deadline_passed intent_expired : Refusal

-- the exception that ended an activation: its `repr`, its class, and whether it is BudgetExceeded
pub record Cause : Type 0 where
  pub repr : String
  pub type_name : String
  pub is_budget_exceeded : Bool

-- what the `detail` of a dead letter was formatted from
pub data Detail : Type 0 where
  blank : Detail
  repr_of : Cause → Detail
  failed_at : Cause → FailureContext → Detail
  failed_batch : Detail → (batch_size : ℕ) → Trigger → Detail
  of_batch : (batch_size : ℕ) → Trigger → Detail
  refused : Refusal → (intent_id : String) → Detail
  buffered_cap : (buffered cap : ℕ) → Detail
  seq_deadline : (seq : ℕ) (deadline_ms : ℤ) → Detail
  buffered_index : (buffered index : ℕ) → Detail
  seq_of : ℕ → Detail
  policy_error : (seq : ℕ) → String → Detail

pub record ActivationError : Type 0 where
  pub entity_key : Bytes
  pub reason : String
  pub detail : Detail
  pub event_time_ms : ℤ

-- loop.py: how an activation ended, and the counts that it kept
pub data ActivationStatus : Type 0 where
  completed suspended : ActivationStatus

-- observability/metrics.py, `ActivationTally`
pub record ActivationTally : Type 0 where
  pub llm_calls : ℕ
  pub tool_calls : ℕ
  pub iterations : ℕ
  pub usage_observed : Bool
  pub total_tokens : ℕ
  pub prompt_tokens : ℕ
  pub completion_tokens : ℕ
  pub llm_ms : List ℕ
  pub tool_ms : List ℕ

-- model/facade.py, `TokenUsage`
pub record TokenUsage : Type 0 where
  pub prompt_tokens : ℕ
  pub completion_tokens : ℕ
  pub total_tokens : ℕ

-- An event of observability/traces.py, by the builder of `ActivationTrace` that makes it and the
-- arguments it is given. `error` also has the `role`: whether a timer emitted it.
pub data TraceEvent : Type 0 where
  activation_start : (batch_size : Option (ℕ × Trigger)) → TraceEvent
  activation_end : ActivationStatus → (step_index : ℕ) → TraceEvent
  suspended_event :
      (step_index : ℕ) (deadline_ms : ℤ) (adapter : String) (pending : List String) → TraceEvent
  intent_emitted :
      (step_index : ℕ) (intent_id tool_name : String) → Kind → (expires_at_ms : ℤ) → TraceEvent
  llm_call :
      (step_index : ℕ) (cache_hit : Bool) (model_id : String) → Option TokenUsage → TraceEvent
  tool_call : (step_index tool_index : ℕ) (tool_name : String) → TraceEvent
  agent_event : String → TraceEvent
  error_event :
      (entity_key : Bytes) (seq : ℕ) (now_ms : ℤ) (reason : String)
      → (error_type : Option String) → (timer_role : Bool) → Option FailureContext
      → TraceEvent

-- loop.py, `ActivationResult`; of the long-term upserts only their number is read here
pub record ActivationResult : Type 0 where
  pub status : ActivationStatus
  pub seq : ℕ
  pub memory_blob : MemoryBlob
  pub cache_blob : LlmCacheBlob
  pub intents : List ToolIntent
  pub traces : List TraceEvent
  pub outputs : List Bytes
  pub continuation : Option Continuation
  pub hitl_deadline_ms : Option ℤ
  pub tally : ActivationTally
  pub upserts : ℕ

-- the main output and the tagged ones
pub data Output : Type 0 where
  main : Bytes → Output
  errors : ActivationError → Output
  intents : ToolIntent → Output
  traces : TraceEvent → Output
  snapshots : StateSnapshot → Output

-- the COUNTER_* names of observability/metrics.py
pub data Counter : Type 0 where
  activations llm_calls tool_calls intents_emitted agent_errors suspensions : Counter
  orphaned_results longterm_upserts events_buffered : Counter
  batch_flushes_size batch_flushes_timer : Counter

-- the DISTRIBUTION_* names
pub data Distribution : Type 0 where
  activation_ms overhead_ms llm_ms tokens prompt_tokens completion_tokens : Distribution
  memory_bytes iterations batch_size : Distribution

pub data Metric : Type 0 where
  incr : Counter → ℕ → Metric
  observe : Distribution → ℕ → Metric

-- What one callback leaves: the state, what it yields and what it records.
pub record Run : Type 0 where
  pub state : KeyState
  pub outputs : List Output
  pub metrics : List Metric
