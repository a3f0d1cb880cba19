-- ===== src/Core/Engine.antt =====
-- The pieces that the routes of core/dofn.py share: migrated reads, the dead-letter chokepoint,
-- the ERROR trace, the commit and its metrics.
use beam_agents.Base.{
  ℕ, ◌+◌, ◌-◌, ◌==◌, ℤ, ◌+ℤ◌, max_ℤ, String, Bool, true, false, Option, none, some, List, [], ◌∷◌,
  ◌++◌, map, length, sum, is_empty, str_eq, if◌then◌else◌,
}
use beam_agents.Wire.{Bytes, ToolResult, Approval, MemoryBlob, LlmCacheBlob, Continuation}
use beam_agents.Hitl.{HitlPolicy}
use beam_agents.Core.Migration.{Result, migrate_to_current}
use beam_agents.Core.Batching.{Trigger, trigger_size, trigger_timer, BatchSettings}
use beam_agents.Core.State.{
  KeyState, FailureContext, Cause, Detail, ActivationStatus, completed, suspended, ActivationResult,
  error_event, Output, main, errors, intents, traces, Counter, agent_errors, orphaned_results,
  activations, batch_flushes_size, batch_flushes_timer, suspensions, intents_emitted,
  longterm_upserts, llm_calls, tool_calls, memory_bytes, iterations, tokens, prompt_tokens,
  completion_tokens, llm_ms, overhead_ms, batch_size, Metric, incr, observe, Run, reason_orphaned,
  reason_error, reason_budget_exceeded,
}

-- what `_activate` hands to `run_activation`
pub record ActivationArgs : Type 0 where
  pub entity_key : Bytes
  pub seq : ℕ
  pub now_ms : ℤ
  pub memory_blob : Option MemoryBlob
  pub cache_blob : Option LlmCacheBlob
  pub event : Bytes
  pub events : Option (List Bytes)
  pub batch_trigger : Option Trigger
  pub resume_result : Option ToolResult
  pub resume_approval : Option Approval
  pub snapshot : Bytes
  pub step_index : ℕ

-- How the bounded run on the async bridge ends: a result, `ActivationTimeout`,
-- `ActivationFailed`, or any other exception.
pub data Attempt : Type 0 where
  finished : ActivationResult → Attempt
  timed_out : Attempt
  failed : Cause → FailureContext → Attempt
  crashed : Cause → Attempt

-- What the DoFn is built with. `activate` is the bridge running `run_activation` on the user's
-- agent, with the elapsed milliseconds that `_activate` samples; `expire_hook` is the user's
-- `on_expire` on the long-term store, and says whether it returned.
pub record AgentDoFn : Type 0 where
  pub ttl_ms : ℤ
  pub hitl_policy : HitlPolicy
  pub batch : Option BatchSettings
  pub on_expire : Bool
  pub longterm_store : Bool
  pub activate : ActivationArgs → Attempt × ℕ
  pub expire_hook : (entity_key : Bytes) (seq : ℕ) → MemoryBlob → (expired_at_ms : ℤ) → Bool
  pub migrations_memory : ℕ → Option (MemoryBlob → MemoryBlob)
  pub migrations_cache : ℕ → Option (LlmCacheBlob → LlmCacheBlob)
  pub migrations_continuation : ℕ → Option (Continuation → Continuation)
  pub uuid5 : Bytes → String
  pub trace_id_for : (entity_key : Bytes) (seq : ℕ) → Bytes

module _ (self : AgentDoFn) where
  -- `migrate_to_current(memory.read())` and its like
  unfoldable pub read_memory : KeyState → Result (Option MemoryBlob)
  read_memory s = migrate_to_current (λ m. m.state_schema_version) self.migrations_memory s.memory

  unfoldable pub read_cache : KeyState → Result (Option LlmCacheBlob)
  read_cache s = migrate_to_current (λ m. m.state_schema_version) self.migrations_cache s.llm_cache

  unfoldable pub read_continuation : KeyState → Result (Option Continuation)
  read_continuation s =
      migrate_to_current (λ m. m.state_schema_version) self.migrations_continuation s.continuation

-- `_dead_letter`: the record on `.errors`, and its count
abbrev pub dead_letter : Bytes → String → Detail → ℤ → Output
dead_letter key reason detail event_time_ms =
    errors
      (record { entity_key = key; reason = reason; detail = detail; event_time_ms = event_time_ms })

unfoldable pub dead_letter_metric : String → Metric
dead_letter_metric reason =
    if str_eq reason reason_orphaned then incr orphaned_results 1 else incr agent_errors 1

-- `_error_trace`
abbrev pub error_trace :
    Bytes → ℕ → ℤ → String → Option String → Bool → Option FailureContext → Output
error_trace key seq now_ms reason error_type role failure =
    traces (error_event key seq now_ms reason error_type role failure)

abbrev budget_reason : Bool → String
budget_reason true = reason_budget_exceeded
budget_reason false = reason_error

-- the reason that `_failed_activation` selects
abbrev pub failure_reason : Cause → String
failure_reason cause = budget_reason cause.is_budget_exceeded

-- `_rearm_flush`
unfoldable pub rearm_flush : AgentDoFn → (wall_now_ms : ℤ) → KeyState → KeyState
rearm_flush self wall_now_ms s = elim self.batch [
  | none ↦ s
  | some settings ↦ if is_empty s.batch then s else record s { flush_timer = some wall_now_ms }
]

-- which call site commits: `_start`, `_resume` with the buffer's handles, or `_flush`
pub data CommitSite : Type 0 where
  starting resuming : CommitSite
  flushing : (flush_size : ℕ) → Trigger → CommitSite

abbrev pub observe_all : List ℕ → List Metric
observe_all [] = []
observe_all (d ∷ ds) = observe llm_ms d ∷ observe_all ds

abbrev pub when : Bool → List Metric → List Metric
when b ms = if b then ms else []

abbrev pub counted : Counter → ℕ → List Metric
counted c n = if n == 0 then [] else incr c n ∷ []

abbrev pub flush_metrics : CommitSite → List Metric
flush_metrics (flushing n trigger_size) = incr batch_flushes_size 1 ∷ observe batch_size n ∷ []
flush_metrics (flushing n trigger_timer) = incr batch_flushes_timer 1 ∷ observe batch_size n ∷ []
flush_metrics _ = []

abbrev pub is_suspended : ActivationStatus → Bool
is_suspended suspended = true
is_suspended completed = false

-- `_record_commit`; `max(0, a - b)` is the truncated difference
unfoldable pub record_commit : ActivationResult → (activation_ms : ℕ) → CommitSite → List Metric
record_commit result activation_ms site =
    let tally = result.tally in
    incr activations 1
    ∷ (flush_metrics site
        ++ (when (is_suspended result.status) (incr suspensions 1 ∷ [])
            ++ (counted intents_emitted (length result.intents)
                ++ (counted longterm_upserts result.upserts
                    ++ (counted llm_calls tally.llm_calls
                        ++ (counted tool_calls tally.tool_calls
                            ++ (observe memory_bytes result.memory_blob.total_value_bytes
                                ∷ observe iterations tally.iterations
                                ∷ (when tally.usage_observed (
                                      observe tokens tally.total_tokens
                                      ∷ observe prompt_tokens tally.prompt_tokens
                                      ∷ observe completion_tokens tally.completion_tokens
                                      ∷ [])
                                    ++ (observe_all tally.llm_ms
                                        ++ observe overhead_ms
                                            (activation_ms - sum tally.llm_ms - sum tally.tool_ms)
                                          ∷ [])))))))))

-- the point that `_commit` measures the working-memory mark from
unfoldable pub ttl_from : ActivationResult → ℤ → ℤ
ttl_from result now_ms =
    if is_suspended result.status
    then elim result.hitl_deadline_ms [ none ↦ now_ms | some deadline ↦ max_ℤ now_ms deadline ]
    else now_ms

abbrev suspended_deadline : ActivationStatus → Option ℤ → Option ℤ
suspended_deadline suspended deadline = deadline
suspended_deadline completed deadline = none

-- the tail of the commit that is about the buffer and its timer
unfoldable pub settle_buffer :
    AgentDoFn → CommitSite → Option Continuation → (wall_now_ms : ℤ) → KeyState → KeyState
unfolding rearm_flush
settle_buffer self (flushing n trigger) cont wall_now_ms s = record s {
  batch = [];
  flush_timer = none;
}
settle_buffer self resuming none wall_now_ms s = rearm_flush self wall_now_ms s
settle_buffer self resuming (some c) wall_now_ms s = s
settle_buffer self starting cont wall_now_ms s = s

-- the state that `_commit` leaves
unfoldable pub commit_state :
    AgentDoFn → ActivationResult → (now_ms wall_now_ms : ℤ) → CommitSite → KeyState → KeyState
unfolding settle_buffer ttl_from
commit_state self result now_ms wall_now_ms site s =
    settle_buffer self site result.continuation wall_now_ms (record s {
      memory = some result.memory_blob;
      llm_cache = some result.cache_blob;
      continuation = result.continuation;
      pending = result.intents;
      seq = s.seq + 1;
      hitl_timer = suspended_deadline result.status result.hitl_deadline_ms;
      ttl_timer = some (ttl_from result now_ms +ℤ self.ttl_ms);
    })

unfoldable pub commit :
    AgentDoFn
    → ActivationResult
    → (now_ms wall_now_ms : ℤ) → (activation_ms : ℕ) → CommitSite
    → KeyState
    → Run
unfolding commit_state
commit self result now_ms wall_now_ms activation_ms site s = record {
  state = commit_state self result now_ms wall_now_ms site s;
  outputs = map main result.outputs ++ (map intents result.intents ++ map traces result.traces);
  metrics = record_commit result activation_ms site;
}
