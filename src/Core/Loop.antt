-- ===== src/Core/Loop.antt =====
-- core/loop.py: one activation, from the context's construction to its result.
pub mod Endings
pub mod Contract
pub mod Blobs
pub mod Closure
pub mod Steps
use beam_agents.Base.{
  ℕ, ◌+◌, ◌-◌, ◌==◌, leb, ℤ, ◌+ℤ◌, min_list, String, Bool, true, false, Option, none, some, List,
  [], ◌∷◌, ◌++◌, map, length, is_empty, ◌⊎◌, inl, inr, if◌then◌else◌,
}
use beam_agents.Wire.{Bytes, Continuation}
use beam_agents.Core.Batching.{Trigger}
use beam_agents.Core.State.{
  FailureContext, ActivationStatus, completed, suspended, ActivationResult, TraceEvent, Cause,
  activation_start, activation_end, suspended_event, intent_emitted, llm_call, tool_call,
  agent_event, error_event,
}
use beam_agents.Core.Engine.{ActivationArgs, Attempt, finished, failed, crashed}
use beam_agents.Core.Context.{
  MemoryRecord, Raise, user_error, budget_exceeded, tool_not_found, side_effect_tool, memory_error,
  empty_longterm_key, no_longterm_store, not_an_outcome, assertion_error, invalid_arguments,
  longterm_flush_failed, Answer, answered, threw, Environment, Program, Summarizer, Settings,
  ActivationContext, new_context, build_continuation,
}
use beam_agents.Core.Context.Operations.{run_program, or_default}
use beam_agents.Memory.{
  MemoryError, memory_overflow, holds_a_ring, holds_a_scalar, key_error, truncated_prefix,
  truncated_item, item_too_long, empty_value, compactor_error, to_blob as memory_to_blob,
}
use beam_agents.Model.ReplayCache.{to_blob as cache_to_blob}

-- agent.py, `Outcome`; `other` is a value that is neither
pub data Outcome : Type 0 where
  complete : (output : Bytes) → Outcome
  suspend : (snapshot : Bytes) (adapter : String) (timeout_ms : Option ℤ) → Outcome
  other : Outcome

-- the user's agent: a coroutine, given what its context was built from
abbrev pub Agent : Type 0
Agent = ActivationArgs → Program Outcome

abbrev memory_type_name : MemoryError → String
memory_type_name (memory_overflow key attempted cap) = "MemoryOverflow"
memory_type_name (holds_a_ring key) = "TypeError"
memory_type_name (holds_a_scalar key) = "TypeError"
memory_type_name (key_error key) = "KeyError"
memory_type_name truncated_prefix = "ValueError"
memory_type_name truncated_item = "ValueError"
memory_type_name item_too_long = "OverflowError"
memory_type_name empty_value = "IndexError"
memory_type_name (compactor_error type_name) = type_name

-- `type(exc).__name__`
abbrev type_name_of : Raise → String
type_name_of (user_error cause) = cause.type_name
type_name_of (budget_exceeded limit consumed) = "BudgetExceeded"
type_name_of (tool_not_found name) = "ToolNotFoundError"
type_name_of (side_effect_tool name) = "SideEffectToolError"
type_name_of (memory_error e) = memory_type_name e
type_name_of empty_longterm_key = "ValueError"
type_name_of invalid_arguments = "ValueError"
type_name_of no_longterm_store = "RuntimeError"
type_name_of not_an_outcome = "TypeError"
type_name_of assertion_error = "AssertionError"
type_name_of (longterm_flush_failed key) = "LongtermFlushFailed"

abbrev is_budget_error : Raise → Bool
is_budget_error (user_error cause) = cause.is_budget_exceeded
is_budget_error (budget_exceeded limit consumed) = true
is_budget_error _ = false

abbrev event_name : TraceEvent → String
event_name (activation_start batch) = "ACTIVATION_START"
event_name (activation_end status step) = "ACTIVATION_END"
event_name (suspended_event step deadline adapter pending) = "SUSPENDED"
event_name (intent_emitted step intent_id tool_name kind expires) = "INTENT_EMITTED"
event_name (llm_call step hit model_id usage) = "LLM_CALL"
event_name (tool_call step index tool_name) = "TOOL_CALL"
event_name (agent_event event_type) = event_type
event_name (error_event key seq now reason error_type role failure) = "ERROR"

-- the name of the last event, "" if none
unfoldable pub last_event : List TraceEvent → String
last_event [] = ""
last_event (e ∷ []) = event_name e
last_event (e ∷ f ∷ es) = last_event (f ∷ es)

abbrev pub staged : TraceEvent → ActivationContext → ActivationContext
staged e c = record c { traces = c.traces ++ e ∷ [] }

-- the attributes that a batch adds to the start event
abbrev pub start_batch : ActivationArgs → Option (ℕ × Trigger)
start_batch args = elim args.events [
  | none ↦ none
  | some events ↦ elim args.batch_trigger [
    | none ↦ none
    | some trigger ↦ some (length events, trigger)
  ]
]

module _ (env : Environment) (settings : Settings) (args : ActivationArgs) where
  -- the handler: `ActivationFailed` from the exception, with the position of the context
  unfoldable pub activation_failed : Raise → ActivationContext → Attempt
  unfolding last_event
  activation_failed e c =
      failed
        (record {
          repr = env.repr e;
          type_name = type_name_of e;
          is_budget_exceeded = is_budget_error e;
        })
        (record {
          step_index = c.step_index;
          last_event = last_event c.traces;
          staged_intents = length c.intents;
          llm_calls = c.tally.llm_calls;
        })

  -- the loop of `_flush_longterm`: what it raises, if anything
  unfoldable pub flush_records : (asked : ℕ) → List (String × MemoryRecord) → Option Raise
  flush_records asked [] = none
  flush_records asked ((k, r) ∷ rs) =
      let rest = flush_records (asked + 1) rs in
      elim (env.store_save asked r) [
        | answered t ↦ rest
        | threw e ↦ some (longterm_flush_failed r.key)
      ]

  -- what both ends of the activation share: the flush, then the result
  abbrev pub flushed : Option Raise → ActivationContext → ActivationResult → Attempt
  flushed (some e) c result = activation_failed e c
  flushed none c result = finished result

  -- the fields of the result that do not depend on the outcome
  abbrev pub result_of : ActivationContext → ActivationResult
  result_of c = record {
    status = completed;
    seq = args.seq;
    memory_blob = memory_to_blob c.memory;
    cache_blob = cache_to_blob c.replay_cache;
    intents = c.intents;
    traces = c.traces;
    outputs = [];
    continuation = none;
    hitl_deadline_ms = none;
    tally = record c.tally { iterations = c.step_index - args.step_index };
    upserts = length c.longterm;
  }

  -- the deadline of a suspension
  unfoldable pub suspension_deadline : (timeout_ms : Option ℤ) → ActivationContext → ℤ
  unfolding ◌+ℤ◌
  suspension_deadline timeout_ms c =
      min_list (args.now_ms +ℤ or_default timeout_ms settings.default_hitl_timeout_ms)
        (map (λ i. i.expires_at_ms) c.intents)

  -- the context that stages the end of a suspended activation, and its result
  abbrev pub suspended_context :
      (adapter : String) (timeout_ms : Option ℤ) → ActivationContext → ActivationContext
  suspended_context adapter timeout_ms c = staged (activation_end suspended c.step_index) (
      staged
        (suspended_event c.step_index (suspension_deadline timeout_ms c) adapter
          (map (λ i. i.intent_id) c.intents))
        c)

  abbrev pub suspended_result :
      (snapshot : Bytes) (adapter : String) (timeout_ms : Option ℤ)
      → ActivationContext
      → ActivationResult
  suspended_result snapshot adapter timeout_ms c =
      record (result_of (suspended_context adapter timeout_ms c)) {
        status = suspended;
        continuation =
            some (build_continuation args snapshot adapter (suspension_deadline timeout_ms c) c);
        hitl_deadline_ms = some (suspension_deadline timeout_ms c);
      }

  -- the branch for `Suspend`
  unfoldable pub finish_suspended :
      (snapshot : Bytes) (adapter : String) (timeout_ms : Option ℤ) → ActivationContext → Attempt
  unfolding suspension_deadline build_continuation flush_records activation_failed
  finish_suspended snapshot adapter timeout_ms c =
      let c1 = suspended_context adapter timeout_ms c in
      flushed (flush_records c1.asked c1.longterm) c1
        (suspended_result snapshot adapter timeout_ms c)

  abbrev pub completed_result : (output : Bytes) → ActivationContext → ActivationResult
  completed_result output c =
      record (result_of (staged (activation_end completed c.step_index) c)) {
        outputs = if is_empty output then [] else output ∷ [];
      }

  -- the branch for `Complete`
  unfoldable pub finish_completed : (output : Bytes) → ActivationContext → Attempt
  unfolding flush_records activation_failed
  finish_completed output c =
      let c1 = staged (activation_end completed c.step_index) c in
      flushed (flush_records c1.asked c1.longterm) c1 (completed_result output c)

  abbrev pub settle : Outcome → ActivationContext → Attempt
  settle (suspend snapshot adapter timeout_ms) c = finish_suspended snapshot adapter timeout_ms c
  settle (complete output) c = finish_completed output c
  settle other c = activation_failed not_an_outcome c

  abbrev pub after_summary : Outcome → (Unit {0} ⊎ Raise) × ActivationContext → Attempt
  after_summary outcome (inl t, c) = settle outcome c
  after_summary outcome (inr e, c) = activation_failed e c

  -- the summarizer's run, where its trigger is reached
  abbrev pub summarize : Option Summarizer → Outcome → ActivationContext → Attempt
  summarize none outcome c = settle outcome c
  summarize (some s) outcome c =
      if leb s.trigger_bytes c.memory.total
      then after_summary outcome (run_program env settings args s.compact c)
      else settle outcome c

  abbrev pub after_agent : (Outcome ⊎ Raise) × ActivationContext → Attempt
  after_agent (inl outcome, c) = summarize settings.summarizer outcome c
  after_agent (inr e, c) = activation_failed e c

  -- past the context's construction
  unfoldable pub drive : Agent → ActivationContext → Attempt
  unfolding run_program finish_suspended finish_completed activation_failed
  drive agent c =
      after_agent (
        run_program env settings args (agent args) (staged (activation_start (start_batch args)) c))

  -- the checks of the constructor: an empty batch, and a budget with no decoder or no tokens
  abbrev pub budget_refused : Option ℕ → Bool
  budget_refused none = false
  budget_refused (some limit) = elim settings.decode [ none ↦ true | some decode ↦ limit == 0 ]

  abbrev pub empty_batch : Option (List Bytes) → Bool
  empty_batch none = false
  empty_batch (some events) = is_empty events

  -- the constructor's ValueError, which has no position
  abbrev pub refused_construction : Attempt
  refused_construction = crashed (record {
    repr = env.repr invalid_arguments;
    type_name = type_name_of invalid_arguments;
    is_budget_exceeded = false;
  })

  -- `run_activation`
  unfoldable pub run_activation : Agent → Attempt
  unfolding new_context drive
  run_activation agent =
      if empty_batch args.events
      then refused_construction
      else if budget_refused settings.max_tokens_per_activation
      then refused_construction
      else drive agent (new_context env settings args)
