-- ===== src/Core/Tests.antt =====
-- Runs of core/dofn.py on one key: an agent that asks for one approval on every activation and is
-- done when it is resumed.
mod Rules
mod Unary
mod Loop
mod Agent
use beam_agents.Base.{
  ◌≡◌, refl, sym, pos, ◌+ℤ◌, Bool, true, false, none, some, [], ◌∷◌, arith, is_some,
}
use beam_agents.Wire.{
  Bytes, Kind, SignatureScheme, ToolIntent, Continuation, AgentEnvelope, MemoryBlob, LlmCacheBlob,
  external_event,
}
use beam_agents.Hitl.{Route, routed, hitl_timeout_output}
use beam_agents.Core.Migration.{Result, ok, raise, migrate_to_current, migrate, version_of}
use beam_agents.Core.Batching.{buffer_is_full, should_flush_on_size}
use beam_agents.Core.State.{fresh, ActivationResult, ActivationTally, completed, suspended, Run}
use beam_agents.Core.Engine.{
  ActivationArgs, finished, AgentDoFn, commit, commit_state, settle_buffer, ttl_from, record_commit,
  read_memory, read_cache, read_continuation,
}
use beam_agents.Core.Elements.{buffer, append_event, flush_if_full, flush, conclude_flush}
use beam_agents.Core.Process.{process, dispatch, process_event}
use beam_agents.Core.Callbacks.{Callback, callback, Reach, here, next, on_element}
use beam_agents.Core.Invariant.{IsSound, RunsSoundly, IsConsistent, Ensures}
use beam_agents.Core.Invariant.Reach.{Reach-IsConsistent}
use beam_agents.Core.Accounting.Callback.{IsAccounted, callback-IsAccounted}
use beam_agents.Core.Accounting.Atomic.{Effect, callback-Effect}

abbrev pub key : Bytes
key = 117 ∷ 49 ∷ []

abbrev pub memory : MemoryBlob
memory = record { state_schema_version = 1; entries = []; total_value_bytes = 0 }

abbrev cache : LlmCacheBlob
cache = record { state_schema_version = 1; entries = []; total_response_bytes = 0 }

abbrev tally : ActivationTally
tally = record {
  llm_calls = 0;
  tool_calls = 0;
  iterations = 1;
  usage_observed = false;
  total_tokens = 0;
  prompt_tokens = 0;
  completion_tokens = 0;
  llm_ms = [];
  tool_ms = [];
}

abbrev pub refund : ActivationArgs → ToolIntent
refund args = record {
  intent_id = "refund";
  entity_key = args.entity_key;
  seq = args.seq;
  step_index = args.step_index;
  tool_name = "refund";
  args_json = "{}";
  created_at_ms = args.now_ms;
  expires_at_ms = args.now_ms +ℤ pos 1000;
  attempt = 0;
  kind = Kind.approval;
  trace_id = [];
  signature_scheme = SignatureScheme.scheme_unspecified;
  signing_key_id = "";
  signature = [];
}

abbrev pub waiting : ActivationArgs → Continuation
waiting args = record {
  state_schema_version = 1;
  seq = args.seq;
  step_index = 1;
  pending_intent_ids = "refund" ∷ [];
  adapter = "";
  snapshot = [];
  suspended_at_ms = args.now_ms;
  deadline_ms = args.now_ms +ℤ pos 1000;
  escalations = 0;
}

-- the first run suspends on the refund, a resume completes
abbrev pub run_agent : ActivationArgs → Bool → ActivationResult
run_agent args false = record {
  status = suspended;
  seq = args.seq;
  memory_blob = memory;
  cache_blob = cache;
  intents = refund args ∷ [];
  traces = [];
  outputs = [];
  continuation = some (waiting args);
  hitl_deadline_ms = some (args.now_ms +ℤ pos 1000);
  tally = tally;
  upserts = 0;
}
run_agent args true = record {
  status = completed;
  seq = args.seq;
  memory_blob = memory;
  cache_blob = cache;
  intents = [];
  traces = [];
  outputs = (1 ∷ []) ∷ [];
  continuation = none;
  hitl_deadline_ms = none;
  tally = tally;
  upserts = 0;
}

abbrev pub runner : AgentDoFn
runner = record {
  ttl_ms = pos 500;
  hitl_policy = record {
    timeout_ms = pos 1000;
    intent_ttl_ms = pos 1000;
    approval_channel = "approval";
    max_escalations = 2;
    on_timeout = λ c. routed (Route.deny hitl_timeout_output);
  };
  batch = some (record { max_batch_size = 1; max_wait_ms = 500; max_buffered_events = 2 });
  on_expire = false;
  longterm_store = false;
  activate = λ args. (finished (run_agent args (is_some args.resume_approval)), 7);
  expire_hook = λ k n m t. true;
  migrations_memory = λ n. none;
  migrations_cache = λ n. none;
  migrations_continuation = λ n. none;
  uuid5 = λ b. "id";
  trace_id_for = λ k n. [];
}

run_agent-IsSound : (args : ActivationArgs) (b : Bool) → IsSound args.seq (run_agent args b)
run_agent-IsSound args false = record { live = λ c e. ground arith }
run_agent-IsSound args true = record { live = λ c e. cc }

runner-RunsSoundly : RunsSoundly runner
runner-RunsSoundly args r e =
    let same : run_agent args (is_some args.resume_approval) ≡ r = cc in
    rw (sym same) (run_agent-IsSound args (is_some args.resume_approval))

abbrev pub arrival : AgentEnvelope
arrival = record { entity_key = key; event_time_ms = pos 100; payload = external_event (5 ∷ []) }

unfoldable pub callbacks : Unit {0}
unfolding callback process dispatch process_event buffer buffer_is_full append_event flush_if_full
    should_flush_on_size flush conclude_flush commit commit_state settle_buffer ttl_from
    record_commit read_memory read_cache read_continuation migrate_to_current migrate version_of
    ◌+ℤ◌
callbacks = tt

abbrev pub run_of : Result Run → Run
run_of (ok run) = run
run_of (raise e) = record { state = fresh; outputs = []; metrics = [] }

-- the arrival fills the buffer and is flushed, and the agent suspends
abbrev after_arrival : Run
after_arrival = run_of (callback runner key (pos 90) (Callback.element arrival) fresh)

arrival_suspends :
    (after_arrival.state.hitl_timer ≡ some (pos 1100))
    × (after_arrival.state.ttl_timer ≡ some (pos 1600))
unfolding callbacks
arrival_suspends = (refl, refl)

after_arrival-Reach : Reach runner key after_arrival.state
unfolding callbacks
after_arrival-Reach = next here (on_element (pos 90) arrival after_arrival refl refl)

Reach-IsConsistent_example : IsConsistent runner after_arrival.state
Reach-IsConsistent_example = Reach-IsConsistent runner runner-RunsSoundly key after_arrival-Reach

callback-IsAccounted_example :
    Ensures IsAccounted (callback runner key (pos 90) (Callback.element arrival) fresh)
callback-IsAccounted_example =
    callback-IsAccounted runner key (pos 90) (Callback.element arrival) fresh

callback-Effect_example :
    Ensures (Effect fresh) (callback runner key (pos 90) (Callback.element arrival) fresh)
callback-Effect_example = callback-Effect runner key (pos 90) (Callback.element arrival) fresh
