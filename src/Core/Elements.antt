-- ===== src/Core/Elements.antt =====
-- The element routes of core/dofn.py: `process`, `_start`, `_buffer`, `_flush` and `_resume`.
-- `wall_now_ms` is the reading of the injected clock, which a route takes at most once.
pub mod Mark
use beam_agents.Base.{
  ℕ, ◌==◌, ℤ, pos, ◌+ℤ◌, max_list, String, false, Option, none, some, List, [], ◌∷◌, ◌++◌, map,
  length, is_some, if◌then◌else◌,
}
use beam_agents.Wire.{Bytes, AgentEnvelope, event_of, MemoryBlob, LlmCacheBlob, Continuation}
use beam_agents.Core.Migration.{Result, ok, ◌>>=◌}
use beam_agents.Core.Batching.{
  Trigger, trigger_size, BatchSettings, buffer_is_full, should_flush_on_size,
}
use beam_agents.Core.State.{
  KeyState, Detail, blank, repr_of, failed_at, failed_batch, of_batch, Output, events_buffered,
  activation_ms, buffered_cap, Metric, incr, observe, Run, reason_timeout, reason_error,
  reason_batch_overflow,
}
use beam_agents.Core.Engine.{
  ActivationArgs, Attempt, finished, timed_out, failed, crashed, AgentDoFn, read_memory, read_cache,
  read_continuation, dead_letter, dead_letter_metric, error_trace, failure_reason, CommitSite,
  starting, flushing, commit,
}

-- the three failure exits that `_start` and `_resume` share, and the commit
unfoldable pub conclude :
    AgentDoFn
    → Bytes
    → (seq : ℕ) → (now_ms wall_now_ms : ℤ) → CommitSite
    → KeyState
    → Attempt × ℕ
    → Run
conclude self key seq now_ms wall_now_ms site s (finished result, elapsed) =
    let run = commit self result now_ms wall_now_ms elapsed site s in
    record run { metrics = observe activation_ms elapsed ∷ run.metrics }
conclude self key seq now_ms wall_now_ms site s (timed_out, elapsed) = record {
  state = s;
  outputs =
      dead_letter key reason_timeout blank now_ms
      ∷ error_trace key seq now_ms reason_timeout none false none
      ∷ [];
  metrics = observe activation_ms elapsed ∷ dead_letter_metric reason_timeout ∷ [];
}
conclude self key seq now_ms wall_now_ms site s (failed cause context, elapsed) =
    let reason = failure_reason cause in
    record {
      state = s;
      outputs =
          dead_letter key reason (failed_at cause context) now_ms
          ∷ error_trace key seq now_ms reason (some cause.type_name) false (some context)
          ∷ [];
      metrics = observe activation_ms elapsed ∷ dead_letter_metric reason ∷ [];
    }
conclude self key seq now_ms wall_now_ms site s (crashed cause, elapsed) = record {
  state = s;
  outputs =
      dead_letter key reason_error (repr_of cause) now_ms
      ∷ error_trace key seq now_ms reason_error (some cause.type_name) false none
      ∷ [];
  metrics = observe activation_ms elapsed ∷ dead_letter_metric reason_error ∷ [];
}

-- what `_start` passes on, with the defaults of `_activate`
abbrev pub start_args :
    Bytes → ℕ → ℤ → Option MemoryBlob → Option LlmCacheBlob → Bytes → ActivationArgs
start_args key seq now_ms memory_blob cache_blob event = record {
  entity_key = key;
  seq = seq;
  now_ms = now_ms;
  memory_blob = memory_blob;
  cache_blob = cache_blob;
  event = event;
  events = none;
  batch_trigger = none;
  resume_result = none;
  resume_approval = none;
  snapshot = [];
  step_index = 0;
}

-- `_start`
unfoldable pub start :
    AgentDoFn → Bytes → (now_ms wall_now_ms : ℤ) → (event : Bytes) → KeyState → Result Run
start self key now_ms wall_now_ms event s = do
  memory_blob ← read_memory self s
  cache_blob ← read_cache self s
  ok (
      conclude self key s.seq now_ms wall_now_ms starting s
        (self.activate (start_args key s.seq now_ms memory_blob cache_blob event)))

-- `_failed_flush`: one dead letter for each envelope, and the buffer is consumed
unfoldable pub failed_flush :
    Bytes
    → (now_ms : ℤ) → List AgentEnvelope
    → String
    → Detail
    → Output
    → (elapsed : ℕ) → KeyState
    → Run
failed_flush key now_ms envelopes reason detail trace elapsed s = record {
  state = record s { batch = []; flush_timer = none };
  outputs = map (λ e. dead_letter key reason detail now_ms) envelopes ++ trace ∷ [];
  metrics = observe activation_ms elapsed ∷ map (λ e. dead_letter_metric reason) envelopes;
}

-- the exits of `_flush`
unfoldable pub conclude_flush :
    AgentDoFn
    → Bytes
    → (now_ms wall_now_ms : ℤ) → List AgentEnvelope
    → Trigger
    → KeyState
    → Attempt × ℕ
    → Run
unfolding failed_flush
conclude_flush self key now_ms wall_now_ms envelopes trigger s (finished result, elapsed) =
    let run =
      commit self result now_ms wall_now_ms elapsed (flushing (length envelopes) trigger) s in
    record run { metrics = observe activation_ms elapsed ∷ run.metrics }
conclude_flush self key now_ms wall_now_ms envelopes trigger s (timed_out, elapsed) =
    failed_flush key now_ms envelopes reason_timeout (of_batch (length envelopes) trigger)
      (error_trace key s.seq now_ms reason_timeout none false none) elapsed s
conclude_flush self key now_ms wall_now_ms envelopes trigger s (failed cause context, elapsed) =
    failed_flush key now_ms envelopes reason_error
      (failed_batch (failed_at cause context) (length envelopes) trigger)
      (error_trace key s.seq now_ms reason_error (some cause.type_name) false (some context))
      elapsed s
conclude_flush self key now_ms wall_now_ms envelopes trigger s (crashed cause, elapsed) =
    failed_flush key now_ms envelopes reason_error
      (failed_batch (repr_of cause) (length envelopes) trigger)
      (error_trace key s.seq now_ms reason_error (some cause.type_name) false none) elapsed s

abbrev latest : List AgentEnvelope → ℤ
latest [] = pos 0
latest (e ∷ es) = max_list e.event_time_ms (map (λ x. x.event_time_ms) es)

-- `_flush`, over a buffer that is not empty: the one caller checks `buffered > 0`, the other has
-- just appended to it
unfoldable pub flush :
    AgentDoFn → Bytes → (wall_now_ms : ℤ) → List AgentEnvelope → Trigger → KeyState → Result Run
flush self key wall_now_ms envelopes trigger s = do
  let now_ms = latest envelopes
  memory_blob ← read_memory self s
  cache_blob ← read_cache self s
  let args = start_args key s.seq now_ms memory_blob cache_blob []
  ok (
      conclude_flush self key now_ms wall_now_ms envelopes trigger s (
        self.activate (record args {
          events = some (map (λ e. event_of e.payload) envelopes);
          batch_trigger = some trigger;
        })))

-- the buffering effects of `_buffer`: the append, the working-memory mark, the flush timer
unfoldable pub append_event :
    AgentDoFn → BatchSettings → (wall_now_ms : ℤ) → AgentEnvelope → KeyState → KeyState
append_event self settings wall_now_ms envelope s =
    let buffered = s.batch ++ envelope ∷ [] in
    record s {
      batch = buffered;
      ttl_timer = some (envelope.event_time_ms +ℤ self.ttl_ms);
      flush_timer =
          if length buffered == 1
          then some (wall_now_ms +ℤ pos settings.max_wait_ms)
          else s.flush_timer;
    }

abbrev pub with_metric : Metric → Run → Run
with_metric m run = record run { metrics = m ∷ run.metrics }

-- the end of `_buffer`: a flush if the buffer has reached its threshold
unfoldable pub flush_if_full :
    AgentDoFn
    → BatchSettings
    → Bytes
    → (wall_now_ms : ℤ) → Option Continuation
    → KeyState
    → Result Run
flush_if_full self settings key wall_now_ms cont s =
    if should_flush_on_size (length s.batch) settings.max_batch_size (is_some cont)
    then flush self key wall_now_ms s.batch trigger_size s
    else ok (record { state = s; outputs = []; metrics = [] })

-- the event that a full buffer sheds
unfoldable pub overflow : Bytes → BatchSettings → AgentEnvelope → KeyState → Run
overflow key settings envelope s = record {
  state = s;
  outputs =
      dead_letter key reason_batch_overflow
        (buffered_cap (length s.batch) settings.max_buffered_events) envelope.event_time_ms
      ∷ [];
  metrics = dead_letter_metric reason_batch_overflow ∷ [];
}

-- `_buffer`
unfoldable pub buffer :
    AgentDoFn → BatchSettings → Bytes → (wall_now_ms : ℤ) → AgentEnvelope → KeyState → Result Run
unfolding overflow
buffer self settings key wall_now_ms envelope s =
    if buffer_is_full (length s.batch) settings.max_buffered_events
    then ok (overflow key settings envelope s)
    else do
      let s' = append_event self settings wall_now_ms envelope s
      cont ← read_continuation self s'
      run ← flush_if_full self settings key wall_now_ms cont s'
      ok (with_metric (incr events_buffered 1) run)
