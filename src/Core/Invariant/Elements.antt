-- ===== src/Core/Invariant/Elements.antt =====
-- Every element keeps the invariant.
use beam_agents.Base.{
  ◌≡◌, refl, ℤ, Option, none, some, List, [], ◌∷◌, arith, is_empty, length, length-append, true,
  false, String, is_some,
}
use beam_agents.Wire.{
  Bytes, Continuation, AgentEnvelope, ToolResult, Approval, Payload, external_event, tool_result,
  approval, export_request, empty, event_of,
}
use beam_agents.Core.Migration.{ok}
use beam_agents.Core.Batching.{
  Trigger, trigger_size, should_flush_on_size, BatchSettings, buffer_is_full,
}
use beam_agents.Core.State.{KeyState, Refusal, Run, incr, events_buffered}
use beam_agents.Core.Engine.{
  AgentDoFn, read_memory, read_cache, read_continuation, starting, resuming,
}
use beam_agents.Core.Elements.{
  start, flush, buffer, append_event, flush_if_full, overflow, with_metric,
}
use beam_agents.Core.Process.{
  resume, resume_with, resume_decided, resume_admitted, process_event, dispatch, process,
}
use beam_agents.Core.Timers.{unchanged}
use beam_agents.Core.Invariant.{RunsSoundly, IsConsistent, Ensures}
use beam_agents.Core.Invariant.Commit.{
  Ensures-read, Ensures-if, Ensures-map, conclude-IsConsistent, conclude_flush-IsConsistent,
}

-- with batching off the buffer is empty
quiet :
    (self : AgentDoFn) (s : KeyState)
    → self.batch ≡ none
    → IsConsistent self s
    → is_empty s.batch ≡ true
quiet self s off h = ground (arith, h.fits)

append_event-IsConsistent :
    (self : AgentDoFn) (settings : BatchSettings) (wall_now_ms : ℤ) (e : AgentEnvelope)
    (s : KeyState)
    → self.batch ≡ some settings
    → buffer_is_full (length s.batch) settings.max_buffered_events ≡ false
    → IsConsistent self s
    → IsConsistent self (append_event self settings wall_now_ms e s)
unfolding append_event buffer_is_full
append_event-IsConsistent self settings wall_now_ms e s adaptive room h = record {
  armed = h.armed;
  pended = h.pended;
  spent = h.spent;
  awaited = ground (arith, h.awaited, length-append s.batch (e ∷ []));
  fits = ground (arith, h.fits, length-append s.batch (e ∷ []));
}

module _ (self : AgentDoFn) (sound : RunsSoundly self) (key : Bytes) (wall_now_ms : ℤ) where
  abbrev pub Keeps : Run → Type 0
  Keeps run = IsConsistent self run.state

  start-IsConsistent :
      (now_ms : ℤ) (event : Bytes) (s : KeyState)
      → self.batch ≡ none
      → IsConsistent self s
      → Ensures Keeps (start self key now_ms wall_now_ms event s)
  unfolding start read_memory read_cache
  start-IsConsistent now_ms event s off h = Ensures-read _ _ Keeps s.memory _ (
      Ensures-read _ _ Keeps s.llm_cache _ (
        conclude-IsConsistent self s h key now_ms wall_now_ms starting s.seq _ (sound _)
          (omega arith) (λ e. quiet self s off h)))

  pub flush-IsConsistent :
      (mark : Option ℤ) (envelopes : List AgentEnvelope) (trigger : Trigger) (s : KeyState)
      → IsConsistent self s
      → Ensures Keeps
          (flush self key wall_now_ms envelopes trigger (record s { flush_timer = mark }))
  unfolding flush read_memory read_cache
  flush-IsConsistent mark envelopes trigger s h = Ensures-read _ _ Keeps s.memory _ (
      Ensures-read _ _ Keeps s.llm_cache _
        (conclude_flush-IsConsistent self s h mark key _ wall_now_ms envelopes trigger _ (sound _)))

  flush_if_full-IsConsistent :
      (settings : BatchSettings) (cont : Option Continuation) (s : KeyState)
      → IsConsistent self s
      → Ensures Keeps (flush_if_full self settings key wall_now_ms cont s)
  unfolding flush_if_full
  flush_if_full-IsConsistent settings cont s h =
      Ensures-if Keeps
        (should_flush_on_size (length s.batch) settings.max_batch_size (is_some cont)) _
        (ok (unchanged s)) (λ due. flush-IsConsistent s.flush_timer s.batch trigger_size s h)
        (λ early. h)

  buffer-IsConsistent :
      (settings : BatchSettings) (e : AgentEnvelope) (s : KeyState)
      → self.batch ≡ some settings
      → IsConsistent self s
      → Ensures Keeps (buffer self settings key wall_now_ms e s)
  unfolding buffer read_continuation
  buffer-IsConsistent settings e s adaptive h =
      Ensures-if Keeps (buffer_is_full (length s.batch) settings.max_buffered_events)
        (ok (overflow key settings e s)) _ (λ full. h)
        (λ room.
          let h' = append_event-IsConsistent self settings wall_now_ms e s adaptive room h in
          Ensures-read _ _ Keeps _ _ (
            Ensures-map Keeps Keeps (with_metric (incr events_buffered 1)) _ (λ run k. k)
              (flush_if_full-IsConsistent settings _ _ h')))

  resume_admitted-IsConsistent :
      (now_ms : ℤ) (r : Option ToolResult) (a : Option Approval) (c : Continuation) (s : KeyState)
      → s.continuation ≡ some c
      → IsConsistent self s
      → Ensures Keeps (resume_admitted self key now_ms wall_now_ms r a c s)
  unfolding resume_admitted read_memory read_cache
  resume_admitted-IsConsistent now_ms r a c s live h = Ensures-read _ _ Keeps s.memory _ (
      Ensures-read _ _ Keeps s.llm_cache _ (
        conclude-IsConsistent self s h key now_ms wall_now_ms resuming c.seq _ (sound _)
          (omega (arith, h.spent c live)) (λ e. cc)))

  resume_decided-IsConsistent :
      (now_ms : ℤ) (intent_id : String) (r : Option ToolResult) (a : Option Approval)
      (d : Option Refusal) (o : Option Continuation) (s : KeyState)
      → s.continuation ≡ o
      → IsConsistent self s
      → Ensures Keeps (resume_decided self key now_ms wall_now_ms intent_id r a d o s)
  unfolding resume_decided
  resume_decided-IsConsistent now_ms intent_id r a (some d) o s live h = h
  resume_decided-IsConsistent now_ms intent_id r a none none s live h = h
  resume_decided-IsConsistent now_ms intent_id r a none (some c) s live h =
      resume_admitted-IsConsistent now_ms r a c s live h

  resume-IsConsistent :
      (now_ms : ℤ) (intent_id : String) (r : Option ToolResult) (a : Option Approval) (s : KeyState)
      → IsConsistent self s
      → Ensures Keeps (resume self key now_ms wall_now_ms intent_id r a s)
  unfolding resume resume_with read_continuation
  resume-IsConsistent now_ms intent_id r a s h =
      Ensures-read _ _ Keeps s.continuation _
        (resume_decided-IsConsistent now_ms intent_id r a _ s.continuation s refl h)

  process_event-IsConsistent :
      (e : AgentEnvelope) (o : Option BatchSettings) (s : KeyState)
      → self.batch ≡ o
      → IsConsistent self s
      → Ensures Keeps (process_event self key wall_now_ms e o s)
  unfolding process_event
  process_event-IsConsistent e none s mode h =
      (start-IsConsistent e.event_time_ms (event_of e.payload) s mode h)
  process_event-IsConsistent e (some settings) s mode h = (buffer-IsConsistent settings e s mode h)

  dispatch-IsConsistent :
      (e : AgentEnvelope) (p : Payload) (s : KeyState)
      → IsConsistent self s
      → Ensures Keeps (dispatch self key wall_now_ms e p s)
  unfolding dispatch
  dispatch-IsConsistent e (export_request id) s h = h
  dispatch-IsConsistent e (tool_result r) s h =
      resume-IsConsistent e.event_time_ms r.intent_id (some r) none s h
  dispatch-IsConsistent e (approval a) s h =
      resume-IsConsistent e.event_time_ms a.intent_id none (some a) s h
  dispatch-IsConsistent e (external_event b) s h = process_event-IsConsistent e self.batch s refl h
  dispatch-IsConsistent e empty s h = process_event-IsConsistent e self.batch s refl h

  pub process-IsConsistent :
      (e : AgentEnvelope) (s : KeyState)
      → IsConsistent self s
      → Ensures Keeps (process self key wall_now_ms e s)
  unfolding process
  process-IsConsistent e s h = dispatch-IsConsistent e e.payload s h
