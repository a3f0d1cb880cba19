-- ===== src/Core/Leaves.antt =====
-- One rule for what holds of every callback: it holds of each exit. A relation between the state
-- before and the run is shown on the exits, with the reads, tests and dispatch gone.
use beam_agents.Base.{ℕ, ℤ, String, Option, none, some, List, length, is_some, ltb_ℤ}
use beam_agents.Wire.{
  Bytes, Continuation, AgentEnvelope, ToolResult, Approval, Payload, external_event, tool_result,
  approval, export_request, empty, event_of,
}
use beam_agents.Hitl.{Route}
use beam_agents.Core.Migration.{ok}
use beam_agents.Core.Batching.{
  Trigger, trigger_size, trigger_timer, BatchSettings, buffer_is_full, should_flush_on_size,
  should_flush_on_timer,
}
use beam_agents.Core.State.{KeyState, Refusal, Detail, Run, incr, events_buffered}
use beam_agents.Core.Engine.{
  ActivationArgs, AgentDoFn, read_memory, read_cache, read_continuation, CommitSite, starting,
  resuming,
}
use beam_agents.Core.Elements.{
  conclude, conclude_flush, start, flush, append_event, overflow, with_metric, flush_if_full,
  buffer,
}
use beam_agents.Core.Process.{
  refuse_resume, resume_admitted, resume_decided, resume_with, resume, export, process_event,
  dispatch, process,
}
use beam_agents.Core.Timers.{unchanged, demote_first, wiped_run, on_ttl, flush_if_due, on_flush}
use beam_agents.Core.HitlTimer.{apply_route, route_timeout, fire_hitl, on_hitl}
use beam_agents.Core.Callbacks.{Callback, callback}
use beam_agents.Core.Invariant.{Ensures}
use beam_agents.Core.Invariant.Commit.{
  Ensures-read, Ensures-if, Ensures-seq, Ensures-map, either_run,
}

pub record Leaves (self : AgentDoFn) (P : KeyState → Run → Type 0) : Type 0 where
  pub concluded :
      (key : Bytes) (seq : ℕ) (now_ms wall_now_ms : ℤ) (site : CommitSite) (s : KeyState)
      (args : ActivationArgs)
      → P s (conclude self key seq now_ms wall_now_ms site s (self.activate args))
  pub flushed :
      (key : Bytes) (now_ms wall_now_ms : ℤ) (envelopes : List AgentEnvelope) (trigger : Trigger)
      (s : KeyState) (args : ActivationArgs)
      → P s (conclude_flush self key now_ms wall_now_ms envelopes trigger s (self.activate args))
  pub refused :
      (key : Bytes) (now_ms : ℤ) (intent_id : String) (d : Refusal) (o : Option Continuation)
      (s : KeyState)
      → P s (refuse_resume key now_ms intent_id d o s)
  pub exported :
      (key : Bytes) (now_ms : ℤ) (request_id : String) (s : KeyState)
      → P s (export key now_ms request_id s)
  pub shed :
      (key : Bytes) (settings : BatchSettings) (e : AgentEnvelope) (s : KeyState)
      → P s (overflow key settings e s)
  pub appended :
      (settings : BatchSettings) (wall_now_ms : ℤ) (e : AgentEnvelope) (s : KeyState) (run : Run)
      → P (append_event self settings wall_now_ms e s) run
      → P s (with_metric (incr events_buffered 1) run)
  pub idle : (s : KeyState) → P s (unchanged s)
  pub wiped :
      (key : Bytes) (fired_at_ms : ℤ) (o : Option Continuation) (s : KeyState)
      → P s (wiped_run self key fired_at_ms o s)
  pub routed :
      (key : Bytes) (c : Continuation) (fired_at_ms wall_now_ms : ℤ) (route : Route)
      (detail : Detail) (s : KeyState)
      → P s (apply_route self key c fired_at_ms wall_now_ms route detail s)

module _ (self : AgentDoFn) (P : KeyState → Run → Type 0) (leaf : Leaves self P) (key : Bytes)
    (wall_now_ms : ℤ) where
  start-leaf :
      (now_ms : ℤ) (event : Bytes) (s : KeyState)
      → Ensures (P s) (start self key now_ms wall_now_ms event s)
  unfolding start read_memory read_cache
  start-leaf now_ms event s = Ensures-read _ _ (P s) s.memory _ (
      Ensures-read _ _ (P s) s.llm_cache _
        (leaf.concluded key s.seq now_ms wall_now_ms starting s _))

  flush-leaf :
      (envelopes : List AgentEnvelope) (trigger : Trigger) (s : KeyState)
      → Ensures (P s) (flush self key wall_now_ms envelopes trigger s)
  unfolding flush read_memory read_cache
  flush-leaf envelopes trigger s =
      Ensures-read _ _ (P s) s.memory _ (
        Ensures-read _ _ (P s) s.llm_cache _ (leaf.flushed key _ wall_now_ms envelopes trigger s _))

  flush_if_full-leaf :
      (settings : BatchSettings) (cont : Option Continuation) (s : KeyState)
      → Ensures (P s) (flush_if_full self settings key wall_now_ms cont s)
  unfolding flush_if_full
  flush_if_full-leaf settings cont s =
      Ensures-if (P s)
        (should_flush_on_size (length s.batch) settings.max_batch_size (is_some cont)) _
        (ok (unchanged s)) (λ due. flush-leaf s.batch trigger_size s) (λ early. leaf.idle s)

  buffer-leaf :
      (settings : BatchSettings) (e : AgentEnvelope) (s : KeyState)
      → Ensures (P s) (buffer self settings key wall_now_ms e s)
  unfolding buffer read_continuation
  buffer-leaf settings e s =
      let s' = append_event self settings wall_now_ms e s in
      Ensures-if (P s) (buffer_is_full (length s.batch) settings.max_buffered_events)
        (ok (overflow key settings e s)) _ (λ full. leaf.shed key settings e s)
        (λ room. Ensures-read _ _ (P s) _ _ (
          Ensures-map (P s') (P s) (with_metric (incr events_buffered 1)) _
            (leaf.appended settings wall_now_ms e s) (flush_if_full-leaf settings _ s')))

  resume_admitted-leaf :
      (now_ms : ℤ) (r : Option ToolResult) (a : Option Approval) (c : Continuation) (s : KeyState)
      → Ensures (P s) (resume_admitted self key now_ms wall_now_ms r a c s)
  unfolding resume_admitted read_memory read_cache
  resume_admitted-leaf now_ms r a c s = Ensures-read _ _ (P s) s.memory _ (
      Ensures-read _ _ (P s) s.llm_cache _
        (leaf.concluded key c.seq now_ms wall_now_ms resuming s _))

  resume_decided-leaf :
      (now_ms : ℤ) (intent_id : String) (r : Option ToolResult) (a : Option Approval)
      (d : Option Refusal) (o : Option Continuation) (s : KeyState)
      → Ensures (P s) (resume_decided self key now_ms wall_now_ms intent_id r a d o s)
  unfolding resume_decided
  resume_decided-leaf now_ms intent_id r a (some d) o s = leaf.refused key now_ms intent_id d o s
  resume_decided-leaf now_ms intent_id r a none none s =
      leaf.refused key now_ms intent_id Refusal.no_continuation none s
  resume_decided-leaf now_ms intent_id r a none (some c) s = resume_admitted-leaf now_ms r a c s

  resume-leaf :
      (now_ms : ℤ) (intent_id : String) (r : Option ToolResult) (a : Option Approval) (s : KeyState)
      → Ensures (P s) (resume self key now_ms wall_now_ms intent_id r a s)
  unfolding resume resume_with read_continuation
  resume-leaf now_ms intent_id r a s =
      Ensures-read _ _ (P s) s.continuation _
        (resume_decided-leaf now_ms intent_id r a _ s.continuation s)

  process_event-leaf :
      (e : AgentEnvelope) (o : Option BatchSettings) (s : KeyState)
      → Ensures (P s) (process_event self key wall_now_ms e o s)
  unfolding process_event
  process_event-leaf e none s = start-leaf e.event_time_ms (event_of e.payload) s
  process_event-leaf e (some settings) s = buffer-leaf settings e s

  dispatch-leaf :
      (e : AgentEnvelope) (p : Payload) (s : KeyState)
      → Ensures (P s) (dispatch self key wall_now_ms e p s)
  unfolding dispatch
  dispatch-leaf e (export_request id) s = leaf.exported key e.event_time_ms id s
  dispatch-leaf e (tool_result r) s = resume-leaf e.event_time_ms r.intent_id (some r) none s
  dispatch-leaf e (approval a) s = resume-leaf e.event_time_ms a.intent_id none (some a) s
  dispatch-leaf e (external_event b) s = process_event-leaf e self.batch s
  dispatch-leaf e empty s = process_event-leaf e self.batch s

  on_flush-leaf : (s : KeyState) → Ensures (P s) (on_flush self key wall_now_ms s)
  unfolding on_flush flush_if_due read_continuation
  on_flush-leaf s =
      Ensures-if (P s) (is_some self.batch) _ (ok (unchanged s))
        (λ on. Ensures-read _ _ (P s) s.continuation _ (
          Ensures-if (P s) (should_flush_on_timer (length s.batch) (is_some s.continuation)) _
            (ok (unchanged s)) (λ due. flush-leaf s.batch trigger_timer s) (λ early. leaf.idle s)))
        (λ off. leaf.idle s)

  on_ttl-leaf : (fired_at_ms : ℤ) (s : KeyState) → Ensures (P s) (on_ttl self key fired_at_ms s)
  unfolding on_ttl read_continuation
  on_ttl-leaf fired_at_ms s = Ensures-read _ _ (P s) s.continuation _ (
      Ensures-seq (P s) (demote_first self key fired_at_ms s)
        (ok (wiped_run self key fired_at_ms s.continuation s))
        (leaf.wiped key fired_at_ms s.continuation s))

  fire_hitl-leaf :
      (fired_at_ms : ℤ) (o : Option Continuation) (s : KeyState)
      → P s (fire_hitl self key fired_at_ms wall_now_ms o s)
  unfolding fire_hitl
  fire_hitl-leaf fired_at_ms none s = leaf.idle s
  fire_hitl-leaf fired_at_ms (some c) s =
      either_run (P s) (ltb_ℤ fired_at_ms c.deadline_ms) (unchanged s) _ (leaf.idle s) (
        leaf.routed key c fired_at_ms wall_now_ms (route_timeout self key c fired_at_ms).0
          (route_timeout self key c fired_at_ms).1 s)

  on_hitl-leaf :
      (fired_at_ms : ℤ) (s : KeyState) → Ensures (P s) (on_hitl self key fired_at_ms wall_now_ms s)
  unfolding on_hitl read_continuation
  on_hitl-leaf fired_at_ms s =
      Ensures-read _ _ (P s) s.continuation _ (fire_hitl-leaf fired_at_ms s.continuation s)

  pub callback-leaf :
      (cb : Callback) (s : KeyState) → Ensures (P s) (callback self key wall_now_ms cb s)
  unfolding callback process
  callback-leaf (Callback.element e) s = dispatch-leaf e e.payload s
  callback-leaf (Callback.ttl fired_at_ms) s = on_ttl-leaf fired_at_ms s
  callback-leaf (Callback.hitl fired_at_ms) s = on_hitl-leaf fired_at_ms s
  callback-leaf Callback.flush s = on_flush-leaf s
