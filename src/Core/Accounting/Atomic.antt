-- ===== src/Core/Accounting/Atomic.antt =====
-- What a callback leaves of the durable cells: a whole commit, nothing, or the wipe.
use beam_agents.Base.{
  ℕ, ◌+◌, ◌≡◌, refl, ℤ, String, Option, none, some, List, [], ◌∷◌, map, length, arith,
}
use beam_agents.Wire.{Bytes, Continuation, AgentEnvelope}
use beam_agents.Hitl.{Route}
use beam_agents.Core.Batching.{Trigger, BatchSettings}
use beam_agents.Core.State.{
  KeyState, Refusal, Detail, Output, incr, events_buffered, Run, ActivationResult,
  reason_ttl_wiped_batch, reason_ttl_wiped_suspension, reason_orphaned, reason_batch_overflow,
  reason_timeout, reason_error,
}
use beam_agents.Core.Engine.{
  AgentDoFn, Attempt, finished, timed_out, failed, crashed, CommitSite, flushing, commit,
  commit_state, settle_buffer, starting, resuming, rearm_flush, dead_letter_metric, failure_reason,
}
use beam_agents.Core.Elements.{
  conclude, conclude_flush, failed_flush, overflow, with_metric, append_event,
}
use beam_agents.Core.Process.{refuse_resume, export}
use beam_agents.Core.Timers.{wiped_metrics, wiped_run, wipe, lost_events}
use beam_agents.Core.HitlTimer.{apply_route, escalate, end_suspension}
use beam_agents.Core.Callbacks.{Callback, callback}
use beam_agents.Core.Invariant.{Ensures}
use beam_agents.Core.Leaves.{Leaves, callback-leaf}
use beam_agents.Core.Accounting.{
  metered, of_activations, metered-record_commit, uncounted-dead_letter,
}

-- `committed` : one activation is counted and one sequence number is spent.
-- `kept` : none is counted; the number and both blobs are the ones before.
-- `cleared` : none is counted and the key is as if never written, but for its timers.
pub data Effect (s : KeyState) (run : Run) : Type 0 where
  committed : metered of_activations run.metrics ≡ 1 → run.state.seq ≡ s.seq + 1 → Effect s run
  kept :
      metered of_activations run.metrics ≡ 0
      → run.state.seq ≡ s.seq
      → run.state.memory ≡ s.memory
      → run.state.llm_cache ≡ s.llm_cache
      → Effect s run
  cleared :
      metered of_activations run.metrics ≡ 0
      → run.state.seq ≡ 0
      → run.state.memory ≡ none
      → run.state.llm_cache ≡ none
      → run.state.continuation ≡ none
      → run.state.pending ≡ []
      → Effect s run

module _ (self : AgentDoFn) (s : KeyState) where
  commit_state-seq :
      (r : ActivationResult) (now wall : ℤ) (site : CommitSite)
      → (commit_state self r now wall site s).seq ≡ s.seq + 1
  unfolding commit_state settle_buffer rearm_flush
  commit_state-seq r now wall starting = refl
  commit_state-seq r now wall (flushing n t) = refl
  commit_state-seq r now wall resuming = ground arith

  conclude-Effect :
      (key : Bytes) (seq : ℕ) (now wall : ℤ) (site : CommitSite) (a : Attempt × ℕ)
      → Effect s (conclude self key seq now wall site s a)
  unfolding conclude commit
  conclude-Effect key seq now wall site (finished r, elapsed) =
      committed
        (omega (
          arith,
          metered-record_commit of_activations r elapsed site refl refl refl refl refl refl,
        ))
        (commit_state-seq r now wall site)
  conclude-Effect key seq now wall site (timed_out, elapsed) =
      kept (omega (arith, uncounted-dead_letter reason_timeout [])) refl refl refl
  conclude-Effect key seq now wall site (failed cause context, elapsed) =
      kept (omega (arith, uncounted-dead_letter (failure_reason cause) [])) refl refl refl
  conclude-Effect key seq now wall site (crashed cause, elapsed) =
      kept (omega (arith, uncounted-dead_letter reason_error [])) refl refl refl

  none_counted :
      (reason : String) (es : List AgentEnvelope)
      → metered of_activations (map (λ e. dead_letter_metric reason) es) ≡ 0
  none_counted reason [] = refl
  none_counted reason (e ∷ es) =
      rw (uncounted-dead_letter reason (map (λ e. dead_letter_metric reason) es))
        (none_counted reason es)

  failed_flush-Effect :
      (key : Bytes) (now : ℤ) (es : List AgentEnvelope) (reason : String) (d : Detail) (o : Output)
      (elapsed : ℕ)
      → Effect s (failed_flush key now es reason d o elapsed s)
  unfolding failed_flush
  failed_flush-Effect key now es reason d o elapsed = kept (none_counted reason es) refl refl refl

  conclude_flush-Effect :
      (key : Bytes) (now wall : ℤ) (es : List AgentEnvelope) (trigger : Trigger) (a : Attempt × ℕ)
      → Effect s (conclude_flush self key now wall es trigger s a)
  unfolding conclude_flush commit
  conclude_flush-Effect key now wall es trigger (finished r, elapsed) =
      committed
        (omega (
          arith,
          metered-record_commit of_activations r elapsed (flushing (length es) trigger) refl refl
              refl refl refl refl,
        ))
        (commit_state-seq r now wall (flushing (length es) trigger))
  conclude_flush-Effect key now wall es trigger (timed_out, elapsed) =
      failed_flush-Effect key now es _ _ _ elapsed
  conclude_flush-Effect key now wall es trigger (failed cause context, elapsed) =
      failed_flush-Effect key now es _ _ _ elapsed
  conclude_flush-Effect key now wall es trigger (crashed cause, elapsed) =
      failed_flush-Effect key now es _ _ _ elapsed

  refuse_resume-Effect :
      (key : Bytes) (t : ℤ) (id : String) (d : Refusal) (o : Option Continuation)
      → Effect s (refuse_resume key t id d o s)
  unfolding refuse_resume
  refuse_resume-Effect key t id d o =
      kept (omega (arith, uncounted-dead_letter reason_orphaned [])) refl refl refl

  export-Effect : (key : Bytes) (t : ℤ) (id : String) → Effect s (export key t id s)
  unfolding export
  export-Effect key t id = kept refl refl refl refl

  overflow-Effect :
      (key : Bytes) (settings : BatchSettings) (e : AgentEnvelope)
      → Effect s (overflow key settings e s)
  unfolding overflow
  overflow-Effect key settings e =
      kept (omega (arith, uncounted-dead_letter reason_batch_overflow [])) refl refl refl

  appended-Effect :
      (settings : BatchSettings) (wall : ℤ) (e : AgentEnvelope) (run : Run)
      → Effect (append_event self settings wall e s) run
      → Effect s (with_metric (incr events_buffered 1) run)
  unfolding append_event
  appended-Effect settings wall e run (committed n q) = committed (omega (arith, n)) q
  appended-Effect settings wall e run (kept n q m l) = kept (omega (arith, n)) q m l
  appended-Effect settings wall e run (cleared n q m l c p) = cleared (omega (arith, n)) q m l c p

  wiped_uncounted : (es : List AgentEnvelope) → metered of_activations (wiped_metrics es) ≡ 0
  wiped_uncounted [] = refl
  wiped_uncounted (e ∷ es) =
      rw (uncounted-dead_letter reason_ttl_wiped_batch (wiped_metrics es)) (wiped_uncounted es)

  wiped_run-Effect :
      (key : Bytes) (t : ℤ) (o : Option Continuation) → Effect s (wiped_run self key t o s)
  unfolding wiped_run wipe
  wiped_run-Effect key t none =
      cleared (wiped_uncounted (lost_events self s)) (ground arith) (ground arith) (ground arith)
        (ground arith) (ground arith)
  wiped_run-Effect key t (some c) =
      cleared
        (omega (
          arith,
          uncounted-dead_letter reason_ttl_wiped_suspension (wiped_metrics (lost_events self s)),
          wiped_uncounted (lost_events self s),
        ))
        (ground arith) (ground arith) (ground arith) (ground arith) (ground arith)

  apply_route-Effect :
      (key : Bytes) (c : Continuation) (t wall : ℤ) (route : Route) (d : Detail)
      → Effect s (apply_route self key c t wall route d s)
  unfolding apply_route escalate end_suspension rearm_flush
  apply_route-Effect key c t wall (Route.escalate tool args timeout) d = kept refl refl refl refl
  apply_route-Effect key c t wall (Route.deny output) d =
      kept refl (ground arith) (ground arith) (ground arith)
  apply_route-Effect key c t wall (Route.drop reason) d =
      kept (omega (arith, uncounted-dead_letter reason [])) (ground arith) (ground arith)
        (ground arith)

atomic : (self : AgentDoFn) → Leaves self Effect
atomic self = record {
  concluded =
      λ k seq now wall site s args. conclude-Effect self s k seq now wall site (self.activate args);
  flushed = λ k now wall es trigger s args.
      conclude_flush-Effect self s k now wall es trigger (self.activate args);
  refused = λ k t id d o s. refuse_resume-Effect self s k t id d o;
  exported = λ k t id s. export-Effect self s k t id;
  shed = λ k settings e s. overflow-Effect self s k settings e;
  appended = λ settings wall e s. appended-Effect self s settings wall e;
  idle = λ s. kept refl refl refl refl;
  wiped = λ k t o s. wiped_run-Effect self s k t o;
  routed = λ k c t wall route d s. apply_route-Effect self s k c t wall route d;
}

-- Every callback that returns either counts one activation and spends one sequence number, or
-- counts none and keeps the sequence number, the memory blob and the LLM cache blob, or counts none
-- and clears the sequence number, both blobs, the continuation and the pending bag.
pub callback-Effect :
    (self : AgentDoFn) (key : Bytes) (wall_now_ms : ℤ) (cb : Callback) (s : KeyState)
    → Ensures (Effect s) (callback self key wall_now_ms cb s)
callback-Effect self = callback-leaf self Effect (atomic self)
