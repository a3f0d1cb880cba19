-- ===== src/Core/Accounting/Callback.antt =====
-- The records that a callback yields against the counters that it adds to, exit by exit.
use beam_agents.Base.{
  ℕ, suc, ◌≡◌, refl, ℤ, String, Option, none, some, List, [], ◌∷◌, map, length, arith,
}
use beam_agents.Wire.{Bytes, Continuation, AgentEnvelope}
use beam_agents.Hitl.{Route}
use beam_agents.Core.Batching.{Trigger, BatchSettings}
use beam_agents.Core.State.{
  KeyState, Refusal, Detail, traces, TraceEvent, Run, reason_ttl_wiped_batch,
  reason_ttl_wiped_suspension, reason_orphaned, reason_batch_overflow, reason_timeout, reason_error,
}
use beam_agents.Core.Engine.{
  AgentDoFn, Attempt, finished, timed_out, failed, crashed, CommitSite, flushing, commit,
  dead_letter, dead_letter_metric, failure_reason,
}
use beam_agents.Core.Elements.{conclude, conclude_flush, failed_flush, overflow}
use beam_agents.Core.Process.{refuse_resume, export}
use beam_agents.Core.Timers.{wiped_events, wiped_metrics, wiped_run, lost_events}
use beam_agents.Core.HitlTimer.{apply_route, escalate}
use beam_agents.Core.Callbacks.{Callback, callback}
use beam_agents.Core.Invariant.{Ensures}
use beam_agents.Core.Leaves.{Leaves, callback-leaf}
use beam_agents.Core.Accounting.{
  errors_in, intents_in, metered, of_errors, of_intents, errors_in-append, intents_in-append,
  metered-record_commit, errors_metered-dead_letter, intents_metered-dead_letter, committed_errors,
  committed_intents, intents_in-none,
}

pub record IsAccounted (run : Run) : Type 0 where
  pub dead_letters : errors_in run.outputs ≡ metered of_errors run.metrics
  pub emitted : intents_in run.outputs ≡ metered of_intents run.metrics

module _ (self : AgentDoFn) (key : Bytes) where
  commit-IsAccounted :
      (r : _) (now_ms wall_now_ms : ℤ) (elapsed : ℕ) (site : CommitSite) (s : KeyState)
      → IsAccounted (commit self r now_ms wall_now_ms elapsed site s)
  unfolding commit
  commit-IsAccounted r now_ms wall_now_ms elapsed site s = record {
    dead_letters =
        rw
          (
            committed_errors r,
            metered-record_commit of_errors r elapsed site refl refl refl refl refl refl,
          )
          (omega arith);
    emitted =
        rw
          (
            committed_intents r,
            metered-record_commit of_intents r elapsed site refl refl refl refl refl refl,
          )
          (omega arith);
  }

  conclude-IsAccounted :
      (seq : ℕ) (now_ms wall_now_ms : ℤ) (site : CommitSite) (s : KeyState) (a : Attempt × ℕ)
      → IsAccounted (conclude self key seq now_ms wall_now_ms site s a)
  unfolding conclude
  conclude-IsAccounted seq now_ms wall_now_ms site s (finished r, elapsed) =
      let h = commit-IsAccounted r now_ms wall_now_ms elapsed site s in
      record { dead_letters = h.dead_letters; emitted = h.emitted }
  conclude-IsAccounted seq now_ms wall_now_ms site s (timed_out, elapsed) = record {
    dead_letters = omega (arith, errors_metered-dead_letter reason_timeout []);
    emitted = omega (arith, intents_metered-dead_letter reason_timeout []);
  }
  conclude-IsAccounted seq now_ms wall_now_ms site s (failed cause context, elapsed) = record {
    dead_letters = omega (arith, errors_metered-dead_letter (failure_reason cause) []);
    emitted = omega (arith, intents_metered-dead_letter (failure_reason cause) []);
  }
  conclude-IsAccounted seq now_ms wall_now_ms site s (crashed cause, elapsed) = record {
    dead_letters = omega (arith, errors_metered-dead_letter reason_error []);
    emitted = omega (arith, intents_metered-dead_letter reason_error []);
  }

  -- a dead letter for each envelope of a list, counted once each
  each_errors :
      (reason : String) (d : Detail) (t : ℤ) (es : List AgentEnvelope)
      → errors_in (map (λ e. dead_letter key reason d t) es)
        ≡ metered of_errors (map (λ e. dead_letter_metric reason) es)
  each_errors reason d t [] = refl
  each_errors reason d t (e ∷ es) = omega (
    arith,
    errors_metered-dead_letter reason (map (λ e. dead_letter_metric reason) es),
    each_errors reason d t es,
  )

  each_intents :
      (reason : String) (es : List AgentEnvelope)
      → metered of_intents (map (λ e. dead_letter_metric reason) es) ≡ 0
  each_intents reason [] = refl
  each_intents reason (e ∷ es) =
      rw (intents_metered-dead_letter reason (map (λ e. dead_letter_metric reason) es))
        (each_intents reason es)

  failed_flush-IsAccounted :
      (now_ms : ℤ) (es : List AgentEnvelope) (reason : String) (d : Detail) (t : TraceEvent)
      (elapsed : ℕ) (s : KeyState)
      → IsAccounted (failed_flush key now_ms es reason d (traces t) elapsed s)
  unfolding failed_flush
  failed_flush-IsAccounted now_ms es reason d t elapsed s = record {
    dead_letters = simp (errors_in-append, each_errors reason d now_ms es) (omega arith);
    emitted = simp (
      intents_in-append,
      each_intents,
      intents_in-none (λ (e : AgentEnvelope). dead_letter key reason d now_ms) (λ a os. refl),
    );
  }

  conclude_flush-IsAccounted :
      (now_ms wall_now_ms : ℤ) (es : List AgentEnvelope) (trigger : Trigger) (s : KeyState)
      (a : Attempt × ℕ)
      → IsAccounted (conclude_flush self key now_ms wall_now_ms es trigger s a)
  unfolding conclude_flush
  conclude_flush-IsAccounted now_ms wall_now_ms es trigger s (finished r, elapsed) =
      let h = commit-IsAccounted r now_ms wall_now_ms elapsed (flushing (length es) trigger) s in
      record { dead_letters = h.dead_letters; emitted = h.emitted }
  conclude_flush-IsAccounted now_ms wall_now_ms es trigger s (timed_out, elapsed) =
      failed_flush-IsAccounted now_ms es _ _ _ elapsed s
  conclude_flush-IsAccounted now_ms wall_now_ms es trigger s (failed cause context, elapsed) =
      failed_flush-IsAccounted now_ms es _ _ _ elapsed s
  conclude_flush-IsAccounted now_ms wall_now_ms es trigger s (crashed cause, elapsed) =
      failed_flush-IsAccounted now_ms es _ _ _ elapsed s

  wiped_errors :
      (t : ℤ) (n i : ℕ) (es : List AgentEnvelope)
      → errors_in (wiped_events key t n i es) ≡ metered of_errors (wiped_metrics es)
  unfolding wiped_events
  wiped_errors t n i [] = refl
  wiped_errors t n i (e ∷ es) = omega (
    arith,
    errors_metered-dead_letter reason_ttl_wiped_batch (wiped_metrics es),
    wiped_errors t n (suc i) es,
  )

  wiped_intents :
      (t : ℤ) (n i : ℕ) (es : List AgentEnvelope)
      → intents_in (wiped_events key t n i es) ≡ metered of_intents (wiped_metrics es)
  unfolding wiped_events
  wiped_intents t n i [] = refl
  wiped_intents t n i (e ∷ es) = omega (
    arith,
    intents_metered-dead_letter reason_ttl_wiped_batch (wiped_metrics es),
    wiped_intents t n (suc i) es,
  )

  wiped_run-IsAccounted :
      (t : ℤ) (o : Option Continuation) (s : KeyState) → IsAccounted (wiped_run self key t o s)
  unfolding wiped_run
  wiped_run-IsAccounted t none s = record {
    dead_letters = wiped_errors t _ 0 _;
    emitted = wiped_intents t _ 0 _;
  }
  wiped_run-IsAccounted t (some c) s = record {
    dead_letters = omega (
      arith,
      errors_metered-dead_letter reason_ttl_wiped_suspension (wiped_metrics (lost_events self s)),
      wiped_errors t (length (lost_events self s)) 0 (lost_events self s),
    );
    emitted = omega (
      arith,
      intents_metered-dead_letter reason_ttl_wiped_suspension (wiped_metrics (lost_events self s)),
      wiped_intents t (length (lost_events self s)) 0 (lost_events self s),
    );
  }

  apply_route-IsAccounted :
      (c : Continuation) (t wall : ℤ) (route : Route) (d : Detail) (s : KeyState)
      → IsAccounted (apply_route self key c t wall route d s)
  unfolding apply_route escalate
  apply_route-IsAccounted c t wall (Route.escalate tool args timeout) d s = record {
    dead_letters = refl;
    emitted = refl;
  }
  apply_route-IsAccounted c t wall (Route.deny output) d s = record {
    dead_letters = refl;
    emitted = refl;
  }
  apply_route-IsAccounted c t wall (Route.drop reason) d s = record {
    dead_letters = omega (arith, errors_metered-dead_letter reason []);
    emitted = omega (arith, intents_metered-dead_letter reason []);
  }

  refuse_resume-IsAccounted :
      (t : ℤ) (id : String) (d : Refusal) (o : Option Continuation) (s : KeyState)
      → IsAccounted (refuse_resume key t id d o s)
  unfolding refuse_resume
  refuse_resume-IsAccounted t id d o s = record {
    dead_letters = omega (arith, errors_metered-dead_letter reason_orphaned []);
    emitted = omega (arith, intents_metered-dead_letter reason_orphaned []);
  }

  export-IsAccounted : (t : ℤ) (id : String) (s : KeyState) → IsAccounted (export key t id s)
  unfolding export
  export-IsAccounted t id s = record { dead_letters = refl; emitted = refl }

  overflow-IsAccounted :
      (settings : BatchSettings) (e : AgentEnvelope) (s : KeyState)
      → IsAccounted (overflow key settings e s)
  unfolding overflow
  overflow-IsAccounted settings e s = record {
    dead_letters = omega (arith, errors_metered-dead_letter reason_batch_overflow []);
    emitted = omega (arith, intents_metered-dead_letter reason_batch_overflow []);
  }

accounted : (self : AgentDoFn) → Leaves self (λ s run. IsAccounted run)
accounted self = record {
  concluded = λ k seq now wall site s args.
      conclude-IsAccounted self k seq now wall site s (self.activate args);
  flushed = λ k now wall es trigger s args.
      conclude_flush-IsAccounted self k now wall es trigger s (self.activate args);
  refused = λ k. refuse_resume-IsAccounted self k;
  exported = λ k. export-IsAccounted self k;
  shed = λ k. overflow-IsAccounted self k;
  appended = λ settings wall e s run h. record {
    dead_letters = omega (arith, h.dead_letters);
    emitted = omega (arith, h.emitted);
  };
  idle = λ s. record { dead_letters = refl; emitted = refl };
  wiped = λ k. wiped_run-IsAccounted self k;
  routed = λ k. apply_route-IsAccounted self k;
}

-- Every callback that returns yields as many dead letters as it adds to `agent_errors` and
-- `orphaned_results` together, and as many intents as it adds to `intents_emitted`.
pub callback-IsAccounted :
    (self : AgentDoFn) (key : Bytes) (wall_now_ms : ℤ) (cb : Callback) (s : KeyState)
    → Ensures IsAccounted (callback self key wall_now_ms cb s)
callback-IsAccounted self key wall_now_ms cb s =
    callback-leaf self (λ s run. IsAccounted run) (accounted self) key wall_now_ms cb s
