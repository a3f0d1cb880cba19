-- ===== src/Core/Invariant/Reach.antt =====
-- The invariant along every sequence of callbacks, and what it gives for a suspension.
use beam_agents.Base.{◌≡◌, refl, inl, none, arith}
use beam_agents.Wire.{Bytes}
use beam_agents.Core.Migration.{Result, ok, raise}
use beam_agents.Core.State.{KeyState, fresh, Run}
use beam_agents.Core.Engine.{AgentDoFn}
use beam_agents.Core.Callbacks.{
  callback, Step, on_element, ttl_due, hitl_due, late_hitl, flush_due, Reach, here, next,
}
use beam_agents.Core.Invariant.{RunsSoundly, Fits, IsConsistent, Ensures}
use beam_agents.Core.Invariant.Elements.{Keeps, process-IsConsistent}
use beam_agents.Core.Invariant.Timers.{
  on_flush-IsConsistent, on_ttl-IsConsistent, on_hitl-IsConsistent, due_on_hitl-IsConsistent,
}

-- what a rule says of the run that the callback returned
pub returned : (P : Run → Type 0) (r : Result Run) {run : Run} → Ensures P r → r ≡ ok run → P run
returned P (ok run) h e = ground (arith)
returned P (raise x) h e = cc

fresh-Fits : (self : AgentDoFn) → Fits self.batch 0
fresh-Fits self = ground arith

fresh-IsConsistent : (self : AgentDoFn) → IsConsistent self fresh
fresh-IsConsistent self = record {
  armed = λ c e. cc;
  pended = λ c e. cc;
  spent = λ c e. cc;
  awaited = inl refl;
  fits = fresh-Fits self;
}

unticked :
    (self : AgentDoFn) (s : KeyState)
    → IsConsistent self s
    → IsConsistent self (record s { ttl_timer = none })
unticked self s h = record {
  armed = h.armed;
  pended = h.pended;
  spent = h.spent;
  awaited = h.awaited;
  fits = h.fits;
}

module _ (self : AgentDoFn) (sound : RunsSoundly self) (key : Bytes) where
  Step-IsConsistent :
      {s t : KeyState} → Step self key s t → IsConsistent self s → IsConsistent self t
  unfolding callback
  Step-IsConsistent {s} (on_element wall e run returns at) h = rw at (
      returned (Keeps self sound key wall) _ (process-IsConsistent self sound key wall e s h)
        returns)
  Step-IsConsistent {s} (ttl_due wall fired run set returns at) h = rw at (
      returned (Keeps self sound key wall) _
        (on_ttl-IsConsistent self sound key wall fired (record s { ttl_timer = none })
          (unticked self s h))
        returns)
  Step-IsConsistent {s} (hitl_due wall fired run set returns at) h = rw at (
      returned (Keeps self sound key wall) _
        (due_on_hitl-IsConsistent self sound key wall fired s set h) returns)
  Step-IsConsistent {s} (late_hitl wall fired run returns at) h = rw at (
      returned (Keeps self sound key wall) _ (on_hitl-IsConsistent self sound key wall fired s h)
        returns)
  Step-IsConsistent {s} (flush_due wall fired run set returns at) h = rw at (
      returned (Keeps self sound key wall) _ (on_flush-IsConsistent self sound key wall s h)
        returns)

  -- Along every sequence of elements, due timers and late HITL deliveries from a key that was never
  -- written, when the agent's suspended results carry their own number, pend their own intents and
  -- set the timer to their deadline (`RunsSoundly`): a live suspension has its HITL timer at its
  -- deadline, its pending bag holds exactly the intents its continuation pends, its number is
  -- spent, a buffered event is waited for by a suspension or a set flush timer, and the buffer
  -- keeps within its cap.
  pub Reach-IsConsistent : {s : KeyState} → Reach self key s → IsConsistent self s
  Reach-IsConsistent here = fresh-IsConsistent self
  Reach-IsConsistent (next r st) = Step-IsConsistent st (Reach-IsConsistent r)
