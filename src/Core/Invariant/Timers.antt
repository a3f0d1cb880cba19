-- ===== src/Core/Invariant/Timers.antt =====
-- Every timer callback keeps the invariant, and leaves no suspension or buffer behind that
-- nothing waits for.
use beam_agents.Base.{
  ◌≡◌, refl, ℤ, inl, inr, Option, none, some, [], ◌∷◌, arith, length, false, String, is_some, ltb_ℤ,
  ◌+ℤ◌,
}
use mathlib.Core.List.{map-append}
use beam_agents.Wire.{Bytes, ToolIntent, Continuation}
use beam_agents.Core.Migration.{ok}
use beam_agents.Core.Batching.{trigger_timer, should_flush_on_timer}
use beam_agents.Core.State.{KeyState, Detail}
use beam_agents.Core.Engine.{AgentDoFn, read_continuation}
use beam_agents.Core.Timers.{unchanged, demote_first, wiped_run, flush_if_due, on_flush, on_ttl}
use beam_agents.Core.HitlTimer.{
  end_suspension, escalate, escalation_intent, apply_route, route_timeout, fire_hitl, on_hitl,
}
use beam_agents.Hitl.{Route}
use beam_agents.Core.Invariant.{RunsSoundly, IsConsistent, Ensures}
use beam_agents.Core.Invariant.Commit.{Ensures-read, Ensures-if, either_run, Ensures-seq}
use beam_agents.Core.Invariant.Elements.{Keeps, flush-IsConsistent}

module _ (self : AgentDoFn) (sound : RunsSoundly self) (key : Bytes) (wall_now_ms : ℤ) where
  -- The flush timer is gone when it fires, and the buffer is still waited for.
  unmarked :
      (s : KeyState)
      → should_flush_on_timer (length s.batch) (is_some s.continuation) ≡ false
      → IsConsistent self s
      → IsConsistent self (record s { flush_timer = none })
  unfolding should_flush_on_timer
  unmarked s early h = record {
    armed = h.armed;
    pended = h.pended;
    spent = h.spent;
    awaited = ground (arith, h.awaited);
    fits = h.fits;
  }

  unbatched : (s : KeyState) → is_some self.batch ≡ false → IsConsistent self s → length s.batch ≡ 0
  unbatched s off h = ground (arith, h.fits)

  pub on_flush-IsConsistent :
      (s : KeyState)
      → IsConsistent self s
      → Ensures
          (Keeps self sound key wall_now_ms)
          (on_flush self key wall_now_ms (record s { flush_timer = none }))
  unfolding on_flush flush_if_due read_continuation
  on_flush-IsConsistent s h =
      Ensures-if (Keeps self sound key wall_now_ms) (is_some self.batch) _
        (ok (unchanged (record s { flush_timer = none })))
        (λ on. Ensures-read _ _ (Keeps self sound key wall_now_ms) s.continuation _ (
          Ensures-if (Keeps self sound key wall_now_ms)
            (should_flush_on_timer (length s.batch) (is_some s.continuation)) _
            (ok (unchanged (record s { flush_timer = none })))
            (λ due. flush-IsConsistent self sound key wall_now_ms none s.batch trigger_timer s h)
            (λ early. unmarked s early h)))
        (λ off. unmarked s (unfold should_flush_on_timer in ground (arith, unbatched s off h)) h)

  pub on_ttl-IsConsistent :
      (fired_at_ms : ℤ) (s : KeyState)
      → IsConsistent self s
      → Ensures (Keeps self sound key wall_now_ms) (on_ttl self key fired_at_ms s)
  unfolding on_ttl read_continuation
  on_ttl-IsConsistent fired_at_ms s h =
      Ensures-read _ _ (Keeps self sound key wall_now_ms) s.continuation _ (
        Ensures-seq (Keeps self sound key wall_now_ms) (demote_first self key fired_at_ms s)
          (ok (wiped_run self key fired_at_ms s.continuation s))
          (record {
            armed = λ c e. ground arith;
            pended = λ c e. ground arith;
            spent = λ c e. ground arith;
            awaited = ground (arith, h.fits);
            fits = ground (arith, h.fits);
          }))

  end_suspension-IsConsistent :
      (s : KeyState) → IsConsistent self s → IsConsistent self (end_suspension self wall_now_ms s)
  unfolding end_suspension
  end_suspension-IsConsistent s h = record {
    armed = λ c e. ground arith;
    pended = λ c e. ground arith;
    spent = λ c e. ground arith;
    awaited = ground (arith, h.fits);
    fits = ground (arith, h.fits);
  }

  escalate-IsConsistent :
      (c : Continuation) (fired_at_ms : ℤ) (tool args : String) (timeout : ℤ) (s : KeyState)
      → s.continuation ≡ some c
      → IsConsistent self s
      → IsConsistent self (escalate self key c fired_at_ms tool args timeout s).state
  unfolding escalate
  escalate-IsConsistent c fired_at_ms tool args timeout s live h = record {
    armed = λ c' e. ground arith;
    pended = λ c' e. ground (
      arith,
      h.pended c live,
      map-append (λ (i : ToolIntent). i.intent_id) s.pending
          (escalation_intent self key c tool args fired_at_ms (fired_at_ms +ℤ timeout) ∷ []),
    );
    spent = λ c' e. ground (arith, h.spent c live);
    awaited = inr (inl refl);
    fits = h.fits;
  }

  apply_route-IsConsistent :
      (c : Continuation) (fired_at_ms : ℤ) (route : Route) (detail : Detail) (s : KeyState)
      → s.continuation ≡ some c
      → IsConsistent self s
      → IsConsistent self (apply_route self key c fired_at_ms wall_now_ms route detail s).state
  unfolding apply_route
  apply_route-IsConsistent c fired_at_ms (Route.deny output) detail s live h =
      end_suspension-IsConsistent s h
  apply_route-IsConsistent c fired_at_ms (Route.drop reason) detail s live h =
      end_suspension-IsConsistent s h
  apply_route-IsConsistent c fired_at_ms (Route.escalate tool args timeout) detail s live h =
      escalate-IsConsistent c fired_at_ms tool args timeout s live h

  -- The HITL timer is gone when it fires. Where it was the suspension's own, the handle is not
  -- stale; where nothing is suspended, nothing happens.
  due_route-IsConsistent :
      (c : Continuation) (fired_at_ms : ℤ) (route : Route) (detail : Detail) (s : KeyState)
      → s.continuation ≡ some c
      → IsConsistent self s
      → IsConsistent self
          (apply_route self key c fired_at_ms wall_now_ms route detail
            (record s { hitl_timer = none })).state
  unfolding apply_route
  due_route-IsConsistent c fired_at_ms (Route.deny output) detail s live h =
      end_suspension-IsConsistent s h
  due_route-IsConsistent c fired_at_ms (Route.drop reason) detail s live h =
      end_suspension-IsConsistent s h
  due_route-IsConsistent c fired_at_ms (Route.escalate tool args timeout) detail s live h =
      escalate-IsConsistent c fired_at_ms tool args timeout s live h

  due_hitl-IsConsistent :
      (fired_at_ms : ℤ) (o : Option Continuation) (s : KeyState)
      → s.continuation ≡ o
      → s.hitl_timer ≡ some fired_at_ms
      → IsConsistent self s
      → IsConsistent self
          (fire_hitl self key fired_at_ms wall_now_ms o (record s { hitl_timer = none })).state
  unfolding fire_hitl
  due_hitl-IsConsistent fired_at_ms none s live set h = record {
    armed = λ c e. cc;
    pended = h.pended;
    spent = h.spent;
    awaited = h.awaited;
    fits = h.fits;
  }
  due_hitl-IsConsistent fired_at_ms (some c) s live set h =
      let mine : fired_at_ms ≡ c.deadline_ms = cc (h.armed c live) in
      let due : ltb_ℤ fired_at_ms c.deadline_ms ≡ false = ground arith in
      rw due (
        due_route-IsConsistent c fired_at_ms (route_timeout self key c fired_at_ms).0
          (route_timeout self key c fired_at_ms).1 s live h)

  pub due_on_hitl-IsConsistent :
      (fired_at_ms : ℤ) (s : KeyState)
      → s.hitl_timer ≡ some fired_at_ms
      → IsConsistent self s
      → Ensures
          (Keeps self sound key wall_now_ms)
          (on_hitl self key fired_at_ms wall_now_ms (record s { hitl_timer = none }))
  unfolding on_hitl read_continuation
  due_on_hitl-IsConsistent fired_at_ms s set h =
      Ensures-read _ _ (Keeps self sound key wall_now_ms) s.continuation _
        (due_hitl-IsConsistent fired_at_ms s.continuation s refl set h)

  fire_hitl-IsConsistent :
      (fired_at_ms : ℤ) (o : Option Continuation) (s : KeyState)
      → s.continuation ≡ o
      → IsConsistent self s
      → IsConsistent self (fire_hitl self key fired_at_ms wall_now_ms o s).state
  unfolding fire_hitl
  fire_hitl-IsConsistent fired_at_ms none s live h = h
  fire_hitl-IsConsistent fired_at_ms (some c) s live h =
      either_run (Keeps self sound key wall_now_ms) (ltb_ℤ fired_at_ms c.deadline_ms) (unchanged s)
        _ h
        (apply_route-IsConsistent c fired_at_ms (route_timeout self key c fired_at_ms).0
          (route_timeout self key c fired_at_ms).1 s live h)

  pub on_hitl-IsConsistent :
      (fired_at_ms : ℤ) (s : KeyState)
      → IsConsistent self s
      → Ensures (Keeps self sound key wall_now_ms) (on_hitl self key fired_at_ms wall_now_ms s)
  unfolding on_hitl read_continuation
  on_hitl-IsConsistent fired_at_ms s h =
      Ensures-read _ _ (Keeps self sound key wall_now_ms) s.continuation _
        (fire_hitl-IsConsistent fired_at_ms s.continuation s refl h)
