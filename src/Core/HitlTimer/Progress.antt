-- ===== src/Core/HitlTimer/Progress.antt =====
-- What a firing of HITL_TIMER does to the wait: `on_hitl`, `_route_timeout` and `_escalate` of
-- core/dofn.py.
use beam_agents.Base.{◌+◌, ◌≤◌, ◌<◌, ◌≡◌, refl, ℤ, ◌≤ℤ◌, ltb_ℤ, false, ◌+ℤ◌, none, some, [], arith}
use beam_agents.Wire.{Bytes, Continuation}
use beam_agents.Hitl.{Route, PolicyOutcome, routed, raised}
use beam_agents.Core.State.{KeyState, Detail}
use beam_agents.Core.Engine.{AgentDoFn, rearm_flush}
use beam_agents.Core.HitlTimer.{
  bound_route, route_timeout, escalate, escalated, end_suspension, apply_route, fire_hitl,
}

-- `ended` : the suspension is gone. `extended` : one more escalation within the bound, waited for
-- by the timer at the new deadline.
pub data Outcome (self : AgentDoFn) (c : Continuation) (s : KeyState) : Type 0 where
  ended : s.continuation ≡ none → s.pending ≡ [] → s.hitl_timer ≡ none → Outcome self c s
  extended :
      (d : Continuation)
      → s.continuation ≡ some d
      → d.escalations ≡ c.escalations + 1
      → d.escalations ≤ self.hitl_policy.max_escalations
      → s.hitl_timer ≡ some d.deadline_ms
      → s.ttl_timer ≡ some (d.deadline_ms +ℤ self.ttl_ms)
      → Outcome self c s

abbrev WithinBound : AgentDoFn → Continuation → Route → Type 0
WithinBound self c (Route.escalate tool args timeout) =
    c.escalations < self.hitl_policy.max_escalations
WithinBound self c (Route.deny output) = Unit
WithinBound self c (Route.drop reason) = Unit

module _ (self : AgentDoFn) (key : Bytes) (c : Continuation) where
  bound_route-WithinBound : (o : PolicyOutcome) → WithinBound self c (bound_route self c o).0
  unfolding bound_route
  bound_route-WithinBound (raised exc) = tt
  bound_route-WithinBound (routed (Route.deny output)) = tt
  bound_route-WithinBound (routed (Route.drop reason)) = tt
  bound_route-WithinBound (routed (Route.escalate tool args timeout)) = ground arith

  apply_route-Outcome :
      (t wall : ℤ) (route : Route) (d : Detail) (s : KeyState)
      → WithinBound self c route
      → Outcome self c (apply_route self key c t wall route d s).state
  unfolding apply_route escalate escalated end_suspension rearm_flush
  apply_route-Outcome t wall (Route.escalate tool args timeout) d s h =
      extended _ refl refl (omega arith) refl refl
  apply_route-Outcome t wall (Route.deny output) d s h =
      ended (ground arith) (ground arith) (ground arith)
  apply_route-Outcome t wall (Route.drop reason) d s h =
      ended (ground arith) (ground arith) (ground arith)

-- When the timer fires at or past the deadline of the live suspension, the suspension ends, or it
-- is extended by one escalation within the policy's bound: then the timer is set to the new
-- deadline and the working-memory mark lies `ttl_ms` past it.
pub fire_hitl-Outcome :
    (self : AgentDoFn) (key : Bytes) (c : Continuation) (fired_at_ms wall_now_ms : ℤ) (s : KeyState)
    → c.deadline_ms ≤ℤ fired_at_ms
    → Outcome self c (fire_hitl self key fired_at_ms wall_now_ms (some c) s).state
unfolding fire_hitl route_timeout
fire_hitl-Outcome self key c fired_at_ms wall_now_ms s due =
    let early : ltb_ℤ fired_at_ms c.deadline_ms ≡ false = ground arith in
    rw early (
      apply_route-Outcome self key c fired_at_ms wall_now_ms
        (route_timeout self key c fired_at_ms).0 (route_timeout self key c fired_at_ms).1 s
        (bound_route-WithinBound self key c _))
