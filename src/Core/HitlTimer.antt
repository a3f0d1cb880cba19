-- ===== src/Core/HitlTimer.antt =====
-- `on_hitl` of core/dofn.py, with `_route_timeout` and `_escalate`: what a timeout does.
pub mod Progress
use beam_agents.Base.{
  ◌+◌, ℤ, ◌+ℤ◌, leb, ltb_ℤ, String, true, Option, none, some, [], ◌∷◌, ◌++◌, if◌then◌else◌,
}
use beam_agents.Wire.{Bytes, ToolIntent, Kind, SignatureScheme, Continuation}
use beam_agents.Hitl.{Route, PolicyOutcome, routed, raised, FallbackContext}
use beam_agents.Hitl
use beam_agents.Core.Migration.{Result, ok, ◌>>=◌}
use beam_agents.Core.State.{
  KeyState, Detail, seq_of, policy_error, main, intents, traces, intent_emitted, intents_emitted,
  incr, Run, reason_hitl_timeout,
}
use beam_agents.Core.Engine.{
  AgentDoFn, read_continuation, dead_letter, dead_letter_metric, error_trace, rearm_flush,
}
use beam_agents.Core.IntentId.{intent_id_for}
use beam_agents.Core.Timers.{unchanged}

-- `_route_timeout` past the call of the policy
unfoldable pub bound_route : AgentDoFn → Continuation → PolicyOutcome → Route × Detail
bound_route self cont (raised exc) = (Route.drop reason_hitl_timeout, policy_error cont.seq exc)
bound_route self cont (routed (Route.escalate tool_name args_json timeout_ms)) =
    if leb self.hitl_policy.max_escalations cont.escalations
    then (Route.deny Hitl.hitl_timeout_output, seq_of cont.seq)
    else (Route.escalate tool_name args_json timeout_ms, seq_of cont.seq)
bound_route self cont (routed route) = (route, seq_of cont.seq)

unfoldable pub route_timeout : AgentDoFn → Bytes → Continuation → (fired_at_ms : ℤ) → Route × Detail
unfolding bound_route
route_timeout self key cont fired_at_ms = bound_route self cont (
    self.hitl_policy.on_timeout (record {
      entity_key = key;
      seq = cont.seq;
      snapshot = cont.snapshot;
      deadline_ms = cont.deadline_ms;
      fired_at_ms = fired_at_ms;
      pending_intent_ids = cont.pending_intent_ids;
    }))

-- the intent that `_escalate` mints from the continuation's next free step
unfoldable pub escalation_intent :
    AgentDoFn
    → Bytes
    → Continuation
    → (tool_name args_json : String) → (fired_at_ms : ℤ) → ℤ
    → ToolIntent
escalation_intent self key cont tool_name args_json fired_at_ms deadline_ms = record {
  intent_id = intent_id_for self.uuid5 key cont.seq cont.step_index;
  entity_key = key;
  seq = cont.seq;
  step_index = cont.step_index;
  tool_name = tool_name;
  args_json = args_json;
  created_at_ms = fired_at_ms;
  expires_at_ms = deadline_ms;
  attempt = 0;
  kind = Kind.approval;
  trace_id = self.trace_id_for key cont.seq;
  signature_scheme = SignatureScheme.scheme_unspecified;
  signing_key_id = "";
  signature = [];
}

unfoldable pub escalated : Continuation → ToolIntent → (deadline_ms : ℤ) → Continuation
escalated cont intent deadline_ms = record cont {
  step_index = cont.step_index + 1;
  deadline_ms = deadline_ms;
  escalations = cont.escalations + 1;
  pending_intent_ids = cont.pending_intent_ids ++ intent.intent_id ∷ [];
}

-- `_escalate`
unfoldable pub escalate :
    AgentDoFn
    → Bytes
    → Continuation
    → (fired_at_ms : ℤ) → (tool_name args_json : String) → (timeout_ms : ℤ) → KeyState
    → Run
unfolding escalation_intent escalated
escalate self key cont fired_at_ms tool_name args_json timeout_ms s =
    let deadline_ms = fired_at_ms +ℤ timeout_ms in
    let intent = escalation_intent self key cont tool_name args_json fired_at_ms deadline_ms in
    record {
      state = record s {
        continuation = some (escalated cont intent deadline_ms);
        pending = s.pending ++ intent ∷ [];
        hitl_timer = some deadline_ms;
        ttl_timer = some (deadline_ms +ℤ self.ttl_ms);
      };
      outputs =
          intents intent
          ∷ traces
              (intent_emitted cont.step_index intent.intent_id tool_name Kind.approval deadline_ms)
          ∷ [];
      metrics = incr intents_emitted 1 ∷ [];
    }

-- the end of a suspension by `Deny` or `Drop`
unfoldable pub end_suspension : AgentDoFn → (wall_now_ms : ℤ) → KeyState → KeyState
unfolding rearm_flush
end_suspension self wall_now_ms s =
    rearm_flush self wall_now_ms (record s { continuation = none; pending = []; hitl_timer = none })

-- the routes of `on_hitl` once the deadline has passed
unfoldable pub apply_route :
    AgentDoFn
    → Bytes
    → Continuation
    → (fired_at_ms wall_now_ms : ℤ) → Route
    → Detail
    → KeyState
    → Run
unfolding escalate end_suspension
apply_route self key cont fired_at_ms wall_now_ms (Route.escalate tool args timeout) detail s =
    escalate self key cont fired_at_ms tool args timeout s
apply_route self key cont fired_at_ms wall_now_ms (Route.deny output) detail s = record {
  state = end_suspension self wall_now_ms s;
  outputs =
      main output ∷ error_trace key cont.seq fired_at_ms reason_hitl_timeout none true none ∷ [];
  metrics = [];
}
apply_route self key cont fired_at_ms wall_now_ms (Route.drop reason) detail s = record {
  state = end_suspension self wall_now_ms s;
  outputs =
      dead_letter key reason detail fired_at_ms
      ∷ error_trace key cont.seq fired_at_ms reason_hitl_timeout none true none
      ∷ [];
  metrics = dead_letter_metric reason ∷ [];
}

-- `on_hitl` past the migrated read: a stale handle changes nothing
unfoldable pub fire_hitl :
    AgentDoFn → Bytes → (fired_at_ms wall_now_ms : ℤ) → Option Continuation → KeyState → Run
unfolding apply_route route_timeout
fire_hitl self key fired_at_ms wall_now_ms none s = unchanged s
fire_hitl self key fired_at_ms wall_now_ms (some cont) s =
    if ltb_ℤ fired_at_ms cont.deadline_ms
    then unchanged s
    else let (route, detail) = route_timeout self key cont fired_at_ms in
      apply_route self key cont fired_at_ms wall_now_ms route detail s

unfoldable pub on_hitl : AgentDoFn → Bytes → (fired_at_ms wall_now_ms : ℤ) → KeyState → Result Run
unfolding fire_hitl
on_hitl self key fired_at_ms wall_now_ms s = do
  cont ← read_continuation self s
  ok (fire_hitl self key fired_at_ms wall_now_ms cont s)
