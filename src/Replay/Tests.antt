-- ===== src/Replay/Tests.antt =====
-- The comparison of a replay at concrete inputs.
use beam_agents.Base.{
  ◌≡◌, refl, ◌↔◌, true, pos, negsuc, List, [], ◌∷◌, String, str_eq, if◌then◌else◌,
}
use beam_agents.Base.Dict.{lookup, store}
use beam_agents.Wire.{Bytes, approval, ToolIntent, scheme_unspecified}
use beam_agents.Replay.{
  EventType, activation_start, llm_call, intent_emitted, activation_end, WireEvent, ReplayOutcome,
  first_divergence, intent_differs, status_differs, attribute, compare, reproduced, int_text,
  status_differences, event_differences, intent_differences, identity_differences, traced_status,
  traced_intents, replayed_intent,
}
use beam_agents.Replay.Exact.{IsReproduced, compare-exact}

unfoldable program : Unit {0}
unfolding compare reproduced status_differences event_differences intent_differences
    identity_differences traced_status lookup store traced_intents replayed_intent
program = tt

abbrev event : EventType → List (String × String) → WireEvent
event kind attributes = record {
  trace_id = 7 ∷ [];
  span_id = 8 ∷ [];
  parent_span_id = [];
  entity_key = 1 ∷ [];
  seq = 3;
  step_index = 2;
  event_type = kind;
  attributes = attributes;
  start_ms = pos 10;
  end_ms = pos 10;
}

-- a serialization that tells the cache attribute and the model apart
abbrev bytes : WireEvent → Bytes
bytes e =
    e.step_index
    ∷ (if str_eq (attribute "beam_agents.cache_hit" e) "true" then 1 else 0)
    ∷ (if str_eq (attribute "gen_ai.request.model" e) "small" then 1 else 0)
    ∷ []

abbrev asked : String → String → String → WireEvent
asked hit billed model = event llm_call (
    ("beam_agents.cache_hit", hit)
    ∷ ("beam_agents.billed", billed)
    ∷ ("gen_ai.request.model", model)
    ∷ [])

abbrev emitted : WireEvent
emitted = event intent_emitted (
    ("beam_agents.intent_id", "i1")
    ∷ ("beam_agents.tool_name", "approve")
    ∷ ("beam_agents.intent_kind", "APPROVAL")
    ∷ ("beam_agents.expires_at_ms", "1207")
    ∷ [])

abbrev ended : WireEvent
ended = event activation_end (("beam_agents.activation.status", "suspended") ∷ [])

abbrev record_of : String → String → String → List WireEvent
record_of hit billed model =
    event activation_start [] ∷ asked hit billed model ∷ emitted ∷ ended ∷ []

abbrev intent : ToolIntent
intent = record {
  intent_id = "i1";
  entity_key = 1 ∷ [];
  seq = 3;
  step_index = 2;
  tool_name = "approve";
  args_json = "{}";
  created_at_ms = pos 10;
  expires_at_ms = pos 1207;
  attempt = 0;
  kind = approval;
  trace_id = 7 ∷ [];
  signature_scheme = scheme_unspecified;
  signing_key_id = "";
  signature = [];
}

abbrev outcome : ReplayOutcome
outcome = record {
  status = "suspended";
  traces = record_of "true" "false" "small";
  intents = intent ∷ [];
}

-- the replay serves the call from the cache, which is no difference
from_cache : compare bytes (record_of "false" "true" "small") outcome ≡ []
unfolding program
from_cache = refl

other_model :
    compare bytes (record_of "false" "true" "large") outcome ≡ first_divergence 1 llm_call ∷ []
unfolding program
other_model = refl

late_intent :
    compare bytes (record_of "false" "true" "small") (record outcome {
      status = "completed";
      intents = record intent { expires_at_ms = pos 1208 } ∷ [];
    })
    ≡ status_differs "suspended" "completed" ∷ intent_differs 0 ("expires_at_ms" ∷ []) ∷ []
unfolding program
late_intent = refl

negative : int_text (negsuc 41) ≡ "-42"
negative = refl

compare-exact_example :
    (reproduced (compare bytes (record_of "false" "true" "small") outcome) ≡ true)
    ↔ IsReproduced bytes (record_of "false" "true" "small") outcome
compare-exact_example = compare-exact bytes (record_of "false" "true" "small") outcome
