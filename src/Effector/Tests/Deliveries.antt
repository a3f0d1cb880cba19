-- ===== src/Effector/Tests/Deliveries.antt =====
-- One signed intent through src/beam_agents/effector/service.py, with a tool that answers.
use beam_agents.Base.{
  ◌≡◌, refl, pos, String, true, false, Option, some, [], ◌∷◌, ◌==◌, if◌then◌else◌,
}
use beam_agents.Wire.{Bytes, ToolIntent, Kind, SignatureScheme, hmac_sha256}
use beam_agents.IntentSigning
use beam_agents.IntentSigning.{
  VerificationResult, sign_intent, signing_input, verify_intent, checked, compare_under,
  verify_sound, verify-sign, cleared,
}
use beam_agents.Effector.Dedup.{claimed, in_flight}
use beam_agents.Effector.Runner.{object, valid, value, Registry, execute_intent}
use beam_agents.Effector.Runner.Statuses.{Reports, execute_intent-Reports}
use beam_agents.Effector.Service.{
  require, arrived, transport_error, Config, Answers, process, execute,
}
use beam_agents.Effector.Service.Order.{closings, closed_by, process-closes}
use beam_agents.Effector.Service.Clearance.{OnlyIf, IsCleared, process-invokes}
use beam_agents.Effector.Service.Durable.{durable, execute-durable}

abbrev bare : ToolIntent
bare = record {
  intent_id = "i";
  entity_key = 117 ∷ [];
  seq = 0;
  step_index = 0;
  tool_name = "refund";
  args_json = "{}";
  created_at_ms = pos 10;
  expires_at_ms = pos 1000;
  attempt = 0;
  kind = Kind.tool;
  trace_id = [];
  signature_scheme = SignatureScheme.scheme_unspecified;
  signing_key_id = "";
  signature = [];
}

abbrev hmac : Bytes → Bytes → Bytes
hmac key message = 9 ∷ key

abbrev serialize : ToolIntent → Bytes
serialize i = i.entity_key

abbrev keyring : String → Option Bytes
keyring key_id = some (7 ∷ [])

held : keyring "k" ≡ some (7 ∷ [])
held = refl

verify-sign_example :
    verify_intent hmac serialize keyring (sign_intent hmac serialize "k" (7 ∷ []) bare)
    ≡ IntentSigning.VerificationResult.ok
verify-sign_example = verify-sign hmac serialize keyring "k" (7 ∷ []) bare held refl

abbrev signed : ToolIntent
signed = record bare {
  signature_scheme = hmac_sha256;
  signing_key_id = "k";
  signature = 9 ∷ 7 ∷ [];
}

verifies : verify_intent hmac serialize keyring signed ≡ IntentSigning.VerificationResult.ok
unfolding verify_intent checked compare_under signing_input
verifies = refl

abbrev tools : Registry
tools = record {
  get = λ n. some (record { name = n; side_effect = true; accepts_intent = false });
  parse = λ a. object [];
  validate = λ t a. valid a;
  call = λ t a i. value (49 ∷ []);
  tool_timeout_ms = pos 1000;
}

execute_intent-Reports_example :
    Reports tools signed (pos 100) (execute_intent tools signed (pos 100))
execute_intent-Reports_example = execute_intent-Reports tools signed (pos 100)

abbrev config : Config
config = record {
  verify_intents = require;
  dead_letter_sink = true;
  in_flight_backoff_ms = 10;
  in_flight_backoff_max_ms = 40;
  publish_max_attempts = 3;
  publish_backoff_ms = 5;
}

-- the claim is won after one wait, and the first attempt to publish fails
abbrev answers : Answers
answers = record {
  verification = verify_intent hmac serialize keyring signed;
  now_ms = pos 100;
  claims = in_flight ∷ claimed (1 ∷ []) ∷ [];
  execution = execute_intent tools signed (pos 100);
  stored = true;
  sent = λ left. if left == 1 then arrived else transport_error;
}

process-closes_example :
    closings (process config signed answers).0 ≡ closed_by (process config signed answers).1
process-closes_example = process-closes config signed answers

process-invokes_example : OnlyIf (IsCleared config signed answers) (process config signed answers).0
process-invokes_example = process-invokes config signed answers

execute-durable_example : durable false (execute config signed answers answers.execution).0 ≡ true
execute-durable_example = execute-durable config signed answers answers.execution
