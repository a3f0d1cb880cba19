-- ===== src/Traces/Tests.antt =====
-- The events of an attempt at concrete inputs.
use Prim.Native.String.{len}
use beam_agents.Base.{◌≡◌, refl, pos, false, none, some, [], ◌∷◌, String}
use beam_agents.Wire.{Bytes}
use beam_agents.Traces.{
  ActivationTrace, hex_text, error_attributes, usage_attributes, joined, span_id_for, own_span_id,
}

-- a hash that tells only the lengths of names apart
abbrev lengths : String → Bytes
lengths name = len name ∷ []

abbrev first : ActivationTrace
first = record {
  entity_key = 10 ∷ 255 ∷ [];
  seq = 4;
  now_ms = pos 100;
  entry_step_index = 0;
  is_resume = false;
}

key_text : hex_text (10 ∷ 255 ∷ []) ≡ "0aff"
key_text = refl

-- "0aff|4|activation|0"
root_span : own_span_id lengths first ≡ 19 ∷ []
unfolding own_span_id span_id_for
root_span = refl

known_usage :
    usage_attributes
      (some (record { prompt_tokens = 7; completion_tokens = 12; total_tokens = 19 }))
      false
    ≡ ("beam_agents.billed", "false")
      ∷ ("gen_ai.usage.input_tokens", "7")
      ∷ ("gen_ai.usage.output_tokens", "12")
      ∷ []
unfolding usage_attributes
known_usage = refl

untyped :
    error_attributes "activation_error" "" none ≡ ("beam_agents.reason", "activation_error") ∷ []
unfolding error_attributes
untyped = refl

two_ids : joined ("a" ∷ "b" ∷ []) ≡ "a,b"
unfolding joined
two_ids = refl
