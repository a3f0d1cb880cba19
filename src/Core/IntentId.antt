-- ===== src/Core/IntentId.antt =====
-- `intent_id_for` of core/agent.py: the text that `uuid5` hashes. `uuid5` itself, over the module's
-- namespace, is a parameter.
pub mod Distinct
use beam_agents.Base.{ℕ, String, ◌∷◌, ◌++◌}
use beam_agents.Base.Digits.{decimal, hex}
use beam_agents.Wire.{Bytes}

-- the code of "|"
abbrev pub bar : ℕ
bar = 124

-- `f"{entity_key.hex()}|{seq}|{step_index}"`
unfoldable pub intent_name : Bytes → ℕ → ℕ → Bytes
unfolding decimal hex
intent_name entity_key seq step_index =
    hex entity_key ++ (bar ∷ (decimal seq ++ (bar ∷ decimal step_index)))

unfoldable pub intent_id_for : (Bytes → String) → Bytes → ℕ → ℕ → String
unfolding intent_name
intent_id_for uuid5 entity_key seq step_index = uuid5 (intent_name entity_key seq step_index)
