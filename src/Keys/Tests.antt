-- ===== src/Keys/Tests.antt =====
-- Sharding at a concrete element.
use beam_agents.Base.{◌≡◌, refl, pos, some, none, true, [], ◌∷◌}
use beam_agents.Wire.{AgentEnvelope, external_event}
use beam_agents.Keys.{ShardElement, hash, process, unshard_key, accepts_count}
use beam_agents.Keys.Logical.{IsSharded, process-IsSharded}

-- eight shards, by a digest of five bytes
abbrev sharder : ShardElement
sharder = record {
  n = 8;
  assignment = hash;
  sha256 = λ b. 1 ∷ 2 ∷ 3 ∷ 4 ∷ 13 ∷ [];
  serialize = λ e. [];
}

abbrev envelope : AgentEnvelope
envelope = record {
  entity_key = 117 ∷ [];
  event_time_ms = pos 100;
  payload = external_event (5 ∷ []);
}

fifth_shard :
    (process sharder 0 (117 ∷ [], envelope)).0
    ≡ some (117 ∷ 35 ∷ 53 ∷ [], record envelope { entity_key = 117 ∷ 35 ∷ 53 ∷ [] })
unfolding process
fifth_shard = refl

-- a key with no shard is refused, and of two only the last goes
unsharded :
    (unshard_key (117 ∷ 35 ∷ []) ≡ none)
    × (unshard_key (35 ∷ 55 ∷ 35 ∷ 56 ∷ []) ≡ some (35 ∷ 55 ∷ []))
unfolding unshard_key
unsharded = (refl, refl)

accepted : accepts_count 8 ≡ true
unfolding accepts_count
accepted = refl

process-IsSharded_example :
    IsSharded 8 (117 ∷ []) envelope (process sharder 0 (117 ∷ [], envelope)).0
process-IsSharded_example = process-IsSharded sharder 0 (117 ∷ []) envelope accepted
