-- ===== src/Keys.antt =====
-- src/beam_agents/keys.py: a logical key over its physical shards. SHA-256 and the deterministic
-- serialization of an envelope are parameters; `none` is the ValueError.
pub mod Logical
mod Tests
use beam_agents.Base.{
  ℕ, ◌+◌, ◌*◌, ◌%◌, ltb, ◌==◌, Bool, true, false, ◌&&◌, not, Option, none, some, List, [], ◌∷◌,
  ◌++◌, take, is_empty, if◌then◌else◌,
}
use beam_agents.Base.Digits.{decimal, is_digit}
use beam_agents.Wire.{Bytes, AgentEnvelope, Payload, external_event}

-- the code of "#"
abbrev pub shard_delimiter : ℕ
shard_delimiter = 35

abbrev pub digest_bytes : ℕ
digest_bytes = 8

-- `int.from_bytes`, which is big-endian
unfoldable pub from_bytes : (before : ℕ) → Bytes → ℕ
from_bytes before [] = before
from_bytes before (b ∷ bs) = from_bytes (before * 256 + b) bs

-- `key + SHARD_DELIMITER + str(index).encode("ascii")`
abbrev pub physical_key : Bytes → (index : ℕ) → Bytes
physical_key key index = key ++ shard_delimiter ∷ decimal index

-- the index that the payload's digest assigns
unfoldable pub shard_index : (sha256 : Bytes → Bytes) (n : ℕ) (payload : Bytes) → ℕ
unfolding from_bytes
shard_index sha256 n payload = from_bytes 0 (take digest_bytes (sha256 payload)) % n

unfoldable pub shard_key :
    (sha256 : Bytes → Bytes) (key : Bytes) (n : ℕ) (payload : Bytes) → Option Bytes
unfolding shard_index decimal
shard_key sha256 key n payload =
    if ltb n 1 then none else some (physical_key key (shard_index sha256 n payload))

abbrev pub before_last : ℕ → Bytes → Option (Bytes × Bytes) → Option (Bytes × Bytes)
before_last b bs (some (logical, digits)) = some (b ∷ logical, digits)
before_last b bs none = if b == shard_delimiter then some ([], bs) else none

-- `key.rpartition(SHARD_DELIMITER)`: what stands before and after the last delimiter, if there is
-- one
unfoldable pub rpartition : Bytes → Option (Bytes × Bytes)
rpartition [] = none
rpartition (b ∷ bs) = before_last b bs (rpartition bs)

abbrev all_digits : Bytes → Bool
all_digits [] = true
all_digits (b ∷ bs) = is_digit b && all_digits bs

-- `digits.isdigit()`
abbrev pub isdigit : Bytes → Bool
isdigit bs = not (is_empty bs) && all_digits bs

abbrev pub checked : Option (Bytes × Bytes) → Option Bytes
checked none = none
checked (some (logical, digits)) = if isdigit digits then some logical else none

unfoldable pub unshard_key : Bytes → Option Bytes
unfolding rpartition
unshard_key key = checked (rpartition key)

pub data Assignment : Type 0 where
  hash round_robin : Assignment

-- the fields of a `_ShardElement`, with the functions that it calls
pub record ShardElement : Type 0 where
  pub n : ℕ
  pub assignment : Assignment
  pub sha256 : Bytes → Bytes
  pub serialize : AgentEnvelope → Bytes

-- `_hash_payload`
abbrev pub payload_bytes : (serialized : Bytes) → Payload → Bytes
payload_bytes serialized (external_event event) = event
payload_bytes serialized _ = serialized

unfoldable pub hash_payload : ShardElement → AgentEnvelope → Bytes
hash_payload self envelope = payload_bytes (self.serialize envelope) envelope.payload

-- `_index_key`, with the worker's counter; it returns the counter that it leaves
unfoldable pub index_key :
    ShardElement → Assignment → (counter : ℕ) → Bytes → AgentEnvelope → Option Bytes × ℕ
unfolding shard_key hash_payload decimal
index_key self hash counter key envelope =
    (shard_key self.sha256 key self.n (hash_payload self envelope), counter)
index_key self round_robin counter key envelope =
    (some (physical_key key (counter % self.n)), counter + 1)

abbrev pub rekeyed : AgentEnvelope → Option Bytes → Option (Bytes × AgentEnvelope)
rekeyed envelope none = none
rekeyed envelope (some physical) = some (physical, record envelope { entity_key = physical })

-- `process`: the element that it yields, and the counter
unfoldable pub process :
    ShardElement → (counter : ℕ) → Bytes × AgentEnvelope → Option (Bytes × AgentEnvelope) × ℕ
unfolding index_key
process self counter (key, envelope) =
    let (physical, next) = index_key self self.assignment counter key envelope in
    (rekeyed envelope physical, next)

-- `ShardKeys.__init__`: whether it accepts the shard count
unfoldable pub accepts_count : ℕ → Bool
accepts_count n = not (ltb n 1)
