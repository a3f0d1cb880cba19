-- ===== src/Effector/Redis.antt =====
-- effector/dedup.py, `RedisDedupStore`: SET NX PX for the claim and the two server-side scripts.
-- The commands of a Redis server are parameters, on a state that contains its time.
pub mod Refines
use Prim.Native.String.{◌++◌ as ◌+++◌}
use beam_agents.Base.{
  ◌==◌, ◌≡◌, ℤ, pos, ◌<ℤ◌, String, str_eq, Bool, true, false, Option, none, some, [], ◌∷◌, bytes_eq,
  if◌then◌else◌,
}
use beam_agents.Wire.{Bytes, ToolResult}
use beam_agents.Effector.Dedup.{ClaimOutcome, claimed, in_flight, done, encode_done, decode_done}

-- the commands that the store sends, for one key; `pttl` is how long a key with an expiry has left,
-- which the store does not ask for
pub record RedisCommands (Server : Type 0) : Type 0 where
  pub get : (key : String) → Server → Option Bytes
  pub set_nx_px : (key : String) → Bytes → (px : ℤ) → Server → Bool × Server
  pub set_px : (key : String) → Bytes → (px : ℤ) → Server → Server
  pub del : (key : String) → Server → Server
  pub pttl : (key : String) → Server → Option ℤ

-- what they are documented to do, of a SET with a positive expiry
pub record IsRedis (Server : Type 0) (redis : RedisCommands Server) : Type 0 where
  pub set_free :
      (k : String) (v : Bytes) (px : ℤ) (s : Server)
      → pos 0 <ℤ px
      → redis.get k s ≡ none
      → ((redis.set_nx_px k v px s).0 ≡ true)
        × (redis.get k (redis.set_nx_px k v px s).1 ≡ some v)
        × (redis.pttl k (redis.set_nx_px k v px s).1 ≡ some px)
  pub set_taken :
      (k : String) (v w : Bytes) (px : ℤ) (s : Server)
      → pos 0 <ℤ px
      → redis.get k s ≡ some w
      → redis.set_nx_px k v px s ≡ (false, s)
  pub set_nx_other :
      (j k : String) (v : Bytes) (px : ℤ) (s : Server)
      → pos 0 <ℤ px
      → str_eq k j ≡ false
      → redis.get j (redis.set_nx_px k v px s).1 ≡ redis.get j s
  pub get_set :
      (k : String) (v : Bytes) (px : ℤ) (s : Server)
      → pos 0 <ℤ px
      → (redis.get k (redis.set_px k v px s) ≡ some v)
        × (redis.pttl k (redis.set_px k v px s) ≡ some px)
  pub set_other :
      (j k : String) (v : Bytes) (px : ℤ) (s : Server)
      → pos 0 <ℤ px
      → str_eq k j ≡ false
      → redis.get j (redis.set_px k v px s) ≡ redis.get j s
  pub get_del : (k : String) (s : Server) → redis.get k (redis.del k s) ≡ none
  pub del_other :
      (j k : String) (s : Server) → str_eq k j ≡ false → redis.get j (redis.del k s) ≡ redis.get j s

-- "C" and "D"
abbrev pub claim_byte : Bytes → Bytes
claim_byte payload = 67 ∷ payload

abbrev pub done_byte : Bytes → Bytes
done_byte payload = 68 ∷ payload

-- `_encode_claim`, of an encoded token
abbrev pub encode_claim : (token : Bytes) → Bytes
encode_claim token = claim_byte token

-- `_key`
abbrev pub key_of : (prefix intent_id : String) → String
key_of prefix intent_id = prefix +++ intent_id

-- `redis.call('GET', KEYS[1]) == ARGV[1]`
abbrev pub is_value : Option Bytes → Bytes → Bool
is_value none argument = false
is_value (some value) argument = bytes_eq value argument

module _ {Server : Type 0} (redis : RedisCommands Server) (prefix : String)
    (serialize : ToolResult → Bytes) (parse : Bytes → ToolResult) where
  -- what `claim` answers of the value that it reads
  unfoldable pub read_existing : Option Bytes → ClaimOutcome
  read_existing none = in_flight
  read_existing (some []) = in_flight
  read_existing (some (tag ∷ payload)) =
      if tag == 68 then done (decode_done serialize parse payload) else in_flight

  -- `claim`; `between` is what other clients do from its SET to its GET
  unfoldable pub redis_claim :
      (between : Server → Server)
      → (intent_id : String) → (token : Bytes) → (lease_ms : ℤ) → Server
      → ClaimOutcome × Server
  unfolding read_existing
  redis_claim between intent_id token lease_ms s =
      let (won, s1) = redis.set_nx_px (key_of prefix intent_id) (encode_claim token) lease_ms s in
      if won
      then (claimed token, s1)
      else (read_existing (redis.get (key_of prefix intent_id) (between s1)), between s1)

  -- `_COMPLETE_SCRIPT` on the arguments of `complete`
  unfoldable pub redis_complete :
      (intent_id : String)
      → (token : Bytes) → Option ToolResult
      → (ttl_ms : ℤ) → Server
      → Bool × Server
  redis_complete intent_id token result ttl_ms s =
      let key = key_of prefix intent_id in
      if is_value (redis.get key s) (encode_claim token)
      then (true, redis.set_px key (done_byte (encode_done serialize parse result)) ttl_ms s)
      else (false, s)

  -- `_RELEASE_SCRIPT` on the arguments of `release`
  unfoldable pub redis_release : (intent_id : String) → (token : Bytes) → Server → Bool × Server
  redis_release intent_id token s =
      let key = key_of prefix intent_id in
      if is_value (redis.get key s) (encode_claim token)
      then (true, redis.del key s)
      else (false, s)
