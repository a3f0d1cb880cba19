-- ===== src/Effector/Tests/Stores.antt =====
-- The dedup stores at concrete inputs: a Redis server as a function from keys to values.
use beam_agents.Base.{
  ◌≡◌, refl, ap, ℤ, pos, ◌<ℤ◌, ltb_ℤ, ◌+ℤ◌, String, str_eq, eq_refl, Bool, true, false, Option,
  none, some, [], ◌∷◌, arith, if◌then◌else◌,
}
use beam_agents.Wire.{Bytes, ToolResult, Status, blank}
use beam_agents.Effector.Dedup.{claim, complete, release, in_flight, done, encode_done, decode_done}
use beam_agents.Effector.Dedup.Contract.{Keeps, contract_claim, contract_complete, contract_release}
use beam_agents.Effector.Dedup.Promise.{held_now, memory-Keeps}
use beam_agents.Effector.Redis.{
  RedisCommands, IsRedis, encode_claim, redis_claim, redis_complete, redis_release, read_existing,
}
use beam_agents.Effector.Redis.Refines.{view, left_of, leased, redis-Keeps}

-- a serializer that keeps one result only
abbrev result : ToolResult
result = record {
  intent_id = "i";
  entity_key = [];
  seq = 0;
  status = Status.ok;
  payload = [];
  error_message = blank;
  completed_at_ms = pos 5;
}

abbrev serialize : ToolResult → Bytes
serialize r = 1 ∷ []

abbrev parse : Bytes → ToolResult
parse bs = result

-- each key's value with its expiry
abbrev Server : Type 0
Server = String → Option (Bytes × ℤ)

abbrev stored : String → Option (Bytes × ℤ) → Server → Server
stored k v s j = if str_eq k j then v else s j

abbrev first_set : String → Bytes × ℤ → Option (Bytes × ℤ) → Server → Bool × Server
first_set k v none s = (true, stored k (some v) s)
first_set k v (some w) s = (false, s)

abbrev value_of : Option (Bytes × ℤ) → Option Bytes
value_of none = none
value_of (some (v, px)) = some v

abbrev expiry_of : Option (Bytes × ℤ) → Option ℤ
expiry_of none = none
expiry_of (some (v, px)) = some px

-- a SET with an expiry that is not positive is refused
abbrev redis : RedisCommands Server
redis = record {
  get = λ k s. value_of (s k);
  set_nx_px = λ k v px s. if ltb_ℤ (pos 0) px then first_set k (v, px) (s k) s else (false, s);
  set_px = λ k v px s. if ltb_ℤ (pos 0) px then stored k (some (v, px)) s else s;
  del = λ k s. stored k none s;
  pttl = λ k s. expiry_of (s k);
}

positive : (px : ℤ) → pos 0 <ℤ px → ltb_ℤ (pos 0) px ≡ true
positive px h = ground (arith, h)

stored_there : (k : String) (v : Option (Bytes × ℤ)) (s : Server) → stored k v s k ≡ v
stored_there k v s = rw (eq_refl k) refl

stored_elsewhere :
    (j k : String) (v : Option (Bytes × ℤ)) (s : Server) → str_eq k j ≡ false → stored k v s j ≡ s j
stored_elsewhere j k v s other = rw other refl

first_set_free :
    (k : String) (v : Bytes × ℤ) (o : Option (Bytes × ℤ)) (s : Server)
    → value_of o ≡ none
    → ((first_set k v o s).0 ≡ true) × ((first_set k v o s).1 k ≡ some v)
first_set_free k v none s e = (refl, stored_there k (some v) s)
first_set_free k v (some w) s e = cc

first_set_taken :
    (k : String) (v : Bytes × ℤ) (w : Bytes) (o : Option (Bytes × ℤ)) (s : Server)
    → value_of o ≡ some w
    → first_set k v o s ≡ (false, s)
first_set_taken k v w none s e = cc
first_set_taken k v w (some x) s e = refl

first_set_other :
    (j k : String) (v : Bytes × ℤ) (o : Option (Bytes × ℤ)) (s : Server)
    → str_eq k j ≡ false
    → (first_set k v o s).1 j ≡ s j
first_set_other j k v none s other = stored_elsewhere j k (some v) s other
first_set_other j k v (some w) s other = refl

redis-IsRedis : IsRedis Server redis
redis-IsRedis = record {
  set_free = λ k v px s lasts e.
      (let (won, at) = first_set_free k (v, px) (s k) s e in
        rw (positive px lasts) (won, ap value_of at, ap expiry_of at));
  set_taken = λ k v w px s lasts e. rw (positive px lasts) (first_set_taken k (v, px) w (s k) s e);
  set_nx_other = λ j k v px s lasts other.
      rw (positive px lasts) (ap value_of (first_set_other j k (v, px) (s k) s other));
  get_set = λ k v px s lasts. rw (positive px lasts) (
    ap value_of (stored_there k (some (v, px)) s),
    ap expiry_of (stored_there k (some (v, px)) s),
  );
  set_other = λ j k v px s lasts other.
      rw (positive px lasts) (ap value_of (stored_elsewhere j k (some (v, px)) s other));
  get_del = λ k s. ap value_of (stored_there k none s);
  del_other = λ j k s other. ap value_of (stored_elsewhere j k none s other);
}

abbrev empty : Server
empty k = none

-- a worker claims, a second one waits, and the first completes
abbrev won : Server
won = (redis_claim redis "p:" serialize parse (λ t. t) "i" (7 ∷ []) (pos 100) empty).1

second_waits :
    (redis_claim redis "p:" serialize parse (λ t. t) "i" (8 ∷ []) (pos 100) won).0 ≡ in_flight
unfolding redis_claim read_existing
second_waits = refl

abbrev finished : Server
finished = (redis_complete redis "p:" serialize parse "i" (7 ∷ []) (some result) (pos 900) won).1

second_learns :
    (redis_claim redis "p:" serialize parse (λ t. t) "i" (8 ∷ []) (pos 100) finished).0
    ≡ done (some result)
unfolding redis_claim redis_complete read_existing encode_done decode_done
second_learns = refl

parses : decode_done serialize parse (encode_done serialize parse (some result)) ≡ some result
unfolding decode_done encode_done
parses = refl

redis-Keeps_example :
    Keeps
      (view redis "p:" serialize parse)
      "i"
      won
      (redis_claim redis "p:" serialize parse (λ t. t) "i" (7 ∷ []) (pos 100) won)
      (contract_claim (encode_claim (7 ∷ [])) (7 ∷ []) (view redis "p:" serialize parse "i" won))
    × Keeps
        (view redis "p:" serialize parse)
        "i"
        won
        (redis_complete redis "p:" serialize parse "i" (7 ∷ []) (some result) (pos 900) won)
        (contract_complete
          (encode_claim (7 ∷ []))
          (some result)
          (view redis "p:" serialize parse "i" won))
    × Keeps
        (view redis "p:" serialize parse)
        "i"
        won
        (redis_release redis "p:" serialize parse "i" (7 ∷ []) won)
        (contract_release (encode_claim (7 ∷ [])) (view redis "p:" serialize parse "i" won))
    × (left_of redis "p:" serialize parse "i"
          (redis_claim redis "p:" serialize parse (λ t. t) "i" (7 ∷ []) (pos 100) won).1
        ≡ leased redis "p:" serialize parse
            (pos 100)
            (view redis "p:" serialize parse "i" won)
            (left_of redis "p:" serialize parse "i" won))
    × (left_of redis "p:" serialize parse "i"
          (redis_complete redis "p:" serialize parse "i" (7 ∷ []) (some result) (pos 900) won).1
        ≡ (if (redis_complete redis "p:" serialize parse "i" (7 ∷ []) (some result) (pos 900) won).0
            then some (pos 900)
            else left_of redis "p:" serialize parse "i" won))
redis-Keeps_example =
    redis-Keeps redis "p:" serialize parse redis-IsRedis "i" (7 ∷ []) (some result) (pos 100)
      (pos 900) won (omega arith) (omega arith) parses

memory-Keeps_example :
    Keeps
      (held_now serialize parse (pos 3))
      "i"
      []
      (claim serialize parse "i" (pos 100) (7 ∷ []) (pos 3) (pos 4) [])
      (contract_claim (7 ∷ []) (7 ∷ []) (held_now serialize parse (pos 3) "i" []))
    × Keeps
        (held_now serialize parse (pos 3))
        "i"
        []
        (complete serialize parse "i" (7 ∷ []) (some result) (pos 900) (pos 3) (pos 4) [])
        (contract_complete (7 ∷ []) (some result) (held_now serialize parse (pos 3) "i" []))
    × Keeps
        (held_now serialize parse (pos 3))
        "i"
        []
        (release "i" (7 ∷ []) (pos 3) [])
        (contract_release (7 ∷ []) (held_now serialize parse (pos 3) "i" []))
unfolding ◌+ℤ◌
memory-Keeps_example =
    memory-Keeps serialize parse (pos 3) "i" (7 ∷ []) (some result) (pos 100) (pos 900) (pos 4) []
      (omega arith) (omega arith) parses
