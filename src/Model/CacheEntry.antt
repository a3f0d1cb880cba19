-- ===== src/Model/CacheEntry.antt =====
-- model/replay_cache.py: the entries of the cache, its constants, and the sizes of the two fields
-- that the cache adds to an entry's own.
use beam_agents.Base.{ℕ, zero, suc, ◌+◌, ◌/◌, ltb, ◌==◌, ℤ, String, Bool, List, if◌then◌else◌}
use beam_agents.Wire.{Bytes, LlmCacheEntry}

abbrev pub max_entries : ℕ
max_entries = 64

abbrev pub ttl_ms : ℕ
ttl_ms = 21_600_000

abbrev pub blob_cap_bytes : ℕ
blob_cap_bytes = 102_400

-- what `get` returns on a hit
pub record ReplayEntry : Type 0 where
  pub response : Bytes
  pub response_digest : Bytes
  pub digest_only : Bool

-- `_Entry`
pub record Entry : Type 0 where
  pub response : Bytes
  pub response_digest : Bytes
  pub created_at_ms : ℤ
  pub last_access_ms : ℤ
  pub digest_only : Bool
  pub wire_size : ℕ

-- the fields of a `ReplayCache`
pub record ReplayCache : Type 0 where
  pub now_ms : ℤ
  pub entries : List (String × Entry)
  pub response_total : ℕ
  pub entries_wire_total : ℕ
  pub dirty : Bool

-- `hashlib.sha256(b).digest()` and the `ByteSize` of an entry message
pub record Codec : Type 0 where
  pub sha256 : Bytes → Bytes
  pub byte_size : LlmCacheEntry → ℕ

-- the loop of `_varint_len`; `left` bounds its rounds
unfoldable pub varint_rounds : (left value : ℕ) → ℕ
varint_rounds zero value = 1
varint_rounds (suc left) value =
    let rest = varint_rounds left (value / 128) in if ltb value 128 then 1 else suc rest

-- `_varint_len`
unfoldable pub varint_len : ℕ → ℕ
unfolding varint_rounds
varint_len value = varint_rounds value value

-- `_blob_header_size`
unfoldable pub blob_header_size : ℕ → ℕ
unfolding varint_len
blob_header_size total_response_bytes =
    if total_response_bytes == 0 then 2 else 2 + (1 + varint_len total_response_bytes)

abbrev pub entry_proto : String → Entry → LlmCacheEntry
entry_proto cache_key e = record {
  cache_key = cache_key;
  response = e.response;
  response_digest = e.response_digest;
  created_at_ms = e.created_at_ms;
  last_access_ms = e.last_access_ms;
  digest_only = e.digest_only;
}
