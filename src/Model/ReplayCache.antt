-- ===== src/Model/ReplayCache.antt =====
-- model/replay_cache.py: the per-key cache of model responses. SHA-256 and the protobuf library's
-- `ByteSize` are parameters.
pub mod Accounting
pub mod Bounds
pub mod Sizes
pub mod Blob
pub mod Hits
use beam_agents.Base.{
  ℕ, zero, suc, ◌+◌, ◌-◌, ◌/◌, ltb, ◌==◌, ℤ, pos, ◌-ℤ◌, ltb_ℤ, String, Bool, true, false, Option,
  none, some, List, [], ◌∷◌, length, if◌then◌else◌,
}
use beam_agents.Base.Dict.{lookup, remove, store, insert_last}
use beam_agents.Wire.{Bytes, LlmCacheEntry, LlmCacheBlob}
pub use beam_agents.Model.CacheEntry.{
  max_entries, ttl_ms, blob_cap_bytes, ReplayEntry, Entry, ReplayCache, Codec, entry_proto,
}
unfoldable pub use beam_agents.Model.CacheEntry.{varint_rounds, varint_len, blob_header_size}
use beam_agents.Core.Migration.{current_state_schema_version}

-- `_is_expired`
unfoldable pub is_expired : (now_ms : ℤ) → Entry → Bool
is_expired now_ms e = ltb_ℤ (pos ttl_ms) (now_ms -ℤ e.created_at_ms)

-- `_remove`
abbrev drop_entry : String → Option Entry → ReplayCache → ReplayCache
unfolding remove
drop_entry k none c = c
drop_entry k (some e) c = record c {
  entries = remove k c.entries;
  response_total = c.response_total - length e.response;
  entries_wire_total = c.entries_wire_total - e.wire_size;
}

unfoldable pub remove_entry : String → ReplayCache → ReplayCache
unfolding lookup remove
remove_entry k c = drop_entry k (lookup k c.entries) c

-- the keys that `_purge_expired` collects
unfoldable pub expired_keys : (now_ms : ℤ) → List (String × Entry) → List String
unfolding is_expired
expired_keys now_ms [] = []
expired_keys now_ms ((k, e) ∷ d) =
    let rest = expired_keys now_ms d in if is_expired now_ms e then k ∷ rest else rest

unfoldable pub remove_keys : List String → ReplayCache → ReplayCache
unfolding remove_entry
remove_keys [] c = c
remove_keys (k ∷ ks) c = remove_keys ks (record (remove_entry k c) { dirty = true })

-- `_purge_expired`
unfoldable pub purge_expired : ReplayCache → ReplayCache
unfolding expired_keys remove_keys
purge_expired c = remove_keys (expired_keys c.now_ms c.entries) c

-- `_touch`
unfoldable pub touch : String → Entry → ReplayCache → ReplayCache
unfolding remove insert_last
touch k e c = record c {
  entries = insert_last k (record e { last_access_ms = c.now_ms }) (remove k c.entries);
  dirty = true;
}

abbrev get_found : String → Option Entry → ReplayCache → Option ReplayEntry × ReplayCache
unfolding is_expired remove_entry touch
get_found k none c = (none, c)
get_found k (some e) c =
    if is_expired c.now_ms e then (none, record (remove_entry k c) { dirty = true }) else (
      some (record {
        response = e.response;
        response_digest = e.response_digest;
        digest_only = e.digest_only;
      }),
      touch k e c,
    )

-- `get`
unfoldable pub get : String → ReplayCache → Option ReplayEntry × ReplayCache
unfolding lookup remove_entry touch is_expired
get k c = get_found k (lookup k c.entries) c

-- `_prospective_blob_size`
unfoldable pub prospective_blob_size : ReplayCache → ℕ
unfolding blob_header_size
prospective_blob_size c = blob_header_size c.response_total + c.entries_wire_total

abbrev pub evict_head : List (String × Entry) → ReplayCache → ReplayCache
unfolding remove_entry
evict_head [] c = c
evict_head ((k, e) ∷ d) c = remove_entry k c

-- `_evict_least_recently_used`, which the loops call on a cache that has an entry
unfoldable pub evict_least_recently_used : ReplayCache → ReplayCache
unfolding remove_entry
evict_least_recently_used c = evict_head c.entries c

-- `_evict_over_count`; `left` bounds its rounds
unfoldable pub evict_over_count : (left : ℕ) → ReplayCache → ReplayCache
unfolding evict_least_recently_used
evict_over_count zero c = c
evict_over_count (suc left) c =
    let rest = evict_over_count left (evict_least_recently_used c) in
    if ltb max_entries (length c.entries) then rest else c

-- `_evict_over_bytes`; `left` bounds its rounds
unfoldable pub evict_over_bytes : (left : ℕ) → ReplayCache → ReplayCache
unfolding evict_least_recently_used prospective_blob_size
evict_over_bytes zero c = c
evict_over_bytes (suc left) c =
    let rest = evict_over_bytes left (evict_least_recently_used c) in
    if ltb 1 (length c.entries)
    then (if ltb blob_cap_bytes (prospective_blob_size c) then rest else c)
    else c

-- the entry at the end of the dict, before the caps are enforced
unfoldable pub inserted : String → Entry → ReplayCache → ReplayCache
unfolding remove_entry insert_last
inserted k e c =
    let c1 = remove_entry k c in
    record c1 {
      entries = insert_last k e c1.entries;
      response_total = c1.response_total + length e.response;
      entries_wire_total = c1.entries_wire_total + e.wire_size;
      dirty = true;
    }

-- the two loops that end `put`
abbrev pub evict_all : ReplayCache → ReplayCache
unfolding evict_over_count evict_over_bytes
evict_all c =
    let c1 = evict_over_count (length c.entries) c in evict_over_bytes (length c1.entries) c1

module _ (codec : Codec) where
  -- `_entry_wire_size`
  unfoldable pub entry_wire_size : String → Entry → ℕ
  unfolding varint_len
  entry_wire_size cache_key e =
      let payload = codec.byte_size (entry_proto cache_key e) in 1 + varint_len payload + payload

  -- an entry with its `wire_size` filled in
  abbrev pub sized : String → Entry → Entry
  unfolding entry_wire_size
  sized k e = record e { wire_size = entry_wire_size k e }

  abbrev pub staged_entry : ℤ → String → Bytes → (response : Bytes) → (digest_only : Bool) → Entry
  unfolding entry_wire_size
  staged_entry now_ms k stored response digest_only = sized k (record {
    response = stored;
    response_digest = codec.sha256 response;
    created_at_ms = now_ms;
    last_access_ms = now_ms;
    digest_only = digest_only;
    wire_size = 0;
  })

  -- the entry that `put` stores: digest-only where the response could never fit
  unfoldable pub new_entry : (now_ms : ℤ) → String → (response : Bytes) → Entry
  unfolding entry_wire_size blob_header_size
  new_entry now_ms k response =
      let full = staged_entry now_ms k response response false in
      if ltb blob_cap_bytes (blob_header_size (length response) + full.wire_size)
      then staged_entry now_ms k [] response true
      else full

  -- `put`
  unfoldable pub put : String → (response : Bytes) → ReplayCache → ReplayCache
  unfolding purge_expired inserted new_entry evict_over_count evict_over_bytes
  put k response c =
      let c1 = purge_expired c in evict_all (inserted k (new_entry c1.now_ms k response) c1)

  -- the loop of `__init__`; a repeated key overwrites, and the totals count both
  unfoldable pub load_entries : List LlmCacheEntry → ReplayCache → ReplayCache
  unfolding store entry_wire_size
  load_entries [] c = c
  load_entries (p ∷ ps) c =
      let e : Entry = sized p.cache_key (record {
        response = p.response;
        response_digest = p.response_digest;
        created_at_ms = p.created_at_ms;
        last_access_ms = p.last_access_ms;
        digest_only = p.digest_only;
        wire_size = 0;
      }) in
      load_entries ps (record c {
        entries = store p.cache_key e c.entries;
        response_total = c.response_total + length e.response;
        entries_wire_total = c.entries_wire_total + e.wire_size;
      })

abbrev pub blank_cache : ℤ → ReplayCache
blank_cache now_ms = record {
  now_ms = now_ms;
  entries = [];
  response_total = 0;
  entries_wire_total = 0;
  dirty = false;
}

abbrev pub loaded : Codec → Option LlmCacheBlob → ReplayCache → ReplayCache
unfolding load_entries
loaded codec none c = c
loaded codec (some blob) c = load_entries codec blob.entries c

-- `ReplayCache(blob, now_ms=now_ms)`
unfoldable pub replay_cache : Codec → Option LlmCacheBlob → (now_ms : ℤ) → ReplayCache
unfolding load_entries
replay_cache codec blob now_ms = loaded codec blob (blank_cache now_ms)

abbrev pub entry_protos : List (String × Entry) → List LlmCacheEntry
entry_protos [] = []
entry_protos ((k, e) ∷ d) = entry_proto k e ∷ entry_protos d

-- `to_blob`
unfoldable pub to_blob : ReplayCache → LlmCacheBlob
to_blob c = record {
  state_schema_version = current_state_schema_version;
  entries = entry_protos c.entries;
  total_response_bytes = c.response_total;
}
