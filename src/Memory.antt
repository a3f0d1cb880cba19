-- ===== src/Memory.antt =====
-- memory/facade.py: the working memory of one key. A Python exception is the reply `refused`; the
-- log line and the metric of the soft cap are the count `soft_cap_warnings`. A negative
-- `max_items` acts as 0 does.
pub mod Calls
pub mod Accounting
pub mod Caps
pub mod Ring
pub mod Compaction
mod Tests
use beam_agents.Base.{
  ℕ, zero, suc, ◌+◌, ◌-◌, ◌*◌, ◌/◌, ◌%◌, ltb, leb, ◌==◌, ℤ, String, Bool, true, false, not, ◌||◌,
  Option, none, some, List, [], ◌∷◌, ◌++◌, map, length, take, drop, if◌then◌else◌,
}
use beam_agents.Base.Dict.{lookup, remove, store, insert_last}
use beam_agents.Wire.{Bytes, MemoryEntry, MemoryBlob}
use beam_agents.Core.Migration.{current_state_schema_version}

abbrev pub hard_cap_bytes : ℕ
hard_cap_bytes = 1_048_576

abbrev pub soft_cap_bytes : ℕ
soft_cap_bytes = 786_432

abbrev pub kind_scalar : ℕ
kind_scalar = 0

abbrev pub kind_ring : ℕ
kind_ring = 1

-- what the facade raises, and what a compactor raised
pub data MemoryError : Type 0 where
  memory_overflow : (key : String) (attempted_bytes cap_bytes : ℕ) → MemoryError
  holds_a_ring holds_a_scalar key_error : String → MemoryError
  truncated_prefix truncated_item item_too_long empty_value : MemoryError
  compactor_error : String → MemoryError

pub data Outcome (A : Type 0) : Type 0 where
  done : A → Outcome A
  raised : MemoryError → Outcome A

-- `_Entry`
pub record Entry : Type 0 where
  pub value : Bytes
  pub last_access_ms : ℤ

-- the fields of a `Memory`
pub record Memory : Type 0 where
  pub now_ms : ℤ
  pub entries : List (String × Entry)
  pub total : ℕ
  pub dirty : Bool
  pub soft_cap_warned : Bool
  pub soft_cap_warnings : ℕ

-- the loop of `__init__`; a repeated key overwrites, and the total counts both
unfoldable pub load_entries : List MemoryEntry → Memory → Memory
unfolding store
load_entries [] m = m
load_entries (p ∷ ps) m =
    let e : Entry = record { value = p.value; last_access_ms = p.last_access_ms } in
    load_entries ps
      (record m { entries = store p.key e m.entries; total = m.total + length p.value })

abbrev pub blank_memory : ℤ → Memory
blank_memory now_ms = record {
  now_ms = now_ms;
  entries = [];
  total = 0;
  dirty = false;
  soft_cap_warned = false;
  soft_cap_warnings = 0;
}

abbrev loaded : Option MemoryBlob → Memory → Memory
unfolding load_entries
loaded none m = m
loaded (some blob) m = load_entries blob.entries m

-- `Memory(blob, now_ms=now_ms)`
unfoldable pub open_memory : Option MemoryBlob → (now_ms : ℤ) → Memory
unfolding load_entries
open_memory blob now_ms = loaded blob (blank_memory now_ms)

abbrev pub entry_protos : List (String × Entry) → List MemoryEntry
entry_protos [] = []
entry_protos ((k, e) ∷ d) =
    record { key = k; value = e.value; last_access_ms = e.last_access_ms } ∷ entry_protos d

-- `to_blob`
unfoldable pub to_blob : Memory → MemoryBlob
to_blob m = record {
  state_schema_version = current_state_schema_version;
  entries = entry_protos m.entries;
  total_value_bytes = m.total;
}

-- `n.to_bytes(4, "big")` of a number below 2^32
abbrev pub be32 : ℕ → Bytes
be32 n = (n / 16_777_216 % 256) ∷ (n / 65_536 % 256) ∷ (n / 256 % 256) ∷ (n % 256) ∷ []

-- one item's prefix and bytes before the rest
abbrev pub framed : Bytes → Outcome Bytes → Outcome Bytes
framed item (done out) = done (be32 (length item) ++ (item ++ out))
framed item (raised e) = raised e

-- the loop of `_encode_ring`; `to_bytes` raises where the length needs more than four bytes
unfoldable pub encode_items : List Bytes → Outcome Bytes
encode_items [] = done []
encode_items (item ∷ items) =
    let rest = encode_items items in
    if leb 4_294_967_296 (length item) then raised item_too_long else framed item rest

abbrev pub tagged : Outcome Bytes → Outcome Bytes
tagged (done out) = done (kind_ring ∷ out)
tagged (raised e) = raised e

-- `_encode_ring`
unfoldable pub encode_ring : List Bytes → Outcome Bytes
unfolding encode_items
encode_ring items = tagged (encode_items items)

-- `int.from_bytes(b, "big")` of four bytes
abbrev pub from_be32 : ℕ → ℕ → ℕ → ℕ → ℕ
from_be32 a b c d = a * 16_777_216 + b * 65_536 + c * 256 + d

abbrev pub prepend : Bytes → Outcome (List Bytes) → Outcome (List Bytes)
prepend item (done items) = done (item ∷ items)
prepend item (raised e) = raised e

-- the loop of `_decode_ring` from the byte at `pos`; `left` bounds its rounds
unfoldable pub decode_items : (left : ℕ) → Bytes → Outcome (List Bytes)
decode_items zero encoded = done []
decode_items (suc left) [] = done []
decode_items (suc left) (a ∷ b ∷ c ∷ d ∷ rest) =
    let n = from_be32 a b c d in
    let items = decode_items left (drop n rest) in
    if ltb (length rest) n then raised truncated_item else prepend (take n rest) items
decode_items (suc left) _ = raised truncated_prefix

-- `_decode_ring`, which skips the kind tag
unfoldable pub decode_ring : Bytes → Outcome (List Bytes)
unfolding decode_items
decode_ring encoded = decode_items (length encoded) (drop 1 encoded)

-- `items[-max_items:] if max_items > 0 else []`
abbrev pub last_items : (max_items : ℕ) → List Bytes → List Bytes
last_items max_items items = drop (length items - max_items) items

-- what a write stores
pub data Write : Type 0 where
  scalar : Bytes → Write
  appended : (item : Bytes) (max_items : ℕ) → Write

abbrev pub items_of : Option Entry → Outcome (List Bytes)
items_of none = done []
items_of (some e) = decode_ring e.value

abbrev pub appended_to : (item : Bytes) (max_items : ℕ) → Outcome (List Bytes) → Outcome Bytes
appended_to item max_items (done items) = encode_ring (last_items max_items (items ++ item ∷ []))
appended_to item max_items (raised e) = raised e

-- the `compute` that `set` and `append` hand to `_guarded_write`
unfoldable pub compute : Write → String → Memory → Outcome Bytes
unfolding lookup decode_ring encode_ring
compute (scalar value) k m = done (kind_scalar ∷ value)
compute (appended item max_items) k m = appended_to item max_items (items_of (lookup k m.entries))

abbrev pub old_len : Option Entry → ℕ
old_len none = 0
old_len (some e) = length e.value

-- `_prospective_total`
unfoldable pub prospective_total : String → Bytes → Memory → ℕ
unfolding lookup
prospective_total k encoded m = m.total + length encoded - old_len (lookup k m.entries)

-- `_commit`
unfoldable pub commit : String → Bytes → Memory → Memory
unfolding lookup remove insert_last
commit k encoded m = record m {
  entries =
      insert_last k (record { value = encoded; last_access_ms = m.now_ms }) (remove k m.entries);
  total = m.total - old_len (lookup k m.entries) + length encoded;
  dirty = true;
}

-- `_touch`
unfoldable pub touch : String → Entry → Memory → Memory
unfolding remove insert_last
touch k e m = record m {
  entries = insert_last k (record e { last_access_ms = m.now_ms }) (remove k m.entries);
  dirty = true;
}
