-- ===== src/Model/ReplayCache/Sizes.antt =====
-- What a lookup does to the number of entries and to their serialized size.
use beam_agents.Base.{
  ◌+◌, ◌≤◌, ◌≡◌, refl, String, some, List, [], ◌∷◌, length, length-append, arith, Option-cases,
  Bool-cases, inl, inr,
}
use beam_agents.Base.Dict.{lookup, remove, insert_last}
use beam_agents.Model.ReplayCache.{
  Entry, ReplayCache, blob_cap_bytes, get, touch, remove_entry, is_expired, entry_protos,
  prospective_blob_size,
}

length-remove_held :
    (k : String) (e : Entry) (d : List (String × Entry))
    → lookup k d ≡ some e
    → length (remove k d) + 1 ≡ length d
unfolding lookup remove
length-remove_held k e [] h = cc
length-remove_held k e ((j, w) ∷ d) h = ground (arith, length-remove_held k e d, h)

pub get-few : (k : String) (c : ReplayCache) → length (get k c).1.entries ≤ length c.entries
unfolding get touch remove_entry insert_last
get-few k c = elim (Option-cases (lookup k c.entries)) [
  | inl gone ↦ rw gone (omega arith)
  | inr (e, held) ↦ elim (Bool-cases (is_expired c.now_ms e)) [
    | inl old ↦ rw (held, old, held) (omega (arith, length-remove_held k e c.entries held))
    | inr live ↦
        rw (held, live)
          (omega (
            arith,
            length-remove_held k e c.entries held,
            length-append (remove k c.entries) ((k, record e { last_access_ms = c.now_ms }) ∷ []),
          ))
  ]
]

pub get-wire :
    (k : String) (c : ReplayCache) → (get k c).1.entries_wire_total ≤ c.entries_wire_total
unfolding get touch remove_entry
get-wire k c = elim (Option-cases (lookup k c.entries)) [
  | inl gone ↦ rw gone (omega arith)
  | inr (e, held) ↦ elim (Bool-cases (is_expired c.now_ms e)) [
    | inl old ↦ rw (held, old, held) (omega arith)
    | inr live ↦ rw (held, live) (omega arith)
  ]
]

pub wire-le :
    (c : ReplayCache)
    → prospective_blob_size c ≤ blob_cap_bytes
    → c.entries_wire_total ≤ blob_cap_bytes
unfolding prospective_blob_size
wire-le c h = omega (arith, h)

pub length-entry_protos : (d : List (String × Entry)) → length (entry_protos d) ≡ length d
length-entry_protos [] = refl
length-entry_protos ((k, e) ∷ d) = omega (arith, length-entry_protos d)
