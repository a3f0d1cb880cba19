-- ===== src/Model/ReplayCache/Hits.antt =====
-- What lookups of a replay cache answer, and that they do not disturb each other.
use beam_agents.Base.{
  ℕ, ◌≤◌, ◌<◌, ℤ, pos, ◌+◌, ◌-ℤ◌, -ℤ_parts, ◌≡◌, refl, ◌∙◌, sym, String, true, false, Option, none,
  some, List, [], ◌⊎◌, inl, inr, length, arith, Bool-cases, Option-cases, ltb, ltb_ℤ, if◌then◌else◌,
  str_eq,
}
use beam_agents.Base.Dict.{
  lookup, remove, insert_last, IsDistinct, lookup-remove, lookup-remove_other, lookup-insert_last,
  lookup-insert_last_other, same_key,
}
use beam_agents.Wire.{Bytes}
use beam_agents.Model.ReplayCache.{
  ReplayEntry, Entry, ReplayCache, get, touch, remove_entry, is_expired, Codec, new_entry, put,
  staged_entry, blob_cap_bytes, blob_header_size, ttl_ms,
}
use beam_agents.Model.ReplayCache.Accounting.{IsAccounted}
use beam_agents.Model.ReplayCache.Bounds.{IsCompact, put-IsBounded}

abbrev view : Entry → ReplayEntry
view e = record {
  response = e.response;
  response_digest = e.response_digest;
  digest_only = e.digest_only;
}

-- what `get` answers for the entry that is stored
abbrev answer : (now_ms : ℤ) → Option Entry → Option ReplayEntry
unfolding is_expired
answer now_ms none = none
answer now_ms (some e) = if is_expired now_ms e then none else some (view e)

get-answer : (k : String) (c : ReplayCache) → (get k c).0 ≡ answer c.now_ms (lookup k c.entries)
unfolding get
get-answer k c = elim (Option-cases (lookup k c.entries)) [
  | inl gone ↦ rw gone refl
  | inr (e, held) ↦ rw held (elim (Bool-cases (is_expired c.now_ms e)) [
    | inl old ↦ rw old refl
    | inr live ↦ rw live refl
  ])
]

no_age : (now : ℤ) → ltb_ℤ (pos ttl_ms) (now -ℤ now) ≡ false
no_age now = ground (arith, -ℤ_parts now now)

new_entry-live :
    (codec : Codec) (now : ℤ) (k : String) (response : Bytes)
    → is_expired now (new_entry codec now k response) ≡ false
unfolding is_expired new_entry
new_entry-live codec now k response =
    let e = staged_entry codec now k response response false in
    elim (Bool-cases (ltb blob_cap_bytes (blob_header_size (length response) + e.wire_size))) [
      | inl large ↦ rw large (no_age now)
      | inr fits ↦ rw fits (no_age now)
    ]

-- the size of a blob that holds the response's full entry alone
abbrev pub full_size : Codec → (now_ms : ℤ) → String → (response : Bytes) → ℕ
full_size codec now_ms k response =
    blob_header_size (length response)
    + (staged_entry codec now_ms k response response false).wire_size

-- what a lookup answers once a response was put: all of it where it fits alone, its digest otherwise
abbrev pub Kept : Codec → (now_ms : ℤ) → String → (response : Bytes) → Option ReplayEntry → Type 0
Kept codec now_ms k response answered =
    ((full_size codec now_ms k response ≤ blob_cap_bytes)
      × (answered
          ≡ some (record {
            response = response;
            response_digest = codec.sha256 response;
            digest_only = false;
          })))
    ⊎ ((blob_cap_bytes < full_size codec now_ms k response)
        × (answered
            ≡ some (record {
              response = [];
              response_digest = codec.sha256 response;
              digest_only = true;
            })))

new_entry-Kept :
    (codec : Codec) (now : ℤ) (k : String) (response : Bytes)
    → Kept codec now k response (some (view (new_entry codec now k response)))
unfolding new_entry
new_entry-Kept codec now k response =
    elim (Bool-cases (ltb blob_cap_bytes (full_size codec now k response))) [
      | inl large ↦ inr (ground (arith, large), rw large refl)
      | inr fits ↦ inl (ground (arith, fits), rw fits refl)
    ]

-- After `put`, a lookup of the key within the activation hits: it answers the response with its
-- digest where the full entry alone fits the byte cap, and the digest alone where it does not, when
-- the cache's totals are the sums over its entries, digests have 32 bytes and an entry of a digest
-- alone takes at most 255 (`IsCompact`).
pub get-put :
    (codec : Codec) (now : ℤ) (k : String) (response : Bytes) (c : ReplayCache)
    → IsCompact codec now k
    → IsAccounted now c
    → Kept codec now k response (get k (put codec k response c)).0
unfolding answer new_entry
get-put codec now k response c compact h =
    let left = put-IsBounded codec now k compact response c h in
    let hit : (get k (put codec k response c)).0 ≡ some (view (new_entry codec now k response)) =
      get-answer k (put codec k response c)
      ∙ rw (left.accounted.clock, left.kept, new_entry-live codec now k response) refl in
    rw hit (new_entry-Kept codec now k response)

module _ (now : ℤ) (i k : String) (e : Entry) (d : List (String × Entry)) (u : IsDistinct d)
    (held : lookup k d ≡ some e) where
  answer-remove :
      is_expired now e ≡ true → answer now (lookup i (remove k d)) ≡ answer now (lookup i d)
  unfolding answer
  answer-remove old = elim (Bool-cases (str_eq k i)) [
    | inl same ↦
        (let k=i = same_key k i same in rw⁻¹ k=i (rw (lookup-remove k d u, held, old) refl))
    | inr other ↦ rw (lookup-remove_other i k d other) refl
  ]

  answer-touch :
      is_expired now e ≡ false
      → answer now (lookup i (insert_last k (record e { last_access_ms = now }) (remove k d)))
        ≡ answer now (lookup i d)
  unfolding is_expired answer
  answer-touch live =
      let e1 : Entry = record e { last_access_ms = now } in
      elim (Bool-cases (str_eq k i)) [
        | inl same ↦
            (let k=i = same_key k i same in
              rw⁻¹ k=i (rw (lookup-insert_last k e1 (remove k d) (lookup-remove k d u), held) refl))
        | inr other ↦
            rw (lookup-insert_last_other i k e1 (remove k d) other, lookup-remove_other i k d other)
              refl
      ]

-- A lookup leaves every lookup's answer as it was: a hit only refreshes the entry's place, and a
-- miss only drops an entry that is expired.
pub get-get :
    (i k : String) (c : ReplayCache) → IsDistinct c.entries → (get i (get k c).1).0 ≡ (get i c).0
unfolding get remove_entry touch
get-get i k c u =
    get-answer i (get k c).1
    ∙ elim (Option-cases (lookup k c.entries)) [
      | inl gone ↦ rw gone refl
      | inr (e, held) ↦ elim (Bool-cases (is_expired c.now_ms e)) [
        | inl old ↦ rw (held, old, held) (answer-remove c.now_ms i k e c.entries u held old)
        | inr live ↦ rw (held, live) (answer-touch c.now_ms i k e c.entries u held live)
      ]
    ]
    ∙ sym (get-answer i c)
