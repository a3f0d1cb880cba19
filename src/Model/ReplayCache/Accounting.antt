-- ===== src/Model/ReplayCache/Accounting.antt =====
-- The running totals of a replay cache are the sums over its entries, after every operation.
use beam_agents.Base.{
  ℕ, ℤ, ◌≡◌, refl, String, true, none, some, List, [], ◌∷◌, length, arith, Bool-cases, Option-cases,
  inl, inr,
}
use beam_agents.Base.Dict.{
  lookup, remove, insert_last, weight, IsDistinct, lookup-remove, IsDistinct-remove, weight-remove,
  weight-insert_last, IsDistinct-insert_last,
}
use beam_agents.Model.ReplayCache.{
  Entry, ReplayCache, remove_entry, remove_keys, purge_expired, expired_keys, touch, is_expired,
  get, inserted,
}

abbrev pub response_len : Entry → ℕ
response_len e = length e.response

abbrev pub wire_len : Entry → ℕ
wire_len e = e.wire_size

pub record IsAccounted (now_ms : ℤ) (c : ReplayCache) : Type 0 where
  pub clock : c.now_ms ≡ now_ms
  pub distinct : IsDistinct c.entries
  pub responses : c.response_total ≡ weight response_len c.entries
  pub wire : c.entries_wire_total ≡ weight wire_len c.entries

dirtied :
    {now : ℤ} (c : ReplayCache) → IsAccounted now c → IsAccounted now (record c { dirty = true })
dirtied c h = record {
  clock = h.clock;
  distinct = h.distinct;
  responses = h.responses;
  wire = h.wire;
}

pub remove_entry-IsAccounted :
    {now : ℤ} (k : String) (c : ReplayCache)
    → IsAccounted now c
    → IsAccounted now (remove_entry k c)
unfolding remove_entry
remove_entry-IsAccounted k c h = elim (Option-cases (lookup k c.entries)) [
  | inl gone ↦ rw gone h
  | inr (e, held) ↦ rw held (record {
    clock = h.clock;
    distinct = IsDistinct-remove k c.entries h.distinct;
    responses = omega (arith, h.responses, weight-remove response_len k e c.entries held);
    wire = omega (arith, h.wire, weight-remove wire_len k e c.entries held);
  })
]

pub remove_keys-IsAccounted :
    {now : ℤ} (ks : List String) (c : ReplayCache)
    → IsAccounted now c
    → IsAccounted now (remove_keys ks c)
unfolding remove_keys
remove_keys-IsAccounted [] c h = h
remove_keys-IsAccounted (k ∷ ks) c h =
    remove_keys-IsAccounted ks (record (remove_entry k c) { dirty = true })
      (dirtied (remove_entry k c) (remove_entry-IsAccounted k c h))

pub purge_expired-IsAccounted :
    {now : ℤ} (c : ReplayCache) → IsAccounted now c → IsAccounted now (purge_expired c)
unfolding purge_expired
purge_expired-IsAccounted c h = remove_keys-IsAccounted (expired_keys c.now_ms c.entries) c h

pub touch-IsAccounted :
    {now : ℤ} (k : String) (e : Entry) (c : ReplayCache)
    → lookup k c.entries ≡ some e
    → IsAccounted now c
    → IsAccounted now (touch k e c)
unfolding touch
touch-IsAccounted k e c held h =
    let e1 : Entry = record e { last_access_ms = c.now_ms } in
    let rest = remove k c.entries in
    record {
      clock = h.clock;
      distinct =
          IsDistinct-insert_last k e1 rest (lookup-remove k c.entries h.distinct)
            (IsDistinct-remove k c.entries h.distinct);
      responses = omega (
        arith,
        h.responses,
        weight-remove response_len k e c.entries held,
        weight-insert_last response_len k e1 rest,
      );
      wire = omega (
        arith,
        h.wire,
        weight-remove wire_len k e c.entries held,
        weight-insert_last wire_len k e1 rest,
      );
    }

-- `get` keeps the cache's totals equal to the sums over its entries, and its keys distinct.
pub get-IsAccounted :
    {now : ℤ} (k : String) (c : ReplayCache) → IsAccounted now c → IsAccounted now (get k c).1
unfolding get
get-IsAccounted k c h = elim (Option-cases (lookup k c.entries)) [
  | inl gone ↦ rw gone h
  | inr (e, held) ↦ rw held (elim (Bool-cases (is_expired c.now_ms e)) [
    | inl old ↦ rw old (dirtied (remove_entry k c) (remove_entry-IsAccounted k c h))
    | inr live ↦ rw live (touch-IsAccounted k e c held h)
  ])
]

lookup-remove_entry :
    (k : String) (c : ReplayCache)
    → IsDistinct c.entries
    → lookup k (remove_entry k c).entries ≡ none
unfolding remove_entry
lookup-remove_entry k c u = elim (Option-cases (lookup k c.entries)) [
  | inl gone ↦ rw gone gone
  | inr (e, held) ↦ rw held (lookup-remove k c.entries u)
]

-- the entries before the last, where `k` was inserted last with `e`
pub record EndsWith (now_ms : ℤ) (k : String) (e : Entry) (c : ReplayCache) : Type 0 where
  pub older : List (String × Entry)
  pub shape : c.entries ≡ insert_last k e older
  pub absent : lookup k older ≡ none
  pub accounted : IsAccounted now_ms c

pub inserted-EndsWith :
    {now : ℤ} (k : String) (e : Entry) (c : ReplayCache)
    → IsAccounted now c
    → EndsWith now k e (inserted k e c)
unfolding inserted
inserted-EndsWith k e c h =
    let c1 = remove_entry k c in
    let h1 = remove_entry-IsAccounted k c h in
    let absent = lookup-remove_entry k c h.distinct in
    record {
      older = c1.entries;
      shape = refl;
      absent = absent;
      accounted = record {
        clock = h1.clock;
        distinct = IsDistinct-insert_last k e c1.entries absent h1.distinct;
        responses = omega (arith, h1.responses, weight-insert_last response_len k e c1.entries);
        wire = omega (arith, h1.wire, weight-insert_last wire_len k e c1.entries);
      };
    }
