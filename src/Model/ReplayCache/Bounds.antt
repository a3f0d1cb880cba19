-- ===== src/Model/ReplayCache/Bounds.antt =====
-- What `put` of a replay cache leaves: both caps hold, and the new entry is kept.
use beam_agents.Base.{
  ℕ, zero, suc, ◌+◌, ◌/◌, ◌≤◌, ◌≡◌, refl, ap, ◌∙◌, sym, String, true, false, none, some, List, [],
  ◌∷◌, length, length-append, arith, Bool-cases, ltb, uncons, ◌⊎◌, inl, inr, eq_refl, ℤ,
}
use beam_agents.Base.Dict.{
  lookup, insert_last, weight_none, weight, lookup-insert_last, weight-insert_last, remove,
}
use beam_agents.Wire.{Bytes}
use beam_agents.Model.ReplayCache.{
  max_entries, blob_cap_bytes, Entry, ReplayCache, evict_least_recently_used, remove_entry,
  evict_head, evict_over_count, evict_over_bytes, evict_all, prospective_blob_size,
  blob_header_size, varint_len, varint_rounds, Codec, entry_wire_size, new_entry, put, entry_proto,
  purge_expired, inserted, staged_entry,
}
use beam_agents.Model.ReplayCache.Accounting.{
  response_len, wire_len, IsAccounted, remove_entry-IsAccounted, purge_expired-IsAccounted,
  EndsWith, inserted-EndsWith,
}

evict-entries :
    (j : String) (w : Entry) (rest : List (String × Entry)) (c : ReplayCache)
    → c.entries ≡ (j, w) ∷ rest
    → (evict_least_recently_used c).entries ≡ rest
unfolding evict_least_recently_used remove_entry lookup remove
evict-entries j w rest c shape = rw (shape, eq_refl j, eq_refl j) refl

evict-IsAccounted :
    {now : ℤ} (j : String) (w : Entry) (rest : List (String × Entry)) (c : ReplayCache)
    → c.entries ≡ (j, w) ∷ rest
    → IsAccounted now c
    → IsAccounted now (evict_least_recently_used c)
unfolding evict_least_recently_used remove_entry
evict-IsAccounted j w rest c shape h =
    let at_head : evict_least_recently_used c ≡ remove_entry j c = ap (λ d. evict_head d c) shape in
    rw at_head (remove_entry-IsAccounted j c h)

length-insert_last :
    (k : String) (e : Entry) (older : List (String × Entry))
    → length (insert_last k e older) ≡ suc (length older)
unfolding insert_last
length-insert_last k e older = omega (arith, length-append older ((k, e) ∷ []))

abbrev FewEnough : ReplayCache → ℕ → Type 0
FewEnough c n = suc n ≤ max_entries

abbrev SmallEnough : ReplayCache → ℕ → Type 0
unfolding prospective_blob_size
SmallEnough c n = (n ≡ 0) ⊎ (prospective_blob_size c ≤ blob_cap_bytes)

module _ (now : ℤ) (k : String) (e : Entry) where
  evicted :
      (j : String) (w : Entry) (rest : List (String × Entry)) (c : ReplayCache)
      (t : EndsWith now k e c)
      → t.older ≡ (j, w) ∷ rest
      → EndsWith now k e (evict_least_recently_used c)
  unfolding insert_last lookup
  evicted j w rest c t shape =
      let whole : c.entries ≡ (j, w) ∷ insert_last k e rest =
        t.shape ∙ ap (insert_last k e) shape in
      let gone : lookup k ((j, w) ∷ rest) ≡ none = sym (ap (lookup k) shape) ∙ t.absent in
      record {
        older = rest;
        shape = evict-entries j w (insert_last k e rest) c whole;
        absent = ground (arith, gone);
        accounted = evict-IsAccounted j w (insert_last k e rest) c whole t.accounted;
      }

  -- the loops leave `EndsWith`, at most as many older entries, and what each is run for
  record Settled (P : ReplayCache → ℕ → Type 0) (most : ℕ) (c : ReplayCache) : Type 0 where
    ends : EndsWith now k e c
    shorter : length ends.older ≤ most
    done : P c (length ends.older)

  size_of : (c : ReplayCache) (t : EndsWith now k e c) → length c.entries ≡ suc (length t.older)
  size_of c t = ap length t.shape ∙ length-insert_last k e t.older

  settled :
      (P : ReplayCache → ℕ → Type 0) (most : ℕ) (c : ReplayCache) (t : EndsWith now k e c)
      → length t.older ≤ most
      → P c (length t.older)
      → Settled P most c
  settled P most c t le p = record { ends = t; shorter = le; done = p }

  weaker :
      (P : ReplayCache → ℕ → Type 0) {m n : ℕ} {c : ReplayCache}
      → m ≤ n
      → Settled P m c
      → Settled P n c
  weaker P {m} {n} {c} le h = record {
    ends = h.ends;
    shorter = omega (arith, h.shorter, le);
    done = h.done;
  }

  -- one more round of a loop
  stepped :
      (P : ReplayCache → ℕ → Type 0) (left : ℕ) (loop : ReplayCache → ReplayCache)
      → ((c : ReplayCache) (t : EndsWith now k e c)
          → length t.older ≤ left
          → Settled P (length t.older) (loop c))
      → (c : ReplayCache) (t : EndsWith now k e c) → length t.older ≤ suc left
      → 1 ≤ length t.older
      → Settled P (length t.older) (loop (evict_least_recently_used c))
  unfolding evicted
  stepped P left loop ih c t le more =
      let ((j, w), rest, shape) = uncons t.older more in
      let next = evicted j w rest c t shape in
      let one : length t.older ≡ suc (length rest) = ap length shape in
      weaker P (omega (arith, one)) (ih (evict_least_recently_used c) next (omega (arith, one, le)))

  over_count :
      (left : ℕ) (c : ReplayCache) (t : EndsWith now k e c)
      → length t.older ≤ left
      → Settled FewEnough (length t.older) (evict_over_count left c)
  unfolding evict_over_count
  over_count zero c t le = settled FewEnough _ c t (omega arith) (omega (arith, le))
  over_count (suc left) c t le = elim (Bool-cases (ltb max_entries (length c.entries))) [
    | inl many ↦ rw many (
        stepped FewEnough left (evict_over_count left) (over_count left) c t le
          (ground (arith, many, size_of c t)))
    | inr few ↦ rw few (settled FewEnough _ c t (omega arith) (ground (arith, few, size_of c t)))
  ]

  over_bytes :
      (left : ℕ) (c : ReplayCache) (t : EndsWith now k e c)
      → length t.older ≤ left
      → Settled SmallEnough (length t.older) (evict_over_bytes left c)
  unfolding evict_over_bytes
  over_bytes zero c t le = settled SmallEnough _ c t (omega arith) (inl (omega (arith, le)))
  over_bytes (suc left) c t le = elim (Bool-cases (ltb 1 (length c.entries))) [
    | inr single ↦
        rw single
          (settled SmallEnough _ c t (omega arith) (inl (ground (arith, single, size_of c t))))
    | inl many ↦ rw many (elim (Bool-cases (ltb blob_cap_bytes (prospective_blob_size c))) [
      | inr fits ↦ rw fits (settled SmallEnough _ c t (omega arith) (inr (ground (arith, fits))))
      | inl over ↦ rw over (
          stepped SmallEnough left (evict_over_bytes left) (over_bytes left) c t le
            (ground (arith, many, size_of c t)))
    ])
  ]

varint_rounds-le : (left value : ℕ) → varint_rounds left value ≤ suc (value / 128)
unfolding varint_rounds
varint_rounds-le zero value = omega arith
varint_rounds-le (suc left) value = ground (arith, varint_rounds-le left (value / 128))

-- What is documented of the two libraries, for a key `k` of 64 characters: a SHA-256 digest has 32
-- bytes, and protobuf serializes a digest-only entry of such a digest, with its two times and its
-- flag, in fewer than 256 bytes.
abbrev pub IsCompact : Codec → ℤ → String → Type 0
IsCompact codec now_ms k =
    ((b : Bytes) → length (codec.sha256 b) ≡ 32)
    × ((digest : Bytes)
        → length digest ≡ 32
        → codec.byte_size (record {
          cache_key = k;
          response = [];
          response_digest = digest;
          created_at_ms = now_ms;
          last_access_ms = now_ms;
          digest_only = true;
        })
          ≤ 255)

module _ (codec : Codec) (now : ℤ) (k : String) (compact : IsCompact codec now k) where
  new_entry-fits :
      (response : Bytes)
      → blob_header_size (response_len (new_entry codec now k response))
          + wire_len (new_entry codec now k response)
        ≤ blob_cap_bytes
  unfolding new_entry entry_wire_size blob_header_size varint_len
  new_entry-fits response =
      let e = staged_entry codec now k response response false in
      elim (Bool-cases (ltb blob_cap_bytes (blob_header_size (length response) + e.wire_size))) [
        | inl large ↦ rw large (
            let size =
              codec.byte_size (entry_proto k (staged_entry codec now k [] response true)) in
            omega (
              arith,
              varint_rounds-le size size,
              compact.1 (codec.sha256 response) (compact.0 response),
            ))
        | inr fits ↦ rw fits (ground (arith, fits))
      ]

  -- what holds of a cache that `put` left
  pub record IsBounded (e : Entry) (c : ReplayCache) : Type 0 where
    pub few : length c.entries ≤ max_entries
    pub small : prospective_blob_size c ≤ blob_cap_bytes
    pub kept : lookup k c.entries ≡ some e
    pub accounted : IsAccounted now c

  alone :
      (response : Bytes) (c : ReplayCache) (t : EndsWith now k (new_entry codec now k response) c)
      → length t.older ≡ 0
      → prospective_blob_size c ≤ blob_cap_bytes
  unfolding prospective_blob_size
  alone response c t none_older =
      let e = new_entry codec now k response in
      let lone : (f : Entry → ℕ) → weight f c.entries ≡ f e = λ f. omega (
        arith,
        ap (weight f) t.shape,
        weight-insert_last f k e t.older,
        weight_none f t.older none_older,
      ) in
      rw (t.accounted.responses ∙ lone response_len, t.accounted.wire ∙ lone wire_len)
        (new_entry-fits response)

  evict_all-IsBounded :
      (response : Bytes) (c : ReplayCache)
      → EndsWith now k (new_entry codec now k response) c
      → IsBounded (new_entry codec now k response) (evict_all c)
  unfolding evict_over_count evict_over_bytes
  evict_all-IsBounded response c t =
      let e = new_entry codec now k response in
      let c1 = evict_over_count (length c.entries) c in
      let counted =
        over_count now k e (length c.entries) c t (omega (arith, size_of now k e c t)) in
      let bytes =
        over_bytes now k e (length c1.entries) c1 counted.ends
          (omega (arith, size_of now k e c1 counted.ends)) in
      let c2 = evict_over_bytes (length c1.entries) c1 in
      record {
        few = omega (arith, size_of now k e c2 bytes.ends, bytes.shorter, counted.done);
        small = elim bytes.done [
          | inl single ↦ alone response c2 bytes.ends single
          | inr fits ↦ fits
        ];
        kept =
            ap (lookup k) bytes.ends.shape
            ∙ lookup-insert_last k e bytes.ends.older bytes.ends.absent;
        accounted = bytes.ends.accounted;
      }

  -- `put` on a cache whose totals are the sums over its entries keeps them so, and leaves at most
  -- 64 entries, the header and the sizes recorded of the entries together within the byte cap, and
  -- the response's entry under its key, when digests have 32 bytes and an entry of a digest alone
  -- takes at most 255 (`IsCompact`).
  pub put-IsBounded :
      (response : Bytes) (c : ReplayCache)
      → IsAccounted now c
      → IsBounded (new_entry codec now k response) (put codec k response c)
  unfolding put
  put-IsBounded response c h =
      let c1 = purge_expired c in
      let h1 = purge_expired-IsAccounted c h in
      rw h1.clock (
        evict_all-IsBounded response (inserted k (new_entry codec now k response) c1)
          (inserted-EndsWith k (new_entry codec now k response) c1 h1))
