-- ===== src/Model/ReplayCache/Blob.antt =====
-- The blob of a replay cache, loaded and written again; the length of a varint.
use native.Mathlib.Omega.{pow_step}
use beam_agents.Base.{
  ℕ, zero, suc, ℤ, ◌+◌, ◌*◌, ◌/◌, ◌^◌, ◌≤◌, ◌<◌, ◌≡◌, refl, ap, ◌∙◌, sym, String, none, some, List,
  [], ◌∷◌, ◌++◌, length, arith, ltb, eq_refl, Bool-cases, inl, inr,
}
use beam_agents.Base.Dict.{
  lookup, insert_last, store, store_absent, IsDistinct-tail, weight, IsDistinct, IsApart,
  IsApart-insert_last,
}
use beam_agents.Model.ReplayCache.{
  Entry, ReplayCache, Codec, load_entries, replay_cache, blank_cache, entry_protos, entry_proto,
  to_blob, sized, entry_wire_size, varint_rounds, varint_len,
}
use beam_agents.Model.ReplayCache.Accounting.{response_len, IsAccounted}

-- an entry as `__init__` loads it again
abbrev reloaded : Codec → String → Entry → Entry
unfolding entry_wire_size
reloaded codec k e = sized codec k (record e { wire_size = 0 })

entry_protos-insert_last :
    (k : String) (e : Entry) (d : List (String × Entry))
    → entry_protos (insert_last k e d) ≡ entry_protos d ++ entry_proto k e ∷ []
unfolding insert_last
entry_protos-insert_last k e [] = refl
entry_protos-insert_last k e ((j, w) ∷ d) =
    ap (λ ps. entry_proto j w ∷ ps) (entry_protos-insert_last k e d)

append_nil {ℓ} : {A : Type ℓ} (xs : List A) → xs ++ [] ≡ xs
append_nil [] = refl
append_nil (x ∷ xs) = ap (λ r. x ∷ r) (append_nil xs)

append_assoc {ℓ} : {A : Type ℓ} (xs ys zs : List A) → (xs ++ ys) ++ zs ≡ xs ++ (ys ++ zs)
append_assoc [] ys zs = refl
append_assoc (x ∷ xs) ys zs = ap (λ r. x ∷ r) (append_assoc xs ys zs)

load_entries-protos :
    (codec : Codec) (d : List (String × Entry)) (c : ReplayCache)
    → IsDistinct d
    → IsApart d c.entries
    → (entry_protos (load_entries codec (entry_protos d) c).entries
        ≡ entry_protos c.entries ++ entry_protos d)
      × ((load_entries codec (entry_protos d) c).response_total
          ≡ c.response_total + weight response_len d)
unfolding load_entries weight lookup
load_entries-protos codec [] c u a = (sym (append_nil (entry_protos c.entries)), omega arith)
load_entries-protos codec ((k, e) ∷ d) c distinct a =
    let (new, u) = IsDistinct-tail k e d distinct in
    let e1 = reloaded codec k e in
    let absent : lookup k c.entries ≡ none = a.apart k (ground (arith, eq_refl k)) in
    let stored = store_absent k e1 c.entries absent in
    let c1 : ReplayCache = record c {
      entries = store k e1 c.entries;
      response_total = c.response_total + length e.response;
      entries_wire_total = c.entries_wire_total + e1.wire_size;
    } in
    let a1 : IsApart d c1.entries = rw stored (IsApart-insert_last k e e1 d c.entries new a) in
    let (protos, total) = load_entries-protos codec d c1 u a1 in
    (
      protos
          ∙ (rw (stored, entry_protos-insert_last k e1 c.entries)
              (append_assoc (entry_protos c.entries) (entry_proto k e ∷ []) (entry_protos d))),
      omega (arith, total),
    )

nil-IsApart : (d : List (String × Entry)) → IsApart d []
unfolding lookup
nil-IsApart d = record { apart = λ j held. refl }

-- The blob that an activation commits is the blob that the next one writes when it only loads it:
-- the entries in the same order, and their total.
pub to_blob-replay_cache :
    (codec : Codec) (c : ReplayCache) (written later : ℤ)
    → IsAccounted written c
    → to_blob (replay_cache codec (some (to_blob c)) later) ≡ to_blob c
unfolding to_blob replay_cache
to_blob-replay_cache codec c written later h =
    let (protos, total) =
      load_entries-protos codec c.entries (blank_cache later) h.distinct (nil-IsApart c.entries) in
    let same_total : (load_entries codec (entry_protos c.entries)
          (blank_cache later)).response_total
        ≡ c.response_total =
      omega (arith, total, h.responses) in
    rw (protos, same_total) refl

rounds-upper : (left value : ℕ) → value ≤ left → value < 128 ^ varint_rounds left value
unfolding varint_rounds
rounds-upper zero value le = omega (arith, le)
rounds-upper (suc left) value le = elim (Bool-cases (ltb value 128)) [
  | inl small ↦ rw small (ground (arith, small))
  | inr large ↦ rw large (
      let high : 128 ≤ value = ground (arith, large) in
      omega (
        arith,
        pow_step 128 (varint_rounds left (value / 128)),
        rounds-upper left (value / 128) (omega (arith, high, le)),
        high,
      ))
]

rounds-lower : (left value : ℕ) → 1 ≤ value → 128 ^ varint_rounds left value ≤ 128 * value
unfolding varint_rounds
rounds-lower zero value ge = omega (arith, ge)
rounds-lower (suc left) value ge = elim (Bool-cases (ltb value 128)) [
  | inl small ↦ rw small (omega (arith, ge))
  | inr large ↦ rw large (
      let high : 128 ≤ value = ground (arith, large) in
      omega (
        arith,
        pow_step 128 (varint_rounds left (value / 128)),
        rounds-lower left (value / 128) (omega (arith, high)),
        high,
      ))
]

-- `_varint_len` of a positive number is the number of its base-128 digits, and its loop ends
-- within the bound that the model gives it.
pub varint_len-exact :
    (value : ℕ)
    → 1 ≤ value
    → (value < 128 ^ varint_len value) × (128 ^ varint_len value ≤ 128 * value)
unfolding varint_len
varint_len-exact value ge = (rounds-upper value value (omega arith), rounds-lower value value ge)
