-- ===== src/Memory/Ring.antt =====
-- The ring encoding read back, and what a write is read as.
use beam_agents.Base.{
  ℕ, zero, suc, ◌/◌, ◌%◌, ◌≤◌, ◌<◌, ◌≡◌, refl, leb, ltb, ◌==◌, String, false, ◌||◌, Option, none,
  some, List, [], ◌∷◌, ◌++◌, length, length-append, take-append, drop-append, All, arith,
  Bool-cases, inl, inr,
}
use beam_agents.Base.Dict.{lookup, remove, lookup-remove, lookup-insert_last}
use beam_agents.Wire.{Bytes}
use beam_agents.Memory.{
  Outcome, done, raised, Entry, Memory, encode_items, encode_ring, decode_items, decode_ring, be32,
  from_be32, last_items, commit, prospective_total, hard_cap_bytes, soft_cap_bytes, kind_ring,
  compute, items_of, Write, touch, appended,
}
use beam_agents.Memory.Calls.{
  append, ring, items, returned, call_memory, call_with, guarded_write, ring_found, ring_reply,
  read_ring, check_ring, value_check, finish_write, maybe_soft_cap,
}
use beam_agents.Memory.Accounting.{IsAccounted}

from_be32-be32 :
    (n : ℕ)
    → n < 4_294_967_296
    → from_be32 (n / 16_777_216 % 256) (n / 65_536 % 256) (n / 256 % 256) (n % 256) ≡ n
from_be32-be32 n small = omega (arith, small)

decode_items-frame :
    (left : ℕ) (x out : Bytes) (xs : List Bytes)
    → length x < 4_294_967_296
    → ((n : ℕ) → length out ≤ n → decode_items n out ≡ done xs)
    → length (be32 (length x) ++ (x ++ out)) ≤ left
    → decode_items left (be32 (length x) ++ (x ++ out)) ≡ done (x ∷ xs)
unfolding decode_items
decode_items-frame zero x out xs small back le = ground (arith, le)
decode_items-frame (suc left) x out xs small back le =
    let size = length-append x out in
    let enough : ltb (length (x ++ out)) (length x) ≡ false = ground (arith, size) in
    rw
      (
        from_be32-be32 (length x) small,
        enough,
        take-append x out,
        drop-append x out,
        back left (omega (arith, le, size)),
      )
      refl

nothing : (left : ℕ) → 0 ≤ left → decode_items left [] ≡ done []
unfolding decode_items
nothing zero le = refl
nothing (suc left) le = refl

encode_items-decode :
    (xs : List Bytes)
    → All (λ x. length x < 4_294_967_296) xs
    → (out : Bytes) × (encode_items xs ≡ done out)
      × ((left : ℕ) → length out ≤ left → decode_items left out ≡ done xs)
unfolding encode_items
encode_items-decode [] small = ([], refl, nothing)
encode_items-decode (x ∷ xs) (first, small) =
    let (out, encoded, back) = encode_items-decode xs small in
    let short : leb 4_294_967_296 (length x) ≡ false = ground (arith, first) in
    (
      be32 (length x) ++ (x ++ out),
      rw (short, encoded) refl,
      λ left le. decode_items-frame left x out xs first back le,
    )

-- Items of fewer than 2^32 bytes each encode, and the ring decodes to the same items: the decoder's
-- loop ends within the number of bytes.
pub decode_ring-encode_ring :
    (xs : List Bytes)
    → All (λ x. length x < 4_294_967_296) xs
    → (out : Bytes) × (encode_ring xs ≡ done (kind_ring ∷ out))
      × (decode_ring (kind_ring ∷ out) ≡ done xs)
unfolding encode_ring decode_ring
decode_ring-encode_ring xs small =
    let (out, same, back) = encode_items-decode xs small in
    (out, rw same refl, back (suc (length out)) (omega arith))

lookup-commit :
    (k : String) (encoded : Bytes) (m : Memory)
    → IsAccounted m
    → lookup k (commit k encoded m).entries
      ≡ some (record { value = encoded; last_access_ms = m.now_ms })
unfolding commit
lookup-commit k encoded m h =
    lookup-insert_last k _ (remove k m.entries) (lookup-remove k m.entries h.distinct)

-- with no compactor, the soft cap changes no entry
soft_cap_entries :
    (m : Memory)
    → ((maybe_soft_cap none m).0 ≡ returned) × ((maybe_soft_cap none m).1.entries ≡ m.entries)
unfolding maybe_soft_cap
soft_cap_entries m = elim (Bool-cases (m.soft_cap_warned || ltb m.total soft_cap_bytes)) [
  | inl quiet ↦ rw quiet (refl, refl)
  | inr loud ↦ rw loud (refl, refl)
]

-- a write that fits, with no compactor, is the commit
guarded_write-fits :
    (w : Write) (k : String) (encoded : Bytes) (m : Memory)
    → compute w k m ≡ done encoded
    → prospective_total k encoded m ≤ hard_cap_bytes
    → ((guarded_write none w k m).0 ≡ returned)
      × ((guarded_write none w k m).1.entries ≡ (commit k encoded m).entries)
unfolding guarded_write finish_write
guarded_write-fits w k encoded m computed le =
    let room : ltb hard_cap_bytes (prospective_total k encoded m) ≡ false = ground (arith, le) in
    rw (computed, room) (soft_cap_entries (commit k encoded m))

-- what `ring` answering `old` says of the entry
ring_entry :
    (k : String) (o : Option Entry) (old : List Bytes) (m : Memory)
    → (ring_found k o m).0 ≡ items old
    → (check_ring k o ≡ none) × (items_of o ≡ done old)
ring_entry k none old m h = ground (arith, h)
ring_entry k (some e) old m h = ring_value e.value h
  where
    ring_reply_items :
        (r : Outcome (List Bytes)) (touched : Memory)
        → (ring_reply r touched m).0 ≡ items old
        → r ≡ done old
    ring_reply_items (done xs) touched h = ground (arith, h)
    ring_reply_items (raised x) touched h = cc

    ring_value :
        (bytes : Bytes)
        → (read_ring k e bytes m).0 ≡ items old
        → (value_check k bytes ≡ none) × (decode_ring bytes ≡ done old)
    ring_value [] h = cc
    ring_value (tag ∷ bytes) h = elim (Bool-cases (tag == kind_ring)) [
      | inl same ↦
          (rw same refl, ring_reply_items (decode_ring (tag ∷ bytes)) (touch k e m) (rw same at h))
      | inr other ↦ (let clash = rw other at h in cc)
    ]

-- With no compactor, an `append` that leaves the memory within its hard cap returns, and the ring
-- then holds the last `max_items` of its old items and the new one.
pub ring-append :
    (k : String) (item : Bytes) (max_items : ℕ) (old : List Bytes) (m : Memory)
    → IsAccounted m
    → (call_memory none (ring k) m).0 ≡ items old
    → All (λ x. length x < 4_294_967_296) (last_items max_items (old ++ item ∷ []))
    → ((encoded : Bytes)
        → encode_ring (last_items max_items (old ++ item ∷ [])) ≡ done encoded
        → prospective_total k encoded m ≤ hard_cap_bytes)
    → ((call_memory none (append k item max_items) m).0 ≡ returned)
      × ((call_memory none (ring k) (call_memory none (append k item max_items) m).1).0
          ≡ items (last_items max_items (old ++ item ∷ [])))
unfolding call_memory call_with compute
ring-append k item max_items old m h held small room =
    let after = last_items max_items (old ++ item ∷ []) in
    let (checked, decoded) = ring_entry k (lookup k m.entries) old m held in
    let (out, same, back) = decode_ring-encode_ring after small in
    let encoded = kind_ring ∷ out in
    let computed : compute (appended item max_items) k m ≡ done encoded = rw decoded same in
    let (ok, kept) =
      guarded_write-fits (appended item max_items) k encoded m computed (room encoded same) in
    rw checked (ok, rw (kept, lookup-commit k encoded m h, back) refl)
