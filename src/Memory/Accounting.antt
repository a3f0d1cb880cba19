-- ===== src/Memory/Accounting.antt =====
-- The size counter of the working memory is the sum over its entries, and its hard cap holds,
-- after every method, failing ones and the compactor's own calls included.
use beam_agents.Base.{
  ℕ, ◌+◌, ◌-◌, ◌≡◌, ◌==◌, String, true, some, List, [], ◌∷◌, length, arith, Option-cases,
  Bool-cases, inl, inr,
}
use beam_agents.Base.Dict.{
  lookup, remove, weight, IsDistinct, lookup-remove, IsDistinct-remove, weight-remove,
  weight-insert_last, IsDistinct-insert_last, remove_absent,
}
use beam_agents.Wire.{Bytes}
use beam_agents.Memory.{
  Outcome, done, raised, Entry, Memory, touch, commit, old_len, compute, Write, decode_ring,
  kind_scalar, kind_ring,
}
use beam_agents.Memory.Calls.{
  Op, get, delete, ring, entry_size, set, append, keys, size_bytes, Reply, call_with, free_write,
  Strategy, finish, fail, call, run_compactor, ring_reply, write_computed, read_scalar, read_ring,
  check_ring,
}

abbrev pub value_len : Entry → ℕ
value_len e = length e.value

pub record IsAccounted (m : Memory) : Type 0 where
  pub distinct : IsDistinct m.entries
  pub sized : m.total ≡ weight value_len m.entries

pub touch-IsAccounted :
    (k : String) (e : Entry) (m : Memory)
    → lookup k m.entries ≡ some e
    → IsAccounted m
    → IsAccounted (touch k e m)
unfolding touch
touch-IsAccounted k e m held h =
    let e1 : Entry = record e { last_access_ms = m.now_ms } in
    let rest = remove k m.entries in
    record {
      distinct =
          IsDistinct-insert_last k e1 rest (lookup-remove k m.entries h.distinct)
            (IsDistinct-remove k m.entries h.distinct);
      sized = omega (
        arith,
        h.sized,
        weight-remove value_len k e m.entries held,
        weight-insert_last value_len k e1 rest,
      );
    }

-- the memory that `delete` leaves
abbrev pub without : String → Entry → Memory → Memory
without k e m = record m {
  entries = remove k m.entries;
  total = m.total - length e.value;
  dirty = true;
}

pub without-IsAccounted :
    (k : String) (e : Entry) (m : Memory)
    → lookup k m.entries ≡ some e
    → IsAccounted m
    → IsAccounted (without k e m)
without-IsAccounted k e m held h = record {
  distinct = IsDistinct-remove k m.entries h.distinct;
  sized = omega (arith, h.sized, weight-remove value_len k e m.entries held);
}

-- what is left of the total without the value of `k`
pub weight-without :
    (k : String) (m : Memory)
    → IsAccounted m
    → weight value_len (remove k m.entries) + old_len (lookup k m.entries) ≡ m.total
weight-without k m h = elim (Option-cases (lookup k m.entries)) [
  | inl gone ↦ rw (gone, remove_absent k m.entries gone) (omega (arith, h.sized))
  | inr (e, held) ↦ rw held (omega (arith, h.sized, weight-remove value_len k e m.entries held))
]

pub commit-IsAccounted :
    (k : String) (encoded : Bytes) (m : Memory) → IsAccounted m → IsAccounted (commit k encoded m)
unfolding commit
commit-IsAccounted k encoded m h =
    let e : Entry = record { value = encoded; last_access_ms = m.now_ms } in
    let rest = remove k m.entries in
    record {
      distinct =
          IsDistinct-insert_last k e rest (lookup-remove k m.entries h.distinct)
            (IsDistinct-remove k m.entries h.distinct);
      sized = omega (arith, weight-without k m h, weight-insert_last value_len k e rest);
    }

-- what the methods that write nothing keep
pub record IsClosed (P : Memory → Type 0) : Type 0 where
  pub touched :
      (k : String) (e : Entry) (m : Memory) → lookup k m.entries ≡ some e → P m → P (touch k e m)
  pub deleted :
      (k : String) (e : Entry) (m : Memory) → lookup k m.entries ≡ some e → P m → P (without k e m)

module _ (P : Memory → Type 0) (closed : IsClosed P)
    (write : Write → String → Memory → Reply × Memory)
    (kept : (w : Write) (k : String) (m : Memory) → P m → P (write w k m).1) where
  scalar-kept :
      (k : String) (e : Entry) (bytes : Bytes) (m : Memory)
      → lookup k m.entries ≡ some e
      → P m
      → P (read_scalar k e bytes m).1
  scalar-kept k e [] m held p = p
  scalar-kept k e (tag ∷ bytes) m held p = elim (Bool-cases (tag == kind_scalar)) [
    | inl same ↦ rw same (closed.touched k e m held p)
    | inr other ↦ rw other p
  ]

  ring_reply-kept :
      (xs : Outcome (List Bytes)) (touched m : Memory)
      → P m
      → P touched
      → P (ring_reply xs touched m).1
  ring_reply-kept (done xs) touched m p q = q
  ring_reply-kept (raised e) touched m p q = p

  ring-kept :
      (k : String) (e : Entry) (bytes : Bytes) (m : Memory)
      → lookup k m.entries ≡ some e
      → P m
      → P (read_ring k e bytes m).1
  ring-kept k e [] m held p = p
  ring-kept k e (tag ∷ bytes) m held p = elim (Bool-cases (tag == kind_ring)) [
    | inl same ↦ rw same (
        ring_reply-kept (decode_ring (tag ∷ bytes)) (touch k e m) m p (closed.touched k e m held p))
    | inr other ↦ rw other p
  ]

  pub call_with-kept : (op : Op) (m : Memory) → P m → P (call_with write op m).1
  unfolding call_with
  call_with-kept (get k) m p = elim (Option-cases (lookup k m.entries)) [
    | inl gone ↦ rw gone p
    | inr (e, held) ↦ rw held (scalar-kept k e e.value m held p)
  ]
  call_with-kept (ring k) m p = elim (Option-cases (lookup k m.entries)) [
    | inl gone ↦ rw gone p
    | inr (e, held) ↦ rw held (ring-kept k e e.value m held p)
  ]
  call_with-kept (delete k) m p = elim (Option-cases (lookup k m.entries)) [
    | inl gone ↦ rw gone p
    | inr (e, held) ↦ rw held (closed.deleted k e m held p)
  ]
  call_with-kept (entry_size k) m p = elim (Option-cases (lookup k m.entries)) [
    | inl gone ↦ rw gone p
    | inr (e, held) ↦ rw held p
  ]
  call_with-kept (set k bytes) m p = kept _ k m p
  call_with-kept (append k item max_items) m p =
      elim (Option-cases (check_ring k (lookup k m.entries))) [
        | inl fine ↦ rw fine (kept _ k m p)
        | inr (e, bad) ↦ rw bad p
      ]
  call_with-kept keys m p = p
  call_with-kept size_bytes m p = p

pub record IsKept (P : Memory → Type 0) (s : Strategy) : Type 0 where
  pub kept : (m : Memory) → P m → P (run_compactor s m).1

free_write-IsAccounted :
    (w : Write) (k : String) (m : Memory) → IsAccounted m → IsAccounted (free_write w k m).1
unfolding free_write
free_write-IsAccounted w k m h = computed (compute w k m)
  where
    computed : (r : Outcome Bytes) → IsAccounted (write_computed r k m).1
    computed (done encoded) = commit-IsAccounted k encoded m h
    computed (raised e) = h

pub accounted_closed : IsClosed IsAccounted
accounted_closed = record { touched = touch-IsAccounted; deleted = without-IsAccounted }

-- Whatever methods a compactor calls, the counter stays the sum.
pub run_compactor-IsAccounted :
    (s : Strategy) (m : Memory) → IsAccounted m → IsAccounted (run_compactor s m).1
unfolding run_compactor
run_compactor-IsAccounted finish m h = h
run_compactor-IsAccounted (fail text) m h = h
run_compactor-IsAccounted (call op next) m h =
    run_compactor-IsAccounted (next (call_with free_write op m).0) (call_with free_write op m).1
      (call_with-kept IsAccounted accounted_closed free_write free_write-IsAccounted op m h)
