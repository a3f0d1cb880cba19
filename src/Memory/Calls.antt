-- ===== src/Memory/Calls.antt =====
-- The methods of `Memory` as the agent and a compactor call them, with the caps.
use beam_agents.Base.{
  ℕ, ◌+◌, ◌-◌, ltb, ◌==◌, String, true, ◌||◌, Option, none, some, List, [], ◌∷◌, length,
  if◌then◌else◌,
}
use beam_agents.Base.Dict.{lookup, remove}
use beam_agents.Wire.{Bytes}
use beam_agents.Memory.{
  MemoryError, memory_overflow, holds_a_ring, holds_a_scalar, key_error, empty_value,
  compactor_error, Outcome, done, raised, Entry, Memory, hard_cap_bytes, soft_cap_bytes,
  kind_scalar, kind_ring, touch, decode_ring, Write, scalar, appended, compute, commit,
  prospective_total,
}

-- the methods, by name and arguments
pub data Op : Type 0 where
  get delete ring entry_size : String → Op
  set : String → Bytes → Op
  append : String → (item : Bytes) → (max_items : ℕ) → Op
  keys size_bytes : Op

-- what a method returns or raises
pub data Reply : Type 0 where
  value : Option Bytes → Reply
  items : List Bytes → Reply
  names : List String → Reply
  number : ℕ → Reply
  returned : Reply
  refused : MemoryError → Reply

abbrev pub key_names : List (String × Entry) → List String
key_names [] = []
key_names ((k, e) ∷ d) = k ∷ key_names d

-- `get` and `ring` of the entry that is stored, by its kind tag
abbrev pub read_scalar : String → Entry → Bytes → Memory → Reply × Memory
read_scalar k e [] m = (refused empty_value, m)
read_scalar k e (tag ∷ bytes) m =
    if tag == kind_scalar then (value (some bytes), touch k e m) else (refused (holds_a_ring k), m)

abbrev pub ring_reply : Outcome (List Bytes) → Memory → Memory → Reply × Memory
ring_reply (done xs) touched m = (items xs, touched)
ring_reply (raised e) touched m = (refused e, m)

abbrev pub read_ring : String → Entry → Bytes → Memory → Reply × Memory
read_ring k e [] m = (refused empty_value, m)
read_ring k e (tag ∷ bytes) m =
    if tag == kind_ring
    then ring_reply (decode_ring (tag ∷ bytes)) (touch k e m) m
    else (refused (holds_a_scalar k), m)

-- the check that `append` makes before it writes
abbrev pub value_check : String → Bytes → Option MemoryError
value_check k [] = some empty_value
value_check k (tag ∷ bytes) = if tag == kind_ring then none else some (holds_a_scalar k)

abbrev pub check_ring : String → Option Entry → Option MemoryError
check_ring k none = none
check_ring k (some e) = value_check k e.value

-- what a write does once its value is computed
abbrev pub Writer : Type 0
Writer = Write → String → Memory → Reply × Memory

-- each method, by the entry that is stored under its key
abbrev pub get_found : String → Option Entry → Memory → Reply × Memory
get_found k none m = (value none, m)
get_found k (some e) m = read_scalar k e e.value m

abbrev pub ring_found : String → Option Entry → Memory → Reply × Memory
ring_found k none m = (items [], m)
ring_found k (some e) m = read_ring k e e.value m

abbrev pub delete_found : String → Option Entry → Memory → Reply × Memory
delete_found k none m = (returned, m)
delete_found k (some e) m = (
  returned,
  record m { entries = remove k m.entries; total = m.total - length e.value; dirty = true },
)

abbrev pub entry_size_found : String → Option Entry → Memory → Reply × Memory
entry_size_found k none m = (refused (key_error k), m)
entry_size_found k (some e) m = (number (length e.value), m)

abbrev pub append_checked :
    Writer → String → Bytes → ℕ → Option MemoryError → Memory → Reply × Memory
append_checked write k item max_items none m = write (appended item max_items) k m
append_checked write k item max_items (some e) m = (refused e, m)

-- the methods, over a `_guarded_write`
unfoldable pub call_with : Writer → Op → Memory → Reply × Memory
unfolding lookup remove touch decode_ring
call_with write (get k) m = get_found k (lookup k m.entries) m
call_with write (ring k) m = ring_found k (lookup k m.entries) m
call_with write (delete k) m = delete_found k (lookup k m.entries) m
call_with write (entry_size k) m = entry_size_found k (lookup k m.entries) m
call_with write (set k bytes) m = write (scalar bytes) k m
call_with write (append k item max_items) m =
    append_checked write k item max_items (check_ring k (lookup k m.entries)) m
call_with write keys m = (names (key_names m.entries), m)
call_with write size_bytes m = (number m.total, m)

-- `_guarded_write` while a compactor runs, with no cap enforced
abbrev pub write_computed : Outcome Bytes → String → Memory → Reply × Memory
write_computed (done encoded) k m = (returned, commit k encoded m)
write_computed (raised e) k m = (refused e, m)

unfoldable pub free_write : Write → String → Memory → Reply × Memory
unfolding compute commit
free_write w k m = write_computed (compute w k m) k m

-- What a compactor does: it calls the methods and reads their replies, and returns or raises.
pub data Strategy : Type 0 where
  finish : Strategy
  fail : String → Strategy
  call : Op → (Reply → Strategy) → Strategy

-- `_run_compactor`: whether it raised, and the memory it left
unfoldable pub run_compactor : Strategy → Memory → Option MemoryError × Memory
unfolding call_with free_write
run_compactor finish m = (none, m)
run_compactor (fail text) m = (some (compactor_error text), m)
run_compactor (call op next) m =
    let (reply, m1) = call_with free_write op m in run_compactor (next reply) m1

abbrev pub run_hook : Option Strategy → Memory → Option MemoryError × Memory
run_hook none m = (none, m)
run_hook (some s) m = run_compactor s m

module _ (compactor : Option Strategy) where
  abbrev pub replied : Option MemoryError × Memory → Reply × Memory
  replied (none, m) = (returned, m)
  replied (some e, m) = (refused e, m)

  -- `_maybe_soft_cap`
  unfoldable pub maybe_soft_cap : Memory → Reply × Memory
  unfolding run_compactor
  maybe_soft_cap m =
      if m.soft_cap_warned || ltb m.total soft_cap_bytes
      then (returned, m)
      else replied (
          run_hook compactor
            (record m { soft_cap_warned = true; soft_cap_warnings = m.soft_cap_warnings + 1 }))

  -- the end of `_guarded_write`, from its last test of the hard cap on
  unfoldable pub finish_write : String → Bytes → Memory → Reply × Memory
  unfolding prospective_total commit maybe_soft_cap
  finish_write k encoded m =
      let prospective = prospective_total k encoded m in
      if ltb hard_cap_bytes prospective
      then (refused (memory_overflow k prospective hard_cap_bytes), m)
      else maybe_soft_cap (commit k encoded m)

  abbrev pub recompute : Outcome Bytes → String → Memory → Reply × Memory
  recompute (done encoded) k m = finish_write k encoded m
  recompute (raised e) k m = (refused e, m)

  abbrev pub after_compactor : Write → String → Option MemoryError × Memory → Reply × Memory
  after_compactor w k (some e, m) = (refused e, m)
  after_compactor w k (none, m) = recompute (compute w k m) k m

  -- the first test of the hard cap, with the compactor's run where there is one
  abbrev pub compacted : Option Strategy → Write → String → Bytes → Memory → Reply × Memory
  compacted none w k encoded m = finish_write k encoded m
  compacted (some s) w k encoded m = after_compactor w k (run_compactor s m)

  abbrev pub guard_computed : Write → Outcome Bytes → String → Memory → Reply × Memory
  guard_computed w (raised e) k m = (refused e, m)
  guard_computed w (done encoded) k m =
      if ltb hard_cap_bytes (prospective_total k encoded m)
      then compacted compactor w k encoded m
      else finish_write k encoded m

  -- `_guarded_write`
  unfoldable pub guarded_write : Write → String → Memory → Reply × Memory
  unfolding compute prospective_total finish_write run_compactor
  guarded_write w k m = guard_computed w (compute w k m) k m

  -- a method as the agent calls it
  unfoldable pub call_memory : Op → Memory → Reply × Memory
  unfolding call_with guarded_write
  call_memory op m = call_with guarded_write op m
