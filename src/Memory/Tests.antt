-- ===== src/Memory/Tests.antt =====
-- The working memory at concrete inputs.
use beam_agents.Base.{ℕ, ◌≤◌, ◌≡◌, refl, ap, pos, none, some, [], ◌∷◌, arith, length}
use beam_agents.Base.Dict.{weight}
use beam_agents.Wire.{Bytes}
use beam_agents.Memory.{
  Memory, blank_memory, prospective_total, hard_cap_bytes, encode_ring, decode_ring, done,
  kind_ring, last_items, Outcome,
}
use beam_agents.Memory.Calls.{
  set, append, ring, call_memory, run_compactor, returned, items, guarded_write, maybe_soft_cap,
  finish_write, free_write,
}
use beam_agents.Memory.Accounting.{IsAccounted}
use beam_agents.Memory.Caps.{call_memory-IsAccounted, IsWithin, call_memory-IsWithin}
use beam_agents.Memory.Ring.{decode_ring-encode_ring, ring-append}
use beam_agents.Memory.Compaction.{
  DropOldestCompactor, compact, IsCompacted, compact-IsCompacted, compact-IsShrinking, evict_oldest,
}

unfoldable program : Unit {0}
unfolding call_memory maybe_soft_cap finish_write guarded_write free_write compact evict_oldest
    run_compactor decode_ring encode_ring weight prospective_total
program = tt

abbrev blank : Memory
blank = blank_memory (pos 100)

blank-IsAccounted : IsAccounted blank
unfolding program
blank-IsAccounted = record { distinct = tt; sized = refl }

-- a note, and a ring of two items
abbrev noted : Memory
noted = (call_memory none (set "note" (5 ∷ 6 ∷ [])) blank).1

abbrev ringed : Memory
ringed =
    (call_memory none (append "log" (2 ∷ []) 2)
      (call_memory none (append "log" (1 ∷ []) 2) noted).1).1

sizes : (noted.total ≡ 3) × (ringed.total ≡ 14)
unfolding program
sizes = (refl, refl)

ringed-IsAccounted : IsAccounted ringed
ringed-IsAccounted = call_memory-IsAccounted none (append "log" (2 ∷ []) 2) _ (
    call_memory-IsAccounted none (append "log" (1 ∷ []) 2) noted
      (call_memory-IsAccounted none (set "note" (5 ∷ 6 ∷ [])) blank blank-IsAccounted))

-- the default compactor, with a target of eight bytes
abbrev small : DropOldestCompactor
small = record { target_bytes = 8; protected_prefixes = "log" ∷ [] }

call_memory-IsWithin_example :
    IsWithin (call_memory (some (compact small)) (set "note" (7 ∷ [])) blank).1
call_memory-IsWithin_example =
    call_memory-IsWithin (some (compact small)) (set "note" (7 ∷ [])) blank
      (compact-IsShrinking small) (record { accounted = blank-IsAccounted; within = omega arith })

decode_ring-encode_ring_example :
    (out : Bytes) × (encode_ring ((1 ∷ []) ∷ (2 ∷ 3 ∷ []) ∷ []) ≡ done (kind_ring ∷ out))
    × (decode_ring (kind_ring ∷ out) ≡ done ((1 ∷ []) ∷ (2 ∷ 3 ∷ []) ∷ []))
decode_ring-encode_ring_example =
    decode_ring-encode_ring ((1 ∷ []) ∷ (2 ∷ 3 ∷ []) ∷ []) (omega arith, (omega arith, tt))

held : (call_memory none (ring "log") ringed).0 ≡ items ((1 ∷ []) ∷ (2 ∷ []) ∷ [])
unfolding program
held = refl

abbrev len_of : Outcome Bytes → ℕ
len_of (done b) = length b
len_of (Outcome.raised e) = 0

fits :
    (encoded : Bytes)
    → encode_ring (last_items 2 ((1 ∷ []) ∷ (2 ∷ []) ∷ (3 ∷ []) ∷ [])) ≡ done encoded
    → prospective_total "log" encoded ringed ≤ hard_cap_bytes
unfolding program
fits encoded e = omega (arith, ap len_of e)

ring-append_example :
    ((call_memory none (append "log" (3 ∷ []) 2) ringed).0 ≡ returned)
    × ((call_memory none (ring "log") (call_memory none (append "log" (3 ∷ []) 2) ringed).1).0
        ≡ items ((2 ∷ []) ∷ (3 ∷ []) ∷ []))
ring-append_example =
    ring-append "log" (3 ∷ []) 2 ((1 ∷ []) ∷ (2 ∷ []) ∷ []) ringed ringed-IsAccounted held
      (omega arith, (omega arith, tt)) fits

compact-IsCompacted_example : IsCompacted small ringed (run_compactor (compact small) ringed).1
compact-IsCompacted_example = compact-IsCompacted small ringed ringed-IsAccounted

-- the note goes, and the protected ring stays above the target
compacted : (run_compactor (compact small) ringed).1.total ≡ 11
unfolding program
compacted = refl
