-- ===== src/Memory/Caps.antt =====
-- What every method that the agent calls keeps: the size counter, and the hard cap.
use beam_agents.Base.{
  ◌+◌, ◌≤◌, ◌≡◌, ltb, String, true, ◌||◌, Option, none, some, arith, Bool-cases, inl, inr,
}
use beam_agents.Wire.{Bytes}
use beam_agents.Memory.{
  Outcome, done, raised, MemoryError, Memory, touch, commit, prospective_total, hard_cap_bytes,
  soft_cap_bytes, compute, Write,
}
use beam_agents.Memory.Calls.{
  Op, Strategy, run_compactor, run_hook, replied, maybe_soft_cap, finish_write, recompute,
  after_compactor, compacted, guard_computed, guarded_write, call_memory,
}
use beam_agents.Memory.Accounting.{
  IsAccounted, IsClosed, accounted_closed, touch-IsAccounted, without-IsAccounted,
  commit-IsAccounted, weight-without, call_with-kept, run_compactor-IsAccounted, IsKept,
}

-- the memory once its soft cap has been warned of
abbrev warned : Memory → Memory
warned m = record m { soft_cap_warned = true; soft_cap_warnings = m.soft_cap_warnings + 1 }

-- what a property needs, to be kept by every method
record IsStable (P : Memory → Type 0) : Type 0 where
  closed : IsClosed P
  commits :
      (k : String) (encoded : Bytes) (m : Memory)
      → prospective_total k encoded m ≤ hard_cap_bytes
      → P m
      → P (commit k encoded m)
  warns : (m : Memory) → P m → P (warned m)

-- the compactor keeps `P`, where there is one
abbrev pub HookKeeps : (Memory → Type 0) → Option Strategy → Type 0
HookKeeps P none = Unit
HookKeeps P (some s) = IsKept P s

module _ (P : Memory → Type 0) (stable : IsStable P) where
  replied-kept : (c : Option Strategy) (r : Option MemoryError × Memory) → P r.1 → P (replied c r).1
  replied-kept c (none, m) p = p
  replied-kept c (some e, m) p = p

  run_hook-kept : (c : Option Strategy) (m : Memory) → HookKeeps P c → P m → P (run_hook c m).1
  run_hook-kept none m h p = p
  run_hook-kept (some s) m h p = h.kept m p

  maybe_soft_cap-kept :
      (c : Option Strategy) (m : Memory) → HookKeeps P c → P m → P (maybe_soft_cap c m).1
  unfolding maybe_soft_cap
  maybe_soft_cap-kept c m h p =
      elim (Bool-cases (m.soft_cap_warned || ltb m.total soft_cap_bytes)) [
        | inl quiet ↦ rw quiet p
        | inr loud ↦ rw loud (
            replied-kept c (run_hook c (warned m))
              (run_hook-kept c (warned m) h (stable.warns m p)))
      ]

  finish_write-kept :
      (c : Option Strategy) (k : String) (encoded : Bytes) (m : Memory)
      → HookKeeps P c
      → P m
      → P (finish_write c k encoded m).1
  unfolding finish_write
  finish_write-kept c k encoded m h p =
      elim (Bool-cases (ltb hard_cap_bytes (prospective_total k encoded m))) [
        | inl over ↦ rw over p
        | inr room ↦ rw room (
            maybe_soft_cap-kept c (commit k encoded m) h
              (stable.commits k encoded m (ground (arith, room)) p))
      ]

  recompute-kept :
      (c : Option Strategy) (r : Outcome Bytes) (k : String) (m : Memory)
      → HookKeeps P c
      → P m
      → P (recompute c r k m).1
  recompute-kept c (done encoded) k m h p = finish_write-kept c k encoded m h p
  recompute-kept c (raised e) k m h p = p

  after_compactor-kept :
      (c : Option Strategy) (w : Write) (k : String) (r : Option MemoryError × Memory)
      → HookKeeps P c
      → P r.1
      → P (after_compactor c w k r).1
  after_compactor-kept c w k (some e, m) h p = p
  after_compactor-kept c w k (none, m) h p = recompute-kept c (compute w k m) k m h p

  compacted-kept :
      (c d : Option Strategy) (w : Write) (k : String) (encoded : Bytes) (m : Memory)
      → HookKeeps P c
      → HookKeeps P d
      → P m
      → P (compacted c d w k encoded m).1
  compacted-kept c none w k encoded m h hd p = finish_write-kept c k encoded m h p
  compacted-kept c (some s) w k encoded m h hd p =
      after_compactor-kept c w k (run_compactor s m) h (hd.kept m p)

  guard_computed-kept :
      (c : Option Strategy) (w : Write) (r : Outcome Bytes) (k : String) (m : Memory)
      → HookKeeps P c
      → P m
      → P (guard_computed c w r k m).1
  guard_computed-kept c w (raised e) k m h p = p
  guard_computed-kept c w (done encoded) k m h p =
      elim (Bool-cases (ltb hard_cap_bytes (prospective_total k encoded m))) [
        | inl over ↦ rw over (compacted-kept c c w k encoded m h h p)
        | inr room ↦ rw room (finish_write-kept c k encoded m h p)
      ]

  call_memory-kept :
      (c : Option Strategy) (op : Op) (m : Memory) → HookKeeps P c → P m → P (call_memory c op m).1
  unfolding call_memory guarded_write
  call_memory-kept c op m h p =
      call_with-kept P stable.closed (guarded_write c)
        (λ w k n q. guard_computed-kept c w (compute w k n) k n h q) op m p

commit-total :
    (k : String) (encoded : Bytes) (m : Memory)
    → IsAccounted m
    → (commit k encoded m).total ≡ prospective_total k encoded m
unfolding commit prospective_total
commit-total k encoded m h = omega (arith, weight-without k m h)

accounted_stable : IsStable IsAccounted
accounted_stable = record {
  closed = accounted_closed;
  commits = λ k encoded m le h. commit-IsAccounted k encoded m h;
  warns = λ m h. record { distinct = h.distinct; sized = h.sized };
}

accounted_hook : (c : Option Strategy) → HookKeeps IsAccounted c
accounted_hook none = tt
accounted_hook (some s) = record { kept = run_compactor-IsAccounted s }

-- Whatever method the agent calls, with whatever compactor, and whether it returns or raises, the
-- size counter stays the sum over the entries.
pub call_memory-IsAccounted :
    (c : Option Strategy) (op : Op) (m : Memory)
    → IsAccounted m
    → IsAccounted (call_memory c op m).1
call_memory-IsAccounted c op m h =
    call_memory-kept IsAccounted accounted_stable c op m (accounted_hook c) h

pub record IsWithin (m : Memory) : Type 0 where
  pub accounted : IsAccounted m
  pub within : m.total ≤ hard_cap_bytes

-- the contract of a compactor: it does not let the memory grow
pub record IsShrinking (s : Strategy) : Type 0 where
  pub shrinks : (m : Memory) → IsAccounted m → (run_compactor s m).1.total ≤ m.total

within_stable : IsStable IsWithin
unfolding touch
within_stable = record {
  closed = record {
    touched = λ k e m held h. record {
      accounted = touch-IsAccounted k e m held h.accounted;
      within = h.within;
    };
    deleted = λ k e m held h. record {
      accounted = without-IsAccounted k e m held h.accounted;
      within = omega (arith, h.within);
    };
  };
  commits = λ k encoded m le h. record {
    accounted = commit-IsAccounted k encoded m h.accounted;
    within = omega (arith, le, commit-total k encoded m h.accounted);
  };
  warns = λ m h. record {
    accounted = record { distinct = h.accounted.distinct; sized = h.accounted.sized };
    within = h.within;
  };
}

abbrev pub HookShrinks : Option Strategy → Type 0
HookShrinks none = Unit
HookShrinks (some s) = IsShrinking s

within_hook : (c : Option Strategy) → HookShrinks c → HookKeeps IsWithin c
within_hook none h = h
within_hook (some s) h = record {
  kept = λ m w. record {
    accounted = run_compactor-IsAccounted s m w.accounted;
    within = omega (arith, w.within, h.shrinks m w.accounted);
  };
}

-- Whatever method the agent calls, with a compactor that does not let the memory grow or none, and
-- whether it returns or raises, the working memory stays within its hard cap.
pub call_memory-IsWithin :
    (c : Option Strategy) (op : Op) (m : Memory)
    → HookShrinks c
    → IsWithin m
    → IsWithin (call_memory c op m).1
call_memory-IsWithin c op m shrinks h =
    call_memory-kept IsWithin within_stable c op m (within_hook c shrinks) h
