-- ===== src/Effector/Dedup/Contract.antt =====
-- effector/dedup.py, the `DedupStore` protocol: what claim, complete and release promise of one
-- intent.
use beam_agents.Base.{◌≡◌, String, str_eq, Bool, true, false, Option, bytes_eq, if◌then◌else◌}
use beam_agents.Wire.{Bytes, ToolResult}
use beam_agents.Effector.Dedup.{ClaimOutcome, claimed, in_flight, done}

-- an intent: unclaimed, under a live lease with the owner's mark, or with a terminal record
pub data Lease : Type 0 where
  free : Lease
  held : (owner : Bytes) → Lease
  settled : (result : Option ToolResult) → Lease

abbrev pub contract_claim : (owner token : Bytes) → Lease → ClaimOutcome × Lease
contract_claim owner token free = (claimed token, held owner)
contract_claim owner token (held o) = (in_flight, held o)
contract_claim owner token (settled r) = (done r, settled r)

abbrev pub contract_complete : (owner : Bytes) → Option ToolResult → Lease → Bool × Lease
contract_complete owner result (held o) =
    if bytes_eq o owner then (true, settled result) else (false, held o)
contract_complete owner result free = (false, free)
contract_complete owner result (settled r) = (false, settled r)

abbrev pub contract_release : (owner : Bytes) → Lease → Bool × Lease
contract_release owner (held o) = if bytes_eq o owner then (true, free) else (false, held o)
contract_release owner free = (false, free)
contract_release owner (settled r) = (false, settled r)

-- a call on the store answers as the contract does on its intent, leaves the intent as the contract
-- does, and leaves the others
pub record Keeps {S Answer : Type 0} (view : String → S → Lease) (intent_id : String) (before : S)
    (after : Answer × S) (promised : Answer × Lease) : Type 0 where
  pub answer : after.0 ≡ promised.0
  pub state : view intent_id after.1 ≡ promised.1
  pub others : (j : String) → str_eq intent_id j ≡ false → view j after.1 ≡ view j before
