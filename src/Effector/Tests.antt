-- ===== src/Effector/Tests.antt =====
-- The dedup store of effector/dedup.py at concrete inputs: two workers and one intent.
mod Deliveries
mod Stores
mod Partitions
use beam_agents.Base.{◌≡◌, refl, pos, ◌+ℤ◌, ◌<ℤ◌, arith, true, some, List, [], ◌∷◌, All}
use beam_agents.Wire.{Bytes, ToolResult, Status, blank}
use beam_agents.Effector.Dedup.Table.{tag_claim, Records, get, put, del}
use beam_agents.Effector.Dedup.{
  claimed, in_flight, done, claim, complete, live, unexpired, claim_with, is_owner, encode_done,
}
use beam_agents.Effector.Dedup.Bystanders.{
  Call, call_claim, call_release, called_at, Bystander, calls,
}
use beam_agents.Effector.Dedup.Once.{claim-exclusive, complete-once}

-- a serialiser that keeps the message's text and nothing else of a small set of results
abbrev serialize : ToolResult → Bytes
serialize r = 1 ∷ []

abbrev result : ToolResult
result = record {
  intent_id = "i";
  entity_key = [];
  seq = 0;
  status = Status.ok;
  payload = [];
  error_message = blank;
  completed_at_ms = pos 5;
}

abbrev parse : Bytes → ToolResult
parse bs = result

program : Unit {0}
unfolding claim complete claim_with live unexpired is_owner encode_done get put del ◌+ℤ◌
program = tt

-- worker 1 claims intent "i" at time 0 for 100 ms
abbrev won : Records
won = (claim serialize parse "i" (pos 100) (1 ∷ []) (pos 0) (pos 0) []).1

first_claim :
    claim serialize parse "i" (pos 100) (1 ∷ []) (pos 0) (pos 0) [] ≡ (claimed (1 ∷ []), won)
unfolding program
first_claim = refl

-- and completes it at 50 for 1000 ms
abbrev stored : Records
stored = (complete serialize parse "i" (1 ∷ []) (some result) (pos 1000) (pos 50) (pos 50) won).1

completed :
    complete serialize parse "i" (1 ∷ []) (some result) (pos 1000) (pos 50) (pos 50) won
    ≡ (true, stored)
unfolding program
completed = refl

abbrev other_calls : List Call
other_calls =
    call_claim "j" (pos 100) (2 ∷ []) (pos 60) (pos 60) ∷ call_release "i" (2 ∷ []) (pos 70) ∷ []

aside :
    All
      (Bystander "i"
        (record { tag = tag_claim; payload = 1 ∷ []; expires_at_ms = pos 0 +ℤ pos 100 }))
      other_calls
unfolding program
aside = (omega arith, ((omega arith, λ same. refl), tt))

ahead : pos 80 <ℤ pos 0 +ℤ pos 100
unfolding ◌+ℤ◌
ahead = omega arith

claim-exclusive_example :
    (claim serialize parse "i"
      (pos 100)
      (2 ∷ [])
      (pos 80)
      (pos 80)
      (calls serialize parse other_calls won)).0
    ≡ in_flight
claim-exclusive_example =
    claim-exclusive serialize parse "i" (pos 100) (1 ∷ []) (pos 0) (pos 0) [] won other_calls
      (pos 100) (2 ∷ []) (pos 80) (pos 80) first_claim aside ahead

late : pos 900 <ℤ pos 50 +ℤ pos 1000
unfolding ◌+ℤ◌
late = omega arith

in_time : All (λ c. called_at c <ℤ pos 50 +ℤ pos 1000) other_calls
unfolding ◌+ℤ◌
in_time = (omega arith, (omega arith, tt))

parses : (x : ToolResult) → some result ≡ some x → parse (serialize x) ≡ x
parses x e = cc

complete-once_example :
    (claim serialize parse "i"
      (pos 100)
      (2 ∷ [])
      (pos 900)
      (pos 900)
      (calls serialize parse other_calls stored)).0
    ≡ done (some result)
complete-once_example =
    complete-once serialize parse "i" (1 ∷ []) (some result) (pos 1000) (pos 50) (pos 50) won stored
      other_calls (pos 100) (2 ∷ []) (pos 900) (pos 900) parses (λ x e. refl) completed in_time late
