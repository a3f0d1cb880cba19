-- ===== src/Effector/Dedup.antt =====
-- effector/dedup.py, `InMemoryDedupStore`: atomic claim, complete and release over `intent_id`.
-- A method reads the clock for the expiry test and again for what it writes; both readings are
-- arguments, and so is the new token, which `uuid4` makes. A token is its encoded text.
-- `serialize` and `parse` are protobuf's, on a ToolResult.
pub mod Table
pub mod Bystanders
pub mod Once
pub mod Contract
pub mod Promise
use beam_agents.Base.{
  bytes_eq, ℤ, ◌+ℤ◌, leb_ℤ, String, Bool, true, false, Option, none, some, List, [], ◌∷◌, is_empty,
  bytes_eq, if◌then◌else◌,
}
use beam_agents.Wire.{Bytes, ToolResult}
use beam_agents.Effector.Dedup.Table.{Record, tag_claim, tag_done, Records, get, put, del}

pub data ClaimOutcome : Type 0 where
  claimed : (token : Bytes) → ClaimOutcome
  in_flight : ClaimOutcome
  done : (result : Option ToolResult) → ClaimOutcome

-- what `_live` returns of the record that it finds
unfoldable pub unexpired : (now_ms : ℤ) → Option Record → Option Record
unexpired now_ms none = none
unexpired now_ms (some r) = if leb_ℤ r.expires_at_ms now_ms then none else some r

abbrev pub forget : String → Option Record → Records → Records
forget intent_id none records = del intent_id records
forget intent_id (some r) records = records

-- `_live`: an expired record is forgotten
unfoldable pub live : String → (now_ms : ℤ) → Records → Option Record × Records
unfolding unexpired
live intent_id now_ms records =
    let found = unexpired now_ms (get intent_id records) in (found, forget intent_id found records)

-- `record is None or record.tag != _TAG_CLAIM or record.payload != token.encode()`, negated
unfoldable pub is_owner : Option Record → (token : Bytes) → Bool
is_owner none token = false
is_owner (some r) token = elim r.tag [ tag_done ↦ false | tag_claim ↦ bytes_eq r.payload token ]

-- `release`
unfoldable pub release : String → (token : Bytes) → (now_ms : ℤ) → Records → Bool × Records
unfolding live is_owner
release intent_id token now_ms records =
    let (found, kept) = live intent_id now_ms records in
    if is_owner found token then (true, del intent_id kept) else (false, kept)

module _ (serialize : ToolResult → Bytes) (parse : Bytes → ToolResult) where
  -- `_encode_done` without its tag
  unfoldable pub encode_done : Option ToolResult → Bytes
  encode_done none = []
  encode_done (some result) = serialize result

  -- `_decode_done`
  unfoldable pub decode_done : Bytes → Option ToolResult
  decode_done payload = if is_empty payload then none else some (parse payload)

  -- the answer of `claim`, for the live record it found
  unfoldable pub claim_with :
      String
      → (lease_ms : ℤ) → (token : Bytes) → (write_ms : ℤ) → Option Record
      → Records
      → ClaimOutcome × Records
  claim_with intent_id lease_ms token write_ms none records = (
    claimed token,
    put intent_id
        (record { tag = tag_claim; payload = token; expires_at_ms = write_ms +ℤ lease_ms }) records,
  )
  claim_with intent_id lease_ms token write_ms (some r) records = elim r.tag [
    | tag_done ↦ (done (decode_done r.payload), records)
    | tag_claim ↦ (in_flight, records)
  ]

  -- `claim`
  unfoldable pub claim :
      String
      → (lease_ms : ℤ) → (token : Bytes) → (now_ms write_ms : ℤ) → Records
      → ClaimOutcome × Records
  unfolding live claim_with decode_done
  claim intent_id lease_ms token now_ms write_ms records =
      let (found, kept) = live intent_id now_ms records in
      claim_with intent_id lease_ms token write_ms found kept

  -- `complete`
  unfoldable pub complete :
      String
      → (token : Bytes) → Option ToolResult
      → (ttl_ms : ℤ) → (now_ms write_ms : ℤ) → Records
      → Bool × Records
  unfolding live is_owner encode_done
  complete intent_id token result ttl_ms now_ms write_ms records =
      let (found, kept) = live intent_id now_ms records in
      if is_owner found token
      then (
        true,
        put intent_id
            (record {
              tag = tag_done;
              payload = encode_done result;
              expires_at_ms = write_ms +ℤ ttl_ms;
            })
            kept,
      )
      else (false, kept)
