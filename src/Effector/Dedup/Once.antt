-- ===== src/Effector/Dedup/Once.antt =====
-- What a claim and a terminal record of effector/dedup.py's in-memory store promise the workers.
use beam_agents.Base.{
  ◌≡◌, refl, sym, ap, ◌∙◌, ℤ, ◌<ℤ◌, ◌+ℤ◌, String, Bool, true, false, Option, none, some, List, [],
  ◌∷◌, if◌then◌else◌, arith, is_empty, All,
}
use beam_agents.Wire.{Bytes, ToolResult}
use beam_agents.Effector.Dedup.Table.{Record, tag_claim, tag_done, Records, get, put, get-put}
use beam_agents.Effector.Dedup.{
  claimed, in_flight, done, is_owner, encode_done, decode_done, claim_with, claim, complete,
}
use beam_agents.Effector.Dedup.Bystanders.{
  Call, call_claim, call_complete, call_release, called_at, Bystander, unexpired-before, calls,
  calls-kept,
}

module _ (serialize : ToolResult → Bytes) (parse : Bytes → ToolResult) where
  found_claim :
      (l : String) (lease : ℤ) (token : Bytes) (write : ℤ) (x : Record) (kept : Records)
      → x.tag ≡ tag_claim
      → (claim_with serialize parse l lease token write (some x) kept).0 ≡ in_flight
  unfolding claim_with
  found_claim l lease token write x kept tagged = ground (arith, tagged)

  found_done :
      (l : String) (lease : ℤ) (token : Bytes) (write : ℤ) (x : Record) (kept : Records)
      → x.tag ≡ tag_done
      → (claim_with serialize parse l lease token write (some x) kept).0
        ≡ done (decode_done serialize parse x.payload)
  unfolding claim_with
  found_done l lease token write x kept tagged = ground (arith, tagged)

  -- what a successful claim writes
  claim_record :
      (id : String) (lease : ℤ) (token : Bytes) (write : ℤ) (o : Option Record)
      (kept after : Records)
      → claim_with serialize parse id lease token write o kept ≡ (claimed token, after)
      → get id after
        ≡ some (record { tag = tag_claim; payload = token; expires_at_ms = write +ℤ lease })
  unfolding claim_with
  claim_record id lease token write none kept after e =
      ap (get id) (sym (ap (λ p. p.1) e)) ∙ get-put id _ kept
  claim_record id lease token write (some x) kept after e = ground (arith, e)

  -- what a successful complete writes
  complete_record :
      (id : String) (token : Bytes) (r : Record) (b : Bool) (kept after : Records)
      → if◌then◌else◌ {A = Bool × Records} b (true, put id r kept) (false, kept) ≡ (true, after)
      → get id after ≡ some r
  complete_record id token r true kept after e =
      ap (get id) (sym (ap (λ p. p.1) e)) ∙ get-put id r kept
  complete_record id token r false kept after e = cc

  all-aside :
      (intent_id : String) (r : Record) (cs : List Call)
      → r.tag ≡ tag_done
      → All (λ c. called_at c <ℤ r.expires_at_ms) cs
      → All (Bystander intent_id r) cs
  unfolding is_owner
  all-aside intent_id r [] d early = tt
  all-aside intent_id r (call_claim id lease token now write ∷ cs) d (a, early) =
      (a, all-aside intent_id r cs d early)
  all-aside intent_id r (call_complete id token result ttl now write ∷ cs) d (a, early) =
      ((a, λ same. ground (arith, d)), all-aside intent_id r cs d early)
  all-aside intent_id r (call_release id token now ∷ cs) d (a, early) =
      ((a, λ same. ground (arith, d)), all-aside intent_id r cs d early)

  pub decode-encode :
      (result : Option ToolResult)
      → ((x : ToolResult) → result ≡ some x → parse (serialize x) ≡ x)
      → ((x : ToolResult) → result ≡ some x → is_empty (serialize x) ≡ false)
      → decode_done serialize parse (encode_done serialize parse result) ≡ result
  unfolding decode_done encode_done
  decode-encode none parses full = refl
  decode-encode (some x) parses full = rw (full x refl, parses x refl) refl

  module _ (intent_id : String) (r : Record) (records : Records) (lease : ℤ) (token : Bytes)
      (now write : ℤ) where
    claim-in_flight :
        get intent_id records ≡ some r
        → now <ℤ r.expires_at_ms
        → r.tag ≡ tag_claim
        → (claim serialize parse intent_id lease token now write records).0 ≡ in_flight
    unfolding claim
    claim-in_flight held ahead tagged =
        rw (held, unexpired-before now r ahead)
          (found_claim intent_id lease token write r records tagged)

    claim-done :
        get intent_id records ≡ some r
        → now <ℤ r.expires_at_ms
        → r.tag ≡ tag_done
        → (claim serialize parse intent_id lease token now write records).0
          ≡ done (decode_done serialize parse r.payload)
    unfolding claim
    claim-done held ahead tagged =
        rw (held, unexpired-before now r ahead)
          (found_done intent_id lease token write r records tagged)

  -- After a claim has won a lease, and until it runs out, no later claim on the intent wins,
  -- whatever calls other workers make in between, before it runs out and with tokens that are not
  -- the winner's.
  pub claim-exclusive :
      (intent_id : String) (lease_ms : ℤ) (token : Bytes) (now_ms write_ms : ℤ)
      (records after : Records) (between : List Call) (lease' : ℤ) (token' : Bytes)
      (now' write' : ℤ)
      → claim serialize parse intent_id lease_ms token now_ms write_ms records
        ≡ (claimed token, after)
      → All
          (Bystander intent_id
            (record { tag = tag_claim; payload = token; expires_at_ms = write_ms +ℤ lease_ms }))
          between
      → now' <ℤ write_ms +ℤ lease_ms
      → (claim serialize parse intent_id lease' token' now' write'
          (calls serialize parse between after)).0
        ≡ in_flight
  unfolding claim
  claim-exclusive intent_id lease_ms token now_ms write_ms records after between lease' token' now'
        write' won aside ahead =
      let held =
        calls-kept serialize parse intent_id _ between after
          (claim_record intent_id lease_ms token write_ms _ _ after won) aside in
      claim-in_flight intent_id _ (calls serialize parse between after) lease' token' now' write'
        held ahead refl

  -- After `complete` has stored a result, and until it runs out, every claim on the intent gives
  -- that result back and none wins, whatever calls are made in between before it runs out, when
  -- protobuf parses the result back from what it serialised, which is not the empty text.
  pub complete-once :
      (intent_id : String) (token : Bytes) (result : Option ToolResult) (ttl_ms now_ms write_ms : ℤ)
      (records after : Records) (between : List Call) (lease' : ℤ) (token' : Bytes)
      (now' write' : ℤ)
      → ((x : ToolResult) → result ≡ some x → parse (serialize x) ≡ x)
      → ((x : ToolResult) → result ≡ some x → is_empty (serialize x) ≡ false)
      → complete serialize parse intent_id token result ttl_ms now_ms write_ms records
        ≡ (true, after)
      → All (λ c. called_at c <ℤ write_ms +ℤ ttl_ms) between
      → now' <ℤ write_ms +ℤ ttl_ms
      → (claim serialize parse intent_id lease' token' now' write'
          (calls serialize parse between after)).0
        ≡ done result
  unfolding claim complete
  complete-once intent_id token result ttl_ms now_ms write_ms records after between lease' token'
        now' write' parses full stored early ahead =
      let r : Record = record {
        tag = tag_done;
        payload = encode_done serialize parse result;
        expires_at_ms = write_ms +ℤ ttl_ms;
      } in
      let held =
        calls-kept serialize parse intent_id r between after
          (complete_record intent_id token r _ _ after stored)
          (all-aside intent_id r between refl early) in
      claim-done intent_id r (calls serialize parse between after) lease' token' now' write' held
        ahead refl
      ∙ ap done (decode-encode result parses full)
