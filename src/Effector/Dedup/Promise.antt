-- ===== src/Effector/Dedup/Promise.antt =====
-- effector/dedup.py: the in-memory store keeps the contract of a dedup store.
use beam_agents.Base.{
  ◌≡◌, ◌⊎◌, refl, ap, ◌∙◌, ℤ, ◌+ℤ◌, ◌<ℤ◌, String, str_eq, Bool, true, false, Bool-cases, inl, inr,
  Option, none, some, bytes_eq, if◌then◌else◌,
}
use beam_agents.Wire.{Bytes, ToolResult}
use beam_agents.Effector.Dedup.Table.{
  Tag, Record, tag_claim, tag_done, Records, get, put, del, get-put, get-del, get-put-other,
  get-del-other,
}
use beam_agents.Effector.Dedup.{
  unexpired, forget, live, is_owner, release, encode_done, decode_done, claim_with, claim, complete,
}
use beam_agents.Effector.Dedup.Bystanders.{unexpired-before, forget-other}
use beam_agents.Effector.Dedup.Contract.{
  Lease, free, held, settled, contract_claim, contract_complete, contract_release, Keeps,
}

Tag-cases : (t : Tag) → (t ≡ tag_claim) ⊎ (t ≡ tag_done)
Tag-cases tag_claim = inl refl
Tag-cases tag_done = inr refl

module _ (serialize : ToolResult → Bytes) (parse : Bytes → ToolResult) (now : ℤ) where
  abbrev pub lease_in : Option Record → Lease
  lease_in none = free
  lease_in (some r) = elim r.tag [
    | tag_claim ↦ held r.payload
    | tag_done ↦ settled (decode_done serialize parse r.payload)
  ]

  -- what the store holds of an intent at the time of the call
  abbrev pub held_now : (intent_id : String) → Records → Lease
  held_now intent_id records = lease_in (unexpired now (get intent_id records))

  others_of :
      (intent_id : String) (o : Option Record) (records : Records) (j : String)
      → str_eq intent_id j ≡ false
      → held_now j (forget intent_id o records) ≡ held_now j records
  others_of intent_id o records j other =
      ap (λ x. lease_in (unexpired now x)) (forget-other j intent_id o records other)

  written :
      (intent_id : String) (r : Record) (records : Records)
      → now <ℤ r.expires_at_ms
      → held_now intent_id (put intent_id r records) ≡ lease_in (some r)
  written intent_id r records ahead =
      ap (λ x. lease_in (unexpired now x)) (get-put intent_id r records)
      ∙ ap lease_in (unexpired-before now r ahead)

  others_written :
      (intent_id : String) (r : Record) (o : Option Record) (records : Records) (j : String)
      → str_eq intent_id j ≡ false
      → held_now j (put intent_id r (forget intent_id o records)) ≡ held_now j records
  others_written intent_id r o records j other =
      ap (λ x. lease_in (unexpired now x))
        (get-put-other j intent_id r (forget intent_id o records) other
          ∙ forget-other j intent_id o records other)

  others_deleted :
      (intent_id : String) (o : Option Record) (records : Records) (j : String)
      → str_eq intent_id j ≡ false
      → held_now j (del intent_id (forget intent_id o records)) ≡ held_now j records
  others_deleted intent_id o records j other =
      ap (λ x. lease_in (unexpired now x))
        (get-del-other j intent_id (forget intent_id o records) other
          ∙ forget-other j intent_id o records other)

  deleted :
      (intent_id : String) (records : Records) → held_now intent_id (del intent_id records) ≡ free
  unfolding unexpired
  deleted intent_id records = ap (λ x. lease_in (unexpired now x)) (get-del intent_id records)

  claim-found :
      (intent_id : String) (token : Bytes) (lease_ms write : ℤ) (records : Records)
      (o : Option Record)
      → unexpired now (get intent_id records) ≡ o
      → now <ℤ write +ℤ lease_ms
      → Keeps held_now intent_id records
          (claim_with serialize parse intent_id lease_ms token write o (forget intent_id o records))
          (contract_claim token token (lease_in o))
  unfolding claim_with
  claim-found intent_id token lease_ms write records none found ahead = record {
    answer = refl;
    state = written intent_id _ (del intent_id records) ahead;
    others = λ j other. others_written intent_id _ none records j other;
  }
  claim-found intent_id token lease_ms write records (some r) found ahead = elim (Tag-cases r.tag) [
    | inl leased ↦
        rw leased
          (record { answer = refl; state = rw (found, leased) refl; others = λ j other. refl })
    | inr terminal ↦
        rw terminal
          (record { answer = refl; state = rw (found, terminal) refl; others = λ j other. refl })
  ]

  complete-found :
      (intent_id : String) (token : Bytes) (result : Option ToolResult) (after : Record)
      (records : Records) (o : Option Record)
      → unexpired now (get intent_id records) ≡ o
      → lease_in (some after) ≡ settled result
      → now <ℤ after.expires_at_ms
      → Keeps held_now intent_id records
          (if◌then◌else◌ {A = Bool × Records}
            (is_owner o token)
            (true, put intent_id after (forget intent_id o records))
            (false, forget intent_id o records))
          (contract_complete token result (lease_in o))
  unfolding is_owner
  complete-found intent_id token result after records none found terminal ahead = record {
    answer = refl;
    state = deleted intent_id records;
    others = λ j other. others_of intent_id none records j other;
  }
  complete-found intent_id token result after records (some r) found terminal ahead =
      elim (Tag-cases r.tag) [
        | inr over ↦
            rw over
              (record { answer = refl; state = rw (found, over) refl; others = λ j other. refl })
        | inl leased ↦ elim (Bool-cases (bytes_eq r.payload token)) [
          | inl owns ↦
              rw (leased, owns)
                (record {
                  answer = refl;
                  state = written intent_id after records ahead ∙ terminal;
                  others = λ j other. others_written intent_id after (some r) records j other;
                })
          | inr off ↦
              rw (leased, off)
                (record {
                  answer = refl;
                  state = rw (found, leased) refl;
                  others = λ j other. refl;
                })
        ]
      ]

  release-found :
      (intent_id : String) (token : Bytes) (records : Records) (o : Option Record)
      → unexpired now (get intent_id records) ≡ o
      → Keeps held_now intent_id records
          (if◌then◌else◌ {A = Bool × Records}
            (is_owner o token)
            (true, del intent_id (forget intent_id o records))
            (false, forget intent_id o records))
          (contract_release token (lease_in o))
  unfolding is_owner
  release-found intent_id token records none found = record {
    answer = refl;
    state = deleted intent_id records;
    others = λ j other. others_of intent_id none records j other;
  }
  release-found intent_id token records (some r) found = elim (Tag-cases r.tag) [
    | inr over ↦
        rw over (record { answer = refl; state = rw (found, over) refl; others = λ j other. refl })
    | inl leased ↦ elim (Bool-cases (bytes_eq r.payload token)) [
      | inl owns ↦
          rw (leased, owns)
            (record {
              answer = refl;
              state = deleted intent_id records;
              others = λ j other. others_deleted intent_id (some r) records j other;
            })
      | inr off ↦
          rw (leased, off)
            (record { answer = refl; state = rw (found, leased) refl; others = λ j other. refl })
    ]
  ]

  -- Each of the in-memory store's calls answers as the contract of a dedup store does on its intent,
  -- leaves that intent as the contract does, and leaves every other intent as it was, as they stand
  -- at the call's reading of the clock, when what it writes expires after that, and the result
  -- decodes to what was encoded.
  pub memory-Keeps :
      (intent_id : String) (token : Bytes) (result : Option ToolResult) (lease_ms ttl_ms write : ℤ)
      (records : Records)
      → now <ℤ write +ℤ lease_ms
      → now <ℤ write +ℤ ttl_ms
      → decode_done serialize parse (encode_done serialize parse result) ≡ result
      → Keeps held_now intent_id records
          (claim serialize parse intent_id lease_ms token now write records)
          (contract_claim token token (held_now intent_id records))
        × Keeps held_now intent_id records
            (complete serialize parse intent_id token result ttl_ms now write records)
            (contract_complete token result (held_now intent_id records))
        × Keeps held_now intent_id records
            (release intent_id token now records)
            (contract_release token (held_now intent_id records))
  unfolding claim complete release live
  memory-Keeps intent_id token result lease_ms ttl_ms write records leased kept parses = (
    claim-found intent_id token lease_ms write records _ refl leased,
    complete-found intent_id token result
        (record {
          tag = tag_done;
          payload = encode_done serialize parse result;
          expires_at_ms = write +ℤ ttl_ms;
        })
        records _ refl (ap settled parses) kept,
    release-found intent_id token records _ refl,
  )
