-- ===== src/Effector/Redis/Refines.antt =====
-- effector/dedup.py: the Redis store keeps the contract of a dedup store.
use Prim.Native.String.{◌++◌ as ◌+++◌}
use text.Mathlib.TextLemmas.{append_cancel_left}
use beam_agents.Base.{
  ◌==◌, ◌≡◌, refl, sym, ap, ◌∙◌, ℤ, pos, ◌<ℤ◌, String, str_eq, eq_iff, true, false, Bool-cases, inl,
  inr, Option, none, some, Option-cases, [], ◌∷◌, bytes_eq, bytes_eq_refl, eq_of_bytes_eq,
  if◌then◌else◌,
}
use beam_agents.Wire.{Bytes, ToolResult}
use beam_agents.Effector.Dedup.{encode_done, decode_done}
use beam_agents.Effector.Dedup.Contract.{
  Lease, free, held, settled, contract_claim, contract_complete, contract_release, Keeps,
}
use beam_agents.Effector.Redis.{
  RedisCommands, IsRedis, key_of, encode_claim, is_value, read_existing, redis_claim,
  redis_complete, redis_release,
}

module _ {Server : Type 0} (redis : RedisCommands Server) (prefix : String)
    (serialize : ToolResult → Bytes) (parse : Bytes → ToolResult) where
  -- a stored value as the contract's state; the owner's mark of a lease is the whole value
  unfoldable pub lease_of : Option Bytes → Lease
  lease_of none = free
  lease_of (some []) = held []
  lease_of (some (tag ∷ payload)) =
      if tag == 68 then settled (decode_done serialize parse payload) else held (tag ∷ payload)

  unfoldable pub view : (intent_id : String) → Server → Lease
  unfolding lease_of
  view intent_id s = lease_of (redis.get (key_of prefix intent_id) s)

  -- how long the intent's record has left
  abbrev pub left_of : (intent_id : String) → Server → Option ℤ
  left_of intent_id s = redis.pttl (key_of prefix intent_id) s

  -- what a claim makes of that: only a free intent is leased
  abbrev pub leased : (lease_ms : ℤ) → Lease → (left : Option ℤ) → Option ℤ
  leased lease_ms free left = some lease_ms
  leased lease_ms (held owner) left = left
  leased lease_ms (settled result) left = left

  taken-leased :
      (lease_ms : ℤ) (value : Bytes) (left : Option ℤ)
      → left ≡ leased lease_ms (lease_of (some value)) left
  unfolding lease_of
  taken-leased lease_ms [] left = refl
  taken-leased lease_ms (tag ∷ payload) left = elim (Bool-cases (tag == 68)) [
    | inl terminal ↦ rw terminal refl
    | inr other ↦ rw other refl
  ]

  other_key : (i j : String) → str_eq i j ≡ false → str_eq (prefix +++ i) (prefix +++ j) ≡ false
  other_key i j h = elim (Bool-cases (str_eq (prefix +++ i) (prefix +++ j))) [
    | inr other ↦ other
    | inl same ↦
        (let equal : i ≡ j =
            append_cancel_left prefix i j ((eq_iff (prefix +++ i) (prefix +++ j)).0 same) in
          let clash : true ≡ false = sym ((eq_iff i j).1 equal) ∙ h in cc)
  ]

  lost_claim :
      (owner token value : Bytes)
      → (read_existing redis prefix serialize parse (some value)
          ≡ (contract_claim owner token (lease_of (some value))).0)
        × (lease_of (some value) ≡ (contract_claim owner token (lease_of (some value))).1)
  unfolding read_existing lease_of
  lost_claim owner token [] = (refl, refl)
  lost_claim owner token (tag ∷ payload) = elim (Bool-cases (tag == 68)) [
    | inl terminal ↦ rw terminal (refl, refl)
    | inr other ↦ rw other (refl, refl)
  ]

  stranger_completes :
      (owner value : Bytes) (result : Option ToolResult)
      → bytes_eq value owner ≡ false
      → contract_complete owner result (lease_of (some value)) ≡ (false, lease_of (some value))
  unfolding lease_of
  stranger_completes owner [] result off = rw off refl
  stranger_completes owner (tag ∷ payload) result off = elim (Bool-cases (tag == 68)) [
    | inl terminal ↦ rw terminal refl
    | inr other ↦ rw (other, off) refl
  ]

  stranger_releases :
      (owner value : Bytes)
      → bytes_eq value owner ≡ false
      → contract_release owner (lease_of (some value)) ≡ (false, lease_of (some value))
  unfolding lease_of
  stranger_releases owner [] off = rw off refl
  stranger_releases owner (tag ∷ payload) off = elim (Bool-cases (tag == 68)) [
    | inl terminal ↦ rw terminal refl
    | inr other ↦ rw (other, off) refl
  ]

  module _ (laws : IsRedis Server redis) where
    claim-Keeps :
        (intent_id : String) (token : Bytes) (lease_ms : ℤ) (s : Server)
        → pos 0 <ℤ lease_ms
        → Keeps view intent_id s
            (redis_claim redis prefix serialize parse (λ t. t) intent_id token lease_ms s)
            (contract_claim (encode_claim token) token (view intent_id s))
    unfolding redis_claim view lease_of read_existing
    claim-Keeps intent_id token lease_ms s lasts =
        elim (Option-cases (redis.get (key_of prefix intent_id) s)) [
          | inl absent ↦
              (let (won, stored, left) =
                  laws.set_free (key_of prefix intent_id) (encode_claim token) lease_ms s lasts
                    absent in
                rw (absent, won)
                  (record {
                    answer = refl;
                    state = rw stored refl;
                    others = λ j other. ap lease_of (
                        laws.set_nx_other (key_of prefix j) (key_of prefix intent_id)
                          (encode_claim token) lease_ms s lasts (other_key intent_id j other));
                  }))
          | inr (value, stored) ↦
              (let lost =
                  laws.set_taken (key_of prefix intent_id) (encode_claim token) value lease_ms s
                    lasts stored in
                rw (lost, stored)
                  (record {
                    answer = (lost_claim (encode_claim token) token value).0;
                    state = rw stored (lost_claim (encode_claim token) token value).1;
                    others = λ j other. refl;
                  }))
        ]

    complete-Keeps :
        (intent_id : String) (token : Bytes) (result : Option ToolResult) (ttl_ms : ℤ) (s : Server)
        → pos 0 <ℤ ttl_ms
        → decode_done serialize parse (encode_done serialize parse result) ≡ result
        → Keeps view intent_id s
            (redis_complete redis prefix serialize parse intent_id token result ttl_ms s)
            (contract_complete (encode_claim token) result (view intent_id s))
    unfolding redis_complete view lease_of
    complete-Keeps intent_id token result ttl_ms s lasts parses =
        elim (Option-cases (redis.get (key_of prefix intent_id) s)) [
          | inl absent ↦
              rw (absent)
                (record { answer = refl; state = rw absent refl; others = λ j other. refl })
          | inr (value, stored) ↦ elim (Bool-cases (bytes_eq value (encode_claim token))) [
            | inl owns ↦
                (let owned : redis.get (key_of prefix intent_id) s ≡ some (encode_claim token) =
                    stored ∙ ap some (eq_of_bytes_eq value (encode_claim token) owns) in
                  rw (owned, bytes_eq_refl token)
                    (record {
                      answer = refl;
                      state =
                          rw
                            (laws.get_set (key_of prefix intent_id)
                              (68 ∷ encode_done serialize parse result) ttl_ms s lasts).0
                            (ap settled parses);
                      others = λ j other. ap lease_of (
                          laws.set_other (key_of prefix j) (key_of prefix intent_id)
                            (68 ∷ encode_done serialize parse result) ttl_ms s lasts
                            (other_key intent_id j other));
                    }))
            | inr off ↦
                rw (stored, off, stranger_completes (encode_claim token) value result off)
                  (record { answer = refl; state = rw stored refl; others = λ j other. refl })
          ]
        ]

    claim-leases :
        (intent_id : String) (token : Bytes) (lease_ms : ℤ) (s : Server)
        → pos 0 <ℤ lease_ms
        → left_of intent_id
            (redis_claim redis prefix serialize parse (λ t. t) intent_id token lease_ms s).1
          ≡ leased lease_ms (view intent_id s) (left_of intent_id s)
    unfolding redis_claim view lease_of
    claim-leases intent_id token lease_ms s lasts =
        elim (Option-cases (redis.get (key_of prefix intent_id) s)) [
          | inl absent ↦
              (let (won, stored, left) =
                  laws.set_free (key_of prefix intent_id) (encode_claim token) lease_ms s lasts
                    absent in
                rw (absent, won) left)
          | inr (value, stored) ↦
              (let lost =
                  laws.set_taken (key_of prefix intent_id) (encode_claim token) value lease_ms s
                    lasts stored in
                rw (lost, stored) (taken-leased lease_ms value (left_of intent_id s)))
        ]

    complete-retains :
        (intent_id : String) (token : Bytes) (result : Option ToolResult) (ttl_ms : ℤ) (s : Server)
        → pos 0 <ℤ ttl_ms
        → left_of intent_id
            (redis_complete redis prefix serialize parse intent_id token result ttl_ms s).1
          ≡ (if (redis_complete redis prefix serialize parse intent_id token result ttl_ms s).0
              then some ttl_ms
              else left_of intent_id s)
    unfolding redis_complete
    complete-retains intent_id token result ttl_ms s lasts =
        elim (Bool-cases (is_value (redis.get (key_of prefix intent_id) s) (encode_claim token))) [
          | inl owns ↦
              rw owns
                (laws.get_set (key_of prefix intent_id) (68 ∷ encode_done serialize parse result)
                  ttl_ms s lasts).1
          | inr off ↦ rw off refl
        ]

    release-Keeps :
        (intent_id : String) (token : Bytes) (s : Server)
        → Keeps view intent_id s
            (redis_release redis prefix serialize parse intent_id token s)
            (contract_release (encode_claim token) (view intent_id s))
    unfolding redis_release view lease_of
    release-Keeps intent_id token s = elim (Option-cases (redis.get (key_of prefix intent_id) s)) [
      | inl absent ↦
          rw absent (record { answer = refl; state = rw absent refl; others = λ j other. refl })
      | inr (value, stored) ↦ elim (Bool-cases (bytes_eq value (encode_claim token))) [
        | inl owns ↦
            (let owned : redis.get (key_of prefix intent_id) s ≡ some (encode_claim token) =
                stored ∙ ap some (eq_of_bytes_eq value (encode_claim token) owns) in
              rw (owned, bytes_eq_refl token)
                (record {
                  answer = refl;
                  state = rw (laws.get_del (key_of prefix intent_id) s) refl;
                  others = λ j other. ap lease_of (
                      laws.del_other (key_of prefix j) (key_of prefix intent_id) s
                        (other_key intent_id j other));
                }))
        | inr off ↦
            rw (stored, off, stranger_releases (encode_claim token) value off)
              (record { answer = refl; state = rw stored refl; others = λ j other. refl })
      ]
    ]

    -- With a server that keeps the documented commands, positive lease and retention times, and a
    -- result that decodes to what was encoded: each of the Redis store's calls that no other client
    -- interrupts answers as the contract of a dedup store does on its intent, leaves that intent as
    -- the contract does, and leaves every other intent as it was; a claim lets the record of a free
    -- intent expire after the lease and no other one, and `complete` after the retention time where
    -- it stored the result, and not otherwise.
    pub redis-Keeps :
        (intent_id : String) (token : Bytes) (result : Option ToolResult) (lease_ms ttl_ms : ℤ)
        (s : Server)
        → pos 0 <ℤ lease_ms
        → pos 0 <ℤ ttl_ms
        → decode_done serialize parse (encode_done serialize parse result) ≡ result
        → Keeps view intent_id s
            (redis_claim redis prefix serialize parse (λ t. t) intent_id token lease_ms s)
            (contract_claim (encode_claim token) token (view intent_id s))
          × Keeps view intent_id s
              (redis_complete redis prefix serialize parse intent_id token result ttl_ms s)
              (contract_complete (encode_claim token) result (view intent_id s))
          × Keeps view intent_id s
              (redis_release redis prefix serialize parse intent_id token s)
              (contract_release (encode_claim token) (view intent_id s))
          × (left_of intent_id
                (redis_claim redis prefix serialize parse (λ t. t) intent_id token lease_ms s).1
              ≡ leased lease_ms (view intent_id s) (left_of intent_id s))
          × (left_of intent_id
                (redis_complete redis prefix serialize parse intent_id token result ttl_ms s).1
              ≡ (if (redis_complete redis prefix serialize parse intent_id token result ttl_ms s).0
                  then some ttl_ms
                  else left_of intent_id s))
    redis-Keeps intent_id token result lease_ms ttl_ms s leases retains parses = (
      claim-Keeps intent_id token lease_ms s leases,
      complete-Keeps intent_id token result ttl_ms s retains parses,
      release-Keeps intent_id token s,
      claim-leases intent_id token lease_ms s leases,
      complete-retains intent_id token result ttl_ms s retains,
    )
