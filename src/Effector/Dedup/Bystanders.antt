-- ===== src/Effector/Dedup/Bystanders.antt =====
-- A record of effector/dedup.py's in-memory store under the calls of other workers.
use beam_agents.Base.{
  ◌≡◌, refl, ap, ◌∙◌, ℤ, ◌<ℤ◌, String, Bool, true, false, Option, none, some, List, [], ◌∷◌, str_eq,
  eq_iff, if◌then◌else◌, Bool-cases, inl, inr, arith, All,
}
use beam_agents.Wire.{Bytes, ToolResult}
use beam_agents.Effector.Dedup.Table.{Record, Records, get, get-put-other, get-del-other}
use beam_agents.Effector.Dedup.{unexpired, forget, is_owner, release, claim_with, claim, complete}

-- A call on the store, with its two clock readings.
pub data Call : Type 0 where
  call_claim : String → (lease_ms : ℤ) → (token : Bytes) → (now_ms write_ms : ℤ) → Call
  call_complete :
      String → (token : Bytes) → Option ToolResult → (ttl_ms : ℤ) → (now_ms write_ms : ℤ) → Call
  call_release : String → (token : Bytes) → (now_ms : ℤ) → Call

abbrev pub called_at : Call → ℤ
called_at (call_claim id lease token now write) = now
called_at (call_complete id token result ttl now write) = now
called_at (call_release id token now) = now

-- The call comes before the record expires, and does not own it.
abbrev pub Bystander : String → Record → Call → Type 0
Bystander intent_id r (call_claim id lease token now write) = now <ℤ r.expires_at_ms
Bystander intent_id r (call_complete id token result ttl now write) =
    (now <ℤ r.expires_at_ms) × (str_eq id intent_id ≡ true → is_owner (some r) token ≡ false)
Bystander intent_id r (call_release id token now) =
    (now <ℤ r.expires_at_ms) × (str_eq id intent_id ≡ true → is_owner (some r) token ≡ false)

pub unexpired-before :
    (now : ℤ) (r : Record) → now <ℤ r.expires_at_ms → unexpired now (some r) ≡ some r
unfolding unexpired
unexpired-before now r ahead = ground arith

pub forget-other :
    (intent_id l : String) (o : Option Record) (records : Records)
    → str_eq l intent_id ≡ false
    → get intent_id (forget l o records) ≡ get intent_id records
forget-other intent_id l none records off = get-del-other intent_id l records off
forget-other intent_id l (some x) records off = refl

-- the end of `complete` and of `release`
either_kept :
    (intent_id : String) (r : Record) (b : Bool) (x y : Records)
    → get intent_id x ≡ some r
    → get intent_id y ≡ some r
    → get intent_id (if◌then◌else◌ {A = Bool × Records} b (true, x) (false, y)).1 ≡ some r
either_kept intent_id r true x y hx hy = hx
either_kept intent_id r false x y hx hy = hy

refused :
    (id : String) (r : Record) (token : Bytes) (o : Option Record) (x records : Records)
    → o ≡ some r
    → is_owner (some r) token ≡ false
    → (if◌then◌else◌ {A = Bool × Records}
        (is_owner o token)
        (true, x)
        (false, forget id o records)).1
      ≡ records
refused id r token none x records e stranger = cc
refused id r token (some y) x records e stranger = ground (arith, e, stranger)

module _ (serialize : ToolResult → Bytes) (parse : Bytes → ToolResult) where
  unfoldable pub call : Call → Records → Records
  call (call_claim id lease token now write) records =
      (claim serialize parse id lease token now write records).1
  call (call_complete id token result ttl now write) records =
      (complete serialize parse id token result ttl now write records).1
  call (call_release id token now) records = (release id token now records).1

  unfoldable pub calls : List Call → Records → Records
  calls [] records = records
  calls (c ∷ cs) records = calls cs (call c records)

  claim_with-found :
      (l : String) (lease : ℤ) (token : Bytes) (write : ℤ) (x : Record) (kept : Records)
      → (claim_with serialize parse l lease token write (some x) kept).1 ≡ kept
  unfolding claim_with
  claim_with-found l lease token write x kept = ground arith

  module _ (intent_id : String) (r : Record) (records : Records) where
    claim_with-other :
        (l : String) (lease : ℤ) (token : Bytes) (write : ℤ) (o : Option Record) (kept : Records)
        → str_eq l intent_id ≡ false
        → get intent_id (claim_with serialize parse l lease token write o kept).1
          ≡ get intent_id kept
    unfolding claim_with
    claim_with-other l lease token write none kept off = get-put-other intent_id l _ kept off
    claim_with-other l lease token write (some x) kept off = ground arith

    -- the record as a call on its own identifier finds it
    found_at :
        (id : String) (now : ℤ)
        → str_eq id intent_id ≡ true
        → get intent_id records ≡ some r
        → now <ℤ r.expires_at_ms
        → unexpired now (get id records) ≡ some r
    found_at id now same held ahead =
        let here : get id records ≡ some r = rw ((eq_iff id intent_id).0 same) held in
        rw here (unexpired-before now r ahead)

    claim_with-same :
        (id : String) (lease : ℤ) (token : Bytes) (write : ℤ) (o : Option Record)
        → o ≡ some r
        → (claim_with serialize parse id lease token write o (forget id o records)).1 ≡ records
    claim_with-same id lease token write none e = cc
    claim_with-same id lease token write (some x) e =
        claim_with-found id lease token write x records

    -- a call that does not own the record leaves it
    call-kept :
        (c : Call)
        → get intent_id records ≡ some r
        → Bystander intent_id r c
        → get intent_id (call c records) ≡ some r
    unfolding call claim complete release
    call-kept (call_claim id lease token now write) held ahead =
        elim (Bool-cases (str_eq id intent_id)) [
          | inl same ↦
              ap (get intent_id) (
                claim_with-same id lease token write (unexpired now (get id records))
                  (found_at id now same held ahead))
              ∙ held
          | inr off ↦
              claim_with-other id lease token write _ _ off
              ∙ (forget-other intent_id id _ records off ∙ held)
        ]
    call-kept (call_complete id token result ttl now write) held (ahead, stranger) =
        elim (Bool-cases (str_eq id intent_id)) [
          | inl same ↦
              ap (get intent_id) (
                refused id r token (unexpired now (get id records)) _ records
                  (found_at id now same held ahead) (stranger same))
              ∙ held
          | inr off ↦
              let kept =
                forget-other intent_id id (unexpired now (get id records)) records off ∙ held in
              either_kept intent_id r (is_owner (unexpired now (get id records)) token) _ _
                (get-put-other intent_id id _ _ off ∙ kept) kept
        ]
    call-kept (call_release id token now) held (ahead, stranger) =
        elim (Bool-cases (str_eq id intent_id)) [
          | inl same ↦
              ap (get intent_id) (
                refused id r token (unexpired now (get id records)) _ records
                  (found_at id now same held ahead) (stranger same))
              ∙ held
          | inr off ↦
              let kept =
                forget-other intent_id id (unexpired now (get id records)) records off ∙ held in
              either_kept intent_id r (is_owner (unexpired now (get id records)) token) _ _
                (get-del-other intent_id id _ off ∙ kept) kept
        ]

  pub calls-kept :
      (intent_id : String) (r : Record) (cs : List Call) (records : Records)
      → get intent_id records ≡ some r
      → All (Bystander intent_id r) cs
      → get intent_id (calls cs records) ≡ some r
  unfolding calls
  calls-kept intent_id r [] records held aside = held
  calls-kept intent_id r (c ∷ cs) records held (by, aside) =
      calls-kept intent_id r cs (call c records) (call-kept intent_id r records c held by) aside
