-- ===== src/Effector/Service/Clearance.antt =====
-- When the tool of a delivery is invoked: `process` of effector/service.py.
use beam_agents.Base.{
  ◌≡◌, ◌≢◌, ◌⊎◌, refl, ℤ, String, Bool, true, false, Option, none, some, List, [], ◌∷◌, ◌++◌,
  if◌then◌else◌, arith, inl, inr,
}
use beam_agents.Wire.{Bytes, ToolIntent, ToolResult, Kind}
use beam_agents.Hitl
use beam_agents.Hitl.{refuse_expired}
use beam_agents.Effector.Dedup.{ClaimOutcome, claimed, in_flight, done}
use beam_agents.Effector.Runner.{Execution, concluded, was_cancelled}
use beam_agents.IntentSigning.{VerificationResult, ok, unsigned, bad_signature, unknown_signing_key}
use beam_agents.Effector.Service.{
  Posting, result_posted, approval_posted, dead_letter_posted, Effect, completed, committed,
  counted, End, finished, Config, Answers, VerifyMode, off, permissive, require, by_kind,
  with_retry, claim_loop, publish_then, store_result, execute, route_approval, after_claim,
  after_refusal, dead_letter, verified, past_verification, process,
}
use beam_agents.Effector.Service.Invocations.{
  invocations, invocations-append, retry-invocations, claim-invocations, reached-quiet,
  counts-invocations,
}

-- no invocation, or one for which `C` holds
abbrev pub OnlyIf : Type 0 → List Effect → Type 0
OnlyIf C log = (invocations log ≡ 0) ⊎ ((invocations log ≡ 1) × C)

after_prefix :
    (C : Type 0) (before log : List Effect)
    → invocations before ≡ 0
    → OnlyIf C log
    → OnlyIf C (before ++ log)
after_prefix C before log h (inl quiet) = inl (omega (arith, invocations-append before log))
after_prefix C before log h (inr (once, c)) = inr (omega (arith, invocations-append before log), c)

weaken : (C D : Type 0) (log : List Effect) → (C → D) → OnlyIf C log → OnlyIf D log
weaken C D log f (inl quiet) = inl quiet
weaken C D log f (inr (once, c)) = inr (once, f c)

unexpired :
    (intent : ToolIntent) (now_ms : ℤ)
    → refuse_expired intent now_ms ≡ none
    → Hitl.intent_expired intent now_ms ≡ false
unfolding refuse_expired
unexpired intent now_ms h = ground (arith, h)

module _ (config : Config) (intent : ToolIntent) (answers : Answers) where
  -- what has to hold for the tool to run
  pub record IsCleared : Type 0 where
    pub passed :
        (verified config intent answers config.verify_intents answers.verification).1 ≡ none
    pub in_time : Hitl.intent_expired intent answers.now_ms ≡ false
    pub token : Bytes
    pub won :
        (claim_loop config intent.intent_id config.in_flight_backoff_ms false answers.claims).1
        ≡ some (claimed token)
    pub for_a_tool : intent.kind ≢ Kind.approval

  publish_then-quiet :
      (what : Posting) (after : List Effect)
      → invocations after ≡ 0
      → invocations (publish_then config intent answers what after).0 ≡ 0
  unfolding publish_then
  publish_then-quiet what after k =
      reached-quiet
        (with_retry what answers.sent config.publish_max_attempts config.publish_backoff_ms).0 after
        (with_retry what answers.sent config.publish_max_attempts config.publish_backoff_ms).1
        (retry-invocations what answers.sent config.publish_max_attempts config.publish_backoff_ms)
        k

  store_result-quiet :
      (stored : Bool) (r : ToolResult)
      → invocations (store_result config intent answers stored r).0 ≡ 0
  unfolding store_result
  store_result-quiet true r = publish_then-quiet (result_posted r) (committed ∷ []) refl
  store_result-quiet false r = refl

  execute-once : (e : Execution) → OnlyIf (Unit {0}) (execute config intent answers e).0
  unfolding execute
  execute-once (was_cancelled true) = inr (refl, tt)
  execute-once (was_cancelled false) = inl refl
  execute-once (concluded true r) = inr (
    simp (invocations-append, counts-invocations r.status, store_result-quiet answers.stored r)
        refl,
    tt,
  )
  execute-once (concluded false r) = inl (
      simp (invocations-append, counts-invocations r.status, store_result-quiet answers.stored r)
        refl)

  marked-quiet :
      (stored : Bool)
      → invocations (
          completed intent.intent_id none stored
          ∷ (if stored
              then counted "approvals_routed" ∷ committed ∷ []
              else counted "claims_lost" ∷ []))
        ≡ 0
  marked-quiet true = refl
  marked-quiet false = refl

  by_kind-once : (k : Kind) → OnlyIf (k ≢ Kind.approval) (by_kind config intent answers k).0
  unfolding route_approval
  by_kind-once Kind.approval =
      inl (publish_then-quiet (approval_posted intent) _ (marked-quiet answers.stored))
  by_kind-once Kind.tool =
      weaken (Unit {0}) (Kind.tool ≢ Kind.approval)
        (execute config intent answers answers.execution).0 (λ u e. cc)
        (execute-once answers.execution)
  by_kind-once Kind.kind_unspecified =
      weaken (Unit {0}) (Kind.kind_unspecified ≢ Kind.approval)
        (execute config intent answers answers.execution).0 (λ u e. cc)
        (execute-once answers.execution)

  -- what the phases after the claim ask for
  abbrev Won : Option ClaimOutcome → Type 0
  Won o = (token : Bytes) × (o ≡ some (claimed token)) × (intent.kind ≢ Kind.approval)

  after_claim-once :
      (o : Option ClaimOutcome) → OnlyIf (Won o) (after_claim config intent answers o).0
  unfolding after_claim
  after_claim-once none = inl refl
  after_claim-once (some in_flight) = inl refl
  after_claim-once (some (done none)) = inl refl
  after_claim-once (some (done (some r))) =
      inl (publish_then-quiet (result_posted r) (committed ∷ []) refl)
  after_claim-once (some (claimed token)) =
      weaken (intent.kind ≢ Kind.approval) (Won (some (claimed token)))
        (by_kind config intent answers intent.kind).0 (λ tool. (token, refl, tool))
        (by_kind-once intent.kind)

  abbrev outcome : Option ClaimOutcome
  outcome = (claim_loop config intent.intent_id config.in_flight_backoff_ms false answers.claims).1

  after_refusal-once :
      (o : Option ToolResult)
      → OnlyIf ((o ≡ none) × Won outcome) (after_refusal config intent answers o).0
  unfolding after_refusal
  after_refusal-once (some refusal) =
      inl (publish_then-quiet (result_posted refusal) (committed ∷ []) refl)
  after_refusal-once none =
      let log = (after_claim config intent answers outcome).0 in
      after_prefix ((none ≡ none) × Won outcome)
        (claim_loop config intent.intent_id config.in_flight_backoff_ms false answers.claims).0 log
        (claim-invocations config intent.intent_id answers.claims config.in_flight_backoff_ms false)
        (weaken (Won outcome) ((none ≡ none) × Won outcome) log (λ w. (refl, w))
          (after_claim-once outcome))

  kept-quiet :
      (b : Bool) (p : List Effect × End)
      → invocations p.0 ≡ 0
      → invocations (if◌then◌else◌ {A = List Effect × End} b p (committed ∷ [], finished)).0 ≡ 0
  kept-quiet true p h = h
  kept-quiet false p h = refl

  dead_letter-quiet :
      (reason : String) → invocations (dead_letter config intent answers reason).0 ≡ 0
  unfolding dead_letter
  dead_letter-quiet reason =
      kept-quiet config.dead_letter_sink
        (publish_then config intent answers (dead_letter_posted intent) (committed ∷ []))
        (publish_then-quiet (dead_letter_posted intent) (committed ∷ []) refl)

  verified-quiet :
      (m : VerifyMode) (r : VerificationResult)
      → invocations (verified config intent answers m r).0 ≡ 0
  unfolding verified
  verified-quiet off r = refl
  verified-quiet permissive ok = refl
  verified-quiet permissive unsigned = refl
  verified-quiet permissive bad_signature = refl
  verified-quiet permissive unknown_signing_key = refl
  verified-quiet require ok = refl
  verified-quiet require unsigned = refl
  verified-quiet require bad_signature = refl
  verified-quiet require unknown_signing_key = refl

  past-once :
      (p : List Effect × Option String)
      → invocations p.0 ≡ 0
      → OnlyIf
          ((p.1 ≡ none) × ((refuse_expired intent answers.now_ms ≡ none) × Won outcome))
          (past_verification config intent answers p).0
  unfolding past_verification
  past-once (counts, some reason) h = inl (dead_letter-quiet reason)
  past-once (counts, none) h =
      let C : Type 0 = (refuse_expired intent answers.now_ms ≡ none) × Won outcome in
      let log = (after_refusal config intent answers (refuse_expired intent answers.now_ms)).0 in
      after_prefix ((none ≡ none) × C) counts log h (
        weaken C ((none ≡ none) × C) log (λ c. (refl, c))
          (after_refusal-once (refuse_expired intent answers.now_ms)))

  -- A delivery invokes its tool at most once, and only when verification let the intent pass, it
  -- had not expired, its claim was won, and it is not an approval request.
  pub process-invokes : OnlyIf IsCleared (process config intent answers).0
  unfolding process
  process-invokes =
      let verdict = verified config intent answers config.verify_intents answers.verification in
      weaken ((verdict.1 ≡ none) × ((refuse_expired intent answers.now_ms ≡ none) × Won outcome))
        IsCleared (past_verification config intent answers verdict).0
        (λ c. record {
          passed = c.0;
          in_time = unexpired intent answers.now_ms c.1.0;
          token = c.1.1.0;
          won = c.1.1.1;
          for_a_tool = c.1.1.2;
        })
        (past-once verdict (verified-quiet config.verify_intents answers.verification))
