-- ===== src/Effector/Service/Order.antt =====
-- The order of the effects of one delivery: `process` of effector/service.py.
use beam_agents.Base.{
  ℕ, zero, suc, ◌+◌, ◌*◌, ◌≡◌, refl, String, Bool, true, false, Option, none, some, List, [], ◌∷◌,
  ◌++◌, if◌then◌else◌, arith,
}
use beam_agents.Wire.{ToolIntent, ToolResult, Kind, Status}
use beam_agents.Hitl.{refuse_expired}
use beam_agents.Effector.Dedup.{ClaimOutcome, claimed, in_flight, done}
use beam_agents.Effector.Runner.{Execution, concluded, was_cancelled}
use beam_agents.IntentSigning.{VerificationResult, ok, unsigned, bad_signature, unknown_signing_key}
use beam_agents.Effector.Service.{
  Posting, result_posted, approval_posted, dead_letter_posted, Effect, claim_tried, tool_invoked,
  completed, published, committed, slept, counted, End, finished, publish_failed, Config, Answers,
  VerifyMode, off, permissive, require, by_kind, min, last_sleep, cancelled, waiting, Sending,
  arrived, transport_error, interrupted, attempted, followed, with_retry, claim_loop, status_count,
  publish_then, prefixed, store_result, invocation, execute, route_approval, after_claim,
  after_refusal, dead_letter, verified, past_verification, process,
}

-- an offset committed, or a terminal record refused since the claim was lost
abbrev pub closings : List Effect → ℕ
closings [] = 0
closings (committed ∷ es) = 1 + closings es
closings (completed id r false ∷ es) = 1 + closings es
closings (completed id r true ∷ es) = closings es
closings (_ ∷ es) = closings es

abbrev pub closed_by : End → ℕ
closed_by finished = 1
closed_by _ = 0

closings-append : (xs ys : List Effect) → closings (xs ++ ys) ≡ closings xs + closings ys
closings-append [] ys = omega arith
closings-append (committed ∷ xs) ys = omega (arith, closings-append xs ys)
closings-append (completed id r false ∷ xs) ys = omega (arith, closings-append xs ys)
closings-append (completed id r true ∷ xs) ys = closings-append xs ys
closings-append (claim_tried id ∷ xs) ys = closings-append xs ys
closings-append (tool_invoked id ∷ xs) ys = closings-append xs ys
closings-append (published p s ∷ xs) ys = closings-append xs ys
closings-append (slept b ∷ xs) ys = closings-append xs ys
closings-append (counted c ∷ xs) ys = closings-append xs ys

slept-closings :
    (left backoff : ℕ) (es : List Effect)
    → closings es ≡ 0
    → closings (last_sleep left backoff ++ es) ≡ 0
slept-closings zero backoff es h = h
slept-closings (suc left) backoff es h = h

attempted-closings :
    (x : Sending) (what : Posting) (left backoff : ℕ) (rest : List Effect × End)
    → closings rest.0 ≡ 0
    → closings (attempted x what left backoff rest).0 ≡ 0
attempted-closings arrived what left backoff rest h = refl
attempted-closings interrupted what left backoff rest h = refl
attempted-closings transport_error what left backoff (rest, end) h =
    slept-closings left backoff rest h

retry-closings :
    (what : Posting) (sent : ℕ → Sending) (left backoff : ℕ)
    → closings (with_retry what sent left backoff).0 ≡ 0
unfolding with_retry
retry-closings what sent zero backoff = refl
retry-closings what sent (suc left) backoff =
    attempted-closings (sent left) what left backoff _ (retry-closings what sent left (backoff * 2))

claim-closings :
    (config : Config) (id : String) (os : List ClaimOutcome) (backoff : ℕ) (waited : Bool)
    → closings (claim_loop config id backoff waited os).0 ≡ 0
unfolding claim_loop
claim-closings config id [] backoff waited = refl
claim-closings config id (in_flight ∷ os) backoff true =
    claim-closings config id os (min (backoff * 2) config.in_flight_backoff_max_ms) true
claim-closings config id (in_flight ∷ os) backoff false =
    claim-closings config id os (min (backoff * 2) config.in_flight_backoff_max_ms) true
claim-closings config id (claimed t ∷ os) backoff true = refl
claim-closings config id (claimed t ∷ os) backoff false = refl
claim-closings config id (done r ∷ os) backoff true = refl
claim-closings config id (done r ∷ os) backoff false = refl

-- the log closes as often as its end says
abbrev IsClosed : List Effect × End → Type 0
IsClosed (log, end) = closings log ≡ closed_by end

reached-IsClosed :
    (tries after : List Effect) (end : End)
    → closings tries ≡ 0
    → closings after ≡ 1
    → IsClosed (followed tries after end)
reached-IsClosed tries after finished h k = omega (arith, closings-append tries after)
reached-IsClosed tries after publish_failed h k = h
reached-IsClosed tries after cancelled h k = h
reached-IsClosed tries after waiting h k = h

prefixed-IsClosed :
    (before : List Effect) (p : List Effect × End)
    → closings before ≡ 0
    → IsClosed p
    → IsClosed (before ++ p.0, p.1)
prefixed-IsClosed before (log, end) h k = omega (arith, closings-append before log)

counts-closings : (s : Status) → closings (status_count s) ≡ 0
counts-closings Status.ok = refl
counts-closings Status.error = refl
counts-closings Status.expired = refl
counts-closings Status.rejected = refl
counts-closings Status.status_unspecified = refl

module _ (config : Config) (intent : ToolIntent) (answers : Answers) where
  publish_then-IsClosed :
      (what : Posting) (after : List Effect)
      → closings after ≡ 1
      → IsClosed (publish_then config intent answers what after)
  unfolding publish_then
  publish_then-IsClosed what after k =
      reached-IsClosed
        (with_retry what answers.sent config.publish_max_attempts config.publish_backoff_ms).0 after
        (with_retry what answers.sent config.publish_max_attempts config.publish_backoff_ms).1
        (retry-closings what answers.sent config.publish_max_attempts config.publish_backoff_ms) k

  invocation-closings : (b : Bool) → closings (invocation config intent answers b) ≡ 0
  invocation-closings true = refl
  invocation-closings false = refl

  store_result-IsClosed :
      (stored : Bool) (r : ToolResult)
      → IsClosed (
          prefixed config intent answers
            (completed intent.intent_id (some r) stored ∷ [])
            (store_result config intent answers stored r))
  unfolding store_result
  store_result-IsClosed true r = publish_then-IsClosed (result_posted r) (committed ∷ []) refl
  store_result-IsClosed false r = refl

  execute-IsClosed : (e : Execution) → IsClosed (execute config intent answers e)
  unfolding execute
  execute-IsClosed (was_cancelled b) = invocation-closings b
  execute-IsClosed (concluded b r) =
      simp (closings-append, invocation-closings b, counts-closings r.status)
        (omega (
          arith,
          store_result-IsClosed answers.stored r,
          closings-append (completed intent.intent_id (some r) answers.stored ∷ [])
              (store_result config intent answers answers.stored r).0,
        ))

  marked :
      (stored : Bool)
      → closings (
          completed intent.intent_id none stored
          ∷ (if stored
              then counted "approvals_routed" ∷ committed ∷ []
              else counted "claims_lost" ∷ []))
        ≡ 1
  marked true = refl
  marked false = refl

  route_approval-IsClosed : IsClosed (route_approval config intent answers)
  unfolding route_approval
  route_approval-IsClosed = publish_then-IsClosed (approval_posted intent) _ (marked answers.stored)

  by_kind-IsClosed : (k : Kind) → IsClosed (by_kind config intent answers k)
  by_kind-IsClosed Kind.approval = route_approval-IsClosed
  by_kind-IsClosed Kind.tool = execute-IsClosed answers.execution
  by_kind-IsClosed Kind.kind_unspecified = execute-IsClosed answers.execution

  after_claim-IsClosed : (o : Option ClaimOutcome) → IsClosed (after_claim config intent answers o)
  unfolding after_claim
  after_claim-IsClosed none = refl
  after_claim-IsClosed (some in_flight) = refl
  after_claim-IsClosed (some (done none)) = refl
  after_claim-IsClosed (some (done (some r))) =
      publish_then-IsClosed (result_posted r) (committed ∷ []) refl
  after_claim-IsClosed (some (claimed token)) = by_kind-IsClosed intent.kind

  after_refusal-IsClosed :
      (o : Option ToolResult) → IsClosed (after_refusal config intent answers o)
  unfolding after_refusal
  after_refusal-IsClosed (some refusal) =
      publish_then-IsClosed (result_posted refusal) (committed ∷ []) refl
  after_refusal-IsClosed none =
      let (tries, outcome) =
        claim_loop config intent.intent_id config.in_flight_backoff_ms false answers.claims in
      prefixed-IsClosed tries (after_claim config intent answers outcome)
        (claim-closings config intent.intent_id answers.claims config.in_flight_backoff_ms false)
        (after_claim-IsClosed outcome)

  kept-IsClosed :
      (b : Bool) (p : List Effect × End)
      → IsClosed p
      → IsClosed (if b then p else (committed ∷ [], finished))
  kept-IsClosed true p h = h
  kept-IsClosed false p h = refl

  dead_letter-IsClosed : (reason : String) → IsClosed (dead_letter config intent answers reason)
  unfolding dead_letter
  dead_letter-IsClosed reason =
      kept-IsClosed config.dead_letter_sink
        (publish_then config intent answers (dead_letter_posted intent) (committed ∷ []))
        (publish_then-IsClosed (dead_letter_posted intent) (committed ∷ []) refl)

  verified-closings :
      (m : VerifyMode) (r : VerificationResult)
      → closings (verified config intent answers m r).0 ≡ 0
  unfolding verified
  verified-closings off r = refl
  verified-closings permissive ok = refl
  verified-closings permissive unsigned = refl
  verified-closings permissive bad_signature = refl
  verified-closings permissive unknown_signing_key = refl
  verified-closings require ok = refl
  verified-closings require unsigned = refl
  verified-closings require bad_signature = refl
  verified-closings require unknown_signing_key = refl

  past-IsClosed :
      (p : List Effect × Option String)
      → closings p.0 ≡ 0
      → IsClosed (past_verification config intent answers p)
  unfolding past_verification
  past-IsClosed (counts, some reason) h = dead_letter-IsClosed reason
  past-IsClosed (counts, none) h =
      prefixed-IsClosed counts
        (after_refusal config intent answers (refuse_expired intent answers.now_ms)) h
        (after_refusal-IsClosed (refuse_expired intent answers.now_ms))

  -- A delivery that is processed to its end either commits its offset once or finds its claim
  -- lost once, never both; one that ends in a failed publish, a cancellation or a wait does neither.
  pub process-closes :
      closings (process config intent answers).0 ≡ closed_by (process config intent answers).1
  unfolding process
  process-closes =
      past-IsClosed (verified config intent answers config.verify_intents answers.verification)
        (verified-closings config.verify_intents answers.verification)
