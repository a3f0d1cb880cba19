-- ===== src/Effector/Service.antt =====
-- effector/service.py, `EffectorService`: one delivery through every phase. What the collaborators
-- answer is an argument, and what the service does is the list of its effects, in order.
pub mod Order
pub mod Invocations
pub mod Clearance
pub mod Durable
use beam_agents.Base.{
  ℕ, zero, suc, ◌+◌, ◌*◌, ◌==◌, leb, ℤ, String, Bool, true, false, Option, none, some, List, [],
  ◌∷◌, ◌++◌, if◌then◌else◌,
}
use beam_agents.Wire.{ToolIntent, ToolResult, Kind, Status}
use beam_agents.Hitl.{refuse_expired}
use beam_agents.IntentSigning.{
  VerificationResult, ok, unsigned, bad_signature, unknown_signing_key, reason_of,
}
use beam_agents.Effector.Dedup.{ClaimOutcome, claimed, in_flight, done}
use beam_agents.Effector.Runner.{Execution, concluded, was_cancelled}

-- VERIFICATION_MODES
pub data VerifyMode : Type 0 where
  off permissive require : VerifyMode

pub data Posting : Type 0 where
  result_posted : ToolResult → Posting
  approval_posted dead_letter_posted : ToolIntent → Posting

pub data Effect : Type 0 where
  claim_tried : String → Effect
  tool_invoked : String → Effect
  completed : String → Option ToolResult → (stored : Bool) → Effect
  published : Posting → (sent : Bool) → Effect
  committed : Effect
  slept : (backoff_ms : ℕ) → Effect
  counted : String → Effect

-- `PublishFailedError`, a cancellation, or a wait that goes on
pub data End : Type 0 where
  finished publish_failed cancelled waiting : End

pub record Config : Type 0 where
  pub verify_intents : VerifyMode
  pub dead_letter_sink : Bool
  pub in_flight_backoff_ms : ℕ
  pub in_flight_backoff_max_ms : ℕ
  pub publish_max_attempts : ℕ
  pub publish_backoff_ms : ℕ

-- how an attempt to publish ends; `interrupted` is a cancellation in it, or in the sleep before it
pub data Sending : Type 0 where
  arrived transport_error interrupted : Sending

-- The answers to one delivery. `claims` are the outcomes of the claims in turn, `sent` says how the
-- attempts to publish end, by how many are left after them.
pub record Answers : Type 0 where
  pub verification : VerificationResult
  pub now_ms : ℤ
  pub claims : List ClaimOutcome
  pub execution : Execution
  pub stored : Bool
  pub sent : ℕ → Sending

abbrev pub min : ℕ → ℕ → ℕ
min a b = if leb a b then a else b

abbrev pub last_sleep : ℕ → ℕ → List Effect
last_sleep zero backoff_ms = []
last_sleep (suc left) backoff_ms = slept backoff_ms ∷ []

-- one round of `_with_retry`, given what the next rounds come to
abbrev pub attempted :
    Sending → Posting → (left backoff_ms : ℕ) → List Effect × End → List Effect × End
attempted arrived what left backoff_ms rest = (published what true ∷ [], finished)
attempted interrupted what left backoff_ms rest = ([], cancelled)
attempted transport_error what left backoff_ms (rest, end) =
    (published what false ∷ (counted "publish_retries" ∷ (last_sleep left backoff_ms ++ rest)), end)

-- `_with_retry`, with `left` attempts left
unfoldable pub with_retry : Posting → (ℕ → Sending) → (left backoff_ms : ℕ) → List Effect × End
with_retry what sent zero backoff_ms = (counted "publish_failures" ∷ [], publish_failed)
with_retry what sent (suc left) backoff_ms =
    attempted (sent left) what left backoff_ms (with_retry what sent left (backoff_ms * 2))

-- what follows a publish that succeeded
abbrev pub followed : (tries after : List Effect) → End → List Effect × End
followed tries after finished = (tries ++ after, finished)
followed tries after end = (tries, end)

-- `_claim`, over the answers that come
unfoldable pub claim_loop :
    Config
    → String
    → (backoff_ms : ℕ) → (waited : Bool) → List ClaimOutcome
    → List Effect × Option ClaimOutcome
claim_loop config intent_id backoff_ms waited [] = ([], none)
claim_loop config intent_id backoff_ms waited (in_flight ∷ outcomes) =
    let (rest, outcome) =
      claim_loop config intent_id (min (backoff_ms * 2) config.in_flight_backoff_max_ms) true
        outcomes in
    (
      claim_tried intent_id
          ∷ ((if waited then [] else counted "in_flight_waits" ∷ []) ++ slept backoff_ms ∷ rest),
      outcome,
    )
claim_loop config intent_id backoff_ms waited (outcome ∷ outcomes) = (
  claim_tried intent_id ∷ (if waited then counted "in_flight_waits_resolved" ∷ [] else []),
  some outcome,
)

abbrev pub status_count : Status → List Effect
status_count Status.ok = counted "results_ok" ∷ []
status_count Status.error = counted "results_error" ∷ []
status_count Status.expired = counted "results_expired" ∷ []
status_count Status.rejected = counted "results_rejected" ∷ []
status_count Status.status_unspecified = []

module _ (config : Config) (intent : ToolIntent) (answers : Answers) where
  -- a publish with its retries, and what follows when it succeeds
  unfoldable pub publish_then : Posting → List Effect → List Effect × End
  unfolding with_retry
  publish_then what after =
      let (tries, end) =
        with_retry what answers.sent config.publish_max_attempts config.publish_backoff_ms in
      followed tries after end

  abbrev pub prefixed : List Effect → List Effect × End → List Effect × End
  prefixed before (log, end) = (before ++ log, end)

  -- the phases of `_execute` once the tool has run
  unfoldable pub store_result : (stored : Bool) → ToolResult → List Effect × End
  store_result true result = publish_then (result_posted result) (committed ∷ [])
  store_result false result = (counted "claims_lost" ∷ [], finished)

  abbrev pub invocation : Bool → List Effect
  invocation true = tool_invoked intent.intent_id ∷ []
  invocation false = []

  -- `_execute`
  unfoldable pub execute : Execution → List Effect × End
  unfolding store_result
  execute (was_cancelled invoked) = (invocation invoked, cancelled)
  execute (concluded invoked result) =
      prefixed
        (invocation invoked
          ++ (status_count result.status
              ++ completed intent.intent_id (some result) answers.stored ∷ []))
        (store_result answers.stored result)

  -- `_route_approval`: published before it is marked
  unfoldable pub route_approval : List Effect × End
  unfolding publish_then
  route_approval = publish_then (approval_posted intent) (
      completed intent.intent_id none answers.stored
      ∷ (if answers.stored
          then counted "approvals_routed" ∷ committed ∷ []
          else counted "claims_lost" ∷ []))

  abbrev pub by_kind : Kind → List Effect × End
  by_kind Kind.approval = route_approval
  by_kind _ = execute answers.execution

  -- the phases after the claim
  unfoldable pub after_claim : Option ClaimOutcome → List Effect × End
  unfolding execute route_approval
  after_claim none = ([], waiting)
  after_claim (some in_flight) = ([], waiting)
  after_claim (some (done none)) = (counted "intents_deduped" ∷ committed ∷ [], finished)
  after_claim (some (done (some result))) =
      prefixed (counted "intents_deduped" ∷ [])
        (publish_then (result_posted result) (committed ∷ []))
  after_claim (some (claimed token)) = by_kind intent.kind

  -- the phases from the expiry check on
  unfoldable pub after_refusal : Option ToolResult → List Effect × End
  unfolding after_claim claim_loop
  after_refusal (some refusal) =
      prefixed (counted "intents_expired" ∷ [])
        (publish_then (result_posted refusal) (committed ∷ []))
  after_refusal none =
      let (tries, outcome) =
        claim_loop config intent.intent_id config.in_flight_backoff_ms false answers.claims in
      prefixed tries (after_claim outcome)

  -- `_dead_letter`
  unfoldable pub dead_letter : (reason : String) → List Effect × End
  unfolding publish_then
  dead_letter reason = prefixed (counted reason ∷ counted "intents_dead_lettered" ∷ []) (
      if config.dead_letter_sink
      then publish_then (dead_letter_posted intent) (committed ∷ [])
      else (committed ∷ [], finished))

  -- `_verified`: what it counts, and the reason to refuse
  unfoldable pub verified : VerifyMode → VerificationResult → List Effect × Option String
  unfolding reason_of
  verified off answer = ([], none)
  verified permissive ok = ([], none)
  verified permissive unsigned = (counted "unsigned_intents_accepted" ∷ [], none)
  verified permissive bad_signature = ([], some (reason_of bad_signature))
  verified permissive unknown_signing_key = ([], some (reason_of unknown_signing_key))
  verified require ok = ([], none)
  verified require unsigned = ([], some (reason_of unsigned))
  verified require bad_signature = ([], some (reason_of bad_signature))
  verified require unknown_signing_key = ([], some (reason_of unknown_signing_key))

  unfoldable pub past_verification : List Effect × Option String → List Effect × End
  unfolding dead_letter after_refusal
  past_verification (counts, some reason) = dead_letter reason
  past_verification (counts, none) =
      prefixed counts (after_refusal (refuse_expired intent answers.now_ms))

  -- `process`
  unfoldable pub process : List Effect × End
  unfolding past_verification verified
  process = past_verification (verified config.verify_intents answers.verification)
