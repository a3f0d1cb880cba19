-- ===== src/Model/Facade.antt =====
-- model/facade.py, `LlmFacade.complete`: cache, breaker, retries, decoding, budget, output schema
-- and trace. The provider's answers, the jitter and the decoder are arguments; `asked` counts
-- attempts.
pub mod Settled
use beam_agents.Base.{
  ℕ, ◌+◌, ℤ, String, Bool, true, false, Option, none, some, List, [], ◌∷◌, ◌++◌, if◌then◌else◌,
}
use beam_agents.Wire.{Bytes}
use beam_agents.Core.State.{Cause, TokenUsage}
use beam_agents.Core.Context.{LlmRequest, CacheDocument, compute_cache_key}
use beam_agents.Model.Budget.{TokenBudget, charge}
use beam_agents.Model.Breaker.{
  CircuitState, CircuitBreaker, Gate, admitted, circuit_open, assertion_failed, before_call,
  record_success, record_failure,
}
use beam_agents.Model.Retry.{
  RetryPolicy, ProviderError, Attempted, RetryOutcome, succeeded, exhausted, propagated,
  unreachable, call_with_retry,
}
use beam_agents.Model.ReplayCache.{Codec, ReplayCache, ReplayEntry, get, put}

pub record DecodedResponse : Type 0 where
  pub usage : TokenUsage
  pub text : String

-- an `output_schema`: the request that it is folded into, and its validation
pub record OutputSchema : Type 0 where
  pub fold : LlmRequest → LlmRequest
  pub validates : String → Bool

pub record FacadeResult : Type 0 where
  pub response : Bytes
  pub usage : TokenUsage
  pub cache_hit : Bool
  pub attempts : ℕ

-- how `complete` ends
pub data FacadeEnd : Type 0 where
  returned : FacadeResult → FacadeEnd
  over_budget : (limit consumed : ℕ) → FacadeEnd
  circuit_open_error schema_error assertion_error : FacadeEnd
  -- the decoder raised
  decode_error : FacadeEnd
  provider_failed : ProviderError → FacadeEnd
  foreign : Cause → FacadeEnd

-- the LLM_CALL event of `_stage_trace`
pub record LlmTrace : Type 0 where
  pub step_index : ℕ
  pub model_id : String
  pub cache_hit : Bool
  pub attempts : ℕ
  pub circuit_state : CircuitState
  pub usage : Option TokenUsage
  pub error_type : Option String

-- the objects that `complete` changes, and the usage that it accumulates
pub record FacadeState : Type 0 where
  pub replay_cache : ReplayCache
  pub breaker : CircuitBreaker
  pub budget : Option TokenBudget
  pub traces : List LlmTrace
  pub usages : List TokenUsage
  pub asked : ℕ

pub record LlmFacade : Type 0 where
  pub codec : Codec
  pub hexdigest : CacheDocument → String
  pub now_ms : ℤ
  pub retry_policy : RetryPolicy
  pub uniform : (attempt high : ℕ) → ℕ
  -- `none` where it raises
  pub decode : Bytes → Option DecodedResponse
  -- the provider, by how often it was asked before and the attempt
  pub provider : (asked : ℕ) → LlmRequest → (attempt : ℕ) → Attempted

pub record Call : Type 0 where
  pub request : LlmRequest
  pub output_schema : Option OutputSchema
  pub entity_key : Bytes
  pub seq : ℕ
  pub step_index : ℕ

-- `_fold_output_schema`
abbrev pub effective : Option OutputSchema → LlmRequest → LlmRequest
effective none request = request
effective (some schema) request = schema.fold request

abbrev pub validates : Option OutputSchema → String → Bool
validates none text = true
validates (some schema) text = schema.validates text

module _ (self : LlmFacade) (call : Call) where
  abbrev pub effective_request : LlmRequest
  effective_request = effective call.output_schema call.request

  -- `_stage_trace`
  unfoldable pub stage_trace :
      (cache_hit : Bool) (attempts : ℕ)
      → Option TokenUsage
      → (error_type : Option String) → FacadeState
      → FacadeState
  stage_trace cache_hit attempts usage error_type s = record s {
    traces =
        s.traces
        ++ record {
          step_index = call.step_index;
          model_id = effective_request.model_id;
          cache_hit = cache_hit;
          attempts = attempts;
          circuit_state = s.breaker.state;
          usage = usage;
          error_type = error_type;
        }
          ∷ [];
  }

  -- the end of `_finish`, from the output schema on
  unfoldable pub parse_output :
      (cache_hit : Bool) (attempts : ℕ)
      → Bytes
      → DecodedResponse
      → FacadeState
      → FacadeEnd × FacadeState
  unfolding stage_trace
  parse_output cache_hit attempts bytes decoded s =
      if validates call.output_schema decoded.text
      then (
        returned (record {
          response = bytes;
          usage = decoded.usage;
          cache_hit = cache_hit;
          attempts = attempts;
        }),
        stage_trace cache_hit attempts (some decoded.usage) none s,
      )
      else (
        schema_error,
        stage_trace cache_hit attempts (some decoded.usage) (some "ValidationError") s,
      )

  abbrev pub charged :
      (cache_hit : Bool) (attempts : ℕ)
      → Bytes
      → DecodedResponse
      → Option TokenBudget
      → FacadeState
      → FacadeEnd × FacadeState
  charged cache_hit attempts bytes decoded none s = parse_output cache_hit attempts bytes decoded s
  charged cache_hit attempts bytes decoded (some b) s =
      let (fine, b1) = charge decoded.usage.total_tokens b in
      let s1 : FacadeState = record s { budget = some b1 } in
      if fine then parse_output cache_hit attempts bytes decoded s1 else (
        over_budget b1.limit b1.consumed,
        stage_trace cache_hit attempts (some decoded.usage) (some "BudgetExceeded") s1,
      )

  -- `_finish`, of what the decoder gave
  abbrev pub finish_decoded :
      (cache_hit : Bool) (attempts : ℕ)
      → Bytes
      → Option DecodedResponse
      → FacadeState
      → FacadeEnd × FacadeState
  finish_decoded cache_hit attempts bytes none s = (decode_error, s)
  finish_decoded cache_hit attempts bytes (some decoded) s =
      charged cache_hit attempts bytes decoded s.budget
        (record s { usages = if cache_hit then s.usages else s.usages ++ decoded.usage ∷ [] })

  -- `_finish`
  unfoldable pub finish :
      (cache_hit : Bool) (attempts : ℕ) → Bytes → FacadeState → FacadeEnd × FacadeState
  unfolding parse_output stage_trace charge
  finish cache_hit attempts bytes s = finish_decoded cache_hit attempts bytes (self.decode bytes) s

  -- what follows `_call_with_retry`
  abbrev pub after_retry :
      (cache_key : String) → RetryOutcome → FacadeState → FacadeEnd × FacadeState
  after_retry cache_key (succeeded bytes n) s = finish false n bytes (record s {
    breaker = record_success s.breaker;
    replay_cache = put self.codec cache_key bytes s.replay_cache;
    asked = s.asked + n;
  })
  after_retry cache_key (exhausted error n) s = (
    provider_failed error,
    stage_trace false n none (some error.type_name)
        (record s { breaker = record_failure self.now_ms s.breaker; asked = s.asked + n }),
  )
  after_retry cache_key (propagated cause n) s = (foreign cause, record s { asked = s.asked + n })
  after_retry cache_key unreachable s = (assertion_error, s)

  abbrev pub after_gate : (cache_key : String) → Gate → FacadeState → FacadeEnd × FacadeState
  after_gate cache_key circuit_open s =
      (circuit_open_error, stage_trace false 0 none (some "CircuitOpenError") s)
  after_gate cache_key assertion_failed s = (assertion_error, s)
  after_gate cache_key admitted s =
      after_retry cache_key
        (call_with_retry self.retry_policy self.uniform
          (self.provider s.asked effective_request)).outcome
        s

  -- a miss: `before_call`, and then the provider
  unfoldable pub call_provider : (cache_key : String) → FacadeState → FacadeEnd × FacadeState
  unfolding before_call record_success record_failure call_with_retry stage_trace finish put
  call_provider cache_key s =
      let (gate, breaker) = before_call self.now_ms s.breaker in
      after_gate cache_key gate (record s { breaker = breaker })

  abbrev pub after_lookup :
      (cache_key : String) → Option ReplayEntry → FacadeState → FacadeEnd × FacadeState
  after_lookup cache_key none s = call_provider cache_key s
  after_lookup cache_key (some entry) s =
      if entry.digest_only then call_provider cache_key s else finish true 0 entry.response s

  -- past the check of the budget
  unfoldable pub look_up : FacadeState → FacadeEnd × FacadeState
  unfolding call_provider finish get compute_cache_key
  look_up s =
      let cache_key = compute_cache_key self.hexdigest effective_request call.entity_key call.seq in
      let (cached, replay_cache) = get cache_key s.replay_cache in
      after_lookup cache_key cached (record s { replay_cache = replay_cache })

  abbrev pub with_budget : Option TokenBudget → FacadeState → FacadeEnd × FacadeState
  with_budget none s = look_up s
  with_budget (some b) s = if b.exhausted then (over_budget b.limit b.consumed, s) else look_up s

  -- `complete`
  unfoldable pub complete : FacadeState → FacadeEnd × FacadeState
  unfolding look_up
  complete s = with_budget s.budget s
