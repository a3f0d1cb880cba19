-- ===== src/Model/FacadeTests.antt =====
-- The retry loop and `complete` of model/facade.py at concrete inputs: the provider refuses the
-- first attempt of every call and answers the second.
use beam_agents.Base.{
  ℕ, ◌/◌, leb, if◌then◌else◌, Bool-cases, inl, inr, ◌≤◌, ◌≡◌, refl, pos, max, length, none, some,
  false, [], ◌∷◌, All, arith,
}
use beam_agents.Core.State.{Cause}
use beam_agents.Model.Breaker.{new_breaker, IsSane}
use beam_agents.Model.ReplayCache.{blank_cache}
use beam_agents.Model.Retry.{
  RetryPolicy, Attempted, responded, refused, escaped, ProviderError, call_with_retry, at_least,
}
use beam_agents.Model.Retry.Attempts.{Ended, call_with_retry-Ended}
use beam_agents.Model.Facade.{LlmFacade, Call, FacadeState, complete, foreign, decode_error}
use beam_agents.Model.Facade.Settled.{Settles, complete-IsSettled}

abbrev policy : RetryPolicy
policy = record { max_attempts = 3; base_ms = 100; max_ms = 1000 }

abbrev busy : ProviderError
busy = record { type_name = "RateLimitError"; retry_after_ms = some 250 }

abbrev answers : ℕ → Attempted
answers n = if leb n 1 then refused busy else responded (1 ∷ 2 ∷ [])

-- half of the range
abbrev half : ℕ → ℕ → ℕ
half attempt high = high / 2

half-le : (attempt high : ℕ) → half attempt high ≤ high
half-le attempt high = omega arith

asks : (k : ℕ) (e : ProviderError) → answers k ≡ refused e → at_least e.retry_after_ms 0 ≤ 250
asks k e h = elim (Bool-cases (leb k 1)) [
  | inl first ↦
      (let said : refused busy ≡ refused e = rw first at h in
        let same : busy ≡ e = cc in rw⁻¹ same (omega arith))
  | inr later ↦ (let clash : responded (1 ∷ 2 ∷ []) ≡ refused e = rw later at h in cc)
]

slept : (call_with_retry policy half answers).slept ≡ 250 ∷ []
unfolding call_with_retry
slept = refl

call_with_retry-Ended_example :
    Ended policy half answers 1
      (call_with_retry policy half answers).outcome
      (length (call_with_retry policy half answers).slept)
    × All (λ d. d ≤ max 1000 250) (call_with_retry policy half answers).slept
call_with_retry-Ended_example =
    call_with_retry-Ended policy half half-le 250 answers (omega arith) asks

abbrev facade : LlmFacade
facade = record {
  codec = record { sha256 = λ b. 7 ∷ []; byte_size = λ p. 100 };
  hexdigest = λ d. "digest";
  now_ms = pos 100;
  retry_policy = policy;
  uniform = half;
  decode = λ b. some (record {
    usage = record { prompt_tokens = 3; completion_tokens = 4; total_tokens = 7 };
    text = "";
  });
  provider = λ asked request. answers;
}

abbrev call : Call
call = record {
  request = record { model_id = "m"; messages = "[]"; tools_schema = "[]"; sampling_params = "{}" };
  output_schema = none;
  entity_key = 117 ∷ [];
  seq = 4;
  step_index = 0;
}

abbrev state : FacadeState
state = record {
  replay_cache = blank_cache (pos 100);
  breaker = new_breaker 2 (pos 10);
  budget = some (record { limit = 10; consumed = 0; exhausted = false });
  traces = [];
  usages = [];
  asked = 0;
}

asked_twice :
    ((complete facade call state).1.asked ≡ 2) × (length (complete facade call state).1.traces ≡ 1)
unfolding complete new_breaker
asked_twice = (refl, refl)

abbrev refusal : Cause
refusal = record {
  repr = "refused";
  type_name = "ProviderRequestError";
  is_budget_exceeded = false;
}

-- a request that the provider cannot serve ends the call with no event and the breaker as it was
unserved :
    ((complete (record facade { provider = λ asked request k. escaped refusal }) call state).0
      ≡ foreign refusal)
    × ((complete
          (record facade { provider = λ asked request k. escaped refusal })
          call
          state).1.traces
        ≡ [])
unfolding complete new_breaker
unserved = (refl, refl)

-- so does a response that does not decode, which is in the cache by then
undecoded :
    ((complete (record facade { decode = λ b. none }) call state).0 ≡ decode_error)
    × (length (complete (record facade { decode = λ b. none }) call state).1.replay_cache.entries
        ≡ 1)
unfolding complete new_breaker
undecoded = (refl, refl)

breaker-IsSane : IsSane (new_breaker 2 (pos 10))
unfolding new_breaker
breaker-IsSane = record { positive = omega arith; clocked = λ o. cc; counting = λ c. omega arith }

complete-IsSettled_example : Settles facade call (omega arith) state (complete facade call state)
complete-IsSettled_example = complete-IsSettled facade call (omega arith) state breaker-IsSane refl
