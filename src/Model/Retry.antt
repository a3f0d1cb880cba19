-- ===== src/Model/Retry.antt =====
-- model/facade.py, `_call_with_retry`: the transport's retry loop with its delays. The provider's
-- answer to each attempt and the jitter are arguments.
pub mod Attempts
use beam_agents.Base.{
  ℕ, zero, suc, ◌+◌, ◌-◌, ◌*◌, ◌^◌, ◌≤◌, ◌<◌, ◌≡◌, refl, ap, ◌∙◌, ltb, ◌==◌, max, String, Option,
  none, some, List, [], ◌∷◌, length, All, arith, Bool-cases, inl, inr, if◌then◌else◌,
}
use beam_agents.Wire.{Bytes}
use beam_agents.Core.State.{Cause}

pub record RetryPolicy : Type 0 where
  pub max_attempts : ℕ
  pub base_ms : ℕ
  pub max_ms : ℕ

-- a `ProviderError`; `retry_after_ms` is that of a RateLimitError, where it has one
pub record ProviderError : Type 0 where
  pub type_name : String
  pub retry_after_ms : Option ℕ

-- what one attempt brings: a response, a ProviderError, or any other exception
pub data Attempted : Type 0 where
  responded : Bytes → Attempted
  refused : ProviderError → Attempted
  escaped : Cause → Attempted

-- how the loop ends; `unreachable` is its AssertionError
pub data RetryOutcome : Type 0 where
  succeeded : Bytes → (attempts : ℕ) → RetryOutcome
  exhausted : ProviderError → (attempts : ℕ) → RetryOutcome
  propagated : Cause → (attempts : ℕ) → RetryOutcome
  unreachable : RetryOutcome

-- the outcome, and the delays that were slept, in order
pub record RetryRun : Type 0 where
  pub outcome : RetryOutcome
  pub slept : List ℕ

abbrev min_ℕ : ℕ → ℕ → ℕ
min_ℕ a b = if ltb b a then b else a

-- the delay before the jitter
unfoldable pub pre_jitter : RetryPolicy → (attempt : ℕ) → ℕ
pre_jitter policy attempt = min_ℕ (policy.base_ms * 2 ^ (attempt - 1)) policy.max_ms

abbrev pub at_least : Option ℕ → ℕ → ℕ
at_least none delay_ms = delay_ms
at_least (some retry_after_ms) delay_ms =
    if ltb delay_ms retry_after_ms then retry_after_ms else delay_ms

module _ (policy : RetryPolicy) (uniform : (attempt high : ℕ) → ℕ) where
  -- `_compute_delay_ms`
  unfoldable pub compute_delay_ms : (attempt : ℕ) → ProviderError → ℕ
  unfolding pre_jitter
  compute_delay_ms attempt error =
      let high = pre_jitter policy attempt in
      at_least error.retry_after_ms (if ltb 0 high then uniform attempt high else 0)

  abbrev slept_first : ℕ → RetryRun → RetryRun
  slept_first delay_ms run = record run { slept = delay_ms ∷ run.slept }

  -- one round of the loop, given what the next rounds come to
  abbrev pub round : (attempt : ℕ) → Attempted → RetryRun → RetryRun
  round attempt (responded bytes) rest = record { outcome = succeeded bytes attempt; slept = [] }
  round attempt (escaped cause) rest = record { outcome = propagated cause attempt; slept = [] }
  round attempt (refused error) rest =
      if attempt == policy.max_attempts
      then record { outcome = exhausted error attempt; slept = [] }
      else slept_first (compute_delay_ms attempt error) rest

  -- the loop from an attempt on, with the rounds that are left
  unfoldable pub retry_from : (answers : ℕ → Attempted) (left attempt : ℕ) → RetryRun
  unfolding compute_delay_ms
  retry_from answers zero attempt = record { outcome = unreachable; slept = [] }
  retry_from answers (suc left) attempt =
      let rest = retry_from answers left (attempt + 1) in round attempt (answers attempt) rest

  -- `_call_with_retry`
  unfoldable pub call_with_retry : (answers : ℕ → Attempted) → RetryRun
  unfolding retry_from
  call_with_retry answers = retry_from answers policy.max_attempts 1
