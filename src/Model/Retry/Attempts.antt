-- ===== src/Model/Retry/Attempts.antt =====
-- model/facade.py, `_call_with_retry`: how its attempts end, and how long it sleeps between them.
use beam_agents.Base.{
  ℕ, zero, suc, ◌+◌, ◌≤◌, ◌<◌, ◌≡◌, refl, ap, ◌∙◌, ltb, ◌==◌, max, Option, none, some, List, length,
  All, arith, Bool-cases, inl, inr, if◌then◌else◌,
}
use beam_agents.Wire.{Bytes}
use beam_agents.Core.State.{Cause}
use beam_agents.Model.Retry.{
  RetryPolicy, ProviderError, Attempted, responded, refused, escaped, RetryOutcome, succeeded,
  exhausted, propagated, RetryRun, pre_jitter, at_least, compute_delay_ms, round, retry_from,
  call_with_retry,
}

module _ (policy : RetryPolicy) (uniform : (attempt high : ℕ) → ℕ) where
  -- the attempts from `first` on below `n` are refused
  abbrev Refused : (ℕ → Attempted) → ℕ → ℕ → Type 0
  Refused answers first n =
      (k : ℕ) → first ≤ k → k < n → (e : ProviderError) × (answers k ≡ refused e)

  -- an independent description of the end of the loop
  pub data Ended (answers : ℕ → Attempted) (first : ℕ) : RetryOutcome → (slept : ℕ) → Type 0 where
    by_response :
        (bytes : Bytes) (n slept : ℕ)
        → answers n ≡ responded bytes
        → first ≤ n
        → n ≤ policy.max_attempts
        → Refused answers first n
        → first + slept ≡ n
        → Ended answers first (succeeded bytes n) slept
    by_escape :
        (cause : Cause) (n slept : ℕ)
        → answers n ≡ escaped cause
        → first ≤ n
        → n ≤ policy.max_attempts
        → Refused answers first n
        → first + slept ≡ n
        → Ended answers first (propagated cause n) slept
    by_exhaustion :
        (e : ProviderError) (n slept : ℕ)
        → answers n ≡ refused e
        → first ≤ n
        → n ≡ policy.max_attempts
        → Refused answers first n
        → first + slept ≡ n
        → Ended answers first (exhausted e n) slept

  none_between : (answers : ℕ → Attempted) (n : ℕ) → Refused answers n n
  none_between answers n k le lt = absurd (omega (arith, le, lt))

  one_refused :
      (answers : ℕ → Attempted) (first n : ℕ) (e : ProviderError)
      → answers first ≡ refused e
      → Refused answers (first + 1) n
      → Refused answers first n
  one_refused answers first n e h rest k le lt = elim (Bool-cases (k == first)) [
    | inl same ↦ (let at : k ≡ first = ground (arith, same) in (e, ap answers at ∙ h))
    | inr other ↦ rest k (ground (arith, other, le)) lt
  ]

  Ended-later :
      (answers : ℕ → Attempted) (first slept : ℕ) (o : RetryOutcome) (e : ProviderError)
      → answers first ≡ refused e
      → Ended answers (first + 1) o slept
      → Ended answers first o (suc slept)
  Ended-later answers first slept o e h (by_response bytes n s at le top rest count) =
      by_response bytes n (suc s) at (omega (arith, le)) top (one_refused answers first n e h rest)
        (omega (arith, count))
  Ended-later answers first slept o e h (by_escape cause n s at le top rest count) =
      by_escape cause n (suc s) at (omega (arith, le)) top (one_refused answers first n e h rest)
        (omega (arith, count))
  Ended-later answers first slept o e h (by_exhaustion x n s at le top rest count) =
      by_exhaustion x n (suc s) at (omega (arith, le)) top (one_refused answers first n e h rest)
        (omega (arith, count))

  round-Ended :
      (answers : ℕ → Attempted) (attempt : ℕ) (a : Attempted) (rest : RetryRun)
      → answers attempt ≡ a
      → attempt ≤ policy.max_attempts
      → (attempt < policy.max_attempts
          → Ended answers (attempt + 1) rest.outcome (length rest.slept))
      → Ended answers attempt
          (round policy uniform attempt a rest).outcome
          (length (round policy uniform attempt a rest).slept)
  round-Ended answers attempt (responded bytes) rest h le later =
      by_response bytes attempt 0 h (omega arith) le (none_between answers attempt) (omega arith)
  round-Ended answers attempt (escaped cause) rest h le later =
      by_escape cause attempt 0 h (omega arith) le (none_between answers attempt) (omega arith)
  round-Ended answers attempt (refused e) rest h le later =
      elim (Bool-cases (attempt == policy.max_attempts)) [
        | inl last ↦ rw last (
            by_exhaustion e attempt 0 h (omega arith) (ground (arith, last))
              (none_between answers attempt) (omega arith))
        | inr more ↦ rw more (
            Ended-later answers attempt (length rest.slept) rest.outcome e h
              (later (ground (arith, more, le))))
      ]

  retry_from-Ended :
      (answers : ℕ → Attempted) (left attempt : ℕ)
      → attempt + left ≡ suc policy.max_attempts
      → 1 ≤ left
      → Ended answers attempt
          (retry_from policy uniform answers left attempt).outcome
          (length (retry_from policy uniform answers left attempt).slept)
  unfolding retry_from
  retry_from-Ended answers zero attempt total some_left = absurd (omega (arith, some_left))
  retry_from-Ended answers (suc left) attempt total some_left =
      round-Ended answers attempt (answers attempt)
        (retry_from policy uniform answers left (attempt + 1)) refl (omega (arith, total))
        (λ lt.
          retry_from-Ended answers left (attempt + 1) (omega (arith, total))
            (omega (arith, total, lt)))

  pub retry-Ended :
      (answers : ℕ → Attempted)
      → 1 ≤ policy.max_attempts
      → Ended answers 1
          (call_with_retry policy uniform answers).outcome
          (length (call_with_retry policy uniform answers).slept)
  unfolding call_with_retry
  retry-Ended answers positive =
      retry_from-Ended answers policy.max_attempts 1 (omega arith) positive

  at_least-le :
      (o : Option ℕ) (d low most : ℕ) → d ≤ low → at_least o 0 ≤ most → at_least o d ≤ max low most
  at_least-le none d low most small asked = omega (arith, small)
  at_least-le (some r) d low most small asked = ground (arith, small, asked)

  pre_jitter-le : (attempt : ℕ) → pre_jitter policy attempt ≤ policy.max_ms
  unfolding pre_jitter
  pre_jitter-le attempt = ground arith

  module _ (jitter : (a high : ℕ) → uniform a high ≤ high) (most : ℕ) where
    delay-le :
        (attempt : ℕ) (e : ProviderError)
        → at_least e.retry_after_ms 0 ≤ most
        → compute_delay_ms policy uniform attempt e ≤ max policy.max_ms most
    unfolding compute_delay_ms
    delay-le attempt e asked =
        let high = pre_jitter policy attempt in
        let drawn = jitter attempt high in
        at_least-le e.retry_after_ms (if ltb 0 high then uniform attempt high else 0) policy.max_ms
          most (ground (arith, drawn, pre_jitter-le attempt)) asked

    abbrev Short : List ℕ → Type 0
    Short = All (λ d. d ≤ max policy.max_ms most)

    round-Short :
        (attempt : ℕ) (a : Attempted) (rest : RetryRun)
        → ((e : ProviderError) → a ≡ refused e → at_least e.retry_after_ms 0 ≤ most)
        → Short rest.slept
        → Short (round policy uniform attempt a rest).slept
    round-Short attempt (responded bytes) rest asks h = tt
    round-Short attempt (escaped cause) rest asks h = tt
    round-Short attempt (refused e) rest asks h =
        elim (Bool-cases (attempt == policy.max_attempts)) [
          | inl last ↦ rw last tt
          | inr more ↦ rw more (delay-le attempt e (asks e refl), h)
        ]

    retry_from-Short :
        (answers : ℕ → Attempted) (left attempt : ℕ)
        → ((k : ℕ) (e : ProviderError) → answers k ≡ refused e → at_least e.retry_after_ms 0 ≤ most)
        → Short (retry_from policy uniform answers left attempt).slept
    unfolding retry_from
    retry_from-Short answers zero attempt asks = tt
    retry_from-Short answers (suc left) attempt asks =
        round-Short attempt (answers attempt) (retry_from policy uniform answers left (attempt + 1))
          (asks attempt) (retry_from-Short answers left (attempt + 1) asks)

    -- With at least one attempt allowed, the loop ends, and never at its assertion: with the
    -- response or the foreign exception of an attempt that only refused ones precede, or with the
    -- last refusal when all `max_attempts` are refused. It sleeps once between two attempts, and
    -- each time at most the policy's maximum, or what a rate limit asked for where that is more
    -- (`most` bounds it).
    pub call_with_retry-Ended :
        (answers : ℕ → Attempted)
        → 1 ≤ policy.max_attempts
        → ((k : ℕ) (e : ProviderError) → answers k ≡ refused e → at_least e.retry_after_ms 0 ≤ most)
        → Ended answers 1
            (call_with_retry policy uniform answers).outcome
            (length (call_with_retry policy uniform answers).slept)
          × All (λ d. d ≤ max policy.max_ms most) (call_with_retry policy uniform answers).slept
    unfolding call_with_retry
    call_with_retry-Ended answers positive asks =
        (retry-Ended answers positive, retry_from-Short answers policy.max_attempts 1 asks)
