-- ===== src/Effector/Service/Invocations.antt =====
-- How often the tool is invoked along a list of effects of effector/service.py.
use beam_agents.Base.{
  ℕ, zero, suc, ◌+◌, ◌*◌, ◌≡◌, refl, String, Bool, true, false, List, [], ◌∷◌, ◌++◌, arith,
}
use beam_agents.Wire.{Status}
use beam_agents.Effector.Dedup.{ClaimOutcome, claimed, in_flight, done}
use beam_agents.Effector.Service.{
  Posting, Effect, claim_tried, tool_invoked, completed, published, committed, slept, counted, End,
  finished, publish_failed, Config, min, last_sleep, cancelled, waiting, Sending, arrived,
  transport_error, interrupted, attempted, followed, with_retry, claim_loop, status_count,
}

abbrev pub invocations : List Effect → ℕ
invocations [] = 0
invocations (tool_invoked id ∷ es) = 1 + invocations es
invocations (_ ∷ es) = invocations es

pub invocations-append :
    (xs ys : List Effect) → invocations (xs ++ ys) ≡ invocations xs + invocations ys
invocations-append [] ys = omega arith
invocations-append (tool_invoked id ∷ xs) ys = omega (arith, invocations-append xs ys)
invocations-append (committed ∷ xs) ys = invocations-append xs ys
invocations-append (completed id r s ∷ xs) ys = invocations-append xs ys
invocations-append (claim_tried id ∷ xs) ys = invocations-append xs ys
invocations-append (published p s ∷ xs) ys = invocations-append xs ys
invocations-append (slept b ∷ xs) ys = invocations-append xs ys
invocations-append (counted c ∷ xs) ys = invocations-append xs ys

pub slept-invocations :
    (left backoff : ℕ) (es : List Effect)
    → invocations es ≡ 0
    → invocations (last_sleep left backoff ++ es) ≡ 0
slept-invocations zero backoff es h = h
slept-invocations (suc left) backoff es h = h

attempted-invocations :
    (x : Sending) (what : Posting) (left backoff : ℕ) (rest : List Effect × End)
    → invocations rest.0 ≡ 0
    → invocations (attempted x what left backoff rest).0 ≡ 0
attempted-invocations arrived what left backoff rest h = refl
attempted-invocations interrupted what left backoff rest h = refl
attempted-invocations transport_error what left backoff (rest, end) h =
    slept-invocations left backoff rest h

pub retry-invocations :
    (what : Posting) (sent : ℕ → Sending) (left backoff : ℕ)
    → invocations (with_retry what sent left backoff).0 ≡ 0
unfolding with_retry
retry-invocations what sent zero backoff = refl
retry-invocations what sent (suc left) backoff =
    attempted-invocations (sent left) what left backoff _
      (retry-invocations what sent left (backoff * 2))

pub claim-invocations :
    (config : Config) (id : String) (os : List ClaimOutcome) (backoff : ℕ) (waited : Bool)
    → invocations (claim_loop config id backoff waited os).0 ≡ 0
unfolding claim_loop
claim-invocations config id [] backoff waited = refl
claim-invocations config id (in_flight ∷ os) backoff true =
    claim-invocations config id os (min (backoff * 2) config.in_flight_backoff_max_ms) true
claim-invocations config id (in_flight ∷ os) backoff false =
    claim-invocations config id os (min (backoff * 2) config.in_flight_backoff_max_ms) true
claim-invocations config id (claimed t ∷ os) backoff true = refl
claim-invocations config id (claimed t ∷ os) backoff false = refl
claim-invocations config id (done r ∷ os) backoff true = refl
claim-invocations config id (done r ∷ os) backoff false = refl

pub reached-quiet :
    (tries after : List Effect) (end : End)
    → invocations tries ≡ 0
    → invocations after ≡ 0
    → invocations (followed tries after end).0 ≡ 0
reached-quiet tries after finished h k = omega (arith, invocations-append tries after)
reached-quiet tries after publish_failed h k = h
reached-quiet tries after cancelled h k = h
reached-quiet tries after waiting h k = h

pub counts-invocations : (s : Status) → invocations (status_count s) ≡ 0
counts-invocations Status.ok = refl
counts-invocations Status.error = refl
counts-invocations Status.expired = refl
counts-invocations Status.rejected = refl
counts-invocations Status.status_unspecified = refl
