-- ===== src/Model/Facade/Settled.antt =====
-- What one `complete` leaves, however it ends.
use beam_agents.Base.{
  ℕ, ◌+◌, ◌≤◌, ◌≡◌, ◌≢◌, refl, length, length-append, String, Bool, true, false, Option, none, some,
  [], ◌∷◌, ◌++◌, Bool-cases, inl, inr, arith, if◌then◌else◌,
}
use beam_agents.Wire.{Bytes}
use beam_agents.Model.Budget.{TokenBudget, charge}
use beam_agents.Model.Breaker.{
  Gate, admitted, circuit_open, assertion_failed, before_call, IsSane, asks, succeeds, fails,
  record_success, record_failure, use_breaker, use-IsSane, gate_of,
}
use beam_agents.Model.Retry.{RetryOutcome, succeeded, exhausted, propagated, unreachable, Attempted}
use beam_agents.Model.Retry.Attempts.{Ended, by_response, by_exhaustion, by_escape, retry-Ended}
use beam_agents.Model.ReplayCache.{ReplayEntry, put}
use beam_agents.Model.Facade.{
  DecodedResponse, LlmFacade, Call, FacadeEnd, foreign, decode_error, assertion_error, FacadeState,
  stage_trace, parse_output, charged, finish_decoded, finish, after_retry, after_gate,
  call_provider, after_lookup, look_up, with_budget, complete, validates, effective_request,
}

module _ (self : LlmFacade) (call : Call) where
  -- the events that an end comes with: an exception that is neither the provider's own nor one of
  -- the facade's leaves none
  abbrev pub events_with : FacadeEnd → ℕ
  events_with (foreign cause) = 0
  events_with decode_error = 0
  events_with _ = 1

  -- from `s`: its events are staged, at most `most` attempts are made, the breaker stays sane, and no
  -- assertion fails
  pub record IsSettled (most : ℕ) (s : FacadeState) (r : FacadeEnd × FacadeState) : Type 0 where
    pub traced : length r.1.traces ≡ length s.traces + events_with r.0
    pub asked : r.1.asked ≤ s.asked + most
    pub sane : IsSane r.1.breaker
    pub unasserted : r.0 ≢ assertion_error

  parse-IsSettled :
      (hit : Bool) (attempts : ℕ) (bytes : Bytes) (d : DecodedResponse) (s : FacadeState)
      → IsSane s.breaker
      → IsSettled 0 s (parse_output self call hit attempts bytes d s)
  unfolding parse_output stage_trace
  parse-IsSettled hit attempts bytes d s h =
      elim (Bool-cases (validates call.output_schema d.text)) [
        | inl good ↦ rw good (record {
          traced = omega (arith, length-append s.traces (_ ∷ []));
          asked = omega arith;
          sane = h;
          unasserted = λ e. cc;
        })
        | inr bad ↦ rw bad (record {
          traced = omega (arith, length-append s.traces (_ ∷ []));
          asked = omega arith;
          sane = h;
          unasserted = λ e. cc;
        })
      ]

  charged-IsSettled :
      (hit : Bool) (attempts : ℕ) (bytes : Bytes) (d : DecodedResponse) (b : Option TokenBudget)
      (s : FacadeState)
      → IsSane s.breaker
      → IsSettled 0 s (charged self call hit attempts bytes d b s)
  unfolding stage_trace
  charged-IsSettled hit attempts bytes d none s h = parse-IsSettled hit attempts bytes d s h
  charged-IsSettled hit attempts bytes d (some b) s h =
      let paid = charge d.usage.total_tokens b in
      let s1 : FacadeState = record s { budget = some paid.1 } in
      elim (Bool-cases paid.0) [
        | inl fine ↦ rw fine (
            let p = parse-IsSettled hit attempts bytes d s1 h in
            record { traced = p.traced; asked = p.asked; sane = p.sane; unasserted = p.unasserted })
        | inr over ↦ rw over (record {
          traced = omega (arith, length-append s.traces (_ ∷ []));
          asked = omega arith;
          sane = h;
          unasserted = λ e. cc;
        })
      ]

  decoded-IsSettled :
      (hit : Bool) (attempts : ℕ) (bytes : Bytes) (o : Option DecodedResponse) (s : FacadeState)
      → IsSane s.breaker
      → IsSettled 0 s (finish_decoded self call hit attempts bytes o s)
  decoded-IsSettled hit attempts bytes none s h = record {
    traced = omega arith;
    asked = omega arith;
    sane = h;
    unasserted = λ e. cc;
  }
  decoded-IsSettled hit attempts bytes (some d) s h =
      let p =
        charged-IsSettled hit attempts bytes d s.budget
          (record s { usages = if hit then s.usages else s.usages ++ d.usage ∷ [] }) h in
      record { traced = p.traced; asked = p.asked; sane = p.sane; unasserted = p.unasserted }

  finish-IsSettled :
      (hit : Bool) (attempts : ℕ) (bytes : Bytes) (s : FacadeState)
      → IsSane s.breaker
      → IsSettled 0 s (finish self call hit attempts bytes s)
  unfolding finish
  finish-IsSettled hit attempts bytes s h =
      decoded-IsSettled hit attempts bytes (self.decode bytes) s h

  -- what the loop of the attempts may come to, with one attempt allowed
  abbrev Heard : (most : ℕ) → RetryOutcome → Type 0
  Heard most (succeeded bytes n) = n ≤ most
  Heard most (exhausted e n) = n ≤ most
  Heard most (propagated cause n) = n ≤ most
  Heard most unreachable = ⊥

  after_retry-IsSettled :
      (k : String) (most : ℕ) (o : RetryOutcome) (s : FacadeState)
      → Heard most o
      → IsSane s.breaker
      → IsSettled most s (after_retry self call k o s)
  unfolding stage_trace record_failure record_success use_breaker
  after_retry-IsSettled k most (succeeded bytes n) s heard h =
      let p =
        finish-IsSettled false n bytes
          (record s {
            replay_cache = put self.codec k bytes s.replay_cache;
            breaker = record_success s.breaker;
            asked = s.asked + n;
          })
          (use-IsSane succeeds s.breaker h) in
      record {
        traced = p.traced;
        asked = omega (arith, p.asked, heard);
        sane = p.sane;
        unasserted = p.unasserted;
      }
  after_retry-IsSettled k most (exhausted e n) s heard h = record {
    traced = omega (arith, length-append s.traces (_ ∷ []));
    asked = omega (arith, heard);
    sane = use-IsSane (fails self.now_ms) s.breaker h;
    unasserted = λ e. cc;
  }
  after_retry-IsSettled k most (propagated c n) s heard h = record {
    traced = omega arith;
    asked = omega (arith, heard);
    sane = h;
    unasserted = λ e. cc;
  }
  after_retry-IsSettled k most unreachable s heard h = absurd heard

  Ended-Heard :
      (answers : ℕ → Attempted) (o : RetryOutcome) (slept : ℕ)
      → Ended self.retry_policy self.uniform answers 1 o slept
      → Heard self.retry_policy.max_attempts o
  Ended-Heard answers (succeeded bytes n) slept (by_response _ _ _ at le top rest count) = top
  Ended-Heard answers (propagated c n) slept (by_escape _ _ _ at le top rest count) = top
  Ended-Heard answers (exhausted e n) slept (by_exhaustion _ _ _ at le top rest count) =
      omega (arith, top)
  Ended-Heard answers unreachable slept ended = elim ended [ ]

  module _ (positive : 1 ≤ self.retry_policy.max_attempts) where
    abbrev pub Settles : FacadeState → FacadeEnd × FacadeState → Type 0
    Settles s r = IsSettled self.retry_policy.max_attempts s r

    gate-IsSettled :
        (k : String) (g : Gate) (s : FacadeState)
        → g ≢ assertion_failed
        → IsSane s.breaker
        → Settles s (after_gate self call k g s)
    unfolding stage_trace
    gate-IsSettled k circuit_open s fine h = record {
      traced = omega (arith, length-append s.traces (_ ∷ []));
      asked = omega arith;
      sane = h;
      unasserted = λ e. cc;
    }
    gate-IsSettled k assertion_failed s fine h = absurd (fine refl)
    gate-IsSettled k admitted s fine h =
        let answers = self.provider s.asked (effective_request self call) in
        after_retry-IsSettled k self.retry_policy.max_attempts _ s
          (Ended-Heard answers _ _ (retry-Ended self.retry_policy self.uniform answers positive)) h

    call-IsSettled :
        (k : String) (s : FacadeState) → IsSane s.breaker → Settles s (call_provider self call k s)
    unfolding call_provider use_breaker before_call
    call-IsSettled k s h =
        let g = before_call self.now_ms s.breaker in
        let p =
          gate-IsSettled k g.0 (record s { breaker = g.1 })
            (gate_of self.now_ms s.breaker.state s.breaker refl h)
            (use-IsSane (asks self.now_ms) s.breaker h) in
        record { traced = p.traced; asked = p.asked; sane = p.sane; unasserted = p.unasserted }

    lookup-IsSettled :
        (k : String) (o : Option ReplayEntry) (s : FacadeState)
        → IsSane s.breaker
        → Settles s (after_lookup self call k o s)
    lookup-IsSettled k none s h = call-IsSettled k s h
    lookup-IsSettled k (some entry) s h = elim (Bool-cases entry.digest_only) [
      | inl digest ↦ rw digest (call-IsSettled k s h)
      | inr full ↦ rw full (
          let p = finish-IsSettled true 0 entry.response s h in
          record {
            traced = p.traced;
            asked = omega (arith, p.asked);
            sane = p.sane;
            unasserted = p.unasserted;
          })
    ]

    looked_up-IsSettled : (s : FacadeState) → IsSane s.breaker → Settles s (look_up self call s)
    unfolding look_up
    looked_up-IsSettled s h =
        let p = lookup-IsSettled _ _ _ h in
        record { traced = p.traced; asked = p.asked; sane = p.sane; unasserted = p.unasserted }

    abbrev pub Spendable : Option TokenBudget → Type 0
    Spendable none = Unit
    Spendable (some b) = b.exhausted ≡ false

    -- However `complete` ends, when the budget is not spent before, the breaker is sane and one
    -- attempt is allowed: it asks the provider at most `max_attempts` times, leaves the breaker sane
    -- and fails no assertion. It stages one event where it ends by a hit, an open circuit, the
    -- provider's own error after the retries, its response, a crossed budget or an output that does
    -- not validate, and none where the provider raises any other exception or the decoder raises.
    pub complete-IsSettled :
        (s : FacadeState) → IsSane s.breaker → Spendable s.budget → Settles s (complete self call s)
    unfolding complete
    complete-IsSettled s h spendable = budgeted s.budget spendable
      where
        budgeted : (b : Option TokenBudget) → Spendable b → Settles s (with_budget self call b s)
        budgeted none spendable = looked_up-IsSettled s h
        budgeted (some b) spendable = rw spendable (looked_up-IsSettled s h)
