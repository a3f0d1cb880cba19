-- ===== src/Model/Breaker/Counting.antt =====
-- model/facade.py, `CircuitBreaker`: when it is closed, by the uses that it had.
use beam_agents.Base.{
  ℕ, ◌+◌, ◌≤◌, ◌<◌, ◌≡◌, ◌≢◌, refl, sym, ◌∙◌, leb, ℤ, ◌-ℤ◌, ltb_ℤ, Option, none, some, List, [],
  ◌∷◌, Bool-cases, inl, inr, arith,
}
use beam_agents.Model.Breaker.{
  CircuitState, closed, open_state, half_open, CircuitBreaker, new_breaker, assertion_failed, tried,
  gated, before_call, record_success, failed_in, record_failure, Use, asks, succeeds, fails,
  use_breaker, use_all, IsSane, use-IsSane, used-IsSane, gate_of,
}

-- the failures since the last success, or since the creation
unfoldable pub failures_in_row : List Use → (so_far : ℕ) → ℕ
failures_in_row [] n = n
failures_in_row (asks now_ms ∷ us) n = failures_in_row us n
failures_in_row (succeeds ∷ us) n = failures_in_row us 0
failures_in_row (fails now_ms ∷ us) n = failures_in_row us (n + 1)

-- the breaker is closed exactly while the failures in a row are below its threshold
pub record IsCounting (n : ℕ) (b : CircuitBreaker) : Type 0 where
  pub counted : b.state ≡ closed → b.consecutive_failures ≡ n
  pub short : b.state ≡ closed → n < b.threshold
  pub kept : n < b.threshold → b.state ≡ closed

-- a breaker that is not closed, which only a success closes
opened :
    (n : ℕ) (b : CircuitBreaker) (st : CircuitState)
    → b.state ≡ st
    → st ≢ closed
    → IsCounting n b
    → b.threshold ≤ n
opened n b st at other h = elim (Bool-cases (leb b.threshold n)) [
  | inl many ↦ ground (arith, many)
  | inr few ↦ absurd (other (sym at ∙ h.kept (ground (arith, few))))
]

not_closed : (n : ℕ) (b : CircuitBreaker) → b.state ≢ closed → b.threshold ≤ n → IsCounting n b
not_closed n b other many = record {
  counted = λ s. absurd (other s);
  short = λ s. absurd (other s);
  kept = λ lt. absurd (omega (arith, lt, many));
}

tried-IsCounting :
    (now : ℤ) (o : Option ℤ) (n : ℕ) (b : CircuitBreaker)
    → b.threshold ≤ n
    → IsCounting n b
    → IsCounting n (tried now o b).1
tried-IsCounting now none n b many h = h
tried-IsCounting now (some opened_at) n b many h =
    elim (Bool-cases (ltb_ℤ (now -ℤ opened_at) b.cooldown_ms)) [
      | inl early ↦ rw early h
      | inr cooled ↦ rw cooled (not_closed n (record b { state = half_open }) (λ e. cc) many)
    ]

gated-IsCounting :
    (now : ℤ) (st : CircuitState) (n : ℕ) (b : CircuitBreaker)
    → b.state ≡ st
    → IsCounting n b
    → IsCounting n (gated now st b).1
gated-IsCounting now closed n b at h = h
gated-IsCounting now half_open n b at h = h
gated-IsCounting now open_state n b at h =
    tried-IsCounting now b.opened_at_ms n b (opened n b open_state at (λ e. cc) h) h

failed-IsCounting :
    (now : ℤ) (st : CircuitState) (n : ℕ) (b : CircuitBreaker)
    → b.state ≡ st
    → IsCounting n b
    → IsCounting (n + 1) (failed_in now st b)
failed-IsCounting now half_open n b at h =
    not_closed (n + 1) (failed_in now half_open b) (λ e. cc)
      (omega (arith, opened n b half_open at (λ e. cc) h))
failed-IsCounting now closed n b at h =
    let same = h.counted at in
    let few = h.short at in
    elim (Bool-cases (leb b.threshold (b.consecutive_failures + 1))) [
      | inl trips ↦ rw trips (not_closed (n + 1) _ (λ e. cc) (ground (arith, trips, same)))
      | inr room ↦ rw room (record {
        counted = λ s. omega (arith, same);
        short = λ s. ground (arith, room, same);
        kept = λ lt. at;
      })
    ]
failed-IsCounting now open_state n b at h =
    let many = opened n b open_state at (λ e. cc) h in
    elim (Bool-cases (leb b.threshold (b.consecutive_failures + 1))) [
      | inl trips ↦ rw trips (not_closed (n + 1) _ (λ e. cc) (omega (arith, many)))
      | inr room ↦ rw room (not_closed (n + 1) _ (λ e. cc) (omega (arith, many)))
    ]

used-IsCounting :
    (us : List Use) (n : ℕ) (b : CircuitBreaker)
    → IsSane b
    → IsCounting n b
    → IsCounting (failures_in_row us n) (use_all us b)
unfolding use_all use_breaker before_call record_success record_failure failures_in_row
used-IsCounting [] n b sane h = h
used-IsCounting (asks now ∷ us) n b sane h =
    used-IsCounting us n (gated now b.state b).1 (use-IsSane (asks now) b sane)
      (gated-IsCounting now b.state n b refl h)
used-IsCounting (succeeds ∷ us) n b sane h =
    used-IsCounting us 0 (record_success b) (use-IsSane succeeds b sane)
      (record { counted = λ s. refl; short = λ s. sane.positive; kept = λ lt. refl })
used-IsCounting (fails now ∷ us) n b sane h =
    used-IsCounting us (n + 1) (record_failure now b) (use-IsSane (fails now) b sane)
      (failed-IsCounting now b.state n b refl h)

-- However a breaker with a positive threshold is used from its creation on: it is closed exactly
-- while the failures since the last success are fewer than the threshold, which it counts then; an
-- open breaker knows since when it is open; and `before_call` never meets its assertion.
pub breaker-IsSane :
    (threshold : ℕ) (cooldown_ms : ℤ) (us : List Use) (now_ms : ℤ)
    → 1 ≤ threshold
    → IsCounting (failures_in_row us 0) (use_all us (new_breaker threshold cooldown_ms))
      × IsSane (use_all us (new_breaker threshold cooldown_ms))
      × ((before_call now_ms (use_all us (new_breaker threshold cooldown_ms))).0 ≢ assertion_failed)
unfolding new_breaker before_call
breaker-IsSane threshold cooldown_ms us now_ms positive =
    let b = new_breaker threshold cooldown_ms in
    let new : IsSane b = record {
      positive = positive;
      clocked = λ o. cc;
      counting = λ c. positive;
    } in
    let sane = used-IsSane us b new in
    (
      used-IsCounting us 0 b new
          (record { counted = λ s. refl; short = λ s. positive; kept = λ lt. refl }),
      sane,
      gate_of now_ms (use_all us b).state _ refl sane,
    )
