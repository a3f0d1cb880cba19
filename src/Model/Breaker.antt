-- ===== src/Model/Breaker.antt =====
-- model/facade.py, `CircuitBreaker`: the worker-local breaker of an endpoint.
pub mod Counting
use beam_agents.Base.{
  ℕ, ◌+◌, ◌≤◌, ◌<◌, ◌≡◌, ◌≢◌, refl, sym, ◌∙◌, leb, ℤ, ◌-ℤ◌, ltb_ℤ, true, Option, none, some, List,
  [], ◌∷◌, is_some, Bool-cases, inl, inr, arith, if◌then◌else◌,
}

pub data CircuitState : Type 0 where
  closed open_state half_open : CircuitState

pub record CircuitBreaker : Type 0 where
  pub threshold : ℕ
  pub cooldown_ms : ℤ
  pub state : CircuitState
  pub consecutive_failures : ℕ
  pub opened_at_ms : Option ℤ

unfoldable pub new_breaker : (threshold : ℕ) → (cooldown_ms : ℤ) → CircuitBreaker
new_breaker threshold cooldown_ms = record {
  threshold = threshold;
  cooldown_ms = cooldown_ms;
  state = closed;
  consecutive_failures = 0;
  opened_at_ms = none;
}

-- how `before_call` ends: the call goes through, CircuitOpenError, or the failed assertion
pub data Gate : Type 0 where
  admitted circuit_open assertion_failed : Gate

abbrev pub tried : (now_ms : ℤ) → Option ℤ → CircuitBreaker → Gate × CircuitBreaker
tried now_ms none b = (assertion_failed, b)
tried now_ms (some opened) b =
    if ltb_ℤ (now_ms -ℤ opened) b.cooldown_ms
    then (circuit_open, b)
    else (admitted, record b { state = half_open })

abbrev pub gated : (now_ms : ℤ) → CircuitState → CircuitBreaker → Gate × CircuitBreaker
gated now_ms open_state b = tried now_ms b.opened_at_ms b
gated now_ms closed b = (admitted, b)
gated now_ms half_open b = (admitted, b)

-- `before_call`
unfoldable pub before_call : (now_ms : ℤ) → CircuitBreaker → Gate × CircuitBreaker
before_call now_ms b = gated now_ms b.state b

-- `record_success`
unfoldable pub record_success : CircuitBreaker → CircuitBreaker
record_success b = record b { state = closed; consecutive_failures = 0; opened_at_ms = none }

abbrev pub failed_in : (now_ms : ℤ) → CircuitState → CircuitBreaker → CircuitBreaker
failed_in now_ms half_open b = record b { state = open_state; opened_at_ms = some now_ms }
failed_in now_ms _ b =
    if leb b.threshold (b.consecutive_failures + 1)
    then record b {
      consecutive_failures = b.consecutive_failures + 1;
      state = open_state;
      opened_at_ms = some now_ms;
    }
    else record b { consecutive_failures = b.consecutive_failures + 1 }

-- `record_failure`
unfoldable pub record_failure : (now_ms : ℤ) → CircuitBreaker → CircuitBreaker
record_failure now_ms b = failed_in now_ms b.state b

-- the calls that the facade makes on a breaker, in any order
pub data Use : Type 0 where
  asks : (now_ms : ℤ) → Use
  succeeds : Use
  fails : (now_ms : ℤ) → Use

unfoldable pub use_breaker : Use → CircuitBreaker → CircuitBreaker
unfolding before_call record_success record_failure
use_breaker (asks now_ms) b = (before_call now_ms b).1
use_breaker succeeds b = record_success b
use_breaker (fails now_ms) b = record_failure now_ms b

unfoldable pub use_all : List Use → CircuitBreaker → CircuitBreaker
unfolding use_breaker
use_all [] b = b
use_all (u ∷ us) b = use_all us (use_breaker u b)

-- `clocked` : an open breaker knows since when. `counting` : a closed one is short of its threshold.
pub record IsSane (b : CircuitBreaker) : Type 0 where
  pub positive : 1 ≤ b.threshold
  pub clocked : b.state ≡ open_state → is_some b.opened_at_ms ≡ true
  pub counting : b.state ≡ closed → b.consecutive_failures < b.threshold

tried-IsSane :
    (now : ℤ) (o : Option ℤ) (b : CircuitBreaker)
    → is_some o ≡ true
    → IsSane b
    → IsSane (tried now o b).1
tried-IsSane now none b e h = h
tried-IsSane now (some opened) b e h = elim (Bool-cases (ltb_ℤ (now -ℤ opened) b.cooldown_ms)) [
  | inl early ↦ rw early h
  | inr cooled ↦ rw cooled (record { positive = h.positive; clocked = λ s. cc; counting = λ s. cc })
]

opened_gate :
    (now : ℤ) (o : Option ℤ) (b : CircuitBreaker)
    → is_some o ≡ true
    → (tried now o b).0 ≢ assertion_failed
opened_gate now none b e bad = cc
opened_gate now (some opened) b e bad = ground (arith, bad)

gated-IsSane :
    (now : ℤ) (st : CircuitState) (b : CircuitBreaker)
    → b.state ≡ st
    → IsSane b
    → IsSane (gated now st b).1
gated-IsSane now closed b e h = h
gated-IsSane now half_open b e h = h
gated-IsSane now open_state b e h = tried-IsSane now b.opened_at_ms b (h.clocked e) h

failed-IsSane :
    (now : ℤ) (st : CircuitState) (b : CircuitBreaker)
    → b.state ≡ st
    → IsSane b
    → IsSane (failed_in now st b)
failed-IsSane now half_open b e h = record {
  positive = h.positive;
  clocked = λ o. refl;
  counting = λ c. cc;
}
failed-IsSane now closed b e h = record {
  positive = ground (arith, h.positive);
  clocked = λ o. ground (arith, o, e);
  counting = λ c. ground (arith, c, e);
}
failed-IsSane now open_state b e h = record {
  positive = ground (arith, h.positive);
  clocked = λ o. ground (arith, o, e, h.clocked e);
  counting = λ c. ground (arith, c, e);
}

pub use-IsSane : (u : Use) (b : CircuitBreaker) → IsSane b → IsSane (use_breaker u b)
unfolding use_breaker before_call record_success record_failure
use-IsSane (asks now) b h = gated-IsSane now b.state b refl h
use-IsSane succeeds b h = record {
  positive = h.positive;
  clocked = λ o. cc;
  counting = λ c. h.positive;
}
use-IsSane (fails now) b h = failed-IsSane now b.state b refl h

pub used-IsSane : (us : List Use) (b : CircuitBreaker) → IsSane b → IsSane (use_all us b)
unfolding use_all
used-IsSane [] b h = h
used-IsSane (u ∷ us) b h = used-IsSane us (use_breaker u b) (use-IsSane u b h)

pub gate_of :
    (now : ℤ) (st : CircuitState) (b : CircuitBreaker)
    → b.state ≡ st
    → IsSane b
    → (gated now st b).0 ≢ assertion_failed
gate_of now closed b e h bad = cc
gate_of now half_open b e h bad = cc
gate_of now open_state b e h bad = opened_gate now b.opened_at_ms b (h.clocked e) bad
