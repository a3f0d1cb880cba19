-- ===== src/Model/Tests.antt =====
-- The meter and the breaker of model/facade.py at concrete inputs.
use beam_agents.Base.{◌≡◌, ◌≢◌, refl, pos, ◌-ℤ◌, true, List, [], ◌∷◌, arith}
use beam_agents.Model.Budget.{new_budget, charge, charge_all, Metered, charge_all-Metered}
use beam_agents.Model.Breaker.Counting.{IsCounting, failures_in_row, breaker-IsSane}
use beam_agents.Model.Breaker.{
  open_state, new_breaker, admitted, circuit_open, assertion_failed, before_call, record_failure,
  Use, fails, use_breaker, use_all, IsSane,
}

-- 60 and 50 tokens cross a limit of 100, and the third response is not charged
overspent :
    charge_all (60 ∷ 50 ∷ 10 ∷ []) (new_budget 100)
    ≡ record { limit = 100; consumed = 110; exhausted = true }
unfolding charge_all charge new_budget
overspent = refl

charge_all-Metered_example :
    Metered 100 0 (60 ∷ 50 ∷ 10 ∷ []) (charge_all (60 ∷ 50 ∷ 10 ∷ []) (new_budget 100))
charge_all-Metered_example = charge_all-Metered 100 (60 ∷ 50 ∷ 10 ∷ [])

-- after a response that lands on the limit, the next one is consumed whole
landed :
    charge_all (100 ∷ 60 ∷ []) (new_budget 100)
    ≡ record { limit = 100; consumed = 160; exhausted = true }
unfolding charge_all charge new_budget
landed = refl

abbrev uses : List Use
uses = fails (pos 1) ∷ fails (pos 2) ∷ []

tripped : (use_all uses (new_breaker 2 (pos 10))).state ≡ open_state
unfolding use_all use_breaker record_failure new_breaker
tripped = refl

breaker-IsSane_example :
    IsCounting (failures_in_row uses 0) (use_all uses (new_breaker 2 (pos 10)))
    × IsSane (use_all uses (new_breaker 2 (pos 10)))
    × ((before_call (pos 5) (use_all uses (new_breaker 2 (pos 10)))).0 ≢ assertion_failed)
breaker-IsSane_example = breaker-IsSane 2 (pos 10) uses (pos 5) (omega arith)

-- within the cooldown the breaker fails fast, and past it one trial goes through
cooling :
    ((before_call (pos 5) (use_all uses (new_breaker 2 (pos 10)))).0 ≡ circuit_open)
    × ((before_call (pos 12) (use_all uses (new_breaker 2 (pos 10)))).0 ≡ admitted)
unfolding use_all use_breaker record_failure new_breaker before_call ◌-ℤ◌
cooling = (refl, refl)
