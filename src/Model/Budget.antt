-- ===== src/Model/Budget.antt =====
-- model/facade.py, `TokenBudget`: the per-activation token meter.
use beam_agents.Base.{
  ℕ, ◌+◌, ◌≤◌, ◌<◌, ◌≡◌, refl, ltb, Bool, true, false, List, [], ◌∷◌, ◌++◌, ap, Bool-cases, inl,
  inr, arith, if◌then◌else◌,
}

pub record TokenBudget : Type 0 where
  pub limit : ℕ
  pub consumed : ℕ
  pub exhausted : Bool

-- `__init__`, past its check of the limit
unfoldable pub new_budget : (limit : ℕ) → TokenBudget
new_budget limit = record { limit = limit; consumed = 0; exhausted = false }

-- `charge`, with its `check`: whether it returns, or raises BudgetExceeded
unfoldable pub charge : (total_tokens : ℕ) → TokenBudget → Bool × TokenBudget
charge total_tokens b =
    if b.exhausted
    then (false, b)
    else if ltb b.limit (b.consumed + total_tokens)
    then (false, record b { consumed = b.consumed + total_tokens; exhausted = true })
    else (true, record b { consumed = b.consumed + total_tokens })

-- the responses of an activation, charged in turn whatever the agent catches
unfoldable pub charge_all : List ℕ → TokenBudget → TokenBudget
unfolding charge
charge_all [] b = b
charge_all (n ∷ ns) b = charge_all ns (charge n b).1

abbrev pub sum : List ℕ → ℕ
sum [] = 0
sum (n ∷ ns) = n + sum ns

-- an independent description of the meter after the charges `ns`, with `start` tokens before them:
-- either all of them are consumed and fit, or those up to the one that crossed the limit
pub data Metered (limit start : ℕ) (ns : List ℕ) (b : TokenBudget) : Type 0 where
  within :
      b.exhausted ≡ false
      → b.consumed ≡ start + sum ns
      → start + sum ns ≤ limit
      → Metered limit start ns b
  crossed :
      (before after : List ℕ) (n : ℕ)
      → ns ≡ before ++ n ∷ after
      → b.exhausted ≡ true
      → b.consumed ≡ start + sum before + n
      → start + sum before ≤ limit
      → limit < start + sum before + n
      → Metered limit start ns b

abbrev open_meter : (limit consumed : ℕ) → TokenBudget
open_meter limit consumed = record { limit = limit; consumed = consumed; exhausted = false }

-- a meter that has tripped is charged nothing
tripped-charge_all :
    (ns : List ℕ) (limit consumed : ℕ)
    → charge_all ns (record { limit = limit; consumed = consumed; exhausted = true })
      ≡ record { limit = limit; consumed = consumed; exhausted = true }
unfolding charge_all charge
tripped-charge_all [] limit consumed = refl
tripped-charge_all (n ∷ ns) limit consumed = tripped-charge_all ns limit consumed

Metered-later :
    (limit start n : ℕ) (ns : List ℕ) (b : TokenBudget)
    → Metered limit (start + n) ns b
    → Metered limit start (n ∷ ns) b
Metered-later limit start n ns b (within e c fits) =
    within e (omega (arith, c)) (omega (arith, fits))
Metered-later limit start n ns b (crossed before after k shape e c fits over) =
    crossed (n ∷ before) after k (ap (λ r. n ∷ r) shape) e (omega (arith, c)) (omega (arith, fits))
      (omega (arith, over))

charged-Metered :
    (limit start : ℕ) (ns : List ℕ)
    → start ≤ limit
    → Metered limit start ns (charge_all ns (open_meter limit start))
unfolding charge_all charge
charged-Metered limit start [] fits = within refl (omega arith) (omega (arith, fits))
charged-Metered limit start (n ∷ ns) fits = elim (Bool-cases (ltb limit (start + n))) [
  | inl over ↦
      rw (over, tripped-charge_all ns limit (start + n))
        (crossed [] ns n refl refl (omega arith) (omega (arith, fits)) (ground (arith, over)))
  | inr more ↦ rw more (
      Metered-later limit start n ns _
        (charged-Metered limit (start + n) ns (ground (arith, more))))
]

-- Whatever responses an activation is charged for: if together they keep within the limit, the
-- meter has consumed their sum and is not exhausted; otherwise it is exhausted, has consumed the
-- responses up to the first one that crossed the limit, that one included, and none after it.
pub charge_all-Metered :
    (limit : ℕ) (ns : List ℕ) → Metered limit 0 ns (charge_all ns (new_budget limit))
unfolding new_budget
charge_all-Metered limit ns = charged-Metered limit 0 ns (omega arith)
