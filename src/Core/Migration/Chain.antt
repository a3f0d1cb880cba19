-- ===== src/Core/Migration/Chain.antt =====
-- What `migrate_to_current` of core/migration.py gives, for any registry and any current version.
use beam_agents.Base.{
  ℕ, zero, suc, ◌+◌, ◌-◌, ◌≡◌, refl, sym, ◌≤◌, Option, none, some, arith, ◌==◌, ltb, Bool-cases,
  inl, inr,
}
use beam_agents.Core.Migration.{Result, ok, raise, ◌>>=◌, version_of, take_step, walk, migrate}

module _ {M : Type 0} (version : M → ℕ) (registry : ℕ → Option (M → M)) where
  take_step-version :
      (o : Option (M → M)) (v current : ℕ) (m m' : M)
      → take_step version registry o v current m ≡ ok m'
      → version_of version registry m' ≡ v + 1
  unfolding take_step version_of
  take_step-version none v current m m' e = cc
  take_step-version (some step) v current m m' e = ground (arith, e)

  after_step :
      (left current : ℕ) (m' : M) (r : Result M)
      → ((n : M)
          → version_of version registry n ≡ current - left
          → walk version registry left current n ≡ ok m'
          → version_of version registry m' ≡ current)
      → suc left ≤ current
      → ((n : M) → r ≡ ok n → version_of version registry n ≡ current - suc left + 1)
      → (r >>= walk version registry left current) ≡ ok m'
      → version_of version registry m' ≡ current
  after_step left current m' (ok n) rest le v e = rest n (omega (arith, v n refl)) e
  after_step left current m' (raise x) rest le v e = cc

  walk-version :
      (left current : ℕ) (m m' : M)
      → left ≤ current
      → version_of version registry m ≡ current - left
      → walk version registry left current m ≡ ok m'
      → version_of version registry m' ≡ current
  unfolding walk
  walk-version zero current m m' le v e = let same : m ≡ m' = cc in rw (sym same) (omega (arith, v))
  walk-version (suc left) current m m' le v e =
      after_step left current m' _ (λ n. walk-version left current n m' (omega arith)) le
        (λ n. take_step-version (registry (current - suc left)) (current - suc left) current m n) e

  -- When `migrate_to_current` gives a blob back, under any registry, the blob is of the current
  -- version, whatever version it was stored with.
  pub migrate-version :
      (current : ℕ) (m m' : M)
      → migrate version registry current m ≡ ok m'
      → version_of version registry m' ≡ current
  unfolding migrate
  migrate-version current m m' e = elim (Bool-cases (version_of version registry m == current)) [
    | inl same ↦ let given : m ≡ m' = ground (arith, e, same) in rw (← given) (ground (arith, same))
    | inr off ↦ elim (Bool-cases (ltb current (version_of version registry m))) [
      | inl future ↦ ground (arith, off, future, e)
      | inr past ↦
          walk-version (current - version_of version registry m) current m m' (omega arith)
            (ground (arith, off, past)) (rw (off, past) at e)
    ]
  ]
