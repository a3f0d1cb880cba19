-- ===== src/Core/Migration.antt =====
-- src/beam_agents/core/migration.py: lazy upgrades of a keyed-state blob. The registered steps of
-- a message type are a table from the version they start at, which the module fills at import.
pub mod Chain
use beam_agents.Base.{ℕ, zero, suc, ◌+◌, ◌-◌, ltb, ◌==◌, Option, none, some, if◌then◌else◌}

abbrev pub current_state_schema_version : ℕ
current_state_schema_version = 1

abbrev pub baseline_version : ℕ
baseline_version = 1

-- what fails a bundle: the errors of this module, and those of the expiry hook of `on_ttl`
pub data BundleError : Type 0 where
  state_schema_from_future : (found current : ℕ) → BundleError
  missing_migration : (from_version current : ℕ) → BundleError
  migration_step : (from_version produced : ℕ) → BundleError
  no_longterm_store : BundleError
  expire_hook : BundleError

pub data Result {ℓ} (A : Type ℓ) : Type ℓ where
  ok : A → Result A
  raise : BundleError → Result A

infixl 5 ◌>>=◌ ◌>>◌
abbrev pub ◌>>=◌ {ℓ κ} : {A : Type ℓ} {B : Type κ} → Result A → (A → Result B) → Result B
ok a >>= f = f a
raise e >>= f = raise e

abbrev pub ◌>>◌ {ℓ} : {B : Type ℓ} → Result (Unit {0}) → Result B → Result B
m >> k = m >>= λ _. k

module _ {M : Type 0} (state_schema_version : M → ℕ) (registry : ℕ → Option (M → M)) where
  -- `message.state_schema_version or _BASELINE_VERSION`
  unfoldable pub version_of : M → ℕ
  version_of m = if state_schema_version m == 0 then baseline_version else state_schema_version m

  -- one round of the loop: the registered step, which must raise the version by one
  unfoldable pub take_step : Option (M → M) → (version current : ℕ) → M → Result M
  take_step none version current m = raise (missing_migration version current)
  take_step (some step) version current m =
      if state_schema_version (step m) == version + 1
      then ok (step m)
      else raise (migration_step version (state_schema_version (step m)))

  -- The `while version < current` loop, with `left = current - version` rounds left.
  unfoldable pub walk : (left : ℕ) → (current : ℕ) → M → Result M
  unfolding take_step
  walk zero current m = ok m
  walk (suc left) current m = do
    let version = current - suc left
    next ← take_step (registry version) version current m
    walk left current next

  unfoldable pub migrate : (current : ℕ) → M → Result M
  unfolding version_of walk
  migrate current m =
      let version = version_of m in
      if version == current
      then ok m
      else if ltb current version
      then raise (state_schema_from_future version current)
      else walk (current - version) current m

  -- `migrate_to_current`: an absent blob passes through.
  unfoldable pub migrate_to_current : Option M → Result (Option M)
  unfolding migrate
  migrate_to_current none = ok none
  migrate_to_current (some m) = do
    migrated ← migrate current_state_schema_version m
    ok (some migrated)
