-- ===== src/Core/Batching/Resolve.antt =====
-- `resolve_batch_settings` of core/batching.py: the knobs of `AgentConfig` against the policy.
use beam_agents.Base.{
  ℕ, ◌*◌, ltb, ℤ, pos, pos_part, leb_ℤ, Option, none, some, List, [], ◌∷◌, if◌then◌else◌,
}
use beam_agents.Core.Batching.{BatchPolicy, none_policy, adaptive, BatchSettings}

abbrev pub default_max_batch_size : ℤ
default_max_batch_size = pos 10

abbrev pub default_max_wait_ms : ℤ
default_max_wait_ms = pos 500

abbrev pub buffer_headroom : ℕ
buffer_headroom = 4

pub data Knob : Type 0 where
  knob_max_batch_size knob_max_wait_ms knob_max_buffered_events : Knob

-- the `ValueError`s of the resolver, by the field that they name
pub data ConfigError : Type 0 where
  no_effect : Knob → ConfigError
  not_positive : Knob → ConfigError
  cap_below_size : ConfigError

pub data Resolved {ℓ} (A : Type ℓ) : Type ℓ where
  ok : A → Resolved A
  value_error : ConfigError → Resolved A

infixl 5 ◌>>=◌
abbrev pub ◌>>=◌ {ℓ κ} : {A : Type ℓ} {B : Type κ} → Resolved A → (A → Resolved B) → Resolved B
ok a >>= f = f a
value_error e >>= f = value_error e

-- `_require_positive`
unfoldable pub require_positive : Knob → ℤ → Resolved ℕ
require_positive field_name value =
    if leb_ℤ value (pos 0) then value_error (not_positive field_name) else ok (pos_part value)

-- the loop over the three knobs under `BatchPolicy.NONE`
unfoldable pub refuse_knobs : List (Knob × Option ℤ) → Resolved (Option BatchSettings)
refuse_knobs [] = ok none
refuse_knobs ((field_name, none) ∷ rest) = refuse_knobs rest
refuse_knobs ((field_name, some value) ∷ rest) = value_error (no_effect field_name)

abbrev pub or_default : Option ℤ → ℤ → ℤ
or_default none d = d
or_default (some v) d = v

-- the last check: the cap holds a whole batch
unfoldable pub within_cap : ℕ → ℕ → ℕ → Resolved (Option BatchSettings)
within_cap size wait_ms cap =
    if ltb cap size
    then value_error cap_below_size
    else ok
        (some (record { max_batch_size = size; max_wait_ms = wait_ms; max_buffered_events = cap }))

-- the resolver from `cap` on, and from `wait_ms` on
unfoldable pub with_wait : Option ℤ → ℕ → ℕ → Resolved (Option BatchSettings)
unfolding within_cap require_positive
with_wait buffered size wait_ms =
    require_positive knob_max_buffered_events (or_default buffered (pos (buffer_headroom * size)))
    >>= within_cap size wait_ms

unfoldable pub with_size : Option ℤ → Option ℤ → ℕ → Resolved (Option BatchSettings)
unfolding with_wait
with_size wait buffered size =
    require_positive knob_max_wait_ms (or_default wait default_max_wait_ms)
    >>= with_wait buffered size

unfoldable pub resolve_batch_settings :
    BatchPolicy → Option ℤ → Option ℤ → Option ℤ → Resolved (Option BatchSettings)
unfolding with_size refuse_knobs
resolve_batch_settings none_policy batch wait buffered = refuse_knobs (
    (knob_max_batch_size, batch)
    ∷ (knob_max_wait_ms, wait)
    ∷ (knob_max_buffered_events, buffered)
    ∷ [])
resolve_batch_settings adaptive batch wait buffered =
    require_positive knob_max_batch_size (or_default batch default_max_batch_size)
    >>= with_size wait buffered
