-- ===== src/Core/Batching/Bounds.antt =====
-- What `resolve_batch_settings` of core/batching.py accepts.
use beam_agents.Base.{
  ℕ, ◌≤◌, ◌*◌, ◌≡◌, ℤ, pos, Option, some, arith, Bool-cases, inl, inr, ltb, leb_ℤ, pos_part,
}
use beam_agents.Core.Batching.{adaptive, BatchSettings}
use beam_agents.Core.Batching.Resolve.{
  Knob, Resolved, ok, ◌>>=◌, require_positive, or_default, default_max_batch_size,
  default_max_wait_ms, buffer_headroom, knob_max_batch_size, knob_max_wait_ms,
  knob_max_buffered_events, with_wait, with_size, within_cap, resolve_batch_settings,
}

-- settings under which a buffer can reach its flush threshold
pub record IsUsable (s : BatchSettings) : Type 0 where
  pub size : 1 ≤ s.max_batch_size
  pub wait : 1 ≤ s.max_wait_ms
  pub cap : s.max_batch_size ≤ s.max_buffered_events

record Holds (r : Resolved (Option BatchSettings)) : Type 0 where
  usable : (s : BatchSettings) → r ≡ ok (some s) → IsUsable s

positive-Holds :
    (knob : Knob) (v : ℤ) (f : ℕ → Resolved (Option BatchSettings))
    → ((n : ℕ) → 1 ≤ n → Holds (f n))
    → Holds (require_positive knob v >>= f)
unfolding require_positive
positive-Holds knob v f h = elim (Bool-cases (leb_ℤ v (pos 0))) [
  | inl low ↦ rw low (record { usable = λ s e. cc })
  | inr positive ↦ rw positive (h (pos_part v) (ground (arith, positive)))
]

fields : {t s : BatchSettings} → ok (some t) ≡ ok (some s) → t ≡ s
fields e = cc

within_cap-Holds : (size wait cap : ℕ) → 1 ≤ size → 1 ≤ wait → Holds (within_cap size wait cap)
unfolding within_cap
within_cap-Holds size wait cap h k = elim (Bool-cases (ltb cap size)) [
  | inl low ↦ rw low (record { usable = λ s e. cc })
  | inr room ↦ rw room (record {
    usable = λ s e. rw (← fields e) (record { size = h; wait = k; cap = ground (arith, room) });
  })
]

with_wait-Holds :
    (buffered : Option ℤ) (size wait : ℕ)
    → 1 ≤ size
    → 1 ≤ wait
    → Holds (with_wait buffered size wait)
unfolding with_wait
with_wait-Holds buffered size wait h k =
    positive-Holds knob_max_buffered_events (or_default buffered (pos (buffer_headroom * size)))
      (within_cap size wait) (λ cap l. within_cap-Holds size wait cap h k)

with_size-Holds :
    (wait buffered : Option ℤ) (size : ℕ) → 1 ≤ size → Holds (with_size wait buffered size)
unfolding with_size
with_size-Holds wait buffered size h =
    positive-Holds knob_max_wait_ms (or_default wait default_max_wait_ms) (with_wait buffered size)
      (λ wait_ms k. with_wait-Holds buffered size wait_ms h k)

resolve-Holds :
    (batch wait buffered : Option ℤ) → Holds (resolve_batch_settings adaptive batch wait buffered)
unfolding resolve_batch_settings
resolve-Holds batch wait buffered =
    positive-Holds knob_max_batch_size (or_default batch default_max_batch_size)
      (with_size wait buffered) (with_size-Holds wait buffered)

-- Whatever knobs are set under the adaptive policy, settings that are accepted have a positive
-- batch size, a positive wait and a cap that holds a whole batch.
pub resolve-IsUsable :
    (batch wait buffered : Option ℤ) (s : BatchSettings)
    → resolve_batch_settings adaptive batch wait buffered ≡ ok (some s)
    → IsUsable s
resolve-IsUsable batch wait buffered s e = (resolve-Holds batch wait buffered).usable s e
