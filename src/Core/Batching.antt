-- ===== src/Core/Batching.antt =====
-- src/beam_agents/core/batching.py: the settings of adaptive batching and its flush decisions.
pub mod Resolve
pub mod Bounds
use beam_agents.Base.{ℕ, ltb, leb, Bool, not, ◌&&◌}

pub data BatchPolicy : Type 0 where
  none_policy adaptive : BatchPolicy

pub data Trigger : Type 0 where
  trigger_size trigger_timer : Trigger

pub record BatchSettings : Type 0 where
  pub max_batch_size : ℕ
  pub max_wait_ms : ℕ
  pub max_buffered_events : ℕ

unfoldable pub should_flush_on_size : ℕ → ℕ → Bool → Bool
should_flush_on_size buffered max_batch_size continuation_live =
    leb max_batch_size buffered && not continuation_live

unfoldable pub should_flush_on_timer : ℕ → Bool → Bool
should_flush_on_timer buffered continuation_live = ltb 0 buffered && not continuation_live

unfoldable pub buffer_is_full : ℕ → ℕ → Bool
buffer_is_full buffered max_buffered_events = leb max_buffered_events buffered
