-- ===== src/Core/Callbacks.antt =====
-- The callbacks that the runner makes on one key, as one type, and the steps that they take.
use beam_agents.Base.{◌≡◌, ℤ, none, some}
use beam_agents.Wire.{Bytes, AgentEnvelope}
use beam_agents.Core.Migration.{Result, ok}
use beam_agents.Core.State.{KeyState, fresh, Run}
use beam_agents.Core.Engine.{AgentDoFn}
use beam_agents.Core.Process.{process}
use beam_agents.Core.Timers.{on_ttl, on_flush}
use beam_agents.Core.HitlTimer.{on_hitl}

pub data Callback : Type 0 where
  element : AgentEnvelope → Callback
  ttl : (fired_at_ms : ℤ) → Callback
  hitl : (fired_at_ms : ℤ) → Callback
  flush : Callback

unfoldable pub callback : AgentDoFn → Bytes → (wall_now_ms : ℤ) → Callback → KeyState → Result Run
callback self key wall_now_ms (element e) s = process self key wall_now_ms e s
callback self key wall_now_ms (ttl fired_at_ms) s = on_ttl self key fired_at_ms s
callback self key wall_now_ms (hitl fired_at_ms) s = on_hitl self key fired_at_ms wall_now_ms s
callback self key wall_now_ms flush s = on_flush self key wall_now_ms s

-- One bundle on the key. A callback that raises fails its bundle, which leaves the state as it
-- was, so it is no step. A timer that fires is unset, and fires at the time it was set to;
-- `late_hitl` is a delivery of an HITL mark that a later one has replaced.
pub data Step (self : AgentDoFn) (key : Bytes) (s : KeyState) (t : KeyState) : Type 0 where
  on_element :
      (wall_now_ms : ℤ) (e : AgentEnvelope) (run : Run)
      → callback self key wall_now_ms (element e) s ≡ ok run
      → t ≡ run.state
      → Step self key s t
  ttl_due :
      (wall_now_ms fired_at_ms : ℤ) (run : Run)
      → s.ttl_timer ≡ some fired_at_ms
      → callback self key wall_now_ms (ttl fired_at_ms) (record s { ttl_timer = none }) ≡ ok run
      → t ≡ run.state
      → Step self key s t
  hitl_due :
      (wall_now_ms fired_at_ms : ℤ) (run : Run)
      → s.hitl_timer ≡ some fired_at_ms
      → callback self key wall_now_ms (hitl fired_at_ms) (record s { hitl_timer = none }) ≡ ok run
      → t ≡ run.state
      → Step self key s t
  late_hitl :
      (wall_now_ms fired_at_ms : ℤ) (run : Run)
      → callback self key wall_now_ms (hitl fired_at_ms) s ≡ ok run
      → t ≡ run.state
      → Step self key s t
  flush_due :
      (wall_now_ms fired_at_ms : ℤ) (run : Run)
      → s.flush_timer ≡ some fired_at_ms
      → callback self key wall_now_ms flush (record s { flush_timer = none }) ≡ ok run
      → t ≡ run.state
      → Step self key s t

-- the states that a key goes through from its first element on
pub data Reach (self : AgentDoFn) (key : Bytes) : KeyState → Type 0 where
  here : Reach self key fresh
  next : {s t : KeyState} → Reach self key s → Step self key s t → Reach self key t
