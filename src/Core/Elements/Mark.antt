-- ===== src/Core/Elements/Mark.antt =====
-- The working-memory mark of core/dofn.py against the deadline of a suspension: what `_commit` sets
-- it to, and what `_buffer` makes of it.
use beam_agents.Base.{
  ℕ, ◌≡◌, refl, ℤ, ◌+ℤ◌, ◌≤ℤ◌, int_laws, +ℤ_parts, ◌++◌, arith, some, [], ◌∷◌, length, false, true,
}
use beam_agents.Wire.{Bytes, Continuation, AgentEnvelope}
use beam_agents.Core.Migration.{ok, migrate_to_current, migrate, version_of}
use beam_agents.Core.Batching.{BatchSettings, buffer_is_full, should_flush_on_size}
use beam_agents.Core.State.{KeyState, ActivationResult, suspended, Run, incr, events_buffered}
use beam_agents.Core.Engine.{
  AgentDoFn, CommitSite, commit_state, starting, resuming, flushing, settle_buffer, rearm_flush,
  ttl_from, read_continuation,
}
use beam_agents.Core.Elements.{append_event, buffer, flush_if_full, with_metric}

shifted : (a b c : ℤ) → a ≤ℤ b → a +ℤ c ≤ℤ b +ℤ c
shifted a b c h = omega (int_laws, +ℤ_parts a c, +ℤ_parts b c)

module _ (self : AgentDoFn) (s : KeyState) where
  ttl_from-after :
      (r : ActivationResult) (now_ms d : ℤ)
      → r.status ≡ suspended
      → r.hitl_deadline_ms ≡ some d
      → (d ≤ℤ ttl_from r now_ms) × (now_ms ≤ℤ ttl_from r now_ms)
  unfolding ttl_from
  ttl_from-after r now_ms d waits deadline = rw (waits, deadline) (ground arith, ground arith)

  commit-mark :
      (r : ActivationResult) (now wall : ℤ) (site : CommitSite)
      → (commit_state self r now wall site s).ttl_timer ≡ some (ttl_from r now +ℤ self.ttl_ms)
  unfolding commit_state settle_buffer rearm_flush
  commit-mark r now wall starting = refl
  commit-mark r now wall (flushing n t) = refl
  commit-mark r now wall resuming = ground arith

  read_current :
      (c : Continuation)
      → s.continuation ≡ some c
      → c.state_schema_version ≡ 1
      → read_continuation self s ≡ ok (some c)
  unfolding read_continuation migrate_to_current migrate version_of
  read_current c live current = rw (live, current) refl

  deferred : (n m : ℕ) → should_flush_on_size n m true ≡ false
  unfolding should_flush_on_size
  deferred n m = ground arith

  -- While a suspension of schema version 1 is live, an event that has room in the buffer joins it
  -- with no flush and no output, leaves the suspension and its HITL timer as they are, and sets the
  -- working-memory mark to its own time plus the TTL, whatever deadline the suspension has.
  pub buffer-preempts :
      (settings : BatchSettings) (key : Bytes) (wall_now_ms : ℤ) (e : AgentEnvelope)
      (c : Continuation)
      → s.continuation ≡ some c
      → c.state_schema_version ≡ 1
      → buffer_is_full (length s.batch) settings.max_buffered_events ≡ false
      → (run : Run) × (buffer self settings key wall_now_ms e s ≡ ok run)
        × (run.state.continuation ≡ some c)
        × (run.state.hitl_timer ≡ s.hitl_timer)
        × (run.state.batch ≡ s.batch ++ e ∷ [])
        × (run.state.ttl_timer ≡ some (e.event_time_ms +ℤ self.ttl_ms))
        × (run.outputs ≡ [])
  unfolding buffer append_event flush_if_full read_continuation
  buffer-preempts settings key wall_now_ms e c live current room = (
    with_metric (incr events_buffered 1)
        (record { state = append_event self settings wall_now_ms e s; outputs = []; metrics = [] }),
    rw (room, read_current c live current, deferred) refl,
    live,
    refl,
    refl,
    refl,
    refl,
  )

  -- A suspending commit sets the working-memory mark at least the TTL past the deadline of the
  -- suspension, whatever the activation clock and the deadline are.
  pub commit-outlives :
      (r : ActivationResult) (now_ms wall_now_ms : ℤ) (site : CommitSite) (deadline : ℤ)
      → r.status ≡ suspended
      → r.hitl_deadline_ms ≡ some deadline
      → (mark : ℤ) × ((commit_state self r now_ms wall_now_ms site s).ttl_timer ≡ some mark)
        × (deadline +ℤ self.ttl_ms ≤ℤ mark)
  commit-outlives r now_ms wall_now_ms site deadline waits due = (
    ttl_from r now_ms +ℤ self.ttl_ms,
    commit-mark r now_ms wall_now_ms site,
    shifted deadline (ttl_from r now_ms) self.ttl_ms (ttl_from-after r now_ms deadline waits due).0,
  )
