-- ===== src/Core/Tests/Rules.antt =====
-- The rules of core/dofn.py, core/migration.py and core/batching.py at concrete inputs.
use beam_agents.Base.{
  ◌≡◌, refl, ℤ, pos, ◌+ℤ◌, ◌↔◌, arith, Option, none, some, [], ◌∷◌, ◌<ℤ◌, ◌≤ℤ◌, false, ℕ, ◌++◌,
}
use beam_agents.Wire.{Continuation, MemoryBlob}
use beam_agents.Core.Migration.{Result, ok, migrate, version_of, walk, take_step}
use beam_agents.Core.Migration.Chain.{migrate-version}
use beam_agents.Core.Batching.{BatchSettings, adaptive, buffer_is_full}
use beam_agents.Core.Batching.Resolve.{
  Resolved, resolve_batch_settings, with_size, with_wait, within_cap, require_positive,
}
use beam_agents.Core.Batching.Resolve
use beam_agents.Core.State.{KeyState, fresh, Run}
use beam_agents.Core.Engine.{ActivationArgs, commit_state, starting}
use beam_agents.Core.Admission.{admission_failure}
use beam_agents.Core.Admission.Exact.{IsAdmissible, admission_failure-exact}
use beam_agents.Core.HitlTimer.{fire_hitl}
use beam_agents.Core.HitlTimer.Progress.{Outcome, fire_hitl-Outcome}
use beam_agents.Core.Elements.{buffer, start_args}
use beam_agents.Core.Elements.Mark.{buffer-preempts, commit-outlives}
use beam_agents.Core.Tests.{key, runner, waiting, memory, arrival, refund, run_agent}

abbrev args : ActivationArgs
args = start_args key 0 (pos 100) none none []

-- waits until 1100
abbrev wait : Continuation
wait = waiting args

abbrev suspended_key : KeyState
suspended_key = record fresh {
  continuation = some wait;
  pending = refund args ∷ [];
  seq = 1;
  hitl_timer = some (pos 1100);
  ttl_timer = some (pos 1600);
}

admission_failure-exact_example :
    (admission_failure (some wait) (refund args ∷ []) "refund" (pos 900) ≡ none) ↔ (
      (c : Continuation) × (Option.some wait ≡ some c)
      × IsAdmissible c (refund args ∷ []) "refund" (pos 900))
admission_failure-exact_example =
    admission_failure-exact (some wait) (refund args ∷ []) "refund" (pos 900)

reached : wait.deadline_ms ≤ℤ pos 1100
unfolding ◌+ℤ◌
reached = omega arith

fire_hitl-Outcome_example :
    Outcome runner wait (fire_hitl runner key (pos 1100) (pos 1100) (some wait) suspended_key).state
fire_hitl-Outcome_example =
    fire_hitl-Outcome runner key wait (pos 1100) (pos 1100) suspended_key reached

abbrev upgrade : ℕ → Option (MemoryBlob → MemoryBlob)
upgrade n = some (λ m. record m { state_schema_version = 2 })

upgraded :
    migrate (λ m. m.state_schema_version) upgrade 2 memory
    ≡ ok (record memory { state_schema_version = 2 })
unfolding migrate version_of walk take_step
upgraded = refl

migrate-version_example :
    version_of (λ m. m.state_schema_version) upgrade (record memory { state_schema_version = 2 })
    ≡ 2
migrate-version_example =
    migrate-version (λ m. m.state_schema_version) upgrade 2 memory
      (record memory { state_schema_version = 2 }) upgraded

abbrev settings : BatchSettings
settings = record { max_batch_size = 10; max_wait_ms = 500; max_buffered_events = 40 }

default_settings :
    resolve_batch_settings adaptive none none none ≡ Resolve.Resolved.ok (some settings)
unfolding resolve_batch_settings with_size with_wait within_cap require_positive
default_settings = refl

room : buffer_is_full 0 40 ≡ false
unfolding buffer_is_full
room = refl

-- the mark that the arrival sets is before the deadline
early : arrival.event_time_ms +ℤ runner.ttl_ms <ℤ wait.deadline_ms
unfolding ◌+ℤ◌
early = omega arith

buffer-preempts_example :
    (run : Run) × (buffer runner settings key (pos 90) arrival suspended_key ≡ Result.ok run)
    × (run.state.continuation ≡ some wait)
    × (run.state.hitl_timer ≡ some (pos 1100))
    × (run.state.batch ≡ [] ++ arrival ∷ [])
    × (run.state.ttl_timer ≡ some (arrival.event_time_ms +ℤ runner.ttl_ms))
    × (run.outputs ≡ [])
buffer-preempts_example =
    buffer-preempts runner suspended_key settings key (pos 90) arrival wait refl refl room

deadline_set : (run_agent args false).hitl_deadline_ms ≡ some (pos 1100)
unfolding ◌+ℤ◌
deadline_set = refl

commit-outlives_example :
    (mark : ℤ) × ((commit_state runner
        (run_agent args false)
        (pos 100)
        (pos 90)
        starting
        fresh).ttl_timer
      ≡ some mark)
    × (pos 1100 +ℤ runner.ttl_ms ≤ℤ mark)
commit-outlives_example =
    commit-outlives runner fresh (run_agent args false) (pos 100) (pos 90) starting (pos 1100) refl
      deadline_set
