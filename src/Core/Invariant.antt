-- ===== src/Core/Invariant.antt =====
-- What holds of one key's state between two callbacks, and what the invariant needs of an
-- activation's result.
pub mod Commit
pub mod Elements
pub mod Timers
pub mod Reach
use beam_agents.Base.{
  ℕ, ◌≤◌, ◌<◌, ◌≡◌, ℤ, ◌⊎◌, Option, none, some, List, [], map, true, length, is_empty, is_some,
  String,
}
use beam_agents.Wire.{Continuation, ToolIntent}
use beam_agents.Core.Migration.{Result, ok, raise}
use beam_agents.Core.Batching.{BatchSettings}
use beam_agents.Core.State.{KeyState, ActivationResult, suspended, Run}
use beam_agents.Core.Engine.{ActivationArgs, finished, AgentDoFn}

abbrev pub ids : List ToolIntent → List String
ids = map (λ i. i.intent_id)

-- What `run_activation` promises of a suspended result: the continuation belongs to the
-- activation, pends exactly its intents, and its deadline is the one the timer is set to.
pub record IsSound (seq : ℕ) (r : ActivationResult) : Type 0 where
  pub live :
      (c : Continuation)
      → r.continuation ≡ some c
      → (r.status ≡ suspended)
        × (r.hitl_deadline_ms ≡ some c.deadline_ms)
        × (c.seq ≡ seq)
        × (ids r.intents ≡ c.pending_intent_ids)

abbrev pub RunsSoundly : AgentDoFn → Type 0
RunsSoundly self =
    (args : ActivationArgs) (r : ActivationResult)
    → (self.activate args).0 ≡ finished r
    → IsSound args.seq r

-- a bound on the buffer, where batching is on
abbrev pub Fits : Option BatchSettings → ℕ → Type 0
Fits none n = n ≡ 0
Fits (some settings) n = n ≤ settings.max_buffered_events

pub record IsConsistent (self : AgentDoFn) (s : KeyState) : Type 0 where
  -- a live suspension has its timer set to its deadline
  pub armed : (c : Continuation) → s.continuation ≡ some c → s.hitl_timer ≡ some c.deadline_ms
  -- the pending bag holds what the continuation pends
  pub pended : (c : Continuation) → s.continuation ≡ some c → ids s.pending ≡ c.pending_intent_ids
  -- the sequence number of a live suspension is spent
  pub spent : (c : Continuation) → s.continuation ≡ some c → c.seq < s.seq
  -- a buffered event is waited for by a suspension or by the flush timer
  pub awaited :
      (is_empty s.batch ≡ true) ⊎ ((is_some s.continuation ≡ true) ⊎ (is_some s.flush_timer ≡ true))
  pub fits : Fits self.batch (length s.batch)

-- `P` of what a callback leaves, where it does not fail the bundle
abbrev pub Ensures : (Run → Type 0) → Result Run → Type 0
Ensures P (ok run) = P run
Ensures P (raise e) = Unit
