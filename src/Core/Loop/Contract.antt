-- ===== src/Core/Loop/Contract.antt =====
-- `run_activation` gives the stateful DoFn the results that its invariant needs, whatever the agent
-- does; the deadline of a suspension.
use beam_agents.Base.{
  ◌≡◌, refl, sym, ◌∙◌, ◌⊎◌, inl, inr, some, List, [], ◌∷◌, map, All, ℤ, ◌+ℤ◌, ◌≤ℤ◌, min_ℤ, min_list,
  min_list-le, arith,
}
use beam_agents.Wire.{Bytes, Continuation, ToolIntent}
use beam_agents.Core.State.{ActivationResult, KeyState}
use beam_agents.Core.Engine.{ActivationArgs, finished, timed_out, AgentDoFn}
use beam_agents.Core.Callbacks.{Reach}
use beam_agents.Core.Invariant.{IsSound, RunsSoundly, IsConsistent}
use beam_agents.Core.Invariant.Reach.{Reach-IsConsistent}
use beam_agents.Core.Context.{Environment, Settings, ActivationContext, build_continuation}
use beam_agents.Core.Context.Operations.{or_default}
use beam_agents.Core.Loop.{Agent, run_activation, suspension_deadline}
use beam_agents.Core.Loop.Endings.{
  IsInvariant, Ends, by_completion, by_suspension, run_activation-From,
}

-- The DoFn runs `run_activation` on an agent, or the bridge's bound on its time passes.
pub record IsDriven (self : AgentDoFn) (env : Environment) (settings : Settings) (agent : Agent)
    : Type 0 where
  pub drives :
      (args : ActivationArgs)
      → ((self.activate args).0 ≡ run_activation env settings args agent)
        ⊎ ((self.activate args).0 ≡ timed_out)

pub some_injective : {A : Type 0} {a b : A} → some a ≡ some b → a ≡ b
some_injective s = cc

expiries-ge :
    (a : ℤ) (is : List ToolIntent)
    → All (λ i. min_list a (map (λ j. j.expires_at_ms) is) ≤ℤ i.expires_at_ms) is
expiries-ge a [] = tt
expiries-ge a (i ∷ is) =
    let b = min_ℤ a i.expires_at_ms in
    (ground (arith, min_list-le b (map (λ j. j.expires_at_ms) is)), expiries-ge b is)

pub record IsPrompt (r : ActivationResult) : Type 0 where
  pub prompt :
      (k : Continuation)
      → r.continuation ≡ some k
      → All (λ i. k.deadline_ms ≤ℤ i.expires_at_ms) r.intents

abbrev Anything : ActivationContext → Type 0
Anything c = Unit {0}

module _ (env : Environment) (settings : Settings) (agent : Agent) where
  always : (args : ActivationArgs) → IsInvariant env settings args Anything
  always args = record { performs = λ op c q. tt; starts = λ c q. tt }

  Ends-IsSound :
      (args : ActivationArgs) (c : ActivationContext) (r : ActivationResult)
      → Ends env settings args c r
      → IsSound args.seq r
  unfolding build_continuation
  Ends-IsSound args c r (by_completion output e) = rw e (record { live = λ k s. cc })
  Ends-IsSound args c r (by_suspension snapshot adapter timeout_ms e) =
      rw e
        (record { live = λ k s. let same = some_injective s in rw⁻¹ same (refl, refl, refl, refl) })

  -- Every result that `run_activation` returns, for any agent, provider, tools and store, keeps the
  -- contract that the DoFn's commit relies on: a continuation comes with the status `suspended`,
  -- carries the activation's number and pends exactly its intents, and its deadline is the one that
  -- the HITL timer is set to.
  pub run_activation-IsSound :
      (args : ActivationArgs) (r : ActivationResult)
      → run_activation env settings args agent ≡ finished r
      → IsSound args.seq r
  run_activation-IsSound args r h =
      let (c, q, ends) =
        run_activation-From env settings args Anything (always args) agent r tt h in
      Ends-IsSound args c r ends

  driven : (self : AgentDoFn) → IsDriven self env settings agent → RunsSoundly self
  driven self d args r h = elim (d.drives args) [
    | inl ran ↦ run_activation-IsSound args r (sym ran ∙ h)
    | inr late ↦ (let clash : timed_out ≡ finished r = sym late ∙ h in cc)
  ]

  -- For a DoFn that drives any agent through `run_activation`: along every sequence of elements,
  -- due timers and late HITL deliveries from a key that was never written, a live suspension has
  -- its HITL timer at its deadline and exactly its intents pending, its number is spent, a buffered
  -- event is waited for, and the buffer keeps within its cap.
  pub driven-IsConsistent :
      (self : AgentDoFn) (key : Bytes)
      → IsDriven self env settings agent
      → {s : KeyState} → Reach self key s
      → IsConsistent self s
  driven-IsConsistent self key d reach = Reach-IsConsistent self (driven self d) key reach

  Ends-IsPrompt :
      (args : ActivationArgs) (c : ActivationContext) (r : ActivationResult)
      → Ends env settings args c r
      → IsPrompt r
  unfolding build_continuation suspension_deadline
  Ends-IsPrompt args c r (by_completion output e) = rw e (record { prompt = λ k s. cc })
  Ends-IsPrompt args c r (by_suspension snapshot adapter timeout_ms e) = rw e (record {
    prompt = λ k s.
        let same = some_injective s in
        rw⁻¹ same (
          expiries-ge (args.now_ms +ℤ or_default timeout_ms settings.default_hitl_timeout_ms)
            c.intents);
  })

  -- The deadline of a suspended result is no later than the expiry of any
  -- intent of the activation.
  pub run_activation-IsPrompt :
      (args : ActivationArgs) (r : ActivationResult)
      → run_activation env settings args agent ≡ finished r
      → IsPrompt r
  run_activation-IsPrompt args r h =
      let (c, q, ends) =
        run_activation-From env settings args Anything (always args) agent r tt h in
      Ends-IsPrompt args c r ends
