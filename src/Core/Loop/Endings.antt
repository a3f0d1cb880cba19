-- ===== src/Core/Loop/Endings.antt =====
-- Every result of `run_activation` comes from a context that the agent's operations led to.
use beam_agents.Base.{◌≡◌, String, ℤ, leb, Option, none, some, ◌⊎◌, inl, inr, Bool-cases, arith}
use beam_agents.Wire.{Bytes}
use beam_agents.Core.State.{ActivationResult, activation_start}
use beam_agents.Core.Engine.{ActivationArgs, finished}
use beam_agents.Core.Context.{
  Raise, Environment, AgentOp, Program, finish, fail, call, Summarizer, Settings, ActivationContext,
  new_context,
}
use beam_agents.Core.Context.Operations.{perform, run_program}
use beam_agents.Core.Loop.{
  Outcome, complete, suspend, other, Agent, staged, start_batch, activation_failed, flushed,
  completed_result, suspended_result, finish_suspended, finish_completed, settle, after_summary,
  summarize, after_agent, drive, run_activation, empty_batch, budget_refused,
}

module _ (env : Environment) (settings : Settings) (args : ActivationArgs) where
  -- what the start event and every operation keep
  pub record IsInvariant (Q : ActivationContext → Type 0) : Type 0 where
    pub performs :
        (op : AgentOp) (c : ActivationContext) → Q c → Q (perform env settings args op c).1
    pub starts : (c : ActivationContext) → Q c → Q (staged (activation_start (start_batch args)) c)

  -- the result of a context at the end of an activation
  pub data Ends (c : ActivationContext) (r : ActivationResult) : Type 0 where
    by_completion : (output : Bytes) → r ≡ completed_result env settings args output c → Ends c r
    by_suspension :
        (snapshot : Bytes) (adapter : String) (timeout_ms : Option ℤ)
        → r ≡ suspended_result env settings args snapshot adapter timeout_ms c
        → Ends c r

  module _ (Q : ActivationContext → Type 0) (keeps : IsInvariant Q) where
    run_program-keeps :
        {A : Type 0} (p : Program A) (c : ActivationContext)
        → Q c
        → Q (run_program env settings args p c).1
    unfolding run_program
    run_program-keeps (finish a) c q = q
    run_program-keeps (fail e) c q = q
    run_program-keeps (call op next) c q =
        run_program-keeps (next (perform env settings args op c).0)
          (perform env settings args op c).1 (keeps.performs op c q)

    abbrev From : ActivationResult → Type 0
    From r = (c : ActivationContext) × Q c × Ends c r

    flushed-result :
        (o : Option Raise) (c : ActivationContext) (result r : ActivationResult)
        → flushed env settings args o c result ≡ finished r
        → r ≡ result
    unfolding activation_failed
    flushed-result none c result r h = ground (arith, h)
    flushed-result (some e) c result r h = cc

    settle-From :
        (outcome : Outcome) (c : ActivationContext) (r : ActivationResult)
        → Q c
        → settle env settings args outcome c ≡ finished r
        → From r
    unfolding finish_completed finish_suspended activation_failed
    settle-From (complete output) c r q h = (c, q, by_completion output (flushed-result _ _ _ r h))
    settle-From (suspend snapshot adapter timeout_ms) c r q h =
        (c, q, by_suspension snapshot adapter timeout_ms (flushed-result _ _ _ r h))
    settle-From other c r q h = cc

    after_summary-From :
        (outcome : Outcome) (e : (Unit {0} ⊎ Raise) × ActivationContext) (r : ActivationResult)
        → Q e.1
        → after_summary env settings args outcome e ≡ finished r
        → From r
    unfolding activation_failed
    after_summary-From outcome (inl t, c) r q h = settle-From outcome c r q h
    after_summary-From outcome (inr e, c) r q h = cc

    summarize-From :
        (s : Option Summarizer) (outcome : Outcome) (c : ActivationContext) (r : ActivationResult)
        → Q c
        → summarize env settings args s outcome c ≡ finished r
        → From r
    summarize-From none outcome c r q h = settle-From outcome c r q h
    summarize-From (some s) outcome c r q h =
        elim (Bool-cases (leb s.trigger_bytes c.memory.total)) [
          | inl reached ↦
              after_summary-From outcome (run_program env settings args s.compact c) r
                (run_program-keeps s.compact c q) (rw reached at h)
          | inr below ↦ settle-From outcome c r q (rw below at h)
        ]

    after_agent-From :
        (e : (Outcome ⊎ Raise) × ActivationContext) (r : ActivationResult)
        → Q e.1
        → after_agent env settings args e ≡ finished r
        → From r
    unfolding activation_failed
    after_agent-From (inl outcome, c) r q h = summarize-From settings.summarizer outcome c r q h
    after_agent-From (inr e, c) r q h = cc

    pub run_activation-From :
        (agent : Agent) (r : ActivationResult)
        → Q (new_context env settings args)
        → run_activation env settings args agent ≡ finished r
        → From r
    unfolding run_activation drive
    run_activation-From agent r q h =
        elim (Bool-cases (empty_batch env settings args args.events)) [
          | inl bad ↦ (let clash = rw bad at h in cc)
          | inr fine ↦
              elim (Bool-cases
                (budget_refused env settings args settings.max_tokens_per_activation)) [
                  | inl bad ↦ (let clash = rw (fine, bad) at h in cc)
                  | inr priced ↦
                      (let c =
                          staged (activation_start (start_batch args))
                            (new_context env settings args) in
                        after_agent-From (run_program env settings args (agent args) c) r
                          (run_program-keeps (agent args) c
                            (keeps.starts (new_context env settings args) q))
                          (rw (fine, priced) at h))
                ]
        ]
