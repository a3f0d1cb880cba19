-- ===== src/Core/Loop/Steps.antt =====
-- The steps of an activation: each staged intent takes the next step of its own, so that neither one
-- activation nor the resumes of it mint an identifier's name twice.
use beam_agents.Base.{
  ℕ, suc, ◌+◌, ◌-◌, ◌≤◌, ◌≡◌, refl, ap, sym, ◌∙◌, some, List, [], ◌∷◌, ◌++◌, length, length-append,
  All, All-snoc, arith,
}
use beam_agents.Wire.{ToolIntent, Continuation}
use beam_agents.Core.State.{ActivationResult}
use beam_agents.Core.Engine.{ActivationArgs, finished}
use beam_agents.Core.IntentId.{intent_id_for}
use beam_agents.Core.Context.{
  Environment, Settings, ActivationContext, new_context, build_continuation,
}
use beam_agents.Core.Context.Operations.{staged_intent}
use beam_agents.Core.Loop.{Agent, run_activation}
use beam_agents.Core.Loop.Closure.{IsClosed, closed_IsInvariant}
use beam_agents.Core.Loop.Contract.{some_injective}
use beam_agents.Core.Loop.Endings.{Ends, by_completion, by_suspension, run_activation-From}

-- the step indexes of intents rise strictly from `lo` on and stay below `hi`
abbrev pub IsRising : ℕ → List ToolIntent → ℕ → Type 0
IsRising lo [] hi = lo ≤ hi
IsRising lo (i ∷ is) hi = (lo ≤ i.step_index) × IsRising (suc i.step_index) is hi

IsRising-append :
    (lo hi : ℕ) (is : List ToolIntent) (i : ToolIntent)
    → i.step_index ≡ hi
    → IsRising lo is hi
    → IsRising lo (is ++ i ∷ []) (hi + 1)
IsRising-append lo hi [] i at le = (omega (arith, at, le), omega (arith, at))
IsRising-append lo hi (j ∷ js) i at (le, rest) =
    (le, IsRising-append (suc j.step_index) hi js i at rest)

IsRising-weaken :
    (lo hi more : ℕ) (is : List ToolIntent) → hi ≤ more → IsRising lo is hi → IsRising lo is more
IsRising-weaken lo hi more [] le h = omega (arith, le, h)
IsRising-weaken lo hi more (i ∷ is) le (first, rest) =
    (first, IsRising-weaken (suc i.step_index) hi more is le rest)

pub IsRising-le : (lo hi : ℕ) (is : List ToolIntent) → IsRising lo is hi → lo ≤ hi
IsRising-le lo hi [] h = h
IsRising-le lo hi (i ∷ is) (first, rest) =
    omega (arith, first, IsRising-le (suc i.step_index) hi is rest)

-- an intent is minted for the activation at its own step
pub record IsMinted (env : Environment) (args : ActivationArgs) (i : ToolIntent) : Type 0 where
  pub named : i.intent_id ≡ intent_id_for env.uuid5 args.entity_key args.seq i.step_index
  pub keyed : i.entity_key ≡ args.entity_key
  pub numbered : i.seq ≡ args.seq

module _ (env : Environment) (settings : Settings) (args : ActivationArgs) where
  -- what an activation has staged
  record IsStepped (c : ActivationContext) : Type 0 where
    rising : IsRising args.step_index c.intents c.step_index
    minted : All (IsMinted env args) c.intents
    calls : c.tally.llm_calls ≡ length c.tally.llm_ms
    tools : c.tally.tool_calls ≡ length c.tally.tool_ms

  closed-IsStepped : IsClosed env settings args IsStepped
  unfolding staged_intent
  closed-IsStepped = record {
    unread = λ c traces budget longterm tool_index asked h. record {
      rising = h.rising;
      minted = h.minted;
      calls = h.calls;
      tools = h.tools;
    };
    looked_up = λ k c h. record {
      rising = IsRising-weaken args.step_index c.step_index _ c.intents (omega arith) h.rising;
      minted = h.minted;
      calls = h.calls;
      tools = h.tools;
    };
    cached = λ k bytes ms c h. record {
      rising = h.rising;
      minted = h.minted;
      calls = omega (arith, h.calls, length-append c.tally.llm_ms (ms ∷ []));
      tools = h.tools;
    };
    ran = λ ms c h. record {
      rising = h.rising;
      minted = h.minted;
      calls = h.calls;
      tools = omega (arith, h.tools, length-append c.tally.tool_ms (ms ∷ []));
    };
    staged_one = λ tool_name args_json kind ttl_ms c h.
        let i = staged_intent env settings args c.step_index tool_name args_json kind ttl_ms in
        record {
          rising = IsRising-append args.step_index c.step_index c.intents i refl h.rising;
          minted =
              All-snoc (IsMinted env args) c.intents i h.minted
                (record { named = refl; keyed = refl; numbered = refl });
          calls = h.calls;
          tools = h.tools;
        };
    remembered =
        λ op c h. record { rising = h.rising; minted = h.minted; calls = h.calls; tools = h.tools };
    used = λ t c a b d e h. record {
      rising = h.rising;
      minted = h.minted;
      calls = a ∙ h.calls ∙ ap length (sym b);
      tools = d ∙ h.tools ∙ ap length (sym e);
    };
  }

  begun : IsStepped (new_context env settings args)
  unfolding new_context
  begun = record { rising = omega arith; minted = tt; calls = refl; tools = refl }

-- what the identity of a result's intents and its counts keep to
pub record IsAccountable (env : Environment) (args : ActivationArgs) (r : ActivationResult)
    : Type 0 where
  pub rising : IsRising args.step_index r.intents (args.step_index + r.tally.iterations)
  pub minted : All (IsMinted env args) r.intents
  pub calls : r.tally.llm_calls ≡ length r.tally.llm_ms
  pub tools : r.tally.tool_calls ≡ length r.tally.tool_ms
  pub resumed :
      (k : Continuation)
      → r.continuation ≡ some k
      → k.step_index ≡ args.step_index + r.tally.iterations

module _ (env : Environment) (settings : Settings) (args : ActivationArgs) where
  cursor :
      (c : ActivationContext)
      → IsStepped env settings args c
      → args.step_index + (c.step_index - args.step_index) ≡ c.step_index
  cursor c h = omega (arith, IsRising-le args.step_index c.step_index c.intents h.rising)

  Ends-IsAccountable :
      (c : ActivationContext) (r : ActivationResult)
      → IsStepped env settings args c
      → Ends env settings args c r
      → IsAccountable env args r
  unfolding build_continuation
  Ends-IsAccountable c r h (by_completion output e) = rw e (record {
    rising = rw (cursor c h) h.rising;
    minted = h.minted;
    calls = h.calls;
    tools = h.tools;
    resumed = λ k s. cc;
  })
  Ends-IsAccountable c r h (by_suspension snapshot adapter timeout_ms e) = rw e (record {
    rising = rw (cursor c h) h.rising;
    minted = h.minted;
    calls = h.calls;
    tools = h.tools;
    resumed = λ k s. let same = some_injective s in rw⁻¹ same (sym (cursor c h));
  })

  -- In every result, for any agent: the intents stand at rising steps, from the step that the
  -- activation started at on and below the one it ended at; each one's identifier is that of its
  -- key, number and step; the continuation resumes at the step where the activation ended; and there
  -- is one duration for each model call and each tool call.
  pub run_activation-IsAccountable :
      (agent : Agent) (r : ActivationResult)
      → run_activation env settings args agent ≡ finished r
      → IsAccountable env args r
  run_activation-IsAccountable agent r h =
      let (c, q, ends) =
        run_activation-From env settings args (IsStepped env settings args)
          (closed_IsInvariant env settings args (IsStepped env settings args)
            (closed-IsStepped env settings args))
          agent r (begun env settings args) h in
      Ends-IsAccountable c r q ends
