-- ===== src/Core/AgentContext/Orderly.antt =====
-- core/context.py: what an `AgentContext` has staged, whatever the agent did with it.
use beam_agents.Base.{
  ℕ, zero, suc, ◌≡◌, refl, ap, ◌∙◌, ℤ, String, Bool-cases, inl, inr, Option, none, some, List, [],
  ◌∷◌, ◌++◌, map, All, All-snoc, arith, true, is_empty, ◌+◌,
}
use beam_agents.Wire.{ToolIntent, Kind, tool, approval}
use beam_agents.Core.State.{TokenUsage}
use beam_agents.Core.IntentId.{intent_id_for}
use beam_agents.Core.Context.Operations.{or_default}
use beam_agents.Memory.{Memory}
use beam_agents.Model.Breaker.{CircuitBreaker}
use beam_agents.Model.Facade.{Call, LlmTrace, complete}
use beam_agents.Model.ReplayCache.{ReplayCache}
use beam_agents.Replay.{WireEvent}
use beam_agents.Tools.{
  Tool, ToolEnd, value, side_effect_error, argument_error, tool_raised, find_tool, run_tool_inline,
}
use beam_agents.Traces.{trace_id_for, stamp, intent_event, tool_event, new_event}
use beam_agents.Core.AgentContext.{AgentScope, AgentContext}
use beam_agents.Core.AgentContext.Staging.{
  new_agent_context, new_intent, stage_agent_intent, stage_serialized, act_on, ran_tool, run_found,
  llm_event, stage_trace_event, stage_trace_events, accumulate, accumulate_all, complete_model,
  drain,
}
use beam_agents.Core.AgentContext.Program.{
  ContextOp, acts, requests_approval, runs_tool, emits, completes, uses_memory, stages_event,
  reports_usage, drains, perform_op, perform_all,
}
use beam_agents.Core.AgentContext.Counts.{
  ran_as, total, IsUnmarked, ran_found, ran_by, usages_by, tools_run, tokens_used,
}

-- 0, 1, … below n
pub count_up : ℕ → List ℕ
count_up zero = []
count_up (suc n) = count_up n ++ n ∷ []

map-snoc :
    {A B : Type 0} (f : A → B) (xs : List A) (x : A) → map f (xs ++ x ∷ []) ≡ map f xs ++ f x ∷ []
map-snoc f [] x = refl
map-snoc f (y ∷ xs) x = ap (λ r. f y ∷ r) (map-snoc f xs x)

module _ (self : AgentScope) where
  -- an intent of this activation, under the identifier of its step
  pub record IsOwn (i : ToolIntent) : Type 0 where
    pub id : i.intent_id ≡ intent_id_for self.intent_uuid5 self.entity_key self.seq i.step_index
    pub key : i.entity_key ≡ self.entity_key
    pub number : i.seq ≡ self.seq
    pub trace : i.trace_id ≡ trace_id_for self.trace_uuid5 self.entity_key self.seq

  abbrev pub InTrace : WireEvent → Type 0
  InTrace e = e.trace_id ≡ trace_id_for self.trace_uuid5 self.entity_key self.seq

  -- after `ran` tool runs and the tokens of `spent`, in the tally and in the usage to report
  pub record IsOrderly (ran prompt completion all : ℕ) (c : AgentContext) : Type 0 where
    pub numbered : map (λ i. i.step_index) c.intents ≡ count_up c.step_index
    pub minted : All IsOwn c.intents
    pub traced : All InTrace c.traces
    pub tools : c.tally.tool_calls ≡ ran
    pub prompts : (c.usage.prompt_tokens ≡ prompt) × (c.tally.prompt_tokens ≡ prompt)
    pub completions :
        (c.usage.completion_tokens ≡ completion) × (c.tally.completion_tokens ≡ completion)
    pub totals : (c.usage.total_tokens ≡ all) × (c.tally.total_tokens ≡ all)

  new-IsOrderly :
      (memory : Memory) (cache : ReplayCache) (breaker : CircuitBreaker)
      → IsOrderly 0 0 0 0 (new_agent_context self memory cache breaker)
  unfolding new_agent_context count_up
  new-IsOrderly memory cache breaker = record {
    numbered = refl;
    minted = tt;
    traced = tt;
    tools = refl;
    prompts = (refl, refl);
    completions = (refl, refl);
    totals = (refl, refl);
  }

  -- nothing more was run or spent
  idle-IsOrderly :
      (n p q t : ℕ) (c : AgentContext)
      → IsOrderly n p q t c
      → IsOrderly (n + 0) (p + 0) (q + 0) (t + 0) c
  idle-IsOrderly n p q t c h = record {
    numbered = h.numbered;
    minted = h.minted;
    traced = h.traced;
    tools = omega (arith, h.tools);
    prompts = (omega (arith, h.prompts.0), omega (arith, h.prompts.1));
    completions = (omega (arith, h.completions.0), omega (arith, h.completions.1));
    totals = (omega (arith, h.totals.0), omega (arith, h.totals.1));
  }

  module _ (n p q t : ℕ) where
    intent-IsOrderly :
        (name args : String) (kind : Kind) (ttl : ℤ) (c : AgentContext)
        → IsOrderly n p q t c
        → IsOrderly n p q t (stage_agent_intent self name args kind ttl c).1
    unfolding stage_agent_intent new_intent count_up intent_event new_event stamp
    intent-IsOrderly name args kind ttl c h = record {
      numbered =
          map-snoc (λ i. i.step_index) c.intents (new_intent self name args kind ttl c)
          ∙ ap (λ r. r ++ c.step_index ∷ []) h.numbered;
      minted =
          All-snoc IsOwn c.intents (new_intent self name args kind ttl c) h.minted
            (record { id = refl; key = refl; number = refl; trace = refl });
      traced = All-snoc InTrace c.traces _ h.traced refl;
      tools = h.tools;
      prompts = h.prompts;
      completions = h.completions;
      totals = h.totals;
    }

    serialized-IsOrderly :
        (name : String) (args : Option String) (kind : Kind) (ttl : ℤ) (c : AgentContext)
        → IsOrderly n p q t c
        → IsOrderly n p q t (stage_serialized self name args kind ttl c).1
    serialized-IsOrderly name none kind ttl c h = h
    serialized-IsOrderly name (some args) kind ttl c h = intent-IsOrderly name args kind ttl c h

    act-IsOrderly :
        (name : String) (args : Option String) (o : Option Tool) (c : AgentContext)
        → IsOrderly n p q t c
        → IsOrderly n p q t (act_on self name args o c).1
    act-IsOrderly name args none c h = h
    act-IsOrderly name args (some x) c h = elim (Bool-cases x.side_effect) [
      | inl effectful ↦ rw effectful (serialized-IsOrderly name args tool self.intent_ttl_ms c h)
      | inr pure ↦ rw pure h
    ]

    event-IsOrderly :
        (e : WireEvent) (c : AgentContext)
        → is_empty e.trace_id ≡ true
        → IsOrderly n p q t c
        → IsOrderly n p q t (stage_trace_event self e c)
    unfolding stage_trace_event stamp
    event-IsOrderly e c unmarked h = record {
      numbered = h.numbered;
      minted = h.minted;
      traced = All-snoc InTrace c.traces _ h.traced (rw unmarked refl);
      tools = h.tools;
      prompts = h.prompts;
      completions = h.completions;
      totals = h.totals;
    }

    events-IsOrderly :
        (call : Call) (ts : List LlmTrace) (c : AgentContext)
        → IsOrderly n p q t c
        → IsOrderly n p q t (stage_trace_events self call ts c)
    unfolding stage_trace_events llm_event
    events-IsOrderly call [] c h = h
    events-IsOrderly call (x ∷ ts) c h =
        events-IsOrderly call ts (stage_trace_event self (llm_event self call x) c)
          (event-IsOrderly (llm_event self call x) c refl h)

    tool-IsOrderly :
        (name : String) (end : ToolEnd) (c : AgentContext)
        → IsOrderly n p q t c
        → IsOrderly (n + ran_as end) (p + 0) (q + 0) (t + 0) (ran_tool self name end c).1
    unfolding tool_event new_event stamp
    tool-IsOrderly name (value v) c h = record {
      numbered = h.numbered;
      minted = h.minted;
      traced = All-snoc InTrace c.traces _ h.traced refl;
      tools = omega (arith, h.tools);
      prompts = (omega (arith, h.prompts.0), omega (arith, h.prompts.1));
      completions = (omega (arith, h.completions.0), omega (arith, h.completions.1));
      totals = (omega (arith, h.totals.0), omega (arith, h.totals.1));
    }
    tool-IsOrderly name (side_effect_error x) c h = idle-IsOrderly n p q t c h
    tool-IsOrderly name (argument_error x) c h = idle-IsOrderly n p q t c h
    tool-IsOrderly name (tool_raised cause) c h = idle-IsOrderly n p q t c h

    run-IsOrderly :
        (name args : String) (o : Option Tool) (c : AgentContext)
        → IsOrderly n p q t c
        → IsOrderly
            (n + ran_found self args o c)
            (p + 0)
            (q + 0)
            (t + 0)
            (run_found self name args o c).1
    run-IsOrderly name args none c h = idle-IsOrderly n p q t c h
    run-IsOrderly name args (some x) c h =
        tool-IsOrderly name (run_tool_inline c.tool_index x args) c h

  usages-IsOrderly :
      (us : List TokenUsage) (n p q t : ℕ) (c : AgentContext)
      → IsOrderly n p q t c
      → IsOrderly
          (n + 0)
          (p + total (λ u. u.prompt_tokens) us)
          (q + total (λ u. u.completion_tokens) us)
          (t + total (λ u. u.total_tokens) us)
          (accumulate_all self us c)
  unfolding accumulate_all accumulate
  usages-IsOrderly [] n p q t c h = idle-IsOrderly n p q t c h
  usages-IsOrderly (u ∷ us) n p q t c h =
      let rest =
        usages-IsOrderly us n (p + u.prompt_tokens) (q + u.completion_tokens) (t + u.total_tokens)
          (accumulate self u c)
          (record {
            numbered = h.numbered;
            minted = h.minted;
            traced = h.traced;
            tools = h.tools;
            prompts = (omega (arith, h.prompts.0), omega (arith, h.prompts.1));
            completions = (omega (arith, h.completions.0), omega (arith, h.completions.1));
            totals = (omega (arith, h.totals.0), omega (arith, h.totals.1));
          }) in
      record {
        numbered = rest.numbered;
        minted = rest.minted;
        traced = rest.traced;
        tools = rest.tools;
        prompts = (omega (arith, rest.prompts.0), omega (arith, rest.prompts.1));
        completions = (omega (arith, rest.completions.0), omega (arith, rest.completions.1));
        totals = (omega (arith, rest.totals.0), omega (arith, rest.totals.1));
      }

  drained-IsOrderly :
      (n p q t : ℕ) (c : AgentContext) → IsOrderly n p q t c → IsOrderly n p q t (drain self c).1
  unfolding drain
  drained-IsOrderly n p q t c h = elim (Bool-cases c.drained) [
    | inl over ↦ simp (over) h
    | inr first ↦ simp (first) (record {
      numbered = h.numbered;
      minted = h.minted;
      traced = h.traced;
      tools = h.tools;
      prompts = h.prompts;
      completions = h.completions;
      totals = h.totals;
    })
  ]

  op-IsOrderly :
      (op : ContextOp) (n p q t : ℕ) (c : AgentContext)
      → IsUnmarked op
      → IsOrderly n p q t c
      → IsOrderly
          (n + ran_by self op c)
          (p + total (λ u. u.prompt_tokens) (usages_by self op c))
          (q + total (λ u. u.completion_tokens) (usages_by self op c))
          (t + total (λ u. u.total_tokens) (usages_by self op c))
          (perform_op self op c).1
  unfolding perform_op complete_model find_tool accumulate accumulate_all
  op-IsOrderly (acts name args) n p q t c u h =
      idle-IsOrderly n p q t _
        (act-IsOrderly n p q t name args (find_tool name self.tool_registry) c h)
  op-IsOrderly (requests_approval args channel ttl_ms) n p q t c u h = idle-IsOrderly n p q t _ (
      serialized-IsOrderly n p q t (or_default channel self.approval_channel) args approval
        (or_default ttl_ms self.intent_ttl_ms) c h)
  op-IsOrderly (runs_tool name args) n p q t c u h =
      run-IsOrderly n p q t name args (find_tool name self.tool_registry) c h
  op-IsOrderly (emits output) n p q t c u h = idle-IsOrderly n p q t _ (record {
    numbered = h.numbered;
    minted = h.minted;
    traced = h.traced;
    tools = h.tools;
    prompts = h.prompts;
    completions = h.completions;
    totals = h.totals;
  })
  op-IsOrderly (completes call) n p q t c u h =
      let left = (complete self.model call (record c.model_state { traces = []; usages = [] })).1 in
      events-IsOrderly _ _ _ _ call left.traces _ (
        usages-IsOrderly left.usages n p q t (record c { model_state = left })
          (record {
            numbered = h.numbered;
            minted = h.minted;
            traced = h.traced;
            tools = h.tools;
            prompts = h.prompts;
            completions = h.completions;
            totals = h.totals;
          }))
  op-IsOrderly (uses_memory op) n p q t c u h = idle-IsOrderly n p q t _ (record {
    numbered = h.numbered;
    minted = h.minted;
    traced = h.traced;
    tools = h.tools;
    prompts = h.prompts;
    completions = h.completions;
    totals = h.totals;
  })
  op-IsOrderly (stages_event e) n p q t c u h =
      idle-IsOrderly n p q t _ (event-IsOrderly n p q t e c u h)
  op-IsOrderly (reports_usage usage) n p q t c u h = usages-IsOrderly (usage ∷ []) n p q t c h
  op-IsOrderly drains n p q t c u h = idle-IsOrderly n p q t _ (drained-IsOrderly n p q t c h)

  all-IsOrderly :
      (ops : List ContextOp) (n p q t : ℕ) (c : AgentContext)
      → All IsUnmarked ops
      → IsOrderly n p q t c
      → IsOrderly
          (tools_run self ops c n)
          (tokens_used self (λ u. u.prompt_tokens) ops c p)
          (tokens_used self (λ u. u.completion_tokens) ops c q)
          (tokens_used self (λ u. u.total_tokens) ops c t)
          (perform_all self ops c)
  unfolding perform_all tools_run tokens_used
  all-IsOrderly [] n p q t c u h = h
  all-IsOrderly (op ∷ ops) n p q t c (u, us) h =
      all-IsOrderly ops _ _ _ _ (perform_op self op c).1 us (op-IsOrderly op n p q t c u h)

  -- Whatever an agent does with a new context, in whatever order and with whatever errors: its
  -- intents stand at the steps 0, 1, … up to the cursor, each under the identifier of its own key,
  -- number and step; every event and intent is in the activation's trace, when the events that the
  -- agent stages itself carry no trace identifier; the tally counts each run of a read-only tool
  -- that returned; and the tokens of the tally and of the usage to report are the sums over the
  -- usages that the model facade and the agent reported.
  pub agent-IsOrderly :
      (memory : Memory) (cache : ReplayCache) (breaker : CircuitBreaker) (ops : List ContextOp)
      → All IsUnmarked ops
      → IsOrderly
          (tools_run self ops (new_agent_context self memory cache breaker) 0)
          (tokens_used self
            (λ u. u.prompt_tokens)
            ops
            (new_agent_context self memory cache breaker)
            0)
          (tokens_used self
            (λ u. u.completion_tokens)
            ops
            (new_agent_context self memory cache breaker)
            0)
          (tokens_used self
            (λ u. u.total_tokens)
            ops
            (new_agent_context self memory cache breaker)
            0)
          (perform_all self ops (new_agent_context self memory cache breaker))
  agent-IsOrderly memory cache breaker ops unmarked =
      all-IsOrderly ops 0 0 0 0 (new_agent_context self memory cache breaker) unmarked
        (new-IsOrderly memory cache breaker)
