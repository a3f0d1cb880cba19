-- ===== src/Core/AgentContext/Staging.antt =====
-- core/context.py: the methods of `AgentContext`, and what an agent does with them.
use beam_agents.Base.{
  suc, ◌+◌, ℤ, ◌+ℤ◌, String, true, false, Option, none, some, List, [], ◌∷◌, ◌++◌, if◌then◌else◌,
}
use beam_agents.Wire.{ToolIntent, Kind, tool, scheme_unspecified}
use beam_agents.Core.State.{TokenUsage}
use beam_agents.Core.Context.{empty_tally}
use beam_agents.Core.IntentId.{intent_id_for}
use beam_agents.Memory.{Memory, to_blob as memory_blob_of}
use beam_agents.Model.Breaker.{CircuitBreaker}
use beam_agents.Model.Budget.{new_budget}
use beam_agents.Model.ReplayCache.{ReplayCache, to_blob as cache_blob_of}
use beam_agents.Model.Facade.{Call, LlmTrace, complete}
use beam_agents.Replay.{WireEvent, llm_call, kind_name}
use beam_agents.Tools.{
  Tool, ToolEnd, value, side_effect_error, argument_error, tool_raised, run_tool_inline,
}
use beam_agents.Traces.{ActivationTrace, stamp, intent_event, tool_event, trace_id_for}
use beam_agents.Core.AgentContext.{
  AgentScope, AgentContext, not_registered, not_side_effect, unserializable, ContextReply, staged,
  staged_as, tool_end, model_end, refused, AgentResult, no_usage, opened_budget, llm_attributes,
}

module _ (self : AgentScope) where
  abbrev pub trace_of : ActivationTrace
  trace_of = record {
    entity_key = self.entity_key;
    seq = self.seq;
    now_ms = self.now_ms;
    entry_step_index = 0;
    is_resume = false;
  }

  -- `__init__`
  unfoldable pub new_agent_context : Memory → ReplayCache → CircuitBreaker → AgentContext
  unfolding new_budget
  new_agent_context memory replay_cache breaker = record {
    memory = memory;
    longterm = [];
    model_state = record {
      replay_cache = replay_cache;
      breaker = breaker;
      budget = opened_budget self.max_tokens_per_activation;
      traces = [];
      usages = [];
      asked = 0;
    };
    step_index = 0;
    tool_index = 0;
    intents = [];
    traces = [];
    outputs = [];
    usage = no_usage;
    tally = empty_tally;
    drained = false;
  }

  -- the intent that `_stage_intent` makes
  unfoldable pub new_intent :
      (tool_name args_json : String) → Kind → (ttl_ms : ℤ) → AgentContext → ToolIntent
  unfolding intent_id_for
  new_intent tool_name args_json kind ttl_ms c = record {
    intent_id = intent_id_for self.intent_uuid5 self.entity_key self.seq c.step_index;
    entity_key = self.entity_key;
    seq = self.seq;
    step_index = c.step_index;
    tool_name = tool_name;
    args_json = args_json;
    created_at_ms = self.now_ms;
    expires_at_ms = self.now_ms +ℤ ttl_ms;
    attempt = 0;
    kind = kind;
    trace_id = trace_id_for self.trace_uuid5 self.entity_key self.seq;
    signature_scheme = scheme_unspecified;
    signing_key_id = "";
    signature = [];
  }

  -- `_stage_intent`, of arguments that serialize
  unfoldable pub stage_agent_intent :
      (tool_name args_json : String)
      → Kind
      → (ttl_ms : ℤ) → AgentContext
      → ContextReply × AgentContext
  unfolding new_intent intent_event
  stage_agent_intent tool_name args_json kind ttl_ms c =
      let intent = new_intent tool_name args_json kind ttl_ms c in
      (
        staged_as intent.intent_id,
        record c {
          intents = c.intents ++ intent ∷ [];
          traces =
              c.traces
              ++ intent_event self.trace_uuid5 trace_of c.step_index intent.intent_id tool_name
                  (kind_name kind) intent.expires_at_ms
                ∷ [];
          step_index = suc c.step_index;
        },
      )

  abbrev pub stage_serialized :
      (tool_name : String)
      → Option String
      → Kind
      → (ttl_ms : ℤ) → AgentContext
      → ContextReply × AgentContext
  stage_serialized tool_name none kind ttl_ms c = (refused unserializable, c)
  stage_serialized tool_name (some args_json) kind ttl_ms c =
      stage_agent_intent tool_name args_json kind ttl_ms c

  -- `act` returns nothing where `request_approval` returns the identifier
  abbrev pub silent : ContextReply → ContextReply
  silent (staged_as intent_id) = staged
  silent reply = reply

  abbrev pub act_on :
      (tool_name : String)
      → Option String
      → Option Tool
      → AgentContext
      → ContextReply × AgentContext
  act_on tool_name arguments none c = (refused (not_registered tool_name), c)
  act_on tool_name arguments (some t) c =
      if t.side_effect
      then (let (reply, c1) = stage_serialized tool_name arguments tool self.intent_ttl_ms c in
          (silent reply, c1))
      else (refused (not_side_effect tool_name), c)

  -- `run_tool` past the registry; a call that raises is neither counted nor traced
  abbrev pub ran_tool : (tool_name : String) → ToolEnd → AgentContext → ContextReply × AgentContext
  ran_tool tool_name (value v) c = (
    tool_end (value v),
    record c {
      tally = record c.tally { tool_calls = c.tally.tool_calls + 1 };
      traces =
          c.traces ++ tool_event self.trace_uuid5 trace_of c.step_index c.tool_index tool_name ∷ [];
      tool_index = c.tool_index + 1;
    },
  )
  ran_tool tool_name (side_effect_error name) c = (tool_end (side_effect_error name), c)
  ran_tool tool_name (argument_error name) c = (tool_end (argument_error name), c)
  ran_tool tool_name (tool_raised cause) c = (tool_end (tool_raised cause), c)

  abbrev pub run_found :
      (tool_name arguments : String) → Option Tool → AgentContext → ContextReply × AgentContext
  run_found tool_name arguments none c = (refused (not_registered tool_name), c)
  run_found tool_name arguments (some t) c =
      ran_tool tool_name (run_tool_inline c.tool_index t arguments) c

  -- the event that the facade's `_stage_trace` builds
  unfoldable pub llm_event : Call → LlmTrace → WireEvent
  unfolding llm_attributes
  llm_event call t = record {
    trace_id = [];
    span_id = [];
    parent_span_id = [];
    entity_key = call.entity_key;
    seq = call.seq;
    step_index = t.step_index;
    event_type = llm_call;
    attributes = llm_attributes t;
    start_ms = self.now_ms;
    end_ms = self.now_ms;
  }

  -- `stage_trace_event`
  unfoldable pub stage_trace_event : WireEvent → AgentContext → AgentContext
  unfolding stamp
  stage_trace_event e c = record c {
    traces = c.traces ++ stamp self.trace_uuid5 trace_of none e ∷ [];
  }

  unfoldable pub stage_trace_events : Call → List LlmTrace → AgentContext → AgentContext
  unfolding stage_trace_event llm_event
  stage_trace_events call [] c = c
  stage_trace_events call (t ∷ ts) c =
      stage_trace_events call ts (stage_trace_event (llm_event call t) c)

  abbrev pub add_usage : TokenUsage → TokenUsage → TokenUsage
  add_usage a b = record {
    prompt_tokens = a.prompt_tokens + b.prompt_tokens;
    completion_tokens = a.completion_tokens + b.completion_tokens;
    total_tokens = a.total_tokens + b.total_tokens;
  }

  -- `accumulate_usage`
  unfoldable pub accumulate : TokenUsage → AgentContext → AgentContext
  accumulate usage c = record c {
    usage = add_usage c.usage usage;
    tally = record c.tally {
      total_tokens = c.tally.total_tokens + usage.total_tokens;
      prompt_tokens = c.tally.prompt_tokens + usage.prompt_tokens;
      completion_tokens = c.tally.completion_tokens + usage.completion_tokens;
      usage_observed = true;
    };
  }

  unfoldable pub accumulate_all : List TokenUsage → AgentContext → AgentContext
  unfolding accumulate
  accumulate_all [] c = c
  accumulate_all (u ∷ us) c = accumulate_all us (accumulate u c)

  -- `self.model.complete`: the facade, with this context for its staging sink
  unfoldable pub complete_model : Call → AgentContext → ContextReply × AgentContext
  unfolding complete stage_trace_events accumulate_all
  complete_model call c =
      let (end, left) =
        complete self.model call (record c.model_state { traces = []; usages = [] }) in
      (
        model_end end,
        stage_trace_events call left.traces
            (accumulate_all left.usages (record c { model_state = left })),
      )

  -- `drain`, once
  unfoldable pub drain : AgentContext → Option AgentResult × AgentContext
  drain c = if c.drained then (none, c) else (
    some (record {
      outputs = c.outputs;
      intents = c.intents;
      traces = c.traces;
      usage = c.usage;
      memory_blob = if c.memory.dirty then some (memory_blob_of c.memory) else none;
      cache_blob =
          if c.model_state.replay_cache.dirty
          then some (cache_blob_of c.model_state.replay_cache)
          else none;
      tally = record c.tally { iterations = c.step_index };
      upserts = c.longterm;
    }),
    record c { drained = true; tally = record c.tally { iterations = c.step_index } },
  )
