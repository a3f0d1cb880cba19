-- ===== src/Core/Tests/Agent.antt =====
-- An authored agent that looks a price up, asks the model, orders and asks for an approval.
use beam_agents.Base.{◌≡◌, refl, pos, All, Bool, true, false, none, some, List, [], ◌∷◌, String}
use beam_agents.Core.AgentContext.{AgentScope, AgentContext}
use beam_agents.Core.AgentContext.Staging.{new_agent_context, stage_agent_intent}
use beam_agents.Core.AgentContext.Program.{
  acts, requests_approval, runs_tool, emits, completes, uses_memory, stages_event, reports_usage,
  drains, ContextOp, perform_all, perform_op,
}
use beam_agents.Core.AgentContext.Counts.{IsUnmarked, tools_run, tokens_used}
use beam_agents.Core.AgentContext.Orderly.{IsOrderly, agent-IsOrderly}
use beam_agents.Replay.{WireEvent, event_type_unspecified}
use beam_agents.Memory.{blank_memory}
use beam_agents.Memory.Calls.{set}
use beam_agents.Model.Breaker.{new_breaker}
use beam_agents.Model.Facade.{LlmFacade, Call}
use beam_agents.Model.ReplayCache.{blank_cache}
use beam_agents.Model.Retry.{responded}
use beam_agents.Tools.{Tool, ToolRegistry, value, register, find_tool}
use beam_agents.Base.Dict.{lookup}

abbrev tool_named : String → Bool → Tool
tool_named name side_effect = record {
  name = name;
  description = "";
  side_effect = side_effect;
  accepts_intent = false;
  schema = "{}";
  validate = λ arguments. some arguments;
  func = λ ran validated. value "12";
}

abbrev tools : ToolRegistry
tools = ("price", tool_named "price" false) ∷ ("order", tool_named "order" true) ∷ []

taken : register (tool_named "order" false) tools ≡ none
unfolding register lookup
taken = refl

abbrev facade : LlmFacade
facade = record {
  codec = record { sha256 = λ b. 7 ∷ []; byte_size = λ p. 100 };
  hexdigest = λ d. "digest";
  now_ms = pos 100;
  retry_policy = record { max_attempts = 1; base_ms = 100; max_ms = 1000 };
  uniform = λ attempt high. high;
  decode = λ b. some (record {
    usage = record { prompt_tokens = 3; completion_tokens = 4; total_tokens = 7 };
    text = "";
  });
  provider = λ asked request attempt. responded (1 ∷ 2 ∷ []);
}

abbrev call : Call
call = record {
  request = record { model_id = "m"; messages = "[]"; tools_schema = "[]"; sampling_params = "{}" };
  output_schema = none;
  entity_key = 117 ∷ [];
  seq = 4;
  step_index = 0;
}

abbrev scope : AgentScope
scope = record {
  entity_key = 117 ∷ [];
  seq = 4;
  now_ms = pos 100;
  intent_ttl_ms = pos 1000;
  approval_channel = "approval";
  max_tokens_per_activation = some 50;
  intent_uuid5 = λ name. "id";
  trace_uuid5 = λ name. 1 ∷ 2 ∷ [];
  model = facade;
  tool_registry = tools;
  compactor = none;
}

abbrev begun : AgentContext
begun =
    new_agent_context scope (blank_memory (pos 100)) (blank_cache (pos 100))
      (new_breaker 3 (pos 1000))

abbrev note : WireEvent
note = record {
  trace_id = [];
  span_id = [];
  parent_span_id = [];
  entity_key = 117 ∷ [];
  seq = 4;
  step_index = 0;
  event_type = event_type_unspecified;
  attributes = [];
  start_ms = pos 100;
  end_ms = pos 100;
}

abbrev day : List ContextOp
day =
    runs_tool "price" "{}"
    ∷ completes call
    ∷ acts "order" (some "{}")
    ∷ uses_memory (set "note" (5 ∷ []))
    ∷ requests_approval (some "{}") none none
    ∷ emits "done"
    ∷ stages_event note
    ∷ reports_usage (record { prompt_tokens = 1; completion_tokens = 2; total_tokens = 3 })
    ∷ drains
    ∷ []

-- a tool that only reads is no effect
not_acted : (perform_op scope (acts "price" (some "{}")) begun).1.intents ≡ []
unfolding perform_op find_tool lookup new_agent_context
not_acted = refl

ordered : (perform_op scope (acts "order" (some "{}")) begun).1.step_index ≡ 1
unfolding perform_op find_tool lookup new_agent_context stage_agent_intent
ordered = refl

unmarked : All IsUnmarked day
unmarked = (tt, (tt, (tt, (tt, (tt, (tt, (refl, (tt, (tt, tt)))))))))

-- the tool ran once, and the model was asked once and one more usage reported
counted :
    (tools_run scope day begun 0 ≡ 1) × (tokens_used scope (λ u. u.total_tokens) day begun 0 ≡ 10)
unfolding tools_run tokens_used perform_op find_tool lookup new_agent_context new_breaker
counted = (refl, refl)

agent-IsOrderly_example :
    IsOrderly scope
      (tools_run scope day begun 0)
      (tokens_used scope (λ u. u.prompt_tokens) day begun 0)
      (tokens_used scope (λ u. u.completion_tokens) day begun 0)
      (tokens_used scope (λ u. u.total_tokens) day begun 0)
      (perform_all scope day begun)
agent-IsOrderly_example =
    agent-IsOrderly scope (blank_memory (pos 100)) (blank_cache (pos 100))
      (new_breaker 3 (pos 1000)) day unmarked
