-- ===== src/Core/AgentContext/Program.antt =====
-- core/context.py, `AgentContext`: the operations of an agent on its context.
use beam_agents.Core.State.{TokenUsage}
use beam_agents.Replay.{WireEvent}
use beam_agents.Base.{ℤ, String, Option, none, some, List, [], ◌∷◌, ◌++◌}
use beam_agents.Wire.{approval}
use beam_agents.Core.Context.Operations.{or_default}
use beam_agents.Memory.Calls.{Op, call_memory}
use beam_agents.Model.Facade.{Call}
use beam_agents.Tools.{find_tool, run_tool_inline}
use beam_agents.Core.AgentContext.{
  AgentScope, AgentContext, AgentResult, ContextReply, staged, memory_reply, drained_as, refused,
  drained_twice,
}
use beam_agents.Core.AgentContext.Staging.{
  stage_serialized, act_on, run_found, complete_model, stage_agent_intent, stage_trace_event,
  accumulate, drain,
}

-- what an agent does with its context
pub data ContextOp : Type 0 where
  acts : (tool_name : String) (arguments : Option String) → ContextOp
  requests_approval : (arguments channel : Option String) (ttl_ms : Option ℤ) → ContextOp
  runs_tool : (tool_name arguments : String) → ContextOp
  emits : (output : String) → ContextOp
  completes : Call → ContextOp
  uses_memory : Op → ContextOp
  stages_event : WireEvent → ContextOp
  reports_usage : TokenUsage → ContextOp
  drains : ContextOp

abbrev drain_reply : Option AgentResult → ContextReply
drain_reply none = refused drained_twice
drain_reply (some result) = drained_as result

module _ (self : AgentScope) where
  unfoldable pub perform_op : ContextOp → AgentContext → ContextReply × AgentContext
  unfolding stage_agent_intent complete_model find_tool run_tool_inline call_memory
      stage_trace_event accumulate drain
  perform_op (acts tool_name arguments) c =
      act_on self tool_name arguments (find_tool tool_name self.tool_registry) c
  perform_op (requests_approval arguments channel ttl_ms) c =
      stage_serialized self (or_default channel self.approval_channel) arguments approval
        (or_default ttl_ms self.intent_ttl_ms) c
  perform_op (runs_tool tool_name arguments) c =
      run_found self tool_name arguments (find_tool tool_name self.tool_registry) c
  perform_op (emits output) c = (staged, record c { outputs = c.outputs ++ output ∷ [] })
  perform_op (completes call) c = complete_model self call c
  perform_op (uses_memory op) c =
      let (reply, memory) = call_memory self.compactor op c.memory in
      (memory_reply reply, record c { memory = memory })
  perform_op (stages_event event) c = (staged, stage_trace_event self event c)
  perform_op (reports_usage usage) c = (staged, accumulate self usage c)
  perform_op drains c = let (result, left) = drain self c in (drain_reply result, left)

  unfoldable pub perform_all : List ContextOp → AgentContext → AgentContext
  unfolding perform_op
  perform_all [] c = c
  perform_all (op ∷ ops) c = perform_all ops (perform_op op c).1
