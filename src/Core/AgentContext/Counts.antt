-- ===== src/Core/AgentContext/Counts.antt =====
-- core/context.py: an independent count of what an agent ran and spent through its `AgentContext`.
use beam_agents.Base.{ℕ, ◌≡◌, String, Option, none, some, List, [], ◌∷◌, true, is_empty, ◌+◌}
use beam_agents.Core.State.{TokenUsage}
use beam_agents.Model.Facade.{complete}
use beam_agents.Tools.{Tool, ToolEnd, value, find_tool, run_tool_inline}
use beam_agents.Core.AgentContext.{AgentScope, AgentContext}
use beam_agents.Core.AgentContext.Program.{
  ContextOp, runs_tool, completes, stages_event, reports_usage, perform_op,
}

-- an independent count of the tool runs: the value that a read-only tool returns is one
abbrev pub ran_as : ToolEnd → ℕ
ran_as (value v) = 1
ran_as _ = 0

abbrev pub total : (TokenUsage → ℕ) → List TokenUsage → ℕ
total f [] = 0
total f (u ∷ us) = f u + total f us

-- the events that an agent stages itself carry no trace identifier
abbrev pub IsUnmarked : ContextOp → Type 0
IsUnmarked (stages_event event) = is_empty event.trace_id ≡ true
IsUnmarked _ = Unit

module _ (self : AgentScope) where
  abbrev pub ran_found : (arguments : String) → Option Tool → AgentContext → ℕ
  ran_found arguments none c = 0
  ran_found arguments (some t) c = ran_as (run_tool_inline c.tool_index t arguments)

  -- the tools that one operation runs, and the usages that the facade or the agent reports in it
  abbrev pub ran_by : ContextOp → AgentContext → ℕ
  unfolding find_tool
  ran_by (runs_tool name arguments) c = ran_found arguments (find_tool name self.tool_registry) c
  ran_by _ c = 0

  abbrev pub usages_by : ContextOp → AgentContext → List TokenUsage
  unfolding complete
  usages_by (completes call) c =
      (complete self.model call (record c.model_state { traces = []; usages = [] })).1.usages
  usages_by (reports_usage usage) c = usage ∷ []
  usages_by _ c = []

  -- the same of a sequence of operations, after `n` of them
  unfoldable pub tools_run : List ContextOp → AgentContext → (n : ℕ) → ℕ
  unfolding perform_op
  tools_run [] c n = n
  tools_run (op ∷ ops) c n = tools_run ops (perform_op self op c).1 (n + ran_by op c)

  unfoldable pub tokens_used : (TokenUsage → ℕ) → List ContextOp → AgentContext → (n : ℕ) → ℕ
  unfolding perform_op
  tokens_used f [] c n = n
  tokens_used f (op ∷ ops) c n =
      tokens_used f ops (perform_op self op c).1 (n + total f (usages_by op c))
