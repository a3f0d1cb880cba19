-- ===== src/Core/Loop/Closure.antt =====
-- What a property of the context needs of each kind of change, to be kept by every operation.
use beam_agents.Base.{
  ℕ, ℤ, ◌+◌, ◌/◌, ◌≡◌, refl, Option, none, some, List, [], ◌∷◌, ◌++◌, Bool, true, false, Bool-cases,
  inl, inr, String, str_eq,
}
use beam_agents.Base.Dict.{lookup}
use beam_agents.Wire.{Bytes, Kind, tool, approval}
use beam_agents.Core.State.{TraceEvent, TokenUsage, ActivationTally}
use beam_agents.Core.Engine.{ActivationArgs}
use beam_agents.Core.Context.{
  LlmRequest, MemoryRecord, Raise, Answer, answered, threw, Environment, Settings,
  ActivationContext, AgentOp, call_model, run_tool, act, request_approval, memory_call,
  longterm_save, longterm_load, stage_trace, accumulate_usage, AgentReply, compute_cache_key,
}
use beam_agents.Core.Context.Operations.{
  perform, staged_intent, stage_intent, check_budget, call_model_checked, call_model_step,
  from_cache, from_provider, consume, consume_usage, reply_unless, charge_budget, decoded_usage,
  run_registered, ran_inline, load_staged, save_staged, or_default,
}
use beam_agents.Core.Loop.Endings.{IsInvariant}
use beam_agents.Memory.Calls.{Op, call_memory}
use beam_agents.Model.Budget.{TokenBudget, charge}
use beam_agents.Model.ReplayCache.{ReplayEntry, get, put}

-- the tally once one more model call has been made, or one more tool has run
abbrev pub called : (ms : ℕ) → ActivationTally → ActivationTally
called ms t = record t { llm_calls = t.llm_calls + 1; llm_ms = t.llm_ms ++ ms ∷ [] }

abbrev pub tool_ran : (ms : ℕ) → ActivationTally → ActivationTally
tool_ran ms t = record t { tool_calls = t.tool_calls + 1; tool_ms = t.tool_ms ++ ms ∷ [] }

module _ (env : Environment) (settings : Settings) (args : ActivationArgs) where
  abbrev pub key_of : LlmRequest → String
  key_of request = compute_cache_key env.hexdigest request args.entity_key args.seq

  -- A property that does not read the traces, the budget, the long-term records, the tool index or
  -- the environment's count, and that the other changes keep.
  pub record IsClosed (Q : ActivationContext → Type 0) : Type 0 where
    pub unread :
        (c : ActivationContext) (traces : List TraceEvent) (budget : Option TokenBudget)
        (longterm : List (String × MemoryRecord)) (tool_index asked : ℕ)
        → Q c
        → Q (record c {
          traces = traces;
          budget = budget;
          longterm = longterm;
          tool_index = tool_index;
          asked = asked;
        })
    pub looked_up :
        (request : LlmRequest) (c : ActivationContext)
        → Q c
        → Q (record c {
          step_index = c.step_index + 1;
          replay_cache = (get (key_of request) c.replay_cache).1;
        })
    pub cached :
        (request : LlmRequest) (bytes : Bytes) (ms : ℕ) (c : ActivationContext)
        → Q c
        → Q (record c {
          replay_cache = put env.codec (key_of request) bytes c.replay_cache;
          tally = called ms c.tally;
        })
    pub ran : (ms : ℕ) (c : ActivationContext) → Q c → Q (record c { tally = tool_ran ms c.tally })
    pub staged_one :
        (tool_name args_json : String) (kind : Kind) (ttl_ms : Option ℤ) (c : ActivationContext)
        → Q c
        → Q (record c {
          step_index = c.step_index + 1;
          intents =
              c.intents
              ++ staged_intent env settings args c.step_index tool_name args_json kind ttl_ms ∷ [];
        })
    pub remembered :
        (op : Op) (c : ActivationContext)
        → Q c
        → Q (record c { memory = (call_memory settings.compactor op c.memory).1 })
    pub used :
        (t : ActivationTally) (c : ActivationContext)
        → t.llm_calls ≡ c.tally.llm_calls
        → t.llm_ms ≡ c.tally.llm_ms
        → t.tool_calls ≡ c.tally.tool_calls
        → t.tool_ms ≡ c.tally.tool_ms
        → Q c
        → Q (record c { tally = t })

  module _ (Q : ActivationContext → Type 0) (closed : IsClosed Q) where
    asked_once : (c : ActivationContext) → Q c → Q (record c { asked = c.asked + 1 })
    asked_once c q = closed.unread c c.traces c.budget c.longterm c.tool_index (c.asked + 1) q

    charged-keeps :
        (b : Option TokenBudget) (usage : Option TokenUsage) (reply : AgentReply)
        (c : ActivationContext)
        → Q c
        → Q (reply_unless reply (charge_budget b usage c)).1
    charged-keeps none usage reply c q = q
    charged-keeps (some b) none reply c q = q
    charged-keeps (some b) (some usage) reply c q =
        elim (Bool-cases (charge usage.total_tokens b).0) [
          | inl fine ↦ rw fine (charged b usage c q)
          | inr over ↦ rw over (charged b usage c q)
        ]
      where
        charged :
            (b : TokenBudget) (usage : TokenUsage) (c : ActivationContext)
            → Q c
            → Q (record c { budget = some (charge usage.total_tokens b).1 })
        charged b usage c q =
            closed.unread c c.traces (some (charge usage.total_tokens b).1) c.longterm c.tool_index
              c.asked q

    usage-keeps :
        (step : ℕ) (hit : Bool) (request : LlmRequest) (bytes : Bytes)
        (d : Answer (Option TokenUsage)) (c : ActivationContext)
        → Q c
        → Q (consume_usage env settings args step hit request bytes d c).1
    usage-keeps step hit request bytes (threw e) c q = q
    usage-keeps step hit request bytes (answered usage) c q =
        charged-keeps c.budget usage _ _
          (closed.unread c _ c.budget c.longterm c.tool_index c.asked q)

    consume-keeps :
        (step : ℕ) (hit : Bool) (request : LlmRequest) (bytes : Bytes) (c : ActivationContext)
        → Q c
        → Q (consume env settings args step hit request bytes c).1
    unfolding consume
    consume-keeps step hit request bytes c q =
        usage-keeps step hit request bytes (decoded_usage settings.decode bytes) c q

    from_provider-keeps :
        (step : ℕ) (request : LlmRequest) (answer : Answer Bytes) (c : ActivationContext)
        → Q c
        → Q (from_provider env settings args step (key_of request) request answer c).1
    from_provider-keeps step request (threw e) c q = asked_once c q
    from_provider-keeps step request (answered bytes) c q =
        consume-keeps step false request bytes _
          (asked_once _ (closed.cached request bytes (env.elapsed_ns c.asked / 1_000_000) c q))

    from_cache-keeps :
        (step : ℕ) (request : LlmRequest) (found : Option ReplayEntry) (c : ActivationContext)
        → Q c
        → Q (from_cache env settings args step (key_of request) request found c).1
    from_cache-keeps step request none c q =
        from_provider-keeps step request (env.complete c.asked request) c q
    from_cache-keeps step request (some entry) c q = elim (Bool-cases entry.digest_only) [
      | inl digest ↦ rw digest (from_provider-keeps step request (env.complete c.asked request) c q)
      | inr full ↦ rw full (consume-keeps step true request entry.response c q)
    ]

    call_model-keeps :
        (o : Option Raise) (request : LlmRequest) (c : ActivationContext)
        → Q c
        → Q (call_model_checked env settings args o request c).1
    unfolding call_model_step
    call_model-keeps (some e) request c q = q
    call_model-keeps none request c q =
        from_cache-keeps c.step_index request _ _ (closed.looked_up request c q)

    ran_inline-keeps :
        (tool_name : String) (answer : Answer String) (c : ActivationContext)
        → Q c
        → Q (ran_inline env settings args tool_name answer c).1
    ran_inline-keeps tool_name (threw e) c q = asked_once c q
    ran_inline-keeps tool_name (answered v) c q =
        closed.unread _ _ c.budget c.longterm (c.tool_index + 1) (c.asked + 1)
          (closed.ran (env.elapsed_ns c.asked / 1_000_000) c q)

    run_tool-keeps :
        (tool_name arguments : String) (o : Option Bool) (c : ActivationContext)
        → Q c
        → Q (run_registered env settings args tool_name arguments o c).1
    run_tool-keeps tool_name arguments none c q = q
    run_tool-keeps tool_name arguments (some true) c q = q
    run_tool-keeps tool_name arguments (some false) c q =
        ran_inline-keeps tool_name (env.run_inline c.asked tool_name arguments) c q

    stage_intent-keeps :
        (tool_name args_json : String) (kind : Kind) (ttl_ms : Option ℤ) (c : ActivationContext)
        → Q c
        → Q (stage_intent env settings args tool_name args_json kind ttl_ms c).1
    unfolding stage_intent
    stage_intent-keeps tool_name args_json kind ttl_ms c q =
        closed.unread _ _ c.budget c.longterm c.tool_index c.asked
          (closed.staged_one tool_name args_json kind ttl_ms c q)

    load-keeps :
        (k : String) (o : Option MemoryRecord) (c : ActivationContext)
        → Q c
        → Q (load_staged env settings args k o c).1
    load-keeps k none c q = asked_once c q
    load-keeps k (some r) c q = q

    save-keeps :
        (k : String) (bytes : Bytes) (c : ActivationContext)
        → Q c
        → Q (save_staged env settings args k bytes c).1
    save-keeps k bytes c q = elim (Bool-cases (str_eq k "")) [
      | inl blank ↦ rw blank q
      | inr named ↦ rw named (closed.unread c c.traces c.budget _ c.tool_index c.asked q)
    ]

    perform-keeps :
        (op : AgentOp) (c : ActivationContext) → Q c → Q (perform env settings args op c).1
    unfolding perform
    perform-keeps (call_model request) c q = call_model-keeps (check_budget c.budget) request c q
    perform-keeps (run_tool tool_name arguments) c q =
        run_tool-keeps tool_name arguments (env.registry tool_name) c q
    perform-keeps (act tool_name args_json ttl_ms) c q =
        stage_intent-keeps tool_name args_json tool ttl_ms c q
    perform-keeps (request_approval args_json channel ttl_ms) c q =
        stage_intent-keeps (or_default channel settings.approval_channel) args_json approval ttl_ms
          c q
    perform-keeps (memory_call op) c q = closed.remembered op c q
    perform-keeps (longterm_save k bytes) c q = elim (Bool-cases settings.longterm_store) [
      | inl here ↦ rw here (save-keeps k bytes c q)
      | inr gone ↦ rw gone q
    ]
    perform-keeps (longterm_load k) c q = elim (Bool-cases settings.longterm_store) [
      | inl here ↦ rw here (load-keeps k (lookup k c.longterm) c q)
      | inr gone ↦ rw gone q
    ]
    perform-keeps (stage_trace event_type) c q =
        closed.unread c _ c.budget c.longterm c.tool_index c.asked q
    perform-keeps (accumulate_usage usage) c q = closed.used _ c refl refl refl refl q

    pub closed_IsInvariant : IsInvariant env settings args Q
    closed_IsInvariant = record {
      performs = perform-keeps;
      starts = λ c q. closed.unread c _ c.budget c.longterm c.tool_index c.asked q;
    }
