-- ===== src/Core/Context/Operations.antt =====
-- The operations of an `ActivationContext`, one function each, and a coroutine's run over them.
use beam_agents.Base.{
  ℕ, ◌+◌, ◌/◌, ℤ, ◌+ℤ◌, String, Bool, true, false, Option, none, some, [], ◌∷◌, ◌++◌, if◌then◌else◌,
  str_eq, ◌⊎◌, inl, inr,
}
use beam_agents.Base.Dict.{lookup, store}
use beam_agents.Wire.{Bytes, ToolIntent, Kind, tool, approval, scheme_unspecified}
use beam_agents.Core.State.{TokenUsage, llm_call, tool_call, intent_emitted, agent_event}
use beam_agents.Core.Engine.{ActivationArgs}
use beam_agents.Core.IntentId.{intent_id_for}
use beam_agents.Core.Context.{
  LlmRequest, MemoryRecord, Raise, user_error, budget_exceeded, tool_not_found, side_effect_tool,
  empty_longterm_key, no_longterm_store, assertion_error, Answer, answered, threw, Environment,
  AgentOp, call_model, run_tool, act, request_approval, memory_call, longterm_save, longterm_load,
  stage_trace, accumulate_usage, AgentReply, response, tool_value, intent_id, memory_reply,
  record_found, ok, raised, Program, finish, fail, call, Settings, ActivationContext,
  compute_cache_key,
}
use beam_agents.Model.Budget.{TokenBudget, charge}
use beam_agents.Model.ReplayCache.{ReplayEntry, get, put}
use beam_agents.Memory.Calls.{call_memory}

abbrev pub or_default {ℓ} : {A : Type ℓ} → Option A → A → A
or_default none d = d
or_default (some a) d = a

-- `_charge`, what it raises and the context it leaves
abbrev pub charge_budget :
    Option TokenBudget → Option TokenUsage → ActivationContext → Option Raise × ActivationContext
charge_budget none usage c = (none, c)
charge_budget (some b) none c = (some assertion_error, c)
charge_budget (some b) (some usage) c =
    let (fine, b1) = charge usage.total_tokens b in
    (
      (if fine then none else some (budget_exceeded b1.limit b1.consumed)),
      record c { budget = some b1 },
    )

-- `self._budget.check()`
abbrev pub check_budget : Option TokenBudget → Option Raise
check_budget none = none
check_budget (some b) = if b.exhausted then some (budget_exceeded b.limit b.consumed) else none

abbrev pub reply_unless :
    AgentReply → Option Raise × ActivationContext → AgentReply × ActivationContext
reply_unless reply (none, c) = (reply, c)
reply_unless reply (some e, c) = (raised e, c)

-- `_decoded_usage`
abbrev pub known : Answer TokenUsage → Answer (Option TokenUsage)
known (answered usage) = answered (some usage)
known (threw e) = threw e

abbrev pub decoded_usage : Option (Bytes → Answer TokenUsage) → Bytes → Answer (Option TokenUsage)
decoded_usage none bytes = answered none
decoded_usage (some decode) bytes = known (decode bytes)

module _ (env : Environment) (settings : Settings) (args : ActivationArgs) where
  -- `_stage_llm_trace` and then `_charge`, past the decoder
  abbrev pub consume_usage :
      (step : ℕ) (cache_hit : Bool)
      → LlmRequest
      → Bytes
      → Answer (Option TokenUsage)
      → ActivationContext
      → AgentReply × ActivationContext
  consume_usage step cache_hit request bytes (threw e) c = (raised (user_error e), c)
  consume_usage step cache_hit request bytes (answered usage) c = reply_unless (response bytes) (
      charge_budget c.budget usage
        (record c { traces = c.traces ++ llm_call step cache_hit request.model_id usage ∷ [] }))

  -- what ends both branches of `call_model`
  unfoldable pub consume :
      (step : ℕ) (cache_hit : Bool)
      → LlmRequest
      → Bytes
      → ActivationContext
      → AgentReply × ActivationContext
  unfolding charge
  consume step cache_hit request bytes c =
      consume_usage step cache_hit request bytes (decoded_usage settings.decode bytes) c

  abbrev pub from_provider :
      (step : ℕ) (cache_key : String)
      → LlmRequest
      → Answer Bytes
      → ActivationContext
      → AgentReply × ActivationContext
  from_provider step cache_key request (threw e) c =
      (raised (user_error e), record c { asked = c.asked + 1 })
  from_provider step cache_key request (answered bytes) c =
      consume step false request bytes (record c {
        asked = c.asked + 1;
        replay_cache = put env.codec cache_key bytes c.replay_cache;
        tally = record c.tally {
          llm_calls = c.tally.llm_calls + 1;
          llm_ms = c.tally.llm_ms ++ env.elapsed_ns c.asked / 1_000_000 ∷ [];
        };
      })

  abbrev pub from_cache :
      (step : ℕ) (cache_key : String)
      → LlmRequest
      → Option ReplayEntry
      → ActivationContext
      → AgentReply × ActivationContext
  from_cache step cache_key request none c =
      from_provider step cache_key request (env.complete c.asked request) c
  from_cache step cache_key request (some entry) c =
      if entry.digest_only
      then from_provider step cache_key request (env.complete c.asked request) c
      else consume step true request entry.response c

  -- `call_model` past its check of the budget
  unfoldable pub call_model_step : LlmRequest → ActivationContext → AgentReply × ActivationContext
  unfolding consume compute_cache_key get put
  call_model_step request c =
      let cache_key = compute_cache_key env.hexdigest request args.entity_key args.seq in
      let (cached, replay_cache) = get cache_key c.replay_cache in
      from_cache c.step_index cache_key request cached
        (record c { step_index = c.step_index + 1; replay_cache = replay_cache })

  abbrev pub call_model_checked :
      Option Raise → LlmRequest → ActivationContext → AgentReply × ActivationContext
  call_model_checked (some e) request c = (raised e, c)
  call_model_checked none request c = call_model_step request c

  abbrev pub ran_inline :
      (tool_name : String) → Answer String → ActivationContext → AgentReply × ActivationContext
  ran_inline tool_name (threw e) c = (raised (user_error e), record c { asked = c.asked + 1 })
  ran_inline tool_name (answered v) c = (
    tool_value v,
    record c {
      asked = c.asked + 1;
      tally = record c.tally {
        tool_calls = c.tally.tool_calls + 1;
        tool_ms = c.tally.tool_ms ++ env.elapsed_ns c.asked / 1_000_000 ∷ [];
      };
      traces = c.traces ++ tool_call c.step_index c.tool_index tool_name ∷ [];
      tool_index = c.tool_index + 1;
    },
  )

  -- `run_tool`, by what the registry holds, with the guard of `ToolRunner.run`
  abbrev pub run_registered :
      (tool_name arguments : String)
      → Option Bool
      → ActivationContext
      → AgentReply × ActivationContext
  run_registered tool_name arguments none c = (raised (tool_not_found tool_name), c)
  run_registered tool_name arguments (some true) c = (raised (side_effect_tool tool_name), c)
  run_registered tool_name arguments (some false) c =
      ran_inline tool_name (env.run_inline c.asked tool_name arguments) c

  -- the intent that `_stage_intent` builds at a step
  unfoldable pub staged_intent :
      (step : ℕ) (tool_name args_json : String) → Kind → (ttl_ms : Option ℤ) → ToolIntent
  unfolding intent_id_for ◌+ℤ◌
  staged_intent step tool_name args_json kind ttl_ms = record {
    intent_id = intent_id_for env.uuid5 args.entity_key args.seq step;
    entity_key = args.entity_key;
    seq = args.seq;
    step_index = step;
    tool_name = tool_name;
    args_json = args_json;
    created_at_ms = args.now_ms;
    expires_at_ms = args.now_ms +ℤ or_default ttl_ms settings.intent_ttl_ms;
    attempt = 0;
    kind = kind;
    trace_id = env.trace_id_for args.entity_key args.seq;
    signature_scheme = scheme_unspecified;
    signing_key_id = "";
    signature = [];
  }

  -- `_stage_intent`
  unfoldable pub stage_intent :
      (tool_name args_json : String)
      → Kind
      → (ttl_ms : Option ℤ) → ActivationContext
      → AgentReply × ActivationContext
  unfolding staged_intent
  stage_intent tool_name args_json kind ttl_ms c =
      let i = staged_intent c.step_index tool_name args_json kind ttl_ms in
      (
        intent_id i.intent_id,
        record c {
          step_index = c.step_index + 1;
          intents = c.intents ++ i ∷ [];
          traces =
              c.traces
              ++ intent_emitted i.step_index i.intent_id i.tool_name i.kind i.expires_at_ms ∷ [];
        },
      )

  -- `LongtermMemory.save`
  abbrev pub save_staged : String → Bytes → ActivationContext → AgentReply × ActivationContext
  save_staged k bytes c = if str_eq k "" then (raised empty_longterm_key, c) else (
    ok,
    record c {
      longterm =
          store k
            (record {
              entity_key = args.entity_key;
              key = k;
              value = bytes;
              seq = args.seq;
              updated_at_ms = args.now_ms;
            })
            c.longterm;
    },
  )

  abbrev pub load_answer : Answer (Option MemoryRecord) → AgentReply
  load_answer (answered r) = record_found r
  load_answer (threw e) = raised (user_error e)

  -- `LongtermMemory.load`: the staged save first
  abbrev pub load_staged :
      String → Option MemoryRecord → ActivationContext → AgentReply × ActivationContext
  load_staged k (some r) c = (record_found (some r), c)
  load_staged k none c = (load_answer (env.store_load c.asked k), record c { asked = c.asked + 1 })

  -- `ctx.memory.longterm`, which raises where no store is configured
  abbrev pub with_longterm :
      (ActivationContext → AgentReply × ActivationContext)
      → ActivationContext
      → AgentReply × ActivationContext
  with_longterm act_on c =
      if settings.longterm_store then act_on c else (raised no_longterm_store, c)

  -- one operation that the agent calls
  unfoldable pub perform : AgentOp → ActivationContext → AgentReply × ActivationContext
  unfolding call_model_step stage_intent lookup store call_memory
  perform (call_model request) c = call_model_checked (check_budget c.budget) request c
  perform (run_tool tool_name arguments) c =
      run_registered tool_name arguments (env.registry tool_name) c
  perform (act tool_name args_json ttl_ms) c = stage_intent tool_name args_json tool ttl_ms c
  perform (request_approval args_json channel ttl_ms) c =
      stage_intent (or_default channel settings.approval_channel) args_json approval ttl_ms c
  perform (memory_call op) c =
      let (reply, m) = call_memory settings.compactor op c.memory in
      (memory_reply reply, record c { memory = m })
  perform (longterm_save k bytes) c = with_longterm (save_staged k bytes) c
  perform (longterm_load k) c = with_longterm (load_staged k (lookup k c.longterm)) c
  perform (stage_trace event_type) c =
      (ok, record c { traces = c.traces ++ agent_event event_type ∷ [] })
  perform (accumulate_usage usage) c = (
    ok,
    record c {
      tally = record c.tally {
        total_tokens = c.tally.total_tokens + usage.total_tokens;
        prompt_tokens = c.tally.prompt_tokens + usage.prompt_tokens;
        completion_tokens = c.tally.completion_tokens + usage.completion_tokens;
        usage_observed = true;
      };
    },
  )

  -- A coroutine's run: how it ends, and the context it leaves.
  unfoldable pub run_program :
      {A : Type 0} → Program A → ActivationContext → (A ⊎ Raise) × ActivationContext
  unfolding perform
  run_program (finish a) c = (inl a, c)
  run_program (fail e) c = (inr e, c)
  run_program (call op next) c = let (reply, c1) = perform op c in run_program (next reply) c1
