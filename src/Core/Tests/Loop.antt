-- ===== src/Core/Tests/Loop.antt =====
-- An agent that asks for two refunds, calls the model and suspends, driven by `run_activation`.
use beam_agents.Base.{
  ◌+◌, ◌++◌, ◌+ℤ◌, ◌<◌, ◌≤◌, ◌≡◌, refl, pos, false, Option, none, some, [], ◌∷◌, All, arith, inl,
  length,
}
use beam_agents.Base.Dict.{weight}
use beam_agents.Wire.{Bytes, Continuation}
use beam_agents.Core.State.{ActivationResult, fresh}
use beam_agents.Core.Engine.{ActivationArgs, Attempt, finished, AgentDoFn}
use beam_agents.Core.Callbacks.{Callback, callback, Reach, here, next, on_element}
use beam_agents.Core.Invariant.{IsSound, IsConsistent}
use beam_agents.Core.IntentId.Distinct.{Distinct, resume-Distinct}
use beam_agents.Core.Context.{
  Environment, Settings, call, finish, act, call_model, memory_call, LlmRequest, answered,
  new_context, response,
}
use beam_agents.Core.Context.Operations.{perform}
use beam_agents.Core.Context.Replay.{Replays, call_model-call_model}
use beam_agents.Core.Loop.{Agent, suspend, run_activation}
use beam_agents.Core.Loop.Contract.{IsDriven, driven-IsConsistent, run_activation-IsSound}
use beam_agents.Core.Loop.Steps.{IsAccountable, run_activation-IsAccountable}
use beam_agents.Core.Loop.Blobs.{IsHealthy, run_activation-blobs}
use beam_agents.Memory.{hard_cap_bytes}
use beam_agents.Memory.Calls.{set}
use beam_agents.Model.ReplayCache.{max_entries}
use beam_agents.Model.ReplayCache.Bounds.{IsCompact}
use beam_agents.Core.Tests.{key, runner, arrival, waiting, run_agent, run_of, callbacks}
use beam_agents.Core.Tests.Unary.{spell, spell-IsCollisionFree}

abbrev block : Bytes
block = 1 ∷ 2 ∷ 3 ∷ 4 ∷ 5 ∷ 6 ∷ 7 ∷ 8 ∷ []

abbrev digest : Bytes
digest = block ++ (block ++ (block ++ block))

abbrev env : Environment
env = record {
  uuid5 = spell;
  trace_id_for = λ k n. [];
  codec = record {
    sha256 = λ b. digest;
    byte_size = λ p. 90 + length p.response + length p.response_digest;
  };
  hexdigest = λ d. "digest";
  complete = λ asked request. answered (1 ∷ 2 ∷ []);
  elapsed_ns = λ asked. 3_000_000;
  registry = λ name. none;
  run_inline = λ asked name arguments. answered "";
  store_load = λ asked k. answered none;
  store_save = λ asked r. answered tt;
  repr = λ e. "";
}

abbrev settings : Settings
settings = record {
  intent_ttl_ms = pos 1000;
  default_hitl_timeout_ms = pos 5000;
  approval_channel = "approval";
  decode = none;
  compactor = none;
  summarizer = none;
  max_tokens_per_activation = none;
  longterm_store = false;
}

abbrev request : LlmRequest
request = record { model_id = "m"; messages = "[]"; tools_schema = "[]"; sampling_params = "{}" }

-- two refunds, a model call and a note, and then the wait
abbrev agent : Agent
agent args = call (act "refund" "{}" none) (λ a. call (act "refund" "{}" (some (pos 700))) (λ b.
    call (call_model request)
      (λ c. call (memory_call (set "note" (5 ∷ []))) (λ d. finish (suspend [] "" none)))))

abbrev args : ActivationArgs
args = record {
  entity_key = key;
  seq = 4;
  now_ms = pos 100;
  memory_blob = none;
  cache_blob = none;
  event = [];
  events = none;
  batch_trigger = none;
  resume_result = none;
  resume_approval = none;
  snapshot = [];
  step_index = 0;
}

-- the resume, at the continuation's step
abbrev resumed : ActivationArgs
resumed = record args { step_index = 3 }

abbrev result_in : Attempt → ActivationResult → ActivationResult
result_in (finished r) d = r
result_in _ d = d

program : Unit {0}
unfolding run_activation ◌+ℤ◌
program = tt

abbrev result : ActivationResult
result = result_in (run_activation env settings args agent) (run_agent args false)

abbrev later : ActivationResult
later = result_in (run_activation env settings resumed agent) (run_agent args false)

ran : run_activation env settings args agent ≡ finished result
unfolding program
ran = refl

ran_again : run_activation env settings resumed agent ≡ finished later
unfolding program
ran_again = refl

abbrev no_continuation : Continuation
no_continuation = waiting args

abbrev cont_in : Option Continuation → Continuation
cont_in (some k) = k
cont_in none = no_continuation

-- three steps, and the deadline of the second refund
suspends :
    (result.tally.iterations ≡ 3)
    × (result.hitl_deadline_ms ≡ some (pos 800))
    × (length result.intents ≡ 2)
    × (result.tally.llm_ms ≡ 3 ∷ [])
unfolding program
suspends = (refl, refl, refl, refl)

run_activation-IsSound_example : IsSound 4 result
run_activation-IsSound_example = run_activation-IsSound env settings agent args result ran

run_activation-IsAccountable_example : IsAccountable env args result
run_activation-IsAccountable_example =
    run_activation-IsAccountable env settings args agent result ran

bytes : All (λ b. b < 256) key
bytes = (omega arith, (omega arith, tt))

suspended : result.continuation ≡ some (cont_in result.continuation)
unfolding program
suspended = refl

at_step : 3 ≡ (cont_in result.continuation).step_index
unfolding program
at_step = refl

resume-Distinct_example : Distinct result.intents later.intents
resume-Distinct_example =
    resume-Distinct env settings agent agent args resumed result later (cont_in result.continuation)
      spell-IsCollisionFree bytes refl refl ran suspended at_step ran_again

healthy : IsHealthy args (new_context env settings args)
unfolding program new_context weight
healthy = record {
  memory = record { accounted = record { distinct = tt; sized = refl }; within = omega arith };
  cache = record { clock = refl; distinct = tt; responses = refl; wire = refl };
  few = omega arith;
  small = omega arith;
}

compact : IsCompact env.codec args.now_ms "digest"
compact = ((λ b. refl), (λ d size. omega (arith, size)))

run_activation-blobs_example :
    (result.memory_blob.total_value_bytes ≤ hard_cap_bytes)
    × (length result.cache_blob.entries ≤ max_entries)
run_activation-blobs_example =
    run_activation-blobs env settings args (λ d. compact) tt agent result healthy ran

answered_once :
    (perform env settings args (call_model request) (new_context env settings args)).0
    ≡ response (1 ∷ 2 ∷ [])
unfolding program
answered_once = refl

call_model-call_model_example :
    Replays env settings args request (1 ∷ 2 ∷ []) (new_context env settings args)
unfolding new_context
call_model-call_model_example =
    call_model-call_model env settings args request (new_context env settings args) (1 ∷ 2 ∷ [])
      refl healthy.cache compact answered_once

-- the runner of the tests with this agent
abbrev driver : AgentDoFn
driver = record runner { activate = λ given. (run_activation env settings given agent, 7) }

driver-IsDriven : IsDriven driver env settings agent
driver-IsDriven = record { drives = λ given. inl refl }

driver-Reach :
    Reach driver key (run_of (callback driver key (pos 90) (Callback.element arrival) fresh)).state
unfolding program callbacks
driver-Reach = next here (
    on_element (pos 90) arrival
      (run_of (callback driver key (pos 90) (Callback.element arrival) fresh)) refl refl)

driven-IsConsistent_example :
    IsConsistent driver
      (run_of (callback driver key (pos 90) (Callback.element arrival) fresh)).state
driven-IsConsistent_example =
    driven-IsConsistent env settings agent driver key driver-IsDriven driver-Reach
