-- ===== src/Core/Process.antt =====
-- `_resume` and `process` of core/dofn.py.
use beam_agents.Base.{ℕ, ℤ, String, false, Option, none, some, List, [], ◌∷◌}
use beam_agents.Wire.{
  Bytes, ToolIntent, ToolResult, Approval, AgentEnvelope, Payload, tool_result, approval,
  export_request, event_of, Continuation,
}
use beam_agents.Core.Migration.{Result, ok, ◌>>=◌, current_state_schema_version}
use beam_agents.Core.Batching.{BatchSettings}
use beam_agents.Core.State.{KeyState, refused, Refusal, snapshots, Run, reason_orphaned}
use beam_agents.Core.Engine.{
  AgentDoFn, read_memory, read_cache, read_continuation, dead_letter, dead_letter_metric,
  error_trace, resuming,
}
use beam_agents.Core.Admission.{admission_failure}
use beam_agents.Core.Elements.{start_args, conclude, start, buffer}

-- the texts of the DETAIL_* constants
abbrev detail_text : Refusal → String
detail_text Refusal.no_continuation = "no_continuation"
detail_text Refusal.unknown_intent = "unknown_intent"
detail_text Refusal.deadline_passed = "deadline_passed"
detail_text Refusal.intent_expired = "intent_expired"

abbrev trace_seq : Option Continuation → KeyState → ℕ
trace_seq none s = s.seq
trace_seq (some cont) s = cont.seq

abbrev pending_of : Option Continuation → KeyState → List ToolIntent
pending_of none s = []
pending_of (some cont) s = s.pending

-- the exit of `_resume` for a result that no live suspension waits for
unfoldable pub refuse_resume :
    Bytes → (now_ms : ℤ) → (intent_id : String) → Refusal → Option Continuation → KeyState → Run
refuse_resume key now_ms intent_id detail cont s = record {
  state = s;
  outputs =
      dead_letter key reason_orphaned (refused detail intent_id) now_ms
      ∷ error_trace key (trace_seq cont s) now_ms reason_orphaned (some (detail_text detail)) false
          none
      ∷ [];
  metrics = dead_letter_metric reason_orphaned ∷ [];
}

-- the admitted part of `_resume`
unfoldable pub resume_admitted :
    AgentDoFn
    → Bytes
    → (now_ms wall_now_ms : ℤ) → Option ToolResult
    → Option Approval
    → Continuation
    → KeyState
    → Result Run
resume_admitted self key now_ms wall_now_ms resume_result resume_approval cont s = do
  memory_blob ← read_memory self s
  cache_blob ← read_cache self s
  let args = start_args key cont.seq now_ms memory_blob cache_blob []
  ok (
      conclude self key cont.seq now_ms wall_now_ms resuming s (
        self.activate (record args {
          resume_result = resume_result;
          resume_approval = resume_approval;
          snapshot = cont.snapshot;
          step_index = cont.step_index;
        })))

-- `_resume` past the admission check
unfoldable pub resume_decided :
    AgentDoFn
    → Bytes
    → (now_ms wall_now_ms : ℤ) → (intent_id : String) → Option ToolResult
    → Option Approval
    → Option Refusal
    → Option Continuation
    → KeyState
    → Result Run
unfolding refuse_resume
resume_decided self key now_ms wall_now_ms intent_id r a (some detail) cont s =
    ok (refuse_resume key now_ms intent_id detail cont s)
resume_decided self key now_ms wall_now_ms intent_id r a none (some cont) s =
    resume_admitted self key now_ms wall_now_ms r a cont s
-- `admission_failure none` is never `none`, so this is not reached: `assert cont is not None`
resume_decided self key now_ms wall_now_ms intent_id r a none none s =
    ok (refuse_resume key now_ms intent_id Refusal.no_continuation none s)

-- `_resume` past the migrated read of the continuation
unfoldable pub resume_with :
    AgentDoFn
    → Bytes
    → (now_ms wall_now_ms : ℤ) → (intent_id : String) → Option ToolResult
    → Option Approval
    → Option Continuation
    → KeyState
    → Result Run
unfolding resume_decided
resume_with self key now_ms wall_now_ms intent_id r a cont s =
    resume_decided self key now_ms wall_now_ms intent_id r a
      (admission_failure cont (pending_of cont s) intent_id now_ms) cont s

-- `_resume`
unfoldable pub resume :
    AgentDoFn
    → Bytes
    → (now_ms wall_now_ms : ℤ) → (intent_id : String) → Option ToolResult
    → Option Approval
    → KeyState
    → Result Run
unfolding resume_with
resume self key now_ms wall_now_ms intent_id resume_result resume_approval s = do
  cont ← read_continuation self s
  resume_with self key now_ms wall_now_ms intent_id resume_result resume_approval cont s

-- snapshot.py, `build_snapshot` over the five reads of `process`
unfoldable pub export : Bytes → (now_ms : ℤ) → (request_id : String) → KeyState → Run
export key now_ms request_id s = record {
  state = s;
  outputs =
      snapshots (record {
        state_schema_version = current_state_schema_version;
        entity_key = key;
        seq = s.seq;
        snapshot_at_ms = now_ms;
        memory = s.memory;
        llm_cache = s.llm_cache;
        continuation = s.continuation;
        pending = s.pending;
        request_id = request_id;
      })
      ∷ [];
  metrics = [];
}

-- the last branch of `process`, by the batching mode: an event, or an envelope with no payload
unfoldable pub process_event :
    AgentDoFn
    → Bytes
    → (wall_now_ms : ℤ) → AgentEnvelope
    → Option BatchSettings
    → KeyState
    → Result Run
process_event self key wall_now_ms envelope none s =
    start self key envelope.event_time_ms wall_now_ms (event_of envelope.payload) s
process_event self key wall_now_ms envelope (some settings) s =
    buffer self settings key wall_now_ms envelope s

-- the dispatch on the payload
unfoldable pub dispatch :
    AgentDoFn → Bytes → (wall_now_ms : ℤ) → AgentEnvelope → Payload → KeyState → Result Run
unfolding export process_event
dispatch self key wall_now_ms envelope (export_request request_id) s =
    ok (export key envelope.event_time_ms request_id s)
dispatch self key wall_now_ms envelope (tool_result r) s =
    resume self key envelope.event_time_ms wall_now_ms r.intent_id (some r) none s
dispatch self key wall_now_ms envelope (approval a) s =
    resume self key envelope.event_time_ms wall_now_ms a.intent_id none (some a) s
dispatch self key wall_now_ms envelope _ s =
    process_event self key wall_now_ms envelope self.batch s

-- `process`
unfoldable pub process :
    AgentDoFn → Bytes → (wall_now_ms : ℤ) → AgentEnvelope → KeyState → Result Run
unfolding dispatch
process self key wall_now_ms envelope s = dispatch self key wall_now_ms envelope envelope.payload s
