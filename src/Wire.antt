-- ===== src/Wire.antt =====
-- protos/beam_agents.proto and the runtime's own records: the messages that cross the outbox, the
-- keyed-state blobs and the outputs. An int64 time is an integer, a uint32 or a sequence number a
-- number, `bytes` a list of numbers and `string` a text; a formatted text that no code reads back
-- is a value that carries what was formatted.
use beam_agents.Base.{ℕ, ℤ, String, Bool, List, Option}

abbrev pub Bytes : Type 0
Bytes = List ℕ

-- ToolIntent.Kind
pub data Kind : Type 0 where
  kind_unspecified tool approval : Kind

-- ToolIntent.SignatureScheme
pub data SignatureScheme : Type 0 where
  scheme_unspecified hmac_sha256 : SignatureScheme

pub record ToolIntent : Type 0 where
  pub intent_id : String
  pub entity_key : Bytes
  pub seq : ℕ
  pub step_index : ℕ
  pub tool_name : String
  pub args_json : String
  pub created_at_ms : ℤ
  pub expires_at_ms : ℤ
  pub attempt : ℕ
  pub kind : Kind
  pub trace_id : Bytes
  pub signature_scheme : SignatureScheme
  pub signing_key_id : String
  pub signature : Bytes

-- ToolResult.Status
pub data Status : Type 0 where
  status_unspecified ok error expired rejected : Status

-- what an `error_message` says: a text as it was raised, or the arguments of one format string
pub data Message : Type 0 where
  blank : Message
  text : String → Message
  tool_not_found : String → Message
  read_only_tool : String → Message
  expired_at : ℤ → Message
  timed_out_after : String → ℤ → Message
  exception : String → String → Message
  unencodable : String → String → String → Message

pub record ToolResult : Type 0 where
  pub intent_id : String
  pub entity_key : Bytes
  pub seq : ℕ
  pub status : Status
  pub payload : Bytes
  pub error_message : Message
  pub completed_at_ms : ℤ

-- AgentEnvelope.Approval
pub record Approval : Type 0 where
  pub intent_id : String
  pub approved : Bool
  pub approver : String
  pub decided_at_ms : ℤ

-- the oneof of an AgentEnvelope; `empty` is an envelope with none of them set
pub data Payload : Type 0 where
  external_event : Bytes → Payload
  tool_result : ToolResult → Payload
  approval : Approval → Payload
  export_request : String → Payload
  empty : Payload

pub record AgentEnvelope : Type 0 where
  pub entity_key : Bytes
  pub event_time_ms : ℤ
  pub payload : Payload

-- `envelope.external_event`, which is empty where another field of the oneof is set
abbrev pub event_of : Payload → Bytes
event_of (external_event b) = b
event_of _ = List.[]

pub record MemoryEntry : Type 0 where
  pub key : String
  pub value : Bytes
  pub last_access_ms : ℤ

pub record MemoryBlob : Type 0 where
  pub state_schema_version : ℕ
  pub entries : List MemoryEntry
  pub total_value_bytes : ℕ

pub record LlmCacheEntry : Type 0 where
  pub cache_key : String
  pub response : Bytes
  pub response_digest : Bytes
  pub created_at_ms : ℤ
  pub last_access_ms : ℤ
  pub digest_only : Bool

pub record LlmCacheBlob : Type 0 where
  pub state_schema_version : ℕ
  pub entries : List LlmCacheEntry
  pub total_response_bytes : ℕ

pub record Continuation : Type 0 where
  pub state_schema_version : ℕ
  pub seq : ℕ
  pub step_index : ℕ
  pub pending_intent_ids : List String
  pub adapter : String
  pub snapshot : Bytes
  pub suspended_at_ms : ℤ
  pub deadline_ms : ℤ
  pub escalations : ℕ

pub record StateSnapshot : Type 0 where
  pub state_schema_version : ℕ
  pub entity_key : Bytes
  pub seq : ℕ
  pub snapshot_at_ms : ℤ
  pub memory : Option MemoryBlob
  pub llm_cache : Option LlmCacheBlob
  pub continuation : Option Continuation
  pub pending : List ToolIntent
  pub request_id : String
