-- ===== src/Traces.antt =====
-- src/beam_agents/observability/traces.py: the identity of an activation attempt's events, their
-- stamping and their builders. `uuid5` over the trace namespace is a parameter.
pub mod Correlated
mod Tests
use Prim.Native.String.{◌++◌ as ◌+++◌}
use beam_agents.Base.{
  ℕ, ◌/◌, ◌%◌, ℤ, pos, String, str_eq, Bool, true, false, Option, none, some, List, [], ◌∷◌, take,
  is_empty, if◌then◌else◌,
}
use beam_agents.Base.Dict.{store}
use beam_agents.Wire.{Bytes}
use beam_agents.Core.State.{TokenUsage}
use beam_agents.Replay.{
  EventType, event_type_unspecified, activation_start, llm_call, tool_call, intent_emitted,
  activation_end, error_event, suspended_event, WireEvent, nth_text, int_text,
}

-- `bytes.hex()`
abbrev pub hex_letter : ℕ → String
hex_letter n = nth_text n (
    "0" ∷ "1" ∷ "2" ∷ "3" ∷ "4" ∷ "5" ∷ "6" ∷ "7" ∷ "8" ∷ "9" ∷ "a" ∷ "b" ∷ "c" ∷ "d" ∷ "e" ∷ "f"
    ∷ [])

abbrev pub hex_text : Bytes → String
hex_text [] = ""
hex_text (b ∷ bs) = hex_letter (b / 16) +++ hex_letter (b % 16) +++ hex_text bs

abbrev pub role_activation : String
role_activation = "activation"

-- `role_for_event_type`
unfoldable pub role_for_event_type : EventType → String
role_for_event_type event_type_unspecified = "EVENT_TYPE_UNSPECIFIED"
role_for_event_type activation_start = role_activation
role_for_event_type llm_call = "LLM_CALL"
role_for_event_type tool_call = "TOOL_CALL"
role_for_event_type intent_emitted = "INTENT_EMITTED"
role_for_event_type activation_end = role_activation
role_for_event_type error_event = "ERROR"
role_for_event_type suspended_event = "SUSPENDED"

abbrev pub bool_text : Bool → String
bool_text true = "true"
bool_text false = "false"

-- `usage_attributes`
unfoldable pub usage_attributes : Option TokenUsage → (billed : Bool) → List (String × String)
usage_attributes none billed = ("beam_agents.billed", bool_text billed) ∷ []
usage_attributes (some usage) billed =
    ("beam_agents.billed", bool_text billed)
    ∷ ("gen_ai.usage.input_tokens", int_text (pos usage.prompt_tokens))
    ∷ ("gen_ai.usage.output_tokens", int_text (pos usage.completion_tokens))
    ∷ []

-- `dict.update`
unfoldable pub update : List (String × String) → List (String × String) → List (String × String)
update d [] = d
update d ((k, v) ∷ more) = update (store k v d) more

-- `",".join`
unfoldable pub joined : List String → String
joined [] = ""
joined (s ∷ []) = s
joined (s ∷ t ∷ ss) = s +++ "," +++ joined (t ∷ ss)

-- the attributes of `error`, where an empty error type is left out
abbrev pub typed : (error_type : String) → List (String × String)
typed error_type = if str_eq error_type "" then [] else ("error.type", error_type) ∷ []

unfoldable pub error_attributes :
    (reason error_type : String) → Option (List (String × String)) → List (String × String)
unfolding update
error_attributes reason error_type none = ("beam_agents.reason", reason) ∷ typed error_type
error_attributes reason error_type (some failure) =
    update (("beam_agents.reason", reason) ∷ typed error_type) failure

abbrev pub or_else : Bytes → Bytes → Bytes
or_else given fallback = if is_empty given then fallback else given

-- the constructor's arguments
pub record ActivationTrace : Type 0 where
  pub entity_key : Bytes
  pub seq : ℕ
  pub now_ms : ℤ
  pub entry_step_index : ℕ
  pub is_resume : Bool

module _ (uuid5 : String → Bytes) where
  -- `trace_id_for`
  unfoldable pub trace_id_for : Bytes → ℕ → Bytes
  trace_id_for entity_key seq = uuid5 (hex_text entity_key +++ "|" +++ int_text (pos seq))

  -- `span_id_for`
  unfoldable pub span_id_for : Bytes → ℕ → (role : String) → (index : ℕ) → Bytes
  span_id_for entity_key seq role index = take 8 (
      uuid5 (
        hex_text entity_key
        +++ "|"
        +++ int_text (pos seq)
        +++ "|"
        +++ role
        +++ "|"
        +++ int_text (pos index)))

  module _ (self : ActivationTrace) where
    -- `_span_id`
    unfoldable pub own_span_id : Bytes
    own_span_id = span_id_for self.entity_key self.seq role_activation self.entry_step_index

    -- `_parent_span_id`
    unfoldable pub own_parent_span_id : Bytes
    own_parent_span_id =
        if self.is_resume then span_id_for self.entity_key self.seq role_activation 0 else []

    abbrev pub role_or : Option String → EventType → String
    role_or none event_type = role_for_event_type event_type
    role_or (some role) event_type = role

    abbrev pub span_for : (role : String) → (step_index : ℕ) → Bytes
    span_for role step_index =
        if str_eq role role_activation
        then own_span_id
        else span_id_for self.entity_key self.seq role step_index

    abbrev pub parent_for : (role : String) → Bytes
    parent_for role = if str_eq role role_activation then own_parent_span_id else own_span_id

    -- `stamp`
    unfoldable pub stamp : Option String → WireEvent → WireEvent
    stamp role e =
        let span_role = role_or role e.event_type in
        record e {
          trace_id = or_else e.trace_id (trace_id_for self.entity_key self.seq);
          span_id = or_else e.span_id (span_for span_role e.step_index);
          parent_span_id = or_else e.parent_span_id (parent_for span_role);
        }

    -- `_event`
    unfoldable pub new_event :
        EventType → (step_index : ℕ) → List (String × String) → Option String → WireEvent
    unfolding stamp
    new_event event_type step_index attributes role = stamp role (record {
      trace_id = [];
      span_id = [];
      parent_span_id = [];
      entity_key = self.entity_key;
      seq = self.seq;
      step_index = step_index;
      event_type = event_type;
      attributes = attributes;
      start_ms = self.now_ms;
      end_ms = self.now_ms;
    })

    abbrev pub kind_text : String
    kind_text = if self.is_resume then "resume" else "start"

    unfoldable pub start_event : WireEvent
    unfolding new_event
    start_event =
        new_event activation_start 0 (("beam_agents.activation.kind", kind_text) ∷ []) none

    unfoldable pub end_event : (status : String) → (step_index : ℕ) → WireEvent
    unfolding new_event
    end_event status step_index =
        new_event activation_end step_index
          (("beam_agents.activation.status", status)
            ∷ ("beam_agents.activation.kind", kind_text)
            ∷ [])
          none

    unfoldable pub suspend_event :
        (step_index : ℕ)
        → (deadline_ms : ℤ) → (adapter : String) → (pending_intent_ids : List String) → WireEvent
    unfolding new_event joined
    suspend_event step_index deadline_ms adapter pending_intent_ids =
        new_event suspended_event step_index
          (("beam_agents.deadline_ms", int_text deadline_ms)
            ∷ ("beam_agents.adapter", adapter)
            ∷ ("beam_agents.pending_intent_ids", joined pending_intent_ids)
            ∷ [])
          none

    unfoldable pub intent_event :
        (step_index : ℕ)
        → (intent_id tool_name intent_kind : String) → (expires_at_ms : ℤ) → WireEvent
    unfolding new_event
    intent_event step_index intent_id tool_name intent_kind expires_at_ms =
        new_event intent_emitted step_index
          (("beam_agents.intent_id", intent_id)
            ∷ ("beam_agents.tool_name", tool_name)
            ∷ ("beam_agents.intent_kind", intent_kind)
            ∷ ("beam_agents.expires_at_ms", int_text expires_at_ms)
            ∷ [])
          none

    unfoldable pub tool_event : (step_index tool_index : ℕ) → (tool_name : String) → WireEvent
    unfolding new_event
    tool_event step_index tool_index tool_name =
        record (new_event tool_call step_index (("beam_agents.tool_name", tool_name) ∷ []) none) {
          span_id = span_id_for self.entity_key self.seq (role_for_event_type tool_call) tool_index;
        }

    -- `error`
    unfoldable pub failure_event :
        (reason error_type : String) → Option String → Option (List (String × String)) → WireEvent
    unfolding new_event error_attributes
    failure_event reason error_type role failure =
        new_event error_event 0 (error_attributes reason error_type failure) role
