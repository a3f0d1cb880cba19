-- ===== src/Replay.antt =====
-- src/beam_agents/replay/diff.py: a replayed activation against its traced record. The protobuf
-- serialization of an event is a parameter; a `Difference` carries the values that its detail text
-- prints, less the fields of a diverging event.
pub mod Exact
pub mod Served
mod Tests
use Prim.Native.String.{◌++◌ as ◌+++◌}
use beam_agents.Base.{
  ℕ, zero, suc, ◌+◌, ◌/◌, ◌%◌, ltb, ◌==◌, ℤ, pos, negsuc, String, str_eq, Bool, true, false, ◌||◌,
  Option, none, some, List, [], ◌∷◌, ◌++◌, map, length, is_empty, bytes_eq, if◌then◌else◌,
}
use beam_agents.Base.Dict.{lookup, store}
use beam_agents.Wire.{Bytes, Kind, kind_unspecified, tool, approval, ToolIntent}

-- TraceEvent.EventType
pub data EventType : Type 0 where
  event_type_unspecified activation_start llm_call tool_call intent_emitted : EventType
  activation_end error_event suspended_event : EventType

-- protos/beam_agents.proto, a `TraceEvent`
pub record WireEvent : Type 0 where
  pub trace_id : Bytes
  pub span_id : Bytes
  pub parent_span_id : Bytes
  pub entity_key : Bytes
  pub seq : ℕ
  pub step_index : ℕ
  pub event_type : EventType
  pub attributes : List (String × String)
  pub start_ms : ℤ
  pub end_ms : ℤ

abbrev pub is_llm_call : EventType → Bool
is_llm_call llm_call = true
is_llm_call _ = false

abbrev pub is_error : EventType → Bool
is_error error_event = true
is_error _ = false

abbrev pub is_activation_end : EventType → Bool
is_activation_end activation_end = true
is_activation_end _ = false

abbrev pub is_intent_emitted : EventType → Bool
is_intent_emitted intent_emitted = true
is_intent_emitted _ = false

-- `normalize_event`
unfoldable pub normalize_event : WireEvent → WireEvent
normalize_event e =
    if is_llm_call e.event_type
    then record e {
      attributes =
          store "beam_agents.billed" "false" (store "beam_agents.cache_hit" "true" e.attributes);
    }
    else e

-- what a `Difference` says
pub data Difference : Type 0 where
  status_differs : (traced replayed : String) → Difference
  event_count : (traced replayed : ℕ) → Difference
  first_divergence : (position : ℕ) → EventType → Difference
  intent_count : (traced replayed : ℕ) → Difference
  intent_differs : (index : ℕ) → (mismatched : List String) → Difference

-- the comparable surface of a `ReplayOutcome`
pub record ReplayOutcome : Type 0 where
  pub status : String
  pub traces : List WireEvent
  pub intents : List ToolIntent

-- `attributes.get(name, "")`
abbrev pub or_blank : Option String → String
or_blank none = ""
or_blank (some s) = s

abbrev pub attribute : String → WireEvent → String
attribute name e = or_blank (lookup name e.attributes)

abbrev pub any_event : (EventType → Bool) → List WireEvent → Bool
any_event test [] = false
any_event test (e ∷ es) = test e.event_type || any_event test es

abbrev pub end_status : List WireEvent → String
end_status [] = ""
end_status (e ∷ es) =
    let rest = end_status es in
    if is_activation_end e.event_type then attribute "beam_agents.activation.status" e else rest

-- `_traced_status`
unfoldable pub traced_status : List WireEvent → String
traced_status traced = if any_event is_error traced then "failed" else end_status traced

-- `_status_differences`
abbrev pub status_difference : (expected status : String) → List Difference
status_difference expected status =
    if str_eq expected "" || str_eq expected status then [] else status_differs expected status ∷ []

unfoldable pub status_differences : List WireEvent → String → List Difference
status_differences traced status = status_difference (traced_status traced) status

module _ (serialize : WireEvent → Bytes) where
  -- the loop of `_event_differences`, from a position on
  unfoldable pub diverging : (position : ℕ) → List WireEvent → List WireEvent → List Difference
  unfolding normalize_event
  diverging position [] replayed = []
  diverging position (e ∷ es) [] = []
  diverging position (e ∷ es) (r ∷ rs) =
      let rest = diverging (suc position) es rs in
      if bytes_eq (serialize (normalize_event e)) (serialize (normalize_event r))
      then rest
      else first_divergence position e.event_type ∷ []

  -- `_event_differences`
  unfoldable pub event_differences : List WireEvent → List WireEvent → List Difference
  unfolding diverging
  event_differences traced replayed =
      (if length traced == length replayed
        then []
        else event_count (length traced) (length replayed) ∷ [])
      ++ diverging 0 traced replayed

-- `str` of a digit and of an integer; n + 1 digits are enough
abbrev pub nth_text : ℕ → List String → String
nth_text n [] = ""
nth_text zero (s ∷ ss) = s
nth_text (suc n) (s ∷ ss) = nth_text n ss

abbrev pub digit : ℕ → String
digit n = nth_text n ("0" ∷ "1" ∷ "2" ∷ "3" ∷ "4" ∷ "5" ∷ "6" ∷ "7" ∷ "8" ∷ "9" ∷ [])

abbrev pub digits_text : (left : ℕ) → ℕ → String
digits_text zero n = ""
digits_text (suc left) n =
    let before = digits_text left (n / 10) in
    if ltb n 10 then digit n else before +++ digit (n % 10)

abbrev pub int_text : ℤ → String
int_text (pos n) = digits_text (suc n) n
int_text (negsuc n) = "-" +++ digits_text (suc (suc n)) (suc n)

-- `ToolIntent.Kind.Name`
abbrev pub kind_name : Kind → String
kind_name kind_unspecified = "TOOL_KIND_UNSPECIFIED"
kind_name tool = "TOOL"
kind_name approval = "APPROVAL"

-- the tuples that `_intent_differences` compares
pub record IntentIdentity : Type 0 where
  pub intent_id : String
  pub tool_name : String
  pub kind : String
  pub expires_at_ms : String

unfoldable pub traced_intents : List WireEvent → List IntentIdentity
traced_intents [] = []
traced_intents (e ∷ es) =
    let rest = traced_intents es in
    if is_intent_emitted e.event_type
    then record {
      intent_id = attribute "beam_agents.intent_id" e;
      tool_name = attribute "beam_agents.tool_name" e;
      kind = attribute "beam_agents.intent_kind" e;
      expires_at_ms = attribute "beam_agents.expires_at_ms" e;
    }
      ∷ rest
    else rest

unfoldable pub replayed_intent : ToolIntent → IntentIdentity
replayed_intent i = record {
  intent_id = i.intent_id;
  tool_name = i.tool_name;
  kind = kind_name i.kind;
  expires_at_ms = int_text i.expires_at_ms;
}

abbrev pub differing : (name a b : String) → List String
differing name a b = if str_eq a b then [] else name ∷ []

unfoldable pub mismatched : IntentIdentity → IntentIdentity → List String
mismatched l r =
    differing "intent_id" l.intent_id r.intent_id
    ++ (differing "tool_name" l.tool_name r.tool_name
        ++ (differing "kind" l.kind r.kind
            ++ differing "expires_at_ms" l.expires_at_ms r.expires_at_ms))

-- the loop of `_intent_differences`, from an index on
unfoldable pub differing_intents :
    (index : ℕ) → List IntentIdentity → List IntentIdentity → List Difference
unfolding mismatched
differing_intents index [] rs = []
differing_intents index (l ∷ ls) [] = []
differing_intents index (l ∷ ls) (r ∷ rs) =
    let names = mismatched l r in
    let rest = differing_intents (suc index) ls rs in
    if is_empty names then rest else intent_differs index names ∷ rest

-- `_intent_differences`
unfoldable pub identity_differences : List IntentIdentity → List IntentIdentity → List Difference
unfolding differing_intents
identity_differences ls rs =
    if length ls == length rs
    then differing_intents 0 ls rs
    else intent_count (length ls) (length rs) ∷ []

unfoldable pub intent_differences : List WireEvent → List ToolIntent → List Difference
unfolding identity_differences
intent_differences traced intents =
    identity_differences (traced_intents traced) (map replayed_intent intents)

-- `compare`, of the traced events of a bundle
unfoldable pub compare : (WireEvent → Bytes) → List WireEvent → ReplayOutcome → List Difference
unfolding status_differences event_differences intent_differences
compare serialize traced outcome =
    status_differences traced outcome.status
    ++ (event_differences serialize traced outcome.traces
        ++ intent_differences traced outcome.intents)

-- `DiffReport.reproduced`
unfoldable pub reproduced : List Difference → Bool
reproduced differences = is_empty differences
