-- ===== src/Hitl.antt =====
-- src/beam_agents/hitl.py: the expiry guard of the effector, the timeout routes and their policy.
use beam_agents.Base.{
  ℕ, ℤ, pos, leb_ℤ, String, Bool, ◌||◌, Option, none, some, List, [], ◌∷◌, if◌then◌else◌,
}
use beam_agents.Wire.{Bytes, ToolIntent, ToolResult, Status, expired_at}

abbrev pub default_hitl_timeout_ms : ℤ
default_hitl_timeout_ms = pos 86_400_000

abbrev pub default_intent_ttl_ms : ℤ
default_intent_ttl_ms = pos 3_600_000

-- `b"__hitl_timeout__"`
abbrev pub hitl_timeout_output : Bytes
hitl_timeout_output =
    95 ∷ 95 ∷ 104 ∷ 105 ∷ 116 ∷ 108 ∷ 95 ∷ 116 ∷ 105 ∷ 109 ∷ 101 ∷ 111 ∷ 117 ∷ 116 ∷ 95 ∷ 95 ∷ []

-- `intent_expired`: the boundary is inclusive, and a non-positive expiry has passed.
unfoldable pub intent_expired : ToolIntent → ℤ → Bool
intent_expired intent now_ms =
    leb_ℤ intent.expires_at_ms (pos 0) || leb_ℤ intent.expires_at_ms now_ms

-- `refuse_expired`
unfoldable pub refuse_expired : ToolIntent → ℤ → Option ToolResult
unfolding intent_expired
refuse_expired intent now_ms =
    if intent_expired intent now_ms
    then some (record {
      intent_id = intent.intent_id;
      entity_key = intent.entity_key;
      seq = intent.seq;
      status = Status.expired;
      payload = [];
      error_message = expired_at intent.expires_at_ms;
      completed_at_ms = now_ms;
    })
    else none

-- `Deny`, `Drop` and `Escalate`
pub data Route : Type 0 where
  deny : Bytes → Route
  drop : String → Route
  escalate : (tool_name : String) (args_json : String) (timeout_ms : ℤ) → Route

-- agent.py, `FallbackContext`
pub record FallbackContext : Type 0 where
  pub entity_key : Bytes
  pub seq : ℕ
  pub snapshot : Bytes
  pub deadline_ms : ℤ
  pub fired_at_ms : ℤ
  pub pending_intent_ids : List String

-- What the user's `on_timeout` does: it returns a route, or it raises.
pub data PolicyOutcome : Type 0 where
  routed : Route → PolicyOutcome
  raised : String → PolicyOutcome

pub record HitlPolicy : Type 0 where
  pub timeout_ms : ℤ
  pub intent_ttl_ms : ℤ
  pub approval_channel : String
  pub max_escalations : ℕ
  pub on_timeout : FallbackContext → PolicyOutcome
