-- ===== src/Core/Admission.antt =====
-- `_admission_failure` of core/dofn.py: layer 1 of the fail-closed timeouts.
pub mod Exact
use beam_agents.Base.{
  ℤ, pos, leb_ℤ, String, ◌&&◌, ◌||◌, Option, none, some, List, [], ◌∷◌, contains, str_eq,
  if◌then◌else◌,
}
use beam_agents.Wire.{ToolIntent, Continuation}
use beam_agents.Hitl
use beam_agents.Core.State.{
  Refusal, no_continuation, unknown_intent, deadline_passed, intent_expired,
}

-- the loop over the pending intents
unfoldable pub expired_pending : List ToolIntent → String → ℤ → Option Refusal
expired_pending [] intent_id now_ms = none
expired_pending (intent ∷ rest) intent_id now_ms =
    if str_eq intent.intent_id intent_id && Hitl.intent_expired intent now_ms
    then some intent_expired
    else expired_pending rest intent_id now_ms

unfoldable pub admission_failure :
    Option Continuation → List ToolIntent → String → ℤ → Option Refusal
admission_failure none pending_intents intent_id now_ms = some no_continuation
admission_failure (some cont) pending_intents intent_id now_ms =
    if contains intent_id cont.pending_intent_ids
    then if leb_ℤ cont.deadline_ms (pos 0) || leb_ℤ cont.deadline_ms now_ms
      then some deadline_passed
      else expired_pending pending_intents intent_id now_ms
    else some unknown_intent
