-- ===== src/Core/Admission/Exact.antt =====
-- Exactly when `_admission_failure` of core/dofn.py admits a result.
use beam_agents.Base.{
  ◌≡◌, refl, ◌↔◌, ℤ, pos, ◌<ℤ◌, String, true, Option, none, some, List, [], ◌∷◌, contains, All,
  arith, str_eq,
}
use beam_agents.Wire.{ToolIntent, Continuation}
use beam_agents.Hitl
use beam_agents.Core.Admission.{expired_pending, admission_failure}

-- an intent that has not run out
abbrev pub IsLive : String → ℤ → ToolIntent → Type 0
IsLive intent_id now_ms i =
    str_eq i.intent_id intent_id ≡ true → (pos 0 <ℤ i.expires_at_ms) × (now_ms <ℤ i.expires_at_ms)

-- what correctness invariant 6 asks of a result
pub record IsAdmissible (c : Continuation) (pending : List ToolIntent) (intent_id : String)
    (now_ms : ℤ) : Type 0 where
  pub pended : contains intent_id c.pending_intent_ids ≡ true
  pub set : pos 0 <ℤ c.deadline_ms
  pub ahead : now_ms <ℤ c.deadline_ms
  pub unexpired : All (IsLive intent_id now_ms) pending

expired_pending→All :
    (is : List ToolIntent) (id : String) (now : ℤ)
    → expired_pending is id now ≡ none
    → All (IsLive id now) is
unfolding expired_pending Hitl.intent_expired
expired_pending→All [] id now h = tt
expired_pending→All (i ∷ is) id now h =
    (λ m. (ground arith, ground arith), expired_pending→All is id now (ground arith))

All→expired_pending :
    (is : List ToolIntent) (id : String) (now : ℤ)
    → All (IsLive id now) is
    → expired_pending is id now ≡ none
unfolding expired_pending Hitl.intent_expired
All→expired_pending [] id now h = refl
All→expired_pending (i ∷ is) id now (live, rest) =
    ground (arith, All→expired_pending is id now rest, live)

some-exact :
    (c : Continuation) (pending : List ToolIntent) (intent_id : String) (now_ms : ℤ)
    → (admission_failure (some c) pending intent_id now_ms ≡ none)
      ↔ IsAdmissible c pending intent_id now_ms
unfolding admission_failure
some-exact c pending intent_id now_ms = (
  (λ h. record {
    pended = ground arith;
    set = ground arith;
    ahead = ground arith;
    unexpired = expired_pending→All pending intent_id now_ms (ground arith);
  }),
  (λ h.
      ground (
        arith,
        h.pended,
        h.set,
        h.ahead,
        All→expired_pending pending intent_id now_ms h.unexpired,
      )),
)

-- A result is admitted exactly when a continuation is live that pends its intent, its deadline is
-- positive and not reached, and no pending intent of that identifier has expired; without a live
-- continuation it is refused.
pub admission_failure-exact :
    (live : Option Continuation) (pending : List ToolIntent) (intent_id : String) (now_ms : ℤ)
    → (admission_failure live pending intent_id now_ms ≡ none)
      ↔ ((c : Continuation) × (live ≡ some c) × IsAdmissible c pending intent_id now_ms)
unfolding admission_failure
admission_failure-exact none pending intent_id now_ms = ((λ h. cc), (λ (c, e, h). cc))
admission_failure-exact (some c) pending intent_id now_ms = (
  (λ h. (c, refl, (some-exact c pending intent_id now_ms).0 h)),
  (λ (d, e, h). (let same : c ≡ d = cc in (some-exact c pending intent_id now_ms).1 (rw same h))),
)
