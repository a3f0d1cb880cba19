-- ===== src/Replay/Served.antt =====
-- replay/diff.py: a replay whose calls are served from the cache.
use beam_agents.Base.{
  ◌≡◌, refl, sym, ap, ◌∙◌, String, true, Bool-cases, inl, inr, List, [], ◌∷◌, map, if◌then◌else◌,
}
use beam_agents.Base.Dict.{store, store-store, lookup-store, store_swap}
use beam_agents.Wire.{Bytes}
use beam_agents.Replay.{
  WireEvent, ReplayOutcome, is_llm_call, normalize_event, traced_status, traced_intents,
  replayed_intent, compare, reproduced,
}
use beam_agents.Replay.Exact.{compare-exact}

-- a call with other values of the two attributes
unfoldable pub served : (hit billed : String) → WireEvent → WireEvent
served hit billed e =
    if is_llm_call e.event_type
    then record e {
      attributes =
          store "beam_agents.billed" billed (store "beam_agents.cache_hit" hit e.attributes);
    }
    else e

settled :
    (hit billed : String) (d : List (String × String))
    → store "beam_agents.billed" "false" (
        store "beam_agents.cache_hit" "true"
          (store "beam_agents.billed" billed (store "beam_agents.cache_hit" hit d)))
      ≡ store "beam_agents.billed" "false" (store "beam_agents.cache_hit" "true" d)
settled hit billed d =
    ap (store "beam_agents.billed" "false") (
      store_swap "beam_agents.cache_hit" "beam_agents.billed" "true" billed
        (store "beam_agents.cache_hit" hit d) refl (lookup-store "beam_agents.cache_hit" hit d))
    ∙ store-store "beam_agents.billed" "false" billed _
    ∙ ap (store "beam_agents.billed" "false") (store-store "beam_agents.cache_hit" "true" hit d)

normalize_event-served :
    (hit billed : String) (e : WireEvent)
    → normalize_event (served hit billed e) ≡ normalize_event e
unfolding normalize_event served
normalize_event-served hit billed e = elim (Bool-cases (is_llm_call e.event_type)) [
  | inl call ↦ rw (call, call) (λ i. record e { attributes = settled hit billed e.attributes i })
  | inr other ↦ rw (other, other) refl
]

map-served :
    (serialize : WireEvent → Bytes) (hit billed : String) (es : List WireEvent)
    → map (λ e. serialize (normalize_event e)) es
      ≡ map (λ e. serialize (normalize_event e)) (map (served hit billed) es)
map-served serialize hit billed [] = refl
map-served serialize hit billed (e ∷ es) =
    let first = ap serialize (sym (normalize_event-served hit billed e)) in
    let rest = map-served serialize hit billed es in λ i. first i ∷ rest i

-- A replay that gives the recorded status, the recorded intents, and the recorded events but for
-- the cache and billing attributes of the calls, whatever values they take, is reported as
-- reproduced.
pub compare-served :
    (serialize : WireEvent → Bytes) (hit billed : String) (traced : List WireEvent)
    (outcome : ReplayOutcome)
    → outcome.status ≡ traced_status traced
    → outcome.traces ≡ map (served hit billed) traced
    → map replayed_intent outcome.intents ≡ traced_intents traced
    → reproduced (compare serialize traced outcome) ≡ true
compare-served serialize hit billed traced outcome status events intents =
    (compare-exact serialize traced outcome).1 (record {
      status = inr (sym status);
      events = rw events (map-served serialize hit billed traced);
      intents = sym intents;
    })
