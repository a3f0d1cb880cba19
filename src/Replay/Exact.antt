-- ===== src/Replay/Exact.antt =====
-- replay/diff.py: when a replay is reproduced.
use beam_agents.Base.{
  ℕ, suc, ◌==◌, ◌≡◌, refl, sym, ap, ◌∙◌, length-map, ◌↔◌, String, str_eq, eq_iff, eq_refl, true,
  false, List, [], ◌∷◌, ◌++◌, map, length, is_empty, bytes_eq, bytes_eq_refl, Bool-cases,
  eq_of_bytes_eq, arith, ◌⊎◌, inl, inr,
}
use beam_agents.Wire.{Bytes}
use beam_agents.Replay.{
  WireEvent, ReplayOutcome, IntentIdentity, normalize_event, traced_status, status_difference,
  status_differences, diverging, event_differences, traced_intents, replayed_intent, differing,
  mismatched, differing_intents, identity_differences, intent_differences, compare, reproduced,
}

-- the record and the replay agree on everything that is compared
pub record IsReproduced (serialize : WireEvent → Bytes) (traced : List WireEvent)
    (outcome : ReplayOutcome) : Type 0 where
  pub status : (traced_status traced ≡ "") ⊎ (traced_status traced ≡ outcome.status)
  pub events :
      map (λ e. serialize (normalize_event e)) traced
      ≡ map (λ e. serialize (normalize_event e)) outcome.traces
  pub intents : traced_intents traced ≡ map replayed_intent outcome.intents

append_empty {ℓ} :
    {A : Type ℓ} (xs ys : List A)
    → is_empty (xs ++ ys) ≡ true
    → (is_empty xs ≡ true) × (is_empty ys ≡ true)
append_empty [] ys h = (refl, h)
append_empty (x ∷ xs) ys h = cc

empty_append {ℓ} :
    {A : Type ℓ} (xs ys : List A)
    → is_empty xs ≡ true
    → is_empty ys ≡ true
    → is_empty (xs ++ ys) ≡ true
empty_append [] ys h k = k
empty_append (x ∷ xs) ys h k = cc

status_difference-agree :
    (expected status : String)
    → is_empty (status_difference expected status) ≡ true
    → (expected ≡ "") ⊎ (expected ≡ status)
status_difference-agree expected status h = elim (Bool-cases (str_eq expected "")) [
  | inl e ↦ inl ((eq_iff expected "").0 e)
  | inr e ↦ inr ((eq_iff expected status).0 (ground (arith, e, h)))
]

agree-status_difference :
    (expected status : String)
    → (expected ≡ "") ⊎ (expected ≡ status)
    → is_empty (status_difference expected status) ≡ true
agree-status_difference expected status (inl e) = ground (arith, (eq_iff expected "").1 e)
agree-status_difference expected status (inr e) = ground (arith, (eq_iff expected status).1 e)

differing_empty : (name a b : String) → is_empty (differing name a b) ≡ true → a ≡ b
differing_empty name a b h = ground (arith, (eq_iff a b).0, h)

differing_self : (name a : String) → is_empty (differing name a a) ≡ true
differing_self name a = ground (arith, eq_refl a)

mismatched-equal : (l r : IntentIdentity) → is_empty (mismatched l r) ≡ true → l ≡ r
unfolding mismatched
mismatched-equal l r h =
    let (one, h1) = append_empty (differing "intent_id" l.intent_id r.intent_id) _ h in
    let (two, h2) = append_empty (differing "tool_name" l.tool_name r.tool_name) _ h1 in
    let (three, four) = append_empty (differing "kind" l.kind r.kind) _ h2 in
    let e1 = differing_empty "intent_id" l.intent_id r.intent_id one in
    let e2 = differing_empty "tool_name" l.tool_name r.tool_name two in
    let e3 = differing_empty "kind" l.kind r.kind three in
    let e4 = differing_empty "expires_at_ms" l.expires_at_ms r.expires_at_ms four in
    λ i. record { intent_id = e1 i; tool_name = e2 i; kind = e3 i; expires_at_ms = e4 i }

mismatched_self : (l : IntentIdentity) → is_empty (mismatched l l) ≡ true
unfolding mismatched
mismatched_self l =
    empty_append (differing "intent_id" l.intent_id l.intent_id) _
      (differing_self "intent_id" l.intent_id)
      (empty_append (differing "tool_name" l.tool_name l.tool_name) _
        (differing_self "tool_name" l.tool_name)
        (empty_append (differing "kind" l.kind l.kind) _ (differing_self "kind" l.kind)
          (differing_self "expires_at_ms" l.expires_at_ms)))

differing_intents-equal :
    (index : ℕ) (ls rs : List IntentIdentity)
    → length ls ≡ length rs
    → is_empty (differing_intents index ls rs) ≡ true
    → ls ≡ rs
unfolding differing_intents
differing_intents-equal index [] [] same h = refl
differing_intents-equal index [] (r ∷ rs) same h = ground (arith, same)
differing_intents-equal index (l ∷ ls) [] same h = ground (arith, same)
differing_intents-equal index (l ∷ ls) (r ∷ rs) same h =
    elim (Bool-cases (is_empty (mismatched l r))) [
      | inl e ↦
          (let rest =
              differing_intents-equal (suc index) ls rs (ground (arith, same)) (rw e at h) in
            let first = mismatched-equal l r e in λ i. first i ∷ rest i)
      | inr e ↦ (let clash : false ≡ true = rw e at h in cc)
    ]

differing_intents_self :
    (index : ℕ) (ls : List IntentIdentity) → is_empty (differing_intents index ls ls) ≡ true
unfolding differing_intents
differing_intents_self index [] = refl
differing_intents_self index (l ∷ ls) =
    rw (mismatched_self l) (differing_intents_self (suc index) ls)

identity_differences-equal :
    (ls rs : List IntentIdentity) → is_empty (identity_differences ls rs) ≡ true → ls ≡ rs
unfolding identity_differences
identity_differences-equal ls rs h = elim (Bool-cases (length ls == length rs)) [
  | inl same ↦ differing_intents-equal 0 ls rs (ground (arith, same)) (rw same at h)
  | inr other ↦ (let clash : false ≡ true = rw other at h in cc)
]

identity_differences_self :
    (ls : List IntentIdentity) → is_empty (identity_differences ls ls) ≡ true
unfolding identity_differences
identity_differences_self ls = ground (arith, differing_intents_self 0 ls)

equal-identity_differences :
    (ls rs : List IntentIdentity) → ls ≡ rs → is_empty (identity_differences ls rs) ≡ true
equal-identity_differences ls rs e = rw (sym e) (identity_differences_self ls)

module _ (serialize : WireEvent → Bytes) where
  abbrev bytes_of : WireEvent → Bytes
  bytes_of e = serialize (normalize_event e)

  diverging-equal :
      (position : ℕ) (es rs : List WireEvent)
      → length es ≡ length rs
      → is_empty (diverging serialize position es rs) ≡ true
      → map bytes_of es ≡ map bytes_of rs
  unfolding diverging
  diverging-equal position [] [] same h = refl
  diverging-equal position [] (r ∷ rs) same h = ground (arith, same)
  diverging-equal position (e ∷ es) [] same h = ground (arith, same)
  diverging-equal position (e ∷ es) (r ∷ rs) same h =
      elim (Bool-cases (bytes_eq (bytes_of e) (bytes_of r))) [
        | inl agree ↦
            (let rest =
                diverging-equal (suc position) es rs (ground (arith, same)) (rw agree at h) in
              let first = eq_of_bytes_eq (bytes_of e) (bytes_of r) agree in λ i. first i ∷ rest i)
        | inr agree ↦ (let clash : false ≡ true = rw agree at h in cc)
      ]

  equal-diverging :
      (position : ℕ) (es rs : List WireEvent)
      → map bytes_of es ≡ map bytes_of rs
      → is_empty (diverging serialize position es rs) ≡ true
  unfolding diverging
  equal-diverging position [] rs h = refl
  equal-diverging position (e ∷ es) [] h = refl
  equal-diverging position (e ∷ es) (r ∷ rs) h =
      let first : bytes_of e ≡ bytes_of r = cc in
      let rest : map bytes_of es ≡ map bytes_of rs = cc in
      let same : bytes_eq (bytes_of e) (bytes_of r) ≡ true =
        rw (sym first) (bytes_eq_refl (bytes_of e)) in
      rw same (equal-diverging (suc position) es rs rest)

  event_differences-equal :
      (es rs : List WireEvent)
      → is_empty (event_differences serialize es rs) ≡ true
      → map bytes_of es ≡ map bytes_of rs
  unfolding event_differences
  event_differences-equal es rs h = elim (Bool-cases (length es == length rs)) [
    | inl same ↦ diverging-equal 0 es rs (ground (arith, same)) (rw same at h)
    | inr other ↦ (let clash : false ≡ true = rw other at h in cc)
  ]

  equal-event_differences :
      (es rs : List WireEvent)
      → map bytes_of es ≡ map bytes_of rs
      → is_empty (event_differences serialize es rs) ≡ true
  unfolding event_differences
  equal-event_differences es rs h =
      let same : length es ≡ length rs =
        sym (length-map bytes_of es) ∙ ap length h ∙ length-map bytes_of rs in
      let equal : (length es == length rs) ≡ true = ground (arith, same) in
      rw equal (equal-diverging 0 es rs h)

  -- A replay is reported as reproduced exactly when three things hold: the record has no terminal
  -- event or the status is the recorded one; the two event lists, normalized, serialize to the same
  -- bytes one by one; the staged intents have the recorded identities in the same order.
  pub compare-exact :
      (traced : List WireEvent) (outcome : ReplayOutcome)
      → (reproduced (compare serialize traced outcome) ≡ true)
        ↔ IsReproduced serialize traced outcome
  unfolding compare reproduced status_differences intent_differences
  compare-exact traced outcome = (
    (λ h.
        let (status, others) =
          append_empty (status_difference (traced_status traced) outcome.status) _ h in
        let (events, intents) =
          append_empty (event_differences serialize traced outcome.traces) _ others in
        record {
          status = status_difference-agree (traced_status traced) outcome.status status;
          events = event_differences-equal traced outcome.traces events;
          intents = identity_differences-equal _ _ intents;
        }),
    (λ h.
        empty_append (status_difference (traced_status traced) outcome.status) _
          (agree-status_difference (traced_status traced) outcome.status h.status)
          (empty_append (event_differences serialize traced outcome.traces) _
            (equal-event_differences traced outcome.traces h.events)
            (equal-identity_differences _ _ h.intents))),
  )
