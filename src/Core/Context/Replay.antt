-- ===== src/Core/Context/Replay.antt =====
-- A model call that was answered once is answered again from the cache.
use beam_agents.Base.{
  ℕ, ◌+◌, ◌<◌, ◌≡◌, refl, ap, sym, String, ◌∙◌, ◌⊎◌, inl, inr, Option, none, some, [], true, false,
  Option-cases, Bool, Bool-cases,
}
use beam_agents.Wire.{Bytes}
use beam_agents.Core.State.{TokenUsage}
use beam_agents.Core.Engine.{ActivationArgs}
use beam_agents.Core.Context.{
  LlmRequest, Answer, answered, threw, Environment, Settings, ActivationContext, call_model,
  response, compute_cache_key,
}
use beam_agents.Core.Context.Operations.{
  perform, call_model_step, from_cache, from_provider, consume, consume_usage, decoded_usage,
}
use beam_agents.Model.ReplayCache.{ReplayEntry, get, put, blob_cap_bytes}
use beam_agents.Model.ReplayCache.Accounting.{IsAccounted, get-IsAccounted}
use beam_agents.Model.ReplayCache.Bounds.{IsCompact}
use beam_agents.Model.ReplayCache.Hits.{full_size, get-put, get-get}

module _ (env : Environment) (settings : Settings) (args : ActivationArgs)
    (request : LlmRequest) where
  abbrev pub cache_key : String
  cache_key = compute_cache_key env.hexdigest request args.entity_key args.seq

  -- the call is answered with `bytes`, and neither asks the provider nor counts as a call
  pub record IsReplayed (bytes : Bytes) (c : ActivationContext) : Type 0 where
    pub same : (perform env settings args (call_model request) c).0 ≡ response bytes
    pub unasked : (perform env settings args (call_model request) c).1.asked ≡ c.asked
    pub uncounted :
        (perform env settings args (call_model request) c).1.tally.llm_calls ≡ c.tally.llm_calls

  abbrev Decodes : Bytes → Type 0
  Decodes bytes =
      (usage : Option TokenUsage) × (decoded_usage settings.decode bytes ≡ answered usage)

  -- a response was returned: it decodes, and neither the budget nor the cache is touched
  usage-said :
      (d : Answer (Option TokenUsage)) (step : ℕ) (hit : Bool) (b bytes : Bytes)
      (c : ActivationContext)
      → c.budget ≡ none
      → (consume_usage env settings args step hit request b d c).0 ≡ response bytes
      → (b ≡ bytes)
        × ((usage : Option TokenUsage) × (d ≡ answered usage))
        × ((consume_usage env settings args step hit request b d c).1.budget ≡ none)
        × ((consume_usage env settings args step hit request b d c).1.replay_cache ≡ c.replay_cache)
  usage-said (threw e) step hit b bytes c free said = cc
  usage-said (answered usage) step hit b bytes c free said =
      let said1 : response b ≡ response bytes = rw free at said in
      let same : b ≡ bytes = cc in rw free (same, (usage, refl), refl, refl)

  hit-IsReplayed :
      (c : ActivationContext) (entry : ReplayEntry)
      → c.budget ≡ none
      → Decodes entry.response
      → (get cache_key c.replay_cache).0 ≡ some entry
      → entry.digest_only ≡ false
      → IsReplayed entry.response c
  unfolding perform call_model_step consume
  hit-IsReplayed c entry free (usage, fine) found full = record {
    same = rw (free, found, full, fine) refl;
    unasked = rw (free, found, full, fine) refl;
    uncounted = rw (free, found, full, fine) refl;
  }

  pub after : ActivationContext → ActivationContext
  after c = (perform env settings args (call_model request) c).1

  -- the outcome of the theorem below
  abbrev pub Replays : Bytes → ActivationContext → Type 0
  Replays bytes c =
      IsReplayed bytes (after c)
      ⊎ ((blob_cap_bytes < full_size env.codec c.replay_cache.now_ms cache_key bytes)
          × ((get cache_key (after c).replay_cache).0
              ≡ some (record {
                response = [];
                response_digest = env.codec.sha256 bytes;
                digest_only = true;
              })))

  -- The provider answered: the cache holds the response, or its digest where it is too large.
  missed :
      (c : ActivationContext) (bytes : Bytes)
      → IsAccounted c.replay_cache.now_ms c.replay_cache
      → IsCompact env.codec c.replay_cache.now_ms cache_key
      → (after c).budget ≡ none
      → Decodes bytes
      → (after c).replay_cache ≡ put env.codec cache_key bytes (get cache_key c.replay_cache).1
      → Replays bytes c
  missed c bytes h compact free fine at =
      let g = (get cache_key c.replay_cache).1 in
      let hg = get-IsAccounted cache_key c.replay_cache h in
      let found = ap (λ x. (get cache_key x).0) at in
      elim (get-put env.codec c.replay_cache.now_ms cache_key bytes g compact hg) [
        | inl (fits, full) ↦ inl (hit-IsReplayed (after c) _ free fine (found ∙ full) refl)
        | inr (over, digest) ↦ inr (over, found ∙ digest)
      ]

  from_provider-kept :
      (step : ℕ) (answer : Answer Bytes) (c : ActivationContext) (bytes : Bytes)
      → c.budget ≡ none
      → (from_provider env settings args step cache_key request answer c).0 ≡ response bytes
      → ((from_provider env settings args step cache_key request answer c).1.budget ≡ none)
        × Decodes bytes
        × ((from_provider env settings args step cache_key request answer c).1.replay_cache
            ≡ put env.codec cache_key bytes c.replay_cache)
  unfolding consume
  from_provider-kept step (threw e) c bytes free said = cc
  from_provider-kept step (answered b) c bytes free said =
      let (same, decodes, spent, kept) =
        usage-said (decoded_usage settings.decode b) step false b bytes _ free said in
      (spent, rw⁻¹ same decodes, rw⁻¹ same kept)

  -- the context in which the cache was looked up
  abbrev looked_up : ActivationContext → ActivationContext
  looked_up c = record c {
    step_index = c.step_index + 1;
    replay_cache = (get cache_key c.replay_cache).1;
  }

  as_from_cache :
      (c : ActivationContext) (found : Option ReplayEntry)
      → c.budget ≡ none
      → (get cache_key c.replay_cache).0 ≡ found
      → perform env settings args (call_model request) c
        ≡ from_cache env settings args c.step_index cache_key request found (looked_up c)
  unfolding perform call_model_step
  as_from_cache c found free at = simp (free, at)

  by_provider :
      (c : ActivationContext) (bytes : Bytes)
      → c.budget ≡ none
      → IsAccounted c.replay_cache.now_ms c.replay_cache
      → IsCompact env.codec c.replay_cache.now_ms cache_key
      → perform env settings args (call_model request) c
        ≡ from_provider env settings args c.step_index cache_key request
            (env.complete c.asked request)
            (looked_up c)
      → (perform env settings args (call_model request) c).0 ≡ response bytes
      → Replays bytes c
  unfolding after
  by_provider c bytes free h compact asked said =
      let (spent, decodes, put_in) =
        from_provider-kept c.step_index (env.complete c.asked request) (looked_up c) bytes free
          (ap (λ x. x.0) (sym asked) ∙ said) in
      missed c bytes h compact (ap (λ x. x.1.budget) asked ∙ spent) decodes
        (ap (λ x. x.1.replay_cache) asked ∙ put_in)

  by_cache :
      (c : ActivationContext) (bytes : Bytes) (entry : ReplayEntry)
      → c.budget ≡ none
      → IsAccounted c.replay_cache.now_ms c.replay_cache
      → (get cache_key c.replay_cache).0 ≡ some entry
      → entry.digest_only ≡ false
      → perform env settings args (call_model request) c
        ≡ consume env settings args c.step_index true request entry.response (looked_up c)
      → (perform env settings args (call_model request) c).0 ≡ response bytes
      → Replays bytes c
  unfolding after consume
  by_cache c bytes entry free h found full hit said =
      let (same, decodes, spent, kept) =
        usage-said (decoded_usage settings.decode entry.response) c.step_index true entry.response
          bytes (looked_up c) free (ap (λ x. x.0) (sym hit) ∙ said) in
      let again : (get cache_key (after c).replay_cache).0 ≡ some entry =
        ap (λ x. (get cache_key x.1.replay_cache).0) hit
        ∙ ap (λ x. (get cache_key x).0) kept
        ∙ get-get cache_key cache_key c.replay_cache h.distinct
        ∙ found in
      inl (
        rw⁻¹ same
          (hit-IsReplayed (after c) entry (ap (λ x. x.1.budget) hit ∙ spent) decodes again full))

  -- A model call that returned a response, within an activation without a token budget, and the same
  -- call at once again: it returns the same response, asks the provider nothing and is not counted
  -- as a call, unless the response's entry alone exceeds the byte cap and the cache holds its digest
  -- alone; when the cache's totals are the sums over its entries, digests have 32 bytes and an entry
  -- of a digest alone takes at most 255 (`IsCompact`).
  pub call_model-call_model :
      (c : ActivationContext) (bytes : Bytes)
      → c.budget ≡ none
      → IsAccounted c.replay_cache.now_ms c.replay_cache
      → IsCompact env.codec c.replay_cache.now_ms cache_key
      → (perform env settings args (call_model request) c).0 ≡ response bytes
      → Replays bytes c
  call_model-call_model c bytes free h compact said =
      elim (Option-cases (get cache_key c.replay_cache).0) [
        | inl miss ↦ by_provider c bytes free h compact (as_from_cache c none free miss) said
        | inr (entry, found) ↦
            let step = as_from_cache c (some entry) free found in
            elim (Bool-cases entry.digest_only) [
              | inl digest ↦ by_provider c bytes free h compact (step ∙ rw digest refl) said
              | inr full ↦ by_cache c bytes entry free h found full (step ∙ rw full refl) said
            ]
      ]
