-- ===== src/Core/Invariant/Commit.antt =====
-- The invariant through migrated reads, commits and failed activations.
use beam_agents.Base.{
  ℕ, suc, ◌<◌, ◌≡◌, refl, ℤ, ◌⊎◌, inl, inr, Option, none, some, List, [], arith, is_empty, length,
  ◌==◌, Bool-cases, Bool, true, false, if◌then◌else◌,
}
use beam_agents.Wire.{Bytes, AgentEnvelope}
use beam_agents.Core.Migration.{
  Result, ok, raise, ◌>>=◌, ◌>>◌, migrate, migrate_to_current, BundleError,
  state_schema_from_future,
}
use beam_agents.Core.Batching.{Trigger}
use beam_agents.Core.State.{KeyState, ActivationResult, Run}
use beam_agents.Core.Engine.{
  AgentDoFn, Attempt, finished, CommitSite, starting, resuming, flushing, commit, commit_state,
}
use beam_agents.Core.Elements.{conclude, conclude_flush}
use beam_agents.Core.Invariant.{IsSound, IsConsistent, Ensures}

-- At schema version 1 a blob is given back as it is, or the bundle fails: no step is consulted.
pub migrate-current :
    {M : Type 0} (version : M → ℕ) (registry : ℕ → Option (M → M)) (m : M)
    → (migrate version registry 1 m ≡ ok m)
      ⊎ ((e : BundleError) × (migrate version registry 1 m ≡ raise e))
unfolding migrate
migrate-current version registry m = elim (Bool-cases (version m == 0)) [
  | inl zeroed ↦ inl (rw zeroed)
  | inr set ↦ elim (Bool-cases (version m == 1)) [
    | inl one ↦ inl (rw (set, one))
    | inr other ↦ inr (state_schema_from_future (version m) 1, ground arith)
  ]
]

-- So a migrated read gives the stored blob, or the callback ends there.
pub Ensures-read :
    {M : Type 0} (version : M → ℕ) (registry : ℕ → Option (M → M)) (P : Run → Type 0) (o : Option M)
    (f : Option M → Result Run)
    → Ensures P (f o)
    → Ensures P (migrate_to_current version registry o >>= f)
unfolding migrate_to_current
Ensures-read version registry P none f h = h
Ensures-read version registry P (some m) f h = elim (migrate-current version registry m) [
  | inl same ↦ rw same h
  | inr (e, raised) ↦ rw raised tt
]

pub Ensures-if :
    (P : Run → Type 0) (b : Bool) (x y : Result Run)
    → (b ≡ true → Ensures P x)
    → (b ≡ false → Ensures P y)
    → Ensures P (if b then x else y)
Ensures-if P true x y hx hy = hx refl
Ensures-if P false x y hx hy = hy refl

pub either_run : (P : Run → Type 0) (b : Bool) (x y : Run) → P x → P y → P (if b then x else y)
either_run P true x y hx hy = hx
either_run P false x y hx hy = hy

-- a later step that only adds to a run
pub Ensures-map :
    (Q P : Run → Type 0) (g : Run → Run) (r : Result Run)
    → ((run : Run) → Q run → P (g run))
    → Ensures Q r
    → Ensures P (r >>= λ run. ok (g run))
Ensures-map Q P g (ok run) keep h = keep run h
Ensures-map Q P g (raise e) keep h = tt

-- a step before, that leaves the state alone or fails the bundle
pub Ensures-seq :
    (P : Run → Type 0) (m : Result (Unit {0})) (r : Result Run) → Ensures P r → Ensures P (m >> r)
Ensures-seq P (ok u) r h = h
Ensures-seq P (raise e) r h = tt

module _ (self : AgentDoFn) (s : KeyState) (ih : IsConsistent self s) where
  -- A commit from a state with an empty buffer, or with what it does to the buffer.
  pub commit-IsConsistent :
      (r : ActivationResult) (now_ms wall_now_ms : ℤ) (site : CommitSite) (seq : ℕ)
      → IsSound seq r
      → seq < suc s.seq
      → (site ≡ starting → is_empty s.batch ≡ true)
      → IsConsistent self (commit_state self r now_ms wall_now_ms site s)
  unfolding commit_state
  commit-IsConsistent r now_ms wall_now_ms starting seq sound fresh quiet = record {
    armed = λ c e. ground (arith, sound.live c);
    pended = λ c e. ground (arith, sound.live c);
    spent = λ c e. ground (arith, sound.live c);
    awaited = inl (quiet refl);
    fits = ih.fits;
  }
  commit-IsConsistent r now_ms wall_now_ms resuming seq sound fresh quiet = record {
    armed = λ c e. ground (arith, sound.live c);
    pended = λ c e. ground (arith, sound.live c);
    spent = λ c e. ground (arith, sound.live c);
    awaited = ground (arith, ih.awaited);
    fits = ground (arith, ih.fits);
  }
  commit-IsConsistent r now_ms wall_now_ms (flushing n t) seq sound fresh quiet = record {
    armed = λ c e. ground (arith, sound.live c);
    pended = λ c e. ground (arith, sound.live c);
    spent = λ c e. ground (arith, sound.live c);
    awaited = inl refl;
    fits = ground arith;
  }

  -- Every exit of `_start` and `_resume`: a commit, or a failure that leaves the state as it was.
  pub conclude-IsConsistent :
      (key : Bytes) (now_ms wall_now_ms : ℤ) (site : CommitSite) (seq : ℕ) (a : Attempt × ℕ)
      → ((r : ActivationResult) → a.0 ≡ finished r → IsSound seq r)
      → seq < suc s.seq
      → (site ≡ starting → is_empty s.batch ≡ true)
      → IsConsistent self (conclude self key seq now_ms wall_now_ms site s a).state
  unfolding conclude commit
  conclude-IsConsistent key now_ms wall_now_ms site seq (finished r, elapsed) sound fresh quiet =
      commit-IsConsistent r now_ms wall_now_ms site seq (sound r refl) fresh quiet
  conclude-IsConsistent key now_ms wall_now_ms site seq (_, elapsed) sound fresh quiet = ih

  -- A failed flush consumes the buffer and nothing else.
  emptied : IsConsistent self (record s { batch = []; flush_timer = none })
  emptied = record {
    armed = ih.armed;
    pended = ih.pended;
    spent = ih.spent;
    awaited = inl refl;
    fits = ground arith;
  }

  -- A flush ends consistent whatever its own timer was: every exit consumes the buffer.
  pub conclude_flush-IsConsistent :
      (mark : Option ℤ) (key : Bytes) (now_ms wall_now_ms : ℤ) (envelopes : List AgentEnvelope)
      (trigger : Trigger) (a : Attempt × ℕ)
      → ((r : ActivationResult) → a.0 ≡ finished r → IsSound s.seq r)
      → IsConsistent self
          (conclude_flush self key now_ms wall_now_ms envelopes trigger
            (record s { flush_timer = mark })
            a).state
  unfolding conclude_flush commit
  conclude_flush-IsConsistent mark key now_ms wall_now_ms envelopes trigger (finished r, elapsed)
        sound =
      commit-IsConsistent r now_ms wall_now_ms (flushing (length envelopes) trigger) s.seq
        (sound r refl) (omega arith) (λ e. cc)
  conclude_flush-IsConsistent mark key now_ms wall_now_ms envelopes trigger (_, elapsed) sound =
      emptied
