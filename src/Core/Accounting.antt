-- ===== src/Core/Accounting.antt =====
-- How many records of a kind a callback yields, and how much it adds to a counter. The laws of
-- these totals over lists and over the metrics of a commit.
pub mod Callback
pub mod Atomic
use beam_agents.Base.{
  ℕ, ◌+◌, ◌≡◌, refl, ℤ, String, Bool, true, false, List, [], ◌∷◌, ◌++◌, map, length, arith, str_eq,
  if◌then◌else◌, Bool-cases, inl, inr,
}
use beam_agents.Wire.{ToolIntent}
use beam_agents.Core.Batching.{trigger_size, trigger_timer}
use beam_agents.Core.State.{
  ActivationResult, Output, main, errors, intents, traces, snapshots, Counter, activations,
  agent_errors, orphaned_results, intents_emitted, suspensions, batch_flushes_size,
  batch_flushes_timer, longterm_upserts, llm_calls, tool_calls, tokens, prompt_tokens,
  completion_tokens, Metric, incr, observe, reason_orphaned,
}
use beam_agents.Core.Engine.{
  CommitSite, starting, resuming, flushing, observe_all, when, counted, flush_metrics, is_suspended,
  record_commit, dead_letter_metric,
}

abbrev pub errors_in : List Output → ℕ
errors_in [] = 0
errors_in (errors e ∷ os) = 1 + errors_in os
errors_in (_ ∷ os) = errors_in os

abbrev pub intents_in : List Output → ℕ
intents_in [] = 0
intents_in (intents i ∷ os) = 1 + intents_in os
intents_in (_ ∷ os) = intents_in os

-- the total that the chosen counters are given
abbrev pub metered : (Counter → Bool) → List Metric → ℕ
metered w [] = 0
metered w (incr c n ∷ ms) = (if w c then n else 0) + metered w ms
metered w (observe d n ∷ ms) = metered w ms

-- the two counters of the dead-letter chokepoint
abbrev pub of_errors : Counter → Bool
of_errors agent_errors = true
of_errors orphaned_results = true
of_errors _ = false

abbrev pub of_intents : Counter → Bool
of_intents intents_emitted = true
of_intents _ = false

abbrev pub of_activations : Counter → Bool
of_activations activations = true
of_activations _ = false

pub errors_in-append : (xs ys : List Output) → errors_in (xs ++ ys) ≡ errors_in xs + errors_in ys
errors_in-append [] ys = omega arith
errors_in-append (errors e ∷ xs) ys = omega (arith, errors_in-append xs ys)
errors_in-append (main b ∷ xs) ys = errors_in-append xs ys
errors_in-append (intents i ∷ xs) ys = errors_in-append xs ys
errors_in-append (traces t ∷ xs) ys = errors_in-append xs ys
errors_in-append (snapshots s ∷ xs) ys = errors_in-append xs ys

pub intents_in-append :
    (xs ys : List Output) → intents_in (xs ++ ys) ≡ intents_in xs + intents_in ys
intents_in-append [] ys = omega arith
intents_in-append (intents i ∷ xs) ys = omega (arith, intents_in-append xs ys)
intents_in-append (main b ∷ xs) ys = intents_in-append xs ys
intents_in-append (errors e ∷ xs) ys = intents_in-append xs ys
intents_in-append (traces t ∷ xs) ys = intents_in-append xs ys
intents_in-append (snapshots s ∷ xs) ys = intents_in-append xs ys

module _ {A : Type 0} (f : A → Output) where
  pub errors_in-none :
      ((a : A) (os : List Output) → errors_in (f a ∷ os) ≡ errors_in os)
      → (xs : List A) → errors_in (map f xs) ≡ 0
  errors_in-none h [] = refl
  errors_in-none h (x ∷ xs) = rw h (errors_in-none h xs)

  pub intents_in-none :
      ((a : A) (os : List Output) → intents_in (f a ∷ os) ≡ intents_in os)
      → (xs : List A) → intents_in (map f xs) ≡ 0
  intents_in-none h [] = refl
  intents_in-none h (x ∷ xs) = rw h (intents_in-none h xs)

module _ (w : Counter → Bool) where
  pub metered-append : (xs ys : List Metric) → metered w (xs ++ ys) ≡ metered w xs + metered w ys
  metered-append [] ys = omega arith
  metered-append (incr c n ∷ xs) ys = omega (arith, metered-append xs ys)
  metered-append (observe d n ∷ xs) ys = metered-append xs ys

  metered-when : (b : Bool) (ms : List Metric) → metered w ms ≡ 0 → metered w (when b ms) ≡ 0
  metered-when true ms h = h
  metered-when false ms h = refl

  metered-observe_all : (ds : List ℕ) → metered w (observe_all ds) ≡ 0
  metered-observe_all [] = refl
  metered-observe_all (d ∷ ds) = metered-observe_all ds

  metered-counted : (c : Counter) (n : ℕ) → metered w (counted c n) ≡ (if w c then n else 0)
  metered-counted c n = ground arith

  metered-uncounted : (c : Counter) (n : ℕ) → w c ≡ false → metered w (counted c n) ≡ 0
  metered-uncounted c n h = ground arith

  metered-flush_metrics :
      (site : CommitSite)
      → w batch_flushes_size ≡ false
      → w batch_flushes_timer ≡ false
      → metered w (flush_metrics site) ≡ 0
  metered-flush_metrics starting a b = refl
  metered-flush_metrics resuming a b = refl
  metered-flush_metrics (flushing n trigger_size) a b = ground arith
  metered-flush_metrics (flushing n trigger_timer) a b = ground arith

  suspension-unmetered : w suspensions ≡ false → metered w (incr suspensions 1 ∷ []) ≡ 0
  suspension-unmetered a = ground arith

  metered-usage :
      (b : Bool) (n m k : ℕ)
      → metered w
          (when b (observe tokens n ∷ observe prompt_tokens m ∷ observe completion_tokens k ∷ []))
        ≡ 0
  metered-usage b n m k = metered-when b _ refl

  -- What a commit adds to the chosen counters, when neither a flush nor a suspension is chosen.
  pub metered-record_commit :
      (r : ActivationResult) (elapsed : ℕ) (site : CommitSite)
      → w suspensions ≡ false
      → w batch_flushes_size ≡ false
      → w batch_flushes_timer ≡ false
      → w longterm_upserts ≡ false
      → w llm_calls ≡ false
      → w tool_calls ≡ false
      → metered w (record_commit r elapsed site)
        ≡ (if w activations then 1 else 0) + (if w intents_emitted then length r.intents else 0)
  unfolding record_commit
  metered-record_commit r elapsed site a b c d e f =
      simp
        (
          metered-append,
          metered-counted,
          metered-observe_all,
          metered-flush_metrics site b c,
          metered-when (is_suspended r.status) (incr suspensions 1 ∷ []) (suspension-unmetered a),
          metered-usage,
          d,
          e,
          f,
        )
        (omega arith)

pub errors_metered-dead_letter :
    (reason : String) (ms : List Metric)
    → metered of_errors (dead_letter_metric reason ∷ ms) ≡ 1 + metered of_errors ms
unfolding dead_letter_metric
errors_metered-dead_letter reason ms = ground arith

pub intents_metered-dead_letter :
    (reason : String) (ms : List Metric)
    → metered of_intents (dead_letter_metric reason ∷ ms) ≡ metered of_intents ms
unfolding dead_letter_metric
intents_metered-dead_letter reason ms = ground arith

pub committed_errors :
    (r : ActivationResult)
    → errors_in (map main r.outputs ++ (map intents r.intents ++ map traces r.traces)) ≡ 0
committed_errors r = simp (
  errors_in-append,
  errors_in-none main (λ a os. refl),
  errors_in-none intents (λ a os. refl),
  errors_in-none traces (λ a os. refl),
)

pub intents_in-map : (is : List ToolIntent) → intents_in (map intents is) ≡ length is
intents_in-map [] = refl
intents_in-map (i ∷ is) = omega (arith, intents_in-map is)

pub committed_intents :
    (r : ActivationResult)
    → intents_in (map main r.outputs ++ (map intents r.intents ++ map traces r.traces))
      ≡ length r.intents
committed_intents r =
    simp
      (
        intents_in-append,
        intents_in-none main (λ a os. refl),
        intents_in-map,
        intents_in-none traces (λ a os. refl),
      )
      (omega arith)

pub uncounted-dead_letter :
    (reason : String) (ms : List Metric)
    → metered of_activations (dead_letter_metric reason ∷ ms) ≡ metered of_activations ms
unfolding dead_letter_metric
uncounted-dead_letter reason ms = ground arith
