-- ===== src/Core/IntentId/Distinct.antt =====
-- The name that an intent's identifier is hashed from determines the key, the number and the step;
-- the intents of an activation and of its resumes have different identifiers.
use beam_agents.Base.{ℕ, suc, ◌+◌, ◌<◌, ◌≡◌, ◌≢◌, sym, ◌∙◌, String, List, [], ◌∷◌, All, arith, some}
use beam_agents.Base.Digits.{decimal, hex}
use beam_agents.Base.Digits.Injective.{
  decimal-injective, decimal-Avoids, hex-injective, hex-Avoids, separator-injective,
}
use beam_agents.Wire.{Bytes, ToolIntent, Continuation}
use beam_agents.Core.IntentId.{intent_name, intent_id_for, bar}
use beam_agents.Core.State.{ActivationResult}
use beam_agents.Core.Engine.{ActivationArgs, finished}
use beam_agents.Core.Context.{Environment, Settings}
use beam_agents.Core.Loop.{Agent, run_activation}
use beam_agents.Core.Loop.Steps.{IsRising, IsRising-le, IsMinted, run_activation-IsAccountable}

-- Two names are equal only for the same key, the same number and the same step.
intent_name-injective :
    (key1 key2 : Bytes) (seq1 seq2 step1 step2 : ℕ)
    → All (λ b. b < 256) key1
    → All (λ b. b < 256) key2
    → intent_name key1 seq1 step1 ≡ intent_name key2 seq2 step2
    → (key1 ≡ key2) × (seq1 ≡ seq2) × (step1 ≡ step2)
unfolding intent_name
intent_name-injective key1 key2 seq1 seq2 step1 step2 bytes1 bytes2 h =
    let (keys, rest) =
      separator-injective bar (hex key1) (hex key2) _ _ (hex-Avoids bar key1 (omega arith) bytes1)
        (hex-Avoids bar key2 (omega arith) bytes2) h in
    let (seqs, steps) =
      separator-injective bar (decimal seq1) (decimal seq2) _ _
        (decimal-Avoids bar seq1 (omega arith)) (decimal-Avoids bar seq2 (omega arith)) rest in
    (
      hex-injective key1 key2 bytes1 bytes2 keys,
      decimal-injective seq1 seq2 seqs,
      decimal-injective step1 step2 steps,
    )

-- `uuid5` gives different identifiers to different names
abbrev pub IsCollisionFree : (Bytes → String) → Type 0
IsCollisionFree uuid5 = (a b : Bytes) → uuid5 a ≡ uuid5 b → a ≡ b

abbrev pub Distinct : List ToolIntent → List ToolIntent → Type 0
Distinct is js = All (λ i. All (λ j. i.intent_id ≢ j.intent_id) js) is

module _ (env : Environment) (free : IsCollisionFree env.uuid5) (args1 args2 : ActivationArgs)
    (bytes : All (λ b. b < 256) args1.entity_key) (same_key : args1.entity_key ≡ args2.entity_key)
    (same_seq : args1.seq ≡ args2.seq) where
  minted_apart :
      (i j : ToolIntent)
      → IsMinted env args1 i
      → IsMinted env args2 j
      → i.step_index < j.step_index
      → i.intent_id ≢ j.intent_id
  unfolding intent_id_for
  minted_apart i j hi hj lt same =
      let names = free _ _ (sym hi.named ∙ same ∙ hj.named) in
      let (k, s, steps) =
        intent_name-injective args1.entity_key args2.entity_key args1.seq args2.seq i.step_index
          j.step_index bytes (rw⁻¹ same_key bytes) names in
      omega (arith, steps, lt)

  apart_from :
      (i : ToolIntent) (lo hi : ℕ) (js : List ToolIntent)
      → IsMinted env args1 i
      → All (IsMinted env args2) js
      → i.step_index < lo
      → IsRising lo js hi
      → All (λ j. i.intent_id ≢ j.intent_id) js
  apart_from i lo hi [] mi mj below h = tt
  apart_from i lo hi (j ∷ js) mi (m, mj) below (first, rest) = (
    minted_apart i j mi m (omega (arith, below, first)),
    apart_from i (suc j.step_index) hi js mi mj (omega (arith, below, first)) rest,
  )

  all_apart :
      (lo mid hi : ℕ) (is js : List ToolIntent)
      → All (IsMinted env args1) is
      → All (IsMinted env args2) js
      → IsRising lo is mid
      → IsRising mid js hi
      → Distinct is js
  all_apart lo mid hi [] js mi mj h1 h2 = tt
  all_apart lo mid hi (i ∷ is) js (m, mi) mj (first, rest) h2 = (
    apart_from i mid hi js m mj (IsRising-le (suc i.step_index) mid is rest) h2,
    all_apart (suc i.step_index) mid hi is js mi mj rest h2,
  )

-- An activation suspends with a continuation, and another activation of the same key and number
-- starts at the continuation's step: no intent of the one has the identifier of an intent of the
-- other, whatever the two agents do, when `uuid5` does not collide.
pub resume-Distinct :
    (env : Environment) (settings : Settings) (agent1 agent2 : Agent) (args1 args2 : ActivationArgs)
    (r1 r2 : ActivationResult) (k : Continuation)
    → IsCollisionFree env.uuid5
    → All (λ b. b < 256) args1.entity_key
    → args1.entity_key ≡ args2.entity_key
    → args1.seq ≡ args2.seq
    → run_activation env settings args1 agent1 ≡ finished r1
    → r1.continuation ≡ some k
    → args2.step_index ≡ k.step_index
    → run_activation env settings args2 agent2 ≡ finished r2
    → Distinct r1.intents r2.intents
resume-Distinct env settings agent1 agent2 args1 args2 r1 r2 k free bytes keys seqs h1 s at h2 =
    let a1 = run_activation-IsAccountable env settings args1 agent1 r1 h1 in
    let a2 = run_activation-IsAccountable env settings args2 agent2 r2 h2 in
    let mid = args1.step_index + r1.tally.iterations in
    all_apart env free args1 args2 bytes keys seqs args1.step_index mid
      (args2.step_index + r2.tally.iterations) r1.intents r2.intents a1.minted a2.minted a1.rising
      (rw⁻¹ (at ∙ a1.resumed k s) a2.rising)
