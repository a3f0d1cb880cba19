-- ===== src/Base/Dict.antt =====
-- A Python dict with text keys: an association list in insertion order, each key once.
use Prim.Native.Nat.{ℕ, ◌+◌}
use Prim.Native.String.{String}
use mathlib.Core.Path.{◌≡◌, refl, ◌∙◌}
use mathlib.Core.Logic.{inl, inr}
use mathlib.Core.Bool.{true, false}
use mathlib.Core.Option.{Option, none, some}
use mathlib.Core.List.{List, [], ◌∷◌, ◌++◌}
use native.Mathlib.Omega.{arith}
use text.Mathlib.Text.{◌==◌ as str_eq}
use text.Mathlib.TextEquality.{eq_iff}
use text.Mathlib.TextPositions.{eq_refl}
use beam_agents.Base.Tests.{if◌then◌else◌, is_some, Bool-cases}
use beam_agents.Base.Lists.{length}

pub same_key : (j k : String) → str_eq j k ≡ true → j ≡ k
same_key j k h = (eq_iff j k).0 h

module _ {ℓ} {A : Type ℓ} where
  -- `d.get(k)`
  unfoldable pub lookup : String → List (String × A) → Option A
  lookup k [] = none
  lookup k ((j, v) ∷ d) = if str_eq j k then some v else lookup k d

  -- `d.pop(k, None)`, the dict that is left
  unfoldable pub remove : String → List (String × A) → List (String × A)
  remove k [] = []
  remove k ((j, v) ∷ d) = let rest = remove k d in if str_eq j k then d else (j, v) ∷ rest

  -- `d[k] = v`: in place, or at the end
  unfoldable pub store : String → A → List (String × A) → List (String × A)
  store k v [] = (k, v) ∷ []
  store k v ((j, w) ∷ d) =
      let rest = store k v d in if str_eq j k then (j, v) ∷ d else (j, w) ∷ rest

  -- a key that is inserted anew goes to the end
  unfoldable pub insert_last : String → A → List (String × A) → List (String × A)
  insert_last k v d = d ++ (k, v) ∷ []

  -- what the values weigh together
  unfoldable pub weight : (A → ℕ) → List (String × A) → ℕ
  weight f [] = 0
  weight f ((j, v) ∷ d) = f v + weight f d

  abbrev pub IsDistinct : List (String × A) → Type ℓ
  unfolding lookup
  IsDistinct [] = Unit {ℓ}
  IsDistinct ((k, v) ∷ d) = (lookup k d ≡ none) × IsDistinct d

  pub IsDistinct-tail :
      (k : String) (v : A) (d : List (String × A))
      → IsDistinct ((k, v) ∷ d)
      → (lookup k d ≡ none) × IsDistinct d
  unfolding IsDistinct
  IsDistinct-tail k v d u = u

  pub lookup-remove_other :
      (i k : String) (d : List (String × A))
      → str_eq k i ≡ false
      → lookup i (remove k d) ≡ lookup i d
  unfolding lookup remove
  lookup-remove_other i k [] h = refl
  lookup-remove_other i k ((j, v) ∷ d) h =
      ground (arith, lookup-remove_other i k d h, same_key j k, h)

  pub lookup-remove-none :
      (i k : String) (d : List (String × A)) → lookup i d ≡ none → lookup i (remove k d) ≡ none
  unfolding lookup remove
  lookup-remove-none i k [] h = refl
  lookup-remove-none i k ((j, v) ∷ d) h = ground (arith, lookup-remove-none i k d, h)

  pub lookup-remove :
      (k : String) (d : List (String × A)) → IsDistinct d → lookup k (remove k d) ≡ none
  unfolding lookup remove
  lookup-remove k [] u = refl
  lookup-remove k ((j, v) ∷ d) (new, u) = ground (arith, lookup-remove k d u, same_key j k, new, u)

  pub IsDistinct-remove :
      (k : String) (d : List (String × A)) → IsDistinct d → IsDistinct (remove k d)
  unfolding lookup remove
  IsDistinct-remove k [] u = u
  IsDistinct-remove k ((j, v) ∷ d) (new, u) =
      ground (arith, lookup-remove-none j k d, IsDistinct-remove k d u, new, u)

  pub remove_absent : (k : String) (d : List (String × A)) → lookup k d ≡ none → remove k d ≡ d
  unfolding lookup remove
  remove_absent k [] h = refl
  remove_absent k ((j, v) ∷ d) h = ground (arith, remove_absent k d, h)

  pub lookup-insert_last :
      (k : String) (v : A) (d : List (String × A))
      → lookup k d ≡ none
      → lookup k (insert_last k v d) ≡ some v
  unfolding lookup insert_last
  lookup-insert_last k v [] h = ground (arith, eq_refl k)
  lookup-insert_last k v ((j, w) ∷ d) h = ground (arith, lookup-insert_last k v d, h)

  pub lookup-insert_last_other :
      (i k : String) (v : A) (d : List (String × A))
      → str_eq k i ≡ false
      → lookup i (insert_last k v d) ≡ lookup i d
  unfolding lookup insert_last
  lookup-insert_last_other i k v [] h = ground (arith, h)
  lookup-insert_last_other i k v ((j, w) ∷ d) h = ground (arith, lookup-insert_last_other i k v d h)

  pub weight-remove :
      (f : A → ℕ) (k : String) (v : A) (d : List (String × A))
      → lookup k d ≡ some v
      → weight f (remove k d) + f v ≡ weight f d
  unfolding lookup remove weight
  weight-remove f k v [] h = cc
  weight-remove f k v ((j, w) ∷ d) h = ground (arith, weight-remove f k v d, h)

  pub weight-insert_last :
      (f : A → ℕ) (k : String) (v : A) (d : List (String × A))
      → weight f (insert_last k v d) ≡ weight f d + f v
  unfolding insert_last weight
  weight-insert_last f k v [] = omega arith
  weight-insert_last f k v ((j, w) ∷ d) = omega (arith, weight-insert_last f k v d)

  pub IsDistinct-insert_last :
      (k : String) (v : A) (d : List (String × A))
      → lookup k d ≡ none
      → IsDistinct d
      → IsDistinct (insert_last k v d)
  unfolding lookup insert_last
  IsDistinct-insert_last k v [] h u = (refl, u)
  IsDistinct-insert_last k v ((j, w) ∷ d) h (new, u) = ground (
    arith,
    IsDistinct-insert_last k v d,
    lookup-insert_last_other j k v d,
    same_key k j,
    eq_refl j,
    h,
    new,
    u,
  )

  pub weight_none : (f : A → ℕ) (d : List (String × A)) → length d ≡ 0 → weight f d ≡ 0
  unfolding weight
  weight_none f [] h = refl
  weight_none f ((j, w) ∷ d) h = omega (arith, h)

  pub store_absent :
      (k : String) (v : A) (d : List (String × A))
      → lookup k d ≡ none
      → store k v d ≡ insert_last k v d
  unfolding lookup store insert_last
  store_absent k v [] h = refl
  store_absent k v ((j, w) ∷ d) h = ground (arith, store_absent k v d, h)

  pub store-store :
      (k : String) (v w : A) (d : List (String × A)) → store k v (store k w d) ≡ store k v d
  unfolding store
  store-store k v w [] = ground (arith, eq_refl k)
  store-store k v w ((j, x) ∷ d) = ground (arith, store-store k v w d)

  pub lookup-store :
      (k : String) (v : A) (d : List (String × A)) → is_some (lookup k (store k v d)) ≡ true
  unfolding store lookup
  lookup-store k v [] = ground (arith, eq_refl k)
  lookup-store k v ((j, x) ∷ d) = ground (arith, lookup-store k v d)

  pub store_swap :
      (j k : String) (v w : A) (d : List (String × A))
      → str_eq j k ≡ false
      → is_some (lookup j d) ≡ true
      → store j v (store k w d) ≡ store k w (store j v d)
  unfolding store lookup
  store_swap j k v w [] other held = cc
  store_swap j k v w ((i, x) ∷ d) other held =
      ground (arith, store_swap j k v w d other, same_key i j, same_key i k, other, held)

  -- no key of the first dict is in the second
  pub record IsApart (d acc : List (String × A)) : Type ℓ where
    pub apart : (j : String) → is_some (lookup j d) ≡ true → lookup j acc ≡ none

  pub IsApart-insert_last :
      (k : String) (v w : A) (d acc : List (String × A))
      → lookup k d ≡ none
      → IsApart ((k, v) ∷ d) acc
      → IsApart d (insert_last k w acc)
  unfolding lookup
  IsApart-insert_last k v w d acc new h = record {
    apart = λ j held. elim (Bool-cases (str_eq k j)) [
      | inl same ↦
          (let gone : lookup j d ≡ none = rw (same_key k j same) at new in
            ground (arith, gone, held))
      | inr other ↦ lookup-insert_last_other j k w acc other ∙ h.apart j (rw other held)
    ];
  }
