-- ===== src/Core/Tests/Unary.antt =====
-- A text for every name, different for different names: an instance of `uuid5` for the tests.
use beam_agents.Base.{ℕ, zero, suc, ◌≡◌, ◌≢◌, refl, ap, sym, arith, String, List, [], ◌∷◌}
use Prim.Native.Char.{code}
use beam_agents.Core.IntentId.Distinct.{IsCollisionFree}

abbrev unary : ℕ → String → String
unary zero s = String.◌∷◌ "b" s
unary (suc n) s = String.◌∷◌ "a" (unary n s)

abbrev pub spell : List ℕ → String
spell [] = ""
spell (n ∷ ns) = unary n (spell ns)

abbrev rest_of : String → String
rest_of (String.[]) = ""
rest_of (String.◌∷◌ c s) = s

abbrev first_code : String → ℕ
first_code (String.[]) = 0
first_code (String.◌∷◌ c s) = code c

first_differs : (s t : String) → String.◌∷◌ "a" s ≢ String.◌∷◌ "b" t
first_differs s t h = ground (arith, ap first_code h)

unary-injective : (m n : ℕ) (s t : String) → unary m s ≡ unary n t → (m ≡ n) × (s ≡ t)
unary-injective zero zero s t h = (refl, ap rest_of h)
unary-injective zero (suc n) s t h = absurd (first_differs _ _ (sym h))
unary-injective (suc m) zero s t h = absurd (first_differs _ _ h)
unary-injective (suc m) (suc n) s t h =
    let (same, rest) = unary-injective m n s t (ap rest_of h) in (ap suc same, rest)

nonempty : (n : ℕ) (s : String) → unary n s ≢ ""
nonempty zero s h = ground (arith, ap first_code h)
nonempty (suc n) s h = ground (arith, ap first_code h)

pub spell-IsCollisionFree : IsCollisionFree spell
spell-IsCollisionFree [] [] h = refl
spell-IsCollisionFree [] (n ∷ ns) h = absurd (nonempty n (spell ns) (sym h))
spell-IsCollisionFree (m ∷ ms) [] h = absurd (nonempty m (spell ms) h)
spell-IsCollisionFree (m ∷ ms) (n ∷ ns) h =
    let (same, rest) = unary-injective m n (spell ms) (spell ns) h in
    rw (same, spell-IsCollisionFree ms ns rest) refl
