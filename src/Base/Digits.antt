-- ===== src/Base/Digits.antt =====
-- Numbers and bytes as text: `str(n)` of a natural number and `bytes.hex()`, as ASCII codes.
pub mod Injective
use Prim.Native.Nat.{ℕ, zero, suc, ◌+◌, ◌/◌, ◌%◌}
use mathlib.Core.Path.{◌≡◌, refl}
use mathlib.Core.Bool.{Bool, ◌&&◌}
use mathlib.Core.List.{List, [], ◌∷◌, ◌++◌}
use beam_agents.Base.Tests.{ltb, leb, if◌then◌else◌}

-- `left` bounds the digits that are left
unfoldable pub digits_from : (left : ℕ) → ℕ → List ℕ
digits_from zero n = []
digits_from (suc left) n =
    let rest = digits_from left (n / 10) ++ (48 + n % 10) ∷ [] in
    if ltb n 10 then (48 + n) ∷ [] else rest

-- `str(n).encode("ascii")`: n + 1 digits are enough
unfoldable pub decimal : ℕ → List ℕ
unfolding digits_from
decimal n = digits_from (suc n) n

-- one digit of `bytes.hex()`
abbrev pub hex_digit : ℕ → ℕ
hex_digit d = if ltb d 10 then 48 + d else 87 + d

-- `b.hex()`
unfoldable pub hex : List ℕ → List ℕ
hex [] = []
hex (b ∷ bs) = hex_digit (b / 16) ∷ hex_digit (b % 16) ∷ hex bs

-- a byte of a decimal numeral
abbrev pub is_digit : ℕ → Bool
is_digit c = leb 48 c && leb c 57

decimal_tests : decimal 0 ≡ 48 ∷ []
unfolding decimal
decimal_tests = refl

decimal_longer : decimal 1207 ≡ 49 ∷ 50 ∷ 48 ∷ 55 ∷ []
unfolding decimal
decimal_longer = refl
