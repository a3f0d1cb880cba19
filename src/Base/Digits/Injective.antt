-- ===== src/Base/Digits/Injective.antt =====
-- Decimal and hexadecimal numerals determine what they write, and a separator determines its sides.
use Prim.Native.Nat.{ℕ, zero, suc, ◌+◌, ◌-◌, ◌*◌, ◌/◌, ◌%◌, ◌≤◌, ◌<◌}
use mathlib.Core.Path.{◌≡◌, refl, ap, sym, ◌∙◌}
use mathlib.Core.Logic.{◌≢◌, inl, inr}
use mathlib.Core.List.{List, [], ◌∷◌, ◌++◌}
use native.Mathlib.Omega.{arith}
use mathlib.Core.Bool.{true, false}
use beam_agents.Base.Tests.{ltb, Bool-cases}
use beam_agents.Base.Lists.{All, All-snoc, is_empty}
use beam_agents.Base.Digits.{digits_from, decimal, hex, hex_digit, is_digit}

-- the number that a numeral writes, after what is read before it
from_digits : (before : ℕ) → List ℕ → ℕ
from_digits before [] = before
from_digits before (d ∷ ds) = from_digits (10 * before + (d - 48)) ds

from_digits-append :
    (before : ℕ) (xs ys : List ℕ)
    → from_digits before (xs ++ ys) ≡ from_digits (from_digits before xs) ys
unfolding from_digits
from_digits-append before [] ys = refl
from_digits-append before (x ∷ xs) ys = from_digits-append (10 * before + (x - 48)) xs ys

from_digits-digits_from : (left n : ℕ) → n < left → from_digits 0 (digits_from left n) ≡ n
unfolding from_digits digits_from
from_digits-digits_from zero n h = omega (arith, h)
from_digits-digits_from (suc left) n h = elim (Bool-cases (ltb n 10)) [
  | inl small ↦ rw small (omega arith)
  | inr large ↦ rw large (
      let big : 10 ≤ n = ground (arith, large) in
      let rest = from_digits-digits_from left (n / 10) (omega (arith, big, h)) in
      rw (from_digits-append 0 (digits_from left (n / 10)) ((48 + n % 10) ∷ []), rest)
        (omega arith))
]

pub decimal-injective : (m n : ℕ) → decimal m ≡ decimal n → m ≡ n
unfolding decimal
decimal-injective m n h =
    sym (from_digits-digits_from (suc m) m (omega arith))
    ∙ ap (from_digits 0) h
    ∙ from_digits-digits_from (suc n) n (omega arith)

-- what no digit is
abbrev pub Avoids : ℕ → List ℕ → Type 0
Avoids c = All (λ d. d ≢ c)

digits_from-Avoids : (c left n : ℕ) → 58 ≤ c → Avoids c (digits_from left n)
unfolding digits_from
digits_from-Avoids c zero n high = tt
digits_from-Avoids c (suc left) n high = elim (Bool-cases (ltb n 10)) [
  | inl small ↦ rw small (ground (arith, small, high), tt)
  | inr large ↦ rw large (
      All-snoc (λ d. d ≢ c) (digits_from left (n / 10)) (48 + n % 10)
        (digits_from-Avoids c left (n / 10) high) (omega (arith, high)))
]

pub decimal-Avoids : (c n : ℕ) → 58 ≤ c → Avoids c (decimal n)
unfolding decimal
decimal-Avoids c n high = digits_from-Avoids c (suc n) n high

pub hex-Avoids : (c : ℕ) (bs : List ℕ) → 103 ≤ c → All (λ b. b < 256) bs → Avoids c (hex bs)
unfolding hex
hex-Avoids c [] high small = tt
hex-Avoids c (b ∷ bs) high (first, small) =
    (ground (arith, high, first), (ground (arith, high), hex-Avoids c bs high small))

hex_digit-injective : (a b : ℕ) → a < 16 → b < 16 → hex_digit a ≡ hex_digit b → a ≡ b
hex_digit-injective a b ha hb h = ground (arith, ha, hb, h)

head_eq : (a b : ℕ) (xs ys : List ℕ) → a ∷ xs ≡ b ∷ ys → a ≡ b
head_eq a b xs ys h = cc

tail_eq : (a b : ℕ) (xs ys : List ℕ) → a ∷ xs ≡ b ∷ ys → xs ≡ ys
tail_eq a b xs ys h = cc

pub hex-injective :
    (cs bs : List ℕ) → All (λ b. b < 256) cs → All (λ b. b < 256) bs → hex cs ≡ hex bs → cs ≡ bs
unfolding hex
hex-injective [] [] hc hb h = refl
hex-injective [] (b ∷ bs) hc hb h = cc
hex-injective (c ∷ cs) [] hc hb h = cc
hex-injective (c ∷ cs) (b ∷ bs) (c1, hc) (b1, hb) h =
    let high =
      hex_digit-injective (c / 16) (b / 16) (omega (arith, c1)) (omega (arith, b1))
        (head_eq _ _ _ _ h) in
    let t1 = tail_eq _ _ _ _ h in
    let low =
      hex_digit-injective (c % 16) (b % 16) (omega arith) (omega arith) (head_eq _ _ _ _ t1) in
    let same : c ≡ b = omega (arith, high, low) in
    rw (same, hex-injective cs bs hc hb (tail_eq _ _ _ _ t1)) refl

-- The text before the first `c` and the text after it.
pub separator-injective :
    (c : ℕ) (xs ys us vs : List ℕ)
    → Avoids c xs
    → Avoids c ys
    → xs ++ c ∷ us ≡ ys ++ c ∷ vs
    → (xs ≡ ys) × (us ≡ vs)
separator-injective c [] [] us vs hx hy h = (refl, tail_eq _ _ _ _ h)
separator-injective c [] (y ∷ ys) us vs hx (ny, hy) h = absurd (ny (sym (head_eq _ _ _ _ h)))
separator-injective c (x ∷ xs) [] us vs (nx, hx) hy h = absurd (nx (head_eq _ _ _ _ h))
separator-injective c (x ∷ xs) (y ∷ ys) us vs (nx, hx) (ny, hy) h =
    let (same, rest) = separator-injective c xs ys us vs hx hy (tail_eq _ _ _ _ h) in
    (rw (same, head_eq _ _ _ _ h) refl, rest)

digits_from-digits : (left n : ℕ) → All (λ d. is_digit d ≡ true) (digits_from left n)
unfolding digits_from
digits_from-digits zero n = tt
digits_from-digits (suc left) n = elim (Bool-cases (ltb n 10)) [
  | inl small ↦ rw small (ground (arith, small), tt)
  | inr large ↦ rw large (
      All-snoc (λ d. is_digit d ≡ true) (digits_from left (n / 10)) (48 + n % 10)
        (digits_from-digits left (n / 10)) (ground arith))
]

-- every byte of a decimal numeral is a digit
pub decimal-digits : (n : ℕ) → All (λ d. is_digit d ≡ true) (decimal n)
unfolding decimal
decimal-digits n = digits_from-digits (suc n) n

snoc_filled : (xs : List ℕ) (d : ℕ) → is_empty (xs ++ d ∷ []) ≡ false
snoc_filled [] d = refl
snoc_filled (x ∷ xs) d = refl

pub decimal_filled : (n : ℕ) → is_empty (decimal n) ≡ false
unfolding decimal digits_from
decimal_filled n = elim (Bool-cases (ltb n 10)) [
  | inl small ↦ rw small refl
  | inr large ↦ rw large (snoc_filled (digits_from n (n / 10)) (48 + n % 10))
]
