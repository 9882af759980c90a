-- ===== src/Common/Bits/Digits.antt =====
-- A number is given by its bits, and the native bit operations work on each bit alone.
use Prim.Native.Nat.{
  ℕ, zero, suc, ◌+◌, ◌*◌, ◌/◌, ◌%◌, ◌≤◌, ◌<◌, min, max, digits, bit_and, bit_or, bit_and-bitwise,
  bit_or-bitwise,
}
use mathlib.Core.Path.{◌≡◌, refl, sym, ap, ◌∙◌}
use native.Mathlib.Nat.{le_refl}
use native.Mathlib.Omega.{arith}

-- Bit `j` of `x`.
abbrev pub testbit : ℕ → ℕ → ℕ
testbit x zero = x % 2
testbit x (suc j) = testbit (x / 2) j

pub testbit-lt : (j x : ℕ) → testbit x j < 2
testbit-lt zero x = omega arith
testbit-lt (suc j) x = testbit-lt j (x / 2)

pub testbit-zero : (j : ℕ) → testbit 0 j ≡ 0
testbit-zero zero = refl
testbit-zero (suc j) = testbit-zero j

testbit-ext_le : (n x y : ℕ) → x ≤ n → y ≤ n → ((j : ℕ) → testbit x j ≡ testbit y j) → x ≡ y
testbit-ext_le zero x y hx hy h = omega arith
testbit-ext_le (suc n) x y hx hy h =
    omega
      (arith, h 0, testbit-ext_le n (x / 2) (y / 2) (omega arith) (omega arith) (λ j. h (suc j)))

-- Numbers with the same bits are the same.
pub testbit-ext : (x y : ℕ) → ((j : ℕ) → testbit x j ≡ testbit y j) → x ≡ y
testbit-ext x y h = testbit-ext_le (x + y) x y (omega arith) (omega arith) h

-- The bits of a number put together from its half and its lowest bit.
testbit-double : (j x r : ℕ) → r < 2 → testbit (x * 2 + r) (suc j) ≡ testbit x j
testbit-double j x r h = let half : (x * 2 + r) / 2 ≡ x = omega arith in rw half refl

-- The recursion behind `bit_and`, with enough fuel for the first number, at each bit.
and_bit :
    (n j a b : ℕ) → a ≤ n → testbit (digits (λ y. 0) min n a b) j ≡ min (testbit a j) (testbit b j)
and_bit zero j a b h = let e : a ≡ 0 = omega arith in rw e (omega (arith, testbit-zero j))
and_bit (suc n) j zero b h = omega (arith, testbit-zero j)
and_bit (suc n) zero (suc a) b h = omega arith
and_bit (suc n) (suc j) (suc a) b h =
    testbit-double j (digits (λ y. 0) min n (suc a / 2) (b / 2)) _ (omega arith)
    ∙ and_bit n j (suc a / 2) (b / 2) (omega arith)

or_bit :
    (n j a b : ℕ) → a ≤ n → testbit (digits (λ y. y) max n a b) j ≡ max (testbit a j) (testbit b j)
or_bit zero j a b h = let e : a ≡ 0 = omega arith in rw e (omega (arith, testbit-zero j))
or_bit (suc n) j zero b h = omega (arith, testbit-zero j)
or_bit (suc n) zero (suc a) b h = omega arith
or_bit (suc n) (suc j) (suc a) b h =
    testbit-double j (digits (λ y. y) max n (suc a / 2) (b / 2)) _ (omega arith)
    ∙ or_bit n j (suc a / 2) (b / 2) (omega arith)

pub testbit-bit_and : (j a b : ℕ) → testbit (bit_and a b) j ≡ min (testbit a j) (testbit b j)
testbit-bit_and j a b =
    ap (λ (x : ℕ). testbit x j) (bit_and-bitwise a b) ∙ and_bit a j a b (le_refl a)

pub testbit-bit_or : (j a b : ℕ) → testbit (bit_or a b) j ≡ max (testbit a j) (testbit b j)
testbit-bit_or j a b = ap (λ (x : ℕ). testbit x j) (bit_or-bitwise a b) ∙ or_bit a j a b (le_refl a)

-- The lowest bit apart from the others.
pub bit_and_halves : (a b : ℕ) → bit_and a b ≡ bit_and (a / 2) (b / 2) * 2 + min (a % 2) (b % 2)
bit_and_halves a b = testbit-ext _ _ each
  where
    each :
        (j : ℕ)
        → testbit (bit_and a b) j ≡ testbit (bit_and (a / 2) (b / 2) * 2 + min (a % 2) (b % 2)) j
    each zero = omega (arith, testbit-bit_and 0 a b)
    each (suc j) =
        testbit-bit_and (suc j) a b
        ∙ sym (testbit-bit_and j (a / 2) (b / 2))
        ∙ sym (testbit-double j (bit_and (a / 2) (b / 2)) _ (omega arith))

pub bit_or_halves : (a b : ℕ) → bit_or a b ≡ bit_or (a / 2) (b / 2) * 2 + max (a % 2) (b % 2)
bit_or_halves a b = testbit-ext _ _ each
  where
    each :
        (j : ℕ)
        → testbit (bit_or a b) j ≡ testbit (bit_or (a / 2) (b / 2) * 2 + max (a % 2) (b % 2)) j
    each zero = omega (arith, testbit-bit_or 0 a b)
    each (suc j) =
        testbit-bit_or (suc j) a b
        ∙ sym (testbit-bit_or j (a / 2) (b / 2))
        ∙ sym (testbit-double j (bit_or (a / 2) (b / 2)) _ (omega arith))

pub bit_and-zero : (a : ℕ) → bit_and a 0 ≡ 0
bit_and-zero a =
    testbit-ext (bit_and a 0) 0
      (λ j. omega (arith, testbit-bit_and j a 0, testbit-zero j, testbit-lt j a))

pub bit_or-zero : (a : ℕ) → bit_or a 0 ≡ a
bit_or-zero a =
    testbit-ext (bit_or a 0) a (λ j. omega (arith, testbit-bit_or j a 0, testbit-zero j))
