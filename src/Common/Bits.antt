-- ===== src/Common/Bits.antt =====
-- The bits of a number, and what the native bit operations do to them, at every width.
mod Digits
pub use Digits.*
use Prim.Native.Nat.{
  ℕ, zero, suc, ◌+◌, ◌-◌, ◌*◌, ◌/◌, ◌%◌, ◌^◌, ◌≤◌, ◌<◌, min, max, digits, bitwise, bit_and, bit_or,
  bit_and-bitwise, bit_or-bitwise,
}
use mathlib.Core.Path.{◌≡◌, refl, sym, ap, ap₂, ◌∙◌}
use mathlib.Core.Logic.{◌≢◌}
use native.Mathlib.Decide.{dec_lt}
use native.Mathlib.Nat.{
  le_refl, pow-suc, one-le-pow, mod-lt, mod-eq_of_lt, mul-add-mod_self_right, div-add-mod',
  div-div-eq-div-mul, div-le_self,
}
use native.Mathlib.Omega.{arith}

pub testbit-pow_self : (i : ℕ) → testbit (2 ^ i) i ≡ 1
testbit-pow_self zero = refl
testbit-pow_self (suc i) =
    let half : 2 ^ suc i / 2 ≡ 2 ^ i = omega (arith, pow-suc 2 i) in rw half (testbit-pow_self i)

pub testbit-pow_ne : (i j : ℕ) → i ≢ j → testbit (2 ^ i) j ≡ 0
testbit-pow_ne zero zero h = absurd (h refl)
testbit-pow_ne zero (suc j) h = testbit-zero j
testbit-pow_ne (suc i) zero h = omega (arith, pow-suc 2 i)
testbit-pow_ne (suc i) (suc j) h =
    let half : 2 ^ suc i / 2 ≡ 2 ^ i = omega (arith, pow-suc 2 i) in
    rw half (testbit-pow_ne i j (λ e. h (ap suc e)))

-- The complement within `n` bits flips each of them.
pub testbit-complement :
    (n j x : ℕ) → x < 2 ^ n → j < n → testbit (2 ^ n - 1 - x) j ≡ 1 - testbit x j
testbit-complement zero j x h lt = absurd (omega arith)
testbit-complement (suc n) zero x h lt = omega (arith, pow-suc 2 n, one-le-pow n 2)
testbit-complement (suc n) (suc j) x h lt =
    let half : (2 ^ suc n - 1 - x) / 2 ≡ 2 ^ n - 1 - x / 2 =
      omega (arith, pow-suc 2 n, one-le-pow n 2) in
    rw half (testbit-complement n j (x / 2) (omega (arith, pow-suc 2 n)) (omega arith))

-- A mask of one bit selects it.
pub bit_and-pow : (i x : ℕ) → bit_and x (2 ^ i) ≡ testbit x i * 2 ^ i
bit_and-pow zero x = omega (arith, bit_and_halves x 1, bit_and-zero (x / 2))
bit_and-pow (suc i) x = omega (
  arith,
  bit_and_halves x (2 ^ suc i),
  pow-suc 2 i,
  ap (λ (t : ℕ). bit_and (x / 2) t) (halve i),
  bit_and-pow i (x / 2),
  ap (λ (t : ℕ). testbit (x / 2) i * t) (pow-suc 2 i),
)
  where
    halve : (i : ℕ) → 2 ^ suc i / 2 ≡ 2 ^ i
    halve i = omega (arith, pow-suc 2 i)

bit_and-low : (k q r : ℕ) → r < 2 ^ k → bit_and (q * 2 ^ k + r) (2 ^ k - 1) ≡ r
bit_and-low zero q r h = rw bit_and-zero (omega arith)
bit_and-low (suc k) q r h =
    let double : q * 2 ^ suc k ≡ 2 * (q * 2 ^ k) =
      omega (arith, ap (λ (t : ℕ). q * t) (pow-suc 2 k)) in
    let half : (q * 2 ^ suc k + r) / 2 ≡ q * 2 ^ k + r / 2 = omega arith in
    let mask : (2 ^ suc k - 1) / 2 ≡ 2 ^ k - 1 = omega (arith, pow-suc 2 k, one-le-pow k 2) in
    omega (
      arith,
      bit_and_halves (q * 2 ^ suc k + r) (2 ^ suc k - 1),
      pow-suc 2 k,
      one-le-pow k 2,
      ap₂ bit_and half mask,
      bit_and-low k q (r / 2) (omega (arith, pow-suc 2 k)),
    )

-- A mask of low bits is a remainder.
pub bit_and-mask : (k x : ℕ) → bit_and x (2 ^ k - 1) ≡ x % 2 ^ k
bit_and-mask k x = ground (arith, one-le-pow k 2, bit_and-low k (x / 2 ^ k) (x % 2 ^ k))

-- `|` of disjoint fields is a sum.
pub bit_or-fields : (k q r : ℕ) → r < 2 ^ k → bit_or (q * 2 ^ k) r ≡ q * 2 ^ k + r
bit_or-fields zero q r h = ground (arith, bit_or-zero q)
bit_or-fields (suc k) q r h =
    let half : q * 2 ^ suc k / 2 ≡ q * 2 ^ k = omega (arith, ap (λ (t : ℕ). q * t) (pow-suc 2 k)) in
    omega (
      arith,
      bit_or_halves (q * 2 ^ suc k) r,
      ap (λ (t : ℕ). bit_or t (r / 2)) half,
      ap (λ (t : ℕ). q * t) (pow-suc 2 k),
      bit_or-fields k q (r / 2) (omega (arith, pow-suc 2 k)),
    )

pub mod-pow_suc : (n x : ℕ) → x % 2 ^ suc n ≡ 2 * (x / 2 % 2 ^ n) + x % 2
mod-pow_suc n x =
    let p : ℕ = 2 ^ n in
    let q : ℕ = x / 2 / p in
    let r : ℕ = x / 2 % p in
    let pos : 0 < p = one-le-pow n 2 (omega arith) in
    let double : q * 2 ^ suc n ≡ 2 * (q * p) = omega (arith, ap (λ (t : ℕ). q * t) (pow-suc 2 n)) in
    let whole : x ≡ q * 2 ^ suc n + (2 * r + x % 2) = omega (arith, div-add-mod' (x / 2) p) in
    let small : 2 * r + x % 2 < 2 ^ suc n =
      omega (arith, pow-suc 2 n, mod-lt (x / 2) {m = p} pos) in
    ap (λ (t : ℕ). t % 2 ^ suc n) whole
    ∙ mul-add-mod_self_right q (2 ^ suc n) (2 * r + x % 2)
    ∙ mod-eq_of_lt {n = 2 * r + x % 2} {m = 2 ^ suc n} small

pub testbit-mod : (n x j : ℕ) → j < n → testbit (x % 2 ^ n) j ≡ testbit x j
testbit-mod zero x j h = absurd (omega arith)
testbit-mod (suc n) x zero h = omega (arith, mod-pow_suc n x)
testbit-mod (suc n) x (suc j) h =
    let half : x % 2 ^ suc n / 2 ≡ x / 2 % 2 ^ n = omega (arith, mod-pow_suc n x) in
    rw half (testbit-mod n (x / 2) j (omega arith))

-- Numbers with the same low bits have the same remainder.
pub mod-pow_ext :
    (n x y : ℕ) → ((j : ℕ) → j < n → testbit x j ≡ testbit y j) → x % 2 ^ n ≡ y % 2 ^ n
mod-pow_ext zero x y h = omega arith
mod-pow_ext (suc n) x y h = omega (
  arith,
  mod-pow_suc n x,
  mod-pow_suc n y,
  h 0 (omega arith),
  mod-pow_ext n (x / 2) (y / 2) (λ j hj. h (suc j) (omega arith)),
)

pub testbit-div_pow : (n j x : ℕ) → testbit (x / 2 ^ n) j ≡ testbit x (n + j)
testbit-div_pow zero j x =
    let e : 0 + j ≡ j = omega arith in let one : x / 2 ^ 0 ≡ x = omega arith in rw (e, one)
testbit-div_pow (suc n) j x =
    let e : suc n + j ≡ suc (n + j) = omega arith in
    let half : x / 2 ^ suc n ≡ x / 2 / 2 ^ n =
      ap (λ (t : ℕ). x / t) (omega (arith, pow-suc 2 n)) ∙ sym (div-div-eq-div-mul x 2 (2 ^ n)) in
    rw (e, half) (testbit-div_pow n j (x / 2))

pub testbit-high : (n x j : ℕ) → x < 2 ^ n → n ≤ j → testbit x j ≡ 0
testbit-high zero x j h hj = let e : x ≡ 0 = omega arith in rw e (testbit-zero j)
testbit-high (suc n) x zero h hj = absurd (omega arith)
testbit-high (suc n) x (suc j) h hj =
    testbit-high n (x / 2) j (omega (arith, pow-suc 2 n)) (omega arith)

pub bit_or-lt : (n a b : ℕ) → a < 2 ^ n → b < 2 ^ n → bit_or a b < 2 ^ n
bit_or-lt zero a b ha hb =
    let ea : a ≡ 0 = omega arith in let eb : b ≡ 0 = omega arith in rw (ea, eb) (omega arith)
bit_or-lt (suc n) a b ha hb = omega (
  arith,
  bit_or_halves a b,
  pow-suc 2 n,
  bit_or-lt n (a / 2) (b / 2) (omega (arith, pow-suc 2 n)) (omega (arith, pow-suc 2 n)),
)

pub bit_and-lt : (n a b : ℕ) → a < 2 ^ n → bit_and a b < 2 ^ n
bit_and-lt zero a b ha = let ea : a ≡ 0 = omega arith in rw ea (omega (arith, bit_and-bitwise 0 b))
bit_and-lt (suc n) a b ha = omega (
  arith,
  bit_and_halves a b,
  pow-suc 2 n,
  bit_and-lt n (a / 2) (b / 2) (omega (arith, pow-suc 2 n)),
)

-- Numbers below `2 ^ w` with the same bits from `n` on have the same quotient.
pub div-pow_ext :
    (w n x y : ℕ)
    → x < 2 ^ w
    → y < 2 ^ w
    → ((j : ℕ) → n ≤ j → j < w → testbit x j ≡ testbit y j)
    → x / 2 ^ n ≡ y / 2 ^ n
div-pow_ext w n x y hx hy h =
    sym (mod-eq_of_lt {n = x / 2 ^ n} {m = 2 ^ w} (omega (arith, div-le_self x (2 ^ n))))
    ∙ mod-pow_ext w (x / 2 ^ n) (y / 2 ^ n) bits
    ∙ mod-eq_of_lt {n = y / 2 ^ n} {m = 2 ^ w} (omega (arith, div-le_self y (2 ^ n)))
  where
    bits : (j : ℕ) → j < w → testbit (x / 2 ^ n) j ≡ testbit (y / 2 ^ n) j
    bits j hj = elim (dec_lt (n + j) w) [
      | yes low ↦ rw (testbit-div_pow n j x, testbit-div_pow n j y) (h (n + j) (omega arith) low)
      | no high ↦ omega (
        arith,
        testbit-div_pow n j x,
        testbit-div_pow n j y,
        testbit-high w x (n + j) hx (omega arith),
        testbit-high w y (n + j) hy (omega arith),
      )
    ]
