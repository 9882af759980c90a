-- ===== src/Gpio/Pins.antt =====
-- One pin: what its byte is, and what the byte does at the other end.
use native.Mathlib.Nat.{one-le-pow, pow-suc}
use tinylabs_cores.Common.{
  ℕ, zero, suc, ◌*◌, ◌^◌, ◌≤◌, ◌<◌, ◌≡◌, ◌≢◌, refl, Bool, true, false, not, ◌&&◌, none, some,
  bit_and, bit_or, ◌==◌, if◌then◌else◌, arith, every, at_every,
}
use tinylabs_cores.Common.Bits.{
  testbit, testbit-lt, testbit-bit_and, testbit-bit_or, testbit-pow_self, testbit-pow_ne,
  testbit-complement, bit_and-pow, bit_or-lt, bit_and-lt,
}
use tinylabs_cores.Gpio.{int_bit, not64, command, flush, apply_command, changed_pin}

-- The level of pin `i`.
abbrev pub level : ℕ → ℕ → Bool
level x i = not (testbit x i == 0)

-- Does pin `i` differ?
abbrev pub differs : ℕ → ℕ → ℕ → Bool
differs x y i = not (testbit x i == testbit y i)

pub set_pin : ℕ → Bool → ℕ → ℕ
set_pin i lvl x = if lvl then bit_or x (2 ^ i) else bit_and x (not64 (2 ^ i))

pub pow-lt : (i n : ℕ) → i < n → 2 ^ i < 2 ^ n
pow-lt i zero h = absurd (omega arith)
pow-lt zero (suc n) h = omega (arith, pow-suc 2 n, one-le-pow n 2)
pow-lt (suc i) (suc n) h = omega (arith, pow-suc 2 n, pow-suc 2 i, pow-lt i n (omega arith))

-- Scaling two bits keeps the comparison.
scaled-eq : (a b p : ℕ) → a < 2 → b < 2 → 0 < p → (a * p == b * p) ≡ (a == b)
scaled-eq zero zero p ha hb h = ground arith
scaled-eq zero (suc zero) p ha hb h = ground arith
scaled-eq (suc zero) zero p ha hb h = ground arith
scaled-eq (suc zero) (suc zero) p ha hb h = ground arith
scaled-eq zero (suc (suc b)) p ha hb h = absurd (omega arith)
scaled-eq (suc zero) (suc (suc b)) p ha hb h = absurd (omega arith)
scaled-eq (suc (suc a)) b p ha hb h = absurd (omega arith)

-- A pin below 31 is sent exactly where it differs, with its new level.
pub changed_pin_lem :
    (i out cached : ℕ)
    → i < 31
    → changed_pin i out cached
      ≡ some (if differs out cached i then some (command i (level out i)) else none)
unfolding changed_pin int_bit
changed_pin_lem i out cached h =
    let bit : int_bit i ≡ some (2 ^ i) = ground (arith, h) in
    let pos : 0 < 2 ^ i = one-le-pow i 2 (omega arith) in
    let same =
      scaled-eq (testbit out i) (testbit cached i) (2 ^ i) (testbit-lt i out) (testbit-lt i cached)
        pos in
    let low = scaled-eq (testbit out i) 0 (2 ^ i) (testbit-lt i out) (omega arith) pos in
    let zero_mask : 0 * 2 ^ i ≡ 0 = omega arith in
    let low' : (testbit out i * 2 ^ i == 0) ≡ (testbit out i == 0) = rw zero_mask at low in
    rw (bit, bit_and-pow i out, bit_and-pow i cached, same, low') (ground arith)

-- Of the byte for a pin: the low bits, the high bit, and that it is not the end mark.
abbrev decode_test : Bool → ℕ → Bool
decode_test lvl i =
    bit_and (command i lvl) 0x7F == i
    && ((bit_and (command i lvl) 0x80 == (if lvl then 0x80 else 0)) && not (command i lvl == flush))

decode_high : every (decode_test true) 31 ≡ true
unfolding every command
decode_high = refl

decode_low : every (decode_test false) 31 ≡ true
unfolding every command
decode_low = refl

record Decodes (i : ℕ) (lvl : Bool) : Type 0 where
  pin : bit_and (command i lvl) 0x7F ≡ i
  high : (bit_and (command i lvl) 0x80 == 0) ≡ not lvl
  mark : (command i lvl == flush) ≡ false

decodes : (i : ℕ) (lvl : Bool) → i < 31 → Decodes i lvl
decodes i true h = ground (arith, at_every (decode_test true) 31 {i = i} h decode_high)
decodes i false h = ground (arith, at_every (decode_test false) 31 {i = i} h decode_low)

-- The byte of a pin that the other end has sets that pin to the level, and is no end mark.
pub apply_command_lem :
    (cnt i x : ℕ) (lvl : Bool)
    → cnt ≤ 31
    → i < cnt
    → apply_command cnt (command i lvl) x ≡ some (set_pin i lvl x)
unfolding apply_command set_pin int_bit
apply_command_lem cnt i x lvl hc h =
    let d = decodes i lvl (omega arith) in
    let bit : int_bit i ≡ some (2 ^ i) = ground arith in rw (d.pin, d.high) (ground (arith, bit))

pub command-ne-flush : (i : ℕ) (lvl : Bool) → i < 31 → (command i lvl == flush) ≡ false
command-ne-flush i lvl h = (decodes i lvl h).mark

-- Setting a pin gives it the level and leaves the others.
pub testbit-set_pin_self : (i x : ℕ) (lvl : Bool) → i < 31 → level (set_pin i lvl x) i ≡ lvl
unfolding set_pin
testbit-set_pin_self i x true h =
    ground (arith, testbit-bit_or i x (2 ^ i), testbit-pow_self i, testbit-lt i x)
testbit-set_pin_self i x false h = ground (
  arith,
  testbit-bit_and i x (not64 (2 ^ i)),
  testbit-complement 64 i (2 ^ i) (pow-lt i 64 (omega arith)),
  testbit-pow_self i,
)

pub testbit-set_pin_ne :
    (i j x : ℕ) (lvl : Bool) → i < 31 → j < 64 → i ≢ j → testbit (set_pin i lvl x) j ≡ testbit x j
unfolding set_pin
testbit-set_pin_ne i j x true h hj ne =
    omega (arith, testbit-bit_or j x (2 ^ i), testbit-pow_ne i j ne)
testbit-set_pin_ne i j x false h hj ne = omega (
  arith,
  testbit-bit_and j x (not64 (2 ^ i)),
  testbit-complement 64 j (2 ^ i) (pow-lt i 64 (omega arith)) hj,
  testbit-pow_ne i j ne,
  testbit-lt j x,
)

pub set_pin-lt : (i x : ℕ) (lvl : Bool) → i < 31 → x < 2 ^ 64 → set_pin i lvl x < 2 ^ 64
unfolding set_pin
set_pin-lt i x true h hx = bit_or-lt 64 x (2 ^ i) hx (pow-lt i 64 (omega arith))
set_pin-lt i x false h hx = bit_and-lt 64 x (not64 (2 ^ i)) hx
