-- ===== src/Swd/Packet.antt =====
-- The packets of ahb3lite_remote_bridge2/bench/swd_phy_tb.cpp: their fields and their parities.
use tinylabs_cores.Common.{
  ℕ, zero, suc, ◌+◌, ◌-◌, ◌*◌, ◌/◌, ◌%◌, ◌^◌, ◌<◌, ◌≡◌, refl, ap, ◌∙◌, Bool, true, false, some,
  bit_and, bit_or, bit_xor, arith, shr, ◌==◌, ==_iff, ==_of_ne, if◌then◌else◌, every, at_every,
}
use native.Mathlib.Decide.{ℕ_discrete}
use native.Mathlib.Nat.{pow-suc}
use tinylabs_cores.Gpio.{◌>>=◌}
use tinylabs_cores.Common.Bits.{bit_and-mask}
use tinylabs_cores.Phy.Packet.{value, bit_or_above}
use tinylabs_cores.Swd.{swd_request_words, parity_loop, bit_of, header, reg_read, reg_write}

-- How many of the lowest `n` bits are set.
abbrev pub ones : ℕ → ℕ → ℕ
ones zero x = 0
ones (suc n) x = x % 2 + ones n (x / 2)

-- A request holds 64 bits to send, two turnaround places and a length of 6 bits each.
pub swd_request_words_lem :
    (len t0 t1 so : ℕ)
    → so < 2 ^ 64
    → value (swd_request_words len t0 t1 so)
      ≡ so + t1 % 64 * 2 ^ 64 + t0 % 64 * 2 ^ 70 + len % 64 * 2 ^ 76
unfolding swd_request_words
swd_request_words_lem len t0 t1 so h =
    let m0 : bit_and so 0xffffffff ≡ so % 2 ^ 32 = bit_and-mask 32 so in
    let m1 : bit_and (shr so 32) 0xffffffff ≡ shr so 32 % 2 ^ 32 = bit_and-mask 32 (shr so 32) in
    let m2 : bit_and t1 0x3f ≡ t1 % 2 ^ 6 = bit_and-mask 6 t1 in
    let m3 : bit_and t0 0x3f ≡ t0 % 2 ^ 6 = bit_and-mask 6 t0 in
    let m4 : bit_and len 0x3f ≡ len % 2 ^ 6 = bit_and-mask 6 len in
    let f1 = bit_or_above 6 (bit_and t0 0x3f) (bit_and t1 0x3f) (omega arith) in
    let f2 =
      bit_or_above 12 (bit_and len 0x3f) (bit_or (bit_and t1 0x3f) (bit_and t0 0x3f * 2 ^ 6))
        (omega arith) in
    omega arith

ones-zero : (n : ℕ) → ones n 0 ≡ 0
ones-zero zero = refl
ones-zero (suc n) = omega (arith, ones-zero n)

toggle : (p : ℕ) → p < 2 → bit_xor p 1 ≡ 1 - p
toggle zero h = refl
toggle (suc zero) h = refl
toggle (suc (suc p)) h = absurd (omega arith)

next_parity : (x p : ℕ) → p < 2 → (if bit_and x 1 == 0 then p else bit_xor p 1) ≡ (p + x % 2) % 2
next_parity x p h = ground (arith, bit_and-mask 1 x, toggle p h)

-- The loop ends after at most as many passes as the number has bits, with the parity of their sum.
parity_loop_lem : (n x p : ℕ) → x < 2 ^ n → p < 2 → parity_loop n x p ≡ some ((p + ones n x) % 2)
unfolding parity_loop
parity_loop_lem zero x p h hp = let e : x ≡ 0 = omega arith in rw e (ap some (omega arith))
parity_loop_lem (suc n) x p h hp = elim (ℕ_discrete x 0) [
  | yes e ↦
      let none_set : (p + (x % 2 + ones n (x / 2))) % 2 ≡ p =
        ap (λ (y : ℕ). (p + (y % 2 + ones n (y / 2))) % 2) e ∙ omega (arith, ones-zero n, hp) in
      rw (none_set, e) refl
  | no ne ↦
      ap
        (λ b. elim b [
          | true ↦ some p
          | false ↦ parity_loop n (shr x 1) (if bit_and x 1 == 0 then p else bit_xor p 1)
        ])
        (==_of_ne x 0 ne)
      ∙ ap (parity_loop n (x / 2)) (next_parity x p hp)
      ∙ parity_loop_lem n (x / 2) ((p + x % 2) % 2) (omega (arith, pow-suc 2 n)) (omega arith)
      ∙ ap some (omega arith)
]

bit_of_lt : (b : Bool) → bit_of b < 2
bit_of_lt true = omega arith
bit_of_lt false = omega arith

-- The fields of a header, whose parity bit is that of the four bits before it.
abbrev pub header_fields : ℕ → Bool → ℕ → ℕ
header_fields rnw apndp addr =
    1
    + bit_of apndp * 2
    + rnw * 4
    + addr / 4 % 4 * 8
    + (bit_of apndp + rnw + addr / 4 % 2 + addr / 8 % 2) % 2 * 32
    + 128

abbrev header_test : ℕ → Bool → ℕ → Bool
header_test rnw apndp addr = header rnw apndp addr == header_fields rnw apndp addr

header_table :
    (every (header_test 0 false) 256 ≡ true)
    × (every (header_test 0 true) 256 ≡ true)
    × (every (header_test 1 false) 256 ≡ true)
    × (every (header_test 1 true) 256 ≡ true)
unfolding every header
header_table = (refl, refl, refl, refl)

header_write :
    (apndp : Bool) (addr : ℕ) → addr < 256 → header 0 apndp addr ≡ header_fields 0 apndp addr
header_write false addr h =
    (==_iff _ _).0 (at_every (header_test 0 false) 256 {i = addr} h header_table.0)
header_write true addr h =
    (==_iff _ _).0 (at_every (header_test 0 true) 256 {i = addr} h header_table.1)

header_read :
    (apndp : Bool) (addr : ℕ) → addr < 256 → header 1 apndp addr ≡ header_fields 1 apndp addr
header_read false addr h =
    (==_iff _ _).0 (at_every (header_test 1 false) 256 {i = addr} h header_table.2)
header_read true addr h =
    (==_iff _ _).0 (at_every (header_test 1 true) 256 {i = addr} h header_table.3)

-- A packet holds its header, whose parity bit is that of the bits for the port, the direction and
-- the address; that of a write holds the 32 bits of data and their parity above it, and its loop
-- ends within 32 passes. (An address of 8 bits.)
pub reg_write_lem :
    (apndp : Bool) (addr x : ℕ)
    → addr < 256
    → x < 2 ^ 32
    → (reg_write 32 apndp addr x
        ≡ some (header_fields 0 apndp addr + x * 2 ^ 9 + ones 32 x % 2 * 2 ^ 41))
      × (reg_read apndp addr ≡ header_fields 1 apndp addr)
unfolding reg_write reg_read
reg_write_lem apndp addr x ha hx =
    let v : ℕ = header 0 apndp addr in
    let ev : v ≡ header_fields 0 apndp addr = header_write apndp addr ha in
    let small : v < 256 = omega (arith, ev, bit_of_lt apndp) in
    let f1 : bit_or v (x * 2 ^ 9) ≡ x * 2 ^ 9 + v = bit_or_above 9 x v (omega arith) in
    let par : ℕ = ones 32 x % 2 in
    let f2 : bit_or (bit_or v (x * 2 ^ 9)) (par * 2 ^ 41) ≡ par * 2 ^ 41 + bit_or v (x * 2 ^ 9) =
      bit_or_above 41 par (bit_or v (x * 2 ^ 9)) (omega arith) in
    (
      ap (λ o. o >>= (λ (q : ℕ). some (bit_or (bit_or v (x * 2 ^ 9)) (q * 2 ^ 41))))
            (parity_loop_lem 32 x 0 hx (omega arith) ∙ ap some (omega arith))
          ∙ ap some (f2 ∙ omega (arith, f1, ev)),
      header_read apndp addr ha,
    )
