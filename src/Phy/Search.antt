-- ===== src/Phy/Search.antt =====
-- The searches at the ends of `device_count` and `ir_len` of
-- ahb3lite_remote_bridge2/bench/jtag_phy_tb.cpp: the first bit that is set in what was scanned out.
use native.Mathlib.Nat.{one-le-pow}
use tinylabs_cores.Common.{
  ℕ, zero, suc, ◌+◌, ◌-◌, ◌*◌, ◌/◌, ◌%◌, ◌^◌, ◌<◌, ◌≡◌, sym, ap, ◌∙◌, Bool, true, false, not,
  Option, none, some, bit_and, ◌==◌, if◌then◌else◌, arith,
}
use tinylabs_cores.Common.Bits.{testbit, testbit-lt, bit_and-pow}
use tinylabs_cores.Gpio.{◌>>=◌, int_bit}

-- `dr[i>>6] & (1 << (i & 0x3f))`, tested; the shift is of an `int`.
unfoldable pub chain_bit : (ℕ → ℕ) → ℕ → Option Bool
chain_bit dr i = do mask ← int_bit (i % 64); some (not (bit_and (dr (i / 64)) mask == 0))

-- The loop from `i` on, over `n` bits: where it stops.
unfoldable pub find_bit : ℕ → (ℕ → ℕ) → ℕ → Option ℕ
find_bit zero dr i = some i
find_bit (suc n) dr i = do
  set ← chain_bit dr i
  elim set [ true ↦ some i | false ↦ find_bit n dr (i + 1) ]

-- The results, with `none` inside for -1.
unfoldable pub found_devices : (ℕ → ℕ) → Option (Option ℕ)
found_devices dr = do i ← find_bit 384 dr 0; some (if i == 384 then none else some i)

unfoldable pub found_ir_len : (ℕ → ℕ) → Option (Option ℕ)
found_ir_len ir = do i ← find_bit 64 ir 64; some (if i == 128 then none else some (i - 64 + 1))

scaled : (a p : ℕ) → a < 2 → 0 < p → (a * p == 0) ≡ (a == 0)
scaled zero p h pos = ground arith
scaled (suc zero) p h pos = ground arith
scaled (suc (suc a)) p h pos = absurd (omega arith)

low_bit : (j : ℕ) → j < 31 → int_bit j ≡ some (2 ^ j)
unfolding int_bit
low_bit j h = ground arith

-- Below bit 31 of a word, the test reads the bit.
chain_bit_lem :
    (dr : ℕ → ℕ) (w j : ℕ) → j < 31 → chain_bit dr (w * 64 + j) ≡ some (not (testbit (dr w) j == 0))
unfolding chain_bit
chain_bit_lem dr w j h =
    let place : (w * 64 + j) % 64 ≡ j = omega arith in
    let word : (w * 64 + j) / 64 ≡ w = omega arith in
    ap (λ o. o >>= (λ (mask : ℕ). some (not (bit_and (dr ((w * 64 + j) / 64)) mask == 0))))
      (ap int_bit place ∙ low_bit j h)
    ∙ ap (λ (i : ℕ). some (not (bit_and (dr i) (2 ^ j) == 0))) word
    ∙ ap (λ (y : ℕ). some (not (y == 0))) (bit_and-pow j (dr w))
    ∙ ap (λ b. some (not b))
        (scaled (testbit (dr w) j) (2 ^ j) (testbit-lt j (dr w)) (one-le-pow j 2 (omega arith)))

find_bit_lem :
    (n w j d : ℕ) (dr : ℕ → ℕ)
    → j + d < 31
    → d < n
    → ((i : ℕ) → i < j + d → testbit (dr w) i ≡ 0)
    → testbit (dr w) (j + d) ≡ 1
    → find_bit n dr (w * 64 + j) ≡ some (w * 64 + (j + d))
unfolding find_bit
find_bit_lem zero w j d dr h hn clear set = absurd (omega arith)
find_bit_lem (suc n) w j zero dr h hn clear set =
    let here : j + 0 ≡ j = omega arith in
    let bit : testbit (dr w) j ≡ 1 = ap (testbit (dr w)) (sym here) ∙ set in
    ap
      (λ o.
        o >>= (λ b. elim b [ true ↦ some (w * 64 + j) | false ↦ find_bit n dr (w * 64 + j + 1) ]))
      (chain_bit_lem dr w j (omega arith) ∙ ap (λ (y : ℕ). some (not (y == 0))) bit)
    ∙ ap (λ (i : ℕ). some (w * 64 + i)) (sym here)
find_bit_lem (suc n) w j (suc d) dr h hn clear set =
    let next : j + 1 + d ≡ j + suc d = omega arith in
    let along : w * 64 + j + 1 ≡ w * 64 + (j + 1) = omega arith in
    ap
      (λ o.
        o >>= (λ b. elim b [ true ↦ some (w * 64 + j) | false ↦ find_bit n dr (w * 64 + j + 1) ]))
      (chain_bit_lem dr w j (omega arith)
        ∙ ap (λ (y : ℕ). some (not (y == 0))) (clear j (omega arith)))
    ∙ ap (find_bit n dr) along
    ∙ find_bit_lem n w (j + 1) d dr (omega arith) (omega arith) (λ i hi. clear i (omega arith))
        (ap (testbit (dr w)) next ∙ set)
    ∙ ap (λ (i : ℕ). some (w * 64 + i)) next

-- Where the first bit that is set is bit `k` of the first word scanned out of the data registers,
-- and of the second word out of the instruction registers, the searches find `k` devices and
-- `k + 1` instruction bits. (`k` is below 31.)
pub found_lem :
    (k : ℕ) (dr ir : ℕ → ℕ)
    → k < 31
    → ((i : ℕ) → i < k → testbit (dr 0) i ≡ 0)
    → testbit (dr 0) k ≡ 1
    → ((i : ℕ) → i < k → testbit (ir 1) i ≡ 0)
    → testbit (ir 1) k ≡ 1
    → (found_devices dr ≡ some (some k)) × (found_ir_len ir ≡ some (some (k + 1)))
unfolding found_devices found_ir_len
found_lem k dr ir h clear set clear' set' =
    let sum : 0 + k ≡ k = omega arith in
    let first : 0 * 64 + (0 + k) ≡ k = omega arith in
    let second : 1 * 64 + (0 + k) ≡ 64 + k = omega arith in
    let e1 : find_bit 384 dr 0 ≡ some k =
      find_bit_lem 384 0 0 k dr (omega arith) (omega arith) (λ i hi. clear i (omega arith))
        (ap (testbit (dr 0)) sum ∙ set)
      ∙ ap some first in
    let e2 : find_bit 64 ir 64 ≡ some (64 + k) =
      find_bit_lem 64 1 0 k ir (omega arith) (omega arith) (λ i hi. clear' i (omega arith))
        (ap (testbit (ir 1)) sum ∙ set')
      ∙ ap some second in
    (
      ap (λ o. o >>= (λ (i : ℕ). some (if i == 384 then none else some i))) e1 ∙ ground arith,
      ap (λ o. o >>= (λ (i : ℕ). some (if i == 128 then none else some (i - 64 + 1)))) e2
          ∙ ground arith,
    )
