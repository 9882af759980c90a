-- ===== src/Swd/Mirror.antt =====
-- `reverseBits` of ahb3lite_remote_bridge2/bench/swd_phy_tb.cpp, bit by bit.
use native.Mathlib.Nat.{one-le-pow, mul-div_cancel}
use tinylabs_cores.Common.{
  ℕ, ◌+◌, ◌-◌, ◌*◌, ◌/◌, ◌%◌, ◌^◌, ◌≤◌, ◌<◌, ◌≡◌, refl, sym, ap, ap₂, ◌∙◌, Bool, true, false, ◌&&◌,
  arith, shr, u32, ◌==◌, ==_iff, leb, ltb, if◌then◌else◌, every, at_every, bit_and, Bool-cases, inl,
  inr,
}
use Prim.Native.Nat.{min, max}
use tinylabs_cores.Common.Bits.{
  testbit, testbit-lt, testbit-bit_and, testbit-bit_or, testbit-div_pow, testbit-mod, mod-pow_ext,
}
use tinylabs_cores.Swd.{swap_bits, reverse_bits}

-- Where bit `j` comes from when the halves of each block of `2 * s` bits change places.
abbrev source_of : ℕ → ℕ → ℕ
source_of s j = if j / s % 2 == 0 then s + j else j - s

-- At bit `j` the masks select the one half or the other.
abbrev mask_test : ℕ → ℕ → ℕ → ℕ → Bool
mask_test s m1 m2 j =
    if j / s % 2 == 0
    then testbit m1 j == 1 && (testbit m2 j == 0)
    else testbit m1 j == 0 && (testbit m2 j == 1) && leb s j

testbit-mul_pow : (s n j : ℕ) → testbit (n * 2 ^ s) (s + j) ≡ testbit n j
testbit-mul_pow s n j =
    sym (testbit-div_pow s j (n * 2 ^ s))
    ∙ ap (λ (y : ℕ). testbit y j) (mul-div_cancel n (one-le-pow s 2 (omega arith)))

swapped :
    (s m1 m2 n j : ℕ)
    → j < 32
    → testbit (swap_bits s m1 m2 n) j
      ≡ max (min (testbit n (s + j)) (testbit m1 j)) (min (testbit (n * 2 ^ s) j) (testbit m2 j))
swapped s m1 m2 n j h =
    testbit-bit_or j (bit_and (shr n s) m1) (bit_and (u32 (n * 2 ^ s)) m2)
    ∙ ap₂ max
        (testbit-bit_and j (shr n s) m1
          ∙ ap (λ (y : ℕ). min y (testbit m1 j)) (testbit-div_pow s j n))
        (testbit-bit_and j (u32 (n * 2 ^ s)) m2
          ∙ ap (λ (y : ℕ). min y (testbit m2 j)) (testbit-mod 32 (n * 2 ^ s) j h))

mask_low :
    (s m1 m2 j : ℕ)
    → (j / s % 2 == 0) ≡ true
    → mask_test s m1 m2 j ≡ true
    → (testbit m1 j ≡ 1) × (testbit m2 j ≡ 0)
mask_low s m1 m2 j low t = ground arith

mask_high :
    (s m1 m2 j : ℕ)
    → (j / s % 2 == 0) ≡ false
    → mask_test s m1 m2 j ≡ true
    → (testbit m1 j ≡ 0) × (testbit m2 j ≡ 1) × (s ≤ j)
mask_high s m1 m2 j high t = ground arith

swap_bits_lem :
    (s m1 m2 n j : ℕ)
    → j < 32
    → mask_test s m1 m2 j ≡ true
    → testbit (swap_bits s m1 m2 n) j ≡ testbit n (source_of s j)
swap_bits_lem s m1 m2 n j h t = elim (Bool-cases (j / s % 2 == 0)) [
  | inl low ↦
      let (e1, e2) = mask_low s m1 m2 j low t in
      swapped s m1 m2 n j h
      ∙ omega (arith, e1, e2, testbit-lt (s + j) n)
      ∙ sym (ap (λ b. testbit n (if b then s + j else j - s)) low)
  | inr high ↦
      let (e1, e2, above) = mask_high s m1 m2 j high t in
      let back : s + (j - s) ≡ j = omega (arith, above) in
      let moved : testbit (n * 2 ^ s) j ≡ testbit n (j - s) =
        ap (λ (i : ℕ). testbit (n * 2 ^ s) i) (sym back) ∙ testbit-mul_pow s n (j - s) in
      swapped s m1 m2 n j h
      ∙ omega (arith, e1, e2, moved, testbit-lt (j - s) n)
      ∙ sym (ap (λ b. testbit n (if b then s + j else j - s)) high)
]

abbrev step_test : ℕ → ℕ → ℕ → ℕ → Bool
step_test s m1 m2 j = mask_test s m1 m2 j && ltb (source_of s j) 32

step_tables :
    (every (step_test 1 0x55555555 0xaaaaaaaa) 32 ≡ true)
    × (every (step_test 2 0x33333333 0xcccccccc) 32 ≡ true)
    × (every (step_test 4 0x0f0f0f0f 0xf0f0f0f0) 32 ≡ true)
    × (every (step_test 8 0x00ff00ff 0xff00ff00) 32 ≡ true)
    × (every (step_test 16 0x0000ffff 0xffff0000) 32 ≡ true)
unfolding every
step_tables = (refl, refl, refl, refl, refl)

swap_step :
    (s m1 m2 : ℕ)
    → every (step_test s m1 m2) 32 ≡ true
    → (n j : ℕ) → j < 32
    → (testbit (swap_bits s m1 m2 n) j ≡ testbit n (source_of s j)) × (source_of s j < 32)
swap_step s m1 m2 table n j h =
    let t : step_test s m1 m2 j ≡ true = at_every (step_test s m1 m2) 32 {i = j} h table in
    let (masked, inside) = both (mask_test s m1 m2 j) (source_of s j) t in
    (swap_bits_lem s m1 m2 n j h masked, inside)
  where
    both : (b : Bool) (i : ℕ) → (b && ltb i 32) ≡ true → (b ≡ true) × (i < 32)
    both b i e = ground arith

-- The five steps together.
abbrev mirror_test : ℕ → Bool
mirror_test j = source_of 1 (source_of 2 (source_of 4 (source_of 8 (source_of 16 j)))) == 31 - j

mirror_table : every mirror_test 32 ≡ true
unfolding every
mirror_table = refl

-- `reverseBits` mirrors 32 bits: bit `j` of the result is bit `31 - j` of the number.
pub reverse_bits_lem : (n j : ℕ) → j < 32 → testbit (reverse_bits n) j ≡ testbit n (31 - j)
unfolding reverse_bits
reverse_bits_lem n j h =
    let n1 : ℕ = swap_bits 1 0x55555555 0xaaaaaaaa n in
    let n2 : ℕ = swap_bits 2 0x33333333 0xcccccccc n1 in
    let n3 : ℕ = swap_bits 4 0x0f0f0f0f 0xf0f0f0f0 n2 in
    let n4 : ℕ = swap_bits 8 0x00ff00ff 0xff00ff00 n3 in
    let (e4, h4) = swap_step 16 0x0000ffff 0xffff0000 step_tables.4 n4 j h in
    let (e3, h3) = swap_step 8 0x00ff00ff 0xff00ff00 step_tables.3 n3 _ h4 in
    let (e2, h2) = swap_step 4 0x0f0f0f0f 0xf0f0f0f0 step_tables.2 n2 _ h3 in
    let (e1, h1) = swap_step 2 0x33333333 0xcccccccc step_tables.1 n1 _ h2 in
    let (e0, h0) = swap_step 1 0x55555555 0xaaaaaaaa step_tables.0 n _ h1 in
    e4
    ∙ e3
    ∙ e2
    ∙ e1
    ∙ e0
    ∙ ap (testbit n) ((==_iff _ _).0 (at_every mirror_test 32 {i = j} h mirror_table))

-- Reversing 32 bits twice gives them back.
pub reverse_bits_twice : (n : ℕ) → reverse_bits (reverse_bits n) % 2 ^ 32 ≡ n % 2 ^ 32
reverse_bits_twice n = mod-pow_ext 32 (reverse_bits (reverse_bits n)) n (λ j h.
    let back : 31 - (31 - j) ≡ j = omega arith in
    reverse_bits_lem (reverse_bits n) j h
    ∙ reverse_bits_lem n (31 - j) (omega arith)
    ∙ ap (testbit n) back)
