-- ===== src/Adiv5/Words.antt =====
-- The words of the ADIv5 benches (ahb3lite_remote_bridge2/bench/swd_adiv5_tb.cpp and the two like
-- it): the fields of a request, and what is read of a response.
use tinylabs_cores.Common.{
  ℕ, ◌+◌, ◌*◌, ◌%◌, ◌^◌, ◌<◌, ◌≡◌, ap, ◌∙◌, Bool, true, false, bit_and, bit_or, arith, shr, u64,
  if◌then◌else◌,
}
use tinylabs_cores.Common.Bits.{bit_and-mask, bit_or-fields}
use tinylabs_cores.Adiv5.{request_word, status, result}

abbrev pub bit : Bool → ℕ
bit b = if b then 1 else 0

request_base :
    (addr x : ℕ)
    → x < 2 ^ 32
    → bit_or (u64 (x * 2 ^ 4)) (bit_and addr 3 * 2 ^ 2) ≡ (x * 4 + addr % 4) * 2 ^ 2
request_base addr x h =
    let m : bit_and addr 3 ≡ addr % 4 = bit_and-mask 2 addr in
    let wide : u64 (x * 2 ^ 4) ≡ x * 2 ^ 4 = omega arith in
    ap (λ (y : ℕ). bit_or y (bit_and addr 3 * 2 ^ 2)) wide
    ∙ bit_or-fields 4 x (bit_and addr 3 * 2 ^ 2) (omega (arith, m))
    ∙ omega (arith, m)

with_port :
    (q : ℕ) (apndp : Bool)
    → (if apndp then bit_or (q * 2 ^ 2) 2 else q * 2 ^ 2) ≡ (q * 2 + bit apndp) * 2
with_port q true = bit_or-fields 2 q 2 (omega arith) ∙ omega arith
with_port q false = omega arith

with_direction : (q : ℕ) (rnw : Bool) → (if rnw then bit_or (q * 2) 1 else q * 2) ≡ q * 2 + bit rnw
with_direction q true = bit_or-fields 1 q 1 (omega arith)
with_direction q false = omega arith

-- A request holds the direction in bit 0, the port in bit 1, the word address in bits 2 and 3, and
-- the 32 bits of the value above; of a response, the low three bits are read as the status and the
-- 32 bits above as the value.
pub request_word_lem :
    (addr x : ℕ) (apndp rnw : Bool) (stat y : ℕ)
    → x < 2 ^ 32
    → stat < 8
    → y < 2 ^ 32
    → (request_word addr apndp rnw x ≡ x * 16 + addr % 4 * 4 + bit apndp * 2 + bit rnw)
      × (status (y * 8 + stat) ≡ stat)
      × (result (y * 8 + stat) ≡ y)
unfolding request_word
request_word_lem addr x apndp rnw stat y h hs hy = (
  ap
        (λ (w : ℕ).
          if rnw
          then bit_or (if apndp then bit_or w 2 else w) 1
          else (if apndp then bit_or w 2 else w))
        (request_base addr x h)
      ∙ ap (λ (w : ℕ). if rnw then bit_or w 1 else w) (with_port (x * 4 + addr % 4) apndp)
      ∙ with_direction ((x * 4 + addr % 4) * 2 + bit apndp) rnw
      ∙ omega arith,
  bit_and-mask 3 (y * 8 + stat) ∙ omega arith,
  bit_and-mask 32 (shr (y * 8 + stat) 3) ∙ omega arith,
)
