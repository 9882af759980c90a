-- ===== src/Swd.antt =====
-- ahb3lite_remote_bridge2/bench/swd_phy_tb.cpp: the packets of the bench that drives the SWD PHY of
-- the debug bridge. `none` is a loop that lacks fuel.
pub mod Packet
pub mod Mirror
pub mod Bench
pub mod Target
pub mod Session
use tinylabs_cores.Common.{
  ℕ, zero, suc, ◌+◌, ◌-◌, ◌*◌, ◌/◌, ◌^◌, Bool, true, false, Option, none, some, bit_and, bit_or,
  bit_xor, ◌==◌, if◌then◌else◌, u32, shr,
}
use tinylabs_cores.Gpio.{◌>>=◌}
use tinylabs_cores.Phy.{Words}

-- `(n >> s) & m1 | (n << s) & m2`
abbrev pub swap_bits : ℕ → ℕ → ℕ → ℕ → ℕ
swap_bits s m1 m2 n = bit_or (bit_and (shr n s) m1) (bit_and (u32 (n * 2 ^ s)) m2)

-- `reverseBits`
unfoldable pub reverse_bits : ℕ → ℕ
reverse_bits n0 =
    let n1 = swap_bits 1 0x55555555 0xaaaaaaaa n0 in
    let n2 = swap_bits 2 0x33333333 0xcccccccc n1 in
    let n3 = swap_bits 4 0x0f0f0f0f 0xf0f0f0f0 n2 in
    let n4 = swap_bits 8 0x00ff00ff 0xff00ff00 n3 in swap_bits 16 0x0000ffff 0xffff0000 n4

-- `top->WRDATA` for the request of `SendReq`.
unfoldable pub swd_request_words : ℕ → ℕ → ℕ → ℕ → Words
swd_request_words len t0 t1 so = record {
  word0 = bit_and so 0xffffffff;
  word1 = bit_and (shr so 32) 0xffffffff;
  word2 = bit_or (bit_or (bit_and t1 0x3f) (bit_and t0 0x3f * 2 ^ 6)) (bit_and len 0x3f * 2 ^ 12);
}

-- `resp_t`
pub record SwdResponse : Type 0 where
  pub len : ℕ
  pub code : ℕ
  pub payload : ℕ
  pub parity : ℕ

-- `resp` for `top->RDDATA`.
unfoldable pub swd_response : ℕ → SwdResponse
swd_response rddata =
    let len' = bit_and rddata 0x3f in
    if len' == 36
    then record {
      len = len';
      code = bit_and (shr rddata 39) 7;
      payload = reverse_bits (bit_and (shr rddata 7) 0xffffffff);
      parity = bit_and (shr rddata 6) 1;
    }
    else if len' == 3
    then record { len = len'; code = bit_and (shr rddata 6) 7; payload = 0; parity = 0 }
    else record { len = len'; code = 0; payload = 0; parity = 0 }

-- `while (data) { if (data & 1) parity ^= 1; data >>= 1; }`
unfoldable pub parity_loop : ℕ → ℕ → ℕ → Option ℕ
parity_loop zero x parity = if x == 0 then some parity else none
parity_loop (suc fuel) x parity = elim (x == 0) [
  | true ↦ some parity
  | false ↦ parity_loop fuel (shr x 1) (if bit_and x 1 == 0 then parity else bit_xor parity 1)
]

abbrev pub bit_of : Bool → ℕ
bit_of b = if b then 1 else 0

-- The packet of both kinds of request up to the park bit, with `rnw` 1 for a read.
unfoldable pub header : ℕ → Bool → ℕ → ℕ
header rnw apndp addr =
    let v1 = if apndp then bit_or 1 2 else 1 in
    let v2 = bit_or v1 (rnw * 2 ^ 2) in
    let v3 = bit_or v2 (bit_and (shr addr 2) 3 * 2 ^ 3) in
    let p =
      bit_xor (bit_xor (bit_xor rnw (bit_and (shr addr 2) 1)) (bit_and (shr addr 3) 1))
        (bit_of apndp) in
    bit_or (bit_or (bit_or v3 (p * 2 ^ 5)) 0) (1 * 2 ^ 7)

-- `reg_read`
pub reg_read : Bool → ℕ → ℕ
reg_read apndp addr = header 1 apndp addr

-- `reg_write`
unfoldable pub reg_write : ℕ → Bool → ℕ → ℕ → Option ℕ
reg_write fuel apndp addr x = do
  parity ← parity_loop fuel x 0
  some (bit_or (bit_or (header 0 apndp addr) (x * 2 ^ 9)) (parity * 2 ^ 41))
