-- ===== src/Phy.antt =====
-- ahb3lite_remote_bridge2/bench/jtag_phy_tb.cpp: the requests and responses of the bench of the JTAG
-- PHY of the debug bridge, and what it does with them over a link to the PHY. `none` is the end of
-- the program by `exit`, a search whose shift is undefined, or the lack of fuel for a loop. The lines
-- that print are left out; the values that they print are the result of `session`.
pub mod Packet
pub mod Search
pub mod Bench
pub mod Wait
pub mod Target
pub mod Main
use tinylabs_cores.Common.{
  ℕ, zero, suc, ◌-◌, ◌*◌, ◌^◌, Bool, true, false, Option, none, some, List, [], ◌∷◌, bit_and,
  bit_or, ◌==◌, if◌then◌else◌, u32, u64, shr,
}
use tinylabs_cores.Script.{Script, ◌>>=◌, ◌>>◌, pure, repeat, out_of_fuel, defined}
use tinylabs_cores.Fifo.{Link}
use tinylabs_cores.Phy.Search.{found_devices, found_ir_len}

-- Three words of 32 bits, the lowest first.
pub record Words : Type 0 where
  pub word0 : ℕ
  pub word1 : ℕ
  pub word2 : ℕ

abbrev pub cmd_dr_write : ℕ
cmd_dr_write = 0

abbrev pub cmd_dr_read : ℕ
cmd_dr_read = 1

abbrev pub cmd_dr_write_auto : ℕ
cmd_dr_write_auto = 2

abbrev pub cmd_ir_write : ℕ
cmd_ir_write = 4

abbrev pub cmd_ir_read : ℕ
cmd_ir_read = 5

abbrev pub cmd_ir_write_auto : ℕ
cmd_ir_write_auto = 6

-- `MAX_IR_LEN`
abbrev pub max_ir_len : ℕ
max_ir_len = 384

-- `top->WRDATA` for a request. (`len` is an `int`, which is not negative here.)
unfoldable pub request_words : ℕ → ℕ → ℕ → Words
request_words cmd len payload = record {
  word0 =
      bit_or (bit_or (bit_and cmd 7) (bit_and len 0xfff * 2 ^ 3))
        (bit_and payload 0x1ffff * 2 ^ 15);
  word1 = bit_and (shr payload 17) 0xffffffff;
  word2 = bit_and (shr payload 49) 0x7fff;
}

-- `resp_t`
pub record Response : Type 0 where
  pub len : ℕ
  pub payload : ℕ

-- `resp` for `top->RDDATA`.
unfoldable pub response : Words → Response
response w =
    let low = bit_and w.word0 0x3f in
    let len' = if low == 0 then 64 else low in
    let payload' =
      bit_or (bit_or (shr w.word0 6) (u64 (w.word1 * 2 ^ 26))) (bit_and w.word2 0x3f * 2 ^ 58) in
    record { len = len'; payload = shr payload' (64 - len') }

-- The data of the request that writes a DP register.
unfoldable pub dp_write_data : ℕ → ℕ → ℕ
dp_write_data addr payload = bit_or (u64 (payload * 2 ^ 3)) (bit_and (shr addr 1) 6)

-- The data of the requests that read a DP or AP register.
unfoldable pub read_data : ℕ → ℕ
read_data addr = bit_or (bit_and (shr addr 1) 6) 1

-- The data of the request that writes an AP register: the shift is in `uint32_t`.
unfoldable pub ap_write_data : ℕ → ℕ → ℕ
ap_write_data addr payload = bit_or (u32 (payload * 2 ^ 3)) (bit_and (shr addr 1) 6)

-- `addr | (ap << 24)`, an `int` converted to `uint32_t`.
unfoldable pub select_data : ℕ → ℕ → ℕ
select_data ap addr = bit_or addr (u32 (ap * 2 ^ 24))

-- Word `i` of an array.
unfoldable pub word_at : List ℕ → ℕ → ℕ
word_at [] i = 0
word_at (x ∷ xs) zero = x
word_at (x ∷ xs) (suc i) = word_at xs i

-- The values that `main` prints.
pub record Session : Type 0 where
  pub ir_lens : List (Option ℕ)
  pub device_counts : List (Option ℕ)
  pub idcode : ℕ
  pub ctrl_stat : ℕ
  pub idr : ℕ
  pub base : ℕ
  pub csw : ℕ

-- The operations of the bench, over a link to the PHY.
module _ {B : Type 0} (l : Link B Words Words) where
  -- `SendReq`
  unfoldable pub send_req : ℕ → ℕ → ℕ → Script B (Unit {0})
  send_req cmd len x = l.send (request_words cmd len x)

  -- `GetResp`
  unfoldable pub get_resp : Script B Response
  get_resp = do rddata ← l.receive; pure (response rddata)

  -- `n` responses' data.
  unfoldable pub get_resps : ℕ → Script B (List ℕ)
  get_resps zero = pure []
  get_resps (suc n) = do resp ← get_resp; rest ← get_resps n; pure (resp.payload ∷ rest)

  unfoldable pub device_count : Bool → Script B (Option ℕ)
  device_count stall = do
    send_req cmd_ir_write_auto max_ir_len (2 ^ 64 - 1)
    send_req cmd_dr_write_auto max_ir_len 0
    send_req cmd_dr_read max_ir_len 1
    repeat 5 (send_req cmd_dr_read max_ir_len 0xdeadbeefdeadbeef)
    first ← get_resp
    repeat (if stall then 182 else 181) l.idle
    rest ← get_resps 5
    defined (found_devices (word_at (first.payload ∷ rest)))

  unfoldable pub ir_len : Bool → Script B (Option ℕ)
  ir_len stall = do
    send_req cmd_ir_read 128 0x8000000000000000
    repeat (if stall then 68 else 67) l.idle
    send_req cmd_ir_read 128 1
    ir ← get_resps 2
    defined (found_ir_len (word_at ir))

  unfoldable pub dp_write : ℕ → ℕ → Script B (Unit {0})
  dp_write addr x = do send_req cmd_ir_write 4 0xA; send_req cmd_dr_write 35 (dp_write_data addr x)

  unfoldable pub dp_read : ℕ → Script B ℕ
  dp_read addr = do
    send_req cmd_ir_write 4 0xA
    send_req cmd_dr_read 35 (read_data addr)
    resp ← get_resp
    pure (bit_and (shr resp.payload 3) 0xffffffff)

  unfoldable pub ap_write : ℕ → ℕ → ℕ → Script B (Unit {0})
  ap_write ap addr x = do
    dp_write 8 (select_data ap addr)
    send_req cmd_ir_write 4 0xB
    send_req cmd_dr_write 35 (ap_write_data addr x)

  unfoldable pub ap_read : ℕ → ℕ → Script B ℕ
  ap_read ap addr = do
    dp_write 8 (select_data ap addr)
    send_req cmd_ir_write 4 0xB
    send_req cmd_dr_write 35 (read_data addr)
    dp_read 0xc

  -- `do { … } while ((data & (1 << 17)) == 0);`, on fuel.
  unfoldable pub halt : ℕ → Script B (Unit {0})
  halt zero = out_of_fuel
  halt (suc tries) = do
    ap_write 0 0xc 0xA05F0003
    dhcsr ← ap_read 0 0xc
    elim (bit_and dhcsr (2 ^ 17) == 0) [ true ↦ halt tries | false ↦ pure tt ]

  -- `main` between `Enable` and the padding at its end.
  unfoldable pub session : ℕ → Script B Session
  session tries = do
    send_req cmd_dr_write 0 0
    send_req cmd_ir_write 0 0
    len1 ← ir_len false
    len2 ← ir_len true
    count1 ← device_count false
    count2 ← device_count true
    send_req cmd_dr_write 0 0
    send_req cmd_dr_read 32 0
    resp ← get_resp
    dp_write 4 0x50000000
    ctrl_stat ← dp_read 4
    repeat 100 l.idle
    idr ← ap_read 0 0xfc
    base ← ap_read 0 0xf8
    csw ← ap_read 0 0
    ap_write 0 0 0xA2000002
    ap_write 0 4 0xE000EDF0
    halt tries
    pure (record {
      ir_lens = len1 ∷ len2 ∷ [];
      device_counts = count1 ∷ count2 ∷ [];
      idcode = u32 resp.payload;
      ctrl_stat = ctrl_stat;
      idr = idr;
      base = base;
      csw = csw;
    })
