-- ===== src/Adiv5.antt =====
-- How the benches of ahb3lite_remote_bridge2/bench reach the registers of a debug port and its
-- access ports (ADIv5) through a pair of FIFOs. (The code is repeated in swd_adiv5_tb.cpp,
-- jtag_adiv5_tb.cpp and debug_mux_tb.cpp; the lines are those of the first.) The lines that print
-- are left out; the values that they print are the result of `probe`.
pub mod Words
pub mod Registers
pub mod Port
pub mod Target
pub mod Session
pub mod Fails
use tinylabs_cores.Common.{
  ℕ, zero, suc, ◌*◌, ◌^◌, Bool, true, false, Option, none, some, bit_and, bit_or, ◌==◌,
  if◌then◌else◌, u32, u64, shr,
}
use tinylabs_cores.Script.{Script, ◌>>=◌, ◌>>◌, pure, modify, gets, step, repeat, out_of_fuel}
use tinylabs_cores.Fifo.{Ports, put, get}

-- `OK`, of `stat_t`
abbrev pub ok : ℕ
ok = 4

-- `top->WRDATA` for a request.
unfoldable pub request_word : ℕ → Bool → Bool → ℕ → ℕ
request_word addr apndp rnw x =
    let w0 = bit_or (u64 (x * 2 ^ 4)) (bit_and addr 3 * 2 ^ 2) in
    let w1 = if apndp then bit_or w0 2 else w0 in if rnw then bit_or w1 1 else w1

-- The status and the value of `top->RDDATA`.
abbrev pub status : ℕ → ℕ
status rddata = bit_and rddata 7

abbrev pub result : ℕ → ℕ
result rddata = bit_and (shr rddata 3) 0xffffffff

-- `(addr >> 2) & 3`
abbrev pub word_addr : ℕ → ℕ
word_addr addr = bit_and (shr addr 2) 3

-- `(apsel << 24) | addr`, an `int` converted to `uint32_t`.
unfoldable pub select : ℕ → ℕ → ℕ
select apsel addr = bit_or (u32 (apsel * 2 ^ 24)) addr

-- `write` and `read` of a bench with the two FIFOs, whose static `done` is set by the last argument.
unfoldable pub write : {B : Type 0} → Ports B ℕ ℕ → ℕ → ℕ → Bool → Bool → ℕ → Script B (Unit {0})
write p fuel addr apndp rnw x = put p fuel (request_word addr apndp rnw x)

-- The test of the response: a status other than `OK` sets `done`, after 100 cycles.
unfoldable pub check : {B : Type 0} → Ports B ℕ ℕ → (B → B) → ℕ → Script B (Unit {0})
check p bail rddata =
    if status rddata == ok then pure tt else (do repeat 100 (step p.cycle); modify bail)

unfoldable pub read : {B : Type 0} → Ports B ℕ ℕ → (B → B) → ℕ → Script B ℕ
read p bail fuel = do rddata ← get p fuel; check p bail rddata; gets (λ b. result (p.rddata b))

-- What the register operations use of a bench.
pub record Access (B : Type 0) : Type 0 where
  pub send : ℕ → Bool → Bool → ℕ → Script B (Unit {0})
  pub receive : Script B ℕ
  pub idle : Script B (Unit {0})

unfoldable pub bench_access : {B : Type 0} → Ports B ℕ ℕ → (B → B) → ℕ → Access B
bench_access p bail fuel = record {
  send = write p fuel;
  receive = read p bail fuel;
  idle = step p.cycle;
}

-- The values that a session prints.
pub record Report : Type 0 where
  pub idcode : ℕ
  pub ctrl_stat : ℕ
  pub idr : ℕ
  pub base : ℕ
  pub ram_ok : Bool

module _ {B : Type 0} (a : Access B) where
  open a use {send, receive, idle}

  unfoldable pub dp_write : ℕ → ℕ → Script B (Unit {0})
  dp_write addr x = do
    send (word_addr addr) false false x
    if addr == 0xc then pure tt else (receive >>= λ _. pure tt)

  unfoldable pub dp_read : ℕ → Script B ℕ
  dp_read addr = do send (word_addr addr) false true 0; receive

  unfoldable pub ap_read : ℕ → ℕ → Script B ℕ
  ap_read apsel addr = do
    send 2 false false (select apsel addr)
    _ ← receive
    send (word_addr addr) true true 0
    receive

  unfoldable pub ap_write : ℕ → ℕ → ℕ → Script B (Unit {0})
  ap_write apsel addr x = do
    send 2 false false (select apsel addr)
    _ ← receive
    send (word_addr addr) true false x
    _ ← receive
    pure tt

  -- `do { … } while ((ap_read (0, 0xc) & (1 << 17)) == 0);`, on fuel.
  unfoldable pub halt : ℕ → Script B (Unit {0})
  halt zero = out_of_fuel
  halt (suc tries) = do
    ap_write 0 0xc 0xA05F0003
    dhcsr ← ap_read 0 0xc
    elim (bit_and dhcsr (2 ^ 17) == 0) [ true ↦ halt tries | false ↦ pure tt ]

  -- From the reset of the port to the end of the RAM test.
  unfoldable pub probe : ℕ → Script B Report
  probe tries = do
    dp_write 0xc 0
    dp_write 0xc 1
    idcode ← dp_read 0
    dp_write 4 0x50000000
    ctrl_stat ← dp_read 4
    idr ← ap_read 0 0xfc
    base ← ap_read 0 0xf8
    ap_write 0 0 0xA2000002
    ap_write 0 4 0xE000EDF0
    halt tries
    ap_write 0 4 0x20000000
    ap_write 0 0xc 0xdeadc0de
    word ← ap_read 0 0xc
    pure (record {
      idcode = idcode;
      ctrl_stat = ctrl_stat;
      idr = idr;
      base = base;
      ram_ok = word == 0xdeadc0de;
    })
