-- ===== src/Swd/Bench.antt =====
-- The class of ahb3lite_remote_bridge2/bench/swd_phy_tb.cpp and its main program, on what it shares
-- with the other benches (Rig, Fifo). The verilated design is the argument `world`. The lines that
-- print are left out; the responses that they print are the result of `main`.
use tinylabs_cores.Common.{
  ℕ, ◌*◌, Bool, true, false, not, Option, List, [], ◌∷◌, bit_and, if◌then◌else◌,
}
use tinylabs_cores.Queue.{ByteQueue}
use tinylabs_cores.Script.{Script, ◌>>=◌, ◌>>◌, pure, modify, step, repeat, defined}
use tinylabs_cores.Sim.Options.{Parsed}
use tinylabs_cores.Rig.Launch.{Host, launched, launch}
use tinylabs_cores.Rig
use tinylabs_cores.Rig.{Rig, Wiring, World, reset_time}
use tinylabs_cores.Rig.Ports.{TopPorts, on_top, rig_ports}
use tinylabs_cores.Fifo.{Ports, Link, bench_link}
use tinylabs_cores.Phy.{Words}
use tinylabs_cores.Swd.{SwdResponse, swd_request_words, swd_response, reg_read, reg_write}

-- What the bench does over a link to the PHY.
module _ {B : Type 0} (l : Link B Words ℕ) where
  -- `SendReq`
  unfoldable pub send_req : ℕ → ℕ → ℕ → ℕ → Script B (Unit {0})
  send_req len t0 t1 so = l.send (swd_request_words len t0 t1 so)

  -- `GetResp`
  unfoldable pub get_resp : Script B SwdResponse
  get_resp = do rddata ← l.receive; pure (swd_response rddata)

  -- Three responses.
  unfoldable pub get_three : Script B (List SwdResponse)
  get_three = do
    first ← get_resp
    second ← get_resp
    third ← get_resp
    pure (first ∷ second ∷ third ∷ [])

  -- A request that reads, and one that writes, a register.
  abbrev pub ask : Bool → ℕ → Script B (Unit {0})
  ask apndp addr = send_req 46 8 45 (reg_read apndp addr)

  unfoldable pub tell : Bool → ℕ → ℕ → Script B (Unit {0})
  tell apndp addr x = do so ← defined (reg_write 32 apndp addr x); send_req 46 8 12 so

  -- `main` between `Enable` and `Disable`.
  unfoldable pub session : Script B (List SwdResponse × List SwdResponse)
  session = do
    send_req 60 64 64 0x0fffffffffffffff
    send_req 16 64 64 0xe79e
    send_req 62 64 64 0x003fffffffffffff
    ask false 0
    tell false 4 0x50000000
    ask false 4
    of_dp ← get_three
    tell false 8 0xfc
    ask true (bit_and 0xfc 0xc)
    ask false 0xc
    of_ap ← get_three
    pure (of_dp, of_ap)

-- The ports of the design that the bench uses, and what else the design keeps.
pub record Top (Inside : Type 0) : Type 0 where
  pub inside : Inside
  pub reset_n : ℕ
  pub clk : Bool
  pub phy_clk : Bool
  pub enable : Bool
  pub wren : Bool
  pub wrdata : Words
  pub wrfull : Bool
  pub rden : Bool
  pub rdempty : Bool
  pub rddata : ℕ
  pub swdclk : ℕ
  pub swdoe : Bool
  pub swdout : ℕ
  pub swdin : ℕ

-- What `_doCycle` does to the ports. The TDO of the client is a local of `_doCycle`.
unfoldable pub wiring : {Inside : Type 0} → Wiring (Top Inside)
wiring = record {
  set_reset_n = λ level top. record top { reset_n = level };
  flip_clocks = λ top. record top { clk = not top.clk; phy_clk = not top.phy_clk };
  tck = λ top. top.swdclk;
  tdi = λ top. 0;
  tmsoe = λ top. top.swdoe;
  lines = λ top. record { tdo = 0; tms = if top.swdoe then top.swdout else top.swdin };
  set_lines =
      λ l top. if top.swdoe then record top { swdout = l.tms } else record top { swdin = l.tms };
}

unfoldable pub top_ports : {Inside : Type 0} → TopPorts (Top Inside) Words ℕ
top_ports = record {
  wrfull = λ top. top.wrfull;
  set_wrdata = λ x top. record top { wrdata = x };
  set_wren = λ on top. record top { wren = on };
  rdempty = λ top. top.rdempty;
  rddata = λ top. top.rddata;
  set_rden = λ on top. record top { rden = on };
}

module _ (K : ByteQueue) {Inside : Type 0} (world : World (Top Inside)) where
  abbrev pub Bench : Type 0
  Bench = Rig K (Top Inside)

  -- `_doCycle`
  unfoldable pub half_cycle : Bench → Option Bench
  half_cycle = Rig.half_cycle K (Top Inside) wiring world

  -- `doCycle`
  unfoldable pub full_cycle : Bench → Option Bench
  full_cycle = Rig.full_cycle K (Top Inside) wiring world

  -- `Enable` and `Disable`
  unfoldable pub set_enable : Bool → Script Bench (Unit {0})
  set_enable on = do modify (on_top (λ top. record top { enable = on })); step full_cycle

  -- The two FIFOs.
  unfoldable pub ports : Ports Bench Words ℕ
  ports = rig_ports wiring world top_ports

  unfoldable pub link : ℕ → Link Bench Words ℕ
  link fuel = bench_link ports fuel

  -- `main`
  unfoldable pub main : ℕ → Script Bench (List SwdResponse × List SwdResponse)
  main fuel = do
    repeat (reset_time * 2) (step full_cycle)
    set_enable true
    responses ← session (link fuel)
    set_enable false
    repeat 20 (step full_cycle)
    pure responses

  -- `parse_args` on a new bench.
  unfoldable pub prepared : (host : Host K) → List (Parsed host.Text) → Top Inside → Option Bench
  prepared host os top = launched K host os top

  -- The program up to `delete dut`, on the options that argp finds and a new design.
  unfoldable pub program :
      (host : Host K) (fuel : ℕ)
      → List (Parsed host.Text)
      → Top Inside
      → Option ((List SwdResponse × List SwdResponse) × Bench)
  program host fuel os top = launch K host (prepared host os top) (main fuel)
