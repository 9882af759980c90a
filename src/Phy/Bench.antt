-- ===== src/Phy/Bench.antt =====
-- The class of ahb3lite_remote_bridge2/bench/jtag_phy_tb.cpp and its main program. The verilated
-- design is the argument `world`.
use tinylabs_cores.Common.{ℕ, ◌*◌, Bool, true, false, not, Option, List}
use tinylabs_cores.Queue.{ByteQueue}
use tinylabs_cores.Script.{Script, ◌>>=◌, ◌>>◌, pure, modify, step, repeat}
use tinylabs_cores.Sim.Options.{Parsed}
use tinylabs_cores.Rig.Launch.{Host, launched, launch}
use tinylabs_cores.Rig
use tinylabs_cores.Rig.{Rig, Wiring, World, reset_time}
use tinylabs_cores.Rig.Ports.{TopPorts, on_top, rig_ports}
use tinylabs_cores.Fifo.{Ports, Link, bench_link}
use tinylabs_cores.Phy.{Words, Session, session}

-- The ports of the design that the bench uses, and what else the design keeps.
pub record Top (Inside : Type 0) : Type 0 where
  pub inside : Inside
  pub reset_n : ℕ
  pub clk : Bool
  pub phy_clk : Bool
  pub enable : Bool
  pub wren : Bool
  pub wrdata : Words
  pub wrfull : Bool
  pub rden : Bool
  pub rdempty : Bool
  pub rddata : Words
  pub tck : ℕ
  pub tdi : ℕ
  pub tdo : ℕ
  pub tms : ℕ

-- What `_doCycle` does to the ports.
unfoldable pub wiring : {Inside : Type 0} → Wiring (Top Inside)
wiring = record {
  set_reset_n = λ level top. record top { reset_n = level };
  flip_clocks = λ top. record top { clk = not top.clk; phy_clk = not top.phy_clk };
  tck = λ top. top.tck;
  tdi = λ top. top.tdi;
  tmsoe = λ top. true;
  lines = λ top. record { tdo = top.tdo; tms = top.tms };
  set_lines = λ l top. record top { tdo = l.tdo; tms = l.tms };
}

unfoldable pub top_ports : {Inside : Type 0} → TopPorts (Top Inside) Words Words
top_ports = record {
  wrfull = λ top. top.wrfull;
  set_wrdata = λ x top. record top { wrdata = x };
  set_wren = λ on top. record top { wren = on };
  rdempty = λ top. top.rdempty;
  rddata = λ top. top.rddata;
  set_rden = λ on top. record top { rden = on };
}

module _ (K : ByteQueue) {Inside : Type 0} (world : World (Top Inside)) where
  abbrev pub Bench : Type 0
  Bench = Rig K (Top Inside)

  -- `_doCycle`
  unfoldable pub half_cycle : Bench → Option Bench
  half_cycle = Rig.half_cycle K (Top Inside) wiring world

  -- `doCycle`
  unfoldable pub full_cycle : Bench → Option Bench
  full_cycle = Rig.full_cycle K (Top Inside) wiring world

  -- `Enable` and `Disable`
  unfoldable pub set_enable : Bool → Script Bench (Unit {0})
  set_enable on = do modify (on_top (λ top. record top { enable = on })); step full_cycle

  -- The two FIFOs.
  unfoldable pub ports : Ports Bench Words Words
  ports = rig_ports wiring world top_ports

  unfoldable pub link : ℕ → Link Bench Words Words
  link fuel = bench_link ports fuel

  -- `main`, with `tries` passes at most of the loop that halts the processor.
  unfoldable pub main : ℕ → ℕ → Script Bench Session
  main fuel tries = do
    repeat (reset_time * 2) (step full_cycle)
    set_enable true
    values ← session (link fuel) tries
    repeat 100 (step full_cycle)
    set_enable false
    repeat 20 (step full_cycle)
    pure values

  -- `parse_args` on a new bench.
  unfoldable pub prepared : (host : Host K) → List (Parsed host.Text) → Top Inside → Option Bench
  prepared host os top = launched K host os top

  -- The program up to `delete dut`, on the options that argp finds and a new design.
  unfoldable pub program :
      (host : Host K) (fuel tries : ℕ)
      → List (Parsed host.Text)
      → Top Inside
      → Option (Session × Bench)
  program host fuel tries os top = launch K host (prepared host os top) (main fuel tries)
