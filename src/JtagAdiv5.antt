-- ===== src/JtagAdiv5.antt =====
-- ahb3lite_remote_bridge2/bench/jtag_adiv5_tb.cpp: the bench of the JTAG debug port of
-- the bridge, on what it shares with its twins (Rig, Fifo, Adiv5). The verilated design is the
-- argument `world`.
use tinylabs_cores.Common.{ℕ, ◌*◌, Bool, true, false, not, Option, List}
use tinylabs_cores.Queue.{ByteQueue}
use tinylabs_cores.Script.{Script, ◌>>=◌, ◌>>◌, pure, modify, step, repeat}
use tinylabs_cores.Sim.Options.{Parsed}
use tinylabs_cores.Rig.Launch.{Host, launched, launch}
use tinylabs_cores.Rig
use tinylabs_cores.Rig.{Rig, Wiring, World, reset_time}
use tinylabs_cores.Rig.Ports.{TopPorts, on_top, rig_ports}
use tinylabs_cores.Fifo.{Ports}
use tinylabs_cores.Adiv5
use tinylabs_cores.Adiv5.{Access, Report, bench_access}

-- The ports of the design that the bench uses, and what else the design keeps.
pub record Top (Inside : Type 0) : Type 0 where
  pub inside : Inside
  pub reset_n : ℕ
  pub clk : Bool
  pub phy_clk : Bool
  pub enable : Bool
  pub wren : Bool
  pub wrdata : ℕ
  pub wrfull : Bool
  pub rden : Bool
  pub rdempty : Bool
  pub rddata : ℕ
  pub tck : ℕ
  pub tdi : ℕ
  pub tdo : ℕ
  pub tms : ℕ

-- What `_doCycle` does to the ports.
unfoldable pub wiring : {Inside : Type 0} → Wiring (Top Inside)
wiring = record {
  set_reset_n = λ level top. record top { reset_n = level };
  flip_clocks = λ top. record top { clk = not top.clk; phy_clk = not top.phy_clk };
  tck = λ top. top.tck;
  tdi = λ top. top.tdi;
  tmsoe = λ top. true;
  lines = λ top. record { tdo = top.tdo; tms = top.tms };
  set_lines = λ l top. record top { tdo = l.tdo; tms = l.tms };
}

unfoldable pub top_ports : {Inside : Type 0} → TopPorts (Top Inside) ℕ ℕ
top_ports = record {
  wrfull = λ top. top.wrfull;
  set_wrdata = λ x top. record top { wrdata = x };
  set_wren = λ on top. record top { wren = on };
  rdempty = λ top. top.rdempty;
  rddata = λ top. top.rddata;
  set_rden = λ on top. record top { rden = on };
}

module _ (K : ByteQueue) {Inside : Type 0} (world : World (Top Inside)) where
  abbrev pub Bench : Type 0
  Bench = Rig K (Top Inside)

  -- `_doCycle`
  unfoldable pub half_cycle : Bench → Option Bench
  half_cycle = Rig.half_cycle K (Top Inside) wiring world

  -- `doCycle`
  unfoldable pub full_cycle : Bench → Option Bench
  full_cycle = Rig.full_cycle K (Top Inside) wiring world

  -- `Enable` and `Disable`
  unfoldable pub set_enable : Bool → Script Bench (Unit {0})
  set_enable on = do modify (on_top (λ top. record top { enable = on })); step full_cycle

  -- The two FIFOs.
  unfoldable pub ports : Ports Bench ℕ ℕ
  ports = rig_ports wiring world top_ports

  -- `done = true;`
  abbrev pub bail : Bench → Bench
  bail b = record b { done = true }

  module _ (fuel : ℕ) where
    -- `write`
    unfoldable pub write : ℕ → Bool → Bool → ℕ → Script Bench (Unit {0})
    write = Adiv5.write ports fuel

    -- `read`
    unfoldable pub read : Script Bench ℕ
    read = Adiv5.read ports bail fuel

    unfoldable pub access : Access Bench
    access = bench_access ports bail fuel

    unfoldable pub dp_write : ℕ → ℕ → Script Bench (Unit {0})
    dp_write = Adiv5.dp_write access

    unfoldable pub dp_read : ℕ → Script Bench ℕ
    dp_read = Adiv5.dp_read access

    unfoldable pub ap_read : ℕ → ℕ → Script Bench ℕ
    ap_read = Adiv5.ap_read access

    unfoldable pub ap_write : ℕ → ℕ → ℕ → Script Bench (Unit {0})
    ap_write = Adiv5.ap_write access

    -- `main`, with `tries` passes at most of the loop that halts the processor.
    unfoldable pub main : ℕ → Script Bench Report
    main tries = do
      repeat (reset_time * 2) (step full_cycle)
      set_enable true
      report ← Adiv5.probe access tries
      repeat 200 (step full_cycle)
      set_enable false
      repeat 20 (step full_cycle)
      pure report

    -- `parse_args` on a new bench.
    unfoldable pub prepared : (host : Host K) → List (Parsed host.Text) → Top Inside → Option Bench
    prepared host os top = launched K host os top

    -- The program up to `delete dut`, on the options that argp finds and a new design.
    unfoldable pub program :
        (host : Host K) (tries : ℕ) → List (Parsed host.Text) → Top Inside → Option (Report × Bench)
    program host tries os top = launch K host (prepared host os top) (main tries)
