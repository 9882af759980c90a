-- ===== src/Mux.antt =====
-- ahb3lite_remote_bridge2/bench/debug_mux_tb.cpp: the bench of the debug port of the bridge that can
-- be switched between SWD, JTAG, and the FIFOs of the JTAG PHY itself, on what it shares with the
-- other benches (Rig, Fifo, Adiv5, Phy). The verilated design is the argument `world`. The lines that
-- print are left out; the values that they print are the result of `main`.
pub mod Select
pub mod Parts
pub mod Main
use tinylabs_cores.Common.{
  ℕ, ◌*◌, Bool, true, false, not, Option, List, [], ◌∷◌, u32, if◌then◌else◌,
}
use tinylabs_cores.Queue.{ByteQueue}
use tinylabs_cores.Script.{Script, ◌>>=◌, ◌>>◌, pure, modify, step, repeat}
use tinylabs_cores.Sim.Options.{Parsed}
use tinylabs_cores.Rig.Launch.{Host, launched, launch}
use tinylabs_cores.Rig
use tinylabs_cores.Rig.{Rig, Wiring, World, reset_time}
use tinylabs_cores.Rig.Ports.{TopPorts, on_top, rig_ports}
use tinylabs_cores.Fifo.{bench_link}
use tinylabs_cores.Phy
use tinylabs_cores.Phy.{Words, Response, cmd_dr_write, cmd_ir_write, cmd_dr_read}
use tinylabs_cores.Adiv5
use tinylabs_cores.Adiv5.{Access, Report, bench_access}

-- The ports of the design that the bench uses, and what else the design keeps.
pub record Top (Inside : Type 0) : Type 0 where
  pub inside : Inside
  pub reset_n : ℕ
  pub clk : Bool
  pub phy_clk : Bool
  pub phy_clkn : Bool
  pub jtag_direct : Bool
  pub jtagnswd : Bool
  pub adiv5_wren : Bool
  pub adiv5_wrdata : ℕ
  pub adiv5_wrfull : Bool
  pub adiv5_rden : Bool
  pub adiv5_rdempty : Bool
  pub adiv5_rddata : ℕ
  pub jtag_wren : Bool
  pub jtag_wrdata : Words
  pub jtag_wrfull : Bool
  pub jtag_rden : Bool
  pub jtag_rdempty : Bool
  pub jtag_rddata : Words
  pub tck : ℕ
  pub tdi : ℕ
  pub tdo : ℕ
  pub tmsoe : Bool
  pub tmsout : ℕ
  pub tmsin : ℕ

-- What `_doCycle` does to the ports.
unfoldable pub wiring : {Inside : Type 0} → Wiring (Top Inside)
wiring = record {
  set_reset_n = λ level top. record top { reset_n = level };
  flip_clocks = λ top. record top {
    clk = not top.clk;
    phy_clk = not top.phy_clk;
    phy_clkn = not (not top.phy_clk);
  };
  tck = λ top. top.tck;
  tdi = λ top. top.tdi;
  tmsoe = λ top. top.tmsoe;
  lines = λ top. record { tdo = top.tdo; tms = if top.tmsoe then top.tmsout else top.tmsin };
  set_lines = λ l top.
      if top.tmsoe
      then record top { tdo = l.tdo; tmsout = l.tms }
      else record top { tdo = l.tdo; tmsin = l.tms };
}

-- The FIFOs of the debug port, and of the JTAG PHY.
unfoldable pub adiv5_ports : {Inside : Type 0} → TopPorts (Top Inside) ℕ ℕ
adiv5_ports = record {
  wrfull = λ top. top.adiv5_wrfull;
  set_wrdata = λ x top. record top { adiv5_wrdata = x };
  set_wren = λ on top. record top { adiv5_wren = on };
  rdempty = λ top. top.adiv5_rdempty;
  rddata = λ top. top.adiv5_rddata;
  set_rden = λ on top. record top { adiv5_rden = on };
}

unfoldable pub jtag_ports : {Inside : Type 0} → TopPorts (Top Inside) Words Words
jtag_ports = record {
  wrfull = λ top. top.jtag_wrfull;
  set_wrdata = λ x top. record top { jtag_wrdata = x };
  set_wren = λ on top. record top { jtag_wren = on };
  rdempty = λ top. top.jtag_rdempty;
  rddata = λ top. top.jtag_rddata;
  set_rden = λ on top. record top { jtag_rden = on };
}

module _ (K : ByteQueue) {Inside : Type 0} (world : World (Top Inside)) where
  abbrev pub Bench : Type 0
  Bench = Rig K (Top Inside)

  -- `_doCycle`
  unfoldable pub half_cycle : Bench → Option Bench
  half_cycle = Rig.half_cycle K (Top Inside) wiring world

  -- `doCycle`
  unfoldable pub full_cycle : Bench → Option Bench
  full_cycle = Rig.full_cycle K (Top Inside) wiring world

  -- `done = true;`
  abbrev pub bail : Bench → Bench
  bail b = record b { done = true }

  module _ (fuel : ℕ) where
    -- `JTAGReq`
    unfoldable pub jtag_req : ℕ → ℕ → ℕ → Script Bench (Unit {0})
    jtag_req = Phy.send_req (bench_link (rig_ports wiring world jtag_ports) fuel)

    -- `JTAGResp`
    unfoldable pub jtag_resp : Script Bench Response
    jtag_resp = Phy.get_resp (bench_link (rig_ports wiring world jtag_ports) fuel)

    -- `write`
    unfoldable pub write : ℕ → Bool → Bool → ℕ → Script Bench (Unit {0})
    write = Adiv5.write (rig_ports wiring world adiv5_ports) fuel

    -- `read`
    unfoldable pub read : Script Bench ℕ
    read = Adiv5.read (rig_ports wiring world adiv5_ports) bail fuel

    unfoldable pub access : Access Bench
    access = bench_access (rig_ports wiring world adiv5_ports) bail fuel

    unfoldable pub dp_write : ℕ → ℕ → Script Bench (Unit {0})
    dp_write = Adiv5.dp_write access

    unfoldable pub dp_read : ℕ → Script Bench ℕ
    dp_read = Adiv5.dp_read access

    unfoldable pub ap_read : ℕ → ℕ → Script Bench ℕ
    ap_read = Adiv5.ap_read access

    unfoldable pub ap_write : ℕ → ℕ → ℕ → Script Bench (Unit {0})
    ap_write = Adiv5.ap_write access

    -- `test_if`, with `tries` passes at most of the loop that halts the processor.
    unfoldable pub test_if : ℕ → Bool → Script Bench Report
    test_if tries jtag = do
      modify (on_top (λ top. record top { jtag_direct = false }))
      modify (on_top (λ top. record top { jtagnswd = jtag }))
      step full_cycle
      report ← Adiv5.probe access tries
      repeat 100 (step full_cycle)
      pure report

    -- `JTAG_Direct`
    unfoldable pub jtag_direct : Script Bench ℕ
    jtag_direct = do
      modify (on_top (λ top. record top { jtag_direct = true }))
      step full_cycle
      jtag_req cmd_dr_write 0 0
      jtag_req cmd_ir_write 0 0
      jtag_req cmd_dr_read 32 0
      resp ← jtag_resp
      pure (u32 resp.payload)

    -- `main`
    unfoldable pub main : ℕ → Script Bench (List Report × ℕ)
    main tries = do
      repeat (reset_time * 2) (step full_cycle)
      swd ← test_if tries false
      jtag ← test_if tries true
      swd_again ← test_if tries false
      idcode ← jtag_direct
      repeat 20 (step full_cycle)
      pure (swd ∷ jtag ∷ swd_again ∷ [], idcode)

    -- `parse_args` on a new bench.
    unfoldable pub prepared : (host : Host K) → List (Parsed host.Text) → Top Inside → Option Bench
    prepared host os top = launched K host os top

    -- The program up to `delete dut`, on the options that argp finds and a new design.
    unfoldable pub program :
        (host : Host K) (tries : ℕ)
        → List (Parsed host.Text)
        → Top Inside
        → Option ((List Report × ℕ) × Bench)
    program host tries os top = launch K host (prepared host os top) (main tries)
