-- ===== src/Tests/Switched.antt =====
-- A whole run of ahb3lite_remote_bridge2/bench/debug_mux_tb.cpp, on a design that serves a memory
-- behind its debug port and a JTAG chain behind the FIFOs of its PHY.
mod Design
mod Port
mod Chain
mod Reset
use mathlib.Core.Path.{subst}
use tinylabs_cores.Common.{
  ℕ, ◌^◌, ◌<◌, ◌≡◌, sym, Bool, true, false, Option, none, some, List, [], ◌++◌, if◌then◌else◌,
  if-both,
}
use tinylabs_cores.Queue.{list_queue}
use tinylabs_cores.Sim.{Clock, Services}
use tinylabs_cores.Rig.{World, Rig}
use tinylabs_cores.Rig.Ports.{rig_ports, on_top}
use tinylabs_cores.Rig.Reset.{Quiet, Free, after, after-Free, full_cycle-after}
use tinylabs_cores.Fifo.{Ports}
use tinylabs_cores.Fifo.Wait.{Falls, low, offered}
use tinylabs_cores.Fifo.Served.{Serves}
use tinylabs_cores.Phy.{Words}
use tinylabs_cores.Mux.{Top, adiv5_ports, jtag_ports, full_cycle}
use tinylabs_cores.Mux.Parts.{read_direct}
use tinylabs_cores.Mux.Main.{Switched, selecting, directing}
use tinylabs_cores.Tests.Sessions.{Kept, memory}
use tinylabs_cores.Tests.Switched.Design.{
  chain, Behind, Device, take_request, hand_reply, serve_phy, device, Levels, idle_top, Run, quiet,
  Going, rig, Holds, going, moved, next, word_ports, phy_ports, cycled, still, next-port, next-phy,
  Shape, shape,
}
use tinylabs_cores.Tests.Switched.Port.{PortRep, over_port}
use tinylabs_cores.Tests.Switched.Chain.{PhyRep, over_phy}
use tinylabs_cores.Rig.Launch.{new_rig, configured}
use tinylabs_cores.Tests.Powered.{host, settings, services}
use tinylabs_cores.Rig
use tinylabs_cores.Rig.Reset.{ResetPort}
use tinylabs_cores.Jtag.{Lines}
use tinylabs_cores.Adiv5.{
  Report, probe, request_word, dp_write, dp_read, ap_read, ap_write, halt, status, result,
  select as select_word,
}
use tinylabs_cores.Adiv5.Target.{target_access, target_read}
use tinylabs_cores.Fifo.Served.{target_link, target_put, target_get, target_idle}
use tinylabs_cores.Phy
use tinylabs_cores.Tests.Ends.{clock_at}
use tinylabs_cores.Tests.Cycles.{idle_services, no_words}

-- The bench between two sessions: no answer waits.
abbrev Rests : Run → Kept → Type 0
Rests b t = (jtag : Bool) × Holds false jtag b t [] []

lands : (o : Option Run) (x y : Run) → o ≡ some x → o ≡ some y → x ≡ y
lands o x y p q = cc

abbrev choose : Bool → Device → Device
choose = selecting list_queue device quiet 1 (λ jtag. memory) chain

abbrev turn_direct : Device → Device
turn_direct = directing list_queue device quiet 1 (λ jtag. memory) chain

selects :
    (jtag : Bool) (b b1 : Run) (t : Kept)
    → Rests b t
    → full_cycle list_queue device (on_top (choose jtag) b) ≡ some b1
    → PortRep jtag b1 (t, [])
selects jtag b b1 t (before, h) e =
    let (c, services, v, g, e1) = shape false before b t [] [] h in
    let g1 = moved (choose jtag) _ g in
    subst (λ b. Holds false jtag b t [] [])
      (lands _ _ _ (cycled _ g1)
        (subst (λ b. full_cycle list_queue device (on_top (choose jtag) b) ≡ some b1) (sym e1) e))
      (next-port jtag c services t [] v g1)

directs :
    (b b1 : Run) (t : Kept)
    → Rests b t
    → full_cycle list_queue device (on_top turn_direct b) ≡ some b1
    → PhyRep b1 (t, [])
directs b b1 t (jtag, h) e =
    let (c, services, v, g, e1) = shape false jtag b t [] [] h in
    let g1 = moved turn_direct _ g in
    (
      jtag,
      subst (λ b. Holds true jtag b t [] [])
          (lands _ _ _ (cycled _ g1)
            (subst (λ b. full_cycle list_queue device (on_top turn_direct b) ≡ some b1) (sym e1) e))
          (next-phy jtag c services t [] v g1),
    )

switched : Switched list_queue device quiet 1 (λ jtag. memory) chain
unfolding over_port over_phy
switched = record {
  over_adiv5 = over_port;
  over_phy = over_phy;
  Rests = Rests;
  free = λ b t (jtag, h). going false jtag b t [] [] h;
  rests = λ jtag b t h. (jtag, h);
  selects = selects;
  directs = directs;
  ends = λ b s (jtag, h). going true jtag b s.0 [] s.1 h;
}

abbrev levels : ℕ → Levels
levels n = record { wrdata = 0; rddata = 0; request = no_words; reply = no_words; reset_n = n }

abbrev new_top : Device
new_top = idle_top false true (7, 0) [] [] (levels 0)

abbrev begins : Run
begins = configured list_queue host settings (new_rig list_queue host new_top)

abbrev awake : Run
awake = rig (clock_at 40 0) services (idle_top false true (7, 0) [] [] (levels 1))

at_last : Option (Unit {0} × Run) → Run
at_last none = begins
at_last (some (_, b)) = b
