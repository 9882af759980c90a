-- ===== src/Rig/Ports.antt =====
-- The ports of a FIFO pair of a design, seen from a bench of ahb3lite_remote_bridge2/bench.
use tinylabs_cores.Common.{Bool}
use tinylabs_cores.Queue.{ByteQueue}
use tinylabs_cores.Rig.{Rig, Wiring, World, full_cycle}
use tinylabs_cores.Fifo.{Ports}

pub record TopPorts (Top W R : Type 0) : Type 0 where
  pub wrfull : Top → Bool
  pub set_wrdata : W → Top → Top
  pub set_wren : Bool → Top → Top
  pub rdempty : Top → Bool
  pub rddata : Top → R
  pub set_rden : Bool → Top → Top

module _ {K : ByteQueue} {Top : Type 0} where
  abbrev pub on_top : (Top → Top) → Rig K Top → Rig K Top
  on_top f b = record b { top = f b.top }

  unfoldable pub rig_ports :
      {W R : Type 0} → Wiring Top → World Top → TopPorts Top W R → Ports (Rig K Top) W R
  rig_ports wiring world p = record {
    cycle = full_cycle K Top wiring world;
    wrfull = λ b. p.wrfull b.top;
    set_wrdata = λ w. on_top (p.set_wrdata w);
    set_wren = λ on. on_top (p.set_wren on);
    rdempty = λ b. p.rdempty b.top;
    rddata = λ b. p.rddata b.top;
    set_rden = λ on. on_top (p.set_rden on);
  }
