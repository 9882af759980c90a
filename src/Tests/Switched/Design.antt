-- ===== src/Tests/Switched/Design.antt =====
-- A design for ahb3lite_remote_bridge2/bench/debug_mux_tb.cpp.
use tinylabs_cores.Common.{
  ℕ, ◌≡◌, refl, Bool, true, false, none, some, List, [], ◌∷◌, ◌++◌, if◌then◌else◌, bit_and, ◌==◌,
}
use tinylabs_cores.Queue.{list_queue}
use tinylabs_cores.Sim.{Clock, Services}
use tinylabs_cores.Rig.{World, Rig}
use tinylabs_cores.Rig.Ports.{rig_ports, on_top}
use tinylabs_cores.Rig.Reset.{Quiet, Free, after, after-Free, full_cycle-after}
use tinylabs_cores.Fifo.{Ports}
use tinylabs_cores.Fifo.Served.{Target}
use tinylabs_cores.Mux.Parts.{value_response}
use tinylabs_cores.Phy.{Words}
use tinylabs_cores.Mux.{Top, wiring, adiv5_ports, jtag_ports, full_cycle}
use tinylabs_cores.Tests.Sessions.{Kept, memory}

-- A chain that answers each read of DR with the identification of 32 bits.
abbrev pub chain : Target Kept Words Words
chain w t = (t, if bit_and w.word0 1 == 0 then [] else value_response 0x4ba00477 ∷ [])

-- The state of the targets, and the answers that wait in each read FIFO.
pub record Behind : Type 0 where
  pub kept : Kept
  pub answers : List ℕ
  pub replies : List Words

abbrev pub Device : Type 0
Device = Top Behind

unfoldable pub is_empty {ℓ} : {A : Type ℓ} → List A → Bool
is_empty [] = true
is_empty (x ∷ xs) = false

-- The FIFOs of the debug port.

unfoldable pub take_word : Device → Device
take_word top =
    if top.adiv5_wren
    then (let (t, new) = memory top.adiv5_wrdata top.inside.kept in
        record top {
          inside = record (top.inside) { kept = t; answers = top.inside.answers ++ new };
        })
    else top

unfoldable pub hand_word : List ℕ → Device → Device
hand_word [] top = top
hand_word (x ∷ xs) top = record top {
  inside = record (top.inside) { answers = xs };
  adiv5_rddata = x;
}

unfoldable pub serve_port : Device → Device
serve_port top =
    let taken = take_word top in
    let handed = if taken.adiv5_rden then hand_word taken.inside.answers taken else taken in
    record handed { adiv5_rdempty = is_empty handed.inside.answers }

-- The FIFOs of the JTAG PHY.

unfoldable pub take_request : Device → Device
take_request top =
    if top.jtag_wren
    then (let (t, new) = chain top.jtag_wrdata top.inside.kept in
        record top {
          inside = record (top.inside) { kept = t; replies = top.inside.replies ++ new };
        })
    else top

unfoldable pub hand_reply : List Words → Device → Device
hand_reply [] top = top
hand_reply (x ∷ xs) top = record top {
  inside = record (top.inside) { replies = xs };
  jtag_rddata = x;
}

unfoldable pub serve_phy : Device → Device
serve_phy top =
    let taken = take_request top in
    let handed = if taken.jtag_rden then hand_reply taken.inside.replies taken else taken in
    record handed { jtag_rdempty = is_empty handed.inside.replies }

-- While its clock is low, the design serves the FIFOs that are selected.
unfoldable pub device : World Device
device = record {
  eval = λ top. if top.clk then top else if top.jtag_direct then serve_phy top else serve_port top;
  finished = λ t. false;
  interrupted = λ t. false;
  socket = λ t. record { first_write = true; second_write = true; reply = none };
}

-- What stands at the data ports, and the level of the reset.
pub record Levels : Type 0 where
  pub wrdata : ℕ
  pub rddata : ℕ
  pub request : Words
  pub reply : Words
  pub reset_n : ℕ

abbrev pub idle_top : Bool → Bool → Kept → List ℕ → List Words → Levels → Device
idle_top phy jtag t xs ys v = record {
  inside = record { kept = t; answers = xs; replies = ys };
  reset_n = v.reset_n;
  clk = false;
  phy_clk = false;
  phy_clkn = true;
  jtag_direct = phy;
  jtagnswd = jtag;
  adiv5_wren = false;
  adiv5_wrdata = v.wrdata;
  adiv5_wrfull = false;
  adiv5_rden = false;
  adiv5_rdempty = is_empty xs;
  adiv5_rddata = v.rddata;
  jtag_wren = false;
  jtag_wrdata = v.request;
  jtag_wrfull = false;
  jtag_rden = false;
  jtag_rdempty = is_empty ys;
  jtag_rddata = v.reply;
  tck = 0;
  tdi = 0;
  tdo = 0;
  tmsoe = false;
  tmsout = 0;
  tmsin = 0;
}

abbrev pub Run : Type 0
Run = Rig list_queue Device

pub quiet : Quiet device
unfolding device
quiet = record { unfinished = λ t. refl; uninterrupted = λ t. refl }

abbrev pub Going : Run → Type 0
Going b = Free list_queue Device wiring device quiet b

abbrev pub rig : Clock → Services list_queue → Device → Run
rig c services top = record { clock = c; services = services; done = false; top = top }

pub data Holds (phy jtag : Bool) : Run → Kept → List ℕ → List Words → Type 0 where
  held :
      (c : Clock) (services : Services list_queue) (t : Kept) (xs : List ℕ) (ys : List Words)
      (v : Levels)
      → Going (rig c services (idle_top phy jtag t xs ys v))
      → Holds phy jtag (rig c services (idle_top phy jtag t xs ys v)) t xs ys

pub moved : (f : Device → Device) (b : Run) → Going b → Going (on_top f b)
moved f b g = record { no_timeout = g.no_timeout; not_done = g.not_done; no_client = g.no_client }

abbrev pub next : Run → Run
next b = after list_queue Device wiring device quiet (after list_queue Device wiring device quiet b)

abbrev pub word_ports : Ports Run ℕ ℕ
word_ports = rig_ports wiring device adiv5_ports

abbrev pub phy_ports : Ports Run Words Words
phy_ports = rig_ports wiring device jtag_ports

pub cycled : (b : Run) → Going b → full_cycle list_queue device b ≡ some (next b)
unfolding full_cycle
cycled b g = full_cycle-after list_queue Device wiring device quiet b g

pub still : (b : Run) → Going b → Going (next b)
still b g =
    after-Free list_queue Device wiring device quiet _
      (after-Free list_queue Device wiring device quiet b g)

pub going :
    (phy jtag : Bool) (b : Run) (t : Kept) (xs : List ℕ) (ys : List Words)
    → Holds phy jtag b t xs ys
    → Going b
going phy jtag b t xs ys (held c services _ _ _ v g) = g

-- A cycle on a design that holds no answers for the FIFOs that are not selected.
pub next-port :
    (jtag : Bool) (c : Clock) (services : Services list_queue) (t : Kept) (xs : List ℕ) (v : Levels)
    → Going (rig c services (idle_top false jtag t xs [] v))
    → Holds false jtag (next (rig c services (idle_top false jtag t xs [] v))) t xs []
unfolding device serve_port take_word wiring
next-port jtag c services t xs v g = held _ services t xs [] _ (still _ g)

pub next-phy :
    (jtag : Bool) (c : Clock) (services : Services list_queue) (t : Kept) (ys : List Words)
    (v : Levels)
    → Going (rig c services (idle_top true jtag t [] ys v))
    → Holds true jtag (next (rig c services (idle_top true jtag t [] ys v))) t [] ys
unfolding device serve_phy take_request wiring
next-phy jtag c services t ys v g = held _ services t [] ys _ (still _ g)

-- What `Holds` says of the bench, as a value.
abbrev pub Shape : Bool → Bool → Run → Kept → List ℕ → List Words → Type 0
Shape phy jtag b t xs ys =
    (c : Clock) × (services : Services list_queue) × (v : Levels) × Going
      (rig c services (idle_top phy jtag t xs ys v))
    × (rig c services (idle_top phy jtag t xs ys v) ≡ b)

pub shape :
    (phy jtag : Bool) (b : Run) (t : Kept) (xs : List ℕ) (ys : List Words)
    → Holds phy jtag b t xs ys
    → Shape phy jtag b t xs ys
shape phy jtag b t xs ys (held c services _ _ _ v g) = (c, services, v, g, refl)
