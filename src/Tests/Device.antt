-- ===== src/Tests/Device.antt =====
-- A design for ahb3lite_remote_bridge2/bench/swd_adiv5_tb.cpp that serves a target.
use mathlib.Core.Path.{subst}
use tinylabs_cores.Common.{
  ℕ, ◌<◌, ◌≡◌, refl, Bool, true, false, none, some, List, [], ◌∷◌, ◌++◌, arith, if◌then◌else◌,
}
use tinylabs_cores.Queue.{list_queue}
use tinylabs_cores.Sim.{Clock, Services}
use tinylabs_cores.Rig.{World, Rig, full_cycle}
use tinylabs_cores.Rig.Ports.{rig_ports, on_top}
use tinylabs_cores.Rig.Reset.{Quiet, Free, after, after-Free, full_cycle-after}
use tinylabs_cores.Fifo.{Ports}
use tinylabs_cores.Fifo.Wait.{Falls, low, offered}
use tinylabs_cores.Fifo.Served.{Serves}
use tinylabs_cores.SwdAdiv5.{Top, wiring, top_ports, ports}
use tinylabs_cores.Tests.Sessions.{Kept, memory}

abbrev pub Device : Type 0
Device = Top (Kept × List ℕ)

unfoldable pub is_empty : List ℕ → Bool
is_empty [] = true
is_empty (x ∷ xs) = false

-- The design takes a word, then hands one over, while its clock is low.
unfoldable pub take : Device → Device
take top =
    if top.wren
    then (let (t, answers) = memory top.wrdata top.inside.0 in
        record top { inside = (t, top.inside.1 ++ answers) })
    else top

unfoldable pub hand : List ℕ → Device → Device
hand [] top = top
hand (x ∷ xs) top = record top { inside = (top.inside.0, xs); rddata = x }

unfoldable pub tick : Device → Device
tick top =
    let taken = take top in
    let handed = if taken.rden then hand taken.inside.1 taken else taken in
    record handed { rdempty = is_empty handed.inside.1 }

unfoldable pub device : World Device
device = record {
  eval = λ top. if top.clk then top else tick top;
  finished = λ t. false;
  interrupted = λ t. false;
  socket = λ t. record { first_write = true; second_write = true; reply = none };
}

abbrev pub idle_top : Kept → List ℕ → ℕ → ℕ → ℕ → Device
idle_top t xs w r n = record {
  inside = (t, xs);
  reset_n = n;
  clk = false;
  phy_clk = false;
  enable = true;
  wren = false;
  wrdata = w;
  wrfull = false;
  rden = false;
  rdempty = is_empty xs;
  rddata = r;
  tck = 0;
  tmsoe = false;
  tmsout = 0;
  tmsin = 0;
}

pub quiet : Quiet device
unfolding device
quiet = record { unfinished = λ t. refl; uninterrupted = λ t. refl }

abbrev pub Going : Rig list_queue Device → Type 0
Going b = Free list_queue Device wiring device quiet b

abbrev pub rig : Clock → Services list_queue → Device → Rig list_queue Device
rig c services top = record { clock = c; services = services; done = false; top = top }

pub data Holds : Rig list_queue Device → Kept × List ℕ → Type 0 where
  held :
      (c : Clock) (services : Services list_queue) (t : Kept) (xs : List ℕ) (w r n : ℕ)
      → Going (rig c services (idle_top t xs w r n))
      → Holds (rig c services (idle_top t xs w r n)) (t, xs)

abbrev pub fifos : Ports (Rig list_queue Device) ℕ ℕ
fifos = ports list_queue device

moved : (f : Device → Device) (b : Rig list_queue Device) → Going b → Going (on_top f b)
moved f b g = record { no_timeout = g.no_timeout; not_done = g.not_done; no_client = g.no_client }

abbrev next : Rig list_queue Device → Rig list_queue Device
next b = after list_queue Device wiring device quiet (after list_queue Device wiring device quiet b)

cycled :
    (b : Rig list_queue Device)
    → Going b
    → full_cycle list_queue Device wiring device b ≡ some (next b)
cycled b g = full_cycle-after list_queue Device wiring device quiet b g

still : (b : Rig list_queue Device) → Going b → Going (next b)
still b g =
    after-Free list_queue Device wiring device quiet _
      (after-Free list_queue Device wiring device quiet b g)

idles :
    (b : Rig list_queue Device) (s : Kept × List ℕ)
    → Holds b s
    → (b1 : Rig list_queue Device) × (fifos.cycle b ≡ some b1) × Holds b1 s
unfolding ports rig_ports device tick take wiring
idles b s (held c services t xs w r n g) = (_, cycled _ g, held _ services t xs w r _ (still _ g))

takes :
    (b : Rig list_queue Device) (t : Kept) (xs : List ℕ) (w : ℕ)
    → Holds b (t, xs)
    → (n : ℕ) × (b1 : Rig list_queue Device) × (b2 : Rig list_queue Device) × Falls fifos.cycle
        fifos.wrfull n b b1
      × (n < 1)
      × (fifos.cycle (offered fifos w b1) ≡ some b2)
      × Holds (fifos.set_wren false b2) ((memory w t).0, xs ++ (memory w t).1)
unfolding ports rig_ports top_ports device tick take hand wiring
takes b t xs w (held c services t1 xs1 w1 r n g) =
    let offer : Device → Device = λ top. record top { wrdata = w; wren = true } in
    let g1 = moved offer _ g in
    let close : Device → Device = λ top. record top { wren = false } in
    (
      0,
      b,
      _,
      low b refl,
      omega arith,
      cycled _ g1,
      held _ services _ _ w r _ (moved close _ (still _ g1)),
    )

shape :
    (b : Rig list_queue Device) (s : Kept × List ℕ)
    → Holds b s
    → (c : Clock) × (services : Services list_queue) × (w : ℕ) × (r : ℕ) × (n : ℕ) × Going
        (rig c services (idle_top s.0 s.1 w r n))
      × (rig c services (idle_top s.0 s.1 w r n) ≡ b)
shape b s (held c services t xs w r n g) = (c, services, w, r, n, g, refl)

abbrev Gives : Kept → ℕ → List ℕ → Rig list_queue Device → Type 0
Gives t x xs b =
    (n : ℕ) × (b1 : Rig list_queue Device) × (b2 : Rig list_queue Device) × Falls fifos.cycle
      fifos.rdempty n b b1
    × (n < 1)
    × (fifos.cycle (fifos.set_rden true b1) ≡ some b2)
    × (fifos.rddata (fifos.set_rden false b2) ≡ x)
    × Holds (fifos.set_rden false b2) (t, xs)

gives :
    (b : Rig list_queue Device) (t : Kept) (x : ℕ) (xs : List ℕ)
    → Holds b (t, x ∷ xs)
    → Gives t x xs b
unfolding ports rig_ports top_ports device tick take hand is_empty wiring
gives b t x xs h =
    let (c, services, w, r, n, g, e) = shape b (t, x ∷ xs) h in
    let ask : Device → Device = λ top. record top { rden = true } in
    let g1 = moved ask _ g in
    let close : Device → Device = λ top. record top { rden = false } in
    subst (Gives t x xs) e (
      0,
      _,
      _,
      low _ refl,
      omega arith,
      cycled _ g1,
      refl,
      held _ services t xs w x _ (moved close _ (still _ g1)),
    )

pub serves : Serves fifos 1 memory
serves = record { Rep = Holds; takes = takes; gives = gives; idles = idles }

pub going : (b : Rig list_queue Device) (s : Kept × List ℕ) → serves.Rep b s → Going b
unfolding serves
going b s (held c services t xs w r n g) = g

pub represents : (b : Rig list_queue Device) (s : Kept × List ℕ) → Holds b s → serves.Rep b s
unfolding serves
represents b s h = h
