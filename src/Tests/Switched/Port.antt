-- ===== src/Tests/Switched/Port.antt =====
-- The FIFOs of the debug port of the design in Tests/Switched/Design serve a memory.
use mathlib.Core.Path.{subst}
use tinylabs_cores.Common.{ℕ, ◌<◌, ◌≡◌, refl, Bool, true, false, some, List, [], ◌∷◌, ◌++◌, arith}
use tinylabs_cores.Rig.Ports.{rig_ports}
use tinylabs_cores.Fifo.Wait.{Falls, low, offered}
use tinylabs_cores.Fifo.Served.{Serves}
use tinylabs_cores.Mux.{wiring, adiv5_ports, full_cycle}
use tinylabs_cores.Tests.Sessions.{Kept, memory}
use tinylabs_cores.Tests.Switched.Design.{
  is_empty, take_word, hand_word, serve_port, device, Run, Holds, held, moved, word_ports, cycled,
  still, next-port, shape,
}

abbrev pub PortRep : Bool → Run → Kept × List ℕ → Type 0
PortRep jtag b s = Holds false jtag b s.0 s.1 []

pub port_idles :
    (jtag : Bool) (b : Run) (s : Kept × List ℕ)
    → PortRep jtag b s
    → (b1 : Run) × (word_ports.cycle b ≡ some b1) × PortRep jtag b1 s
unfolding rig_ports full_cycle
port_idles jtag b (t, xs) h =
    let (c, services, v, g, e) = shape false jtag b t xs [] h in
    subst (λ b. (b1 : Run) × (word_ports.cycle b ≡ some b1) × PortRep jtag b1 (t, xs)) e
      (_, cycled _ g, next-port jtag c services t xs v g)

abbrev pub PortTakes : Bool → Kept → List ℕ → ℕ → Run → Type 0
PortTakes jtag t xs w b =
    (n : ℕ) × (b1 : Run) × (b2 : Run) × Falls word_ports.cycle word_ports.wrfull n b b1
    × (n < 1)
    × (word_ports.cycle (offered word_ports w b1) ≡ some b2)
    × PortRep jtag (word_ports.set_wren false b2) ((memory w t).0, xs ++ (memory w t).1)

pub port_takes :
    (jtag : Bool) (b : Run) (t : Kept) (xs : List ℕ) (w : ℕ)
    → PortRep jtag b (t, xs)
    → PortTakes jtag t xs w b
unfolding rig_ports full_cycle adiv5_ports device serve_port take_word wiring
port_takes jtag b t xs w h =
    let (c, services, v, g, e) = shape false jtag b t xs [] h in
    let g1 = moved (λ top. record top { adiv5_wrdata = w; adiv5_wren = true }) _ g in
    subst (PortTakes jtag t xs w) e (
      0,
      _,
      _,
      low _ refl,
      omega arith,
      cycled _ g1,
      held _ services _ _ [] (record v { wrdata = w; reset_n = _ })
          (moved (λ top. record top { adiv5_wren = false }) _ (still _ g1)),
    )

abbrev pub PortGives : Bool → Kept → ℕ → List ℕ → Run → Type 0
PortGives jtag t x xs b =
    (n : ℕ) × (b1 : Run) × (b2 : Run) × Falls word_ports.cycle word_ports.rdempty n b b1
    × (n < 1)
    × (word_ports.cycle (word_ports.set_rden true b1) ≡ some b2)
    × (word_ports.rddata (word_ports.set_rden false b2) ≡ x)
    × PortRep jtag (word_ports.set_rden false b2) (t, xs)

pub port_gives :
    (jtag : Bool) (b : Run) (t : Kept) (x : ℕ) (xs : List ℕ)
    → PortRep jtag b (t, x ∷ xs)
    → PortGives jtag t x xs b
unfolding rig_ports full_cycle adiv5_ports device serve_port take_word hand_word is_empty wiring
port_gives jtag b t x xs h =
    let (c, services, v, g, e) = shape false jtag b t (x ∷ xs) [] h in
    let g1 = moved (λ top. record top { adiv5_rden = true }) _ g in
    subst (PortGives jtag t x xs) e (
      0,
      _,
      _,
      low _ refl,
      omega arith,
      cycled _ g1,
      refl,
      held _ services t xs [] (record v { rddata = x; reset_n = _ })
          (moved (λ top. record top { adiv5_rden = false }) _ (still _ g1)),
    )

unfoldable pub over_port : (jtag : Bool) → Serves word_ports 1 memory
over_port jtag = record {
  Rep = PortRep jtag;
  takes = port_takes jtag;
  gives = port_gives jtag;
  idles = port_idles jtag;
}
