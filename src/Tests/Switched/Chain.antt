-- ===== src/Tests/Switched/Chain.antt =====
-- The FIFOs of the JTAG PHY of the design in Tests/Switched/Design serve a chain, with any interface
-- selected before.
use mathlib.Core.Path.{subst}
use tinylabs_cores.Common.{ℕ, ◌<◌, ◌≡◌, refl, Bool, true, false, some, List, [], ◌∷◌, ◌++◌, arith}
use tinylabs_cores.Rig.Ports.{rig_ports}
use tinylabs_cores.Fifo.Wait.{Falls, low, offered}
use tinylabs_cores.Fifo.Served.{Serves}
use tinylabs_cores.Phy.{Words}
use tinylabs_cores.Mux.{wiring, jtag_ports, full_cycle}
use tinylabs_cores.Tests.Sessions.{Kept}
use tinylabs_cores.Tests.Switched.Design.{
  chain, is_empty, take_request, hand_reply, serve_phy, device, Run, Holds, held, moved, phy_ports,
  cycled, still, next-phy, shape,
}

abbrev pub PhyRep : Run → Kept × List Words → Type 0
PhyRep b s = (jtag : Bool) × Holds true jtag b s.0 [] s.1

pub phy_idles :
    (b : Run) (s : Kept × List Words)
    → PhyRep b s
    → (b1 : Run) × (phy_ports.cycle b ≡ some b1) × PhyRep b1 s
unfolding rig_ports full_cycle
phy_idles b (t, xs) (jtag, h) =
    let (c, services, v, g, e) = shape true jtag b t [] xs h in
    subst (λ b. (b1 : Run) × (phy_ports.cycle b ≡ some b1) × PhyRep b1 (t, xs)) e
      (_, cycled _ g, (jtag, next-phy jtag c services t xs v g))

abbrev pub PhyTakes : Kept → List Words → Words → Run → Type 0
PhyTakes t xs w b =
    (n : ℕ) × (b1 : Run) × (b2 : Run) × Falls phy_ports.cycle phy_ports.wrfull n b b1
    × (n < 1)
    × (phy_ports.cycle (offered phy_ports w b1) ≡ some b2)
    × PhyRep (phy_ports.set_wren false b2) ((chain w t).0, xs ++ (chain w t).1)

pub phy_takes :
    (b : Run) (t : Kept) (xs : List Words) (w : Words) → PhyRep b (t, xs) → PhyTakes t xs w b
unfolding rig_ports full_cycle jtag_ports device serve_phy take_request wiring
phy_takes b t xs w (jtag, h) =
    let (c, services, v, g, e) = shape true jtag b t [] xs h in
    let g1 = moved (λ top. record top { jtag_wrdata = w; jtag_wren = true }) _ g in
    subst (PhyTakes t xs w) e (
      0,
      _,
      _,
      low _ refl,
      omega arith,
      cycled _ g1,
      (
        jtag,
        held _ services _ [] _ (record v { request = w; reset_n = _ })
            (moved (λ top. record top { jtag_wren = false }) _ (still _ g1)),
      ),
    )

abbrev pub PhyGives : Kept → Words → List Words → Run → Type 0
PhyGives t x xs b =
    (n : ℕ) × (b1 : Run) × (b2 : Run) × Falls phy_ports.cycle phy_ports.rdempty n b b1
    × (n < 1)
    × (phy_ports.cycle (phy_ports.set_rden true b1) ≡ some b2)
    × (phy_ports.rddata (phy_ports.set_rden false b2) ≡ x)
    × PhyRep (phy_ports.set_rden false b2) (t, xs)

pub phy_gives :
    (b : Run) (t : Kept) (x : Words) (xs : List Words) → PhyRep b (t, x ∷ xs) → PhyGives t x xs b
unfolding rig_ports full_cycle jtag_ports device serve_phy take_request hand_reply is_empty wiring
phy_gives b t x xs (jtag, h) =
    let (c, services, v, g, e) = shape true jtag b t [] (x ∷ xs) h in
    let g1 = moved (λ top. record top { jtag_rden = true }) _ g in
    subst (PhyGives t x xs) e (
      0,
      _,
      _,
      low _ refl,
      omega arith,
      cycled _ g1,
      refl,
      (
        jtag,
        held _ services t [] xs (record v { reply = x; reset_n = _ })
            (moved (λ top. record top { jtag_rden = false }) _ (still _ g1)),
      ),
    )

unfoldable pub over_phy : Serves phy_ports 1 chain
over_phy = record { Rep = PhyRep; takes = phy_takes; gives = phy_gives; idles = phy_idles }
