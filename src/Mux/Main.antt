-- ===== src/Mux/Main.antt =====
-- The main program of ahb3lite_remote_bridge2/bench/debug_mux_tb.cpp from its start to its end: the
-- session over SWD, over JTAG and over SWD again, and the identification read over the FIFOs of the
-- JTAG PHY.
use tinylabs_cores.Common.{ℕ, ◌+◌, ◌^◌, ◌<◌, ◌≡◌, ◌∙◌, Bool, true, false, some, List, [], ◌∷◌}
use tinylabs_cores.Queue.{ByteQueue}
use tinylabs_cores.Script.{◌>>=◌, pure, modify, step, repeat, bind-some, step-some}
use tinylabs_cores.Script.Refines.{Refines-result}
use tinylabs_cores.Rig.{World}
use tinylabs_cores.Rig.Ports.{on_top, rig_ports}
use tinylabs_cores.Rig.Reset.{
  ResetPort, Quiet, Free, At, cycles-reset, cycles-Free, full_cycle-Free,
}
use tinylabs_cores.Fifo.{Ports, bench_link}
use tinylabs_cores.Fifo.Served.{Target, Serves, target_link, Refines-cycle, bench-FollowsLink}
use tinylabs_cores.Phy.{Words}
use tinylabs_cores.Adiv5.{Report, probe}
use tinylabs_cores.Adiv5.Target.{target_access, bench-Follows, Refines-probe}
use tinylabs_cores.Adiv5.Registers.{Registers}
use tinylabs_cores.Mux.{
  Top, wiring, adiv5_ports, jtag_ports, Bench, bail, full_cycle, access, test_if, jtag_direct,
  jtag_req, jtag_resp, main,
}
use tinylabs_cores.Mux.Parts.{read_direct, Refines-read_direct, padded, Refines-padded, padded-idle}

module _ (K : ByteQueue) {Inside T : Type 0} (world : World (Top Inside)) (q : Quiet world)
    (fuel : ℕ) (adiv5 : Bool → Target T ℕ ℕ) (phy : Target T Words Words) where
  abbrev pub selecting : Bool → Top Inside → Top Inside
  selecting jtag top = record top { jtag_direct = false; jtagnswd = jtag }

  abbrev pub directing : Top Inside → Top Inside
  directing top = record top { jtag_direct = true }

  -- What the bench relies on of the design: for each selection its FIFOs serve a target, and a cycle
  -- after a selection made at rest, with no answer waiting, they serve the one that is selected.
  pub record Switched : Type 1 where
    pub over_adiv5 :
        (jtag : Bool) → Serves (rig_ports {K = K} wiring world adiv5_ports) fuel (adiv5 jtag)
    pub over_phy : Serves (rig_ports {K = K} wiring world jtag_ports) fuel phy
    pub Rests : Bench K world → T → Type 0
    pub free : (b : Bench K world) (t : T) → Rests b t → Free K (Top Inside) wiring world q b
    pub rests :
        (jtag : Bool) (b : Bench K world) (t : T) → (over_adiv5 jtag).Rep b (t, []) → Rests b t
    pub selects :
        (jtag : Bool) (b b1 : Bench K world) (t : T)
        → Rests b t
        → full_cycle K world (on_top (selecting jtag) b) ≡ some b1
        → (over_adiv5 jtag).Rep b1 (t, [])
    pub directs :
        (b b1 : Bench K world) (t : T)
        → Rests b t
        → full_cycle K world (on_top directing b) ≡ some b1
        → over_phy.Rep b1 (t, [])
    pub ends :
        (b : Bench K world) (s : T × List Words)
        → over_phy.Rep b s
        → Free K (Top Inside) wiring world q b

  module _ (d : Switched) where
    moved :
        (f : Top Inside → Top Inside) (b : Bench K world) (t : T)
        → d.Rests b t
        → (b1 : Bench K world) × (full_cycle K world (on_top f b) ≡ some b1)
    unfolding full_cycle
    moved f b t r =
        let free = d.free b t r in
        let (b1, e, _) = full_cycle-Free K (Top Inside) wiring world q (on_top f b) (record {
          no_timeout = free.no_timeout;
          not_done = free.not_done;
          no_client = free.no_client;
        }) in
        (b1, e)

    test_if-report :
        (tries : ℕ) (jtag : Bool) (b : Bench K world) (t t' : T) (v : Report)
        → d.Rests b t
        → probe (target_access (adiv5 jtag)) tries (t, []) ≡ some (v, (t', []))
        → (b' : Bench K world) × (test_if K world fuel tries jtag b ≡ some (v, b')) × d.Rests b' t'
    unfolding test_if padded modify ◌>>=◌ access full_cycle rig_ports
    test_if-report tries jtag b t t' v r e =
        let p : Ports (Bench K world) ℕ ℕ = rig_ports wiring world adiv5_ports in
        let serves = d.over_adiv5 jtag in
        let (b1, cycle) = moved (selecting jtag) b t r in
        let (b2, session, r2) =
          Refines-result _ _ b1 (t, []) v (t', [])
            (Refines-padded
              (Refines-probe (access K world fuel) (target_access (adiv5 jtag))
                (bench-Follows p (bail K world) fuel (adiv5 jtag) serves) tries)
              (Refines-cycle p fuel (adiv5 jtag) serves))
            (d.selects jtag b b1 t r cycle)
            (padded-idle (probe (target_access (adiv5 jtag)) tries) (t, []) (t', []) v e) in
        (
          b2,
          bind-some (step (full_cycle K world)) _ (step-some _ cycle) ∙ session,
          d.rests jtag b2 t' r2,
        )

    jtag_direct-value :
        (b : Bench K world) (t : T) (s' : T × List Words) (idcode : ℕ)
        → d.Rests b t
        → read_direct (target_link phy) (t, []) ≡ some (idcode, s')
        → (b' : Bench K world) × (jtag_direct K world fuel b ≡ some (idcode, b'))
          × Free K (Top Inside) wiring world q b'
    unfolding jtag_direct read_direct modify ◌>>=◌ jtag_req jtag_resp
    jtag_direct-value b t s' idcode r e =
        let p : Ports (Bench K world) Words Words = rig_ports wiring world jtag_ports in
        let (b1, cycle) = moved directing b t r in
        let (b2, read, r2) =
          Refines-result _ _ b1 (t, []) idcode s'
            (Refines-read_direct (bench_link p fuel) (target_link phy)
              (bench-FollowsLink phy p fuel d.over_phy))
            (d.directs b b1 t r cycle) e in
        (b2, bind-some (step (full_cycle K world)) _ (step-some _ cycle) ∙ read, d.ends b2 s' r2)

    -- The main program, from a bench that can go on.
    pub main-reports :
        (r : ResetPort wiring world) (tries : ℕ) (b : Bench K world) (t t1 t2 t3 : T)
        (s' : T × List Words) (swd jtag swd_again : Report) (idcode : ℕ)
        → Free K (Top Inside) wiring world q b
        → b.clock.t + 40 < 2 ^ 64
        → ((b1 : Bench K world)
            → repeat 20 (step (full_cycle K world)) b ≡ some (tt, b1)
            → At K (Top Inside) wiring world q r (b.clock.t + 40) b1
            → d.Rests b1 t)
        → probe (target_access (adiv5 false)) tries (t, []) ≡ some (swd, (t1, []))
        → probe (target_access (adiv5 true)) tries (t1, []) ≡ some (jtag, (t2, []))
        → probe (target_access (adiv5 false)) tries (t2, []) ≡ some (swd_again, (t3, []))
        → read_direct (target_link phy) (t3, []) ≡ some (idcode, s')
        → (b' : Bench K world) × (main K world fuel tries b
            ≡ some ((swd ∷ jtag ∷ swd_again ∷ [], idcode), b'))
    unfolding main full_cycle pure
    main-reports r tries b t t1 t2 t3 s' swd jtag swd_again idcode free fits boots p1 p2 p3 reads =
        let cycles = repeat 20 (step (full_cycle K world)) in
        let (b1, e1, at) = cycles-reset K (Top Inside) wiring world q r 19 b free fits in
        let (b2, e2, r2) = test_if-report tries false b1 t t1 swd (boots b1 e1 at) p1 in
        let (b3, e3, r3) = test_if-report tries true b2 t1 t2 jtag r2 p2 in
        let (b4, e4, r4) = test_if-report tries false b3 t2 t3 swd_again r3 p3 in
        let (b5, e5, free5) = jtag_direct-value b4 t3 s' idcode r4 reads in
        let (b6, e6, _) = cycles-Free K (Top Inside) wiring world q 20 b5 free5 in
        (
          b6,
          bind-some cycles _ e1
              ∙ bind-some (test_if K world fuel tries false) _ e2
              ∙ bind-some (test_if K world fuel tries true) _ e3
              ∙ bind-some (test_if K world fuel tries false) _ e4
              ∙ bind-some (jtag_direct K world fuel) _ e5
              ∙ bind-some cycles _ e6,
        )
