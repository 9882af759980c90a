-- ===== src/SwdAdiv5/Main.antt =====
-- The main program of ahb3lite_remote_bridge2/bench/swd_adiv5_tb.cpp from its start to its end.
use tinylabs_cores.Common.{ℕ, ◌+◌, ◌^◌, ◌<◌, ◌≡◌, true, false, some, List}
use tinylabs_cores.Queue.{ByteQueue}
use tinylabs_cores.Rig.{World}
use tinylabs_cores.Rig.Reset.{ResetPort, Quiet, Free}
use tinylabs_cores.Rig.Main.{Boots, framed, framed-some, switch}
use tinylabs_cores.Fifo.Served.{Target, Serves}
use tinylabs_cores.Adiv5.{Report, probe}
use tinylabs_cores.Adiv5.Target.{target_access, bench-Follows, Refines-probe}
use tinylabs_cores.Adiv5.Registers.{Registers}
use tinylabs_cores.SwdAdiv5.{Top, wiring, Bench, ports, access, bail, main, set_enable, full_cycle}

-- On a bench that is not done, without a timeout and without a JTAG client, where nothing outside
-- ends the program and only `_doCycle` sets the reset: if the design, let out of its reset and
-- enabled, serves a target as long as the bench is so, and the session over the target itself has a
-- report, then the main program ends with that report, with fuel for the waits of each FIFO and the
-- tries of the session.
pub main-report :
    (K : ByteQueue) {Inside T : Type 0} (world : World (Top Inside)) (q : Quiet world)
    (r : ResetPort wiring world) (fuel tries : ℕ) (answer : Target T ℕ ℕ)
    (d : Serves (ports K world) fuel answer) (b : Bench K world) (s s' : T × List ℕ) (v : Report)
    → ((b1 : Bench K world) (s1 : T × List ℕ) → d.Rep b1 s1 → Free K (Top Inside) wiring world q b1)
    → Boots K wiring world q r d.Rep (λ top. record top { enable = true }) b s
    → Free K (Top Inside) wiring world q b
    → b.clock.t + 40 < 2 ^ 64
    → probe (target_access answer) tries s ≡ some (v, s')
    → (b' : Bench K world) × (main K world fuel tries b ≡ some (v, b'))
unfolding main framed switch set_enable full_cycle access
main-report K world q r fuel tries answer d b s s' v keeps boots free fits e =
    framed-some K wiring world q r d.Rep (λ top. record top { enable = true })
      (λ top. record top { enable = false }) 200 (probe (access K world fuel) tries)
      (probe (target_access answer) tries) b s s' v
      (Refines-probe (access K world fuel) (target_access answer)
        (bench-Follows (ports K world) (bail K world) fuel answer d) tries)
      keeps boots free fits e
