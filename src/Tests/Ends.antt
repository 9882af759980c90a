-- ===== src/Tests/Ends.antt =====
-- Concrete ends of the programs: of the main loop of cm3_min_soc/bench/verilator/tb.cpp, and of a
-- bench of ahb3lite_remote_bridge2/bench after a response with an error.
use tinylabs_cores.Common.{ℕ, ◌≡◌, refl, Bool, true, false, none, some, arith}
use tinylabs_cores.Queue.{list_queue}
use tinylabs_cores.Sim.{Clock, do_cycle, switch_dump, past_stop, jtag_client_tick}
use tinylabs_cores.Script.{step, repeat, pure, ◌>>=◌}
use tinylabs_cores.Soc
use tinylabs_cores.Soc.{Outside, Soc, run, body}
use tinylabs_cores.Soc.Loop.{body-reset}
use tinylabs_cores.Rig
use tinylabs_cores.Rig.{World, Rig}
use tinylabs_cores.Rig.Ports.{rig_ports}
use tinylabs_cores.Fifo.Wait.{low}
use tinylabs_cores.Adiv5.{read}
use tinylabs_cores.Adiv5.Fails.{bail, read-bails}
use tinylabs_cores.SwdAdiv5
use tinylabs_cores.SwdAdiv5.{wiring, top_ports}
use tinylabs_cores.Tests.Cycles.{idle_services}

-- The clock at a tick, with a timeout.
abbrev pub clock_at : ℕ → ℕ → Clock
clock_at t timeout = record {
  t = t;
  timeout = timeout;
  fst_dump = false;
  fst_dump_start = 0;
  fst_dump_stop = 0;
  fst_dumping = false;
}

-- A design without a state of its own, and threads that do nothing.
abbrev pub plain : Outside list_queue (Unit {0})
plain = record {
  eval = λ top. top;
  finished = λ t. false;
  interrupted = λ t. false;
  threads = λ t s. s;
}

abbrev pub soc_top : Soc.Top (Unit {0})
soc_top = record {
  inside = tt;
  clk = false;
  poresetn = 0;
  irq = 0;
  tck = 0;
  tdi = 0;
  tdo = 0;
  tmsoe = false;
  tmsout = 0;
  tmsin = 0;
}

body-reset_example :
    body list_queue (Unit {0}) plain (clock_at 5 0) idle_services (record soc_top { poresetn = 0 })
    ≡ body list_queue
        (Unit {0})
        plain
        (clock_at 5 0)
        idle_services
        (record soc_top { poresetn = 1 })
body-reset_example =
    body-reset list_queue plain (clock_at 5 0) idle_services 0 1 soc_top (omega arith)

-- A design that always has a response with the status FAULT.
abbrev faulty : World (SwdAdiv5.Top ℕ)
faulty = record {
  eval = λ top. top;
  finished = λ t. false;
  interrupted = λ t. false;
  socket = λ t. record { first_write = true; second_write = true; reply = none };
}

abbrev bench_at : ℕ → Bool → Rig list_queue (SwdAdiv5.Top ℕ)
bench_at t reading = record {
  clock = clock_at t 0;
  services = idle_services;
  done = false;
  top = record {
    inside = 0;
    reset_n = 1;
    clk = false;
    phy_clk = false;
    enable = true;
    wren = false;
    wrdata = 0;
    wrfull = false;
    rden = reading;
    rdempty = false;
    rddata = 1;
    tck = 0;
    tmsoe = false;
    tmsout = 0;
    tmsin = 0;
  };
}

hundred :
    repeat 100 (step (Rig.full_cycle list_queue (SwdAdiv5.Top ℕ) wiring faulty)) (bench_at 22 false)
    ≡ some (tt, bench_at 222 false)
unfolding repeat step ◌>>=◌ pure Rig.full_cycle Rig.half_cycle wiring do_cycle switch_dump past_stop
    jtag_client_tick
hundred = refl

one_cycle :
    Rig.full_cycle list_queue (SwdAdiv5.Top ℕ) wiring faulty (bench_at 20 true)
    ≡ some (bench_at 22 true)
unfolding Rig.full_cycle Rig.half_cycle wiring do_cycle switch_dump past_stop jtag_client_tick
one_cycle = refl

read-bails_example :
    (read (rig_ports wiring faulty top_ports) (bail wiring faulty) 1 (bench_at 20 false)
      ≡ some (0, bail wiring faulty (bench_at 222 false)))
    × (Rig.full_cycle list_queue
          (SwdAdiv5.Top ℕ)
          wiring
          faulty
          (bail wiring faulty (bench_at 222 false))
        ≡ none)
unfolding top_ports
read-bails_example =
    read-bails wiring faulty top_ports 1 (low (bench_at 20 false) refl) (omega arith) one_cycle
      (omega arith) hundred
