-- ===== src/Tests/Cycles.antt =====
-- Concrete cycles of the benches of ahb3lite_remote_bridge2/bench.
use tinylabs_cores.Common.{ℕ, ◌≡◌, refl, Bool, true, false, none, some, [], arith}
use tinylabs_cores.Queue.{list_queue}
use tinylabs_cores.Server.{Server}
use tinylabs_cores.Uart.{tx_idle, rx_idle}
use tinylabs_cores.Sim.{Services, do_cycle, switch_dump, past_stop, jtag_client_tick}
use tinylabs_cores.Script.{step, repeat}
use tinylabs_cores.Rig
use tinylabs_cores.Rig.{World, Rig}
use tinylabs_cores.Rig.Ports.{rig_ports}
use tinylabs_cores.Rig.Reset.{ResetPort, Quiet, Free, At, cycles-reset}
use tinylabs_cores.Fifo.{Ports}
use tinylabs_cores.Phy.Bench.{Top, wiring, ports}
use tinylabs_cores.Phy.{Words}

-- The value 5, of 3 bits.
abbrev three_bits : Words
three_bits = record { word0 = 3; word1 = 0; word2 = 40 }

-- A design whose FIFOs take and give at each evaluation, and which keeps nothing else.
abbrev ready : World (Top ℕ)
ready = record {
  eval = λ top. record top { wrfull = false; rdempty = false; rddata = three_bits };
  finished = λ t. false;
  interrupted = λ t. false;
  socket = λ t. record { first_write = true; second_write = true; reply = none };
}

abbrev pub idle_server : Server list_queue
idle_server = record { port = 0; debug = false; running = false; rx = []; tx = []; period = 8 }

abbrev pub idle_services : Services list_queue
idle_services = record {
  jtag_server = idle_server;
  uart_server = record { server = idle_server; tx_line = tx_idle; rx_line = rx_idle };
  jtag_client_period = 1;
  gpio_server = record { server = idle_server; output = 0; init = false };
  gpio_client = record { output = 0; period = 2; init = false };
  jtag_server_enable = false;
  uart_server_enable = false;
  jtag_client_enable = false;
  gpio_server_enable = false;
  gpio_client_enable = false;
}

abbrev pub no_words : Words
no_words = record { word0 = 0; word1 = 0; word2 = 0 }

-- The bench at a tick of its reset: are its FIFOs blocked, and the words at the read port.
abbrev bench_at : ℕ → Bool → Words → Rig list_queue (Top ℕ)
bench_at t blocked words = record {
  clock = record {
    t = t;
    timeout = 0;
    fst_dump = false;
    fst_dump_start = 0;
    fst_dump_stop = 0;
    fst_dumping = false;
  };
  services = idle_services;
  done = false;
  top = record {
    inside = 0;
    reset_n = 0;
    clk = false;
    phy_clk = false;
    enable = true;
    wren = false;
    wrdata = no_words;
    wrfull = blocked;
    rden = false;
    rdempty = blocked;
    rddata = words;
    tck = 0;
    tdi = 0;
    tdo = 0;
    tms = 0;
  };
}

abbrev blocked : Rig list_queue (Top ℕ)
blocked = bench_at 0 true no_words

abbrev open_to : Rig list_queue (Top ℕ)
open_to = bench_at 2 false three_bits

abbrev fifos : Ports (Rig list_queue (Top ℕ)) Words Words
fifos = ports list_queue ready

one_cycle : fifos.cycle blocked ≡ some open_to
unfolding ports rig_ports Rig.full_cycle Rig.half_cycle wiring do_cycle switch_dump past_stop
    jtag_client_tick
one_cycle = refl

-- Only the port itself changes the reset of this design.
reset_port : ResetPort wiring ready
unfolding wiring
reset_port = record {
  reset_n = λ top. top.reset_n;
  of_set = λ level top. refl;
  of_flip = λ top. refl;
  of_lines = λ l top. refl;
  of_eval = λ top. refl;
}

quiet : Quiet ready
quiet = record { unfinished = λ t. refl; uninterrupted = λ t. refl }

free : Free list_queue (Top ℕ) wiring ready quiet blocked
free = record { no_timeout = refl; not_done = refl; no_client = refl }

cycles-reset_example :
    (b' : Rig list_queue (Top ℕ)) × (repeat 6
        (step (Rig.full_cycle list_queue (Top ℕ) wiring ready))
        blocked
      ≡ some (tt, b'))
    × At list_queue (Top ℕ) wiring ready quiet reset_port 12 b'
cycles-reset_example =
    cycles-reset list_queue (Top ℕ) wiring ready quiet reset_port 5 blocked free (omega arith)
