-- ===== src/Tests/Links.antt =====
-- Concrete runs of the UART servers (verilator_utils/UARTServer.cpp) and of the clock of a
-- simulation (verilator_utils/verilator_utils.cpp).
use tinylabs_cores.Common.{
  none, ◌%◌, ◌^◌, ℕ, ◌+◌, ◌-◌, ◌*◌, ◌≡◌, ◌≢◌, refl, ap, Bool, true, false, some, List, [], ◌∷◌,
  arith, length, ◌==◌, ltb, if◌then◌else◌,
}
use tinylabs_cores.Queue.{list_queue, list_queue-Unfailing}
use tinylabs_cores.Server.{Server}
use tinylabs_cores.Uart.{Uart, tx_idle, rx_idle, bit_time, next_byte}
use tinylabs_cores.Uart.Run.{run, run_rx}
use tinylabs_cores.Uart.Receive.{Timed}
use tinylabs_cores.Uart.Transmit.{frame_bit}
use tinylabs_cores.Uart.Wave.{run_rx-frame, run_rx-wave}
use tinylabs_cores.Uart.Link.{Connected, rx-link}
use tinylabs_cores.Sim.{Clock, run_cycles}
use tinylabs_cores.Sim.Window.{Dumped, run_cycles-dumps}
use tinylabs_cores.Sim.Options.{
  Parsed, serve, uart_server, jtag_server, default_settings, parse_all, parse_opts, last_start,
  Started-parse_all,
}
use tinylabs_cores.Sim.Load.{Image, load_elf, load_elf_lem}
use tinylabs_cores.Sim.Cycle.{accepts, run_cycles-accepts}

abbrev sender : Server list_queue
sender = record {
  port = 7777;
  debug = false;
  running = true;
  rx = [];
  tx = 72 ∷ 105 ∷ [];
  period = 4;
}

abbrev receiver : Server list_queue
receiver = record { port = 7778; debug = false; running = true; rx = 33 ∷ []; tx = []; period = 4 }

abbrev sending : Uart list_queue
sending = record { server = sender; tx_line = tx_idle; rx_line = rx_idle }

abbrev receiving : Uart list_queue
receiving = record { server = receiver; tx_line = tx_idle; rx_line = rx_idle }

abbrev two_bytes : List ℕ
two_bytes = 72 ∷ 105 ∷ []

abbrev high : ℕ → Bool
high t = true

-- The pin that `sending` drives, by the tick.
abbrev wire : ℕ → Bool
wire t = (run list_queue (t - 1) 2 high sending true).1

wire-Connected : Connected list_queue (length two_bytes * (10 * bit_time 4)) 2 sending high wire
wire-Connected j h =
    let e : 2 + j - 1 ≡ j + 1 = omega arith in ap (λ n. (run list_queue n 2 high sending true).1) e

bit_time_4 : bit_time 4 ≡ 8
unfolding bit_time
bit_time_4 = refl

-- The two bytes arrive behind the one that was there.
rx-link_example :
    let v' = (run list_queue (length two_bytes * (10 * bit_time 4)) 2 wire receiving true).0 in
    (v'.tx_line ≡ tx_idle) × (v'.server.rx ≡ 33 ∷ 72 ∷ 105 ∷ [])
rx-link_example =
    rx-link list_queue sending receiving two_bytes 2 wire high true list_queue-Unfailing refl refl
      refl refl refl refl (omega arith, (omega arith, tt)) (omega arith) refl
      (omega (arith, bit_time_4)) (omega (arith, bit_time_4)) wire-Connected

two-Timed : Timed 4 2
two-Timed = record {
  started = omega arith;
  even = refl;
  bits = omega (arith, bit_time_4);
  fits = omega (arith, bit_time_4);
}

next_five : next_byte list_queue (5 ∷ []) ≡ some (5, [])
unfolding next_byte
next_five = refl

run_rx-frame_example :
    run_rx list_queue 4 (10 * bit_time 4) 2 (rx_idle, 5 ∷ [], true) ≡ (rx_idle, [], true)
run_rx-frame_example =
    run_rx-frame list_queue 4 2 5 (5 ∷ []) [] true two-Timed (omega (arith, bit_time_4)) next_five

run_rx-wave_example :
    (run_rx list_queue 4 (3 * bit_time 4 + 1 + 6) 2 (rx_idle, 5 ∷ [], true)).2 ≡ frame_bit 5 3
run_rx-wave_example =
    run_rx-wave list_queue 4 2 5 (5 ∷ []) [] true 3 6 two-Timed (omega (arith, bit_time_4))
      next_five (omega arith) (omega (arith, bit_time_4))

abbrev clock : Clock
clock = record {
  t = 0;
  timeout = 5;
  fst_dump = true;
  fst_dump_start = 1;
  fst_dump_stop = 3;
  fst_dumping = false;
}

run_cycles-accepts_example :
    (b : Bool) × (accepts false (run_cycles 4 (λ t. t == 2) clock).1 ≡ some b)
run_cycles-accepts_example = run_cycles-accepts 4 (λ t. t == 2) clock

false-ne_true : false ≢ true
false-ne_true = λ e. cc

run_cycles-dumps_example : Dumped clock (run_cycles 6 (λ t. t == 7) clock)
run_cycles-dumps_example =
    run_cycles-dumps 6 (λ t. t == 7) clock (λ e. absurd (false-ne_true e)) (omega arith)
      (omega arith) (omega arith) (omega arith)

-- `--uart-server --jtag-server=4000 --jtag-server=70000`, with numbers for texts.
abbrev options : List (Parsed ℕ)
options =
    serve uart_server none ∷ serve jtag_server (some 4000) ∷ serve jtag_server (some 70000) ∷ []

abbrev as_number : ℕ → ℕ
as_number n = n

Started-parse_all_example :
    ((parse_all ℕ as_number as_number options (default_settings 0)).0.enabled jtag_server ≡ true)
    × (4464 ≡ 70000 % 2 ^ 16)
unfolding parse_all parse_opts last_start tinylabs_cores.Sim.Options.same_service
Started-parse_all_example =
    Started-parse_all ℕ as_number as_number options jtag_server (default_settings 0) none tt

-- An image of six bytes.
abbrev image : Image
image = record { size = 6; read_32 = λ i. i + 1 }

load_elf_lem_example :
    (mem' : ℕ → ℕ) × (load_elf (some image) (λ j. 9) ≡ some (mem', true))
    × ((j : ℕ) → mem' j ≡ (if ltb (j * 4) 6 then j * 4 + 1 else 9))
    × (load_elf none (λ j. 9) ≡ some ((λ j. 9), false))
load_elf_lem_example = load_elf_lem image (λ j. 9)
