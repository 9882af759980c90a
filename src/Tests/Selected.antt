-- ===== src/Tests/Selected.antt =====
-- A run of `test_if` of ahb3lite_remote_bridge2/bench/debug_mux_tb.cpp, on a design with a memory.
use tinylabs_cores.Common.{
  ℕ, ◌+◌, ◌*◌, ◌≡◌, refl, Bool, true, false, not, ◌&&◌, some, none, List, [], ◌∷◌, ◌++◌,
  if◌then◌else◌, bit_and, shr, ◌==◌,
}
use tinylabs_cores.Queue.{list_queue}
use tinylabs_cores.Sim.{do_cycle, switch_dump, past_stop, jtag_client_tick}
use tinylabs_cores.Script.{step, repeat, pure, ◌>>=◌, modify, gets}
use tinylabs_cores.Rig
use tinylabs_cores.Rig.{World, Rig}
use tinylabs_cores.Rig.Ports.{rig_ports}
use tinylabs_cores.Fifo.{wait_while, put, get}
use tinylabs_cores.Adiv5
use tinylabs_cores.Adiv5.{Report, probe, bench_access, check, request_word, select, halt}
use tinylabs_cores.Mux.{Top, wiring, adiv5_ports, access, full_cycle, test_if}
use tinylabs_cores.Mux.Select.{Selects, test_if-Selects}
use tinylabs_cores.Fifo.Served.{Target}
use tinylabs_cores.Tests.Cycles.{idle_services, no_words}
use tinylabs_cores.Tests.Ends.{clock_at}

-- A debug port whose access port keeps the last word that is written, and is read as that word.
-- Only a write of register 3 of the debug port has no response.
abbrev memory : Target ℕ ℕ ℕ
memory w kept =
    if bit_and w 15 == 12
    then (kept, [])
    else (let kept' = if bit_and w 3 == 2 then shr w 4 else kept in (kept', (4 + 8 * kept') ∷ []))

abbrev report : Report
report = record { idcode = 7; ctrl_stat = 7; idr = 7; base = 7; ram_ok = true }

abbrev Device : Type 0
Device = Top (ℕ × List ℕ)

abbrev is_empty : List ℕ → Bool
is_empty [] = true
is_empty (x ∷ xs) = false

abbrev behind : List ℕ → List ℕ
behind [] = []
behind (x ∷ xs) = xs

abbrev front : ℕ → List ℕ → ℕ
front r [] = r
front r (x ∷ xs) = x

-- A word is taken, and then one is handed over, while the clock is low.
abbrev taken : Device → ℕ × List ℕ
taken top =
    if top.adiv5_wren && not top.clk
    then (
      (memory top.adiv5_wrdata top.inside.0).0,
      top.inside.1 ++ (memory top.adiv5_wrdata top.inside.0).1,
    )
    else top.inside

abbrev left : Device → List ℕ
left top = if top.adiv5_rden && not top.clk then behind (taken top).1 else (taken top).1

abbrev device : World Device
device = record {
  eval = λ top. record top {
    inside = ((taken top).0, left top);
    adiv5_rdempty = is_empty (left top);
    adiv5_rddata =
        if top.adiv5_rden && not top.clk
        then front top.adiv5_rddata (taken top).1
        else top.adiv5_rddata;
  };
  finished = λ t. false;
  interrupted = λ t. false;
  socket = λ t. record { first_write = true; second_write = true; reply = none };
}

-- The bench at a tick, with what the port last wrote and read.
abbrev bench_at : ℕ → ℕ → ℕ → ℕ → Bool → Rig list_queue Device
bench_at t kept wrdata rddata jtag = record {
  clock = clock_at t 0;
  services = idle_services;
  done = false;
  top = record {
    inside = (kept, []);
    reset_n = 1;
    clk = false;
    phy_clk = false;
    phy_clkn = true;
    jtag_direct = false;
    jtagnswd = jtag;
    adiv5_wren = false;
    adiv5_wrdata = wrdata;
    adiv5_wrfull = false;
    adiv5_rden = false;
    adiv5_rdempty = true;
    adiv5_rddata = rddata;
    jtag_wren = false;
    jtag_wrdata = no_words;
    jtag_wrfull = false;
    jtag_rden = false;
    jtag_rdempty = true;
    jtag_rddata = no_words;
    tck = 0;
    tdi = 0;
    tdo = 0;
    tmsoe = false;
    tmsout = 0;
    tmsin = 0;
  };
}

tested :
    test_if list_queue device 1 1 true (bench_at 40 7 0 0 false)
    ≡ some (report, bench_at 330 0xdeadc0de 15 (4 + 8 * 0xdeadc0de) true)
unfolding test_if full_cycle access wiring adiv5_ports rig_ports Rig.full_cycle Rig.half_cycle
    do_cycle switch_dump past_stop jtag_client_tick step repeat pure ◌>>=◌ modify gets wait_while
    put get probe bench_access check request_word select halt Adiv5.write Adiv5.read Adiv5.dp_write
    Adiv5.dp_read Adiv5.ap_read Adiv5.ap_write
tested = refl

test_if-Selects_example :
    Selects list_queue device true
      (bench_at 40 7 0 0 false).top
      (bench_at 330 0xdeadc0de 15 (4 + 8 * 0xdeadc0de) true).top
unfolding Selects
test_if-Selects_example =
    test_if-Selects list_queue device 1 1 true (bench_at 40 7 0 0 false)
      (bench_at 330 0xdeadc0de 15 (4 + 8 * 0xdeadc0de) true) report (λ top h. h) tested
