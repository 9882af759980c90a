-- ===== src/Sim.antt =====
-- verilator_utils/verilator_utils.cpp and verilator_utils.h: the clock of a simulation, the window
-- in which it writes a trace, and the services that it calls. The trace file, `$finish` and the
-- sockets are outside the program: calls of the first are listed, the others are arguments. The
-- lines that print are left out.
pub mod Cycle
pub mod Window
pub mod Options
pub mod Load
use tinylabs_cores.Common.{
  ℕ, zero, suc, ◌+◌, ◌%◌, Bool, true, false, not, ◌&&◌, Option, none, some, List, [], ◌∷◌, ◌++◌,
  leb, ◌==◌, if◌then◌else◌, u64,
}
use tinylabs_cores.Queue.{ByteQueue}
use tinylabs_cores.Server.{Server}
use tinylabs_cores.Uart.{Uart, do_uart_server}
use tinylabs_cores.Gpio.{GpioServer, GpioClient, do_gpio_server, do_gpio_client}
use tinylabs_cores.Jtag.{
  Pins, Lines, Socket, Outcome, exited, returned, do_jtag_server, do_jtag_client,
}

-- The fields of `VerilatorUtils` that `doCycle` reads and writes.
pub record Clock : Type 0 where
  pub t : ℕ
  pub timeout : ℕ
  pub fst_dump : Bool
  pub fst_dump_start : ℕ
  pub fst_dump_stop : ℕ
  pub fst_dumping : Bool

-- What the constructor leaves: it does not set `fstDumping`, whose value is then arbitrary.
unfoldable pub new_clock : Bool → Clock
new_clock indeterminate = record {
  t = 0;
  timeout = 0;
  fst_dump = false;
  fst_dump_start = 0;
  fst_dump_stop = 0;
  fst_dumping = indeterminate;
}

-- A call on the trace file `tfp`.
pub data TraceCall : Type 0 where
  open_trace : TraceCall
  dump : ℕ → TraceCall
  flush_trace : TraceCall
  close_trace : TraceCall

-- `fstDumpStop && t >= fstDumpStop`
unfoldable pub past_stop : Clock → Bool
past_stop c = not (c.fst_dump_stop == 0) && leb c.fst_dump_stop c.t

-- The first statement of `doCycle`.
unfoldable pub switch_dump : Clock → Clock × List TraceCall
switch_dump c =
    if past_stop c
    then (
      record c { fst_dumping = false },
      if c.fst_dumping then flush_trace ∷ close_trace ∷ [] else [],
    )
    else if c.fst_dump && leb c.fst_dump_start c.t
    then (record c { fst_dumping = true }, if c.fst_dumping then [] else open_trace ∷ [])
    else (c, [])

-- `doCycle`, told whether the model has called `$finish`: the new clock, the calls on the trace
-- file, and the result.
unfoldable pub do_cycle : Bool → Clock → Clock × List TraceCall × Bool
do_cycle finished c =
    let (c', calls) = switch_dump c in
    let calls' = calls ++ (if c'.fst_dumping then dump c'.t ∷ [] else []) in
    if not (c'.timeout == 0) && leb c'.timeout c'.t
    then (c', calls', false)
    else if finished
    then (c', calls' ++ (flush_trace ∷ close_trace ∷ []), false)
    else (record c' { t = u64 (c'.t + 1) }, calls', true)

-- The destructor's calls, told whether the trace file is open.
pub destroy : Bool → Clock → List TraceCall
destroy is_open c = if c.fst_dumping && is_open then flush_trace ∷ close_trace ∷ [] else []

-- The loop round `doCycle`: it goes on where the cycle returned true.
unfoldable pub go_on :
    Clock × List TraceCall × Bool
    → (Clock → Clock × List TraceCall × Bool)
    → Clock × List TraceCall × Bool
go_on (c, calls, true) rest = let (c', later, ended) = rest c in (c', calls ++ later, ended)
go_on (c, calls, false) rest = (c, calls, true)

-- `while (doCycle ()) …`, at most `n` times: the clock, all calls, and whether it ended by itself.
unfoldable pub run_cycles : ℕ → (ℕ → Bool) → Clock → Clock × List TraceCall × Bool
run_cycles zero finished c = (c, [], false)
run_cycles (suc n) finished c = go_on (do_cycle (finished c.t) c) (run_cycles n finished)

-- The services, and which of them are on.
pub record Services (K : ByteQueue) : Type 0 where
  pub jtag_server : Server K
  pub uart_server : Uart K
  pub jtag_client_period : ℕ
  pub gpio_server : GpioServer K
  pub gpio_client : GpioClient
  pub jtag_server_enable : Bool
  pub uart_server_enable : Bool
  pub jtag_client_enable : Bool
  pub gpio_server_enable : Bool
  pub gpio_client_enable : Bool

-- `(t % period) == 0`
abbrev on_beat : ℕ → ℕ → Bool
on_beat t period = t % period == 0

module _ (K : ByteQueue) where
  -- `VerilatorUtils::doJTAGServer`. (A null `srst` is a pin that nobody reads.)
  unfoldable pub jtag_server_tick : ℕ → ℕ → Services K → Pins → Services K × Pins
  jtag_server_tick t tdo s p =
      if s.jtag_server_enable && on_beat t s.jtag_server.period
      then (let (j, p') = do_jtag_server K s.jtag_server tdo p in
          (record s { jtag_server = j }, p'))
      else (s, p)

  -- `VerilatorUtils::doUARTServer`
  pub uart_server_tick : ℕ → Bool → Services K → Bool → Services K × Bool
  uart_server_tick t tx s rx =
      if s.uart_server_enable
      then (let (u, rx') = do_uart_server K s.uart_server t tx rx in
          (record s { uart_server = u }, rx'))
      else (s, rx)

  -- `VerilatorUtils::doJTAGClient`, which changes the pins only.
  unfoldable pub jtag_client_tick : ℕ → Socket → ℕ → ℕ → Bool → Services K → Lines → Outcome
  jtag_client_tick t io tck tdi tmsoe s l =
      if s.jtag_client_enable && on_beat t s.jtag_client_period
      then do_jtag_client io tck tdi tmsoe l
      else returned [] l

  -- `VerilatorUtils::doGPIOServer`
  unfoldable pub gpio_server_tick : ℕ → ℕ → Services K → ℕ → ℕ → ℕ → ℕ → Option (Services K × ℕ)
  gpio_server_tick fuel t s input input_cnt output output_cnt =
      if s.gpio_server_enable && on_beat t s.gpio_server.server.period
      then elim (do_gpio_server K fuel s.gpio_server input input_cnt output output_cnt) [
        | none ↦ none
        | some (g, input') ↦ some (record s { gpio_server = g }, input')
      ]
      else some (s, input)

  -- `VerilatorUtils::doGPIOClient`: also the bytes written and those left to read.
  pub gpio_client_tick :
      ℕ → List ℕ → Services K → ℕ → ℕ → ℕ → ℕ → Option (Services K × ℕ × List ℕ × List ℕ)
  gpio_client_tick t socket s input input_cnt output output_cnt =
      if s.gpio_client_enable && on_beat t s.gpio_client.period
      then elim (do_gpio_client s.gpio_client socket input input_cnt output output_cnt) [
        | none ↦ none
        | some (g, input', written, left) ↦
            some (record s { gpio_client = g }, input', written, left)
      ]
      else some (s, input, [], socket)
