-- ===== src/Soc.antt =====
-- cm3_min_soc/bench/verilator/tb.cpp: the main loop that simulates the system on chip, with its
-- reset, its clock, and the JTAG and GPIO servers. The verilated design, `$finish`, the interrupt
-- and the servers' threads are the argument `outside`. `none` is undefined behaviour.
pub mod Loop
pub mod Timeout
use tinylabs_cores.Common.{
  ℕ, zero, suc, Bool, true, false, not, ◌||◌, Option, none, some, List, [], ◌∷◌, length, ltb, ◌&&◌,
  ◌%◌, ◌==◌, bit_and, if◌then◌else◌,
}
use tinylabs_cores.Queue.{ByteQueue}
use tinylabs_cores.Jtag.{Pins}
use tinylabs_cores.Sim.Options.{Parsed}
use tinylabs_cores.Rig.Launch.{Host, new_rig, parse_args}
use tinylabs_cores.Sim.{Clock, do_cycle, Services, jtag_server_tick, gpio_server_tick}

-- `RESET_TIME`
abbrev pub reset_time : ℕ
reset_time = 4

-- The ports of the design that the loop uses, and what else the design keeps. `irq` has 16 bits.
pub record Top (Inside : Type 0) : Type 0 where
  pub inside : Inside
  pub clk : Bool
  pub poresetn : ℕ
  pub irq : ℕ
  pub tck : ℕ
  pub tdi : ℕ
  pub tdo : ℕ
  pub tmsoe : Bool
  pub tmsout : ℕ
  pub tmsin : ℕ

unfoldable pub pins_of : {Inside : Type 0} → Top Inside → Pins
pins_of top = record {
  tck = top.tck;
  tdi = top.tdi;
  tms = if top.tmsoe then top.tmsout else top.tmsin;
  srst = top.poresetn;
}

unfoldable pub drive : {Inside : Type 0} → Pins → Top Inside → Top Inside
drive p top =
    if top.tmsoe
    then record top { tck = p.tck; tdi = p.tdi; tmsout = p.tms; poresetn = p.srst }
    else record top { tck = p.tck; tdi = p.tdi; tmsin = p.tms; poresetn = p.srst }

-- The reset, at the start of the body: it is released once the time is above `RESET_TIME`.
unfoldable pub release : {Inside : Type 0} → ℕ → Top Inside → Top Inside
release t top = if ltb reset_time t then record top { poresetn = 1 } else top

-- Does `doGPIOServer` with so many inputs come to a command that sets or clears one of them?
unfoldable pub touches : ℕ → List ℕ → Bool
touches input_cnt [] = false
touches input_cnt (cmd ∷ cmds) =
    let rest = touches input_cnt cmds in
    if cmd == 0xFF then false else if ltb (bit_and cmd 0x7F) input_cnt then true else rest

module _ (K : ByteQueue) (Inside : Type 0) where
  -- What lies outside the loop: the design, and up to each tick `$finish`, the interrupt, and what
  -- the threads of the servers do to their queues.
  pub record Outside : Type 0 where
    pub eval : Top Inside → Top Inside
    pub finished : ℕ → Bool
    pub interrupted : ℕ → Bool
    pub threads : ℕ → Services K → Services K

  pub record Soc : Type 0 where
    pub clock : Clock
    pub services : Services K
    pub top : Top Inside

  -- `doGPIOServer` is given the port IRQ of 16 bits as a word of 64 bits, so that a command for one of
  -- its pins is an access behind the port. When does this call come to one?
  unfoldable pub overreaches : ℕ → Services K → Bool
  overreaches t services =
      let g = services.gpio_server in
      services.gpio_server_enable
      && (t % g.server.period == 0)
      && g.server.running
      && touches 16 (K.contents g.server.tx)

  -- The body of the loop behind `eval`, at a time and with the services as the threads left them.
  unfoldable pub serve : Clock → Services K → Top Inside → Option Soc
  serve clock' services evaluated =
      let flipped = record evaluated { clk = not evaluated.clk } in
      let (services1, pins) = jtag_server_tick K clock'.t flipped.tdo services (pins_of flipped) in
      let driven = drive pins flipped in
      if overreaches clock'.t services1
      then none
      else elim (gpio_server_tick K (suc (length (K.contents services1.gpio_server.server.tx)))
          clock'.t services1 driven.irq 16 0 0) [
            | none ↦ none
            | some (services2, irq') ↦ some (record {
              clock = clock';
              services = services2;
              top = record driven { irq = irq' };
            })
          ]

  -- The body of the loop.
  unfoldable pub body : Outside → Clock → Services K → Top Inside → Option Soc
  body outside clock' services top = serve clock' services (outside.eval (release clock'.t top))

  -- The condition of the loop and its body: false at the end of the loop.
  unfoldable pub pass : Outside → Soc → Option (Bool × Soc)
  pass outside s =
      let services = outside.threads s.clock.t s.services in
      let (clock', calls, going) = do_cycle (outside.finished s.clock.t) s.clock in
      if not going || outside.interrupted s.clock.t
      then some (false, record s { clock = clock'; services = services })
      else elim (body outside clock' services s.top) [ none ↦ none | some s' ↦ some (true, s') ]

  -- The loop, at most `n` times: has it ended, and where?
  unfoldable pub run : ℕ → Outside → Soc → Option (Bool × Soc)
  run zero outside s = some (false, s)
  run (suc n) outside s = elim (pass outside s) [
    | none ↦ none
    | some (false, s') ↦ some (true, s')
    | some (true, s') ↦ run n outside s'
  ]

  -- `parse_args` on new utilities, with the loaders of a program into the memory of the design, and
  -- the ports that are set before the loop.
  unfoldable pub prepared :
      (host : Host K)
      → (host.Text → Top Inside → Option (Top Inside))
      → (host.Text → Top Inside → Option (Top Inside))
      → List (Parsed host.Text)
      → Top Inside
      → Option Soc
  prepared host elf bin os top = elim (parse_args K host elf bin os (new_rig K host top)) [
    | none ↦ none
    | some b ↦ some (record {
      clock = b.clock;
      services = b.services;
      top = record (b.top) { clk = false; poresetn = 0; irq = 0 };
    })
  ]

  -- The program up to `delete utils`, with at most `n` passes of the loop.
  unfoldable pub program :
      (host : Host K)
      → (host.Text → Top Inside → Option (Top Inside))
      → (host.Text → Top Inside → Option (Top Inside))
      → ℕ
      → List (Parsed host.Text)
      → Outside
      → Top Inside
      → Option (Bool × Soc)
  program host elf bin n os outside top = elim (prepared host elf bin os top) [
    | none ↦ none
    | some s ↦ run n outside s
  ]
