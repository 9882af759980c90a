-- ===== src/Rig.antt =====
-- What the benches of ahb3lite_remote_bridge2/bench share: a class that extends `VerilatorUtils` by
-- a verilated design, and its `_doCycle` and `doCycle`. (The code is repeated in each bench; the
-- lines are those of jtag_phy_tb.cpp.) The design's evaluation and what lies outside the program
-- are arguments, `World`. `none` is the end of the program by `exit`.
pub mod Reset
pub mod Main
pub mod Stable
pub mod Ports
pub mod Launch
pub mod Launched
use tinylabs_cores.Common.{
  ℕ, ◌+◌, Bool, true, false, not, ◌||◌, Option, none, some, ltb, if◌then◌else◌,
}
use tinylabs_cores.Queue.{ByteQueue}
use tinylabs_cores.Jtag.{Lines, Socket, exited, returned}
use tinylabs_cores.Sim.{Clock, do_cycle, Services, jtag_client_tick}

-- `RESET_TIME`
abbrev pub reset_time : ℕ
reset_time = 10

-- How a bench reaches the ports of its design: its reset, its clocks, and the pins that it hands to
-- the JTAG client.
pub record Wiring (Top : Type 0) : Type 0 where
  pub set_reset_n : ℕ → Top → Top
  pub flip_clocks : Top → Top
  pub tck : Top → ℕ
  pub tdi : Top → ℕ
  pub tmsoe : Top → Bool
  pub lines : Top → Lines
  pub set_lines : Lines → Top → Top

-- What lies outside the bench: the design, and at each tick `$finish`, the interrupt and the
-- socket of the JTAG client.
pub record World (Top : Type 0) : Type 0 where
  pub eval : Top → Top
  pub finished : ℕ → Bool
  pub interrupted : ℕ → Bool
  pub socket : ℕ → Socket

module _ (K : ByteQueue) (Top : Type 0) where
  -- A bench: its base, the static `done` and the design.
  pub record Rig : Type 0 where
    pub clock : Clock
    pub services : Services K
    pub done : Bool
    pub top : Top

  -- `_doCycle`
  unfoldable pub half_cycle : Wiring Top → World Top → Rig → Option Rig
  half_cycle wiring world b =
      let (clock', calls, going) = do_cycle (world.finished b.clock.t) b.clock in
      if not going || (b.done || world.interrupted b.clock.t)
      then none
      else let evaluated =
          world.eval (wiring.set_reset_n (if ltb reset_time clock'.t then 1 else 0) b.top) in
        let top' = wiring.flip_clocks evaluated in
        elim (jtag_client_tick K clock'.t (world.socket clock'.t) (wiring.tck top')
          (wiring.tdi top') (wiring.tmsoe top') b.services (wiring.lines top')) [
            | exited sent ↦ none
            | returned sent l ↦ some (record b { clock = clock'; top = wiring.set_lines l top' })
          ]

  -- `doCycle`
  unfoldable pub full_cycle : Wiring Top → World Top → Rig → Option Rig
  full_cycle wiring world b = elim (half_cycle wiring world b) [
    | none ↦ none
    | some b' ↦ half_cycle wiring world b'
  ]
