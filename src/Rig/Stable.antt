-- ===== src/Rig/Stable.antt =====
-- What a cycle of a bench of ahb3lite_remote_bridge2/bench does not change.
use tinylabs_cores.Common.{
  ℕ, ◌≡◌, refl, ap, Bool, true, false, not, ◌||◌, Option, none, some, ltb, if◌then◌else◌, arith,
}
use mathlib.Core.Path.{subst}
use tinylabs_cores.Queue.{ByteQueue}
use tinylabs_cores.Jtag.{Lines, Outcome, exited, returned}
use tinylabs_cores.Sim.{do_cycle, jtag_client_tick}
use tinylabs_cores.Rig
use tinylabs_cores.Rig.{Rig, Wiring, World, reset_time}

-- A property of the design's ports that none of the parts of a cycle changes is kept by a cycle.
pub record Stable {Top : Type 0} (wiring : Wiring Top) (world : World Top) (Q : Top → Type 0)
    : Type 0 where
  pub of_set : (level : ℕ) (top : Top) → Q top → Q (wiring.set_reset_n level top)
  pub of_eval : (top : Top) → Q top → Q (world.eval top)
  pub of_flip : (top : Top) → Q top → Q (wiring.flip_clocks top)
  pub of_lines : (l : Lines) (top : Top) → Q top → Q (wiring.set_lines l top)

module _ (K : ByteQueue) {Top : Type 0} (wiring : Wiring Top) (world : World Top) (Q : Top → Type 0)
    (stable : Stable wiring world Q) where
  of_some : Rig K Top → Option (Rig K Top) → Rig K Top
  of_some b none = b
  of_some b (some b') = b'

  survives :
      (ends : Bool) (o : Outcome) (f : Lines → Rig K Top) (b' : Rig K Top)
      → ((l : Lines) → Q (f l).top)
      → (if ends then none else elim o [ exited sent ↦ none | returned sent l ↦ some (f l) ])
        ≡ some b'
      → Q b'.top
  unfolding of_some
  survives true o f b' h e = ground (arith, e)
  survives false (exited sent) f b' h e = ground (arith, e)
  survives false (returned sent l) f b' h e =
      subst (λ (c : Rig K Top). Q c.top) (ap (of_some (f l)) e) (h l)

  half_cycle-stable :
      (b b' : Rig K Top) → Q b.top → Rig.half_cycle K Top wiring world b ≡ some b' → Q b'.top
  unfolding Rig.half_cycle
  half_cycle-stable b b' p e =
      let (c, calls, going) = do_cycle (world.finished b.clock.t) b.clock in
      let top' =
        wiring.flip_clocks
          (world.eval (wiring.set_reset_n (if ltb reset_time c.t then 1 else 0) b.top)) in
      survives (not going || (b.done || world.interrupted b.clock.t))
        (jtag_client_tick K c.t (world.socket c.t) (wiring.tck top') (wiring.tdi top')
          (wiring.tmsoe top') b.services (wiring.lines top'))
        (λ l. record b { clock = c; top = wiring.set_lines l top' }) b'
        (λ l. stable.of_lines l _ (stable.of_flip _ (stable.of_eval _ (stable.of_set _ _ p)))) e

  pub full_cycle-stable :
      (b b' : Rig K Top) → Q b.top → Rig.full_cycle K Top wiring world b ≡ some b' → Q b'.top
  unfolding Rig.full_cycle
  full_cycle-stable b b' p e = twice (Rig.half_cycle K Top wiring world b) (half_cycle-stable b) e
    where
      twice :
          (o : Option (Rig K Top))
          → ((b1 : Rig K Top) → Q b.top → o ≡ some b1 → Q b1.top)
          → (elim o [ none ↦ none | some b1 ↦ Rig.half_cycle K Top wiring world b1 ]) ≡ some b'
          → Q b'.top
      twice none h e = ground (arith, e)
      twice (some b1) h e = half_cycle-stable b1 b' (h b1 p refl) e
