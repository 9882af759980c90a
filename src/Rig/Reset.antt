-- ===== src/Rig/Reset.antt =====
-- The cycles of a bench of ahb3lite_remote_bridge2/bench: two ticks each, with the design in reset
-- up to `RESET_TIME`.
use tinylabs_cores.Common.{
  ℕ, zero, suc, ◌+◌, ◌*◌, ◌^◌, ◌<◌, ◌≡◌, refl, sym, ap, ◌∙◌, true, false, not, ◌&&◌, some, ltb, leb,
  ◌==◌, if◌then◌else◌, arith,
}
use mathlib.Core.Path.{subst}
use tinylabs_cores.Queue.{ByteQueue}
use tinylabs_cores.Jtag.{Lines}
use tinylabs_cores.Sim.{do_cycle, jtag_client_tick}
use tinylabs_cores.Sim.Cycle.{timed, tested, ticked, cycle_tick, switch-keeps, u64-step}
use tinylabs_cores.Script.{pure, step, step-some, bind-some, repeat}
use tinylabs_cores.Rig.{Rig, Wiring, World, reset_time, half_cycle, full_cycle}

-- The port of the reset: only `set_reset_n` changes it.
pub record ResetPort {Top : Type 0} (wiring : Wiring Top) (world : World Top) : Type 0 where
  pub reset_n : Top → ℕ
  pub of_set : (level : ℕ) (top : Top) → reset_n (wiring.set_reset_n level top) ≡ level
  pub of_flip : (top : Top) → reset_n (wiring.flip_clocks top) ≡ reset_n top
  pub of_lines : (l : Lines) (top : Top) → reset_n (wiring.set_lines l top) ≡ reset_n top
  pub of_eval : (top : Top) → reset_n (world.eval top) ≡ reset_n top

-- Nothing outside the bench ends the program.
pub record Quiet {Top : Type 0} (world : World Top) : Type 0 where
  pub unfinished : (t : ℕ) → world.finished t ≡ false
  pub uninterrupted : (t : ℕ) → world.interrupted t ≡ false

module _ (K : ByteQueue) (Top : Type 0) (wiring : Wiring Top) (world : World Top)
    (q : Quiet world) where
  -- A bench without a timeout, not done, and without a JTAG client.
  pub record Free (b : Rig K Top) : Type 0 where
    pub no_timeout : b.clock.timeout ≡ 0
    pub not_done : b.done ≡ false
    pub no_client : b.services.jtag_client_enable ≡ false

  no_limit : (limit t : ℕ) → limit ≡ 0 → (not (limit == 0) && leb limit t) ≡ false
  no_limit limit t h = ground arith

  -- What `_doCycle` then leaves.
  abbrev pub after : Rig K Top → Rig K Top
  after b =
      let evaluated =
        world.eval
          (wiring.set_reset_n (if ltb reset_time (ticked b.clock).t then 1 else 0) b.top) in
      let top' = wiring.flip_clocks evaluated in
      record b { clock = ticked b.clock; top = wiring.set_lines (wiring.lines top') top' }

  half_cycle-Free : (b : Rig K Top) → Free b → half_cycle K Top wiring world b ≡ some (after b)
  unfolding half_cycle jtag_client_tick
  half_cycle-Free b f =
      let early : timed (tested b.clock) ≡ false =
        no_limit (tested b.clock).timeout (tested b.clock).t
          ((switch-keeps b.clock).1 ∙ f.no_timeout) in
      let e : do_cycle (world.finished b.clock.t) b.clock ≡ (ticked b.clock, _, true) =
        ap (λ x. do_cycle x b.clock) (q.unfinished b.clock.t) ∙ cycle_tick b.clock early in
      simp (e, f.not_done, q.uninterrupted b.clock.t, f.no_client) refl

  pub after-Free : (b : Rig K Top) → Free b → Free (after b)
  after-Free b f = record {
    no_timeout = (switch-keeps b.clock).1 ∙ f.no_timeout;
    not_done = f.not_done;
    no_client = f.no_client;
  }

  after-time : (b : Rig K Top) → b.clock.t + 1 < 2 ^ 64 → (after b).clock.t ≡ b.clock.t + 1
  after-time b fits = u64-step (tested b.clock).t b.clock.t (switch-keeps b.clock).0 fits

  -- Such a bench goes on for any number of cycles.
  pub full_cycle-Free :
      (b : Rig K Top)
      → Free b
      → (b' : Rig K Top) × (full_cycle K Top wiring world b ≡ some b') × Free b'
  unfolding full_cycle
  full_cycle-Free b f =
      let f1 = after-Free b f in
      (
        after (after b),
        rw (full_cycle, half_cycle-Free b f) (half_cycle-Free (after b) f1),
        after-Free (after b) f1,
      )

  pub full_cycle-after :
      (b : Rig K Top) → Free b → full_cycle K Top wiring world b ≡ some (after (after b))
  unfolding full_cycle-Free
  full_cycle-after b f = (full_cycle-Free b f).1

  pub cycles-Free :
      (n : ℕ) (b : Rig K Top)
      → Free b
      → (b' : Rig K Top) × (repeat n (step (full_cycle K Top wiring world)) b ≡ some (tt, b'))
        × Free b'
  unfolding repeat pure
  cycles-Free zero b f = (b, refl, f)
  cycles-Free (suc n) b f =
      let (b1, s, f1) = full_cycle-Free b f in
      let (b2, more, f2) = cycles-Free n b1 f1 in
      (b2, bind-some (step _) _ (step-some _ s) ∙ more, f2)

  module _ (r : ResetPort wiring world) where
    -- The bench at a time, with the reset that is due then.
    abbrev pub At : ℕ → Rig K Top → Type 0
    At t b = Free b × (b.clock.t ≡ t) × (r.reset_n b.top ≡ (if ltb reset_time t then 1 else 0))

    after-At :
        (b : Rig K Top) (t : ℕ) → Free b → b.clock.t ≡ t → t + 1 < 2 ^ 64 → At (t + 1) (after b)
    after-At b t f e fits =
        let now : (after b).clock.t ≡ t + 1 =
          after-time b (omega (arith, e, fits)) ∙ ap (λ x. x + 1) e in
        (
          after-Free b f,
          now,
          r.of_lines _ _
              ∙ r.of_flip _
              ∙ r.of_eval _
              ∙ r.of_set _ _
              ∙ ap (λ x. if ltb reset_time x then 1 else 0) now,
        )

    full_cycle-At :
        (b : Rig K Top) (t : ℕ)
        → Free b
        → b.clock.t ≡ t
        → t + 2 < 2 ^ 64
        → (b' : Rig K Top) × (full_cycle K Top wiring world b ≡ some b') × At (t + 1 + 1) b'
    unfolding full_cycle
    full_cycle-At b t f e fits =
        let (f1, e1, _) = after-At b t f e (omega arith) in
        (
          after (after b),
          rw (full_cycle, half_cycle-Free b f) (half_cycle-Free (after b) f1),
          after-At (after b) (t + 1) f1 e1 (omega arith),
        )

    cycles-At :
        (n m : ℕ) (b : Rig K Top)
        → Free b
        → b.clock.t + suc n * 2 < 2 ^ 64
        → m ≡ b.clock.t + suc n * 2
        → (b' : Rig K Top) × (repeat (suc n) (step (full_cycle K Top wiring world)) b
            ≡ some (tt, b'))
          × At m b'
    unfolding repeat pure
    cycles-At zero m b f fits e =
        let (b1, s, a) = full_cycle-At b b.clock.t f refl (omega (arith, fits)) in
        (
          b1,
          bind-some (step _) _ (step-some _ s),
          subst (λ x. At x b1) (sym (arrives m b.clock.t e)) a,
        )
      where
        arrives : (m t : ℕ) → m ≡ t + 1 * 2 → m ≡ t + 1 + 1
        arrives m t e = omega (arith, e)
    cycles-At (suc n) m b f fits e =
        let (b1, s, (f1, e1, _)) = full_cycle-At b b.clock.t f refl (omega (arith, fits)) in
        let (b2, more, a) = cycles-At n m b1 f1 (omega (arith, fits, e1)) (omega (arith, e, e1)) in
        (b2, bind-some (step _) _ (step-some _ s) ∙ more, a)

    -- From a bench that is not done, without a timeout and without a JTAG client, where nothing
    -- outside ends the program and only `_doCycle` sets the reset, one or more calls of `doCycle`
    -- all end, the time goes on by two ticks for each, and the design is out of its reset exactly
    -- once the time is above `RESET_TIME`, as long as the time stays below 2^64.
    pub cycles-reset :
        (n : ℕ) (b : Rig K Top)
        → Free b
        → b.clock.t + suc n * 2 < 2 ^ 64
        → (b' : Rig K Top) × (repeat (suc n) (step (full_cycle K Top wiring world)) b
            ≡ some (tt, b'))
          × At (b.clock.t + suc n * 2) b'
    cycles-reset n b f fits = cycles-At n (b.clock.t + suc n * 2) b f fits refl
