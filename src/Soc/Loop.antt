-- ===== src/Soc/Loop.antt =====
-- The main loop of cm3_min_soc/bench/verilator/tb.cpp ends, and what the debugger can do to the reset.
use tinylabs_cores.Common.{
  ℕ, zero, suc, ◌+◌, ◌-◌, ◌^◌, ◌≤◌, ◌<◌, ◌≡◌, ◌≢◌, refl, sym, ap, ◌∙◌, Bool, true, false, not, ◌||◌,
  some, List, ltb, arith, Bool-cases, if-both, inl, inr, u64,
}
use mathlib.Core.Path.{subst}
use tinylabs_cores.Queue.{ByteQueue}
use tinylabs_cores.Jtag.{Pins}
use tinylabs_cores.Sim.{Clock, do_cycle, TraceCall, Services, jtag_server_tick, gpio_server_tick}
use tinylabs_cores.Sim.Cycle.{
  timed, tested, cycle_tick, cycle_timeout, cycle_finish, switch-keeps, u64-step, not_reached,
}
use tinylabs_cores.Soc.{
  Top, Outside, Soc, release, pins_of, drive, overreaches, serve, body, pass, run, reset_time,
}

-- A cycle with a timeout that has not passed: where it leads to, and what it means that it goes on.
abbrev CycleEnd : ℕ → ℕ → Clock × List TraceCall × Bool → Type 0
CycleEnd limit t (c, calls, going) =
    (c.timeout ≡ limit) × (c.t ≤ limit) × (going ≡ true → c.t ≡ t + 1)

cycle_end :
    (limit : ℕ) (f : Bool) (c : Clock)
    → limit ≢ 0
    → limit < 2 ^ 64
    → c.timeout ≡ limit
    → c.t ≤ limit
    → CycleEnd limit c.t (do_cycle f c)
cycle_end limit f c set fits this before =
    let (st, sto) = switch-keeps c in
    elim (Bool-cases (timed (tested c))) [
      | inl late ↦
          subst (CycleEnd limit c.t) (sym (cycle_timeout c f late))
            (sto ∙ this, omega (arith, st, before), λ e. ground (arith, e))
      | inr early ↦ elim (Bool-cases f) [
        | inl finish ↦
            subst (CycleEnd limit c.t) (sym (ap (λ x. do_cycle x c) finish ∙ cycle_finish c early))
              (sto ∙ this, omega (arith, st, before), λ e. ground (arith, e))
        | inr going ↦
            let left : (tested c).t < (tested c).timeout =
              not_reached (tested c).timeout (tested c).t (λ e. set (sym (sto ∙ this) ∙ e)) early in
            let tick : u64 ((tested c).t + 1) ≡ c.t + 1 =
              u64-step (tested c).t c.t st (omega arith) in
            subst (CycleEnd limit c.t) (sym (ap (λ x. do_cycle x c) going ∙ cycle_tick c early))
              (sto ∙ this, omega (arith, tick, left, st, sto, this), λ e. tick)
      ]
    ]

module _ (K : ByteQueue) where
  module _ {Inside : Type 0} (outside : Outside K Inside) where
    -- The GPIO server is off, and the threads of the servers do not turn it on.
    abbrev pub IsOff : Services K → Type 0
    IsOff services = services.gpio_server_enable ≡ false

    abbrev pub KeepOff : Type 0
    KeepOff = (t : ℕ) (services : Services K) → IsOff services → IsOff (outside.threads t services)

    -- What the body uses of the services: the JTAG server leaves the GPIO server off.
    jtag-IsOff :
        (t tdo : ℕ) (services : Services K) (p : Pins)
        → IsOff services
        → IsOff (jtag_server_tick K t tdo services p).0
    unfolding jtag_server_tick
    jtag-IsOff t tdo services p off = if-both (λ (r : Services K × Pins). IsOff r.0) _ _ _ off off

    overreaches-off :
        (t : ℕ) (services : Services K) → IsOff services → overreaches K Inside t services ≡ false
    unfolding overreaches
    overreaches-off t services off = rw off refl

    tick-off :
        (fuel t x : ℕ) (services : Services K)
        → IsOff services
        → gpio_server_tick K fuel t services x 16 0 0 ≡ some (services, x)
    unfolding gpio_server_tick
    tick-off fuel t x services off = rw off refl

    -- The body is defined, and leaves the clock to `doCycle`.
    body_total :
        (c : Clock) (services : Services K) (top : Top Inside)
        → IsOff services
        → (s : Soc K Inside) × (body K Inside outside c services top ≡ some s)
          × (s.clock ≡ c)
          × IsOff s.services
    unfolding body serve
    body_total c services top off =
        let evaluated = outside.eval (release c.t top) in
        let flipped = record evaluated { clk = not evaluated.clk } in
        let (services1, pins) = jtag_server_tick K c.t flipped.tdo services (pins_of flipped) in
        let off1 : IsOff services1 = jtag-IsOff c.t flipped.tdo services (pins_of flipped) off in
        (
          record {
            clock = c;
            services = services1;
            top = record (drive pins flipped) { irq = (drive pins flipped).irq };
          },
          rw (overreaches-off c.t services1 off1, tick-off _ c.t _ services1 off1) refl,
          refl,
          off1,
        )

    -- How a pass of the loop goes: the clock is that of `doCycle`, and the loop goes on only where
    -- `doCycle` returned true.
    pass_total :
        (s : Soc K Inside)
        → KeepOff
        → IsOff s.services
        → (more : Bool) × (s' : Soc K Inside) × (pass K Inside outside s ≡ some (more, s'))
          × (s'.clock ≡ (do_cycle (outside.finished s.clock.t) s.clock).0)
          × IsOff s'.services
          × (more ≡ true → (do_cycle (outside.finished s.clock.t) s.clock).2 ≡ true)
    unfolding pass
    pass_total s keep off =
        let services = outside.threads s.clock.t s.services in
        let off1 : IsOff services = keep s.clock.t s.services off in
        let (c, calls, going) = do_cycle (outside.finished s.clock.t) s.clock in
        elim (Bool-cases (not going || outside.interrupted s.clock.t)) [
          | inl stop ↦ (
            false,
            record s { clock = c; services = services },
            rw stop refl,
            refl,
            off1,
            λ e. ground (arith, e),
          )
          | inr on ↦
              let (s', e, same, off2) = body_total c services s.top off1 in
              (
                true,
                s',
                rw (on, e) refl,
                same,
                off2,
                λ _. goes going (outside.interrupted s.clock.t) on,
              )
        ]
      where
        goes : (a b : Bool) → (not a || b) ≡ false → a ≡ true
        goes a b h = ground (arith, h)

    run_more :
        (n : ℕ) (s s' : Soc K Inside)
        → pass K Inside outside s ≡ some (true, s')
        → run K Inside (suc n) outside s ≡ run K Inside n outside s'
    unfolding run
    run_more n s s' e = rw (e, run) refl

    run_done :
        (n : ℕ) (s s' : Soc K Inside)
        → pass K Inside outside s ≡ some (false, s')
        → run K Inside (suc n) outside s ≡ some (true, s')
    unfolding run
    run_done n s s' e = rw (e, run) refl

    ends :
        (limit n : ℕ) (s : Soc K Inside)
        → KeepOff
        → IsOff s.services
        → limit ≢ 0
        → limit < 2 ^ 64
        → s.clock.timeout ≡ limit
        → s.clock.t ≤ limit
        → limit - s.clock.t < n
        → (s' : Soc K Inside) × (run K Inside n outside s ≡ some (true, s')) × (s'.clock.t ≤ limit)
    unfolding run
    ends limit zero s keep off set fits this before enough = absurd (omega arith)
    ends limit (suc n) s keep off set fits this before enough =
        let (more, s', e, same, off', on) = pass_total s keep off in
        let (sto, st, going) =
          cycle_end limit (outside.finished s.clock.t) s.clock set fits this before in
        let time : s'.clock.t ≤ limit = subst (λ (c : Clock). c.t ≤ limit) (sym same) st in
        elim (Bool-cases more) [
          | inl more_on ↦
              let tick : s'.clock.t ≡ s.clock.t + 1 =
                ap (λ (c : Clock). c.t) same ∙ going (on more_on) in
              let (s2, run, end) =
                ends limit n s' keep off' set fits (ap (λ (c : Clock). c.timeout) same ∙ sto) time
                  (omega (arith, tick, enough, before)) in
              (s2, run_more n s s' (e ∙ ap (λ m. some (m, s')) more_on) ∙ run, end)
          | inr more_off ↦ (s', run_done n s s' (e ∙ ap (λ m. some (m, s')) more_off), time)
        ]

    -- Whatever the threads of the servers put into the queues and the design does, with a timeout
    -- below 2^64 that has not passed yet, and with a GPIO server that is off and stays so, every pass
    -- of the main loop is defined, and the loop ends at the timeout or before it, if it may take more
    -- passes than there are ticks left.
    pub soc_run-ends :
        (n : ℕ) (s : Soc K Inside)
        → KeepOff
        → IsOff s.services
        → s.clock.timeout ≢ 0
        → s.clock.t ≤ s.clock.timeout
        → s.clock.timeout < 2 ^ 64
        → s.clock.timeout - s.clock.t < n
        → (s' : Soc K Inside) × (run K Inside n outside s ≡ some (true, s'))
          × (s'.clock.t ≤ s.clock.timeout)
    soc_run-ends n s keep off set before fits enough =
        ends s.clock.timeout n s keep off set fits refl before enough

    release-any :
        (t x y : ℕ) (top : Top Inside)
        → ltb reset_time t ≡ true
        → release t (record top { poresetn = x }) ≡ release t (record top { poresetn = y })
    unfolding release
    release-any t x y top h = rw h refl

    -- Once the time is above `RESET_TIME`, the body of the loop leads to the same state whatever
    -- level the JTAG server has left at the reset: the design is not shown a reset that a debugger
    -- asks for.
    pub body-reset :
        (c : Clock) (services : Services K) (x y : ℕ) (top : Top Inside)
        → reset_time < c.t
        → body K Inside outside c services (record top { poresetn = x })
          ≡ body K Inside outside c services (record top { poresetn = y })
    unfolding body
    body-reset c services x y top late =
        ap (λ shown. serve K Inside c services (outside.eval shown))
          (release-any c.t x y top (ground arith))
