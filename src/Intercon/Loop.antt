-- ===== src/Intercon/Loop.antt =====
-- The clock and the reset that the main loop of ahb3lite_intercon_test/bench/verilator/tb.cpp drives.
use tinylabs_cores.Common.{
  ℕ, zero, suc, ◌≤◌, ◌≡◌, refl, ap, ◌∙◌, Bool, true, false, not, ltb, if◌then◌else◌, Bool-cases,
  inl, inr, arith,
}
use tinylabs_cores.Intercon.{Utils, Top, low_top, reset_time, body, run}

-- The level of RESET that is due at a time.
abbrev pub level : ℕ → ℕ
level t = if ltb reset_time t then 1 else 0

-- A level that changes at each pass.
abbrev pub flips : ℕ → Bool → Bool
flips zero c = c
flips (suc n) c = flips n (not c)

module _ (u : Utils) {Inside : Type 0} (eval : Top Inside → Top Inside) where
  -- Time does not go back, and the design does not drive its inputs.
  pub record Behaves : Type 0 where
    pub goes_up : (s : u.State) → u.get_time s ≤ u.get_time (u.do_cycle s).0
    pub keeps_clk : (top : Top Inside) → (eval top).clk ≡ top.clk
    pub keeps_reset : (top : Top Inside) → (eval top).reset ≡ top.reset

  -- The state behind `n` calls of `doCycle`.
  abbrev pub cycled : ℕ → u.State → u.State
  cycled zero s = s
  cycled (suc n) s = cycled n (u.do_cycle s).0

  -- For `n` passes neither `doCycle` nor the interrupt ends the loop.
  abbrev pub GoesOn : ℕ → (u.State → Bool) → u.State → Type 0
  GoesOn zero interrupted s = Unit
  GoesOn (suc n) interrupted s =
      ((u.do_cycle s).1 ≡ true)
      × (interrupted (u.do_cycle s).0 ≡ false)
      × GoesOn n interrupted (u.do_cycle s).0

  released :
      (b : Bool) (t t' r : ℕ)
      → t ≤ t'
      → r ≡ level t
      → (if ltb reset_time t' then 1 else r) ≡ level t'
  released b t t' r h e = ground (arith, h, e)

  module _ (b : Behaves) where
    body-level :
        (t : ℕ) (utils : u.State) (top : Top Inside)
        → t ≤ u.get_time utils
        → top.reset ≡ level t
        → ((body u eval utils top).reset ≡ level (u.get_time utils))
          × ((body u eval utils top).clk ≡ not top.clk)
    unfolding body
    body-level t utils top h e = elim (Bool-cases (ltb reset_time (u.get_time utils))) [
      | inl late ↦ rw late (b.keeps_reset _, ap not (b.keeps_clk _))
      | inr early ↦ rw early (b.keeps_reset _ ∙ ground (arith, e, h, early), ap not (b.keeps_clk _))
    ]

    run-levels :
        (n : ℕ) (interrupted : u.State → Bool) (utils : u.State) (top : Top Inside)
        → GoesOn n interrupted utils
        → top.reset ≡ level (u.get_time utils)
        → (top' : Top Inside) × (run u eval n interrupted utils top ≡ (cycled n utils, top', false))
          × (top'.reset ≡ level (u.get_time (cycled n utils)))
          × (top'.clk ≡ flips n top.clk)
    unfolding run
    run-levels zero interrupted utils top goes e = (top, refl, e, refl)
    run-levels (suc n) interrupted utils top (going, quiet, goes) e =
        let utils' = (u.do_cycle utils).0 in
        let (reset, clk) = body-level (u.get_time utils) utils' top (b.goes_up utils) e in
        let (top', runs, reset', clk') =
          run-levels n interrupted utils' (body u eval utils' top) goes reset in
        (top', rw (going, quiet, run) runs, reset', clk' ∙ ap (flips n) clk)

    -- On utilities whose time does not go back, from a time within `RESET_TIME`, and on a design that
    -- does not drive its own inputs: as long as neither `doCycle` nor the interrupt ends the main
    -- loop, after `n` passes `doCycle` has been called `n` times, RESET is high exactly where the
    -- time is above `RESET_TIME`, and CLK is low where `n` is even and high where it is odd.
    pub main_levels :
        (n : ℕ) (interrupted : u.State → Bool) (utils : u.State) (top : Top Inside)
        → u.get_time utils ≤ reset_time
        → GoesOn n interrupted utils
        → (top' : Top Inside) × (run u eval n interrupted utils (low_top top)
            ≡ (cycled n utils, top', false))
          × (top'.reset ≡ level (u.get_time (cycled n utils)))
          × (top'.clk ≡ flips n false)
    unfolding low_top
    main_levels n interrupted utils top early goes =
        run-levels n interrupted utils (low_top top) goes (ground (arith, early))
