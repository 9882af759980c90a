-- ===== src/Intercon.antt =====
-- The main program of ahb3lite_intercon_test/bench/verilator/tb.cpp: the loop that clocks the
-- interconnect test. The class `VerilatorTbUtils`, which the repository does not hold, and the
-- verilated design are arguments. The program that `exit (0)` ends is the loop's last state.
pub mod Loop
use tinylabs_cores.Common.{ℕ, zero, suc, Bool, true, false, not, ◌&&◌, ltb, if◌then◌else◌}

-- `RESET_TIME`
abbrev pub reset_time : ℕ
reset_time = 2

-- `tbUtils`: `doCycle`, which may end the simulation, and `getTime`.
pub record Utils : Type 1 where
  pub State : Type 0
  pub do_cycle : State → State × Bool
  pub get_time : State → ℕ

-- `top`, with what else the design keeps.
pub record Top (Inside : Type 0) : Type 0 where
  pub inside : Inside
  pub clk : Bool
  pub reset : ℕ

-- `top->CLK = 0; top->RESET = 0;`
unfoldable pub low_top : {Inside : Type 0} → Top Inside → Top Inside
low_top top = record top { clk = false; reset = 0 }

module _ (u : Utils) {Inside : Type 0} (eval : Top Inside → Top Inside) where
  -- The body of the loop.
  unfoldable pub body : u.State → Top Inside → Top Inside
  body utils top =
      let released = if ltb reset_time (u.get_time utils) then record top { reset = 1 } else top in
      let evaluated = eval released in record evaluated { clk = not evaluated.clk }

  -- The loop, at most `n` passes, told before each test whether the interrupt has come: the last
  -- state, and whether it has ended.
  unfoldable pub run : ℕ → (u.State → Bool) → u.State → Top Inside → u.State × Top Inside × Bool
  run zero interrupted utils top = (utils, top, false)
  run (suc n) interrupted utils top =
      let (utils', going) = u.do_cycle utils in
      elim (going && not (interrupted utils')) [
        | true ↦ run n interrupted utils' (body utils' top)
        | false ↦ (utils', top, true)
      ]
