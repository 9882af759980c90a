-- ===== src/Fifo.antt =====
-- What the benches of ahb3lite_remote_bridge2/bench share in how they use a pair of FIFOs of the
-- verilated design: wait until the write FIFO has room and put a word at its port for one cycle;
-- wait until the read FIFO holds a word and enable its port for one cycle. (The code is repeated in
-- each bench; the lines are those of jtag_phy_tb.cpp.)
pub mod Wait
pub mod Served
pub mod Keeps
use tinylabs_cores.Common.{ℕ, zero, suc, Bool, true, false, Option, none, some}
use tinylabs_cores.Script.{Script, ◌>>=◌, ◌>>◌, modify, gets, step}

-- The ports, as a bench of state `B` reads and sets them, and the bench's `doCycle`.
pub record Ports (B W R : Type 0) : Type 0 where
  pub cycle : B → Option B
  pub wrfull : B → Bool
  pub set_wrdata : W → B → B
  pub set_wren : Bool → B → B
  pub rdempty : B → Bool
  pub rddata : B → R
  pub set_rden : Bool → B → B

-- `while (port) doCycle ();`
unfoldable pub wait_while : {B : Type 0} → (B → Option B) → (B → Bool) → ℕ → Script B (Unit {0})
wait_while cycle port zero b = none
wait_while cycle port (suc fuel) b = elim (port b) [
  | true ↦ elim (cycle b) [ none ↦ none | some b' ↦ wait_while cycle port fuel b' ]
  | false ↦ some (tt, b)
]

module _ {B W R : Type 0} (p : Ports B W R) (fuel : ℕ) where
  -- A word for the write FIFO.
  unfoldable pub put : W → Script B (Unit {0})
  put w = do
    wait_while p.cycle p.wrfull fuel
    modify (p.set_wrdata w)
    modify (p.set_wren true)
    step p.cycle
    modify (p.set_wren false)

  -- The next word of the read FIFO.
  unfoldable pub get : Script B R
  get = do
    wait_while p.cycle p.rdempty fuel
    modify (p.set_rden true)
    step p.cycle
    modify (p.set_rden false)
    gets p.rddata

-- What the operations above a pair of FIFOs use of it.
pub record Link (B W R : Type 0) : Type 0 where
  pub send : W → Script B (Unit {0})
  pub receive : Script B R
  pub idle : Script B (Unit {0})

unfoldable pub bench_link : {B W R : Type 0} → Ports B W R → ℕ → Link B W R
bench_link p fuel = record { send = put p fuel; receive = get p fuel; idle = step p.cycle }
