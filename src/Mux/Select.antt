-- ===== src/Mux/Select.antt =====
-- The selection of an interface in ahb3lite_remote_bridge2/bench/debug_mux_tb.cpp.
use tinylabs_cores.Common.{ℕ, ◌≡◌, refl, Bool, false, some, ◌==◌, if-both}
use tinylabs_cores.Queue.{ByteQueue}
use tinylabs_cores.Script.{Script, ◌>>=◌, ◌>>◌, pure, modify, step, repeat}
use tinylabs_cores.Script.Refines.{Refines-bind, Refines-pure, Refines-if, Refines-repeat}
use tinylabs_cores.Script.Keeps.{With, Keeps, Keeps-modify, Keeps-gets, Keeps-result}
use tinylabs_cores.Rig.{World}
use tinylabs_cores.Rig.Ports.{on_top, rig_ports}
use tinylabs_cores.Rig.Stable.{Stable, full_cycle-stable}
use tinylabs_cores.Fifo.{Ports}
use tinylabs_cores.Fifo.Keeps.{Untouched, cycle-Keeps, put-Keeps, get-Keeps}
use tinylabs_cores.Adiv5
use tinylabs_cores.Adiv5.{Report, bench_access, ok, status, result, check}
use tinylabs_cores.Adiv5.Target.{Follows, Refines-probe}
use tinylabs_cores.Mux.{Top, wiring, adiv5_ports, Bench, access, bail, full_cycle, test_if}

-- An access that keeps a property follows itself.
module _ {B : Type 0} (p : Ports B ℕ ℕ) (bail : B → B) (fuel : ℕ) (P : B → Type 0)
    (u : Untouched p P) (of_bail : (b : B) → P b → P (bail b)) where
  check-Keeps : (x : ℕ) → Keeps P (check p bail x)
  unfolding check
  check-Keeps x =
      Refines-if (status x == ok) (Refines-pure tt) (
        Refines-bind (Refines-repeat 100 (cycle-Keeps p P u fuel)) λ _. Keeps-modify P bail of_bail)

  read-Keeps : Keeps P (Adiv5.read p bail fuel)
  unfolding Adiv5.read
  read-Keeps =
      Refines-bind (get-Keeps p P u fuel) λ x. Refines-bind (check-Keeps x) λ _. Keeps-gets P _

  access-Follows : Follows (With P) (bench_access p bail fuel) (bench_access p bail fuel)
  unfolding bench_access Adiv5.write
  access-Follows = record {
    sends = λ addr apndp rnw x. put-Keeps p P u fuel _;
    receives = read-Keeps;
    idles = cycle-Keeps p P u fuel;
  }

module _ (K : ByteQueue) {Inside : Type 0} (world : World (Top Inside)) where
  -- The inputs that select an interface, and those of the FIFOs of the JTAG PHY.
  unfoldable pub Selects : Bool → Top Inside → Top Inside → Type 0
  Selects jtag start top =
      (top.jtag_direct ≡ false)
      × (top.jtagnswd ≡ jtag)
      × (top.jtag_wren ≡ start.jtag_wren)
      × (top.jtag_wrdata ≡ start.jtag_wrdata)
      × (top.jtag_rden ≡ start.jtag_rden)

  Selects-Stable :
      (jtag : Bool) (start : Top Inside)
      → ((top : Top Inside) → Selects jtag start top → Selects jtag start (world.eval top))
      → Stable wiring world (Selects jtag start)
  unfolding wiring Selects
  Selects-Stable jtag start of_eval = record {
    of_set = λ level top h. h;
    of_eval = of_eval;
    of_flip = λ top h. h;
    of_lines = λ l top h. if-both (Selects jtag start) top.tmsoe _ _ h h;
  }

  OnRig : Bool → Top Inside → Bench K world → Type 0
  OnRig jtag start b = Selects jtag start b.top

  Selects-Untouched :
      (jtag : Bool) (start : Top Inside)
      → ((top : Top Inside) → Selects jtag start top → Selects jtag start (world.eval top))
      → Untouched (rig_ports wiring world adiv5_ports) (OnRig jtag start)
  unfolding rig_ports adiv5_ports Selects OnRig
  Selects-Untouched jtag start of_eval = record {
    of_cycle =
        full_cycle-stable K wiring world (Selects jtag start) (Selects-Stable jtag start of_eval);
    of_wrdata = λ x b h. h;
    of_wren = λ on b h. h;
    of_rden = λ on b h. h;
  }

  -- What `test_if` does after the selection.
  rest : ℕ → ℕ → Script (Bench K world) Report
  rest fuel tries = do
    step (full_cycle K world)
    report ← Adiv5.probe (access K world fuel) tries
    repeat 100 (step (full_cycle K world))
    pure report

  rest-Keeps :
      (fuel tries : ℕ) (jtag : Bool) (start : Top Inside)
      → ((top : Top Inside) → Selects jtag start top → Selects jtag start (world.eval top))
      → Keeps (OnRig jtag start) (rest fuel tries)
  unfolding rest full_cycle access rig_ports OnRig
  rest-Keeps fuel tries jtag start of_eval =
      let P : Bench K world → Type 0 = OnRig jtag start in
      let u = Selects-Untouched jtag start of_eval in
      let cycles : Keeps P (step (full_cycle K world)) =
        cycle-Keeps (rig_ports wiring world adiv5_ports) P u fuel in
      Refines-bind cycles λ _.
        Refines-bind
          (Refines-probe (access K world fuel) (access K world fuel)
            (access-Follows (rig_ports wiring world adiv5_ports) (bail K world) fuel P u (λ b h. h))
            tries)
          λ _. Refines-bind (Refines-repeat 100 cycles) λ _. Refines-pure _

  -- On a design that changes neither the inputs that select an interface nor those of the FIFOs of
  -- the JTAG PHY: where `test_if` comes to its end, the interface is still the one that it has
  -- selected, and the inputs of those FIFOs are as they were.
  pub test_if-Selects :
      (fuel tries : ℕ) (jtag : Bool) (b b' : Bench K world) (v : Report)
      → ((top : Top Inside) → Selects jtag b.top top → Selects jtag b.top (world.eval top))
      → test_if K world fuel tries jtag b ≡ some (v, b')
      → Selects jtag b.top b'.top
  unfolding test_if rest Selects OnRig ◌>>=◌ modify
  test_if-Selects fuel tries jtag b b' v of_eval e =
      Keeps-result (OnRig jtag b.top) (rest fuel tries)
        (on_top (λ top. record top { jtag_direct = false; jtagnswd = jtag }) b) v b'
        (rest-Keeps fuel tries jtag b.top of_eval) (refl, refl, refl, refl, refl) e
