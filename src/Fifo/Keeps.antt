-- ===== src/Fifo/Keeps.antt =====
-- What the use of a pair of FIFOs keeps, in the benches of ahb3lite_remote_bridge2/bench.
use tinylabs_cores.Common.{
  ℕ, zero, suc, ◌≡◌, refl, ap, Bool, true, false, Option, none, some, arith,
}
use mathlib.Core.Path.{subst}
use tinylabs_cores.Script.{step}
use tinylabs_cores.Script.Refines.{Refines-bind}
use tinylabs_cores.Script.Keeps.{Keeps, Keeps-self, Keeps-modify, Keeps-gets, Keeps-step}
use tinylabs_cores.Fifo.{Ports, wait_while, put, get}

-- Neither a cycle nor the ports change a property.
pub record Untouched {B W R : Type 0} (p : Ports B W R) (P : B → Type 0) : Type 0 where
  pub of_cycle : (b b' : B) → P b → p.cycle b ≡ some b' → P b'
  pub of_wrdata : (w : W) (b : B) → P b → P (p.set_wrdata w b)
  pub of_wren : (on : Bool) (b : B) → P b → P (p.set_wren on b)
  pub of_rden : (on : Bool) (b : B) → P b → P (p.set_rden on b)

module _ {B : Type 0} (P : B → Type 0) (cycle : B → Option B) (port : B → Bool)
    (h : (b b' : B) → P b → cycle b ≡ some b' → P b') where
  state : B → Option (Unit {0} × B) → B
  state b none = b
  state b (some (x, b')) = b'

  wait_keeps :
      (fuel : ℕ) (b b' : B) (u : Unit {0})
      → P b
      → wait_while cycle port fuel b ≡ some (u, b')
      → P b'
  unfolding wait_while state
  wait_keeps zero b b' u p e = ground (arith, e)
  wait_keeps (suc fuel) b b' u p e =
      by_port (port b) (cycle b) (h b) (λ b1. wait_keeps fuel b1 b' u) e
    where
      by_port :
          (high : Bool) (o : Option B)
          → ((b1 : B) → P b → o ≡ some b1 → P b1)
          → ((b1 : B) → P b1 → wait_while cycle port fuel b1 ≡ some (u, b') → P b')
          → ◌≡◌ {A = Option (Unit {0} × B)}
              (elim high [
                | true ↦ elim o [ none ↦ none | some b1 ↦ wait_while cycle port fuel b1 ]
                | false ↦ some (tt, b)
              ])
              (some (u, b'))
          → P b'
      by_port true none k rest e = ground (arith, e)
      by_port true (some b1) k rest e = rest b1 (k b1 p refl) e
      by_port false o k rest e = subst P (ap (state b) e) p

module _ {B W R : Type 0} (p : Ports B W R) (P : B → Type 0) (u : Untouched p P) (fuel : ℕ) where
  wait_while-Keeps : (port : B → Bool) → Keeps P (wait_while p.cycle port fuel)
  wait_while-Keeps port =
      Keeps-self P _ (λ b x b'. wait_keeps P p.cycle port u.of_cycle fuel b b' x)

  pub cycle-Keeps : Keeps P (step p.cycle)
  cycle-Keeps = Keeps-step P p.cycle u.of_cycle

  pub put-Keeps : (w : W) → Keeps P (put p fuel w)
  unfolding put
  put-Keeps w = Refines-bind (wait_while-Keeps p.wrfull) λ _.
      Refines-bind (Keeps-modify P _ (u.of_wrdata w)) λ _.
        Refines-bind (Keeps-modify P _ (u.of_wren true))
          λ _. Refines-bind cycle-Keeps λ _. Keeps-modify P _ (u.of_wren false)

  pub get-Keeps : Keeps P (get p fuel)
  unfolding get
  get-Keeps = Refines-bind (wait_while-Keeps p.rdempty) λ _.
      Refines-bind (Keeps-modify P _ (u.of_rden true)) λ _.
        Refines-bind cycle-Keeps
          λ _. Refines-bind (Keeps-modify P _ (u.of_rden false)) λ _. Keeps-gets P p.rddata
