-- ===== src/Fifo/Wait.antt =====
-- The waiting loops of the benches of ahb3lite_remote_bridge2/bench end once the port they watch
-- falls, and a word is put, or taken, only then.
use tinylabs_cores.Common.{
  ℕ, zero, suc, ◌<◌, ◌≡◌, refl, ◌∙◌, Bool, true, false, Option, some, arith,
}
use tinylabs_cores.Script.{◌>>=◌, modify, gets, step, bind-some, step-some}
use tinylabs_cores.Fifo.{Ports, wait_while, put, get}

module _ {B : Type 0} (cycle : B → Option B) (port : B → Bool) where
  -- After `n` cycles, from the first state to the second, a port that was high is low.
  pub data Falls : ℕ → B → B → Type 0 where
    low : (b : B) → port b ≡ false → Falls 0 b b
    high :
        {n : ℕ} (b b1 : B) {b' : B}
        → port b ≡ true
        → cycle b ≡ some b1
        → Falls n b1 b'
        → Falls (suc n) b b'

  pub Falls-low : {n : ℕ} {b b' : B} → Falls n b b' → port b' ≡ false
  Falls-low (low b e) = e
  Falls-low (high b b1 e s f) = Falls-low f

  -- Fuel above the number of cycles is enough.
  pub wait_while-Falls :
      (fuel : ℕ) {n : ℕ} {b b' : B}
      → Falls n b b'
      → n < fuel
      → wait_while cycle port fuel b ≡ some (tt, b')
  unfolding wait_while
  wait_while-Falls zero f h = absurd (omega arith)
  wait_while-Falls (suc fuel) (low b e) h = rw (e, wait_while) refl
  wait_while-Falls (suc fuel) (high b b1 e s f) h =
      rw (e, s, wait_while) (wait_while-Falls fuel f (omega arith))

module _ {B W R : Type 0} (p : Ports B W R) where
  -- The write port with a word, and the read port enabled.
  abbrev pub offered : W → B → B
  offered w b = p.set_wren true (p.set_wrdata w b)

  -- Where the write FIFO has room after `n` cycles, and the bench lives on for one more, fuel above
  -- `n` lets a put end: the word was at the port for that one cycle only, and the FIFO had room.
  pub put-Falls :
      (fuel : ℕ) (w : W) {n : ℕ} {b b' b2 : B}
      → Falls p.cycle p.wrfull n b b'
      → n < fuel
      → p.cycle (offered w b') ≡ some b2
      → (put p fuel w b ≡ some (tt, p.set_wren false b2)) × (p.wrfull b' ≡ false)
  unfolding put ◌>>=◌ modify
  put-Falls fuel w f h s = (
    bind-some (wait_while p.cycle p.wrfull fuel) _ (wait_while-Falls p.cycle p.wrfull fuel f h)
        ∙ bind-some (step p.cycle) _ (step-some p.cycle s),
    Falls-low p.cycle p.wrfull f,
  )

  -- Where the read FIFO holds a word after `n` cycles, and the bench lives on for one more, fuel
  -- above `n` lets a get end: it enables the port for that one cycle only, while the FIFO is not
  -- empty, and has the word that is then at the port.
  pub get-Falls :
      (fuel : ℕ) {n : ℕ} {b b' b2 : B}
      → Falls p.cycle p.rdempty n b b'
      → n < fuel
      → p.cycle (p.set_rden true b') ≡ some b2
      → (get p fuel b ≡ some (p.rddata (p.set_rden false b2), p.set_rden false b2))
        × (p.rdempty b' ≡ false)
  unfolding get ◌>>=◌ modify gets
  get-Falls fuel f h s = (
    bind-some (wait_while p.cycle p.rdempty fuel) _ (wait_while-Falls p.cycle p.rdempty fuel f h)
        ∙ bind-some (step p.cycle) _ (step-some p.cycle s),
    Falls-low p.cycle p.rdempty f,
  )
