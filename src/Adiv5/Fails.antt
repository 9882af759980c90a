-- ===== src/Adiv5/Fails.antt =====
-- The error path of the ADIv5 benches (ahb3lite_remote_bridge2/bench/swd_adiv5_tb.cpp and the two
-- like it): a response whose status is not `OK`.
use tinylabs_cores.Common.{
  ℕ, ◌<◌, ◌≡◌, ◌≢◌, ==_of_ne, ap, ◌∙◌, true, false, none, some, refl, ◌==◌, if◌then◌else◌, arith,
}
use tinylabs_cores.Queue.{ByteQueue}
use tinylabs_cores.Script.{◌>>◌, pure, modify, gets, step, repeat, bind-some}
use tinylabs_cores.Rig
use tinylabs_cores.Rig.{Rig, Wiring, World}
use tinylabs_cores.Rig.Ports.{TopPorts, on_top, rig_ports}
use tinylabs_cores.Fifo.{Ports, get}
use tinylabs_cores.Fifo.Wait.{Falls, get-Falls}
use tinylabs_cores.Adiv5.{ok, status, result, check, read}

module _ {B : Type 0} (p : Ports B ℕ ℕ) (bail : B → B) (fuel : ℕ) where
  check_fails :
      (x : ℕ) (b b' : B)
      → (status x == ok) ≡ false
      → repeat 100 (step p.cycle) b ≡ some (tt, b')
      → check p bail x b ≡ some (tt, bail b')
  unfolding check modify
  check_fails x b b' bad run =
      ap (λ c. (if c then pure tt else (repeat 100 (step p.cycle) >> modify bail)) b) bad
      ∙ bind-some (repeat 100 (step p.cycle)) _ run

  read-fails :
      (b b1 b2 : B)
      → get p fuel b ≡ some (p.rddata b1, b1)
      → (status (p.rddata b1) == ok) ≡ false
      → repeat 100 (step p.cycle) b1 ≡ some (tt, b2)
      → read p bail fuel b ≡ some (result (p.rddata (bail b2)), bail b2)
  unfolding read gets
  read-fails b b1 b2 e bad run =
      bind-some (get p fuel) _ e
      ∙ bind-some (check p bail (p.rddata b1)) _ (check_fails _ b1 b2 bad run)

module _ {K : ByteQueue} {Top : Type 0} (wiring : Wiring Top) (world : World Top) where
  -- A bench that is done ends the program at its next cycle.
  full_cycle-done : (b : Rig K Top) → b.done ≡ true → Rig.full_cycle K Top wiring world b ≡ none
  unfolding Rig.full_cycle Rig.half_cycle
  full_cycle-done b h = ground (arith, h)

  abbrev pub bail : Rig K Top → Rig K Top
  bail b = record b { done = true }

  -- Where the read FIFO holds a word after `n` cycles whose status is not `OK`, and the bench lives
  -- on for one more cycle and then 100, fuel above `n` lets a read end: it has run the 100 cycles,
  -- returned the value of the word at the port after them, and left the bench such that its next
  -- cycle ends the program.
  pub read-bails :
      (tp : TopPorts Top ℕ ℕ) {n : ℕ} {b b' b1 b2 : Rig K Top} (fuel : ℕ)
      → Falls (Rig.full_cycle K Top wiring world) (λ c. tp.rdempty c.top) n b b'
      → n < fuel
      → Rig.full_cycle K Top wiring world (on_top (tp.set_rden true) b') ≡ some b1
      → status (tp.rddata (tp.set_rden false b1.top)) ≢ ok
      → repeat 100 (step (Rig.full_cycle K Top wiring world)) (on_top (tp.set_rden false) b1)
        ≡ some (tt, b2)
      → (read (rig_ports wiring world tp) bail fuel b ≡ some (result (tp.rddata b2.top), bail b2))
        × (Rig.full_cycle K Top wiring world (bail b2) ≡ none)
  unfolding rig_ports
  read-bails tp fuel f h s bad run =
      let p : Ports (Rig K Top) ℕ ℕ = rig_ports wiring world tp in
      (
        read-fails p bail fuel _ _ _ (get-Falls p fuel f h s).0 (==_of_ne _ _ bad) run,
        full_cycle-done _ refl,
      )
