-- ===== src/Adiv5/Target.antt =====
-- The register operations of the ADIv5 benches (ahb3lite_remote_bridge2/bench/swd_adiv5_tb.cpp and
-- the two like it) against a target that answers each request at once.
use tinylabs_cores.Common.{
  ℕ, zero, suc, ◌≡◌, refl, ap, ◌∙◌, Bool, true, false, none, some, List, [], ◌∷◌, bit_and, ◌^◌,
  ◌==◌, if◌then◌else◌, Bool-cases, inl, inr,
}
use tinylabs_cores.Script.{Script, ◌>>=◌, ◌>>◌, pure, modify, gets, step, repeat, bind-some}
use tinylabs_cores.Script.Refines.{
  Agree, Refines, Refines-bind, Refines-pure, Refines-if, Refines-elim, Refines-out_of_fuel,
}
use tinylabs_cores.Fifo.{Ports, get}
use tinylabs_cores.Fifo.Wait.{get-Falls}
use tinylabs_cores.Fifo.Served.{Target, Serves, target_put, target_idle, Refines-put, Refines-cycle}
use tinylabs_cores.Adiv5.{
  ok, request_word, status, result, write, check, read, Access, bench_access, dp_write, dp_read,
  ap_read, ap_write, halt, probe,
}

-- Two ways of access, the one of which does what the other says.
pub record Follows {B S : Type 0} (Rep : B → S → Type 0) (a : Access B) (c : Access S)
    : Type 0 where
  pub sends :
      (addr : ℕ) (apndp rnw : Bool) (x : ℕ)
      → Refines Rep (a.send addr apndp rnw x) (c.send addr apndp rnw x)
  pub receives : Refines Rep a.receive c.receive
  pub idles : Refines Rep a.idle c.idle

module _ {B S : Type 0} {Rep : B → S → Type 0} (a : Access B) (c : Access S)
    (f : Follows Rep a c) where
  pub Refines-dp_write : (addr x : ℕ) → Refines Rep (dp_write a addr x) (dp_write c addr x)
  unfolding dp_write
  Refines-dp_write addr x =
      Refines-bind (f.sends _ _ _ _) λ _.
        Refines-if (addr == 0xc) (Refines-pure tt) (Refines-bind f.receives λ _. Refines-pure tt)

  pub Refines-dp_read : (addr : ℕ) → Refines Rep (dp_read a addr) (dp_read c addr)
  unfolding dp_read
  Refines-dp_read addr = Refines-bind (f.sends _ _ _ _) λ _. f.receives

  pub Refines-ap_read : (apsel addr : ℕ) → Refines Rep (ap_read a apsel addr) (ap_read c apsel addr)
  unfolding ap_read
  Refines-ap_read apsel addr =
      Refines-bind (f.sends _ _ _ _)
        λ _. Refines-bind f.receives λ _. Refines-bind (f.sends _ _ _ _) λ _. f.receives

  pub Refines-ap_write :
      (apsel addr x : ℕ) → Refines Rep (ap_write a apsel addr x) (ap_write c apsel addr x)
  unfolding ap_write
  Refines-ap_write apsel addr x = Refines-bind (f.sends _ _ _ _) λ _.
      Refines-bind f.receives
        λ _. Refines-bind (f.sends _ _ _ _) λ _. Refines-bind f.receives λ _. Refines-pure tt

  pub Refines-halt : (tries : ℕ) → Refines Rep (halt a tries) (halt c tries)
  unfolding halt
  Refines-halt zero = Refines-out_of_fuel
  Refines-halt (suc tries) = Refines-bind (Refines-ap_write 0 0xc 0xA05F0003) λ _.
      Refines-bind (Refines-ap_read 0 0xc)
        λ dhcsr. Refines-elim (bit_and dhcsr (2 ^ 17) == 0) (Refines-halt tries) (Refines-pure tt)

  pub Refines-probe : (tries : ℕ) → Refines Rep (probe a tries) (probe c tries)
  unfolding probe
  Refines-probe tries = Refines-bind (Refines-dp_write 0xc 0) λ _.
      Refines-bind (Refines-dp_write 0xc 1) λ _. Refines-bind (Refines-dp_read 0) λ idcode.
        Refines-bind (Refines-dp_write 4 0x50000000) λ _.
          Refines-bind (Refines-dp_read 4) λ ctrl_stat. Refines-bind (Refines-ap_read 0 0xfc) λ idr.
            Refines-bind (Refines-ap_read 0 0xf8) λ base.
              Refines-bind (Refines-ap_write 0 0 0xA2000002) λ _.
                Refines-bind (Refines-ap_write 0 4 0xE000EDF0) λ _.
                  Refines-bind (Refines-halt tries) λ _.
                    Refines-bind (Refines-ap_write 0 4 0x20000000) λ _.
                      Refines-bind (Refines-ap_write 0 0xc 0xdeadc0de)
                        λ _. Refines-bind (Refines-ap_read 0 0xc) λ word. Refines-pure _

-- The target's way of access: a request is answered at once, and an answer whose status is not
-- `OK` has no value.
module _ {T : Type 0} (answer : Target T ℕ ℕ) where
  unfoldable pub target_read : Script (T × List ℕ) ℕ
  target_read (t, []) = none
  target_read (t, x ∷ waiting) = if status x == ok then some (result x, (t, waiting)) else none

  unfoldable pub target_access : Access (T × List ℕ)
  target_access = record {
    send = λ addr apndp rnw x. target_put answer (request_word addr apndp rnw x);
    receive = target_read;
    idle = target_idle;
  }

module _ {B : Type 0} (p : Ports B ℕ ℕ) (bail : B → B) (fuel : ℕ) where
  -- A word with the status `OK` is read as its value.
  read-ok :
      (x : ℕ) (b b' : B)
      → get p fuel b ≡ some (p.rddata b', b')
      → p.rddata b' ≡ x
      → (status x == ok) ≡ true
      → read p bail fuel b ≡ some (result x, b')
  unfolding read pure gets check
  read-ok x b b' e word good =
      bind-some (get p fuel) _ e
      ∙ ap (λ v. (check p bail v >>= λ _. gets (λ c. result (p.rddata c))) b') word
      ∙ bind-some (check p bail x) _
          (ap (λ c. (if c then pure tt else (repeat 100 (step p.cycle) >> modify bail)) b') good)
      ∙ ap (λ v. some (result v, b')) word

  module _ {T : Type 0} (answer : Target T ℕ ℕ) (d : Serves p fuel answer) where
    read_refines :
        (b : B) (s : T × List ℕ)
        → d.Rep b s
        → Agree d.Rep (read p bail fuel b) (target_read answer s)
    unfolding target_read
    read_refines b (t, []) r = tt
    read_refines b (t, x ∷ waiting) r = elim (Bool-cases (status x == ok)) [
      | inl good ↦
          let (n, b1, b2, f, h, s, word, r2) = d.gives b t x waiting r in
          rw (good, read-ok x b (p.set_rden false b2) (get-Falls p fuel f h s).0 word good)
            (refl, r2)
      | inr bad ↦ rw bad tt
    ]

    -- A bench whose FIFOs serve a target follows that target.
    pub bench-Follows : Follows d.Rep (bench_access p bail fuel) (target_access answer)
    unfolding bench_access target_access write
    bench-Follows = record {
      sends = λ addr apndp rnw x. Refines-put p fuel answer d (request_word addr apndp rnw x);
      receives = record { at = read_refines };
      idles = Refines-cycle p fuel answer d;
    }
