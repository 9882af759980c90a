-- ===== src/Adiv5/Port.antt =====
-- What the register operations of the ADIv5 benches (ahb3lite_remote_bridge2/bench/swd_adiv5_tb.cpp
-- and the two like it) do to the registers of a debug port (Adiv5/Registers).
use tinylabs_cores.Common.{
  ℕ, ◌+◌, ◌*◌, ◌/◌, ◌%◌, ◌^◌, ◌<◌, ◌≡◌, refl, ap, ap₂, ◌∙◌, Bool, true, false, some, List, [], ◌∷◌,
  ◌==◌, bit_and, bit_or, arith, shr, u32,
}
use tinylabs_cores.Common.Bits.{bit_and-mask, bit_or-fields}
use tinylabs_cores.Script.{Script, ◌>>=◌, ◌>>◌, pure, bind-some}
use tinylabs_cores.Fifo.Served.{target_put}
use tinylabs_cores.Adiv5.{
  Access, request_word, select, word_addr, dp_write, dp_read, ap_read, ap_write,
}
use tinylabs_cores.Adiv5.Words.{request_word_lem, bit}
use tinylabs_cores.Adiv5.Target.{target_access, target_read}
use tinylabs_cores.Adiv5.Registers.{Registers, served, port}

module _ {T : Type 0} (dev : Registers T) where
  open dev use {read_dp, write_dp, read_ap, write_ap, read_dp_bound, read_ap_bound}

  -- The state of the port with no answer waiting.
  abbrev pub At : Type 0
  At = (T × ℕ) × List ℕ

  abbrev pub access : Access At
  access = target_access (port dev)

  bit_test : (b : Bool) → (bit b == 1) ≡ b
  bit_test true = refl
  bit_test false = refl

  bit_bound : (b : Bool) → bit b < 2
  bit_bound true = omega arith
  bit_bound false = omega arith

  -- A request reaches the registers that its fields name.
  request-served :
      (addr x : ℕ) (apndp rnw : Bool) (s : T × ℕ)
      → x < 2 ^ 32
      → port dev (request_word addr apndp rnw x) s ≡ served dev apndp rnw (addr % 4) x s
  unfolding port
  request-served addr x apndp rnw s h =
      let w : ℕ = request_word addr apndp rnw x in
      let e : w ≡ x * 16 + addr % 4 * 4 + bit apndp * 2 + bit rnw =
        (request_word_lem addr x apndp rnw 4 0 h (omega arith) (omega arith)).0 in
      let p : ℕ = bit apndp in
      let r : ℕ = bit rnw in
      let hp : p < 2 = bit_bound apndp in
      let hr : r < 2 = bit_bound rnw in
      let port_field : w / 2 % 2 ≡ p = omega (arith, e, hp, hr) in
      let direction : w % 2 ≡ r = omega (arith, e, hp, hr) in
      let place : w / 4 % 4 ≡ addr % 4 = omega (arith, e, hp, hr) in
      let content : w / 16 ≡ x = omega (arith, e, hp, hr) in
      ap (λ (f : ℕ). served dev (f == 1) (w % 2 == 1) (w / 4 % 4) (w / 16) s) port_field
      ∙ ap (λ (f : ℕ). served dev (p == 1) (f == 1) (w / 4 % 4) (w / 16) s) direction
      ∙ ap (λ (f : ℕ). served dev (p == 1) (r == 1) f (w / 16) s) place
      ∙ ap (λ (f : ℕ). served dev (p == 1) (r == 1) (addr % 4) f s) content
      ∙ ap (λ (b : Bool). served dev b (r == 1) (addr % 4) x s) (bit_test apndp)
      ∙ ap (λ (b : Bool). served dev apndp b (addr % 4) x s) (bit_test rnw)

  sent :
      (addr x : ℕ) (apndp rnw : Bool) (s : T × ℕ)
      → x < 2 ^ 32
      → access.send addr apndp rnw x (s, []) ≡ some (tt, served dev apndp rnw (addr % 4) x s)
  unfolding target_access target_put
  sent addr x apndp rnw s h =
      ap (λ (r : (T × ℕ) × List ℕ). some (tt, r)) (request-served addr x apndp rnw s h)

  received :
      (v : ℕ) (s : T × ℕ) → v < 2 ^ 32 → access.receive (s, (v * 8 + 4) ∷ []) ≡ some (v, (s, []))
  unfolding target_access target_read
  received v s h =
      let (_, good, value) = request_word_lem 0 0 false false 4 v (omega arith) (omega arith) h in
      rw (good, value) refl

  acknowledged : (s : T × ℕ) → access.receive (s, 4 ∷ []) ≡ some (0, (s, []))
  acknowledged s = received 0 s (omega arith)

  -- An address of a register: a multiple of 4.
  abbrev pub IsWord : ℕ → Type 0
  IsWord addr = (addr < 256) × (addr % 4 ≡ 0)

  word_field : (addr : ℕ) → IsWord addr → bit_and (shr addr 2) 3 % 4 * 4 ≡ addr % 16
  word_field addr (h, even) = omega (arith, bit_and-mask 2 (shr addr 2))

  -- The word that selects an access port and the bank of an address.
  select_lem :
      (apsel addr : ℕ) → apsel < 256 → addr < 256 → select apsel addr ≡ apsel * 2 ^ 24 + addr
  unfolding select
  select_lem apsel addr h k =
      let narrow : u32 (apsel * 2 ^ 24) ≡ apsel * 2 ^ 24 = omega arith in
      ap (λ (y : ℕ). bit_or y addr) narrow ∙ bit_or-fields 24 apsel addr (omega arith)

  -- `SELECT` is written, and acknowledged.
  selected :
      (apsel addr : ℕ) (t : T) (sel : ℕ) {A : Type 0} (rest : Script At A)
      → apsel < 256
      → addr < 256
      → (access.send 2 false false (select apsel addr) >> (access.receive >>= λ _. rest))
          ((t, sel), [])
        ≡ rest ((t, apsel * 2 ^ 24 + addr), [])
  unfolding served
  selected apsel addr t sel rest h k =
      let e = select_lem apsel addr h k in
      bind-some (access.send 2 false false (select apsel addr)) _
        (sent 2 (select apsel addr) false false (t, sel) (omega (arith, e)))
      ∙ bind-some access.receive _ (acknowledged (t, select apsel addr))
      ∙ ap (λ (y : ℕ). rest ((t, y), [])) e

  -- The fields of `SELECT` and of a request are those of the address.
  reached :
      {A : Type 0} (apsel addr : ℕ) (f : ℕ → ℕ → A)
      → apsel < 256
      → IsWord addr
      → f
          ((apsel * 2 ^ 24 + addr) / 2 ^ 24)
          ((apsel * 2 ^ 24 + addr) / 16 % 16 * 16 + bit_and (shr addr 2) 3 % 4 * 4)
        ≡ f apsel addr
  reached apsel addr f h w =
      let e = word_field addr w in ap₂ f (omega (arith, w.0)) (omega (arith, e, w.0, w.1))

  -- On a debug port with no answer waiting, whatever has been selected before, `ap_read` reads the
  -- register of the access port at the address that it is given (a number below 256 and a multiple of
  -- 4 below 256), and leaves no answer behind.
  pub ap_read-port :
      (apsel addr : ℕ) (t : T) (sel : ℕ)
      → apsel < 256
      → IsWord addr
      → ap_read access apsel addr ((t, sel), [])
        ≡ some ((read_ap apsel addr t).0, (((read_ap apsel addr t).1, apsel * 2 ^ 24 + addr), []))
  unfolding ap_read served
  ap_read-port apsel addr t sel h w =
      let sel' : ℕ = apsel * 2 ^ 24 + addr in
      let there : ℕ × T =
        read_ap (sel' / 2 ^ 24) (sel' / 16 % 16 * 16 + word_addr addr % 4 * 4) t in
      selected apsel addr t sel (access.send (word_addr addr) true true 0 >> access.receive) h w.0
      ∙ bind-some (access.send (word_addr addr) true true 0) _
          (sent (word_addr addr) 0 true true (t, sel') (omega arith))
      ∙ received there.0 (there.1, sel') (read_ap_bound _ _ t)
      ∙ reached apsel addr (λ p a. some ((read_ap p a t).0, (((read_ap p a t).1, sel'), []))) h w

  -- On a debug port with no answer waiting, whatever has been selected before, `ap_write` writes a value
  -- of 32 bits to the register of the access port at the address that it is given (a number below 256
  -- and a multiple of 4 below 256), and leaves no answer behind.
  pub ap_write-port :
      (apsel addr x : ℕ) (t : T) (sel : ℕ)
      → apsel < 256
      → IsWord addr
      → x < 2 ^ 32
      → ap_write access apsel addr x ((t, sel), [])
        ≡ some (tt, ((write_ap apsel addr x t, apsel * 2 ^ 24 + addr), []))
  unfolding ap_write served pure
  ap_write-port apsel addr x t sel h w fits =
      let sel' : ℕ = apsel * 2 ^ 24 + addr in
      let there : T = write_ap (sel' / 2 ^ 24) (sel' / 16 % 16 * 16 + word_addr addr % 4 * 4) x t in
      selected apsel addr t sel
        (access.send (word_addr addr) true false x >> (access.receive >>= λ _. pure tt)) h w.0
      ∙ bind-some (access.send (word_addr addr) true false x) _
          (sent (word_addr addr) x true false (t, sel') fits)
      ∙ bind-some access.receive _ (acknowledged (there, sel'))
      ∙ reached apsel addr (λ p a. some (tt, ((write_ap p a x t, sel'), []))) h w

  -- `dp_write` of the register 12 has no answer to wait for.
  pub dp_write_reset :
      (x : ℕ) (t : T) (sel : ℕ)
      → x < 2 ^ 32
      → dp_write access 12 x ((t, sel), []) ≡ some (tt, ((write_dp 12 x t, sel), []))
  unfolding dp_write served pure
  dp_write_reset x t sel fits =
      bind-some (access.send 3 false false x) _ (sent 3 x false false (t, sel) fits)

  pub dp_write_control :
      (x : ℕ) (t : T) (sel : ℕ)
      → x < 2 ^ 32
      → dp_write access 4 x ((t, sel), []) ≡ some (tt, ((write_dp 4 x t, sel), []))
  unfolding dp_write served pure
  dp_write_control x t sel fits =
      bind-some (access.send 1 false false x) _ (sent 1 x false false (t, sel) fits)
      ∙ bind-some access.receive _ (acknowledged (write_dp 4 x t, sel))

  pub dp_read-port :
      (addr : ℕ) (t : T) (sel : ℕ)
      → addr < 16
      → addr % 4 ≡ 0
      → dp_read access addr ((t, sel), []) ≡ some (read_dp (sel % 16) addr t, ((t, sel), []))
  unfolding dp_read served
  dp_read-port addr t sel h even =
      let w = word_field addr (omega arith, even) in
      let place : word_addr addr % 4 * 4 ≡ addr = omega (arith, w, h) in
      bind-some (access.send (word_addr addr) false true 0) _
        (sent (word_addr addr) 0 false true (t, sel) (omega arith))
      ∙ received (read_dp (sel % 16) (word_addr addr % 4 * 4) t) (t, sel) (read_dp_bound _ _ t)
      ∙ ap (λ (a : ℕ). some (read_dp (sel % 16) a t, ((t, sel), []))) place
