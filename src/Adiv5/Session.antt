-- ===== src/Adiv5/Session.antt =====
-- The session of the ADIv5 benches (ahb3lite_remote_bridge2/bench/swd_adiv5_tb.cpp and the two like
-- it) over a pair of FIFOs with a debug port behind it.
use tinylabs_cores.Common.{
  ℕ, zero, suc, ◌*◌, ◌/◌, ◌%◌, ◌^◌, ◌<◌, ◌≡◌, refl, sym, ap, ◌∙◌, Bool, true, false, not, Option,
  none, some, [], ◌==◌, bit_and, arith,
}
use tinylabs_cores.Common.Bits.{bit_and-pow, testbit-div_pow}
use tinylabs_cores.Script.{Script, ◌>>=◌, ◌>>◌, pure, bind-some}
use tinylabs_cores.Adiv5.{Report, dp_write, dp_read, ap_read, ap_write, halt, probe}
use tinylabs_cores.Adiv5.Registers.{Registers, halted, wanted}
use tinylabs_cores.Adiv5.Port.{
  At, access, IsWord, ap_read-port, ap_write-port, dp_write_reset, dp_write_control, dp_read-port,
}

module _ {T : Type 0} (dev : Registers T) where
  open dev use {read_dp, write_dp, read_ap, write_ap}

  -- The test of S_HALT.
  halt_test : (v : ℕ) → (bit_and v (2 ^ 17) == 0) ≡ not (v / 2 ^ 17 % 2 == 1)
  halt_test v =
      let f : ℕ = v / 2 ^ 17 % 2 in
      let e : bit_and v (2 ^ 17) ≡ f * 2 ^ 17 =
        bit_and-pow 17 v ∙ ap (λ (b : ℕ). b * 2 ^ 17) (sym (testbit-div_pow 17 0 v)) in
      ap (λ (b : ℕ). b == 0) e ∙ bits f (omega arith)
    where
      bits : (f : ℕ) → f < 2 → (f * 2 ^ 17 == 0) ≡ not (f == 1)
      bits f h = ground arith

  -- One more pass, or none.
  abbrev again : Script (At dev) (Unit {0}) → Bool → Script (At dev) (Unit {0})
  again rest b = elim b [ true ↦ rest | false ↦ pure tt ]

  -- What is left of a session behind the halted processor.
  abbrev found_at : (Bool → Report) → Option T → Option (Report × T)
  found_at found o = elim o [
    | none ↦ none
    | some t3 ↦
        let (word, t4) = read_ap 0 12 (write_ap 0 12 0xdeadc0de (write_ap 0 4 0x20000000 t3)) in
        some (found (word == 0xdeadc0de), t4)
  ]

  abbrev first : Option T → Bool → T → Option T
  first later b after = elim b [ true ↦ some after | false ↦ later ]

  passed :
      (b : Bool) (after t' : T) (later : Option T) (rest : Script (At dev) (Unit {0}))
      → first later b after ≡ some t'
      → (later ≡ some t' → rest ((after, 12), []) ≡ some (tt, ((t', 12), [])))
      → again rest (not b) ((after, 12), []) ≡ some (tt, ((t', 12), []))
  unfolding pure
  passed true after t' later rest e h =
      ap (λ (o : Option T). elim o [ none ↦ none | some t ↦ some (tt, ((t, 12), [])) ]) e
  passed false after t' later rest e h = h e

  halt-port :
      (tries : ℕ) (t t' : T) (sel : ℕ)
      → halted dev tries t ≡ some t'
      → halt (access dev) tries ((t, sel), []) ≡ some (tt, ((t', 12), []))
  unfolding halt halted
  halt-port zero t t' sel e = ground (arith, e)
  halt-port (suc tries) t t' sel e =
      let asked : T = write_ap 0 12 0xA05F0003 t in
      let v : ℕ = (read_ap 0 12 asked).0 in
      let after : T = (read_ap 0 12 asked).1 in
      let w : IsWord dev 12 = (omega arith, refl) in
      bind-some (ap_write (access dev) 0 12 0xA05F0003) _
        (ap_write-port dev 0 12 0xA05F0003 t sel (omega arith) w (omega arith))
      ∙ bind-some (ap_read (access dev) 0 12) _ (ap_read-port dev 0 12 asked 12 (omega arith) w)
      ∙ ap (λ (b : Bool). again (halt (access dev) tries) b ((after, 12), [])) (halt_test v)
      ∙ passed (v / 2 ^ 17 % 2 == 1) after t' (halted dev tries after) (halt (access dev) tries) e
          (halt-port tries after t' 12)

  -- The end of the session, behind the halted processor.
  ram-port :
      (tries : ℕ) (found : Bool → Report) (ready t' : T) (sel : ℕ) (v : Report) (o : Option T)
      → halted dev tries ready ≡ o
      → found_at found o ≡ some (v, t')
      → (halt (access dev) tries
            >> (ap_write (access dev) 0 4 0x20000000
                >> (ap_write (access dev) 0 12 0xdeadc0de
                    >> (ap_read (access dev) 0 12 >>= λ word. pure (found (word == 0xdeadc0de))))))
          ((ready, sel), [])
        ≡ some (v, ((t', 12), []))
  unfolding pure
  ram-port tries found ready t' sel v none halts e = ground (arith, e)
  ram-port tries found ready t' sel v (some t3) halts e =
      let aimed : T = write_ap 0 4 0x20000000 t3 in
      let kept : T = write_ap 0 12 0xdeadc0de aimed in
      let small : 0 < 256 = omega arith in
      let tar : IsWord dev 4 = (omega arith, refl) in
      let drw : IsWord dev 12 = (omega arith, refl) in
      bind-some (halt (access dev) tries) _ (halt-port tries ready t3 sel halts)
      ∙ bind-some (ap_write (access dev) 0 4 0x20000000) _
          (ap_write-port dev 0 4 0x20000000 t3 12 small tar (omega arith))
      ∙ bind-some (ap_write (access dev) 0 12 0xdeadc0de) _
          (ap_write-port dev 0 12 0xdeadc0de aimed 4 small drw (omega arith))
      ∙ bind-some (ap_read (access dev) 0 12) _ (ap_read-port dev 0 12 kept 12 small drw)
      ∙ ap
          (λ (r : Option (Report × T)). elim r [
            | none ↦ none
            | some (v, t) ↦ some (v, ((t, 12), []))
          ])
          e

  -- What `wanted` finds out is the report of `probe`, which leaves no answer behind.
  pub probe-port :
      (tries : ℕ) (t t' : T) (sel : ℕ) (v : Report)
      → wanted dev tries sel t ≡ some (v, t')
      → probe (access dev) tries ((t, sel), []) ≡ some (v, ((t', 12), []))
  unfolding probe wanted pure
  probe-port tries t t' sel v e =
      let reset : T = write_dp 12 1 (write_dp 12 0 t) in
      let powered : T = write_dp 4 0x50000000 reset in
      let idr = read_ap 0 0xfc powered in
      let base = read_ap 0 0xf8 idr.1 in
      let ready : T = write_ap 0 4 0xE000EDF0 (write_ap 0 0 0xA2000002 base.1) in
      let small : 0 < 256 = omega arith in
      bind-some (dp_write (access dev) 12 0) _ (dp_write_reset dev 0 t sel (omega arith))
      ∙ bind-some (dp_write (access dev) 12 1) _ (dp_write_reset dev 1 _ sel (omega arith))
      ∙ bind-some (dp_read (access dev) 0) _ (dp_read-port dev 0 reset sel (omega arith) refl)
      ∙ bind-some (dp_write (access dev) 4 0x50000000) _
          (dp_write_control dev 0x50000000 reset sel (omega arith))
      ∙ bind-some (dp_read (access dev) 4) _ (dp_read-port dev 4 powered sel (omega arith) refl)
      ∙ bind-some (ap_read (access dev) 0 0xfc) _
          (ap_read-port dev 0 0xfc powered sel small (omega arith, refl))
      ∙ bind-some (ap_read (access dev) 0 0xf8) _
          (ap_read-port dev 0 0xf8 idr.1 0xfc small (omega arith, refl))
      ∙ bind-some (ap_write (access dev) 0 0 0xA2000002) _
          (ap_write-port dev 0 0 0xA2000002 base.1 0xf8 small (omega arith, refl) (omega arith))
      ∙ bind-some (ap_write (access dev) 0 4 0xE000EDF0) _
          (ap_write-port dev 0 4 0xE000EDF0 _ 0 small (omega arith, refl) (omega arith))
      ∙ ram-port tries
          (λ ok. record {
            idcode = read_dp (sel % 16) 0 reset;
            ctrl_stat = read_dp (sel % 16) 4 powered;
            idr = idr.0;
            base = base.0;
            ram_ok = ok;
          })
          ready t' 4 v (halted dev tries ready) refl e
