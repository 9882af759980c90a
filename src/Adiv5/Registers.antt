-- ===== src/Adiv5/Registers.antt =====
-- What an ADIv5 debug port promises to the benches of ahb3lite_remote_bridge2/bench: registers of the
-- port itself, registers of the access ports behind it, and SELECT, which says which access port and
-- which bank of it a request reaches.
use tinylabs_cores.Common.{
  ℕ, zero, suc, ◌+◌, ◌*◌, ◌/◌, ◌%◌, ◌^◌, ◌<◌, Bool, true, false, Option, none, some, List, [], ◌∷◌,
  ◌==◌, if◌then◌else◌,
}
use tinylabs_cores.Fifo.Served.{Target}
use tinylabs_cores.Adiv5.{Report}

-- The registers of a device in a state of type `T`, by their byte addresses: a read of the debug port
-- in a bank, its write, and a read and a write of an access port. Values have 32 bits.
pub record Registers (T : Type 0) : Type 0 where
  pub read_dp : ℕ → ℕ → T → ℕ
  pub write_dp : ℕ → ℕ → T → T
  pub read_ap : ℕ → ℕ → T → ℕ × T
  pub write_ap : ℕ → ℕ → ℕ → T → T
  pub read_dp_bound : (bank addr : ℕ) (t : T) → read_dp bank addr t < 2 ^ 32
  pub read_ap_bound : (apsel addr : ℕ) (t : T) → (read_ap apsel addr t).0 < 2 ^ 32

module _ {T : Type 0} (dev : Registers T) where
  open dev use {read_dp, write_dp, read_ap, write_ap}

  -- A request on the registers, and its response, of which the status OK is 4. SELECT is the register
  -- 8 of the debug port: the access port in the top byte, the bank in the bits 4 to 7 and that of the
  -- debug port below. The write of register 12 has no response.
  unfoldable pub served : Bool → Bool → ℕ → ℕ → T × ℕ → (T × ℕ) × List ℕ
  served false false a x (t, sel) =
      if a == 3
      then ((write_dp 12 x t, sel), [])
      else if a == 2
      then ((t, x), 4 ∷ [])
      else ((write_dp (a * 4) x t, sel), 4 ∷ [])
  served false true a x (t, sel) = ((t, sel), (read_dp (sel % 16) (a * 4) t * 8 + 4) ∷ [])
  served true false a x (t, sel) =
      ((write_ap (sel / 2 ^ 24) (sel / 16 % 16 * 16 + a * 4) x t, sel), 4 ∷ [])
  served true true a x (t, sel) =
      let (v, t') = read_ap (sel / 2 ^ 24) (sel / 16 % 16 * 16 + a * 4) t in
      ((t', sel), (v * 8 + 4) ∷ [])

  -- The port as a target: the direction is bit 0 of a request, the port bit 1, the address bits 2
  -- and 3, and the value stands above.
  unfoldable pub port : Target (T × ℕ) ℕ ℕ
  port w s = served (w / 2 % 2 == 1) (w % 2 == 1) (w / 4 % 4) (w / 16) s

  -- The writes of DHCSR by which a debugger halts the processor, until it reads S_HALT (bit 17).
  unfoldable pub halted : ℕ → T → Option T
  halted zero t = none
  halted (suc tries) t =
      let (v, t') = read_ap 0 12 (write_ap 0 12 0xA05F0003 t) in
      elim (v / 2 ^ 17 % 2 == 1) [ true ↦ some t' | false ↦ halted tries t' ]

  -- What a debugger finds out of the device: the reset of the port, the identification, the power-up
  -- and the status, the identification and the base of access port 0, the halted processor, and
  -- whether the word at 0x20000000 keeps what is written.
  unfoldable pub wanted : ℕ → ℕ → T → Option (Report × T)
  wanted tries sel t =
      let reset = write_dp 12 1 (write_dp 12 0 t) in
      let powered = write_dp 4 0x50000000 reset in
      let (idr, t1) = read_ap 0 0xfc powered in
      let (base, t2) = read_ap 0 0xf8 t1 in
      elim (halted tries (write_ap 0 4 0xE000EDF0 (write_ap 0 0 0xA2000002 t2))) [
        | none ↦ none
        | some t3 ↦
            let (word, t4) = read_ap 0 12 (write_ap 0 12 0xdeadc0de (write_ap 0 4 0x20000000 t3)) in
            some (
              record {
                idcode = read_dp (sel % 16) 0 reset;
                ctrl_stat = read_dp (sel % 16) 4 powered;
                idr = idr;
                base = base;
                ram_ok = word == 0xdeadc0de;
              },
              t4,
            )
      ]
