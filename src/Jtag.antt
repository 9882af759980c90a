-- ===== src/Jtag.antt =====
-- verilator_utils/JTAGServer.cpp and JTAGClient.cpp, with their headers: the two ends of the
-- OpenOCD bitbang protocol. A pin is a number, zero for low; the lines that print are left out.
pub mod Exchange
pub mod Remote
use tinylabs_cores.Common.{
  ℕ, ◌+◌, ◌-◌, ◌*◌, Bool, true, false, not, ◌&&◌, Option, none, some, List, [], ◌∷◌, bit_and,
  bit_or, leb, ◌==◌, if◌then◌else◌, u8,
}
use tinylabs_cores.Queue.{ByteQueue}
use tinylabs_cores.Server.{Server}

-- The pins that `doJTAGServer` drives.
pub record Pins : Type 0 where
  pub tck : ℕ
  pub tdi : ℕ
  pub tms : ℕ
  pub srst : ℕ

-- `(bits & mask) ? 1 : 0`
unfoldable pub flag : ℕ → ℕ → ℕ
flag bits mask = if bit_and bits mask == 0 then 0 else 1

-- `case lo ... hi:`
abbrev pub within : ℕ → ℕ → ℕ → Bool
within lo hi cmd = leb lo cmd && leb cmd hi

-- `c` of the case 'S'.
unfoldable pub state_byte : ℕ → ℕ → ℕ
state_byte tdo tms =
    let c = if tdo == 0 then b'0' else u8 (b'0' + 1) in if tms == 0 then c else u8 (c + 2)

module _ (K : ByteQueue) where
  open K use {Q, enqueue, try_dequeue, size_approx}

  -- The switch of `doJTAGServer` on a command: the pins, and the queue `rx`.
  unfoldable pub jtag_command : ℕ → ℕ → Pins → Q → Pins × Q
  jtag_command cmd tdo p rx =
      if within b'0' b'7' cmd
      then (
        record p {
          tdi = flag (cmd - b'0') 1;
          tms = flag (cmd - b'0') 2;
          tck = flag (cmd - b'0') 4;
        },
        rx,
      )
      else if within b'r' b'u' cmd
      then (record p { srst = if bit_and (cmd - b'r') 1 == 0 then 1 else 0 }, rx)
      else if cmd == b'R'
      then (p, (enqueue rx (if tdo == 0 then b'0' else b'1')).0)
      else if cmd == b'S'
      then (p, (enqueue rx (state_byte tdo p.tms)).0)
      else (p, rx)

  -- `doJTAGServer`: at most one command is taken from `tx`.
  unfoldable pub do_jtag_server : Server K → ℕ → Pins → Server K × Pins
  do_jtag_server s tdo p = if size_approx s.tx == 0 then (s, p) else elim (try_dequeue s.tx) [
    | none ↦ (s, p)
    | some (cmd, tx') ↦
        let (p', rx') = jtag_command cmd tdo p s.rx in (record s { rx = rx'; tx = tx' }, p')
  ]

-- `'0' | (tck << 2) | (*tms << 1) | tdi`, in `uint8_t`.
unfoldable pub pins_byte : ℕ → ℕ → ℕ → ℕ
pins_byte tck tms tdi = u8 (bit_or (bit_or (bit_or b'0' (tck * 4)) (tms * 2)) tdi)

-- `(b - '0') & mask`, tested. (`b - '0'` is an `int`; added to a multiple of 8 it keeps its low
-- bits.)
unfoldable pub reply_flag : ℕ → ℕ → ℕ
reply_flag b mask = if bit_and (b + 256 - b'0') mask == 0 then 0 else 1

-- How the socket treats the calls of one `doJTAGClient`: whether each `write` sends its byte, and
-- the byte that `read` brings, if it brings one.
pub record Socket : Type 0 where
  pub first_write : Bool
  pub second_write : Bool
  pub reply : Option ℕ

-- `*tdo` and `*tms`
pub record Lines : Type 0 where
  pub tdo : ℕ
  pub tms : ℕ

-- `doJTAGClient`: the bytes sent and the pins, or the exit of `fail` after the bytes sent so far.
pub data Outcome : Type 0 where
  exited : List ℕ → Outcome
  returned : List ℕ → Lines → Outcome

unfoldable pub do_jtag_client : Socket → ℕ → ℕ → Bool → Lines → Outcome
do_jtag_client io tck tdi tmsoe l =
    let b = pins_byte tck l.tms tdi in
    if not io.first_write
    then exited []
    else if not io.second_write
    then exited (b ∷ [])
    else elim io.reply [
      | none ↦ exited (b ∷ b'S' ∷ [])
      | some r ↦
          returned (b ∷ b'S' ∷ [])
            (record l { tdo = reply_flag r 1; tms = if tmsoe then l.tms else reply_flag r 2 })
    ]
