-- ===== src/Jtag/Exchange.antt =====
-- One exchange between a JTAG client and a JTAG server.
use tinylabs_cores.Common.{
  ℕ, ◌<◌, ◌≡◌, refl, ap, ap₂, ◌∙◌, Bool, true, false, some, List, [], ◌∷◌, ◌++◌, ◌==◌, ==_of_ne,
  if◌then◌else◌, arith, zero, suc,
}
use tinylabs_cores.Queue.{ByteQueue, Unfailing, enqueue_ok}
use tinylabs_cores.Server.{Server}
use tinylabs_cores.Jtag.{
  Pins, Lines, Socket, returned, flag, state_byte, jtag_command, do_jtag_server, pins_byte,
  reply_flag, do_jtag_client,
}

-- A pin of one bit.
abbrev pub IsBit : ℕ → Type 0
IsBit x = x < 2

module _ (K : ByteQueue) (s : Server K) (tdo : ℕ) (p : Pins) where
  -- With a command at the front of `tx`, a call of `doJTAGServer` is that command's case.
  pub do_jtag_server-cons :
      (cmd : ℕ) (cmds : List ℕ)
      → K.contents s.tx ≡ cmd ∷ cmds
      → (tx' : K.Q) × (K.contents tx' ≡ cmds)
        × (do_jtag_server K s tdo p ≡ (
          record s { rx = (jtag_command K cmd tdo p s.rx).1; tx = tx' },
          (jtag_command K cmd tdo p s.rx).0,
        ))
  unfolding do_jtag_server
  do_jtag_server-cons cmd cmds e =
      let (tx', taken, left) = K.try_dequeue-cons s.tx cmd cmds e in
      let z : (K.size_approx s.tx == 0) ≡ false =
        ==_of_ne _ _ (K.size_approx-cons s.tx cmd cmds e) in
      (tx', left, ground (arith, z, taken))

  -- With nothing queued it does nothing.
  pub do_jtag_server-nil : K.contents s.tx ≡ [] → do_jtag_server K s tdo p ≡ (s, p)
  unfolding do_jtag_server
  do_jtag_server-nil e = ground (arith, K.size_approx-nil s.tx e)

-- The byte of the client's pins is one of '0' to '7', and the server reads the pins from it.
pins_command :
    (K : ByteQueue) (tck tms tdi tdo : ℕ) (p : Pins) (rx : K.Q)
    → IsBit tck
    → IsBit tms
    → IsBit tdi
    → jtag_command K (pins_byte tck tms tdi) tdo p rx
      ≡ (record p { tck = tck; tdi = tdi; tms = tms }, rx)
unfolding jtag_command pins_byte flag
pins_command K zero zero zero tdo p rx a b c = refl
pins_command K zero zero (suc zero) tdo p rx a b c = refl
pins_command K zero (suc zero) zero tdo p rx a b c = refl
pins_command K zero (suc zero) (suc zero) tdo p rx a b c = refl
pins_command K (suc zero) zero zero tdo p rx a b c = refl
pins_command K (suc zero) zero (suc zero) tdo p rx a b c = refl
pins_command K (suc zero) (suc zero) zero tdo p rx a b c = refl
pins_command K (suc zero) (suc zero) (suc zero) tdo p rx a b c = refl
pins_command K (suc (suc _)) _ _ tdo p rx a b c = absurd (omega arith)
pins_command K _ (suc (suc _)) _ tdo p rx a b c = absurd (omega arith)
pins_command K _ _ (suc (suc _)) tdo p rx a b c = absurd (omega arith)

-- What the client reads back from the server's reply.
reply_flags :
    (tdo tms : ℕ)
    → IsBit tdo
    → IsBit tms
    → (reply_flag (state_byte tdo tms) 1 ≡ tdo) × (reply_flag (state_byte tdo tms) 2 ≡ tms)
unfolding reply_flag state_byte
reply_flags zero zero a b = (refl, refl)
reply_flags zero (suc zero) a b = (refl, refl)
reply_flags (suc zero) zero a b = (refl, refl)
reply_flags (suc zero) (suc zero) a b = (refl, refl)
reply_flags (suc (suc _)) _ a b = absurd (omega arith)
reply_flags _ (suc (suc _)) a b = absurd (omega arith)

state_command :
    (K : ByteQueue) (tdo : ℕ) (p : Pins) (rx : K.Q)
    → jtag_command K b'S' tdo p rx ≡ (p, (K.enqueue rx (state_byte tdo p.tms)).0)
unfolding jtag_command
state_command K tdo p rx = refl

abbrev pub answered : ℕ → Socket
answered r = record { first_write = true; second_write = true; reply = some r }

-- The bytes that the client sends for its pins.
abbrev pub request : ℕ → ℕ → ℕ → List ℕ
request tck tms tdi = pins_byte tck tms tdi ∷ b'S' ∷ []

do_jtag_client_lem :
    (tck tdi r : ℕ) (tmsoe : Bool) (l : Lines)
    → do_jtag_client (answered r) tck tdi tmsoe l
      ≡ returned
          (request tck l.tms tdi)
          (record l { tdo = reply_flag r 1; tms = if tmsoe then l.tms else reply_flag r 2 })
unfolding do_jtag_client
do_jtag_client_lem tck tdi r tmsoe l = refl

-- One exchange. The two bytes that `doJTAGClient` sends for its pins, first in the queue of a
-- server, are taken by two calls of `doJTAGServer`: its `tck`, `tdi` and `tms` are then those of
-- the client and its reset stays. It queues one reply, and the client that reads it has the
-- server's `tdo`, and, where it does not drive `tms`, the level `w` that the server's side of that
-- line had at the second call. (Pins of one bit; no lack of memory.)
pub jtag_exchange :
    (K : ByteQueue) (s : Server K) (p : Pins) (tck tdi tdo w : ℕ) (tmsoe : Bool) (l : Lines)
    (rest : List ℕ)
    → Unfailing K
    → IsBit tck
    → IsBit tdi
    → IsBit l.tms
    → IsBit tdo
    → IsBit w
    → K.contents s.tx ≡ request tck l.tms tdi ++ rest
    → let (s1, p1) = do_jtag_server K s tdo p in
      let (s2, p2) = do_jtag_server K s1 tdo (record p1 { tms = w }) in
      (p1 ≡ record p { tck = tck; tdi = tdi; tms = l.tms })
      × (p2 ≡ record p1 { tms = w })
      × (K.contents s2.tx ≡ rest)
      × (reply : ℕ) × (K.contents s2.rx ≡ K.contents s.rx ++ (reply ∷ []))
      × (do_jtag_client (answered reply) tck tdi tmsoe l
          ≡ returned
              (request tck l.tms tdi)
              (record l { tdo = tdo; tms = if tmsoe then l.tms else w }))
jtag_exchange K s p tck tdi tdo w tmsoe l rest ok btck btdi btms btdo bw e =
    let (tx1, left1, run1) = do_jtag_server-cons K s tdo p _ _ e in
    let p1 : Pins = record p { tck = tck; tdi = tdi; tms = l.tms } in
    let s1 : Server K = record s { tx = tx1 } in
    let step1 : do_jtag_server K s tdo p ≡ (s1, p1) =
      run1
      ∙ ap (λ (r : Pins × K.Q). let (p', q) = r in (record s { rx = q; tx = tx1 }, p'))
          (pins_command K tck l.tms tdi tdo p s.rx btck btms btdi) in
    let pw : Pins = record p1 { tms = w } in
    let (tx2, left2, run2) = do_jtag_server-cons K s1 tdo pw _ _ left1 in
    let (f1, f2) = reply_flags tdo w btdo bw in
    rw (step1, run2)
      (
        refl,
        ap (λ r. r.0) (state_command K tdo pw s.rx),
        left2,
        state_byte tdo w,
        ap (λ r. K.contents r.1) (state_command K tdo pw s.rx) ∙ enqueue_ok K s.rx _ ok,
        do_jtag_client_lem tck tdi (state_byte tdo w) tmsoe l
            ∙ ap₂
                (λ a b.
                  returned (request tck l.tms tdi)
                    (record l { tdo = a; tms = if tmsoe then l.tms else b }))
                f1 f2,
      )
