-- ===== src/Jtag/Remote/Obey.antt =====
-- What the commands of the JTAG protocol mean, apart from the threads and queues of
-- verilator_utils/JTAGServer.cpp.
use tinylabs_cores.Common.{
  ℕ, ◌+◌, ◌-◌, ◌*◌, ◌/◌, ◌%◌, ◌<◌, ◌≡◌, refl, sym, ap, ◌∙◌, append_assoc, append-nil, true, false,
  List, [], ◌∷◌, ◌++◌, ◌==◌, ==_iff, if◌then◌else◌, arith, at_every, every, Bool-cases, inl, inr,
}
use tinylabs_cores.Common.Bits.{bit_and-mask}
use tinylabs_cores.Queue.{ByteQueue}
use tinylabs_cores.Server.{enqueue_all}
use tinylabs_cores.Jtag.{Pins, flag, within, state_byte, jtag_command}

abbrev level : ℕ → ℕ
level x = if x == 0 then 0 else 1

-- '0' to '7' set three pins, 'r' to 'u' the reset, which is active low.
pub change : ℕ → Pins → Pins
change cmd p =
    if within b'0' b'7' cmd
    then record p { tdi = (cmd - b'0') % 2; tms = (cmd - b'0') / 2 % 2; tck = (cmd - b'0') / 4 }
    else if within b'r' b'u' cmd
    then record p { srst = 1 - (cmd - b'r') % 2 }
    else p

-- 'R' is answered with TDO, 'S' with TDO and TMS.
pub reply : ℕ → ℕ → Pins → List ℕ
reply cmd tdo p =
    if cmd == b'R'
    then (b'0' + level tdo) ∷ []
    else if cmd == b'S'
    then (b'0' + level tdo + 2 * level p.tms) ∷ []
    else []

-- Commands one after the other, each with TDO: the pins at the end, and all replies.
pub obey : Pins → List (ℕ × ℕ) → Pins × List ℕ
obey p [] = (p, [])
obey p ((cmd, tdo) ∷ rest) =
    let (p', replies) = obey (change cmd p) rest in (p', reply cmd tdo p ++ replies)

flags : (d : ℕ) → d < 8 → (flag d 1 ≡ d % 2) × (flag d 2 ≡ d / 2 % 2) × (flag d 4 ≡ d / 4)
unfolding flag every
flags d h = (
  (==_iff _ _).0 (at_every (λ d. flag d 1 == d % 2) 8 h refl),
  (==_iff _ _).0 (at_every (λ d. flag d 2 == d / 2 % 2) 8 h refl),
  (==_iff _ _).0 (at_every (λ d. flag d 4 == d / 4) 8 h refl),
)

module _ (K : ByteQueue) (cmd tdo : ℕ) (p : Pins) (rx : K.Q) where
  -- What a command does to the pins and to the queue of the replies.
  Meant : Type 0
  Meant = jtag_command K cmd tdo p rx ≡ (change cmd p, enqueue_all K (reply cmd tdo p) rx)

  digit-Meant : within b'0' b'7' cmd ≡ true → Meant
  unfolding Meant jtag_command change reply enqueue_all
  digit-Meant digit =
      let (f1, f2, f4) = flags (cmd - b'0') (ground (arith, digit)) in
      ground (arith, digit, f1, f2, f4)

  reset-Meant : within b'0' b'7' cmd ≡ false → within b'r' b'u' cmd ≡ true → Meant
  unfolding Meant jtag_command change reply enqueue_all
  reset-Meant other reset = ground (arith, other, reset, bit_and-mask 1 (cmd - b'r'))

  query-Meant : within b'0' b'7' cmd ≡ false → within b'r' b'u' cmd ≡ false → Meant
  unfolding Meant jtag_command change reply enqueue_all state_byte
  query-Meant other query = ground (arith, other, query)

  pub jtag_command_lem :
      jtag_command K cmd tdo p rx ≡ (change cmd p, enqueue_all K (reply cmd tdo p) rx)
  unfolding Meant
  jtag_command_lem = elim (Bool-cases (within b'0' b'7' cmd)) [
    | inl digit ↦ digit-Meant digit
    | inr other ↦ elim (Bool-cases (within b'r' b'u' cmd)) [
      | inl reset ↦ reset-Meant other reset
      | inr query ↦ query-Meant other query
    ]
  ]

pub obey-nil : (p : Pins) → obey p [] ≡ (p, [])
unfolding obey
obey-nil p = refl

-- A command that comes last is obeyed last.
pub obey-append :
    (p : Pins) (xs : List (ℕ × ℕ)) (cmd tdo : ℕ)
    → obey p (xs ++ ((cmd, tdo) ∷ []))
      ≡ (change cmd (obey p xs).0, (obey p xs).1 ++ reply cmd tdo (obey p xs).0)
unfolding obey
obey-append p [] cmd tdo = ap (λ l. (change cmd p, l)) (append-nil (reply cmd tdo p))
obey-append p ((first, level) ∷ xs) cmd tdo =
    let (q, out) = obey (change first p) xs in
    ap (λ (r : Pins × List ℕ). (r.0, reply first level p ++ r.1))
      (obey-append (change first p) xs cmd tdo)
    ∙ ap (λ l. (change cmd q, l)) (sym (append_assoc (reply first level p) out (reply cmd tdo q)))
