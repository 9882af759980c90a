-- ===== src/Gpio/First.antt =====
-- The first call, which sends every pin, and the safety of the loop that reads.
use tinylabs_cores.Common.{
  ℕ, zero, suc, ◌^◌, ◌≤◌, ◌<◌, ◌≡◌, ◌≢◌, refl, ◌∙◌, true, false, some, List, [], ◌∷◌, ◌++◌,
  append-nil, ◌==◌, ==_of_ne, arith, length, bit_and, bit_or, if◌then◌else◌, inl, inr, Bool-cases,
  ltb,
}
use tinylabs_cores.Common.Bits.{testbit-lt, testbit-complement}
use tinylabs_cores.Queue.{ByteQueue, Unfailing}
use tinylabs_cores.Gpio.{
  GpioServer, not64, flush, int_bit, apply_command, server_read, do_gpio_server, client_read,
}
use tinylabs_cores.Gpio.Pins.{differs}
use tinylabs_cores.Gpio.Changes.{update, client_read-changes}
use tinylabs_cores.Gpio.Sync.{Agrees, batch, update-all, server_send_lem, client_read-nil}

differs-not64 : (out j : ℕ) → out < 2 ^ 64 → j < 64 → differs out (not64 out) j ≡ true
differs-not64 out j fits h = ground (arith, testbit-complement 64 j out fits h, testbit-lt j out)

not64-ne : (out : ℕ) → out ≢ not64 out
not64-ne out e = omega arith

server_read-nil :
    (K : ByteQueue) (fuel cnt x : ℕ) (tx : K.Q)
    → K.contents tx ≡ []
    → 0 < fuel
    → server_read K fuel cnt tx x ≡ some (x, tx)
unfolding server_read
server_read-nil K zero cnt x tx e h = elim h [ ]
server_read-nil K (suc fuel) cnt x tx e h = ground (arith, K.size_approx-nil tx e)

-- The first call of `doGPIOServer` on a running server to which nothing has come leaves its
-- inputs and queues bytes with which a client that takes them, whatever its inputs were, agrees
-- with the outputs. (At most 31 output pins, outputs of 64 bits, some fuel, no lack of memory.)
pub first_call_sync :
    (K : ByteQueue) (g : GpioServer K) (fuel input input_cnt out cnt x : ℕ)
    → Unfailing K
    → cnt ≤ 31
    → out < 2 ^ 64
    → 0 < fuel
    → g.server.running ≡ true
    → g.init ≡ false
    → K.contents g.server.tx ≡ []
    → (g' : GpioServer K) × (bytes : List ℕ) × (x' : ℕ) × (do_gpio_server K fuel g input input_cnt
          out cnt
        ≡ some (g', input))
      × (K.contents g'.server.rx ≡ K.contents g.server.rx ++ bytes)
      × (g'.init ≡ true)
      × (client_read cnt bytes x ≡ some (x', []))
      × Agrees cnt x' out
unfolding do_gpio_server
first_call_sync K g fuel input input_cnt out cnt x ok h fits pos run fresh empty =
    let start : GpioServer K = record g { output = not64 out; init = true } in
    let (rx', sent, got) = server_send_lem K start out cnt ok h (not64-ne out) in
    let xs : List ℕ = batch cnt out (not64 out) in
    let read = server_read-nil K fuel input_cnt input g.server.tx empty pos in
    (
      record start { server = record (g.server) { rx = rx' }; output = out },
      xs,
      update cnt 0 out (not64 out) x,
      ground (arith, sent, read),
      got,
      refl,
      rw (← append-nil xs) (
          client_read-changes cnt cnt 0 out (not64 out) x [] h (omega arith)
          ∙ client_read-nil cnt _),
      update-all cnt out (not64 out) x h (λ j hj. differs-not64 out j fits (omega arith)),
    )

apply_command_total : (cnt cmd x : ℕ) → cnt ≤ 31 → (x' : ℕ) × (apply_command cnt cmd x ≡ some x')
unfolding apply_command int_bit
apply_command_total cnt cmd x h =
    let off : ℕ = bit_and cmd 0x7F in
    (
      if ltb off cnt
          then (if bit_and cmd 0x80 == 0 then bit_and x (not64 (2 ^ off)) else bit_or x (2 ^ off))
          else x,
      ground arith,
    )

-- Whatever bytes have come, the loop of `doGPIOServer` with at most 31 input pins ends with a
-- result, given more fuel than there are bytes: no shift in it is undefined.
pub server_read_total :
    (K : ByteQueue) (fuel cnt x : ℕ) (bytes : List ℕ) (tx : K.Q)
    → cnt ≤ 31
    → K.contents tx ≡ bytes
    → length bytes < fuel
    → (r : ℕ × K.Q) × (server_read K fuel cnt tx x ≡ some r)
unfolding server_read
server_read_total K zero cnt x bytes tx h e enough = elim enough [ ]
server_read_total K (suc fuel) cnt x [] tx h e enough =
    ((x, tx), ground (arith, K.size_approx-nil tx e))
server_read_total K (suc fuel) cnt x (b ∷ bytes) tx h e enough =
    let (tx', taken, left) = K.try_dequeue-cons tx b bytes e in
    let z : (K.size_approx tx == 0) ≡ false = ==_of_ne _ _ (K.size_approx-cons tx b bytes e) in
    elim (Bool-cases (b == flush)) [
      | inl stop ↦ ((x, tx'), ground (arith, z, taken, stop))
      | inr more ↦
          let (x', a) = apply_command_total cnt b x h in
          let (r, run) = server_read_total K fuel cnt x' bytes tx' h left (omega arith) in
          (r, ground (arith, z, taken, more, a, run))
    ]
