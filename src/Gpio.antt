-- ===== src/Gpio.antt =====
-- verilator_utils/GPIOServer.cpp and GPIOClient.cpp, with their headers: the two ends of a link
-- that carries the pins of one simulator to another, one byte for each pin that changes. `none`
-- stands for a shift or a write that the language leaves undefined. The lines that print are left
-- out.
pub mod Pins
pub mod Changes
pub mod Sync
pub mod First
use tinylabs_cores.Common.{
  ℕ, zero, suc, ◌+◌, ◌-◌, ◌^◌, Bool, true, false, not, Option, none, some, List, [], ◌∷◌, ◌++◌,
  bit_and, bit_or, ltb, ◌==◌, if◌then◌else◌, length,
}
use tinylabs_cores.Queue.{ByteQueue}
use tinylabs_cores.Server.{Server}

infixl 5 ◌>>=◌
abbrev pub ◌>>=◌ {ℓ κ} : {A : Type ℓ} {B : Type κ} → Option A → (A → Option B) → Option B
none >>= f = none
some a >>= f = f a

-- `1 << i`, an `int`, converted to `uint64_t`: the sign of `1 << 31` spreads, and a shift by more
-- is undefined.
unfoldable pub int_bit : ℕ → Option ℕ
int_bit i = if ltb i 31 then some (2 ^ i) else if i == 31 then some (2 ^ 64 - 2 ^ 31) else none

-- `~x` on 64 bits. (`~(1 << off)` is an `int`, whose sign spreads in the same way.)
abbrev pub not64 : ℕ → ℕ
not64 x = 2 ^ 64 - 1 - x

-- The byte for pin `i` at a level.
unfoldable pub command : ℕ → Bool → ℕ
command i level = if level then bit_or (bit_and i 0x7F) 0x80 else bit_and i 0x7F

-- `cmd` 0xFF ends a batch.
abbrev pub flush : ℕ
flush = 0xFF

-- The effect of one byte on `*input`.
unfoldable pub apply_command : ℕ → ℕ → ℕ → Option ℕ
apply_command input_cnt cmd input =
    let off = bit_and cmd 0x7F in
    if ltb off input_cnt
    then (do
      mask ← int_bit off
      some (if not (bit_and cmd 0x80 == 0) then bit_or input mask else bit_and input (not64 mask)))
    else some input

-- The body of the loop of `SendOutputs` at pin `i`: the byte to send, if the pin has changed.
unfoldable pub changed_pin : ℕ → ℕ → ℕ → Option (Option ℕ)
changed_pin i output cached = do
  mask ← int_bit i
  some (
      if bit_and output mask == bit_and cached mask
      then none
      else some (command i (not (bit_and output mask == 0))))

-- `uint8_t data[65]`: what has been stored, up to `idx`.
abbrev data_size : ℕ
data_size = 65

-- `data[idx++] = x`
unfoldable pub store : List ℕ → ℕ → Option (List ℕ)
store xs x = if ltb (length xs) data_size then some (xs ++ (x ∷ [])) else none

-- The loop of `GPIOClient::SendOutputs`, with `n` pins left.
unfoldable pub collect : ℕ → ℕ → ℕ → ℕ → List ℕ → Option (List ℕ)
collect zero i output cached xs = some xs
collect (suc n) i output cached xs = do
  change ← changed_pin i output cached
  xs' ← elim change [ none ↦ some xs | some x ↦ store xs x ]
  collect n (i + 1) output cached xs'

pub record GpioClient : Type 0 where
  pub output : ℕ
  pub period : ℕ
  -- The static `init` of `doGPIOClient`.
  pub init : Bool

-- `GPIOClient::SendOutputs`: the new state and the bytes handed to `write`.
unfoldable pub client_send : GpioClient → ℕ → ℕ → Option (GpioClient × List ℕ)
client_send g output output_cnt = if output == g.output then some (g, []) else (do
  xs ← collect output_cnt 0 output g.output []
  xs' ← store xs flush
  some (record g { output = output }, xs'))

-- The loop of `doGPIOClient`, over the bytes that the socket has: `*input` and what is left.
unfoldable pub client_read : ℕ → List ℕ → ℕ → Option (ℕ × List ℕ)
client_read input_cnt [] input = some (input, [])
client_read input_cnt (cmd ∷ cmds) input = elim (cmd == flush) [
  | true ↦ some (input, cmds)
  | false ↦ (do input' ← apply_command input_cnt cmd input; client_read input_cnt cmds input')
]

-- `doGPIOClient`: the new state, `*input`, the bytes written and the bytes left to read.
unfoldable pub do_gpio_client :
    GpioClient → List ℕ → ℕ → ℕ → ℕ → ℕ → Option (GpioClient × ℕ × List ℕ × List ℕ)
do_gpio_client g socket input input_cnt output output_cnt = do
  (g', written) ←
      client_send (record g { output = if g.init then g.output else not64 output; init = true })
        output output_cnt
  (input', left) ← client_read input_cnt socket input
  some (g', input', written, left)

module _ (K : ByteQueue) where
  open K use {Q, enqueue, try_dequeue, size_approx}

  -- The loop of `GPIOServer::SendOutputs`, with `n` pins left.
  unfoldable pub enqueue_changes : ℕ → ℕ → ℕ → ℕ → Q → Option Q
  enqueue_changes zero i output cached rx = some rx
  enqueue_changes (suc n) i output cached rx = do
    change ← changed_pin i output cached
    enqueue_changes n (i + 1) output cached (elim change [ none ↦ rx | some x ↦ (enqueue rx x).0 ])

  pub record GpioServer : Type 0 where
    pub server : Server K
    pub output : ℕ
    -- The static `init` of `doGPIOServer`.
    pub init : Bool

  -- `GPIOServer::SendOutputs`
  unfoldable pub server_send : GpioServer → ℕ → ℕ → Option GpioServer
  server_send g output output_cnt = if output == g.output then some g else (do
    rx' ← enqueue_changes output_cnt 0 output g.output g.server.rx
    some (record g { server = record (g.server) { rx = rx' }; output = output }))

  -- The loop of `doGPIOServer`, on fuel: `*input` and the queue that is left.
  unfoldable pub server_read : ℕ → ℕ → Q → ℕ → Option (ℕ × Q)
  server_read zero input_cnt tx input = none
  server_read (suc fuel) input_cnt tx input = elim (size_approx tx == 0) [
    | true ↦ some (input, tx)
    | false ↦ elim (try_dequeue tx) [
      | none ↦ some (input, tx)
      | some (cmd, tx') ↦ elim (cmd == flush) [
        | true ↦ some (input, tx')
        | false ↦ (do
          input' ← apply_command input_cnt cmd input
          server_read fuel input_cnt tx' input')
      ]
    ]
  ]

  -- `doGPIOServer`: the new state and `*input`.
  unfoldable pub do_gpio_server : ℕ → GpioServer → ℕ → ℕ → ℕ → ℕ → Option (GpioServer × ℕ)
  do_gpio_server fuel g input input_cnt output output_cnt =
      if not g.server.running then some (g, input) else (do
        g' ←
            server_send
              (record g { output = if g.init then g.output else not64 output; init = true }) output
              output_cnt
        (input', tx') ← server_read fuel input_cnt g'.server.tx input
        some (record g' { server = record (g'.server) { tx = tx' } }, input'))
