-- ===== src/Gpio/Sync.antt =====
-- The two ends together: after a batch, the pins of one side are those of the other.
use native.Mathlib.Decide.{ℕ_discrete}
use tinylabs_cores.Common.{
  ℕ, suc, ◌+◌, ◌-◌, ◌/◌, ◌%◌, ◌^◌, ◌≤◌, ◌<◌, ◌≡◌, ◌≢◌, refl, sym, ap, ◌∙◌, true, false, some, List,
  [], ◌∷◌, ◌++◌, append_assoc, append-nil, ◌==◌, ==_of_ne, arith, length, length-append,
}
use tinylabs_cores.Common.Bits.{testbit, testbit-mod, mod-pow_ext, div-pow_ext}
use tinylabs_cores.Queue.{ByteQueue, Unfailing}
use tinylabs_cores.Gpio.{
  GpioClient, GpioServer, flush, client_send, client_read, server_send, server_read,
}
use tinylabs_cores.Gpio.Pins.{differs}
use tinylabs_cores.Gpio.Changes.{
  changes, update, update-lt, updated, length-changes, collect_lem, enqueue_changes_lem,
  testbit-update, client_read-changes, server_read-changes, store_lem,
}

-- Two pin words agree on the lowest `cnt` pins, or on the others.
abbrev pub Agrees : ℕ → ℕ → ℕ → Type 0
Agrees cnt x y = x % 2 ^ cnt ≡ y % 2 ^ cnt

abbrev pub AgreesAbove : ℕ → ℕ → ℕ → Type 0
AgreesAbove cnt x y = x / 2 ^ cnt ≡ y / 2 ^ cnt

-- The batch from `cached` to `out`.
abbrev pub batch : ℕ → ℕ → ℕ → List ℕ
batch cnt out cached = changes cnt 0 out cached

module _ (cnt out cached x : ℕ) (h : cnt ≤ 31) where
  first : 0 + cnt ≤ 31
  first = omega arith

  -- Pins that agreed with what had been sent agree with what is sent.
  update-Agrees : Agrees cnt x cached → Agrees cnt (update cnt 0 out cached x) out
  update-Agrees agree =
      mod-pow_ext cnt _ out
        (λ j hj. testbit-update cnt 0 out cached x j first (omega arith) ∙ inside j hj (same j hj))
    where
      same : (j : ℕ) → j < cnt → testbit x j ≡ testbit cached j
      same j hj =
          sym (testbit-mod cnt x j hj)
          ∙ ap (λ (t : ℕ). testbit t j) agree
          ∙ testbit-mod cnt cached j hj

      inside :
          (j : ℕ)
          → j < cnt
          → testbit x j ≡ testbit cached j
          → updated cnt 0 out cached x j ≡ testbit out j
      inside j hj e = ground arith

  update-AgreesAbove : x < 2 ^ 64 → AgreesAbove cnt (update cnt 0 out cached x) x
  update-AgreesAbove hx =
      div-pow_ext 64 cnt _ x (update-lt cnt 0 out cached x first hx) hx
        (λ j low high. testbit-update cnt 0 out cached x j first high ∙ outside j low)
    where
      outside : (j : ℕ) → cnt ≤ j → updated cnt 0 out cached x j ≡ testbit x j
      outside j low = ground arith

  -- Where every pin differs from what was sent, the batch sets every pin.
  pub update-all :
      ((j : ℕ) → j < cnt → differs out cached j ≡ true) → Agrees cnt (update cnt 0 out cached x) out
  update-all d =
      mod-pow_ext cnt _ out
        (λ j hj. testbit-update cnt 0 out cached x j first (omega arith) ∙ here j hj (d j hj))
    where
      here :
          (j : ℕ)
          → j < cnt
          → differs out cached j ≡ true
          → updated cnt 0 out cached x j ≡ testbit out j
      here j hj e = ground arith

-- What the client writes: nothing if no output has changed, or else the batch and the end mark.
client_send_lem :
    (g : GpioClient) (out cnt : ℕ)
    → cnt ≤ 31
    → out ≢ g.output
    → client_send g out cnt
      ≡ some (record g { output = out }, batch cnt out g.output ++ (flush ∷ []))
unfolding client_send
client_send_lem g out cnt h ne =
    let whole = collect_lem cnt 0 out g.output [] (omega arith) (omega arith) in
    let last =
      store_lem (batch cnt out g.output) flush (omega (arith, length-changes cnt 0 out g.output)) in
    rw (==_of_ne _ _ ne, whole, last) refl

client_send_same :
    (g : GpioClient) (cnt : ℕ)
    → client_send g g.output cnt ≡ some (record g { output = g.output }, [])
unfolding client_send
client_send_same g cnt = ground arith

pub client_read-nil : (cnt x : ℕ) → client_read cnt [] x ≡ some (x, [])
unfolding client_read
client_read-nil cnt x = refl

client_read-flush : (cnt x : ℕ) (rest : List ℕ) → client_read cnt (flush ∷ rest) x ≡ some (x, rest)
unfolding client_read
client_read-flush cnt x rest = refl

server_read-flush :
    (K : ByteQueue) (cnt x fuel : ℕ) (tx : K.Q) (rest : List ℕ)
    → K.contents tx ≡ flush ∷ rest
    → (tx' : K.Q) × (server_read K (suc fuel) cnt tx x ≡ some (x, tx')) × (K.contents tx' ≡ rest)
unfolding server_read
server_read-flush K cnt x fuel tx rest e =
    let (tx', taken, left) = K.try_dequeue-cons tx _ _ e in
    let z : (K.size_approx tx == 0) ≡ false = ==_of_ne _ _ (K.size_approx-cons tx _ _ e) in
    (tx', ground (arith, z, taken), left)

-- For up to 31 pins `GPIOClient::SendOutputs` is defined: it stays within its buffer, sends at
-- most one byte for each pin and one more, and remembers the outputs.
pub client_send_total :
    (g : GpioClient) (out cnt : ℕ)
    → cnt ≤ 31
    → (bytes : List ℕ) × (client_send g out cnt ≡ some (record g { output = out }, bytes))
      × (length bytes ≤ cnt + 1)
client_send_total g out cnt h = elim (ℕ_discrete out g.output) [
  | yes same ↦ ([], rw same (client_send_same g cnt), omega arith)
  | no ne ↦ (
    batch cnt out g.output ++ (flush ∷ []),
    client_send_lem g out cnt h ne,
    omega (
      arith,
      length-append (batch cnt out g.output) (flush ∷ []),
      length-changes cnt 0 out g.output,
    ),
  )
]

-- From the client to the server. The bytes that `SendOutputs` writes at the client, where they
-- come first in the server's queue `tx`, are what the loop of `doGPIOServer` takes, and no more.
-- If the server's inputs agreed with what the client had sent before, they agree with the new
-- outputs; the bits above the pins stay. (At most 31 pins, outputs that have changed, and fuel for
-- each byte.)
pub client-server_sync :
    (K : ByteQueue) (g g' : GpioClient) (out cnt x fuel : ℕ) (bytes rest : List ℕ) (tx : K.Q)
    → cnt ≤ 31
    → x < 2 ^ 64
    → out ≢ g.output
    → client_send g out cnt ≡ some (g', bytes)
    → K.contents tx ≡ bytes ++ rest
    → length bytes ≤ fuel
    → Agrees cnt x g.output
    → (x' : ℕ) × (tx' : K.Q) × (server_read K fuel cnt tx x ≡ some (x', tx'))
      × (K.contents tx' ≡ rest)
      × Agrees cnt x' out
      × AgreesAbove cnt x' x
client-server_sync K g g' out cnt x fuel bytes rest tx h hx ne sent e enough agree =
    let xs : List ℕ = batch cnt out g.output in
    let wrote : bytes ≡ xs ++ (flush ∷ []) = ground (arith, client_send_lem g out cnt h ne) in
    let queued : K.contents tx ≡ xs ++ (flush ∷ rest) =
      e ∙ ap (λ l. l ++ rest) wrote ∙ append_assoc xs (flush ∷ []) rest in
    let room : length xs < fuel = omega (arith, ap length wrote, length-append xs (flush ∷ [])) in
    let spare : ℕ = fuel - length xs - 1 in
    let split : fuel ≡ length xs + suc spare = omega arith in
    let (tx1, run, left) =
      server_read-changes K cnt cnt 0 out g.output x (suc spare) (flush ∷ rest) tx h (omega arith)
        queued in
    let x' : ℕ = update cnt 0 out g.output x in
    let (tx', stop, end) = server_read-flush K cnt x' spare tx1 rest left in
    (
      x',
      tx',
      ap (λ f. server_read K f cnt tx x) split ∙ run ∙ stop,
      end,
      update-Agrees cnt out g.output x h agree,
      update-AgreesAbove cnt out g.output x h hx,
    )

pub server_send_lem :
    (K : ByteQueue) (g : GpioServer K) (out cnt : ℕ)
    → Unfailing K
    → cnt ≤ 31
    → out ≢ g.output
    → (rx' : K.Q) × (server_send K g out cnt
        ≡ some (record g { server = record (g.server) { rx = rx' }; output = out }))
      × (K.contents rx' ≡ K.contents g.server.rx ++ batch cnt out g.output)
unfolding server_send
server_send_lem K g out cnt ok h ne =
    let (rx', run, got) = enqueue_changes_lem K cnt 0 out g.output g.server.rx ok (omega arith) in
    (rx', rw (==_of_ne _ _ ne, run) refl, got)

-- From the server to the client. `GPIOServer::SendOutputs` is defined, queues a batch behind what
-- `rx` holds and remembers the outputs; the client's loop takes the whole batch. If the client's
-- inputs agreed with what the server had sent before, they agree with the new outputs; the bits
-- above the pins stay. (At most 31 pins, outputs that have changed, and no lack of memory.)
pub server-client_sync :
    (K : ByteQueue) (g : GpioServer K) (out cnt x : ℕ)
    → Unfailing K
    → cnt ≤ 31
    → x < 2 ^ 64
    → out ≢ g.output
    → Agrees cnt x g.output
    → (g' : GpioServer K) × (bytes : List ℕ) × (x' : ℕ) × (server_send K g out cnt ≡ some g')
      × (g'.output ≡ out)
      × (K.contents g'.server.rx ≡ K.contents g.server.rx ++ bytes)
      × (client_read cnt bytes x ≡ some (x', []))
      × Agrees cnt x' out
      × AgreesAbove cnt x' x
server-client_sync K g out cnt x ok h hx ne agree =
    let (rx', run, got) = server_send_lem K g out cnt ok h ne in
    let xs : List ℕ = batch cnt out g.output in
    let x' : ℕ = update cnt 0 out g.output x in
    (
      record g { server = record (g.server) { rx = rx' }; output = out },
      xs,
      x',
      run,
      refl,
      got,
      rw (← append-nil xs) (
          client_read-changes cnt cnt 0 out g.output x [] h (omega arith) ∙ client_read-nil cnt x'),
      update-Agrees cnt out g.output x h agree,
      update-AgreesAbove cnt out g.output x h hx,
    )
