-- ===== src/Uart/Run.antt =====
-- A run of `doUARTServer` over successive ticks, and the two bit machines run alone: neither
-- reads what the other writes.
use native.Mathlib.Nat.{zero-add, add-zero}
use tinylabs_cores.Common.{
  ℕ, zero, suc, ◌+◌, ◌%◌, ◌^◌, ◌<◌, ◌≡◌, ◌≢◌, refl, ◌∙◌, Bool, true, arith, ◌==◌, if◌then◌else◌,
  sub64,
}
use tinylabs_cores.Queue.{ByteQueue}
use tinylabs_cores.Uart.{
  Uart, TxLine, RxLine, do_uart_server, tx_machine, rx_machine, bit_time, due,
}

module _ (K : ByteQueue) where
  -- `n` calls at the ticks `t`, `t + 1`, …; the pin that the server reads is a function of the
  -- tick, and the one that it drives is carried along.
  unfoldable pub run : ℕ → ℕ → (ℕ → Bool) → Uart K → Bool → Uart K × Bool
  run zero t pins u pin = (u, pin)
  run (suc n) t pins u pin =
      let (u', pin') = do_uart_server K u t (pins t) pin in run n (t + 1) pins u' pin'

  module _ (period : ℕ) where
    unfoldable pub tx_tick : ℕ → Bool → TxLine × K.Q → TxLine × K.Q
    tx_tick t pin (l, q) = if t % 2 == 0 then tx_machine K period t pin l q else (l, q)

    unfoldable pub run_tx : ℕ → ℕ → (ℕ → Bool) → TxLine × K.Q → TxLine × K.Q
    run_tx zero t pins s = s
    run_tx (suc n) t pins s = run_tx n (t + 1) pins (tx_tick t (pins t) s)

    unfoldable pub rx_tick : ℕ → RxLine × K.Q × Bool → RxLine × K.Q × Bool
    rx_tick t (l, q, pin) = if t % 2 == 0 then rx_machine K period t l q pin else (l, q, pin)

    unfoldable pub run_rx : ℕ → ℕ → RxLine × K.Q × Bool → RxLine × K.Q × Bool
    run_rx zero t s = s
    run_rx (suc n) t s = run_rx n (t + 1) (rx_tick t s)

  abbrev pub tx_part : Uart K → TxLine × K.Q
  tx_part u = (u.tx_line, u.server.rx)

  abbrev pub rx_part : Uart K × Bool → RxLine × K.Q × Bool
  rx_part (u, pin) = (u.rx_line, u.server.tx, pin)

  do_uart_server-tx :
      (u : Uart K) (t : ℕ) (a b : Bool)
      → u.server.running ≡ true
      → tx_part (do_uart_server K u t a b).0 ≡ tx_tick u.server.period t a (tx_part u)
  unfolding do_uart_server tx_tick
  do_uart_server-tx u t a b r = ground arith

  do_uart_server-rx :
      (u : Uart K) (t : ℕ) (a b : Bool)
      → u.server.running ≡ true
      → rx_part (do_uart_server K u t a b) ≡ rx_tick u.server.period t (rx_part (u, b))
  unfolding do_uart_server rx_tick
  do_uart_server-rx u t a b r = ground arith

  -- A call changes neither the period nor whether the server runs.
  do_uart_server-keeps :
      (u : Uart K) (t : ℕ) (a b : Bool)
      → ((do_uart_server K u t a b).0.server.running ≡ u.server.running)
        × ((do_uart_server K u t a b).0.server.period ≡ u.server.period)
  unfolding do_uart_server
  do_uart_server-keeps u t a b = ground arith

  pub run-tx :
      (n t : ℕ) (pins : ℕ → Bool) (u : Uart K) (pin : Bool)
      → u.server.running ≡ true
      → tx_part (run n t pins u pin).0 ≡ run_tx u.server.period n t pins (tx_part u)
  unfolding run run_tx
  run-tx zero t pins u pin r = refl
  run-tx (suc n) t pins u pin r =
      let (r', p') = do_uart_server-keeps u t (pins t) pin in
      run-tx n (t + 1) pins (do_uart_server K u t (pins t) pin).0
        (do_uart_server K u t (pins t) pin).1 (r' ∙ r)
      ∙ rw (do_uart_server-tx u t (pins t) pin r, p') refl

  pub run-rx :
      (n t : ℕ) (pins : ℕ → Bool) (u : Uart K) (pin : Bool)
      → u.server.running ≡ true
      → rx_part (run n t pins u pin) ≡ run_rx u.server.period n t (rx_part (u, pin))
  unfolding run run_rx
  run-rx zero t pins u pin r = refl
  run-rx (suc n) t pins u pin r =
      let (r', p') = do_uart_server-keeps u t (pins t) pin in
      run-rx n (t + 1) pins (do_uart_server K u t (pins t) pin).0
        (do_uart_server K u t (pins t) pin).1 (r' ∙ r)
      ∙ rw (do_uart_server-rx u t (pins t) pin r, p') refl

module _ (K : ByteQueue) (period : ℕ) where
  pub run_tx-add :
      (n m t : ℕ) (pins : ℕ → Bool) (s : TxLine × K.Q)
      → run_tx K period (n + m) t pins s
        ≡ run_tx K period m (t + n) pins (run_tx K period n t pins s)
  unfolding run_tx
  run_tx-add zero m t pins s = rw (zero-add, add-zero)
  run_tx-add (suc n) m t pins s =
      let e : suc n + m ≡ suc (n + m) = omega arith in
      let e' : t + suc n ≡ t + 1 + n = omega arith in rw (e, e') (run_tx-add n m (t + 1) pins _)

  pub run_rx-add :
      (n m t : ℕ) (s : RxLine × K.Q × Bool)
      → run_rx K period (n + m) t s ≡ run_rx K period m (t + n) (run_rx K period n t s)
  unfolding run_rx
  run_rx-add zero m t s = rw (zero-add, add-zero)
  run_rx-add (suc n) m t s =
      let e : suc n + m ≡ suc (n + m) = omega arith in
      let e' : t + suc n ≡ t + 1 + n = omega arith in rw (e, e') (run_rx-add n m (t + 1) _)

-- At an offset from the start, a machine acts on the bit boundaries only.
pub due_offset :
    (period s x : ℕ) → s ≢ 0 → s + x < 2 ^ 64 → due period (s + x) s ≡ (x % bit_time period == 0)
unfolding due
due_offset period s x h fits = let e : sub64 (s + x) s ≡ x = omega arith in ground (arith, e)
