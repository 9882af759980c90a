-- ===== src/Uart/Link.antt =====
-- Two servers on one wire: what the one sends, the other receives.
use tinylabs_cores.Common.{
  ℕ, zero, suc, ◌+◌, ◌-◌, ◌*◌, ◌^◌, ◌%◌, ◌≤◌, ◌<◌, ◌≡◌, ◌≢◌, refl, sym, ap, ◌∙◌, Bool, true, some,
  List, [], ◌∷◌, ◌++◌, append_assoc, append-nil, arith, length, All, ==_of_ne,
}
use tinylabs_cores.Queue.{ByteQueue, Unfailing, enqueue_ok}
use tinylabs_cores.Uart.{Uart, tx_idle, rx_idle, tx_machine, tx_switch, next_byte, bit_time, due}
use tinylabs_cores.Uart.Run.{
  run, run_tx, run_rx, tx_tick, run_tx-add, run_rx-add, tx_part, run-tx, run-rx,
}
use tinylabs_cores.Uart.Receive.{mul-even, mul_mono, bit_time-even, Timed, Framed, run_tx-frame}
use tinylabs_cores.Uart.Transmit.{frame_bit}
use tinylabs_cores.Uart.Wave.{run_rx-frame, run_rx-wave}

module _ (K : ByteQueue) where
  -- A queue that holds something hands over its front.
  next_byte-cons :
      (q : K.Q) (b : ℕ) (bs : List ℕ)
      → K.contents q ≡ b ∷ bs
      → (q' : K.Q) × (next_byte K q ≡ some (b, q')) × (K.contents q' ≡ bs)
  unfolding next_byte
  next_byte-cons q b bs e =
      let (q', taken, left) = K.try_dequeue-cons q b bs e in
      (q', rw (==_of_ne _ _ (K.size_approx-cons q b bs e)) taken, left)

  module _ (period : ℕ) (pins : ℕ → Bool) where
    tx_tick_idles :
        (t : ℕ) (q : K.Q) → pins t ≡ true → tx_tick K period t (pins t) (tx_idle, q) ≡ (tx_idle, q)
    unfolding tx_tick tx_machine due tx_switch
    tx_tick_idles t q high = ground (arith, high)

    -- While the line is high, the idle machine stays idle.
    tx_idles :
        (n t : ℕ) (q : K.Q)
        → ((i : ℕ) → i < n → pins (t + i) ≡ true)
        → run_tx K period n t pins (tx_idle, q) ≡ (tx_idle, q)
    unfolding run_tx
    tx_idles zero t q high = refl
    tx_idles (suc n) t q high =
        let e0 : t + 0 ≡ t = omega arith in
        rw (tx_tick_idles t q (rw e0 at (high 0 (omega arith)))) (tx_idles n (t + 1) q later)
      where
        later : (i : ℕ) → i < n → pins (t + 1 + i) ≡ true
        later i h = let e : t + 1 + i ≡ t + suc i = omega arith in rw e (high (suc i) (omega arith))

    -- The pins from tick `s` on are those that a sender drives, tick by tick.
    abbrev Wired : ℕ → ℕ → K.Q → Type 0
    Wired n s q = (j : ℕ) → j < n → pins (s + j) ≡ (run_rx K period (j + 1) s (rx_idle, q, true)).2

    module _ (s b : ℕ) (q q' : K.Q) (v : Timed period s) where
      Wired-bit :
          (k r n : ℕ)
          → s + 10 * bit_time period ≤ 2 ^ 64
          → next_byte K q ≡ some (b, q')
          → 10 * bit_time period ≤ n
          → Wired n s q
          → k < 10
          → r < bit_time period
          → pins (s + (k * bit_time period + r)) ≡ frame_bit b k
      Wired-bit k r n fits e long w hk hr =
          let m : ℕ = bit_time period in
          let x : k * m + r + 1 ≡ k * m + 1 + r = omega arith in
          w (k * m + r) (omega (arith, mul_mono (suc k) 10 m hk))
          ∙ ap (λ c. (run_rx K period c s (rx_idle, q, true)).2) x
          ∙ run_rx-wave K period s b q q' true k r v fits e hk hr

      Wired-frame :
          (n : ℕ)
          → s + 10 * bit_time period ≤ 2 ^ 64
          → next_byte K q ≡ some (b, q')
          → 10 * bit_time period ≤ n
          → Wired n s q
          → Framed period pins s b
      Wired-frame n fits e long w = record {
        start_bit =
            ap pins first ∙ Wired-bit 0 0 n fits e long w (omega arith) (omega (arith, v.bits));
        data_bits = λ k hk.
            ap pins (boundary k)
            ∙ Wired-bit (suc k) 0 n fits e long w (omega arith) (omega (arith, v.bits))
            ∙ ground arith;
      }
        where
          first : s ≡ s + (0 * bit_time period + 0)
          first = omega arith

          boundary : (k : ℕ) → s + suc k * bit_time period ≡ s + (suc k * bit_time period + 0)
          boundary k = omega arith

      -- One frame, its stop bit included, moves the byte into the receiver's queue.
      Wired-byte :
          (n : ℕ) (p : K.Q)
          → s + 10 * bit_time period ≤ 2 ^ 64
          → next_byte K q ≡ some (b, q')
          → b < 256
          → 10 * bit_time period ≤ n
          → Wired n s q
          → run_tx K period (10 * bit_time period) s pins (tx_idle, p)
            ≡ (tx_idle, (K.enqueue p b).0)
      Wired-byte n p fits e hb long w =
          let m : ℕ = bit_time period in
          let split : 10 * m ≡ 1 + 9 * m + (m - 1) = omega (arith, v.bits) in
          ap (λ c. run_tx K period c s pins (tx_idle, p)) split
          ∙ run_tx-add K period (1 + 9 * m) (m - 1) s pins (tx_idle, p)
          ∙ ap (run_tx K period (m - 1) (s + (1 + 9 * m)) pins)
              (run_tx-frame K period pins s b p v (Wired-frame n fits e long w) hb)
          ∙ tx_idles (m - 1) (s + (1 + 9 * m)) (K.enqueue p b).0 high
        where
          high : (i : ℕ) → i < bit_time period - 1 → pins (s + (1 + 9 * bit_time period) + i) ≡ true
          high i h =
              let e9 : s + (1 + 9 * bit_time period) + i ≡ s + (9 * bit_time period + suc i) =
                omega arith in
              ap pins e9 ∙ Wired-bit 9 (suc i) n fits e long w (omega arith) (omega arith)

      Wired-later :
          (n : ℕ)
          → s + 10 * bit_time period ≤ 2 ^ 64
          → next_byte K q ≡ some (b, q')
          → Wired (10 * bit_time period + n) s q
          → Wired n (s + 10 * bit_time period) q'
      Wired-later n fits e w j h =
          let m : ℕ = bit_time period in
          let at : s + 10 * m + j ≡ s + (10 * m + j) = omega arith in
          let count : 10 * m + j + 1 ≡ 10 * m + (j + 1) = omega arith in
          ap pins at
          ∙ w (10 * m + j) (omega arith)
          ∙ ap (λ r. r.2)
              (ap (λ c. run_rx K period c s (rx_idle, q, true)) count
                ∙ run_rx-add K period (10 * m) (j + 1) s (rx_idle, q, true)
                ∙ ap (run_rx K period (j + 1) (s + 10 * m))
                    (run_rx-frame K period s b q q' true v fits e))

    Wired-bytes :
        Unfailing K
        → (bs : List ℕ) (s : ℕ) (q p : K.Q) → s ≢ 0
        → s % 2 ≡ 0
        → 0 < bit_time period
        → s + length bs * (10 * bit_time period) ≤ 2 ^ 64
        → K.contents q ≡ bs
        → All (λ b. b < 256) bs
        → Wired (length bs * (10 * bit_time period)) s q
        → let r = run_tx K period (length bs * (10 * bit_time period)) s pins (tx_idle, p) in
          (r.0 ≡ tx_idle) × (K.contents r.1 ≡ K.contents p ++ bs)
    unfolding run_tx
    Wired-bytes ok [] s q p ne even pos fits e small w =
        let none : length {A = ℕ} [] * (10 * bit_time period) ≡ 0 = omega arith in
        rw none (refl, sym (append-nil _))
    Wired-bytes ok (b ∷ bs) s q p ne even pos fits e small w =
        let frame : ℕ = 10 * bit_time period in
        let (q', taken, left) = next_byte-cons q b bs e in
        let total : suc (length bs) * frame ≡ frame + length bs * frame = omega arith in
        let v : Timed period s = record {
          started = ne;
          even = even;
          bits = pos;
          fits = omega arith;
        } in
        let p' : K.Q = (K.enqueue p b).0 in
        let whole : run_tx K period (suc (length bs) * frame) s pins (tx_idle, p)
            ≡ run_tx K period (length bs * frame) (s + frame) pins (tx_idle, p') =
          ap (λ c. run_tx K period c s pins (tx_idle, p)) total
          ∙ run_tx-add K period frame (length bs * frame) s pins (tx_idle, p)
          ∙ ap (run_tx K period (length bs * frame) (s + frame) pins) (
              Wired-byte s b q q' v (suc (length bs) * frame) p (omega arith) taken small.0
                (omega arith) w) in
        let (idle, got) =
          Wired-bytes ok bs (s + frame) q' p' (omega arith)
            (omega (arith, mul-even 10 (bit_time period) (bit_time-even period))) pos (omega arith)
            left small.1
            (Wired-later s b q q' v (length bs * frame) (omega arith) taken
              (λ j h. w j (omega arith))) in
        rw whole (
          idle,
          got ∙ ap (λ c. c ++ bs) (enqueue_ok K p b ok) ∙ append_assoc (K.contents p) (b ∷ []) bs,
        )

  -- The wire between two servers: at each of `n` ticks the receiver reads what the sender drives.
  abbrev pub Connected : ℕ → ℕ → Uart K → (ℕ → Bool) → (ℕ → Bool) → Type 0
  Connected n s u back pins = (j : ℕ) → j < n → pins (s + j) ≡ (run K (j + 1) s back u true).1

  -- Every byte that waits in the queue `tx` of a server arrives, in order, in the queue `rx` of a
  -- server of the same period that is wired to it: after ten bit times for each byte its bit
  -- machine is idle again. Both run and start idle, at an even tick that is not 0; the clock does
  -- not wrap, and memory does not run out.
  pub rx-link :
      (u v : Uart K) (bs : List ℕ) (s : ℕ) (pins back : ℕ → Bool) (pin : Bool)
      → Unfailing K
      → u.server.running ≡ true
      → v.server.running ≡ true
      → u.server.period ≡ v.server.period
      → u.rx_line ≡ rx_idle
      → v.tx_line ≡ tx_idle
      → K.contents u.server.tx ≡ bs
      → All (λ b. b < 256) bs
      → s ≢ 0
      → s % 2 ≡ 0
      → 0 < bit_time v.server.period
      → s + length bs * (10 * bit_time v.server.period) ≤ 2 ^ 64
      → Connected (length bs * (10 * bit_time v.server.period)) s u back pins
      → let v' = (run K (length bs * (10 * bit_time v.server.period)) s pins v pin).0 in
        (v'.tx_line ≡ tx_idle) × (K.contents v'.server.rx ≡ K.contents v.server.rx ++ bs)
  rx-link u v bs s pins back pin ok ru rv same iu iv e small ne even pos fits c =
      let p : ℕ = v.server.period in
      let n : ℕ = length bs * (10 * bit_time p) in
      let w : Wired p pins n s u.server.tx = λ j h.
        c j h
        ∙ ap (λ r. r.2)
            (run-rx K (j + 1) s back u true ru
              ∙ ap (λ l. run_rx K u.server.period (j + 1) s (l, u.server.tx, true)) iu
              ∙ ap (λ p. run_rx K p (j + 1) s (rx_idle, u.server.tx, true)) same) in
      let t : tx_part K (run K n s pins v pin).0 ≡ run_tx K p n s pins (tx_idle, v.server.rx) =
        run-tx K n s pins v pin rv ∙ ap (λ l. run_tx K p n s pins (l, v.server.rx)) iv in
      let (idle, got) =
        Wired-bytes p pins ok bs s u.server.tx v.server.rx ne even pos fits e small w in
      (ap (λ r. r.0) t ∙ idle, ap (λ r. K.contents r.1) t ∙ got)
