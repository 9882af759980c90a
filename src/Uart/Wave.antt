-- ===== src/Uart/Wave.antt =====
-- The whole frame that the receive machine of `doUARTServer` drives for a queued byte.
use native.Mathlib.Decide.{dec_lt}
use tinylabs_cores.Common.{
  ℕ, zero, suc, ◌+◌, ◌-◌, ◌*◌, ◌^◌, ◌≤◌, ◌<◌, ◌≡◌, refl, ap, ◌∙◌, Bool, true, false, some, arith,
}
use tinylabs_cores.Queue.{ByteQueue}
use tinylabs_cores.Uart.{RxLine, rx_idle, is_done, next_byte, bit_time}
use tinylabs_cores.Uart.Run.{run_rx, run_rx-add}
use tinylabs_cores.Uart.Receive.{mul_mono, inside_bit, Timed}
use tinylabs_cores.Uart.Transmit.{
  frame_bit, sending, ended, bit_time_range, rx_waits, rx_one_bit, send_one, rx_starts, stop_one,
  tail_one,
}

module _ (K : ByteQueue) (period s b : ℕ) (q' : K.Q) where
  tail :
      (r : ℕ)
      → Timed period s
      → s + 10 * bit_time period ≤ 2 ^ 64
      → r < bit_time period
      → run_rx K period r (s + (9 * bit_time period + 1)) (ended (bit_time period) s b 0, q', true)
        ≡ (ended (bit_time period) s b r, q', true)
  unfolding run_rx
  tail zero v fits h = refl
  tail (suc r) v fits h =
      let m : ℕ = bit_time period in
      let e : suc r ≡ r + 1 = omega arith in
      let e' : s + (9 * m + 1) + r ≡ s + (9 * m + suc r) = omega arith in
      ap (λ n. run_rx K period n (s + (9 * m + 1)) (ended m s b 0, q', true)) e
      ∙ run_rx-add K period r 1 (s + (9 * m + 1)) (ended m s b 0, q', true)
      ∙ rw (tail r v fits (omega arith), e') (tail_one K period s b q' r v fits h)

awake : (s b k : ℕ) → is_done (sending s b k).state ≡ false
unfolding is_done
awake s b k = ground arith

module _ (K : ByteQueue) (period s b : ℕ) (q q' : K.Q) (pin : Bool) where
  abbrev sent : ℕ → RxLine × K.Q × Bool
  sent n = run_rx K period n s (rx_idle, q, pin)

  sends :
      (k : ℕ)
      → Timed period s
      → next_byte K q ≡ some (b, q')
      → k ≤ 8
      → sent (k * bit_time period + 1) ≡ (sending s b k, q', frame_bit b k)
  unfolding run_rx
  sends zero v e h =
      let one : 0 * bit_time period + 1 ≡ 1 = omega arith in
      ap sent one ∙ rx_starts K period s b q q' pin v e
  sends (suc k) v e h =
      let m : ℕ = bit_time period in
      let split : suc k * m + 1 ≡ k * m + 1 + m = omega arith in
      let t : ℕ = s + suc k * m in
      ap sent split
      ∙ run_rx-add K period (k * m + 1) m s (rx_idle, q, pin)
      ∙ ap (run_rx K period m (s + (k * m + 1))) (sends k v e (omega arith))
      ∙ rx_one_bit K period s b q q' k (sending s b k) (frame_bit b k) v (omega arith) refl
          (awake s b k)
      ∙ send_one K period s b q q' k t h

  ends :
      Timed period s
      → next_byte K q ≡ some (b, q')
      → sent (9 * bit_time period + 1) ≡ (ended (bit_time period) s b 0, q', true)
  unfolding is_done
  ends v e =
      let m : ℕ = bit_time period in
      let split : 9 * m + 1 ≡ 8 * m + 1 + m = omega arith in
      ap sent split
      ∙ run_rx-add K period (8 * m + 1) m s (rx_idle, q, pin)
      ∙ ap (run_rx K period m (s + (8 * m + 1))) (sends 8 v e (omega arith))
      ∙ rx_one_bit K period s b q q' 8 (sending s b 8) (frame_bit b 8) v (omega arith) refl refl
      ∙ stop_one K period s b q' v

  -- The idle machine that finds a byte at tick `s` has taken it, is idle again and leaves the pin
  -- high after ten bit times. (The tick is even and not 0, and the clock does not wrap.)
  pub run_rx-frame :
      Timed period s
      → s + 10 * bit_time period ≤ 2 ^ 64
      → next_byte K q ≡ some (b, q')
      → sent (10 * bit_time period) ≡ (rx_idle, q', true)
  run_rx-frame v fits e =
      let m : ℕ = bit_time period in
      let (lo, hi) = bit_time_range period v.bits in
      let split : 10 * m ≡ 9 * m + 1 + (m - 1) = omega arith in
      ap sent split
      ∙ run_rx-add K period (9 * m + 1) (m - 1) s (rx_idle, q, pin)
      ∙ ap (run_rx K period (m - 1) (s + (9 * m + 1))) (ends v e)
      ∙ tail K period s b q' (m - 1) v fits (omega arith)
      ∙ ground arith

  wave_bit :
      (k r : ℕ)
      → Timed period s
      → next_byte K q ≡ some (b, q')
      → k ≤ 8
      → r < bit_time period
      → (sent (k * bit_time period + 1 + r)).2 ≡ frame_bit b k
  wave_bit k r v e hk hr =
      let m : ℕ = bit_time period in
      ap (λ s. s.2)
        (run_rx-add K period (k * m + 1) r s (rx_idle, q, pin)
          ∙ ap (run_rx K period r (s + (k * m + 1))) (sends k v e hk)
          ∙ rx_waits K period s v.started r (k * m + 1) _ (sending s b k) q' (frame_bit b k) refl
              refl (omega (arith, v.fits, mul_mono k 8 m hk))
              (λ i h. (inside_bit k m i (omega arith), rw (awake s b k) refl)))

  wave_stop :
      (r : ℕ)
      → Timed period s
      → s + 10 * bit_time period ≤ 2 ^ 64
      → next_byte K q ≡ some (b, q')
      → r < bit_time period
      → (sent (9 * bit_time period + 1 + r)).2 ≡ true
  wave_stop r v fits e hr =
      let m : ℕ = bit_time period in
      ap (λ s. s.2)
        (run_rx-add K period (9 * m + 1) r s (rx_idle, q, pin)
          ∙ ap (run_rx K period r (s + (9 * m + 1))) (ends v e)
          ∙ tail K period s b q' r v fits hr)

  -- When the idle machine takes the byte `b` at tick `s`, the pin shows bit `k` of its frame
  -- (start bit, data bits, stop bit) throughout the `k`-th bit time. (The tick is even and not 0,
  -- and the clock does not wrap.)
  pub run_rx-wave :
      (k r : ℕ)
      → Timed period s
      → s + 10 * bit_time period ≤ 2 ^ 64
      → next_byte K q ≡ some (b, q')
      → k < 10
      → r < bit_time period
      → (sent (k * bit_time period + 1 + r)).2 ≡ frame_bit b k
  run_rx-wave k r v fits e hk hr = elim (dec_lt k 9) [
    | yes bit ↦ wave_bit k r v e (omega arith) hr
    | no stop ↦ let e9 : k ≡ 9 = omega arith in rw e9 (wave_stop r v fits e hr)
  ]
