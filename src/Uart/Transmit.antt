-- ===== src/Uart/Transmit.antt =====
-- The waveform that the receive machine of `doUARTServer` drives on `*rx_pin` for a queued byte.
use native.Mathlib.Nat.{
  mul-add-mod_self_right, mod-eq_of_lt, mul-mod_left, div-div-eq-div-mul, pow-suc,
}
use tinylabs_cores.Common.{
  ℕ, zero, suc, ◌+◌, ◌-◌, ◌*◌, ◌/◌, ◌%◌, ◌^◌, ◌≤◌, ◌<◌, ◌≡◌, ◌≢◌, refl, ap, ◌∙◌, Bool, true, false,
  ◌&&◌, inl, inr, Bool-cases, some, arith, ◌==◌, ==_iff, ==_of_ne, ltb, if◌then◌else◌, u32, sub64,
}
use tinylabs_cores.Common.Bits.{testbit}
use tinylabs_cores.Queue.{ByteQueue}
use tinylabs_cores.Uart.{
  RxLine, state_data, state_stop, state_done, rx_idle, is_done, rx_reset, rx_machine, rx_switch,
  next_byte, bit_time, due,
}
use tinylabs_cores.Uart.Run.{run_rx, rx_tick, run_rx-add, due_offset}
use tinylabs_cores.Uart.Receive.{data_bit, mul-even, mul_mono, inside_bit, bit_time-even, Timed}

-- Bit `k` of the frame of `b`: a low start bit, eight data bits, a high stop bit.
abbrev pub frame_bit : ℕ → ℕ → Bool
frame_bit b zero = false
frame_bit b (suc k) = if ltb k 8 then data_bit b k else true

div-pow_suc : (k b : ℕ) → b / 2 ^ k / 2 ≡ b / 2 ^ suc k
div-pow_suc k b =
    div-div-eq-div-mul b (2 ^ k) 2 ∙ ap (λ (t : ℕ). b / t) (omega (arith, pow-suc 2 k))

testbit-div : (k b : ℕ) → testbit b k ≡ b / 2 ^ k % 2
testbit-div zero b = omega arith
testbit-div (suc k) b =
    testbit-div k (b / 2)
    ∙ ap (λ (t : ℕ). t % 2)
        (div-div-eq-div-mul b 2 (2 ^ k) ∙ ap (λ (t : ℕ). b / t) (omega (arith, pow-suc 2 k)))

-- The machine after `k` data bits of `b`, for `k` up to 8.
abbrev pub sending : ℕ → ℕ → ℕ → RxLine
sending s b k = record {
  state = if k == 8 then state_stop else state_data;
  start = s;
  txc = b / 2 ^ k;
  tcnt = k;
}

abbrev pub last_tick : ℕ → ℕ
last_tick m = u32 (m + 2 ^ 32 - 2)

-- What follows the switch in the same call.
abbrev pub with_reset : (K : ByteQueue) → ℕ → ℕ → RxLine × K.Q × Bool → RxLine × K.Q × Bool
with_reset K period t (l, q, pin) = (rx_reset period t l, q, pin)

module _ (K : ByteQueue) (period s : ℕ) (started : s ≢ 0) where
  -- Nothing happens at the offset `x`.
  abbrev pub Quiet : ℕ → RxLine → Type 0
  Quiet x l =
      (x % bit_time period ≢ 0)
      × ((is_done l.state && (x % bit_time period == last_tick (bit_time period))) ≡ false)

  rx_tick_waits :
      (t x : ℕ) (l : RxLine) (q : K.Q) (pin : Bool)
      → t ≡ s + x
      → l.start ≡ s
      → s + x < 2 ^ 64
      → Quiet x l
      → rx_tick K period t (l, q, pin) ≡ (l, q, pin)
  unfolding rx_tick rx_machine rx_reset
  rx_tick_waits t x l q pin et el fits (off, awake) =
      let d : due period t l.start ≡ false =
        rw (et, el, due_offset period s x started fits) (==_of_ne _ _ off) in
      let e : sub64 t l.start ≡ x = omega arith in ground (arith, d, e, awake)

  pub rx_waits :
      (n x t : ℕ) (l : RxLine) (q : K.Q) (pin : Bool)
      → t ≡ s + x
      → l.start ≡ s
      → s + x + n ≤ 2 ^ 64
      → ((i : ℕ) → i < n → Quiet (x + i) l)
      → run_rx K period n t (l, q, pin) ≡ (l, q, pin)
  unfolding run_rx
  rx_waits zero x t l q pin et el fits off = refl
  rx_waits (suc n) x t l q pin et el fits off =
      let e0 : x + 0 ≡ x = omega arith in
      rw (rx_tick_waits t x l q pin et el (omega arith) (rw e0 at (off 0 (omega arith))))
        (rx_waits n (x + 1) (t + 1) l q pin (omega arith) el (omega arith) later)
    where
      later : (i : ℕ) → i < n → Quiet (x + 1 + i) l
      later i h = let e : x + 1 + i ≡ x + suc i = omega arith in rw e (off (suc i) (omega arith))

  rx_tick_acts :
      (t x : ℕ) (l : RxLine) (q : K.Q) (pin : Bool)
      → t ≡ s + x
      → l.start ≡ s
      → s + x < 2 ^ 64
      → x % bit_time period ≡ 0
      → t % 2 ≡ 0
      → rx_tick K period t (l, q, pin) ≡ with_reset K period t (rx_switch K l.state t l q pin)
  unfolding rx_tick rx_machine
  rx_tick_acts t x l q pin et el fits on even =
      let d : due period t l.start ≡ true =
        rw (et, el, due_offset period s x started fits) ((==_iff _ _).1 on) in
      ground (arith, d)

module _ (K : ByteQueue) (period s b : ℕ) (q q' : K.Q) where
  -- One tick after the boundary `k`, and up to the next one.
  pub rx_one_bit :
      (k : ℕ) (l : RxLine) (pin : Bool)
      → Timed period s
      → k < 9
      → l.start ≡ s
      → is_done l.state ≡ false
      → let t = s + suc k * bit_time period in
        run_rx K period (bit_time period) (s + (k * bit_time period + 1)) (l, q', pin)
        ≡ with_reset K period t (rx_switch K l.state t l q' pin)
  unfolding run_rx
  rx_one_bit k l pin v hk el awake =
      ap (λ c. run_rx K period c (s + (k * m + 1)) (l, q', pin)) em
      ∙ run_rx-add K period (m - 1) 1 (s + (k * m + 1)) (l, q', pin)
      ∙ rw (waits, end)
          (rx_tick_acts K period s v.started _ (suc k * m) l q' pin refl el fits
            (mul-mod_left (suc k) m)
            (omega (arith, v.even, mul-even (suc k) m (bit_time-even period))))
    where
      m : ℕ
      m = bit_time period

      em : m ≡ m - 1 + 1
      em = omega (arith, v.bits)

      fits : s + suc k * m < 2 ^ 64
      fits = omega (arith, v.fits, mul_mono (suc k) 9 m hk)

      end : s + (k * m + 1) + (m - 1) ≡ s + suc k * m
      end = omega (arith, v.bits)

      waits : run_rx K period (m - 1) (s + (k * m + 1)) (l, q', pin) ≡ (l, q', pin)
      waits =
          rx_waits K period s v.started (m - 1) (k * m + 1) _ l q' pin refl el (omega (arith, fits))
            (λ i h. (inside_bit k m i (omega arith), rw awake refl))

  pub send_one :
      (k t : ℕ)
      → k < 8
      → with_reset K period t
          (rx_switch K (sending s b k).state t (sending s b k) q' (frame_bit b k))
        ≡ (sending s b (suc k), q', frame_bit b (suc k))
  unfolding rx_switch rx_reset is_done
  send_one k t hk = ground (arith, div-pow_suc k b, testbit-div k b)

  pub rx_starts :
      (pin : Bool)
      → Timed period s
      → next_byte K q ≡ some (b, q')
      → rx_tick K period s (rx_idle, q, pin) ≡ (sending s b 0, q', false)
  unfolding rx_tick rx_machine due rx_switch rx_reset is_done
  rx_starts pin v e = ground (arith, v.even, e)

-- The machine `r` ticks after the boundary of the stop bit.
abbrev pub ended : ℕ → ℕ → ℕ → ℕ → RxLine
ended m s b r =
    if ltb r (m - 2)
    then record { state = state_done; start = s; txc = b / 2 ^ 8; tcnt = 8 }
    else rx_idle

pub bit_time_range :
    (period : ℕ) → 0 < bit_time period → (2 ≤ bit_time period) × (bit_time period < 2 ^ 32)
unfolding bit_time
bit_time_range period h = omega arith

module _ (K : ByteQueue) (period s b : ℕ) (q' : K.Q) where
  pub stop_one :
      Timed period s
      → with_reset K period
          (s + 9 * bit_time period)
          (rx_switch K state_stop (s + 9 * bit_time period) (sending s b 8) q' (frame_bit b 8))
        ≡ (ended (bit_time period) s b 0, q', true)
  unfolding rx_switch rx_reset is_done
  stop_one v =
      let m : ℕ = bit_time period in
      let e : sub64 (s + 9 * m) s ≡ 9 * m = omega (arith, v.fits) in
      let (lo, hi) = bit_time_range period v.bits in
      let on : 9 * m % m ≡ 0 = mul-mod_left 9 m in ground (arith, e, on)

  pub tail_one :
      (r : ℕ)
      → Timed period s
      → s + 10 * bit_time period ≤ 2 ^ 64
      → suc r < bit_time period
      → rx_tick K period
          (s + (9 * bit_time period + suc r))
          (ended (bit_time period) s b r, q', true)
        ≡ (ended (bit_time period) s b (suc r), q', true)
  unfolding rx_tick rx_machine rx_reset is_done
  tail_one r v fits h =
      let m : ℕ = bit_time period in
      let x : ℕ = 9 * m + suc r in
      let (lo, hi) = bit_time_range period v.bits in
      let e : sub64 (s + x) s ≡ x = omega arith in
      let off : x % m ≡ suc r =
        mul-add-mod_self_right 9 m (suc r) ∙ mod-eq_of_lt {n = suc r} {m = m} h in
      let d : due period (s + x) s ≡ false =
        due_offset period s x v.started (omega arith) ∙ ==_of_ne _ _ (omega (arith, off)) in
      elim (Bool-cases (ltb r (m - 2))) [
        | inl early ↦ rw early (ground (arith, e, d, off, bit_time-even period))
        | inr late ↦ rw late (ground (arith, v.even, bit_time-even period, late))
      ]
