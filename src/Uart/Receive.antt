-- ===== src/Uart/Receive.antt =====
-- What the TX machine of `doUARTServer` makes of the waveform of a frame.
use native.Mathlib.Nat.{mul-add-mod_self_right, mod-eq_of_lt, mul-mod_left}
use tinylabs_cores.Common.{
  ℕ, zero, suc, ◌+◌, ◌-◌, ◌*◌, ◌/◌, ◌%◌, ◌^◌, ◌≤◌, ◌<◌, ◌≡◌, ◌≢◌, refl, ap, ap₂, ◌∙◌, Bool, true,
  false, not, arith, ◌==◌, ==_iff, ==_of_ne, if◌then◌else◌, every, at_every,
}
use tinylabs_cores.Common.Bits.{testbit}
use tinylabs_cores.Queue.{ByteQueue}
use tinylabs_cores.Uart.{
  TxLine, state_data, state_stop, tx_idle, tx_machine, tx_switch, bit_time, due, shift_in,
}
use tinylabs_cores.Uart.Run.{run_tx, tx_tick, run_tx-add, due_offset}

-- The pin of data bit `k` of the byte `b`: the lowest bit goes first.
abbrev pub data_bit : ℕ → ℕ → Bool
data_bit b k = not (testbit b k == 0)

-- The shift register after `k` data bits.
abbrev collected : ℕ → ℕ → ℕ
collected b k = b % 2 ^ k * 2 ^ (8 - k)

abbrev shift_in_test : ℕ → Bool
shift_in_test x =
    shift_in (collected (x / 8) (x % 8)) (data_bit (x / 8) (x % 8)) == collected (x / 8) (x % 8 + 1)

shift_in_table : every shift_in_test 2048 ≡ true
unfolding every shift_in
shift_in_table = refl

shift_in-collected :
    (b k : ℕ) → b < 256 → k < 8 → shift_in (collected b k) (data_bit b k) ≡ collected b (k + 1)
shift_in-collected b k hb hk =
    let at : (b * 8 + k) / 8 ≡ b = omega arith in
    let bit : (b * 8 + k) % 8 ≡ k = omega arith in
    (==_iff _ _).0
      (rw (at, bit) at (at_every shift_in_test 2048 {i = b * 8 + k} (omega arith) shift_in_table))

pub mul-even : (j m : ℕ) → m % 2 ≡ 0 → j * m % 2 ≡ 0
mul-even zero m h = omega arith
mul-even (suc j) m h = omega (arith, mul-even j m h)

-- Inside a bit there is no boundary.
pub inside_bit : (k m i : ℕ) → suc i < m → (k * m + 1 + i) % m ≢ 0
inside_bit k m i h e =
    let sum : k * m + 1 + i ≡ k * m + suc i = omega arith in
    let small : (k * m + suc i) % m ≡ suc i =
      mul-add-mod_self_right k m (suc i) ∙ mod-eq_of_lt {n = suc i} {m = m} h in
    omega (arith, ap (λ (t : ℕ). t % m) sum, small)

pub bit_time-even : (period : ℕ) → bit_time period % 2 ≡ 0
unfolding bit_time
bit_time-even period = omega arith

module _ (K : ByteQueue) (period : ℕ) (pins : ℕ → Bool) (s : ℕ) (started : s ≢ 0) where
  tx_tick_waits :
      (t x : ℕ) (l : TxLine) (q : K.Q)
      → t ≡ s + x
      → l.start ≡ s
      → s + x < 2 ^ 64
      → x % bit_time period ≢ 0
      → tx_tick K period t (pins t) (l, q) ≡ (l, q)
  unfolding tx_tick tx_machine
  tx_tick_waits t x l q et el fits off =
      let d : due period t l.start ≡ false =
        rw (et, el, due_offset period s x started fits) (==_of_ne _ _ off) in
      ground (arith, d)

  tx_tick_acts :
      (t x : ℕ) (l : TxLine) (q : K.Q)
      → t ≡ s + x
      → l.start ≡ s
      → s + x < 2 ^ 64
      → x % bit_time period ≡ 0
      → t % 2 ≡ 0
      → tx_tick K period t (pins t) (l, q) ≡ tx_switch K l.state t (pins t) l q
  unfolding tx_tick tx_machine
  tx_tick_acts t x l q et el fits on even =
      let d : due period t l.start ≡ true =
        rw (et, el, due_offset period s x started fits) ((==_iff _ _).1 on) in
      ground (arith, d)

  tx_waits :
      (n x t : ℕ) (l : TxLine) (q : K.Q)
      → t ≡ s + x
      → l.start ≡ s
      → s + x + n ≤ 2 ^ 64
      → ((i : ℕ) → i < n → (x + i) % bit_time period ≢ 0)
      → run_tx K period n t pins (l, q) ≡ (l, q)
  unfolding run_tx
  tx_waits zero x t l q et el fits off = refl
  tx_waits (suc n) x t l q et el fits off =
      let e0 : x + 0 ≡ x = omega arith in
      rw (tx_tick_waits t x l q et el (omega arith) (rw e0 at (off 0 (omega arith))))
        (tx_waits n (x + 1) (t + 1) l q (omega arith) el (omega arith) later)
    where
      later : (i : ℕ) → i < n → (x + 1 + i) % bit_time period ≢ 0
      later i h = let e : x + 1 + i ≡ x + suc i = omega arith in rw e (off (suc i) (omega arith))

  -- From just after one boundary to the next: the machine acts once, on the pin at the boundary.
  tx_bit :
      (k n t : ℕ) (l : TxLine) (q : K.Q)
      → bit_time period ≡ n + 1
      → t ≡ s + suc k * bit_time period
      → l.start ≡ s
      → s % 2 ≡ 0
      → t < 2 ^ 64
      → run_tx K period (n + 1) (s + (k * bit_time period + 1)) pins (l, q)
        ≡ tx_switch K l.state t (pins t) l q
  unfolding run_tx
  tx_bit k n t l q em et el even fits =
      run_tx-add K period n 1 (s + (k * bit_time period + 1)) pins (l, q)
      ∙ rw (waits, end)
          (tx_tick_acts t (suc k * bit_time period) l q et el (omega arith)
            (mul-mod_left (suc k) (bit_time period))
            (omega (arith, mul-even (suc k) _ (bit_time-even period))))
    where
      end : s + (k * bit_time period + 1) + n ≡ t
      end = omega arith

      waits : run_tx K period n (s + (k * bit_time period + 1)) pins (l, q) ≡ (l, q)
      waits =
          tx_waits n (k * bit_time period + 1) _ l q refl el (omega arith)
            (λ i h. inside_bit k (bit_time period) i (omega arith))

-- The machine after `k` data bits of the byte `b`.
abbrev filling : ℕ → ℕ → ℕ → TxLine
filling s b k = record {
  state = if k == 8 then state_stop else state_data;
  start = s;
  rxc = collected b k;
  rcnt = k;
}

-- The pin shows the frame of `b` from tick `s` on: the start bit, then a data bit at each boundary.
pub record Framed (period : ℕ) (pins : ℕ → Bool) (s b : ℕ) : Type 0 where
  pub start_bit : pins s ≡ false
  pub data_bits : (k : ℕ) → k < 8 → pins (s + suc k * bit_time period) ≡ data_bit b k

-- The tick `s` of a start bit, and room for the frame before the clock wraps.
pub record Timed (period s : ℕ) : Type 0 where
  pub started : s ≢ 0
  pub even : s % 2 ≡ 0
  pub bits : 0 < bit_time period
  pub fits : s + 9 * bit_time period < 2 ^ 64

pub mul_mono : (j n m : ℕ) → j ≤ n → j * m ≤ n * m
mul_mono j n m h = grind arith

module _ (K : ByteQueue) (period : ℕ) (pins : ℕ → Bool) (s b : ℕ) (q : K.Q) where
  fill_one :
      (k t : ℕ)
      → b < 256
      → k < 8
      → tx_switch K (filling s b k).state t (data_bit b k) (filling s b k) q
        ≡ (filling s b (suc k), q)
  unfolding tx_switch
  fill_one k t hb hk =
      let e : k + 1 ≡ suc k = omega arith in ground (arith, e, shift_in-collected b k hb hk)

  tx_one_bit :
      (k : ℕ) (l : TxLine)
      → Timed period s
      → k < 9
      → l.start ≡ s
      → let t = s + suc k * bit_time period in
        run_tx K period (bit_time period) (s + 1 + k * bit_time period) pins (l, q)
        ≡ tx_switch K l.state t (pins t) l q
  tx_one_bit k l v hk el =
      let m : ℕ = bit_time period in
      let em : m ≡ m - 1 + 1 = omega (arith, v.bits) in
      let et : s + 1 + k * m ≡ s + (k * m + 1) = omega arith in
      ap₂ (λ c t. run_tx K period c t pins (l, q)) em et
      ∙ tx_bit K period pins s v.started k (m - 1) _ l q em refl el v.even
          (omega (arith, v.fits, mul_mono (suc k) 9 m hk))

  tx_fills :
      (k : ℕ)
      → Timed period s
      → Framed period pins s b
      → b < 256
      → k ≤ 8
      → run_tx K period (k * bit_time period) (s + 1) pins (filling s b 0, q) ≡ (filling s b k, q)
  unfolding run_tx
  tx_fills zero v f hb hk = ap (λ n. run_tx K period n (s + 1) pins (filling s b 0, q)) none
    where
      none : 0 * bit_time period ≡ 0
      none = omega arith
  tx_fills (suc k) v f hb hk =
      ap (λ n. run_tx K period n (s + 1) pins (filling s b 0, q)) split
      ∙ run_tx-add K period (k * m) m (s + 1) pins (filling s b 0, q)
      ∙ ap (run_tx K period m (s + 1 + k * m) pins) (tx_fills k v f hb (omega arith))
      ∙ tx_one_bit k (filling s b k) v (omega arith) refl
      ∙ rw (f.data_bits k hk) (fill_one k _ hb hk)
    where
      m : ℕ
      m = bit_time period

      split : suc k * m ≡ k * m + m
      split = omega arith

  tx_starts :
      Timed period s
      → Framed period pins s b
      → tx_tick K period s (pins s) (tx_idle, q) ≡ (filling s b 0, q)
  unfolding tx_tick tx_machine due tx_switch
  tx_starts v f = ground (arith, v.even, f.start_bit)

  queue_byte :
      (t : ℕ) (pin : Bool)
      → b < 256
      → tx_switch K state_stop t pin (filling s b 8) q ≡ (tx_idle, (K.enqueue q b).0)
  unfolding tx_switch
  queue_byte t pin hb = let e : collected b 8 ≡ b = omega arith in rw e refl

  -- From the tick of the start bit to that of the stop bit, the idle machine takes the frame of a
  -- byte that the pin shows, queues the byte and is idle again. (The tick is even and not 0, and
  -- the clock does not wrap.)
  pub run_tx-frame :
      Timed period s
      → Framed period pins s b
      → b < 256
      → run_tx K period (1 + 9 * bit_time period) s pins (tx_idle, q) ≡ (tx_idle, (K.enqueue q b).0)
  unfolding run_tx
  run_tx-frame v f hb =
      run_tx-add K period 1 (9 * m) s pins (tx_idle, q)
      ∙ ap (run_tx K period (9 * m) (s + 1) pins) (tx_starts v f)
      ∙ ap (λ n. run_tx K period n (s + 1) pins (filling s b 0, q)) split
      ∙ run_tx-add K period (8 * m) m (s + 1) pins (filling s b 0, q)
      ∙ ap (run_tx K period m (s + 1 + 8 * m) pins) (tx_fills 8 v f hb (omega arith))
      ∙ tx_one_bit 8 (filling s b 8) v (omega arith) refl
      ∙ queue_byte (s + 9 * m) (pins (s + 9 * m)) hb
    where
      m : ℕ
      m = bit_time period

      split : 9 * m ≡ 8 * m + m
      split = omega arith
