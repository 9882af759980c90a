-- ===== src/Uart.antt =====
-- verilator_utils/UARTServer.cpp and UARTServer.h: the two bit machines that join a simulated
-- UART to the queues of a TCP server. A pin is a truth value (`if (pin)`); the lines that print
-- are left out.
pub mod Run
pub mod Receive
pub mod Transmit
pub mod Wave
pub mod Link
use tinylabs_cores.Common.{
  ℕ, ◌+◌, ◌*◌, ◌%◌, ◌^◌, ◌-◌, Bool, true, false, not, ◌&&◌, ◌||◌, Option, none, some, bit_or, ◌==◌,
  if◌then◌else◌, u8, u32, sub64, shr,
}
use tinylabs_cores.Queue.{ByteQueue}
use tinylabs_cores.Server.{Server}

-- `state_t`
pub data State : Type 0 where
  state_idle state_data state_stop state_done state_max_enum : State

-- The statics `tx_state`, `tx_start`, `rxc` and `rcnt`.
pub record TxLine : Type 0 where
  pub state : State
  pub start : ℕ
  pub rxc : ℕ
  pub rcnt : ℕ

-- The statics `rx_state`, `rx_start`, `txc` and `tcnt`.
pub record RxLine : Type 0 where
  pub state : State
  pub start : ℕ
  pub txc : ℕ
  pub tcnt : ℕ

abbrev pub tx_idle : TxLine
tx_idle = record { state = state_idle; start = 0; rxc = 0; rcnt = 0 }

abbrev pub rx_idle : RxLine
rx_idle = record { state = state_idle; start = 0; txc = 0; tcnt = 0 }

-- `period * 2`, in `uint32_t`: the ticks of one bit.
unfoldable pub bit_time : ℕ → ℕ
bit_time period = u32 (period * 2)

-- (A `bit_time` of 0 is a division by zero in the source, and is excluded where it matters.)
-- `!start || (((t - start) % (period * 2)) == 0)`
unfoldable pub due : ℕ → ℕ → ℕ → Bool
due period t start = start == 0 || (sub64 t start % bit_time period == 0)

-- `rxc >>= 1; if (tx_pin) rxc |= 0x80;`
pub shift_in : ℕ → Bool → ℕ
shift_in rxc pin = if pin then bit_or (shr rxc 1) 0x80 else shr rxc 1

unfoldable pub is_done : State → Bool
is_done state_done = true
is_done _ = false

-- Back to the idle state at the last tick of the stop bit.
unfoldable pub rx_reset : ℕ → ℕ → RxLine → RxLine
rx_reset period t l =
    if is_done l.state && (sub64 t l.start % bit_time period == u32 (bit_time period + 2 ^ 32 - 2))
    then record l { state = state_idle; start = 0; txc = 0; tcnt = 0 }
    else l

module _ (K : ByteQueue) where
  open K use {Q, enqueue, try_dequeue, size_approx}

  -- The switch of the TX state machine.
  unfoldable pub tx_switch : State → ℕ → Bool → TxLine → Q → TxLine × Q
  tx_switch state_idle t pin l rx =
      if pin then (l, rx) else (record l { state = state_data; start = t }, rx)
  tx_switch state_data t pin l rx =
      let rcnt' = u8 (l.rcnt + 1) in
      (
        record l {
          state = if rcnt' == 8 then state_stop else state_data;
          rxc = shift_in l.rxc pin;
          rcnt = rcnt';
        },
        rx,
      )
  tx_switch state_stop t pin l rx =
      (record l { state = state_idle; start = 0; rxc = 0; rcnt = 0 }, (enqueue rx l.rxc).0)
  tx_switch state_done t pin l rx = (l, rx)
  tx_switch state_max_enum t pin l rx = (l, rx)

  -- The TX state machine.
  pub tx_machine : ℕ → ℕ → Bool → TxLine → Q → TxLine × Q
  tx_machine period t pin l rx =
      if due period t l.start then tx_switch l.state t pin l rx else (l, rx)

  -- `tx.size_approx() && tx.try_dequeue(txc)`
  unfoldable pub next_byte : Q → Option (ℕ × Q)
  next_byte q = if size_approx q == 0 then none else try_dequeue q

  -- The switch of the receive state machine, with `*rx_pin`.
  unfoldable pub rx_switch : State → ℕ → RxLine → Q → Bool → RxLine × Q × Bool
  rx_switch state_idle t l tx pin = elim (next_byte tx) [
    | none ↦ (l, tx, pin)
    | some (c, tx') ↦ (record l { state = state_data; start = t; txc = c }, tx', false)
  ]
  rx_switch state_data t l tx pin =
      let tcnt' = u8 (l.tcnt + 1) in
      (
        record l {
          state = if tcnt' == 8 then state_stop else state_data;
          txc = shr l.txc 1;
          tcnt = tcnt';
        },
        tx,
        not (l.txc % 2 == 0),
      )
  rx_switch state_stop t l tx pin = (record l { state = state_done }, tx, true)
  rx_switch state_done t l tx pin = (l, tx, pin)
  rx_switch state_max_enum t l tx pin = (l, tx, pin)

  -- The receive state machine.
  unfoldable pub rx_machine : ℕ → ℕ → RxLine → Q → Bool → RxLine × Q × Bool
  rx_machine period t l tx pin =
      let (l', tx', pin') =
        if due period t l.start then rx_switch l.state t l tx pin else (l, tx, pin) in
      (rx_reset period t l', tx', pin')

  -- A UART server: its base, and the function's statics.
  pub record Uart : Type 0 where
    pub server : Server K
    pub tx_line : TxLine
    pub rx_line : RxLine

  -- `doUARTServer`: the new state and `*rx_pin`.
  pub do_uart_server : Uart → ℕ → Bool → Bool → Uart × Bool
  do_uart_server u t tx_pin rx_pin =
      if not u.server.running || not (t % 2 == 0)
      then (u, rx_pin)
      else let (tl, rx') = tx_machine u.server.period t tx_pin u.tx_line u.server.rx in
        let (rl, tx', pin) = rx_machine u.server.period t u.rx_line u.server.tx rx_pin in
        (
          record u {
            server = record (u.server) { rx = rx'; tx = tx' };
            tx_line = tl;
            rx_line = rl;
          },
          pin,
        )
