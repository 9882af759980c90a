-- ===== src/Rig/Launch.antt =====
-- How the main programs of ahb3lite_remote_bridge2/bench start: the constructor of their class, which
-- is that of `VerilatorUtils` and a new design, and the command line, which argp parses. (The code is
-- repeated in each bench; the lines are those of jtag_phy_tb.cpp.) The parsers of numbers, the sockets
-- and the values that no constructor sets are arguments.
use tinylabs_cores.Common.{ℕ, Bool, false, true, Option, none, some, List, [], ◌∷◌}
use tinylabs_cores.Queue.{ByteQueue}
use tinylabs_cores.Server.{Server}
use tinylabs_cores.Uart.{tx_idle, rx_idle}
use tinylabs_cores.Sim.{new_clock, Services}
use tinylabs_cores.Sim.Options.{
  Act, load_elf, load_bin, start, Service, jtag_server, uart_server, jtag_client, gpio_server,
  gpio_client, Parsed, Settings, default_settings, parse_all,
}
use tinylabs_cores.Rig.{Rig}

-- The keys with which argp calls the parser of a bench: the start, and any other.
pub data Key : Type 0 where
  key_init : Key
  other_key : Key

-- `struct argp_state`, where the input of the child parser is set or not.
pub record ArgpState (Input : Type 0) : Type 0 where
  pub input : Input
  pub child_input : Option Input

-- `parse_opt`: the state, and what it returns.
unfoldable pub parse_opt : {Input : Type 0} → Key → ArgpState Input → ArgpState Input × ℕ
parse_opt key_init state = (record state { child_input = some state.input }, 0)
parse_opt other_key state = (state, 0)

-- What no constructor sets: `fstDumping`, and for each server whether it runs, its port, and for
-- each GPIO end its outputs.
pub record Unset : Type 0 where
  pub dumping : Bool
  pub running : Service → Bool
  pub port : Service → ℕ
  pub outputs : Service → ℕ

-- What the host of a bench brings: the values that are not set, a queue that is made, the parsers of
-- numbers of the C library, the text of `FST_DEFAULT_NAME`, whether a service that is started on a
-- port comes up (if not, `fail` ends the program), and whether the file of a program cannot be read or
-- holds nothing.
pub record Host (K : ByteQueue) : Type 1 where
  pub unset : Unset
  pub empty : K.Q
  pub Text : Type 0
  pub strtol : Text → ℕ
  pub atoi : Text → ℕ
  pub fst_default_name : Text
  pub starts : Service → ℕ → Bool
  pub blank : Text → Bool

module _ (K : ByteQueue) (host : Host K) where
  open host use {unset, empty, Text, strtol, atoi, fst_default_name, starts, blank}

  -- `Server::Server`
  unfoldable pub new_server : Service → ℕ → Server K
  new_server s period = record {
    port = unset.port s;
    debug = false;
    running = unset.running s;
    rx = empty;
    tx = empty;
    period = period;
  }

  -- The services that the constructor of `VerilatorUtils` makes, none of which is on.
  unfoldable pub new_services : Services K
  new_services = record {
    jtag_server = new_server jtag_server 8;
    uart_server = record {
      server = new_server uart_server 4;
      tx_line = tx_idle;
      rx_line = rx_idle;
    };
    jtag_client_period = 1;
    gpio_server = record {
      server = new_server gpio_server 2;
      output = unset.outputs gpio_server;
      init = false;
    };
    gpio_client = record { output = unset.outputs gpio_client; period = 2; init = false };
    jtag_server_enable = false;
    uart_server_enable = false;
    jtag_client_enable = false;
    gpio_server_enable = false;
    gpio_client_enable = false;
  }

  -- A new bench, with a new design.
  unfoldable pub new_rig : {Top : Type 0} → Top → Rig K Top
  new_rig top = record {
    clock = new_clock unset.dumping;
    services = new_services;
    done = false;
    top = top;
  }

  -- The settings that the options leave, in the fields of the bench.
  unfoldable pub configured : {Top : Type 0} → Settings Text → Rig K Top → Rig K Top
  configured u b = record b {
    clock = record (b.clock) {
      timeout = u.timeout;
      fst_dump = u.fst_dump;
      fst_dump_start = u.fst_dump_start;
      fst_dump_stop = u.fst_dump_stop;
    };
    services = record (b.services) {
      jtag_server_enable = u.enabled jtag_server;
      uart_server_enable = u.enabled uart_server;
      jtag_client_enable = u.enabled jtag_client;
      gpio_server_enable = u.enabled gpio_server;
      gpio_client_enable = u.enabled gpio_client;
    };
  }

  -- What the options do outside the settings, one after the other, with the loaders of a program into
  -- the memory of the design: `none` where a service does not come up or a load is undefined.
  unfoldable pub perform :
      {Top : Type 0}
      → (Text → Top → Option Top)
      → (Text → Top → Option Top)
      → List (Act Text)
      → Top
      → Option Top
  perform elf bin [] top = some top
  perform elf bin (load_elf name ∷ acts) top = elim (elf name top) [
    | none ↦ none
    | some top' ↦ perform elf bin acts top'
  ]
  perform elf bin (load_bin name ∷ acts) top = elim (bin name top) [
    | none ↦ none
    | some top' ↦ perform elf bin acts top'
  ]
  perform elf bin (start s port ∷ acts) top = elim (starts s port) [
    | true ↦ perform elf bin acts top
    | false ↦ none
  ]

  -- `parse_args`, on the options that argp finds: the parser of the program has no options of its
  -- own, so that all go to `parseOpts`.
  unfoldable pub parse_args :
      {Top : Type 0}
      → (Text → Top → Option Top)
      → (Text → Top → Option Top)
      → List (Parsed Text)
      → Rig K Top
      → Option (Rig K Top)
  parse_args elf bin os b =
      let (u, acts) = parse_all Text strtol atoi os (default_settings fst_default_name) in
      elim (perform elf bin acts b.top) [
        | none ↦ none
        | some top ↦ some (configured u (record b { top = top }))
      ]

  -- A load of a bench, whose memory is `NULL`: a store is undefined.
  unfoldable pub null_load : {Top : Type 0} → Text → Top → Option Top
  null_load name top = elim (blank name) [ true ↦ some top | false ↦ none ]

  -- The bench of a main program when it begins with the cycles of the reset.
  unfoldable pub launched : {Top : Type 0} → List (Parsed Text) → Top → Option (Rig K Top)
  launched os top = parse_args null_load null_load os (new_rig top)

  -- A main program from that bench on.
  unfoldable pub launch : {Top A : Type 0} → Option (Rig K Top) → (Rig K Top → Option A) → Option A
  launch b main = elim b [ none ↦ none | some b ↦ main b ]
