-- ===== src/Tests/Bridges.antt =====
-- Concrete exchanges of the GPIO, JTAG and TCP ends (verilator_utils/GPIOServer.cpp,
-- GPIOClient.cpp, JTAGServer.cpp, JTAGClient.cpp and Server.cpp).
use tinylabs_cores.Common.{
  ℕ, ◌+◌, ◌≤◌, ◌≡◌, ◌≢◌, refl, Bool, true, false, Option, none, some, List, [], ◌∷◌, ◌++◌, arith,
  length,
}
use tinylabs_cores.Queue.{list_queue, list_queue-Unfailing}
use tinylabs_cores.Server.{
  Server, Incoming, closed, nothing, received, resp_size, overflowed, listen_round, listen_run,
}
use tinylabs_cores.Server.Listen.{listen_run_forwards, listen_round_overflow}
use tinylabs_cores.Gpio.{
  GpioClient, GpioServer, client_send, client_read, server_send, server_read, do_gpio_server,
}
use tinylabs_cores.Gpio.Sync.{
  Agrees, AgreesAbove, client_send_total, client-server_sync, server-client_sync,
}
use tinylabs_cores.Gpio.First.{first_call_sync}
use tinylabs_cores.Jtag.{Pins, Lines, returned, do_jtag_server, do_jtag_client}
use tinylabs_cores.Jtag.Exchange.{answered, request, jtag_exchange}

abbrev client : GpioClient
client = record { output = 5; period = 2; init = true }

abbrev base : List ℕ → List ℕ → Server list_queue
base rx tx = record { port = 8888; debug = false; running = true; rx = rx; tx = tx; period = 2 }

abbrev gpio : Bool → GpioServer list_queue
gpio init = record { server = base (7 ∷ []) []; output = 5; init = init }

-- Pin 0 falls and pin 1 rises.
abbrev sent_bytes : List ℕ
sent_bytes = 0 ∷ 129 ∷ 255 ∷ []

sent : client_send client 6 3 ≡ some (record { output = 6; period = 2; init = true }, sent_bytes)
unfolding client_send tinylabs_cores.Gpio.collect tinylabs_cores.Gpio.changed_pin
    tinylabs_cores.Gpio.int_bit tinylabs_cores.Gpio.store tinylabs_cores.Gpio.command
sent = refl

client-server_sync_example :
    (x' : ℕ) × (tx' : List ℕ) × (server_read list_queue 3 3 (sent_bytes ++ (9 ∷ [])) 13
      ≡ some (x', tx'))
    × (tx' ≡ 9 ∷ [])
    × Agrees 3 x' 6
    × AgreesAbove 3 x' 13
client-server_sync_example =
    client-server_sync list_queue client (record { output = 6; period = 2; init = true }) 6 3 13 3
      sent_bytes (9 ∷ []) (sent_bytes ++ (9 ∷ [])) (omega arith) (omega arith) (omega arith) sent
      refl (omega arith) refl

server-client_sync_example :
    (g' : GpioServer list_queue) × (bytes : List ℕ) × (x' : ℕ) × (server_send list_queue
        (gpio true)
        6
        3
      ≡ some g')
    × (g'.output ≡ 6)
    × (g'.server.rx ≡ 7 ∷ bytes)
    × (client_read 3 bytes 13 ≡ some (x', []))
    × Agrees 3 x' 6
    × AgreesAbove 3 x' 13
server-client_sync_example =
    server-client_sync list_queue (gpio true) 6 3 13 list_queue-Unfailing (omega arith)
      (omega arith) (omega arith) refl

first_call_sync_example :
    (g' : GpioServer list_queue) × (bytes : List ℕ) × (x' : ℕ) × (do_gpio_server list_queue 1
        (gpio false)
        40
        3
        6
        3
      ≡ some (g', 40))
    × (g'.server.rx ≡ 7 ∷ bytes)
    × (g'.init ≡ true)
    × (client_read 3 bytes 9 ≡ some (x', []))
    × Agrees 3 x' 6
first_call_sync_example =
    first_call_sync list_queue (gpio false) 1 40 3 6 3 9 list_queue-Unfailing (omega arith)
      (omega arith) (omega arith) refl refl refl

client_send_total_example :
    (bytes : List ℕ) × (client_send client 6 3 ≡ some (record client { output = 6 }, bytes))
    × (length bytes ≤ 3 + 1)
client_send_total_example = client_send_total client 6 3 (omega arith)

abbrev pins : Pins
pins = record { tck = 0; tdi = 0; tms = 0; srst = 1 }

abbrev lines : Lines
lines = record { tdo = 0; tms = 1 }

jtag_exchange_example :
    let (s1, p1) = do_jtag_server list_queue (base [] (request 1 1 0 ++ [])) 1 pins in
    let (s2, p2) = do_jtag_server list_queue s1 1 (record p1 { tms = 0 }) in
    (p1 ≡ record pins { tck = 1; tdi = 0; tms = 1 })
    × (p2 ≡ record p1 { tms = 0 })
    × (s2.tx ≡ [])
    × (reply : ℕ) × (s2.rx ≡ reply ∷ [])
    × (do_jtag_client (answered reply) 1 0 false lines
        ≡ returned (request 1 1 0) (record lines { tdo = 1; tms = 0 }))
jtag_exchange_example =
    jtag_exchange list_queue (base [] (request 1 1 0 ++ [])) pins 1 0 1 0 false lines []
      list_queue-Unfailing (omega arith) (omega arith) (omega arith) (omega arith) (omega arith)
      refl

received-ne_closed : (bs : List ℕ) → received bs ≢ closed
received-ne_closed bs = λ e. cc

nothing-ne_closed : nothing ≢ closed
nothing-ne_closed = λ e. cc

abbrev rounds : List (Incoming × Option ℕ)
rounds = (received (1 ∷ 2 ∷ []), some resp_size) ∷ (nothing, some resp_size) ∷ []

listen_run_forwards_example :
    (s' : Server list_queue) × (sent : List ℕ) × (listen_run list_queue
        (base (8 ∷ 9 ∷ []) (3 ∷ []))
        rounds
      ≡ some (s', sent))
    × (s'.tx ≡ 3 ∷ 1 ∷ 2 ∷ [])
    × (sent ≡ 8 ∷ 9 ∷ [])
    × (sent ++ s'.rx ≡ 8 ∷ 9 ∷ [])
listen_run_forwards_example =
    listen_run_forwards list_queue rounds (base (8 ∷ 9 ∷ []) (3 ∷ [])) list_queue-Unfailing refl
      refl ((received-ne_closed (1 ∷ 2 ∷ []), refl), ((nothing-ne_closed, refl), tt))

-- 256 bytes
abbrev twice : List ℕ → List ℕ
twice xs = xs ++ xs

abbrev many : List ℕ
many = twice (twice (twice (twice (twice (twice (twice (twice (65 ∷ []))))))))

listen_round_overflow_example :
    listen_round list_queue (record (base many []) { debug = true }) nothing none ≡ overflowed
listen_round_overflow_example =
    listen_round_overflow list_queue (record (base many []) { debug = true }) nothing none refl refl
      nothing-ne_closed (omega arith)
