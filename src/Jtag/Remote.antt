-- ===== src/Jtag/Remote.antt =====
-- The two threads that share the queues of a JTAG server, one access of a queue at a time: the
-- loop of `Listen` in verilator_utils/Server.cpp over one connection, of a server that runs and
-- prints no messages and is not being deleted, and the calls of `doJTAGServer` of
-- verilator_utils/JTAGServer.cpp. The queue is made for one producer and one consumer, and its
-- operations are taken to be atomic. A `write` that fails ends the program, and is no step. The
-- bytes read, the responses written with the number of bytes that `write` took of each, and the
-- commands that have been obeyed are recorded. The pins are those that the server sets: what a
-- design drives or a main loop sets at the same ports between two calls is no step.
pub mod Obey
pub mod Order
pub mod Settle
use tinylabs_cores.Common.{
  ℕ, suc, ◌≡◌, ◌≢◌, Option, none, some, List, [], ◌∷◌, ◌++◌, length, take, ◌≤◌,
}
use tinylabs_cores.Queue.{ByteQueue}
use tinylabs_cores.Server.{resp_size}
use tinylabs_cores.Jtag.{Pins, jtag_command}

-- Where the network thread is: at `accept`; before `read`; with bytes of `cmd` still to queue; before the test of
-- `rx`; filling `resp`, with places left; and before `write`.
pub data Network : Type 0 where
  accepting : Network
  reading : Network
  queueing : List ℕ → Network
  checking : Network
  filling : ℕ → List ℕ → Network
  writing : List ℕ → Network

-- Where the thread of the simulation is: outside `doJTAGServer`; after the test of `tx`; and with a
-- command in hand.
pub data Simulation : Type 0 where
  outside : Simulation
  tested : Simulation
  holding : ℕ → Simulation

-- The bytes that `write` was given, and those that it took.
abbrev pub handed : List (List ℕ × ℕ) → List ℕ
handed [] = []
handed ((resp, n) ∷ writes) = resp ++ handed writes

abbrev pub taken : List (List ℕ × ℕ) → List ℕ
taken [] = []
taken ((resp, n) ∷ writes) = take n resp ++ taken writes

-- A write that has taken all.
abbrev pub IsWhole : List ℕ × ℕ → Type 0
IsWhole (resp, n) = length resp ≤ n

module _ (K : ByteQueue) where
  open K use {Q, enqueue, try_dequeue, size_approx}

  pub record System : Type 0 where
    pub tx : Q
    pub rx : Q
    pub network : Network
    pub simulation : Simulation
    pub pins : Pins
    pub input : List ℕ
    pub output : List (List ℕ × ℕ)
    -- The commands obeyed, each with the level of TDO at that tick, the first one first.
    pub obeyed : List (ℕ × ℕ)

  -- A step of `Listen`.
  pub data Listens (s : System) : System → Type 0 where
    accepts : s.network ≡ accepting → Listens s (record s { network = reading })
    closes : s.network ≡ reading → Listens s (record s { network = accepting })
    reads :
        (bs : List ℕ)
        → s.network ≡ reading
        → Listens s (record s { network = queueing bs; input = s.input ++ bs })
    reads_nothing : s.network ≡ reading → Listens s (record s { network = checking })
    queues :
        (b : ℕ) (bs : List ℕ)
        → s.network ≡ queueing (b ∷ bs)
        → Listens s (record s { network = queueing bs; tx = (enqueue s.tx b).0 })
    queues_last : s.network ≡ queueing [] → Listens s (record s { network = checking })
    finds_none :
        s.network ≡ checking → size_approx s.rx ≡ 0 → Listens s (record s { network = reading })
    finds_some :
        s.network ≡ checking
        → size_approx s.rx ≢ 0
        → Listens s (record s { network = filling resp_size [] })
    fills :
        (n : ℕ) (resp : List ℕ) (val : ℕ) (rx' : Q)
        → s.network ≡ filling (suc n) resp
        → try_dequeue s.rx ≡ some (val, rx')
        → Listens s (record s { network = filling n (resp ++ (val ∷ [])); rx = rx' })
    fills_last :
        (n : ℕ) (resp : List ℕ)
        → s.network ≡ filling (suc n) resp
        → try_dequeue s.rx ≡ none
        → Listens s (record s { network = writing resp })
    is_full :
        (resp : List ℕ)
        → s.network ≡ filling 0 resp
        → Listens s (record s { network = writing resp })
    writes :
        (resp : List ℕ) (n : ℕ)
        → s.network ≡ writing resp
        → Listens s (record s { network = reading; output = s.output ++ ((resp, n) ∷ []) })

  -- A step of `doJTAGServer`, called with any level of TDO.
  pub data Calls (s : System) : System → Type 0 where
    tests :
        s.simulation ≡ outside → size_approx s.tx ≢ 0 → Calls s (record s { simulation = tested })
    takes :
        (cmd : ℕ) (tx' : Q)
        → s.simulation ≡ tested
        → try_dequeue s.tx ≡ some (cmd, tx')
        → Calls s (record s { simulation = holding cmd; tx = tx' })
    misses :
        s.simulation ≡ tested
        → try_dequeue s.tx ≡ none
        → Calls s (record s { simulation = outside })
    obeys :
        (cmd tdo : ℕ)
        → s.simulation ≡ holding cmd
        → Calls s (record s {
          simulation = outside;
          pins = (jtag_command K cmd tdo s.pins s.rx).0;
          rx = (jtag_command K cmd tdo s.pins s.rx).1;
          obeyed = s.obeyed ++ ((cmd, tdo) ∷ []);
        })

  pub data Step (s : System) : System → Type 0 where
    by_network : {t : System} → Listens s t → Step s t
    by_simulation : {t : System} → Calls s t → Step s t

  -- From a state with nothing queued and nothing recorded.
  abbrev pub start : Q → Q → Pins → System
  start tx rx p = record {
    tx = tx;
    rx = rx;
    network = reading;
    simulation = outside;
    pins = p;
    input = [];
    output = [];
    obeyed = [];
  }

  -- The threads in any interleaving.
  pub data Steps : System → System → Type 0 where
    stay : (s : System) → Steps s s
    later : {s t u : System} → Steps s t → Step t u → Steps s u
