-- ===== src/Tests/Remote.antt =====
-- Two threads on the queues of a JTAG server: a client sends the bytes `1R`, and the simulation obeys
-- the first one while the second one is still in the hands of the network thread.
use tinylabs_cores.Common.{ℕ, ◌≡◌, refl, List, [], ◌∷◌, ◌++◌, arith}
use tinylabs_cores.Queue.{list_queue, list_queue-Unfailing}
use tinylabs_cores.Jtag.{Pins, flag, jtag_command}
use tinylabs_cores.Jtag.Remote.{
  System, queueing, outside, reads, queues, tests, takes, obeys, by_network, by_simulation, start,
  taken, Steps, stay, later,
}
use tinylabs_cores.Jtag.Remote.Obey.{obey}
use tinylabs_cores.Jtag.Remote.Order.{commands, pending, unsent, interleaved_order}
use tinylabs_cores.Jtag.Remote.Settle.{interleaved_settles}

abbrev low : Pins
low = record { tck = 0; tdi = 0; tms = 0; srst = 0 }

abbrev two_bytes : List ℕ
two_bytes = b'1' ∷ b'R' ∷ []

abbrev halfway : System list_queue
halfway = record {
  tx = [];
  rx = [];
  network = queueing (b'R' ∷ []);
  simulation = outside;
  pins = record low { tdi = 1 };
  input = two_bytes;
  output = [];
  obeyed = (b'1', 0) ∷ [];
}

halfway-Steps : Steps list_queue (start list_queue [] [] low) halfway
unfolding jtag_command flag
halfway-Steps =
    later
      (later
        (later
          (later (later (stay _) (by_network (reads two_bytes refl)))
            (by_network (queues b'1' (b'R' ∷ []) refl)))
          (by_simulation (tests refl (omega arith))))
        (by_simulation (takes b'1' [] refl refl)))
      (by_simulation (obeys b'1' 0 refl))

interleaved_order_example :
    (commands halfway.obeyed ++ pending list_queue halfway ≡ two_bytes)
    × (obey low halfway.obeyed ≡ (record low { tdi = 1 }, [] ++ unsent list_queue halfway))
interleaved_order_example =
    interleaved_order list_queue [] [] low list_queue-Unfailing refl refl halfway-Steps tt

interleaved_settles_example :
    (t : System list_queue) × Steps list_queue halfway t
    × (t.input ≡ two_bytes)
    × (commands t.obeyed ≡ two_bytes)
    × (obey low t.obeyed ≡ (t.pins, taken t.output))
interleaved_settles_example =
    interleaved_settles list_queue [] [] low list_queue-Unfailing refl refl halfway-Steps tt
