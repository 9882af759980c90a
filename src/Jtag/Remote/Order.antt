-- ===== src/Jtag/Remote/Order.antt =====
-- What holds of the two threads of Jtag/Remote in every interleaving: the commands are obeyed in the
-- order in which they came, and the answers go out in the order of the commands.
use mathlib.Core.List.{map, map-append}
use tinylabs_cores.Common.{
  ℕ, suc, ◌≡◌, refl, sym, ap, ap₂, ◌∙◌, some, List, [], ◌∷◌, ◌++◌, append_assoc, append-nil, All,
}
use tinylabs_cores.Queue.{ByteQueue, Unfailing, enqueue_ok, dequeued}
use tinylabs_cores.Server.{resp_size}
use tinylabs_cores.Server.Listen.{contents-enqueue_all, take-all}
use tinylabs_cores.Jtag.{Pins, jtag_command}
use tinylabs_cores.Jtag.Remote.{
  Network, accepting, reading, queueing, checking, filling, writing, Simulation, outside, tested,
  holding, System, Step, by_network, by_simulation, accepts, closes, handed, taken, IsWhole, reads,
  reads_nothing, queues, queues_last, finds_none, finds_some, fills, fills_last, is_full, writes,
  tests, takes, misses, obeys, start, Steps, stay, later,
}
use tinylabs_cores.Jtag.Remote.Obey.{change, reply, obey, obey-nil, obey-append, jtag_command_lem}

-- The bytes that the network thread has read and not queued.
abbrev pub unqueued : Network → List ℕ
unqueued (queueing bs) = bs
unqueued reading = []
unqueued checking = []
unqueued (filling n resp) = []
unqueued (writing resp) = []
unqueued accepting = []

-- The bytes of a response that is not written.
abbrev pub unwritten : Network → List ℕ
unwritten (filling n resp) = resp
unwritten (writing resp) = resp
unwritten reading = []
unwritten (queueing bs) = []
unwritten checking = []
unwritten accepting = []

-- The command in hand.
abbrev pub held : Simulation → List ℕ
held (holding cmd) = cmd ∷ []
held outside = []
held tested = []

abbrev pub commands : List (ℕ × ℕ) → List ℕ
commands = map (λ c. c.0)

handed-append :
    (log : List (List ℕ × ℕ)) (resp : List ℕ) (n : ℕ)
    → handed (log ++ ((resp, n) ∷ [])) ≡ handed log ++ resp
handed-append [] resp n = append-nil resp
handed-append ((first, m) ∷ log) resp n =
    ap (λ l. first ++ l) (handed-append log resp n) ∙ sym (append_assoc first (handed log) resp)

taken-handed : (log : List (List ℕ × ℕ)) → All IsWhole log → taken log ≡ handed log
taken-handed [] h = refl
taken-handed ((resp, n) ∷ log) h = ap₂ (λ a b. a ++ b) (take-all n resp h.0) (taken-handed log h.1)

at_end : (a b c d : List ℕ) → a ++ (b ++ (c ++ d)) ≡ (a ++ (b ++ (c ++ []))) ++ d
at_end a b c d = simp (append_assoc, append-nil)

module _ (K : ByteQueue) where
  -- What has been read and not obeyed, and what has been answered and not written.
  abbrev pub pending : System K → List ℕ
  pending s = held s.simulation ++ (K.contents s.tx ++ unqueued s.network)

  abbrev pub unsent : System K → List ℕ
  unsent s = unwritten s.network ++ K.contents s.rx

  -- In the state `s`, after a start with the pins `p`.
  record IsOrderly (p : Pins) (s : System K) : Type 0 where
    in_order : commands s.obeyed ++ pending s ≡ s.input
    answered : obey p s.obeyed ≡ (s.pins, handed s.output ++ unsent s)

  -- A step that moves bytes and neither reads, writes nor obeys.
  moved-IsOrderly :
      {p : Pins} {s : System K} (t : System K)
      → IsOrderly p s
      → t.obeyed ≡ s.obeyed
      → t.pins ≡ s.pins
      → t.input ≡ s.input
      → pending t ≡ pending s
      → handed t.output ++ unsent t ≡ handed s.output ++ unsent s
      → IsOrderly p t
  moved-IsOrderly {p} t o same_obeyed same_pins same_input before after = record {
    in_order = ap₂ (λ c l. commands c ++ l) same_obeyed before ∙ o.in_order ∙ sym same_input;
    answered = ap (obey p) same_obeyed ∙ o.answered ∙ sym (ap₂ (λ q l. (q, l)) same_pins after);
  }

  module _ {p : Pins} {s : System K} (o : IsOrderly p s) where
    -- The network thread moves on and the queues stay.
    goes-IsOrderly :
        (n : Network)
        → unqueued n ≡ unqueued s.network
        → unwritten n ≡ unwritten s.network
        → IsOrderly p (record s { network = n })
    goes-IsOrderly n e f =
        moved-IsOrderly (record s { network = n }) o refl refl refl
          (ap (λ l. held s.simulation ++ (K.contents s.tx ++ l)) e)
          (ap (λ l. handed s.output ++ (l ++ K.contents s.rx)) f)

    read-IsOrderly :
        (bs : List ℕ)
        → s.network ≡ reading
        → IsOrderly p (record s { network = queueing bs; input = s.input ++ bs })
    read-IsOrderly bs at = record {
      in_order =
          at_end (commands s.obeyed) (held s.simulation) (K.contents s.tx) bs
          ∙ ap (λ l. l ++ bs)
              (sym (
                  ap
                    (λ n.
                      commands s.obeyed ++ (held s.simulation ++ (K.contents s.tx ++ unqueued n)))
                    at)
                ∙ o.in_order);
      answered =
          o.answered
          ∙ ap (λ (n : Network). (s.pins, handed s.output ++ (unwritten n ++ K.contents s.rx))) at;
    }

    queued-IsOrderly :
        (b : ℕ) (bs : List ℕ)
        → Unfailing K
        → s.network ≡ queueing (b ∷ bs)
        → IsOrderly p (record s { network = queueing bs; tx = (K.enqueue s.tx b).0 })
    queued-IsOrderly b bs ok at =
        moved-IsOrderly (record s { network = queueing bs; tx = (K.enqueue s.tx b).0 }) o refl refl
          refl
          (ap (λ l. held s.simulation ++ l)
            (ap (λ l. l ++ bs) (enqueue_ok K s.tx b ok)
              ∙ append_assoc (K.contents s.tx) (b ∷ []) bs
              ∙ sym (ap (λ n. K.contents s.tx ++ unqueued n) at)))
          (sym (ap (λ n. handed s.output ++ (unwritten n ++ K.contents s.rx)) at))

    filled-IsOrderly :
        (n : ℕ) (resp : List ℕ) (val : ℕ) (rx' : K.Q)
        → s.network ≡ filling (suc n) resp
        → K.try_dequeue s.rx ≡ some (val, rx')
        → IsOrderly p (record s { network = filling n (resp ++ (val ∷ [])); rx = rx' })
    filled-IsOrderly n resp val rx' at taken =
        moved-IsOrderly (record s { network = filling n (resp ++ (val ∷ [])); rx = rx' }) o refl
          refl refl (sym (ap (λ n. held s.simulation ++ (K.contents s.tx ++ unqueued n)) at))
          (ap (λ l. handed s.output ++ l)
            (append_assoc resp (val ∷ []) (K.contents rx')
              ∙ sym (ap₂ (λ n l. unwritten n ++ l) at (dequeued K s.rx rx' val taken))))

    written-IsOrderly :
        (resp : List ℕ) (n : ℕ)
        → s.network ≡ writing resp
        → IsOrderly p (record s { network = reading; output = s.output ++ ((resp, n) ∷ []) })
    written-IsOrderly resp n at =
        moved-IsOrderly (record s { network = reading; output = s.output ++ ((resp, n) ∷ []) }) o
          refl refl refl (sym (ap (λ n. held s.simulation ++ (K.contents s.tx ++ unqueued n)) at))
          (ap (λ l. l ++ K.contents s.rx) (handed-append s.output resp n)
            ∙ append_assoc (handed s.output) resp (K.contents s.rx)
            ∙ sym (ap (λ n. handed s.output ++ (unwritten n ++ K.contents s.rx)) at))

    -- The simulation moves on and the queues stay.
    turns-IsOrderly :
        (m : Simulation) → held m ≡ held s.simulation → IsOrderly p (record s { simulation = m })
    turns-IsOrderly m e =
        moved-IsOrderly (record s { simulation = m }) o refl refl refl
          (ap (λ l. l ++ (K.contents s.tx ++ unqueued s.network)) e) refl

    taken-IsOrderly :
        (cmd : ℕ) (tx' : K.Q)
        → s.simulation ≡ tested
        → K.try_dequeue s.tx ≡ some (cmd, tx')
        → IsOrderly p (record s { simulation = holding cmd; tx = tx' })
    taken-IsOrderly cmd tx' at taken =
        moved-IsOrderly (record s { simulation = holding cmd; tx = tx' }) o refl refl refl
          (sym
            (ap₂ (λ m l. held m ++ (l ++ unqueued s.network)) at (dequeued K s.tx tx' cmd taken)))
          refl

    next_answer :
        (cmd tdo : ℕ)
        → Unfailing K
        → ◌≡◌ {A = Pins × List ℕ}
            (
              (jtag_command K cmd tdo s.pins s.rx).0,
              handed s.output
                  ++ (unwritten s.network ++ K.contents (jtag_command K cmd tdo s.pins s.rx).1),
            )
            (change cmd s.pins, (handed s.output ++ unsent s) ++ reply cmd tdo s.pins)
    next_answer cmd tdo ok =
        ap (λ r. (r.0, handed s.output ++ (unwritten s.network ++ K.contents r.1)))
          (jtag_command_lem K cmd tdo s.pins s.rx)
        ∙ ap (λ l. (change cmd s.pins, handed s.output ++ (unwritten s.network ++ l)))
            (contents-enqueue_all K (reply cmd tdo s.pins) s.rx ok)
        ∙ ap (λ l. (change cmd s.pins, l)) (simp append_assoc)

    obeyed-IsOrderly :
        (cmd tdo : ℕ)
        → Unfailing K
        → s.simulation ≡ holding cmd
        → IsOrderly p (record s {
          simulation = outside;
          pins = (jtag_command K cmd tdo s.pins s.rx).0;
          rx = (jtag_command K cmd tdo s.pins s.rx).1;
          obeyed = s.obeyed ++ ((cmd, tdo) ∷ []);
        })
    obeyed-IsOrderly cmd tdo ok at = record {
      in_order =
          (let rest : List ℕ = K.contents s.tx ++ unqueued s.network in
            ap (λ l. l ++ rest) (map-append (λ (c : ℕ × ℕ). c.0) s.obeyed ((cmd, tdo) ∷ []))
            ∙ append_assoc (commands s.obeyed) (cmd ∷ []) rest
            ∙ sym (ap (λ m. commands s.obeyed ++ (held m ++ rest)) at)
            ∙ o.in_order);
      answered =
          obey-append p s.obeyed cmd tdo
          ∙ ap (λ r. (change cmd r.0, r.1 ++ reply cmd tdo r.0)) o.answered
          ∙ sym (next_answer cmd tdo ok);
    }

  Step-IsOrderly :
      {p : Pins} {s t : System K} → Unfailing K → IsOrderly p s → Step K s t → IsOrderly p t
  Step-IsOrderly ok o (by_network (accepts at)) =
      goes-IsOrderly o reading (sym (ap unqueued at)) (sym (ap unwritten at))
  Step-IsOrderly ok o (by_network (closes at)) =
      goes-IsOrderly o accepting (sym (ap unqueued at)) (sym (ap unwritten at))
  Step-IsOrderly ok o (by_network (reads bs at)) = read-IsOrderly o bs at
  Step-IsOrderly ok o (by_network (reads_nothing at)) =
      goes-IsOrderly o checking (sym (ap unqueued at)) (sym (ap unwritten at))
  Step-IsOrderly ok o (by_network (queues b bs at)) = queued-IsOrderly o b bs ok at
  Step-IsOrderly ok o (by_network (queues_last at)) =
      goes-IsOrderly o checking (sym (ap unqueued at)) (sym (ap unwritten at))
  Step-IsOrderly ok o (by_network (finds_none at empty)) =
      goes-IsOrderly o reading (sym (ap unqueued at)) (sym (ap unwritten at))
  Step-IsOrderly ok o (by_network (finds_some at some_left)) =
      goes-IsOrderly o (filling resp_size []) (sym (ap unqueued at)) (sym (ap unwritten at))
  Step-IsOrderly ok o (by_network (fills n resp val rx' at taken)) =
      filled-IsOrderly o n resp val rx' at taken
  Step-IsOrderly ok o (by_network (fills_last n resp at none_left)) =
      goes-IsOrderly o (writing resp) (sym (ap unqueued at)) (sym (ap unwritten at))
  Step-IsOrderly ok o (by_network (is_full resp at)) =
      goes-IsOrderly o (writing resp) (sym (ap unqueued at)) (sym (ap unwritten at))
  Step-IsOrderly ok o (by_network (writes resp n at)) = written-IsOrderly o resp n at
  Step-IsOrderly ok o (by_simulation (tests at some_left)) =
      turns-IsOrderly o tested (sym (ap held at))
  Step-IsOrderly ok o (by_simulation (takes cmd tx' at taken)) = taken-IsOrderly o cmd tx' at taken
  Step-IsOrderly ok o (by_simulation (misses at none_left)) =
      turns-IsOrderly o outside (sym (ap held at))
  Step-IsOrderly ok o (by_simulation (obeys cmd tdo at)) = obeyed-IsOrderly o cmd tdo ok at

  Steps-IsOrderly :
      {p : Pins} {s t : System K} → Unfailing K → IsOrderly p s → Steps K s t → IsOrderly p t
  Steps-IsOrderly ok o (stay s) = o
  Steps-IsOrderly ok o (later steps step) = Step-IsOrderly ok (Steps-IsOrderly ok o steps) step

  start-IsOrderly :
      (tx rx : K.Q) (p : Pins)
      → K.contents tx ≡ []
      → K.contents rx ≡ []
      → IsOrderly p (start K tx rx p)
  start-IsOrderly tx rx p no_commands no_answers = record {
    in_order = ap (λ l. l ++ []) no_commands;
    answered = obey-nil p ∙ sym (ap (λ l. (p, l)) no_answers);
  }

  pub interleaved-IsOrderly :
      {s : System K} (tx rx : K.Q) (p : Pins)
      → Unfailing K
      → K.contents tx ≡ []
      → K.contents rx ≡ []
      → Steps K (start K tx rx p) s
      → (commands s.obeyed ++ pending s ≡ s.input)
        × (obey p s.obeyed ≡ (s.pins, handed s.output ++ unsent s))
  interleaved-IsOrderly tx rx p ok no_commands no_answers steps =
      let o = Steps-IsOrderly ok (start-IsOrderly tx rx p no_commands no_answers) steps in
      (o.in_order, o.answered)

  -- In every interleaving of the two threads, from queues with nothing in them and as long as memory
  -- does not run out and each `write` has taken all: the commands obeyed so far, then the one in
  -- hand, those in `tx` and those of the last read that are not queued, are all that was read, in its
  -- order; and the pins, and what was written followed by the response that is being made and by
  -- `rx`, are what the commands obeyed mean one after the other.
  pub interleaved_order :
      {s : System K} (tx rx : K.Q) (p : Pins)
      → Unfailing K
      → K.contents tx ≡ []
      → K.contents rx ≡ []
      → Steps K (start K tx rx p) s
      → All IsWhole s.output
      → (commands s.obeyed ++ pending s ≡ s.input)
        × (obey p s.obeyed ≡ (s.pins, taken s.output ++ unsent s))
  interleaved_order {s} tx rx p ok no_commands no_answers steps whole =
      let (in_order, answered) = interleaved-IsOrderly tx rx p ok no_commands no_answers steps in
      (in_order, answered ∙ ap (λ l. (s.pins, l ++ unsent s)) (sym (taken-handed s.output whole)))
