-- ===== src/Jtag/Remote/Settle.antt =====
-- The two threads of Jtag/Remote can finish from every state: what has been read can be obeyed, and
-- what has been answered can be sent.
use mathlib.Core.Path.{subst}
use tinylabs_cores.Common.{
  ℕ, zero, suc, ◌-◌, ◌≤◌, ◌≡◌, ◌≢◌, ◌⊎◌, inl, inr, refl, sym, ap, ◌∙◌, none, some, List, [], ◌∷◌,
  ◌++◌, append-nil, length, drop, arith, All, All-append,
}
use tinylabs_cores.Queue.{ByteQueue, Unfailing, dequeued}
use tinylabs_cores.Server.{resp_size}
use tinylabs_cores.Jtag.{Pins, jtag_command}
use tinylabs_cores.Jtag.Remote.{
  Network, accepting, reading, queueing, checking, filling, writing, Simulation, outside, tested,
  holding, System, Listens, Calls, by_network, by_simulation, reads_nothing, queues, queues_last,
  finds_none, finds_some, accepts, taken, IsWhole, fills, fills_last, is_full, writes, tests, takes,
  misses, obeys, start, Steps, stay, later,
}
use tinylabs_cores.Jtag.Remote.Obey.{obey}
use tinylabs_cores.Jtag.Remote.Order.{commands, pending, unsent, interleaved_order}

length-drop : (n : ℕ) (xs : List ℕ) → length (drop (suc n) xs) ≤ length xs - 1
length-drop n [] = omega arith
length-drop zero (x ∷ xs) = omega arith
length-drop (suc n) (x ∷ []) = omega arith
length-drop (suc n) (x ∷ y ∷ xs) = omega (arith, length-drop n (y ∷ xs))

module _ (K : ByteQueue) where
  pub joined : {s t u : System K} → Steps K s t → Steps K t u → Steps K s u
  joined first (stay t) = first
  joined first (later rest step) = later (joined first rest) step

  pub listens : {s t : System K} → Listens K s t → Steps K s t
  listens {s} step = later (stay s) (by_network step)

  pub calls : {s t : System K} → Calls K s t → Steps K s t
  calls {s} step = later (stay s) (by_simulation step)

  -- The queue holds nothing, or something that `try_dequeue` takes.
  pub dequeues :
      (q : K.Q) (xs : List ℕ)
      → K.contents q ≡ xs
      → ((K.contents q ≡ []) × (K.try_dequeue q ≡ none) × (K.size_approx q ≡ 0))
        ⊎ ((x : ℕ) × (q' : K.Q) × (K.try_dequeue q ≡ some (x, q'))
            × (K.size_approx q ≢ 0)
            × (K.contents q ≡ x ∷ K.contents q'))
  dequeues q [] e = inl (e, K.try_dequeue-nil q e, K.size_approx-nil q e)
  dequeues q (x ∷ xs) e =
      let (q', taken, left) = K.try_dequeue-cons q x xs e in
      inr (x, q', taken, K.size_approx-cons q x xs e, dequeued K q q' x taken)

  -- The network thread, up to its next `read`.

  fill_end :
      (n : ℕ) (resp : List ℕ) (s : System K)
      → s.network ≡ filling n resp
      → (resp' : List ℕ) × (rx' : K.Q) × Steps K s (record s { network = writing resp'; rx = rx' })
        × (K.contents rx' ≡ drop n (K.contents s.rx))
  fill_end zero resp s at = (resp, s.rx, listens (is_full resp at), refl)
  fill_end (suc n) resp s at = elim (dequeues s.rx (K.contents s.rx) refl) [
    | inl (nothing_left, missed, _) ↦
        (resp, s.rx, listens (fills_last n resp at missed), rw nothing_left refl)
    | inr (val, rx', taken, _, before) ↦
        let (resp', rx'', steps, left) =
          fill_end n (resp ++ (val ∷ []))
            (record s { network = filling n (resp ++ (val ∷ [])); rx = rx' }) refl in
        (resp', rx'', joined (listens (fills n resp val rx' at taken)) steps, rw before left)
  ]

  -- Writes that took all are followed by such writes.
  abbrev Stays : System K → List (List ℕ × ℕ) → Type 0
  Stays s output' = All IsWhole s.output → All IsWhole output'

  -- The last write takes all.
  append-IsWhole :
      (log : List (List ℕ × ℕ)) (resp : List ℕ)
      → All IsWhole log
      → All IsWhole (log ++ ((resp, length resp) ∷ []))
  append-IsWhole log resp h = All-append IsWhole log _ h (omega arith, tt)

  -- A response that is being made goes out.
  response_end :
      (n : ℕ) (resp : List ℕ) (s : System K)
      → s.network ≡ filling n resp
      → (rx' : K.Q) × (output' : List (List ℕ × ℕ)) × Steps K s
          (record s { network = reading; rx = rx'; output = output' })
        × (K.contents rx' ≡ drop n (K.contents s.rx))
        × Stays s output'
  response_end n resp s at =
      let (resp', rx', steps, left) = fill_end n resp s at in
      (
        rx',
        s.output ++ ((resp', length resp') ∷ []),
        joined steps (listens (writes resp' (length resp') refl)),
        left,
        append-IsWhole s.output resp',
      )

  -- The network thread comes back to `read`.
  abbrev Returns : System K → Type 0
  Returns s =
      (tx' : K.Q) × (rx' : K.Q) × (output' : List (List ℕ × ℕ)) × Steps K s
        (record s { network = reading; tx = tx'; rx = rx'; output = output' })
      × Stays s output'

  check_end : (s : System K) → s.network ≡ checking → Returns s
  check_end s at = elim (dequeues s.rx (K.contents s.rx) refl) [
    | inl (_, _, empty) ↦ (s.tx, s.rx, s.output, listens (finds_none at empty), λ h. h)
    | inr (_, _, _, full, _) ↦
        let (rx', output', steps, _, whole) =
          response_end resp_size [] (record s { network = filling resp_size [] }) refl in
        (s.tx, rx', output', joined (listens (finds_some at full)) steps, whole)
  ]

  queue_end : (bs : List ℕ) (s : System K) → s.network ≡ queueing bs → Returns s
  queue_end [] s at =
      let (tx', rx', output', steps, whole) = check_end (record s { network = checking }) refl in
      (tx', rx', output', joined (listens (queues_last at)) steps, whole)
  queue_end (b ∷ bs) s at =
      let (tx', rx', output', steps, whole) =
        queue_end bs (record s { network = queueing bs; tx = (K.enqueue s.tx b).0 }) refl in
      (tx', rx', output', joined (listens (queues b bs at)) steps, whole)

  round_end : (n : Network) (s : System K) → s.network ≡ n → Returns s
  round_end reading s at =
      let (tx', rx', output', steps, whole) = check_end (record s { network = checking }) refl in
      (tx', rx', output', joined (listens (reads_nothing at)) steps, whole)
  round_end (queueing bs) s at = queue_end bs s at
  round_end checking s at = check_end s at
  round_end (filling n resp) s at =
      let (rx', output', steps, _, whole) = response_end n resp s at in
      (s.tx, rx', output', steps, whole)
  round_end (writing resp) s at = (
    s.tx,
    s.rx,
    s.output ++ ((resp, length resp) ∷ []),
    listens (writes resp (length resp) at),
    append-IsWhole s.output resp,
  )
  round_end accepting s at = (s.tx, s.rx, s.output, listens (accepts at), λ h. h)

  -- The simulation, until nothing is queued for it.

  -- The simulation obeys all that is queued, and is outside `doJTAGServer`.
  abbrev CatchesUp : System K → Type 0
  CatchesUp s =
      (tx' : K.Q) × (rx' : K.Q) × (pins' : Pins) × (obeyed' : List (ℕ × ℕ)) × Steps K s
        (record s { simulation = outside; tx = tx'; rx = rx'; pins = pins'; obeyed = obeyed' })
      × (K.contents tx' ≡ [])

  -- What holds once the simulation is outside holds as soon as it has obeyed the command in hand.
  obey_held :
      (cmd : ℕ) (s : System K)
      → s.simulation ≡ holding cmd
      → ((t : System K) → t.tx ≡ s.tx → t.simulation ≡ outside → CatchesUp t)
      → CatchesUp s
  obey_held cmd s at rest =
      let (pins', rx') = jtag_command K cmd 0 s.pins s.rx in
      let (tx'', rx'', pins'', obeyed'', steps, empty) =
        rest
          (record s {
            simulation = outside;
            pins = pins';
            rx = rx';
            obeyed = s.obeyed ++ ((cmd, 0) ∷ []);
          })
          refl refl in
      (tx'', rx'', pins'', obeyed'', joined (calls (obeys cmd 0 at)) steps, empty)

  obey_all :
      (xs : List ℕ) (s : System K) → K.contents s.tx ≡ xs → s.simulation ≡ outside → CatchesUp s
  obey_all [] s e at = (
    s.tx,
    s.rx,
    s.pins,
    s.obeyed,
    subst (λ t. Steps K s t) (ap (λ m. record s { simulation = m }) at) (stay s),
    e,
  )
  obey_all (x ∷ xs) s e at =
      let (tx', taken, left) = K.try_dequeue-cons s.tx x xs e in
      let (tx'', rx'', pins'', obeyed'', steps, empty) =
        obey_held x (record s { simulation = holding x; tx = tx' }) refl
          (λ t same out. obey_all xs t (ap K.contents same ∙ left) out) in
      (
        tx'',
        rx'',
        pins'',
        obeyed'',
        joined
            (joined (calls (tests at (K.size_approx-cons s.tx x xs e)))
              (calls (takes x tx' refl taken)))
            steps,
        empty,
      )

  catch_up : (m : Simulation) (s : System K) → s.simulation ≡ m → CatchesUp s
  catch_up outside s at = obey_all (K.contents s.tx) s refl at
  catch_up tested s at = elim (dequeues s.tx (K.contents s.tx) refl) [
    | inl (empty, missed, _) ↦ (s.tx, s.rx, s.pins, s.obeyed, calls (misses at missed), empty)
    | inr (x, tx', taken, _, _) ↦
        let (tx'', rx'', pins'', obeyed'', steps, empty) =
          obey_held x (record s { simulation = holding x; tx = tx' }) refl
            (λ t same out. obey_all (K.contents t.tx) t refl out) in
        (tx'', rx'', pins'', obeyed'', joined (calls (takes x tx' at taken)) steps, empty)
  ]
  catch_up (holding cmd) s at =
      obey_held cmd s at (λ t same out. obey_all (K.contents t.tx) t refl out)

  -- The network thread sends all that is queued, a response a round.
  send_all :
      (n : ℕ) (xs : List ℕ) (s : System K)
      → K.contents s.rx ≡ xs
      → length xs ≤ n
      → s.network ≡ reading
      → (rx' : K.Q) × (output' : List (List ℕ × ℕ)) × Steps K s
          (record s { network = reading; rx = rx'; output = output' })
        × (K.contents rx' ≡ [])
        × Stays s output'
  send_all n [] s e short at = (
    s.rx,
    s.output,
    subst (λ t. Steps K s t) (ap (λ n. record s { network = n }) at) (stay s),
    e,
    λ h. h,
  )
  send_all zero (x ∷ xs) s e short at = absurd (omega arith)
  send_all (suc n) (x ∷ xs) s e short at =
      let (rx', output', steps, left, whole) =
        response_end resp_size [] (record s { network = filling resp_size [] }) refl in
      let (rx'', output'', rest, empty, whole') =
        send_all n (drop resp_size (x ∷ xs))
          (record s { network = reading; rx = rx'; output = output' })
          (left ∙ ap (drop resp_size) e) (omega (arith, length-drop 255 (x ∷ xs))) refl in
      (
        rx'',
        output'',
        joined
            (joined
              (joined (listens (reads_nothing at))
                (listens (finds_some refl (K.size_approx-cons s.rx x xs e))))
              steps)
            rest,
        empty,
        λ h. whole' (whole h),
      )

  settles :
      (s : System K)
      → (t : System K) × Steps K s t
        × (t.input ≡ s.input)
        × (pending K t ≡ [])
        × (unsent K t ≡ [])
        × Stays s t.output
  settles s =
      let (tx1, rx1, output1, first, whole1) = round_end s.network s refl in
      let s1 : System K = record s { network = reading; tx = tx1; rx = rx1; output = output1 } in
      let (tx2, rx2, pins2, obeyed2, second, no_commands) = catch_up s1.simulation s1 refl in
      let s2 : System K = record s1 {
        simulation = outside;
        tx = tx2;
        rx = rx2;
        pins = pins2;
        obeyed = obeyed2;
      } in
      let (rx3, output3, third, no_answers, whole3) =
        send_all (length (K.contents rx2)) (K.contents rx2) s2 refl (omega arith) refl in
      (
        record s2 { rx = rx3; output = output3 },
        joined (joined first second) third,
        refl,
        append-nil (K.contents tx2) ∙ no_commands,
        no_answers,
        λ h. whole3 (whole1 h),
      )

  -- Whatever the two threads have done so far, from queues with nothing in them, as long as memory
  -- does not run out and each `write` has taken all: they can come to a state in which nothing more
  -- has been read, all that was read is obeyed, in its order, and all answers are written, each
  -- `write` having taken all.
  pub interleaved_settles :
      {s : System K} (tx rx : K.Q) (p : Pins)
      → Unfailing K
      → K.contents tx ≡ []
      → K.contents rx ≡ []
      → Steps K (start K tx rx p) s
      → All IsWhole s.output
      → (t : System K) × Steps K s t
        × (t.input ≡ s.input)
        × (commands t.obeyed ≡ s.input)
        × (obey p t.obeyed ≡ (t.pins, taken t.output))
  interleaved_settles {s} tx rx p ok no_commands no_answers before whole =
      let (t, steps, same, no_pending, no_unsent, stays) = settles s in
      let (in_order, answered) =
        interleaved_order K tx rx p ok no_commands no_answers (joined before steps) (stays whole) in
      (
        t,
        steps,
        same,
        sym (append-nil (commands t.obeyed))
            ∙ ap (λ l. commands t.obeyed ++ l) (sym no_pending)
            ∙ in_order
            ∙ same,
        answered
            ∙ ap (λ l. (t.pins, l))
                (ap (λ l. taken t.output ++ l) no_unsent ∙ append-nil (taken t.output)),
      )
