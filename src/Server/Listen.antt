-- ===== src/Server/Listen.antt =====
-- The network thread moves bytes in order and loses none, as long as `write` takes all that it is
-- given; and how it can go wrong.
use tinylabs_cores.Common.{
  ℕ, zero, suc, ◌+◌, ◌*◌, ◌≤◌, ◌≡◌, ◌≢◌, refl, sym, ap, ap₂, ◌∙◌, true, false, Option, some, List,
  [], ◌∷◌, ◌++◌, append_assoc, append-nil, ◌==◌, All, Bool-cases, inl, inr, ==_iff, ==_of_ne, arith,
  length, take, drop,
}
use mathlib.Core.List.{append_cancel_left}
use tinylabs_cores.Queue.{ByteQueue, Unfailing, enqueue_ok}
use tinylabs_cores.Server.{
  Server, Round, continued, overflowed, Incoming, closed, nothing, received, resp_size, enqueue_all,
  fill_resp, send, respond, listen_round, listen_run,
}

module _ (K : ByteQueue) where
  pub contents-enqueue_all :
      (bs : List ℕ) (q : K.Q) → Unfailing K → K.contents (enqueue_all K bs q) ≡ K.contents q ++ bs
  unfolding enqueue_all
  contents-enqueue_all [] q ok = sym (append-nil _)
  contents-enqueue_all (b ∷ bs) q ok =
      contents-enqueue_all bs (K.enqueue q b).0 ok
      ∙ ap (λ l. l ++ bs) (enqueue_ok K q b ok)
      ∙ append_assoc (K.contents q) (b ∷ []) bs

  -- The loop takes the oldest bytes, as many as there is room for.
  pub fill_resp_lem :
      (n : ℕ) (q : K.Q) (xs : List ℕ)
      → K.contents q ≡ xs
      → ((fill_resp K n q).0 ≡ take n xs) × (K.contents (fill_resp K n q).1 ≡ drop n xs)
  unfolding fill_resp
  fill_resp_lem zero q xs e = (refl, e)
  fill_resp_lem (suc n) q [] e = ground (arith, e, K.try_dequeue-nil q e)
  fill_resp_lem (suc n) q (x ∷ xs) e =
      let (q', taken, left) = K.try_dequeue-cons q x xs e in
      let (got, rest) = fill_resp_lem n q' xs left in
      rw (taken, fill_resp) (ap (λ l. x ∷ l) got, rest)

pub take-all : (n : ℕ) (xs : List ℕ) → length xs ≤ n → take n xs ≡ xs
take-all zero [] h = refl
take-all zero (x ∷ xs) h = absurd (omega arith)
take-all (suc n) [] h = refl
take-all (suc n) (x ∷ xs) h = ap (λ l. x ∷ l) (take-all n xs (omega arith))

pub length-take : (n : ℕ) (xs : List ℕ) → length (take n xs) ≤ n
length-take zero xs = omega arith
length-take (suc n) [] = omega arith
length-take (suc n) (x ∷ xs) = omega (arith, length-take n xs)

length-take_of_le : (n : ℕ) (xs : List ℕ) → n ≤ length xs → length (take n xs) ≡ n
length-take_of_le zero xs h = refl
length-take_of_le (suc n) [] h = absurd (omega arith)
length-take_of_le (suc n) (x ∷ xs) h = ap suc (length-take_of_le n xs (omega arith))

take-drop : (n : ℕ) (xs : List ℕ) → take n xs ++ drop n xs ≡ xs
take-drop zero xs = refl
take-drop (suc n) [] = refl
take-drop (suc n) (x ∷ xs) = ap (λ l. x ∷ l) (take-drop n xs)

abbrev no_bytes : List ℕ
no_bytes = []

take-nil : (n : ℕ) → take n no_bytes ≡ []
take-nil zero = refl
take-nil (suc n) = refl

take-add : (n m : ℕ) (xs : List ℕ) → take n xs ++ take m (drop n xs) ≡ take (n + m) xs
take-add zero m xs = ap (λ (k : ℕ). take k xs) (omega arith)
take-add (suc n) m [] = take-nil m ∙ sym (take-nil (suc n + m))
take-add (suc n) m (x ∷ xs) =
    let later : suc n + m ≡ suc (n + m) = omega arith in
    ap (λ l. x ∷ l) (take-add n m xs) ∙ sym (ap (λ (k : ℕ). take k (x ∷ xs)) later)

drop-append : (n : ℕ) (xs ys zs : List ℕ) → xs ≡ take n zs → xs ++ ys ≡ zs → ys ≡ drop n zs
drop-append n xs ys zs e f =
    append_cancel_left (take n zs) ys (drop n zs)
      (sym (ap (λ l. l ++ ys) e) ∙ f ∙ sym (take-drop n zs))

take-more :
    (n m : ℕ) (xs ys zs : List ℕ)
    → xs ≡ take n zs
    → xs ++ ys ≡ zs
    → take n zs ++ take m ys ≡ take (n + m) zs
take-more n m xs ys zs e f =
    ap (λ l. take n zs ++ take m l) (drop-append n xs ys zs e f) ∙ take-add n m zs

-- The bytes that a read brings.
abbrev pub bytes : Incoming → List ℕ
bytes closed = []
bytes nothing = []
bytes (received bs) = bs

-- The connection stands, and `write` takes a whole response.
abbrev pub IsClean : Incoming × Option ℕ → Type 0
IsClean (incoming, wrote) = (incoming ≢ closed) × (wrote ≡ some resp_size)

module _ (K : ByteQueue) where
  -- What a round has done that goes on and sends all of its response.
  record Forwarded (s : Server K) (bs : List ℕ) (r : Round K) : Type 0 where
    next : Server K
    resp : List ℕ
    goes_on : r ≡ continued next resp resp
    still : next.running ≡ true
    quiet : next.debug ≡ false
    taken_in : K.contents next.tx ≡ K.contents s.tx ++ bs
    passed_on : resp ++ K.contents next.rx ≡ K.contents s.rx
    resp_full : resp ≡ take resp_size (K.contents s.rx)

  -- A queue that seems empty has nothing to take.
  take-none :
      (q : K.Q) (xs : List ℕ)
      → K.contents q ≡ xs
      → (K.size_approx q == 0) ≡ true
      → take resp_size xs ≡ []
  take-none q [] e empty = refl
  take-none q (x ∷ xs) e empty =
      absurd (K.size_approx-cons q x xs e ((==_iff (K.size_approx q) 0).0 empty))

  respond-Forwarded :
      (s : Server K)
      → s.running ≡ true
      → s.debug ≡ false
      → Forwarded s [] (respond K s (some resp_size))
  unfolding respond send
  respond-Forwarded s run quiet = elim (Bool-cases (K.size_approx s.rx == 0)) [
    | inl empty ↦ record {
      next = s;
      resp = [];
      goes_on = rw empty refl;
      still = run;
      quiet = quiet;
      taken_in = sym (append-nil _);
      passed_on = refl;
      resp_full = sym (take-none s.rx (K.contents s.rx) refl empty);
    }
    | inr full ↦
        let (got, left) = fill_resp_lem K resp_size s.rx (K.contents s.rx) refl in
        let resp : List ℕ = (fill_resp K resp_size s.rx).0 in
        let fits : length resp ≤ resp_size = rw got (length-take resp_size (K.contents s.rx)) in
        record {
          next = record s { rx = (fill_resp K resp_size s.rx).1 };
          resp = resp;
          goes_on = rw (full, quiet, take-all resp_size resp fits) refl;
          still = run;
          quiet = quiet;
          taken_in = sym (append-nil _);
          passed_on = ap₂ (λ a b. a ++ b) got left ∙ take-drop resp_size (K.contents s.rx);
          resp_full = got;
        }
  ]

  pub round_running :
      (s : Server K) (incoming : Incoming) (wrote : Option ℕ)
      → s.running ≡ true
      → incoming ≢ closed
      → (s' : Server K) × (listen_round K s incoming wrote ≡ respond K s' wrote)
        × (s' ≡ record s { tx = enqueue_all K (bytes incoming) s.tx })
  unfolding listen_round enqueue_all
  round_running s closed wrote run standing = absurd (standing refl)
  round_running s nothing wrote run standing = (s, ground arith, refl)
  round_running s (received bs) wrote run standing =
      (record s { tx = enqueue_all K bs s.tx }, ground arith, refl)

  round-Forwarded :
      (s : Server K) (incoming : Incoming)
      → Unfailing K
      → s.running ≡ true
      → s.debug ≡ false
      → incoming ≢ closed
      → Forwarded s (bytes incoming) (listen_round K s incoming (some resp_size))
  round-Forwarded s incoming ok run quiet standing =
      let (s', same, read) = round_running s incoming (some resp_size) run standing in
      let f =
        respond-Forwarded s' (ap (λ (s : Server K). s.running) read ∙ run)
          (ap (λ (s : Server K). s.debug) read ∙ quiet) in
      record {
        next = f.next;
        resp = f.resp;
        goes_on = same ∙ f.goes_on;
        still = f.still;
        quiet = f.quiet;
        taken_in =
            f.taken_in
            ∙ append-nil _
            ∙ ap (λ (s : Server K). K.contents s.tx) read
            ∙ contents-enqueue_all K (bytes incoming) s.tx ok;
        passed_on = f.passed_on ∙ ap (λ (s : Server K). K.contents s.rx) read;
        resp_full = f.resp_full ∙ ap (λ (s : Server K). take resp_size (K.contents s.rx)) read;
      }

  abbrev count : List (Incoming × Option ℕ) → ℕ
  count [] = 0
  count (r ∷ rs) = suc (count rs)

  -- All that the reads of some rounds bring.
  abbrev pub all_bytes : List (Incoming × Option ℕ) → List ℕ
  all_bytes [] = []
  all_bytes (r ∷ rs) = bytes r.0 ++ all_bytes rs

  -- While the connection stands and `write` takes whole responses, the network thread of a
  -- running server without messages goes on; every byte that it reads stands at the end of `tx`,
  -- in order; and it has sent the oldest bytes of `rx`, 256 for each round as long as there are so
  -- many, and left the others in their order. (Memory does not run out.)
  pub listen_run_forwards :
      (rounds : List (Incoming × Option ℕ)) (s : Server K)
      → Unfailing K
      → s.running ≡ true
      → s.debug ≡ false
      → All IsClean rounds
      → (s' : Server K) × (sent : List ℕ) × (listen_run K s rounds ≡ some (s', sent))
        × (K.contents s'.tx ≡ K.contents s.tx ++ all_bytes rounds)
        × (sent ≡ take (resp_size * count rounds) (K.contents s.rx))
        × (sent ++ K.contents s'.rx ≡ K.contents s.rx)
  unfolding listen_run
  listen_run_forwards [] s ok run quiet clean = (s, [], refl, sym (append-nil _), refl, refl)
  listen_run_forwards ((incoming, wrote) ∷ rounds) s ok run quiet clean =
      let (standing, whole) = clean.0 in
      let f = round-Forwarded s incoming ok run quiet standing in
      let (s', sent, runs, into, oldest, out) =
        listen_run_forwards rounds f.next ok f.still f.quiet clean.1 in
      (
        s',
        f.resp ++ sent,
        ground (arith, whole, f.goes_on, runs),
        into
            ∙ ap (λ l. l ++ all_bytes rounds) f.taken_in
            ∙ append_assoc (K.contents s.tx) (bytes incoming) (all_bytes rounds),
        ap₂ (λ a b. a ++ b) f.resp_full oldest
            ∙ take-more resp_size (resp_size * count rounds) f.resp (K.contents f.next.rx)
                (K.contents s.rx) f.resp_full f.passed_on
            ∙ ap (λ (n : ℕ). take n (K.contents s.rx)) (omega arith),
        append_assoc f.resp sent (K.contents s'.rx) ∙ ap (λ l. f.resp ++ l) out ∙ f.passed_on,
      )

  respond_overflow :
      (s : Server K) (wrote : Option ℕ) (xs : List ℕ)
      → s.debug ≡ true
      → K.contents s.rx ≡ xs
      → resp_size ≤ length xs
      → respond K s wrote ≡ overflowed
  unfolding respond send
  respond_overflow s wrote [] loud e h = absurd (omega arith)
  respond_overflow s wrote (x ∷ xs) loud e h =
      let z : (K.size_approx s.rx == 0) ≡ false = ==_of_ne _ _ (K.size_approx-cons s.rx x xs e) in
      let (got, left) = fill_resp_lem K resp_size s.rx (x ∷ xs) e in
      let whole : length (fill_resp K resp_size s.rx).0 ≡ resp_size =
        rw got (length-take_of_le resp_size (x ∷ xs) h) in
      rw (z, loud, whole) refl

  -- With messages on, a round of a running server that finds 256 bytes or more to send, on a
  -- connection that is not closed, ends its response one place behind the buffer, whatever the
  -- read brought and whatever `write` would do.
  pub listen_round_overflow :
      (s : Server K) (incoming : Incoming) (wrote : Option ℕ)
      → s.running ≡ true
      → s.debug ≡ true
      → incoming ≢ closed
      → resp_size ≤ length (K.contents s.rx)
      → listen_round K s incoming wrote ≡ overflowed
  listen_round_overflow s incoming wrote run loud standing h =
      let (s', same, read) = round_running s incoming wrote run standing in
      same
      ∙ respond_overflow s' wrote (K.contents s'.rx) (ap (λ (s : Server K). s.debug) read ∙ loud)
          refl (rw read h)
