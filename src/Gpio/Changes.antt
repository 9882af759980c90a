-- ===== src/Gpio/Changes.antt =====
-- The batch of bytes for a set of pins, as a list, and what the whole batch does.
use native.Mathlib.Decide.{ℕ_discrete}
use tinylabs_cores.Common.{
  ℕ, zero, suc, ◌+◌, ◌^◌, ◌≤◌, ◌<◌, ◌≡◌, ◌≢◌, refl, sym, ap, ◌∙◌, Bool, false, some, List, [], ◌∷◌,
  ◌++◌, append_assoc, append-nil, ◌==◌, ==_of_ne, ltb, leb, ◌&&◌, if◌then◌else◌, arith, length,
  length-append, Bool-cases, inl, inr,
}
use tinylabs_cores.Common.Bits.{testbit, testbit-lt}
use tinylabs_cores.Queue.{ByteQueue, Unfailing, enqueue_ok}
use tinylabs_cores.Gpio.{command, flush, store, collect, client_read, enqueue_changes, server_read}
use tinylabs_cores.Gpio.Pins.{
  level, differs, set_pin, changed_pin_lem, apply_command_lem, command-ne-flush,
  testbit-set_pin_self, testbit-set_pin_ne, set_pin-lt,
}

-- The bytes for the pins that differ among the `n` from pin `i` on, lowest pin first.
pub changes : ℕ → ℕ → ℕ → ℕ → List ℕ
changes zero i out cached = []
changes (suc n) i out cached =
    if differs out cached i
    then command i (level out i) ∷ changes n (i + 1) out cached
    else changes n (i + 1) out cached

-- The pins that differ take the level of `out`.
pub update : ℕ → ℕ → ℕ → ℕ → ℕ → ℕ
update zero i out cached x = x
update (suc n) i out cached x =
    update n (i + 1) out cached (if differs out cached i then set_pin i (level out i) x else x)

pub length-changes : (n i out cached : ℕ) → length (changes n i out cached) ≤ n
unfolding changes
length-changes zero i out cached = omega arith
length-changes (suc n) i out cached = ground (arith, length-changes n (i + 1) out cached)

pub store_lem : (xs : List ℕ) (x : ℕ) → length xs < 65 → store xs x ≡ some (xs ++ (x ∷ []))
unfolding store
store_lem xs x h = ground arith

-- The client's loop stores the batch, within its buffer.
pub collect_lem :
    (n i out cached : ℕ) (xs : List ℕ)
    → i + n ≤ 31
    → length xs + n ≤ 65
    → collect n i out cached xs ≡ some (xs ++ changes n i out cached)
unfolding collect changes
collect_lem zero i out cached xs h room = rw append-nil
collect_lem (suc n) i out cached xs h room =
    let c : ℕ = command i (level out i) in
    elim (Bool-cases (differs out cached i)) [
      | inl new ↦
          rw (changed_pin_lem i out cached (omega arith), new, store_lem xs c (omega arith))
            (collect_lem n (i + 1) out cached (xs ++ (c ∷ [])) (omega arith)
                (omega (arith, length-append xs (c ∷ [])))
              ∙ ap some (append_assoc xs (c ∷ []) _))
      | inr same ↦
          rw (changed_pin_lem i out cached (omega arith), same)
            (collect_lem n (i + 1) out cached xs (omega arith) (omega arith))
    ]

-- The server's loop queues the same batch.
pub enqueue_changes_lem :
    (K : ByteQueue) (n i out cached : ℕ) (rx : K.Q)
    → Unfailing K
    → i + n ≤ 31
    → (rx' : K.Q) × (enqueue_changes K n i out cached rx ≡ some rx')
      × (K.contents rx' ≡ K.contents rx ++ changes n i out cached)
unfolding enqueue_changes changes
enqueue_changes_lem K zero i out cached rx ok h = (rx, refl, sym (append-nil _))
enqueue_changes_lem K (suc n) i out cached rx ok h =
    let c : ℕ = command i (level out i) in
    elim (Bool-cases (differs out cached i)) [
      | inl new ↦
          let (rx', run, got) =
            enqueue_changes_lem K n (i + 1) out cached (K.enqueue rx c).0 ok (omega arith) in
          (
            rx',
            rw (changed_pin_lem i out cached (omega arith), new) run,
            rw new (
                got
                ∙ ap (λ q. q ++ changes n (i + 1) out cached) (enqueue_ok K rx c ok)
                ∙ append_assoc (K.contents rx) (c ∷ []) _),
          )
      | inr same ↦
          let (rx', run, got) = enqueue_changes_lem K n (i + 1) out cached rx ok (omega arith) in
          (rx', rw (changed_pin_lem i out cached (omega arith), same) run, rw same got)
    ]

testbit-set_pin-level :
    (i x out : ℕ) → i < 31 → testbit (set_pin i (level out i) x) i ≡ testbit out i
testbit-set_pin-level i x out h = ground (
  arith,
  testbit-set_pin_self i x (level out i) h,
  testbit-lt i (set_pin i (level out i) x),
  testbit-lt i out,
)

-- Bit `j` after the batch for the `n` pins from `i` on.
abbrev pub updated : ℕ → ℕ → ℕ → ℕ → ℕ → ℕ → ℕ
updated n i out cached x j =
    if leb i j && (ltb j (i + n) && differs out cached j) then testbit out j else testbit x j

-- Pin by pin, a batch updates exactly the pins that differ.
pub testbit-update :
    (n i out cached x j : ℕ)
    → i + n ≤ 31
    → j < 64
    → testbit (update n i out cached x) j ≡ updated n i out cached x j
unfolding update
testbit-update zero i out cached x j h hj = ground arith
testbit-update (suc n) i out cached x j h hj =
    let x' : ℕ = if differs out cached i then set_pin i (level out i) x else x in
    testbit-update n (i + 1) out cached x' j (omega arith) hj ∙ elim (ℕ_discrete i j) [
      | yes here ↦ rw (← here) (ground (arith, testbit-set_pin-level i x out (omega arith)))
      | no there ↦ ground (arith, testbit-set_pin_ne i j x (level out i) (omega arith) hj there)
    ]

module _ (cnt i x : ℕ) (lvl : Bool) (hc : cnt ≤ 31) (h : i < cnt) where
  client_read-command :
      (rest : List ℕ)
      → client_read cnt (command i lvl ∷ rest) x ≡ client_read cnt rest (set_pin i lvl x)
  unfolding client_read
  client_read-command rest =
      ground (arith, command-ne-flush i lvl (omega arith), apply_command_lem cnt i x lvl hc h)

  server_read-command :
      (K : ByteQueue) (fuel : ℕ) (tx tx' : K.Q)
      → K.size_approx tx ≢ 0
      → K.try_dequeue tx ≡ some (command i lvl, tx')
      → server_read K (suc fuel) cnt tx x ≡ server_read K fuel cnt tx' (set_pin i lvl x)
  unfolding server_read
  server_read-command K fuel tx tx' size taken =
      let c : (command i lvl == flush) ≡ false = command-ne-flush i lvl (omega arith) in
      let a = apply_command_lem cnt i x lvl hc h in
      let z : (K.size_approx tx == 0) ≡ false = ==_of_ne _ _ size in ground (arith, z, taken, c, a)

-- The client's loop takes a batch up to the end mark, or to the last byte that has come.
pub client_read-changes :
    (cnt n i out cached x : ℕ) (rest : List ℕ)
    → cnt ≤ 31
    → i + n ≤ cnt
    → client_read cnt (changes n i out cached ++ rest) x
      ≡ client_read cnt rest (update n i out cached x)
unfolding changes update
client_read-changes cnt zero i out cached x rest hc h = refl
client_read-changes cnt (suc n) i out cached x rest hc h =
    elim (Bool-cases (differs out cached i)) [
      | inl new ↦ rw new (
          client_read-command cnt i x (level out i) hc (omega arith) _
          ∙ client_read-changes cnt n (i + 1) out cached (set_pin i (level out i) x) rest hc
              (omega arith))
      | inr same ↦ rw same (client_read-changes cnt n (i + 1) out cached x rest hc (omega arith))
    ]

-- The server's loop does, with one unit of fuel for each byte.
pub server_read-changes :
    (K : ByteQueue) (cnt n i out cached x fuel : ℕ) (rest : List ℕ) (tx : K.Q)
    → cnt ≤ 31
    → i + n ≤ cnt
    → K.contents tx ≡ changes n i out cached ++ rest
    → (tx' : K.Q) × (server_read K (length (changes n i out cached) + fuel) cnt tx x
        ≡ server_read K fuel cnt tx' (update n i out cached x))
      × (K.contents tx' ≡ rest)
unfolding changes update
server_read-changes K cnt zero i out cached x fuel rest tx hc h e =
    let none : 0 + fuel ≡ fuel = omega arith in (tx, rw none refl, e)
server_read-changes K cnt (suc n) i out cached x fuel rest tx hc h e =
    elim (Bool-cases (differs out cached i)) [
      | inl new ↦
          let more : List ℕ = changes n (i + 1) out cached in
          let e' : K.contents tx ≡ command i (level out i) ∷ (more ++ rest) = rw new at e in
          let (tx1, taken, left) = K.try_dequeue-cons tx _ _ e' in
          let (tx', run, end) =
            server_read-changes K cnt n (i + 1) out cached (set_pin i (level out i) x) fuel rest tx1
              hc (omega arith) left in
          let count : suc (length more) + fuel ≡ suc (length more + fuel) = omega arith in
          (
            tx',
            rw (new, count)
                (server_read-command cnt i x (level out i) hc (omega arith) K (length more + fuel)
                    tx tx1 (K.size_approx-cons tx _ _ e') taken
                  ∙ run),
            end,
          )
      | inr same ↦
          let (tx', run, end) =
            server_read-changes K cnt n (i + 1) out cached x fuel rest tx hc (omega arith)
              (rw same at e) in
          (tx', rw same run, end)
    ]

pub update-lt : (n i out cached x : ℕ) → i + n ≤ 31 → x < 2 ^ 64 → update n i out cached x < 2 ^ 64
unfolding update
update-lt zero i out cached x h hx = hx
update-lt (suc n) i out cached x h hx =
    update-lt n (i + 1) out cached _ (omega arith)
      (ground (arith, set_pin-lt i x (level out i) (omega arith) hx))
