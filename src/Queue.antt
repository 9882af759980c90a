-- ===== src/Queue.antt =====
-- `mc::ReaderWriterQueue<uint8_t>`, the single-producer single-consumer queue that the servers
-- call (a copy of another project's header, verilator_utils/readerwriterqueue.h): its operations
-- and the behaviour that its comments document, as an interface. `contents` lists what is queued,
-- oldest first.
use tinylabs_cores.Common.{
  ℕ, ◌≡◌, ◌≢◌, refl, Bool, true, Option, none, some, List, [], ◌∷◌, ◌++◌, arith, length,
  if◌then◌else◌,
}

pub record ByteQueue : Type 1 where
  pub Q : Type 0
  pub contents : Q → List ℕ
  pub enqueue : Q → ℕ → Q × Bool
  pub try_dequeue : Q → Option (ℕ × Q)
  pub size_approx : Q → ℕ
  -- `enqueue` appends a copy and returns true, or (out of memory) returns false.
  pub contents-enqueue :
      (q : Q) (x : ℕ)
      → contents (enqueue q x).0 ≡ (if (enqueue q x).1 then contents q ++ (x ∷ []) else contents q)
  -- `try_dequeue` fails on an empty queue only, and otherwise moves the front out.
  pub try_dequeue-nil : (q : Q) → contents q ≡ [] → try_dequeue q ≡ none
  pub try_dequeue-cons :
      (q : Q) (x : ℕ) (xs : List ℕ)
      → contents q ≡ x ∷ xs
      → (r : Q) × (try_dequeue q ≡ some (x, r)) × (contents r ≡ xs)
  -- `size_approx` is zero exactly where nothing is queued.
  pub size_approx-nil : (q : Q) → contents q ≡ [] → size_approx q ≡ 0
  pub size_approx-cons : (q : Q) (x : ℕ) (xs : List ℕ) → contents q ≡ x ∷ xs → size_approx q ≢ 0

-- Memory never runs out.
abbrev pub Unfailing : ByteQueue → Type 0
Unfailing K = (q : K.Q) (x : ℕ) → (K.enqueue q x).1 ≡ true

module _ (K : ByteQueue) where
  pub enqueue_ok :
      (q : K.Q) (x : ℕ) → Unfailing K → K.contents (K.enqueue q x).0 ≡ K.contents q ++ (x ∷ [])
  enqueue_ok q x ok = rw (K.contents-enqueue q x, ok q x)

  dequeued_cons :
      (q q' : K.Q) (x : ℕ) (xs : List ℕ)
      → K.contents q ≡ xs
      → K.try_dequeue q ≡ some (x, q')
      → K.contents q ≡ x ∷ K.contents q'
  dequeued_cons q q' x [] e taken = ground (arith, K.try_dequeue-nil q e)
  dequeued_cons q q' x (y ∷ ys) e taken =
      let (r, got, left) = K.try_dequeue-cons q y ys e in ground (arith, e, got, taken, left)

  -- What `try_dequeue` takes is the front.
  pub dequeued :
      (q q' : K.Q) (x : ℕ) → K.try_dequeue q ≡ some (x, q') → K.contents q ≡ x ∷ K.contents q'
  dequeued q q' x taken = dequeued_cons q q' x (K.contents q) refl taken

-- A list, which grows without bound, is such a queue.
abbrev pub list_dequeue : List ℕ → Option (ℕ × List ℕ)
list_dequeue [] = none
list_dequeue (x ∷ xs) = some (x, xs)

pub list_dequeue-nil : (q : List ℕ) → q ≡ [] → list_dequeue q ≡ none
list_dequeue-nil q e = rw e

pub list_dequeue-cons :
    (q : List ℕ) (x : ℕ) (xs : List ℕ)
    → q ≡ x ∷ xs
    → (r : List ℕ) × (list_dequeue q ≡ some (x, r)) × (r ≡ xs)
list_dequeue-cons q x xs e = (xs, rw e, refl)

pub length-cons-ne : (q : List ℕ) (x : ℕ) (xs : List ℕ) → q ≡ x ∷ xs → length q ≢ 0
length-cons-ne q x xs e = rw e (omega arith)

abbrev pub list_queue : ByteQueue
list_queue = record {
  Q = List ℕ;
  contents = λ q. q;
  enqueue = λ q x. (q ++ (x ∷ []), true);
  try_dequeue = list_dequeue;
  size_approx = length;
  contents-enqueue = λ q x. refl;
  try_dequeue-nil = list_dequeue-nil;
  try_dequeue-cons = list_dequeue-cons;
  size_approx-nil = λ q e. rw e;
  size_approx-cons = length-cons-ne;
}

pub list_queue-Unfailing : Unfailing list_queue
list_queue-Unfailing q x = refl
