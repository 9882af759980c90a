-- ===== src/Server/Life.antt =====
-- The life of a server of verilator_utils/Server.cpp: `Start`, the thread that runs `Listen`, and
-- the destructor, as steps of the two threads that share the server. Of the calls of the operating
-- system it is used that `accept` does not return a connection of a socket that has been shut down.
pub mod Ends
use tinylabs_cores.Common.{ℕ, ◌≡◌, ◌≢◌, Bool, true, false, Option, List}
use tinylabs_cores.Queue.{ByteQueue}
use tinylabs_cores.Server.{
  Server, Incoming, Round, stopped, restarted, continued, exited, listen_round,
}

-- Where the network thread is: not created; created, before it sets `running`; before `listen`
-- returns; at `accept`; in the loop; and past the end of `Listen`.
pub data Network : Type 0 where
  unborn : Network
  spawned : Network
  opening : Network
  waiting : Network
  serving : Network
  gone : Network

-- Where the thread that owns the server is: before the destructor, in its `pthread_join`, after it.
pub data Owner : Type 0 where
  live : Owner
  joining : Owner
  deleted : Owner

module _ (K : ByteQueue) where
  -- The server, the two threads, and whether the listening socket has been shut down; or the
  -- program has ended by `fail`; or `Start` has been called twice, so that two threads run `Listen`
  -- on the server, of which the destructor knows the second one only.
  pub data State : Type 0 where
    at : Server K → Network → Owner → Bool → State
    doubled : Server K → Network → Bool → State
    ended : State

  abbrev pub set_running : Bool → Server K → Server K
  set_running on s = record s { running = on }

  pub data Step : State → State → Type 0 where
    -- `Start`: `pthread_create` makes the thread, or fails.
    starts :
        (s : Server K) (port : ℕ)
        → Step (at s unborn live false) (at (record s { port = port }) spawned live false)
    start_fails : (s : Server K) → Step (at s unborn live false) ended
    -- `Start` once more, for which there is no guard.
    starts_again :
        (s : Server K) (port : ℕ) (network : Network) (shut : Bool)
        → network ≢ unborn
        → Step (at s network live shut) (doubled (record s { port = port }) network shut)
    -- `Listen`, up to `accept`: each call before `listen` succeeds, or one fails.
    begins :
        (s : Server K) (owner : Owner) (shut : Bool)
        → Step (at s spawned owner shut) (at (set_running true s) opening owner shut)
    opens :
        (s : Server K) (owner : Owner) (shut : Bool)
        → Step (at s opening owner shut) (at s waiting owner shut)
    open_fails : (s : Server K) (owner : Owner) (shut : Bool) → Step (at s opening owner shut) ended
    -- `accept`
    accepts :
        (s : Server K) (owner : Owner) → Step (at s waiting owner false) (at s serving owner false)
    accept_fails :
        (s : Server K) (owner : Owner) (shut : Bool) → Step (at s waiting owner shut) ended
    -- A pass of the loop.
    goes_on :
        (s s' : Server K) (owner : Owner) (shut : Bool) (incoming : Incoming) (wrote : Option ℕ)
        (resp sent : List ℕ)
        → listen_round K s incoming wrote ≡ continued s' resp sent
        → Step (at s serving owner shut) (at s' serving owner shut)
    restarts :
        (s s' : Server K) (owner : Owner) (shut : Bool) (incoming : Incoming) (wrote : Option ℕ)
        → listen_round K s incoming wrote ≡ restarted s'
        → Step (at s serving owner shut) (at s' waiting owner shut)
    stops :
        (s s' : Server K) (owner : Owner) (shut : Bool) (incoming : Incoming) (wrote : Option ℕ)
        → listen_round K s incoming wrote ≡ stopped s'
        → Step (at s serving owner shut) (at s' gone owner shut)
    send_fails :
        (s : Server K) (owner : Owner) (shut : Bool) (incoming : Incoming) (wrote : Option ℕ)
        → listen_round K s incoming wrote ≡ exited
        → Step (at s serving owner shut) ended
    -- `~Server`, where `running` is set: before the socket listens, its shutdown is without effect.
    closes_early :
        (s : Server K)
        → s.running ≡ true
        → Step (at s opening live false) (at (set_running false s) opening joining false)
    closes_waiting :
        (s : Server K)
        → s.running ≡ true
        → Step (at s waiting live false) (at (set_running false s) waiting joining true)
    closes_serving :
        (s : Server K)
        → s.running ≡ true
        → Step (at s serving live false) (at (set_running false s) serving joining true)
    joins : (s : Server K) (shut : Bool) → Step (at s gone joining shut) (at s gone deleted shut)
    -- `~Server`, where `running` is not set.
    leaves :
        (s : Server K) (network : Network)
        → s.running ≡ false
        → Step (at s network live false) (at s network deleted false)

  -- `Start` is called once at most, and the destructor is not called after it and before the thread
  -- has set `running`.
  unfoldable pub Calm : {a b : State} → Step a b → Type 0
  Calm (leaves s spawned e) = ⊥
  Calm (starts_again s port network shut other) = ⊥
  Calm _ = Unit

  -- What such steps lead to from a server that is not running.
  pub data Reach : State → Type 0 where
    made : (s : Server K) → s.running ≡ false → Reach (at s unborn live false)
    followed : {a b : State} → Reach a → (st : Step a b) → Calm st → Reach b
