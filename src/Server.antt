-- ===== src/Server.antt =====
-- The base class of the TCP servers (verilator_utils/Server.cpp and Server.h): what a server and
-- its network thread share, and the loop of that thread. The socket, the thread id and the name
-- are handles of the operating system and text for messages; nothing below computes with them.
pub mod Listen
pub mod Life
use mathlib.Core.Option
use tinylabs_cores.Common.{
  ℕ, zero, suc, Bool, not, ◌&&◌, Option, none, some, List, [], ◌∷◌, ◌++◌, ◌==◌, if◌then◌else◌,
  length, take,
}
use tinylabs_cores.Queue.{ByteQueue}

pub record Server (K : ByteQueue) : Type 0 where
  pub port : ℕ
  pub debug : Bool
  pub running : Bool
  pub rx : K.Q
  pub tx : K.Q
  pub period : ℕ

-- What `read` on the socket brings: the end of the connection, nothing yet, or some bytes (at most
-- 255, the size of `cmd` less one).
pub data Incoming : Type 0 where
  closed : Incoming
  nothing : Incoming
  received : List ℕ → Incoming

-- `sizeof (resp)`
abbrev pub resp_size : ℕ
resp_size = 256

module _ (K : ByteQueue) where
  open K use {Q, enqueue, try_dequeue, size_approx}

  -- One round of the loop of `Listen`: the loop has stopped; it is back at `accept`; it goes on,
  -- having handed the response `resp` to `write` and having sent a part of it; `fail` has ended the
  -- program; or `Send` has written behind `resp`.
  pub data Round : Type 0 where
    stopped : Server K → Round
    restarted : Server K → Round
    continued : Server K → List ℕ → List ℕ → Round
    exited : Round
    overflowed : Round

  -- `for (i = 0; i < n; i++) tx.enqueue (cmd[i])`
  unfoldable pub enqueue_all : List ℕ → Q → Q
  enqueue_all [] q = q
  enqueue_all (b ∷ bs) q = enqueue_all bs (enqueue q b).0

  -- `for (i = 0; (i < sizeof (resp)) && rx.try_dequeue (val); i++) resp[i] = val;`, with `n`
  -- places left.
  unfoldable pub fill_resp : ℕ → Q → List ℕ × Q
  fill_resp zero q = ([], q)
  fill_resp (suc n) q = elim (try_dequeue q) [
    | none ↦ ([], q)
    | some (val, q') ↦ let (resp, left) = fill_resp n q' in (val ∷ resp, left)
  ]

  -- `Send`: for messages it ends the text at `buf[len]`. `write` fails, or takes some of the bytes.
  unfoldable pub send : Server K → List ℕ → Option ℕ → Round
  send s resp wrote =
      if s.debug && (length resp == resp_size)
      then overflowed
      else elim wrote [ none ↦ exited | some n ↦ continued s resp (take n resp) ]

  -- The part of a round that follows the read.
  unfoldable pub respond : Server K → Option ℕ → Round
  respond s wrote =
      if size_approx s.rx == 0
      then continued s [] []
      else let (resp, rx') = fill_resp resp_size s.rx in send (record s { rx = rx' }) resp wrote

  unfoldable pub listen_round : Server K → Incoming → Option ℕ → Round
  listen_round s incoming wrote = if not s.running then stopped s else elim incoming [
    | closed ↦ restarted s
    | nothing ↦ respond s wrote
    | received bs ↦ respond (record s { tx = enqueue_all bs s.tx }) wrote
  ]

  -- The rounds of one connection: the server and all that was sent, if the loop goes on to the end.
  unfoldable pub listen_run : Server K → List (Incoming × Option ℕ) → Option (Server K × List ℕ)
  listen_run s [] = some (s, [])
  listen_run s ((incoming, wrote) ∷ rounds) = elim (listen_round s incoming wrote) [
    | continued s' resp sent ↦ Option.map (λ r. (r.0, sent ++ r.1)) (listen_run s' rounds)
    | _ ↦ none
  ]
