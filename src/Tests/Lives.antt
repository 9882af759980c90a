-- ===== src/Tests/Lives.antt =====
-- The ends of a server of verilator_utils/Server.cpp, step by step.
use tinylabs_cores.Common.{ℕ, ◌≡◌, ◌⊎◌, refl, Bool, true, false, none, []}
use tinylabs_cores.Queue.{list_queue}
use tinylabs_cores.Server.{Server, nothing, listen_round}
use tinylabs_cores.Server.Life.{
  unborn, serving, gone, live, joining, deleted, State, at, Step, starts, begins, opens, accepts,
  stops, closes_serving, joins, Calm, Reach, made, followed,
}
use tinylabs_cores.Server.Life.Ends.{deleted-joined, joining-stops}

abbrev server : ℕ → Bool → Server list_queue
server port running = record {
  port = port;
  debug = false;
  running = running;
  rx = [];
  tx = [];
  period = 8;
}

-- `Listen` has returned.
abbrev left : State list_queue
left = at (server 7 false) gone joining true

-- A client has connected when the destructor is called.
serving_joining : Reach list_queue (at (server 7 false) serving joining true)
unfolding Calm
serving_joining =
    followed
      (followed
        (followed
          (followed (followed (made (server 0 false) refl) (starts (server 0 false) 7) tt)
            (begins (server 7 false) live false) tt)
          (opens (server 7 true) live false) tt)
        (accepts (server 7 true) live) tt)
      (closes_serving (server 7 true) refl) tt

pass_stops :
    Step list_queue
      (at (server 7 false) serving joining true)
      (at (server 7 false) gone joining true)
unfolding listen_round
pass_stops = stops (server 7 false) (server 7 false) joining true nothing none refl

over : Reach list_queue (at (server 7 false) gone deleted true)
unfolding Calm pass_stops
over = followed (followed serving_joining pass_stops tt) (joins (server 7 false) true) tt

deleted-joined_example : (gone ≡ unborn) ⊎ (gone ≡ gone)
deleted-joined_example = deleted-joined list_queue over

joining-stops_example :
    (left ≡ left)
    × Step list_queue
        (at (server 7 false) serving joining true)
        (at (server 7 false) gone joining true)
    × Step list_queue
        (at (server 7 false) gone joining true)
        (at (server 7 false) gone deleted true)
joining-stops_example = joining-stops list_queue serving_joining pass_stops
