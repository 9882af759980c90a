-- ===== src/Tests/Powered.antt =====
-- A whole run of ahb3lite_remote_bridge2/bench/swd_adiv5_tb.cpp, on a design that serves a target.
use tinylabs_cores.Common.{ℕ, true, false, Option, none, some, List, [], ◌∷◌}
use tinylabs_cores.Queue.{list_queue}
use tinylabs_cores.Rig
use tinylabs_cores.Rig.{World, Rig}
use tinylabs_cores.Rig.Launch.{Host, new_services, new_rig, configured}
use tinylabs_cores.Sim.{Services}
use tinylabs_cores.Sim.Options.{
  Parsed, opt_timeout, serve, gpio_server, parse_all, Settings, default_settings,
}
use tinylabs_cores.Tests.Ends.{clock_at}
use tinylabs_cores.Tests.Device.{Device, idle_top, rig}

-- A host whose numbers are their own text, and whose memory is zero.
abbrev pub host : Host list_queue
host = record {
  unset = record { dumping = false; running = λ s. false; port = λ s. 0; outputs = λ s. 0 };
  empty = [];
  Text = ℕ;
  strtol = λ n. n;
  atoi = λ n. n;
  fst_default_name = 0;
  starts = λ s port. true;
  blank = λ name. false;
}

-- `--timeout 0 --gpio-server=9000`
abbrev pub options : List (Parsed ℕ)
options = opt_timeout 0 ∷ serve gpio_server (some 9000) ∷ []

abbrev new_top : Device
new_top = record (idle_top (7, 0) [] 0 0 0) { enable = false }

abbrev pub settings : Settings ℕ
settings = (parse_all ℕ (λ n. n) (λ n. n) options (default_settings 0)).0

abbrev start : Rig list_queue Device
start = configured list_queue host settings (new_rig list_queue host new_top)

abbrev pub services : Services list_queue
services = record (new_services list_queue host) { gpio_server_enable = true }

abbrev awake : Rig list_queue Device
awake = rig (clock_at 40 0) services (record (idle_top (7, 0) [] 0 0 1) { enable = false })

abbrev enabled : Rig list_queue Device
enabled = rig (clock_at 42 0) services (idle_top (7, 0) [] 0 0 1)

of_run : Option (Unit {0} × Rig list_queue Device) → Rig list_queue Device
of_run none = start
of_run (some (_, b)) = b

of_cycle : Option (Rig list_queue Device) → Rig list_queue Device
of_cycle none = start
of_cycle (some b) = b
