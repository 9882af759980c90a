-- ===== src/Tests/Clients.antt =====
-- Clients of verilator_utils that start twice.
use tinylabs_cores.Common.{ℕ, List, [], ◌∷◌}
use tinylabs_cores.Client.{new_client, jtag_start, gpio_start}
use tinylabs_cores.Client.Life.{Closes, clients_close}

-- On port 2345 with descriptor 4, then on port 2346 with descriptor 5.
abbrev twice : List (ℕ × ℕ)
twice = (2345, 4) ∷ (2346, 5) ∷ []

clients_close_example :
    Closes jtag_start (new_client 1) twice × Closes gpio_start (new_client 1) twice
clients_close_example = clients_close 1 twice
