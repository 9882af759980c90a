-- ===== src/Tests/Wires.antt =====
-- A session of ahb3lite_remote_bridge2/bench/swd_phy_tb.cpp with a target that reads 1 everywhere.
use tinylabs_cores.Common.{ℕ, ◌+◌, ◌^◌, List}
use tinylabs_cores.Phy.{Words}
use tinylabs_cores.Swd.{SwdResponse}
use tinylabs_cores.Swd.Session.{exchange}

-- 36 bits with the acknowledge OK, the value 1 (on the wire its lowest bit first) and its parity; and
-- an acknowledge alone.
abbrev of_read : ℕ
of_read = 36 + 2 ^ 6 + 2 ^ 38 + 2 ^ 39

abbrev of_write : ℕ
of_write = 3 + 2 ^ 6

abbrev read_as : SwdResponse
read_as = record { len = 36; code = 1; payload = 1; parity = 1 }

abbrev written_as : SwdResponse
written_as = record { len = 3; code = 1; payload = 0; parity = 0 }

abbrev no_words : Words
no_words = record { word0 = 0; word1 = 0; word2 = 0 }

abbrev expected : List (Words × List ℕ)
expected = exchange of_read of_write of_read of_write of_read of_read
