-- ===== src/Tests/Packets.antt =====
-- Concrete packets of the benches of the debug bridge
-- (ahb3lite_remote_bridge2/bench/jtag_phy_tb.cpp and swd_phy_tb.cpp).
use tinylabs_cores.Common.{zero, suc, ℕ, ◌+◌, ◌*◌, ◌%◌, ◌^◌, ◌<◌, ◌≡◌, refl, ◌-◌, true, some, arith}
use tinylabs_cores.Common.Bits.{testbit}
use tinylabs_cores.Phy.{Words, request_words, response, dp_write_data, ap_write_data}
use tinylabs_cores.Phy.Packet.{value, request_words_lem, response_lem, write_data_lem}
use tinylabs_cores.Phy.Search.{found_devices, found_ir_len, found_lem}
use tinylabs_cores.Swd.{reverse_bits, reg_read, reg_write}
use tinylabs_cores.Swd.Packet.{ones, header_fields, reg_write_lem}
use tinylabs_cores.Swd.Mirror.{reverse_bits_lem}

request_words_lem_example :
    (value (request_words 1 35 0x123456789) ≡ 1 + 35 * 2 ^ 3 + 0x123456789 * 2 ^ 15)
    × ((request_words 1 35 0x123456789).word0 < 2 ^ 32)
    × ((request_words 1 35 0x123456789).word1 < 2 ^ 32)
    × ((request_words 1 35 0x123456789).word2 < 2 ^ 32)
request_words_lem_example =
    request_words_lem 1 35 0x123456789 (omega arith) (omega arith) (omega arith)

-- The value 5, of 3 bits.
abbrev three_bits : Words
three_bits = record { word0 = 3; word1 = 0; word2 = 40 }

response_lem_example : response three_bits ≡ record { len = 3; payload = 5 }
response_lem_example =
    response_lem three_bits 3 5 (omega arith) (omega arith) (omega arith) (omega arith)
      (omega arith) (omega arith) refl

-- The first value that the bench writes to an AP loses its top bits.
write_data_lem_example :
    (dp_write_data 4 0xA2000002 ≡ 0xA2000002 * 2 ^ 3 + 2)
    × (ap_write_data 4 0xA2000002 ≡ 0x2000002 * 2 ^ 3 + 2)
write_data_lem_example = write_data_lem 4 0xA2000002 (omega arith) (omega arith)

reg_write_lem_example :
    (reg_write 32 true 12 7 ≡ some (header_fields 0 true 12 + 7 * 2 ^ 9 + ones 32 7 % 2 * 2 ^ 41))
    × (reg_read true 12 ≡ header_fields 1 true 12)
reg_write_lem_example = reg_write_lem true 12 7 (omega arith) (omega arith)

reverse_bits_lem_example : testbit (reverse_bits 0x80) 24 ≡ testbit 0x80 (31 - 24)
reverse_bits_lem_example = reverse_bits_lem 0x80 24 (omega arith)

-- Two devices, or three instruction bits.
clear_below : (i : ℕ) → i < 2 → testbit 12 i ≡ 0
clear_below zero h = refl
clear_below (suc zero) h = refl
clear_below (suc (suc i)) h = absurd (omega arith)

found_lem_example :
    (found_devices (λ w. 12) ≡ some (some 2)) × (found_ir_len (λ w. 12) ≡ some (some (2 + 1)))
found_lem_example = found_lem 2 (λ w. 12) (λ w. 12) (omega arith) clear_below refl clear_below refl
