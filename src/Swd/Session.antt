-- ===== src/Swd/Session.antt =====
-- What the main program of ahb3lite_remote_bridge2/bench/swd_phy_tb.cpp says on the wire, packet by
-- packet, and what it makes of the answers.
use tinylabs_cores.Common.{
  ℕ, ◌+◌, ◌-◌, ◌*◌, ◌/◌, ◌%◌, ◌^◌, List, [], ◌∷◌, ◌&&◌, ◌==◌, if◌then◌else◌,
}
use tinylabs_cores.Fifo.Served.{Target}
use tinylabs_cores.Phy.{Words}
use tinylabs_cores.Swd.{SwdResponse, swd_response}

-- A target that expects certain requests one after the other, each with its answers. It takes no
-- other request, and does not answer it.
unfoldable pub replay : Target (List (Words × List ℕ)) Words ℕ
replay w [] = ([], [])
replay w ((e, answers) ∷ rest) =
    if (w.word0 == e.word0) && (w.word1 == e.word1) && (w.word2 == e.word2)
    then (rest, answers)
    else ((e, answers) ∷ rest, [])

-- Bits on the wire: their number, the turnarounds, and the bits, the first one lowest.
abbrev wire : ℕ → ℕ → ℕ → ℕ → Words
wire len t0 t1 bits = record {
  word0 = bits % 2 ^ 32;
  word1 = bits / 2 ^ 32;
  word2 = len * 4096 + t0 * 64 + t1;
}

-- The request bytes of the serial wire debug protocol: 46 bits with turnarounds behind the byte and,
-- where the host writes, behind the acknowledge (bit 12) instead of the data (bit 45).
abbrev reading : ℕ → Words
reading request = wire 46 8 45 request

abbrev writing : ℕ → ℕ → ℕ → Words
writing request value parity = wire 46 8 12 (request + value * 2 ^ 9 + parity * 2 ^ 41)

-- The line reset, the switch from JTAG to SWD, and a line reset that ends in zeros; the
-- identification (A5), CTRL/STAT written (A9) and read (8D); SELECT written (B1), the register 12 of
-- the access port read (9F), and RDBUFF read (BD).
unfoldable pub exchange : ℕ → ℕ → ℕ → ℕ → ℕ → ℕ → List (Words × List ℕ)
exchange r1 r2 r3 r4 r5 r6 =
    (wire 60 0 0 (2 ^ 60 - 1), [])
    ∷ (wire 16 0 0 0xE79E, [])
    ∷ (wire 62 0 0 (2 ^ 54 - 1), [])
    ∷ (reading 0xA5, r1 ∷ [])
    ∷ (writing 0xA9 0x50000000 0, r2 ∷ [])
    ∷ (reading 0x8D, r3 ∷ [])
    ∷ (writing 0xB1 0xFC 0, r4 ∷ [])
    ∷ (reading 0x9F, r5 ∷ [])
    ∷ (reading 0xBD, r6 ∷ [])
    ∷ []

-- The responses that the bench reads.
abbrev pub heard : ℕ → ℕ → ℕ → List SwdResponse
heard r1 r2 r3 = swd_response r1 ∷ swd_response r2 ∷ swd_response r3 ∷ []
