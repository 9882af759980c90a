-- ===== src/Phy/Packet.antt =====
-- The packets of ahb3lite_remote_bridge2/bench/jtag_phy_tb.cpp: what a request word says and what
-- a response word is read as.
use native.Mathlib.Nat.{one-le-pow, mul-lt-mul_of_pos_right, mul-div_cancel}
use tinylabs_cores.Common.{
  Bool, true, every, at_every, ==_iff, ◌==◌, if◌then◌else◌, ap₂, ℕ, ◌+◌, ◌-◌, ◌*◌, ◌/◌, ◌%◌, ◌^◌,
  ◌≤◌, ◌<◌, ◌≡◌, refl, ap, ◌∙◌, bit_and, bit_or, arith, shr, u32, u64,
}
use tinylabs_cores.Common.Bits.{bit_and-mask, bit_or-fields, testbit-bit_or, testbit-ext}
use tinylabs_cores.Phy.{Words, request_words, response, dp_write_data, ap_write_data}

-- The number that three words hold.
abbrev pub value : Words → ℕ
value w = w.word0 + w.word1 * 2 ^ 32 + w.word2 * 2 ^ 64

bit_or_comm : (a b : ℕ) → bit_or a b ≡ bit_or b a
bit_or_comm a b =
    testbit-ext (bit_or a b) (bit_or b a)
      (λ j. omega (arith, testbit-bit_or j a b, testbit-bit_or j b a))

-- Fields put together from the lowest up.
pub bit_or_above : (k q r : ℕ) → r < 2 ^ k → bit_or r (q * 2 ^ k) ≡ q * 2 ^ k + r
bit_or_above k q r h = bit_or_comm r (q * 2 ^ k) ∙ bit_or-fields k q r h

-- A request holds its command in 3 bits, its length in 12 bits, and its data in 64 bits, in words
-- of 32 bits. (The command, length and data fit their fields.)
pub request_words_lem :
    (cmd len payload : ℕ)
    → cmd < 8
    → len < 2 ^ 12
    → payload < 2 ^ 64
    → (value (request_words cmd len payload) ≡ cmd + len * 2 ^ 3 + payload * 2 ^ 15)
      × ((request_words cmd len payload).word0 < 2 ^ 32)
      × ((request_words cmd len payload).word1 < 2 ^ 32)
      × ((request_words cmd len payload).word2 < 2 ^ 32)
unfolding request_words
request_words_lem cmd len payload hc hl hd =
    let m0 : bit_and cmd 7 ≡ cmd % 8 = bit_and-mask 3 cmd in
    let m1 : bit_and len 0xfff ≡ len % 2 ^ 12 = bit_and-mask 12 len in
    let m2 : bit_and payload 0x1ffff ≡ payload % 2 ^ 17 = bit_and-mask 17 payload in
    let m3 : bit_and (shr payload 17) 0xffffffff ≡ shr payload 17 % 2 ^ 32 =
      bit_and-mask 32 (shr payload 17) in
    let m4 : bit_and (shr payload 49) 0x7fff ≡ shr payload 49 % 2 ^ 15 =
      bit_and-mask 15 (shr payload 49) in
    let f1 = bit_or_above 3 (bit_and len 0xfff) (bit_and cmd 7) (omega arith) in
    let f2 =
      bit_or_above 15 (bit_and payload 0x1ffff) (bit_or (bit_and cmd 7) (bit_and len 0xfff * 2 ^ 3))
        (omega arith) in
    (omega arith, omega arith, omega arith, omega arith)

-- The two address bits of a register, in place.
abbrev address_test : ℕ → Bool
address_test addr = bit_and (shr addr 1) 6 == addr / 4 % 4 * 2

address_table : every address_test 256 ≡ true
unfolding every
address_table = refl

address_bits : (addr : ℕ) → addr < 256 → bit_and (shr addr 1) 6 ≡ addr / 4 % 4 * 2
address_bits addr h = (==_iff _ _).0 (at_every address_test 256 {i = addr} h address_table)

-- The data of a write to a DP register is the value above two address bits above a zero; that of a
-- write to an AP register is the same, but without the top three bits of the value. (An address
-- of 8 bits, a value of 32 bits.)
pub write_data_lem :
    (addr x : ℕ)
    → addr < 256
    → x < 2 ^ 32
    → (dp_write_data addr x ≡ x * 2 ^ 3 + addr / 4 % 4 * 2)
      × (ap_write_data addr x ≡ x % 2 ^ 29 * 2 ^ 3 + addr / 4 % 4 * 2)
unfolding dp_write_data ap_write_data
write_data_lem addr x ha hx =
    let r : ℕ = bit_and (shr addr 1) 6 in
    let er : r ≡ addr / 4 % 4 * 2 = address_bits addr ha in
    let wide : u64 (x * 2 ^ 3) ≡ x * 2 ^ 3 = omega arith in
    let narrow : u32 (x * 2 ^ 3) ≡ x % 2 ^ 29 * 2 ^ 3 = omega arith in
    (
      ap (λ (y : ℕ). bit_or y r) wide
          ∙ bit_or-fields 3 x r (omega arith)
          ∙ ap (λ (y : ℕ). x * 2 ^ 3 + y) er,
      ap (λ (y : ℕ). bit_or y r) narrow
          ∙ bit_or-fields 3 (x % 2 ^ 29) r (omega arith)
          ∙ ap (λ (y : ℕ). x % 2 ^ 29 * 2 ^ 3 + y) er,
    )

-- The fields of a response.
abbrev raw_len : Words → ℕ
raw_len w = let low = bit_and w.word0 0x3f in if low == 0 then 64 else low

abbrev raw_payload : Words → ℕ
raw_payload w =
    bit_or (bit_or (shr w.word0 6) (u64 (w.word1 * 2 ^ 26))) (bit_and w.word2 0x3f * 2 ^ 58)

raw_len_lem : (w : Words) (len : ℕ) → 0 < len → len ≤ 64 → w.word0 % 64 ≡ len % 64 → raw_len w ≡ len
raw_len_lem w len lo hi e = ground (arith, bit_and-mask 6 w.word0)

raw_payload_lem :
    (w : Words) → w.word0 < 2 ^ 32 → w.word1 < 2 ^ 32 → w.word2 < 64 → raw_payload w ≡ value w / 64
raw_payload_lem w h0 h1 h2 =
    let m : bit_and w.word2 0x3f ≡ w.word2 % 64 = bit_and-mask 6 w.word2 in
    let u : u64 (w.word1 * 2 ^ 26) ≡ w.word1 * 2 ^ 26 = omega arith in
    let f1 : bit_or (shr w.word0 6) (w.word1 * 2 ^ 26) ≡ w.word1 * 2 ^ 26 + shr w.word0 6 =
      bit_or_above 26 w.word1 (shr w.word0 6) (omega arith) in
    let low : ℕ = bit_or (shr w.word0 6) (u64 (w.word1 * 2 ^ 26)) in
    let el : low ≡ w.word1 * 2 ^ 26 + shr w.word0 6 =
      ap (λ (y : ℕ). bit_or (shr w.word0 6) y) u ∙ f1 in
    let f2 : bit_or low (bit_and w.word2 0x3f * 2 ^ 58) ≡ bit_and w.word2 0x3f * 2 ^ 58 + low =
      bit_or_above 58 (bit_and w.word2 0x3f) low (omega arith) in
    f2 ∙ omega arith

abbrev split_test : ℕ → Bool
split_test len = 2 ^ len * 2 ^ (64 - len) == 2 ^ 64

split_table : every split_test 65 ≡ true
unfolding every
split_table = refl

split_word : (len : ℕ) → len ≤ 64 → 2 ^ len * 2 ^ (64 - len) ≡ 2 ^ 64
split_word len h = (==_iff _ _).0 (at_every split_test 65 {i = len} (omega arith) split_table)

-- A value of up to 64 bits that three words hold left-justified in 64 bits, above its length in 6
-- bits (64 as 0), is read with its length.
pub response_lem :
    (w : Words) (len v : ℕ)
    → w.word0 < 2 ^ 32
    → w.word1 < 2 ^ 32
    → w.word2 < 2 ^ 32
    → 0 < len
    → len ≤ 64
    → v < 2 ^ len
    → value w ≡ len % 64 + v * 2 ^ (64 - len) * 2 ^ 6
    → response w ≡ record { len = len; payload = v }
unfolding response
response_lem w len v h0 h1 h2 lo hi hv e =
    let p : ℕ = 2 ^ (64 - len) in
    let pos : 0 < p = one-le-pow (64 - len) 2 (omega arith) in
    let whole : 2 ^ len * p ≡ 2 ^ 64 = split_word len hi in
    let small : v * p < 2 ^ len * p = mul-lt-mul_of_pos_right hv pos in
    let fits : v * p < 2 ^ 64 = omega (arith, small, whole) in
    let sum : value w ≡ len % 64 + v * p * 2 ^ 6 = e in
    let el : raw_len w ≡ len = raw_len_lem w len lo hi (omega (arith, sum)) in
    let ev : raw_payload w ≡ v * p =
      raw_payload_lem w h0 h1 (omega (arith, sum, fits)) ∙ omega (arith, sum) in
    ap₂ (λ (l y : ℕ). record { len = l; payload = y / 2 ^ (64 - l) }) el ev
    ∙ ap (λ (y : ℕ). record { len = len; payload = y }) (mul-div_cancel v pos)
