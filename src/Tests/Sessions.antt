-- ===== src/Tests/Sessions.antt =====
-- The sessions of the ADIv5 benches of ahb3lite_remote_bridge2/bench over a target of each kind.
use tinylabs_cores.Common.{
  ℕ, ◌*◌, ◌+◌, ◌^◌, ◌≡◌, refl, true, false, some, [], ◌==◌, if◌then◌else◌, if-both, ◌%◌, ◌<◌, arith,
}
use tinylabs_cores.Fifo.Served.{Target}
use tinylabs_cores.Adiv5.{Report, request_word, status, result, ap_read, ap_write}
use tinylabs_cores.Adiv5.Registers.{Registers, port, halted, wanted}
use tinylabs_cores.Adiv5.Port.{access, ap_read-port, ap_write-port}
use tinylabs_cores.Adiv5.Words.{request_word_lem}
use tinylabs_cores.Tests.Bench.{Served}

-- A device with an identification and a status, and an access port that has an identification and a
-- base and keeps the last word that is written to its register 12.
abbrev pub registers : Registers ℕ
registers = record {
  read_dp = λ bank addr t. if addr == 0 then 0x2ba01477 else 0xf0000000;
  write_dp = λ addr x t. t;
  read_ap = λ apsel addr t.
      (if addr == 0xfc then 0x24770011 else if addr == 0xf8 then 0xe00ff003 else t % 2 ^ 32, t);
  write_ap = λ apsel addr x t. if addr == 12 then x else t;
  read_dp_bound =
      λ bank addr t. if-both (λ x. x < 2 ^ 32) (addr == 0) _ _ (omega arith) (omega arith);
  read_ap_bound = λ apsel addr t.
      if-both (λ x. x < 2 ^ 32) (addr == 0xfc) _ _ (omega arith)
        (if-both (λ x. x < 2 ^ 32) (addr == 0xf8) _ _ (omega arith) (omega arith));
}

-- The state of its debug port, with SELECT.
abbrev pub Kept : Type 0
Kept = ℕ × ℕ

abbrev pub memory : Target Kept ℕ ℕ
memory = port registers

abbrev pub report : Report
report = record {
  idcode = 0x2ba01477;
  ctrl_stat = 0xf0000000;
  idr = 0x24770011;
  base = 0xe00ff003;
  ram_ok = true;
}

pub wanted-registers : (t : ℕ) (sel : ℕ) → wanted registers 1 sel t ≡ some (report, 0xdeadc0de)
unfolding wanted halted
wanted-registers t sel = refl

ap_read-port_example :
    ap_read (access registers) 0 0xf8 ((7, 0), []) ≡ some (0xe00ff003, ((7, 0xf8), []))
ap_read-port_example = ap_read-port registers 0 0xf8 7 0 (omega arith) (omega arith, refl)

ap_write-port_example :
    ap_write (access registers) 3 12 99 ((7, 0), []) ≡ some (tt, ((99, 3 * 2 ^ 24 + 12), []))
ap_write-port_example =
    ap_write-port registers 3 12 99 7 0 (omega arith) (omega arith, refl) (omega arith)

request_word_lem_example :
    (request_word 3 true false 5 ≡ 5 * 16 + 3 * 4 + 1 * 2 + 0)
    × (status (9 * 8 + 4) ≡ 4)
    × (result (9 * 8 + 4) ≡ 9)
request_word_lem_example =
    request_word_lem 3 5 true false 4 9 (omega arith) (omega arith) (omega arith)
