-- ===== src/Tests/Timeout.antt =====
-- The program of cm3_min_soc/bench/verilator/tb.cpp under
-- `--timeout 9 --elf-load 1 -j --timeout 3 -f`.
use tinylabs_cores.Common.{ℕ, ◌≤◌, ◌≡◌, refl, Option, true, none, some, [], ◌∷◌, ◌++◌, arith}
use tinylabs_cores.Queue.{list_queue}
use tinylabs_cores.Sim.Options.{opt_timeout, opt_elfload, serve, jtag_server, fst}
use tinylabs_cores.Soc
use tinylabs_cores.Soc.{Soc, program}
use tinylabs_cores.Soc.Timeout.{program-ends}
use tinylabs_cores.Tests.Ends.{plain, soc_top}
use tinylabs_cores.Tests.Powered.{host}

-- A loader of programs that fit.
abbrev loader : ℕ → Soc.Top (Unit {0}) → Option (Soc.Top (Unit {0}))
loader name top = some top

program-ends_example :
    (s' : Soc list_queue (Unit {0})) × (program list_queue
        (Unit {0})
        host
        loader
        loader
        4
        ((opt_timeout 9 ∷ opt_elfload 1 ∷ serve jtag_server none ∷ [])
          ++ (opt_timeout 3 ∷ fst none ∷ []))
        plain
        soc_top
      ≡ some (true, s'))
    × (s'.clock.t ≤ 3)
program-ends_example =
    program-ends list_queue host loader loader plain 4
      (opt_timeout 9 ∷ opt_elfload 1 ∷ serve jtag_server none ∷ []) (fst none ∷ []) 3 soc_top
      (λ t services off. off) (tt, ((λ top. (top, refl)), ((λ port. refl), (tt, (tt, tt)))))
      (tt, tt) (omega arith) (omega arith) (omega arith)
