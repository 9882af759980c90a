-- ===== src/Tests/Intercon.antt =====
-- Four passes of the main loop of the interconnect test, on utilities that count by one.
use tinylabs_cores.Common.{ℕ, ◌+◌, ◌≡◌, refl, true, false, arith}
use tinylabs_cores.Intercon.{Utils, Top, low_top, run}
use tinylabs_cores.Intercon.Loop.{Behaves, main_levels}

abbrev counting : Utils
counting = record { State = ℕ; do_cycle = λ t. (t + 1, true); get_time = λ t. t }

-- A design that counts its evaluations.
abbrev counts : Top ℕ → Top ℕ
counts top = record top { inside = top.inside + 1 }

behaves : Behaves counting counts
behaves = record { goes_up = λ t. omega arith; keeps_clk = λ top. refl; keeps_reset = λ top. refl }

abbrev first_top : Top ℕ
first_top = record { inside = 0; clk = true; reset = 1 }

main_levels_example :
    (top' : Top ℕ) × (run counting counts 4 (λ t. false) 0 (low_top first_top) ≡ (4, top', false))
    × (top'.reset ≡ 1)
    × (top'.clk ≡ false)
main_levels_example =
    main_levels counting counts behaves 4 (λ t. false) 0 first_top (omega arith)
      (refl, refl, (refl, refl, (refl, refl, (refl, refl, tt))))
