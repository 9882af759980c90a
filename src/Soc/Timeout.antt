-- ===== src/Soc/Timeout.antt =====
-- The program of cm3_min_soc/bench/verilator/tb.cpp under `--timeout`.
use tinylabs_cores.Common.{
  ℕ, ◌≤◌, ◌<◌, ◌^◌, ◌≡◌, ◌≢◌, refl, sym, ap, ◌∙◌, true, false, Option, none, some, List, [], ◌∷◌,
  ◌++◌, All, arith,
}
use tinylabs_cores.Queue.{ByteQueue}
use tinylabs_cores.Sim.{new_clock}
use tinylabs_cores.Sim.Options.{
  Service, jtag_server, uart_server, jtag_client, gpio_server, gpio_client, Act, load_elf, load_bin,
  start, same_service, Parsed, opt_timeout, opt_elfload, opt_binload, fststart, fststop, fst, serve,
  other, Settings, default_settings, parse_opts, parse_all,
}
use tinylabs_cores.Rig.{Rig}
use tinylabs_cores.Rig.Launch.{Host, new_rig, configured, perform, parse_args}
use tinylabs_cores.Soc.{Top, Outside, Soc, run, prepared, program}
use tinylabs_cores.Soc.Loop.{KeepOff, soc_run-ends}

-- Any option but `--timeout`.
abbrev pub IsOther : {Text : Type 0} → Parsed Text → Type 0
IsOther (opt_timeout arg) = ⊥
IsOther _ = Unit

module _ {Text : Type 0} (strtol atoi : Text → ℕ) where
  abbrev timeout_of : List (Parsed Text) → Settings Text → ℕ
  timeout_of os u = (parse_all Text strtol atoi os u).0.timeout

  option-timeout :
      (o : Parsed Text) (u : Settings Text)
      → IsOther o
      → (parse_opts Text strtol atoi o u).0.timeout ≡ u.timeout
  unfolding parse_opts
  option-timeout (opt_timeout arg) u h = absurd h
  option-timeout (opt_elfload arg) u h = refl
  option-timeout (opt_binload arg) u h = refl
  option-timeout (fst arg) u h = refl
  option-timeout (fststart arg) u h = refl
  option-timeout (fststop arg) u h = refl
  option-timeout (serve s arg) u h = refl
  option-timeout other u h = refl

  others-timeout :
      (os : List (Parsed Text)) (u : Settings Text) → All IsOther os → timeout_of os u ≡ u.timeout
  unfolding parse_all
  others-timeout [] u h = refl
  others-timeout (o ∷ os) u h =
      others-timeout os (parse_opts Text strtol atoi o u).0 h.1 ∙ option-timeout o u h.0

  -- The last `--timeout` counts.
  last-timeout :
      (before after : List (Parsed Text)) (arg : Text) (u : Settings Text)
      → All IsOther after
      → timeout_of (before ++ (opt_timeout arg ∷ after)) u ≡ strtol arg
  unfolding parse_all parse_opts
  last-timeout [] after arg u h = others-timeout after (record u { timeout = strtol arg }) h
  last-timeout (o ∷ before) after arg u h =
      last-timeout before after arg (parse_opts Text strtol atoi o u).0 h

module _ (K : ByteQueue) {Inside : Type 0} (host : Host K)
    (elf bin : host.Text → Top Inside → Option (Top Inside)) where
  open host use {Text, strtol, atoi, fst_default_name, starts}

  -- A program that is loaded fits into the memory, a service that is started comes up, and it is not
  -- the GPIO server.
  abbrev pub IsFine : Parsed Text → Type 0
  IsFine (opt_elfload arg) = (top : Top Inside) → (top' : Top Inside) × (elf arg top ≡ some top')
  IsFine (opt_binload arg) = (top : Top Inside) → (top' : Top Inside) × (bin arg top ≡ some top')
  IsFine (serve gpio_server arg) = ⊥
  IsFine (serve s arg) = (port : ℕ) → starts s port ≡ true
  IsFine _ = Unit

  abbrev performed : List (Act Text) → Top Inside → Option (Top Inside)
  performed = perform K host elf bin

  -- The acts come to an end.
  abbrev Ends : List (Act Text) → Type 0
  Ends acts = (top : Top Inside) → (top' : Top Inside) × (performed acts top ≡ some top')

  started :
      (s : Service) (port : ℕ) (acts : List (Act Text))
      → starts s port ≡ true
      → Ends acts
      → Ends (start s port ∷ acts)
  unfolding perform
  started s port acts up rest top = let (top', e) = rest top in (top', rw (up, perform) e)

  loaded_elf :
      (name : Text) (acts : List (Act Text))
      → IsFine (opt_elfload name)
      → Ends acts
      → Ends (load_elf name ∷ acts)
  unfolding perform
  loaded_elf name acts fine rest top =
      let (top1, e1) = fine top in let (top2, e2) = rest top1 in (top2, rw (e1, perform) e2)

  loaded_bin :
      (name : Text) (acts : List (Act Text))
      → IsFine (opt_binload name)
      → Ends acts
      → Ends (load_bin name ∷ acts)
  unfolding perform
  loaded_bin name acts fine rest top =
      let (top1, e1) = fine top in let (top2, e2) = rest top1 in (top2, rw (e1, perform) e2)

  -- The acts of such options come to an end, and leave the GPIO server off.
  line-Ends :
      (os : List (Parsed Text)) (u : Settings Text)
      → All IsFine os
      → Ends (parse_all Text strtol atoi os u).1
  unfolding parse_all parse_opts perform
  line-Ends [] u f = λ top. (top, refl)
  line-Ends (opt_timeout arg ∷ os) u f = line-Ends os _ f.1
  line-Ends (opt_elfload arg ∷ os) u f = loaded_elf arg _ f.0 (line-Ends os u f.1)
  line-Ends (opt_binload arg ∷ os) u f = loaded_bin arg _ f.0 (line-Ends os u f.1)
  line-Ends (fst arg ∷ os) u f = line-Ends os _ f.1
  line-Ends (fststart arg ∷ os) u f = line-Ends os _ f.1
  line-Ends (fststop arg ∷ os) u f = line-Ends os _ f.1
  line-Ends (serve jtag_server arg ∷ os) u f = started _ _ _ (f.0 _) (line-Ends os _ f.1)
  line-Ends (serve uart_server arg ∷ os) u f = started _ _ _ (f.0 _) (line-Ends os _ f.1)
  line-Ends (serve jtag_client arg ∷ os) u f = started _ _ _ (f.0 _) (line-Ends os _ f.1)
  line-Ends (serve gpio_server arg ∷ os) u f = absurd f.0
  line-Ends (serve gpio_client arg ∷ os) u f = started _ _ _ (f.0 _) (line-Ends os _ f.1)
  line-Ends (other ∷ os) u f = line-Ends os _ f.1

  line-off :
      (os : List (Parsed Text)) (u : Settings Text)
      → All IsFine os
      → u.enabled gpio_server ≡ false
      → (parse_all Text strtol atoi os u).0.enabled gpio_server ≡ false
  unfolding parse_all parse_opts same_service
  line-off [] u f off = off
  line-off (opt_timeout arg ∷ os) u f off = line-off os _ f.1 off
  line-off (opt_elfload arg ∷ os) u f off = line-off os _ f.1 off
  line-off (opt_binload arg ∷ os) u f off = line-off os _ f.1 off
  line-off (fst arg ∷ os) u f off = line-off os _ f.1 off
  line-off (fststart arg ∷ os) u f off = line-off os _ f.1 off
  line-off (fststop arg ∷ os) u f off = line-off os _ f.1 off
  line-off (serve jtag_server arg ∷ os) u f off = line-off os _ f.1 off
  line-off (serve uart_server arg ∷ os) u f off = line-off os _ f.1 off
  line-off (serve jtag_client arg ∷ os) u f off = line-off os _ f.1 off
  line-off (serve gpio_server arg ∷ os) u f off = absurd f.0
  line-off (serve gpio_client arg ∷ os) u f off = line-off os _ f.1 off
  line-off (other ∷ os) u f off = line-off os _ f.1 off

  -- The system before the loop.
  prepared-some :
      (os : List (Parsed Text)) (top : Top Inside)
      → All IsFine os
      → (s : Soc K Inside) × (prepared K Inside host elf bin os top ≡ some s)
        × (s.clock.timeout ≡ timeout_of strtol atoi os (default_settings fst_default_name))
        × (s.clock.t ≡ 0)
        × (s.services.gpio_server_enable ≡ false)
  unfolding prepared parse_args configured new_rig new_clock
  prepared-some os top fine =
      let ready : Settings Text → Top Inside → Soc K Inside = λ u t.
        let b = configured K host u (record (new_rig K host top) { top = t }) in
        record {
          clock = b.clock;
          services = b.services;
          top = record (b.top) { clk = false; poresetn = 0; irq = 0 };
        } in
      let u : Settings Text =
        (parse_all Text strtol atoi os (default_settings fst_default_name)).0 in
      let (top', e) = line-Ends os (default_settings fst_default_name) fine top in
      (
        ready u top',
        ap
            (λ (o : Option (Top Inside)).
              let b : Option (Rig K (Top Inside)) = elim o [
                | none ↦ none
                | some t ↦ some (configured K host u (record (new_rig K host top) { top = t }))
              ] in
              elim b [
                | none ↦ none
                | some b ↦ some (record {
                  clock = b.clock;
                  services = b.services;
                  top = record (b.top) { clk = false; poresetn = 0; irq = 0 };
                })
              ])
            e,
        refl,
        refl,
        line-off os (default_settings fst_default_name) fine refl,
      )

  -- On a command line whose last `--timeout` is a number above 0 and below 2^64, that does not start
  -- the GPIO server, loads only programs that fit into the memory and starts only services that come
  -- up: whatever the threads of the servers put into the queues (they start no GPIO server) and the
  -- design does, every pass of the main loop is defined, and the program comes to its end at that
  -- tick or before it, if it may take more passes than that.
  pub program-ends :
      (outside : Outside K Inside) (n : ℕ) (before after : List (Parsed Text)) (arg : Text)
      (top : Top Inside)
      → KeepOff K outside
      → All IsFine (before ++ (opt_timeout arg ∷ after))
      → All IsOther after
      → strtol arg ≢ 0
      → strtol arg < 2 ^ 64
      → strtol arg < n
      → (s' : Soc K Inside) × (program K Inside host elf bin n
            (before ++ (opt_timeout arg ∷ after))
            outside
            top
          ≡ some (true, s'))
        × (s'.clock.t ≤ strtol arg)
  unfolding program
  program-ends outside n before after arg top keep fine h set fits enough =
      let os : List (Parsed Text) = before ++ (opt_timeout arg ∷ after) in
      let (s, begun, last, zero_time, off) = prepared-some os top fine in
      let limit : s.clock.timeout ≡ strtol arg =
        last ∙ last-timeout strtol atoi before after arg _ h in
      let (s', ends, in_time) =
        soc_run-ends K outside n s keep off (λ e. set (sym limit ∙ e))
          (omega (arith, limit, zero_time)) (omega (arith, limit, fits))
          (omega (arith, limit, zero_time, enough)) in
      (
        s',
        ap
              (λ (o : Option (Soc K Inside)). elim o [
                | none ↦ none
                | some s ↦ run K Inside n outside s
              ])
              begun
            ∙ ends,
        omega (arith, in_time, limit),
      )
