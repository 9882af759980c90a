-- ===== src/Rig/Launched.antt =====
-- What the command line leaves of a bench of ahb3lite_remote_bridge2/bench: with which options it can
-- go on for as long as its main program does.
use tinylabs_cores.Common.{
  ℕ, ◌≡◌, refl, ap, ◌∙◌, true, false, Option, none, some, List, [], ◌∷◌, All,
}
use tinylabs_cores.Queue.{ByteQueue}
use tinylabs_cores.Sim.{new_clock}
use tinylabs_cores.Sim.Options.{
  Service, Act, load_elf, load_bin, start, jtag_server, uart_server, jtag_client, gpio_server,
  gpio_client, Parsed, opt_timeout, opt_elfload, opt_binload, fststart, fststop, fst, serve, other,
  Settings, default_settings, parse_opts, parse_all, same_service,
}
use tinylabs_cores.Rig.{Rig, Wiring, World}
use tinylabs_cores.Rig.Reset.{Quiet, Free}
use tinylabs_cores.Rig.Launch.{
  Host, new_rig, configured, perform, null_load, parse_args, launched, launch,
}

module _ (K : ByteQueue) (host : Host K) where
  open host use {Text, strtol, atoi, fst_default_name, starts, blank}

  -- An option that sets no timeout, loads nothing, and starts a service that comes up and is not the
  -- JTAG client.
  abbrev pub GoesOn : Parsed Text → Type 0
  GoesOn (opt_timeout arg) = strtol arg ≡ 0
  GoesOn (opt_elfload arg) = blank arg ≡ true
  GoesOn (opt_binload arg) = blank arg ≡ true
  GoesOn (serve jtag_client arg) = ⊥
  GoesOn (serve s arg) = (port : ℕ) → starts s port ≡ true
  GoesOn _ = Unit

  abbrev Unlimited : Settings Text → Type 0
  Unlimited u = (u.timeout ≡ 0) × (u.enabled jtag_client ≡ false)

  option-Unlimited :
      (o : Parsed Text) (u : Settings Text)
      → GoesOn o
      → Unlimited u
      → Unlimited (parse_opts Text strtol atoi o u).0
  unfolding parse_opts same_service
  option-Unlimited (opt_timeout arg) u g h = (g, h.1)
  option-Unlimited (opt_elfload arg) u g h = h
  option-Unlimited (opt_binload arg) u g h = h
  option-Unlimited (fst arg) u g h = h
  option-Unlimited (fststart arg) u g h = h
  option-Unlimited (fststop arg) u g h = h
  option-Unlimited (serve jtag_server arg) u g h = h
  option-Unlimited (serve uart_server arg) u g h = h
  option-Unlimited (serve jtag_client arg) u g h = absurd g
  option-Unlimited (serve gpio_server arg) u g h = h
  option-Unlimited (serve gpio_client arg) u g h = h
  option-Unlimited other u g h = h

  line-Unlimited :
      (os : List (Parsed Text)) (u : Settings Text)
      → All GoesOn os
      → Unlimited u
      → Unlimited (parse_all Text strtol atoi os u).0
  unfolding parse_all
  line-Unlimited [] u g h = h
  line-Unlimited (o ∷ os) u g h =
      line-Unlimited os (parse_opts Text strtol atoi o u).0 g.1 (option-Unlimited o u g.0 h)

  module _ {Top : Type 0} where
    abbrev performed : List (Act Text) → Top → Option Top
    performed = perform K host (null_load K host) (null_load K host)

    started :
        (s : Service) (port : ℕ) (acts : List (Act Text)) (top : Top)
        → starts s port ≡ true
        → performed (start s port ∷ acts) top ≡ performed acts top
    unfolding perform
    started s port acts top up = rw (up, perform) refl

    loaded_elf :
        (name : Text) (acts : List (Act Text)) (top : Top)
        → blank name ≡ true
        → performed (load_elf name ∷ acts) top ≡ performed acts top
    unfolding perform null_load
    loaded_elf name acts top nothing = rw (nothing, perform) refl

    loaded_bin :
        (name : Text) (acts : List (Act Text)) (top : Top)
        → blank name ≡ true
        → performed (load_bin name ∷ acts) top ≡ performed acts top
    unfolding perform null_load
    loaded_bin name acts top nothing = rw (nothing, perform) refl

    -- Such options leave the design as it is.
    line-performed :
        (os : List (Parsed Text)) (u : Settings Text) (top : Top)
        → All GoesOn os
        → performed (parse_all Text strtol atoi os u).1 top ≡ some top
    unfolding parse_all parse_opts perform
    line-performed [] u top g = refl
    line-performed (opt_timeout arg ∷ os) u top g = line-performed os _ top g.1
    line-performed (opt_elfload arg ∷ os) u top g =
        loaded_elf _ _ top g.0 ∙ line-performed os _ top g.1
    line-performed (opt_binload arg ∷ os) u top g =
        loaded_bin _ _ top g.0 ∙ line-performed os _ top g.1
    line-performed (fst arg ∷ os) u top g = line-performed os _ top g.1
    line-performed (fststart arg ∷ os) u top g = line-performed os _ top g.1
    line-performed (fststop arg ∷ os) u top g = line-performed os _ top g.1
    line-performed (serve jtag_server arg ∷ os) u top g =
        started _ _ _ top (g.0 _) ∙ line-performed os _ top g.1
    line-performed (serve uart_server arg ∷ os) u top g =
        started _ _ _ top (g.0 _) ∙ line-performed os _ top g.1
    line-performed (serve jtag_client arg ∷ os) u top g = absurd g.0
    line-performed (serve gpio_server arg ∷ os) u top g =
        started _ _ _ top (g.0 _) ∙ line-performed os _ top g.1
    line-performed (serve gpio_client arg ∷ os) u top g =
        started _ _ _ top (g.0 _) ∙ line-performed os _ top g.1
    line-performed (other ∷ os) u top g = line-performed os _ top g.1

    pub launched-Free :
        (wiring : Wiring Top) (world : World Top) (q : Quiet world) (os : List (Parsed Text))
        (top : Top)
        → All GoesOn os
        → (b : Rig K Top) × (launched K host os top ≡ some b)
          × Free K Top wiring world q b
          × (b.clock.t ≡ 0)
    unfolding launched parse_args configured new_rig new_clock
    launched-Free wiring world q os top g =
        let u : Settings Text =
          (parse_all Text strtol atoi os (default_settings fst_default_name)).0 in
        let (unlimited, alone) =
          line-Unlimited os (default_settings fst_default_name) g (refl, refl) in
        (
          configured K host u (new_rig K host top),
          ap
              (λ (o : Option Top). elim o [
                | none ↦ none
                | some top' ↦
                    some (configured K host u (record (new_rig K host top) { top = top' }))
              ])
              (line-performed os (default_settings fst_default_name) top g),
          record { no_timeout = unlimited; not_done = refl; no_client = alone },
          refl,
        )

    -- A program on a bench that is launched.
    pub launched-program :
        {A : Type 0} (o : Option (Rig K Top)) (b : Rig K Top) (main : Rig K Top → Option A) (r : A)
        → o ≡ some b
        → main b ≡ some r
        → launch K host o main ≡ some r
    unfolding launch
    launched-program o b main r e f = ap (λ o. launch K host o main) e ∙ f
