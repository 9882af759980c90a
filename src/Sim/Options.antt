-- ===== src/Sim/Options.antt =====
-- `VerilatorUtils::parseOpts` of verilator_utils/verilator_utils.cpp: what each command-line option
-- sets. The parsers of the C library, the loaders and the text are arguments, and `Start` of a
-- service is listed as a call.
use mathlib.Core.Path.{subst}
use tinylabs_cores.Common.{
  ℕ, ◌≡◌, refl, Bool, true, false, Option, none, some, List, [], ◌∷◌, ◌++◌, if◌then◌else◌, u16, sym,
}

-- The five services.
pub data Service : Type 0 where
  jtag_server uart_server jtag_client gpio_server gpio_client : Service

-- The options, each with its argument, and any other key.
pub data Parsed (Text : Type 0) : Type 0 where
  opt_timeout opt_elfload opt_binload fststart fststop : Text → Parsed Text
  fst : Option Text → Parsed Text
  serve : Service → Option Text → Parsed Text
  other : Parsed Text

-- The fields that the options set. `ports` and `enabled` have one value for each service.
pub record Settings (Text : Type 0) : Type 0 where
  pub timeout : ℕ
  pub fst_dump : Bool
  pub fst_dump_start : ℕ
  pub fst_dump_stop : ℕ
  pub fst_file_name : Text
  pub enabled : Service → Bool
  pub ports : Service → ℕ

abbrev default_port : Service → ℕ
default_port jtag_server = 2345
default_port jtag_client = 2345
default_port uart_server = 7777
default_port gpio_server = 8888
default_port gpio_client = 8888

-- What the constructor sets, with `FST_DEFAULT_NAME`.
abbrev pub default_settings : {Text : Type 0} → Text → Settings Text
default_settings fst_default_name = record {
  timeout = 0;
  fst_dump = false;
  fst_dump_start = 0;
  fst_dump_stop = 0;
  fst_file_name = fst_default_name;
  enabled = λ s. false;
  ports = default_port;
}

-- What a call does outside the settings.
pub data Act (Text : Type 0) : Type 0 where
  load_elf : Text → Act Text
  load_bin : Text → Act Text
  start : Service → ℕ → Act Text

unfoldable pub same_service : Service → Service → Bool
same_service jtag_server jtag_server = true
same_service uart_server uart_server = true
same_service jtag_client jtag_client = true
same_service gpio_server gpio_server = true
same_service gpio_client gpio_client = true
same_service _ _ = false

-- `if (arg) field = f (arg);`
abbrev or_keep {ℓ κ} : {A : Type ℓ} {B : Type κ} → Option A → (A → B) → B → B
or_keep none f old = old
or_keep (some a) f old = f a

abbrev set_at {ℓ} : {A : Type ℓ} → Service → A → (Service → A) → Service → A
set_at s x f r = if same_service s r then x else f r

-- What is known of a service with its enable flag and port, by its last start: if it has started,
-- it is enabled, and started on that port.
abbrev pub StartedAt : Bool → ℕ → Option ℕ → Type 0
StartedAt enabled port none = Unit
StartedAt enabled port (some at) = (enabled ≡ true) × (at ≡ u16 port)

StartedAt-if :
    (b enabled : Bool) (port new : ℕ) (before : Option ℕ)
    → StartedAt enabled port before
    → StartedAt
        (if b then true else enabled)
        (if b then new else port)
        (if b then some (u16 new) else before)
StartedAt-if true enabled port new before h = (refl, refl)
StartedAt-if false enabled port new before h = h

module _ (Text : Type 0) (strtol atoi : Text → ℕ) where
  -- `parseOpts`: the settings, what else it does, and whether it knows the key. The parsers give
  -- the bits of a `long` and of an `int`; a port is cut to `uint16_t` where a service starts.
  unfoldable pub parse_opts : Parsed Text → Settings Text → Settings Text × List (Act Text) × Bool
  parse_opts (opt_timeout arg) u = (record u { timeout = strtol arg }, [], true)
  parse_opts (opt_elfload arg) u = (u, load_elf arg ∷ [], true)
  parse_opts (opt_binload arg) u = (u, load_bin arg ∷ [], true)
  parse_opts (fst arg) u =
      (record u { fst_dump = true; fst_file_name = or_keep arg (λ a. a) u.fst_file_name }, [], true)
  parse_opts (fststart arg) u = (record u { fst_dump_start = strtol arg }, [], true)
  parse_opts (fststop arg) u = (record u { fst_dump_stop = strtol arg }, [], true)
  parse_opts (serve s arg) u =
      let port = or_keep arg atoi (u.ports s) in
      (
        record u { enabled = set_at s true u.enabled; ports = set_at s port u.ports },
        start s (u16 port) ∷ [],
        true,
      )
  parse_opts other u = (u, [], false)

  -- The options of a command line, in order.
  unfoldable pub parse_all : List (Parsed Text) → Settings Text → Settings Text × List (Act Text)
  parse_all [] u = (u, [])
  parse_all (o ∷ os) u =
      let (u1, acts, known) = parse_opts o u in
      let (u2, later) = parse_all os u1 in (u2, acts ++ later)

  -- The port of the last start of a service.
  unfoldable pub last_start : Service → List (Act Text) → Option ℕ → Option ℕ
  last_start s [] before = before
  last_start s (start r port ∷ acts) before =
      last_start s acts (if same_service r s then some port else before)
  last_start s (load_elf name ∷ acts) before = last_start s acts before
  last_start s (load_bin name ∷ acts) before = last_start s acts before

  last_start-append :
      (s : Service) (xs ys : List (Act Text)) (before : Option ℕ)
      → last_start s (xs ++ ys) before ≡ last_start s ys (last_start s xs before)
  unfolding last_start
  last_start-append s [] ys before = refl
  last_start-append s (start r port ∷ xs) ys before = last_start-append s xs ys _
  last_start-append s (load_elf name ∷ xs) ys before = last_start-append s xs ys before
  last_start-append s (load_bin name ∷ xs) ys before = last_start-append s xs ys before

  abbrev pub Started : Service → Settings Text → Option ℕ → Type 0
  Started s u before = StartedAt (u.enabled s) (u.ports s) before

  Started-parse_opts :
      (s : Service) (o : Parsed Text) (u : Settings Text) (before : Option ℕ)
      → Started s u before
      → Started s (parse_opts o u).0 (last_start s (parse_opts o u).1 before)
  unfolding parse_opts last_start
  Started-parse_opts s (opt_timeout arg) u before h = h
  Started-parse_opts s (opt_elfload arg) u before h = h
  Started-parse_opts s (opt_binload arg) u before h = h
  Started-parse_opts s (fst arg) u before h = h
  Started-parse_opts s (fststart arg) u before h = h
  Started-parse_opts s (fststop arg) u before h = h
  Started-parse_opts s (serve r arg) u before h =
      StartedAt-if (same_service r s) (u.enabled s) (u.ports s) (or_keep arg atoi (u.ports r))
        before h
  Started-parse_opts s other u before h = h

  -- Over any command line, a service that has started, before it or by one of its options, ends
  -- enabled, with the port that it started on last as its setting (cut to 16 bits).
  pub Started-parse_all :
      (os : List (Parsed Text)) (s : Service) (u : Settings Text) (before : Option ℕ)
      → Started s u before
      → Started s (parse_all os u).0 (last_start s (parse_all os u).1 before)
  unfolding parse_all last_start
  Started-parse_all [] s u before h = h
  Started-parse_all (o ∷ os) s u before h =
      let u1 : Settings Text = (parse_opts o u).0 in
      let acts : List (Act Text) = (parse_opts o u).1 in
      subst (StartedAt ((parse_all os u1).0.enabled s) ((parse_all os u1).0.ports s))
        (sym (last_start-append s acts (parse_all os u1).1 before))
        (Started-parse_all os s u1 (last_start s acts before) (Started-parse_opts s o u before h))
