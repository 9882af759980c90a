-- ===== src/Client.antt =====
-- The sockets of the clients of verilator_utils/JTAGClient.cpp and GPIOClient.cpp, with their headers:
-- `Start`, `Stop` and the destructors. The calls of the socket library are listed, and its answers are
-- arguments; `fail` ends the program. What the clients do on their sockets is in Jtag and Gpio.
pub mod Life
use tinylabs_cores.Common.{ℕ, Bool, Option, none, some, List, [], ◌∷◌, ◌++◌, if◌then◌else◌}

-- `jtagsock` or `gpiosock`, with `none` for -1, and `period`.
pub record Client : Type 0 where
  pub sock : Option ℕ
  pub period : ℕ

-- The constructors.
pub new_client : ℕ → Client
new_client period = record { sock = none; period = period }

pub data Call : Type 0 where
  opens : ℕ → Call
  unblocks : ℕ → Call
  connects : ℕ → ℕ → Call
  closes : ℕ → Call

-- What `socket` returns, none below zero, and whether `connect` succeeds.
pub record Answers : Type 0 where
  pub descriptor : Option ℕ
  pub connected : Bool

-- The calls made up to the exit of `fail`, or up to the return.
pub data Result : Type 0 where
  exited : List Call → Result
  returned : Client → List Call → Result

-- `JTAGClient::Start`
unfoldable pub jtag_start : Client → ℕ → Answers → Result
jtag_start c port a = elim a.descriptor [
  | none ↦ exited []
  | some fd ↦
      let calls = opens fd ∷ connects fd port ∷ [] in
      if a.connected then returned (record c { sock = some fd }) calls else exited calls
]

-- `GPIOClient::Start`. (A failure of `fcntl` is only reported.)
unfoldable pub gpio_start : Client → ℕ → Answers → Result
gpio_start c port a = elim a.descriptor [
  | none ↦ exited []
  | some fd ↦
      let calls = opens fd ∷ unblocks fd ∷ connects fd port ∷ [] in
      if a.connected then returned (record c { sock = some fd }) calls else exited calls
]

-- `Stop` of both clients, which keeps the field. (A close of -1 does nothing.)
unfoldable pub stop : Client → List Call
stop c = elim c.sock [ none ↦ [] | some fd ↦ closes fd ∷ [] ]

-- `if (jtagsock != -1) Stop ();`
unfoldable pub destroy : Client → List Call
destroy c = elim c.sock [ none ↦ [] | some fd ↦ stop c ]

-- The starts of a client by the options of a command line, each with its port, and its destructor.
unfoldable pub life : (Client → ℕ → Answers → Result) → Client → List (ℕ × Answers) → Result
life start c [] = returned c (destroy c)
life start c ((port, a) ∷ uses) = elim (start c port a) [
  | exited calls ↦ exited calls
  | returned c' calls ↦ elim (life start c' uses) [
    | exited later ↦ exited (calls ++ later)
    | returned c'' later ↦ returned c'' (calls ++ later)
  ]
]
