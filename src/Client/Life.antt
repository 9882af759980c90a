-- ===== src/Client/Life.antt =====
-- Which sockets the clients of verilator_utils/JTAGClient.cpp and GPIOClient.cpp close.
use tinylabs_cores.Common.{
  ℕ, ◌≡◌, refl, ap, ap₂, ◌∙◌, true, Option, none, some, List, [], ◌∷◌, ◌++◌,
}
use tinylabs_cores.Client.{
  Client, new_client, Call, opens, unblocks, connects, closes, Answers, Result, returned,
  jtag_start, gpio_start, stop, destroy, life,
}

-- The descriptors that calls open, and those that they close.
unfoldable pub opened : List Call → List ℕ
opened [] = []
opened (opens fd ∷ calls) = fd ∷ opened calls
opened (unblocks fd ∷ calls) = opened calls
opened (connects fd port ∷ calls) = opened calls
opened (closes fd ∷ calls) = opened calls

unfoldable pub closed : List Call → List ℕ
closed [] = []
closed (closes fd ∷ calls) = fd ∷ closed calls
closed (unblocks fd ∷ calls) = closed calls
closed (connects fd port ∷ calls) = closed calls
closed (opens fd ∷ calls) = closed calls

opened-append : (xs ys : List Call) → opened (xs ++ ys) ≡ opened xs ++ opened ys
unfolding opened
opened-append [] ys = refl
opened-append (opens fd ∷ xs) ys = ap (λ l. fd ∷ l) (opened-append xs ys)
opened-append (unblocks fd ∷ xs) ys = opened-append xs ys
opened-append (connects fd port ∷ xs) ys = opened-append xs ys
opened-append (closes fd ∷ xs) ys = opened-append xs ys

closed-append : (xs ys : List Call) → closed (xs ++ ys) ≡ closed xs ++ closed ys
unfolding closed
closed-append [] ys = refl
closed-append (closes fd ∷ xs) ys = ap (λ l. fd ∷ l) (closed-append xs ys)
closed-append (unblocks fd ∷ xs) ys = closed-append xs ys
closed-append (connects fd port ∷ xs) ys = closed-append xs ys
closed-append (opens fd ∷ xs) ys = closed-append xs ys

-- A use in which the socket is made and connects: its port and descriptor.
abbrev pub succeeds : ℕ × ℕ → ℕ × Answers
succeeds (port, fd) = (port, record { descriptor = some fd; connected = true })

abbrev pub uses_of : List (ℕ × ℕ) → List (ℕ × Answers)
uses_of [] = []
uses_of (u ∷ us) = succeeds u ∷ uses_of us

abbrev pub descriptors : List (ℕ × ℕ) → List ℕ
descriptors [] = []
descriptors ((port, fd) ∷ us) = fd ∷ descriptors us

-- The last socket of a client, which had `sock` before.
abbrev pub last_one : Option ℕ → List (ℕ × ℕ) → List ℕ
last_one none [] = []
last_one (some fd) [] = fd ∷ []
last_one sock ((port, fd) ∷ us) = last_one (some fd) us

-- A start that succeeds opens its socket, closes none and keeps the descriptor.
abbrev Opens : (Client → ℕ → Answers → Result) → Type 0
Opens start =
    (c : Client) (port fd : ℕ)
    → (calls : List Call) × (start c port (succeeds (port, fd)).1
        ≡ returned (record c { sock = some fd }) calls)
      × (opened calls ≡ fd ∷ [])
      × (closed calls ≡ [])

jtag_start-Opens : Opens jtag_start
unfolding jtag_start opened closed
jtag_start-Opens c port fd = (opens fd ∷ connects fd port ∷ [], refl, refl, refl)

gpio_start-Opens : Opens gpio_start
unfolding gpio_start opened closed
gpio_start-Opens c port fd = (opens fd ∷ unblocks fd ∷ connects fd port ∷ [], refl, refl, refl)

-- The sockets that the life of a client opens and closes.
abbrev pub Closes : (Client → ℕ → Answers → Result) → Client → List (ℕ × ℕ) → Type 0
Closes start c us =
    (c' : Client) × (calls : List Call) × (life start c (uses_of us) ≡ returned c' calls)
    × (opened calls ≡ descriptors us)
    × (closed calls ≡ last_one c.sock us)

end-Closes :
    (start : Client → ℕ → Answers → Result) (sock : Option ℕ) (period : ℕ)
    → Closes start (record { sock = sock; period = period }) []
unfolding life destroy stop opened closed
end-Closes start none period = (record { sock = none; period = period }, [], refl, refl, refl)
end-Closes start (some fd) period =
    (record { sock = some fd; period = period }, closes fd ∷ [], refl, refl, refl)

life-Closes :
    (start : Client → ℕ → Answers → Result)
    → Opens start
    → (c : Client) (us : List (ℕ × ℕ)) → Closes start c us
unfolding life
life-Closes start op c [] = end-Closes start c.sock c.period
life-Closes start op c ((port, fd) ∷ us) =
    let (calls, starts, opening, closing) = op c port fd in
    let (c', later, lives, all_opened, all_closed) =
      life-Closes start op (record c { sock = some fd }) us in
    (
      c',
      calls ++ later,
      rw (starts, life, lives) refl,
      opened-append calls later ∙ ap₂ (λ xs ys. xs ++ ys) opening all_opened,
      closed-append calls later ∙ ap₂ (λ xs ys. xs ++ ys) closing all_closed,
    )

-- Either client, made, started any number of times with success and deleted, has opened one socket
-- for each start, and closed exactly the last of them.
pub clients_close :
    (period : ℕ) (us : List (ℕ × ℕ))
    → Closes jtag_start (new_client period) us × Closes gpio_start (new_client period) us
clients_close period us = (
  life-Closes jtag_start jtag_start-Opens (new_client period) us,
  life-Closes gpio_start gpio_start-Opens (new_client period) us,
)
