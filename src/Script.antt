-- ===== src/Script.antt =====
-- A step of a bench: it changes the state and has a result, or ends the program (`none`).
pub mod Refines
pub mod Keeps
use tinylabs_cores.Common.{ℕ, zero, suc, ◌≡◌, refl, Option, none, some}

abbrev pub Script : Type 0 → Type 0 → Type 0
Script B A = B → Option (A × B)

infixl 5 ◌>>=◌ ◌>>◌
unfoldable pub ◌>>=◌ : {B A C : Type 0} → Script B A → (A → Script B C) → Script B C
◌>>=◌ m f b = elim (m b) [ none ↦ none | some (a, b') ↦ f a b' ]

abbrev pub ◌>>◌ : {B C : Type 0} → Script B (Unit {0}) → Script B C → Script B C
m >> k = m >>= λ _. k

unfoldable pub pure : {B A : Type 0} → A → Script B A
pure a b = some (a, b)

unfoldable pub modify : {B : Type 0} → (B → B) → Script B (Unit {0})
modify f b = some (tt, f b)

unfoldable pub gets : {B A : Type 0} → (B → A) → Script B A
gets f b = some (f b, b)

-- A step that has no result.
unfoldable pub step : {B : Type 0} → (B → Option B) → Script B (Unit {0})
step f b = elim (f b) [ none ↦ none | some b' ↦ some (tt, b') ]

-- A computation whose `none` is undefined behaviour, or the lack of fuel.
unfoldable pub defined : {B A : Type 0} → Option A → Script B A
defined o b = elim o [ none ↦ none | some a ↦ some (a, b) ]

-- A loop that lacks fuel.
unfoldable pub out_of_fuel : {B A : Type 0} → Script B A
out_of_fuel b = none

-- `for (i = 0; i < n; i++) m;`
unfoldable pub repeat : {B : Type 0} → ℕ → Script B (Unit {0}) → Script B (Unit {0})
repeat zero m = pure tt
repeat (suc n) m = m >> repeat n m

-- A step that is known to have a result.
pub bind-some :
    {B A C : Type 0} (m : Script B A) (f : A → Script B C) {b : B} {a : A} {b' : B}
    → m b ≡ some (a, b')
    → (m >>= f) b ≡ f a b'
unfolding ◌>>=◌
bind-some m f e = rw (e, ◌>>=◌) refl

pub step-some :
    {B : Type 0} (f : B → Option B) {b b' : B} → f b ≡ some b' → step f b ≡ some (tt, b')
unfolding step
step-some f e = rw (e, step) refl
