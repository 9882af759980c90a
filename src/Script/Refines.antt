-- ===== src/Script/Refines.antt =====
-- One script does what another says, on states that represent the other's: wherever the abstract
-- script has a result, the concrete one has the same, and ends in a state that represents the
-- abstract one's.
use mathlib.Core.Path.{subst}
use tinylabs_cores.Common.{
  ℕ, zero, suc, ◌≡◌, refl, sym, ap, Bool, true, false, Option, none, some, if◌then◌else◌,
}
use tinylabs_cores.Script.{Script, ◌>>=◌, pure, repeat, out_of_fuel, defined}

module _ {B S : Type 0} (Rep : B → S → Type 0) where
  -- Two ends of a script agree, if the abstract one is a result.
  abbrev pub Agree : {A : Type 0} → Option (A × B) → Option (A × S) → Type 0
  Agree o none = Unit
  Agree none (some r) = ⊥
  Agree (some (a, b)) (some (a', s)) = (a ≡ a') × Rep b s

  pub record Refines {A : Type 0} (m : Script B A) (n : Script S A) : Type 0 where
    pub at : (b : B) (s : S) → Rep b s → Agree (m b) (n s)

  Agree-result :
      {A : Type 0} (o : Option (A × B)) (a : A) (s : S)
      → Agree o (some (a, s))
      → (b : B) × (o ≡ some (a, b)) × Rep b s
  Agree-result none a s h = absurd h
  Agree-result (some (a1, b)) a s h = (b, ap (λ x. some (x, b)) h.0, h.1)

module _ {B S : Type 0} {Rep : B → S → Type 0} where
  Agree-bind :
      {A C : Type 0} (o : Option (A × B)) (p : Option (A × S)) (f : A → Script B C)
      (g : A → Script S C)
      → Agree Rep o p
      → ((a : A) → Refines Rep (f a) (g a))
      → Agree Rep
          (elim o [ none ↦ none | some (a, b) ↦ f a b ])
          (elim p [ none ↦ none | some (a, s) ↦ g a s ])
  Agree-bind o none f g h k = tt
  Agree-bind none (some r) f g h k = absurd h
  Agree-bind (some (a, b)) (some (a', s)) f g h k =
      subst (λ x. Agree Rep (f x b) (g a' s)) (sym h.0) ((k a').at b s h.1)

  pub Refines-bind :
      {A C : Type 0} {m : Script B A} {n : Script S A} {f : A → Script B C} {g : A → Script S C}
      → Refines Rep m n
      → ((a : A) → Refines Rep (f a) (g a))
      → Refines Rep (m >>= f) (n >>= g)
  unfolding ◌>>=◌
  Refines-bind {m = m} {n = n} {f = f} {g = g} h k = record {
    at = λ b s r. Agree-bind (m b) (n s) f g (h.at b s r) k;
  }

  pub Refines-pure : {A : Type 0} (a : A) → Refines Rep (pure a) (pure a)
  unfolding pure
  Refines-pure a = record { at = λ b s r. (refl, r) }

  pub Refines-if :
      {A : Type 0} (c : Bool) {m m' : Script B A} {n n' : Script S A}
      → Refines Rep m n
      → Refines Rep m' n'
      → Refines Rep (if c then m else m') (if c then n else n')
  Refines-if true h h' = h
  Refines-if false h h' = h'

  pub Refines-elim :
      {A : Type 0} (c : Bool) {m m' : Script B A} {n n' : Script S A}
      → Refines Rep m n
      → Refines Rep m' n'
      → Refines Rep (elim c [ true ↦ m | false ↦ m' ]) (elim c [ true ↦ n | false ↦ n' ])
  Refines-elim true h h' = h
  Refines-elim false h h' = h'

  pub Refines-out_of_fuel : {A : Type 0} → Refines Rep {A = A} out_of_fuel out_of_fuel
  unfolding out_of_fuel
  Refines-out_of_fuel = record { at = λ b s r. tt }

  pub Refines-repeat :
      (n : ℕ) {m : Script B (Unit {0})} {k : Script S (Unit {0})}
      → Refines Rep m k
      → Refines Rep (repeat n m) (repeat n k)
  unfolding repeat
  Refines-repeat zero h = Refines-pure tt
  Refines-repeat (suc n) h = Refines-bind h (λ _. Refines-repeat n h)

  -- A result of the abstract script is one of the concrete script.
  pub Refines-result :
      {A : Type 0} (m : Script B A) (n : Script S A) (b : B) (s : S) (a : A) (s' : S)
      → Refines Rep m n
      → Rep b s
      → n s ≡ some (a, s')
      → (b' : B) × (m b ≡ some (a, b')) × Rep b' s'
  Refines-result m n b s a s' h r e =
      Agree-result Rep (m b) a s' (subst (Agree Rep (m b)) e (h.at b s r))

  pub Refines-defined : {A : Type 0} (o : Option A) → Refines Rep {A = A} (defined o) (defined o)
  unfolding defined
  Refines-defined none = record { at = λ b s r. tt }
  Refines-defined (some a) = record { at = λ b s r. (refl, r) }
