-- ===== src/Script/Keeps.antt =====
-- What a script keeps: wherever it has a result, a property of the state still holds. It is the case
-- of `Refines` in which a script follows itself, so that the rules of `Refines` serve.
use tinylabs_cores.Common.{◌≡◌, refl, sym, ap, Option, none, some}
use mathlib.Core.Path.{subst}
use tinylabs_cores.Script.{Script, modify, gets, step}
use tinylabs_cores.Script.Refines.{Agree, Refines, Refines-result}

module _ {B : Type 0} (P : B → Type 0) where
  -- A state with the property, beside itself.
  abbrev pub With : B → B → Type 0
  With b s = (s ≡ b) × P b

  abbrev pub Keeps : {A : Type 0} → Script B A → Type 0
  Keeps m = Refines With m m

  Agree-self :
      {A : Type 0} (o : Option (A × B)) → ((a : A) (b : B) → o ≡ some (a, b) → P b) → Agree With o o
  Agree-self none h = tt
  Agree-self (some (a, b)) h = (refl, (refl, h a b refl))

  pub Keeps-self :
      {A : Type 0} (m : Script B A)
      → ((b : B) (a : A) (b' : B) → P b → m b ≡ some (a, b') → P b')
      → Keeps m
  Keeps-self m h = record {
    at = λ b s (e, p).
        subst (λ t. Agree With (m b) (m t)) (sym e) (Agree-self (m b) (λ a b'. h b a b' p));
  }

  pub Keeps-result :
      {A : Type 0} (m : Script B A) (b : B) (a : A) (b' : B)
      → Keeps m
      → P b
      → m b ≡ some (a, b')
      → P b'
  Keeps-result m b a b' k p e =
      let (b1, e1, (same, p1)) = Refines-result m m b b a b' k (refl, p) e in subst P (sym same) p1

  pub Keeps-modify : (f : B → B) → ((b : B) → P b → P (f b)) → Keeps (modify f)
  unfolding modify
  Keeps-modify f h = record { at = λ b s (e, p). (refl, (ap f e, h b p)) }

  pub Keeps-gets : {A : Type 0} (f : B → A) → Keeps (gets f)
  unfolding gets
  Keeps-gets f = record { at = λ b s (e, p). (sym (ap f e), (e, p)) }

  Agree-step :
      (o : Option B)
      → ((b : B) → o ≡ some b → P b)
      → Agree With
          (elim o [ none ↦ none | some b ↦ some (tt, b) ])
          (elim o [ none ↦ none | some b ↦ some (tt, b) ])
  Agree-step none h = tt
  Agree-step (some b) h = (refl, (refl, h b refl))

  pub Keeps-step : (f : B → Option B) → ((b b' : B) → P b → f b ≡ some b' → P b') → Keeps (step f)
  unfolding step
  Keeps-step f h = record {
    at = λ b s (e, p).
        subst (λ t. Agree With (step f b) (step f t)) (sym e) (Agree-step (f b) (λ b'. h b b' p));
  }
