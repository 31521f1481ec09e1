-- ===== src/Exec/Inversion.antt =====
-- A method that returned ran each of its steps to the end.
use mathlib.Core.Path.{◌≡◌, refl, ap}
use mathlib.Core.Bool.{Bool, true, false}
use mathlib.Core.Option.{Option, none, some}
use api_user.Errors.{ErrorKind}
use mathlib.Core.Logic.{◌⊎◌, inl, inr}
use api_user.Exec.{Failure, Result, ok, err, Exec, continue, throw_if, or_throw, ◌>>=◌, ◌>>◌}

pub continue-eq-ok {ℓ} :
    {S A B : Type ℓ} (r : Result A) (f : A → Exec S B) (s : S) {b : B}
    → (continue r f s).0 ≡ ok b
    → (a : A) × (r ≡ ok a) × (continue r f s ≡ f a s) × ((f a s).0 ≡ ok b)
continue-eq-ok (ok a) f s h = (a, refl, refl, h)
continue-eq-ok (err e) f s h = cc

pub Result-cases :
    {A : Type 0} (r : Result A) → ((a : A) × (r ≡ ok a)) ⊎ ((e : Failure) × (r ≡ err e))
Result-cases (ok a) = inl (a, refl)
Result-cases (err e) = inr (e, refl)

module _ {S A B : Type 0} where
  -- A value that was required is there, and the method went on from it.
  pub or_throw-bind-ok :
      (k : ErrorKind) (o : Option A) (f : A → Exec S B) (s : S) {b : B}
      → ((or_throw k o >>= f) s).0 ≡ ok b
      → (a : A) × (o ≡ some a) × ((or_throw k o >>= f) s ≡ f a s) × ((f a s).0 ≡ ok b)
  or_throw-bind-ok k none f s h = cc
  or_throw-bind-ok k (some a) f s h = (a, refl, refl, h)

module _ {S B : Type 0} where
  -- A guard did not throw, and the method went on.
  pub throw_if-bind-ok :
      (k : ErrorKind) (c : Bool) (f : Exec S B) (s : S) {b : B}
      → ((throw_if c k >> f) s).0 ≡ ok b
      → (c ≡ false) × ((throw_if c k >> f) s ≡ f s) × ((f s).0 ≡ ok b)
  throw_if-bind-ok k true f s h = cc
  throw_if-bind-ok k false f s h = (refl, refl, h)

  -- A method goes on from the value and the state of its first step.
  pub bind-ok :
      {A : Type 0} (m : Exec S A) (f : A → Exec S B) (s s' : S) (a : A)
      → m s ≡ (ok a, s')
      → (m >>= f) s ≡ f a s'
  bind-ok m f s s' a h = ap (λ x. continue x.0 f x.1) h
