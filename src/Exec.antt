-- ===== src/Exec.antt =====
-- Asynchronous methods that read and write the world and may throw: what was written before a
-- throw stays written. A throw is a `DomainError` of a kind, or any other error, which the
-- exception filter answers with 500.
pub mod Inversion
use mathlib.Core.Path.{◌≡◌}
use mathlib.Core.List.{List, [], ◌∷◌}
use mathlib.Core.Option.{Option, none, some}
use mathlib.Core.Bool.{Bool, true, false}
use api_user.Errors.{ErrorKind}

pub data Failure : Type 0 where
  domain : ErrorKind → Failure
  driver : Failure

pub data Result {ℓ} (A : Type ℓ) : Type ℓ where
  ok : A → Result A
  err : Failure → Result A

abbrev pub Exec {ℓ} : Type ℓ → Type ℓ → Type ℓ
Exec S A = S → Result A × S

module _ {ℓ} {S A : Type ℓ} where
  abbrev pub pure : A → Exec S A
  pure a s = (ok a, s)

  -- `throw DomainError.fromKind(k)`
  abbrev pub raise : ErrorKind → Exec S A
  raise k s = (err (domain k), s)

  abbrev pub gets : (S → A) → Exec S A
  gets f s = (ok (f s), s)

module _ {ℓ} {S A B : Type ℓ} where
  abbrev pub continue : Result A → (A → Exec S B) → Exec S B
  continue (ok a) f s = f a s
  continue (err e) f s = (err e, s)

  infixl 10 ◌>>=◌ ◌>>◌
  abbrev pub ◌>>=◌ : Exec S A → (A → Exec S B) → Exec S B
  ◌>>=◌ m f s = continue (m s).0 f (m s).1

  abbrev pub ◌>>◌ : Exec S A → Exec S B → Exec S B
  m >> n = m >>= λ _. n

module _ {S : Type 0} where
  -- `if (b) throw DomainError.fromKind(k)`
  abbrev pub throw_if : Bool → ErrorKind → Exec S (Unit {0})
  throw_if true k s = (err (domain k), s)
  throw_if false k s = (ok tt, s)

  -- `if (b) await m`
  abbrev pub when : Bool → Exec S (Unit {0}) → Exec S (Unit {0})
  when true m = m
  when false m = pure tt

module _ {S A : Type 0} where
  -- `if (!o) throw DomainError.fromKind(k)`
  abbrev pub or_throw : ErrorKind → Option A → Exec S A
  or_throw k none s = (err (domain k), s)
  or_throw k (some a) s = (ok a, s)

  -- The value of a method is not used.
  abbrev pub discard : Exec S A → Exec S (Unit {0})
  discard m = m >>= λ _. pure tt
