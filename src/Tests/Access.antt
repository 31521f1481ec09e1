-- ===== src/Tests/Access.antt =====
-- Runs of the registration and of logins.
use api_user.Prelude.{
  String, ◌≡◌, ◌≢◌, refl, true, false, none, some, [], ◌∷◌, ◌==◌, eq_iff, eq_refl, arith,
  Bool-cases, inl, inr, sym, ◌∙◌,
}
use api_user.Errors.{account_locked}
use api_user.Exec.{domain, ok, err}
use api_user.Users.{User, patched}
use api_user.World.{World, later}
use api_user.Auth.{auth_response}
use api_user.Auth.Access.{login, failure_patch}
use api_user.Auth.Lockout.{Known, Refused, guesses, login-locked, lockout}
use api_user.Auth.Opening.{Opened, login-Opened}
use api_user.Tests.Outside.{env, plain, world}

abbrev start : User → World env
start u = world u (plain "v" "v@x") 10 true

-- Someone with three failed attempts.
abbrev clumsy : User
clumsy = record (plain "u" "u@x") { failed_login_attempts = 3 }

abbrev locked : User
locked = record (plain "u" "u@x") { failed_login_attempts = 5; locked_until = some 2000 }

differ : (email : String) → email ≡ "v@x" → email ≢ "u@x"
differ email h h' =
    let e : ("v@x" == "u@x") ≡ true = rw h at ((eq_iff email "u@x").1 h') in absurd (cc e)

not_other :
    (u : User) (k : String) (v : User)
    → (u.id == k) ≡ false
    → env.users.doc (start u).users k ≡ some v
    → v.email ≢ "u@x"
not_other u k v other stored same = elim (Bool-cases ("v" == k)) [
  | inl here ↦
      let e : some (plain "v" "v@x") ≡ some v = rw (other, here) at stored in
      differ v.email (cc e) same
  | inr nowhere ↦ absurd (cc (rw (other, nowhere) at stored))
]

known : (u : User) → u.id ≡ "u" → u.email ≡ "u@x" → Known env (start u).users u
known u id email = record {
  stored = ground (arith, eq_refl u.id);
  unique = λ k v stored same. elim (Bool-cases (u.id == k)) [
    | inl own ↦ sym ((eq_iff u.id k).0 own)
    | inr other ↦ absurd (not_other u k v other stored (same ∙ email))
  ];
}

login-locked_example :
    login env "u@x" "pw" (start locked) ≡ (err (domain account_locked), start locked)
login-locked_example = login-locked env locked "pw" (start locked) (known locked refl refl) refl

refused : Refused env "u@x" ((10, "a") ∷ (20, "b") ∷ []) (start clumsy)
unfolding Refused login failure_patch patched
refused = (refl, (refl, tt))

lockout_example :
    let w' = later env 30 (guesses env "u@x" ((10, "a") ∷ (20, "b") ∷ []) (start clumsy)) in
    login env "u@x" "pw" w' ≡ (err (domain account_locked), w')
lockout_example =
    lockout env clumsy 10 "a" ((20, "b") ∷ []) 30 "pw" (start clumsy) (known clumsy refl refl)
      (omega arith) refused (omega arith)

login_ok :
    (login env "u@x" "pw" (start clumsy)).0 ≡ ok (auth_response env clumsy none 1000 "uuid-0")
unfolding login patched
login_ok = refl

login-Opened_example :
    Opened env "pw"
      (start clumsy)
      (login env "u@x" "pw" (start clumsy)).1
      (auth_response env clumsy none 1000 "uuid-0")
      clumsy
login-Opened_example =
    login-Opened env clumsy "pw" (start clumsy) (auth_response env clumsy none 1000 "uuid-0")
      (known clumsy refl refl) login_ok
