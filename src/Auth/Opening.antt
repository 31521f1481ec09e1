-- ===== src/Auth/Opening.antt =====
-- The logins of auth/auth.service.ts that succeed.
use api_user.Prelude.{
  String, ◌≡◌, ◌∙◌, sym, ap, Bool, true, false, ◌||◌, none, some, ltb, is_some, arith, Option-cases,
  Bool-cases, inl, inr,
}
use mathlib.Core.Path.{subst}
use api_user.Exec.{ok}
use api_user.Users.{User, patched, id-patched}
use api_user.Users.Repository.{after}
use api_user.Env.{Env}
use api_user.World.{World}
use api_user.World.Updates.{Updates-update_one, Replaces, Updates-Replaces}
use api_user.Auth.{AuthResponse, auth_response}
use api_user.Auth.Access.{unlocked_patch, login_user, login}
use api_user.Auth.Lockout.{Known, login-Known}

-- No failed attempts and no lock.
abbrev pub unlocked : User → User
unlocked u = record u { failed_login_attempts = 0; locked_until = none }

abbrev pub tainted : User → Bool
tainted u = ltb 0 u.failed_login_attempts || is_some u.locked_until

unlocked-same : (u : User) → tainted u ≡ false → unlocked u ≡ u
unlocked-same u h =
    let none_failed : u.failed_login_attempts ≡ 0 = ground arith in
    let no_lock : u.locked_until ≡ none = ground arith in
    λ i. record u { failed_login_attempts = sym none_failed i; locked_until = sym no_lock i }

module _ (env : Env) where
  -- What a login that succeeded has found and answered.
  pub record Opened (password : String) (w w' : World env) (r : AuthResponse env) (u : User)
      : Type 0 where
    pub not_locked : after w.now u.locked_until ≡ false
    pub right : env.crypto.compare password u.password ≡ true
    pub active : u.is_active ≡ true
    pub response : r ≡ auth_response env u none w.now (env.crypto.uuid w.drawn)
    pub replaces : Replaces env w.users w'.users u (unlocked u)

  reset-Replaces :
      (u : User) (w : World env) (t : env.users.State)
      → env.users.doc w.users u.id ≡ some u
      → env.users.update_one w.users u.id (patched false unlocked_patch) ≡ some t
      → Replaces env w.users t u (unlocked u)
  unfolding patched
  reset-Replaces u w t stored up =
      Updates-Replaces env w.users t (patched false unlocked_patch) u stored (
        Updates-update_one env w.users t u.id (patched false unlocked_patch)
          (id-patched false unlocked_patch) up)

  login_user-Opened :
      (u : User) (password : String) (w : World env) (r : AuthResponse env)
      → env.users.doc w.users u.id ≡ some u
      → (login_user env u password w).0 ≡ ok r
      → Opened password w (login_user env u password w).1 r u
  login_user-Opened u password w r stored h = elim (Bool-cases (after w.now u.locked_until)) [
    | inl locked ↦ absurd (unfold login_user in ground arith)
    | inr not_locked ↦ elim (Bool-cases (env.crypto.compare password u.password)) [
      | inr wrong ↦ absurd (unfold login_user in ground arith)
      | inl right ↦ elim (Bool-cases (tainted u)) [
        | inr clean ↦ record {
          not_locked = not_locked;
          right = right;
          active = unfold login_user in ground arith;
          response = unfold login_user in ground arith;
          replaces =
              let same : (login_user env u password w).1.users ≡ w.users =
                unfold login_user in ground arith in
              subst (λ v. Replaces env w.users (login_user env u password w).1.users u v)
                (sym (unlocked-same u clean))
                (record {
                  old = stored;
                  new = ap (λ s. env.users.doc s u.id) same ∙ stored;
                  others = λ j _. ap (λ s. env.users.doc s j) same;
                });
        }
        | inl dirty ↦
            elim (Option-cases (env.users.update_one w.users u.id (patched false unlocked_patch))) [
              | inl down ↦ absurd (unfold login_user in ground arith)
              | inr (t, up) ↦ record {
                not_locked = not_locked;
                right = right;
                active = unfold login_user in ground arith;
                response = unfold login_user in ground arith;
                replaces =
                    let same : (login_user env u password w).1.users ≡ t =
                      unfold login_user in ground arith in
                    subst (λ s. Replaces env w.users s u (unlocked u)) (sym same)
                      (reset-Replaces u w t stored up);
              }
            ]
      ]
    ]
  ]

  -- The user of the address is stored and shares it with no other stored user. A login that
  -- succeeds was for an account that is active and not locked, with its password; it answers with
  -- tokens of that user, has reset the user's failed attempts and lock, and has changed no other
  -- user.
  pub login-Opened :
      (u : User) (password : String) (w : World env) (r : AuthResponse env)
      → Known env w.users u
      → (login env u.email password w).0 ≡ ok r
      → Opened password w (login env u.email password w).1 r u
  login-Opened u password w r known h =
      let same = login-Known env u password w known in
      subst (λ x. Opened password w x r u) (ap (λ x. x.1) (sym same))
        (login_user-Opened u password w r known.stored (rw same at h))
