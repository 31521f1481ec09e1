-- ===== src/Auth/Lockout.antt =====
-- The lockout of `login` in auth/auth.service.ts: what wrong passwords lead to.
use api_user.Prelude.{
  ℕ, suc, ◌+◌, ◌*◌, ◌≤◌, ◌<◌, String, ◌≡◌, refl, ◌∙◌, sym, ap, true, false, some, List, [], ◌∷◌,
  length, leb, get_or, ◌==◌, eq_iff, eq_refl, arith, Option-cases, Bool-cases, inl, inr,
  if◌then◌else◌,
}
use mathlib.Core.Path.{subst}
use api_user.Errors.{invalid_credentials, account_locked}
use api_user.Exec.{domain, err}
use api_user.Users.{User, patched, id-patched}
use api_user.Users.Repository.{after}
use api_user.Env.{Env}
use api_user.World.{World, later}
use api_user.World.Updates.{Updates-update_one, Replaces, Updates-Replaces}
use api_user.Auth.Access.{failure_patch, login_user, login}

module _ (env : Env) where
  -- `u` is stored, and no other user has its address, as the unique index on it asks.
  pub record Known (s : env.users.State) (u : User) : Type 0 where
    pub stored : env.users.doc s u.id ≡ some u
    pub unique : (k : String) (v : User) → env.users.doc s k ≡ some v → v.email ≡ u.email → k ≡ u.id

  abbrev max_attempts : ℕ
  max_attempts = get_or env.max_login_attempts 5

  abbrev pub lock_ms : ℕ
  lock_ms = get_or env.lockout_duration_minutes 15 * 60 * 1000

  pub find_one-Known :
      (s : env.users.State) (u : User)
      → Known s u
      → env.users.find_one s (λ v. v.email == u.email) ≡ some u
  find_one-Known s u known = elim (Option-cases (env.users.find_one s (λ v. v.email == u.email))) [
    | inl missing ↦
        absurd (cc (eq_refl u.email, env.users.find_one-none s _ u.id u missing known.stored))
    | inr (v, found) ↦
        let stored = env.users.find_one-doc s _ v found in
        let same =
          known.unique v.id v stored
            ((eq_iff v.email u.email).0 (env.users.find_one-test s _ v found)) in
        cc (found, stored, known.stored, same)
  ]

  pub login-Known :
      (u : User) (password : String) (w : World env)
      → Known w.users u
      → login env u.email password w ≡ login_user env u password w
  unfolding login
  login-Known u password w known = rw (find_one-Known w.users u known) refl

  -- For a user who is stored and shares the address with no other stored user: while the lock
  -- lasts, `login` answers that the account is locked and changes nothing, whatever the password.
  pub login-locked :
      (u : User) (password : String) (w : World env)
      → Known w.users u
      → after w.now u.locked_until ≡ true
      → login env u.email password w ≡ (err (domain account_locked), w)
  login-locked u password w known locked =
      login-Known u password w known ∙ (unfold login_user in rw locked refl)

  -- The user after a wrong password at a time.
  abbrev failed_user : ℕ → User → User
  failed_user now u = record u {
    failed_login_attempts = u.failed_login_attempts + 1;
    locked_until =
        if leb max_attempts (u.failed_login_attempts + 1)
        then some (now + lock_ms)
        else u.locked_until;
  }

  patched-failure_patch :
      (now : ℕ) (u : User) → patched false (failure_patch env now u) u ≡ failed_user now u
  unfolding patched failure_patch
  patched-failure_patch now u = elim (Bool-cases (leb max_attempts (u.failed_login_attempts + 1))) [
    | inl last ↦ rw last refl
    | inr more ↦ rw more refl
  ]

  -- A login that was refused after a password check has counted the failure, and kept the time.
  record Counted (u : User) (w w' : World env) : Type 0 where
    open_door : after w.now u.locked_until ≡ false
    updated :
        env.users.update_one w.users u.id (patched false (failure_patch env w.now u))
        ≡ some w'.users
    same_time : w'.now ≡ w.now

  login_user-Counted :
      (u : User) (password : String) (w : World env)
      → (login_user env u password w).0 ≡ err (domain invalid_credentials)
      → Counted u w (login_user env u password w).1
  login_user-Counted u password w h =
      elim (Option-cases
        (env.users.update_one w.users u.id (patched false (failure_patch env w.now u)))) [
          | inl down ↦ absurd (unfold login_user in unfold failure_patch in ground arith)
          | inr (t, up) ↦ record {
            open_door = unfold login_user in ground arith;
            updated = up ∙ unfold login_user in unfold failure_patch in ground arith;
            same_time = unfold login_user in unfold failure_patch in ground arith;
          }
        ]

  Known-Replaces :
      (s t : env.users.State) (u v : User)
      → v.id ≡ u.id
      → v.email ≡ u.email
      → Replaces env s t u v
      → Known s u
      → Known t v
  Known-Replaces s t u v same_id same_email h known = record {
    stored = ap (env.users.doc t) same_id ∙ h.new;
    unique = λ k x stored same. elim (Bool-cases (u.id == k)) [
      | inl own ↦ sym ((eq_iff u.id k).0 own) ∙ sym same_id
      | inr other ↦
          known.unique k x (sym (h.others k other) ∙ stored) (same ∙ same_email) ∙ sym same_id
    ];
  }

  Known-Counted :
      (u : User) (w w' : World env)
      → Known w.users u
      → Counted u w w'
      → Known w'.users (failed_user w.now u)
  Known-Counted u w w' known c =
      let f = patched false (failure_patch env w.now u) in
      let replaced =
        Updates-Replaces env w.users w'.users f u known.stored
          (Updates-update_one env w.users w'.users u.id f (id-patched false _) c.updated) in
      Known-Replaces w.users w'.users u (failed_user w.now u) refl refl
        (subst (Replaces env w.users w'.users u) (patched-failure_patch w.now u) replaced) known

  -- The step of a refused login: the failure is counted in the stored user.
  login-refused :
      (u : User) (password : String) (w : World env)
      → Known w.users u
      → (login env u.email password w).0 ≡ err (domain invalid_credentials)
      → Known (login env u.email password w).1.users (failed_user w.now u)
        × ((login env u.email password w).1.now ≡ w.now)
  login-refused u password w known h =
      let same = login-Known u password w known in
      let c = login_user-Counted u password w (rw same at h) in
      rw same (Known-Counted u w _ known c, c.same_time)

  -- Logins with one address, each after a pause.
  abbrev pub guesses : String → List (ℕ × String) → World env → World env
  guesses email [] w = w
  guesses email ((n, p) ∷ ps) w = guesses email ps (login env email p (later env n w)).1

  -- Each of them is answered by the error for wrong credentials.
  unfoldable pub Refused : String → List (ℕ × String) → World env → Type 0
  Refused email [] w = Unit
  Refused email ((n, p) ∷ ps) w =
      ((login env email p (later env n w)).0 ≡ err (domain invalid_credentials))
      × Refused email ps (login env email p (later env n w)).1

  -- What a locked account looks like after the guesses.
  record Locked (u : User) (w : World env) : Type 0 where
    locked_user : User
    known : Known w.users locked_user
    same_email : locked_user.email ≡ u.email
    until : locked_user.locked_until ≡ some (w.now + lock_ms)

  guesses-Locked :
      (u : User) (n : ℕ) (p : String) (ps : List (ℕ × String)) (w : World env)
      → Known w.users u
      → max_attempts ≤ u.failed_login_attempts + suc (length ps)
      → Refused u.email ((n, p) ∷ ps) w
      → Locked u (guesses u.email ((n, p) ∷ ps) w)
  unfolding Refused
  guesses-Locked u n p [] w known enough (h, _) =
      let (known', same_time) = login-refused u p (later env n w) known h in
      record {
        locked_user = failed_user (w.now + n) u;
        known = known';
        same_email = refl;
        until = ground (arith, enough, same_time);
      }
  guesses-Locked u n p ((m, q) ∷ ps) w known enough (h, hs) =
      let (known', same_time) = login-refused u p (later env n w) known h in
      let rest =
        guesses-Locked (failed_user (w.now + n) u) m q ps (login env u.email p (later env n w)).1
          known' (omega (arith, enough)) hs in
      record {
        locked_user = rest.locked_user;
        known = rest.known;
        same_email = rest.same_email;
        until = rest.until;
      }

  -- A user is stored and shares the address with no other stored user; logins with that address,
  -- any time apart and with nothing else in between, are each answered by the error for wrong
  -- credentials, and with the failures counted before they reach the limit on failed attempts.
  -- Then a login at any time within the lock's length after the last of them is answered that the
  -- account is locked, whatever the password, and changes nothing.
  pub lockout :
      (u : User) (n : ℕ) (p : String) (ps : List (ℕ × String)) (pause : ℕ) (password : String)
      (w : World env)
      → Known w.users u
      → max_attempts ≤ u.failed_login_attempts + suc (length ps)
      → Refused u.email ((n, p) ∷ ps) w
      → pause < lock_ms
      → let w' = later env pause (guesses u.email ((n, p) ∷ ps) w) in
        login env u.email password w' ≡ (err (domain account_locked), w')
  lockout u n p ps pause password w known enough refused early =
      let l = guesses-Locked u n p ps w known enough refused in
      let w' = later env pause (guesses u.email ((n, p) ∷ ps) w) in
      subst (λ e. login env e password w' ≡ (err (domain account_locked), w')) l.same_email
        (login-locked l.locked_user password w' l.known (rw l.until (ground arith)))
