-- ===== src/Users/Service/EmailCode/Budget.antt =====
-- What a refused try takes from the attempt budget of an email-change code, of
-- user/service/user.service.ts.
use api_user.Prelude.{
  ℕ, suc, ◌+◌, ◌≤◌, String, ◌≡◌, refl, ◌∙◌, sym, ap, Bool, true, false, ◌⊎◌, inl, inr, none, some,
  leb, is_some, eq_refl, arith, Bool-cases, if◌then◌else◌,
}
use mathlib.Core.Path.{subst}
use api_user.Errors.{ErrorKind, invalid_email_change_code}
use api_user.Exec.{Failure, domain, driver, Result, ok, err, raise, discard, ◌>>◌}
use api_user.Users.{User, patched, unset_all}
use api_user.Users.Service
use api_user.Users.Service.Effects.{Runs-update, Runs-unset_fields, Runs-discard}
use api_user.Env.{Env}
use api_user.World.{World, M}
use api_user.World.Runs.{Runs, Runs-bind}
use api_user.Users.Service.EmailCode.{
  code_fields, attempts_patch, clear_email_change_code, count_failure, assert_email_change_code,
  request_email_change, is_spent, matches_hash,
}

-- The user without a code.
abbrev pub cleared : User → User
cleared u = record u {
  email_change_code_hash = none;
  email_change_code_expires = none;
  email_change_code_attempts = 0;
}

-- At most `n` more codes can be tried.
abbrev pub Left : ℕ → User → Type 0
Left n u = (u.email_change_code_hash ≡ none) ⊎ (5 ≤ u.email_change_code_attempts + n)

module _ (env : Env) where
  pub clear-Runs : (id : String) → Runs env false id cleared (clear_email_change_code env id)
  unfolding clear_email_change_code patched unset_all
  clear-Runs id =
      Runs-bind env false id (unset_all code_fields) (patched false (attempts_patch 0)) _ _
        (Runs-discard env id (unset_all code_fields) false _
          (Runs-unset_fields env id code_fields false))
        (λ _.
          Runs-discard env id (patched false (attempts_patch 0)) false _
            (Runs-update env id (attempts_patch 0) false))

  -- The user after a wrong code, which was the last one or was counted.
  abbrev counted : Bool → ℕ → User → User
  counted true attempts u = cleared u
  counted false attempts u = record u { email_change_code_attempts = attempts }

  counted-Runs :
      (id : String) (attempts : ℕ) (last : Bool)
      → Runs env false id (counted last attempts) (
          if last
          then clear_email_change_code env id
          else discard (Service.update env id (attempts_patch attempts) false))
  unfolding patched
  counted-Runs id attempts true = clear-Runs id
  counted-Runs id attempts false =
      Runs-discard env id (patched false (attempts_patch attempts)) false _
        (Runs-update env id (attempts_patch attempts) false)

  count_failure-Runs :
      (id : String) (u : User)
      → Runs env false id
          (counted (leb 5 (u.email_change_code_attempts + 1)) (u.email_change_code_attempts + 1))
          (count_failure env id u)
  unfolding count_failure
  count_failure-Runs id u =
      counted-Runs id (u.email_change_code_attempts + 1) (leb 5 (u.email_change_code_attempts + 1))

  -- The writes of a refusal fail in the driver alone.
  clear-driver :
      (id : String) (w : World env) (e : Failure)
      → (clear_email_change_code env id w).0 ≡ err e
      → e ≡ driver
  clear-driver id w e h = unfold clear_email_change_code in ground arith

  count_failure-driver :
      (id : String) (u : User) (w : World env) (e : Failure)
      → (count_failure env id u w).0 ≡ err e
      → e ≡ driver
  count_failure-driver id u w e h = unfold count_failure in ground arith

  -- A method whose failures are the driver's, and then a throw of another kind: if that is what
  -- came out, the method returned.
  raised :
      (m : M env Unit) (k : ErrorKind) (w : World env)
      → ((e : Failure) → (m w).0 ≡ err e → e ≡ driver)
      → ((m >> raise {A = Unit} k) w).0 ≡ err (domain k)
      → ((m w).0 ≡ ok tt) × (((m >> raise {A = Unit} k) w).1 ≡ (m w).1)
  raised m k w only h = go (m w) refl
    where
      go :
          (r : Result Unit × World env)
          → m w ≡ r
          → ((m w).0 ≡ ok tt) × (((m >> raise {A = Unit} k) w).1 ≡ (m w).1)
      go (ok tt, w') e = (rw e refl, rw e refl)
      go (err x, w') e = absurd (cc (only x (ap (λ r. r.0) e), rw e at h))

  -- What a refusal of the code leaves: the stored user has one try less.
  abbrev pub Fewer : ℕ → String → World env → Type 0
  Fewer n id w = (v : User) × (env.users.doc w.users id ≡ some v) × Left n v

  Left-counted :
      (n : ℕ) (u : User) (last : Bool)
      → Left (suc n) u
      → Left n (counted last (u.email_change_code_attempts + 1) u)
  Left-counted n u true left = inl refl
  Left-counted n u false (inl none_left) = inl none_left
  Left-counted n u false (inr few) = inr (omega (arith, few))

  pub doc-Runs :
      (id : String) (f : User → User) (m : M env Unit) (u : User) (w : World env)
      → Runs env false id f m
      → env.users.doc w.users id ≡ some u
      → (m w).0 ≡ ok tt
      → env.users.doc (m w).1.users id ≡ some (f u)
  doc-Runs id f m u w runs stored h = ground (arith, (runs.at w tt h).at id, eq_refl id)

  -- The same after a throw that follows the writes.
  doc-raised :
      (id : String) (f : User → User) (m : M env Unit) (k : ErrorKind) (u : User) (w : World env)
      → Runs env false id f m
      → ((e : Failure) → (m w).0 ≡ err e → e ≡ driver)
      → env.users.doc w.users id ≡ some u
      → ((m >> raise {A = Unit} k) w).0 ≡ err (domain k)
      → env.users.doc ((m >> raise {A = Unit} k) w).1.users id ≡ some (f u)
  doc-raised id f m k u w runs only stored h =
      let (returned, same) = raised m k w only h in
      ap (λ x. env.users.doc (World.users x) id) same ∙ doc-Runs id f m u w runs stored returned

  pub assert-Fewer :
      (n : ℕ) (id code : String) (u : User) (w : World env)
      → env.users.doc w.users id ≡ some u
      → Left (suc n) u
      → (assert_email_change_code env id u code w).0 ≡ err (domain invalid_email_change_code)
      → Fewer n id (assert_email_change_code env id u code w).1
  assert-Fewer n id code u w stored left h = elim (Bool-cases (is_spent env w.now u)) [
    | inl spent ↦ elim (Bool-cases (is_some u.email_change_code_hash)) [
      | inl there ↦
          let same : assert_email_change_code env id u code w
              ≡ (clear_email_change_code env id >> raise invalid_email_change_code) w =
            unfold assert_email_change_code in rw (spent, there) refl in
          subst (λ x. Fewer n id x.1) (sym same)
            (
              cleared u,
              doc-raised id cleared (clear_email_change_code env id) invalid_email_change_code u w
                  (clear-Runs id) (clear-driver id w) stored (rw same at h),
              inl refl,
            )
      | inr missing ↦
          let same : (assert_email_change_code env id u code w).1 ≡ w =
            unfold assert_email_change_code in rw (spent, missing) refl in
          subst (Fewer n id) (sym same) (u, stored, inl (ground arith))
    ]
    | inr alive ↦ elim (Bool-cases (matches_hash env code id u.email_change_code_hash)) [
      | inl right ↦
          let same : assert_email_change_code env id u code w ≡ clear_email_change_code env id w =
            unfold assert_email_change_code in rw (alive, right) refl in
          absurd (cc (clear-driver id w (domain invalid_email_change_code) (rw same at h)))
      | inr wrong ↦
          let same : assert_email_change_code env id u code w
              ≡ (count_failure env id u >> raise invalid_email_change_code) w =
            unfold assert_email_change_code in rw (alive, wrong) refl in
          let last = leb 5 (u.email_change_code_attempts + 1) in
          subst (λ x. Fewer n id x.1) (sym same)
            (
              counted last (u.email_change_code_attempts + 1) u,
              doc-raised id (counted last (u.email_change_code_attempts + 1))
                  (count_failure env id u) invalid_email_change_code u w (count_failure-Runs id u)
                  (count_failure-driver id u w) stored (rw same at h),
              Left-counted n u last left,
            )
    ]
  ]

  -- A refused request for a new address has refused its code, and changed nothing more.
  pub request-refused :
      (id email code : String) (u : User) (w : World env)
      → env.users.doc w.users id ≡ some u
      → (request_email_change env id email code w).0 ≡ err (domain invalid_email_change_code)
      → ((assert_email_change_code env id u code w).0 ≡ err (domain invalid_email_change_code))
        × ((request_email_change env id email code w).1
            ≡ (assert_email_change_code env id u code w).1)
  request-refused id email code u w stored h =
      (unfold request_email_change in ground arith, unfold request_email_change in ground arith)

  -- A request that succeeds has passed its code.
  pub request-passed :
      (id email code : String) (u : User) (w : World env) {r : String × ℕ × User}
      → env.users.doc w.users id ≡ some u
      → (request_email_change env id email code w).0 ≡ ok r
      → is_spent env w.now u ≡ false
  request-passed id email code u w stored h = elim (Bool-cases (is_spent env w.now u)) [
    | inl spent ↦
        absurd (unfold request_email_change in unfold assert_email_change_code in ground arith)
    | inr alive ↦ alive
  ]

  pub Left-spent : (now : ℕ) (v : User) → Left 0 v → is_spent env now v ≡ true
  Left-spent now v (inl none_left) = ground (arith, none_left)
  Left-spent now v (inr few) = ground (arith, few)
