-- ===== src/Users/Service/EmailCode/Issue.antt =====
-- The issue of an email-change code, of user/service/user.service.ts.
use api_user.Prelude.{
  ℕ, ◌+◌, ◌≤◌, ◌<◌, String, ◌≡◌, refl, ◌∙◌, ap, true, false, some, ltb, eq_refl, arith, Bool-cases,
  Option-cases, inl, inr,
}
use mathlib.Core.Path.{subst}
use api_user.Errors.{validation_error, invalid_email_change_code}
use api_user.Exec.{domain, ok, err}
use api_user.Users.{User, patched, unset_all, id-patched}
use api_user.Env.{Env}
use api_user.World.{World, later}
use api_user.World.Updates.{Updates-update_one}
use api_user.Users.Service.EmailCode.{
  issued_patch, attempts_patch, code_fields, sent_recently, code_text, generate_email_change_code,
  hash_email_change_code, is_email_change_code_valid, request_email_change_code,
  clear_email_change_code, assert_email_change_code,
}
use api_user.Users.Service.EmailCode.Budget.{cleared, clear-Runs, doc-Runs}

module _ (env : Env) where
  -- The user with a code that was sent now.
  abbrev issued : String → ℕ → User → User
  issued hash now u = record u {
    email_change_code_hash = some hash;
    email_change_code_expires = some (now + 600000);
    email_change_code_attempts = 0;
    email_change_code_sent_at = some now;
  }

  -- What a request for a code that returned `code` has stored.
  record Issued (id code : String) (w w' : World env) : Type 0 where
    user : User
    stored :
        env.users.doc w'.users id ≡ some (issued (hash_email_change_code env code id) w.now user)
    same_time : w'.now ≡ w.now

  doc-issued :
      (id hash : String) (now : ℕ) (v : User) (s t : env.users.State)
      → env.users.doc s id ≡ some v
      → env.users.update_one s id (patched false (issued_patch hash now)) ≡ some t
      → env.users.doc t id ≡ some (issued hash now v)
  unfolding patched
  doc-issued id hash now v s t there up =
      let f = patched false (issued_patch hash now) in
      ground (
        arith,
        (Updates-update_one env s t id f (id-patched false (issued_patch hash now)) up).at id,
        eq_refl id,
        there,
      )

  request-Issued :
      (id code : String) (expires : ℕ) (u : User) (w : World env)
      → (request_email_change_code env id w).0 ≡ ok (code, expires, u)
      → Issued id code w (request_email_change_code env id w).1
  request-Issued id code expires u w h = elim (Option-cases (env.users.doc w.users id)) [
    | inl missing ↦ absurd (unfold request_email_change_code in ground arith)
    | inr (v, there) ↦ elim (Bool-cases (sent_recently w.now v.email_change_code_sent_at)) [
      | inl recent ↦ absurd (unfold request_email_change_code in ground arith)
      | inr due ↦
          let sent = code_text (generate_email_change_code (env.crypto.random_int w.drawn)) in
          let p = issued_patch (hash_email_change_code env sent id) w.now in
          elim (Option-cases (env.users.update_one w.users id (patched false p))) [
            | inl down ↦ absurd (unfold request_email_change_code in ground arith)
            | inr (t, up) ↦
                let same : sent ≡ code = unfold request_email_change_code in ground arith in
                let users : (request_email_change_code env id w).1.users ≡ t =
                  unfold request_email_change_code in ground arith in
                record {
                  user = v;
                  stored =
                      ap (λ s. env.users.doc s id) users
                      ∙ subst
                          (λ c.
                            env.users.doc t id
                            ≡ some (issued (hash_email_change_code env c id) w.now v))
                          same
                          (doc-issued id (hash_email_change_code env sent id) w.now v w.users t
                            there up);
                  same_time = unfold request_email_change_code in ground arith;
                }
          ]
    ]
  ]

  -- For a minute after a code was issued, a request for another one is refused and changes nothing.
  pub request_email_change_code-throttled :
      (id code : String) (expires : ℕ) (u : User) (n : ℕ) (w : World env)
      → (request_email_change_code env id w).0 ≡ ok (code, expires, u)
      → n < 60000
      → let w' = later env n (request_email_change_code env id w).1 in
        request_email_change_code env id w' ≡ (err (domain validation_error), w')
  request_email_change_code-throttled id code expires u n w h soon =
      let i = request-Issued id code expires u w h in
      let w' = later env n (request_email_change_code env id w).1 in
      let recent : sent_recently w'.now (some w.now) ≡ true = ground (arith, soon, i.same_time) in
      unfold request_email_change_code in rw (i.stored, recent) refl

  -- The check of a code within ten minutes of its issue comes down to its removal.
  assert-clears :
      (id code : String) (expires : ℕ) (u v : User) (n : ℕ) (w : World env)
      → (request_email_change_code env id w).0 ≡ ok (code, expires, u)
      → n ≤ 600000
      → let w' = later env n (request_email_change_code env id w).1 in
        env.users.doc w'.users id ≡ some v
        → assert_email_change_code env id v code w' ≡ clear_email_change_code env id w'
  assert-clears id code expires u v n w h alive stored =
      let i = request-Issued id code expires u w h in
      let w' = later env n (request_email_change_code env id w).1 in
      let hash = hash_email_change_code env code id in
      let alive' : ltb (w.now + 600000) w'.now ≡ false = ground (arith, alive, i.same_time) in
      let same : issued hash w.now i.user ≡ v = cc (i.stored, stored) in
      subst (λ x. assert_email_change_code env id x code w' ≡ clear_email_change_code env id w')
        same
        (unfold assert_email_change_code in
          unfold is_email_change_code_valid in rw (alive', eq_refl hash) refl)

  -- The collection that takes the two writes of a removal.
  pub record Removes (id : String) (s : env.users.State) : Type 0 where
    pub unset : env.users.State
    pub emptied : env.users.State
    pub without : env.users.update_one s id (unset_all code_fields) ≡ some unset
    pub reset : env.users.update_one unset id (patched false (attempts_patch 0)) ≡ some emptied

  clear-ok :
      (id : String) (w : World env)
      → Removes id w.users
      → (clear_email_change_code env id w).0 ≡ ok tt
  clear-ok id w x = unfold clear_email_change_code in ground (arith, x.without, x.reset)

  cleared-refused :
      (id c : String) (v : User) (w : World env)
      → assert_email_change_code env id (cleared v) c w
        ≡ (err (domain invalid_email_change_code), w)
  unfolding assert_email_change_code
  cleared-refused id c v w = refl

  -- A code that was issued is accepted once: within ten minutes, if the collection takes the two
  -- writes that remove it, its check succeeds and leaves the user without a code and without a count
  -- of tries, and whatever code is checked after that, at whatever time, is refused and changes
  -- nothing.
  pub request_email_change_code-accepted :
      (id code : String) (expires : ℕ) (u v : User) (n : ℕ) (w : World env)
      → (request_email_change_code env id w).0 ≡ ok (code, expires, u)
      → n ≤ 600000
      → env.users.doc (request_email_change_code env id w).1.users id ≡ some v
      → Removes id (request_email_change_code env id w).1.users
      → let w' = later env n (request_email_change_code env id w).1 in
        let used = assert_email_change_code env id v code w' in
        (used.0 ≡ ok tt)
        × (env.users.doc used.1.users id ≡ some (cleared v))
        × ((c : String) (k : ℕ)
            → assert_email_change_code env id (cleared v) c (later env k used.1)
              ≡ (err (domain invalid_email_change_code), later env k used.1))
  request_email_change_code-accepted id code expires u v n w h alive stored removes =
      let w' = later env n (request_email_change_code env id w).1 in
      let same = assert-clears id code expires u v n w h alive stored in
      let done = clear-ok id w' removes in
      (
        ap (λ x. x.0) same ∙ done,
        ap (λ x. env.users.doc (World.users x.1) id) same
            ∙ doc-Runs env id cleared (clear_email_change_code env id) v w' (clear-Runs env id)
                stored done,
        λ c k. cleared-refused id c v (later env k (assert_email_change_code env id v code w').1),
      )
