-- ===== src/Auth/Registration.antt =====
-- The registration of auth/auth.service.ts.
use api_user.Prelude.{
  ℕ, [], ◌+◌, String, ◌≡◌, refl, ◌∙◌, sym, ap, false, Option, none, some, ◌==◌, eq_refl, arith,
  Option-cases, inl, inr,
}
use mathlib.Core.Path.{subst}
use api_user.Errors.{email_or_username_exists}
use api_user.Exec.{ok, gets, throw_if, ◌>>=◌, ◌>>◌}
use api_user.Exec.Inversion.{continue-eq-ok, bind-ok}
use api_user.Users.{User, user, patched, id-patched}
use api_user.Users.Service
use api_user.Users.Repository.{NewUser, new_document}
use api_user.Env.{Env}
use api_user.World.{World, M, random_uuid, emit, user_registered, run_in_transaction}
use api_user.World.Runs.{transaction_outside-ok}
use api_user.World.Updates.{Updates-update_one}
use api_user.Auth.{AuthResponse, generate_auth_response, day_ms, verification_patch}
use api_user.Auth.Access.{registration, write_registration, register}

module _ (env : Env) where
  -- The new user of a registration, with a token for a day.
  abbrev pub registered : NewUser → World env → User
  registered d w =
      record (new_document (env.crypto.object_id (w.drawn + 1)) w.now
        (record d { password = env.crypto.hash d.password })) {
          email_verification_token = some (env.crypto.uuid w.drawn);
          email_verification_expires = some (w.now + day_ms);
        }

  -- What a registration has done to the users.
  record Written (d : NewUser) (token : String) (now : ℕ) (w : World env) (t : env.users.State)
      : Type 0 where
    inserted : env.users.State
    no_name : env.users.find_one w.users (λ u. u.user_name == d.user_name) ≡ none
    no_email : env.users.find_one w.users (λ u. u.email == d.email) ≡ none
    insert :
        env.users.insert_one w.users (
          new_document
            (env.crypto.object_id w.drawn)
            w.now
            (record d { password = env.crypto.hash d.password }))
        ≡ some inserted
    update :
        env.users.update_one inserted
          (env.crypto.object_id w.drawn)
          (patched false (verification_patch token now))
        ≡ some t

  write_registration-Written :
      (d : NewUser) (token : String) (now : ℕ) (w : World env) (u : User)
      → (write_registration env d token now w).0 ≡ ok u
      → Written d token now w (write_registration env d token now w).1.users
  write_registration-Written d token now w u h =
      elim (Option-cases (env.users.find_one w.users (λ v. v.user_name == d.user_name))) [
        | inr (v, taken) ↦ absurd (unfold write_registration in ground arith)
        | inl no_name ↦ elim (Option-cases (env.users.find_one w.users (λ v. v.email == d.email))) [
          | inr (v, taken) ↦ absurd (unfold write_registration in ground arith)
          | inl no_email ↦
              let doc =
                new_document (env.crypto.object_id w.drawn) w.now
                  (record d { password = env.crypto.hash d.password }) in
              elim (Option-cases (env.users.insert_one w.users doc)) [
                | inl down ↦ absurd (unfold write_registration in ground arith)
                | inr (t, insert) ↦
                    elim (Option-cases (
                      env.users.update_one t (env.crypto.object_id w.drawn)
                        (patched false (verification_patch token now)))) [
                          | inl down ↦
                              absurd
                                (unfold write_registration in unfold new_document in ground arith)
                          | inr (t', update) ↦ record {
                            inserted = t;
                            no_name = no_name;
                            no_email = no_email;
                            insert = insert;
                            update =
                                update
                                ∙ unfold write_registration in unfold new_document in ground arith;
                          }
                        ]
              ]
        ]
      ]

  session-write_registration :
      (d : NewUser) (token : String) (now : ℕ) (w : World env)
      → (write_registration env d token now w).1.session ≡ w.session
  session-write_registration d token now w = unfold write_registration in ground arith

  -- What `register` stores: a user who is not active and has the role `user`.
  abbrev pub registered_user : (email user_name password name last_name : String) → World env → User
  registered_user email user_name password name last_name w =
      record (registered (registration email user_name password name last_name) w) {
        role = user;
        permissions = [];
        is_active = false;
      }

  -- What a registration that succeeded has found and stored.
  pub record Registered (d : NewUser) (v : User) (w : World env) (t : env.users.State)
      : Type 0 where
    pub new_name :
        (k : String) (u : User)
        → env.users.doc w.users k ≡ some u
        → (u.user_name == d.user_name) ≡ false
    pub new_email :
        (k : String) (u : User) → env.users.doc w.users k ≡ some u → (u.email == d.email) ≡ false
    pub new_id : env.users.doc w.users v.id ≡ none
    pub stored : env.users.doc t v.id ≡ some v
    pub others : (j : String) → (v.id == j) ≡ false → env.users.doc t j ≡ env.users.doc w.users j

  Written-Registered :
      (d : NewUser) (w : World env) (s : Option env.users.State) (t : env.users.State)
      → Written d (env.crypto.uuid w.drawn) w.now (record w { session = s; drawn = w.drawn + 1 }) t
      → Registered d (registered d w) w t
  unfolding new_document patched
  Written-Registered d w s t x =
      let id = env.crypto.object_id (w.drawn + 1) in
      let doc = new_document id w.now (record d { password = env.crypto.hash d.password }) in
      let p = verification_patch (env.crypto.uuid w.drawn) w.now in
      let inserted = env.users.doc-insert_one w.users x.inserted doc x.insert in
      let updated =
        (Updates-update_one env x.inserted t id (patched false p) (id-patched false p)
          x.update).at in
      record {
        new_name = λ k v stored. env.users.find_one-none w.users _ k v x.no_name stored;
        new_email = λ k v stored. env.users.find_one-none w.users _ k v x.no_email stored;
        new_id = env.users.insert_one-fresh w.users x.inserted doc x.insert;
        stored = ground (arith, updated id, inserted id, eq_refl id);
        others = λ j other. ground (arith, updated j, inserted j, other);
      }

  -- The registration once the address and the name are free.
  abbrev written : NewUser → Option String → M env (AuthResponse env)
  written d lang = do
    token ← random_uuid env
    now ← gets (λ w. w.now)
    created ← run_in_transaction env (λ session. write_registration env d token now)
    emit env (user_registered created.id created.email created.name token lang)
    generate_auth_response env created (some token)

  written-Registered :
      (d : NewUser) (lang : Option String) (w : World env) (r : AuthResponse env)
      → (written d lang w).0 ≡ ok r
      → Registered d (registered d w) w (written d lang w).1.users
  written-Registered d lang w r h =
      let token = env.crypto.uuid w.drawn in
      let w1 = record w { drawn = w.drawn + 1 } in
      let transaction = run_in_transaction env (λ session. write_registration env d token w.now) in
      let (u, ok_u, same, _) =
        continue-eq-ok (transaction w1).0
          (λ created.
            emit env (user_registered created.id created.email created.name token lang)
            >> generate_auth_response env created (some token))
          (transaction w1).1 h in
      let (s, returned, users) =
        transaction_outside-ok env (write_registration env d token w.now) w1 u
          (session-write_registration d token w.now) ok_u in
      let kept : (written d lang w).1.users ≡ (transaction w1).1.users =
        unfold generate_auth_response in ap (λ x. World.users x.1) same in
      subst (Registered d (registered d w) w) (sym (kept ∙ users)) (
        Written-Registered d w s _
          (write_registration-Written d token w.now (record w1 { session = s }) u returned))

  free_names :
      (email user_name : String) (w : World env)
      → env.users.find_one w.users (λ v. v.email == email) ≡ none
      → env.users.find_one w.users (λ v. v.user_name == user_name) ≡ none
      → Service.exists_by_email_or_username env email user_name w ≡ (ok false, w)
  unfolding Service.exists_by_email_or_username
  free_names email user_name w free free' = rw (free, free') refl

  -- A registration that succeeds was for an address and a user name that no stored user has. It has
  -- stored a user that is new, not active, of the role `user`, with the hash of the password and a
  -- verification token for a day, and has changed no other user. This holds with database sessions
  -- and without.
  pub register-Registered :
      (email user_name password name last_name : String) (lang : Option String) (w : World env)
      (r : AuthResponse env)
      → (register env email user_name password name last_name lang w).0 ≡ ok r
      → Registered
          (registration email user_name password name last_name)
          (registered_user email user_name password name last_name w)
          w
          (register env email user_name password name last_name lang w).1.users
  unfolding new_document
  register-Registered email user_name password name last_name lang w r h =
      let d = registration email user_name password name last_name in
      elim (Option-cases (env.users.find_one w.users (λ v. v.email == email))) [
        | inr (v, taken) ↦ absurd (unfold register in ground arith)
        | inl free ↦
            elim (Option-cases (env.users.find_one w.users (λ v. v.user_name == user_name))) [
              | inr (v, taken) ↦ absurd (unfold register in ground arith)
              | inl free' ↦
                  let same : register env email user_name password name last_name lang w
                      ≡ written d lang w =
                    unfold register in
                    bind-ok (Service.exists_by_email_or_username env email user_name)
                      (λ existing. throw_if existing email_or_username_exists >> written d lang) w w
                      false (free_names email user_name w free free') in
                  subst (λ x. Registered d (registered d w) w (World.users x.1)) (sym same)
                    (written-Registered d lang w r (rw same at h))
            ]
      ]
