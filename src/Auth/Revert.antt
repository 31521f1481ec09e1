-- ===== src/Auth/Revert.antt =====
-- Undoing an email change, in auth/auth.service.ts.
use api_user.Prelude.{
  ◌+◌, String, ◌≡◌, Bool, true, false, ◌⊎◌, inl, inr, Option, none, some, arith, Option-cases,
  Bool-cases,
}
use api_user.Errors.{invalid_token}
use api_user.Exec.{Failure, ok, err}
use api_user.Exec.Inversion.{or_throw-bind-ok}
use api_user.Users.{User, patched, unset_all}
use api_user.Users.Repository.{holds}
use api_user.Users.Service.EmailCode.{before}
use api_user.Env.{Env}
use api_user.World.{World}
use api_user.World.Updates.{Updates-Replaces, Replaces}
use api_user.World.Runs.{Runs, Runs-last, runs_rules, Runs-run_in_transaction}
use api_user.Auth.Addresses.{
  reverted_patch, reverted_fields, write_reverted, revert_apply, revert_to, revert_email_change,
}
use api_user.Auth.EmailChange.{write_email-Runs}

-- The user after a revert: the restored address, nothing pending, and the next epoch. The token
-- stays, so that a second call finds it.
abbrev pub reverted_user : String → User → User
reverted_user restored u = record u {
  email = restored;
  previous_email = none;
  pending_email = none;
  pending_email_token = none;
  pending_email_expires = none;
  session_epoch = u.session_epoch + 1;
}

module _ (env : Env) where
  write_reverted-Runs :
      (id restored : String) (session : Bool)
      → Runs env session id (reverted_user restored) (write_reverted env id restored session)
  unfolding write_reverted patched unset_all
  write_reverted-Runs id restored session =
      write_email-Runs env id (reverted_patch restored) reverted_fields session

  revert_apply-Runs :
      (lang : Option String) (u : User) (restored : String)
      → Runs env false u.id (reverted_user restored) (revert_apply env lang u restored)
  unfolding revert_apply
  revert_apply-Runs lang u restored =
      search (runs_rules, Runs-last, Runs-run_in_transaction, write_reverted-Runs)

  -- A revert that fails has left the committed users as they were, where the database gives
  -- sessions.
  pub revert_email_change-atomic :
      (token : String) (lang : Option String) (w : World env) (e : Failure)
      → env.users.start_session w.users ≡ true
      → (revert_email_change env token lang w).0 ≡ err e
      → (revert_email_change env token lang w).1.users ≡ w.users
  unfolding revert_email_change
  revert_email_change-atomic token lang w e s h = ground arith

  -- What a revert that returned did: nothing at all, where there is no previous address, or it
  -- restored that address within the window.
  abbrev pub Reverted : World env → World env → User → Type 0
  Reverted w w' u =
      ((u.previous_email ≡ none) × (w' ≡ w))
      ⊎ ((restored : String) × (u.previous_email ≡ some restored)
          × (before w.now u.email_revert_expires ≡ false)
          × Replaces env w.users w'.users u (reverted_user restored u))

  revert_to-Reverted :
      (lang : Option String) (u : User) (w : World env)
      → env.users.doc w.users u.id ≡ some u
      → (revert_to env lang u u.previous_email w).0 ≡ ok tt
      → Reverted w (revert_to env lang u u.previous_email w).1 u
  revert_to-Reverted lang u w stored h = elim (Option-cases u.previous_email) [
    | inl gone ↦ inl (gone, ground arith)
    | inr (e, previous) ↦ elim (Bool-cases (before w.now u.email_revert_expires)) [
      | inl late ↦ absurd (ground arith)
      | inr in_time ↦
          let same : revert_to env lang u u.previous_email w ≡ revert_apply env lang u e w =
            ground arith in
          inr (
            e,
            previous,
            in_time,
            rw same (
                Updates-Replaces env w.users _ (reverted_user e) u stored
                  ((revert_apply-Runs lang u e).at w tt (rw same at h))),
          )
    ]
  ]

  -- A revert that succeeds was given the token of a stored user. It has changed nothing, the
  -- events included, if that user has no previous address (so a repeated revert is idempotent);
  -- else, within the window, it has restored the previous address, dropped any pending change and
  -- moved to the next session epoch, in that user alone.
  pub revert_email_change-Reverted :
      (token : String) (lang : Option String) (w : World env)
      → (revert_email_change env token lang w).0 ≡ ok tt
      → (u : User) × (holds token u.email_revert_token ≡ true)
        × Reverted w (revert_email_change env token lang w).1 u
  unfolding revert_email_change
  revert_email_change-Reverted token lang w h =
      let (u, found, same, h1) =
        or_throw-bind-ok invalid_token
          (env.users.find_one w.users (λ v. holds token v.email_revert_token))
          (λ v. revert_to env lang v v.previous_email) w h in
      (
        u,
        env.users.find_one-test w.users _ u found,
        rw same (revert_to-Reverted lang u w (env.users.find_one-doc w.users _ u found) h1),
      )
