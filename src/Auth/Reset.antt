-- ===== src/Auth/Reset.antt =====
-- The password reset of auth/auth.service.ts.
use api_user.Prelude.{◌+◌, String, ◌≡◌, Bool, true, false, Option, none, arith}
use api_user.Errors.{expired_reset_token}
use api_user.Exec.{Failure, ok, err}
use api_user.Users.{User, patched}
use api_user.Users.Repository.{by_reset_token, holds, after}
use api_user.Users.Service.Effects.{Runs-update, Runs-bump_session_epoch, Runs-discard}
use api_user.Env.{Env}
use api_user.World.{World}
use api_user.World.Updates.{Replaces}
use api_user.World.Runs.{
  Runs, Runs-last, runs_rules, Runs-bind, Replaces-found, Runs-run_in_transaction,
}
use api_user.Auth.Recovery.{reset_password, reset_found, reset_patch, write_reset}

module _ (env : Env) where
  -- The user after a reset: the new hash, the next epoch, and no token.
  abbrev pub reset_user : String → User → User
  reset_user new u = record u {
    password = env.crypto.hash new;
    session_epoch = u.session_epoch + 1;
    reset_password_token = none;
    reset_password_expires = none;
  }

  write_reset-Runs :
      (id new : String) (session : Bool)
      → Runs env session id (reset_user new) (write_reset env id (env.crypto.hash new) session)
  unfolding write_reset patched
  write_reset-Runs id new session =
      Runs-bind env session id _ _ _ _
        (Runs-discard env id _ session _
          (Runs-update env id (reset_patch (env.crypto.hash new)) session))
        (λ _. Runs-discard env id _ session _ (Runs-bump_session_epoch env id session))

  -- With a database that gives sessions, a reset that fails has left the committed users as they
  -- were, whatever failed.
  pub reset_password-atomic :
      (token new : String) (lang : Option String) (w : World env) (e : Failure)
      → env.users.start_session w.users ≡ true
      → (reset_password env token new lang w).0 ≡ err e
      → (reset_password env token new lang w).1.users ≡ w.users
  unfolding reset_password
  reset_password-atomic token new lang w e s h = ground arith

  -- The method once the user is found.
  reset_found-Runs :
      (new : String) (lang : Option String) (u : User)
      → Runs env false u.id (reset_user new) (reset_found env new lang u)
  unfolding reset_found
  reset_found-Runs new lang u =
      search (runs_rules, Runs-last, Runs-run_in_transaction, write_reset-Runs)

  -- A reset that succeeds was given an unexpired token of a stored user, and has changed that user
  -- alone: the hash of the new password, the next session epoch, and no reset token. This also
  -- holds where the database gives no sessions.
  pub reset_password-Replaces :
      (token new : String) (lang : Option String) (w : World env)
      → (reset_password env token new lang w).0 ≡ ok tt
      → (u : User) × (holds token u.reset_password_token ≡ true)
        × (after w.now u.reset_password_expires ≡ true)
        × Replaces env w.users (reset_password env token new lang w).1.users u (reset_user new u)
  unfolding reset_password
  reset_password-Replaces token new lang w h =
      let (u, test, replaced) =
        Replaces-found env (by_reset_token token w.now) expired_reset_token (λ _. reset_user new)
          (reset_found env new lang) w tt (reset_found-Runs new lang) h in
      (u, ground (arith, test), ground (arith, test), replaced)
