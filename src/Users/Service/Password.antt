-- ===== src/Users/Service/Password.antt =====
-- The password change of user/service/user.service.ts.
use api_user.Prelude.{◌+◌, String, ◌≡◌, Bool, true, false, some, arith}
use api_user.Errors.{user_not_found}
use api_user.Exec.{Failure, ok, err}
use api_user.Users.{User, patched}
use api_user.Users.Service.{password_patch, write_password, change_found, change_password}
use api_user.Users.Service.Effects.{Runs-repository_update, Runs-bump_session_epoch, Runs-discard}
use api_user.Env.{Env}
use api_user.World.{World}
use api_user.World.Updates.{Replaces}
use api_user.World.Runs.{Runs, Runs-bind, runs_rules, Runs-run_in_transaction, Replaces-by_id}

module _ (env : Env) where
  -- The user after a change: the new hash and the next epoch.
  abbrev pub changed_user : String → User → User
  changed_user new u = record u {
    password = env.crypto.hash new;
    session_epoch = u.session_epoch + 1;
  }

  write_password-Runs :
      (id new : String) (session : Bool)
      → Runs env session id (changed_user new) (write_password env id (env.crypto.hash new) session)
  unfolding write_password patched
  write_password-Runs id new session =
      Runs-bind env session id _ _ _ _
        (Runs-discard env id _ session _
          (Runs-repository_update env id (password_patch (env.crypto.hash new)) session))
        (λ _. Runs-discard env id _ session _ (Runs-bump_session_epoch env id session))

  -- A password change that fails has left the committed users as they were, where the database
  -- gives sessions.
  pub change_password-atomic :
      (id current new : String) (w : World env) (e : Failure)
      → env.users.start_session w.users ≡ true
      → (change_password env id current new w).0 ≡ err e
      → (change_password env id current new w).1.users ≡ w.users
  unfolding change_password
  change_password-atomic id current new w e s h = ground arith

  change_found-Runs :
      (id current new : String) (u : User)
      → Runs env false id (changed_user new) (change_found env id current new u)
  unfolding change_found
  change_found-Runs id current new u =
      search (runs_rules, Runs-run_in_transaction, write_password-Runs)

  change_found-compare :
      (id current new : String) (u : User) (w : World env)
      → (change_found env id current new u w).0 ≡ ok tt
      → env.crypto.compare current u.password ≡ true
  change_found-compare id current new u w h = unfold change_found in ground arith

  -- A password change that succeeds was given the current password of the stored user, and has
  -- changed that user alone: the hash of the new password and the next session epoch, which ends
  -- every session opened before.
  pub change_password-Replaces :
      (id current new : String) (w : World env)
      → (change_password env id current new w).0 ≡ ok tt
      → (u : User) × (env.users.doc w.users id ≡ some u)
        × (env.crypto.compare current u.password ≡ true)
        × Replaces env w.users (change_password env id current new w).1.users u (changed_user new u)
  unfolding change_password
  change_password-Replaces id current new w h =
      let (u, found, passed, replaced) =
        Replaces-by_id env id user_not_found (λ _. changed_user new)
          (change_found env id current new) w tt (change_found-Runs id current new) h in
      (u, found, change_found-compare id current new u w passed, replaced)
