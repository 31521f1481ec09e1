-- ===== src/Auth/Verification.antt =====
-- Email verification in auth/auth.service.ts.
use api_user.Prelude.{String, ◌≡◌, true, false, none, some, arith, Bool-cases, inl, inr}
use api_user.Errors.{expired_verification_token}
use api_user.Exec.{ok, err, driver}
use api_user.Users.{User, patched, unset_all}
use api_user.Users.Repository.{by_verification_token}
use api_user.Users.Service.Effects.{Runs-update, Runs-unset_fields, Runs-discard}
use api_user.Env.{Env}
use api_user.World.{World}
use api_user.World.Updates.{Replaces}
use api_user.World.Runs.{Runs, Runs-bind, runs_rules, Runs-transaction_outside, Replaces-found}
use api_user.Auth.Recovery.{
  verified_patch, verification_fields, write_verified, verify_found, verify_email,
}

abbrev pub verified_user : User → User
verified_user u = record u {
  is_active = true;
  email_verification_token = none;
  email_verification_expires = none;
}

module _ (env : Env) where
  write_verified-Runs : (id : String) → Runs env false id verified_user (write_verified env id)
  unfolding write_verified patched unset_all
  write_verified-Runs id =
      Runs-bind env false id (patched false verified_patch) (unset_all verification_fields) _ _
        (Runs-discard env id _ false _ (Runs-update env id verified_patch false))
        (λ _. Runs-discard env id _ false _ (Runs-unset_fields env id verification_fields false))

  session-write_verified :
      (id : String) (w : World env) → (write_verified env id w).1.session ≡ w.session
  unfolding write_verified
  session-write_verified id w = ground arith

  verify_found-Runs : (u : User) → Runs env false u.id verified_user (verify_found env u)
  unfolding verify_found
  verify_found-Runs u =
      search (runs_rules, Runs-transaction_outside, session-write_verified, write_verified-Runs)

  -- A verification that succeeds was given an unexpired token of a stored user, and has changed
  -- that user alone: the account is active and the token is gone. Nothing else of the user is
  -- looked at or changed: an account that an administrator deactivated or deleted becomes active
  -- too, and keeps its date of deletion.
  pub verify_email-Replaces :
      (token : String) (w : World env)
      → (verify_email env token w).0 ≡ ok tt
      → (u : User) × (by_verification_token token w.now u ≡ true)
        × Replaces env w.users (verify_email env token w).1.users u (verified_user u)
  unfolding verify_email
  verify_email-Replaces token w h =
      Replaces-found env (by_verification_token token w.now) expired_verification_token
        (λ _. verified_user) (verify_found env) w tt verify_found-Runs h

  -- The transaction of a verification does not cover its writes, whether the database gives
  -- sessions or not: if the second write fails, the verification fails and the first one stays
  -- committed.
  pub verify_email-partial :
      (token : String) (u : User) (s : env.users.State) (w : World env)
      → env.users.find_one w.users (by_verification_token token w.now) ≡ some u
      → env.users.update_one w.users u.id (patched false verified_patch) ≡ some s
      → env.users.update_one s u.id (unset_all verification_fields) ≡ none
      → ((verify_email env token w).0 ≡ err driver) × ((verify_email env token w).1.users ≡ s)
  verify_email-partial token u s w found first second =
      let test = env.users.find_one-test w.users (by_verification_token token w.now) u found in
      elim (Bool-cases (env.users.start_session w.users)) [
        | inl given ↦ (
          unfold verify_email in ground (arith, test),
          unfold verify_email in ground (arith, test),
        )
        | inr refused ↦ (
          unfold verify_email in ground (arith, test),
          unfold verify_email in ground (arith, test),
        )
      ]
