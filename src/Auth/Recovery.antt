-- ===== src/Auth/Recovery.antt =====
-- The password reset and the email verification of auth/auth.service.ts.
use api_user.Prelude.{ℕ, ◌+◌, String, Bool, true, false, Option, none, some, List, [], ◌∷◌}
use api_user.Errors.{expired_reset_token, expired_verification_token}
use api_user.Exec.{pure, gets, throw_if, or_throw, discard, ◌>>=◌, ◌>>◌}
use api_user.Users.{
  User, value, undefined, Patch, no_patch, Field, email_verification_token,
  email_verification_expires,
}
use api_user.Users.Repository
use api_user.Users.Repository.{NewUser}
use api_user.Users.Service
use api_user.Users.Service.EmailCode.{before}
use api_user.Env.{Env}
use api_user.World.{
  M, emit, random_uuid, run_in_transaction, resend_verification as resent,
  forgot_password as forgotten, password_changed,
}
use api_user.Auth.{day_ms, verification_patch}

abbrev pub reset_patch : String → Patch
reset_patch hashed = record no_patch {
  password = some hashed;
  reset_password_token = undefined;
  reset_password_expires = undefined;
}

abbrev pub verified_patch : Patch
verified_patch = record no_patch { is_active = some true }

-- The lists of fields that the transactions remove.
abbrev pub verification_fields : List Field
verification_fields = email_verification_token ∷ email_verification_expires ∷ []

abbrev pub forgotten_patch : String → ℕ → Patch
forgotten_patch token now = record no_patch {
  reset_password_token = value token;
  reset_password_expires = value (now + day_ms);
}

module _ (env : Env) where
  -- `forgotPassword` for the user that was found.
  abbrev pub send_reset : Option String → Option User → M env (Unit {0})
  send_reset lang none = pure tt
  send_reset lang (some u) = do
    token ← random_uuid env
    now ← gets (λ w. w.now)
    discard (Service.update env u.id (forgotten_patch token now) false)
    emit env (forgotten u.id u.email u.name token lang)

  unfoldable pub forgot_password : String → Option String → M env (Unit {0})
  unfolding Repository.find_by_email Service.update
  forgot_password email lang = do found ← Repository.find_by_email env email; send_reset lang found

  -- The callback of `resetPassword`'s transaction.
  unfoldable pub write_reset : String → String → Bool → M env (Unit {0})
  unfolding Service.update Service.bump_session_epoch
  write_reset id hashed session = do
    discard (Service.update env id (reset_patch hashed) session)
    discard (Service.bump_session_epoch env id session)

  -- `resetPassword` once the user is found.
  unfoldable pub reset_found : String → Option String → User → M env (Unit {0})
  unfolding write_reset run_in_transaction
  reset_found new lang u = do
    now ← gets (λ w. w.now)
    throw_if (before now u.reset_password_expires) expired_reset_token
    run_in_transaction env (write_reset u.id (env.crypto.hash new))
    emit env (password_changed u.id u.email u.name lang)

  unfoldable pub reset_password : String → String → Option String → M env (Unit {0})
  unfolding Repository.find_by_reset_token reset_found
  reset_password token new lang = do
    found ← Repository.find_by_reset_token env token
    u ← or_throw expired_reset_token found
    reset_found new lang u

  -- The callback of `verifyEmail`'s transaction, which does not use the session.
  unfoldable pub write_verified : String → M env (Unit {0})
  unfolding Service.update Service.unset_fields
  write_verified id = do
    discard (Service.update env id verified_patch false)
    discard (Service.unset_fields env id verification_fields false)

  -- `verifyEmail` once the user is found.
  unfoldable pub verify_found : User → M env (Unit {0})
  unfolding write_verified run_in_transaction
  verify_found u = do
    now ← gets (λ w. w.now)
    throw_if (before now u.email_verification_expires) expired_verification_token
    run_in_transaction env (λ session. write_verified u.id)

  unfoldable pub verify_email : String → M env (Unit {0})
  unfolding Repository.find_by_email_verification_token verify_found
  verify_email token = do
    found ← Repository.find_by_email_verification_token env token
    u ← or_throw expired_verification_token found
    verify_found u

  unfoldable pub resend_verification :
      (user_id email name : String) (lang : Option String) → M env (Unit {0})
  unfolding Service.update
  resend_verification user_id email name lang = do
    token ← random_uuid env
    now ← gets (λ w. w.now)
    discard (Service.update env user_id (verification_patch token now) false)
    emit env (resent user_id email name token lang)
