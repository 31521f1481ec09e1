-- ===== src/Auth.antt =====
-- auth/auth.service.ts: the token pair of a response, and what its flows share.
pub mod Access
pub mod Recovery
pub mod Addresses
pub mod Tokens
pub mod Guards
pub mod Current
pub mod Lockout
pub mod Opening
pub mod Registration
pub mod Reset
pub mod EmailChange
pub mod Revert
pub mod Verification
pub mod Epochs
pub mod Sessions
use api_user.Prelude.{
  ℕ, zero, suc, ◌+◌, ◌-◌, ◌*◌, ◌/◌, String, Bool, true, false, not, ◌&&◌, ◌||◌, Option, none, some,
  List, [], ◌∷◌, get_or, ltb, leb, is_some, if◌then◌else◌,
}
use Prim.Native.String.{◌++◌}
use api_user.Errors.{
  email_or_username_exists, invalid_credentials, account_locked, account_inactive,
  expired_reset_token, expired_verification_token, expired_confirmation_token,
  no_pending_email_change, email_revert_window_expired, invalid_refresh_token, invalid_token,
}
use api_user.Exec.{
  driver, ok, err, pure, raise, gets, throw_if, when, or_throw, discard, ◌>>=◌, ◌>>◌,
}
use api_user.Users.{
  User, user, value, undefined, Patch, no_patch, Field, email_verification_token,
  email_verification_expires, pending_email, pending_email_token, pending_email_expires,
  previous_email,
}
use api_user.Users.Repository
use api_user.Users.Repository.{NewUser}
use api_user.Users.Service
use api_user.Users.Service.EmailCode.{before, revert_window_ms}
use api_user.Env.{Env, Payload}
use api_user.World.{
  M, emit, random_uuid, run_in_transaction, user_registered, resend_verification as resent,
  forgot_password as forgotten, password_changed, email_change_confirmed,
  email_change_requested_old, email_change_reverted,
}

-- 24 hours, in milliseconds.
abbrev pub day_ms : ℕ
day_ms = 86400000

-- 7 days, in seconds.
abbrev pub refresh_ttl : ℕ
refresh_ttl = 604800

pub record AuthResponse (env : Env) : Type 0 where
  pub id : String
  pub email : String
  pub user_name : String
  pub name : String
  pub last_name : String
  pub access_token : env.crypto.Token
  pub refresh_token : env.crypto.Token
  pub verification_token : Option String

-- The claims that both tokens carry.
abbrev pub base_payload : User → Payload
base_payload u = record {
  sub = u.id;
  email = u.email;
  role = u.role;
  jti = none;
  tv = none;
  exp = none;
}

-- A verification token that is valid for a day.
abbrev pub verification_patch : String → ℕ → Patch
verification_patch token now = record no_patch {
  email_verification_token = value token;
  email_verification_expires = value (now + day_ms);
}

module _ (env : Env) where
  -- The response with both tokens, for a time and a fresh token id.
  abbrev pub auth_response : User → Option String → ℕ → String → AuthResponse env
  auth_response u verification now jti = record {
    id = u.id;
    email = u.email;
    user_name = u.user_name;
    name = u.name;
    last_name = u.last_name;
    access_token = env.crypto.sign (base_payload u) none none now;
    refresh_token =
        env.crypto.sign (record (base_payload u) { tv = some u.session_epoch }) (some refresh_ttl)
          (some jti) now;
    verification_token = verification;
  }

  unfoldable pub generate_auth_response : User → Option String → M env (AuthResponse env)
  generate_auth_response u verification = do
    now ← gets (λ w. w.now)
    jti ← random_uuid env
    pure (auth_response u verification now jti)
