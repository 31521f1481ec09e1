-- ===== src/Auth/Access.antt =====
-- Registration, and login with its lockout, of auth/auth.service.ts.
use api_user.Prelude.{
  ℕ, ◌+◌, ◌*◌, String, false, not, ◌||◌, Option, none, some, [], get_or, ltb, leb, is_some,
  if◌then◌else◌,
}
use api_user.Errors.{
  email_or_username_exists, invalid_credentials, account_locked, account_inactive,
}
use api_user.Exec.{pure, raise, gets, throw_if, when, or_throw, discard, ◌>>=◌, ◌>>◌}
use api_user.Users.{User, user, value, absent, Patch, no_patch}
use api_user.Users.Repository
use api_user.Users.Repository.{NewUser}
use api_user.Users.Service
use api_user.Env.{Env}
use api_user.World.{M, emit, random_uuid, run_in_transaction, user_registered}
use api_user.Auth.{AuthResponse, verification_patch, generate_auth_response}

abbrev pub unlocked_patch : Patch
unlocked_patch = record no_patch { failed_login_attempts = some 0; locked_until = value none }

-- What `register` creates, with the plain password.
abbrev pub registration : (email user_name password name last_name : String) → NewUser
registration email user_name password name last_name = record {
  email = email;
  user_name = user_name;
  password = password;
  name = name;
  last_name = last_name;
  role = user;
  permissions = [];
  is_active = false;
}

module _ (env : Env) where
  -- The callback of `register`'s transaction, which does not use the session.
  unfoldable pub write_registration : NewUser → String → ℕ → M env User
  unfolding Service.create_with_role Service.update
  write_registration d token now = do
    created ← Service.create_with_role env d
    discard (Service.update env created.id (verification_patch token now) false)
    pure created

  unfoldable pub register :
      (email user_name password name last_name : String) (lang : Option String)
      → M env (AuthResponse env)
  unfolding Service.exists_by_email_or_username write_registration run_in_transaction
      generate_auth_response
  register email user_name password name last_name lang = do
    existing ← Service.exists_by_email_or_username env email user_name
    throw_if existing email_or_username_exists
    token ← random_uuid env
    now ← gets (λ w. w.now)
    created ← run_in_transaction env (λ session.
        write_registration (registration email user_name password name last_name) token now)
    emit env (user_registered created.id created.email created.name token lang)
    generate_auth_response env created (some token)

  -- The update after a failed password check; `lockedUntil` is set from the last attempt on.
  unfoldable pub failure_patch : ℕ → User → Patch
  failure_patch now u =
      let attempts = u.failed_login_attempts + 1 in
      record no_patch {
        failed_login_attempts = some attempts;
        locked_until =
            if leb (get_or env.max_login_attempts 5) attempts
            then value (some (now + get_or env.lockout_duration_minutes 15 * 60 * 1000))
            else absent;
      }

  -- `login` once the user is found.
  unfoldable pub login_user : User → String → M env (AuthResponse env)
  unfolding Service.update generate_auth_response failure_patch
  login_user u password = do
    now ← gets (λ w. w.now)
    throw_if (Repository.after now u.locked_until) account_locked
    if not (env.crypto.compare password u.password)
        then (do
          discard (Service.update env u.id (failure_patch now u) false)
          raise invalid_credentials)
        else (do
          when (ltb 0 u.failed_login_attempts || is_some u.locked_until)
              (discard (Service.update env u.id unlocked_patch false))
          throw_if (not u.is_active) account_inactive
          generate_auth_response env u none)

  unfoldable pub login : String → String → M env (AuthResponse env)
  unfolding Repository.find_by_email login_user
  login email password = do
    found ← Repository.find_by_email env email
    u ← or_throw invalid_credentials found
    login_user u password
