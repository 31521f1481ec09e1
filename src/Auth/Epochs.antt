-- ===== src/Auth/Epochs.antt =====
-- No request of auth/auth.service.ts lowers a session epoch, drops a user or touches the code of an
-- email change.
use api_user.Prelude.{ℕ, String, ◌≡◌, refl, Bool, Option, none, some, false, arith}
use api_user.Users.{User}
use api_user.Users.Repository
use api_user.Users.Repository.{NewUser}
use api_user.Users.Service.Epochs.{
  Grows-update, Grows-unset_fields, Grows-bump_session_epoch, Grows-discard, Grows-create_with_role,
  Grows-exists_by_email_or_username, Grows-find_by_id,
}
use api_user.Users.Service.Changes.{nothing}
use api_user.Users.Service.Requests.{Grows-if}
use api_user.Env.{Env}
use api_user.World.{World}
use api_user.World.Epochs.{
  Mode, Carried-refl, Grows, Grows-pure, epoch_rules, Grows-run_in_transaction,
}
use api_user.Auth
use api_user.Auth.Access
use api_user.Auth.Addresses
use api_user.Auth.Recovery
use api_user.Auth.Tokens

module _ (env : Env) (mode : Mode) where
  generate-Grows :
      (u : User) (t : Option String) → Grows env mode false (Auth.generate_auth_response env u t)
  unfolding Auth.generate_auth_response
  generate-Grows u t = search epoch_rules

  write_registration-Grows :
      (d : NewUser) (token : String) (now : ℕ) (session : Bool)
      → Grows env mode session (Access.write_registration env d token now)
  unfolding Access.write_registration
  write_registration-Grows d token now session =
      search (epoch_rules, Grows-discard, Grows-update, Grows-create_with_role, nothing)

  pub register-Grows :
      (email user_name password name last_name : String) (lang : Option String)
      → Grows env mode false (Access.register env email user_name password name last_name lang)
  unfolding Access.register
  register-Grows email user_name password name last_name lang =
      search
        (
          epoch_rules, Grows-exists_by_email_or_username, Grows-run_in_transaction,
          write_registration-Grows, generate-Grows,
        )
        depth 14

  login_user-Grows :
      (u : User) (password : String) → Grows env mode false (Access.login_user env u password)
  unfolding Access.login_user
  login_user-Grows u password =
      search (epoch_rules, Grows-if, Grows-discard, Grows-update, generate-Grows) depth 12

  pub login-Grows :
      (email password : String) → Grows env mode false (Access.login env email password)
  unfolding Access.login Repository.find_by_email
  login-Grows email password = search (epoch_rules, login_user-Grows)

  send_reset-Grows :
      (lang : Option String) (o : Option User)
      → Grows env mode false (Recovery.send_reset env lang o)
  send_reset-Grows lang none = Grows-pure env mode false tt
  send_reset-Grows lang (some u) =
      search (epoch_rules, Grows-discard, Grows-update, nothing) depth 9

  pub forgot_password-Grows :
      (email : String) (lang : Option String)
      → Grows env mode false (Recovery.forgot_password env email lang)
  unfolding Recovery.forgot_password Repository.find_by_email
  forgot_password-Grows email lang = search (epoch_rules, send_reset-Grows)

  write_reset-Grows :
      (id hashed : String) (session : Bool)
      → Grows env mode session (Recovery.write_reset env id hashed session)
  unfolding Recovery.write_reset
  write_reset-Grows id hashed session =
      search (epoch_rules, Grows-discard, Grows-update, Grows-bump_session_epoch, nothing)

  reset_found-Grows :
      (new : String) (lang : Option String) (u : User)
      → Grows env mode false (Recovery.reset_found env new lang u)
  unfolding Recovery.reset_found
  reset_found-Grows new lang u =
      search (epoch_rules, Grows-run_in_transaction, write_reset-Grows) depth 9

  pub reset_password-Grows :
      (token new : String) (lang : Option String)
      → Grows env mode false (Recovery.reset_password env token new lang)
  unfolding Recovery.reset_password
  reset_password-Grows token new lang = search (epoch_rules, reset_found-Grows)

  write_verified-Grows :
      (id : String) (session : Bool) → Grows env mode session (Recovery.write_verified env id)
  unfolding Recovery.write_verified
  write_verified-Grows id session =
      search (epoch_rules, Grows-discard, Grows-update, Grows-unset_fields, nothing)

  verify_found-Grows : (u : User) → Grows env mode false (Recovery.verify_found env u)
  unfolding Recovery.verify_found
  verify_found-Grows u = search (epoch_rules, Grows-run_in_transaction, write_verified-Grows)

  pub verify_email-Grows : (token : String) → Grows env mode false (Recovery.verify_email env token)
  unfolding Recovery.verify_email
  verify_email-Grows token = search (epoch_rules, verify_found-Grows)

  write_confirmed-Grows :
      (u : User) (new_email token : String) (expires : ℕ) (session : Bool)
      → Grows env mode session (Addresses.write_confirmed env u new_email token expires session)
  unfolding Addresses.write_confirmed
  write_confirmed-Grows u new_email token expires session =
      search
        (
          epoch_rules, Grows-discard, Grows-update, Grows-unset_fields, Grows-bump_session_epoch,
          nothing,
        )
        depth 9

  confirm_apply-Grows :
      (lang : Option String) (u : User) (e : String)
      → Grows env mode false (Addresses.confirm_apply env lang u e)
  unfolding Addresses.confirm_apply
  confirm_apply-Grows lang u e =
      search (epoch_rules, Grows-run_in_transaction, write_confirmed-Grows) depth 9

  confirm_found-Grows :
      (lang : Option String) (u : User) → Grows env mode false (Addresses.confirm_found env lang u)
  unfolding Addresses.confirm_found
  confirm_found-Grows lang u = search (epoch_rules, confirm_apply-Grows) depth 9

  pub confirm_email_change-Grows :
      (token : String) (lang : Option String)
      → Grows env mode false (Addresses.confirm_email_change env token lang)
  unfolding Addresses.confirm_email_change
  confirm_email_change-Grows token lang = search (epoch_rules, confirm_found-Grows)

  write_reverted-Grows :
      (id restored : String) (session : Bool)
      → Grows env mode session (Addresses.write_reverted env id restored session)
  unfolding Addresses.write_reverted
  write_reverted-Grows id restored session =
      search
        (
          epoch_rules, Grows-discard, Grows-update, Grows-unset_fields, Grows-bump_session_epoch,
          nothing,
        )
        depth 9

  revert_apply-Grows :
      (lang : Option String) (u : User) (e : String)
      → Grows env mode false (Addresses.revert_apply env lang u e)
  unfolding Addresses.revert_apply
  revert_apply-Grows lang u e =
      search (epoch_rules, Grows-run_in_transaction, write_reverted-Grows) depth 9

  revert_to-Grows :
      (lang : Option String) (u : User) (o : Option String)
      → Grows env mode false (Addresses.revert_to env lang u o)
  revert_to-Grows lang u none = Grows-pure env mode false tt
  revert_to-Grows lang u (some e) = search (epoch_rules, revert_apply-Grows) depth 9

  pub revert_email_change-Grows :
      (token : String) (lang : Option String)
      → Grows env mode false (Addresses.revert_email_change env token lang)
  unfolding Addresses.revert_email_change Repository.find_by_email_revert_token
  revert_email_change-Grows token lang = search (epoch_rules, revert_to-Grows)

  pub resend_verification-Grows :
      (id email name : String) (lang : Option String)
      → Grows env mode false (Recovery.resend_verification env id email name lang)
  unfolding Recovery.resend_verification
  resend_verification-Grows id email name lang =
      search (epoch_rules, Grows-discard, Grows-update, nothing) depth 9

  verify_payload-Grows :
      (token : env.crypto.Token) → Grows env mode false (Tokens.verify_refresh_payload env token)
  unfolding Tokens.verify_refresh_payload
  verify_payload-Grows token = search epoch_rules

  is_jti_revoked-Grows : (jti : String) → Grows env mode false (Tokens.is_jti_revoked env jti)
  unfolding Tokens.is_jti_revoked
  is_jti_revoked-Grows jti = record {
    users = λ w. Carried-refl env mode w.users;
    target = λ w. Carried-refl env mode w.users;
    redis = λ w. refl;
  }

  pub refresh_token-Grows :
      (token : env.crypto.Token) → Grows env mode false (Tokens.refresh_token env token)
  unfolding Tokens.refresh_token
  refresh_token-Grows token =
      search
        (epoch_rules, Grows-find_by_id, verify_payload-Grows, is_jti_revoked-Grows, generate-Grows)
        depth 14

  -- A logout leaves the users alone.
  pub users-logout :
      (token : env.crypto.Token) (w : World env) → (Tokens.logout env token w).1.users ≡ w.users
  unfolding Tokens.logout
  users-logout token w = ground arith

  pub logout_all-Grows : (id : String) → Grows env mode false (Tokens.logout_all env id)
  unfolding Tokens.logout_all
  logout_all-Grows id = search (Grows-discard, Grows-bump_session_epoch)
