-- ===== src/Errors/Codes.antt =====
-- No two kinds of common/errors/error-kind.ts share a code.
use api_user.Prelude.{
  ◌≤◌, arith, String, ◌≡◌, refl, ap, ◌∙◌, sym, List, [], ◌∷◌, Option, none, some, ◌==◌,
  if◌then◌else◌,
}
use api_user.Errors.{
  ErrorKind, internal, app_error, app_version_not_found, entity_not_found,
  entity_name_already_exists, entity_email_already_exists, user_not_found, user_already_deleted,
  validation_error, role_in_use, email_or_username_exists, invalid_credentials, account_locked,
  account_inactive, expired_reset_token, expired_verification_token, expired_confirmation_token,
  no_pending_email_change, invalid_refresh_token, invalid_email_change_code,
  email_revert_window_expired, invalid_token, forbidden, current_password_incorrect,
  email_already_exists, template_slug_already_exists, template_not_found, template_file_not_found,
  parameter_not_found, parameter_overridden, parameter_value_invalid, microservice_unavailable,
  code, status_code,
}

-- The registry's entries in order.
abbrev registry : List ErrorKind
registry =
    internal ∷ app_error ∷ app_version_not_found ∷ entity_not_found ∷ entity_name_already_exists
    ∷ entity_email_already_exists ∷ user_not_found ∷ user_already_deleted ∷ validation_error
    ∷ role_in_use ∷ email_or_username_exists ∷ invalid_credentials ∷ account_locked
    ∷ account_inactive ∷ expired_reset_token ∷ expired_verification_token
    ∷ expired_confirmation_token ∷ no_pending_email_change ∷ invalid_refresh_token
    ∷ invalid_email_change_code ∷ email_revert_window_expired ∷ invalid_token ∷ forbidden
    ∷ current_password_incorrect ∷ email_already_exists ∷ template_slug_already_exists
    ∷ template_not_found ∷ template_file_not_found ∷ parameter_not_found ∷ parameter_overridden
    ∷ parameter_value_invalid ∷ microservice_unavailable ∷ []

-- The first kind with a code.
kind_of : List ErrorKind → String → Option ErrorKind
unfolding code
kind_of [] c = none
kind_of (k ∷ ks) c = if code k == c then some k else kind_of ks c

kind_of-code : (k : ErrorKind) → kind_of registry (code k) ≡ some k
unfolding kind_of
kind_of-code internal = refl
kind_of-code _ = refl

some_inj : {a b : ErrorKind} → some a ≡ some b → a ≡ b
some_inj h = cc

-- Two error kinds with the same code are the same kind.
pub code-injective : (a b : ErrorKind) → code a ≡ code b → a ≡ b
code-injective a b h = some_inj (sym (kind_of-code a) ∙ ap (kind_of registry) h ∙ kind_of-code b)

-- Every kind answers with the status of an error.
status_code-range : (k : ErrorKind) → (400 ≤ status_code k) × (status_code k ≤ 599)
unfolding status_code
status_code-range internal = (omega arith, omega arith)
status_code-range _ = (omega arith, omega arith)
