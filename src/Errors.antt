-- ===== src/Errors.antt =====
-- common/errors/error-kind.ts and domain.error.ts: the registry of domain errors.
pub mod Codes
use Prim.Native.Nat.{ℕ}
use Prim.Native.String.{String}

-- The keys of the `ErrorKind` registry.
pub data ErrorKind : Type 0 where
  internal app_error app_version_not_found entity_not_found : ErrorKind
  entity_name_already_exists entity_email_already_exists : ErrorKind
  user_not_found user_already_deleted validation_error role_in_use : ErrorKind
  email_or_username_exists invalid_credentials account_locked account_inactive : ErrorKind
  expired_reset_token expired_verification_token expired_confirmation_token : ErrorKind
  no_pending_email_change invalid_refresh_token invalid_email_change_code : ErrorKind
  email_revert_window_expired invalid_token forbidden : ErrorKind
  current_password_incorrect email_already_exists : ErrorKind
  template_slug_already_exists template_not_found template_file_not_found : ErrorKind
  parameter_not_found parameter_overridden parameter_value_invalid : ErrorKind
  microservice_unavailable : ErrorKind

-- The `code` column of the registry.
unfoldable pub code : ErrorKind → String
code internal = "UA-COM-001"
code app_error = "UA-APP-001"
code app_version_not_found = "UA-APP-002"
code entity_not_found = "UA-COM-002"
code entity_name_already_exists = "UA-COM-003"
code entity_email_already_exists = "UA-COM-004"
code user_not_found = "UA-USR-001"
code user_already_deleted = "UA-USR-002"
code validation_error = "UA-COM-005"
code role_in_use = "UA-RBAC-001"
code email_or_username_exists = "UA-AUTH-001"
code invalid_credentials = "UA-AUTH-002"
code account_locked = "UA-AUTH-003"
code account_inactive = "UA-AUTH-004"
code expired_reset_token = "UA-AUTH-005"
code expired_verification_token = "UA-AUTH-006"
code expired_confirmation_token = "UA-AUTH-007"
code no_pending_email_change = "UA-AUTH-008"
code invalid_refresh_token = "UA-AUTH-009"
code invalid_email_change_code = "UA-AUTH-010"
code email_revert_window_expired = "UA-AUTH-011"
code invalid_token = "UA-SEC-001"
code forbidden = "UA-SEC-002"
code current_password_incorrect = "UA-USR-003"
code email_already_exists = "UA-USR-004"
code template_slug_already_exists = "UA-EML-001"
code template_not_found = "UA-EML-002"
code template_file_not_found = "UA-EML-003"
code parameter_not_found = "UA-PAR-001"
code parameter_overridden = "UA-PAR-002"
code parameter_value_invalid = "UA-PAR-003"
code microservice_unavailable = "UA-APP-003"

-- The `statusCode` column of the registry.
unfoldable status_code : ErrorKind → ℕ
status_code internal = 500
status_code app_error = 500
status_code app_version_not_found = 404
status_code entity_not_found = 404
status_code entity_name_already_exists = 409
status_code entity_email_already_exists = 409
status_code user_not_found = 404
status_code user_already_deleted = 410
status_code validation_error = 400
status_code role_in_use = 409
status_code email_or_username_exists = 409
status_code invalid_credentials = 401
status_code account_locked = 423
status_code account_inactive = 401
status_code expired_reset_token = 400
status_code expired_verification_token = 400
status_code expired_confirmation_token = 400
status_code no_pending_email_change = 400
status_code invalid_refresh_token = 401
status_code invalid_email_change_code = 401
status_code email_revert_window_expired = 410
status_code invalid_token = 401
status_code forbidden = 403
status_code current_password_incorrect = 400
status_code email_already_exists = 409
status_code template_slug_already_exists = 409
status_code template_not_found = 404
status_code template_file_not_found = 400
status_code parameter_not_found = 404
status_code parameter_overridden = 409
status_code parameter_value_invalid = 422
status_code microservice_unavailable = 503
