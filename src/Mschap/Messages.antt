-- ===== src/Mschap/Messages.antt =====
-- crates/mschapv2/src/vsa.rs: the texts of its errors, and the reason of an MS-CHAP-Error.
use pam_nps_mfa.Base.Text.{Text, text}
use pam_nps_mfa.Mschap.Vsa.{
  SuccessError, too_short, missing_s_prefix, not_hex, trailing_garbage, MsChapError,
  restricted_hours, account_disabled, password_expired, no_dial_in_permission,
  authentication_failure, error_changing_password, unknown, malformed,
}

-- `Display` of `SuccessError`
unfoldable pub success_error_text : SuccessError → Text
success_error_text too_short = text "MS-CHAP2-Success data too short for the S= authenticator"
success_error_text missing_s_prefix = text "MS-CHAP2-Success response does not start with S="
success_error_text not_hex = text "MS-CHAP2-Success S= value is not 40 hex characters"
success_error_text trailing_garbage = text "MS-CHAP2-Success has trailing octets after the S= value"

-- `MsChapError::reason`, which is its `Display` too
unfoldable pub reason : MsChapError → Text
reason restricted_hours = text "restricted-hours"
reason account_disabled = text "account-disabled"
reason password_expired = text "password-expired"
reason no_dial_in_permission = text "no-dial-in"
reason authentication_failure = text "auth-failure"
reason error_changing_password = text "error-changing-password"
reason (unknown code) = text "unknown-error-code"
reason malformed = text "malformed-error"
