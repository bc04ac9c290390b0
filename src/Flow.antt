-- ===== src/Flow.antt =====
-- crates/pam-ffi/src/flow.rs: outcomes, reports and the inputs of an attempt. The children hold the
-- two protocol flows and what is proved of them.
pub mod Trace
pub mod Packets
pub mod Push
pub mod Rounds
pub mod Authenticate
pub mod Induction
use pam_nps_mfa.Base.{ℕ, Bytes, Option, none, some}
use pam_nps_mfa.Base.Text.{Text, text}
use pam_nps_mfa.World.{SocketAddr}

pub data PamOutcome : Type 0 where
  success auth_err unavail conv_err : PamOutcome

-- `PamOutcome::pam_code`, with the numbers of `pam_codes`
unfoldable pub pam_code : PamOutcome → ℕ
pam_code success = 0
pam_code auth_err = 7
pam_code unavail = 9
pam_code conv_err = 19

-- The tokens of `mod reason`, which `token` spells.
pub data Reason : Type 0 where
  success empty_username empty_password no_servers rng_failure encode_failure : Reason
  conv_error all_unreachable timeout io_error bad_response mutual_auth_failed : Reason
  reject unexpected_code password_unrepresentable bad_challenge : Reason
  challenge_unanswerable empty_otp max_rounds transport_error : Reason
  user_error null_authtok authtok_error config_error : Reason

unfoldable pub token : Reason → Text
token success = text "success"
token empty_username = text "empty_username"
token empty_password = text "empty_password"
token no_servers = text "no_servers"
token rng_failure = text "rng_failure"
token encode_failure = text "encode_failure"
token conv_error = text "conv_error"
token all_unreachable = text "all_unreachable"
token timeout = text "timeout"
token io_error = text "io_error"
token bad_response = text "bad_response"
token mutual_auth_failed = text "mutual_auth_failed"
token reject = text "reject"
token unexpected_code = text "unexpected_code"
token password_unrepresentable = text "password_unrepresentable"
token bad_challenge = text "bad_challenge"
token challenge_unanswerable = text "challenge_unanswerable"
token empty_otp = text "empty_otp"
token max_rounds = text "max_rounds"
token transport_error = text "transport_error"
token user_error = text "user_error"
token null_authtok = text "null_authtok"
token authtok_error = text "authtok_error"
token config_error = text "config_error"

pub record AuthReport : Type 0 where
  pub outcome : PamOutcome
  pub server : Option SocketAddr
  pub reason : Reason

-- `AuthReport::of`
abbrev pub report_of : PamOutcome → Reason → AuthReport
report_of outcome reason = record { outcome = outcome; server = none; reason = reason }

-- `AuthReport::with_server`
abbrev pub with_server : SocketAddr → AuthReport → AuthReport
with_server server r = record r { server = some server }

-- `AttemptContext`; `password` is the text in its `SecretString`.
pub record AttemptContext : Type 0 where
  pub username : Text
  pub password : Text
  pub corr : Text

abbrev pub push_notice : Text
push_notice = text "A sign-in request was sent to your MFA device. Approve it there to continue."

abbrev pub password_expired_notice : Text
password_expired_notice =
    text
      "Your password has expired. Change it through your organization's password reset process, then try again."

abbrev pub max_challenge_rounds : ℕ
max_challenge_rounds = 8
