-- ===== src/Boundary.antt =====
-- crates/pam-ffi/src/lib.rs, options.rs and the input functions of ffi.rs: one call of
-- `pam_sm_authenticate`, from the module's arguments to its return code.
pub mod Outcome
pub mod Delivery
pub mod Success
pub mod Panic
pub mod Entry
use pam_nps_mfa.Base.{
  ℕ, ◌/◌, ◌%◌, Bool, true, false, not, Option, none, some, List, [], ◌∷◌, ◌++◌, Bytes, get_or, take,
  drop, ◌==◌, bytes_eq, is_empty, if◌then◌else◌, Result, ok, err, map_err, ◌>>=◌,
}
use pam_nps_mfa.Base.Text.{Text, text}
use pam_nps_mfa.Primitives.{Primitives}
use pam_nps_mfa.World.{IpAddr, History}
use pam_nps_mfa.System.{System, transport_of, world_of, attempt_panics}
use pam_nps_mfa.Config.{Config}
use pam_nps_mfa.Config.Load.{Files, ConfigError, load}
use pam_nps_mfa.Flow.{
  PamOutcome, unavail, pam_code, AuthReport, AttemptContext, Reason, user_error, null_authtok,
  authtok_error, empty_password, config_error,
}
use pam_nps_mfa.Flow.Authenticate.{authenticate_report}
use pam_nps_mfa.Audit.{
  AuthResult, denied, AuditRecord, Backend, syslog_sink, boundary_record, attempt_record, emit,
  result_from_pam_code,
}

abbrev pub default_config_path : Text
default_config_path = text "/etc/pam_nps/pam_nps.conf"

pub record Options : Type 0 where
  pub config_path : Text
  pub try_first_pass : Bool
  pub use_first_pass : Bool
  pub debug : Bool
  pub unknown : List Text

-- `Options::default`
abbrev pub default_options : Options
default_options = record {
  config_path = default_config_path;
  try_first_pass = false;
  use_first_pass = false;
  debug = false;
  unknown = [];
}

-- One round of the loop of `options::parse`.
unfoldable pub parse_option : Options → Text → Options
parse_option o arg =
    if bytes_eq (take 7 arg) (text "config=")
    then if is_empty (drop 7 arg)
      then record o { unknown = o.unknown ++ (arg ∷ []) }
      else record o { config_path = drop 7 arg }
    else if bytes_eq arg (text "try_first_pass")
    then record o { try_first_pass = true }
    else if bytes_eq arg (text "use_first_pass")
    then record o { use_first_pass = true }
    else if bytes_eq arg (text "debug")
    then record o { debug = true }
    else record o { unknown = o.unknown ++ (arg ∷ []) }

unfoldable pub parse_options_from : Options → List Text → Options
unfolding parse_option
parse_options_from o [] = o
parse_options_from o (arg ∷ args) = parse_options_from (parse_option o arg) args

-- A string that libpam hands out: a null pointer, octets that are not UTF-8, or a text.
pub data CString : Type 0 where
  null undecodable : CString
  decoded : Text → CString

-- What `pam_get_user`, `pam_get_item(PAM_AUTHTOK)` and `pam_get_authtok` return and leave behind, the
-- octets for the correlation id, the file system, and what the attempt meets.
pub record Host : Type 0 where
  pub pam_get_user : ℕ × CString
  pub pam_get_item : ℕ × CString
  pub pam_get_authtok : ℕ × CString
  pub corr_octets : Option Bytes
  pub files : Files
  pub system : System

abbrev user_of : CString → Result Text ℕ
user_of (decoded []) = err 10
user_of (decoded (c ∷ name)) = ok (c ∷ name)
user_of _ = err 10

-- `ffi::get_user`
unfoldable pub get_user : Host → Result Text ℕ
get_user host =
    if host.system.handle_is_null
    then err 4
    else if not (host.pam_get_user.0 == 0)
    then err host.pam_get_user.0
    else user_of host.pam_get_user.1

abbrev authtok_of : CString → Result (Option Text) ℕ
authtok_of null = ok none
authtok_of undecodable = err 7
authtok_of (decoded s) = ok (some s)

-- `ffi::get_authtok_item` and `ffi::get_authtok_prompting`, which differ in the call of libpam
unfoldable pub get_authtok : Host → ℕ × CString → Result (Option Text) ℕ
get_authtok host answer =
    if host.system.handle_is_null
    then err 4
    else if not (answer.0 == 0)
    then err answer.0
    else authtok_of answer.1

-- `corr_id`: lower-case digits, or a fixed word
unfoldable pub lower_hex : Bytes → Text
lower_hex [] = []
lower_hex (b ∷ bytes) =
    get_or (text "0123456789abcdef") (b / 16) 0
    ∷ get_or (text "0123456789abcdef") (b % 16) 0
    ∷ lower_hex bytes

abbrev pub corr_id : Option Bytes → Text
corr_id none = text "unavailable"
corr_id (some bytes) = lower_hex bytes

-- `null_authtok_return`
abbrev pub null_authtok_return : Bool → ℕ
null_authtok_return disallow_null = 7

-- `outcome_for_config_error`
abbrev pub outcome_for_config_error : PamOutcome
outcome_for_config_error = unavail

-- The return code, and the records that the sinks were given, in order.
abbrev pub Ended : Type 0
Ended = ℕ × List (Backend × AuditRecord)

abbrev pub context : Text → Text → Text → AttemptContext
context corr username password = record { username = username; password = password; corr = corr }

-- An early return behind `emit_boundary`. Where the flow panics there is no `Ended`.
abbrev pub early : ℕ → Text → Text → AuthResult → Reason → Option Ended
early code user corr result reason =
    some (code, (syslog_sink, boundary_record user corr result reason) ∷ [])

module _ (c : Primitives) (ip_to_string : IpAddr → Text) (host : Host) where
  -- `authenticate_report` over the conversation and the transport of the configuration.
  abbrev pub reported : Bool → AttemptContext → Config → AuthReport × History
  reported silent ctx config =
      authenticate_report c (world_of host.system silent config) ctx config []

  -- From the loaded configuration on.
  unfoldable pub attempt : Text → Text → Text → Bool → Result Config ConfigError → Option Ended
  unfolding attempt_record emit pam_code attempt_panics
  attempt corr username password silent (err e) =
      early (pam_code outcome_for_config_error) username corr AuthResult.unavail config_error
  attempt corr username password silent (ok config) =
      let (report, h) = reported silent (context corr username password) config in
      if attempt_panics host.system (transport_of config) h
      then none
      else some (
        pam_code report.outcome,
        emit config.audit (attempt_record ip_to_string config.protocol username corr report),
      )

  -- `config::load`
  abbrev pub loaded : Text → Result Config ConfigError
  loaded path = (load host.files path []).0

  -- From the authtok on.
  unfoldable pub with_authtok :
      Text → Text → Text → Bool → Bool → Result (Option Text) ℕ → Option Ended
  unfolding attempt result_from_pam_code
  with_authtok corr path username disallow_null silent (ok none) =
      let code = null_authtok_return disallow_null in
      early code username corr (result_from_pam_code code) null_authtok
  with_authtok corr path username disallow_null silent (err code) =
      early code username corr (result_from_pam_code code) authtok_error
  with_authtok corr path username disallow_null silent (ok (some [])) =
      early 7 username corr denied empty_password
  with_authtok corr path username disallow_null silent (ok (some (x ∷ password))) =
      attempt corr username (x ∷ password) silent (loaded path)

  abbrev pub fetched : Options → Result (Option Text) ℕ
  fetched opts =
      if opts.use_first_pass
      then get_authtok host host.pam_get_item
      else get_authtok host host.pam_get_authtok

  unfoldable pub with_user : Text → Options → Bool → Bool → Result Text ℕ → Option Ended
  unfolding with_authtok
  with_user corr opts disallow_null silent (err code) =
      early code [] corr (result_from_pam_code code) user_error
  with_user corr opts disallow_null silent (ok username) =
      with_authtok corr opts.config_path username disallow_null silent (fetched opts)

  -- `sm_authenticate`; the flags PAM_DISALLOW_NULL_AUTHTOK and PAM_SILENT are the bits 0 and 15.
  unfoldable pub sm_authenticate : ℕ → List Text → Option Ended
  unfolding with_user parse_options_from
  sm_authenticate flags args =
      with_user (corr_id host.corr_octets) (parse_options_from default_options args)
        (not (flags % 2 == 0)) (not (flags / 32768 % 2 == 0)) (get_user host)
