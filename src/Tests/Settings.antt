-- ===== src/Tests/Settings.antt =====
-- Runs of the parser and of the loader of the configuration.
use pam_nps_mfa.Base.{◌≡◌, ◌↔◌, refl, true, false, none, some, [], ◌∷◌, ◌++◌, bytes_eq, ok, err}
use pam_nps_mfa.Base.Text.{text}
use pam_nps_mfa.Base.Str.{lines, trim, before, split_whitespace, u32_from_str}
use pam_nps_mfa.Config.Address.{socket_from_str}
use pam_nps_mfa.Base.Utf8.{from_utf8}
use pam_nps_mfa.Config.{pap, both}
use pam_nps_mfa.Tests.Fixtures.{line_feed, sample, of_root, files, nps, secret, config_for}
use pam_nps_mfa.Config.Parse.{ParsedConfig, parse, find_key, protocol_of}
use pam_nps_mfa.Config.Parse.Spec.{entries, IsConfigOf}
use pam_nps_mfa.Config.Parse.Exact.{parse_iff}
use pam_nps_mfa.Config.Load.{
  opened, statted, consumed, FileLog, load, validate_permissions, group_or_other_accessible,
  ConfigError, insecure_permissions,
}
use pam_nps_mfa.Config.Load.Vetted.{
  IsJudged, validate_permissions-IsJudged, IsVetted, load-IsVetted,
}
use pam_nps_mfa.Config.Load.Exact.{IsLoaded, load-IsLoaded}
use pam_nps_mfa.Config.Load.Errors.{StoppedBy, load-StoppedBy}

abbrev sample_settings : ParsedConfig
sample_settings = record {
  servers = record { addr = nps.addr; secret_path = text "/s1" } ∷ [];
  protocol = pap;
  timeout = 60;
  probe_timeout = 5;
  retries = 1;
  nas_identifier = some (text "host");
  nas_ip = none;
  source_ip = none;
  require_message_authenticator = true;
  audit = both;
  debug = false;
}

sample_parses : parse sample ≡ ok sample_settings
unfolding parse lines trim before split_whitespace find_key bytes_eq socket_from_str protocol_of
    u32_from_str
sample_parses = refl

parse_iff_example :
    (parse sample ≡ ok sample_settings) ↔ IsConfigOf (entries sample) sample_settings
parse_iff_example = parse_iff sample sample_settings

validate_permissions-IsJudged_example :
    IsJudged (of_root 384) 0 (validate_permissions (of_root 384) 0)
validate_permissions-IsJudged_example = validate_permissions-IsJudged (of_root 384) 0

load-IsVetted_example : IsVetted 0 (load (files 384) (text "/c") []).1
load-IsVetted_example = load-IsVetted (files 384) (text "/c") [] tt

abbrev sample_log : FileLog
sample_log =
    consumed 3 (ok (secret ++ line_feed))
    ∷ statted 3 (ok (of_root 384))
    ∷ opened (text "/s1") (ok 3)
    ∷ consumed 3 (ok sample)
    ∷ statted 3 (ok (of_root 384))
    ∷ opened (text "/c") (ok 3)
    ∷ []

sample_loads : load (files 384) (text "/c") [] ≡ (ok (config_for pap), sample_log)
unfolding load from_utf8 parse lines trim before split_whitespace find_key bytes_eq socket_from_str
    protocol_of u32_from_str
sample_loads = refl

load-IsLoaded_example : IsLoaded 0 (text "/c") (config_for pap) [] sample_log
load-IsLoaded_example =
    load-IsLoaded (files 384) (text "/c") (config_for pap) [] sample_log sample_loads

-- The secret is readable by all.
abbrev open_log : FileLog
open_log =
    statted 3 (ok (of_root 420))
    ∷ opened (text "/s1") (ok 3)
    ∷ consumed 3 (ok sample)
    ∷ statted 3 (ok (of_root 384))
    ∷ opened (text "/c") (ok 3)
    ∷ []

abbrev too_open : ConfigError
too_open = insecure_permissions (text "/s1") (group_or_other_accessible 420)

open_secret_is_refused : load (files 420) (text "/c") [] ≡ (err too_open, open_log)
unfolding load from_utf8 parse lines trim before split_whitespace find_key bytes_eq socket_from_str
    protocol_of u32_from_str
open_secret_is_refused = refl

load-StoppedBy_example : StoppedBy 0 too_open open_log
load-StoppedBy_example =
    load-StoppedBy (files 420) (text "/c") [] open_log too_open open_secret_is_refused
