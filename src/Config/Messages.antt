-- ===== src/Config/Messages.antt =====
-- crates/config/src/lib.rs: the texts of the configuration's errors. The decimal and the octal digits
-- of a number are the standard library's, and so is the text of an error of the system.
use pam_nps_mfa.Base.{ℕ, ◌++◌, Option, none, some}
use pam_nps_mfa.Base.Text.{Text, text}
use pam_nps_mfa.Config.Parse.{
  ParseError, unknown_key, duplicate_key, malformed_value, missing_required,
}
use pam_nps_mfa.Config.Load.{
  IoError, PermIssue, not_regular_file, wrong_owner, group_or_other_accessible, ConfigError,
  open_failed, read_failed, insecure_permissions, parse_failed,
}

abbrev quoted : Text → Text
quoted t = text "'" ++ (t ++ text "'")

module _ (decimal octal : ℕ → Text) where
  -- `Display` of `PermIssue`
  unfoldable pub perm_issue_text : PermIssue → Text
  perm_issue_text not_regular_file = text "not a regular file"
  perm_issue_text (wrong_owner found expected) =
      text "wrong owner: found uid "
      ++ (decimal found ++ (text ", require uid " ++ decimal expected))
  perm_issue_text (group_or_other_accessible mode) =
      text "group/other-accessible (mode " ++ (octal mode ++ text "); require mode & 0o077 == 0")

  -- `Display` of `ParseError`: lines and keys, and no values
  unfoldable pub parse_error_text : ParseError → Text
  parse_error_text (unknown_key line key) =
      text "line " ++ (decimal line ++ (text ": unknown key " ++ quoted key))
  parse_error_text (duplicate_key line key) =
      text "line " ++ (decimal line ++ (text ": duplicate key " ++ quoted key))
  parse_error_text (malformed_value line key) =
      text "line " ++ (decimal line ++ (text ": malformed value for key " ++ quoted key))
  parse_error_text (missing_required key) = text "missing required key " ++ quoted key

  module _ (io_text : IoError → Text) where
    -- `Display` of `ConfigError`
    unfoldable pub config_error_text : ConfigError → Text
    unfolding perm_issue_text parse_error_text
    config_error_text (open_failed path e) =
        text "failed to open " ++ (quoted path ++ (text ": " ++ io_text e))
    config_error_text (read_failed path e) =
        text "failed to read " ++ (quoted path ++ (text ": " ++ io_text e))
    config_error_text (insecure_permissions path issue) =
        text "insecure permissions on " ++ (quoted path ++ (text ": " ++ perm_issue_text issue))
    config_error_text (parse_failed e) = text "config parse error: " ++ parse_error_text e

-- What `Error::source` hands out.
pub data Source : Type 0 where
  of_system : IoError → Source
  of_parser : ParseError → Source

abbrev pub source : ConfigError → Option Source
source (open_failed path e) = some (of_system e)
source (read_failed path e) = some (of_system e)
source (parse_failed e) = some (of_parser e)
source (insecure_permissions path issue) = none
