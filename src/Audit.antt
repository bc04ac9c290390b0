-- ===== src/Audit.antt =====
-- crates/audit/src/record.rs and lib.rs, and crates/pam-ffi/src/audit_emit.rs: the audit record, its
-- rendering, and the sinks. A sink is the list of backends that a record goes to.
pub mod Fields
pub mod Native
use pam_nps_mfa.Base.{
  ℕ, ◌+◌, ◌*◌, ◌/◌, Bool, true, false, ◌||◌, ◌&&◌, Option, none, some, List, [], ◌∷◌, ◌++◌, Bytes,
  leb, ◌==◌, is_empty, if◌then◌else◌,
}
use pam_nps_mfa.Base.Text.{Text, text, is_whitespace, is_control}
use pam_nps_mfa.World.{SocketAddr, IpAddr}
use pam_nps_mfa.Config.{Protocol, mschapv2, pap, AuditBackend, auditd, syslog, both}
use pam_nps_mfa.Flow.{AuthReport, PamOutcome, auth_err, conv_err, token, Reason}

pub data AuthResult : Type 0 where
  success denied unavail : AuthResult

-- `AuthResult::as_str`
unfoldable pub result_token : AuthResult → Text
result_token success = text "success"
result_token denied = text "denied"
result_token unavail = text "unavail"

unfoldable pub auditd_result : AuthResult → ℕ
auditd_result success = 1
auditd_result denied = 0
auditd_result unavail = 0

unfoldable pub sanitize : Text → Text
sanitize [] = []
sanitize (c ∷ s) = (if is_whitespace c || is_control c then b'_' else c) ∷ sanitize s

abbrev pub default_op : Text
default_op = text "pam_nps_auth"

pub record AuditRecord : Type 0 where
  pub op : Text
  pub proto : Text
  pub server : Text
  pub user : Text
  pub result : AuthResult
  pub reason : Text
  pub corr : Text

-- `AuditRecord::new`
abbrev pub new : Text → Text → Text → AuthResult → Text → Text → AuditRecord
new proto server user result reason corr = record {
  op = default_op;
  proto = proto;
  server = server;
  user = user;
  result = result;
  reason = reason;
  corr = corr;
}

-- `AuditRecord::render`
unfoldable pub render : AuditRecord → Text
unfolding sanitize result_token
render r =
    text "op="
    ++ (r.op
        ++ (text " proto="
            ++ (r.proto
                ++ (text " server="
                    ++ (sanitize r.server
                        ++ (text " user="
                            ++ (sanitize r.user
                                ++ (text " result="
                                    ++ (result_token r.result
                                        ++ (text " reason="
                                            ++ (sanitize r.reason
                                                ++ (text " corr=" ++ sanitize r.corr))))))))))))

-- `AuditRecord::auditd_op`
unfoldable pub auditd_op : AuditRecord → Text
auditd_op r =
    r.op
    ++ (text "-"
        ++ (r.proto
            ++ (text "-" ++ (if is_empty r.server then text "none" else sanitize r.server))))

abbrev pub proto_str : Protocol → Text
proto_str mschapv2 = text "mschapv2"
proto_str pap = text "pap"

abbrev pub proto_unknown : Text
proto_unknown = text "unknown"

unfoldable pub result_of : PamOutcome → AuthResult
result_of PamOutcome.success = success
result_of auth_err = denied
result_of PamOutcome.unavail = unavail
result_of conv_err = unavail

unfoldable pub result_from_pam_code : ℕ → AuthResult
result_from_pam_code code = if code == 0 then success else if code == 7 then denied else unavail

pub data Backend : Type 0 where
  auditd_sink syslog_sink : Backend

-- `from_backend`, and what the chosen sink's `emit` does with a record
unfoldable pub emit : AuditBackend → AuditRecord → List (Backend × AuditRecord)
emit auditd r = (auditd_sink, r) ∷ []
emit syslog r = (syslog_sink, r) ∷ []
emit both r = (auditd_sink, r) ∷ (syslog_sink, r) ∷ []

-- The record of `emit_boundary`, before a configuration is loaded
abbrev pub boundary_record : Text → Text → AuthResult → Reason → AuditRecord
boundary_record user corr result reason = new proto_unknown [] user result (token reason) corr

module _ (ip_to_string : IpAddr → Text) where
  abbrev pub server_text : Option SocketAddr → Text
  server_text none = []
  server_text (some addr) = ip_to_string addr.ip

  -- The record of `emit_attempt`; `IpAddr::to_string` is the standard library's.
  unfoldable pub attempt_record : Protocol → Text → Text → AuthReport → AuditRecord
  unfolding result_of
  attempt_record protocol user corr report =
      new (proto_str protocol) (server_text report.server) user (result_of report.outcome)
        (token report.reason) corr
