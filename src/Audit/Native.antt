-- ===== src/Audit/Native.antt =====
-- crates/audit/src/ffi.rs: the calls of libaudit and of syslog for one record, in their order, and
-- the sinks of crates/audit/src/lib.rs behind `emit`.
pub mod Delivery
use pam_nps_mfa.Base.{
  ℕ, ◌≡◌, Bool, true, false, not, Option, none, some, List, [], ◌∷◌, ◌++◌, Bytes, ◌==◌, is_empty,
  if◌then◌else◌, Result, ok, err, ◌>>=◌, ok_or,
}
use pam_nps_mfa.Base.Text.{Text, text}
use pam_nps_mfa.Memory.{c_string}
use pam_nps_mfa.Audit.{
  AuthResult, success, auditd_result, AuditRecord, render, auditd_op, Backend, auditd_sink,
  syslog_sink,
}

pub data EmitError : Type 0 where
  bad_c_string audit_unavailable audit_write_failed : EmitError

-- The arguments of `audit_log_acct_message` that vary; `addr` may be null.
pub record AcctMessage : Type 0 where
  pub pgname : Bytes
  pub op : Bytes
  pub name : Bytes
  pub addr : Option Bytes
  pub result : ℕ

-- The calls, with the answer where there is one: a descriptor, and whether the message was written.
pub data Call : Type 0 where
  audit_open : Option ℕ → Call
  audit_log : ℕ → AcctMessage → Bool → Call
  audit_close : ℕ → Call
  open_log : Text → ℕ → ℕ → Call
  syslog : ℕ → Bytes → Bytes → Call

-- What libaudit answers.
pub record Libaudit : Type 0 where
  pub opens : Option ℕ
  pub writes : ℕ → AcctMessage → Bool

abbrev pub program_name : Text
program_name = text "pam_nps_mfa"

abbrev pub log_authpriv : ℕ
log_authpriv = 80

abbrev pub log_info : ℕ
log_info = 6

abbrev pub log_warning : ℕ
log_warning = 4

-- `LOG_PID | LOG_NDELAY`
abbrev pub log_options : ℕ
log_options = 9

abbrev pub syslog_format : Bytes
syslog_format = text "%s"

unfoldable pub sanitized_field : Text → Text
sanitized_field [] = []
sanitized_field (c ∷ s) = (if c == 0 then b'_' else c) ∷ sanitized_field s

abbrev pub c_string_or_fail : Text → Result Bytes EmitError
c_string_or_fail t = ok_or (c_string t) bad_c_string

abbrev pub address_of : AuditRecord → Result (Option Bytes) EmitError
address_of r =
    if is_empty r.server
    then ok none
    else (c_string_or_fail (sanitized_field r.server) >>= λ a. ok (some a))

-- The arguments of the message, made before libaudit is called.
unfoldable pub acct_message : AuditRecord → Result AcctMessage EmitError
unfolding sanitized_field
acct_message r = do
  pgname ← c_string_or_fail program_name
  op ← c_string_or_fail (auditd_op r)
  name ← c_string_or_fail (sanitized_field r.user)
  addr ← address_of r
  ok (record {
    pgname = pgname;
    op = op;
    name = name;
    addr = addr;
    result = auditd_result r.result;
  })

abbrev pub Emitted : Type 0
Emitted = Result (Unit {0}) EmitError × List Call

abbrev pub log_on : Libaudit → AcctMessage → Option ℕ → Emitted
log_on lib message none = (err audit_unavailable, audit_open none ∷ [])
log_on lib message (some fd) = (
  (if lib.writes fd message then ok tt else err audit_write_failed),
  audit_open (some fd) ∷ audit_log fd message (lib.writes fd message) ∷ audit_close fd ∷ [],
)

abbrev pub with_message : Libaudit → Result AcctMessage EmitError → Emitted
with_message lib (err e) = (err e, [])
with_message lib (ok message) = log_on lib message lib.opens

unfoldable pub auditd_emit : Libaudit → AuditRecord → Emitted
unfolding acct_message
auditd_emit lib r = with_message lib (acct_message r)

-- `syslog_ident`: the log is opened by the first call in the process.
unfoldable pub syslog_ident : Bool → List Call
syslog_ident is_open = if is_open then [] else open_log program_name log_options log_authpriv ∷ []

abbrev pub priority : AuthResult → ℕ
priority success = log_info
priority _ = log_warning

abbrev pub with_line : List Call → ℕ → Option Bytes → Emitted
with_line calls level none = (err bad_c_string, calls)
with_line calls level (some line) = (ok tt, calls ++ (syslog level syslog_format line ∷ []))

unfoldable pub syslog_emit : Bool → AuditRecord → Emitted
unfolding syslog_ident
syslog_emit is_open r = with_line (syslog_ident is_open) (priority r.result) (c_string (render r))

-- The sinks' `emit`, which drop the error.
unfoldable pub deliver : Libaudit → Bool → List (Backend × AuditRecord) → List Call
unfolding auditd_emit syslog_emit
deliver lib is_open [] = []
deliver lib is_open ((auditd_sink, r) ∷ sinks) = (auditd_emit lib r).1 ++ deliver lib is_open sinks
deliver lib is_open ((syslog_sink, r) ∷ sinks) = (syslog_emit is_open r).1 ++ deliver lib true sinks
