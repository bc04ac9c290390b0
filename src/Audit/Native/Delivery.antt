-- ===== src/Audit/Native/Delivery.antt =====
-- What the system's logs are given for a record.
use pam_nps_mfa.Base.{
  ℕ, zero, suc, ◌≡◌, refl, sym, ap, ◌∙◌, arith, Bool, true, false, Bool-cases, inl, inr, ◌||◌,
  Option, none, some, List, [], ◌∷◌, ◌++◌, is_empty, if◌then◌else◌, ok, append-nil,
}
use pam_nps_mfa.Base.Text.{Text, text, utf8, is_whitespace, is_control}
use pam_nps_mfa.Memory.{has_nul, c_string}
use pam_nps_mfa.Memory.Nul.{HasNoNul, c_string-HasNoNul}
use pam_nps_mfa.Config.{AuditBackend, auditd, syslog, both}
use pam_nps_mfa.Audit.{
  AuthResult, success, denied, unavail, auditd_result, result_token, sanitize, AuditRecord, render,
  auditd_op, emit,
}
use pam_nps_mfa.Audit.Native.{
  AcctMessage, Call, Libaudit, program_name, sanitized_field, acct_message, log_on, auditd_emit,
  syslog_ident, priority, syslog_emit, deliver,
}

HasNoNul-has_nul : (t : Text) → has_nul t ≡ false → HasNoNul t
unfolding has_nul
HasNoNul-has_nul [] h = tt
HasNoNul-has_nul (zero ∷ t) h = absurd (cc h)
HasNoNul-has_nul (suc c ∷ t) h =
    let later : has_nul t ≡ false = ground arith in (λ e. omega arith, HasNoNul-has_nul t later)

HasNoNul-append : (s t : Text) → HasNoNul s → HasNoNul t → HasNoNul (s ++ t)
HasNoNul-append [] t h k = k
HasNoNul-append (c ∷ s) t (n, h) k = (n, HasNoNul-append s t h k)

sanitized_field-HasNoNul : (s : Text) → HasNoNul (sanitized_field s)
unfolding sanitized_field
sanitized_field-HasNoNul [] = tt
sanitized_field-HasNoNul (c ∷ s) = (ground arith, sanitized_field-HasNoNul s)

sanitize-HasNoNul : (s : Text) → HasNoNul (sanitize s)
unfolding sanitize
sanitize-HasNoNul [] = tt
sanitize-HasNoNul (c ∷ s) = elim (Bool-cases (is_whitespace c || is_control c)) [
  | inl b ↦ rw b (λ e. omega arith, sanitize-HasNoNul s)
  | inr b ↦
      rw b (λ e. cc (ap (λ d. is_whitespace d || is_control d) (sym e) ∙ b), sanitize-HasNoNul s)
]

-- Fields that the program sets.
abbrev pub IsPlain : AuditRecord → Type 0
IsPlain r = (has_nul r.op ≡ false) × (has_nul r.proto ≡ false)

server_word-HasNoNul :
    (r : AuditRecord) → HasNoNul (if is_empty r.server then text "none" else sanitize r.server)
unfolding has_nul
server_word-HasNoNul r = elim (Bool-cases (is_empty r.server)) [
  | inl b ↦ rw b (HasNoNul-has_nul (text "none") refl)
  | inr b ↦ rw b (sanitize-HasNoNul r.server)
]

auditd_op-HasNoNul : (r : AuditRecord) → IsPlain r → HasNoNul (auditd_op r)
unfolding auditd_op has_nul
auditd_op-HasNoNul r (o, p) = HasNoNul-append (r.op) _ (HasNoNul-has_nul r.op o) (
    HasNoNul-append (text "-") _ (HasNoNul-has_nul (text "-") refl) (
      HasNoNul-append (r.proto) _ (HasNoNul-has_nul r.proto p)
        (HasNoNul-append (text "-") _ (HasNoNul-has_nul (text "-") refl) (server_word-HasNoNul r))))

result_token-HasNoNul : (r : AuthResult) → HasNoNul (result_token r)
unfolding result_token has_nul
result_token-HasNoNul success = HasNoNul-has_nul (text "success") refl
result_token-HasNoNul denied = HasNoNul-has_nul (text "denied") refl
result_token-HasNoNul unavail = HasNoNul-has_nul (text "unavail") refl

render-HasNoNul : (r : AuditRecord) → IsPlain r → HasNoNul (render r)
unfolding render has_nul
render-HasNoNul r (o, p) = HasNoNul-append (text "op=") _ (HasNoNul-has_nul (text "op=") refl) (
    HasNoNul-append (r.op) _ (HasNoNul-has_nul r.op o) (
      HasNoNul-append (text " proto=") _ (HasNoNul-has_nul (text " proto=") refl) (
        HasNoNul-append (r.proto) _ (HasNoNul-has_nul r.proto p) (
          HasNoNul-append (text " server=") _ (HasNoNul-has_nul (text " server=") refl) (
            HasNoNul-append (sanitize r.server) _ (sanitize-HasNoNul r.server) (
              HasNoNul-append (text " user=") _ (HasNoNul-has_nul (text " user=") refl) (
                HasNoNul-append (sanitize r.user) _ (sanitize-HasNoNul r.user) (
                  HasNoNul-append (text " result=") _ (HasNoNul-has_nul (text " result=") refl) (
                    HasNoNul-append (result_token r.result) _ (result_token-HasNoNul r.result) (
                      HasNoNul-append (text " reason=") _ (HasNoNul-has_nul (text " reason=") refl)
                        (HasNoNul-append (sanitize r.reason) _ (sanitize-HasNoNul r.reason) (
                          HasNoNul-append (text " corr=") _ (HasNoNul-has_nul (text " corr=") refl)
                            (sanitize-HasNoNul r.corr)))))))))))))

-- What a record is for the logs: its octets, and whether the attempt succeeded.
abbrev pub succeeded : AuthResult → Bool
succeeded success = true
succeeded denied = false
succeeded unavail = false

-- The message of a record, for the account that its user names; without a server there is no
-- address.
abbrev pub message_of : AuditRecord → AcctMessage
message_of r = record {
  pgname = text "pam_nps_mfa";
  op = utf8 (auditd_op r);
  name = utf8 (sanitized_field r.user);
  addr = if is_empty r.server then none else some (utf8 (sanitized_field r.server));
  result = if succeeded r.result then 1 else 0;
}

auditd_result-succeeded : (r : AuthResult) → auditd_result r ≡ (if succeeded r then 1 else 0)
unfolding auditd_result
auditd_result-succeeded success = refl
auditd_result-succeeded denied = refl
auditd_result-succeeded unavail = refl

priority-succeeded : (r : AuthResult) → priority r ≡ (if succeeded r then 6 else 4)
priority-succeeded success = refl
priority-succeeded denied = refl
priority-succeeded unavail = refl

program_name_lem : c_string program_name ≡ some program_name
unfolding c_string has_nul utf8
program_name_lem = refl

acct_message-message_of : (r : AuditRecord) → IsPlain r → acct_message r ≡ ok (message_of r)
unfolding acct_message
acct_message-message_of r plain =
    let result = auditd_result-succeeded r.result in
    let op = c_string-HasNoNul (auditd_op r) (auditd_op-HasNoNul r plain) in
    let name = c_string-HasNoNul (sanitized_field r.user) (sanitized_field-HasNoNul r.user) in
    let addr = c_string-HasNoNul (sanitized_field r.server) (sanitized_field-HasNoNul r.server) in
    elim (Bool-cases (is_empty r.server)) [
      | inl b ↦ rw (program_name_lem, op, name, b, result) refl
      | inr b ↦ rw (program_name_lem, op, name, b, addr, result) refl
    ]

-- What libaudit is asked for: where it opens, the one message on the descriptor that it opened, and
-- the close of that descriptor; where it does not open, nothing more.
abbrev pub audited : Libaudit → Option ℕ → AcctMessage → List Call
audited lib none message = Call.audit_open none ∷ []
audited lib (some fd) message =
    Call.audit_open (some fd)
    ∷ Call.audit_log fd message (lib.writes fd message)
    ∷ Call.audit_close fd
    ∷ []

abbrev pub auditd_calls : Libaudit → AuditRecord → List Call
auditd_calls lib r = audited lib lib.opens (message_of r)

-- What syslog is asked for: its log, with LOG_PID, LOG_NDELAY and LOG_AUTHPRIV, if that was not open;
-- and the line, as the argument of "%s", as LOG_INFO for a success and as LOG_WARNING otherwise.
abbrev pub syslog_calls : Bool → AuditRecord → List Call
syslog_calls is_open r =
    let line = Call.syslog (if succeeded r.result then 6 else 4) (text "%s") (utf8 (render r)) in
    if is_open then line ∷ [] else Call.open_log (text "pam_nps_mfa") 9 80 ∷ line ∷ []

-- Those of a configured backend: libaudit's before syslog's.
abbrev pub calls_of : Libaudit → Bool → AuditBackend → AuditRecord → List Call
calls_of lib is_open auditd r = auditd_calls lib r
calls_of lib is_open syslog r = syslog_calls is_open r
calls_of lib is_open both r = auditd_calls lib r ++ syslog_calls is_open r

log_on-audited :
    (lib : Libaudit) (o : Option ℕ) (message : AcctMessage)
    → (log_on lib message o).1 ≡ audited lib o message
log_on-audited lib none message = refl
log_on-audited lib (some fd) message = refl

pub auditd_emit-lem :
    (lib : Libaudit) (r : AuditRecord) → IsPlain r → (auditd_emit lib r).1 ≡ auditd_calls lib r
unfolding auditd_emit
auditd_emit-lem lib r plain =
    rw (acct_message-message_of r plain) (log_on-audited lib lib.opens (message_of r))

pub syslog_emit-lem :
    (is_open : Bool) (r : AuditRecord)
    → IsPlain r
    → (syslog_emit is_open r).1 ≡ syslog_calls is_open r
unfolding syslog_emit syslog_ident
syslog_emit-lem true r plain =
    rw (c_string-HasNoNul (render r) (render-HasNoNul r plain), priority-succeeded r.result) refl
syslog_emit-lem false r plain =
    rw (c_string-HasNoNul (render r) (render-HasNoNul r plain), priority-succeeded r.result) refl

-- A record whose operation and protocol hold no NUL reaches the logs of the configured backend,
-- whatever its other fields hold and whatever libaudit answers: if libaudit opens, it is given the
-- one message for the record on the descriptor that it opened, and then the close of that; and syslog
-- is given the rendered record, once, as the argument of the format "%s", at LOG_INFO for a success
-- and at LOG_WARNING otherwise, also where libaudit failed, with its log opened before if it was not.
pub deliver-emit :
    (lib : Libaudit) (is_open : Bool) (b : AuditBackend) (r : AuditRecord)
    → IsPlain r
    → deliver lib is_open (emit b r) ≡ calls_of lib is_open b r
unfolding deliver emit
deliver-emit lib is_open auditd r plain =
    rw (auditd_emit-lem lib r plain) (append-nil (auditd_calls lib r))
deliver-emit lib is_open syslog r plain =
    rw (syslog_emit-lem is_open r plain) (append-nil (syslog_calls is_open r))
deliver-emit lib is_open both r plain =
    rw (auditd_emit-lem lib r plain, syslog_emit-lem is_open r plain)
      (ap (λ calls. auditd_calls lib r ++ calls) (append-nil (syslog_calls is_open r)))
