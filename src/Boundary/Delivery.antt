-- ===== src/Boundary/Delivery.antt =====
-- The calls of libaudit and of syslog that a call of `pam_sm_authenticate` leads to.
use pam_nps_mfa.Base.{ℕ, ◌≡◌, ap, ◌∙◌, arith, inl, inr, Bool, ◌==◌, List, some}
use pam_nps_mfa.Base.Text.{Text}
use pam_nps_mfa.Primitives.{Primitives}
use pam_nps_mfa.World.{IpAddr}
use pam_nps_mfa.Config.{AuditBackend, auditd, syslog, both}
use pam_nps_mfa.Audit.{AuditRecord, auditd_sink, syslog_sink, emit, result_from_pam_code}
use pam_nps_mfa.Audit.Native.{Libaudit, deliver}
use pam_nps_mfa.Audit.Native.Delivery.{succeeded, calls_of, deliver-emit}
use pam_nps_mfa.Boundary.{Host, Ended, sm_authenticate}
use pam_nps_mfa.Boundary.Outcome.{IsRecorded, sm_authenticate-IsRecorded}

-- The calls are those of one record, to one of the backends, that says what the code means; and they
-- show a success exactly where the code is PAM_SUCCESS.
pub record IsDelivered (lib : Libaudit) (is_open : Bool) (ended : Ended) : Type 0 where
  pub written : AuditRecord
  pub backend : AuditBackend
  pub says_so : written.result ≡ result_from_pam_code ended.0
  pub shows_success : succeeded written.result ≡ (ended.0 == 0)
  pub calls : deliver lib is_open ended.1 ≡ calls_of lib is_open backend written

result_from_pam_code-succeeded : (code : ℕ) → succeeded (result_from_pam_code code) ≡ (code == 0)
unfolding result_from_pam_code
result_from_pam_code-succeeded code = ground arith

IsRecorded-IsDelivered :
    (lib : Libaudit) (is_open : Bool) (ended : Ended)
    → IsRecorded ended
    → IsDelivered lib is_open ended
unfolding emit
IsRecorded-IsDelivered lib is_open ended r = elim r.is_one [
  | inr e ↦ given both e
  | inl (auditd_sink, e) ↦ given auditd e
  | inl (syslog_sink, e) ↦ given syslog e
]
  where
    given : (b : AuditBackend) → ended.1 ≡ emit b r.written → IsDelivered lib is_open ended
    given b e = record {
      written = r.written;
      backend = b;
      says_so = r.says_so;
      shows_success = ap succeeded r.says_so ∙ result_from_pam_code-succeeded ended.0;
      calls =
          ap (λ sinks. deliver lib is_open sinks) e
          ∙ deliver-emit lib is_open b r.written r.is_plain;
    }

-- Every call of the module that comes to a return code, on every path, leads to exactly the system
-- calls that log one record for one of the backends, whatever libaudit answers and whatever the user's
-- name holds: those of the open, the one message and the close of libaudit, and of the one line for
-- syslog. The record's result is the one that the return code stands for, and what the calls show is a
-- success exactly where the code is PAM_SUCCESS.
pub sm_authenticate-IsDelivered :
    (c : Primitives) (ip_to_string : IpAddr → Text) (host : Host) (flags : ℕ) (args : List Text)
    (lib : Libaudit) (is_open : Bool) (ended : Ended)
    → sm_authenticate c ip_to_string host flags args ≡ some ended
    → IsDelivered lib is_open ended
sm_authenticate-IsDelivered c ip_to_string host flags args lib is_open ended q =
    IsRecorded-IsDelivered lib is_open ended
      (sm_authenticate-IsRecorded c ip_to_string host flags args ended q)
