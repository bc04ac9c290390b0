-- ===== src/Boundary/Outcome.antt =====
-- The return code and the audit record of a call of `pam_sm_authenticate`.
use pam_nps_mfa.Base.{
  ℕ, ◌/◌, ◌%◌, ◌≡◌, false, Bool-cases, ◌⊎◌, refl, Bool, not, Option, none, some, List, [], ◌∷◌, inl,
  inr, ◌==◌, Result, ok, err,
}
use pam_nps_mfa.Base.Text.{Text}
use pam_nps_mfa.Primitives.{Primitives}
use pam_nps_mfa.World.{IpAddr}
use pam_nps_mfa.System.{attempt_panics, transport_of}
use pam_nps_mfa.Boundary.Panic.{WrapsAround, transport_of-WrapsAround}
use pam_nps_mfa.Config.Load.{ConfigError}
use pam_nps_mfa.Memory.{has_nul}
use pam_nps_mfa.Audit.Native.Delivery.{IsPlain}
use pam_nps_mfa.Config.{Protocol, mschapv2, pap, Config, AuditBackend, auditd, syslog, both}
use pam_nps_mfa.Flow.{PamOutcome, auth_err, conv_err, pam_code}
use pam_nps_mfa.Audit.{
  AuditRecord, proto_str, Backend, auditd_sink, syslog_sink, result_of, result_from_pam_code, emit,
  attempt_record,
}
use pam_nps_mfa.Boundary.{
  Options, Host, context, reported, get_user, Ended, attempt, with_authtok, with_user,
  sm_authenticate, fetched, loaded, parse_options_from, default_options, corr_id,
}

-- One record, given to one backend or to each of the two, that says what the return code means.
pub record IsRecorded (ended : Ended) : Type 0 where
  pub written : AuditRecord
  pub is_one :
      ((b : Backend) × (ended.1 ≡ (b, written) ∷ []))
      ⊎ (ended.1 ≡ (auditd_sink, written) ∷ (syslog_sink, written) ∷ [])
  -- the operation and the protocol are words of the program's
  pub is_plain : IsPlain written
  pub says_so : written.result ≡ result_from_pam_code ended.0

result_from-pam_code : (o : PamOutcome) → result_of o ≡ result_from_pam_code (pam_code o)
unfolding result_of result_from_pam_code pam_code
result_from-pam_code PamOutcome.success = refl
result_from-pam_code auth_err = refl
result_from-pam_code PamOutcome.unavail = refl
result_from-pam_code conv_err = refl

proto_str-plain : (p : Protocol) → has_nul (proto_str p) ≡ false
unfolding has_nul
proto_str-plain mschapv2 = refl
proto_str-plain pap = refl

emit_once :
    (b : AuditBackend) (code : ℕ) (r : AuditRecord)
    → IsPlain r
    → r.result ≡ result_from_pam_code code
    → IsRecorded (code, emit b r)
unfolding emit
emit_once auditd code r p e = record {
  written = r;
  is_one = inl (auditd_sink, refl);
  is_plain = p;
  says_so = e;
}
emit_once syslog code r p e = record {
  written = r;
  is_one = inl (syslog_sink, refl);
  is_plain = p;
  says_so = e;
}
emit_once both code r p e = record { written = r; is_one = inr refl; is_plain = p; says_so = e }

-- What a call came to: it ended with one record; or the flow panicked, which takes a configuration
-- that was loaded and whose `retries + 1` wraps around.
pub data Accounted (config : Result Config ConfigError) (o : Option Ended) : Type 0 where
  recorded : (ended : Ended) → o ≡ some ended → IsRecorded ended → Accounted config o
  flow_panicked :
      (loaded : Config)
      → o ≡ none
      → config ≡ ok loaded
      → WrapsAround loaded.retries
      → Accounted config o

pub Accounted-IsRecorded :
    (config : Result Config ConfigError) (o : Option Ended) (ended : Ended)
    → Accounted config o
    → o ≡ some ended
    → IsRecorded ended
Accounted-IsRecorded config o ended (recorded ended' e r) q =
    let same : ended' ≡ ended = cc in rw (← same) r
Accounted-IsRecorded config o ended (flow_panicked l e k wraps) q = absurd (cc)

abbrev pub syslog_only : (code : ℕ) (r : AuditRecord) → Option Ended
syslog_only code r = some (code, (syslog_sink, r) ∷ [])

early-Accounted :
    (config : Result Config ConfigError) (code : ℕ) (r : AuditRecord)
    → IsPlain r
    → r.result ≡ result_from_pam_code code
    → Accounted config (syslog_only code r)
early-Accounted config code r p e =
    recorded (code, (syslog_sink, r) ∷ []) refl
      (record { written = r; is_one = inl (syslog_sink, refl); is_plain = p; says_so = e })

module _ (c : Primitives) (ip_to_string : IpAddr → Text) (host : Host) where
  attempt-Accounted :
      (corr username password : Text) (silent : Bool) (answer : Result Config ConfigError)
      → Accounted answer (attempt c ip_to_string host corr username password silent answer)
  unfolding attempt attempt_record result_from_pam_code pam_code has_nul
  attempt-Accounted corr username password silent (err e) =
      early-Accounted (err e) _ _ (refl, refl) refl
  attempt-Accounted corr username password silent (ok config) =
      let (report, h) =
        reported c ip_to_string host silent (context corr username password) config in
      elim (Bool-cases (attempt_panics host.system (transport_of config) h)) [
        | inl b ↦
            flow_panicked config (rw b refl) refl (transport_of-WrapsAround host.system config h b)
        | inr b ↦
            let audited = attempt_record ip_to_string config.protocol username corr report in
            recorded (pam_code report.outcome, emit config.audit audited) (rw b refl)
              (emit_once config.audit _ audited (refl, proto_str-plain config.protocol)
                (result_from-pam_code report.outcome))
      ]

  with_authtok-Accounted :
      (corr path username : Text) (disallow_null silent : Bool) (tok : Result (Option Text) ℕ)
      → Accounted
          (loaded c ip_to_string host path)
          (with_authtok c ip_to_string host corr path username disallow_null silent tok)
  unfolding with_authtok result_from_pam_code has_nul
  with_authtok-Accounted corr path username d s (ok none) = early-Accounted _ _ _ (refl, refl) refl
  with_authtok-Accounted corr path username d s (err code) = early-Accounted _ _ _ (refl, refl) refl
  with_authtok-Accounted corr path username d s (ok (some [])) =
      early-Accounted _ _ _ (refl, refl) refl
  with_authtok-Accounted corr path username d s (ok (some (x ∷ password))) =
      attempt-Accounted corr username (x ∷ password) s (loaded c ip_to_string host path)

  with_user-Accounted :
      (corr : Text) (opts : Options) (disallow_null silent : Bool) (user : Result Text ℕ)
      → Accounted
          (loaded c ip_to_string host opts.config_path)
          (with_user c ip_to_string host corr opts disallow_null silent user)
  unfolding with_user has_nul
  with_user-Accounted corr opts d s (err code) = early-Accounted _ _ _ (refl, refl) refl
  with_user-Accounted corr opts d s (ok username) =
      with_authtok-Accounted corr opts.config_path username d s (fetched c ip_to_string host opts)

  -- Every call that does not panic is accounted for by one record, and one that does by its
  -- configuration.
  pub sm_authenticate-Accounted :
      (flags : ℕ) (args : List Text)
      → Accounted
          (loaded c ip_to_string host (parse_options_from default_options args).config_path)
          (sm_authenticate c ip_to_string host flags args)
  unfolding sm_authenticate
  sm_authenticate-Accounted flags args =
      with_user-Accounted (corr_id host.corr_octets) (parse_options_from default_options args)
        (not (flags % 2 == 0)) (not (flags / 32768 % 2 == 0)) (get_user host)

-- Every call that comes to a return code writes exactly one audit record, on every path, and the
-- record's result is the one that the return code stands for.
pub sm_authenticate-IsRecorded :
    (c : Primitives) (ip_to_string : IpAddr → Text) (host : Host) (flags : ℕ) (args : List Text)
    (ended : Ended)
    → sm_authenticate c ip_to_string host flags args ≡ some ended
    → IsRecorded ended
sm_authenticate-IsRecorded c ip_to_string host flags args ended =
    Accounted-IsRecorded _ _ ended (sm_authenticate-Accounted c ip_to_string host flags args)
