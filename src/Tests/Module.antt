-- ===== src/Tests/Module.antt =====
-- Runs of the module's entry point, and a record with a hostile user name.
use pam_nps_mfa.Flow.Authenticate.{authenticate_report}
use pam_nps_mfa.Base.{
  ok, ℕ, ◌==◌, if◌then◌else◌, bytes_eq, ◌≡◌, refl, ap, false, none, some, List, [], ◌∷◌, ◌++◌,
}
use pam_nps_mfa.Base.Text.{Text, text}
use pam_nps_mfa.Base.Str.{lines, trim, before, split_whitespace, u32_from_str}
use pam_nps_mfa.Base.Utf8.{from_utf8}
use pam_nps_mfa.Config.Address.{socket_from_str}
use pam_nps_mfa.Config.Parse.{parse, find_key, protocol_of}
use pam_nps_mfa.Config.Load.{load}
use pam_nps_mfa.Config.{Config, pap, both}
use pam_nps_mfa.World.{IpAddr}
use pam_nps_mfa.Flow.{pam_code}
use pam_nps_mfa.Audit.{AuditRecord, denied, sanitize, result_token, render}
use pam_nps_mfa.Audit.{emit}
use pam_nps_mfa.Memory.{has_nul}
use pam_nps_mfa.Audit
use pam_nps_mfa.Audit.Fields.{words, words-render}
use pam_nps_mfa.Boundary.{
  Host, null, decoded, get_user, get_authtok, sm_authenticate, parse_options_from, parse_option,
  default_options, corr_id, CString, Ended, loaded, attempt,
}
use pam_nps_mfa.Boundary.Entry.{module_args, pam_sm_authenticate}
use pam_nps_mfa.Boundary.Entry.Guard.{
  IsGuarded, pam_sm_authenticate-IsGuarded, pam_sm_authenticate-Granted,
}
use pam_nps_mfa.Tests.Surroundings.{online}
use pam_nps_mfa.Audit.Native.{Libaudit, deliver}
use pam_nps_mfa.Audit.Native.Delivery.{calls_of, deliver-emit}
use pam_nps_mfa.Boundary.Delivery.{IsDelivered, sm_authenticate-IsDelivered}
use pam_nps_mfa.Boundary.Outcome.{IsRecorded, sm_authenticate-IsRecorded}
use pam_nps_mfa.Boundary.Success.{Granted, sm_authenticate-success}
use pam_nps_mfa.Tests.Fixtures.{toy, signed, alice, files, config_for}
use pam_nps_mfa.Tests.Online.{online_succeeds, online_runs_through, online_panics}

abbrev any_ip : IpAddr → Text
any_ip ip = text "192.0.2.1"

abbrev host : Host
host = record {
  pam_get_user = (0, decoded alice.username);
  pam_get_item = (0, null);
  pam_get_authtok = (0, decoded alice.password);
  corr_octets = none;
  files = files 384;
  system = online (signed 2 []);
}

abbrev arguments : List Text
arguments = text "debug" ∷ text "config=/etc/other.conf" ∷ []

abbrev arguments_array : ℕ → CString
arguments_array i =
    if i == 0
    then decoded (text "debug")
    else if i == 1
    then null
    else decoded (text "config=/etc/other.conf")

copies : module_args 3 (some arguments_array) ≡ arguments
unfolding module_args
copies = refl

abbrev settings : Config
settings = config_for pap

loads : loaded toy any_ip host (text "/etc/other.conf") ≡ ok settings
unfolding load from_utf8 parse lines trim before split_whitespace find_key socket_from_str
    protocol_of u32_from_str bytes_eq
loads = refl

-- From the loaded configuration on.
attempts :
    (attempted : Ended) × (attempt toy any_ip host
        (corr_id none)
        alice.username
        alice.password
        false
        (ok settings)
      ≡ some attempted)
    × (attempted.0 ≡ 0)
unfolding attempt
attempts = rw online_runs_through (_, refl, ap pam_code online_succeeds)

-- The same with the largest number of retries: no code, and no record.
panics :
    attempt toy any_ip host
      (corr_id none)
      alice.username
      alice.password
      false
      (ok (record settings { retries = 4294967295 }))
    ≡ none
unfolding attempt authenticate_report
panics = rw online_panics refl

calls :
    sm_authenticate toy any_ip host 0 arguments
    ≡ attempt toy any_ip host
        (corr_id none)
        alice.username
        alice.password
        false
        (loaded toy any_ip host (text "/etc/other.conf"))
unfolding sm_authenticate parse_option get_user get_authtok bytes_eq
calls = refl

returns :
    (attempted : Ended) × (sm_authenticate toy any_ip host 0 arguments ≡ some attempted)
    × (attempted.0 ≡ 0)
returns = rw (calls, loads) attempts

abbrev ended : Ended
ended = pam_sm_authenticate toy any_ip host 0 3 (some arguments_array)

sm_authenticate-success_example :
    Granted toy any_ip host (parse_options_from default_options arguments) (corr_id none) false
sm_authenticate-success_example =
    sm_authenticate-success toy any_ip host 0 arguments returns.0 returns.1 returns.2

sm_authenticate-IsRecorded_example : IsRecorded returns.0
sm_authenticate-IsRecorded_example =
    sm_authenticate-IsRecorded toy any_ip host 0 arguments returns.0 returns.1

grants : ended.0 ≡ 0
unfolding pam_sm_authenticate module_args
grants = rw returns.1 returns.2

pam_sm_authenticate-Granted_example :
    Granted toy any_ip host
      (parse_options_from default_options (module_args 3 (some arguments_array)))
      (corr_id none)
      false
pam_sm_authenticate-Granted_example =
    pam_sm_authenticate-Granted toy any_ip host 0 3 (some arguments_array) grants

pam_sm_authenticate-IsGuarded_example :
    IsGuarded (loaded toy any_ip host (text "/etc/other.conf")) ended
unfolding module_args parse_options_from bytes_eq
pam_sm_authenticate-IsGuarded_example =
    pam_sm_authenticate-IsGuarded toy any_ip host 0 3 (some arguments_array)

-- The user name holds a space and what looks like a field.
abbrev hostile : AuditRecord
hostile =
    Audit.new (text "pap") [] (text "eve result=success") denied (text "reject")
      (text "unavailable")

words-render_example :
    words (render hostile)
    ≡ (text "op=" ++ hostile.op)
      ∷ (text "proto=" ++ hostile.proto)
      ∷ (text "server=" ++ sanitize hostile.server)
      ∷ (text "user=" ++ sanitize hostile.user)
      ∷ (text "result=" ++ result_token hostile.result)
      ∷ (text "reason=" ++ sanitize hostile.reason)
      ∷ (text "corr=" ++ sanitize hostile.corr)
      ∷ []
words-render_example =
    words-render hostile
      (
        refl,
        (refl, (refl, (refl, (refl, (refl, (refl, (refl, (refl, (refl, (refl, (refl, tt))))))))))),
      )
      (refl, (refl, (refl, tt)))

-- An audit daemon that takes no message.
abbrev deaf : Libaudit
deaf = record { opens = some 4; writes = λ fd message. false }

deliver-emit_example : deliver deaf false (emit both hostile) ≡ calls_of deaf false both hostile
unfolding has_nul
deliver-emit_example = deliver-emit deaf false both hostile (refl, refl)

sm_authenticate-IsDelivered_example : IsDelivered deaf false returns.0
sm_authenticate-IsDelivered_example =
    sm_authenticate-IsDelivered toy any_ip host 0 arguments deaf false returns.0 returns.1
