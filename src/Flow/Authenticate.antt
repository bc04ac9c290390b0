-- ===== src/Flow/Authenticate.antt =====
-- crates/pam-ffi/src/flow.rs: `authenticate_report` and `authenticate`.
pub mod Safety
use pam_nps_mfa.Base.{Bool, is_empty, if◌then◌else◌}
use pam_nps_mfa.Primitives.{Primitives}
use pam_nps_mfa.World.{World, History}
use pam_nps_mfa.Config.{Config, Protocol, mschapv2, pap}
use pam_nps_mfa.Flow.{
  AuthReport, AttemptContext, report_of, PamOutcome, auth_err, unavail, empty_username,
  empty_password, no_servers,
}
use pam_nps_mfa.Flow.Push.{mschapv2_flow}
use pam_nps_mfa.Flow.Rounds.{pap_flow}

module _ (c : Primitives) (w : World) where
  -- The match on `config.protocol`.
  unfoldable pub by_protocol : Protocol → AttemptContext → Config → History → AuthReport × History
  by_protocol mschapv2 ctx config h = mschapv2_flow c w ctx config h
  by_protocol pap ctx config h = pap_flow c w ctx config h

  unfoldable pub authenticate_report : AttemptContext → Config → History → AuthReport × History
  unfolding by_protocol
  authenticate_report ctx config h =
      if is_empty ctx.username
      then (report_of auth_err empty_username, h)
      else if is_empty ctx.password
      then (report_of auth_err empty_password, h)
      else if is_empty config.servers
      then (report_of unavail no_servers, h)
      else by_protocol config.protocol ctx config h

  unfoldable pub authenticate : AttemptContext → Config → History → PamOutcome × History
  unfolding authenticate_report
  authenticate ctx config h =
      let (report, h') = authenticate_report ctx config h in (report.outcome, h')
