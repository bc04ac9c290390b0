-- ===== src/Tests/Sockets.antt =====
-- Attempts over an application and sockets.
use pam_nps_mfa.Base.{false, true, []}
use pam_nps_mfa.Config.{mschapv2}
use pam_nps_mfa.Radius.Udp.{UdpTransport}
use pam_nps_mfa.Flow.Push.{mschapv2_flow}
use pam_nps_mfa.System.{System, world_over}
use pam_nps_mfa.System.Notice.{Notified, mschapv2_flow-Notified}
use pam_nps_mfa.System.Sent.{AllRun, mschapv2_flow-AllRun}
use pam_nps_mfa.Tests.Fixtures.{toy, alice, config_for}
use pam_nps_mfa.Tests.Attempts.{accept_packet}
use pam_nps_mfa.Tests.Surroundings.{online}

abbrev transport : UdpTransport
transport = record { probe_timeout = 5; mfa_timeout = 60; retries = 1 }

abbrev system : System
system = online accept_packet

mschapv2_flow-Notified_example :
    Notified toy system transport
      (mschapv2_flow toy (world_over system transport false) alice (config_for mschapv2) []).1
mschapv2_flow-Notified_example =
    mschapv2_flow-Notified toy system transport alice (config_for mschapv2)

mschapv2_flow-AllRun_example :
    AllRun toy system transport true alice
      (config_for mschapv2)
      (mschapv2_flow toy (world_over system transport true) alice (config_for mschapv2) []).1
mschapv2_flow-AllRun_example =
    mschapv2_flow-AllRun toy system transport true alice (config_for mschapv2)
