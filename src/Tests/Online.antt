-- ===== src/Tests/Online.antt =====
-- An attempt over the UDP transport, with a socket that hears the server's answer.
use pam_nps_mfa.Base.{◌≡◌, refl, true, false, []}
use pam_nps_mfa.Base.Text.{utf8}
use pam_nps_mfa.World.{send}
use pam_nps_mfa.Config.{pap}
use pam_nps_mfa.Flow.{PamOutcome}
use pam_nps_mfa.Flow.Rounds.{pap_flow}
use pam_nps_mfa.Flow.Authenticate.{authenticate_report}
use pam_nps_mfa.Radius.{from_u8}
use pam_nps_mfa.Flow.Packets.{add_nas_attributes}
use pam_nps_mfa.Base.{bytes_eq}
use pam_nps_mfa.Radius.Binding.{verify_response, has_ma}
use pam_nps_mfa.Radius.Auth.{
  message_authenticator, hmac_md5, verify_response_authenticator, response_authenticator,
  verify_response_message_authenticator, scan_ma,
}
use pam_nps_mfa.Radius.Parse.{for_each_attribute, parse_response, declared_length, push_attribute}
use pam_nps_mfa.Radius.Packet.{
  fresh_request_authenticator, attribute, message_authenticator_placeholder, build,
  fill_message_authenticator, scan_fill,
}
use mathlib.Core.List.{flatten}
use pam_nps_mfa.Flow.Packets.{build_pap_packet}
use pam_nps_mfa.Pap.{try_hide_password, hide_core, padded_len}
use pam_nps_mfa.Base.Bits.{xor_bytes}
use pam_nps_mfa.Tests.Fixtures.{toy, config_for, alice, signed}
use pam_nps_mfa.World.{World}
use pam_nps_mfa.Config.{Config}
use pam_nps_mfa.Radius.Udp.{exchange, connected, from_config}
use pam_nps_mfa.System.{world_of, attempt_panics, transport_of}
use pam_nps_mfa.Tests.Surroundings.{online}

abbrev settings : Config
settings = config_for pap

abbrev over_udp : World
over_udp = world_of (online (signed 2 [])) false settings

flow_succeeds : (pap_flow toy over_udp alice settings []).0.outcome ≡ PamOutcome.success
unfolding pap_flow fresh_request_authenticator build_pap_packet try_hide_password hide_core
    padded_len xor_bytes attribute utf8 add_nas_attributes message_authenticator_placeholder build
    fill_message_authenticator for_each_attribute scan_fill message_authenticator hmac_md5
    verify_response parse_response declared_length push_attribute verify_response_authenticator
    response_authenticator has_ma verify_response_message_authenticator scan_ma from_u8 flatten send
    bytes_eq exchange connected from_config
flow_succeeds = refl

flow_runs_through :
    attempt_panics
      (online (signed 2 []))
      (transport_of settings)
      (pap_flow toy over_udp alice settings []).1
    ≡ false
unfolding pap_flow fresh_request_authenticator build_pap_packet try_hide_password hide_core
    padded_len xor_bytes attribute utf8 add_nas_attributes message_authenticator_placeholder build
    fill_message_authenticator for_each_attribute scan_fill message_authenticator hmac_md5
    verify_response parse_response declared_length push_attribute verify_response_authenticator
    response_authenticator has_ma verify_response_message_authenticator scan_ma from_u8 flatten send
    bytes_eq exchange connected from_config attempt_panics
flow_runs_through = refl

pub online_succeeds :
    (authenticate_report toy over_udp alice settings []).0.outcome ≡ PamOutcome.success
unfolding authenticate_report
online_succeeds = flow_succeeds

pub online_runs_through :
    attempt_panics
      (online (signed 2 []))
      (transport_of settings)
      (authenticate_report toy over_udp alice settings []).1
    ≡ false
unfolding authenticate_report
online_runs_through = flow_runs_through

-- The retry count that the configuration accepts and the division does not.
pub online_panics :
    attempt_panics
      (online (signed 2 []))
      (transport_of (record settings { retries = 4294967295 }))
      (pap_flow toy
        (world_of (online (signed 2 [])) false (record settings { retries = 4294967295 }))
        alice
        (record settings { retries = 4294967295 })
        []).1
    ≡ true
unfolding pap_flow fresh_request_authenticator build_pap_packet try_hide_password hide_core
    padded_len xor_bytes attribute utf8 add_nas_attributes message_authenticator_placeholder build
    fill_message_authenticator for_each_attribute scan_fill message_authenticator hmac_md5
    verify_response parse_response declared_length push_attribute verify_response_authenticator
    response_authenticator has_ma verify_response_message_authenticator scan_ma from_u8 flatten send
    bytes_eq exchange connected from_config attempt_panics
online_panics = refl
