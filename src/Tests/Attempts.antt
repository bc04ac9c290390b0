-- ===== src/Tests/Attempts.antt =====
-- Runs of whole attempts, and the theorems about them at those runs.
use pam_nps_mfa.Base.{◌≤◌, ◌≡◌, refl, false, [], ◌∷◌, Bytes, is_empty}
use pam_nps_mfa.Base.Text.{text, utf8}
use pam_nps_mfa.World.{send}
use pam_nps_mfa.Config.{mschapv2, pap}
use pam_nps_mfa.Mschap.Crypto.{expand_des_key}
use pam_nps_mfa.Mschap.Exchange.{build_request, verify_access_accept}
use pam_nps_mfa.Flow.{PamOutcome}
use pam_nps_mfa.Flow.Trace.{exchanges, Owned, IsCommitted}
use pam_nps_mfa.Flow.Push.{mschapv2_flow}
use pam_nps_mfa.Flow.Push.Safety.{mschapv2_flow-IsCommitted}
use pam_nps_mfa.Flow.Push.Success.{PushEvidence, mschapv2_flow-success}
use pam_nps_mfa.Flow.Rounds.{pap_flow}
use pam_nps_mfa.Flow.Rounds.Bounds.{prompts, contacts, pap_flow-bounded}
use pam_nps_mfa.Flow.Rounds.Safety.{PapEvidence, pap_flow-Owned, pap_flow-success}
use pam_nps_mfa.Flow.Authenticate.{authenticate_report}
use pam_nps_mfa.Flow.Authenticate.Safety.{
  Evidence, authenticate_report-success, authenticate_report-Owned,
}
use pam_nps_mfa.Radius.{from_u8}
use pam_nps_mfa.World.{say}
use pam_nps_mfa.Flow.Packets.{build_mschapv2_packet, add_nas_attributes}
use pam_nps_mfa.Base.Text.{encode_utf16}
use pam_nps_mfa.Base.{bytes_eq}
use pam_nps_mfa.Mschap.Exchange.{generate_challenges}
use pam_nps_mfa.Mschap.Vsa.{
  encode_ms_chap_challenge, encode_ms_chap2_response, find_ms_chap2_success, find_vendor_data,
  parse_ms_chap2_success, is_ascii_hexdigit, all_hex, upper_all,
}
use pam_nps_mfa.Mschap.Crypto.{
  generate_nt_response, verify_authenticator_response, decode_s_value, hex_decode_20, hex_pairs,
  generate_authenticator_response, password_hash_hash, nt_password_hash, challenge_hash, le_bytes,
  upper_hex,
}
use pam_nps_mfa.Radius.Binding.{verify_response, has_ma}
use pam_nps_mfa.Radius.Auth.{
  message_authenticator, hmac_md5, verify_response_authenticator, response_authenticator,
  verify_response_message_authenticator, scan_ma,
}
use pam_nps_mfa.Radius.Parse.{
  for_each_attribute, parse_response, declared_length, push_attribute, validate_vendor_specific,
  attr_values, decode_vendor_specific,
}
use pam_nps_mfa.Radius.Packet.{
  fresh_request_authenticator, attribute, message_authenticator_placeholder, build,
  fill_message_authenticator, scan_fill,
}
use mathlib.Core.List.{flatten}
use mathlib.Core.Option.{bind}
use pam_nps_mfa.Flow.Packets.{build_pap_packet}
use pam_nps_mfa.Pap.{try_hide_password, hide_core, padded_len}
use pam_nps_mfa.Base.Bits.{xor_bytes}
use pam_nps_mfa.Tests.Fixtures.{toy, answering, nps, config_for, alice, signed}

abbrev pub success_vsa : Bytes
success_vsa = 0 ∷ 0 ∷ 1 ∷ 55 ∷ 26 ∷ 45 ∷ 7 ∷ text "S=9393939393939393939393939393939393939393"

abbrev pub accept_packet : Bytes
accept_packet = signed 2 ((26, success_vsa) ∷ [])

push_succeeds :
    (mschapv2_flow toy (answering accept_packet []) alice (config_for mschapv2) []).0.outcome
    ≡ PamOutcome.success
unfolding mschapv2_flow fresh_request_authenticator generate_challenges build_mschapv2_packet
    attribute utf8 build_request encode_ms_chap_challenge encode_ms_chap2_response
    generate_nt_response add_nas_attributes message_authenticator_placeholder build
    fill_message_authenticator for_each_attribute scan_fill message_authenticator hmac_md5 say
    verify_response parse_response declared_length push_attribute validate_vendor_specific
    verify_response_authenticator response_authenticator has_ma
    verify_response_message_authenticator scan_ma from_u8 verify_access_accept find_ms_chap2_success
    find_vendor_data attr_values decode_vendor_specific parse_ms_chap2_success is_ascii_hexdigit
    all_hex upper_all bytes_eq verify_authenticator_response decode_s_value hex_decode_20 hex_pairs
    generate_authenticator_response password_hash_hash nt_password_hash challenge_hash le_bytes
    encode_utf16 upper_hex expand_des_key flatten bind
push_succeeds = refl

mschapv2_flow-success_example :
    PushEvidence toy
      (answering accept_packet [])
      alice
      (config_for mschapv2)
      (nps ∷ [])
      (mschapv2_flow toy (answering accept_packet []) alice (config_for mschapv2) []).0
      (mschapv2_flow toy (answering accept_packet []) alice (config_for mschapv2) []).1
mschapv2_flow-success_example =
    mschapv2_flow-success toy (answering accept_packet []) alice (config_for mschapv2) []
      push_succeeds

mschapv2_flow-IsCommitted_example :
    IsCommitted
      (exchanges (mschapv2_flow toy (answering accept_packet []) alice (config_for mschapv2) []).1)
mschapv2_flow-IsCommitted_example =
    mschapv2_flow-IsCommitted toy (answering accept_packet []) alice (config_for mschapv2)

pap_succeeds :
    (pap_flow toy (answering (signed 2 []) []) alice (config_for pap) []).0.outcome
    ≡ PamOutcome.success
unfolding pap_flow fresh_request_authenticator build_pap_packet try_hide_password hide_core
    padded_len xor_bytes attribute utf8 add_nas_attributes message_authenticator_placeholder build
    fill_message_authenticator for_each_attribute scan_fill message_authenticator hmac_md5
    verify_response parse_response declared_length push_attribute verify_response_authenticator
    response_authenticator has_ma verify_response_message_authenticator scan_ma from_u8 flatten send
    bytes_eq
pap_succeeds = refl

pap_flow-success_example :
    PapEvidence toy
      (answering (signed 2 []) [])
      alice
      (config_for pap)
      (nps ∷ [])
      (pap_flow toy (answering (signed 2 []) []) alice (config_for pap) []).0
      (pap_flow toy (answering (signed 2 []) []) alice (config_for pap) []).1
pap_flow-success_example =
    pap_flow-success toy (answering (signed 2 []) []) alice (config_for pap) pap_succeeds

pap_flow-Owned_example :
    Owned (exchanges (pap_flow toy (answering (signed 2 []) []) alice (config_for pap) []).1)
pap_flow-Owned_example = pap_flow-Owned toy (answering (signed 2 []) []) alice (config_for pap)

pub report_succeeds :
    (authenticate_report toy (answering (signed 2 []) []) alice (config_for pap) []).0.outcome
    ≡ PamOutcome.success
unfolding authenticate_report
report_succeeds = pap_succeeds

authenticate_report-success_example :
    (is_empty alice.username ≡ false)
    × (is_empty alice.password ≡ false)
    × Evidence toy
        (answering (signed 2 []) [])
        alice
        (config_for pap)
        pap
        (authenticate_report toy (answering (signed 2 []) []) alice (config_for pap) []).0
        (authenticate_report toy (answering (signed 2 []) []) alice (config_for pap) []).1
authenticate_report-success_example =
    authenticate_report-success toy (answering (signed 2 []) []) alice (config_for pap)
      report_succeeds

authenticate_report-Owned_example : Owned (
    exchanges
      (authenticate_report toy (answering accept_packet []) alice (config_for mschapv2) []).1)
authenticate_report-Owned_example =
    authenticate_report-Owned toy (answering accept_packet []) alice (config_for mschapv2)

pap_flow-bounded_example :
    (prompts (pap_flow toy (answering (signed 2 []) []) alice (config_for pap) []).1 ≤ 8)
    × (contacts (pap_flow toy (answering (signed 2 []) []) alice (config_for pap) []).1 ≤ 9)
pap_flow-bounded_example = pap_flow-bounded toy (answering (signed 2 []) []) alice (config_for pap)
