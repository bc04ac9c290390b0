-- ===== src/Tests/Requests.antt =====
-- Two requests as they are built.
use pam_nps_mfa.Base.{◌≡◌, refl, [], ◌∷◌, Bytes, replicate, ok}
use pam_nps_mfa.Base.Text.{utf8}
use pam_nps_mfa.Config.{pap, mschapv2}
use pam_nps_mfa.Radius.{user_name, user_password, vendor_specific}
use pam_nps_mfa.Radius.Packet.{
  attribute, message_authenticator_placeholder, build, fill_message_authenticator, scan_fill,
}
use pam_nps_mfa.Radius.Parse.{for_each_attribute}
use pam_nps_mfa.Radius.Auth.{message_authenticator, hmac_md5}
use pam_nps_mfa.Mschap.Exchange.{MsChapV2Request}
use pam_nps_mfa.Flow.Packets.{add_nas_attributes, build_pap_packet, build_mschapv2_packet}
use pam_nps_mfa.Flow.Packets.Wire.{
  nas, signed_request, build_pap_packet-signed_request, build_mschapv2_packet-signed_request,
}
use pam_nps_mfa.Tests.Fixtures.{toy, ra, alice, secret, config_for}

abbrev hidden : Bytes
hidden = replicate 16 9

abbrev pap_packet : Bytes
pap_packet =
    signed_request 7 ra toy secret
      ((user_name, alice.username) ∷ (user_password, hidden) ∷ nas 7 ra (config_for pap))

builds_pap : build_pap_packet toy alice.username hidden 7 ra (config_for pap) secret ≡ ok pap_packet
unfolding build_pap_packet attribute utf8 add_nas_attributes message_authenticator_placeholder build
    fill_message_authenticator for_each_attribute scan_fill message_authenticator hmac_md5
builds_pap = refl

build_pap_packet-signed_request_example :
    pap_packet
    ≡ signed_request 7 ra toy secret
        ((user_name, utf8 alice.username) ∷ (user_password, hidden) ∷ nas 7 ra (config_for pap))
build_pap_packet-signed_request_example =
    build_pap_packet-signed_request toy alice.username hidden 7 ra (config_for pap) secret
      pap_packet refl builds_pap

-- The attributes stand for what the exchange of MSCHAPv2 computes.
abbrev push_attributes : MsChapV2Request
push_attributes = record {
  ms_chap_challenge = replicate 22 1;
  ms_chap2_response = replicate 56 2;
  expected_authenticator = [];
}

abbrev push_packet : Bytes
push_packet = signed_request 7 ra toy secret (
    (user_name, alice.username)
    ∷ (vendor_specific, push_attributes.ms_chap_challenge)
    ∷ (vendor_specific, push_attributes.ms_chap2_response)
    ∷ nas 7 ra (config_for mschapv2))

builds_push :
    build_mschapv2_packet toy alice.username push_attributes 7 ra (config_for mschapv2) secret
    ≡ ok push_packet
unfolding build_mschapv2_packet attribute utf8 add_nas_attributes message_authenticator_placeholder
    build fill_message_authenticator for_each_attribute scan_fill message_authenticator hmac_md5
builds_push = refl

build_mschapv2_packet-signed_request_example :
    push_packet
    ≡ signed_request 7 ra toy secret (
        (user_name, utf8 alice.username)
        ∷ (vendor_specific, push_attributes.ms_chap_challenge)
        ∷ (vendor_specific, push_attributes.ms_chap2_response)
        ∷ nas 7 ra (config_for mschapv2))
build_mschapv2_packet-signed_request_example =
    build_mschapv2_packet-signed_request toy alice.username push_attributes 7 ra
      (config_for mschapv2) secret push_packet refl builds_push
