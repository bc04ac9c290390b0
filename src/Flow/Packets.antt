-- ===== src/Flow/Packets.antt =====
-- crates/pam-ffi/src/flow.rs: the Access-Requests of the two protocols.
pub mod Wire
use pam_nps_mfa.Base.{ℕ, Option, none, some, Bytes, Result, ok, ◌>>=◌}
use pam_nps_mfa.Base.Text.{Text, utf8}
use pam_nps_mfa.Primitives.{Primitives}
use pam_nps_mfa.Config.{Config}
use pam_nps_mfa.Radius.{
  access_request, EncodeError, user_name, user_password, vendor_specific, nas_identifier,
  nas_ip_address,
}
use pam_nps_mfa.Radius.Packet
use pam_nps_mfa.Radius.Packet.{
  PacketBuilder, attribute, message_authenticator_placeholder, build, fill_message_authenticator,
}
use pam_nps_mfa.Mschap.Exchange.{MsChapV2Request}

-- `if let Some(value) = value { builder = builder.attribute(..)? }`
unfoldable pub add_optional : PacketBuilder → ℕ → Option Bytes → Result PacketBuilder EncodeError
add_optional builder t none = ok builder
add_optional builder t (some value) = attribute builder t value

abbrev octets : Option Text → Option Bytes
octets none = none
octets (some t) = some (utf8 t)

unfoldable pub add_nas_attributes : PacketBuilder → Config → Result PacketBuilder EncodeError
unfolding add_optional
add_nas_attributes builder config = do
  b ← add_optional builder nas_identifier (octets config.nas_identifier)
  add_optional b nas_ip_address config.nas_ip

-- The last four steps of both requests.
unfoldable pub finish_packet :
    Primitives → PacketBuilder → Config → Bytes → Result Bytes EncodeError
finish_packet c builder config secret = do
  b1 ← add_nas_attributes builder config
  b2 ← message_authenticator_placeholder b1
  packet ← build b2
  fill_message_authenticator c packet secret

module _ (c : Primitives) where
  unfoldable pub build_mschapv2_packet :
      Text → MsChapV2Request → ℕ → Bytes → Config → Bytes → Result Bytes EncodeError
  unfolding finish_packet
  build_mschapv2_packet username request id request_authenticator config secret = do
    b1 ← attribute (Packet.new access_request id request_authenticator) user_name (utf8 username)
    b2 ← attribute b1 vendor_specific request.ms_chap_challenge
    b3 ← attribute b2 vendor_specific request.ms_chap2_response
    finish_packet c b3 config secret

  unfoldable pub build_pap_packet :
      Text → Bytes → ℕ → Bytes → Config → Bytes → Result Bytes EncodeError
  unfolding finish_packet
  build_pap_packet username hidden_password id request_authenticator config secret = do
    b1 ← attribute (Packet.new access_request id request_authenticator) user_name (utf8 username)
    b2 ← attribute b1 user_password hidden_password
    finish_packet c b2 config secret
