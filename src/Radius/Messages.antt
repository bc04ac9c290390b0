-- ===== src/Radius/Messages.antt =====
-- crates/radius/src/lib.rs: the texts of its errors.
use pam_nps_mfa.Base.Text.{Text, text}
use pam_nps_mfa.World.{RngError}
use pam_nps_mfa.Radius.{
  ParseError, packet_too_short, length_field_invalid, length_exceeds_datagram,
  attribute_length_invalid, attribute_overrun, vendor_too_short, vendor_length_invalid, EncodeError,
  value_too_long, malformed_packet, missing_message_authenticator, duplicate_message_authenticator,
}

-- `Display` of `ParseError`
unfoldable pub parse_error_text : ParseError → Text
parse_error_text packet_too_short = text "packet shorter than the 20-octet RADIUS minimum"
parse_error_text ParseError.packet_too_long =
    text "packet longer than the 4096-octet RADIUS maximum"
parse_error_text length_field_invalid = text "header Length field outside the 20..=4096 range"
parse_error_text length_exceeds_datagram = text "header Length field exceeds the received octets"
parse_error_text attribute_length_invalid = text "attribute Length below the 2-octet minimum"
parse_error_text attribute_overrun = text "attribute runs past the end of the packet"
parse_error_text vendor_too_short = text "vendor-specific attribute too short for its headers"
parse_error_text vendor_length_invalid =
    text "inner Vendor-Length invalid or overruns the attribute"

-- `Display` of `EncodeError`
unfoldable pub encode_error_text : EncodeError → Text
encode_error_text value_too_long = text "attribute value exceeds the 253-octet maximum"
encode_error_text EncodeError.packet_too_long =
    text "packet would exceed the 4096-octet RADIUS maximum"
encode_error_text malformed_packet = text "packet is not structurally valid"
encode_error_text missing_message_authenticator = text "no Message-Authenticator attribute present"
encode_error_text duplicate_message_authenticator =
    text "more than one Message-Authenticator attribute present"

-- `Display` of `RngError`
abbrev pub rng_error_text : RngError → Text
rng_error_text e = text "system randomness unavailable; deny the authentication"
