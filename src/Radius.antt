-- ===== src/Radius.antt =====
-- crates/radius/src/lib.rs: packet codes, attribute types, limits and the error types of the codec.
-- The children model the files of that crate. An octet string is a list of numbers below 256.
pub mod Parse
pub mod Packet
pub mod Auth
pub mod Binding
pub mod Udp
pub mod Messages
use pam_nps_mfa.Base.{ℕ, Bool, Option, none, some, ◌==◌, if◌then◌else◌}

abbrev pub min_packet_len : ℕ
min_packet_len = 20

abbrev pub max_packet_len : ℕ
max_packet_len = 4096

abbrev pub vendor_id_microsoft : ℕ
vendor_id_microsoft = 311

pub data Code : Type 0 where
  access_request access_accept access_reject access_challenge : Code

-- `Code::as_u8`
abbrev pub as_u8 : Code → ℕ
as_u8 access_request = 1
as_u8 access_accept = 2
as_u8 access_reject = 3
as_u8 access_challenge = 11

-- `Code::from_u8`
unfoldable pub from_u8 : ℕ → Option Code
from_u8 value =
    if value == 1
    then some access_request
    else if value == 2
    then some access_accept
    else if value == 3
    then some access_reject
    else if value == 11
    then some access_challenge
    else none

-- The numbers of `mod attr`.
abbrev pub user_name : ℕ
user_name = 1

abbrev pub user_password : ℕ
user_password = 2

abbrev pub nas_ip_address : ℕ
nas_ip_address = 4

abbrev pub reply_message : ℕ
reply_message = 18

abbrev pub state_attr : ℕ
state_attr = 24

abbrev pub vendor_specific : ℕ
vendor_specific = 26

abbrev pub nas_identifier : ℕ
nas_identifier = 32

abbrev pub message_authenticator_attr : ℕ
message_authenticator_attr = 80

pub data ParseError : Type 0 where
  packet_too_short packet_too_long length_field_invalid length_exceeds_datagram : ParseError
  attribute_length_invalid attribute_overrun : ParseError
  vendor_too_short vendor_length_invalid : ParseError

pub data EncodeError : Type 0 where
  value_too_long packet_too_long malformed_packet : EncodeError
  missing_message_authenticator duplicate_message_authenticator : EncodeError
