-- ===== src/Radius/Packet.antt =====
-- crates/radius/src/packet.rs: encoding attributes and assembling Access-Requests.
pub mod Signed
use pam_nps_mfa.Base.{
  ℕ, ◌+◌, ◌%◌, Bool, true, false, not, ◌||◌, Option, none, some, [], ◌∷◌, ◌++◌, Bytes, length,
  get_or, drop, replicate, overwrite, ltb, ◌==◌, if◌then◌else◌, Result, ok, err, ◌>>=◌, ok_or,
}
use pam_nps_mfa.Base.Words.{be16, from_be16}
use pam_nps_mfa.Radius.{
  Code, as_u8, min_packet_len, max_packet_len, message_authenticator_attr, ParseError, EncodeError,
  value_too_long, malformed_packet, missing_message_authenticator, duplicate_message_authenticator,
}
use pam_nps_mfa.World.{World, Step, RngError, draw}
use pam_nps_mfa.Radius.Parse.{for_each_attribute}
use pam_nps_mfa.Primitives.{Primitives}
use pam_nps_mfa.Radius.Auth.{message_authenticator, is_some}

abbrev pub max_attr_value_len : ℕ
max_attr_value_len = 253

unfoldable pub encode_attribute : ℕ → Bytes → Result Bytes EncodeError
encode_attribute attr_type value =
    if ltb max_attr_value_len (length value)
    then err value_too_long
    else let total = length value + 2 in ok (attr_type ∷ total % 256 ∷ value)

-- `fresh_request_authenticator`: 16 octets of the system's randomness, or an error.
unfoldable pub fresh_request_authenticator : World → Step RngError Bytes
unfolding draw
fresh_request_authenticator w = draw w

pub record PacketBuilder : Type 0 where
  pub code : Code
  pub id : ℕ
  pub authenticator : Bytes
  pub attributes : Bytes

-- `PacketBuilder::new`
abbrev pub new : Code → ℕ → Bytes → PacketBuilder
new code id authenticator = record {
  code = code;
  id = id;
  authenticator = authenticator;
  attributes = [];
}

-- `PacketBuilder::attribute`
unfoldable pub attribute : PacketBuilder → ℕ → Bytes → Result PacketBuilder EncodeError
unfolding encode_attribute
attribute b attr_type value = do
  encoded ← encode_attribute attr_type value
  if ltb max_packet_len (min_packet_len + length b.attributes + length encoded)
      then err EncodeError.packet_too_long
      else ok (record b { attributes = b.attributes ++ encoded })

unfoldable pub message_authenticator_placeholder : PacketBuilder → Result PacketBuilder EncodeError
message_authenticator_placeholder b = attribute b message_authenticator_attr (replicate 16 0)

unfoldable pub build : PacketBuilder → Result Bytes EncodeError
build b =
    let total = min_packet_len + length b.attributes in
    if ltb max_packet_len total
    then err EncodeError.packet_too_long
    else ok (as_u8 b.code ∷ b.id ∷ (be16 total ++ (b.authenticator ++ b.attributes)))

-- The variables that the closure of `fill_message_authenticator` captures.
pub record FillScan : Type 0 where
  pub ma_value_off : Option ℕ
  pub bad_length : Bool
  pub duplicate : Bool

-- That closure.
unfoldable pub scan_fill : FillScan → ℕ → ℕ → Bytes → Result FillScan ParseError
scan_fill s off t value =
    if t == message_authenticator_attr
    then if not (length value == 16)
      then ok (record s { bad_length = true })
      else if is_some s.ma_value_off
      then ok (record s { duplicate = true })
      else ok (record s { ma_value_off = some (min_packet_len + off + 2) })
    else ok s

-- What follows the walk, up to the offset to fill.
unfoldable pub fill_offset : Result FillScan ParseError → Result ℕ EncodeError
fill_offset (err _) = err malformed_packet
fill_offset (ok s) =
    if s.bad_length
    then err malformed_packet
    else if s.duplicate
    then err duplicate_message_authenticator
    else ok_or s.ma_value_off missing_message_authenticator

-- The packet that `fill_message_authenticator` leaves in the buffer; on an error it is as before.
unfoldable pub fill_message_authenticator : Primitives → Bytes → Bytes → Result Bytes EncodeError
unfolding fill_offset
fill_message_authenticator c packet secret =
    if ltb (length packet) min_packet_len || ltb max_packet_len (length packet)
    then err malformed_packet
    else let declared = from_be16 (get_or packet 2 0) (get_or packet 3 0) in
      if not (declared == length packet) then err malformed_packet else do
        off ← fill_offset (
            for_each_attribute scan_fill (drop min_packet_len packet)
              (record { ma_value_off = none; bad_length = false; duplicate = false }))
        let zeroed = overwrite off (replicate 16 0) packet
        ok (overwrite off (message_authenticator c zeroed secret) zeroed)
