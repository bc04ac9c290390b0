-- ===== src/Radius/Parse.antt =====
-- crates/radius/src/parse.rs: the bounded parser of responses.
pub mod Walk
pub mod Exact
use pam_nps_mfa.Base.{
  ℕ, zero, suc, ◌+◌, ◌-◌, Bool, not, ◌&&◌, ◌||◌, Option, List, [], ◌∷◌, ◌++◌, map, Bytes, length,
  get_or, take, drop, slice, ltb, leb, ◌==◌, if◌then◌else◌, Result, ok, err, ◌>>=◌,
}
use pam_nps_mfa.Base.Words.{from_be16, from_be32}
use pam_nps_mfa.Radius.{
  min_packet_len, max_packet_len, vendor_specific, Code, from_u8, ParseError, packet_too_short,
  length_field_invalid, length_exceeds_datagram, attribute_length_invalid, attribute_overrun,
  vendor_too_short, vendor_length_invalid,
}

-- `ParsedResponse`; an attribute is its type and its value.
pub record ParsedResponse : Type 0 where
  pub code : ℕ
  pub id : ℕ
  pub authenticator : Bytes
  pub attrs : List (ℕ × Bytes)

-- `ParsedResponse::known_code`
abbrev pub known_code : ParsedResponse → Option Code
known_code r = from_u8 r.code

values_of : ℕ → List (ℕ × Bytes) → List Bytes
values_of t [] = []
values_of t ((u, v) ∷ rest) = if u == t then v ∷ values_of t rest else values_of t rest

-- `ParsedResponse::attr_values`
unfoldable pub attr_values : ParsedResponse → ℕ → List Bytes
unfolding values_of
attr_values r t = values_of t r.attrs

unfoldable pub declared_length : Bytes → Result ℕ ParseError
declared_length packet =
    if ltb (length packet) min_packet_len
    then err packet_too_short
    else if ltb max_packet_len (length packet)
    then err ParseError.packet_too_long
    else let declared = from_be16 (get_or packet 2 0) (get_or packet 3 0) in
      if not (leb min_packet_len declared && leb declared max_packet_len)
      then err length_field_invalid
      else if ltb (length packet) declared
      then err length_exceeds_datagram
      else ok declared

-- The `while off < attrs.len()` of `for_each_attribute`. The closure's captured variables are the
-- state `S`; the octets from `off` on are the list, so its length is `attrs.len() - off`. Each round
-- takes two octets at least, so fuel equal to the length never runs out (Parse/Walk).
module _ {ℓ} {S : Type ℓ} (f : S → ℕ → ℕ → Bytes → Result S ParseError) where
  unfoldable pub walk : ℕ → ℕ → Bytes → S → Result S ParseError
  walk fuel off [] s = ok s
  walk fuel off (t ∷ []) s = err attribute_length_invalid
  walk zero off (t ∷ l ∷ rest) s = err attribute_overrun
  walk (suc fuel) off (t ∷ l ∷ rest) s =
      if ltb l 2
      then err attribute_length_invalid
      else if ltb (length rest + 2) l
      then err attribute_overrun
      else f s off t (take (l - 2) rest) >>= λ s'. walk fuel (off + l) (drop (l - 2) rest) s'

  unfoldable pub for_each_attribute : Bytes → S → Result S ParseError
  unfolding walk
  for_each_attribute attrs s = walk (length attrs) 0 attrs s

-- The loop of `validate_vendor_specific`, from its offset on.
vendor_walk : ℕ → Bytes → Result (Unit {0}) ParseError
vendor_walk fuel [] = ok tt
vendor_walk fuel (t ∷ []) = err vendor_length_invalid
vendor_walk zero (t ∷ vlen ∷ rest) = err vendor_length_invalid
vendor_walk (suc fuel) (t ∷ vlen ∷ rest) =
    let next = vendor_walk fuel (drop (vlen - 2) rest) in
    if ltb vlen 2 || ltb (length rest + 2) vlen then err vendor_length_invalid else next

unfoldable pub validate_vendor_specific : Bytes → Result (Unit {0}) ParseError
unfolding vendor_walk
validate_vendor_specific value =
    if ltb (length value) 6 then err vendor_too_short else vendor_walk (length value) (drop 4 value)

-- The closure of `parse_response`.
unfoldable pub push_attribute :
    List (ℕ × Bytes) → ℕ → ℕ → Bytes → Result (List (ℕ × Bytes)) ParseError
push_attribute attrs off t value =
    if t == vendor_specific
    then validate_vendor_specific value >>= (λ _. ok (attrs ++ ((t, value) ∷ [])))
    else ok (attrs ++ ((t, value) ∷ []))

unfoldable pub parse_response : Bytes → Result ParsedResponse ParseError
parse_response packet = do
  declared ← declared_length packet
  attrs ← for_each_attribute push_attribute (slice 20 declared packet) []
  ok (record {
    code = get_or packet 0 0;
    id = get_or packet 1 0;
    authenticator = slice 4 20 packet;
    attrs = attrs;
  })

pub record VendorSpecific : Type 0 where
  pub vendor_id : ℕ
  pub vendor_type : ℕ
  pub vendor_data : Bytes

unfoldable pub decode_vendor_specific : Bytes → Result VendorSpecific ParseError
decode_vendor_specific value =
    if ltb (length value) 6
    then err vendor_too_short
    else let vendor_len = get_or value 5 0 in
      if ltb vendor_len 2 || not (vendor_len == length value - 4)
      then err vendor_length_invalid
      else ok (record {
        vendor_id =
            from_be32 (get_or value 0 0) (get_or value 1 0) (get_or value 2 0) (get_or value 3 0);
        vendor_type = get_or value 4 0;
        vendor_data = drop 6 value;
      })
