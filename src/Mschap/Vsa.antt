-- ===== src/Mschap/Vsa.antt =====
-- crates/mschapv2/src/vsa.rs: the Microsoft vendor attributes.
pub mod Exact
use pam_nps_mfa.Base.{
  ℕ, ◌+◌, ◌-◌, ◌*◌, ◌%◌, Bool, true, false, not, ◌&&◌, ◌||◌, Option, none, some, List, [], ◌∷◌,
  ◌++◌, Bytes, length, get_or, take, drop, replicate, ltb, leb, ◌==◌, bytes_eq, if◌then◌else◌,
  Result, ok, err,
}
use pam_nps_mfa.Base.Words.{be32}
use pam_nps_mfa.Base.Text.{text}
use pam_nps_mfa.Radius.{vendor_id_microsoft, vendor_specific}
use pam_nps_mfa.Radius.Parse.{ParsedResponse, attr_values, VendorSpecific, decode_vendor_specific}

abbrev pub ms_chap_error : ℕ
ms_chap_error = 2

abbrev pub ms_chap_challenge : ℕ
ms_chap_challenge = 11

abbrev pub ms_chap2_response : ℕ
ms_chap2_response = 25

abbrev pub ms_chap2_success : ℕ
ms_chap2_success = 26

unfoldable pub vsa_value : ℕ → Bytes → Bytes
vsa_value vtype data' = be32 vendor_id_microsoft ++ (vtype ∷ (2 + length data') % 256 ∷ data')

unfoldable pub encode_ms_chap_challenge : Bytes → Bytes
unfolding vsa_value
encode_ms_chap_challenge auth_challenge = vsa_value ms_chap_challenge auth_challenge

unfoldable pub encode_ms_chap2_response : ℕ → Bytes → Bytes → Bytes
unfolding vsa_value
encode_ms_chap2_response ident peer_challenge nt_response =
    vsa_value ms_chap2_response (ident ∷ 0 ∷ (peer_challenge ++ (replicate 8 0 ++ nt_response)))

pub data SuccessError : Type 0 where
  too_short missing_s_prefix not_hex trailing_garbage : SuccessError

-- `u8::is_ascii_hexdigit`
unfoldable pub is_ascii_hexdigit : ℕ → Bool
is_ascii_hexdigit c =
    leb b'0' c && leb c b'9' || leb b'a' c && leb c b'f' || leb b'A' c && leb c b'F'

unfoldable pub all_hex : Bytes → Bool
all_hex [] = true
all_hex (c ∷ cs) = is_ascii_hexdigit c && all_hex cs

-- `u8::to_ascii_uppercase`
unfoldable pub to_ascii_uppercase : ℕ → ℕ
to_ascii_uppercase c = if leb b'a' c && leb c b'z' then c - 32 else c

unfoldable pub upper_all : Bytes → Bytes
unfolding to_ascii_uppercase
upper_all [] = []
upper_all (c ∷ cs) = to_ascii_uppercase c ∷ upper_all cs

-- `parse_ms_chap2_success` on what follows the Ident
unfoldable pub parse_success_text : Bytes → Result Bytes SuccessError
parse_success_text s =
    if ltb (length s) 42
    then err too_short
    else if not (bytes_eq (take 2 s) (text "S="))
    then err missing_s_prefix
    else if not (all_hex (take 40 (drop 2 s)))
    then err not_hex
    else if ltb 42 (length s) && not (get_or s 42 0 == b' ')
    then err trailing_garbage
    else ok (text "S=" ++ upper_all (take 40 (drop 2 s)))

unfoldable pub parse_ms_chap2_success : Bytes → Result Bytes SuccessError
unfolding parse_success_text
parse_ms_chap2_success [] = err too_short
parse_ms_chap2_success (ident ∷ s) = parse_success_text s

pub data MsChapError : Type 0 where
  restricted_hours account_disabled password_expired no_dial_in_permission : MsChapError
  authentication_failure error_changing_password : MsChapError
  unknown : ℕ → MsChapError
  malformed : MsChapError

-- `MsChapError::from_code`
unfoldable pub from_code : ℕ → MsChapError
from_code code =
    if code == 646
    then restricted_hours
    else if code == 647
    then account_disabled
    else if code == 648
    then password_expired
    else if code == 649
    then no_dial_in_permission
    else if code == 691
    then authentication_failure
    else if code == 709
    then error_changing_password
    else unknown code

-- What follows the first `E=`.
unfoldable pub after_e : Bytes → Option Bytes
after_e [] = none
after_e (x ∷ s) = if x == b'E' && bytes_eq (take 1 s) (text "=") then some (drop 1 s) else after_e s

abbrev pub u32_max : ℕ
u32_max = 4294967295

-- The loop over the digits: `n` is the index and `any` tells whether a digit was read.
unfoldable pub e_digits : ℕ → ℕ → Bool → Bytes → Option ℕ
e_digits n value any [] = if any then some value else none
e_digits n value any (c ∷ s) =
    let more = e_digits (n + 1) (value * 10 + (c - b'0')) true s in
    if not (leb b'0' c && leb c b'9')
    then if any then some value else none
    else if leb 9 n
    then none
    else if ltb u32_max (value * 10) || ltb u32_max (value * 10 + (c - b'0'))
    then none
    else more

unfoldable pub find_e_code : Bytes → Option ℕ
unfolding e_digits after_e
find_e_code s = elim (after_e s) [ none ↦ none | some digits ↦ e_digits 0 0 false digits ]

unfoldable pub parse_ms_chap_error : Bytes → MsChapError
parse_ms_chap_error [] = malformed
parse_ms_chap_error (ident ∷ s) = elim (find_e_code s) [
  | some code ↦ from_code code
  | none ↦ malformed
]

abbrev is_microsoft : ℕ → VendorSpecific → Bool
is_microsoft vtype vsa = vsa.vendor_id == vendor_id_microsoft && vsa.vendor_type == vtype

-- The loop of `find_vendor_data`. A value that does not decode is skipped.
unfoldable pub find_in_values : ℕ → List Bytes → Option Bytes
find_in_values vtype [] = none
find_in_values vtype (v ∷ rest) =
    let later = find_in_values vtype rest in
    elim (decode_vendor_specific v) [
      | ok vsa ↦ if is_microsoft vtype vsa then some vsa.vendor_data else later
      | err _ ↦ later
    ]

unfoldable pub find_vendor_data : ParsedResponse → ℕ → Option Bytes
unfolding find_in_values
find_vendor_data response vtype = find_in_values vtype (attr_values response vendor_specific)

unfoldable pub find_ms_chap2_success : ParsedResponse → Option Bytes
find_ms_chap2_success response = find_vendor_data response ms_chap2_success

unfoldable pub find_ms_chap_error : ParsedResponse → Option Bytes
find_ms_chap_error response = find_vendor_data response ms_chap_error
