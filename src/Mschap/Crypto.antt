-- ===== src/Mschap/Crypto.antt =====
-- crates/mschapv2/src/crypto.rs: the RFC 2759 computations.
use pam_nps_mfa.Base.{
  ℕ, ◌+◌, ◌-◌, ◌*◌, ◌/◌, ◌%◌, Bool, false, not, ◌&&◌, Option, none, some, List, [], ◌∷◌, ◌++◌,
  Bytes, length, get_or, take, drop, replicate, leb, ◌==◌, bytes_eq, if◌then◌else◌,
}
use pam_nps_mfa.Base.Bits.{shl8, shr8}
use pam_nps_mfa.Base.Text.{Text, text, encode_utf16}
use pam_nps_mfa.Primitives.{Primitives}
use Prim.Native.Nat.{bit_and, bit_or}
use mathlib.Core.Option

abbrev pub magic1 : Bytes
magic1 = text "Magic server to client signing constant"

abbrev pub magic2 : Bytes
magic2 = text "Pad to make it do more than one iteration"

-- `u16::to_le_bytes` of each code unit, one after the other
unfoldable pub le_bytes : List ℕ → Bytes
le_bytes [] = []
le_bytes (u ∷ us) = u % 256 ∷ u / 256 ∷ le_bytes us

unfoldable pub expand_des_key : Bytes → Bytes
expand_des_key k =
    let k0 = get_or k 0 0 in
    let k1 = get_or k 1 0 in
    let k2 = get_or k 2 0 in
    let k3 = get_or k 3 0 in
    let k4 = get_or k 4 0 in
    let k5 = get_or k 5 0 in
    let k6 = get_or k 6 0 in
    bit_and k0 0xfe
    ∷ bit_or (shl8 k0 7) (shr8 k1 1)
    ∷ bit_or (shl8 k1 6) (shr8 k2 2)
    ∷ bit_or (shl8 k2 5) (shr8 k3 3)
    ∷ bit_or (shl8 k3 4) (shr8 k4 4)
    ∷ bit_or (shl8 k4 3) (shr8 k5 5)
    ∷ bit_or (shl8 k5 2) (shr8 k6 6)
    ∷ shl8 k6 1
    ∷ []

-- `HEX[n]` for a value below 16
unfoldable pub hex_digit : ℕ → ℕ
hex_digit n = get_or (text "0123456789ABCDEF") n 0

-- What `push_upper_hex` appends.
unfoldable pub upper_hex : Bytes → Bytes
unfolding hex_digit
upper_hex [] = []
upper_hex (b ∷ bs) = hex_digit (b / 16) ∷ hex_digit (b % 16) ∷ upper_hex bs

unfoldable pub hex_val : ℕ → Option ℕ
hex_val c =
    if leb b'0' c && leb c b'9'
    then some (c - b'0')
    else if leb b'a' c && leb c b'f'
    then some (c - b'a' + 10)
    else if leb b'A' c && leb c b'F'
    then some (c - b'A' + 10)
    else none

-- The loop of `hex_decode_20` over pairs of digits.
unfoldable pub hex_pairs : Bytes → Option Bytes
unfolding hex_val
hex_pairs (hi ∷ lo ∷ rest) =
    Option.bind (hex_val hi)
      λ h. Option.bind (hex_val lo) λ l. Option.map (◌∷◌ (h * 16 + l)) (hex_pairs rest)
hex_pairs _ = some []

unfoldable pub hex_decode_20 : Bytes → Option Bytes
hex_decode_20 hex = if not (length hex == 40) then none else hex_pairs hex

unfoldable pub decode_s_value : Bytes → Option Bytes
decode_s_value s =
    if bytes_eq (take 2 s) (text "S=")
    then if not (length (drop 2 s) == 40) then none else hex_decode_20 (drop 2 s)
    else none

module _ (c : Primitives) where
  open c use {md4, sha1, des, ct_eq}

  unfoldable pub nt_password_hash : Text → Bytes
  nt_password_hash password = md4 (le_bytes (encode_utf16 password))

  unfoldable pub password_hash_hash : Bytes → Bytes
  password_hash_hash nt_hash = md4 nt_hash

  unfoldable pub challenge_hash : Bytes → Bytes → Bytes → Bytes
  challenge_hash peer auth username = take 8 (sha1 (peer ++ (auth ++ username)))

  unfoldable pub challenge_response : Bytes → Bytes → Bytes
  challenge_response challenge nt_hash =
      let padded = nt_hash ++ replicate 5 0 in
      des (expand_des_key (take 7 padded)) challenge
      ++ (des (expand_des_key (take 7 (drop 7 padded))) challenge
          ++ des (expand_des_key (take 7 (drop 14 padded))) challenge)

  unfoldable pub generate_nt_response : Bytes → Bytes → Bytes → Text → Bytes
  unfolding challenge_response
  generate_nt_response auth peer username password =
      challenge_response (challenge_hash peer auth username) (nt_password_hash password)

  unfoldable pub generate_authenticator_response : Text → Bytes → Bytes → Bytes → Bytes → Bytes
  generate_authenticator_response password nt_response peer auth username =
      let hash_hash = password_hash_hash (nt_password_hash password) in
      let digest1 = sha1 (hash_hash ++ (nt_response ++ magic1)) in
      let challenge = challenge_hash peer auth username in
      let digest2 = sha1 (digest1 ++ (challenge ++ magic2)) in text "S=" ++ upper_hex digest2

  unfoldable pub verify_authenticator_response : Bytes → Bytes → Bool
  verify_authenticator_response expected received = elim (decode_s_value expected) [
    | none ↦ false
    | some a ↦ elim (decode_s_value received) [ none ↦ false | some b ↦ ct_eq a b ]
  ]
