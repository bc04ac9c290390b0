-- ===== src/Pap.antt =====
-- crates/pap/src/lib.rs: User-Password hiding and the Access-Challenge round trip.
pub mod Hiding
pub mod RoundTrip
pub mod Messages
use pam_nps_mfa.Base.{
  ℕ, zero, suc, ◌+◌, ◌*◌, ◌/◌, Bool, true, false, not, ◌&&◌, Option, none, some, List, [], ◌∷◌,
  ◌++◌, Bytes, length, take, drop, replicate, ltb, leb, if◌then◌else◌, Result, ok, err, ◌>>=◌,
  map_err, ok_or, min,
}
use pam_nps_mfa.Base.Bits.{xor_bytes}
use pam_nps_mfa.Base.Text.{Text}
use pam_nps_mfa.Primitives.{Primitives}
use pam_nps_mfa.Radius.{
  Code, access_request, access_challenge, EncodeError, user_name, user_password, state_attr,
  reply_message,
}
use pam_nps_mfa.Radius.Parse.{ParsedResponse, known_code, attr_values}
use pam_nps_mfa.Radius.Packet.{
  attribute, message_authenticator_placeholder, build, fill_message_authenticator,
}
use pam_nps_mfa.Radius.Packet
use Prim.Native.Nat.{max}
use mathlib.Core.List.{flatten}

abbrev pub max_password_len : ℕ
max_password_len = 128

pub data PapError : Type 0 where
  password_too_long not_a_challenge missing_state multiple_state : PapError
  encode : EncodeError → PapError

-- `n.div_ceil(16).max(1) * 16`
unfoldable pub padded_len : ℕ → ℕ
padded_len n = max ((n + 15) / 16) 1 * 16

-- `plain[..password.len()].copy_from_slice(password)` on a buffer of zeros
unfoldable pub pad : Bytes → ℕ → Bytes
pad password total = password ++ drop (length password) (replicate total 0)

module _ (c : Primitives) where
  open c use {md5}

  -- The `for block` loop of `hide_core`, with the blocks left and what is left of `plain`. `prev` is
  -- the request authenticator at the first block, and then the 16 octets of `out` written last.
  unfoldable pub hide_blocks : ℕ → Bytes → Bytes → Bytes → Bytes → Bytes
  hide_blocks zero secret prev plain out = out
  hide_blocks (suc blocks) secret prev plain out =
      let keystream = md5 (secret ++ prev) in
      let block = xor_bytes (take 16 plain) keystream in
      hide_blocks blocks secret block (drop 16 plain) (out ++ block)

  unfoldable pub hide_core : Bytes → Bytes → Bytes → Bytes
  unfolding hide_blocks pad
  hide_core password secret request_authenticator =
      let total = padded_len (length password) in
      hide_blocks (total / 16) secret request_authenticator (pad password total) []

  unfoldable pub hide_password : Bytes → Bytes → Bytes → Bytes
  hide_password password secret request_authenticator =
      hide_core (take (min (length password) max_password_len) password) secret
        request_authenticator

  unfoldable pub try_hide_password : Bytes → Bytes → Bytes → Result Bytes PapError
  try_hide_password password secret request_authenticator =
      if ltb max_password_len (length password)
      then err password_too_long
      else ok (hide_core password secret request_authenticator)

-- `sanitize_reply_message`
unfoldable pub sanitize_reply_message : Bytes → Text
sanitize_reply_message [] = []
sanitize_reply_message (b ∷ raw) =
    let rest = sanitize_reply_message raw in if leb 0x20 b && leb b 0x7e then b ∷ rest else rest

pub record Challenge : Type 0 where
  pub prompt : Text
  pub state : Option Bytes

abbrev is_challenge : Option Code → Bool
is_challenge (some access_challenge) = true
is_challenge _ = false

-- The State attribute from the values in received order: more than one is an error.
unfoldable pub single_state : List Bytes → Result (Option Bytes) PapError
single_state [] = ok none
single_state (v ∷ []) = ok (some v)
single_state (v ∷ u ∷ rest) = err multiple_state

-- `Challenge::from_response`
unfoldable pub from_response : ParsedResponse → Result Challenge PapError
unfolding single_state
from_response resp =
    if not (is_challenge (known_code resp))
    then err not_a_challenge
    else single_state (attr_values resp state_attr) >>= λ state. ok (record {
      prompt = sanitize_reply_message (flatten (attr_values resp reply_message));
      state = state;
    })

module _ (c : Primitives) where
  unfoldable pub build_challenge_response :
      ℕ → Bytes → Bytes → Bytes → Bytes → Bytes → Result Bytes PapError
  build_challenge_response id request_authenticator username one_time_code state secret = do
    hidden ← try_hide_password c one_time_code secret request_authenticator
    map_err encode (do
      b1 ← attribute (Packet.new access_request id request_authenticator) user_name username
      b2 ← attribute b1 user_password hidden
      b3 ← attribute b2 state_attr state
      b4 ← message_authenticator_placeholder b3
      packet ← build b4
      fill_message_authenticator c packet secret)

  -- `Challenge::build_response`
  unfoldable pub build_response :
      Challenge → ℕ → Bytes → Bytes → Bytes → Bytes → Result Bytes PapError
  build_response challenge id request_authenticator username one_time_code secret = do
    state ← ok_or challenge.state missing_state
    build_challenge_response id request_authenticator username one_time_code state secret
