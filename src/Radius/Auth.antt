-- ===== src/Radius/Auth.antt =====
-- crates/radius/src/auth.rs: the Message-Authenticator and the Response Authenticator.
pub mod Scan
pub mod Verify
use pam_nps_mfa.Base.{
  ℕ, ◌+◌, Bool, true, false, not, ◌||◌, Option, none, some, List, [], ◌∷◌, ◌++◌, Bytes, length,
  get_or, replicate, slice, overwrite, ◌==◌, if◌then◌else◌, Result, ok, err,
}
use pam_nps_mfa.Base.Words.{be16}
use pam_nps_mfa.Radius.{message_authenticator_attr, ParseError}
use pam_nps_mfa.Radius.Parse.{declared_length, for_each_attribute, parse_response}
use pam_nps_mfa.Primitives.{Primitives}
use mathlib.Core.Option
use mathlib.Core.List.{flatten}

-- The variables that the closure of `verify_response_message_authenticator` captures.
pub record MaScan : Type 0 where
  pub attrs : Bytes
  pub received : Option Bytes
  pub invalid : Bool

abbrev pub is_some {ℓ} : {A : Type ℓ} → Option A → Bool
is_some none = false
is_some (some a) = true

-- That closure. A value of 16 octets is copied and zeroed; any other one, or a second, is invalid.
unfoldable pub scan_ma : MaScan → ℕ → ℕ → Bytes → Result MaScan ParseError
scan_ma s off t value =
    if t == message_authenticator_attr
    then if not (length value == 16) || is_some s.received
      then ok (record s { invalid = true })
      else ok
          (record s { received = some value; attrs = overwrite (off + 2) (replicate 16 0) s.attrs })
    else ok s

module _ (c : Primitives) where
  open c use {md5, hmac_new, ct_eq}

  unfoldable pub hmac_md5 : Bytes → List Bytes → Option Bytes
  hmac_md5 key parts = Option.map (λ mac. mac (flatten parts)) (hmac_new key)

  unfoldable pub message_authenticator : Bytes → Bytes → Bytes
  message_authenticator packet_with_ma_zeroed secret =
      elim (hmac_md5 secret (packet_with_ma_zeroed ∷ [])) [ some mac ↦ mac | none ↦ replicate 16 0 ]

  unfoldable pub response_authenticator : ℕ → ℕ → ℕ → Bytes → Bytes → Bytes → Bytes
  response_authenticator code id length request_authenticator attributes_ma_filled secret =
      md5 (code ∷ id ∷ (be16 length ++ (request_authenticator ++ (attributes_ma_filled ++ secret))))

  unfoldable pub verify_response_authenticator : Bytes → Bytes → Bytes → Bool
  verify_response_authenticator packet request_authenticator secret = elim (parse_response packet) [
    | err _ ↦ false
    | ok _ ↦ elim (declared_length packet) [
      | err _ ↦ false
      | ok declared ↦
          let expected =
            response_authenticator (get_or packet 0 0) (get_or packet 1 0) declared
              request_authenticator (slice 20 declared packet) secret in
          ct_eq expected (slice 4 20 packet)
    ]
  ]

  -- What follows the walk: a failed or invalid walk, or one that met no value, denies.
  unfoldable pub check_ma : Bytes → Bytes → Bytes → Result MaScan ParseError → Bool
  check_ma header request_authenticator secret (err _) = false
  check_ma header request_authenticator secret (ok s) =
      if s.invalid then false else elim s.received [
        | none ↦ false
        | some received ↦ elim (hmac_md5 secret (header ∷ request_authenticator ∷ s.attrs ∷ [])) [
          | none ↦ false
          | some expected ↦ ct_eq expected received
        ]
      ]

  unfoldable pub verify_response_message_authenticator : Bytes → Bytes → Bytes → Bool
  unfolding check_ma
  verify_response_message_authenticator packet request_authenticator secret =
      elim (parse_response packet) [
        | err _ ↦ false
        | ok _ ↦ elim (declared_length packet) [
          | err _ ↦ false
          | ok declared ↦
              let region = slice 20 declared packet in
              check_ma (slice 0 4 packet) request_authenticator secret (
                for_each_attribute scan_ma region
                  (record { attrs = region; received = none; invalid = false }))
        ]
      ]
