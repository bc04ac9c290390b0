-- ===== src/Tests/Vendor.antt =====
-- Vendor attributes as they are sent and received.
use pam_nps_mfa.Base.{
  ℕ, ◌+◌, ◌*◌, ◌%◌, ◌<◌, ◌≡◌, ◌↔◌, refl, arith, true, [], ◌∷◌, ◌++◌, Bytes, replicate, ok,
}
use pam_nps_mfa.Base.Text.{text}
use pam_nps_mfa.Base.Words.Octets.{IsBytes-replicate}
use pam_nps_mfa.Mschap.Exchange.{Challenges, verify_success}
use pam_nps_mfa.Mschap.Exchange.Rfc2759.{hexadecimal}
use pam_nps_mfa.Mschap.Exchange.Genuine.{request, digest_for, verify_success-genuine}
use pam_nps_mfa.Tests.Fixtures.{toy, checksum}
use pam_nps_mfa.Radius.Parse.{decode_vendor_specific}
use pam_nps_mfa.Mschap.Vsa.{vsa_value, parse_ms_chap2_success}
use pam_nps_mfa.Mschap.Vsa.Exact.{
  IsSuccess, parse_ms_chap2_success_iff, decode_vendor_specific-vsa_value,
}

-- Forty digits, and a message behind them.
abbrev proof : Bytes
proof = 1 ∷ (text "S=" ++ (replicate 40 b'a' ++ text " M=ok"))

abbrev proven : Bytes
proven = text "S=" ++ replicate 40 b'A'

parse_ms_chap2_success_iff_example :
    (parse_ms_chap2_success proof ≡ ok proven) ↔ IsSuccess proof proven
parse_ms_chap2_success_iff_example = parse_ms_chap2_success_iff proof proven

abbrev challenge : Bytes
challenge = replicate 16 5

decode_vendor_specific-vsa_value_example :
    decode_vendor_specific (vsa_value 11 challenge)
    ≡ ok (record { vendor_id = 311; vendor_type = 11; vendor_data = challenge })
decode_vendor_specific-vsa_value_example =
    decode_vendor_specific-vsa_value 11 challenge (omega arith)

checksum_bounded : (acc : ℕ) (m : Bytes) → acc < 256 → checksum acc m < 256
checksum_bounded acc [] h = h
checksum_bounded acc (b ∷ m) h = checksum_bounded ((acc * 31 + b + 1) % 256) m (omega arith)

abbrev challenges : Challenges
challenges = record { authenticator_challenge = challenge; peer_challenge = replicate 16 7 }

-- The proof of a server, and a message behind it.
abbrev genuine : Bytes
genuine =
    1
    ∷ (text "S="
        ++ (hexadecimal (digest_for toy (text "alice") (text "pw") challenges 1) ++ text " M=ok"))

verify_success-genuine_example :
    (verify_success toy
        (request toy (text "alice") (text "pw") challenges 1).expected_authenticator
        genuine
      ≡ true)
    ↔ IsSuccess genuine
        (text "S=" ++ hexadecimal (digest_for toy (text "alice") (text "pw") challenges 1))
verify_success-genuine_example =
    verify_success-genuine toy (text "alice") (text "pw") challenges 1 genuine
      (λ m. IsBytes-replicate 20 (checksum 3 m) (checksum_bounded 3 m (omega arith))) refl refl
