-- ===== src/Tests/Codec.antt =====
-- Runs of the codec, and the theorems about it at those runs.
use pam_nps_mfa.Pap.{try_hide_password}
use pam_nps_mfa.Pap.Hiding.{Hidden, try_hide_password-Hidden}
use pam_nps_mfa.Pap.RoundTrip.{unhide, unhide-try_hide_password}
use pam_nps_mfa.Base.{
  ◌++◌, ◌/◌, ◌-◌, length, replicate, arith, ◌≡◌, ◌↔◌, refl, true, [], ◌∷◌, Bytes, ok,
}
use pam_nps_mfa.Base.Text.{text}
use pam_nps_mfa.Radius.Parse.{
  ParsedResponse, parse_response, declared_length, for_each_attribute, push_attribute,
}
use pam_nps_mfa.Radius.Parse.Exact.{IsResponse, parse_exact}
use pam_nps_mfa.Radius.Auth.{verify_response_message_authenticator}
use pam_nps_mfa.Radius.Auth.Verify.{HasVerifiedMa, verify_ma_exact}
use pam_nps_mfa.Radius.Binding.{verify_response}
use pam_nps_mfa.Radius.Binding
use pam_nps_mfa.Radius.Binding.Exact.{IsBound, verify_response_exact}
use pam_nps_mfa.Tests.Fixtures.{toy, ra, secret, signed}

abbrev challenge_packet : Bytes
challenge_packet = signed 11 ((24, 1 ∷ 2 ∷ []) ∷ [])

abbrev reject_packet : Bytes
reject_packet =
    3
    ∷ 7
    ∷ 0
    ∷ 26
    ∷ 1
    ∷ 2
    ∷ 3
    ∷ 4
    ∷ 5
    ∷ 6
    ∷ 7
    ∷ 8
    ∷ 9
    ∷ 10
    ∷ 11
    ∷ 12
    ∷ 13
    ∷ 14
    ∷ 15
    ∷ 16
    ∷ 18
    ∷ 6
    ∷ text "text"

abbrev reject_view : ParsedResponse
reject_view = record {
  code = 3;
  id = 7;
  authenticator = 1 ∷ 2 ∷ 3 ∷ 4 ∷ 5 ∷ 6 ∷ 7 ∷ 8 ∷ 9 ∷ 10 ∷ 11 ∷ 12 ∷ 13 ∷ 14 ∷ 15 ∷ 16 ∷ [];
  attrs = (18, text "text") ∷ [];
}

reject_parses : parse_response reject_packet ≡ ok reject_view
unfolding parse_response declared_length for_each_attribute push_attribute
reject_parses = refl

parse_exact_example :
    (parse_response reject_packet ≡ ok reject_view) ↔ IsResponse reject_packet reject_view
parse_exact_example = parse_exact reject_packet reject_view

verify_ma_exact_example :
    (verify_response_message_authenticator toy challenge_packet ra secret ≡ true)
    ↔ HasVerifiedMa toy challenge_packet ra secret
verify_ma_exact_example = verify_ma_exact toy challenge_packet ra secret

verify_response_exact_example :
    (verify_response toy (Binding.new 7 ra) challenge_packet secret ≡ true)
    ↔ IsBound toy (Binding.new 7 ra) challenge_packet secret
verify_response_exact_example = verify_response_exact toy (Binding.new 7 ra) challenge_packet secret

try_hide_password-Hidden_example :
    Hidden
      (text "correct horse battery")
      (try_hide_password toy (text "correct horse battery") secret ra)
try_hide_password-Hidden_example =
    try_hide_password-Hidden toy (text "correct horse battery") secret ra (omega arith)

unhide-try_hide_password_example :
    (hidden : Bytes) × (try_hide_password toy (text "correct horse battery") secret ra ≡ ok hidden)
    × (unhide toy (length hidden / 16) secret ra hidden
        ≡ text "correct horse battery" ++ replicate (length hidden - 21) 0)
unhide-try_hide_password_example =
    unhide-try_hide_password toy (text "correct horse battery") secret ra (omega arith)
