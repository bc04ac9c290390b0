-- ===== src/Mschap/Exchange.antt =====
-- crates/mschapv2/src/flow.rs: the challenges, the request attributes and mutual authentication.
pub mod Rfc2759
pub mod Digits
pub mod Genuine
use pam_nps_mfa.Base.{ℕ, Bool, false, none, some, Bytes, ok, err}
use pam_nps_mfa.Base.Text.{Text}
use pam_nps_mfa.Primitives.{Primitives}
use pam_nps_mfa.World.{World, Step, RngError, draw, ◌>>=◌, pure}
use pam_nps_mfa.Radius.Parse.{ParsedResponse}
use pam_nps_mfa.Mschap.Crypto.{
  generate_nt_response, generate_authenticator_response, verify_authenticator_response,
}
use pam_nps_mfa.Mschap.Vsa.{
  encode_ms_chap_challenge, encode_ms_chap2_response, parse_ms_chap2_success, find_ms_chap2_success,
}

pub record Challenges : Type 0 where
  pub authenticator_challenge : Bytes
  pub peer_challenge : Bytes

unfoldable pub generate_challenges : World → Step RngError Challenges
unfolding draw
generate_challenges w = do
  authenticator_challenge ← draw w
  peer_challenge ← draw w
  pure (record {
    authenticator_challenge = authenticator_challenge;
    peer_challenge = peer_challenge;
  })

pub record MsChapV2Request : Type 0 where
  pub ms_chap_challenge : Bytes
  pub ms_chap2_response : Bytes
  pub expected_authenticator : Bytes

module _ (c : Primitives) where
  unfoldable pub build_request : Bytes → Text → Challenges → ℕ → MsChapV2Request
  build_request username password challenges ident =
      let auth = challenges.authenticator_challenge in
      let peer = challenges.peer_challenge in
      let nt_response = generate_nt_response c auth peer username password in
      record {
        ms_chap_challenge = encode_ms_chap_challenge auth;
        ms_chap2_response = encode_ms_chap2_response ident peer nt_response;
        expected_authenticator =
            generate_authenticator_response c password nt_response peer auth username;
      }

  unfoldable pub verify_success : Bytes → Bytes → Bool
  verify_success expected_authenticator success_vendor_data =
      elim (parse_ms_chap2_success success_vendor_data) [
        | ok received ↦ verify_authenticator_response c expected_authenticator received
        | err _ ↦ false
      ]

  unfoldable pub verify_access_accept : ParsedResponse → Bytes → Bool
  unfolding verify_success
  verify_access_accept response expected_authenticator = elim (find_ms_chap2_success response) [
    | some vendor_data ↦ verify_success expected_authenticator vendor_data
    | none ↦ false
  ]
