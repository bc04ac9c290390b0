-- ===== src/Pap/Messages.antt =====
-- crates/pap/src/lib.rs: the texts of its errors.
use pam_nps_mfa.Base.{◌++◌}
use pam_nps_mfa.Base.Text.{Text, text}
use pam_nps_mfa.Radius.Messages.{encode_error_text}
use pam_nps_mfa.Pap.{
  PapError, password_too_long, not_a_challenge, missing_state, multiple_state, encode,
}

-- `Display` of `PapError`
unfoldable pub pap_error_text : PapError → Text
unfolding encode_error_text
pap_error_text password_too_long = text "password exceeds the 128-octet PAP maximum"
pap_error_text not_a_challenge = text "response is not an Access-Challenge"
pap_error_text missing_state = text "Access-Challenge carried no State to echo"
pap_error_text multiple_state = text "Access-Challenge carried more than one State"
pap_error_text (encode e) = text "follow-up Access-Request assembly failed: " ++ encode_error_text e
