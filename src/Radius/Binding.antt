-- ===== src/Radius/Binding.antt =====
-- crates/radius/src/binding.rs: binding a response to its request.
pub mod Exact
use pam_nps_mfa.Base.{
  ℕ, Bool, true, false, not, ◌||◌, List, [], ◌∷◌, Bytes, ◌==◌, if◌then◌else◌, ok, err,
}
use pam_nps_mfa.Radius.{message_authenticator_attr}
use pam_nps_mfa.Radius.Parse.{parse_response}
use pam_nps_mfa.Primitives.{Primitives}
use pam_nps_mfa.Radius.Auth.{verify_response_authenticator, verify_response_message_authenticator}

pub record RequestBinding : Type 0 where
  pub id : ℕ
  pub request_authenticator : Bytes
  pub require_message_authenticator : Bool

-- `RequestBinding::new`
abbrev pub new : ℕ → Bytes → RequestBinding
new id request_authenticator = record {
  id = id;
  request_authenticator = request_authenticator;
  require_message_authenticator = true;
}

-- `RequestBinding::require_message_authenticator`
abbrev pub with_required : RequestBinding → Bool → RequestBinding
with_required b required = record b { require_message_authenticator = required }

-- `parsed.attributes().any(|(t, _)| t == attr::MESSAGE_AUTHENTICATOR)`
unfoldable pub has_ma : List (ℕ × Bytes) → Bool
has_ma [] = false
has_ma ((t, v) ∷ rest) = t == message_authenticator_attr || has_ma rest

module _ (c : Primitives) where
  unfoldable pub verify_response : RequestBinding → Bytes → Bytes → Bool
  verify_response b packet secret = elim (parse_response packet) [
    | err _ ↦ false
    | ok parsed ↦
        if not (parsed.id == b.id)
        then false
        else if not (verify_response_authenticator c packet b.request_authenticator secret)
        then false
        else if has_ma parsed.attrs
        then verify_response_message_authenticator c packet b.request_authenticator secret
        else not b.require_message_authenticator
  ]
