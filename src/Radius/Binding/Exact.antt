-- ===== src/Radius/Binding/Exact.antt =====
-- `RequestBinding::verify_response` of binding.rs, in both directions.
use pam_nps_mfa.Base.{
  ◌≡◌, ◌↔◌, ◌⊎◌, sym, ◌∙◌, arith, true, false, inl, inr, Bytes, ok, Result-cases,
}
use pam_nps_mfa.Primitives.{Primitives}
use pam_nps_mfa.Radius.Parse.{ParsedResponse, parse_response}
use pam_nps_mfa.Radius.Parse.Walk.{wire}
use pam_nps_mfa.Radius.Parse.Exact.{parse_sound, length_field, declared_length-valid}
use pam_nps_mfa.Radius.Auth.{
  response_authenticator, verify_response_authenticator, verify_response_message_authenticator,
}
use pam_nps_mfa.Radius.Auth.Verify.{HasVerifiedMa, verify_ma_exact}
use pam_nps_mfa.Radius.Binding.{RequestBinding, has_ma, verify_response}

module _ (c : Primitives) where
  open c use {ct_eq_iff}

  verify_ra_parsed :
      (packet ra secret : Bytes) (r : ParsedResponse)
      → parse_response packet ≡ ok r
      → verify_response_authenticator c packet ra secret
        ≡ c.ct_eq
            (response_authenticator c r.code r.id (length_field packet) ra (wire r.attrs) secret)
            r.authenticator
  unfolding verify_response_authenticator
  verify_ra_parsed packet ra secret r h =
      let i = parse_sound packet h in
      rw (
        verify_response_authenticator,
        h,
        declared_length-valid packet i.field_min i.field_fits i.datagram_max,
        i.region_is,
        i.code_is,
        i.id_is,
        i.authenticator_is,
      )

  -- What a response must be to pass. The two digests are over the request's own authenticator.
  pub record IsBound (b : RequestBinding) (packet secret : Bytes) : Type 0 where
    pub response : ParsedResponse
    pub parsed : parse_response packet ≡ ok response
    pub same_id : response.id ≡ b.id
    pub response_authenticator_verifies :
        response_authenticator c response.code response.id
          (length_field packet)
          b.request_authenticator
          (wire response.attrs)
          secret
        ≡ response.authenticator
    pub ma_verifies_or_absent :
        ((has_ma response.attrs ≡ true) × HasVerifiedMa c packet b.request_authenticator secret)
        ⊎ ((has_ma response.attrs ≡ false) × (b.require_message_authenticator ≡ false))

  -- The guards in order, on a packet that parses.
  abbrev PassesGuards : RequestBinding → Bytes → Bytes → ParsedResponse → Type 0
  PassesGuards b packet secret r =
      (r.id ≡ b.id)
      × (verify_response_authenticator c packet b.request_authenticator secret ≡ true)
      × (((has_ma r.attrs ≡ true)
            × (verify_response_message_authenticator c packet b.request_authenticator secret
                ≡ true))
          ⊎ ((has_ma r.attrs ≡ false) × (b.require_message_authenticator ≡ false)))

  guards_sound :
      (b : RequestBinding) (packet secret : Bytes) (r : ParsedResponse)
      → parse_response packet ≡ ok r
      → verify_response c b packet secret ≡ true
      → PassesGuards b packet secret r
  unfolding verify_response
  guards_sound b packet secret r parsed h = ground arith

  guards_complete :
      (b : RequestBinding) (packet secret : Bytes) (r : ParsedResponse)
      → parse_response packet ≡ ok r
      → PassesGuards b packet secret r
      → verify_response c b packet secret ≡ true
  unfolding verify_response
  guards_complete b packet secret r parsed g = ground arith

  verify_response-parses :
      (b : RequestBinding) (packet secret : Bytes)
      → verify_response c b packet secret ≡ true
      → (r : ParsedResponse) × (parse_response packet ≡ ok r)
  unfolding verify_response
  verify_response-parses b packet secret h = elim (Result-cases (parse_response packet)) [
    | inl found ↦ found
    | inr (e, bad) ↦ absurd (cc (rw (verify_response, bad) at h))
  ]

  IsBound-sound :
      (b : RequestBinding) (packet secret : Bytes)
      → verify_response c b packet secret ≡ true
      → IsBound b packet secret
  IsBound-sound b packet secret h =
      let (r, parsed) = verify_response-parses b packet secret h in
      let (same_id, ra_ok, ma_ok) = guards_sound b packet secret r parsed h in
      let ra = b.request_authenticator in
      record {
        response = r;
        parsed = parsed;
        same_id = same_id;
        response_authenticator_verifies =
            (ct_eq_iff _ _).0 (sym (verify_ra_parsed packet ra secret r parsed) ∙ ra_ok);
        ma_verifies_or_absent = elim ma_ok [
          | inl (e, v) ↦ inl (e, (verify_ma_exact c packet ra secret).0 v)
          | inr absent ↦ inr absent
        ];
      }

  bound_complete :
      (b : RequestBinding) (packet secret : Bytes)
      → IsBound b packet secret
      → verify_response c b packet secret ≡ true
  bound_complete b packet secret i =
      let ra = b.request_authenticator in
      guards_complete b packet secret i.response i.parsed (
        i.same_id,
        verify_ra_parsed packet ra secret i.response i.parsed
            ∙ (ct_eq_iff _ _).1 i.response_authenticator_verifies,
        elim i.ma_verifies_or_absent [
          | inl (e, v) ↦ inl (e, (verify_ma_exact c packet ra secret).1 v)
          | inr absent ↦ inr absent
        ],
      )

-- A datagram is accepted exactly when it parses, has the request's Identifier, its authenticator is
-- the MD5 over Code, Id, Length, the request's authenticator, its attributes and the secret, and its
-- Message-Authenticator verifies, or is absent while strict mode is off.
pub verify_response_exact :
    (c : Primitives) (b : RequestBinding) (packet secret : Bytes)
    → (verify_response c b packet secret ≡ true) ↔ IsBound c b packet secret
verify_response_exact c b packet secret =
    (IsBound-sound c b packet secret, bound_complete c b packet secret)
