-- ===== src/Mschap/Exchange/Genuine.antt =====
-- `build_request` and `verify_success` of flow.rs against the proof that RFC 2759 prescribes.
use pam_nps_mfa.Base.{
  ℕ, ◌≡◌, ◌↔◌, refl, sym, ap, ◌∙◌, arith, true, false, inl, inr, none, some, Option-cases, [], ◌++◌,
  append_assoc, append-nil, Bytes, length, length-append, take, drop, take-append, drop-append,
  replicate, Result-cases,
}
use mathlib.Core.Path.{subst}
use pam_nps_mfa.Base.Words.{IsBytes}
use pam_nps_mfa.Base.Text.{Text, text}
use pam_nps_mfa.Primitives.{Primitives}
use pam_nps_mfa.Mschap.Vsa.{
  all_hex, upper_all, parse_ms_chap2_success, encode_ms_chap_challenge, encode_ms_chap2_response,
}
use pam_nps_mfa.Mschap.Vsa.Exact.{IsSuccess, parse_ms_chap2_success_iff}
use pam_nps_mfa.Mschap.Crypto.{
  magic1, magic2, upper_hex, hex_pairs, decode_s_value, nt_password_hash, password_hash_hash,
  expand_des_key, challenge_hash, challenge_response, generate_nt_response,
  generate_authenticator_response, verify_authenticator_response,
}
use pam_nps_mfa.Mschap.Exchange.{Challenges, MsChapV2Request, build_request, verify_success}
use pam_nps_mfa.Mschap.Exchange.Rfc2759.{
  unicode, hexadecimal, peer_challenge_in, nt_response_in, authenticator_digest,
}
use pam_nps_mfa.Mschap.Exchange.Digits.{
  le_bytes-unicode, upper_hex-hexadecimal, length-hexadecimal, hex_pairs-hexadecimal,
  hex_pairs-upper_all, decode_s_value-hex_pairs, length-upper_all,
}

module _ (c : Primitives) (expected received a : Bytes) (e : decode_s_value expected ≡ some a) where
  verify-none :
      decode_s_value received ≡ none → verify_authenticator_response c expected received ≡ false
  unfolding verify_authenticator_response
  verify-none n = rw (verify_authenticator_response, e) (rw n refl)

  verify-some :
      (b : Bytes)
      → decode_s_value received ≡ some b
      → verify_authenticator_response c expected received ≡ c.ct_eq a b
  unfolding verify_authenticator_response
  verify-some b n = rw (verify_authenticator_response, e) (rw n refl)

module _ (c : Primitives) (d : Bytes) (size : length d ≡ 20) (octets : IsBytes d) where
  decode-expected : decode_s_value (text "S=" ++ upper_hex d) ≡ some d
  decode-expected = rw (upper_hex-hexadecimal d octets) (
      decode_s_value-hex_pairs (hexadecimal d) (omega (arith, length-hexadecimal d, size))
      ∙ hex_pairs-hexadecimal d octets)

  -- A text that verifies against the digest has the digest in its digits.
  verify_authenticator_response-digest :
      (digits : Bytes)
      → length digits ≡ 40
      → all_hex digits ≡ true
      → verify_authenticator_response c (text "S=" ++ upper_hex d) (text "S=" ++ upper_all digits)
        ≡ true
      → text "S=" ++ upper_all digits ≡ text "S=" ++ hexadecimal d
  verify_authenticator_response-digest digits forty hex v =
      let decoded = decode_s_value-hex_pairs (upper_all digits) (length-upper_all digits ∙ forty) in
      let verified =
        verify-some c (text "S=" ++ upper_hex d) (text "S=" ++ upper_all digits) d
          decode-expected in
      elim (Option-cases (hex_pairs (upper_all digits))) [
        | inl n ↦
            let refused =
              verify-none c (text "S=" ++ upper_hex d) (text "S=" ++ upper_all digits) d
                decode-expected (decoded ∙ n) in
            absurd (cc)
        | inr (b, n) ↦
            let same : d ≡ b = (c.ct_eq_iff d b).0 (sym (verified b (decoded ∙ n)) ∙ v) in
            ap (λ o. text "S=" ++ o)
              (sym (hex_pairs-upper_all 20 digits b (omega (arith, forty)) hex n)
                ∙ ap hexadecimal (sym same))
      ]

  IsSuccess-digest :
      (data' r : Bytes)
      → IsSuccess data' r
      → verify_authenticator_response c (text "S=" ++ upper_hex d) r ≡ true
      → IsSuccess data' (text "S=" ++ hexadecimal d)
  IsSuccess-digest data' r i v =
      let same =
        verify_authenticator_response-digest i.digits i.size i.are_hex
          (ap (verify_authenticator_response c (text "S=" ++ upper_hex d)) (sym i.value) ∙ v) in
      subst (IsSuccess data') (i.value ∙ same) i

  -- What verifies is a well-formed MS-CHAP2-Success with the digest.
  verify_success-digest :
      (data' : Bytes)
      → (verify_success c (text "S=" ++ upper_hex d) data' ≡ true)
        ↔ IsSuccess data' (text "S=" ++ hexadecimal d)
  unfolding verify_success
  verify_success-digest data' = (
    λ v. elim (Result-cases (parse_ms_chap2_success data')) [
      | inr (x, e) ↦ absurd (cc (rw (verify_success, e) at v))
      | inl (r, e) ↦
          IsSuccess-digest data' r ((parse_ms_chap2_success_iff data' r).0 e)
            (rw (verify_success, e) at v)
    ],
    λ i.
        let decoded =
          decode_s_value-hex_pairs (hexadecimal d) (omega (arith, length-hexadecimal d, size))
          ∙ hex_pairs-hexadecimal d octets in
        rw (verify_success, (parse_ms_chap2_success_iff data' _).1 i)
          (verify-some c (text "S=" ++ upper_hex d) (text "S=" ++ hexadecimal d) d decode-expected d
              decoded
            ∙ (c.ct_eq_iff d d).1 refl),
  )

length-challenge_response :
    (c : Primitives) (challenge nt_hash : Bytes)
    → length (challenge_response c challenge nt_hash) ≡ 24
unfolding challenge_response
length-challenge_response c challenge nt_hash =
    let block = λ (key : Bytes). c.des (expand_des_key key) challenge in
    let padded = nt_hash ++ replicate 5 0 in
    let first = take 7 padded in
    let second = take 7 (drop 7 padded) in
    let third = take 7 (drop 14 padded) in
    omega (
      arith,
      length-append (block first) (block second ++ block third),
      length-append (block second) (block third),
      c.des_length (expand_des_key first) challenge,
      c.des_length (expand_des_key second) challenge,
      c.des_length (expand_des_key third) challenge,
    )

peer_challenge_in-encode :
    (ident : ℕ) (peer nt_response : Bytes)
    → length peer ≡ 16
    → peer_challenge_in (encode_ms_chap2_response ident peer nt_response) ≡ peer
unfolding encode_ms_chap2_response
peer_challenge_in-encode ident peer nt_response size = take-append 16 peer _ size

nt_response_in-encode :
    (ident : ℕ) (peer nt_response : Bytes)
    → length peer ≡ 16
    → length nt_response ≡ 24
    → nt_response_in (encode_ms_chap2_response ident peer nt_response) ≡ nt_response
unfolding encode_ms_chap2_response
nt_response_in-encode ident peer nt_response size_16 size_24 =
    ap (λ o. take 24 (drop 24 o)) (sym (append_assoc peer (replicate 8 0) nt_response))
    ∙ ap (take 24) (
        drop-append 24 (peer ++ replicate 8 0) nt_response
          (omega (arith, length-append peer (replicate 8 0), size_16)))
    ∙ ap (take 24) (sym (append-nil nt_response))
    ∙ take-append 24 nt_response [] size_24

-- The request of an attempt.
module _ (c : Primitives) (username : Bytes) (password : Text) (challenges : Challenges)
    (ident : ℕ) where
  abbrev pub request : MsChapV2Request
  request = build_request c username password challenges ident

  -- What a server computes from the request and the password.
  abbrev pub digest_for : Bytes
  digest_for =
      authenticator_digest c password username request.ms_chap_challenge request.ms_chap2_response

  expected-digest :
      length challenges.authenticator_challenge ≡ 16
      → length challenges.peer_challenge ≡ 16
      → request.expected_authenticator ≡ text "S=" ++ upper_hex digest_for
  unfolding build_request encode_ms_chap_challenge generate_authenticator_response nt_password_hash
      password_hash_hash challenge_hash generate_nt_response
  expected-digest auth_16 peer_16 =
      let auth = challenges.authenticator_challenge in
      let peer = challenges.peer_challenge in
      let nt_response = generate_nt_response c auth peer username password in
      let peer_in = peer_challenge_in-encode ident peer nt_response peer_16 in
      let nt_in =
        nt_response_in-encode ident peer nt_response peer_16 (length-challenge_response c _ _) in
      let nt_response' = nt_response_in request.ms_chap2_response in
      let proof : Bytes → Bytes → Bytes → Bytes = λ p n u.
        text "S="
        ++ upper_hex (
            c.sha1 (
              c.sha1 (c.md4 (c.md4 u) ++ (n ++ magic1))
              ++ (take 8 (c.sha1 (p ++ (auth ++ username))) ++ magic2))) in
      ap (proof peer nt_response) (le_bytes-unicode password)
      ∙ ap (λ n. proof peer n (unicode password)) (sym nt_in)
      ∙ ap (λ p. proof p nt_response' (unicode password)) (sym peer_in)

-- What `verify_success` accepts for a request, where SHA-1 gives octets and the challenges have 16
-- octets each, is exactly the Ident, "S=" and the authenticator response of RFC 2759 in hexadecimal
-- digits of either case, with nothing or a blank and a message behind them: the one that a server with
-- the password computes from the user name and the two attribute values of the request.
pub verify_success-genuine :
    (c : Primitives) (username : Bytes) (password : Text) (challenges : Challenges) (ident : ℕ)
    (data' : Bytes)
    → ((m : Bytes) → IsBytes (c.sha1 m))
    → length challenges.authenticator_challenge ≡ 16
    → length challenges.peer_challenge ≡ 16
    → (verify_success c (request c username password challenges ident).expected_authenticator data'
        ≡ true)
      ↔ IsSuccess data' (text "S=" ++ hexadecimal (digest_for c username password challenges ident))
verify_success-genuine c username password challenges ident data' octets auth_16 peer_16 =
    rw (expected-digest c username password challenges ident auth_16 peer_16) (
      verify_success-digest c (digest_for c username password challenges ident) (c.sha1_length _)
        (octets _) data')
