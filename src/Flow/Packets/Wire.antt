-- ===== src/Flow/Packets/Wire.antt =====
-- The octets of the two Access-Requests.
use pam_nps_mfa.Base.{
  ℕ, ◌+◌, ◌%◌, ◌≤◌, ◌≡◌, refl, sym, ap, ◌∙◌, arith, false, Bool-cases, inl, inr, Option, none, some,
  List, [], ◌∷◌, ◌++◌, append_assoc, append-nil, Bytes, length, replicate, ltb, Result, ok, ◌>>=◌,
  >>=-ok, length-append,
}
use pam_nps_mfa.Base.Text.{Text, utf8}
use pam_nps_mfa.Primitives.{Primitives}
use pam_nps_mfa.Config.{Config}
use pam_nps_mfa.Radius.{
  access_request, as_u8, EncodeError, user_name, user_password, vendor_specific, nas_identifier,
  nas_ip_address,
}
use pam_nps_mfa.Radius.Packet.{
  PacketBuilder, attribute, message_authenticator_placeholder, build, fill_message_authenticator,
}
use pam_nps_mfa.Radius.Packet.Signed.{
  datagram, attributes, mac_of, fill_message_authenticator-datagram,
}
use pam_nps_mfa.Radius.Parse.Walk.{wire, wire-append}
use pam_nps_mfa.Radius.Binding.{has_ma}
use pam_nps_mfa.Mschap.Exchange.{MsChapV2Request}
use pam_nps_mfa.Flow.Packets.{
  add_optional, octets, add_nas_attributes, finish_packet, build_mschapv2_packet, build_pap_packet,
}

has_ma-append :
    (xs ys : List (ℕ × Bytes)) → has_ma xs ≡ false → has_ma ys ≡ false → has_ma (xs ++ ys) ≡ false
unfolding has_ma
has_ma-append [] ys h k = k
has_ma-append ((t, v) ∷ xs) ys h k =
    let later : has_ma xs ≡ false = ground arith in ground (arith, has_ma-append xs ys later k)

-- A builder of an Access-Request that holds these attributes.
abbrev holding : ℕ → Bytes → List (ℕ × Bytes) → PacketBuilder
holding id ra xs = record {
  code = access_request;
  id = id;
  authenticator = ra;
  attributes = wire xs;
}

module _ (id : ℕ) (ra : Bytes) where
  attribute-holding :
      (xs : List (ℕ × Bytes)) (t : ℕ) (v : Bytes) (b : PacketBuilder)
      → attribute (holding id ra xs) t v ≡ ok b
      → (b ≡ holding id ra (xs ++ ((t, v) ∷ [])))
        × (20 + length (wire (xs ++ ((t, v) ∷ []))) ≤ 4096)
  unfolding attribute
  attribute-holding xs t v b h = elim (Bool-cases (ltb 253 (length v))) [
    | inl e ↦ absurd (cc (rw e at h))
    | inr e ↦
        let encoded = t ∷ (length v + 2) % 256 ∷ v in
        let size : (length v + 2) % 256 ≡ length v + 2 = ground arith in
        let same : encoded ≡ wire ((t, v) ∷ []) =
          ap (λ n. t ∷ n ∷ v) size ∙ ap (λ o. t ∷ (length v + 2) ∷ o) (sym (append-nil v)) in
        let appended : wire xs ++ encoded ≡ wire (xs ++ ((t, v) ∷ [])) =
          ap (λ o. wire xs ++ o) same ∙ sym (wire-append xs ((t, v) ∷ [])) in
        let fitting = rw e at h in
        elim (Bool-cases (ltb 4096 (20 + length (wire xs) + length encoded))) [
          | inl f ↦ absurd (cc (rw f at fitting))
          | inr f ↦
              let made : record (holding id ra xs) { attributes = wire xs ++ encoded } ≡ b =
                cc (rw f at fitting) in
              (
                sym made ∙ ap (λ o. record (holding id ra xs) { attributes = o }) appended,
                ground (arith, ap length appended, length-append (wire xs) encoded),
              )
        ]
  ]

  -- One more attribute in a chain of them.
  attribute_then :
      (xs : List (ℕ × Bytes)) (t : ℕ) (v : Bytes) (k : PacketBuilder → Result Bytes EncodeError)
      (packet : Bytes)
      → (attribute (holding id ra xs) t v >>= k) ≡ ok packet
      → (k (holding id ra (xs ++ ((t, v) ∷ []))) ≡ ok packet)
        × (20 + length (wire (xs ++ ((t, v) ∷ []))) ≤ 4096)
  attribute_then xs t v k packet h =
      let (b, one, more) = >>=-ok (attribute (holding id ra xs) t v) k h in
      let (made, bound) = attribute-holding xs t v b one in (rw made at more, bound)

  build-holding :
      (xs : List (ℕ × Bytes)) (packet : Bytes)
      → build (holding id ra xs) ≡ ok packet
      → packet ≡ datagram 1 id ra xs
  unfolding build as_u8
  build-holding xs packet h = elim (Bool-cases (ltb 4096 (20 + length (wire xs)))) [
    | inl e ↦ absurd (cc (rw e at h))
    | inr e ↦ sym (cc (rw e at h))
  ]

  -- `NAS-Identifier` and `NAS-IP-Address`, where the configuration has them.
  abbrev pub optional : ℕ → Option Bytes → List (ℕ × Bytes)
  optional t none = []
  optional t (some v) = (t, v) ∷ []

  add_optional-holding :
      (xs : List (ℕ × Bytes)) (t : ℕ) (o : Option Bytes) (b : PacketBuilder)
      → add_optional (holding id ra xs) t o ≡ ok b
      → b ≡ holding id ra (xs ++ optional t o)
  unfolding add_optional
  add_optional-holding xs t none b h =
      let same : holding id ra xs ≡ b = cc in sym same ∙ ap (holding id ra) (sym (append-nil xs))
  add_optional-holding xs t (some v) b h = (attribute-holding xs t v b h).0

  abbrev pub nas : Config → List (ℕ × Bytes)
  nas config =
      optional nas_identifier (octets config.nas_identifier)
      ++ optional nas_ip_address config.nas_ip

  add_nas_attributes-holding :
      (xs : List (ℕ × Bytes)) (config : Config) (b : PacketBuilder)
      → add_nas_attributes (holding id ra xs) config ≡ ok b
      → b ≡ holding id ra (xs ++ nas config)
  unfolding add_nas_attributes
  add_nas_attributes-holding xs config b h =
      let (b1, first, second) =
        >>=-ok (add_optional (holding id ra xs) nas_identifier (octets config.nas_identifier)) _
          h in
      let one = add_optional-holding xs nas_identifier (octets config.nas_identifier) b1 first in
      add_optional-holding (xs ++ optional nas_identifier (octets config.nas_identifier))
        nas_ip_address config.nas_ip b (rw one at second)
      ∙ ap (holding id ra) (append_assoc xs _ _)

  has_ma-nas : (config : Config) → has_ma (nas config) ≡ false
  unfolding has_ma
  has_ma-nas config =
      has_ma-append (optional nas_identifier (octets config.nas_identifier))
        (optional nas_ip_address config.nas_ip) (first (octets config.nas_identifier))
        (second config.nas_ip)
    where
      first : (o : Option Bytes) → has_ma (optional nas_identifier o) ≡ false
      first none = refl
      first (some v) = refl

      second : (o : Option Bytes) → has_ma (optional nas_ip_address o) ≡ false
      second none = refl
      second (some v) = refl

  -- The octets of an Access-Request with these attributes, and behind them the Message-Authenticator
  -- that is the HMAC-MD5 under the secret of the same octets with its value zeroed.
  abbrev pub signed_request : Primitives → Bytes → List (ℕ × Bytes) → Bytes
  signed_request c secret xs =
      datagram 1 id ra (attributes 1 id ra xs [] (mac_of 1 id ra xs [] c secret))

  finish_packet-signed_request :
      (c : Primitives) (config : Config) (secret : Bytes) (xs : List (ℕ × Bytes)) (packet : Bytes)
      → length ra ≡ 16
      → has_ma xs ≡ false
      → finish_packet c (holding id ra xs) config secret ≡ ok packet
      → packet ≡ signed_request c secret (xs ++ nas config)
  unfolding finish_packet message_authenticator_placeholder
  finish_packet-signed_request c config secret xs packet r clean h =
      let (b1, added, more) = >>=-ok (add_nas_attributes (holding id ra xs) config) _ h in
      let with_nas = add_nas_attributes-holding xs config b1 added in
      let (placed, bound) =
        attribute_then (xs ++ nas config) 80 (replicate 16 0)
          (λ b. build b >>= λ p. fill_message_authenticator c p secret) packet
          (rw with_nas at more) in
      let (p, built, filled) =
        >>=-ok (build (holding id ra (xs ++ nas config ++ ((80, replicate 16 0) ∷ [])))) _ placed in
      let plain = build-holding (xs ++ nas config ++ ((80, replicate 16 0) ∷ [])) p built in
      let no_ma = has_ma-append xs (nas config) clean (has_ma-nas config) in
      let signs =
        fill_message_authenticator-datagram 1 id ra (xs ++ nas config) [] c secret (replicate 16 0)
          r refl no_ma (unfold has_ma in refl) bound in
      cc (sym (rw plain at filled) ∙ signs)

-- A PAP request that is built is, octet for octet, the Access-Request with the given identifier and
-- authenticator, the User-Name, the User-Password, the NAS attributes that are configured and a
-- Message-Authenticator that is the HMAC-MD5 under the secret of the packet with that value zeroed.
pub build_pap_packet-signed_request :
    (c : Primitives) (username : Text) (hidden : Bytes) (id : ℕ) (ra : Bytes) (config : Config)
    (secret packet : Bytes)
    → length ra ≡ 16
    → build_pap_packet c username hidden id ra config secret ≡ ok packet
    → packet
      ≡ signed_request id ra c secret
          ((user_name, utf8 username) ∷ (user_password, hidden) ∷ nas id ra config)
unfolding build_pap_packet has_ma
build_pap_packet-signed_request c username hidden id ra config secret packet r h =
    let (one, _) = attribute_then id ra [] user_name (utf8 username) _ packet h in
    let (two, _) =
      attribute_then id ra ((user_name, utf8 username) ∷ []) user_password hidden _ packet one in
    finish_packet-signed_request id ra c config secret
      ((user_name, utf8 username) ∷ (user_password, hidden) ∷ []) packet r refl two

-- An MSCHAPv2 request that is built is, octet for octet, the Access-Request with the given identifier
-- and authenticator, the User-Name, the MS-CHAP-Challenge, the MS-CHAP2-Response, the NAS attributes
-- that are configured and a Message-Authenticator that is the HMAC-MD5 under the secret of the packet
-- with that value zeroed.
pub build_mschapv2_packet-signed_request :
    (c : Primitives) (username : Text) (request : MsChapV2Request) (id : ℕ) (ra : Bytes)
    (config : Config) (secret packet : Bytes)
    → length ra ≡ 16
    → build_mschapv2_packet c username request id ra config secret ≡ ok packet
    → packet
      ≡ signed_request id ra c secret (
          (user_name, utf8 username)
          ∷ (vendor_specific, request.ms_chap_challenge)
          ∷ (vendor_specific, request.ms_chap2_response)
          ∷ nas id ra config)
unfolding build_mschapv2_packet has_ma
build_mschapv2_packet-signed_request c username request id ra config secret packet r h =
    let start = (user_name, utf8 username) ∷ [] in
    let challenge : ℕ × Bytes = (vendor_specific, request.ms_chap_challenge) in
    let response : ℕ × Bytes = (vendor_specific, request.ms_chap2_response) in
    let (one, _) = attribute_then id ra [] user_name (utf8 username) _ packet h in
    let (two, _) =
      attribute_then id ra start vendor_specific request.ms_chap_challenge _ packet one in
    let (three, _) =
      attribute_then id ra (start ++ (challenge ∷ [])) vendor_specific request.ms_chap2_response _
        packet two in
    finish_packet-signed_request id ra c config secret (start ++ (challenge ∷ response ∷ [])) packet
      r refl three
