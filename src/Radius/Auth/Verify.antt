-- ===== src/Radius/Auth/Verify.antt =====
-- The Message-Authenticator check of auth.rs against RFC 3579, in both directions.
use pam_nps_mfa.Base.{
  ℕ, ◌+◌, ◌≡◌, ◌≢◌, ◌↔◌, refl, sym, ap, ◌∙◌, arith, true, false, not, ◌||◌, Bool-cases, inl, inr,
  Option, none, some, Option-cases, List, [], ◌∷◌, ◌++◌, Bytes, length, replicate, slice, ◌==◌,
  Result, ok, Result-cases,
}
use pam_nps_mfa.Radius.{message_authenticator_attr, ParseError}
use pam_nps_mfa.Primitives.{Primitives}
use pam_nps_mfa.Radius.Parse.{ParsedResponse, for_each_attribute, parse_response}
use pam_nps_mfa.Radius.Parse.Walk.{wire, fold_attributes, walk-wire, fold-append}
use pam_nps_mfa.Radius.Parse.Exact.{parse_sound, declared_length-valid}
use pam_nps_mfa.Radius.Auth.{
  MaScan, scan_ma, hmac_md5, check_ma, verify_response_message_authenticator,
}
use pam_nps_mfa.Radius.Auth.Scan.{scan_none, scan_invalid, scan_second, split_ma, overwrite-wire}
use pam_nps_mfa.Radius.Binding.{has_ma}

abbrev zeros : Bytes
zeros = replicate 16 0

abbrev start : Bytes → MaScan
start region = record { attrs = region; received = none; invalid = false }

-- Exactly one Message-Authenticator, of 16 octets, that is the HMAC-MD5 under the shared secret of
-- Code, Id, Length, the request's authenticator and the attributes with that value zeroed.
pub record HasVerifiedMa (c : Primitives) (packet ra secret : Bytes) : Type 0 where
  pub response : ParsedResponse
  pub parsed : parse_response packet ≡ ok response
  pub front : List (ℕ × Bytes)
  pub value : Bytes
  pub back : List (ℕ × Bytes)
  pub split : response.attrs ≡ front ++ ((message_authenticator_attr, value) ∷ back)
  pub none_before : has_ma front ≡ false
  pub none_behind : has_ma back ≡ false
  pub size : length value ≡ 16
  pub mac :
      hmac_md5 c secret (
        slice 0 4 packet
        ∷ ra
        ∷ wire (front ++ ((message_authenticator_attr, replicate 16 0) ∷ back))
        ∷ [])
      ≡ some value

-- The scan from the first Message-Authenticator on.
scan_first :
    (front back : List (ℕ × Bytes)) (value : Bytes) (s : MaScan)
    → has_ma front ≡ false
    → fold_attributes scan_ma 0 (front ++ ((80, value) ∷ back)) s
      ≡ fold_attributes scan_ma (length (wire front)) ((80, value) ∷ back) s
scan_first front back value s clean =
    let e : 0 + length (wire front) ≡ length (wire front) = omega arith in
    rw e at (fold-append scan_ma front ((80, value) ∷ back) 0 s (scan_none front 0 s clean))

abbrev scan : List (ℕ × Bytes) → Result MaScan ParseError
scan xs = fold_attributes scan_ma 0 xs (start (wire xs))

abbrev after : List (ℕ × Bytes) → Bytes → List (ℕ × Bytes) → MaScan
after front value back = record {
  attrs = wire (front ++ ((message_authenticator_attr, zeros) ∷ back));
  received = some value;
  invalid = false;
}

module _ (front back : List (ℕ × Bytes)) (value : Bytes) (clean : has_ma front ≡ false) where
  scan_single :
      length value ≡ 16
      → has_ma back ≡ false
      → scan (front ++ ((message_authenticator_attr, value) ∷ back)) ≡ ok (after front value back)
  unfolding scan_ma
  scan_single size last =
      let region = wire (front ++ ((message_authenticator_attr, value) ∷ back)) in
      let fits : (not (length value == 16) || false) ≡ false = ground arith in
      scan_first front back value (start region) clean
      ∙ rw (fits, overwrite-wire front back 80 value zeros size)
          (scan_none back (length (wire front) + (length value + 2)) (after front value back) last)

  scan_bad_size :
      length value ≢ 16
      → (u : MaScan) × (scan (front ++ ((message_authenticator_attr, value) ∷ back)) ≡ ok u)
        × (u.invalid ≡ true)
  unfolding scan_ma
  scan_bad_size size =
      let region = wire (front ++ ((message_authenticator_attr, value) ∷ back)) in
      let bad : (not (length value == 16) || false) ≡ true = ground arith in
      rw (scan_first front back value (start region) clean, bad)
        (scan_invalid back (length (wire front) + (length value + 2))
          (record (start region) { invalid = true }) refl)

  scan_twice :
      length value ≡ 16
      → has_ma back ≡ true
      → (u : MaScan) × (scan (front ++ ((message_authenticator_attr, value) ∷ back)) ≡ ok u)
        × (u.invalid ≡ true)
  unfolding scan_ma
  scan_twice size more =
      let region = wire (front ++ ((message_authenticator_attr, value) ∷ back)) in
      let fits : (not (length value == 16) || false) ≡ false = ground arith in
      rw
        (
          scan_first front back value (start region) clean,
          fits,
          overwrite-wire front back 80 value zeros size,
        )
        (scan_second back (length (wire front) + (length value + 2)) (after front value back) refl
          more)

module _ (c : Primitives) (packet ra secret : Bytes) where
  open c use {ct_eq_iff}

  -- The check on a packet that parses, over its attribute list.
  verify_parsed :
      (r : ParsedResponse)
      → parse_response packet ≡ ok r
      → verify_response_message_authenticator c packet ra secret
        ≡ check_ma c
            (slice 0 4 packet)
            ra
            secret
            (fold_attributes scan_ma 0 r.attrs (start (wire r.attrs)))
  unfolding verify_response_message_authenticator for_each_attribute
  verify_parsed r h =
      let i = parse_sound packet h in
      rw (
        verify_response_message_authenticator,
        h,
        declared_length-valid packet i.field_min i.field_fits i.datagram_max,
        i.region_is,
        walk-wire scan_ma r.attrs (length (wire r.attrs)) 0 (start (wire r.attrs)) (omega arith),
      )

  check_invalid :
      (u : MaScan) (r : Result MaScan ParseError)
      → r ≡ ok u
      → u.invalid ≡ true
      → check_ma c (slice 0 4 packet) ra secret r ≡ false
  unfolding check_ma
  check_invalid u r e h = rw (e, h)

  abbrev mac_of : List (ℕ × Bytes) → List (ℕ × Bytes) → Option Bytes
  mac_of front back =
      hmac_md5 c secret
        (slice 0 4 packet ∷ ra ∷ wire (front ++ ((message_authenticator_attr, zeros) ∷ back)) ∷ [])

  check_mac :
      (front : List (ℕ × Bytes)) (value : Bytes) (back : List (ℕ × Bytes))
      → (check_ma c (slice 0 4 packet) ra secret (ok (after front value back)) ≡ true)
        ↔ (mac_of front back ≡ some value)
  unfolding check_ma
  check_mac front value back = (
    (λ h. elim (Option-cases (mac_of front back)) [
      | inl e ↦ absurd (cc (rw (check_ma, e) at h))
      | inr (m, e) ↦ e ∙ ap some ((ct_eq_iff m value).0 (rw (check_ma, e) at h))
    ]),
    (λ e. rw (check_ma, e) ((ct_eq_iff value value).1 refl)),
  )

  -- What a check that passed found in the attributes.
  check_found :
      (xs front : List (ℕ × Bytes)) (value : Bytes) (back : List (ℕ × Bytes))
      → xs ≡ front ++ ((message_authenticator_attr, value) ∷ back)
      → has_ma front ≡ false
      → check_ma c (slice 0 4 packet) ra secret (scan xs) ≡ true
      → (length value ≡ 16) × (has_ma back ≡ false) × (mac_of front back ≡ some value)
  check_found xs front value back split clean h = elim (Bool-cases (length value == 16)) [
    | inr e ↦
        let (u, scanned, bad) = scan_bad_size front back value clean (ground arith) in
        absurd (cc (h, check_invalid u (scan xs) (rw split scanned) bad))
    | inl e ↦ elim (Bool-cases (has_ma back)) [
      | inl more ↦
          let (u, scanned, bad) = scan_twice front back value clean (ground arith) more in
          absurd (cc (h, check_invalid u (scan xs) (rw split scanned) bad))
      | inr last ↦
          let scanned = scan_single front back value clean (ground arith) last in
          (ground arith, last, (check_mac front value back).0 (rw (split, scanned) at h))
    ]
  ]

  verify_ma_sound :
      verify_response_message_authenticator c packet ra secret ≡ true
      → HasVerifiedMa c packet ra secret
  verify_ma_sound h = elim (Result-cases (parse_response packet)) [
    | inr (e, bad) ↦ absurd (
        unfold verify_response_message_authenticator in
        cc (rw (verify_response_message_authenticator, bad) at h))
    | inl (r, parsed) ↦
        let checked : check_ma c (slice 0 4 packet) ra secret (scan r.attrs) ≡ true =
          sym (verify_parsed r parsed) ∙ h in
        elim (Bool-cases (has_ma r.attrs)) [
          | inr e ↦
              absurd (
                unfold check_ma in
                cc (rw (scan_none r.attrs 0 (start (wire r.attrs)) e) at checked))
          | inl e ↦
              let (front, value, back, split, clean) = split_ma r.attrs e in
              let (size, last, mac) = check_found r.attrs front value back split clean checked in
              record {
                response = r;
                parsed = parsed;
                front = front;
                value = value;
                back = back;
                split = split;
                none_before = clean;
                none_behind = last;
                size = size;
                mac = mac;
              }
        ]
  ]

  verify_ma_complete :
      HasVerifiedMa c packet ra secret
      → verify_response_message_authenticator c packet ra secret ≡ true
  verify_ma_complete v =
      verify_parsed v.response v.parsed
      ∙ rw (v.split, scan_single v.front v.back v.value v.none_before v.size v.none_behind)
          ((check_mac v.front v.value v.back).1 v.mac)

-- The check passes exactly when the packet parses, carries exactly one Message-Authenticator, of 16
-- octets, and that value is the HMAC-MD5 under the secret of Code, Id, Length, the given request
-- authenticator and the attributes with the value zeroed.
pub verify_ma_exact :
    (c : Primitives) (packet ra secret : Bytes)
    → (verify_response_message_authenticator c packet ra secret ≡ true)
      ↔ HasVerifiedMa c packet ra secret
verify_ma_exact c packet ra secret =
    (verify_ma_sound c packet ra secret, verify_ma_complete c packet ra secret)
