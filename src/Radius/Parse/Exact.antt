-- ===== src/Radius/Parse/Exact.antt =====
-- `parse_response` and `validate_vendor_specific` against the wire format, in both directions.
use pam_nps_mfa.Base.{
  ℕ, zero, suc, ◌+◌, ◌-◌, ◌≤◌, ◌≡◌, ◌≢◌, ◌↔◌, refl, sym, ap, ◌∙◌, arith, false, ◌||◌, Bool-cases,
  inl, inr, List, [], ◌∷◌, ◌++◌, append-nil, append_assoc, Bytes, length, take, drop, slice, get_or,
  All, ltb, ◌==◌, ok, >>=-ok, length-append, drop-append, take-append-drop, length-take_le,
  length-drop,
}
use pam_nps_mfa.Base.Words.{from_be16}
use pam_nps_mfa.Radius.{vendor_specific}
use pam_nps_mfa.Radius.Parse.{
  vendor_walk, validate_vendor_specific, push_attribute, declared_length, for_each_attribute,
  ParsedResponse, parse_response,
}
use mathlib.Core.Path.{subst}
use pam_nps_mfa.Radius.Parse.Walk.{wire, fold_attributes, walk-wire, walk-ok, length-wire_cons}

vendor_walk-wire :
    (xs : List (ℕ × Bytes)) (fuel : ℕ)
    → length (wire xs) ≤ fuel
    → vendor_walk fuel (wire xs) ≡ ok tt
unfolding vendor_walk
vendor_walk-wire [] fuel h = refl
vendor_walk-wire ((t, v) ∷ xs) zero h = absurd (omega arith)
vendor_walk-wire ((t, v) ∷ xs) (suc fuel) h =
    let e1 : ltb (length v + 2) 2 ≡ false = ground arith in
    let e2 : ltb (length (v ++ wire xs) + 2) (length v + 2) ≡ false =
      ground (arith, length-append v (wire xs)) in
    let e3 : length v + 2 - 2 ≡ length v = omega arith in
    rw (e1, e2, e3, drop-append (length v) v (wire xs) refl)
      (vendor_walk-wire xs fuel (omega (arith, length-append v (wire xs))))

vendor_walk-ok :
    (fuel : ℕ) (region : Bytes)
    → vendor_walk fuel region ≡ ok tt
    → (xs : List (ℕ × Bytes)) × (region ≡ wire xs)
unfolding vendor_walk
vendor_walk-ok fuel [] h = ([], refl)
vendor_walk-ok fuel (t ∷ []) h = absurd (cc)
vendor_walk-ok zero (t ∷ l ∷ rest) h = absurd (cc)
vendor_walk-ok (suc fuel) (t ∷ l ∷ rest) h =
    elim (Bool-cases (ltb l 2 || ltb (length rest + 2) l)) [
      | inl e ↦ absurd (cc (rw (e) at h))
      | inr e ↦
          let (xs, region) = vendor_walk-ok fuel (drop (l - 2) rest) (rw (e) at h) in
          let v = take (l - 2) rest in
          let size : length v + 2 ≡ l = ground (arith, length-take_le (l - 2) rest) in
          ((t, v) ∷ xs, rw (size, ← region, take-append-drop))
    ]

-- Four octets of Vendor-Id, then one or more inner attributes that fill the rest.
abbrev pub IsVendorValue : Bytes → Type 0
IsVendorValue v =
    (head : Bytes) × (tlvs : List (ℕ × Bytes)) × (length head ≡ 4)
    × (tlvs ≢ [])
    × (v ≡ head ++ wire tlvs)

wire-ne-nil : (xs : List (ℕ × Bytes)) → xs ≢ [] → 2 ≤ length (wire xs)
wire-ne-nil [] h = absurd (h refl)
wire-ne-nil ((t, v) ∷ xs) h = omega (arith, length-wire_cons t v xs)

validate_sound : (v : Bytes) → validate_vendor_specific v ≡ ok tt → IsVendorValue v
unfolding validate_vendor_specific
validate_sound v h = elim (Bool-cases (ltb (length v) 6)) [
  | inl e ↦ absurd (cc (rw (e) at h))
  | inr e ↦
      let (xs, region) = vendor_walk-ok (length v) (drop 4 v) (rw (e) at h) in
      let long : 6 ≤ length v = ground arith in
      (
        take 4 v,
        xs,
        length-take_le 4 v (omega arith),
        (λ n. omega (
          arith,
          length-drop 4 v,
          ap length region,
          ap (λ (l : List (ℕ × Bytes)). length (wire l)) n,
        )),
        rw (← region) (sym (take-append-drop 4 v)),
      )
]

validate_complete : (v : Bytes) → IsVendorValue v → validate_vendor_specific v ≡ ok tt
unfolding validate_vendor_specific
validate_complete v (head, tlvs, four, some_tlv, e) =
    let size : length v ≡ 4 + length (wire tlvs) =
      rw e (omega (arith, length-append head (wire tlvs))) in
    let long : ltb (length v) 6 ≡ false = ground (arith, wire-ne-nil tlvs some_tlv) in
    let region : drop 4 v ≡ wire tlvs = rw e (drop-append 4 head (wire tlvs) four) in
    rw (long, region) (vendor_walk-wire tlvs (length v) (omega arith))

-- What is asked of one attribute.
abbrev pub IsAttribute : ℕ × Bytes → Type 0
IsAttribute a = a.0 ≡ vendor_specific → IsVendorValue a.1

push_attribute-ok :
    (acc : List (ℕ × Bytes)) (off t : ℕ) (v : Bytes) {r : List (ℕ × Bytes)}
    → push_attribute acc off t v ≡ ok r
    → (r ≡ acc ++ ((t, v) ∷ [])) × IsAttribute (t, v)
unfolding push_attribute
push_attribute-ok acc off t v h = elim (Bool-cases (t == vendor_specific)) [
  | inl e ↦
      let (u, valid, pushed) = >>=-ok (validate_vendor_specific v) _ (rw (e) at h) in
      (cc, λ _. validate_sound v (valid))
  | inr e ↦ (cc (rw (e) at h), λ k. absurd (ground arith))
]

push_attribute-valid :
    (acc : List (ℕ × Bytes)) (off t : ℕ) (v : Bytes)
    → IsAttribute (t, v)
    → push_attribute acc off t v ≡ ok (acc ++ ((t, v) ∷ []))
unfolding push_attribute
push_attribute-valid acc off t v h = elim (Bool-cases (t == vendor_specific)) [
  | inl e ↦ rw (e, validate_complete v (h (ground arith)))
  | inr e ↦ rw e
]

push-ok :
    (xs : List (ℕ × Bytes)) (off : ℕ) (acc : List (ℕ × Bytes)) {r : List (ℕ × Bytes)}
    → fold_attributes push_attribute off xs acc ≡ ok r
    → (r ≡ acc ++ xs) × All IsAttribute xs
push-ok [] off acc h = (rw append-nil (cc), tt)
push-ok ((t, v) ∷ xs) off acc h =
    let (acc', first, later) = >>=-ok (push_attribute acc off t v) _ h in
    let (e, valid) = push_attribute-ok acc off t v first in
    let (e', valids) = push-ok xs (off + (length v + 2)) acc' later in
    (e' ∙ rw (e, append_assoc), (valid, valids))

push-All :
    (xs : List (ℕ × Bytes)) (off : ℕ) (acc : List (ℕ × Bytes))
    → All IsAttribute xs
    → fold_attributes push_attribute off xs acc ≡ ok (acc ++ xs)
push-All [] off acc h = rw append-nil
push-All ((t, v) ∷ xs) off acc (h, hs) =
    rw (push_attribute-valid acc off t v h)
      (push-All xs (off + (length v + 2)) (acc ++ ((t, v) ∷ [])) hs ∙ rw append_assoc)

-- The header's Length field.
abbrev pub length_field : Bytes → ℕ
length_field packet = from_be16 (get_or packet 2 0) (get_or packet 3 0)

pub declared_length-ok :
    (packet : Bytes) {n : ℕ}
    → declared_length packet ≡ ok n
    → (n ≡ length_field packet) × (20 ≤ n) × (n ≤ length packet) × (length packet ≤ 4096)
unfolding declared_length
declared_length-ok packet h = ground arith

pub declared_length-valid :
    (packet : Bytes)
    → 20 ≤ length_field packet
    → length_field packet ≤ length packet
    → length packet ≤ 4096
    → declared_length packet ≡ ok (length_field packet)
unfolding declared_length
declared_length-valid packet lo fits hi = ground arith

-- The wire format of a response: lengths in range, the attribute region exactly the wire form of
-- the attributes, and each Vendor-Specific value well formed.
pub record IsResponse (packet : Bytes) (r : ParsedResponse) : Type 0 where
  pub field_min : 20 ≤ length_field packet
  pub field_fits : length_field packet ≤ length packet
  pub datagram_max : length packet ≤ 4096
  pub code_is : r.code ≡ get_or packet 0 0
  pub id_is : r.id ≡ get_or packet 1 0
  pub authenticator_is : r.authenticator ≡ slice 4 20 packet
  pub region_is : slice 20 (length_field packet) packet ≡ wire r.attrs
  pub attributes_valid : All IsAttribute r.attrs

abbrev view : Bytes → List (ℕ × Bytes) → ParsedResponse
view packet attrs = record {
  code = get_or packet 0 0;
  id = get_or packet 1 0;
  authenticator = slice 4 20 packet;
  attrs = attrs;
}

pub parse_sound :
    (packet : Bytes) {r : ParsedResponse} → parse_response packet ≡ ok r → IsResponse packet r
unfolding parse_response for_each_attribute
parse_sound packet {r} h =
    let (n, declared, more) = >>=-ok (declared_length packet) _ h in
    let region = slice 20 n packet in
    let (attrs, walked, done) = >>=-ok (for_each_attribute push_attribute region []) _ more in
    let (xs, wired, folded) = walk-ok push_attribute (length region) 0 region [] attrs walked in
    let (pushed, valid) = push-ok xs 0 [] folded in
    let (n_is, lo, fits, hi) = declared_length-ok packet declared in
    let e : view packet attrs ≡ r = cc done in
    subst (IsResponse packet) e (record {
      field_min = rw (← n_is) lo;
      field_fits = rw (← n_is) fits;
      datagram_max = hi;
      code_is = refl;
      id_is = refl;
      authenticator_is = refl;
      region_is = rw (← n_is) (wired ∙ ap wire (sym pushed));
      attributes_valid = rw pushed valid;
    })

pub parse_complete :
    (packet : Bytes) (r : ParsedResponse) → IsResponse packet r → parse_response packet ≡ ok r
unfolding parse_response for_each_attribute
parse_complete packet r i =
    let xs = r.attrs in
    rw
      (
        declared_length-valid packet i.field_min i.field_fits i.datagram_max,
        i.region_is,
        walk-wire push_attribute xs (length (wire xs)) 0 [] (omega arith),
        push-All xs 0 [] i.attributes_valid,
      )
      (ap ok (λ j. record {
        code = sym i.code_is j;
        id = sym i.id_is j;
        authenticator = sym i.authenticator_is j;
        attrs = xs;
      }))

-- `parse_response` returns `r` exactly on the packets that hold `r`: 20 octets of header at least,
-- a Length field between 20 and the octets received, 4096 octets at most, an attribute region that
-- is Type, Length, Value of `r`'s attributes in order, and inside each Vendor-Specific value four
-- octets followed by one or more inner attributes that fill it.
pub parse_exact :
    (packet : Bytes) (r : ParsedResponse) → (parse_response packet ≡ ok r) ↔ IsResponse packet r
parse_exact packet r = (parse_sound packet, parse_complete packet r)
