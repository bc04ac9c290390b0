-- ===== src/Radius/Packet/Signed.antt =====
-- The Message-Authenticator that `fill_message_authenticator` of packet.rs writes.
use pam_nps_mfa.Base.{
  ℕ, ◌+◌, ◌%◌, ◌/◌, ◌≤◌, ◌≡◌, refl, sym, ap, ◌∙◌, arith, false, not, ◌||◌, inl, inr, none, some,
  Option-cases, List, [], ◌∷◌, ◌++◌, append_assoc, Bytes, length, replicate, overwrite, ltb, ◌==◌,
  ok, length-append, drop-append, overwrite-append,
}
use mathlib.Core.List.{flatten}
use pam_nps_mfa.Base.Words.{be16, from_be16, from_be16-be16}
use pam_nps_mfa.Primitives.{Primitives}
use pam_nps_mfa.Radius.{message_authenticator_attr}
use pam_nps_mfa.Radius.Parse.{for_each_attribute}
use pam_nps_mfa.Radius.Parse.Walk.{wire, fold_attributes, walk-wire, fold-append, wire-append}
use pam_nps_mfa.Radius.Auth.{hmac_md5, message_authenticator}
use pam_nps_mfa.Radius.Binding.{has_ma}
use pam_nps_mfa.Radius.Packet.{FillScan, scan_fill, fill_message_authenticator}

-- Code, Id, Length and authenticator, before the attributes.
abbrev pub datagram : ℕ → ℕ → Bytes → List (ℕ × Bytes) → Bytes
datagram code id ra attrs = code ∷ id ∷ (be16 (20 + length (wire attrs)) ++ (ra ++ wire attrs))

-- With no Message-Authenticator the walk changes nothing.
scan_fill_none :
    (xs : List (ℕ × Bytes)) (off : ℕ) (s : FillScan)
    → has_ma xs ≡ false
    → fold_attributes scan_fill off xs s ≡ ok s
unfolding has_ma scan_fill
scan_fill_none [] off s h = refl
scan_fill_none ((t, v) ∷ xs) off s h = ground (arith, scan_fill_none xs (off + (length v + 2)) s)

abbrev nothing_yet : FillScan
nothing_yet = record { ma_value_off = none; bad_length = false; duplicate = false }

length-message_authenticator :
    (c : Primitives) (packet secret : Bytes) → length (message_authenticator c packet secret) ≡ 16
unfolding message_authenticator hmac_md5
length-message_authenticator c packet secret = elim (Option-cases (c.hmac_new secret)) [
  | inl e ↦ rw (e, message_authenticator, hmac_md5) refl
  | inr (mac, e) ↦
      rw (e, message_authenticator, hmac_md5) (c.hmac_length secret mac e (flatten (packet ∷ [])))
]

module _ (code id : ℕ) (ra : Bytes) (front back : List (ℕ × Bytes)) where
  abbrev pub attributes : Bytes → List (ℕ × Bytes)
  attributes value = front ++ ((message_authenticator_attr, value) ∷ back)

  scan_fill_single :
      (value : Bytes)
      → has_ma front ≡ false
      → has_ma back ≡ false
      → length value ≡ 16
      → for_each_attribute scan_fill (wire (attributes value)) nothing_yet
        ≡ ok (record nothing_yet { ma_value_off = some (20 + length (wire front) + 2) })
  unfolding for_each_attribute scan_fill
  scan_fill_single value clean last size =
      let fits : not (length value == 16) ≡ false = ground arith in
      let here : 0 + length (wire front) ≡ length (wire front) = omega arith in
      walk-wire scan_fill (attributes value) (length (wire (attributes value))) 0 nothing_yet
        (omega arith)
      ∙ fold-append scan_fill front ((80, value) ∷ back) 0 nothing_yet
          (scan_fill_none front 0 nothing_yet clean)
      ∙ rw (here, fits) (scan_fill_none back _ _ last)

  length-attributes :
      (value : Bytes)
      → length value ≡ 16
      → length (wire (attributes value)) ≡ length (wire front) + 18 + length (wire back)
  length-attributes value size = omega (
    arith,
    ap length (wire-append front ((80, value) ∷ back)),
    length-append (wire front) (wire ((80, value) ∷ back)),
    length-append value (wire back),
    size,
  )

  abbrev before_value : Bytes
  before_value =
      code
      ∷ id
      ∷ (be16 (20 + (length (wire front) + 18 + length (wire back)))
          ++ (ra ++ (wire front ++ (80 ∷ 18 ∷ []))))

  datagram-attributes :
      (value : Bytes)
      → length value ≡ 16
      → datagram code id ra (attributes value) ≡ before_value ++ (value ++ wire back)
  datagram-attributes value size =
      let two : length value + 2 ≡ 18 = omega arith in
      let region : wire (attributes value)
          ≡ (wire front ++ (80 ∷ 18 ∷ [])) ++ (value ++ wire back) =
        wire-append front ((80, value) ∷ back)
        ∙ ap (λ (n : ℕ). wire front ++ (80 ∷ n ∷ (value ++ wire back))) two
        ∙ sym (append_assoc (wire front) (80 ∷ 18 ∷ []) (value ++ wire back)) in
      let whole =
        ap (λ (r : Bytes). ra ++ r) region
        ∙ sym (append_assoc ra (wire front ++ (80 ∷ 18 ∷ [])) (value ++ wire back)) in
      let total = ap (λ n. 20 + n) (length-attributes value size) in
      λ i. code ∷ id ∷ (be16 (total i) ++ whole i)

  overwrite-datagram :
      (old new : Bytes)
      → length ra ≡ 16
      → length old ≡ 16
      → length new ≡ 16
      → overwrite (20 + length (wire front) + 2) new (datagram code id ra (attributes old))
        ≡ datagram code id ra (attributes new)
  overwrite-datagram old new r o n =
      rw (datagram-attributes old o, datagram-attributes new n)
        (overwrite-append (20 + length (wire front) + 2) before_value old new (wire back)
          (omega (
            arith,
            length-append ra (wire front ++ (80 ∷ 18 ∷ [])),
            length-append (wire front) (80 ∷ 18 ∷ []),
            r,
          ))
          (o ∙ sym n))

  -- The value that the packet's own HMAC-MD5 is, with the value zeroed.
  abbrev pub mac_of : Primitives → Bytes → Bytes
  mac_of c secret =
      message_authenticator c (datagram code id ra (attributes (replicate 16 0))) secret

  pub fill_message_authenticator-datagram :
      (c : Primitives) (secret value : Bytes)
      → length ra ≡ 16
      → length value ≡ 16
      → has_ma front ≡ false
      → has_ma back ≡ false
      → 20 + length (wire (attributes value)) ≤ 4096
      → fill_message_authenticator c (datagram code id ra (attributes value)) secret
        ≡ ok (datagram code id ra (attributes (mac_of c secret)))
  unfolding fill_message_authenticator
  fill_message_authenticator-datagram c secret value r size clean last bound =
      let attrs = attributes value in
      let packet = datagram code id ra attrs in
      let whole : length packet ≡ 20 + length (wire attrs) =
        omega (arith, length-append ra (wire attrs), r) in
      let sized : (ltb (length packet) 20 || ltb 4096 (length packet)) ≡ false =
        ground (arith, whole, bound) in
      let total = 20 + length (wire attrs) in
      let declared : not (from_be16 (total / 256 % 256) (total % 256) == length packet) ≡ false =
        ground (arith, whole, from_be16-be16 total (omega arith)) in
      rw
        (
          sized,
          declared,
          drop-append 16 ra (wire attrs) r,
          scan_fill_single value clean last size,
          overwrite-datagram value (replicate 16 0) r size refl,
          overwrite-datagram (replicate 16 0) (mac_of c secret) r refl
              (length-message_authenticator c _ secret),
        )
        refl
