-- ===== src/Mschap/Vsa/Exact.antt =====
-- The MS-CHAP2-Success of vsa.rs against its format, and the vendor attributes that are sent.
use pam_nps_mfa.Base.{
  ℕ, zero, suc, ◌+◌, ◌-◌, ◌%◌, ◌≤◌, ◌≡◌, ◌↔◌, ◌⊎◌, refl, sym, ap, ◌∙◌, arith, true, false,
  Bool-cases, not, ◌&&◌, ◌||◌, inl, inr, [], ◌∷◌, ◌++◌, Bytes, length, get_or, take, drop, ltb,
  ◌==◌, bytes_eq, bytes_eq_iff, ok, length-append, length-take_le, length-drop, take-append,
  drop-append, take-append-drop,
}
use pam_nps_mfa.Base.Text.{text}
use pam_nps_mfa.Radius.Parse.{decode_vendor_specific}
use pam_nps_mfa.Mschap.Vsa.{
  vsa_value, all_hex, upper_all, parse_success_text, parse_ms_chap2_success,
}

-- Ident, "S=", 40 hexadecimal digits, and then the end or a blank; the digits in upper case are what
-- the message proves with.
pub record IsSuccess (v r : Bytes) : Type 0 where
  pub ident : ℕ
  pub digits : Bytes
  pub behind : Bytes
  pub shape : v ≡ ident ∷ (text "S=" ++ (digits ++ behind))
  pub size : length digits ≡ 40
  pub are_hex : all_hex digits ≡ true
  pub ends : (behind ≡ []) ⊎ ((message : Bytes) × (behind ≡ b' ' ∷ message))
  pub value : r ≡ text "S=" ++ upper_all digits

get_or-drop : (n : ℕ) (s : Bytes) → get_or s n 0 ≡ get_or (drop n s) 0 0
get_or-drop zero s = refl
get_or-drop (suc n) [] = refl
get_or-drop (suc n) (x ∷ s) = get_or-drop n s

get_or_behind : (s : Bytes) → get_or s 42 0 ≡ get_or (drop 2 s) 40 0
get_or_behind [] = refl
get_or_behind (x ∷ []) = refl
get_or_behind (x ∷ y ∷ s) = refl

blank_behind :
    (behind : Bytes)
    → (ltb 0 (length behind) && not (get_or behind 0 0 == b' ')) ≡ false
    → (behind ≡ []) ⊎ ((message : Bytes) × (behind ≡ b' ' ∷ message))
blank_behind [] h = inl refl
blank_behind (c ∷ message) h = let blank : c ≡ b' ' = ground arith in inr (message, rw blank refl)

parse_success_text-IsSuccess :
    (ident : ℕ) (s r : Bytes) → parse_success_text s ≡ ok r → IsSuccess (ident ∷ s) r
unfolding parse_success_text
parse_success_text-IsSuccess ident s r h = elim (Bool-cases (ltb (length s) 42)) [
  | inl a ↦ absurd (cc (rw a at h))
  | inr a ↦ elim (Bool-cases (bytes_eq (take 2 s) (text "S="))) [
    | inr b ↦ absurd (cc (rw (a, b) at h))
    | inl b ↦ elim (Bool-cases (all_hex (take 40 (drop 2 s)))) [
      | inr d ↦ absurd (cc (rw (a, b, d) at h))
      | inl d ↦ elim (Bool-cases (ltb 42 (length s) && not (get_or s 42 0 == b' '))) [
        | inl e ↦ absurd (cc (rw (a, b, d, e) at h))
        | inr e ↦
            let prefix = (bytes_eq_iff (take 2 s) (text "S=")).0 b in
            record {
              ident = ident;
              digits = take 40 (drop 2 s);
              behind = drop 40 (drop 2 s);
              shape =
                  ap (λ o. ident ∷ o)
                    (sym (take-append-drop 2 s)
                      ∙ ap (λ p. p ++ drop 2 s) prefix
                      ∙ ap (λ o. text "S=" ++ o) (sym (take-append-drop 40 (drop 2 s))));
              size = length-take_le 40 (drop 2 s) (ground (arith, length-drop 2 s));
              are_hex = d;
              ends = blank_behind (drop 40 (drop 2 s)) (
                  ground (
                    arith,
                    length-drop 40 (drop 2 s),
                    length-drop 2 s,
                    get_or_behind s ∙ get_or-drop 40 (drop 2 s),
                  ));
              value = sym (cc (rw (a, b, d, e) at h));
            }
      ]
    ]
  ]
]

no_garbage :
    (digits behind : Bytes)
    → length digits ≡ 40
    → (behind ≡ []) ⊎ ((message : Bytes) × (behind ≡ b' ' ∷ message))
    → (ltb 42 (length (text "S=" ++ (digits ++ behind)))
        && not (get_or (text "S=" ++ (digits ++ behind)) 42 0 == b' '))
      ≡ false
no_garbage digits behind size (inl e) =
    let total = length-append digits behind in
    let nothing : length behind ≡ 0 = rw e refl in ground arith
no_garbage digits behind size (inr (message, e)) =
    let first : get_or (digits ++ behind) 40 0 ≡ b' ' =
      get_or-drop 40 (digits ++ behind)
      ∙ ap (λ o. get_or o 0 0) (drop-append 40 digits behind size ∙ e) in
    ground arith

IsSuccess-parse : (v r : Bytes) → IsSuccess v r → parse_ms_chap2_success v ≡ ok r
unfolding parse_ms_chap2_success parse_success_text
IsSuccess-parse v r i =
    let long : ltb (length (text "S=" ++ (i.digits ++ i.behind))) 42 ≡ false =
      ground (arith, length-append i.digits i.behind, i.size) in
    let prefix : bytes_eq (text "S=") (text "S=") ≡ true =
      (bytes_eq_iff (text "S=") (text "S=")).1 refl in
    let hex = take-append 40 i.digits i.behind i.size in
    let clean = no_garbage i.digits i.behind i.size i.ends in
    rw (i.shape, i.value) (rw (long, prefix, hex, i.are_hex, clean) refl)

-- The text of an MS-CHAP2-Success is accepted exactly where it is the Ident, "S=" and 40 hexadecimal
-- digits with nothing or a blank behind them, and what is taken from it is "S=" with the digits in
-- upper case.
pub parse_ms_chap2_success_iff : (v r : Bytes) → (parse_ms_chap2_success v ≡ ok r) ↔ IsSuccess v r
unfolding parse_ms_chap2_success
parse_ms_chap2_success_iff [] r = (λ h. absurd (cc h), IsSuccess-parse [] r)
parse_ms_chap2_success_iff (ident ∷ s) r =
    (parse_success_text-IsSuccess ident s r, IsSuccess-parse (ident ∷ s) r)

-- A Microsoft vendor attribute that is sent is read back by the decoder: the vendor, the type and the
-- data, where the data have at most 253 octets.
pub decode_vendor_specific-vsa_value :
    (vtype : ℕ) (data' : Bytes)
    → length data' ≤ 253
    → decode_vendor_specific (vsa_value vtype data')
      ≡ ok (record { vendor_id = 311; vendor_type = vtype; vendor_data = data' })
unfolding decode_vendor_specific vsa_value
decode_vendor_specific-vsa_value vtype data' h =
    let size : (2 + length data') % 256 ≡ 2 + length data' = omega arith in
    let octets = vsa_value vtype data' in
    let enough : ltb (length octets) 6 ≡ false = ground arith in
    let agrees : (ltb (get_or octets 5 0) 2 || not (get_or octets 5 0 == length octets - 4))
        ≡ false =
      ground (arith, size) in
    rw (enough, agrees, decode_vendor_specific) refl
