-- ===== src/Pap/Hiding.antt =====
-- The length of what `try_hide_password` of crates/pap/src/lib.rs hides.
use pam_nps_mfa.Base.{
  ℕ, zero, suc, ◌+◌, ◌*◌, ◌/◌, ◌%◌, ◌≤◌, ◌≡◌, refl, arith, Bool-cases, inl, inr, [], ◌∷◌, ◌++◌,
  Bytes, length, take, drop, replicate, min, length-take, length-drop, length-append,
  length-replicate, Result, ok, ltb,
}
use pam_nps_mfa.Base.Bits.{xor_bytes}
use pam_nps_mfa.Primitives.{Primitives}
use pam_nps_mfa.Radius.{user_password}
use pam_nps_mfa.Radius.Packet.{encode_attribute, max_attr_value_len}
use pam_nps_mfa.Pap.{
  PapError, padded_len, pad, hide_blocks, hide_core, try_hide_password, max_password_len,
}

pub length-xor_bytes : (a b : Bytes) → length (xor_bytes a b) ≡ min (length a) (length b)
unfolding xor_bytes
length-xor_bytes [] b = omega arith
length-xor_bytes (x ∷ a) [] = omega arith
length-xor_bytes (x ∷ a) (y ∷ b) = omega (arith, length-xor_bytes a b)

pub length-pad : (password : Bytes) (n : ℕ) → length password ≤ n → length (pad password n) ≡ n
unfolding pad
length-pad password n h = omega (
  arith,
  length-append password (drop (length password) (replicate n 0)),
  length-drop {A = ℕ} (length password) (replicate n 0),
  length-replicate {A = ℕ} n 0,
)

module _ (c : Primitives) where
  pub length-hide_blocks :
      (blocks : ℕ) (secret prev plain out : Bytes)
      → length plain ≡ blocks * 16
      → length (hide_blocks c blocks secret prev plain out) ≡ length out + blocks * 16
  unfolding hide_blocks
  length-hide_blocks zero secret prev plain out e = omega arith
  length-hide_blocks (suc blocks) secret prev plain out e =
      let block = xor_bytes (take 16 plain) (c.md5 (secret ++ prev)) in
      omega (
        arith,
        length-hide_blocks blocks secret block (drop 16 plain) (out ++ block)
            (omega (arith, length-drop 16 plain)),
        length-append out block,
        length-xor_bytes (take 16 plain) (c.md5 (secret ++ prev)),
        length-take 16 plain,
        c.md5_length (secret ++ prev),
      )

-- The hidden value of a password, and its attribute.
pub record Hidden (password : Bytes) (r : Result Bytes PapError) : Type 0 where
  pub value : Bytes
  pub is_value : r ≡ ok value
  pub is_padded : length value ≡ padded_len (length password)
  pub is_in_blocks : length value % 16 ≡ 0
  pub covers : length password ≤ length value
  pub is_bounded : (16 ≤ length value) × (length value ≤ max_password_len)
  pub encoded : Bytes
  pub is_encoded : encode_attribute user_password value ≡ ok encoded

pub padded_len-bounds :
    (n : ℕ)
    → n ≤ 128
    → (padded_len n % 16 ≡ 0)
      × (n ≤ padded_len n)
      × (16 ≤ padded_len n)
      × (padded_len n ≤ 128)
      × (padded_len n / 16 * 16 ≡ padded_len n)
unfolding padded_len
padded_len-bounds n h = (omega arith, omega arith, omega arith, omega arith, omega arith)

encode_attribute-fits :
    (t : ℕ) (value : Bytes)
    → length value ≤ max_attr_value_len
    → (encoded : Bytes) × (encode_attribute t value ≡ ok encoded)
unfolding encode_attribute
encode_attribute-fits t value h = elim (Bool-cases (ltb max_attr_value_len (length value))) [
  | inl d ↦ absurd (ground arith)
  | inr d ↦ rw d (_, refl)
]

-- A password of at most 128 octets is hidden: the value is padded to whole blocks of 16 octets, one
-- block at least and 128 octets at most, covers the password, and fits in an attribute.
pub try_hide_password-Hidden :
    (c : Primitives) (password secret request_authenticator : Bytes)
    → length password ≤ max_password_len
    → Hidden password (try_hide_password c password secret request_authenticator)
unfolding try_hide_password hide_core
try_hide_password-Hidden c password secret ra h =
    let n = length password in
    let (blocks, covers, low, high, whole) = padded_len-bounds n h in
    let sized : length (hide_core c password secret ra) ≡ padded_len n = omega (
      arith,
      length-hide_blocks c (padded_len n / 16) secret ra (pad password (padded_len n)) []
          (omega (arith, length-pad password (padded_len n) covers, whole)),
      whole,
    ) in
    let (attribute, encodes) =
      encode_attribute-fits user_password (hide_core c password secret ra)
        (omega (arith, sized, high)) in
    elim (Bool-cases (ltb max_password_len n)) [
      | inl b ↦ absurd (ground arith)
      | inr b ↦ rw b (record {
        value = hide_core c password secret ra;
        is_value = refl;
        is_padded = sized;
        is_in_blocks = omega (arith, sized, blocks);
        covers = omega (arith, sized, covers);
        is_bounded = (omega (arith, sized, low), omega (arith, sized, high));
        encoded = attribute;
        is_encoded = encodes;
      })
    ]
