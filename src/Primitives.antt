-- ===== src/Primitives.antt =====
-- The cryptographic crates that the sources call (md5, hmac, md4, sha1, des, subtle), as an
-- interface with the laws that the code relies on: digest sizes, and that `ct_eq` is equality.
use pam_nps_mfa.Base.{Bool, true, Option, some, Bytes, length, ◌≡◌, ◌↔◌}

pub record Primitives : Type 0 where
  -- `Md5` over everything that `update` was given, in order
  pub md5 : Bytes → Bytes
  pub md5_length : (m : Bytes) → length (md5 m) ≡ 16
  -- `HmacMd5::new_from_slice`, then `update` and `finalize` on the message
  pub hmac_new : Bytes → Option (Bytes → Bytes)
  pub hmac_length :
      (key : Bytes) (mac : Bytes → Bytes)
      → hmac_new key ≡ some mac
      → (m : Bytes) → length (mac m) ≡ 16
  pub md4 : Bytes → Bytes
  pub md4_length : (m : Bytes) → length (md4 m) ≡ 16
  pub sha1 : Bytes → Bytes
  pub sha1_length : (m : Bytes) → length (sha1 m) ≡ 20
  -- `Des::new` on the key, then `encrypt_block` on the block
  pub des : Bytes → Bytes → Bytes
  pub des_length : (key block : Bytes) → length (des key block) ≡ 8
  -- `subtle::ConstantTimeEq::ct_eq`
  pub ct_eq : Bytes → Bytes → Bool
  pub ct_eq_iff : (a b : Bytes) → (ct_eq a b ≡ true) ↔ (a ≡ b)
