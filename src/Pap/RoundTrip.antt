-- ===== src/Pap/RoundTrip.antt =====
-- The hiding of crates/pap/src/lib.rs and the receiver of RFC 2865 section 5.2 that undoes it.
use pam_nps_mfa.Base.{
  ℕ, zero, suc, ◌-◌, ◌*◌, ◌/◌, ◌≤◌, ◌≡◌, refl, sym, ap, ◌∙◌, arith, [], ◌∷◌, ◌++◌, Bytes, length,
  take, drop, replicate, length-take, length-drop, append_assoc, append-nil, ok, ltb, Bool-cases,
  inl, inr, take-append, drop-append, take-append-drop,
}
use pam_nps_mfa.Base.Bits.{xor_bytes}
use pam_nps_mfa.Base.Bits.Cancel.{xor_bytes-cancel}
use pam_nps_mfa.Primitives.{Primitives}
use pam_nps_mfa.Pap.{padded_len, pad, hide_blocks, hide_core, try_hide_password, max_password_len}
use pam_nps_mfa.Pap.Hiding.{length-xor_bytes, length-pad, length-hide_blocks, padded_len-bounds}

same_count : (m n : ℕ) → m ≡ n → replicate {A = ℕ} m 0 ≡ replicate n 0
same_count m n e = ap (λ k. replicate {A = ℕ} k 0) e

drop-replicate : (m n : ℕ) → drop {A = ℕ} m (replicate n 0) ≡ replicate (n - m) 0
drop-replicate zero n = same_count n (n - 0) (omega arith)
drop-replicate (suc m) zero = same_count 0 (0 - suc m) (omega arith)
drop-replicate (suc m) (suc n) =
    drop-replicate m n ∙ same_count (n - m) (suc n - suc m) (omega arith)

module _ (c : Primitives) where
  -- The receiver: each block is undone with the keystream of the block before it.
  abbrev pub unhide : ℕ → Bytes → Bytes → Bytes → Bytes
  unhide zero secret prev hidden = []
  unhide (suc blocks) secret prev hidden =
      xor_bytes (take 16 hidden) (c.md5 (secret ++ prev))
      ++ unhide blocks secret (take 16 hidden) (drop 16 hidden)

  hide_blocks-append :
      (blocks : ℕ) (secret prev plain out : Bytes)
      → hide_blocks c blocks secret prev plain out
        ≡ out ++ hide_blocks c blocks secret prev plain []
  unfolding hide_blocks
  hide_blocks-append zero secret prev plain out = sym (append-nil out)
  hide_blocks-append (suc blocks) secret prev plain out =
      let block = xor_bytes (take 16 plain) (c.md5 (secret ++ prev)) in
      rw
        (
          hide_blocks-append blocks secret block (drop 16 plain) (out ++ block),
          hide_blocks-append blocks secret block (drop 16 plain) block,
        )
        (append_assoc out block _)

  unhide-hide_blocks :
      (blocks : ℕ) (secret prev plain : Bytes)
      → length plain ≡ blocks * 16
      → unhide blocks secret prev (hide_blocks c blocks secret prev plain []) ≡ plain
  unfolding hide_blocks
  unhide-hide_blocks zero secret prev [] e = refl
  unhide-hide_blocks zero secret prev (x ∷ plain) e = absurd (omega arith)
  unhide-hide_blocks (suc blocks) secret prev plain e =
      let stream = c.md5 (secret ++ prev) in
      let block = xor_bytes (take 16 plain) stream in
      let later = hide_blocks c blocks secret block (drop 16 plain) [] in
      let enough : length (take 16 plain) ≤ length stream =
        omega (arith, length-take 16 plain, c.md5_length (secret ++ prev)) in
      let whole : length block ≡ 16 = omega (
        arith,
        length-xor_bytes (take 16 plain) stream,
        length-take 16 plain,
        c.md5_length (secret ++ prev),
      ) in
      rw
        (
          hide_blocks-append blocks secret block (drop 16 plain) block,
          take-append 16 block later whole,
          drop-append 16 block later whole,
          xor_bytes-cancel (take 16 plain) stream enough,
          unhide-hide_blocks blocks secret block (drop 16 plain)
              (omega (arith, length-drop 16 plain)),
        )
        (take-append-drop 16 plain)

  length-hide_core :
      (password secret ra : Bytes)
      → length password ≤ max_password_len
      → length (hide_core c password secret ra) ≡ padded_len (length password)
  unfolding hide_core
  length-hide_core password secret ra h =
      let n = length password in
      let (blocks, covers, low, high, whole) = padded_len-bounds n h in
      omega (
        arith,
        length-hide_blocks c (padded_len n / 16) secret ra (pad password (padded_len n)) []
            (omega (arith, length-pad password (padded_len n) covers, whole)),
        whole,
      )

  unhide-hide_core :
      (password secret ra : Bytes)
      → length password ≤ max_password_len
      → unhide (padded_len (length password) / 16) secret ra (hide_core c password secret ra)
        ≡ pad password (padded_len (length password))
  unfolding hide_core
  unhide-hide_core password secret ra h =
      let n = length password in
      let (blocks, covers, low, high, whole) = padded_len-bounds n h in
      unhide-hide_blocks (padded_len n / 16) secret ra (pad password (padded_len n))
        (omega (arith, length-pad password (padded_len n) covers, whole))

-- What is hidden under a secret and a request authenticator, for a password of at most 128 octets,
-- the receiver undoes with the same two into the password and the zeros that pad it.
pub unhide-try_hide_password :
    (c : Primitives) (password secret request_authenticator : Bytes)
    → length password ≤ max_password_len
    → (hidden : Bytes) × (try_hide_password c password secret request_authenticator ≡ ok hidden)
      × (unhide c (length hidden / 16) secret request_authenticator hidden
          ≡ password ++ replicate (length hidden - length password) 0)
unfolding try_hide_password pad
unhide-try_hide_password c password secret ra h =
    elim (Bool-cases (ltb max_password_len (length password))) [
      | inl b ↦ absurd (ground arith)
      | inr b ↦ rw b (
        hide_core c password secret ra,
        refl,
        rw (length-hide_core c password secret ra h, unhide-hide_core c password secret ra h)
            (ap (◌++◌ password) (drop-replicate (length password) (padded_len (length password)))),
      )
    ]
