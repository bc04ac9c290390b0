-- ===== src/Base/Str/Numbers.antt =====
-- The numbers of 32 bits that `u32_from_str` reads.
use pam_nps_mfa.Base.{
  ℕ, ◌+◌, ◌-◌, ◌*◌, ◌≤◌, ◌≡◌, arith, not, ◌&&◌, Bool-cases, inl, inr, some, [], ◌∷◌, ◌==◌, leb, ltb,
}
use pam_nps_mfa.Base.Text.{Text}
use pam_nps_mfa.Base.Str.{from_digits, nonempty_digits, u32_from_str}

from_digits-bounded :
    (limit value : ℕ) (s : Text) (x : ℕ)
    → value ≤ limit
    → from_digits limit value s ≡ some x
    → x ≤ limit
unfolding from_digits
from_digits-bounded limit value [] x b e = let same : value ≡ x = cc in omega arith
from_digits-bounded limit value (c ∷ s) x b e = elim (Bool-cases (not (leb b'0' c && leb c b'9'))) [
  | inl d ↦ absurd (cc (rw d at e))
  | inr d ↦ elim (Bool-cases (ltb limit (value * 10 + (c - b'0')))) [
    | inl l ↦ absurd (cc (rw (d, l) at e))
    | inr l ↦
        from_digits-bounded limit (value * 10 + (c - b'0')) s x (ground arith) (rw (d, l) at e)
  ]
]

nonempty_digits-bounded :
    (limit : ℕ) (s : Text) (x : ℕ) → nonempty_digits limit s ≡ some x → x ≤ limit
nonempty_digits-bounded limit [] x e = absurd (cc)
nonempty_digits-bounded limit (c ∷ s) x e = from_digits-bounded limit 0 (c ∷ s) x (omega arith) e

pub u32_from_str-bounded : (s : Text) (x : ℕ) → u32_from_str s ≡ some x → x ≤ 4294967295
unfolding u32_from_str
u32_from_str-bounded [] x e = absurd (cc)
u32_from_str-bounded (c ∷ s) x e = elim (Bool-cases (c == b'+')) [
  | inl p ↦ nonempty_digits-bounded 4294967295 s x (rw p at e)
  | inr p ↦ nonempty_digits-bounded 4294967295 (c ∷ s) x (rw p at e)
]
