-- ===== src/Memory/Nul.antt =====
-- The texts that `CString::new` takes.
use pam_nps_mfa.Base.{
  ℕ, zero, suc, ◌≡◌, ◌≢◌, refl, arith, false, some, List, [], ◌∷◌, ◌++◌, All, Bytes,
}
use pam_nps_mfa.Base.Text.{Text, utf8, utf8_char}
use pam_nps_mfa.Memory.{has_nul, c_string}

-- Octets, or the characters of a text.
abbrev pub HasNoNul : List ℕ → Type 0
HasNoNul s = All (λ c. c ≢ 0) s

has_nul-append : (a b : Bytes) → has_nul a ≡ false → has_nul b ≡ false → has_nul (a ++ b) ≡ false
unfolding has_nul
has_nul-append [] b h k = k
has_nul-append (zero ∷ a) b h k = absurd (cc h)
has_nul-append (suc x ∷ a) b h k =
    let later : has_nul a ≡ false = ground arith in
    let rest = has_nul-append a b later k in ground arith

has_nul-utf8_char : (c : ℕ) → c ≢ 0 → has_nul (utf8_char c) ≡ false
unfolding has_nul utf8_char
has_nul-utf8_char c h = ground arith

pub has_nul-utf8 : (t : Text) → HasNoNul t → has_nul (utf8 t) ≡ false
unfolding utf8 has_nul
has_nul-utf8 [] h = refl
has_nul-utf8 (c ∷ t) (n, h) =
    has_nul-append (utf8_char c) (utf8 t) (has_nul-utf8_char c n) (has_nul-utf8 t h)

pub c_string-HasNoNul : (t : Text) → HasNoNul t → c_string t ≡ some (utf8 t)
unfolding c_string
c_string-HasNoNul t h = rw (has_nul-utf8 t h) refl
