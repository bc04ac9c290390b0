-- ===== src/Memory/Wipe.antt =====
-- The wiping of one string.
use pam_nps_mfa.Base.{
  ℕ, zero, suc, ◌≡◌, refl, some, Option-cases, inl, inr, [], ◌∷◌, ◌++◌, Bytes, length, replicate,
}
use pam_nps_mfa.Base.Options.{◌>>=◌}
use pam_nps_mfa.Memory.Nul.{HasNoNul}
use pam_nps_mfa.Memory.{
  Cell, live, freed, Memory, put, until_nul, to_bytes, write_zero, wipe_from, wipe_and_free_string,
}

-- The block at an address is this string, its NUL, and what lies behind.
abbrev pub HoldsString : Memory → ℕ → Bytes → Bytes → Type 0
HoldsString m p s rest = (m.strings p ≡ live (s ++ (0 ∷ rest))) × HasNoNul s

-- The block was freed, and the octets of the string were zeros by then.
abbrev pub wiped : Bytes → Bytes → Cell
wiped s rest = freed (replicate (length s) 0 ++ (0 ∷ rest))

until_nul-append : (s rest : Bytes) → HasNoNul s → until_nul (s ++ (0 ∷ rest)) ≡ some s
unfolding until_nul
until_nul-append [] rest h = refl
until_nul-append (zero ∷ s) rest (h, k) = absurd (h refl)
until_nul-append (suc c ∷ s) rest (h, k) = rw (until_nul-append s rest k) refl

wipe_from-suc :
    (i n c : ℕ) (block : Bytes)
    → wipe_from (suc i) n (c ∷ block) ≡ (wipe_from i n block >>= λ r. some (c ∷ r))
unfolding wipe_from write_zero
wipe_from-suc i zero c block = refl
wipe_from-suc i (suc n) c block = elim (Option-cases (write_zero i block)) [
  | inl e ↦ rw e refl
  | inr (b, e) ↦ rw e (wipe_from-suc (suc i) n c b)
]

wipe_from-append :
    (s rest : Bytes) → wipe_from 0 (length s) (s ++ rest) ≡ some (replicate (length s) 0 ++ rest)
unfolding wipe_from write_zero
wipe_from-append [] rest = refl
wipe_from-append (c ∷ s) rest =
    rw (wipe_from-suc 0 (length s) 0 (s ++ rest), wipe_from-append s rest) refl

pub to_bytes-HoldsString :
    (m : Memory) (p : ℕ) (s rest : Bytes) → HoldsString m p s rest → to_bytes m p ≡ some s
unfolding to_bytes
to_bytes-HoldsString m p s rest (b, h) = rw b (until_nul-append s rest h)

pub wipe_and_free_string-HoldsString :
    (m : Memory) (p : ℕ) (s rest : Bytes)
    → HoldsString m p s rest
    → wipe_and_free_string m p ≡ some (record m { strings = put p (wiped s rest) m.strings })
unfolding wipe_and_free_string to_bytes
wipe_and_free_string-HoldsString m p s rest (b, h) =
    simp (b, until_nul-append s rest h, wipe_from-append s (0 ∷ rest))
