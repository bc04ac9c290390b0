-- ===== src/Base/Str/Words.antt =====
-- Words do not depend on the space around a text.
use mathlib.Core.Path.{◌≡◌, refl}
use mathlib.Core.Logic.{inl, inr}
use mathlib.Core.Bool.{not}
use mathlib.Core.List.{[], ◌∷◌}
use Prim.Native.Nat.{ℕ}
use pam_nps_mfa.Base.Tests.{Bool-cases}
use pam_nps_mfa.Base.Text.{Text, is_whitespace}
use pam_nps_mfa.Base.Str.{trim, trim_start, trim_end, keep_end, split_whitespace, starts_word}

split_whitespace-trim_start : (s : Text) → split_whitespace (trim_start s) ≡ split_whitespace s
unfolding trim_start split_whitespace
split_whitespace-trim_start [] = refl
split_whitespace-trim_start (c ∷ s) = elim (Bool-cases (is_whitespace c)) [
  | inl b ↦ rw b (split_whitespace-trim_start s)
  | inr b ↦ simp b
]

keep_end-starts_word : (c : ℕ) (t : Text) → starts_word (keep_end c t) ≡ not (is_whitespace c)
keep_end-starts_word c [] = elim (Bool-cases (is_whitespace c)) [ inl b ↦ simp b | inr b ↦ simp b ]
keep_end-starts_word c (d ∷ t) = refl

-- One more character in front keeps two texts with the same words alike.
split_whitespace-keep_end :
    (c : ℕ) (t s : Text)
    → split_whitespace t ≡ split_whitespace s
    → starts_word t ≡ starts_word s
    → split_whitespace (keep_end c t) ≡ split_whitespace (c ∷ s)
unfolding split_whitespace
split_whitespace-keep_end c [] s e f = elim (Bool-cases (is_whitespace c)) [
  | inl b ↦ simp (b, ← e)
  | inr b ↦ simp (b, ← e, ← f)
]
split_whitespace-keep_end c (d ∷ t) s e f = simp (← e, ← f)

trim_end-starts_word : (s : Text) → starts_word (trim_end s) ≡ starts_word s
unfolding trim_end
trim_end-starts_word [] = refl
trim_end-starts_word (c ∷ s) = keep_end-starts_word c (trim_end s)

split_whitespace-trim_end : (s : Text) → split_whitespace (trim_end s) ≡ split_whitespace s
unfolding trim_end
split_whitespace-trim_end [] = refl
split_whitespace-trim_end (c ∷ s) =
    split_whitespace-keep_end c (trim_end s) s (split_whitespace-trim_end s)
      (trim_end-starts_word s)

pub split_whitespace-trim : (s : Text) → split_whitespace (trim s) ≡ split_whitespace s
unfolding trim
split_whitespace-trim s = rw (split_whitespace-trim_start (trim_end s), split_whitespace-trim_end s)
