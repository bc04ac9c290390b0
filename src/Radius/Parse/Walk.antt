-- ===== src/Radius/Parse/Walk.antt =====
-- The attribute walk of parse.rs against the octets that a list of attributes takes on the wire.
use pam_nps_mfa.Base.{
  ℕ, zero, suc, ◌+◌, ◌-◌, ◌≤◌, ◌≡◌, refl, ap, ◌∙◌, arith, false, Bool-cases, inl, inr, List, [],
  ◌∷◌, ◌++◌, Bytes, length, take, drop, ltb, Result, ok, ◌>>=◌, >>=-ok, append_assoc, length-append,
  take-append, drop-append, take-append-drop, length-take_le,
}
use pam_nps_mfa.Radius.{ParseError}
use pam_nps_mfa.Radius.Parse.{walk}
use mathlib.Core.Path.{fun_ext}

-- Type, Length, Value of each attribute, one after the other.
abbrev pub wire : List (ℕ × Bytes) → Bytes
wire [] = []
wire ((t, v) ∷ rest) = t ∷ (length v + 2) ∷ (v ++ wire rest)

module _ {ℓ} {S : Type ℓ} (f : S → ℕ → ℕ → Bytes → Result S ParseError) where
  -- The closure over a list of attributes, the first of which stands at `off`.
  abbrev pub fold_attributes : ℕ → List (ℕ × Bytes) → S → Result S ParseError
  fold_attributes off [] s = ok s
  fold_attributes off ((t, v) ∷ rest) s =
      f s off t v >>= λ s'. fold_attributes (off + (length v + 2)) rest s'

  walk_step :
      (fuel off t : ℕ) (v rest : Bytes) (s : S)
      → walk f (suc fuel) off (t ∷ (length v + 2) ∷ (v ++ rest)) s
        ≡ (f s off t v >>= λ s'. walk f fuel (off + (length v + 2)) rest s')
  unfolding walk
  walk_step fuel off t v rest s =
      let e1 : ltb (length v + 2) 2 ≡ false = ground arith in
      let e2 : ltb (length (v ++ rest) + 2) (length v + 2) ≡ false =
        ground (arith, length-append v rest) in
      let e3 : length v + 2 - 2 ≡ length v = omega arith in
      rw (e1, e2, e3, take-append (length v) v rest refl, drop-append (length v) v rest refl)

  pub walk-wire :
      (xs : List (ℕ × Bytes)) (fuel off : ℕ) (s : S)
      → length (wire xs) ≤ fuel
      → walk f fuel off (wire xs) s ≡ fold_attributes off xs s
  walk-wire [] fuel off s h = unfold walk in refl
  walk-wire ((t, v) ∷ rest) zero off s h = absurd (omega arith)
  walk-wire ((t, v) ∷ rest) (suc fuel) off s h =
      walk_step fuel off t v (wire rest) s
      ∙ ap (λ k. f s off t v >>= k)
          (fun_ext λ s'.
            walk-wire rest fuel (off + (length v + 2)) s'
              (omega (arith, length-append v (wire rest))))

  walk_tests :
      (fuel off t l : ℕ) (rest : Bytes) (s s' : S)
      → walk f (suc fuel) off (t ∷ l ∷ rest) s ≡ ok s'
      → (2 ≤ l)
        × (l ≤ length rest + 2)
        × ((f s off t (take (l - 2) rest) >>= λ u. walk f fuel (off + l) (drop (l - 2) rest) u)
            ≡ ok s')
  unfolding walk
  walk_tests fuel off t l rest s s' h = elim (Bool-cases (ltb l 2)) [
    | inl e ↦ absurd (cc (rw (e) at h))
    | inr e ↦ elim (Bool-cases (ltb (length rest + 2) l)) [
      | inl e2 ↦ absurd (cc (rw (e, e2) at h))
      | inr e2 ↦ (ground arith, ground arith, rw (e, e2) at h)
    ]
  ]

  -- A walk that succeeds has met the wire form of some attributes, and nothing else.
  pub walk-ok :
      (fuel off : ℕ) (region : Bytes) (s s' : S)
      → walk f fuel off region s ≡ ok s'
      → (xs : List (ℕ × Bytes)) × (region ≡ wire xs) × (fold_attributes off xs s ≡ ok s')
  walk-ok fuel off [] s s' h = ([], refl, unfold walk in h)
  walk-ok fuel off (t ∷ []) s s' h = absurd (unfold walk in cc h)
  walk-ok zero off (t ∷ l ∷ rest) s s' h = absurd (unfold walk in cc h)
  walk-ok (suc fuel) off (t ∷ l ∷ rest) s s' h =
      let (lo, hi, more) = walk_tests fuel off t l rest s s' h in
      let v = take (l - 2) rest in
      let (u, first, later) =
        >>=-ok (f s off t v) (λ u. walk f fuel (off + l) (drop (l - 2) rest) u) more in
      let (xs, region, folded) = walk-ok fuel (off + l) (drop (l - 2) rest) u s' later in
      let size : length v + 2 ≡ l = omega (arith, length-take_le (l - 2) rest (omega arith)) in
      ((t, v) ∷ xs, rw (size, ← region, take-append-drop), rw (first, size) folded)

pub length-wire_cons :
    (t : ℕ) (v : Bytes) (xs : List (ℕ × Bytes))
    → length (wire ((t, v) ∷ xs)) ≡ length v + 2 + length (wire xs)
length-wire_cons t v xs = omega (arith, length-append v (wire xs))

pub wire-append : (xs ys : List (ℕ × Bytes)) → wire (xs ++ ys) ≡ wire xs ++ wire ys
wire-append [] ys = refl
wire-append ((t, v) ∷ xs) ys = rw (wire-append xs ys, append_assoc)

pub fold-append {ℓ} :
    {S : Type ℓ} (f : S → ℕ → ℕ → Bytes → Result S ParseError) (xs ys : List (ℕ × Bytes)) (off : ℕ)
    (s : S) {u : S}
    → fold_attributes f off xs s ≡ ok u
    → fold_attributes f off (xs ++ ys) s ≡ fold_attributes f (off + length (wire xs)) ys u
fold-append f [] ys off s h =
    let e : off + 0 ≡ off = omega arith in rw e (ap (fold_attributes f off ys) (cc h))
fold-append f ((t, v) ∷ xs) ys off s h =
    let (s', first, later) = >>=-ok (f s off t v) _ h in
    let e : off + length (wire ((t, v) ∷ xs)) ≡ off + (length v + 2) + length (wire xs) =
      omega (arith, length-wire_cons t v xs) in
    rw (first, e) (fold-append f xs ys (off + (length v + 2)) s' later)
