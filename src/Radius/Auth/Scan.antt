-- ===== src/Radius/Auth/Scan.antt =====
-- What the walk for the Message-Authenticator of auth.rs leaves in its captured variables.
use pam_nps_mfa.Base.{
  ℕ, ◌+◌, ◌≡◌, refl, sym, ap, ◌∙◌, arith, true, false, not, ◌||◌, Bool-cases, inl, inr, some, List,
  [], ◌∷◌, ◌++◌, append_assoc, Bytes, length, replicate, overwrite, ◌==◌, ok, length-append,
  overwrite-append,
}
use pam_nps_mfa.Radius.{message_authenticator_attr}
use pam_nps_mfa.Radius.Parse.Walk.{wire, fold_attributes, wire-append}
use pam_nps_mfa.Radius.Auth.{MaScan, scan_ma, is_some}
use pam_nps_mfa.Radius.Binding.{has_ma}

-- With no Message-Authenticator the scan changes nothing.
pub scan_none :
    (xs : List (ℕ × Bytes)) (off : ℕ) (s : MaScan)
    → has_ma xs ≡ false
    → fold_attributes scan_ma off xs s ≡ ok s
unfolding has_ma scan_ma
scan_none [] off s h = refl
scan_none ((t, v) ∷ xs) off s h = ground (arith, scan_none xs (off + (length v + 2)) s)

-- Once invalid, always invalid.
pub scan_invalid :
    (xs : List (ℕ × Bytes)) (off : ℕ) (s : MaScan)
    → s.invalid ≡ true
    → (u : MaScan) × (fold_attributes scan_ma off xs s ≡ ok u) × (u.invalid ≡ true)
unfolding scan_ma
scan_invalid [] off s h = (s, refl, h)
scan_invalid ((t, v) ∷ xs) off s h = elim (Bool-cases (t == message_authenticator_attr)) [
  | inr e ↦ rw e (scan_invalid xs (off + (length v + 2)) s h)
  | inl e ↦ elim (Bool-cases (not (length v == 16) || is_some s.received)) [
    | inl e2 ↦
        rw (e, e2) (scan_invalid xs (off + (length v + 2)) (record s { invalid = true }) refl)
    | inr e2 ↦
        rw (e, e2)
          (scan_invalid xs (off + (length v + 2))
            (record s { received = some v; attrs = overwrite (off + 2) (replicate 16 0) s.attrs })
            h)
  ]
]

-- A second Message-Authenticator is invalid.
pub scan_second :
    (xs : List (ℕ × Bytes)) (off : ℕ) (s : MaScan)
    → is_some s.received ≡ true
    → has_ma xs ≡ true
    → (u : MaScan) × (fold_attributes scan_ma off xs s ≡ ok u) × (u.invalid ≡ true)
unfolding has_ma scan_ma
scan_second [] off s r h = absurd (cc h)
scan_second ((t, v) ∷ xs) off s r h = elim (Bool-cases (t == message_authenticator_attr)) [
  | inr e ↦ rw e (scan_second xs (off + (length v + 2)) s r (rw (e) at h))
  | inl e ↦
      let bad : (not (length v == 16) || is_some s.received) ≡ true = ground arith in
      rw (e, bad) (scan_invalid xs (off + (length v + 2)) (record s { invalid = true }) refl)
]

-- The attributes before the first Message-Authenticator, its value, and those behind it.
pub split_ma :
    (xs : List (ℕ × Bytes))
    → has_ma xs ≡ true
    → (front : List (ℕ × Bytes)) × (value : Bytes) × (back : List (ℕ × Bytes)) × (xs
        ≡ front ++ ((message_authenticator_attr, value) ∷ back))
      × (has_ma front ≡ false)
unfolding has_ma
split_ma [] h = absurd (cc h)
split_ma ((t, v) ∷ xs) h = elim (Bool-cases (t == message_authenticator_attr)) [
  | inl e ↦ let same : t ≡ 80 = ground arith in ([], v, xs, rw same, refl)
  | inr e ↦
      let (front, value, back, split, clean) = split_ma xs (rw (e) at h) in
      ((t, v) ∷ front, value, back, rw split, rw (e) clean)
]

-- Zeroing the 16 octets at the value's offset zeroes the value on the wire.
pub overwrite-wire :
    (front back : List (ℕ × Bytes)) (t : ℕ) (old new : Bytes)
    → length old ≡ length new
    → overwrite (length (wire front) + 2) new (wire (front ++ ((t, old) ∷ back)))
      ≡ wire (front ++ ((t, new) ∷ back))
overwrite-wire front back t old new e =
    let head = λ (v : Bytes). wire front ++ (t ∷ (length v + 2) ∷ []) in
    let shape : (v : Bytes) → wire (front ++ ((t, v) ∷ back)) ≡ head v ++ (v ++ wire back) = λ v.
      wire-append front ((t, v) ∷ back)
      ∙ sym (append_assoc (wire front) (t ∷ (length v + 2) ∷ []) (v ++ wire back)) in
    rw (shape old, shape new)
      (overwrite-append (length (wire front) + 2) (head old) old new (wire back)
          (omega (arith, length-append (wire front) (t ∷ (length old + 2) ∷ []))) e
        ∙ ap (λ (n : ℕ). (wire front ++ (t ∷ (n + 2) ∷ [])) ++ (new ++ wire back)) e)
