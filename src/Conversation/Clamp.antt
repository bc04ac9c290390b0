-- ===== src/Conversation/Clamp.antt =====
-- The text that `clamp` leaves.
use pam_nps_mfa.Base.{
  ℕ, zero, suc, ◌+◌, ◌-◌, ◌/◌, ◌%◌, ◌≤◌, ◌<◌, ◌≡◌, refl, sym, ◌∙◌, ap, arith, true, false,
  Bool-cases, [], ◌∷◌, ◌++◌, append-nil, append_assoc, inl, inr, All, Bytes, length, length-append,
  take, take-append, ltb, leb, if◌then◌else◌,
}
use pam_nps_mfa.Base.Text.{Text, utf8, utf8_char}
use pam_nps_mfa.Base.Words.Octets.{IsScalar}
use pam_nps_mfa.Conversation.{starts_char, is_char_boundary, down_to_boundary, max_text, clamp}

-- An octet that goes on with a character.
abbrev Continues : ℕ → Type 0
Continues b = (0x80 ≤ b) × (b < 0xc0)

-- A character is an octet that starts one, and octets that go on with it.
utf8_char-Continues :
    (c : ℕ)
    → IsScalar c
    → (b : ℕ) × (bs : Bytes) × (utf8_char c ≡ b ∷ bs)
      × (starts_char (b ∷ bs) ≡ true)
      × All Continues bs
unfolding utf8_char
utf8_char-Continues c h = elim (Bool-cases (ltb c 0x80)) [
  | inl a ↦ (c, [], rw a refl, rw a refl, tt)
  | inr a ↦ elim (Bool-cases (ltb c 0x800)) [
    | inl b ↦ (
      0xc0 + c / 64,
      (0x80 + c % 64) ∷ [],
      rw (a, b) refl,
      ground arith,
      ((omega arith, omega arith), tt),
    )
    | inr b ↦ elim (Bool-cases (ltb c 0x10000)) [
      | inl d ↦ (
        0xe0 + c / 4096,
        (0x80 + c / 64 % 64) ∷ (0x80 + c % 64) ∷ [],
        rw (a, b, d) refl,
        ground arith,
        ((omega arith, omega arith), ((omega arith, omega arith), tt)),
      )
      | inr d ↦ (
        0xf0 + c / 262144,
        (0x80 + c / 4096 % 64) ∷ (0x80 + c / 64 % 64) ∷ (0x80 + c % 64) ∷ [],
        rw (a, b, d) refl,
        ground arith,
        (
          (omega arith, omega arith),
          ((omega arith, omega arith), ((omega arith, omega arith), tt)),
        ),
      )
    ]
  ]
]

boundary-Continues :
    (b : ℕ) (bs r : Bytes) (i : ℕ)
    → All Continues bs
    → i < length bs
    → is_char_boundary (b ∷ bs ++ r) (suc i) ≡ false
unfolding is_char_boundary
boundary-Continues b [] r i h l = absurd (omega arith)
boundary-Continues b (x ∷ bs) r zero ((lo, hi), h) l = ground arith
boundary-Continues b (x ∷ bs) r (suc i) (p, h) l = boundary-Continues x bs r i h (omega arith)

-- Behind the character the boundaries are those of the rest.
boundary-append :
    (b : ℕ) (bs r : Bytes) (i k : ℕ)
    → k ≡ length bs + i
    → is_char_boundary (b ∷ bs ++ r) (suc (suc k)) ≡ is_char_boundary r (suc i)
unfolding is_char_boundary
boundary-append b [] r i k e = ap (λ j. is_char_boundary r (suc j)) (omega (arith, e))
boundary-append b (x ∷ bs) r i zero e = absurd (omega arith)
boundary-append b (x ∷ bs) r i (suc k) e = boundary-append x bs r i k (omega arith)

boundary_at-append :
    (b : ℕ) (bs r : Bytes) → is_char_boundary (b ∷ bs ++ r) (suc (length bs)) ≡ starts_char r
unfolding is_char_boundary
boundary_at-append b [] r = refl
boundary_at-append b (x ∷ bs) r = boundary_at-append x bs r

down-Continues :
    (b : ℕ) (bs r : Bytes) (i : ℕ)
    → All Continues bs
    → i ≤ length bs
    → down_to_boundary (b ∷ bs ++ r) i ≡ 0
unfolding down_to_boundary
down-Continues b bs r zero h l = refl
down-Continues b bs r (suc i) h l =
    rw (boundary-Continues b bs r i h (omega arith)) (down-Continues b bs r i h (omega arith))

down-append :
    (b : ℕ) (bs r : Bytes) (i k : ℕ)
    → starts_char r ≡ true
    → k ≡ length bs + i
    → down_to_boundary (b ∷ bs ++ r) (suc k) ≡ suc (length bs + down_to_boundary r i)
unfolding down_to_boundary
down-append b bs r zero k h e =
    let here : k ≡ length bs = omega arith in rw (here, boundary_at-append b bs r, h) (omega arith)
down-append b bs r (suc i) zero h e = absurd (omega arith)
down-append b bs r (suc i) (suc k) h e = elim (Bool-cases (is_char_boundary r (suc i))) [
  | inl t ↦ rw (boundary-append b bs r i k (omega arith), t) (omega arith)
  | inr f ↦
      rw (boundary-append b bs r i k (omega arith), f) (down-append b bs r i k h (omega arith))
]

-- The longest run of characters from the start that fits.
abbrev pub fits : ℕ → Text → Text
fits e [] = []
fits e (c ∷ t) =
    let rest = fits (e - length (utf8_char c)) t in
    if leb (length (utf8_char c)) e then c ∷ rest else []

-- A prefix of the characters that fits, and the next one does not.
pub record IsLongestPrefix (e : ℕ) (t p : Text) : Type 0 where
  pub rest : Text
  pub splits : t ≡ p ++ rest
  pub short : length (utf8 p) ≤ e
  pub longest : (c : ℕ) (q : Text) → rest ≡ c ∷ q → e < length (utf8 p) + length (utf8_char c)

fits-IsLongestPrefix : (e : ℕ) (t : Text) → IsLongestPrefix e t (fits e t)
unfolding utf8
fits-IsLongestPrefix e [] = record {
  rest = [];
  splits = refl;
  short = omega arith;
  longest = λ c q h. absurd (cc);
}
fits-IsLongestPrefix e (c ∷ t) = elim (Bool-cases (leb (length (utf8_char c)) e)) [
  | inl l ↦
      let r = fits-IsLongestPrefix (e - length (utf8_char c)) t in
      let fit : length (utf8_char c) ≤ e = ground arith in
      let total = length-append (utf8_char c) (utf8 (fits (e - length (utf8_char c)) t)) in
      rw l (record {
        rest = r.rest;
        splits = ap (λ s. c ∷ s) r.splits;
        short = omega (arith, total, r.short, fit);
        longest = λ d q h. omega (arith, total, r.longest d q h, fit);
      })
  | inr l ↦ rw l (record {
    rest = c ∷ t;
    splits = refl;
    short = omega arith;
    longest = λ d q h.
        let same : c ≡ d = cc in
        let long : e < length (utf8_char c) = ground arith in rw (← same) (omega (arith, long));
  })
]

starts_char-utf8 : (t : Text) → All IsScalar t → starts_char (utf8 t) ≡ true
unfolding utf8
starts_char-utf8 [] h = refl
starts_char-utf8 (c ∷ t) (s, h) = let (b, bs, e, starts, k) = utf8_char-Continues c s in rw e starts

down-fits :
    (e : ℕ) (t : Text)
    → All IsScalar t
    → e ≤ length (utf8 t)
    → down_to_boundary (utf8 t) e ≡ length (utf8 (fits e t))
unfolding utf8 down_to_boundary
down-fits zero [] h l = refl
down-fits (suc e) [] h l = absurd (omega arith)
down-fits e (c ∷ t) (s, h) l =
    let (b, bs, shape, starts, k) = utf8_char-Continues c s in
    let size : length (utf8_char c) ≡ suc (length bs) = rw shape refl in
    let enough = length-append (utf8_char c) (utf8 t) in
    elim (Bool-cases (leb (length (utf8_char c)) e)) [
      | inl f ↦
          let i = e - length (utf8_char c) in
          let fit : length (utf8_char c) ≤ e = ground arith in
          let inner = down-fits i t h (omega arith) in
          let outer = down-append b bs (utf8 t) i (e - 1) (starts_char-utf8 t h) (omega arith) in
          let here : e ≡ suc (e - 1) = omega arith in
          let total = length-append (utf8_char c) (utf8 (fits i t)) in
          rw f (
            ap (λ j. down_to_boundary (utf8_char c ++ utf8 t) j) here
            ∙ ap (λ o. down_to_boundary (o ++ utf8 t) (suc (e - 1))) shape
            ∙ outer
            ∙ omega (arith, inner, total, size))
      | inr f ↦
          let long : e < length (utf8_char c) = ground arith in
          rw (f, shape) (down-Continues b bs (utf8 t) e k (omega arith))
    ]

utf8-append : (s t : Text) → utf8 (s ++ t) ≡ utf8 s ++ utf8 t
unfolding utf8
utf8-append [] t = refl
utf8-append (c ∷ s) t = rw (utf8-append s t) (sym (append_assoc (utf8_char c) (utf8 s) (utf8 t)))

-- A text is clamped to its longest prefix of whole characters with at most 511 octets.
pub clamp-IsLongestPrefix :
    (t : Text) → All IsScalar t → (p : Text) × (clamp (utf8 t) ≡ utf8 p) × IsLongestPrefix 511 t p
unfolding clamp
clamp-IsLongestPrefix t h = elim (Bool-cases (leb (length (utf8 t)) max_text)) [
  | inl f ↦ (
    t,
    rw f refl,
    record {
      rest = [];
      splits = sym (append-nil t);
      short = ground arith;
      longest = λ c q e. absurd (cc);
    },
  )
  | inr f ↦
      let r = fits-IsLongestPrefix 511 t in
      let p = fits 511 t in
      let octets : utf8 t ≡ utf8 p ++ utf8 r.rest = ap utf8 r.splits ∙ utf8-append p r.rest in
      (
        p,
        rw (f, down-fits 511 t h (ground arith))
            (ap (λ o. take (length (utf8 p)) o) octets
              ∙ take-append (length (utf8 p)) (utf8 p) (utf8 r.rest) refl),
        r,
      )
]
