-- ===== src/Conversation/Disposal.antt =====
-- What becomes of the responses of the application's callback.
use pam_nps_mfa.Base.{
  ℕ, ◌≡◌, ◌≢◌, refl, sym, ◌∙◌, ap, arith, Bool-cases, Option, none, some, List, [], ◌∷◌, inl, inr,
  All, Bytes, length, if◌then◌else◌,
}
use pam_nps_mfa.Base.Options.{◌>>=◌}
use pam_nps_mfa.Base.Text.{Text}
use pam_nps_mfa.Base.Utf8.{from_utf8}
use pam_nps_mfa.Memory.{Cell, Memory, put}
use pam_nps_mfa.Memory.Wipe.{
  HoldsString, wiped, to_bytes-HoldsString, wipe_and_free_string-HoldsString,
}
use pam_nps_mfa.Conversation.{wipe_responses, Gathered, gather, with_reply}

-- A string of a response, and what lies behind its NUL in the block.
abbrev pub Block : Type 0
Block = Bytes × Bytes

abbrev pub IsFresh : ℕ → List (Option ℕ) → Type 0
IsFresh p ps = All (λ q. q ≢ some p) ps

-- Each entry is null, or the address of a string of its own.
abbrev pub HoldsAll : Memory → List (Option ℕ) → List (Option Block) → Type 0
HoldsAll m [] [] = Unit
HoldsAll m (none ∷ ps) (none ∷ bs) = HoldsAll m ps bs
HoldsAll m (some p ∷ ps) (some (s, rest) ∷ bs) =
    HoldsString m p s rest × IsFresh p ps × HoldsAll m ps bs
HoldsAll m _ _ = ⊥

abbrev pub AllWiped : Memory → List (Option ℕ) → List (Option Block) → Type 0
AllWiped m [] [] = Unit
AllWiped m (none ∷ ps) (none ∷ bs) = AllWiped m ps bs
AllWiped m (some p ∷ ps) (some (s, rest) ∷ bs) = (m.strings p ≡ wiped s rest) × AllWiped m ps bs
AllWiped m _ _ = ⊥

-- The replies, if every string is UTF-8.
abbrev pub decoded : List (Option Block) → Option (List (Option Text))
decoded [] = some []
decoded (none ∷ bs) = decoded bs >>= λ out. some (none ∷ out)
decoded (some (s, rest) ∷ bs) = from_utf8 s >>= λ t. decoded bs >>= λ out. some (some t ∷ out)

put-other : (p q : ℕ) (c : Cell) (strings : ℕ → Cell) → q ≢ p → put p c strings q ≡ strings q
put-other p q c strings h = ground arith

put-same : (p : ℕ) (c : Cell) (strings : ℕ → Cell) → put p c strings p ≡ c
put-same p c strings = ground arith

abbrev with_cell : Memory → ℕ → Cell → Memory
with_cell m p c = record m { strings = put p c m.strings }

HoldsAll-put :
    (m : Memory) (p : ℕ) (c : Cell) (ps : List (Option ℕ)) (bs : List (Option Block))
    → IsFresh p ps
    → HoldsAll m ps bs
    → HoldsAll (with_cell m p c) ps bs
HoldsAll-put m p c [] [] f h = tt
HoldsAll-put m p c (none ∷ ps) (none ∷ bs) (f, g) h = HoldsAll-put m p c ps bs g h
HoldsAll-put m p c (some q ∷ ps) (some (s, rest) ∷ bs) (f, g) ((h, n), fresh, k) =
    ((put-other p q c m.strings (λ e. f (ap some e)) ∙ h, n), fresh, HoldsAll-put m p c ps bs g k)
HoldsAll-put m p c [] (b ∷ bs) f h = absurd h
HoldsAll-put m p c (none ∷ ps) [] f h = absurd h
HoldsAll-put m p c (some q ∷ ps) [] f h = absurd h
HoldsAll-put m p c (none ∷ ps) (some b ∷ bs) f h = absurd h
HoldsAll-put m p c (some q ∷ ps) (none ∷ bs) f h = absurd h

-- The memory in the end: the strings were wiped and freed, and nothing else was touched.
pub record Disposed (m : Memory) (ps : List (Option ℕ)) (bs : List (Option Block)) (m' : Memory)
    : Type 0 where
  pub all_wiped : AllWiped m' ps bs
  pub untouched : (q : ℕ) → IsFresh q ps → m'.strings q ≡ m.strings q
  pub same_array : m'.array_live ≡ m.array_live

Disposed-some :
    (m m' : Memory) (p : ℕ) (s rest : Bytes) (ps : List (Option ℕ)) (bs : List (Option Block))
    → IsFresh p ps
    → Disposed (with_cell m p (wiped s rest)) ps bs m'
    → Disposed m (some p ∷ ps) (some (s, rest) ∷ bs) m'
Disposed-some m m' p s rest ps bs fresh d = record {
  all_wiped = (d.untouched p fresh ∙ put-same p (wiped s rest) m.strings, d.all_wiped);
  untouched = λ q f.
      d.untouched q f.1 ∙ put-other p q (wiped s rest) m.strings (λ e. f.0 (ap some (sym e)));
  same_array = d.same_array;
}

pub wipe_responses-Disposed :
    (m : Memory) (ps : List (Option ℕ)) (bs : List (Option Block))
    → HoldsAll m ps bs
    → (m' : Memory) × (wipe_responses (length ps) ps m ≡ some m') × Disposed m ps bs m'
unfolding wipe_responses
wipe_responses-Disposed m [] [] h =
    (m, refl, record { all_wiped = tt; untouched = λ q f. refl; same_array = refl })
wipe_responses-Disposed m (none ∷ ps) (none ∷ bs) h =
    let (m', run, d) = wipe_responses-Disposed m ps bs h in
    (
      m',
      run,
      record {
        all_wiped = d.all_wiped;
        untouched = λ q f. d.untouched q f.1;
        same_array = d.same_array;
      },
    )
wipe_responses-Disposed m (some p ∷ ps) (some (s, rest) ∷ bs) (h, fresh, k) =
    let (m', run, d) =
      wipe_responses-Disposed (with_cell m p (wiped s rest)) ps bs
        (HoldsAll-put m p (wiped s rest) ps bs fresh k) in
    (
      m',
      rw (wipe_and_free_string-HoldsString m p s rest h) run,
      Disposed-some m m' p s rest ps bs fresh d,
    )
wipe_responses-Disposed m [] (b ∷ bs) h = absurd h
wipe_responses-Disposed m (none ∷ ps) [] h = absurd h
wipe_responses-Disposed m (some q ∷ ps) [] h = absurd h
wipe_responses-Disposed m (none ∷ ps) (some b ∷ bs) h = absurd h
wipe_responses-Disposed m (some q ∷ ps) (none ∷ bs) h = absurd h

-- The replies that `converse` makes of what was gathered.
abbrev pub replies : Gathered → Option (List (Option Text))
replies g = if g.decode_failed then none else some g.out

with_reply-replies :
    (r : Option Text) (g : Gathered)
    → replies (with_reply r g) ≡ (r >>= λ t. replies g >>= λ out. some (some t ∷ out))
with_reply-replies none g = refl
with_reply-replies (some t) g = elim (Bool-cases g.decode_failed) [
  | inl b ↦ rw b refl
  | inr b ↦ rw b refl
]

with_reply-memory : (r : Option Text) (g : Gathered) → (with_reply r g).memory ≡ g.memory
with_reply-memory none g = refl
with_reply-memory (some t) g = refl

none_first-replies :
    (g : Gathered)
    → replies (record g { out = none ∷ g.out }) ≡ (replies g >>= λ out. some (none ∷ out))
none_first-replies g = elim (Bool-cases g.decode_failed) [ inl b ↦ rw b refl | inr b ↦ rw b refl ]

pub gather-Disposed :
    (m : Memory) (ps : List (Option ℕ)) (bs : List (Option Block))
    → HoldsAll m ps bs
    → (g : Gathered) × (gather (length ps) ps m ≡ some g)
      × (replies g ≡ decoded bs)
      × Disposed m ps bs g.memory
unfolding gather
gather-Disposed m [] [] h =
    (_, refl, refl, record { all_wiped = tt; untouched = λ q f. refl; same_array = refl })
gather-Disposed m (none ∷ ps) (none ∷ bs) h =
    let (g, run, r, d) = gather-Disposed m ps bs h in
    (
      record g { out = none ∷ g.out },
      rw run refl,
      none_first-replies g ∙ rw r refl,
      record {
        all_wiped = d.all_wiped;
        untouched = λ q f. d.untouched q f.1;
        same_array = d.same_array;
      },
    )
gather-Disposed m (some p ∷ ps) (some (s, rest) ∷ bs) (h, fresh, k) =
    let (g, run, r, d) =
      gather-Disposed (with_cell m p (wiped s rest)) ps bs
        (HoldsAll-put m p (wiped s rest) ps bs fresh k) in
    (
      with_reply (from_utf8 s) g,
      rw (wipe_and_free_string-HoldsString m p s rest h, to_bytes-HoldsString m p s rest h, run)
          refl,
      with_reply-replies (from_utf8 s) g ∙ rw r refl,
      rw (with_reply-memory (from_utf8 s) g) (Disposed-some m g.memory p s rest ps bs fresh d),
    )
gather-Disposed m [] (b ∷ bs) h = absurd h
gather-Disposed m (none ∷ ps) [] h = absurd h
gather-Disposed m (some q ∷ ps) [] h = absurd h
gather-Disposed m (none ∷ ps) (some b ∷ bs) h = absurd h
gather-Disposed m (some q ∷ ps) (none ∷ bs) h = absurd h
