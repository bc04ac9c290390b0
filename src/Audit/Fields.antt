-- ===== src/Audit/Fields.antt =====
-- The fields of a rendered record of crates/audit/src/record.rs, as a reader splits them.
use pam_nps_mfa.Base.{
  ℕ, ◌≡◌, refl, sym, ap, ◌∙◌, Bool, false, ◌||◌, Bool-cases, ==_iff, inl, inr, List, [], ◌∷◌, ◌++◌,
  All, ◌==◌, if◌then◌else◌,
}
use pam_nps_mfa.Base.Text.{Text, text, is_whitespace, is_control}
use pam_nps_mfa.Audit.{
  AuthResult, success, denied, unavail, result_token, sanitize, AuditRecord, render,
}

-- The words of a line between its spaces, empty ones included, as a reader of the log splits it.
abbrev pub words : Text → List Text
words [] = [] ∷ []
words (c ∷ s) = if c == 0x20 then [] ∷ words s else prefix c (words s)
  where
    prefix : ℕ → List Text → List Text
    prefix c [] = (c ∷ []) ∷ []
    prefix c (w ∷ ws) = (c ∷ w) ∷ ws

abbrev pub IsSpaceless : Text → Type 0
IsSpaceless s = All (λ c. (c == 0x20) ≡ false) s

words-spaceless : (a : Text) → IsSpaceless a → words a ≡ a ∷ []
words-spaceless [] h = refl
words-spaceless (c ∷ a) (e, h) = rw (e, words-spaceless a h)

words-append : (a rest : Text) → IsSpaceless a → words (a ++ (0x20 ∷ rest)) ≡ a ∷ words rest
words-append [] rest h = refl
words-append (c ∷ a) rest (e, h) = rw (e, words-append a rest h)

-- `sanitize`'s test
abbrev is_replaced : ℕ → Bool
is_replaced c = is_whitespace c || is_control c

kept_is_no_space : (c : ℕ) → is_replaced c ≡ false → (c == 0x20) ≡ false
kept_is_no_space c k = elim (Bool-cases (c == 0x20)) [
  | inr n ↦ n
  | inl e ↦
      let same : is_replaced 0x20 ≡ false = ap is_replaced (sym ((==_iff c 0x20).0 e)) ∙ k in
      absurd (cc same)
]

sanitize-IsSpaceless : (s : Text) → IsSpaceless (sanitize s)
unfolding sanitize
sanitize-IsSpaceless [] = tt
sanitize-IsSpaceless (c ∷ s) = elim (Bool-cases (is_replaced c)) [
  | inl b ↦ rw b (refl, sanitize-IsSpaceless s)
  | inr b ↦ rw b (kept_is_no_space c b, sanitize-IsSpaceless s)
]

result_token-IsSpaceless : (r : AuthResult) → IsSpaceless (result_token r)
unfolding result_token
result_token-IsSpaceless success = (refl, (refl, (refl, (refl, (refl, (refl, (refl, tt)))))))
result_token-IsSpaceless denied = (refl, (refl, (refl, (refl, (refl, (refl, tt))))))
result_token-IsSpaceless unavail = (refl, (refl, (refl, (refl, (refl, (refl, (refl, tt)))))))

-- A rendered record splits at its spaces into exactly the seven fields of the schema, in order, each
-- with its own sanitized value, whatever the user name and the other values hold; the operation and
-- the protocol, which the program chooses, must hold no space.
pub words-render :
    (r : AuditRecord)
    → IsSpaceless r.op
    → IsSpaceless r.proto
    → words (render r)
      ≡ (text "op=" ++ r.op)
        ∷ (text "proto=" ++ r.proto)
        ∷ (text "server=" ++ sanitize r.server)
        ∷ (text "user=" ++ sanitize r.user)
        ∷ (text "result=" ++ result_token r.result)
        ∷ (text "reason=" ++ sanitize r.reason)
        ∷ (text "corr=" ++ sanitize r.corr)
        ∷ []
unfolding render
words-render r op proto = rw (
  words-append r.op _ op,
  words-append r.proto _ proto,
  words-append (sanitize r.server) _ (sanitize-IsSpaceless r.server),
  words-append (sanitize r.user) _ (sanitize-IsSpaceless r.user),
  words-append (result_token r.result) _ (result_token-IsSpaceless r.result),
  words-append (sanitize r.reason) _ (sanitize-IsSpaceless r.reason),
  words-spaceless (sanitize r.corr) (sanitize-IsSpaceless r.corr),
)
