-- ===== src/Conversation/Prompt.antt =====
-- A prompt of `PamConversation`, from its text to the reply.
use pam_nps_mfa.Base.{
  ℕ, ◌≡◌, refl, ap, arith, true, false, Bool-cases, inl, inr, Option, Option-cases, none, some,
  List, [], ◌∷◌, ◌++◌, ◌==◌, All, if◌then◌else◌, Result, err,
}
use pam_nps_mfa.Base.Text.{Text, utf8}
use pam_nps_mfa.World.{ConvError, failed}
use pam_nps_mfa.Memory.{Memory}
use pam_nps_mfa.Memory.Nul.{HasNoNul, has_nul-utf8}
use pam_nps_mfa.Conversation.{
  Message, Answer, function, Application, all_fit, converse, clamp, prompt_echo_off,
  prompt_echo_off_style, last_reply, replied,
}
use pam_nps_mfa.Base.Words.Octets.{IsScalar}
use pam_nps_mfa.Conversation.Clamp.{clamp-IsLongestPrefix}
use pam_nps_mfa.Conversation.Disposal.{Block, AllWiped, decoded}
use pam_nps_mfa.Conversation.Exact.{Serves, replied_with, after_conv-AllWiped}

All-prefix : (p rest : Text) → HasNoNul (p ++ rest) → HasNoNul p
All-prefix [] rest h = tt
All-prefix (c ∷ p) rest (n, h) = (n, All-prefix p rest h)

-- What is sent for a prompt always fits.
all_fit-clamp :
    (t : Text)
    → All IsScalar t
    → HasNoNul t
    → all_fit ((prompt_echo_off_style, clamp (utf8 t)) ∷ []) ≡ true
unfolding all_fit
all_fit-clamp t scalars no_nul =
    let (p, is_prefix, l) = clamp-IsLongestPrefix t scalars in
    let kept = All-prefix p l.rest (rw l.splits at no_nul) in
    let short = l.short in rw (is_prefix, has_nul-utf8 p kept) (ground arith)

-- The reply to one prompt: its text, if the callback returned 0 and a string that is UTF-8.
abbrev pub reply_of : ℕ → List (Option Block) → Result Text ConvError
reply_of code bs =
    if code == 0
    then elim (decoded bs) [ none ↦ err failed | some out ↦ last_reply out ]
    else err failed

replied-replied_with :
    (code : ℕ) (bs : List (Option Block)) (trace : Option (List Message × Memory))
    → replied (replied_with code bs, trace) ≡ (reply_of code bs, trace)
replied-replied_with code bs trace = elim (Bool-cases (code == 0)) [
  | inr z ↦ rw z refl
  | inl z ↦ elim (Option-cases (decoded bs)) [
    | inl d ↦ rw (z, d) refl
    | inr (out, d) ↦ rw (z, d) refl
  ]
]

abbrev pub asked : Text → List Message
asked prompt = (prompt_echo_off_style, clamp (utf8 prompt)) ∷ []

-- A prompt without a NUL always reaches the application's callback, once, however long it is; the
-- reply is the text of the one response if the callback returned 0 and that is a string in UTF-8, and
-- a failure otherwise; and the response was wiped and freed with its array.
pub prompt_echo_off-AllWiped :
    (app : Application) (prompt : Text) (conv : List Message → Answer) (ps : List (Option ℕ))
    (bs : List (Option Block))
    → app.handle_is_null ≡ false
    → app.pam_get_item ≡ (0, function conv)
    → All IsScalar prompt
    → HasNoNul prompt
    → Serves (conv (asked prompt)) 1 ps bs
    → (m : Memory) × (prompt_echo_off app prompt
        ≡ some (reply_of (conv (asked prompt)).code bs, some (asked prompt, m)))
      × AllWiped m ps bs
      × (m.array_live ≡ false)
unfolding prompt_echo_off converse
prompt_echo_off-AllWiped app prompt conv ps bs handle item scalars no_nul s =
    let (m, runs, all_wiped, gone) =
      after_conv-AllWiped (asked prompt) (conv (asked prompt)) ps bs s in
    let fits = all_fit-clamp prompt scalars no_nul in
    (
      m,
      rw (handle, ap (λ q. q.0) item, ap (λ q. q.1) item, fits, runs)
          (ap some (replied-replied_with (conv (asked prompt)).code bs (some (asked prompt, m)))),
      all_wiped,
      gone,
    )
