-- ===== src/Conversation/Runs.antt =====
-- The conversations that C defines: what `converse` and `PamConversation` come to for an application
-- that keeps to the interface of PAM.
use pam_nps_mfa.Base.{
  ℕ, ◌≡◌, ◌≢◌, refl, Bool, true, false, Bool-cases, inl, inr, Option, none, some, List, length,
  ◌==◌, ltb, is_empty, ◌||◌, [], ◌∷◌,
}
use pam_nps_mfa.Base.Text.{Text, utf8}
use pam_nps_mfa.Conversation.{
  Message, Answer, ConvItem, null_item, no_function, function, Application, pam_max_num_msg,
  after_conv, converse, call_item, all_fit, clamp, info, prompt_echo_off, text_info_style,
  prompt_echo_off_style,
}
use pam_nps_mfa.Conversation.Disposal.{Block}
use pam_nps_mfa.Conversation.Exact.{Serves, after_conv-AllWiped}

-- No array of responses, or one with a string of its own or null for each message.
pub data IsAnswered (answer : Answer) (n : ℕ) : Type 0 where
  unanswered : answer.responses ≡ none → IsAnswered answer n
  answered :
      (ps : List (Option ℕ)) (bs : List (Option Block))
      → Serves answer n ps bs
      → IsAnswered answer n

-- The callback keeps to the interface, whatever it is shown.
abbrev pub IsLawful : ConvItem → Type 0
IsLawful (function conv) = (messages : List Message) → IsAnswered (conv messages) (length messages)
IsLawful _ = Unit

abbrev IsDefined : {A : Type 0} → Option A → Type 0
IsDefined o = (x : _) × (o ≡ some x)

after_conv-IsDefined :
    (messages : List Message) (answer : Answer)
    → IsAnswered answer (length messages)
    → IsDefined (after_conv messages answer)
unfolding after_conv
after_conv-IsDefined messages answer (unanswered e) = elim (Bool-cases (answer.code == 0)) [
  | inl z ↦ rw (z, e) (_, refl)
  | inr z ↦ rw (z, e) (_, refl)
]
after_conv-IsDefined messages answer (answered ps bs s) =
    let (m, runs, all_wiped, gone) = after_conv-AllWiped messages answer ps bs s in (_, runs)

call_item-IsDefined :
    (messages : List Message) (item : ConvItem)
    → IsLawful item
    → IsDefined (call_item messages item)
call_item-IsDefined messages null_item l = (_, refl)
call_item-IsDefined messages no_function l = (_, refl)
call_item-IsDefined messages (function conv) l = elim (Bool-cases (all_fit messages)) [
  | inl f ↦ rw f (after_conv-IsDefined messages (conv messages) (l messages))
  | inr f ↦ rw f (_, refl)
]

pub converse-IsDefined :
    (app : Application) (messages : List Message)
    → IsLawful app.pam_get_item.1
    → IsDefined (converse app messages)
unfolding converse
converse-IsDefined app messages l = elim (Bool-cases app.handle_is_null) [
  | inl n ↦ rw n (_, refl)
  | inr n ↦ elim (Bool-cases (is_empty messages || ltb pam_max_num_msg (length messages))) [
    | inl e ↦ rw (n, e) (_, refl)
    | inr e ↦ elim (Bool-cases (app.pam_get_item.0 == 0)) [
      | inr z ↦ rw (n, e, z) (_, refl)
      | inl z ↦ rw (n, e, z) (call_item-IsDefined messages app.pam_get_item.1 l)
    ]
  ]
]

pub info-defined :
    (app : Application) (silent : Bool) (t : Text)
    → IsLawful app.pam_get_item.1
    → info app silent t ≢ none
unfolding info
info-defined app true t l e = absurd (cc)
info-defined app false t l e =
    let (x, runs) = converse-IsDefined app ((text_info_style, clamp (utf8 t)) ∷ []) l in
    absurd (cc (rw runs at e))

pub prompt_echo_off-defined :
    (app : Application) (t : Text) → IsLawful app.pam_get_item.1 → prompt_echo_off app t ≢ none
unfolding prompt_echo_off
prompt_echo_off-defined app t l e =
    let (x, runs) = converse-IsDefined app ((prompt_echo_off_style, clamp (utf8 t)) ∷ []) l in
    absurd (cc (rw runs at e))
