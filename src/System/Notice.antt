-- ===== src/System/Notice.antt =====
-- The notice of the push, as the application's callback gets it.
use pam_nps_mfa.Base.{
  ℕ, ◌≡◌, ◌≢◌, refl, sym, ap, ◌∙◌, arith, ◌⊎◌, inl, inr, false, Bool-cases, Option, none, some,
  Option-cases, List, [], ◌∷◌, length, ok, err, ◌==◌, ltb, is_empty, ◌||◌,
}
use pam_nps_mfa.Base.Text.{Text, utf8}
use pam_nps_mfa.Primitives.{Primitives}
use pam_nps_mfa.World.{History, drew, informed, prompted, exchanged}
use pam_nps_mfa.Config.{Config}
use pam_nps_mfa.Conversation.{
  Message, Answer, ConvItem, null_item, no_function, function, Application, pam_max_num_msg,
  Conversed, after_conv, call_item, converse, all_fit, wipe_and_free_responses, info, clamp,
  text_info_style, shown,
}
use pam_nps_mfa.Conversation.Runs.{info-defined}
use pam_nps_mfa.Radius.Udp.{UdpTransport}
use pam_nps_mfa.Flow.{AttemptContext, push_notice}
use pam_nps_mfa.Flow.Trace.{In, Announced}
use pam_nps_mfa.Flow.Push.{mschapv2_flow}
use pam_nps_mfa.Flow.Push.Notice.{mschapv2_flow-Announced}
use pam_nps_mfa.Flow.Induction.{IsKept}
use pam_nps_mfa.Flow.Induction.Push.{mschapv2_flow-Keeps}
use pam_nps_mfa.System.{System, application, world_over, defined}
use pam_nps_mfa.Base.Options.{◌>>=◌}

-- The callback was run with the messages, and returned 0.
pub record WasRun (item : ℕ × ConvItem) (messages : List Message) : Type 0 where
  pub conv : List Message → Answer
  pub is_handed_out : item ≡ (0, function conv)
  pub is_answered : (conv messages).code ≡ 0

-- The conversation has replies.
abbrev HasReplies : Option Conversed → Type 0
HasReplies o = (replies : List (Option Text)) × (trace : _) × (o ≡ some (ok replies, trace))

after_conv-code :
    (messages : List Message) (answer : Answer)
    → HasReplies (after_conv messages answer)
    → answer.code ≡ 0
unfolding after_conv
after_conv-code messages answer (replies, trace, e) = elim (Bool-cases (answer.code == 0)) [
  | inl z ↦ ground arith
  | inr z ↦ elim (Option-cases answer.responses) [
    | inl n ↦ absurd (cc (rw (z, n) at e))
    | inr (ps, n) ↦
        elim (Option-cases (wipe_and_free_responses (length messages) ps answer.memory)) [
          | inl m ↦ absurd (cc (rw (z, n, m) at e))
          | inr (m, q) ↦ absurd (cc (rw (z, n, q) at e))
        ]
  ]
]

call_item-WasRun :
    (messages : List Message) (code : ℕ) (item : ConvItem)
    → code ≡ 0
    → HasReplies (call_item messages item)
    → WasRun (code, item) messages
call_item-WasRun messages code null_item z (replies, trace, e) = absurd (cc)
call_item-WasRun messages code no_function z (replies, trace, e) = absurd (cc)
call_item-WasRun messages code (function conv) z (replies, trace, e) =
    elim (Bool-cases (all_fit messages)) [
      | inr f ↦ absurd (cc (rw f at e))
      | inl f ↦ record {
        conv = conv;
        is_handed_out = rw z refl;
        is_answered = after_conv-code messages (conv messages) (replies, trace, rw f at e);
      }
    ]

converse-WasRun :
    (app : Application) (messages : List Message)
    → HasReplies (converse app messages)
    → WasRun app.pam_get_item messages
unfolding converse
converse-WasRun app messages (replies, trace, e) = elim (Bool-cases app.handle_is_null) [
  | inl n ↦ absurd (cc (rw n at e))
  | inr n ↦ elim (Bool-cases (is_empty messages || ltb pam_max_num_msg (length messages))) [
    | inl l ↦ absurd (cc (rw (n, l) at e))
    | inr l ↦ elim (Bool-cases (app.pam_get_item.0 == 0)) [
      | inr z ↦ absurd (cc (rw (n, l, z) at e))
      | inl z ↦
          call_item-WasRun messages app.pam_get_item.0 app.pam_get_item.1 (ground arith)
            (replies, trace, rw (n, l, z) at e)
    ]
  ]
]

-- What a notice without PAM_SILENT is sent as.
abbrev pub noticed : Text → List Message
noticed t = (text_info_style, clamp (utf8 t)) ∷ []

info-WasRun :
    (app : Application) (t : Text) (d : info app false t ≢ none)
    → (defined (info app false t) d).0 ≡ ok tt
    → WasRun app.pam_get_item (noticed t)
unfolding info
info-WasRun app t d e = shows (converse app (noticed t)) refl d e
  where
    shows :
        (o : Option Conversed)
        → converse app (noticed t) ≡ o
        → (d : (o >>= λ conversed. some (shown conversed)) ≢ none)
        → (defined (o >>= λ conversed. some (shown conversed)) d).0 ≡ ok tt
        → WasRun app.pam_get_item (noticed t)
    shows none q d e = absurd (d refl)
    shows (some (ok replies, trace)) q d e = converse-WasRun app (noticed t) (replies, trace, q)
    shows (some (err code, trace)) q d e = absurd (cc)

module _ (c : Primitives) (s : System) (t : UdpTransport) where
  -- The answers to the notices in a history are those of the conversation.
  abbrev Honest : History → Type 0
  Honest [] = Unit
  Honest (informed m r ∷ h) = (r ≡ (world_over s t false).info h m) × Honest h
  Honest (drew r ∷ h) = Honest h
  Honest (prompted m r ∷ h) = Honest h
  Honest (exchanged server request r ∷ h) = Honest h

  Honest-IsKept : IsKept (world_over s t false) Honest
  Honest-IsKept = record {
    on_draw = λ h p. p;
    on_info = λ h m p. (refl, p);
    on_prompt = λ h m p. p;
    on_exchange = λ h server request accept p. p;
  }

  -- At some point of the history the callback was run with the notice of the push.
  abbrev pub NoticeShown : History → Type 0
  NoticeShown [] = ⊥
  NoticeShown (informed m r ∷ h) = WasRun (s.conv_item h) (noticed push_notice) ⊎ NoticeShown h
  NoticeShown (drew r ∷ h) = NoticeShown h
  NoticeShown (prompted m r ∷ h) = NoticeShown h
  NoticeShown (exchanged server request r ∷ h) = NoticeShown h

  -- Each exchange has that behind it.
  abbrev pub Notified : History → Type 0
  Notified [] = Unit
  Notified (exchanged server request r ∷ h) = NoticeShown h × Notified h
  Notified (drew r ∷ h) = Notified h
  Notified (informed m r ∷ h) = Notified h
  Notified (prompted m r ∷ h) = Notified h

  In-NoticeShown : (h : History) → Honest h → In (informed push_notice (ok tt)) h → NoticeShown h
  In-NoticeShown [] p i = i
  In-NoticeShown (informed m r ∷ h) (e, p) (inl same) =
      let is_notice : push_notice ≡ m = cc in
      let is_ok : r ≡ ok tt = cc in
      inl (
        info-WasRun (application s h) push_notice
          (info-defined (application s h) false push_notice (s.conv_item_lawful h))
          (ap (λ x. (world_over s t false).info h x) is_notice ∙ sym e ∙ is_ok))
  In-NoticeShown (informed m r ∷ h) (e, p) (inr i) = inr (In-NoticeShown h p i)
  In-NoticeShown (drew r ∷ h) p (inl same) = absurd (cc)
  In-NoticeShown (drew r ∷ h) p (inr i) = In-NoticeShown h p i
  In-NoticeShown (prompted m r ∷ h) p (inl same) = absurd (cc)
  In-NoticeShown (prompted m r ∷ h) p (inr i) = In-NoticeShown h p i
  In-NoticeShown (exchanged server request r ∷ h) p (inl same) = absurd (cc)
  In-NoticeShown (exchanged server request r ∷ h) p (inr i) = In-NoticeShown h p i

  Announced-Notified : (h : History) → Honest h → Announced push_notice h → Notified h
  Announced-Notified [] p a = tt
  Announced-Notified (exchanged server request r ∷ h) p (i, a) =
      (In-NoticeShown h p i, Announced-Notified h p a)
  Announced-Notified (drew r ∷ h) p a = Announced-Notified h p a
  Announced-Notified (informed m r ∷ h) (e, p) a = Announced-Notified h p a
  Announced-Notified (prompted m r ∷ h) p a = Announced-Notified h p a

-- In an MSCHAPv2 attempt of a call without PAM_SILENT no request is handed to the transport before the
-- application's callback was run with the notice of the push and returned 0.
pub mschapv2_flow-Notified :
    (c : Primitives) (s : System) (t : UdpTransport) (ctx : AttemptContext) (config : Config)
    → Notified c s t (mschapv2_flow c (world_over s t false) ctx config []).1
mschapv2_flow-Notified c s t ctx config =
    Announced-Notified c s t (mschapv2_flow c (world_over s t false) ctx config []).1
      (mschapv2_flow-Keeps c (world_over s t false) (Honest c s t) (Honest-IsKept c s t) ctx config
        [] tt)
      (mschapv2_flow-Announced c (world_over s t false) ctx config)
