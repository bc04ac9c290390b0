-- ===== src/Conversation/Exact.antt =====
-- `converse` on every path, against what the application's callback answers.
use pam_nps_mfa.Base.{
  ℕ, ◌≡◌, refl, ◌∙◌, ap, true, false, Bool-cases, Option, none, some, List, ◌==◌, inl, inr, length,
  ltb, is_empty, ◌||◌, if◌then◌else◌, Result, ok, err, ok_or,
}
use pam_nps_mfa.Base.Text.{Text}
use pam_nps_mfa.Memory.{Memory, free_array}
use pam_nps_mfa.Conversation.Disposal.{
  Block, HoldsAll, AllWiped, decoded, replies, wipe_responses-Disposed, gather-Disposed,
}
use pam_nps_mfa.Conversation.{
  pam_max_num_msg, Message, Answer, function, Application, wipe_and_free_responses, Gathered,
  Conversed, pam_conv_err, after_conv, converse, call_item, all_fit,
}

-- The callback's answer holds its responses as the conversation's interface asks: an array with an
-- entry for each message, whose strings are live, of their own and terminated.
pub record Serves (answer : Answer) (n : ℕ) (ps : List (Option ℕ)) (bs : List (Option Block))
    : Type 0 where
  pub handed_out : answer.responses ≡ some ps
  pub one_each : length ps ≡ n
  pub holds : HoldsAll answer.memory ps bs
  pub array_there : answer.memory.array_live ≡ true

abbrev pub replied_with : ℕ → List (Option Block) → Result (List (Option Text)) ℕ
replied_with code bs = if code == 0 then ok_or (decoded bs) pam_conv_err else err pam_conv_err

-- What `converse` came to: the callback did not run and there is no reply; or it did, every string
-- of the responses was filled with zeros and freed, the array was freed, and the replies are the
-- strings, if the callback returned 0 and all of them are UTF-8.
pub data IsDisposed (messages : List Message) (answer : Answer) (ps : List (Option ℕ))
    (bs : List (Option Block)) (c : Conversed) : Type 0 where
  not_run : (code : ℕ) → c ≡ (err code, none) → IsDisposed messages answer ps bs c
  run :
      (m : Memory)
      → c ≡ (replied_with answer.code bs, some (messages, m))
      → AllWiped m ps bs
      → m.array_live ≡ false
      → IsDisposed messages answer ps bs c

abbrev outcome : Gathered → Result (List (Option Text)) ℕ
outcome g = if g.decode_failed then err pam_conv_err else ok g.out

outcome-replies : (g : Gathered) → outcome g ≡ ok_or (replies g) pam_conv_err
outcome-replies g = elim (Bool-cases g.decode_failed) [ inl b ↦ rw b refl | inr b ↦ rw b refl ]

free_array-live :
    (m : Memory) → m.array_live ≡ true → free_array m ≡ some (record m { array_live = false })
unfolding free_array
free_array-live m h = rw h refl

module _ (messages : List Message) (answer : Answer) (ps : List (Option ℕ))
    (bs : List (Option Block)) where
  pub after_conv-AllWiped :
      Serves answer (length messages) ps bs
      → (m : Memory) × (after_conv messages answer
          ≡ some (replied_with answer.code bs, some (messages, m)))
        × AllWiped m ps bs
        × (m.array_live ≡ false)
  unfolding after_conv wipe_and_free_responses
  after_conv-AllWiped s = elim (Bool-cases (answer.code == 0)) [
    | inl z ↦
        let (g, gathers, r, d) = gather-Disposed answer.memory ps bs s.holds in
        let frees = free_array-live g.memory (d.same_array ∙ s.array_there) in
        (
          record g.memory { array_live = false },
          rw (z, s.handed_out, ← s.one_each, gathers, frees, ← r)
              (ap (λ o. some (o, some (messages, record g.memory { array_live = false })))
                (outcome-replies g)),
          d.all_wiped,
          refl,
        )
    | inr z ↦
        let (m, wipes, d) = wipe_responses-Disposed answer.memory ps bs s.holds in
        let frees = free_array-live m (d.same_array ∙ s.array_there) in
        (
          record m { array_live = false },
          rw (z, s.handed_out, ← s.one_each, wipes, frees) refl,
          d.all_wiped,
          refl,
        )
  ]

  call_item-IsDisposed :
      (conv : List Message → Answer)
      → conv messages ≡ answer
      → Serves answer (length messages) ps bs
      → (c : Conversed) × (call_item messages (function conv) ≡ some c)
        × IsDisposed messages answer ps bs c
  call_item-IsDisposed conv e s = elim (Bool-cases (all_fit messages)) [
    | inl f ↦
        let (m, runs, all_wiped, gone) = after_conv-AllWiped s in
        rw (f, e) (_, runs, run m refl all_wiped gone)
    | inr f ↦ (_, rw f refl, not_run pam_conv_err refl)
  ]

-- Where the application's callback answers as the conversation's interface asks, `converse` reads and
-- frees nothing that is not there, whatever code the callback returns; if the callback ran, every
-- response string was wiped and freed and the array was freed, and the result is the replies in their
-- order if the callback returned 0 and all of them are UTF-8, and PAM_CONV_ERR otherwise.
pub converse-IsDisposed :
    (app : Application) (messages : List Message) (conv : List Message → Answer)
    (ps : List (Option ℕ)) (bs : List (Option Block))
    → app.pam_get_item.1 ≡ function conv
    → Serves (conv messages) (length messages) ps bs
    → (c : Conversed) × (converse app messages ≡ some c)
      × IsDisposed messages (conv messages) ps bs c
unfolding converse
converse-IsDisposed app messages conv ps bs item s = elim (Bool-cases app.handle_is_null) [
  | inl n ↦ (_, rw n refl, not_run 4 refl)
  | inr n ↦ elim (Bool-cases (is_empty messages || ltb pam_max_num_msg (length messages))) [
    | inl l ↦ (_, rw (n, l) refl, not_run pam_conv_err refl)
    | inr l ↦ elim (Bool-cases (app.pam_get_item.0 == 0)) [
      | inr z ↦ (_, rw (n, l, z) refl, not_run pam_conv_err refl)
      | inl z ↦ rw (n, l, z, item) (call_item-IsDisposed messages (conv messages) ps bs conv refl s)
    ]
  ]
]
