-- ===== src/Tests/Conversations.antt =====
-- A prompt that the user answers, through the application's callback.
use pam_nps_mfa.Base.{◌≡◌, refl, arith, false, some, [], ◌∷◌}
use pam_nps_mfa.Base.Text.{Text, text, utf8}
use pam_nps_mfa.Memory.{Memory}
use pam_nps_mfa.Conversation.{function, Application, Conversed, converse, clamp, prompt_echo_off}
use pam_nps_mfa.Conversation.Clamp.{IsLongestPrefix, clamp-IsLongestPrefix}
use pam_nps_mfa.Conversation.Disposal.{AllWiped}
use pam_nps_mfa.Conversation.Exact.{IsDisposed, converse-IsDisposed}
use pam_nps_mfa.Tests.Surroundings.{answers, blocks, serves}
use pam_nps_mfa.Conversation.Prompt.{asked, reply_of, prompt_echo_off-AllWiped}

abbrev terminal : Application
terminal = record { handle_is_null = false; pam_get_item = (0, function answers) }

abbrev question : Text
question = text "OTP"

converse-IsDisposed_example :
    (c : Conversed) × (converse terminal (asked question) ≡ some c)
    × IsDisposed (asked question) (answers (asked question)) (some 5 ∷ []) blocks c
converse-IsDisposed_example =
    converse-IsDisposed terminal (asked question) answers (some 5 ∷ []) blocks refl
      (serves (1, clamp (utf8 question)))

prompt_echo_off-AllWiped_example :
    (m : Memory) × (prompt_echo_off terminal question
      ≡ some (reply_of 0 blocks, some (asked question, m)))
    × AllWiped m (some 5 ∷ []) blocks
    × (m.array_live ≡ false)
prompt_echo_off-AllWiped_example =
    prompt_echo_off-AllWiped terminal question answers (some 5 ∷ []) blocks refl refl
      (omega arith, (omega arith, (omega arith, tt)))
      (λ e. omega arith, (λ e. omega arith, (λ e. omega arith, tt)))
      (serves (1, clamp (utf8 question)))

-- A letter of two octets.
abbrev accented : Text
accented = 233 ∷ []

clamp-IsLongestPrefix_example :
    (p : Text) × (clamp (utf8 accented) ≡ utf8 p) × IsLongestPrefix 511 accented p
clamp-IsLongestPrefix_example = clamp-IsLongestPrefix accented (omega arith, tt)
