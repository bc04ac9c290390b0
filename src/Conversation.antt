-- ===== src/Conversation.antt =====
-- crates/pam-ffi/src/ffi.rs, the conversation: `converse` over the application's callback and the
-- memory that it hands over; and crates/pam-ffi/src/conversation.rs, `clamp` and `PamConversation`.
-- A step that C leaves undefined is `none`.
pub mod Disposal
pub mod Exact
pub mod Clamp
pub mod Prompt
pub mod Runs
use pam_nps_mfa.Base.{
  ℕ, zero, suc, ◌<◌, Bool, true, false, not, ◌||◌, ◌&&◌, Option, none, some, List, [], ◌∷◌, Bytes,
  length, take, ltb, leb, ◌==◌, is_empty, if◌then◌else◌, Result, ok, err,
}
use pam_nps_mfa.Base.Text.{Text, utf8}
use pam_nps_mfa.Base.Utf8.{from_utf8}
use pam_nps_mfa.Memory.{Memory, has_nul, to_bytes, wipe_and_free_string, free_array}
use pam_nps_mfa.World.{ConvError, failed}
use pam_nps_mfa.Base.Options.{◌>>=◌}

-- A message's style and its text, in octets.
abbrev pub Message : Type 0
Message = ℕ × Bytes

-- What the callback returns: its code, the array of the responses if it set one (an entry is the
-- address of a string, or null), and the memory that it leaves.
pub record Answer : Type 0 where
  pub code : ℕ
  pub responses : Option (List (Option ℕ))
  pub memory : Memory

-- The item PAM_CONV: a null pointer, a `pam_conv` without a function, or with one.
pub data ConvItem : Type 0 where
  null_item no_function : ConvItem
  function : (List Message → Answer) → ConvItem

pub record Application : Type 0 where
  pub handle_is_null : Bool
  pub pam_get_item : ℕ × ConvItem

abbrev pub pam_max_num_msg : ℕ
pam_max_num_msg = 32

abbrev pub pam_max_msg_size : ℕ
pam_max_msg_size = 512

-- `wipe_and_free_responses`, behind which the array is freed too.
unfoldable pub wipe_responses : ℕ → List (Option ℕ) → Memory → Option Memory
unfolding wipe_and_free_string
wipe_responses zero ps m = some m
wipe_responses (suc n) [] m = none
wipe_responses (suc n) (none ∷ ps) m = wipe_responses n ps m
wipe_responses (suc n) (some p ∷ ps) m = do m' ← wipe_and_free_string m p; wipe_responses n ps m'

unfoldable pub wipe_and_free_responses : ℕ → List (Option ℕ) → Memory → Option Memory
unfolding wipe_responses free_array
wipe_and_free_responses n ps m = do m' ← wipe_responses n ps m; free_array m'

-- The replies copied so far, whether one was not UTF-8, and the memory.
pub record Gathered : Type 0 where
  pub out : List (Option Text)
  pub decode_failed : Bool
  pub memory : Memory

abbrev pub with_reply : Option Text → Gathered → Gathered
with_reply none g = record g { decode_failed = true }
with_reply (some s) g = record g { out = some s ∷ g.out }

-- The loop of `converse` over the responses.
unfoldable pub gather : ℕ → List (Option ℕ) → Memory → Option Gathered
unfolding wipe_and_free_string
gather zero ps m = some (record { out = []; decode_failed = false; memory = m })
gather (suc n) [] m = none
gather (suc n) (none ∷ ps) m = do g ← gather n ps m; some (record g { out = none ∷ g.out })
gather (suc n) (some p ∷ ps) m = do
  bytes ← to_bytes m p
  m' ← wipe_and_free_string m p
  g ← gather n ps m'
  some (with_reply (from_utf8 bytes) g)

-- What `converse` returns, with what the callback was given and the memory in the end, if it ran.
abbrev pub Conversed : Type 0
Conversed = Result (List (Option Text)) ℕ × Option (List Message × Memory)

abbrev pub pam_conv_err : ℕ
pam_conv_err = 19

-- From the callback's answer on.
unfoldable pub after_conv : List Message → Answer → Option Conversed
unfolding wipe_and_free_responses gather
after_conv messages answer =
    if not (answer.code == 0)
    then elim answer.responses [
      | none ↦ some (err pam_conv_err, some (messages, answer.memory))
      | some ps ↦ (do
        m ← wipe_and_free_responses (length messages) ps answer.memory
        some (err pam_conv_err, some (messages, m)))
    ]
    else elim answer.responses [
      | none ↦ some (err pam_conv_err, some (messages, answer.memory))
      | some ps ↦ (do
        g ← gather (length messages) ps answer.memory
        m ← free_array g.memory
        some (if g.decode_failed then err pam_conv_err else ok g.out, some (messages, m)))
    ]

-- A text fits, and `CString::new` takes it.
unfoldable pub all_fit : List Message → Bool
unfolding has_nul
all_fit [] = true
all_fit ((style, t) ∷ messages) =
    not (leb pam_max_msg_size (length t)) && not (has_nul t) && all_fit messages

abbrev pub refused : Option Conversed
refused = some (err pam_conv_err, none)

abbrev pub call_item : List Message → ConvItem → Option Conversed
call_item messages (function conv) =
    if all_fit messages then after_conv messages (conv messages) else refused
call_item messages _ = refused

unfoldable pub converse : Application → List Message → Option Conversed
unfolding after_conv all_fit
converse app messages =
    if app.handle_is_null
    then some (err 4, none)
    else if is_empty messages || ltb pam_max_num_msg (length messages)
    then refused
    else if not (app.pam_get_item.0 == 0)
    then refused
    else call_item messages app.pam_get_item.1

abbrev pub starts_char : Bytes → Bool
starts_char [] = true
starts_char (b ∷ bytes) = ltb b 0x80 || leb 0xc0 b

-- `str::is_char_boundary`, up to the length
unfoldable pub is_char_boundary : Bytes → ℕ → Bool
is_char_boundary bytes zero = true
is_char_boundary [] (suc i) = false
is_char_boundary (b ∷ bytes) (suc zero) = starts_char bytes
is_char_boundary (b ∷ bytes) (suc (suc i)) = is_char_boundary bytes (suc i)

-- The loop of `clamp`.
unfoldable pub down_to_boundary : Bytes → ℕ → ℕ
unfolding is_char_boundary
down_to_boundary bytes zero = 0
down_to_boundary bytes (suc i) =
    let lower = down_to_boundary bytes i in if is_char_boundary bytes (suc i) then suc i else lower

abbrev pub max_text : ℕ
max_text = 511

unfoldable pub clamp : Bytes → Bytes
unfolding down_to_boundary
clamp bytes =
    if leb (length bytes) max_text then bytes else take (down_to_boundary bytes max_text) bytes

abbrev pub prompt_echo_off_style : ℕ
prompt_echo_off_style = 1

abbrev pub text_info_style : ℕ
text_info_style = 4

abbrev pub shown :
    Result (List (Option Text)) ℕ × Option (List Message × Memory)
    → Result (Unit {0}) ConvError × Option (List Message × Memory)
shown (ok replies, trace) = (ok tt, trace)
shown (err code, trace) = (err failed, trace)

-- `Vec::pop`, `Option::flatten` and `ok_or`
abbrev pub last_reply : List (Option Text) → Result Text ConvError
last_reply [] = err failed
last_reply (none ∷ []) = err failed
last_reply (some s ∷ []) = ok s
last_reply (r ∷ r' ∷ replies) = last_reply (r' ∷ replies)

abbrev pub replied :
    Result (List (Option Text)) ℕ × Option (List Message × Memory)
    → Result Text ConvError × Option (List Message × Memory)
replied (ok replies, trace) = (last_reply replies, trace)
replied (err code, trace) = (err failed, trace)

-- `PamConversation::info`
unfoldable pub info :
    Application
    → Bool
    → Text
    → Option (Result (Unit {0}) ConvError × Option (List Message × Memory))
unfolding converse clamp
info app silent t = if silent then some (ok tt, none) else (do
  conversed ← converse app ((text_info_style, clamp (utf8 t)) ∷ [])
  some (shown conversed))

-- `PamConversation::prompt_echo_off`
unfoldable pub prompt_echo_off :
    Application → Text → Option (Result Text ConvError × Option (List Message × Memory))
unfolding converse clamp
prompt_echo_off app prompt = do
  conversed ← converse app ((prompt_echo_off_style, clamp (utf8 prompt)) ∷ [])
  some (replied conversed)
