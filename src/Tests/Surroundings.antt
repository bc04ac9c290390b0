-- ===== src/Tests/Surroundings.antt =====
-- A system for the runs: an application that answers, and a socket that hears from a server.
use pam_nps_mfa.Base.{
  refl, arith, true, false, Option, some, none, List, [], ◌∷◌, ◌++◌, Bytes, length, ok, inl,
}
use pam_nps_mfa.Base.Text.{text}
use pam_nps_mfa.Memory.{Memory, live}
use pam_nps_mfa.Conversation.{Message, Answer, function}
use pam_nps_mfa.Conversation.Disposal.{Block}
use pam_nps_mfa.Conversation.Exact.{Serves}
use pam_nps_mfa.Conversation.Runs.{IsAnswered, unanswered, answered}
use pam_nps_mfa.Radius.Udp.{Socket}
use pam_nps_mfa.Radius.Udp.Termination.{IsClock}
use pam_nps_mfa.System.{System}
use pam_nps_mfa.Tests.Fixtures.{ra, ra_length}

abbrev pub code : Bytes
code = text "42"

-- One response, at the address 5, with two octets behind its NUL.
abbrev pub heap : Memory
heap = record { strings = λ p. live (code ++ (0 ∷ 7 ∷ 7 ∷ [])); array_live = true }

-- One message is answered with the code, and more are refused.
abbrev pub answers : List Message → Answer
answers (m ∷ []) = record { code = 0; responses = some (some 5 ∷ []); memory = heap }
answers messages = record { code = 19; responses = none; memory = heap }

abbrev pub blocks : List (Option Block)
blocks = some (code, 7 ∷ 7 ∷ []) ∷ []

pub serves : (m : Message) → Serves (answers (m ∷ [])) 1 (some 5 ∷ []) blocks
serves m = record {
  handed_out = refl;
  one_each = refl;
  holds = ((refl, (λ e. omega arith, (λ e. omega arith, tt))), tt, tt);
  array_there = refl;
}

pub answers-IsAnswered : (messages : List Message) → IsAnswered (answers messages) (length messages)
answers-IsAnswered [] = unanswered refl
answers-IsAnswered (m ∷ []) = answered (some 5 ∷ []) blocks (serves m)
answers-IsAnswered (m ∷ m' ∷ messages) = unanswered refl

abbrev pub hearing : Bytes → Socket
hearing datagram = record {
  bind = ok tt;
  connect = λ server. ok tt;
  clock = length;
  set_read_timeout = λ log n. true;
  send = λ log request. ok tt;
  recv = λ log timeout. ok datagram;
}

pub hearing-IsClock : (datagram : Bytes) → IsClock (hearing datagram)
hearing-IsClock datagram = record {
  monotone = λ e log. omega arith;
  advances = λ n r log. omega arith;
}

abbrev pub online : Bytes → System
online datagram = record {
  handle_is_null = false;
  getrandom = λ h. some ra;
  getrandom_length = ra_length;
  conv_item = λ h. (0, function answers);
  conv_item_lawful = λ h. answers-IsAnswered;
  socket = λ h. hearing datagram;
  socket_clock = λ h. hearing-IsClock datagram;
  patience = 1;
  socket_settles = λ h request log. inl refl;
}
