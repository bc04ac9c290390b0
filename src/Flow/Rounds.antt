-- ===== src/Flow/Rounds.antt =====
-- crates/pam-ffi/src/flow.rs: `pap_flow` and `pap_rounds`, and `prompt_response` of conversation.rs.
pub mod Conversation
pub mod Safety
pub mod Bounds
pub mod Asks
pub mod Requests
use pam_nps_mfa.Base.{
  ℕ, zero, suc, Bool, true, false, Option, none, some, List, [], ◌∷◌, Bytes, get_or, is_empty,
  if◌then◌else◌, Result, ok, err,
}
use pam_nps_mfa.Base.Text.{Text, text, utf8}
use pam_nps_mfa.Primitives.{Primitives}
use pam_nps_mfa.World.{
  World, Step, History, TransportError, ConvError, unreachable, io, ◌>>=◌, ◌>>◌, pure, or_return,
  else_return, ask, send, SocketAddr,
}
use pam_nps_mfa.Config.{Server, Config}
use pam_nps_mfa.Radius.{access_accept, access_reject, access_challenge, Code}
use pam_nps_mfa.Radius.Parse.{ParsedResponse, parse_response, known_code}
use pam_nps_mfa.Radius.Packet.{fresh_request_authenticator}
use pam_nps_mfa.Radius.Binding.{verify_response}
use pam_nps_mfa.Pap.{
  Challenge, from_response, build_response, try_hide_password, sanitize_reply_message,
}
use pam_nps_mfa.Flow.{
  AuthReport, AttemptContext, report_of, with_server, PamOutcome, auth_err, unavail, conv_err,
  Reason, rng_failure, encode_failure, conv_error, io_error, bad_response, reject, unexpected_code,
  password_unrepresentable, bad_challenge, challenge_unanswerable, empty_otp, max_rounds,
  transport_error, max_challenge_rounds,
}
use pam_nps_mfa.Flow.Packets.{build_pap_packet}
use pam_nps_mfa.Flow.Push.{binding_of, or_unreachable}

abbrev pub default_otp_prompt : Text
default_otp_prompt = text "Verification code: "

-- `Round`
pub data Round : Type 0 where
  done : AuthReport → Round
  challenge : Challenge → Round

-- The match on `parsed.known_code()` of `pap_rounds`.
unfoldable pub round_of : Option Code → ParsedResponse → Round
round_of (some access_accept) parsed = done (report_of PamOutcome.success Reason.success)
round_of (some access_reject) parsed = done (report_of auth_err reject)
round_of (some access_challenge) parsed = elim (from_response parsed) [
  | ok ch ↦ challenge ch
  | err _ ↦ done (report_of auth_err bad_challenge)
]
round_of _ parsed = done (report_of auth_err unexpected_code)

-- `return`s the report of a decided round.
unfoldable pub undecided : Round → Step AuthReport Challenge
undecided (done report) h = (err report, h)
undecided (challenge ch) h = (ok ch, h)

-- `if code.is_empty() { return .. }`
unfoldable pub nonempty_code : Text → Step AuthReport (Unit {0})
nonempty_code [] h = (err (report_of auth_err empty_otp), h)
nonempty_code (x ∷ code) h = (ok tt, h)

-- The prompt of `prompt_response`: the network's text, sanitized, or the default.
abbrev pub prompt_text : Text → Text
prompt_text network_text =
    let sanitized = sanitize_reply_message (utf8 network_text) in
    if is_empty sanitized then default_otp_prompt else sanitized

module _ (w : World) where
  -- `prompt_response`
  unfoldable pub prompt_response : Text → Step ConvError Text
  unfolding ask
  prompt_response network_text = ask w (prompt_text network_text)

module _ (c : Primitives) (w : World) where
  -- From the challenge on: prompt, answer, and wait for the next response of the same server.
  unfoldable pub answer_challenge :
      AttemptContext → Config → SocketAddr → Bytes → Challenge → Step AuthReport Bytes
  unfolding prompt_response nonempty_code
  answer_challenge ctx config server_addr secret ch = do
    code ← else_return (prompt_response w ch.prompt) (report_of conv_err conv_error)
    nonempty_code code
    ra ← else_return (fresh_request_authenticator w) (report_of unavail rng_failure)
    let id = get_or ra 0 0
    follow_up ←
        or_return (build_response c ch id ra (utf8 ctx.username) (utf8 code) secret)
          (report_of auth_err challenge_unanswerable)
    else_return
        (send w server_addr follow_up
          (λ datagram. verify_response c (binding_of config ra) datagram secret))
        (report_of unavail transport_error)

  -- One round of the `for` loop: the next response, or the report that ends the attempt.
  unfoldable pub pap_round :
      AttemptContext → Config → SocketAddr → Bytes → Bytes → Step AuthReport Bytes
  unfolding undecided round_of answer_challenge
  pap_round ctx config server_addr secret response = do
    parsed ← or_return (parse_response response) (report_of unavail bad_response)
    ch ← undecided (round_of (known_code parsed) parsed)
    answer_challenge ctx config server_addr secret ch

  -- The loop, with the rounds left.
  unfoldable pub pap_loop :
      AttemptContext → Config → SocketAddr → Bytes → ℕ → Bytes → Step AuthReport Bytes
  unfolding pap_round
  pap_loop ctx config server_addr secret zero response = pure response
  pap_loop ctx config server_addr secret (suc rounds) response = do
    next ← pap_round ctx config server_addr secret response
    pap_loop ctx config server_addr secret rounds next

  -- Behind the loop: the server demanded more rounds than are allowed.
  abbrev pub or_max_rounds : Result Bytes AuthReport × History → AuthReport × History
  or_max_rounds (err report, h) = (report, h)
  or_max_rounds (ok _, h) = (report_of auth_err max_rounds, h)

  unfoldable pub pap_rounds :
      AttemptContext → Config → SocketAddr → Bytes → Bytes → History → AuthReport × History
  unfolding pap_loop
  pap_rounds ctx config server_addr secret response h =
      or_max_rounds (pap_loop ctx config server_addr secret max_challenge_rounds response h)

  -- The match on what the first `exchange` with a server returned.
  unfoldable pub after_send :
      AttemptContext → Config → Server → Result Bytes TransportError → Step AuthReport (Unit {0})
  unfolding pap_rounds
  after_send ctx config server (err unreachable) h = (ok tt, h)
  after_send ctx config server (err TransportError.timeout) h =
      (err (with_server server.addr (report_of unavail Reason.timeout)), h)
  after_send ctx config server (err io) h =
      (err (with_server server.addr (report_of unavail io_error)), h)
  after_send ctx config server (ok response) h =
      let (r, h') = pap_rounds ctx config server.addr (utf8 server.secret) response h in
      (err (with_server server.addr r), h')

  -- One round of the loop over `config.servers`.
  unfoldable pub pap_server : AttemptContext → Config → Server → Step AuthReport (Unit {0})
  unfolding after_send
  pap_server ctx config server = do
    let secret = utf8 server.secret
    ra ←
        else_return (fresh_request_authenticator w)
          (with_server server.addr (report_of unavail rng_failure))
    let id = get_or ra 0 0
    hidden ←
        or_return (try_hide_password c (utf8 ctx.password) secret ra)
          (with_server server.addr (report_of auth_err password_unrepresentable))
    packet ←
        or_return (build_pap_packet c ctx.username hidden id ra config secret)
          (with_server server.addr (report_of unavail encode_failure))
    λ h.
        let (result, h') =
          send w server.addr packet
            (λ datagram. verify_response c (binding_of config ra) datagram secret) h in
        after_send ctx config server result h'

  unfoldable pub pap_servers : AttemptContext → Config → List Server → Step AuthReport (Unit {0})
  unfolding pap_server
  pap_servers ctx config [] = pure tt
  pap_servers ctx config (server ∷ rest) = do
    pap_server ctx config server
    pap_servers ctx config rest

  unfoldable pub pap_flow : AttemptContext → Config → History → AuthReport × History
  unfolding pap_servers
  pap_flow ctx config h = or_unreachable (pap_servers ctx config config.servers h)
