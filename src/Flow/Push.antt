-- ===== src/Flow/Push.antt =====
-- crates/pam-ffi/src/flow.rs: `mschapv2_flow`. An early `return` of a report is the error of a
-- `Step`; `continue` is its result, the new value of `push_notice_sent`.
pub mod Run
pub mod Safety
pub mod Success
pub mod Notice
pub mod Requests
use pam_nps_mfa.Base.{
  ℕ, Bool, true, false, Option, none, some, List, [], ◌∷◌, Bytes, get_or, if◌then◌else◌, Result, ok,
  err,
}
use pam_nps_mfa.Base.Text.{Text, utf8}
use pam_nps_mfa.Primitives.{Primitives}
use pam_nps_mfa.World.{
  World, Step, History, TransportError, unreachable, io, ◌>>=◌, ◌>>◌, pure, or_return, else_return,
  say, send, SocketAddr,
}
use pam_nps_mfa.Config.{Server, Config}
use pam_nps_mfa.Radius.{access_accept, access_reject, Code}
use pam_nps_mfa.Radius.Parse.{ParsedResponse, parse_response, known_code}
use pam_nps_mfa.Radius.Packet.{fresh_request_authenticator}
use pam_nps_mfa.Radius.Binding.{RequestBinding, with_required, verify_response}
use pam_nps_mfa.Radius.Binding
use pam_nps_mfa.Mschap.Vsa.{find_ms_chap_error, parse_ms_chap_error, MsChapError, password_expired}
use pam_nps_mfa.Mschap.Exchange.{
  MsChapV2Request, generate_challenges, build_request, verify_access_accept,
}
use pam_nps_mfa.Flow.{
  AuthReport, AttemptContext, report_of, with_server, push_notice, password_expired_notice,
  PamOutcome, auth_err, unavail, conv_err, Reason, rng_failure, encode_failure, conv_error,
  all_unreachable, io_error, bad_response, mutual_auth_failed, reject, unexpected_code,
}
use pam_nps_mfa.Flow.Packets.{build_mschapv2_packet}

-- The binding that both flows give to the transport.
abbrev pub binding_of : Config → Bytes → RequestBinding
binding_of config request_authenticator =
    with_required (Binding.new (get_or request_authenticator 0 0) request_authenticator)
      config.require_message_authenticator

-- Behind the loop: every server was explicitly unreachable.
abbrev pub or_unreachable {ℓ} : {A : Type ℓ} → Result A AuthReport × History → AuthReport × History
or_unreachable (err report, h) = (report, h)
or_unreachable (ok _, h) = (report_of unavail all_unreachable, h)

module _ (c : Primitives) (w : World) where
  -- The Access-Reject branch: the notice is best effort, and its failure changes nothing.
  unfoldable pub notice_expired : MsChapError → History → History
  notice_expired password_expired h = (say w password_expired_notice h).1
  notice_expired _ h = h

  unfoldable pub rejected : ParsedResponse → History → AuthReport × History
  unfolding notice_expired
  rejected parsed h = elim (find_ms_chap_error parsed) [
    | some data' ↦ (report_of auth_err reject, notice_expired (parse_ms_chap_error data') h)
    | none ↦ (report_of auth_err reject, h)
  ]

  unfoldable pub accepted : ParsedResponse → MsChapV2Request → AuthReport
  accepted parsed request =
      if verify_access_accept c parsed request.expected_authenticator
      then report_of PamOutcome.success Reason.success
      else report_of auth_err mutual_auth_failed

  -- The match on `parsed.known_code()`.
  unfoldable pub by_code :
      Option Code → ParsedResponse → MsChapV2Request → History → AuthReport × History
  unfolding rejected accepted
  by_code (some access_accept) parsed request h = (accepted parsed request, h)
  by_code (some access_reject) parsed request h = rejected parsed h
  by_code _ parsed request h = (report_of auth_err unexpected_code, h)

  unfoldable pub mschapv2_response_outcome :
      Bytes → MsChapV2Request → History → AuthReport × History
  unfolding by_code
  mschapv2_response_outcome response request h = elim (parse_response response) [
    | err _ ↦ (report_of unavail bad_response, h)
    | ok parsed ↦ by_code (known_code parsed) parsed request h
  ]

  -- `if !push_notice_sent { .. }`
  unfoldable pub notify_once : Bool → SocketAddr → Step AuthReport (Unit {0})
  notify_once true addr = pure tt
  notify_once false addr =
      else_return (say w push_notice) (with_server addr (report_of conv_err conv_error))

  -- The match on what `exchange` returned.
  unfoldable pub after_push :
      Server → MsChapV2Request → Result Bytes TransportError → Step AuthReport Bool
  unfolding mschapv2_response_outcome
  after_push server request (err unreachable) h = (ok true, h)
  after_push server request (err TransportError.timeout) h =
      (err (with_server server.addr (report_of unavail Reason.timeout)), h)
  after_push server request (err io) h =
      (err (with_server server.addr (report_of unavail io_error)), h)
  after_push server request (ok response) h =
      let (r, h') = mschapv2_response_outcome response request h in
      (err (with_server server.addr r), h')

  -- From the notice on: what is sent, and under which binding.
  unfoldable pub push_send :
      Config → Server → Bytes → MsChapV2Request → Bytes → Bool → Step AuthReport Bool
  unfolding notify_once after_push send
  push_send config server ra request packet notice_sent = do
    notify_once notice_sent server.addr
    λ h.
        let (result, h') =
          send w server.addr packet
            (λ datagram. verify_response c (binding_of config ra) datagram (utf8 server.secret))
            h in
        after_push server request result h'

  -- One round of the loop over `config.servers`.
  unfoldable pub push_server : AttemptContext → Config → Server → Bool → Step AuthReport Bool
  unfolding push_send
  push_server ctx config server notice_sent = do
    let failed_rng = with_server server.addr (report_of unavail rng_failure)
    ra ← else_return (fresh_request_authenticator w) failed_rng
    challenges ← else_return (generate_challenges w) failed_rng
    let id = get_or ra 0 0
    let request = build_request c (utf8 ctx.username) ctx.password challenges id
    packet ←
        or_return (build_mschapv2_packet c ctx.username request id ra config (utf8 server.secret))
          (with_server server.addr (report_of unavail encode_failure))
    push_send config server ra request packet notice_sent

  unfoldable pub push_servers : AttemptContext → Config → List Server → Bool → Step AuthReport Bool
  unfolding push_server
  push_servers ctx config [] notice_sent = pure notice_sent
  push_servers ctx config (server ∷ rest) notice_sent = do
    sent ← push_server ctx config server notice_sent
    push_servers ctx config rest sent

  unfoldable pub mschapv2_flow : AttemptContext → Config → History → AuthReport × History
  unfolding push_servers
  mschapv2_flow ctx config h = or_unreachable (push_servers ctx config config.servers false h)
