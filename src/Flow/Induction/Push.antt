-- ===== src/Flow/Induction/Push.antt =====
-- Induction over `mschapv2_flow`.
use pam_nps_mfa.Base.{
  Bool, true, false, inl, inr, Option, some, Option-cases, List, [], ◌∷◌, Bytes, Result, ok, err,
  Result-cases,
}
use pam_nps_mfa.Primitives.{Primitives}
use pam_nps_mfa.World.{
  World, History, SocketAddr, TransportError, unreachable, io, or_return, else_return, say, send,
}
use pam_nps_mfa.Config.{Server, Config}
use pam_nps_mfa.Radius.{Code, access_reject}
use pam_nps_mfa.Radius.Parse.{ParsedResponse, parse_response, known_code}
use pam_nps_mfa.Radius.Packet.{fresh_request_authenticator}
use pam_nps_mfa.Mschap.Vsa.{MsChapError, password_expired, find_ms_chap_error, parse_ms_chap_error}
use pam_nps_mfa.Mschap.Exchange.{MsChapV2Request, generate_challenges}
use pam_nps_mfa.Flow.{AttemptContext, push_notice}
use pam_nps_mfa.Flow.Packets.{build_mschapv2_packet}
use pam_nps_mfa.Flow.Push.{
  notice_expired, rejected, by_code, mschapv2_response_outcome, notify_once, after_push, push_send,
  push_server, push_servers, mschapv2_flow,
}
use pam_nps_mfa.Flow.Induction.{
  IsKept, Keeps, fresh-Keeps, bind-Keeps, or_return-Keeps, else_return-Keeps, say-Keeps,
  fresh-Keeps, generate_challenges-Keeps, or_unreachable-Keeps,
}

module _ (c : Primitives) (w : World) (P : History → Type 0) (kept : IsKept w P) where
  notice_expired-Keeps : (e : MsChapError) (h : History) → P h → P (notice_expired c w e h)
  unfolding notice_expired
  notice_expired-Keeps password_expired h p = say-Keeps w P kept _ h p
  notice_expired-Keeps _ h p = p

  by_code-Keeps :
      (o : Option Code) (parsed : ParsedResponse) (request : MsChapV2Request)
      → Keeps w P kept (by_code c w o parsed request)
  unfolding by_code rejected
  by_code-Keeps (some access_reject) parsed request h p =
      elim (Option-cases (find_ms_chap_error parsed)) [
        | inl e ↦ rw (e, rejected) p
        | inr (d, e) ↦ rw (e, rejected) (notice_expired-Keeps (parse_ms_chap_error d) h p)
      ]
  by_code-Keeps _ parsed request h p = p

  outcome-Keeps :
      (d : Bytes) (request : MsChapV2Request)
      → Keeps w P kept (mschapv2_response_outcome c w d request)
  unfolding mschapv2_response_outcome
  outcome-Keeps d request h p = elim (Result-cases (parse_response d)) [
    | inl (r, e) ↦ rw (mschapv2_response_outcome, e) (by_code-Keeps (known_code r) r request h p)
    | inr (x, e) ↦ rw (mschapv2_response_outcome, e) p
  ]

  notify_once-Keeps : (sent : Bool) (addr : SocketAddr) → Keeps w P kept (notify_once c w sent addr)
  unfolding notify_once
  notify_once-Keeps true addr h p = p
  notify_once-Keeps false addr h p =
      else_return-Keeps w P kept (say w push_notice) _ (say-Keeps w P kept push_notice) h p

  after_push-Keeps :
      (server : Server) (request : MsChapV2Request) (result : Result Bytes TransportError)
      → Keeps w P kept (after_push c w server request result)
  unfolding after_push
  after_push-Keeps server request (err unreachable) h p = p
  after_push-Keeps server request (err TransportError.timeout) h p = p
  after_push-Keeps server request (err io) h p = p
  after_push-Keeps server request (ok d) h p = outcome-Keeps d request h p

  push_send-Keeps :
      (config : Config) (server : Server) (ra : Bytes) (request : MsChapV2Request) (packet : Bytes)
      (sent : Bool)
      → Keeps w P kept (push_send c w config server ra request packet sent)
  unfolding push_send send
  push_send-Keeps config server ra request packet sent =
      bind-Keeps w P kept (notify_once c w sent server.addr) _ (notify_once-Keeps sent server.addr)
        (λ u h p. after_push-Keeps server request _ _ (kept.on_exchange h server.addr packet _ p))

  push_server-Keeps :
      (ctx : AttemptContext) (config : Config) (server : Server) (sent : Bool)
      → Keeps w P kept (push_server c w ctx config server sent)
  unfolding push_server
  push_server-Keeps ctx config server sent =
      bind-Keeps w P kept (else_return (fresh_request_authenticator w) _) _
        (else_return-Keeps w P kept _ _ (fresh-Keeps w P kept))
        (λ ra.
          bind-Keeps w P kept (else_return (generate_challenges w) _) _
            (else_return-Keeps w P kept _ _ (generate_challenges-Keeps w P kept))
            (λ challenges.
              bind-Keeps w P kept
                (or_return (build_mschapv2_packet c ctx.username _ _ ra config _) _) _
                (or_return-Keeps w P kept _ _)
                (λ packet. push_send-Keeps config server ra _ packet sent)))

  push_servers-Keeps :
      (ctx : AttemptContext) (config : Config) (servers : List Server) (sent : Bool)
      → Keeps w P kept (push_servers c w ctx config servers sent)
  unfolding push_servers
  push_servers-Keeps ctx config [] sent h p = p
  push_servers-Keeps ctx config (server ∷ rest) sent h p =
      bind-Keeps w P kept (push_server c w ctx config server sent) _
        (push_server-Keeps ctx config server sent) (push_servers-Keeps ctx config rest) h p

  pub mschapv2_flow-Keeps :
      (ctx : AttemptContext) (config : Config) → Keeps w P kept (mschapv2_flow c w ctx config)
  unfolding mschapv2_flow
  mschapv2_flow-Keeps ctx config =
      or_unreachable-Keeps w P kept (push_servers c w ctx config config.servers false)
        (push_servers-Keeps ctx config config.servers false)
