-- ===== src/Flow/Push/Safety.antt =====
-- The requests that `mschapv2_flow` sends.
use pam_nps_mfa.Base.{
  ◌≡◌, refl, sym, Bool, false, inl, inr, Option, some, Option-cases, List, [], ◌∷◌, Bytes, All,
  Result, ok, err, Result-cases,
}
use pam_nps_mfa.Primitives.{Primitives}
use pam_nps_mfa.World.{World, History, exchanged, TransportError, unreachable, io, say, bind_result}
use pam_nps_mfa.Config.{Server, Config}
use pam_nps_mfa.Radius.{Code, access_reject}
use pam_nps_mfa.Radius.Parse.{ParsedResponse, parse_response, known_code}
use pam_nps_mfa.Mschap.Vsa.{MsChapError, parse_ms_chap_error, password_expired, find_ms_chap_error}
use pam_nps_mfa.Mschap.Exchange.{MsChapV2Request}
use pam_nps_mfa.Flow.{AuthReport, AttemptContext}
use pam_nps_mfa.Flow.Trace.{Quiet-exchanges, exchanges, WasUnreachable, IsCommitted}
use pam_nps_mfa.Flow.Push.{
  notice_expired, rejected, by_code, mschapv2_response_outcome, after_push, push_server,
  push_servers, mschapv2_flow, or_unreachable,
}
use pam_nps_mfa.Flow.Push.Run.{request_of, Run, nothing_sent, request_sent, push_server-Run}
use mathlib.Core.Path.{subst}

module _ (c : Primitives) (w : World) where
  notice_expired-exchanges :
      (e : MsChapError) (h : History) → exchanges (notice_expired c w e h) ≡ exchanges h
  unfolding notice_expired say
  notice_expired-exchanges password_expired h = refl
  notice_expired-exchanges _ h = refl

  by_code-exchanges :
      (o : Option Code) (r : ParsedResponse) (request : MsChapV2Request) (h : History)
      → exchanges (by_code c w o r request h).1 ≡ exchanges h
  unfolding by_code rejected
  by_code-exchanges (some access_reject) r request h = elim (Option-cases (find_ms_chap_error r)) [
    | inl e ↦ rw (e, rejected)
    | inr (d, e) ↦ rw (e, rejected) (notice_expired-exchanges (parse_ms_chap_error d) h)
  ]
  by_code-exchanges _ r request h = refl

  outcome-exchanges :
      (d : Bytes) (request : MsChapV2Request) (h : History)
      → exchanges (mschapv2_response_outcome c w d request h).1 ≡ exchanges h
  outcome-exchanges d request h = elim (Result-cases (parse_response d)) [
    | inl (r, e) ↦
        unfold mschapv2_response_outcome in
        rw (mschapv2_response_outcome, e) (by_code-exchanges (known_code r) r request h)
    | inr (x, e) ↦ unfold mschapv2_response_outcome in rw (mschapv2_response_outcome, e)
  ]

-- Exchanges after a round, or after the loop, that found only unreachable servers before it.
abbrev Post : {A : Type 0} → Result A AuthReport × History → Type 0
Post (ok _, h) = All WasUnreachable (exchanges h)
Post (err _, h) = IsCommitted (exchanges h)

IsCommitted-unreachable :
    (h : History) → All WasUnreachable (exchanges h) → IsCommitted (exchanges h)
IsCommitted-unreachable h u =
    elim (exchanges h) as (λ es. All WasUnreachable es → IsCommitted es) [
      | [] ↦ λ _. tt
      | x ∷ es ↦ λ v. v.1
    ]
      u

or_unreachable-IsCommitted :
    {A : Type 0} (p : Result A AuthReport × History)
    → Post p
    → IsCommitted (exchanges (or_unreachable p).1)
or_unreachable-IsCommitted (ok a, h) post = IsCommitted-unreachable h post
or_unreachable-IsCommitted (err e, h) post = post

Post-bind :
    {A B : Type 0} (p : Result A AuthReport × History)
    (f : A → History → Result B AuthReport × History)
    → Post p
    → ((a : A) (h : History) → All WasUnreachable (exchanges h) → Post (f a h))
    → Post (bind_result p f)
Post-bind (ok a, h) f post next = next a h post
Post-bind (err e, h) f post next = post

module _ (c : Primitives) (w : World) (ctx : AttemptContext) (config : Config) where
  after_push-Post :
      (server : Server) (request : MsChapV2Request) (packet : Bytes)
      (result : Result Bytes TransportError) (h : History)
      → All WasUnreachable (exchanges h)
      → Post (after_push c w server request result (exchanged server.addr packet result ∷ h))
  unfolding after_push
  after_push-Post server request packet (err unreachable) h u = (refl, u)
  after_push-Post server request packet (err TransportError.timeout) h u = u
  after_push-Post server request packet (err io) h u = u
  after_push-Post server request packet (ok d) h u =
      rw (outcome-exchanges c w d request (exchanged server.addr packet (ok d) ∷ h)) u

  Run-Post :
      (server : Server) (sent : Bool) (h : History) (p : Result Bool AuthReport × History)
      → Run c w ctx config server sent h p.0 p.1
      → All WasUnreachable (exchanges h)
      → Post p
  Run-Post server sent h (r, h') (nothing_sent report e fails grew) u =
      rw e (IsCommitted-unreachable h' (rw (Quiet-exchanges h h' grew) u))
  Run-Post server sent h (r, h') (request_sent before s e) u = subst Post (sym e) (
      after_push-Post server (request_of c w ctx config server s.ra s.challenges) s.packet s.result
        before (rw (Quiet-exchanges h before s.nothing_before) u))

  push_servers-Post :
      (servers : List Server) (sent : Bool) (h : History)
      → All WasUnreachable (exchanges h)
      → Post (push_servers c w ctx config servers sent h)
  unfolding push_servers
  push_servers-Post [] sent h u = u
  push_servers-Post (server ∷ rest) sent h u =
      Post-bind (push_server c w ctx config server sent h) (push_servers c w ctx config rest)
        (Run-Post server sent h (push_server c w ctx config server sent h)
          (push_server-Run c w ctx config server sent h) u)
        (λ sent' h'. push_servers-Post rest sent' h')

-- In an MSCHAPv2 attempt every exchange before the last returned Unreachable: after any other
-- result, which is an answer, a timeout or an error of the transport, no further request is sent.
pub mschapv2_flow-IsCommitted :
    (c : Primitives) (w : World) (ctx : AttemptContext) (config : Config)
    → IsCommitted (exchanges (mschapv2_flow c w ctx config []).1)
unfolding mschapv2_flow
mschapv2_flow-IsCommitted c w ctx config =
    or_unreachable-IsCommitted (push_servers c w ctx config config.servers false [])
      (push_servers-Post c w ctx config config.servers false [] tt)
