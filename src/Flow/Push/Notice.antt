-- ===== src/Flow/Push/Notice.antt =====
-- The notice of the push, in the history of `mschapv2_flow`.
use pam_nps_mfa.Base.{
  ◌≡◌, sym, Bool, true, false, inl, inr, Option, some, Option-cases, List, [], ◌∷◌, Bytes, Result,
  ok, err, Result-cases,
}
use pam_nps_mfa.Primitives.{Primitives}
use pam_nps_mfa.World.{
  World, History, informed, exchanged, TransportError, unreachable, io, say, bind_result,
}
use pam_nps_mfa.Config.{Server, Config}
use pam_nps_mfa.Radius.{Code, access_reject}
use pam_nps_mfa.Radius.Parse.{ParsedResponse, parse_response, known_code}
use pam_nps_mfa.Mschap.Vsa.{MsChapError, parse_ms_chap_error, password_expired, find_ms_chap_error}
use pam_nps_mfa.Mschap.Exchange.{MsChapV2Request}
use pam_nps_mfa.Flow.{AuthReport, AttemptContext, push_notice}
use pam_nps_mfa.Flow.Trace.{In, Quiet, same, after_notice, Announced, Quiet-In, Quiet-Announced}
use pam_nps_mfa.Flow.Push.{
  notice_expired, rejected, by_code, mschapv2_response_outcome, after_push, push_server,
  push_servers, mschapv2_flow, or_unreachable,
}
use pam_nps_mfa.Flow.Push.Run.{request_of, Run, nothing_sent, request_sent, push_server-Run}
use mathlib.Core.Path.{subst}

module _ (c : Primitives) (w : World) where
  notice_expired-Quiet : (e : MsChapError) (h : History) → Quiet h (notice_expired c w e h)
  unfolding notice_expired say
  notice_expired-Quiet password_expired h = after_notice _ _ _ same
  notice_expired-Quiet _ h = same

  by_code-Quiet :
      (o : Option Code) (r : ParsedResponse) (request : MsChapV2Request) (h : History)
      → Quiet h (by_code c w o r request h).1
  unfolding by_code rejected
  by_code-Quiet (some access_reject) r request h = elim (Option-cases (find_ms_chap_error r)) [
    | inl e ↦ rw (e, rejected) same
    | inr (d, e) ↦ rw (e, rejected) (notice_expired-Quiet (parse_ms_chap_error d) h)
  ]
  by_code-Quiet _ r request h = same

  pub outcome-Quiet :
      (d : Bytes) (request : MsChapV2Request) (h : History)
      → Quiet h (mschapv2_response_outcome c w d request h).1
  unfolding mschapv2_response_outcome
  outcome-Quiet d request h = elim (Result-cases (parse_response d)) [
    | inl (r, e) ↦ rw (mschapv2_response_outcome, e) (by_code-Quiet (known_code r) r request h)
    | inr (x, e) ↦ rw (mschapv2_response_outcome, e) same
  ]

  -- With the notice out where the flow says so.
  abbrev Told : Result Bool AuthReport × History → Type 0
  Told (ok sent, h) = Announced push_notice h × (sent ≡ true → In (informed push_notice (ok tt)) h)
  Told (err _, h) = Announced push_notice h

  after_push-Told :
      (server : Server) (request : MsChapV2Request) (packet : Bytes)
      (result : Result Bytes TransportError) (before : History)
      → In (informed push_notice (ok tt)) before
      → Announced push_notice before
      → Told (after_push c w server request result (exchanged server.addr packet result ∷ before))
  unfolding after_push
  after_push-Told server request packet (err unreachable) before i a = ((i, a), λ q. inr i)
  after_push-Told server request packet (err TransportError.timeout) before i a = (i, a)
  after_push-Told server request packet (err io) before i a = (i, a)
  after_push-Told server request packet (ok d) before i a =
      Quiet-Announced push_notice (exchanged server.addr packet (ok d) ∷ before) _
        (outcome-Quiet d request (exchanged server.addr packet (ok d) ∷ before)) (i, a)

module _ (c : Primitives) (w : World) (ctx : AttemptContext) (config : Config) where
  Run-Told :
      (server : Server) (sent : Bool) (h : History) (p : Result Bool AuthReport × History)
      → Run c w ctx config server sent h p.0 p.1
      → Announced push_notice h
      → (sent ≡ true → In (informed push_notice (ok tt)) h)
      → Told c w p
  Run-Told server sent h (r, h') (nothing_sent report e fails grew) a t =
      rw e (Quiet-Announced push_notice h h' grew a)
  Run-Told server sent h (r, h') (request_sent before s e) a t =
      let told : In (informed push_notice (ok tt)) before = elim s.notified [
        | inl q ↦ Quiet-In _ h before s.nothing_before (t q)
        | inr i ↦ i
      ] in
      subst (Told c w) (sym e) (
        after_push-Told c w server (request_of c w ctx config server s.ra s.challenges) s.packet
          s.result before told (Quiet-Announced push_notice h before s.nothing_before a))

  Told-bind :
      (p : Result Bool AuthReport × History) (f : Bool → History → Result Bool AuthReport × History)
      → Told c w p
      → ((sent : Bool) (h : History)
          → Announced push_notice h
          → (sent ≡ true → In (informed push_notice (ok tt)) h)
          → Told c w (f sent h))
      → Told c w (bind_result p f)
  Told-bind (ok sent, h) f (a, t) next = next sent h a t
  Told-bind (err e, h) f a next = a

  push_servers-Told :
      (servers : List Server) (sent : Bool) (h : History)
      → Announced push_notice h
      → (sent ≡ true → In (informed push_notice (ok tt)) h)
      → Told c w (push_servers c w ctx config servers sent h)
  unfolding push_servers
  push_servers-Told [] sent h a t = (a, t)
  push_servers-Told (server ∷ rest) sent h a t =
      Told-bind (push_server c w ctx config server sent h) (push_servers c w ctx config rest)
        (Run-Told server sent h (push_server c w ctx config server sent h)
          (push_server-Run c w ctx config server sent h) a t)
        (push_servers-Told rest)

or_unreachable-Announced :
    (c : Primitives) (w : World) (p : Result Bool AuthReport × History)
    → Told c w p
    → Announced push_notice (or_unreachable p).1
or_unreachable-Announced c w (ok sent, h) (a, t) = a
or_unreachable-Announced c w (err e, h) a = a

-- An MSCHAPv2 attempt sends no request to any server before the conversation was given the notice of
-- the push and returned without an error.
pub mschapv2_flow-Announced :
    (c : Primitives) (w : World) (ctx : AttemptContext) (config : Config)
    → Announced push_notice (mschapv2_flow c w ctx config []).1
unfolding mschapv2_flow
mschapv2_flow-Announced c w ctx config =
    or_unreachable-Announced c w (push_servers c w ctx config config.servers false [])
      (push_servers-Told c w ctx config config.servers false [] tt (λ q. absurd (cc)))
