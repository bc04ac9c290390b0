-- ===== src/Flow/Push/Success.antt =====
-- The successes of `mschapv2_flow`.
use pam_nps_mfa.Base.{
  ◌≡◌, refl, sym, Bool, true, false, Bool-cases, inl, inr, Option, none, some, Option-cases, List,
  [], ◌∷◌, Bytes, Result, ok, err, Result-cases,
}
use pam_nps_mfa.Primitives.{Primitives}
use pam_nps_mfa.World.{World, History, exchanged, TransportError, unreachable, io, bind_result}
use pam_nps_mfa.Config.{Server, Config}
use pam_nps_mfa.Radius.{Code, access_request, access_accept, access_reject, access_challenge}
use pam_nps_mfa.Radius.Parse.{ParsedResponse, parse_response, known_code}
use pam_nps_mfa.Mschap.Vsa.{find_ms_chap_error}
use pam_nps_mfa.Mschap.Exchange.{MsChapV2Request, verify_access_accept}
use pam_nps_mfa.Flow.{AuthReport, AttemptContext, PamOutcome}
use pam_nps_mfa.Flow.Trace.{In}
use pam_nps_mfa.Flow.Push.{
  rejected, accepted, by_code, mschapv2_response_outcome, after_push, push_server, push_servers,
  mschapv2_flow, or_unreachable,
}
use pam_nps_mfa.Flow.Push.Run.{request_of, Sent, Run, nothing_sent, request_sent, push_server-Run}
use mathlib.Core.Path.{subst}

module _ (c : Primitives) where
  -- The server's answer made the attempt a success.
  pub record Accepted (request : MsChapV2Request) (d : Bytes) : Type 0 where
    pub response : ParsedResponse
    pub parsed : parse_response d ≡ ok response
    pub is_accept : known_code response ≡ some access_accept
    pub success_verifies : verify_access_accept c response request.expected_authenticator ≡ true

module _ (c : Primitives) (w : World) where
  by_code-success :
      (o : Option Code) (r : ParsedResponse) (request : MsChapV2Request) (h : History)
      → (by_code c w o r request h).0.outcome ≡ PamOutcome.success
      → (o ≡ some access_accept)
        × (verify_access_accept c r request.expected_authenticator ≡ true)
        × ((by_code c w o r request h).1 ≡ h)
  unfolding by_code accepted rejected
  by_code-success (some access_accept) r request h e =
      elim (Bool-cases (verify_access_accept c r request.expected_authenticator)) [
        | inl v ↦ (refl, v, refl)
        | inr v ↦ absurd (cc (rw (v) at e))
      ]
  by_code-success (some access_reject) r request h e = elim (Option-cases (find_ms_chap_error r)) [
    | inl n ↦ absurd (cc (rw (rejected, n) at e))
    | inr (d, n) ↦ absurd (cc (rw (rejected, n) at e))
  ]
  by_code-success (some access_request) r request h e = absurd (cc)
  by_code-success (some access_challenge) r request h e = absurd (cc)
  by_code-success none r request h e = absurd (cc)

  outcome-success :
      (d : Bytes) (request : MsChapV2Request) (h : History)
      → (mschapv2_response_outcome c w d request h).0.outcome ≡ PamOutcome.success
      → Accepted c request d × ((mschapv2_response_outcome c w d request h).1 ≡ h)
  unfolding mschapv2_response_outcome
  outcome-success d request h s = elim (Result-cases (parse_response d)) [
    | inl (r, e) ↦
        let (is_accept, success_verifies, same) =
          by_code-success (known_code r) r request h (rw (mschapv2_response_outcome, e) at s) in
        (
          record {
            response = r;
            parsed = e;
            is_accept = is_accept;
            success_verifies = success_verifies;
          },
          rw (mschapv2_response_outcome, e) same,
        )
    | inr (x, e) ↦ absurd (cc (rw (mschapv2_response_outcome, e) at s))
  ]

-- Why an MSCHAPv2 attempt succeeded: the last event is the answer of a configured server to a
-- request of this attempt, built from octets drawn in it; the answer passes the binding to that
-- request, is an Access-Accept, and its MS-CHAP2-Success verifies.
pub record PushEvidence (c : Primitives) (w : World) (ctx : AttemptContext) (config : Config)
    (servers : List Server) (report : AuthReport) (h' : History) : Type 0 where
  pub server : Server
  pub is_configured : In server servers
  pub is_deciding : report.server ≡ some server.addr
  pub notice_sent : Bool
  pub start : History
  pub before : History
  pub sent : Sent c w ctx config server notice_sent start before
  pub datagram : Bytes
  pub answered : sent.result ≡ ok datagram
  pub is_last : h' ≡ exchanged server.addr sent.packet (ok datagram) ∷ before
  pub accepted : Accepted c (request_of c w ctx config server sent.ra sent.challenges) datagram

module _ (c : Primitives) (w : World) (ctx : AttemptContext) (config : Config) where
  abbrev SuccessPost : {A : Type 0} → List Server → Result A AuthReport × History → Type 0
  SuccessPost servers (ok _, h) = Unit {0}
  SuccessPost servers (err report, h) =
      report.outcome ≡ PamOutcome.success → PushEvidence c w ctx config servers report h

  after_push-success :
      (server : Server) (sent : Bool) (h before : History)
      (s : Sent c w ctx config server sent h before) (result : Result Bytes TransportError)
      → s.result ≡ result
      → SuccessPost (server ∷ []) (
          after_push c w server
            (request_of c w ctx config server s.ra s.challenges)
            result
            (exchanged server.addr s.packet result ∷ before))
  unfolding after_push
  after_push-success server sent h before s (err unreachable) e = tt
  after_push-success server sent h before s (err TransportError.timeout) e = λ q. absurd (cc)
  after_push-success server sent h before s (err io) e = λ q. absurd (cc)
  after_push-success server sent h before s (ok d) e = λ q.
      let request = request_of c w ctx config server s.ra s.challenges in
      let (why, same) =
        outcome-success c w d request (exchanged server.addr s.packet (ok d) ∷ before) q in
      record {
        server = server;
        is_configured = inl refl;
        is_deciding = refl;
        notice_sent = sent;
        start = h;
        before = before;
        sent = s;
        datagram = d;
        answered = e;
        is_last = same;
        accepted = why;
      }

  Run-success :
      (server : Server) (sent : Bool) (h : History) (p : Result Bool AuthReport × History)
      → Run c w ctx config server sent h p.0 p.1
      → SuccessPost (server ∷ []) p
  Run-success server sent h (r, h') (nothing_sent report e fails grew) =
      rw e (λ q. absurd (fails q))
  Run-success server sent h (r, h') (request_sent before s e) =
      subst (SuccessPost (server ∷ [])) (sym e)
        (after_push-success server sent h before s s.result refl)

  -- A later server of the list is a server of the list.
  PushEvidence-mono :
      (servers more : List Server) (report : AuthReport) (h : History)
      → ((s : Server) → In s servers → In s more)
      → PushEvidence c w ctx config servers report h
      → PushEvidence c w ctx config more report h
  PushEvidence-mono servers more report h sub v = record {
    server = v.server;
    is_configured = sub v.server v.is_configured;
    is_deciding = v.is_deciding;
    notice_sent = v.notice_sent;
    start = v.start;
    before = v.before;
    sent = v.sent;
    datagram = v.datagram;
    answered = v.answered;
    is_last = v.is_last;
    accepted = v.accepted;
  }

  success-bind :
      (server : Server) (rest : List Server) (p : Result Bool AuthReport × History)
      (f : Bool → History → Result Bool AuthReport × History)
      → SuccessPost (server ∷ []) p
      → ((b : Bool) (h : History) → SuccessPost rest (f b h))
      → SuccessPost (server ∷ rest) (bind_result p f)
  success-bind server rest (err e, h) f post next = λ q.
      PushEvidence-mono (server ∷ []) (server ∷ rest) e h
        (λ s m. elim m [ inl x ↦ inl x | inr y ↦ absurd y ]) (post q)
  success-bind server rest (ok b, h) f post next = weaken (f b h) (next b h)
    where
      weaken :
          (p : Result Bool AuthReport × History)
          → SuccessPost rest p
          → SuccessPost (server ∷ rest) p
      weaken (ok _, h) post = tt
      weaken (err e, h) post =
          λ q. PushEvidence-mono rest (server ∷ rest) e h (λ s m. inr m) (post q)

  push_servers-success :
      (servers : List Server) (sent : Bool) (h : History)
      → SuccessPost servers (push_servers c w ctx config servers sent h)
  unfolding push_servers
  push_servers-success [] sent h = tt
  push_servers-success (server ∷ rest) sent h =
      success-bind server rest (push_server c w ctx config server sent h)
        (push_servers c w ctx config rest)
        (Run-success server sent h (push_server c w ctx config server sent h)
          (push_server-Run c w ctx config server sent h))
        (push_servers-success rest)

  or_unreachable-success :
      (p : Result Bool AuthReport × History)
      → SuccessPost config.servers p
      → (or_unreachable p).0.outcome ≡ PamOutcome.success
      → PushEvidence c w ctx config config.servers (or_unreachable p).0 (or_unreachable p).1
  or_unreachable-success (ok a, h) post q = absurd (cc)
  or_unreachable-success (err e, h) post q = post q

-- An MSCHAPv2 attempt that succeeds ends with the answer of a configured server to a request of this
-- attempt: built from octets drawn in it, answered by an Access-Accept that passes the binding to
-- that request and whose MS-CHAP2-Success verifies against it.
pub mschapv2_flow-success :
    (c : Primitives) (w : World) (ctx : AttemptContext) (config : Config) (h : History)
    → (mschapv2_flow c w ctx config h).0.outcome ≡ PamOutcome.success
    → PushEvidence c w ctx config config.servers
        (mschapv2_flow c w ctx config h).0
        (mschapv2_flow c w ctx config h).1
unfolding mschapv2_flow
mschapv2_flow-success c w ctx config h =
    or_unreachable-success c w ctx config (push_servers c w ctx config config.servers false h)
      (push_servers-success c w ctx config config.servers false h)
