-- ===== src/Flow/Push/Run.antt =====
-- One round of `mschapv2_flow`, on every path.
use pam_nps_mfa.Base.{
  Option, ◌≡◌, ◌≢◌, ◌⊎◌, refl, Bool, true, false, inl, inr, some, Option-cases, ◌∷◌, Bytes, get_or,
  Result, ok, err, Result-cases,
}
use pam_nps_mfa.Base.Text.{utf8}
use pam_nps_mfa.Primitives.{Primitives}
use pam_nps_mfa.World.{
  World, History, drew, informed, exchanged, TransportError, say, send, draw, bind_result,
  or_return,
}
use pam_nps_mfa.Config.{Server, Config}
use pam_nps_mfa.Radius.Packet.{fresh_request_authenticator}
use pam_nps_mfa.Radius.Binding.{verify_response}
use pam_nps_mfa.Mschap.Exchange.{Challenges, MsChapV2Request, generate_challenges, build_request}
use pam_nps_mfa.Flow.{
  AuthReport, AttemptContext, push_notice, PamOutcome, with_server, report_of, unavail,
  encode_failure,
}
use pam_nps_mfa.Flow.Packets.{build_mschapv2_packet}
use pam_nps_mfa.Flow.Trace.{Quiet, same, after_draw, after_notice, In}
use pam_nps_mfa.Flow.Push.{binding_of, notify_once, after_push, push_send, push_server}

module _ (c : Primitives) (w : World) (ctx : AttemptContext) (config : Config)
    (server : Server) where
  abbrev pub request_of : Bytes → Challenges → MsChapV2Request
  request_of ra challenges =
      build_request c (utf8 ctx.username) ctx.password challenges (get_or ra 0 0)

  -- What the transport may return for it.
  abbrev pub binds : Bytes → Bytes → Bool
  binds ra datagram = verify_response c (binding_of config ra) datagram (utf8 server.secret)

  -- The request that was sent, `before` it was sent in history `h`.
  pub record Sent (sent : Bool) (h : History) (before : History) : Type 0 where
    pub ra : Bytes
    pub challenges : Challenges
    pub packet : Bytes
    pub result : Result Bytes TransportError
    pub ra_drawn : In (drew (some ra)) before
    pub authenticator_challenge_drawn : In (drew (some challenges.authenticator_challenge)) before
    pub peer_challenge_drawn : In (drew (some challenges.peer_challenge)) before
    pub built :
        build_mschapv2_packet c ctx.username
          (request_of ra challenges)
          (get_or ra 0 0)
          ra
          config
          (utf8 server.secret)
        ≡ ok packet
    pub bound :
        (d : Bytes)
        → result ≡ ok d
        → verify_response c (binding_of config ra) d (utf8 server.secret) ≡ true
    pub is_answer : result ≡ w.exchange before server.addr packet (binds ra)
    pub notified : (sent ≡ true) ⊎ In (informed push_notice (ok tt)) before
    pub nothing_before : Quiet h before

  pub data Run (sent : Bool) (h : History) (r : Result Bool AuthReport) (h' : History)
      : Type 0 where
    nothing_sent :
        (report : AuthReport)
        → r ≡ err report
        → report.outcome ≢ PamOutcome.success
        → Quiet h h'
        → Run sent h r h'
    request_sent :
        (before : History) (s : Sent sent h before)
        → (r, h')
          ≡ after_push c w server
              (request_of s.ra s.challenges)
              s.result
              (exchanged server.addr s.packet s.result ∷ before)
        → Run sent h r h'

  push_send-Run :
      (ra : Bytes) (challenges : Challenges) (packet : Bytes) (sent : Bool) (h h0 : History)
      → build_mschapv2_packet c ctx.username
          (request_of ra challenges)
          (get_or ra 0 0)
          ra
          config
          (utf8 server.secret)
        ≡ ok packet
      → In (drew (some ra)) h
      → In (drew (some challenges.authenticator_challenge)) h
      → In (drew (some challenges.peer_challenge)) h
      → Quiet h0 h
      → Run sent h0
          (push_send c w config server ra (request_of ra challenges) packet sent h).0
          (push_send c w config server ra (request_of ra challenges) packet sent h).1
  unfolding push_send notify_once say send
  push_send-Run ra challenges packet true h h0 built d1 d2 d3 e =
      request_sent h
        (record {
          ra = ra;
          challenges = challenges;
          packet = packet;
          result = _;
          ra_drawn = d1;
          authenticator_challenge_drawn = d2;
          peer_challenge_drawn = d3;
          built = built;
          bound = w.exchange_accepted h server.addr packet _;
          is_answer = refl;
          notified = inl refl;
          nothing_before = e;
        })
        refl
  push_send-Run ra challenges packet false h h0 built d1 d2 d3 e =
      elim (Result-cases (w.info h push_notice)) [
        | inr (f, bad) ↦ rw (bad) (nothing_sent _ refl (λ q. cc) (after_notice _ _ _ e))
        | inl (u, shown) ↦ rw (shown) (
            request_sent (informed push_notice (ok u) ∷ h)
              (record {
                ra = ra;
                challenges = challenges;
                packet = packet;
                result = _;
                ra_drawn = inr d1;
                authenticator_challenge_drawn = inr d2;
                peer_challenge_drawn = inr d3;
                built = built;
                bound = w.exchange_accepted (informed push_notice (ok u) ∷ h) server.addr packet _;
                is_answer = refl;
                notified = inr (inl refl);
                nothing_before = after_notice _ _ _ e;
              })
              refl)
      ]

  abbrev challenges_of : Bytes → Bytes → Challenges
  challenges_of auth peer = record { authenticator_challenge = auth; peer_challenge = peer }

  abbrev after_draws : History → Bytes → Bytes → Bytes → History
  after_draws h ra auth peer = drew (some peer) ∷ drew (some auth) ∷ drew (some ra) ∷ h

  three_draws : (h : History) (r1 r2 r3 : Option Bytes) → Quiet h (drew r3 ∷ drew r2 ∷ drew r1 ∷ h)
  three_draws h r1 r2 r3 = after_draw _ _ (after_draw _ _ (after_draw _ _ same))

  -- The rest of a round, behind its three draws.
  abbrev rest_of : Bool → History → Bytes → Bytes → Bytes → Result Bool AuthReport × History
  rest_of sent h ra auth peer =
      bind_result
        (or_return
          (build_mschapv2_packet c ctx.username (request_of ra (challenges_of auth peer))
            (get_or ra 0 0) ra config (utf8 server.secret))
          (with_server server.addr (report_of unavail encode_failure)) (after_draws h ra auth peer))
        (λ packet.
          push_send c w config server ra (request_of ra (challenges_of auth peer)) packet sent)

  with_challenges :
      (sent : Bool) (h : History) (ra auth peer : Bytes)
      → Run sent h (rest_of sent h ra auth peer).0 (rest_of sent h ra auth peer).1
  with_challenges sent h ra auth peer =
      let request = request_of ra (challenges_of auth peer) in
      elim (Result-cases (
        build_mschapv2_packet c ctx.username request (get_or ra 0 0) ra config
          (utf8 server.secret))) [
            | inr (e, bad) ↦ rw bad (nothing_sent _ refl (λ q. cc) (three_draws h _ _ _))
            | inl (packet, built) ↦ rw built (
                push_send-Run ra (challenges_of auth peer) packet sent (after_draws h ra auth peer)
                  h built (inr (inr (inl refl))) (inr (inl refl)) (inl refl) (three_draws h _ _ _))
          ]

  -- Each round of the loop is such a run.
  pub push_server-Run :
      (sent : Bool) (h : History)
      → Run sent h
          (push_server c w ctx config server sent h).0
          (push_server c w ctx config server sent h).1
  unfolding push_server fresh_request_authenticator generate_challenges draw
  push_server-Run sent h = elim (Option-cases (w.getrandom h)) [
    | inl e1 ↦ rw e1 (nothing_sent _ refl (λ q. cc) (after_draw _ _ same))
    | inr (ra, e1) ↦
        let h1 = drew (some ra) ∷ h in
        elim (Option-cases (w.getrandom h1)) [
          | inl e2 ↦
              rw (e1, e2) (nothing_sent _ refl (λ q. cc) (after_draw _ _ (after_draw _ _ same)))
          | inr (auth, e2) ↦
              let h2 = drew (some auth) ∷ h1 in
              elim (Option-cases (w.getrandom h2)) [
                | inl e3 ↦ rw (e1, e2, e3) (nothing_sent _ refl (λ q. cc) (three_draws h _ _ _))
                | inr (peer, e3) ↦ rw (e1, e2, e3) (with_challenges sent h ra auth peer)
              ]
        ]
  ]
