-- ===== src/Flow/Rounds/Safety.antt =====
-- The servers that `pap_flow` contacts, and its successes.
use pam_nps_mfa.Base.{
  ◌≡◌, ◌≢◌, refl, true, inl, inr, some, Option-cases, List, [], ◌∷◌, Bytes, get_or, All, Result, ok,
  err, Result-cases,
}
use pam_nps_mfa.Base.Text.{utf8}
use pam_nps_mfa.Primitives.{Primitives}
use pam_nps_mfa.World.{
  World, History, drew, exchanged, TransportError, unreachable, io, draw, send, bind_result,
}
use pam_nps_mfa.Radius.{EncodeError}
use pam_nps_mfa.Config.{Server, Config}
use pam_nps_mfa.Radius.Packet.{fresh_request_authenticator}
use pam_nps_mfa.Radius.Binding.{verify_response}
use pam_nps_mfa.Pap.{try_hide_password}
use pam_nps_mfa.Flow.{AuthReport, AttemptContext, PamOutcome, max_challenge_rounds}
use pam_nps_mfa.Flow.Packets.{build_pap_packet}
use pam_nps_mfa.Flow.Trace.{
  exchanges, In, WasUnreachable, Owned, unreachable-Owned, unreachable-OwnedBy,
}
use pam_nps_mfa.Flow.Push.{binding_of, or_unreachable}
use pam_nps_mfa.Flow.Rounds.{
  pap_loop, or_max_rounds, pap_rounds, after_send, pap_server, pap_servers, pap_flow,
}
use pam_nps_mfa.Flow.Rounds.Conversation.{Inv, AcceptedBy, RoundPost, pap_loop-Post}

module _ (c : Primitives) (w : World) (ctx : AttemptContext) (config : Config) where
  pub record PapEvidence (servers : List Server) (report : AuthReport) (h : History) : Type 0 where
    pub server : Server
    pub is_configured : In server servers
    pub is_deciding : report.server ≡ some server.addr
    pub accepted : AcceptedBy c w ctx config server.addr (utf8 server.secret) h

  abbrev Post : {A : Type 0} → List Server → Result A AuthReport × History → Type 0
  Post servers (ok _, h) = All WasUnreachable (exchanges h)
  Post servers (err report, h) =
      Owned (exchanges h) × (report.outcome ≡ PamOutcome.success → PapEvidence servers report h)

  pap_rounds-Post :
      (server : Server) (response : Bytes) (h : History)
      → Inv c w ctx config server.addr (utf8 server.secret) response h
      → Owned (exchanges (pap_rounds c w ctx config server.addr (utf8 server.secret) response h).1)
        × ((pap_rounds c w ctx config server.addr (utf8 server.secret) response h).0.outcome
              ≡ PamOutcome.success
            → AcceptedBy c w ctx config server.addr
                (utf8 server.secret)
                (pap_rounds c w ctx config server.addr (utf8 server.secret) response h).1)
  unfolding pap_rounds
  pap_rounds-Post server response h i =
      finish
        (pap_loop c w ctx config server.addr (utf8 server.secret) max_challenge_rounds response h)
        (pap_loop-Post c w ctx config server.addr (utf8 server.secret) max_challenge_rounds response
          h i)
    where
      finish :
          (p : Result Bytes AuthReport × History)
          → RoundPost c w ctx config server.addr (utf8 server.secret) p
          → Owned (exchanges (or_max_rounds c w p).1)
            × ((or_max_rounds c w p).0.outcome ≡ PamOutcome.success
                → AcceptedBy c w ctx config server.addr
                    (utf8 server.secret)
                    (or_max_rounds c w p).1)
      finish (ok next, h) i = (i.owned, λ q. absurd (cc))
      finish (err report, h) post = post

  after_send-Post :
      (server : Server) (ra packet : Bytes) (result : Result Bytes TransportError) (h : History)
      → ((d : Bytes)
          → result ≡ ok d
          → verify_response c (binding_of config ra) d (utf8 server.secret) ≡ true)
      → In (drew (some ra)) h
      → All WasUnreachable (exchanges h)
      → Post
          (server ∷ [])
          (after_send c w ctx config server result (exchanged server.addr packet result ∷ h))
  unfolding after_send
  after_send-Post server ra packet (err unreachable) h bound drawn u = (refl, u)
  after_send-Post server ra packet (err TransportError.timeout) h bound drawn u = (
    (unreachable-OwnedBy server.addr (exchanges h) u, unreachable-Owned (exchanges h) u),
    λ q. absurd (cc),
  )
  after_send-Post server ra packet (err io) h bound drawn u = (
    (unreachable-OwnedBy server.addr (exchanges h) u, unreachable-Owned (exchanges h) u),
    λ q. absurd (cc),
  )
  after_send-Post server ra packet (ok d) h bound drawn u =
      let by = unreachable-OwnedBy server.addr (exchanges h) u in
      let (owned, why) =
        pap_rounds-Post server d (exchanged server.addr packet (ok d) ∷ h) (record {
          answered = record {
            ra = ra;
            packet = packet;
            before = h;
            is_last = refl;
            ra_drawn = drawn;
            bound = bound d refl;
          };
          owned = (by, unreachable-Owned (exchanges h) u);
          owned_by = (inr refl, by);
        }) in
      (
        owned,
        λ q. record {
          server = server;
          is_configured = inl refl;
          is_deciding = refl;
          accepted = why q;
        },
      )

  -- Nothing was sent in this round, and it fails.
  fails-Post :
      (servers : List Server) (report : AuthReport) (h : History)
      → report.outcome ≢ PamOutcome.success
      → All WasUnreachable (exchanges h)
      → Post {A = Unit} servers (err report, h)
  fails-Post servers report h fails u = (unreachable-Owned (exchanges h) u, λ q. absurd (fails q))

  -- Behind the draw, from the hidden password on.
  abbrev packet_of : Server → Bytes → Bytes → Result Bytes EncodeError
  packet_of server ra hidden =
      build_pap_packet c ctx.username hidden (get_or ra 0 0) ra config (utf8 server.secret)

  pap_server-Post :
      (server : Server) (h : History)
      → All WasUnreachable (exchanges h)
      → Post (server ∷ []) (pap_server c w ctx config server h)
  unfolding pap_server fresh_request_authenticator draw send
  pap_server-Post server h u = elim (Option-cases (w.getrandom h)) [
    | inl e1 ↦ rw e1 (fails-Post (server ∷ []) _ _ (λ q. cc) u)
    | inr (ra, e1) ↦
        elim (Result-cases (try_hide_password c (utf8 ctx.password) (utf8 server.secret) ra)) [
          | inr (x, e2) ↦ rw (e1, e2) (fails-Post (server ∷ []) _ _ (λ q. cc) u)
          | inl (hidden, e2) ↦ elim (Result-cases (packet_of server ra hidden)) [
            | inr (x, e3) ↦ rw (e1, e2, e3) (fails-Post (server ∷ []) _ _ (λ q. cc) u)
            | inl (packet, e3) ↦
                rw (e1, e2, e3)
                  (after_send-Post server ra packet _ (drew (some ra) ∷ h)
                    (w.exchange_accepted (drew (some ra) ∷ h) server.addr packet _) (inl refl) u)
          ]
        ]
  ]

  Post-mono :
      {A : Type 0} (servers more : List Server) (p : Result A AuthReport × History)
      → ((s : Server) → In s servers → In s more)
      → Post servers p
      → Post more p
  Post-mono servers more (ok a, h) sub post = post
  Post-mono servers more (err e, h) sub post = (post.0, λ q. widen (post.1 q))
    where
      widen : PapEvidence servers e h → PapEvidence more e h
      widen v = record {
        server = v.server;
        is_configured = sub v.server v.is_configured;
        is_deciding = v.is_deciding;
        accepted = v.accepted;
      }

  Post-bind :
      (server : Server) (rest : List Server) (p : Result (Unit {0}) AuthReport × History)
      (f : Unit {0} → History → Result (Unit {0}) AuthReport × History)
      → Post (server ∷ []) p
      → ((a : Unit {0}) (h : History) → All WasUnreachable (exchanges h) → Post rest (f a h))
      → Post (server ∷ rest) (bind_result p f)
  Post-bind server rest (ok a, h) f post next =
      Post-mono rest (server ∷ rest) (f a h) (λ s m. inr m) (next a h post)
  Post-bind server rest (err e, h) f post next =
      Post-mono {A = Unit {0}} (server ∷ []) (server ∷ rest) (err e, h)
        (λ s m. elim m [ inl x ↦ inl x | inr y ↦ absurd y ]) post

  pap_servers-Post :
      (servers : List Server) (h : History)
      → All WasUnreachable (exchanges h)
      → Post servers (pap_servers c w ctx config servers h)
  unfolding pap_servers
  pap_servers-Post [] h u = u
  pap_servers-Post (server ∷ rest) h u =
      Post-bind server rest (pap_server c w ctx config server h)
        (λ _. pap_servers c w ctx config rest) (pap_server-Post server h u)
        (λ _ h'. pap_servers-Post rest h')

  or_unreachable-Post :
      (p : Result (Unit {0}) AuthReport × History)
      → Post config.servers p
      → Owned (exchanges (or_unreachable p).1)
        × ((or_unreachable p).0.outcome ≡ PamOutcome.success
            → PapEvidence config.servers (or_unreachable p).0 (or_unreachable p).1)
  or_unreachable-Post (ok a, h) post = (unreachable-Owned (exchanges h) post, λ q. absurd (cc))
  or_unreachable-Post (err e, h) post = post

  flow-Post :
      (h : History)
      → All WasUnreachable (exchanges h)
      → Owned (exchanges (pap_flow c w ctx config h).1)
        × ((pap_flow c w ctx config h).0.outcome ≡ PamOutcome.success
            → PapEvidence config.servers
                (pap_flow c w ctx config h).0
                (pap_flow c w ctx config h).1)
  unfolding pap_flow
  flow-Post h u =
      or_unreachable-Post (pap_servers c w ctx config config.servers h)
        (pap_servers-Post config.servers h u)

-- In a PAP attempt a server that was sent to and not explicitly unreachable is the only one that is
-- contacted from then on: the State conversation never moves to another server.
pub pap_flow-Owned :
    (c : Primitives) (w : World) (ctx : AttemptContext) (config : Config)
    → Owned (exchanges (pap_flow c w ctx config []).1)
pap_flow-Owned c w ctx config = (flow-Post c w ctx config [] tt).0

-- A PAP attempt that succeeds ends with the answer of a configured server to a request of this
-- attempt, whose authenticator was drawn in it: an Access-Accept that passes the binding to that
-- request.
pub pap_flow-success :
    (c : Primitives) (w : World) (ctx : AttemptContext) (config : Config)
    → (pap_flow c w ctx config []).0.outcome ≡ PamOutcome.success
    → PapEvidence c w ctx config config.servers
        (pap_flow c w ctx config []).0
        (pap_flow c w ctx config []).1
pap_flow-success c w ctx config = (flow-Post c w ctx config [] tt).1
