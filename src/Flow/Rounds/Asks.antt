-- ===== src/Flow/Rounds/Asks.antt =====
-- What `pap_flow` asks the transport for, and one round of `pap_rounds`.
use pam_nps_mfa.Base.{
  Bool, ◌≡◌, ◌≢◌, refl, ◌⊎◌, inl, inr, Option, none, some, Option-cases, [], ◌∷◌, Bytes, get_or,
  Result, ok, err, Result-cases,
}
use pam_nps_mfa.Base.Text.{Text, utf8}
use pam_nps_mfa.Primitives.{Primitives}
use pam_nps_mfa.World.{
  World, Event, History, drew, informed, prompted, exchanged, SocketAddr, TransportError, ask, draw,
  send, bind_result, or_return, else_return,
}
use pam_nps_mfa.Config.{Server, Config}
use pam_nps_mfa.Radius.{Code, access_request, access_accept, access_reject, access_challenge}
use pam_nps_mfa.Radius.Parse.{ParsedResponse, parse_response, known_code}
use pam_nps_mfa.Radius.Packet.{fresh_request_authenticator}
use pam_nps_mfa.Radius.Binding.{verify_response}
use pam_nps_mfa.Pap.{Challenge, build_response, from_response, try_hide_password}
use pam_nps_mfa.Flow.{AuthReport, AttemptContext, report_of, unavail, transport_error}
use pam_nps_mfa.Flow.Packets.{build_pap_packet}
use pam_nps_mfa.Flow.Trace.{In}
use pam_nps_mfa.Flow.Push.{binding_of}
use pam_nps_mfa.Flow.Rounds.{
  round_of, undecided, nonempty_code, prompt_response, answer_challenge, prompt_text, pap_round,
}
use pam_nps_mfa.Flow.Rounds.Conversation.{coded}

module _ (c : Primitives) (w : World) (ctx : AttemptContext) (config : Config) where
  -- What the transport may return for a request to the server.
  abbrev pub binds : Server → Bytes → Bytes → Bool
  binds server ra datagram = verify_response c (binding_of config ra) datagram (utf8 server.secret)

  -- The first request to a server carries the password, hidden under its secret.
  pub record IsFirst (server : Server) (ra request : Bytes) : Type 0 where
    pub hidden : Bytes
    pub hides : try_hide_password c (utf8 ctx.password) (utf8 server.secret) ra ≡ ok hidden
    pub built :
        build_pap_packet c ctx.username hidden (get_or ra 0 0) ra config (utf8 server.secret)
        ≡ ok request

  -- A challenge that was sent from the address.
  pub record IsOpen (to : SocketAddr) (ch : Challenge) (h : History) : Type 0 where
    pub earlier : Bytes
    pub response : Bytes
    pub heard : In (exchanged to earlier (ok response)) h
    pub parsed : ParsedResponse
    pub parses : parse_response response ≡ ok parsed
    pub is_challenge : known_code parsed ≡ some access_challenge
    pub takes : from_response parsed ≡ ok ch

  -- A later one answers such a challenge with the code that the user gave to its prompt.
  pub record IsFollowUp (before : History) (to : SocketAddr) (server : Server) (ra request : Bytes)
      : Type 0 where
    pub ch : Challenge
    pub is_open : IsOpen to ch before
    pub code : Text
    pub is_given : In (prompted (prompt_text ch.prompt) (ok code)) before
    pub is_nonempty : code ≢ []
    pub built :
        build_response c ch (get_or ra 0 0) ra (utf8 ctx.username) (utf8 code) (utf8 server.secret)
        ≡ ok request

  -- The exchange is with a configured server at its address, of one of these; it may return only
  -- what is bound to that request under that server's secret.
  pub record IsAsk (before : History) (to : SocketAddr) (request : Bytes)
      (result : Result Bytes TransportError) : Type 0 where
    pub server : Server
    pub is_configured : In server config.servers
    pub is_addressed : to ≡ server.addr
    pub ra : Bytes
    pub ra_drawn : In (drew (some ra)) before
    pub is_request : IsFirst server ra request ⊎ IsFollowUp before to server ra request
    pub is_answer : result ≡ w.exchange before to request (binds server ra)

  abbrev pub AllAsks : History → Type 0
  AllAsks [] = Unit
  AllAsks (exchanged to request r ∷ h) = IsAsk h to request r × AllAsks h
  AllAsks (drew _ ∷ h) = AllAsks h
  AllAsks (informed _ _ ∷ h) = AllAsks h
  AllAsks (prompted _ _ ∷ h) = AllAsks h

  IsOpen-later :
      (to : SocketAddr) (ch : Challenge) (e : Event) (h : History)
      → IsOpen to ch h
      → IsOpen to ch (e ∷ h)
  IsOpen-later to ch e h o = record {
    earlier = o.earlier;
    response = o.response;
    heard = inr o.heard;
    parsed = o.parsed;
    parses = o.parses;
    is_challenge = o.is_challenge;
    takes = o.takes;
  }

  module _ (server : Server) (configured : In server config.servers) where
    abbrev pub Heard : Bytes → History → Type 0
    Heard response h = (earlier : Bytes) × In (exchanged server.addr earlier (ok response)) h

    abbrev pub RoundPost : Result Bytes AuthReport × History → Type 0
    RoundPost (ok next, h) = AllAsks h × Heard next h
    RoundPost (err _, h) = AllAsks h

    pub asks :
        (ra packet : Bytes) (h : History)
        → In (drew (some ra)) h
        → IsFirst server ra packet ⊎ IsFollowUp h server.addr server ra packet
        → IsAsk h server.addr packet (w.exchange h server.addr packet (binds server ra))
    asks ra packet h drawn request = record {
      server = server;
      is_configured = configured;
      is_addressed = refl;
      ra = ra;
      ra_drawn = drawn;
      is_request = request;
      is_answer = refl;
    }

    follow_up-Post :
        (ra packet : Bytes) (h : History)
        → In (drew (some ra)) h
        → IsFollowUp h server.addr server ra packet
        → AllAsks h
        → RoundPost (
            else_return
              (send w server.addr packet (binds server ra))
              (report_of unavail transport_error)
              h)
    unfolding send
    follow_up-Post ra packet h drawn f a = heard _ refl (asks ra packet h drawn (inr f))
      where
        heard :
            (r : Result Bytes TransportError)
            → w.exchange h server.addr packet (binds server ra) ≡ r
            → IsAsk h server.addr packet r
            → RoundPost (
                or_return r
                  (report_of unavail transport_error)
                  (exchanged server.addr packet r ∷ h))
        heard (ok d) e one = ((one, a), (packet, inl refl))
        heard (err x) e one = (one, a)

    coded-Post :
        (ch : Challenge) (code : Text) (h : History)
        → IsOpen server.addr ch h
        → In (prompted (prompt_text ch.prompt) (ok code)) h
        → AllAsks h
        → RoundPost (coded c w ctx config server.addr (utf8 server.secret) ch code h)
    unfolding nonempty_code fresh_request_authenticator draw
    coded-Post ch [] h o given a = a
    coded-Post ch (x ∷ code) h o given a = elim (Option-cases (w.getrandom h)) [
      | inl e ↦ rw e a
      | inr (ra, e) ↦
          elim (Result-cases (
            build_response c ch (get_or ra 0 0) ra (utf8 ctx.username) (utf8 (x ∷ code))
              (utf8 server.secret))) [
                | inr (y, f) ↦ rw (e, f) a
                | inl (packet, f) ↦
                    rw (e, f)
                      (follow_up-Post ra packet (drew (some ra) ∷ h) (inl refl)
                        (record {
                          ch = ch;
                          is_open = IsOpen-later server.addr ch (drew (some ra)) h o;
                          code = x ∷ code;
                          is_given = inr given;
                          is_nonempty = λ q. cc;
                          built = f;
                        })
                        a)
              ]
    ]

    answer_challenge-Post :
        (ch : Challenge) (h : History)
        → IsOpen server.addr ch h
        → AllAsks h
        → RoundPost (answer_challenge c w ctx config server.addr (utf8 server.secret) ch h)
    unfolding answer_challenge prompt_response ask
    answer_challenge-Post ch h o a =
        let shown = prompt_text ch.prompt in
        elim (Result-cases (w.prompt_echo_off h shown)) [
          | inl (code, e) ↦ rw e (
              coded-Post ch code (prompted shown (ok code) ∷ h)
                (IsOpen-later server.addr ch (prompted shown (ok code)) h o) (inl refl) a)
          | inr (x, e) ↦ rw e a
        ]

    round-Post :
        (response : Bytes) (h : History) (r : ParsedResponse) (o : Option Code)
        → parse_response response ≡ ok r
        → known_code r ≡ o
        → Heard response h
        → AllAsks h
        → RoundPost (
            bind_result
              (undecided (round_of o r) h)
              (answer_challenge c w ctx config server.addr (utf8 server.secret)))
    unfolding undecided round_of
    round-Post response h r (some access_accept) e f heard a = a
    round-Post response h r (some access_reject) e f heard a = a
    round-Post response h r (some access_request) e f heard a = a
    round-Post response h r none e f heard a = a
    round-Post response h r (some access_challenge) e f (earlier, heard) a =
        elim (Result-cases (from_response r)) [
          | inr (x, g) ↦ rw (round_of, g) a
          | inl (ch, g) ↦
              rw (round_of, g)
                (answer_challenge-Post ch h
                  (record {
                    earlier = earlier;
                    response = response;
                    heard = heard;
                    parsed = r;
                    parses = e;
                    is_challenge = f;
                    takes = g;
                  })
                  a)
        ]

    pub pap_round-Post :
        (response : Bytes) (h : History)
        → Heard response h
        → AllAsks h
        → RoundPost (pap_round c w ctx config server.addr (utf8 server.secret) response h)
    unfolding pap_round
    pap_round-Post response h heard a = elim (Result-cases (parse_response response)) [
      | inl (r, e) ↦ rw e (round-Post response h r (known_code r) e refl heard a)
      | inr (x, e) ↦ rw e a
    ]
