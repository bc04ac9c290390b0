-- ===== src/Flow/Rounds/Conversation.antt =====
-- One round of `pap_rounds`, and its conversation with one server.
use pam_nps_mfa.Base.{
  ℕ, zero, suc, ◌≡◌, refl, true, inl, inr, Option, none, some, Option-cases, [], ◌∷◌, Bytes, get_or,
  Result, ok, err, Result-cases,
}
use pam_nps_mfa.Base.Text.{Text, utf8}
use pam_nps_mfa.Primitives.{Primitives}
use pam_nps_mfa.World.{
  World, Step, History, drew, prompted, exchanged, ask, draw, send, bind_result, SocketAddr,
  else_return, ◌>>=◌, or_return, ◌>>◌,
}
use pam_nps_mfa.Config.{Config}
use pam_nps_mfa.Radius.{Code, access_request, access_accept, access_reject, access_challenge}
use pam_nps_mfa.Radius.Parse.{ParsedResponse, parse_response, known_code}
use pam_nps_mfa.Radius.Packet.{fresh_request_authenticator}
use pam_nps_mfa.Radius.Binding.{verify_response}
use pam_nps_mfa.Pap.{Challenge, build_response, from_response}
use pam_nps_mfa.Flow.{
  AuthReport, AttemptContext, PamOutcome, report_of, unavail, rng_failure, transport_error,
  auth_err, challenge_unanswerable,
}
use pam_nps_mfa.Flow.Trace.{exchanges, In, Owned, OwnedBy}
use pam_nps_mfa.Flow.Push.{binding_of}
use pam_nps_mfa.Flow.Rounds.{
  Round, done, challenge, round_of, undecided, nonempty_code, prompt_response, answer_challenge,
  pap_round, pap_loop, prompt_text,
}

module _ (c : Primitives) (w : World) (ctx : AttemptContext) (config : Config) (addr : SocketAddr)
    (secret : Bytes) where
  -- The last event of `h` is `addr`'s answer to a request built from octets drawn before, and the
  -- answer passes the binding to that request.
  pub record Answered (response : Bytes) (h : History) : Type 0 where
    pub ra : Bytes
    pub packet : Bytes
    pub before : History
    pub is_last : h ≡ exchanged addr packet (ok response) ∷ before
    pub ra_drawn : In (drew (some ra)) before
    pub bound : verify_response c (binding_of config ra) response secret ≡ true

  pub record Inv (response : Bytes) (h : History) : Type 0 where
    pub answered : Answered response h
    pub owned : Owned (exchanges h)
    pub owned_by : OwnedBy addr (exchanges h)

  -- Why a conversation succeeded: its last answer is an Access-Accept.
  pub record AcceptedBy (h : History) : Type 0 where
    pub datagram : Bytes
    pub answered : Answered datagram h
    pub response : ParsedResponse
    pub parsed : parse_response datagram ≡ ok response
    pub is_accept : known_code response ≡ some access_accept

  abbrev pub RoundPost : Result Bytes AuthReport × History → Type 0
  RoundPost (ok next, h) = Inv next h
  RoundPost (err report, h) =
      Owned (exchanges h) × (report.outcome ≡ PamOutcome.success → AcceptedBy h)

  -- Behind the prompt and the draw: the answer is sent to the same server.
  sent-Post :
      (ra packet : Bytes) (h : History)
      → In (drew (some ra)) h
      → Owned (exchanges h)
      → OwnedBy addr (exchanges h)
      → RoundPost (
          else_return
            (send w addr packet
              (λ datagram. verify_response c (binding_of config ra) datagram secret))
            (report_of unavail transport_error)
            h)
  unfolding send
  sent-Post ra packet h drawn owned by =
      let accept = λ (d : Bytes). verify_response c (binding_of config ra) d secret in
      elim (Result-cases (w.exchange h addr packet accept)) [
        | inl (d, e) ↦ rw e (record {
          answered = record {
            ra = ra;
            packet = packet;
            before = h;
            is_last = refl;
            ra_drawn = drawn;
            bound = w.exchange_accepted h addr packet accept d e;
          };
          owned = (by, owned);
          owned_by = (inr refl, by);
        })
        | inr (x, e) ↦ rw e ((by, owned), λ q. absurd (cc))
      ]

  -- The rest of a round, behind a code that is not empty and the draw.
  abbrev pub answer_of : Challenge → Text → Bytes → Step AuthReport Bytes
  answer_of ch code ra = do
    follow_up ←
        or_return (build_response c ch (get_or ra 0 0) ra (utf8 ctx.username) (utf8 code) secret)
          (report_of auth_err challenge_unanswerable)
    else_return
        (send w addr follow_up
          (λ datagram. verify_response c (binding_of config ra) datagram secret))
        (report_of unavail transport_error)

  answer_of-Post :
      (ch : Challenge) (code : Text) (ra : Bytes) (h : History)
      → In (drew (some ra)) h
      → Owned (exchanges h)
      → OwnedBy addr (exchanges h)
      → RoundPost (answer_of ch code ra h)
  answer_of-Post ch code ra h drawn owned by =
      elim (Result-cases
        (build_response c ch (get_or ra 0 0) ra (utf8 ctx.username) (utf8 code) secret)) [
          | inl (packet, e) ↦ rw e (sent-Post ra packet h drawn owned by)
          | inr (x, e) ↦ rw e (owned, λ q. absurd (cc))
        ]

  -- Behind the prompt.
  abbrev pub coded : Challenge → Text → Step AuthReport Bytes
  coded ch code = do
    nonempty_code code
    ra ← else_return (fresh_request_authenticator w) (report_of unavail rng_failure)
    answer_of ch code ra

  coded-Post :
      (ch : Challenge) (code : Text) (h : History)
      → Owned (exchanges h)
      → OwnedBy addr (exchanges h)
      → RoundPost (coded ch code h)
  unfolding nonempty_code fresh_request_authenticator draw
  coded-Post ch [] h owned by = (owned, λ q. absurd (cc))
  coded-Post ch (x ∷ code) h owned by = elim (Option-cases (w.getrandom h)) [
    | inl e ↦ rw e (owned, λ q. absurd (cc))
    | inr (ra, e) ↦ rw e (answer_of-Post ch (x ∷ code) ra (drew (some ra) ∷ h) (inl refl) owned by)
  ]

  answer_challenge-Post :
      (ch : Challenge) (h : History)
      → Owned (exchanges h)
      → OwnedBy addr (exchanges h)
      → RoundPost (answer_challenge c w ctx config addr secret ch h)
  unfolding answer_challenge prompt_response ask
  answer_challenge-Post ch h owned by =
      let shown = prompt_text ch.prompt in
      elim (Result-cases (w.prompt_echo_off h shown)) [
        | inl (code, e) ↦ rw e (coded-Post ch code (prompted shown (ok code) ∷ h) owned by)
        | inr (x, e) ↦ rw e (owned, λ q. absurd (cc))
      ]

  round_of-success :
      (o : Option Code) (r : ParsedResponse) (report : AuthReport)
      → round_of o r ≡ done report
      → report.outcome ≡ PamOutcome.success
      → o ≡ some access_accept
  unfolding round_of
  round_of-success (some access_accept) r report e q = refl
  round_of-success (some access_reject) r report e q = absurd (cc)
  round_of-success (some access_request) r report e q = absurd (cc)
  round_of-success none r report e q = absurd (cc)
  round_of-success (some access_challenge) r report e q = elim (Result-cases (from_response r)) [
    | inl (ch, f) ↦ absurd (cc (rw (f, round_of) at e))
    | inr (x, f) ↦ absurd (cc (rw (f, round_of) at e))
  ]

  round-Post :
      (response : Bytes) (h : History) (r : ParsedResponse) (decided : Round)
      → parse_response response ≡ ok r
      → round_of (known_code r) r ≡ decided
      → Inv response h
      → RoundPost (bind_result (undecided decided h) (answer_challenge c w ctx config addr secret))
  unfolding undecided
  round-Post response h r (done report) e f i = (
    i.owned,
    λ q. record {
      datagram = response;
      answered = i.answered;
      response = r;
      parsed = e;
      is_accept = round_of-success (known_code r) r report f q;
    },
  )
  round-Post response h r (challenge ch) e f i = answer_challenge-Post ch h i.owned i.owned_by

  pap_round-Post :
      (response : Bytes) (h : History)
      → Inv response h
      → RoundPost (pap_round c w ctx config addr secret response h)
  unfolding pap_round
  pap_round-Post response h i = elim (Result-cases (parse_response response)) [
    | inl (r, e) ↦ rw e (round-Post response h r (round_of (known_code r) r) e refl i)
    | inr (x, e) ↦ rw e (i.owned, λ q. absurd (cc))
  ]

  next-Post :
      (p : Result Bytes AuthReport × History)
      (f : Bytes → History → Result Bytes AuthReport × History)
      → RoundPost p
      → ((next : Bytes) (h : History) → Inv next h → RoundPost (f next h))
      → RoundPost (bind_result p f)
  next-Post (ok next, h) f post go = go next h post
  next-Post (err e, h) f post go = post

  pub pap_loop-Post :
      (rounds : ℕ) (response : Bytes) (h : History)
      → Inv response h
      → RoundPost (pap_loop c w ctx config addr secret rounds response h)
  unfolding pap_loop
  pap_loop-Post zero response h i = i
  pap_loop-Post (suc rounds) response h i =
      next-Post (pap_round c w ctx config addr secret response h)
        (pap_loop c w ctx config addr secret rounds) (pap_round-Post response h i)
        (pap_loop-Post rounds)
