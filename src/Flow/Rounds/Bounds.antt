-- ===== src/Flow/Rounds/Bounds.antt =====
-- How often `pap_flow` prompts the user and contacts a server.
use pam_nps_mfa.Base.{
  ℕ, zero, suc, ◌+◌, ◌≤◌, arith, inl, inr, Bool, some, Option-cases, List, [], ◌∷◌, Bytes, length,
  Result, ok, err, Result-cases, get_or,
}
use pam_nps_mfa.Base.Text.{Text, utf8}
use pam_nps_mfa.Primitives.{Primitives}
use pam_nps_mfa.World.{
  World, History, drew, informed, prompted, exchanged, SocketAddr, TransportError, unreachable, io,
  Step, bind_result, ◌>>=◌, or_return, else_return, draw, ask, send,
}
use pam_nps_mfa.Config.{Server, Config}
use pam_nps_mfa.Radius.{EncodeError}
use pam_nps_mfa.Radius.Parse.{parse_response, known_code}
use pam_nps_mfa.Radius.Packet.{fresh_request_authenticator}
use pam_nps_mfa.Pap.{Challenge, build_response, try_hide_password}
use pam_nps_mfa.Flow.{AuthReport, AttemptContext, max_challenge_rounds}
use pam_nps_mfa.Flow.Packets.{build_pap_packet}
use pam_nps_mfa.Flow.Push.{or_unreachable}
use pam_nps_mfa.Flow.Rounds.{
  Round, round_of, done, challenge, undecided, nonempty_code, prompt_response, answer_challenge,
  pap_round, pap_loop, or_max_rounds, pap_rounds, after_send, pap_server, pap_servers, pap_flow,
}

-- The prompts of a history, and its exchanges.
abbrev pub prompts : History → ℕ
prompts [] = 0
prompts (prompted m r ∷ h) = prompts h + 1
prompts (drew r ∷ h) = prompts h
prompts (informed m r ∷ h) = prompts h
prompts (exchanged server request r ∷ h) = prompts h

abbrev pub contacts : History → ℕ
contacts [] = 0
contacts (exchanged server request r ∷ h) = contacts h + 1
contacts (drew r ∷ h) = contacts h
contacts (informed m r ∷ h) = contacts h
contacts (prompted m r ∷ h) = contacts h

-- From the one history to the other there are at most so many prompts and exchanges.
abbrev pub Grew : ℕ → ℕ → History → History → Type 0
Grew p q h h' = (prompts h' ≤ prompts h + p) × (contacts h' ≤ contacts h + q)

Grew-mono : (p q p' q' : ℕ) (h h' : History) → p ≤ p' → q ≤ q' → Grew p q h h' → Grew p' q' h h'
Grew-mono p q p' q' h h' a b (x, y) = (omega arith, omega arith)

-- A computation makes at most so many.
abbrev Spends : {A : Type 0} → ℕ → ℕ → (History → A × History) → Type 0
Spends p q m = (h : History) → Grew p q h (m h).1

bind-Spends :
    {A B E : Type 0} (p q p' q' : ℕ) (m : Step E A) (k : A → Step E B)
    → Spends p q m
    → ((a : A) → Spends p' q' (k a))
    → Spends (p + p') (q + q') (m >>= k)
bind-Spends p q p' q' m k first rest h = bound (m h) (first h)
  where
    bound :
        (r : Result _ _ × History) → Grew p q h r.1 → Grew (p + p') (q + q') h (bind_result r k).1
    bound (ok a, h') (x, y) = let (x', y') = rest a h' in (omega arith, omega arith)
    bound (err e, h') (x, y) = (omega arith, omega arith)

or_return-Spends : {A E F : Type 0} (r : Result A F) (e : E) → Spends 0 0 (or_return r e)
or_return-Spends (ok a) e h = (omega arith, omega arith)
or_return-Spends (err x) e h = (omega arith, omega arith)

else_return-Spends :
    {A E F : Type 0} (p q : ℕ) (m : Step F A) (e : E) → Spends p q m → Spends p q (else_return m e)
else_return-Spends p q m e s h =
    let (x, y) = s h in
    let (x', y') = or_return-Spends (m h).0 e (m h).1 in (omega arith, omega arith)

module _ (w : World) where
  fresh-Spends : Spends 0 0 (fresh_request_authenticator w)
  unfolding fresh_request_authenticator draw
  fresh-Spends h = (omega arith, omega arith)

  prompt_response-Spends : (t : Text) → Spends 1 0 (prompt_response w t)
  unfolding prompt_response ask
  prompt_response-Spends t h = (omega arith, omega arith)

  send-Spends :
      (server : SocketAddr) (request : Bytes) (accept : Bytes → Bool)
      → Spends 0 1 (send w server request accept)
  unfolding send
  send-Spends server request accept h = (omega arith, omega arith)

nonempty_code-Spends : (code : Text) → Spends 0 0 (nonempty_code code)
unfolding nonempty_code
nonempty_code-Spends [] h = (omega arith, omega arith)
nonempty_code-Spends (x ∷ code) h = (omega arith, omega arith)

undecided-Spends : (r : Round) → Spends 0 0 (undecided r)
unfolding undecided
undecided-Spends (done report) h = (omega arith, omega arith)
undecided-Spends (challenge ch) h = (omega arith, omega arith)

module _ (c : Primitives) (w : World) (ctx : AttemptContext) (config : Config) where
  answer_challenge-Spends :
      (addr : SocketAddr) (secret : Bytes) (ch : Challenge)
      → Spends 1 1 (answer_challenge c w ctx config addr secret ch)
  unfolding answer_challenge
  answer_challenge-Spends addr secret ch =
      bind-Spends 1 0 0 1 (else_return (prompt_response w ch.prompt) _) _
        (else_return-Spends 1 0 (prompt_response w ch.prompt) _
          (prompt_response-Spends w ch.prompt))
        (λ code. bind-Spends 0 0 0 1 (nonempty_code code) _ (nonempty_code-Spends code) (λ u.
          bind-Spends 0 0 0 1 (else_return (fresh_request_authenticator w) _) _
            (else_return-Spends 0 0 (fresh_request_authenticator w) _ (fresh-Spends w))
            (λ ra.
              bind-Spends 0 0 0 1 (or_return (build_response c ch _ ra _ _ secret) _) _
                (or_return-Spends _ _)
                (λ packet.
                  else_return-Spends 0 1 (send w addr packet _) _ (send-Spends w addr packet _)))))

  pap_round-Spends :
      (addr : SocketAddr) (secret response : Bytes)
      → Spends 1 1 (pap_round c w ctx config addr secret response)
  unfolding pap_round
  pap_round-Spends addr secret response =
      bind-Spends 0 0 1 1 (or_return (parse_response response) _) _ (or_return-Spends _ _)
        (λ parsed.
          bind-Spends 0 0 1 1 (undecided (round_of (known_code parsed) parsed)) _
            (undecided-Spends (round_of (known_code parsed) parsed))
            (λ ch. answer_challenge-Spends addr secret ch))

  pap_loop-Spends :
      (addr : SocketAddr) (secret : Bytes) (rounds : ℕ) (response : Bytes)
      → Spends rounds rounds (pap_loop c w ctx config addr secret rounds response)
  unfolding pap_loop
  pap_loop-Spends addr secret zero response h = (omega arith, omega arith)
  pap_loop-Spends addr secret (suc rounds) response h =
      Grew-mono _ _ _ _ h (pap_loop c w ctx config addr secret (suc rounds) response h).1
        (omega arith) (omega arith)
        (bind-Spends 1 1 rounds rounds (pap_round c w ctx config addr secret response) _
          (pap_round-Spends addr secret response) (λ next. pap_loop-Spends addr secret rounds next)
          h)

  pap_rounds-Spends :
      (addr : SocketAddr) (secret response : Bytes)
      → Spends max_challenge_rounds max_challenge_rounds
          (pap_rounds c w ctx config addr secret response)
  unfolding pap_rounds
  pap_rounds-Spends addr secret response h =
      ends (pap_loop c w ctx config addr secret max_challenge_rounds response h)
        (pap_loop-Spends addr secret max_challenge_rounds response h)
    where
      ends :
          (r : Result Bytes AuthReport × History)
          → Grew max_challenge_rounds max_challenge_rounds h r.1
          → Grew max_challenge_rounds max_challenge_rounds h (or_max_rounds c w r).1
      ends (ok next, h') g = g
      ends (err e, h') g = g

  -- A turn of the loop over `n` servers goes on without a prompt, or ends the attempt with what the
  -- rounds may spend.
  abbrev Turned : ℕ → History → Result (Unit {0}) AuthReport × History → Type 0
  Turned n h (ok _, h') = Grew 0 n h h'
  Turned n h (err _, h') = Grew max_challenge_rounds (n + max_challenge_rounds) h h'

  after_send-Turned :
      (server : Server) (packet : Bytes) (result : Result Bytes TransportError) (h : History)
      → Turned 1 h
          (after_send c w ctx config server result (exchanged server.addr packet result ∷ h))
  unfolding after_send
  after_send-Turned server packet (err unreachable) h = (omega arith, omega arith)
  after_send-Turned server packet (err TransportError.timeout) h = (omega arith, omega arith)
  after_send-Turned server packet (err io) h = (omega arith, omega arith)
  after_send-Turned server packet (ok response) h =
      let (x, y) =
        pap_rounds-Spends server.addr (utf8 server.secret) response
          (exchanged server.addr packet (ok response) ∷ h) in
      (omega arith, omega arith)

  -- From the hidden password on.
  abbrev packet_of : Server → Bytes → Bytes → Result Bytes EncodeError
  packet_of server ra hidden =
      build_pap_packet c ctx.username hidden (get_or ra 0 0) ra config (utf8 server.secret)

  pap_server-Turned :
      (server : Server) (h : History) → Turned 1 h (pap_server c w ctx config server h)
  unfolding pap_server fresh_request_authenticator draw send
  pap_server-Turned server h = elim (Option-cases (w.getrandom h)) [
    | inl e1 ↦ rw e1 (omega arith, omega arith)
    | inr (ra, e1) ↦
        elim (Result-cases (try_hide_password c (utf8 ctx.password) (utf8 server.secret) ra)) [
          | inr (x, e2) ↦ rw (e1, e2) (omega arith, omega arith)
          | inl (hidden, e2) ↦ elim (Result-cases (packet_of server ra hidden)) [
            | inr (x, e3) ↦ rw (e1, e2, e3) (omega arith, omega arith)
            | inl (packet, e3) ↦
                rw (e1, e2, e3) (after_send-Turned server packet _ (drew (some ra) ∷ h))
          ]
        ]
  ]

  turned :
      (n : ℕ) (h : History) (r : Result (Unit {0}) AuthReport × History)
      (rest : Step AuthReport (Unit {0}))
      → Turned 1 h r
      → ((h' : History) → Turned n h' (rest h'))
      → Turned (suc n) h (bind_result r (λ u. rest))
  turned n h (ok u, h') rest (x, y) later = grows n h h' (rest h') (x, y) (later h')
    where
      grows :
          (n : ℕ) (h h' : History) (r : Result (Unit {0}) AuthReport × History)
          → Grew 0 1 h h'
          → Turned n h' r
          → Turned (suc n) h r
      grows n h h' (ok v, h'') (x, y) (x', y') = (omega arith, omega arith)
      grows n h h' (err e, h'') (x, y) (x', y') = (omega arith, omega arith)
  turned n h (err e, h') rest (x, y) later = (omega arith, omega arith)

  pap_servers-Turned :
      (servers : List Server) (h : History)
      → Turned (length servers) h (pap_servers c w ctx config servers h)
  unfolding pap_servers
  pap_servers-Turned [] h = (omega arith, omega arith)
  pap_servers-Turned (server ∷ rest) h =
      turned (length rest) h (pap_server c w ctx config server h) (pap_servers c w ctx config rest)
        (pap_server-Turned server h) (pap_servers-Turned rest)

  ended :
      (n : ℕ) (h : History) (r : Result (Unit {0}) AuthReport × History)
      → Turned n h r
      → Grew max_challenge_rounds (n + max_challenge_rounds) h (or_unreachable r).1
  ended n h (ok u, h') (x, y) = (omega arith, omega arith)
  ended n h (err e, h') g = g

from_nothing : (p q : ℕ) (h : History) → Grew p q [] h → (prompts h ≤ p) × (contacts h ≤ q)
from_nothing p q h (x, y) = (omega arith, omega arith)

-- However the servers and the user answer, a PAP attempt prompts at most 8 times, and exchanges at
-- most one packet with each configured server and 8 more.
pub pap_flow-bounded :
    (c : Primitives) (w : World) (ctx : AttemptContext) (config : Config)
    → (prompts (pap_flow c w ctx config []).1 ≤ 8)
      × (contacts (pap_flow c w ctx config []).1 ≤ length config.servers + 8)
unfolding pap_flow
pap_flow-bounded c w ctx config =
    from_nothing 8 (length config.servers + 8) (pap_flow c w ctx config []).1 (
      ended c w ctx config (length config.servers) [] (pap_servers c w ctx config config.servers [])
        (pap_servers-Turned c w ctx config config.servers []))
