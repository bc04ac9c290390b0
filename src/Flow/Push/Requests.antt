-- ===== src/Flow/Push/Requests.antt =====
-- The exchanges that `mschapv2_flow` asks the transport for.
use pam_nps_mfa.Base.{
  ◌≡◌, refl, sym, Bool, false, inl, inr, some, List, [], ◌∷◌, Bytes, get_or, Result, ok, err,
}
use pam_nps_mfa.Base.Text.{utf8}
use pam_nps_mfa.Primitives.{Primitives}
use pam_nps_mfa.World.{
  World, History, drew, informed, prompted, exchanged, SocketAddr, TransportError, unreachable, io,
  bind_result,
}
use pam_nps_mfa.Config.{Server, Config}
use pam_nps_mfa.Mschap.Exchange.{Challenges, MsChapV2Request}
use pam_nps_mfa.Flow.{AuthReport, AttemptContext}
use pam_nps_mfa.Flow.Packets.{build_mschapv2_packet}
use pam_nps_mfa.Flow.Trace.{In, Quiet, same, after_draw, after_notice}
use pam_nps_mfa.Flow.Push.{after_push, push_server, push_servers, mschapv2_flow, or_unreachable}
use pam_nps_mfa.Flow.Push.Run.{request_of, binds, Run, nothing_sent, request_sent, push_server-Run}
use pam_nps_mfa.Flow.Push.Notice.{outcome-Quiet}
use mathlib.Core.Path.{subst}

module _ (c : Primitives) (w : World) (ctx : AttemptContext) (config : Config) where
  -- The exchange is with a configured server at its address, of a request that is built for that
  -- server out of octets drawn before; it may return only what is bound to that request under that
  -- server's secret, and the result is what it returned.
  pub record IsPush (before : History) (to : SocketAddr) (request : Bytes)
      (result : Result Bytes TransportError) : Type 0 where
    pub server : Server
    pub is_configured : In server config.servers
    pub is_addressed : to ≡ server.addr
    pub ra : Bytes
    pub challenges : Challenges
    pub ra_drawn : In (drew (some ra)) before
    pub authenticator_challenge_drawn : In (drew (some challenges.authenticator_challenge)) before
    pub peer_challenge_drawn : In (drew (some challenges.peer_challenge)) before
    pub built :
        build_mschapv2_packet c ctx.username
          (request_of c w ctx config server ra challenges)
          (get_or ra 0 0)
          ra
          config
          (utf8 server.secret)
        ≡ ok request
    pub is_answer : result ≡ w.exchange before to request (binds c w ctx config server ra)

  abbrev pub AllPushes : History → Type 0
  AllPushes [] = Unit
  AllPushes (exchanged to request r ∷ h) = IsPush h to request r × AllPushes h
  AllPushes (drew _ ∷ h) = AllPushes h
  AllPushes (informed _ _ ∷ h) = AllPushes h
  AllPushes (prompted _ _ ∷ h) = AllPushes h

  Quiet-AllPushes : (h h' : History) → Quiet h h' → AllPushes h → AllPushes h'
  Quiet-AllPushes h h' same a = a
  Quiet-AllPushes h _ (after_draw h' r q) a = Quiet-AllPushes h h' q a
  Quiet-AllPushes h _ (after_notice h' m r q) a = Quiet-AllPushes h h' q a

  after_push-Quiet :
      (server : Server) (request : MsChapV2Request) (result : Result Bytes TransportError)
      (h : History)
      → Quiet h (after_push c w server request result h).1
  unfolding after_push
  after_push-Quiet server request (err unreachable) h = same
  after_push-Quiet server request (err TransportError.timeout) h = same
  after_push-Quiet server request (err io) h = same
  after_push-Quiet server request (ok d) h = outcome-Quiet c w d request h

  Run-AllPushes :
      (server : Server) (sent : Bool) (h : History) (p : Result Bool AuthReport × History)
      → In server config.servers
      → Run c w ctx config server sent h p.0 p.1
      → AllPushes h
      → AllPushes p.1
  Run-AllPushes server sent h (r, h') i (nothing_sent report e fails grew) a =
      Quiet-AllPushes h h' grew a
  Run-AllPushes server sent h (r, h') i (request_sent before s e) a =
      subst (λ (p : Result Bool AuthReport × History). AllPushes p.1) (sym e)
        (Quiet-AllPushes _ _ (after_push-Quiet server _ s.result _) (
          record {
            server = server;
            is_configured = i;
            is_addressed = refl;
            ra = s.ra;
            challenges = s.challenges;
            ra_drawn = s.ra_drawn;
            authenticator_challenge_drawn = s.authenticator_challenge_drawn;
            peer_challenge_drawn = s.peer_challenge_drawn;
            built = s.built;
            is_answer = s.is_answer;
          },
          Quiet-AllPushes h before s.nothing_before a,
        ))

  bind-AllPushes :
      (p : Result Bool AuthReport × History) (f : Bool → History → Result Bool AuthReport × History)
      → AllPushes p.1
      → ((sent : Bool) (h : History) → AllPushes h → AllPushes (f sent h).1)
      → AllPushes (bind_result p f).1
  bind-AllPushes (ok sent, h) f a next = next sent h a
  bind-AllPushes (err e, h) f a next = a

  push_servers-AllPushes :
      (servers : List Server) (sent : Bool) (h : History)
      → ((s : Server) → In s servers → In s config.servers)
      → AllPushes h
      → AllPushes (push_servers c w ctx config servers sent h).1
  unfolding push_servers
  push_servers-AllPushes [] sent h sub a = a
  push_servers-AllPushes (server ∷ rest) sent h sub a =
      bind-AllPushes (push_server c w ctx config server sent h) (push_servers c w ctx config rest)
        (Run-AllPushes server sent h (push_server c w ctx config server sent h)
          (sub server (inl refl)) (push_server-Run c w ctx config server sent h) a)
        (λ sent' h'. push_servers-AllPushes rest sent' h' (λ s m. sub s (inr m)))

  or_unreachable-AllPushes :
      (p : Result Bool AuthReport × History) → AllPushes p.1 → AllPushes (or_unreachable p).1
  or_unreachable-AllPushes (ok sent, h) a = a
  or_unreachable-AllPushes (err e, h) a = a

-- Every exchange of an MSCHAPv2 attempt is such a one.
pub mschapv2_flow-AllPushes :
    (c : Primitives) (w : World) (ctx : AttemptContext) (config : Config)
    → AllPushes c w ctx config (mschapv2_flow c w ctx config []).1
unfolding mschapv2_flow
mschapv2_flow-AllPushes c w ctx config =
    or_unreachable-AllPushes c w ctx config (push_servers c w ctx config config.servers false [])
      (push_servers-AllPushes c w ctx config config.servers false [] (λ s m. m) tt)
