-- ===== src/System/Sent.antt =====
-- What the exchanges of an MSCHAPv2 attempt put on the network.
use pam_nps_mfa.Base.{
  suc, ◌≡◌, ◌≢◌, refl, sym, ◌∙◌, ap, ◌⊎◌, inl, inr, Bool, true, some, [], ◌∷◌, Bytes, get_or, All,
  Result, ok, err,
}
use pam_nps_mfa.Base.Text.{utf8}
use pam_nps_mfa.Primitives.{Primitives}
use pam_nps_mfa.World.{
  History, drew, informed, prompted, exchanged, SocketAddr, TransportError, unreachable,
}
use pam_nps_mfa.Config.{Server, Config}
use pam_nps_mfa.Radius.Udp.{UdpTransport, Outcome, Log, returned, panicked, out_of_fuel, exchange}
use pam_nps_mfa.Radius.Udp.Contract.{Failover, exchange-Promise}
use pam_nps_mfa.Radius.Udp.Retransmits.{Within, exchange-Within}
use pam_nps_mfa.Radius.Udp.Panic.{panics_in, Ends, does_panic, does_return, exchange-Ends}
use pam_nps_mfa.Mschap.Exchange.{Challenges}
use pam_nps_mfa.Flow.{AttemptContext}
use pam_nps_mfa.Flow.Packets.{build_mschapv2_packet}
use pam_nps_mfa.Flow.Trace.{In, exchanges, WasUnreachable, IsCommitted}
use pam_nps_mfa.Flow.Push.{mschapv2_flow}
use pam_nps_mfa.Flow.Push.Run.{request_of, binds}
use pam_nps_mfa.Flow.Push.Requests.{IsPush, AllPushes, mschapv2_flow-AllPushes}
use pam_nps_mfa.Flow.Push.Safety.{mschapv2_flow-IsCommitted}
use pam_nps_mfa.System.{System, exchange_at-settles, settled, world_over}

settled-returned :
    (o : Outcome (Result Bytes TransportError)) (d : o ≢ out_of_fuel) (b : Bool)
    → Ends b o
    → (o ≡ returned (settled o d)) ⊎ ((b ≡ true) × (o ≡ panicked))
settled-returned (returned r) d b e = inl refl
settled-returned panicked d b (does_panic p q) = inr (p, refl)
settled-returned panicked d b (does_return p r) = absurd (cc (r.is_returned))
settled-returned out_of_fuel d b e = absurd (d refl)

settled-unreachable :
    (o : Outcome (Result Bytes TransportError)) (d : o ≢ out_of_fuel)
    → settled o d ≡ err unreachable
    → o ≡ returned (err unreachable)
settled-unreachable (returned r) d e = ap returned e
settled-unreachable panicked d e = absurd (cc)
settled-unreachable out_of_fuel d e = absurd (d refl)

module _ (c : Primitives) (s : System) (t : UdpTransport) (silent : Bool) (ctx : AttemptContext)
    (config : Config) where
  -- The run of the UDP exchange behind the history, with what a server's answer is tested with.
  abbrev pub run_of :
      History → SocketAddr → Bytes → Server → Bytes → Outcome (Result Bytes TransportError) × Log
  run_of h to request server ra =
      exchange (s.socket h) t (suc t.mfa_timeout) s.patience to request
        (binds c (world_over s t silent) ctx config server ra)

  -- A run with a configured server at its address, of the request that is built for that server out
  -- of octets drawn before, under the binding to that request. It returned the result, unless it
  -- panicked; it transmitted the request, and nothing else, at most `retries + 1` times; and where it
  -- found the server unreachable, it ended on an explicit transport error.
  pub record IsRun (h : History) (to : SocketAddr) (request : Bytes)
      (result : Result Bytes TransportError) : Type 0 where
    pub server : Server
    pub is_configured : In server config.servers
    pub is_addressed : to ≡ server.addr
    pub ra : Bytes
    pub challenges : Challenges
    pub ra_drawn : In (drew (some ra)) h
    pub authenticator_challenge_drawn : In (drew (some challenges.authenticator_challenge)) h
    pub peer_challenge_drawn : In (drew (some challenges.peer_challenge)) h
    pub built :
        build_mschapv2_packet c ctx.username
          (request_of c (world_over s t silent) ctx config server ra challenges)
          (get_or ra 0 0)
          ra
          config
          (utf8 server.secret)
        ≡ ok request
    pub ends :
        ((run_of h to request server ra).0 ≡ returned result)
        ⊎ ((panics_in (s.socket h) t s.patience to request ≡ true)
            × ((run_of h to request server ra).0 ≡ panicked))
    pub transmits : Within request (suc t.retries) (run_of h to request server ra).1
    pub failover :
        result ≡ err unreachable
        → Failover (s.socket h) t to request (run_of h to request server ra).1

  -- Such a run that found its server unreachable.
  abbrev pub IsGivenUp : History → SocketAddr → Bytes → Result Bytes TransportError → Type 0
  IsGivenUp h to request result = IsRun h to request result × (result ≡ err unreachable)

  abbrev pub AllGivenUp : History → Type 0
  AllGivenUp [] = Unit
  AllGivenUp (exchanged to request r ∷ h) = IsGivenUp h to request r × AllGivenUp h
  AllGivenUp (drew r ∷ h) = AllGivenUp h
  AllGivenUp (informed m r ∷ h) = AllGivenUp h
  AllGivenUp (prompted m r ∷ h) = AllGivenUp h

  -- Every exchange is such a run, and all before the newest were given up.
  abbrev pub AllRun : History → Type 0
  AllRun [] = Unit
  AllRun (exchanged to request r ∷ h) = IsRun h to request r × AllGivenUp h
  AllRun (drew r ∷ h) = AllRun h
  AllRun (informed m r ∷ h) = AllRun h
  AllRun (prompted m r ∷ h) = AllRun h

  IsPush-IsRun :
      (h : History) (to : SocketAddr) (request : Bytes) (result : Result Bytes TransportError)
      → IsPush c (world_over s t silent) ctx config h to request result
      → IsRun h to request result
  IsPush-IsRun h to request result p =
      let accept = binds c (world_over s t silent) ctx config p.server p.ra in
      let promise =
        exchange-Promise (s.socket h) t (suc t.mfa_timeout) s.patience to request accept in
      record {
        server = p.server;
        is_configured = p.is_configured;
        is_addressed = p.is_addressed;
        ra = p.ra;
        challenges = p.challenges;
        ra_drawn = p.ra_drawn;
        authenticator_challenge_drawn = p.authenticator_challenge_drawn;
        peer_challenge_drawn = p.peer_challenge_drawn;
        built = p.built;
        ends = rw p.is_answer (
            settled-returned _ (exchange_at-settles s t h to request accept) _ (
              exchange-Ends (s.socket h) (s.socket_clock h) t s.patience request
                (s.socket_settles h request) accept to));
        transmits = exchange-Within (s.socket h) t (suc t.mfa_timeout) s.patience to request accept;
        failover = λ u. promise.failover (
            settled-unreachable _ (exchange_at-settles s t h to request accept)
              (sym p.is_answer ∙ u));
      }

  AllPushes-AllGivenUp :
      (h : History)
      → AllPushes c (world_over s t silent) ctx config h
      → All WasUnreachable (exchanges h)
      → AllGivenUp h
  AllPushes-AllGivenUp [] p u = tt
  AllPushes-AllGivenUp (exchanged to request r ∷ h) (p, ps) (u, us) =
      ((IsPush-IsRun h to request r p, u), AllPushes-AllGivenUp h ps us)
  AllPushes-AllGivenUp (drew r ∷ h) ps us = AllPushes-AllGivenUp h ps us
  AllPushes-AllGivenUp (informed m r ∷ h) ps us = AllPushes-AllGivenUp h ps us
  AllPushes-AllGivenUp (prompted m r ∷ h) ps us = AllPushes-AllGivenUp h ps us

  AllPushes-AllRun :
      (h : History)
      → AllPushes c (world_over s t silent) ctx config h
      → IsCommitted (exchanges h)
      → AllRun h
  AllPushes-AllRun [] p u = tt
  AllPushes-AllRun (exchanged to request r ∷ h) (p, ps) us =
      (IsPush-IsRun h to request r p, AllPushes-AllGivenUp h ps us)
  AllPushes-AllRun (drew r ∷ h) ps us = AllPushes-AllRun h ps us
  AllPushes-AllRun (informed m r ∷ h) ps us = AllPushes-AllRun h ps us
  AllPushes-AllRun (prompted m r ∷ h) ps us = AllPushes-AllRun h ps us

-- Each exchange in the history of an MSCHAPv2 attempt over the sockets is one run of the UDP exchange
-- with a configured server at its address, of the request that is built for that server out of octets
-- drawn before, where only a datagram bound to that request is accepted. The run transmitted that
-- request, and nothing else, at most `retries + 1` times, and returned the result that the history
-- holds, unless it panicked. And every run but the last found its server unreachable, by an
-- explicit transport error of connect, of a send of the request, or of a recv while less than
-- probe_timeout had passed since the start.
pub mschapv2_flow-AllRun :
    (c : Primitives) (s : System) (t : UdpTransport) (silent : Bool) (ctx : AttemptContext)
    (config : Config)
    → AllRun c s t silent ctx config (mschapv2_flow c (world_over s t silent) ctx config []).1
mschapv2_flow-AllRun c s t silent ctx config =
    AllPushes-AllRun c s t silent ctx config
      (mschapv2_flow c (world_over s t silent) ctx config []).1
      (mschapv2_flow-AllPushes c (world_over s t silent) ctx config)
      (mschapv2_flow-IsCommitted c (world_over s t silent) ctx config)
