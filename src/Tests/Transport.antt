-- ===== src/Tests/Transport.antt =====
-- Runs of the UDP transport on a socket that is silent at first and then answers.
use pam_nps_mfa.Base.{
  ℕ, ◌≡◌, refl, arith, Bool, true, [], ◌∷◌, Bytes, length, ltb, if◌then◌else◌, Result, ok, err, inl,
}
use pam_nps_mfa.World.{unreachable}
use pam_nps_mfa.Radius.Udp.{
  ErrorKind, would_block, connection_refused, Log, Socket, UdpTransport, returned, panicked,
  exchange, connected,
}
use pam_nps_mfa.Radius.Udp.Contract.{Promise, exchange-Promise}
use pam_nps_mfa.Radius.Udp.Retransmits.{Within, deliveries, exchange-Within}
use pam_nps_mfa.Radius.Udp.Termination.{IsClock, Returns, exchange-Returns}
use pam_nps_mfa.Tests.Fixtures.{nps}

abbrev silent_until : ℕ → Log → ℕ → Result Bytes ErrorKind
silent_until n log timeout = if ltb (length log) n then err would_block else ok (7 ∷ [])

abbrev slow : Socket
slow = record {
  bind = ok tt;
  connect = λ server. ok tt;
  clock = length;
  set_read_timeout = λ log n. true;
  send = λ log request. ok tt;
  recv = silent_until 8;
}

-- The same, but nobody listens.
abbrev refused : Socket
refused = record slow { recv = λ log timeout. err connection_refused }

abbrev transport : UdpTransport
transport = record { probe_timeout = 9; mfa_timeout = 40; retries = 2 }

abbrev accept_any : Bytes → Bool
accept_any d = ltb 0 (length d)

answers : (exchange slow transport 20 1 nps.addr (1 ∷ []) accept_any).0 ≡ returned (ok (7 ∷ []))
unfolding exchange connected
answers = refl

retransmits : deliveries (exchange slow transport 20 1 nps.addr (1 ∷ []) accept_any).1 ≡ 3
unfolding exchange connected
retransmits = refl

gives_up :
    (exchange refused transport 20 1 nps.addr (1 ∷ []) accept_any).0 ≡ returned (err unreachable)
unfolding exchange connected
gives_up = refl

-- The retry count that the configuration accepts and the division does not.
panics :
    (exchange slow (record transport { retries = 4294967295 }) 20 1 nps.addr (1 ∷ []) accept_any).0
    ≡ panicked
unfolding exchange connected
panics = refl

exchange-Promise_example :
    Promise slow transport 1 nps.addr
      (1 ∷ [])
      accept_any
      (exchange slow transport 20 1 nps.addr (1 ∷ []) accept_any).0
      (exchange slow transport 20 1 nps.addr (1 ∷ []) accept_any).1
exchange-Promise_example = exchange-Promise slow transport 20 1 nps.addr (1 ∷ []) accept_any

exchange-Within_example :
    Within (1 ∷ []) 3 (exchange slow transport 20 1 nps.addr (1 ∷ []) accept_any).1
exchange-Within_example = exchange-Within slow transport 20 1 nps.addr (1 ∷ []) accept_any

slow-IsClock : IsClock slow
slow-IsClock = record { monotone = λ e log. omega arith; advances = λ n r log. omega arith }

exchange-Returns_example : Returns (exchange slow transport 41 1 nps.addr (1 ∷ []) accept_any).0
exchange-Returns_example =
    exchange-Returns slow slow-IsClock transport 1 (1 ∷ []) (λ log. inl refl) accept_any
      (omega arith) nps.addr
