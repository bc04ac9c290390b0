-- ===== src/Radius/Udp/Panic.antt =====
-- crates/radius/src/udp.rs: the exchanges that panic, at the division of `retransmit_interval`.
use pam_nps_mfa.Base.{
  ℕ, suc, ◌≡◌, ◌≢◌, refl, Bool, true, false, ◌&&◌, Option, arith, Option-cases, inl, inr, none,
  some, Bytes, Result, ok, err, [],
}
use pam_nps_mfa.World.{SocketAddr, TransportError}
use pam_nps_mfa.Radius.Udp.{
  Log, Socket, UdpTransport, Outcome, returned, panicked, out_of_fuel, send_request,
  retransmit_interval, start_wait, start_exchange, connected, exchange,
}
use pam_nps_mfa.Radius.Udp.Termination.{
  IsClock, Settles, Returns, send_request-SendReturns, start_exchange-Returns,
}

-- The first transmission was handed to the network.
abbrev pub went_out : Outcome (Result (Unit {0}) TransportError) → Bool
went_out (returned (ok _)) = true
went_out _ = false

abbrev pub is_connected : Result (Unit {0}) TransportError → Bool
is_connected (ok _) = true
is_connected (err _) = false

-- Whether there is no interval to wait for.
abbrev pub has_no_interval : Option ℕ → Bool
has_no_interval none = true
has_no_interval (some _) = false

-- Whether an exchange comes to the division and the division panics.
unfoldable pub panics_in : Socket → UdpTransport → ℕ → SocketAddr → Bytes → Bool
unfolding retransmit_interval connected send_request
panics_in socket t sends server request =
    is_connected (connected socket.bind (socket.connect server))
    && went_out (send_request socket sends request []).0
    && has_no_interval (retransmit_interval t.probe_timeout t.retries)

-- The exchange panics, or it returns.
pub data Ends (panics : Bool) (o : Outcome (Result Bytes TransportError)) : Type 0 where
  does_panic : panics ≡ true → o ≡ panicked → Ends panics o
  does_return : panics ≡ false → Returns o → Ends panics o

pub Ends-out_of_fuel :
    (b : Bool) (o : Outcome (Result Bytes TransportError)) → Ends b o → o ≢ out_of_fuel
Ends-out_of_fuel b o (does_panic p e) q = absurd (cc)
Ends-out_of_fuel b o (does_return p r) q = absurd (cc (r.is_returned))

and_true : (b : Bool) → (b && true) ≡ b
and_true b = ground arith

module _ (socket : Socket) (clock : IsClock socket) (t : UdpTransport) (k : ℕ) (request : Bytes)
    (settles : (log : Log) → Settles socket k request log) (accept : Bytes → Bool) where
  sent-Ends :
      (p : Outcome (Result (Unit {0}) TransportError) × Log)
      → Returns p.0
      → retransmit_interval t.probe_timeout t.retries ≡ none
      → Ends (went_out p.0) (start_wait socket t (suc t.mfa_timeout) k request accept p).0
  unfolding start_wait
  sent-Ends (returned (ok u), log) r e = does_panic refl (rw (e, start_wait) refl)
  sent-Ends (returned (err x), log) r e =
      does_return refl (record { value = err x; is_returned = refl })
  sent-Ends (panicked, log) r e = absurd (cc (r.is_returned))
  sent-Ends (out_of_fuel, log) r e = absurd (cc (r.is_returned))

  start_exchange-Ends :
      (c : Result (Unit {0}) TransportError)
      → Ends
          (is_connected c
            && went_out (send_request socket k request []).0
            && has_no_interval (retransmit_interval t.probe_timeout t.retries))
          (start_exchange socket t (suc t.mfa_timeout) k request accept c).0
  start_exchange-Ends c = elim (Option-cases (retransmit_interval t.probe_timeout t.retries)) [
    | inr d ↦
        does_return (rw (d.1) (and_false c))
          (start_exchange-Returns socket clock t k request settles accept d c)
    | inl e ↦ undivided c e
  ]
    where
      and_false :
          (c : Result (Unit {0}) TransportError)
          → (is_connected c && went_out (send_request socket k request []).0 && false) ≡ false
      and_false c = ground arith

      undivided :
          (c : Result (Unit {0}) TransportError)
          → retransmit_interval t.probe_timeout t.retries ≡ none
          → Ends
              (is_connected c
                && went_out (send_request socket k request []).0
                && has_no_interval (retransmit_interval t.probe_timeout t.retries))
              (start_exchange socket t (suc t.mfa_timeout) k request accept c).0
      undivided (err x) e = does_return refl (record { value = err x; is_returned = refl })
      undivided (ok u) e =
          rw (e, and_true _)
            (sent-Ends _ (send_request-SendReturns socket clock request k [] (settles [])).returns
              e)

  -- Where the clock does not go back, each `recv` takes time and fewer than `k` calls of `send` in a
  -- row are interrupted, an exchange panics where `panics_in` says so, and returns otherwise.
  pub exchange-Ends :
      (server : SocketAddr)
      → Ends
          (panics_in socket t k server request)
          (exchange socket t (suc t.mfa_timeout) k server request accept).0
  unfolding exchange panics_in
  exchange-Ends server = start_exchange-Ends (connected socket.bind (socket.connect server))
