-- ===== src/Radius/Udp/Termination.antt =====
-- The turns and the time of an exchange of udp.rs.
use pam_nps_mfa.Base.{
  ℕ, zero, suc, ◌<◌, ◌≤◌, ◌+◌, ◌%◌, ◌≡◌, ◌⊎◌, ◌==◌, refl, arith, Bool, Bool-cases, false, some, [],
  ◌∷◌, Bytes, Result, ok, err, inl, inr,
}
use pam_nps_mfa.World.{SocketAddr, TransportError}
use pam_nps_mfa.Radius.Udp.{
  ErrorKind, interrupted, Entry, looked, sent, received, Log, Socket, UdpTransport, Outcome,
  returned, panicked, out_of_fuel, Turn, again, stop, send_request, sent_result, resumes,
  after_retransmit, wait, or_again, retransmit_interval, start_wait, start_exchange, connected,
  exchange,
}
use pam_nps_mfa.Radius.Udp.Turns.{
  Ran, ended, accepted, failed_early, waited, waited_looking, retransmitted, got, looking, passed,
  turn-Ran,
}

-- `Instant` does not go back, and a call of `recv` takes time.
pub record IsClock (socket : Socket) : Type 0 where
  pub monotone : (e : Entry) (log : Log) → socket.clock log ≤ socket.clock (e ∷ log)
  pub advances :
      (n : ℕ) (r : Result Bytes ErrorKind) (log : Log)
      → socket.clock log < socket.clock (received n r ∷ log)

-- Signals interrupt fewer than `k` calls of `send` in a row.
abbrev pub Settles : Socket → ℕ → Bytes → Log → Type 0
Settles socket zero request log = ⊥
Settles socket (suc k) request log =
    (resumes (socket.send log request) ≡ false)
    ⊎ Settles socket k request (sent request (err interrupted) ∷ log)

pub record Returns {A : Type 0} (o : Outcome A) : Type 0 where
  pub value : A
  pub is_returned : o ≡ returned value

module _ (socket : Socket) (clock : IsClock socket) (request : Bytes) where
  -- `send_request` returns, and time does not go back meanwhile.
  pub record SendReturns (log : Log) (p : Outcome (Result (Unit {0}) TransportError) × Log)
      : Type 0 where
    pub returns : Returns p.0
    pub later : socket.clock log ≤ socket.clock p.1

  pub send_request-SendReturns :
      (k : ℕ) (log : Log)
      → Settles socket k request log
      → SendReturns log (send_request socket k request log)
  unfolding send_request
  send_request-SendReturns zero log s = absurd s
  send_request-SendReturns (suc k) log s =
      cases (socket.send log request) refl
        (λ s'. send_request-SendReturns k (sent request (err interrupted) ∷ log) s')
    where
      done :
          (r : Result (Unit {0}) ErrorKind)
          → SendReturns log (returned (sent_result r), sent request r ∷ log)
      done r = record {
        returns = record { value = sent_result r; is_returned = refl };
        later = clock.monotone (sent request r) log;
      }

      cases :
          (r : Result (Unit {0}) ErrorKind)
          → socket.send log request ≡ r
          → (Settles socket k request (sent request (err interrupted) ∷ log)
              → SendReturns
                  (sent request (err interrupted) ∷ log)
                  (send_request socket k request (sent request (err interrupted) ∷ log)))
          → SendReturns log (send_request socket (suc k) request log)
      cases (ok u) e rest = rw e (done (ok u))
      cases (err ErrorKind.interrupted) e rest = elim s [
        | inl b ↦ absurd (cc (rw e at b))
        | inr s' ↦ rw e (record {
          returns = (rest s').returns;
          later =
              omega (arith, (rest s').later, clock.monotone (sent request (err interrupted)) log);
        })
      ]
      cases (err ErrorKind.connection_refused) e rest = rw e (done (err _))
      cases (err ErrorKind.host_unreachable) e rest = rw e (done (err _))
      cases (err ErrorKind.network_unreachable) e rest = rw e (done (err _))
      cases (err ErrorKind.would_block) e rest = rw e (done (err _))
      cases (err ErrorKind.timed_out) e rest = rw e (done (err _))
      cases (err ErrorKind.other) e rest = rw e (done (err _))

module _ (socket : Socket) (clock : IsClock socket) (t : UdpTransport) (k : ℕ) (request : Bytes)
    (settles : (log : Log) → Settles socket k request log) (accept : Bytes → Bool) (start : ℕ) where
  -- A turn ends the loop with a result, or takes time before the deadline.
  abbrev Progress : Log → Turn × Log → Type 0
  Progress log (stop r, l) = Returns r
  Progress log (again left next, l) =
      (passed socket t k request accept start log < t.mfa_timeout)
      × (socket.clock log < socket.clock l)

  abbrev reading : Log → Log
  reading log = looking socket t k request accept start log

  takes_time :
      (log : Log) (n : ℕ) (r : Result Bytes ErrorKind)
      → socket.clock log < socket.clock (got socket t k request accept start log n r)
  takes_time log n r =
      omega
        (arith, clock.monotone (looked (socket.clock log)) log, clock.advances n r (reading log))

  resend :
      (interval left next : ℕ) (log l : Log) (p : Outcome (Result (Unit {0}) TransportError) × Log)
      → passed socket t k request accept start log < t.mfa_timeout
      → socket.clock log < socket.clock l
      → SendReturns socket clock request l p
      → Progress log (after_retransmit socket t k request accept start interval left next p)
  resend interval left next log l (returned (ok u), l') early h s = (early, omega (arith, s.later))
  resend interval left next log l (returned (err e), l') early h s = record {
    value = err e;
    is_returned = refl;
  }
  resend interval left next log l (panicked, l') early h s = absurd (cc (s.returns.is_returned))
  resend interval left next log l (out_of_fuel, l') early h s = absurd (cc (s.returns.is_returned))

  Ran-Progress :
      (interval left next : ℕ) (log : Log) (p : Turn × Log)
      → Ran socket t k request accept start interval left next log p
      → Progress log p
  Ran-Progress interval left next log _ (ended e l q a) = record { value = _; is_returned = refl }
  Ran-Progress interval left next log _ (accepted n d a) = record { value = _; is_returned = refl }
  Ran-Progress interval left next log _ (failed_early n e q a) = record {
    value = _;
    is_returned = refl;
  }
  Ran-Progress interval left next log _ (waited n r e) = (e, takes_time log n r)
  Ran-Progress interval left next log _ (waited_looking n r e) =
      let l = got socket t k request accept start log n r in
      (e, omega (arith, takes_time log n r, clock.monotone (looked (socket.clock l)) l))
  Ran-Progress interval left next log _ (retransmitted n r e pos) =
      let l = got socket t k request accept start log n r in
      resend interval left next log (reading l) _ e
        (omega (arith, takes_time log n r, clock.monotone (looked (socket.clock l)) l))
        (send_request-SendReturns socket clock request k (reading l) (settles (reading l)))

  next_turn :
      (log : Log) (p : Turn × Log)
      (rest : ℕ → ℕ → Log → Outcome (Result Bytes TransportError) × Log)
      → Progress log p
      → ((left next : ℕ) (l : Log)
          → passed socket t k request accept start log < t.mfa_timeout
          → socket.clock log < socket.clock l
          → Returns (rest left next l).0)
      → Returns (or_again socket t k request accept start p rest).0
  next_turn log (stop r, l) rest pr later = pr
  next_turn log (again left next, l) rest (e, h) later = later left next l e h

  -- As many turns as there are nanoseconds left before the deadline are enough.
  pub wait-Returns :
      (fuel interval left next : ℕ) (log : Log)
      → start ≤ socket.clock log
      → t.mfa_timeout ≤ passed socket t k request accept start log + fuel
      → Returns (wait socket t k request accept start (suc fuel) interval left next log).0
  unfolding wait
  wait-Returns zero interval left next log s e =
      next_turn log _ _
        (Ran-Progress interval left next log _
          (turn-Ran socket t k request accept start interval left next log))
        (λ left' next' l early h. absurd (omega arith))
  wait-Returns (suc fuel) interval left next log s e =
      next_turn log _ _
        (Ran-Progress interval left next log _
          (turn-Ran socket t k request accept start interval left next log))
        (λ left' next' l early h.
          wait-Returns fuel interval left' next' l (omega arith) (omega arith))

-- The division goes through.
abbrev pub Divides : UdpTransport → Type 0
Divides t = (interval : ℕ) × (retransmit_interval t.probe_timeout t.retries ≡ some interval)

interval_exists : (t : UdpTransport) → t.retries < 4294967295 → Divides t
unfolding retransmit_interval
interval_exists t small = elim (Bool-cases ((t.retries + 1) % 4294967296 == 0)) [
  | inl b ↦ absurd (ground arith)
  | inr b ↦ rw b (_, refl)
]

module _ (socket : Socket) (clock : IsClock socket) (t : UdpTransport) (k : ℕ) (request : Bytes)
    (settles : (log : Log) → Settles socket k request log) (accept : Bytes → Bool)
    (divides : Divides t) where
  first :
      (p : Outcome (Result (Unit {0}) TransportError) × Log)
      → Returns p.0
      → Returns (start_wait socket t (suc t.mfa_timeout) k request accept p).0
  unfolding start_wait
  first (returned (ok u), log) r =
      let (interval, e) = divides in
      let start = socket.clock log in
      rw (e, start_wait)
        (wait-Returns socket clock t k request settles accept start t.mfa_timeout interval t.retries
          interval (looked start ∷ log) (clock.monotone (looked start) log) (omega arith))
  first (returned (err e), log) r = record { value = err e; is_returned = refl }
  first (panicked, log) r = absurd (cc (r.is_returned))
  first (out_of_fuel, log) r = absurd (cc (r.is_returned))

  pub start_exchange-Returns :
      (c : Result (Unit {0}) TransportError)
      → Returns (start_exchange socket t (suc t.mfa_timeout) k request accept c).0
  start_exchange-Returns (err e) = record { value = err e; is_returned = refl }
  start_exchange-Returns (ok u) =
      first _ (send_request-SendReturns socket clock request k [] (settles [])).returns

-- Where the clock does not go back, each `recv` takes time, fewer than `k` calls of `send` in a row
-- are interrupted, and `retries + 1` does not wrap around, an exchange returns: neither panics nor
-- runs out of the `mfa_timeout + 1` turns that it is given.
pub exchange-Returns :
    (socket : Socket) (clock : IsClock socket) (t : UdpTransport) (k : ℕ) (request : Bytes)
    (settles : (log : Log) → Settles socket k request log) (accept : Bytes → Bool)
    (small : t.retries < 4294967295) (server : SocketAddr)
    → Returns (exchange socket t (suc t.mfa_timeout) k server request accept).0
unfolding exchange
exchange-Returns socket clock t k request settles accept small server =
    start_exchange-Returns socket clock t k request settles accept (interval_exists t small)
      (connected socket.bind (socket.connect server))
