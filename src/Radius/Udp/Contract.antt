-- ===== src/Radius/Udp/Contract.antt =====
-- What `exchange` of udp.rs returns to its caller, and when it says that a server is unreachable.
use pam_nps_mfa.Base.{
  ℕ, ◌<◌, ◌≤◌, ◌-◌, ◌≡◌, ◌≢◌, refl, arith, Bool, true, Option, none, some, [], ◌∷◌, Bytes, length,
  take, length-take, Result, ok, err, Option-cases, inl, inr,
}
use pam_nps_mfa.World.{SocketAddr, TransportError}
use pam_nps_mfa.Radius.{max_packet_len}
use pam_nps_mfa.Radius.Udp.{
  ErrorKind, IoClass, classify, send_error, looked, sent, received, Log, Socket, UdpTransport,
  Outcome, returned, Turn, after_retransmit, retransmit_interval, start_wait, start_exchange,
  connected, exchange,
}
use pam_nps_mfa.Radius.Udp.Turns.{
  Ran, ended, accepted, failed_early, waited, waited_looking, retransmitted, got, looking,
}
use pam_nps_mfa.Radius.Udp.Invariant.{
  TurnPost, wait-Post, Sent, nothing, resumed, SendRun, unfinished, delivered, failed,
  send_request-SendRun,
}

-- The datagram is the newest entry, cut to the buffer, and it was accepted.
pub record Answer (accept : Bytes → Bool) (d : Bytes) (log : Log) : Type 0 where
  pub timeout : ℕ
  pub raw : Bytes
  pub older : Log
  pub is_newest : log ≡ received timeout (ok raw) ∷ older
  pub is_capped : (d ≡ take max_packet_len raw) × (length d ≤ max_packet_len)
  pub is_accepted : accept d ≡ true

-- The oldest reading of the clock, which is the start of the wait.
abbrev pub started : Log → Option ℕ
started [] = none
started (looked n ∷ log) = elim (started log) [ none ↦ some n | some m ↦ some m ]
started (sent b r ∷ log) = started log
started (received n r ∷ log) = started log

-- Why an exchange gave its server up: an explicit transport error of `connect`, of `send`, or of
-- `recv` while less than `probe_timeout` had passed since the start.
pub data Failover (socket : Socket) (t : UdpTransport) (server : SocketAddr) (request : Bytes)
    : Log → Type 0 where
  at_connect :
      (e : ErrorKind)
      → socket.connect server ≡ err e
      → classify e ≡ IoClass.unreachable
      → Failover socket t server request []
  at_send :
      (e : ErrorKind) (log : Log)
      → classify e ≡ IoClass.unreachable
      → Failover socket t server request (sent request (err e) ∷ log)
  in_probe_window :
      (e : ErrorKind) (log : Log) (start now timeout : ℕ)
      → classify e ≡ IoClass.unreachable
      → started log ≡ some start
      → now - start < t.probe_timeout
      → Failover socket t server request (looked now ∷ received timeout (err e) ∷ log)

send_error-unreachable :
    (e : ErrorKind) → send_error e ≡ TransportError.unreachable → classify e ≡ IoClass.unreachable
unfolding send_error classify
send_error-unreachable ErrorKind.connection_refused h = refl
send_error-unreachable ErrorKind.host_unreachable h = refl
send_error-unreachable ErrorKind.network_unreachable h = refl
send_error-unreachable ErrorKind.would_block h = absurd (cc)
send_error-unreachable ErrorKind.timed_out h = absurd (cc)
send_error-unreachable ErrorKind.interrupted h = absurd (cc)
send_error-unreachable ErrorKind.other h = absurd (cc)

started-look : (log : Log) (n m : ℕ) → started log ≡ some m → started (looked n ∷ log) ≡ some m
started-look log n m e = rw e

Sent-started :
    (request : Bytes) (log l : Log) (m : ℕ)
    → Sent request log l
    → started log ≡ some m
    → started l ≡ some m
Sent-started request log l m nothing e = e
Sent-started request log l m (resumed l' s) e = Sent-started request log l' m s e

Sent-unstarted : (request : Bytes) (l : Log) → Sent request [] l → started l ≡ none
Sent-unstarted request l nothing = refl
Sent-unstarted request l (resumed l' s) = Sent-unstarted request l' s

module _ (socket : Socket) (t : UdpTransport) (sends : ℕ) (server : SocketAddr) (request : Bytes)
    (accept : Bytes → Bool) where
  -- What the end of the loop says, for either kind of result.
  pub record Promise (r : Outcome (Result Bytes TransportError)) (log : Log) : Type 0 where
    pub answer : (d : Bytes) → r ≡ returned (ok d) → Answer accept d log
    pub failover :
        r ≡ returned (err TransportError.unreachable) → Failover socket t server request log

  abbrev Started : ℕ → ℕ → ℕ → Log → Type 0
  Started start left next log = started log ≡ some start

  quiet :
      (r : Outcome (Result Bytes TransportError)) (log : Log)
      → ((d : Bytes) → r ≢ returned (ok d))
      → r ≢ returned (err TransportError.unreachable)
      → Promise r log
  quiet r log no_answer no_failover = record {
    answer = λ d e. absurd (no_answer d e);
    failover = λ e. absurd (no_failover e);
  }

  resend :
      (start interval left next : ℕ) (log : Log) (r : Outcome (Result (Unit {0}) TransportError))
      (l : Log)
      → SendRun request log r l
      → started log ≡ some start
      → TurnPost
          (Started start)
          Promise
          (after_retransmit socket t sends request accept start interval left next (r, l))
  resend start interval left next log _ _ (unfinished l s) e = quiet _ _ (λ d q. cc) (λ q. cc)
  resend start interval left next log _ _ (delivered l s) e = Sent-started request log l start s e
  resend start interval left next log _ _ (failed l k s) e = record {
    answer = λ d q. absurd (cc);
    failover = λ q. at_send k l (send_error-unreachable k (cc));
  }

  step :
      (start interval left next : ℕ) (log : Log) (p : Turn × Log)
      → Ran socket t sends request accept start interval left next log p
      → started log ≡ some start
      → TurnPost (Started start) Promise p
  step start interval left next log _ (ended e l k a) i = quiet _ _ (λ d q. cc) (λ q. k (cc))
  step start interval left next log _ (accepted n d a) i = record {
    answer = λ d' q.
        let same : take max_packet_len d ≡ d' = cc in
        rw (← same) (record {
          timeout = n;
          raw = d;
          older = _;
          is_newest = refl;
          is_capped = (refl, omega (arith, length-take max_packet_len d));
          is_accepted = a;
        });
    failover = λ q. absurd (cc);
  }
  step start interval left next log _ (failed_early n e k early) i = record {
    answer = λ d q. absurd (cc);
    failover = λ q. in_probe_window e _ start _ n k (started-look log _ start i) early;
  }
  step start interval left next log _ (waited n r e) i = started-look log _ start i
  step start interval left next log _ (waited_looking n r e) i =
      started-look (got socket t sends request accept start log n r) _ start
        (started-look log _ start i)
  step start interval left next log _ (retransmitted n r e pos) i =
      let l =
        looking socket t sends request accept start
          (got socket t sends request accept start log n r) in
      resend start interval left next l _ _ (send_request-SendRun socket request sends l) (
        started-look (got socket t sends request accept start log n r) _ start
          (started-look log _ start i))

  first :
      (turns : ℕ) (r : Outcome (Result (Unit {0}) TransportError)) (l : Log)
      → SendRun request [] r l
      → Promise
          (start_wait socket t turns sends request accept (r, l)).0
          (start_wait socket t turns sends request accept (r, l)).1
  unfolding start_wait
  first turns _ _ (unfinished l s) = quiet _ _ (λ d q. cc) (λ q. cc)
  first turns _ _ (failed l k s) = record {
    answer = λ d q. absurd (cc);
    failover = λ q. at_send k l (send_error-unreachable k (cc));
  }
  first turns _ _ (delivered l s) =
      let log = sent request (ok tt) ∷ l in
      let start = socket.clock log in
      elim (Option-cases (retransmit_interval t.probe_timeout t.retries)) [
        | inl e ↦ rw (e, start_wait) (quiet _ _ (λ d q. cc) (λ q. cc))
        | inr (interval, e) ↦
            rw (e, start_wait)
              (wait-Post socket t sends request accept start interval (Started start) Promise
                (step start interval) (λ left next log i. quiet _ _ (λ d q. cc) (λ q. cc)) turns
                t.retries interval (looked start ∷ log) (starts l s))
      ]
    where
      starts :
          (l : Log)
          → Sent request [] l
          → started (looked (socket.clock (sent request (ok tt) ∷ l)) ∷ sent request (ok tt) ∷ l)
            ≡ some (socket.clock (sent request (ok tt) ∷ l))
      starts l s = rw (Sent-unstarted request l s)

  from_connect :
      (turns : ℕ) (b n : Result (Unit {0}) ErrorKind)
      → socket.connect server ≡ n
      → Promise
          (start_exchange socket t turns sends request accept (connected b n)).0
          (start_exchange socket t turns sends request accept (connected b n)).1
  unfolding connected
  from_connect turns (err e) n q = quiet _ _ (λ d q. cc) (λ q. cc)
  from_connect turns (ok u) (err e) n = record {
    answer = λ d q. absurd (cc);
    failover = λ q. at_connect e n (send_error-unreachable e (cc));
  }
  from_connect turns (ok u) (ok v) n =
      first turns _ _ (send_request-SendRun socket request sends [])

-- Whatever the socket, the clock and the fuel do: a datagram that `exchange` returns is the newest
-- that arrived, cut to 4096 octets, and its caller accepted it; and where `exchange` says
-- `unreachable`, the last event is an explicit transport error of `connect`, of a `send` of the
-- request, or of a `recv` that failed while less than `probe_timeout` had passed since the start.
pub exchange-Promise :
    (socket : Socket) (t : UdpTransport) (turns sends : ℕ) (server : SocketAddr) (request : Bytes)
    (accept : Bytes → Bool)
    → Promise socket t sends server request accept
        (exchange socket t turns sends server request accept).0
        (exchange socket t turns sends server request accept).1
unfolding exchange
exchange-Promise socket t turns sends server request accept =
    from_connect socket t sends server request accept turns socket.bind (socket.connect server) refl
