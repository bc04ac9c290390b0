-- ===== src/Radius/Udp/Invariant.antt =====
-- Invariants of the loop of `exchange`, and what `send_request` leaves in the log.
use pam_nps_mfa.Base.{ℕ, zero, suc, ◌≡◌, refl, Bool, ◌∷◌, Bytes, Result, ok, err}
use pam_nps_mfa.World.{TransportError}
use pam_nps_mfa.Radius.Udp.{
  ErrorKind, interrupted, send_error, sent, Log, Socket, UdpTransport, Outcome, returned,
  out_of_fuel, Turn, again, stop, send_request, wait, turn, or_again,
}
use pam_nps_mfa.Radius.Udp.Turns.{Ran, turn-Ran}

abbrev pub TurnPost :
    (ℕ → ℕ → Log → Type 0)
    → (Outcome (Result Bytes TransportError) → Log → Type 0)
    → Turn × Log
    → Type 0
TurnPost Inv Post (again left next, log) = Inv left next log
TurnPost Inv Post (stop r, log) = Post r log

module _ (socket : Socket) (t : UdpTransport) (sends : ℕ) (request : Bytes) (accept : Bytes → Bool)
    (start interval : ℕ) (Inv : ℕ → ℕ → Log → Type 0)
    (Post : Outcome (Result Bytes TransportError) → Log → Type 0)
    (step : (left next : ℕ) (log : Log) (p : Turn × Log)
      → Ran socket t sends request accept start interval left next log p
      → Inv left next log
      → TurnPost Inv Post p)
    (unfinished : (left next : ℕ) (log : Log) → Inv left next log → Post out_of_fuel log) where
  abbrev go_on : ℕ → Turn × Log → Outcome (Result Bytes TransportError) × Log
  go_on fuel p =
      or_again socket t sends request accept start p
        (wait socket t sends request accept start fuel interval)

  -- What every turn keeps holds when the loop ends.
  pub wait-Post :
      (fuel left next : ℕ) (log : Log)
      → Inv left next log
      → Post
          (wait socket t sends request accept start fuel interval left next log).0
          (wait socket t sends request accept start fuel interval left next log).1
  unfolding wait
  wait-Post zero left next log i = unfinished left next log i
  wait-Post (suc fuel) left next log i =
      cases (turn socket t sends request accept start interval left next log)
        (step left next log _ (turn-Ran socket t sends request accept start interval left next log)
          i)
        (λ left' next' l. wait-Post fuel left' next' l)
    where
      cases :
          (p : Turn × Log)
          → TurnPost Inv Post p
          → ((left' next' : ℕ) (l : Log)
              → Inv left' next' l
              → Post
                  (wait socket t sends request accept start fuel interval left' next' l).0
                  (wait socket t sends request accept start fuel interval left' next' l).1)
          → Post (go_on fuel p).0 (go_on fuel p).1
      cases (stop r, l) post later = post
      cases (again left' next', l) post later = later left' next' l post

-- How `send_request` ended, behind the interrupted calls of `send` that stand in the log.
pub data Sent (request : Bytes) (log : Log) : Log → Type 0 where
  nothing : Sent request log log
  resumed : (l : Log) → Sent request log l → Sent request log (sent request (err interrupted) ∷ l)

pub data SendRun (request : Bytes) (log : Log)
    : Outcome (Result (Unit {0}) TransportError) → Log → Type 0 where
  unfinished : (l : Log) → Sent request log l → SendRun request log out_of_fuel l
  delivered :
      (l : Log)
      → Sent request log l
      → SendRun request log (returned (ok tt)) (sent request (ok tt) ∷ l)
  failed :
      (l : Log) (e : ErrorKind)
      → Sent request log l
      → SendRun request log (returned (err (send_error e))) (sent request (err e) ∷ l)

module _ (socket : Socket) (request : Bytes) where
  send_request-from :
      (fuel : ℕ) (log l : Log)
      → Sent request log l
      → SendRun request log
          (send_request socket fuel request l).0
          (send_request socket fuel request l).1
  unfolding send_request
  send_request-from zero log l s = unfinished l s
  send_request-from (suc fuel) log l s =
      cases (socket.send l request) refl
        (send_request-from fuel log (sent request (err interrupted) ∷ l) (resumed l s))
    where
      cases :
          (r : Result (Unit {0}) ErrorKind)
          → socket.send l request ≡ r
          → SendRun request log
              (send_request socket fuel request (sent request (err interrupted) ∷ l)).0
              (send_request socket fuel request (sent request (err interrupted) ∷ l)).1
          → SendRun request log
              (send_request socket (suc fuel) request l).0
              (send_request socket (suc fuel) request l).1
      cases (ok u) e later = rw e (delivered l s)
      cases (err ErrorKind.interrupted) e later = rw e later
      cases (err ErrorKind.connection_refused) e later = rw e (failed l _ s)
      cases (err ErrorKind.host_unreachable) e later = rw e (failed l _ s)
      cases (err ErrorKind.network_unreachable) e later = rw e (failed l _ s)
      cases (err ErrorKind.would_block) e later = rw e (failed l _ s)
      cases (err ErrorKind.timed_out) e later = rw e (failed l _ s)
      cases (err ErrorKind.other) e later = rw e (failed l _ s)

  pub send_request-SendRun :
      (fuel : ℕ) (log : Log)
      → SendRun request log
          (send_request socket fuel request log).0
          (send_request socket fuel request log).1
  send_request-SendRun fuel log = send_request-from fuel log log nothing
