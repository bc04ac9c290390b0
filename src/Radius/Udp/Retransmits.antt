-- ===== src/Radius/Udp/Retransmits.antt =====
-- The transmissions of `exchange` of udp.rs.
use pam_nps_mfa.Base.{
  ℕ, suc, ◌<◌, ◌≤◌, ◌+◌, ◌≡◌, refl, arith, Bool, [], ◌∷◌, Bytes, Result, ok, err, Option-cases, inl,
  inr,
}
use pam_nps_mfa.World.{SocketAddr, TransportError}
use pam_nps_mfa.Radius.Udp.{
  looked, sent, received, Log, Socket, UdpTransport, Outcome, out_of_fuel, Turn, after_retransmit,
  retransmit_interval, start_wait, start_exchange, connected, exchange,
}
use pam_nps_mfa.Radius.Udp.Turns.{
  Adds, same, look, receive, Ran, ended, accepted, failed_early, waited, waited_looking,
  retransmitted, got, looking,
}
use pam_nps_mfa.Radius.Udp.Invariant.{
  TurnPost, wait-Post, Sent, nothing, resumed, SendRun, unfinished, delivered, failed,
  send_request-SendRun,
}

-- The transmissions that `send` reported as done.
abbrev pub deliveries : Log → ℕ
deliveries [] = 0
deliveries (sent b (ok _) ∷ log) = suc (deliveries log)
deliveries (sent b (err _) ∷ log) = deliveries log
deliveries (looked _ ∷ log) = deliveries log
deliveries (received _ _ ∷ log) = deliveries log

-- Every `send` was given the octets of the request.
abbrev pub IsOnlyRequest : Bytes → Log → Type 0
IsOnlyRequest request [] = Unit
IsOnlyRequest request (sent b _ ∷ log) = (b ≡ request) × IsOnlyRequest request log
IsOnlyRequest request (looked _ ∷ log) = IsOnlyRequest request log
IsOnlyRequest request (received _ _ ∷ log) = IsOnlyRequest request log

abbrev pub Within : Bytes → ℕ → Log → Type 0
Within request n log = (deliveries log ≤ n) × IsOnlyRequest request log

Within-mono :
    (request : Bytes) (m n : ℕ) (log : Log) → m ≤ n → Within request m log → Within request n log
Within-mono request m n log h (a, b) = (omega arith, b)

Adds-Within :
    (request : Bytes) (n : ℕ) (log l : Log) → Adds log l → Within request n log → Within request n l
Adds-Within request n log l same w = w
Adds-Within request n log _ (look l k a) w = Adds-Within request n log l a w
Adds-Within request n log _ (receive l k r a) w = Adds-Within request n log l a w

Sent-Within :
    (request : Bytes) (n : ℕ) (log l : Log)
    → Sent request log l
    → Within request n log
    → Within request n l
Sent-Within request n log l nothing w = w
Sent-Within request n log _ (resumed l s) w =
    let (a, b) = Sent-Within request n log l s w in (a, (refl, b))

module _ (socket : Socket) (t : UdpTransport) (sends : ℕ) (request : Bytes)
    (accept : Bytes → Bool) where
  -- With `left` retransmissions to go, no more than the others were made.
  abbrev Budget : ℕ → ℕ → Log → Type 0
  Budget left next log = (spent : ℕ) × (spent + left ≡ suc t.retries) × Within request spent log

  abbrev Kept : Outcome (Result Bytes TransportError) → Log → Type 0
  Kept r log = Within request (suc t.retries) log

  Budget-Kept : (left next : ℕ) (log : Log) → Budget left next log → Kept out_of_fuel log
  Budget-Kept left next log (spent, e, w) =
      Within-mono request spent (suc t.retries) log (omega arith) w

  resend :
      (start interval left next : ℕ) (log : Log) (r : Outcome (Result (Unit {0}) TransportError))
      (l : Log)
      → SendRun request log r l
      → 0 < left
      → Budget left next log
      → TurnPost Budget Kept
          (after_retransmit socket t sends request accept start interval left next (r, l))
  resend start interval left next log _ l (unfinished _ s) pos (spent, e, w) =
      Budget-Kept left next l (spent, e, Sent-Within request spent log l s w)
  resend start interval left next log _ _ (delivered l s) pos (spent, e, w) =
      let (a, b) = Sent-Within request spent log l s w in
      (suc spent, omega arith, (omega arith, (refl, b)))
  resend start interval left next log _ _ (failed l k s) pos (spent, e, w) =
      let (a, b) = Budget-Kept left next l (spent, e, Sent-Within request spent log l s w) in
      (a, (refl, b))

  step :
      (start interval left next : ℕ) (log : Log) (p : Turn × Log)
      → Ran socket t sends request accept start interval left next log p
      → Budget left next log
      → TurnPost Budget Kept p
  step start interval left next log _ (ended e l k a) b =
      Adds-Within request (suc t.retries) log l a (Budget-Kept left next log b)
  step start interval left next log _ (accepted n d a) b = Budget-Kept left next log b
  step start interval left next log _ (failed_early n e k early) b = Budget-Kept left next log b
  step start interval left next log _ (waited n r e) b = b
  step start interval left next log _ (waited_looking n r e) b = b
  step start interval left next log _ (retransmitted n r e pos) b =
      let l =
        looking socket t sends request accept start
          (got socket t sends request accept start log n r) in
      resend start interval left next l _ _ (send_request-SendRun socket request sends l) pos b

  first :
      (turns : ℕ) (r : Outcome (Result (Unit {0}) TransportError)) (l : Log)
      → SendRun request [] r l
      → Within request (suc t.retries) (start_wait socket t turns sends request accept (r, l)).1
  unfolding start_wait
  first turns _ l (unfinished _ s) = Sent-Within request (suc t.retries) [] l s (omega arith, tt)
  first turns _ _ (failed l k s) =
      let (a, b) = Sent-Within request (suc t.retries) [] l s (omega arith, tt) in (a, (refl, b))
  first turns _ _ (delivered l s) =
      let log = sent request (ok tt) ∷ l in
      let start = socket.clock log in
      let (a, b) = Sent-Within request 0 [] l s (omega arith, tt) in
      elim (Option-cases (retransmit_interval t.probe_timeout t.retries)) [
        | inl e ↦ rw (e, start_wait) (omega arith, (refl, b))
        | inr (interval, e) ↦
            rw (e, start_wait)
              (wait-Post socket t sends request accept start interval Budget Kept
                (step start interval) Budget-Kept turns t.retries interval (looked start ∷ log)
                (1, omega arith, (omega arith, (refl, b))))
      ]

  from_connect :
      (turns : ℕ) (c : Result (Unit {0}) TransportError)
      → Within request (suc t.retries) (start_exchange socket t turns sends request accept c).1
  from_connect turns (err e) = (omega arith, tt)
  from_connect turns (ok u) = first turns _ _ (send_request-SendRun socket request sends [])

-- However long an exchange runs and whatever the socket answers, it transmits at most
-- `retries + 1` times, and every transmission is the request unchanged.
pub exchange-Within :
    (socket : Socket) (t : UdpTransport) (turns sends : ℕ) (server : SocketAddr) (request : Bytes)
    (accept : Bytes → Bool)
    → Within request (suc t.retries) (exchange socket t turns sends server request accept).1
unfolding exchange
exchange-Within socket t turns sends server request accept =
    from_connect socket t sends request accept turns (connected socket.bind (socket.connect server))
