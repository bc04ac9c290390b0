-- ===== src/Radius/Udp/Turns.antt =====
-- The ways in which one turn of the loop of `exchange` can go.
use pam_nps_mfa.Base.{
  ℕ, ◌<◌, ◌≡◌, ◌≢◌, refl, arith, Bool, true, Bool-cases, inl, inr, ◌∷◌, Bytes, take, ltb, leb,
  Result, ok, err,
}
use pam_nps_mfa.World.{TransportError, io}
use pam_nps_mfa.Radius.{max_packet_len}
use pam_nps_mfa.Radius.Udp.{
  ErrorKind, IoClass, silence, retry, local, classify, looked, received, Log, Socket, UdpTransport,
  returned, Turn, again, stop, elapsed, after_look, after_retransmit, send_request, on_error,
  on_recv, read_timeout, turn,
}

-- The log grew by readings of the clock and results of `recv`, and no `send`.
pub data Adds (log : Log) : Log → Type 0 where
  same : Adds log log
  look : (l : Log) (n : ℕ) → Adds log l → Adds log (looked n ∷ l)
  receive :
      (l : Log) (n : ℕ) (r : Result Bytes ErrorKind) → Adds log l → Adds log (received n r ∷ l)

module _ (socket : Socket) (t : UdpTransport) (sends : ℕ) (request : Bytes) (accept : Bytes → Bool)
    (start : ℕ) where
  abbrev pub looking : Log → Log
  looking log = after_look socket t sends request accept start log

  abbrev pub passed : Log → ℕ
  passed log = elapsed socket t sends request accept start log

  abbrev pub got : Log → ℕ → Result Bytes ErrorKind → Log
  got log n r = received n r ∷ looking log

  pub data Ran (interval left next : ℕ) (log : Log) : Turn × Log → Type 0 where
    ended :
        (e : TransportError) (l : Log)
        → e ≢ TransportError.unreachable
        → Adds log l
        → Ran interval left next log (stop (returned (err e)), l)
    accepted :
        (n : ℕ) (d : Bytes)
        → accept (take max_packet_len d) ≡ true
        → Ran interval left next log
            (stop (returned (ok (take max_packet_len d))), got log n (ok d))
    failed_early :
        (n : ℕ) (e : ErrorKind)
        → classify e ≡ IoClass.unreachable
        → passed (got log n (err e)) < t.probe_timeout
        → Ran interval left next log
            (stop (returned (err TransportError.unreachable)), looking (got log n (err e)))
    waited :
        (n : ℕ) (r : Result Bytes ErrorKind)
        → passed log < t.mfa_timeout
        → Ran interval left next log (again left next, got log n r)
    waited_looking :
        (n : ℕ) (r : Result Bytes ErrorKind)
        → passed log < t.mfa_timeout
        → Ran interval left next log (again left next, looking (got log n r))
    retransmitted :
        (n : ℕ) (r : Result Bytes ErrorKind)
        → passed log < t.mfa_timeout
        → 0 < left
        → Ran interval left next log (
            after_retransmit socket t sends request accept start interval left next
              (send_request socket sends request (looking (got log n r))))

  on_error-Ran :
      (interval left next : ℕ) (log : Log) (n : ℕ) (e : ErrorKind) (k : IoClass)
      → classify e ≡ k
      → passed log < t.mfa_timeout
      → Ran interval left next log
          (on_error socket t sends request accept start interval k left next (got log n (err e)))
  unfolding on_error
  on_error-Ran interval left next log n e IoClass.unreachable is_k early =
      elim (Bool-cases (ltb (passed (got log n (err e))) t.probe_timeout)) [
        | inl b ↦ rw b (failed_early n e is_k (ground arith))
        | inr b ↦
            rw b
              (ended TransportError.timeout _ (λ q. cc) (look _ _ (receive _ _ _ (look _ _ same))))
      ]
  on_error-Ran interval left next log n e silence is_k early = elim (Bool-cases (ltb 0 left)) [
    | inl b ↦ elim (Bool-cases (leb next (passed (got log n (err e))))) [
      | inl due ↦ rw (b, due) (retransmitted n (err e) early (ground arith))
      | inr due ↦ rw (b, due) (waited_looking n (err e) early)
    ]
    | inr b ↦ rw b (waited n (err e) early)
  ]
  on_error-Ran interval left next log n e retry is_k early = waited n (err e) early
  on_error-Ran interval left next log n e local is_k early =
      ended io _ (λ q. cc) (receive _ _ _ (look _ _ same))

  on_recv-Ran :
      (interval left next : ℕ) (log : Log) (n : ℕ) (r : Result Bytes ErrorKind)
      → passed log < t.mfa_timeout
      → Ran interval left next log
          (on_recv socket t sends request accept start interval r left next (got log n r))
  unfolding on_recv
  on_recv-Ran interval left next log n (ok d) early =
      elim (Bool-cases (accept (take max_packet_len d))) [
        | inl b ↦ rw b (accepted n d b)
        | inr b ↦ rw b (waited n (ok d) early)
      ]
  on_recv-Ran interval left next log n (err e) early =
      on_error-Ran interval left next log n e (classify e) refl early

  pub turn-Ran :
      (interval left next : ℕ) (log : Log)
      → Ran interval left next log (turn socket t sends request accept start interval left next log)
  unfolding turn
  turn-Ran interval left next log = elim (Bool-cases (leb t.mfa_timeout (passed log))) [
    | inl b ↦ rw b (ended TransportError.timeout _ (λ q. cc) (look _ _ same))
    | inr b ↦
        let n = read_timeout socket t sends request accept start left next log in
        elim (Bool-cases (socket.set_read_timeout (looking log) n)) [
          | inr s ↦ rw (b, s) (ended io _ (λ q. cc) (look _ _ same))
          | inl s ↦
              rw (b, s)
                (on_recv-Ran interval left next log n (socket.recv (looking log) n) (ground arith))
        ]
  ]
