-- ===== src/Radius/Udp.antt =====
-- crates/radius/src/udp.rs: the UDP transport. The socket and the clock are a `Socket`, which
-- answers by the log of one exchange, newest entry first. Times are in nanoseconds.
pub mod Turns
pub mod Panic
pub mod Retransmits
pub mod Termination
pub mod Contract
pub mod Invariant
use pam_nps_mfa.Base.{
  ℕ, zero, suc, ◌+◌, ◌-◌, ◌*◌, ◌/◌, ◌%◌, Bool, true, false, Option, none, some, List, [], ◌∷◌,
  Bytes, take, ltb, leb, ◌==◌, ◌&&◌, not, min, if◌then◌else◌, Result, ok, err,
}
use pam_nps_mfa.World.{SocketAddr, TransportError, io}
use pam_nps_mfa.Radius.{max_packet_len}
use Prim.Native.Nat.{max}

-- The kinds of `std::io::ErrorKind` that the source tells apart.
pub data ErrorKind : Type 0 where
  connection_refused host_unreachable network_unreachable : ErrorKind
  would_block timed_out interrupted other : ErrorKind

pub data Entry : Type 0 where
  looked : ℕ → Entry
  sent : Bytes → Result (Unit {0}) ErrorKind → Entry
  received : ℕ → Result Bytes ErrorKind → Entry

abbrev pub Log : Type 0
Log = List Entry

pub record Socket : Type 0 where
  -- `UdpSocket::bind`, and `connect` on the bound socket
  pub bind : Result (Unit {0}) ErrorKind
  pub connect : SocketAddr → Result (Unit {0}) ErrorKind
  -- `Instant::now`
  pub clock : Log → ℕ
  -- `set_read_timeout(..).is_ok()`, `send`, and `recv` under that timeout
  pub set_read_timeout : Log → ℕ → Bool
  pub send : Log → Bytes → Result (Unit {0}) ErrorKind
  pub recv : Log → ℕ → Result Bytes ErrorKind

abbrev pub min_read_timeout : ℕ
min_read_timeout = 1000000

-- `UdpTransport`; `source_ip` only chooses the address that `bind` takes.
pub record UdpTransport : Type 0 where
  pub probe_timeout : ℕ
  pub mfa_timeout : ℕ
  pub retries : ℕ

-- `UdpTransport::from_config`, from whole seconds
unfoldable pub from_config : ℕ → ℕ → ℕ → UdpTransport
from_config probe_timeout_secs mfa_timeout_secs retries = record {
  probe_timeout = probe_timeout_secs * 1000000000;
  mfa_timeout = mfa_timeout_secs * 1000000000;
  retries = retries;
}

pub data IoClass : Type 0 where
  silence unreachable retry local : IoClass

unfoldable pub classify : ErrorKind → IoClass
classify connection_refused = IoClass.unreachable
classify host_unreachable = IoClass.unreachable
classify network_unreachable = IoClass.unreachable
classify would_block = silence
classify timed_out = silence
classify interrupted = retry
classify other = local

abbrev pub error_of_class : IoClass → TransportError
error_of_class IoClass.unreachable = TransportError.unreachable
error_of_class _ = io

unfoldable pub send_error : ErrorKind → TransportError
unfolding classify
send_error e = error_of_class (classify e)

-- The division panics when the `u32` sum wraps around to 0.
unfoldable pub retransmit_interval : ℕ → ℕ → Option ℕ
retransmit_interval probe_timeout retries =
    let n = (retries + 1) % 4294967296 in if n == 0 then none else some (probe_timeout / n)

-- What a loop came to, with the fuel that it had.
pub data Outcome (A : Type 0) : Type 0 where
  returned : A → Outcome A
  panicked : Outcome A
  out_of_fuel : Outcome A

-- What one turn of the loop of `exchange` decides.
pub data Turn : Type 0 where
  again : ℕ → ℕ → Turn
  stop : Outcome (Result Bytes TransportError) → Turn

-- What `send_request` does with the result of a `send`: resume, or return it.
abbrev pub resumes : Result (Unit {0}) ErrorKind → Bool
resumes (err interrupted) = true
resumes _ = false

abbrev pub sent_result : Result (Unit {0}) ErrorKind → Result (Unit {0}) TransportError
sent_result (ok u) = ok u
sent_result (err e) = err (send_error e)

-- `UdpTransport::connect`, from what `bind` and `connect` returned
unfoldable pub connected :
    Result (Unit {0}) ErrorKind → Result (Unit {0}) ErrorKind → Result (Unit {0}) TransportError
connected (err _) c = err io
connected (ok _) (err e) = err (send_error e)
connected (ok _) (ok _) = ok tt

module _ (socket : Socket) where
  open socket use {clock, set_read_timeout, send, recv}

  -- `send_request`; the fuel is the number of calls of `send` that it may make.
  unfoldable pub send_request : ℕ → Bytes → Log → Outcome (Result (Unit {0}) TransportError) × Log
  unfolding send_error
  send_request zero request log = (out_of_fuel, log)
  send_request (suc fuel) request log =
      let result = send log request in
      let log' = sent request result ∷ log in
      let resumed = send_request fuel request log' in
      if resumes result then resumed else (returned (sent_result result), log')

  module _ (t : UdpTransport) (sends : ℕ) (request : Bytes) (accept : Bytes → Bool)
      (start : ℕ) where
    -- `start.elapsed()`, as it is read at this point of the log
    abbrev pub elapsed : Log → ℕ
    elapsed log = clock log - start

    abbrev pub after_look : Log → Log
    after_look log = looked (clock log) ∷ log

    abbrev pub after_retransmit :
        ℕ → ℕ → ℕ → Outcome (Result (Unit {0}) TransportError) × Log → Turn × Log
    after_retransmit interval left next (returned (ok _), log) =
        (again (left - 1) (next + interval), log)
    after_retransmit interval left next (returned (err e), log) = (stop (returned (err e)), log)
    after_retransmit interval left next (panicked, log) = (stop panicked, log)
    after_retransmit interval left next (out_of_fuel, log) = (stop out_of_fuel, log)

    -- The match on `classify(&error)`.
    unfoldable pub on_error : ℕ → IoClass → ℕ → ℕ → Log → Turn × Log
    on_error interval IoClass.unreachable left next log =
        if ltb (elapsed log) t.probe_timeout
        then (stop (returned (err TransportError.unreachable)), after_look log)
        else (stop (returned (err TransportError.timeout)), after_look log)
    on_error interval silence left next log =
        if ltb 0 left
        then if leb next (elapsed log)
          then after_retransmit interval left next (send_request sends request (after_look log))
          else (again left next, after_look log)
        else (again left next, log)
    on_error interval retry left next log = (again left next, log)
    on_error interval local left next log = (stop (returned (err io)), log)

    -- The match on what `recv` returned; the buffer holds `max_packet_len` octets.
    unfoldable pub on_recv : ℕ → Result Bytes ErrorKind → ℕ → ℕ → Log → Turn × Log
    unfolding on_error classify
    on_recv interval (ok d) left next log =
        let datagram = take max_packet_len d in
        if accept datagram then (stop (returned (ok datagram)), log) else (again left next, log)
    on_recv interval (err e) left next log = on_error interval (classify e) left next log

    abbrev pub read_timeout : ℕ → ℕ → Log → ℕ
    read_timeout left next log =
        let wake = if ltb 0 left then min t.mfa_timeout next else t.mfa_timeout in
        max (wake - elapsed log) min_read_timeout

    -- One turn of the loop, with `retransmits_left` and `next_retransmit`.
    unfoldable pub turn : ℕ → ℕ → ℕ → Log → Turn × Log
    unfolding on_recv
    turn interval left next log =
        if leb t.mfa_timeout (elapsed log)
        then (stop (returned (err TransportError.timeout)), after_look log)
        else let timeout = read_timeout left next log in
          if not (set_read_timeout (after_look log) timeout)
          then (stop (returned (err io)), after_look log)
          else let result = recv (after_look log) timeout in
            on_recv interval result left next (received timeout result ∷ after_look log)

    abbrev pub or_again :
        Turn × Log
        → (ℕ → ℕ → Log → Outcome (Result Bytes TransportError) × Log)
        → Outcome (Result Bytes TransportError) × Log
    or_again (stop r, log) next_turn = (r, log)
    or_again (again left next, log) next_turn = next_turn left next log

    -- The loop of `exchange`; the fuel is the number of turns.
    unfoldable pub wait : ℕ → ℕ → ℕ → ℕ → Log → Outcome (Result Bytes TransportError) × Log
    unfolding turn
    wait zero interval left next log = (out_of_fuel, log)
    wait (suc fuel) interval left next log =
        or_again (turn interval left next log) (wait fuel interval)

  -- `exchange` behind the first transmission
  unfoldable pub start_wait :
      UdpTransport
      → ℕ
      → ℕ
      → Bytes
      → (Bytes → Bool)
      → Outcome (Result (Unit {0}) TransportError) × Log
      → Outcome (Result Bytes TransportError) × Log
  unfolding wait retransmit_interval
  start_wait t turns sends request accept (returned (ok _), log) =
      elim (retransmit_interval t.probe_timeout t.retries) [
        | none ↦ (panicked, looked (clock log) ∷ log)
        | some interval ↦
            wait t sends request accept (clock log) turns interval t.retries interval
              (looked (clock log) ∷ log)
      ]
  start_wait t turns sends request accept (returned (err e), log) = (returned (err e), log)
  start_wait t turns sends request accept (panicked, log) = (panicked, log)
  start_wait t turns sends request accept (out_of_fuel, log) = (out_of_fuel, log)

  abbrev pub start_exchange :
      UdpTransport
      → ℕ
      → ℕ
      → Bytes
      → (Bytes → Bool)
      → Result (Unit {0}) TransportError
      → Outcome (Result Bytes TransportError) × Log
  start_exchange t turns sends request accept (err e) = (returned (err e), [])
  start_exchange t turns sends request accept (ok _) =
      start_wait t turns sends request accept (send_request sends request [])

  unfoldable pub exchange :
      UdpTransport
      → ℕ
      → ℕ
      → SocketAddr
      → Bytes
      → (Bytes → Bool)
      → Outcome (Result Bytes TransportError) × Log
  unfolding start_wait send_request
  exchange t turns sends server request accept =
      start_exchange t turns sends request accept (connected socket.bind (socket.connect server))
