-- ===== src/System.antt =====
-- What a call of the module meets outside the program, and the `World` of an attempt that the program
-- makes of it: `PamConversation` of crates/pam-ffi/src/conversation.rs over the application's callback,
-- and `UdpTransport` of crates/radius/src/udp.rs over the sockets, as crates/pam-ffi/src/lib.rs sets
-- them up.
pub mod Notice
pub mod Sent
use pam_nps_mfa.Base.{
  ℕ, suc, ◌≡◌, ◌≢◌, refl, ap, Bool, false, ◌||◌, Option, none, some, [], ◌∷◌, Bytes, length, Result,
  ok, err,
}
use pam_nps_mfa.World.{
  World, History, drew, informed, prompted, exchanged, SocketAddr, TransportError, io,
}
use pam_nps_mfa.Conversation.{ConvItem, Application, info, prompt_echo_off}
use pam_nps_mfa.Conversation.Runs.{IsLawful, info-defined, prompt_echo_off-defined}
use pam_nps_mfa.Config.{Config}
use pam_nps_mfa.Radius.Udp.{
  Log, Socket, UdpTransport, from_config, Outcome, returned, panicked, out_of_fuel, exchange,
}
use pam_nps_mfa.Radius.Udp.Contract.{exchange-Promise}
use pam_nps_mfa.Radius.Udp.Termination.{IsClock, Settles}
use pam_nps_mfa.Radius.Udp.Panic.{panics_in, Ends-out_of_fuel, exchange-Ends}

-- The system's randomness, what `pam_get_item(PAM_CONV)` returns and hands out, and the socket that an
-- exchange gets, each by the history of the attempt. The application keeps to PAM's interface, the
-- clocks do not go back, and signals interrupt fewer than `patience` calls of `send` in a row.
pub record System : Type 0 where
  pub handle_is_null : Bool
  pub getrandom : History → Option Bytes
  pub getrandom_length : (h : History) (b : Bytes) → getrandom h ≡ some b → length b ≡ 16
  pub conv_item : History → ℕ × ConvItem
  pub conv_item_lawful : (h : History) → IsLawful (conv_item h).1
  pub socket : History → Socket
  pub socket_clock : (h : History) → IsClock (socket h)
  pub patience : ℕ
  pub socket_settles :
      (h : History) (request : Bytes) (log : Log) → Settles (socket h) patience request log

-- A value that is there.
abbrev pub defined : {A : Type 0} (o : Option A) → o ≢ none → A
defined (some a) d = a
defined none d = absurd (d refl)

-- What an exchange returned. A panic ends the attempt there, so that no result is looked at.
abbrev pub settled :
    (o : Outcome (Result Bytes TransportError)) → o ≢ out_of_fuel → Result Bytes TransportError
settled (returned r) d = r
settled panicked d = err io
settled out_of_fuel d = absurd (d refl)

pub settled-ok :
    (o : Outcome (Result Bytes TransportError)) (d : o ≢ out_of_fuel) (b : Bytes)
    → settled o d ≡ ok b
    → o ≡ returned (ok b)
settled-ok (returned r) d b e = ap returned e
settled-ok panicked d b e = absurd (cc)
settled-ok out_of_fuel d b e = absurd (d refl)

-- `UdpTransport::from_config` of the loaded configuration
abbrev pub transport_of : Config → UdpTransport
transport_of config = from_config config.probe_timeout config.timeout config.retries

module _ (s : System) where
  abbrev pub application : History → Application
  application h = record { handle_is_null = s.handle_is_null; pam_get_item = s.conv_item h }

  module _ (t : UdpTransport) where
    abbrev pub exchange_at :
        History → SocketAddr → Bytes → (Bytes → Bool) → Outcome (Result Bytes TransportError) × Log
    exchange_at h server request accept =
        exchange (s.socket h) t (suc t.mfa_timeout) s.patience server request accept

    pub exchange_at-settles :
        (h : History) (server : SocketAddr) (request : Bytes) (accept : Bytes → Bool)
        → (exchange_at h server request accept).0 ≢ out_of_fuel
    exchange_at-settles h server request accept = Ends-out_of_fuel _ _ (
        exchange-Ends (s.socket h) (s.socket_clock h) t s.patience request
          (s.socket_settles h request) accept server)

    -- The `PamConversation` and the `UdpTransport` that `authenticate_report` gets.
    abbrev pub world_over : Bool → World
    world_over silent = record {
      getrandom = s.getrandom;
      getrandom_length = s.getrandom_length;
      info = λ h message.
          (defined (info (application h) silent message)
            (info-defined (application h) silent message (s.conv_item_lawful h))).0;
      prompt_echo_off = λ h prompt.
          (defined (prompt_echo_off (application h) prompt)
            (prompt_echo_off-defined (application h) prompt (s.conv_item_lawful h))).0;
      exchange = λ h server request accept.
          settled (exchange_at h server request accept).0
            (exchange_at-settles h server request accept);
      exchange_accepted = λ h server request accept d e.
          let promise =
            exchange-Promise (s.socket h) t (suc t.mfa_timeout) s.patience server request accept in
          let run = settled-ok _ (exchange_at-settles h server request accept) d e in
          (promise.answer d run).is_accepted;
    }

    -- Whether one of the exchanges of an attempt panicked, by the attempt's history.
    unfoldable pub attempt_panics : History → Bool
    unfolding panics_in
    attempt_panics [] = false
    attempt_panics (exchanged server request result ∷ h) =
        panics_in (s.socket h) t s.patience server request || attempt_panics h
    attempt_panics (drew r ∷ h) = attempt_panics h
    attempt_panics (informed message r ∷ h) = attempt_panics h
    attempt_panics (prompted prompt r ∷ h) = attempt_panics h

  abbrev pub world_of : Bool → Config → World
  world_of silent config = world_over (transport_of config) silent
