-- ===== src/World.antt =====
-- What the program does not decide: the system's randomness, the PAM conversation and the network.
-- Each answers as a function of the history of the attempt, newest event first, so that a theorem
-- over every `World` covers every answer. `crates/radius/src/transport.rs` states what an
-- `exchange` may return; `exchange_accepted` is its promise that a returned datagram was accepted.
use pam_nps_mfa.Base.{
  ℕ, Bool, true, Option, some, List, ◌∷◌, Bytes, length, ◌≡◌, Result, ok, err, ok_or,
}
use pam_nps_mfa.Base.Text.{Text}

pub data IpAddr : Type 0 where
  v4 : Bytes → IpAddr
  v6 : Bytes → IpAddr

-- `std::net::SocketAddr`; an address is its octets. `scope` is 0 but for an IPv6 address with one.
pub record SocketAddr : Type 0 where
  pub ip : IpAddr
  pub port : ℕ
  pub scope : ℕ

pub data TransportError : Type 0 where
  unreachable timeout io : TransportError

pub data RngError : Type 0 where
  rng_error : RngError

pub data ConvError : Type 0 where
  failed : ConvError

pub data Event : Type 0 where
  drew : Option Bytes → Event
  informed : Text → Result (Unit {0}) ConvError → Event
  prompted : Text → Result Text ConvError → Event
  exchanged : SocketAddr → Bytes → Result Bytes TransportError → Event

abbrev pub History : Type 0
History = List Event

pub record World : Type 0 where
  -- `getrandom::getrandom` on a buffer of 16 octets
  pub getrandom : History → Option Bytes
  pub getrandom_length : (h : History) (b : Bytes) → getrandom h ≡ some b → length b ≡ 16
  -- `Conversation::info` and `Conversation::prompt_echo_off`
  pub info : History → Text → Result (Unit {0}) ConvError
  pub prompt_echo_off : History → Text → Result Text ConvError
  -- `RadiusTransport::exchange`
  pub exchange : History → SocketAddr → Bytes → (Bytes → Bool) → Result Bytes TransportError
  pub exchange_accepted :
      (h : History) (server : SocketAddr) (request : Bytes) (accept : Bytes → Bool) (d : Bytes)
      → exchange h server request accept ≡ ok d
      → accept d ≡ true

-- A computation that may end the attempt early with an `E`.
abbrev pub Step : Type 0 → Type 0 → Type 0
Step E A = History → Result A E × History

infixl 5 ◌>>=◌ ◌>>◌
abbrev pub bind_result :
    {A B E : Type 0} → Result A E × History → (A → Step E B) → Result B E × History
bind_result (ok a, h) f = f a h
bind_result (err e, h) f = (err e, h)

abbrev pub ◌>>=◌ : {A B E : Type 0} → Step E A → (A → Step E B) → Step E B
◌>>=◌ m f h = bind_result (m h) f

abbrev pub ◌>>◌ : {B E : Type 0} → Step E (Unit {0}) → Step E B → Step E B
m >> k = m >>= λ _. k

abbrev pub pure : {A E : Type 0} → A → Step E A
pure a h = (ok a, h)

-- `let Ok(x) = r else { return e }`
abbrev pub or_return : {A E F : Type 0} → Result A F → E → Step E A
or_return (ok a) e h = (ok a, h)
or_return (err _) e h = (err e, h)

-- The same, where `r` is got from the world.
abbrev pub else_return : {A E F : Type 0} → Step F A → E → Step E A
else_return m e h = or_return (m h).0 e (m h).1

module _ (w : World) where
  open w use {getrandom, info, prompt_echo_off, exchange}

  unfoldable pub draw : Step RngError Bytes
  draw h = (ok_or (getrandom h) rng_error, drew (getrandom h) ∷ h)

  unfoldable pub say : Text → Step ConvError (Unit {0})
  say message h = (info h message, informed message (info h message) ∷ h)

  unfoldable pub ask : Text → Step ConvError Text
  ask prompt h = (prompt_echo_off h prompt, prompted prompt (prompt_echo_off h prompt) ∷ h)

  unfoldable pub send : SocketAddr → Bytes → (Bytes → Bool) → Step TransportError Bytes
  send server request accept h = (
    exchange h server request accept,
    exchanged server request (exchange h server request accept) ∷ h,
  )
