-- ===== src/Config.antt =====
-- crates/config/src/lib.rs: the typed configuration.
pub mod Address
pub mod Parse
pub mod Load
pub mod Messages
use pam_nps_mfa.Base.{ℕ, Bool, Option, List, Bytes}
use pam_nps_mfa.Base.Text.{Text}
use pam_nps_mfa.World.{SocketAddr}

pub data Protocol : Type 0 where
  mschapv2 pap : Protocol

pub data AuditBackend : Type 0 where
  auditd syslog both : AuditBackend

-- `secret` is the text in the server's `SecretString`.
pub record Server : Type 0 where
  pub addr : SocketAddr
  pub secret : Text

-- `Config`; an IPv4 address is its four octets.
pub record Config : Type 0 where
  pub servers : List Server
  pub protocol : Protocol
  pub timeout : ℕ
  pub probe_timeout : ℕ
  pub retries : ℕ
  pub nas_identifier : Option Text
  pub nas_ip : Option Bytes
  pub source_ip : Option Bytes
  pub require_message_authenticator : Bool
  pub audit : AuditBackend
  pub debug : Bool
