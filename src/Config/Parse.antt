-- ===== src/Config/Parse.antt =====
-- crates/config/src/lib.rs: `parse` and its helpers. An early `return Err(..)` is the error of the
-- `Result`.
pub mod Spec
pub mod Sound
pub mod Complete
pub mod Exact
use pam_nps_mfa.Base.{
  ℕ, zero, suc, ◌+◌, Bool, true, false, Option, none, some, List, [], ◌∷◌, ◌++◌, Bytes, bytes_eq,
  is_empty, if◌then◌else◌, Result, ok, err, ◌>>=◌, ok_or,
}
use pam_nps_mfa.Base.Text.{Text, text}
use pam_nps_mfa.Base.Str.{lines, before, trim, split_whitespace, u32_from_str}
use pam_nps_mfa.World.{SocketAddr}
use pam_nps_mfa.Config.{Protocol, mschapv2, pap, AuditBackend, auditd, syslog, both}
use pam_nps_mfa.Config.Address.{socket_from_str, ipv4_from_str}

abbrev pub default_probe_timeout : ℕ
default_probe_timeout = 5

abbrev pub default_timeout : ℕ
default_timeout = 60

abbrev pub default_retries : ℕ
default_retries = 1

pub record ParsedServer : Type 0 where
  pub addr : SocketAddr
  pub secret_path : Text

pub record ParsedConfig : Type 0 where
  pub servers : List ParsedServer
  pub protocol : Protocol
  pub timeout : ℕ
  pub probe_timeout : ℕ
  pub retries : ℕ
  pub nas_identifier : Option Text
  pub nas_ip : Option Bytes
  pub source_ip : Option Bytes
  pub require_message_authenticator : Bool
  pub audit : AuditBackend
  pub debug : Bool

pub data ParseError : Type 0 where
  unknown_key duplicate_key malformed_value : ℕ → Text → ParseError
  missing_required : Text → ParseError

abbrev pub malformed : ℕ → Text → ParseError
malformed line key = malformed_value line key

unfoldable pub single : List Text → ℕ → Text → Result Text ParseError
single (only ∷ []) line key = ok only
single _ line key = err (malformed line key)

unfoldable pub set_once : {A : Type 0} → Option A → ℕ → Text → Result (Unit {0}) ParseError
set_once none line key = ok tt
set_once (some _) line key = err (duplicate_key line key)

unfoldable pub parse_bool : Text → Option Bool
parse_bool v =
    if bytes_eq v (text "true")
    then some true
    else if bytes_eq v (text "false")
    then some false
    else none

-- The match on the value of `protocol`, and the one on the value of `audit`.
unfoldable pub protocol_of : Text → Option Protocol
protocol_of v =
    if bytes_eq v (text "mschapv2")
    then some mschapv2
    else if bytes_eq v (text "pap")
    then some pap
    else none

unfoldable pub audit_of : Text → Option AuditBackend
audit_of v =
    if bytes_eq v (text "auditd")
    then some auditd
    else if bytes_eq v (text "syslog")
    then some syslog
    else if bytes_eq v (text "both")
    then some both
    else none

-- The arms of the match on `key`, in their order, and the texts that they match.
pub data Key : Type 0 where
  server protocol timeout probe_timeout retries nas_identifier nas_ip source_ip : Key
  require_message_authenticator audit debug : Key

abbrev pub name : Key → Text
name server = text "server"
name protocol = text "protocol"
name timeout = text "timeout"
name probe_timeout = text "probe_timeout"
name retries = text "retries"
name nas_identifier = text "nas_identifier"
name nas_ip = text "nas_ip"
name source_ip = text "source_ip"
name require_message_authenticator = text "require_message_authenticator"
name audit = text "audit"
name debug = text "debug"

abbrev pub all_keys : List Key
all_keys =
    server ∷ protocol ∷ timeout ∷ probe_timeout ∷ retries ∷ nas_identifier ∷ nas_ip ∷ source_ip
    ∷ require_message_authenticator ∷ audit ∷ debug ∷ []

unfoldable pub find_key : Text → List Key → Option Key
find_key t [] = none
find_key t (k ∷ ks) = let rest = find_key t ks in if bytes_eq t (name k) then some k else rest

-- The eleven variables of `parse`.
pub record Settings : Type 0 where
  pub servers : List ParsedServer
  pub protocol : Option Protocol
  pub timeout : Option ℕ
  pub probe_timeout : Option ℕ
  pub retries : Option ℕ
  pub nas_identifier : Option Text
  pub nas_ip : Option Bytes
  pub source_ip : Option Bytes
  pub require_ma : Option Bool
  pub audit : Option AuditBackend
  pub debug : Option Bool

abbrev pub unset : Settings
unset = record {
  servers = [];
  protocol = none;
  timeout = none;
  probe_timeout = none;
  retries = none;
  nas_identifier = none;
  nas_ip = none;
  source_ip = none;
  require_ma = none;
  audit = none;
  debug = none;
}

-- What every scalar arm does: one value, the first for its key, that `read` accepts.
unfoldable pub scalar :
    {A : Type 0} → (Text → Option A) → Option A → ℕ → Text → List Text → Result A ParseError
unfolding single set_once
scalar read slot line key rest = do
  v ← single rest line key
  first ← set_once slot line key
  ok_or (read v) (malformed line key)

unfoldable pub parse_server : ℕ → Text → List Text → Result ParsedServer ParseError
parse_server line key (addr ∷ path ∷ []) = do
  a ← ok_or (socket_from_str addr) (malformed line key)
  ok (record { addr = a; secret_path = path })
parse_server line key _ = err (malformed line key)

-- The match on `key`.
unfoldable pub assign : Key → ℕ → Text → List Text → Settings → Result Settings ParseError
unfolding scalar parse_server
assign server line key rest s = do
  added ← parse_server line key rest
  ok (record s { servers = s.servers ++ (added ∷ []) })
assign protocol line key rest s = do
  x ← scalar protocol_of s.protocol line key rest
  ok (record s { protocol = some x })
assign timeout line key rest s = do
  x ← scalar u32_from_str s.timeout line key rest
  ok (record s { timeout = some x })
assign probe_timeout line key rest s = do
  x ← scalar u32_from_str s.probe_timeout line key rest
  ok (record s { probe_timeout = some x })
assign retries line key rest s = do
  x ← scalar u32_from_str s.retries line key rest
  ok (record s { retries = some x })
assign nas_identifier line key rest s = do
  x ← scalar some s.nas_identifier line key rest
  ok (record s { nas_identifier = some x })
assign nas_ip line key rest s = do
  x ← scalar ipv4_from_str s.nas_ip line key rest
  ok (record s { nas_ip = some x })
assign source_ip line key rest s = do
  x ← scalar ipv4_from_str s.source_ip line key rest
  ok (record s { source_ip = some x })
assign require_message_authenticator line key rest s = do
  x ← scalar parse_bool s.require_ma line key rest
  ok (record s { require_ma = some x })
assign audit line key rest s = do
  x ← scalar audit_of s.audit line key rest
  ok (record s { audit = some x })
assign debug line key rest s = do
  x ← scalar parse_bool s.debug line key rest
  ok (record s { debug = some x })

-- The body of the loop behind `split_whitespace`.
unfoldable pub parse_tokens : ℕ → List Text → Settings → Result Settings ParseError
unfolding assign
parse_tokens line [] s = ok s
parse_tokens line (key ∷ rest) s = elim (find_key key all_keys) [
  | none ↦ err (unknown_key line key)
  | some k ↦ assign k line key rest s
]

unfoldable pub parse_line : ℕ → Text → Settings → Result Settings ParseError
unfolding parse_tokens
parse_line line raw_line s =
    let content = trim (before b'#' raw_line) in
    if is_empty content then ok s else parse_tokens line (split_whitespace content) s

-- The loop, with the number of the next line.
unfoldable pub parse_lines : ℕ → List Text → Settings → Result Settings ParseError
unfolding parse_line
parse_lines line [] s = ok s
parse_lines line (raw_line ∷ rest) s = do
  s' ← parse_line line raw_line s
  parse_lines (suc line) rest s'

abbrev pub unwrap_or : {A : Type 0} → A → Option A → A
unwrap_or d none = d
unwrap_or d (some x) = x

abbrev pub config_with : Settings → Protocol → ParsedConfig
config_with s p = record {
  servers = s.servers;
  protocol = p;
  timeout = unwrap_or default_timeout s.timeout;
  probe_timeout = unwrap_or default_probe_timeout s.probe_timeout;
  retries = unwrap_or default_retries s.retries;
  nas_identifier = s.nas_identifier;
  nas_ip = s.nas_ip;
  source_ip = s.source_ip;
  require_message_authenticator = unwrap_or true s.require_ma;
  audit = unwrap_or both s.audit;
  debug = unwrap_or false s.debug;
}

-- What follows the loop.
unfoldable pub finish : Settings → Result ParsedConfig ParseError
finish s =
    if is_empty s.servers
    then err (missing_required (text "server"))
    else (do p ← ok_or s.protocol (missing_required (text "protocol")); ok (config_with s p))

unfoldable pub parse : Text → Result ParsedConfig ParseError
unfolding parse_lines finish
parse t = do s ← parse_lines 1 (lines t) unset; finish s
