-- ===== src/Config/Load.antt =====
-- crates/config/src/lib.rs: the permission check and the loader. The file system answers by the log
-- of what was done with it, newest entry first.
pub mod Vetted
pub mod Errors
pub mod Exact
pub mod Bounds
use pam_nps_mfa.Base.{
  ℕ, Bool, true, false, not, Option, none, some, List, [], ◌∷◌, ◌++◌, Bytes, ◌==◌, if◌then◌else◌,
  Result, ok, err, map_err, ok_or,
}
use pam_nps_mfa.Base.Text.{Text}
use pam_nps_mfa.Base.Utf8.{from_utf8}
use pam_nps_mfa.Config.{Server, Config}
use pam_nps_mfa.Config.Parse.{ParsedServer, ParsedConfig, ParseError, parse}
use Prim.Native.Nat.{bit_and}

-- `std::io::Error`: one of the system, or `ErrorKind::InvalidData`
pub data IoError : Type 0 where
  os : ℕ → IoError
  invalid_data : IoError

-- `std::fs::Metadata`, as far as it is asked
pub record Metadata : Type 0 where
  pub is_file : Bool
  pub uid : ℕ
  pub mode : ℕ

pub data FileEvent : Type 0 where
  opened : Text → Result ℕ IoError → FileEvent
  statted : ℕ → Result Metadata IoError → FileEvent
  consumed : ℕ → Result Bytes IoError → FileEvent

abbrev pub FileLog : Type 0
FileLog = List FileEvent

pub record Files : Type 0 where
  -- `open(2)` for reading with O_NOFOLLOW, `fstat(2)`, and reading to the end
  pub open_nofollow : FileLog → Text → Result ℕ IoError
  pub metadata : FileLog → ℕ → Result Metadata IoError
  pub read_to_end : FileLog → ℕ → Result Bytes IoError

pub data PermIssue : Type 0 where
  not_regular_file : PermIssue
  wrong_owner : ℕ → ℕ → PermIssue
  group_or_other_accessible : ℕ → PermIssue

pub data ConfigError : Type 0 where
  open_failed read_failed : Text → IoError → ConfigError
  insecure_permissions : Text → PermIssue → ConfigError
  parse_failed : ParseError → ConfigError

unfoldable pub validate_permissions : Metadata → ℕ → Result (Unit {0}) PermIssue
validate_permissions meta expected_uid =
    if not meta.is_file
    then err not_regular_file
    else if not (meta.uid == expected_uid)
    then err (wrong_owner meta.uid expected_uid)
    else if not (bit_and meta.mode 63 == 0)
    then err (group_or_other_accessible meta.mode)
    else ok tt

abbrev pub Load : Type 0 → Type 0
Load A = FileLog → Result A ConfigError × FileLog

infixl 5 ◌>>=◌ ◌>>◌
abbrev pub then_load :
    {A B : Type 0} → Result A ConfigError × FileLog → (A → Load B) → Result B ConfigError × FileLog
then_load (ok a, log) f = f a log
then_load (err e, log) f = (err e, log)

abbrev pub ◌>>=◌ : {A B : Type 0} → Load A → (A → Load B) → Load B
◌>>=◌ m f log = then_load (m log) f

abbrev pub ◌>>◌ : {B : Type 0} → Load (Unit {0}) → Load B → Load B
m >> k = m >>= λ _. k

abbrev pub lift : {A : Type 0} → Result A ConfigError → Load A
lift r log = (r, log)

-- `SecretString` content: exactly one trailing newline is stripped.
unfoldable pub strip_newline : Bytes → Bytes
strip_newline [] = []
strip_newline (b ∷ []) = if b == b'\n' then [] else b ∷ []
strip_newline (b ∷ c ∷ bytes) = b ∷ strip_newline (c ∷ bytes)

abbrev pub root_uid : ℕ
root_uid = 0

-- The configuration behind `resolve`, with its servers.
abbrev pub resolved : ParsedConfig → List Server → Config
resolved parsed servers = record {
  servers = servers;
  protocol = parsed.protocol;
  timeout = parsed.timeout;
  probe_timeout = parsed.probe_timeout;
  retries = parsed.retries;
  nas_identifier = parsed.nas_identifier;
  nas_ip = parsed.nas_ip;
  source_ip = parsed.source_ip;
  require_message_authenticator = parsed.require_message_authenticator;
  audit = parsed.audit;
  debug = parsed.debug;
}

module _ (files : Files) where
  open files use {open_nofollow, metadata, read_to_end}

  abbrev pub open_file : Text → Load ℕ
  open_file path log = (
    map_err (open_failed path) (open_nofollow log path),
    opened path (open_nofollow log path) ∷ log,
  )

  abbrev pub stat_file : Text → ℕ → Load Metadata
  stat_file path fd log =
      (map_err (read_failed path) (metadata log fd), statted fd (metadata log fd) ∷ log)

  abbrev pub read_file : Text → ℕ → Load Bytes
  read_file path fd log =
      (map_err (read_failed path) (read_to_end log fd), consumed fd (read_to_end log fd) ∷ log)

  unfoldable pub open_secure : Text → ℕ → Load ℕ
  unfolding validate_permissions
  open_secure path expected_uid = do
    fd ← open_file path
    meta ← stat_file path fd
    u ← lift (map_err (insecure_permissions path) (validate_permissions meta expected_uid))
    lift (ok fd)

  -- `read_to_string`, and the check of the secret's octets, fail on what is not UTF-8.
  abbrev pub as_text : Text → Bytes → Load Text
  as_text path bytes = lift (ok_or (from_utf8 bytes) (read_failed path invalid_data))

  unfoldable pub read_config_text : ℕ → Text → Load Text
  read_config_text fd path = do bytes ← read_file path fd; as_text path bytes

  unfoldable pub read_secret : ℕ → Text → Load Text
  unfolding strip_newline
  read_secret fd path = do bytes ← read_file path fd; as_text path (strip_newline bytes)

  -- One round of the loop of `resolve`.
  unfoldable pub load_server : ℕ → ParsedServer → Load Server
  unfolding open_secure read_secret
  load_server expected_uid ps = do
    fd ← open_secure ps.secret_path expected_uid
    secret ← read_secret fd ps.secret_path
    lift (ok (record { addr = ps.addr; secret = secret }))

  unfoldable pub load_servers : ℕ → List ParsedServer → Load (List Server)
  unfolding load_server
  load_servers expected_uid [] = lift (ok [])
  load_servers expected_uid (ps ∷ rest) = do
    server ← load_server expected_uid ps
    servers ← load_servers expected_uid rest
    lift (ok (server ∷ servers))

  unfoldable pub resolve : ℕ → ParsedConfig → Load Config
  unfolding load_servers
  resolve expected_uid parsed = do
    servers ← load_servers expected_uid parsed.servers
    lift (ok (resolved parsed servers))

  unfoldable pub load_with_expected_uid : Text → ℕ → Load Config
  unfolding open_secure read_config_text resolve
  load_with_expected_uid path expected_uid = do
    fd ← open_secure path expected_uid
    t ← read_config_text fd path
    parsed ← lift (map_err parse_failed (parse t))
    resolve expected_uid parsed

  unfoldable pub load : Text → Load Config
  unfolding load_with_expected_uid
  load path = load_with_expected_uid path root_uid
