-- ===== src/Tests/Fixtures.antt =====
-- Stand-ins for what the program calls, and the data of the runs.
use pam_nps_mfa.Base.{
  ℕ, ◌+◌, ◌*◌, ◌/◌, ◌%◌, ◌≡◌, refl, Bool, true, false, none, some, List, [], ◌∷◌, ◌++◌, Bytes,
  length, replicate, bytes_eq, bytes_eq_iff, if◌then◌else◌, ok, err, Bool-cases, inl, inr,
}
use pam_nps_mfa.Base.Text.{Text, text}
use pam_nps_mfa.Primitives.{Primitives}
use pam_nps_mfa.World.{World, v4, timeout, History}
use pam_nps_mfa.Config.Load.{Metadata, FileLog, opened, statted, Files}
use pam_nps_mfa.Config.{Server, Config, Protocol, both}
use pam_nps_mfa.Flow.{AttemptContext}
use pam_nps_mfa.Radius.Parse.Walk.{wire}

abbrev pub checksum : ℕ → Bytes → ℕ
checksum acc [] = acc
checksum acc (b ∷ bs) = checksum ((acc * 31 + b + 1) % 256) bs

abbrev pub keyed : Bytes → Bytes → Bytes
keyed key m = replicate 16 (checksum 1 (key ++ m))

pub length-keyed :
    (key : Bytes) (mac : Bytes → Bytes)
    → some (keyed key) ≡ some mac
    → (m : Bytes) → length (mac m) ≡ 16
length-keyed key mac e m = let same : keyed key ≡ mac = cc in rw (← same)

abbrev pub toy : Primitives
toy = record {
  md5 = λ m. replicate 16 (checksum 5 m);
  md5_length = λ m. refl;
  hmac_new = λ key. some (keyed key);
  hmac_length = length-keyed;
  md4 = λ m. replicate 16 (checksum 4 m);
  md4_length = λ m. refl;
  sha1 = λ m. replicate 20 (checksum 3 m);
  sha1_length = λ m. refl;
  des = λ key block. replicate 8 (checksum 2 (key ++ block));
  des_length = λ key block. refl;
  ct_eq = bytes_eq;
  ct_eq_iff = bytes_eq_iff;
}

-- A network that answers every request with `datagram`, if the request's binding accepts it. The
-- randomness is `ra`, every message can be shown, and the user answers every prompt with `code`.
pub answered :
    (datagram : Bytes) (accept : Bytes → Bool) (d : Bytes)
    → (if accept datagram then ok datagram else err timeout) ≡ ok d
    → accept d ≡ true
answered datagram accept d e = elim (Bool-cases (accept datagram)) [
  | inl h ↦ let same : datagram ≡ d = cc (rw (h) at e) in rw (← same) h
  | inr h ↦ absurd (cc (rw (h) at e))
]

abbrev pub ra : Bytes
ra = replicate 16 7

pub ra_length : (h : History) (b : Bytes) → some ra ≡ some b → length b ≡ 16
ra_length h b e = let same : ra ≡ b = cc in rw (← same)

abbrev pub answering : Bytes → Text → World
answering datagram code = record {
  getrandom = λ h. some ra;
  getrandom_length = ra_length;
  info = λ h message. ok tt;
  prompt_echo_off = λ h prompt. ok code;
  exchange = λ h server request accept. if accept datagram then ok datagram else err timeout;
  exchange_accepted = λ h server request accept d e. answered datagram accept d e;
}

abbrev pub secret : Text
secret = text "s3cret"

abbrev pub nps : Server
nps = record {
  addr = record { ip = v4 (10 ∷ 0 ∷ 0 ∷ 10 ∷ []); port = 1812; scope = 0 };
  secret = secret;
}

abbrev pub config_for : Protocol → Config
config_for protocol = record {
  servers = nps ∷ [];
  protocol = protocol;
  timeout = 60;
  probe_timeout = 5;
  retries = 1;
  nas_identifier = some (text "host");
  nas_ip = none;
  source_ip = none;
  require_message_authenticator = true;
  audit = both;
  debug = false;
}

abbrev pub alice : AttemptContext
alice = record { username = text "alice"; password = text "pw"; corr = text "unavailable" }

-- A response with the attributes `attrs` behind its Message-Authenticator, signed by the stand-ins
-- under `secret` for a request whose authenticator is `ra`.
abbrev pub signed : ℕ → List (ℕ × Bytes) → Bytes
signed code attrs =
    let zeroed = wire ((80, replicate 16 0) ∷ attrs) in
    let total = 20 + length zeroed in
    let header = code ∷ 7 ∷ total / 256 ∷ total % 256 ∷ [] in
    let ma = replicate 16 (checksum 1 (secret ++ (header ++ (ra ++ zeroed)))) in
    let region = wire ((80, ma) ∷ attrs) in
    header ++ (replicate 16 (checksum 5 (header ++ (ra ++ (region ++ secret)))) ++ region)

abbrev pub line_feed : Text
line_feed = 10 ∷ []

-- A comment, a blank line, an address, a comment behind an entry, and an absent line feed at the end.
abbrev pub sample : Text
sample =
    text "# one server"
    ++ line_feed
    ++ line_feed
    ++ text " server 10.0.0.10:1812 /s1 # first"
    ++ line_feed
    ++ text "protocol pap"
    ++ line_feed
    ++ text "nas_identifier host"
    ++ line_feed
    ++ text "retries 1"

-- A file of root, readable by others where `mode` says so.
abbrev pub of_root : ℕ → Metadata
of_root mode = record { is_file = true; uid = 0; mode = mode }

-- Two files: the secret, and for every other path the sample. The descriptor is always 3.
abbrev pub contents_of : FileLog → Bytes
contents_of (statted fd r ∷ opened path r' ∷ log) =
    if bytes_eq path (text "/s1") then secret ++ line_feed else sample
contents_of _ = []

abbrev pub mode_of : ℕ → FileLog → ℕ
mode_of secret_mode (opened path r ∷ log) = if bytes_eq path (text "/s1") then secret_mode else 384
mode_of secret_mode _ = 0

abbrev pub files : ℕ → Files
files secret_mode = record {
  open_nofollow = λ log path. ok 3;
  metadata = λ log fd. ok (of_root (mode_of secret_mode log));
  read_to_end = λ log fd. ok (contents_of log);
}
