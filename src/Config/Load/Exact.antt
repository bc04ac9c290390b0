-- ===== src/Config/Load/Exact.antt =====
-- What a load that succeeds has read, and what it makes of that.
use pam_nps_mfa.Base.{
  ℕ, ◌≡◌, refl, sym, ◌∙◌, ap, Option, some, List, [], ◌∷◌, Bytes, Result, ok, err, inl, inr,
  Result-cases, Option-cases, map_err, ok_or,
}
use pam_nps_mfa.Base.Text.{Text}
use pam_nps_mfa.Base.Utf8.{from_utf8}
use pam_nps_mfa.Config.{Server, Config}
use pam_nps_mfa.Config.Parse.{ParsedServer, ParsedConfig, parse}
use pam_nps_mfa.Config.Parse.Spec.{entries, IsConfigOf}
use pam_nps_mfa.Config.Parse.Sound.{parse-IsConfigOf}
use pam_nps_mfa.Config.Load.{
  Metadata, opened, statted, consumed, FileLog, Files, read_failed, parse_failed, invalid_data,
  Load, ◌>>=◌, open_secure, read_file, read_config_text, read_secret, strip_newline, load_server,
  load_servers, resolve, resolved, load_with_expected_uid, load, lift,
}
use pam_nps_mfa.Config.Load.Vetted.{
  IsTrusted, not_opened, not_statted, refused, accepted, open_secure-Opening,
}

-- The file behind the path was opened, found trusted and read, and that is all that was done.
pub record FileRead (uid : ℕ) (path : Text) (bytes : Bytes) (log log' : FileLog) : Type 0 where
  pub fd : ℕ
  pub meta : Metadata
  pub trusted : IsTrusted uid meta
  pub events : log' ≡ consumed fd (ok bytes) ∷ statted fd (ok meta) ∷ opened path (ok fd) ∷ log

-- Each server has its address and, from its own file, the text less one line feed at the end.
abbrev pub SecretsRead : ℕ → List ParsedServer → List Server → FileLog → FileLog → Type 0
SecretsRead uid [] [] log log' = log' ≡ log
SecretsRead uid (ps ∷ rest) (s ∷ ss) log log' =
    (bytes : Bytes) × (mid : FileLog) × FileRead uid ps.secret_path bytes log mid
    × (from_utf8 (strip_newline bytes) ≡ some s.secret)
    × (s.addr ≡ ps.addr)
    × SecretsRead uid rest ss mid log'
SecretsRead uid _ _ log log' = ⊥

-- The configuration file was read, its entries give the settings, and the secrets were read after it.
pub record IsLoaded (uid : ℕ) (path : Text) (c : Config) (log log' : FileLog) : Type 0 where
  pub contents : Bytes
  pub decoded : Text
  pub parsed : ParsedConfig
  pub mid : FileLog
  pub read_first : FileRead uid path contents log mid
  pub decodes : from_utf8 contents ≡ some decoded
  pub says : IsConfigOf (entries decoded) parsed
  pub secrets : SecretsRead uid parsed.servers c.servers mid log'
  pub settings : c ≡ resolved parsed c.servers

map_err-ok : {A E F : Type 0} (r : Result A E) (f : E → F) (a : A) → map_err f r ≡ ok a → r ≡ ok a
map_err-ok (ok a') f a h = cc
map_err-ok (err e) f a h = absurd (cc)

pub >>=-ok :
    {A B : Type 0} (m : Load A) (f : A → Load B) (log log' : FileLog) (b : B)
    → (m >>= f) log ≡ (ok b, log')
    → (a : A) × (mid : FileLog) × (m log ≡ (ok a, mid)) × (f a mid ≡ (ok b, log'))
>>=-ok m f log log' b h = elim (Result-cases (m log).0) [
  | inl (a, e) ↦ (a, (m log).1, ap (λ r. (r, (m log).1)) e, rw e at h)
  | inr (x, e) ↦ absurd (cc (ap (λ p. p.0) (rw e at h)))
]

module _ (files : Files) (uid : ℕ) where
  -- A file that was opened and then read.
  read_after-FileRead :
      {A : Type 0} (path : Text) (log mid log' : FileLog) (fd : ℕ) (convert : Bytes → Option A)
      (a : A)
      → open_secure files path uid log ≡ (ok fd, mid)
      → (read_file files path fd >>= λ bytes.
            lift (ok_or (convert bytes) (read_failed path invalid_data)))
          mid
        ≡ (ok a, log')
      → (bytes : Bytes) × FileRead uid path bytes log log' × (convert bytes ≡ some a)
  read_after-FileRead path log mid log' fd convert a o r =
      elim (open_secure-Opening files uid path log) [
        | not_opened e q ↦ absurd (cc (ap (λ p. p.0) q))
        | not_statted fd' e q ↦ absurd (cc (ap (λ p. p.0) q))
        | refused fd' m issue v q ↦ absurd (cc (ap (λ p. p.0) q))
        | accepted fd' m t q ↦
            let same : fd' ≡ fd = cc (ap (λ p. p.0) (sym q ∙ o)) in
            let there : statted fd' (ok m) ∷ opened path (ok fd') ∷ log ≡ mid =
              ap (λ p. p.1) (sym q ∙ o) in
            elim (Result-cases (files.read_to_end mid fd)) [
              | inr (x, e) ↦ absurd (cc (ap (λ p. p.0) (rw e at r)))
              | inl (bytes, e) ↦ elim (Option-cases (convert bytes)) [
                | inl n ↦ absurd (cc (ap (λ p. p.0) (rw (e, n) at r)))
                | inr (v, n) ↦
                    let taken = rw (e, n) at r in
                    (
                      bytes,
                      record {
                        fd = fd;
                        meta = m;
                        trusted = t;
                        events = ap (λ p. p.1) (sym taken) ∙ rw (← there, same) refl;
                      },
                      let value : v ≡ a = cc (ap (λ p. p.0) taken) in n ∙ ap some value,
                    )
              ]
            ]
      ]

  -- One round of the loop of `resolve`.
  load_server-FileRead :
      (ps : ParsedServer) (s : Server) (log log' : FileLog)
      → load_server files uid ps log ≡ (ok s, log')
      → (bytes : Bytes) × FileRead uid ps.secret_path bytes log log'
        × (from_utf8 (strip_newline bytes) ≡ some s.secret)
        × (s.addr ≡ ps.addr)
  unfolding load_server read_secret
  load_server-FileRead ps s log log' h =
      let (fd, mid, opening, more) = >>=-ok (open_secure files ps.secret_path uid) _ log log' s h in
      let (secret, end, reading, made) =
        >>=-ok (read_secret files fd ps.secret_path) _ mid log' s more in
      let (bytes, read, text_of) =
        read_after-FileRead ps.secret_path log mid end fd (λ bytes. from_utf8 (strip_newline bytes))
          secret opening reading in
      let there : end ≡ log' = ap (λ p. p.1) made in
      let same : record { addr = ps.addr; secret = secret } ≡ s = cc (ap (λ p. p.0) made) in
      rw (← there, ← same) (bytes, read, text_of, refl)

  load_servers-SecretsRead :
      (servers : List ParsedServer) (ss : List Server) (log log' : FileLog)
      → load_servers files uid servers log ≡ (ok ss, log')
      → SecretsRead uid servers ss log log'
  unfolding load_servers
  load_servers-SecretsRead [] [] log log' h = sym (ap (λ p. p.1) h)
  load_servers-SecretsRead [] (s ∷ ss) log log' h = absurd (cc (ap (λ p. p.0) h))
  load_servers-SecretsRead (ps ∷ rest) ss log log' h =
      let (s, mid, first, more) = >>=-ok (load_server files uid ps) _ log log' ss h in
      let (others, end, behind, made) = >>=-ok (load_servers files uid rest) _ mid log' ss more in
      let there : end ≡ log' = ap (λ p. p.1) made in
      let same : s ∷ others ≡ ss = cc (ap (λ p. p.0) made) in
      let (bytes, read, text_of, address) = load_server-FileRead ps s log mid first in
      rw (← there, ← same)
        (bytes, mid, read, text_of, address, load_servers-SecretsRead rest others mid end behind)

  resolve-SecretsRead :
      (parsed : ParsedConfig) (c : Config) (log log' : FileLog)
      → resolve files uid parsed log ≡ (ok c, log')
      → SecretsRead uid parsed.servers c.servers log log' × (c ≡ resolved parsed c.servers)
  unfolding resolve
  resolve-SecretsRead parsed c log log' h =
      let (servers, end, secrets, made) =
        >>=-ok (load_servers files uid parsed.servers) _ log log' c h in
      let there : end ≡ log' = ap (λ p. p.1) made in
      let same : resolved parsed servers ≡ c = cc (ap (λ p. p.0) made) in
      rw (← there, ← same) (load_servers-SecretsRead parsed.servers servers log end secrets, refl)

  load_with_expected_uid-IsLoaded :
      (path : Text) (c : Config) (log log' : FileLog)
      → load_with_expected_uid files path uid log ≡ (ok c, log')
      → IsLoaded uid path c log log'
  unfolding load_with_expected_uid read_config_text
  load_with_expected_uid-IsLoaded path c log log' h =
      let (fd, mid, opening, more) = >>=-ok (open_secure files path uid) _ log log' c h in
      let (t, end, reading, then) = >>=-ok (read_config_text files fd path) _ mid log' c more in
      let (bytes, read, text_of) =
        read_after-FileRead path log mid end fd from_utf8 t opening reading in
      let (parsed, end', syntax, last) =
        >>=-ok (lift (map_err parse_failed (parse t))) _ end log' c then in
      let stays : end ≡ end' = ap (λ p. p.1) syntax in
      let is_parsed : parse t ≡ ok parsed =
        map_err-ok (parse t) parse_failed parsed (ap (λ p. p.0) syntax) in
      let (secrets, settings) = resolve-SecretsRead parsed c end log' (rw stays last) in
      record {
        contents = bytes;
        decoded = t;
        parsed = parsed;
        mid = end;
        read_first = read;
        decodes = text_of;
        says = parse-IsConfigOf t parsed is_parsed;
        secrets = secrets;
        settings = settings;
      }

-- A load that succeeds opened, checked and read the configuration file and then, in the order of the
-- `server` entries, each secret file, and did nothing else; the settings are those that the entries of
-- the file's text say, with the defaults, and each server has the address of its entry and the text of
-- its file less one line feed at the end.
pub load-IsLoaded :
    (files : Files) (path : Text) (c : Config) (log log' : FileLog)
    → load files path log ≡ (ok c, log')
    → IsLoaded 0 path c log log'
unfolding load
load-IsLoaded files path c log log' h = load_with_expected_uid-IsLoaded files 0 path c log log' h
