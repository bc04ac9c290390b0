-- ===== src/Config/Load/Errors.antt =====
-- What a load that fails was stopped by.
use pam_nps_mfa.Base.{
  ℕ, ◌≡◌, ◌⊎◌, sym, ◌∙◌, ap, Option, none, some, List, [], ◌∷◌, Bytes, ok, err, inl, inr,
  Result-cases, Option-cases, map_err, ok_or,
}
use pam_nps_mfa.Base.Text.{Text}
use pam_nps_mfa.Base.Utf8.{from_utf8}
use pam_nps_mfa.Config.{Server, Config}
use pam_nps_mfa.Config.Parse.{ParsedServer, ParsedConfig, ParseError, parse}
use pam_nps_mfa.Config.Load.{
  IoError, Metadata, opened, statted, consumed, FileLog, Files, PermIssue, ConfigError, open_failed,
  insecure_permissions, read_failed, parse_failed, invalid_data, validate_permissions, Load, ◌>>=◌,
  open_secure, read_file, read_config_text, read_secret, strip_newline, load_server, load_servers,
  resolve, load_with_expected_uid, load, lift,
}
use pam_nps_mfa.Config.Load.Vetted.{
  IsTrusted, not_opened, not_statted, refused, accepted, open_secure-Opening,
}

-- The first things in the log, and the error that they are reported as.
pub data StoppedBy (uid : ℕ) (x : ConfigError) (log : FileLog) : Type 0 where
  by_open :
      (path : Text) (e : IoError) (older : FileLog)
      → x ≡ open_failed path e
      → log ≡ opened path (err e) ∷ older
      → StoppedBy uid x log
  by_stat :
      (path : Text) (fd : ℕ) (e : IoError) (older : FileLog)
      → x ≡ read_failed path e
      → log ≡ statted fd (err e) ∷ opened path (ok fd) ∷ older
      → StoppedBy uid x log
  by_permissions :
      (path : Text) (fd : ℕ) (m : Metadata) (issue : PermIssue) (older : FileLog)
      → x ≡ insecure_permissions path issue
      → validate_permissions m uid ≡ err issue
      → log ≡ statted fd (ok m) ∷ opened path (ok fd) ∷ older
      → StoppedBy uid x log
  by_read :
      (path : Text) (fd : ℕ) (m : Metadata) (e : IoError) (older : FileLog)
      → x ≡ read_failed path e
      → IsTrusted uid m
      → log ≡ consumed fd (err e) ∷ statted fd (ok m) ∷ opened path (ok fd) ∷ older
      → StoppedBy uid x log
  -- the octets of a configuration, or of a secret without its last line feed, are not UTF-8
  by_encoding :
      (path : Text) (fd : ℕ) (m : Metadata) (bytes : Bytes) (older : FileLog)
      → x ≡ read_failed path invalid_data
      → IsTrusted uid m
      → (from_utf8 bytes ≡ none) ⊎ (from_utf8 (strip_newline bytes) ≡ none)
      → log ≡ consumed fd (ok bytes) ∷ statted fd (ok m) ∷ opened path (ok fd) ∷ older
      → StoppedBy uid x log
  by_syntax :
      (path : Text) (fd : ℕ) (m : Metadata) (bytes : Bytes) (t : Text) (e : ParseError)
      (older : FileLog)
      → x ≡ parse_failed e
      → IsTrusted uid m
      → from_utf8 bytes ≡ some t
      → parse t ≡ err e
      → log ≡ consumed fd (ok bytes) ∷ statted fd (ok m) ∷ opened path (ok fd) ∷ older
      → StoppedBy uid x log

>>=-err :
    {A B : Type 0} (m : Load A) (f : A → Load B) (log log' : FileLog) (x : ConfigError)
    → (m >>= f) log ≡ (err x, log')
    → (m log ≡ (err x, log'))
      ⊎ ((a : A) × (mid : FileLog) × (m log ≡ (ok a, mid)) × (f a mid ≡ (err x, log')))
>>=-err m f log log' x h = elim (Result-cases (m log).0) [
  | inl (a, e) ↦ inr (a, (m log).1, ap (λ r. (r, (m log).1)) e, rw e at h)
  | inr (y, e) ↦
      let gone = rw e at h in
      let same : y ≡ x = cc (ap (λ p. p.0) gone) in
      let stays : (m log).1 ≡ log' = ap (λ p. p.1) gone in
      inl (ap (λ r. (r, (m log).1)) (e ∙ ap err same) ∙ ap (λ l. (err x, l)) stays)
]

module _ (files : Files) (uid : ℕ) where
  -- Opening, and reading what was opened: whatever follows, an error is explained.
  opening-StoppedBy :
      {B : Type 0} (path : Text) (f : ℕ → Load B) (log log' : FileLog) (x : ConfigError)
      → ((fd : ℕ) (m : Metadata)
          → IsTrusted uid m
          → f fd (statted fd (ok m) ∷ opened path (ok fd) ∷ log) ≡ (err x, log')
          → StoppedBy uid x log')
      → (open_secure files path uid >>= f) log ≡ (err x, log')
      → StoppedBy uid x log'
  opening-StoppedBy path f log log' x k h = elim (open_secure-Opening files uid path log) [
    | not_opened e q ↦ by_open path e log (failed q) (there q)
    | not_statted fd e q ↦ by_stat path fd e log (failed q) (there q)
    | refused fd m issue v q ↦ by_permissions path fd m issue log (failed q) v (there q)
    | accepted fd m t q ↦ k fd m t (rw q at h)
  ]
    where
      failed : {y : ConfigError} {l : FileLog} → open_secure files path uid log ≡ (err y, l) → x ≡ y
      failed q = cc (ap (λ p. p.0) (rw q at h))

      there :
          {y : ConfigError} {l : FileLog} → open_secure files path uid log ≡ (err y, l) → log' ≡ l
      there q = sym (ap (λ p. p.1) (rw q at h))

  read-StoppedBy :
      {A : Type 0} (path : Text) (fd : ℕ) (m : Metadata) (convert : Bytes → Option A)
      (log log' : FileLog) (x : ConfigError)
      → IsTrusted uid m
      → ((bytes : Bytes)
          → convert bytes ≡ none
          → (from_utf8 bytes ≡ none) ⊎ (from_utf8 (strip_newline bytes) ≡ none))
      → (read_file files path fd >>= λ bytes.
            lift (ok_or (convert bytes) (read_failed path invalid_data)))
          (statted fd (ok m) ∷ opened path (ok fd) ∷ log)
        ≡ (err x, log')
      → StoppedBy uid x log'
  read-StoppedBy path fd m convert log log' x t undecodable h =
      elim (Result-cases (files.read_to_end (statted fd (ok m) ∷ opened path (ok fd) ∷ log) fd)) [
        | inr (e, r) ↦
            let failed = rw r at h in
            by_read path fd m e log (cc (ap (λ p. p.0) failed)) t (sym (ap (λ p. p.1) failed))
        | inl (bytes, r) ↦ elim (Option-cases (convert bytes)) [
          | inr (a, n) ↦ absurd (cc (ap (λ p. p.0) (rw (r, n) at h)))
          | inl n ↦
              let failed = rw (r, n) at h in
              by_encoding path fd m bytes log (cc (ap (λ p. p.0) failed)) t (undecodable bytes n)
                (sym (ap (λ p. p.1) failed))
        ]
      ]

  abbrev with_secret : ParsedServer → Text → Load Server
  with_secret ps secret = lift (ok (record { addr = ps.addr; secret = secret }))

  load_server-StoppedBy :
      (ps : ParsedServer) (log log' : FileLog) (x : ConfigError)
      → load_server files uid ps log ≡ (err x, log')
      → StoppedBy uid x log'
  unfolding load_server read_secret
  load_server-StoppedBy ps log log' x h =
      opening-StoppedBy ps.secret_path
        (λ fd. read_secret files fd ps.secret_path >>= with_secret ps) log log' x
        (λ fd m t k.
          elim (>>=-err (read_secret files fd ps.secret_path) (with_secret ps) _ log' x k) [
            | inl e ↦
                read-StoppedBy ps.secret_path fd m (λ bytes. from_utf8 (strip_newline bytes)) log
                  log' x t (λ bytes n. inr n) e
            | inr (s, mid, read, made) ↦ absurd (cc (ap (λ p. p.0) made))
          ])
        h

  load_servers-StoppedBy :
      (servers : List ParsedServer) (log log' : FileLog) (x : ConfigError)
      → load_servers files uid servers log ≡ (err x, log')
      → StoppedBy uid x log'
  unfolding load_servers
  load_servers-StoppedBy [] log log' x h = absurd (cc (ap (λ p. p.0) h))
  load_servers-StoppedBy (ps ∷ rest) log log' x h =
      elim (>>=-err (load_server files uid ps) _ log log' x h) [
        | inl e ↦ load_server-StoppedBy ps log log' x e
        | inr (s, mid, first, k) ↦ elim (>>=-err (load_servers files uid rest) _ mid log' x k) [
          | inl e ↦ load_servers-StoppedBy rest mid log' x e
          | inr (ss, end, others, made) ↦ absurd (cc (ap (λ p. p.0) made))
        ]
      ]

  resolve-StoppedBy :
      (parsed : ParsedConfig) (log log' : FileLog) (x : ConfigError)
      → resolve files uid parsed log ≡ (err x, log')
      → StoppedBy uid x log'
  unfolding resolve
  resolve-StoppedBy parsed log log' x h =
      elim (>>=-err (load_servers files uid parsed.servers) _ log log' x h) [
        | inl e ↦ load_servers-StoppedBy parsed.servers log log' x e
        | inr (ss, end, secrets, made) ↦ absurd (cc (ap (λ p. p.0) made))
      ]

  abbrev parsed_then : Text → Load Config
  parsed_then t = lift (map_err parse_failed (parse t)) >>= resolve files uid

  parsed-StoppedBy :
      (path : Text) (fd : ℕ) (m : Metadata) (t : Text) (log mid log' : FileLog) (x : ConfigError)
      → IsTrusted uid m
      → read_config_text files fd path (statted fd (ok m) ∷ opened path (ok fd) ∷ log) ≡ (ok t, mid)
      → parsed_then t mid ≡ (err x, log')
      → StoppedBy uid x log'
  unfolding read_config_text
  parsed-StoppedBy path fd m t log mid log' x trusted read h = elim (Result-cases (parse t)) [
    | inl (parsed, p) ↦ resolve-StoppedBy parsed mid log' x (rw p at h)
    | inr (e, p) ↦
        let failed = rw p at h in
        elim (Result-cases (files.read_to_end (statted fd (ok m) ∷ opened path (ok fd) ∷ log) fd)) [
          | inr (y, r) ↦ absurd (cc (ap (λ p. p.0) (rw r at read)))
          | inl (bytes, r) ↦ elim (Option-cases (from_utf8 bytes)) [
            | inl n ↦ absurd (cc (ap (λ p. p.0) (rw (r, n) at read)))
            | inr (t', n) ↦
                let taken = rw (r, n) at read in
                let same : t' ≡ t = cc (ap (λ p. p.0) taken) in
                by_syntax path fd m bytes t e log (cc (ap (λ p. p.0) failed)) trusted
                  (n ∙ ap some same) p (sym (ap (λ p. p.1) failed) ∙ sym (ap (λ p. p.1) taken))
          ]
        ]
  ]

  load_with_expected_uid-StoppedBy :
      (path : Text) (log log' : FileLog) (x : ConfigError)
      → load_with_expected_uid files path uid log ≡ (err x, log')
      → StoppedBy uid x log'
  unfolding load_with_expected_uid read_config_text
  load_with_expected_uid-StoppedBy path log log' x h =
      opening-StoppedBy path (λ fd. read_config_text files fd path >>= parsed_then) log log' x
        (λ fd m t k. elim (>>=-err (read_config_text files fd path) parsed_then _ log' x k) [
          | inl e ↦ read-StoppedBy path fd m from_utf8 log log' x t (λ bytes n. inl n) e
          | inr (s, mid, read, rest) ↦ parsed-StoppedBy path fd m s log mid log' x t read rest
        ])
        h

-- A load that fails was stopped by the last thing in its log, and reports it: an open that failed (a
-- symbolic link's included), a look at the file that failed, a file that the permission check refuses,
-- a read that failed, octets that are not UTF-8, or a text that `parse` refuses; nothing of a refused
-- file was read.
pub load-StoppedBy :
    (files : Files) (path : Text) (log log' : FileLog) (x : ConfigError)
    → load files path log ≡ (err x, log')
    → StoppedBy 0 x log'
unfolding load
load-StoppedBy files path log log' x h = load_with_expected_uid-StoppedBy files 0 path log log' x h
