-- ===== src/Config/Load/Vetted.antt =====
-- The log of a load: what stands below the reading of a file.
use pam_nps_mfa.Base.{
  ℕ, ◌%◌, ◌≡◌, ◌≢◌, ◌⊎◌, refl, arith, true, false, Bool-cases, List, [], ◌∷◌, ◌==◌, Result, ok, err,
  inl, inr, Result-cases, map_err,
}
use Prim.Native.Nat.{bit_and}
use pam_nps_mfa.Base.Bits.Mask.{bit_and-sixty_three}
use pam_nps_mfa.Base.Text.{Text}
use pam_nps_mfa.Config.Parse.{ParsedServer, parse}
use pam_nps_mfa.Config.Load.{
  IoError, Metadata, opened, statted, consumed, FileLog, Files, PermIssue, not_regular_file,
  wrong_owner, group_or_other_accessible, ConfigError, open_failed, read_failed,
  insecure_permissions, validate_permissions, Load, ◌>>=◌, open_secure, read_config_text,
  read_secret, load_server, load_servers, resolve, load_with_expected_uid, load, lift, parse_failed,
}

-- A regular file of the owner, without permission bits for the group and for others.
abbrev pub IsTrusted : ℕ → Metadata → Type 0
IsTrusted uid m = (m.is_file ≡ true) × (m.uid ≡ uid) × (m.mode % 64 ≡ 0)

-- Accepted, or the first of the three that is missing.
abbrev pub IsJudged : Metadata → ℕ → Result (Unit {0}) PermIssue → Type 0
IsJudged m uid r =
    (IsTrusted uid m × (r ≡ ok tt))
    ⊎ ((m.is_file ≡ false) × (r ≡ err not_regular_file))
    ⊎ ((m.is_file ≡ true) × (m.uid ≢ uid) × (r ≡ err (wrong_owner m.uid uid)))
    ⊎ ((m.is_file ≡ true)
        × (m.uid ≡ uid)
        × (m.mode % 64 ≢ 0)
        × (r ≡ err (group_or_other_accessible m.mode)))

-- The permission check accepts exactly the regular files of the expected owner whose mode has no bit
-- for the group or for others, and otherwise says which of the three is missing first.
pub validate_permissions-IsJudged :
    (m : Metadata) (uid : ℕ) → IsJudged m uid (validate_permissions m uid)
unfolding validate_permissions
validate_permissions-IsJudged m uid = elim (Bool-cases m.is_file) [
  | inr f ↦ inr (inl (f, rw f refl))
  | inl f ↦ elim (Bool-cases (m.uid == uid)) [
    | inr u ↦ inr (inr (inl (f, ground arith, simp (f, u))))
    | inl u ↦ elim (Bool-cases (bit_and m.mode 63 == 0)) [
      | inl z ↦ inl ((f, ground arith, ground (arith, bit_and-sixty_three m.mode)), simp (f, u, z))
      | inr z ↦
          inr (
            inr (inr (f, ground arith, ground (arith, bit_and-sixty_three m.mode), simp (f, u, z))))
    ]
  ]
]

-- The last two things done: the descriptor was opened, and its file found trusted.
abbrev pub IsChecked : ℕ → ℕ → FileLog → Type 0
IsChecked uid fd log =
    (path : Text) × (m : Metadata) × (before : FileLog) × (log
      ≡ statted fd (ok m) ∷ opened path (ok fd) ∷ before)
    × IsTrusted uid m

-- Every read is of a descriptor just opened and checked: nothing stands between.
abbrev pub IsVetted : ℕ → FileLog → Type 0
IsVetted uid [] = Unit
IsVetted uid (opened path r ∷ log) = IsVetted uid log
IsVetted uid (statted fd r ∷ log) = IsVetted uid log
IsVetted uid (consumed fd r ∷ log) = IsChecked uid fd log × IsVetted uid log

validate_permissions-IsTrusted :
    (m : Metadata) (uid : ℕ) → validate_permissions m uid ≡ ok tt → IsTrusted uid m
validate_permissions-IsTrusted m uid h = elim (validate_permissions-IsJudged m uid) [
  | inl (t, _) ↦ t
  | inr (inl (_, e)) ↦ absurd (cc)
  | inr (inr (inl (_, _, e))) ↦ absurd (cc)
  | inr (inr (inr (_, _, _, e))) ↦ absurd (cc)
]

-- A step that keeps a vetted log vetted.
abbrev Keeps : {A : Type 0} → ℕ → Load A → Type 0
Keeps uid m = (log : FileLog) → IsVetted uid log → IsVetted uid (m log).1

>>=-Keeps :
    {A B : Type 0} (uid : ℕ) (m : Load A) (f : A → Load B)
    → Keeps uid m
    → ((a : A) → Keeps uid (f a))
    → Keeps uid (m >>= f)
>>=-Keeps uid m f km kf log h = elim (Result-cases (m log).0) [
  | inl (a, e) ↦ rw e (kf a (m log).1 (km log h))
  | inr (x, e) ↦ rw e (km log h)
]

-- What `open_secure` does: the open fails, the look at its file fails, the check refuses the file, or
-- it accepts it.
pub data Opening (path : Text) (uid : ℕ) (log : FileLog) (r : Result ℕ ConfigError × FileLog)
    : Type 0 where
  not_opened :
      (e : IoError)
      → r ≡ (err (open_failed path e), opened path (err e) ∷ log)
      → Opening path uid log r
  not_statted :
      (fd : ℕ) (e : IoError)
      → r ≡ (err (read_failed path e), statted fd (err e) ∷ opened path (ok fd) ∷ log)
      → Opening path uid log r
  refused :
      (fd : ℕ) (m : Metadata) (issue : PermIssue)
      → validate_permissions m uid ≡ err issue
      → r ≡ (err (insecure_permissions path issue), statted fd (ok m) ∷ opened path (ok fd) ∷ log)
      → Opening path uid log r
  accepted :
      (fd : ℕ) (m : Metadata)
      → IsTrusted uid m
      → r ≡ (ok fd, statted fd (ok m) ∷ opened path (ok fd) ∷ log)
      → Opening path uid log r

module _ (files : Files) (uid : ℕ) where
  pub open_secure-Opening :
      (path : Text) (log : FileLog) → Opening path uid log (open_secure files path uid log)
  unfolding open_secure
  open_secure-Opening path log = elim (Result-cases (files.open_nofollow log path)) [
    | inr (e, o) ↦ not_opened e (rw o refl)
    | inl (fd, o) ↦ elim (Result-cases (files.metadata (opened path (ok fd) ∷ log) fd)) [
      | inr (e, s) ↦ not_statted fd e (rw (o, s) refl)
      | inl (m, s) ↦ elim (Result-cases (validate_permissions m uid)) [
        | inr (issue, v) ↦ refused fd m issue v (rw (o, s, v) refl)
        | inl (tt, v) ↦ accepted fd m (validate_permissions-IsTrusted m uid v) (rw (o, s, v) refl)
      ]
    ]
  ]

  -- What follows the opening may rely on the check.
  open_secure-Keeps :
      {B : Type 0} (path : Text) (f : ℕ → Load B)
      → ((fd : ℕ) (log : FileLog)
          → IsChecked uid fd log
          → IsVetted uid log
          → IsVetted uid (f fd log).1)
      → Keeps uid (open_secure files path uid >>= f)
  open_secure-Keeps path f kf log h = elim (open_secure-Opening path log) [
    | not_opened e r ↦ rw r h
    | not_statted fd e r ↦ rw r h
    | refused fd m issue v r ↦ rw r h
    | accepted fd m t r ↦ rw r (kf fd _ (path, m, log, refl, t) h)
  ]

  read_config_text-IsVetted :
      (path : Text) (fd : ℕ) (log : FileLog)
      → IsChecked uid fd log
      → IsVetted uid log
      → IsVetted uid (read_config_text files fd path log).1
  unfolding read_config_text
  read_config_text-IsVetted path fd log k h = elim (Result-cases (files.read_to_end log fd)) [
    | inl (bytes, e) ↦ rw e (k, h)
    | inr (x, e) ↦ rw e (k, h)
  ]

  read_secret-IsVetted :
      (path : Text) (fd : ℕ) (log : FileLog)
      → IsChecked uid fd log
      → IsVetted uid log
      → IsVetted uid (read_secret files fd path log).1
  unfolding read_secret
  read_secret-IsVetted path fd log k h = elim (Result-cases (files.read_to_end log fd)) [
    | inl (bytes, e) ↦ rw e (k, h)
    | inr (x, e) ↦ rw e (k, h)
  ]

  load_server-Keeps : (ps : ParsedServer) → Keeps uid (load_server files uid ps)
  unfolding load_server
  load_server-Keeps ps = open_secure-Keeps ps.secret_path _ (λ fd log k h.
      >>=-Keeps uid (λ _. read_secret files fd ps.secret_path log) _
        (λ _ _. read_secret-IsVetted ps.secret_path fd log k h) (λ secret _ h'. h') log h)

  load_servers-Keeps : (servers : List ParsedServer) → Keeps uid (load_servers files uid servers)
  unfolding load_servers
  load_servers-Keeps [] log h = h
  load_servers-Keeps (ps ∷ rest) log h =
      >>=-Keeps uid (load_server files uid ps) _ (load_server-Keeps ps)
        (λ server.
          >>=-Keeps uid (load_servers files uid rest) _ (load_servers-Keeps rest) (λ ss log h. h))
        log h

  load_with_expected_uid-Keeps : (path : Text) → Keeps uid (load_with_expected_uid files path uid)
  unfolding load_with_expected_uid resolve
  load_with_expected_uid-Keeps path = open_secure-Keeps path _ (λ fd log k h.
      >>=-Keeps uid (λ _. read_config_text files fd path log) _
        (λ _ _. read_config_text-IsVetted path fd log k h)
        (λ t.
          >>=-Keeps uid (lift (map_err parse_failed (parse t))) _ (λ log h. h)
            (λ parsed.
              >>=-Keeps uid (load_servers files uid parsed.servers) _
                (load_servers-Keeps parsed.servers) (λ ss log' h'. h')))
        log h)

-- Whatever the files answer, the loader reads from no descriptor that it has not opened, looked at and
-- found to be a regular file of root without permissions for others directly before: neither the
-- configuration nor a secret, and also where the load fails later.
pub load-IsVetted :
    (files : Files) (path : Text) (log : FileLog)
    → IsVetted 0 log
    → IsVetted 0 (load files path log).1
unfolding load
load-IsVetted files path log h = load_with_expected_uid-Keeps files 0 path log h
