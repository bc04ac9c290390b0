-- ===== src/Boundary/Success.antt =====
-- The calls of `pam_sm_authenticate` that return PAM_SUCCESS.
use pam_nps_mfa.Base.{
  ℕ, ◌/◌, ◌%◌, ◌≡◌, ◌∙◌, false, ◌≢◌, refl, ap, arith, Bool, Bool-cases, not, Option, none, some,
  List, [], ◌∷◌, inl, inr, ◌==◌, Result, ok, err,
}
use pam_nps_mfa.Base.Text.{Text}
use pam_nps_mfa.Primitives.{Primitives}
use pam_nps_mfa.World.{IpAddr}
use pam_nps_mfa.System.{world_of, attempt_panics, transport_of}
use pam_nps_mfa.Audit.{AuditRecord, Backend}
use pam_nps_mfa.Config.{Config}
use pam_nps_mfa.Config.Load.{ConfigError, FileLog, load}
use pam_nps_mfa.Config.Load.Exact.{IsLoaded, load-IsLoaded}
use pam_nps_mfa.Flow.{PamOutcome, auth_err, conv_err, pam_code}
use pam_nps_mfa.Flow.Authenticate.Safety.{Evidence, authenticate_report-success}
use pam_nps_mfa.Boundary.{
  Options, Ended, context, reported, CString, null, undecodable, decoded, Host, get_user,
  get_authtok, user_of, authtok_of, loaded, attempt, with_authtok, with_user, sm_authenticate,
  fetched, parse_options_from, default_options, corr_id,
}

user_of-nonzero : (s : CString) (code : ℕ) → user_of s ≡ err code → code ≢ 0
user_of-nonzero null code e z = cc
user_of-nonzero undecodable code e z = cc
user_of-nonzero (decoded []) code e z = cc
user_of-nonzero (decoded (x ∷ s)) code e z = cc

get_user-nonzero : (host : Host) (code : ℕ) → get_user host ≡ err code → code ≢ 0
unfolding get_user
get_user-nonzero host code e z = elim (Bool-cases host.system.handle_is_null) [
  | inl b ↦ cc (rw b at e)
  | inr b ↦ elim (Bool-cases (host.pam_get_user.0 == 0)) [
    | inl r ↦ user_of-nonzero host.pam_get_user.1 code (rw (b, r) at e) z
    | inr r ↦ let rc_is_code : host.pam_get_user.0 ≡ code = cc (rw (b, r) at e) in ground arith
  ]
]

authtok_of-nonzero : (s : CString) (code : ℕ) → authtok_of s ≡ err code → code ≢ 0
authtok_of-nonzero null code e z = cc
authtok_of-nonzero undecodable code e z = cc
authtok_of-nonzero (decoded s) code e z = cc

get_authtok-nonzero :
    (host : Host) (answer : ℕ × CString) (code : ℕ) → get_authtok host answer ≡ err code → code ≢ 0
unfolding get_authtok
get_authtok-nonzero host answer code e z = elim (Bool-cases host.system.handle_is_null) [
  | inl b ↦ cc (rw b at e)
  | inr b ↦ elim (Bool-cases (answer.0 == 0)) [
    | inl r ↦ authtok_of-nonzero answer.1 code (rw (b, r) at e) z
    | inr r ↦ let rc_is_code : answer.0 ≡ code = cc (rw (b, r) at e) in ground arith
  ]
]

pam_code-zero : (o : PamOutcome) → pam_code o ≡ 0 → o ≡ PamOutcome.success
unfolding pam_code
pam_code-zero PamOutcome.success e = refl
pam_code-zero auth_err e = absurd (cc)
pam_code-zero PamOutcome.unavail e = absurd (cc)
pam_code-zero conv_err e = absurd (cc)

code_of : (a ended : Ended) → some a ≡ some ended → a.0 ≡ ended.0
code_of a ended q = let same : a ≡ ended = cc in ap (λ e. e.0) same

nonzero_code :
    (code : ℕ) (records : List (Backend × AuditRecord)) (ended : Ended)
    → code ≢ 0
    → some (code, records) ≡ some ended
    → ended.0 ≢ 0
nonzero_code code records ended n q z = n (code_of (code, records) ended q ∙ z)

module _ (c : Primitives) (ip_to_string : IpAddr → Text) (host : Host) where
  -- libpam handed out the user and the password, the configuration was loaded from the path of the
  -- options as its entries say, and the attempt with them, over the application's conversation and the
  -- sockets, has the evidence that its protocol asks for.
  pub record Granted (opts : Options) (corr : Text) (silent : Bool) : Type 0 where
    pub username : Text
    pub password : Text
    pub config : Config
    pub got_user : get_user host ≡ ok username
    pub got_authtok : fetched c ip_to_string host opts ≡ ok (some password)
    pub config_loaded : loaded c ip_to_string host opts.config_path ≡ ok config
    pub log : FileLog
    pub from_files : IsLoaded 0 opts.config_path config [] log
    pub evidence :
        Evidence c
          (world_of host.system silent config)
          (context corr username password)
          config
          config.protocol
          (reported c ip_to_string host silent (context corr username password) config).0
          (reported c ip_to_string host silent (context corr username password) config).1
    pub ran_through :
        attempt_panics host.system
          (transport_of config)
          (reported c ip_to_string host silent (context corr username password) config).1
        ≡ false

  -- A call that returned 0.
  abbrev pub Succeeds : Option Ended → Type 0
  Succeeds o = (ended : Ended) × (o ≡ some ended) × (ended.0 ≡ 0)

  attempt-success :
      (corr username password : Text) (silent : Bool) (opts : Options)
      (answer : Result Config ConfigError)
      → get_user host ≡ ok username
      → fetched c ip_to_string host opts ≡ ok (some password)
      → loaded c ip_to_string host opts.config_path ≡ answer
      → Succeeds (attempt c ip_to_string host corr username password silent answer)
      → Granted opts corr silent
  unfolding attempt pam_code
  attempt-success corr username password silent opts (err e) u a l (ended, q, z) =
      absurd (nonzero_code _ _ _ (λ n. cc) q z)
  attempt-success corr username password silent opts (ok config) u a l (ended, q, z) =
      let (report, h) =
        reported c ip_to_string host silent (context corr username password) config in
      elim (Bool-cases (attempt_panics host.system (transport_of config) h)) [
        | inl b ↦ absurd (cc (rw b at q))
        | inr b ↦
            let (has_user, has_password, evidence) =
              authenticate_report-success c (world_of host.system silent config)
                (context corr username password) config
                (pam_code-zero _ (code_of _ _ (rw b at q) ∙ z)) in
            record {
              username = username;
              password = password;
              config = config;
              got_user = u;
              got_authtok = a;
              config_loaded = l;
              log = _;
              from_files =
                  load-IsLoaded host.files opts.config_path config [] _
                    (ap (λ r. (r, (load host.files opts.config_path []).1)) l);
              evidence = evidence;
              ran_through = b;
            }
      ]

  with_authtok-success :
      (corr username : Text) (opts : Options) (disallow_null silent : Bool)
      (tok : Result (Option Text) ℕ)
      → get_user host ≡ ok username
      → fetched c ip_to_string host opts ≡ tok
      → Succeeds
          (with_authtok c ip_to_string host corr opts.config_path username disallow_null silent tok)
      → Granted opts corr silent
  unfolding with_authtok
  with_authtok-success corr username opts d s (ok none) u a (ended, q, z) =
      absurd (nonzero_code _ _ _ (λ n. cc) q z)
  with_authtok-success corr username opts d s (err code) u a (ended, q, z) =
      elim (Bool-cases opts.use_first_pass) [
        | inl b ↦
            absurd
              (nonzero_code _ _ _ (get_authtok-nonzero host host.pam_get_item code (rw b at a)) q z)
        | inr b ↦ absurd (
            nonzero_code _ _ _ (get_authtok-nonzero host host.pam_get_authtok code (rw b at a)) q z)
      ]
  with_authtok-success corr username opts d s (ok (some [])) u a (ended, q, z) =
      absurd (nonzero_code _ _ _ (λ n. cc) q z)
  with_authtok-success corr username opts d s (ok (some (x ∷ password))) u a z =
      attempt-success corr username (x ∷ password) s opts
        (loaded c ip_to_string host opts.config_path) u a refl z

  with_user-success :
      (corr : Text) (opts : Options) (disallow_null silent : Bool) (user : Result Text ℕ)
      → get_user host ≡ user
      → Succeeds (with_user c ip_to_string host corr opts disallow_null silent user)
      → Granted opts corr silent
  unfolding with_user
  with_user-success corr opts d s (err code) u (ended, q, z) =
      absurd (nonzero_code _ _ _ (get_user-nonzero host code u) q z)
  with_user-success corr opts d s (ok username) u z =
      with_authtok-success corr username opts d s (fetched c ip_to_string host opts) u refl z

-- A call that returns PAM_SUCCESS was given a user and a password by libpam, loaded the configuration
-- from the path that its arguments name, out of files that only root can change or read and as its
-- entries say, and ended an attempt with them, over the application's conversation and the UDP
-- transport of that configuration, on the evidence of the configured protocol.
pub sm_authenticate-success :
    (c : Primitives) (ip_to_string : IpAddr → Text) (host : Host) (flags : ℕ) (args : List Text)
    (ended : Ended)
    → sm_authenticate c ip_to_string host flags args ≡ some ended
    → ended.0 ≡ 0
    → Granted c ip_to_string host
        (parse_options_from default_options args)
        (corr_id host.corr_octets)
        (not (flags / 32768 % 2 == 0))
unfolding sm_authenticate
sm_authenticate-success c ip_to_string host flags args ended q z =
    with_user-success c ip_to_string host (corr_id host.corr_octets)
      (parse_options_from default_options args) (not (flags % 2 == 0))
      (not (flags / 32768 % 2 == 0)) (get_user host) refl (ended, q, z)
