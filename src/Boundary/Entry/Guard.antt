-- ===== src/Boundary/Entry/Guard.antt =====
-- What the guard of `pam_sm_authenticate` makes of every call.
use pam_nps_mfa.Base.{
  ℕ, ◌/◌, ◌%◌, ◌≡◌, arith, refl, ap, ◌==◌, not, Option, none, some, [], Result, ok,
}
use pam_nps_mfa.Base.Text.{Text}
use pam_nps_mfa.Primitives.{Primitives}
use pam_nps_mfa.World.{IpAddr}
use pam_nps_mfa.Config.{Config}
use pam_nps_mfa.Config.Load.{ConfigError, load}
use pam_nps_mfa.Config.Load.Bounds.{load-FitsU32}
use pam_nps_mfa.Boundary.{
  CString, Host, Ended, sm_authenticate, loaded, parse_options_from, default_options, corr_id,
}
use pam_nps_mfa.Boundary.Outcome.{
  IsRecorded, Accounted, recorded, flow_panicked, sm_authenticate-Accounted,
}
use pam_nps_mfa.Boundary.Success.{Granted, sm_authenticate-success}
use pam_nps_mfa.Boundary.Entry.{module_args, caught, pam_sm_authenticate}

-- What a call answers: a code with its one record; or PAM_AUTHINFO_UNAVAIL without a record, where
-- the loaded configuration asks for the largest number of retries.
pub data IsGuarded (config : Result Config ConfigError) (ended : Ended) : Type 0 where
  with_record : IsRecorded ended → IsGuarded config ended
  without_record :
      (loaded : Config)
      → ended ≡ (9, [])
      → config ≡ ok loaded
      → loaded.retries ≡ 4294967295
      → IsGuarded config ended

module _ (c : Primitives) (ip_to_string : IpAddr → Text) (host : Host) where
  caught-IsGuarded :
      (path : Text) (o : Option Ended)
      → Accounted (loaded c ip_to_string host path) o
      → IsGuarded (loaded c ip_to_string host path) (caught o)
  caught-IsGuarded path o (recorded ended e r) = with_record (rw e r)
  caught-IsGuarded path o (flow_panicked config e l wraps) =
      let fits =
        load-FitsU32 host.files path config [] _ (ap (λ r. (r, (load host.files path []).1)) l) in
      let small = fits.retries_fit in without_record config (ap caught e) l (omega arith)

-- Every call of `pam_sm_authenticate` returns, with the panic caught: with exactly one audit record,
-- whose result is the one that the return code stands for; or with PAM_AUTHINFO_UNAVAIL and no record,
-- which takes a configuration that was loaded and whose `retries` is the largest number of 32 bits.
pub pam_sm_authenticate-IsGuarded :
    (c : Primitives) (ip_to_string : IpAddr → Text) (host : Host) (flags argc : ℕ)
    (argv : Option (ℕ → CString))
    → IsGuarded
        (loaded c ip_to_string host
          (parse_options_from default_options (module_args argc argv)).config_path)
        (pam_sm_authenticate c ip_to_string host flags argc argv)
unfolding pam_sm_authenticate
pam_sm_authenticate-IsGuarded c ip_to_string host flags argc argv =
    caught-IsGuarded c ip_to_string host _ _
      (sm_authenticate-Accounted c ip_to_string host flags (module_args argc argv))

-- What is caught is not taken for a success.
caught-zero :
    (o : Option Ended) → (caught o).0 ≡ 0 → (ended : Ended) × (o ≡ some ended) × (ended.0 ≡ 0)
caught-zero none z = absurd (cc)
caught-zero (some ended) z = (ended, refl, z)

-- A call of `pam_sm_authenticate` returns PAM_SUCCESS only where libpam handed out a user and a
-- password, the configuration was loaded from the path that the decodable arguments name, out of
-- files that only root can change or read, and the attempt, in which nothing panicked, ended on the
-- evidence of the configured protocol.
pub pam_sm_authenticate-Granted :
    (c : Primitives) (ip_to_string : IpAddr → Text) (host : Host) (flags argc : ℕ)
    (argv : Option (ℕ → CString))
    → (pam_sm_authenticate c ip_to_string host flags argc argv).0 ≡ 0
    → Granted c ip_to_string host
        (parse_options_from default_options (module_args argc argv))
        (corr_id host.corr_octets)
        (not (flags / 32768 % 2 == 0))
unfolding pam_sm_authenticate
pam_sm_authenticate-Granted c ip_to_string host flags argc argv z =
    let (ended, q, zero_code) =
      caught-zero (sm_authenticate c ip_to_string host flags (module_args argc argv)) z in
    sm_authenticate-success c ip_to_string host flags (module_args argc argv) ended q zero_code
