-- ===== src/Config/Load/Bounds.antt =====
-- The numbers of a configuration that was loaded.
use pam_nps_mfa.Base.{ℕ, ◌≤◌, ◌≡◌, arith, List, ok}
use pam_nps_mfa.Base.Text.{Text}
use pam_nps_mfa.Base.Str.{u32_from_str}
use pam_nps_mfa.Base.Str.Numbers.{u32_from_str-bounded}
use pam_nps_mfa.Config.{Config}
use pam_nps_mfa.Config.Parse.Spec.{Setting, absent, given}
use pam_nps_mfa.Config.Load.{FileLog, Files, load}
use pam_nps_mfa.Config.Load.Exact.{load-IsLoaded}

-- The largest number of 32 bits.
abbrev pub u32_max : ℕ
u32_max = 4294967295

Setting-bounded :
    (default_value : ℕ) (vals : List (List Text)) (x : ℕ)
    → default_value ≤ u32_max
    → Setting u32_from_str default_value vals x
    → x ≤ u32_max
Setting-bounded d vals x b (absent e i) = omega arith
Setting-bounded d vals x b (given v e r) = u32_from_str-bounded v x r

-- The settings that are numbers fit in 32 bits.
pub record FitsU32 (config : Config) : Type 0 where
  pub timeout_fits : config.timeout ≤ u32_max
  pub probe_timeout_fits : config.probe_timeout ≤ u32_max
  pub retries_fit : config.retries ≤ u32_max

pub load-FitsU32 :
    (files : Files) (path : Text) (config : Config) (log log' : FileLog)
    → load files path log ≡ (ok config, log')
    → FitsU32 config
load-FitsU32 files path config log log' e =
    let loaded = load-IsLoaded files path config log log' e in
    rw loaded.settings (record {
      timeout_fits = Setting-bounded 60 _ _ (omega arith) loaded.says.timeout;
      probe_timeout_fits = Setting-bounded 5 _ _ (omega arith) loaded.says.probe_timeout;
      retries_fit = Setting-bounded 1 _ _ (omega arith) loaded.says.retries;
    })
