-- ===== src/Boundary/Entry.antt =====
-- crates/pam-ffi/src/ffi.rs: the exported functions, with the copy of the module's arguments and the
-- guard that catches a panic.
pub mod Guard
use pam_nps_mfa.Base.{
  ℕ, zero, suc, Bool, ◌||◌, ◌==◌, leb, if◌then◌else◌, Option, none, some, List, [], ◌∷◌,
}
use pam_nps_mfa.Base.Text.{Text}
use pam_nps_mfa.Primitives.{Primitives}
use pam_nps_mfa.World.{IpAddr}
use pam_nps_mfa.Boundary.{CString, null, undecodable, decoded, Host, Ended, sm_authenticate}

abbrev pub keep : CString → List Text → List Text
keep (decoded s) args = s ∷ args
keep null args = args
keep undecodable args = args

-- The loop of `module_args`, from the entry `i` on for `n` entries.
unfoldable pub args_from : (ℕ → CString) → ℕ → ℕ → List Text
args_from argv i zero = []
args_from argv i (suc n) = keep (argv i) (args_from argv (suc i) n)

-- `module_args`; `argc` is the 32 bits of a signed number, and `argv` null or an array.
unfoldable pub module_args : ℕ → Option (ℕ → CString) → List Text
unfolding args_from
module_args argc none = []
module_args argc (some argv) =
    if argc == 0 || leb 2147483648 argc then [] else args_from argv 0 argc

-- `catch_unwind(..).unwrap_or(PAM_AUTHINFO_UNAVAIL)`
abbrev pub caught : Option Ended → Ended
caught (some ended) = ended
caught none = (9, [])

unfoldable pub pam_sm_authenticate :
    Primitives → (IpAddr → Text) → Host → ℕ → ℕ → Option (ℕ → CString) → Ended
unfolding sm_authenticate module_args
pam_sm_authenticate c ip_to_string host flags argc argv =
    caught (sm_authenticate c ip_to_string host flags (module_args argc argv))

abbrev pub sm_setcred : ℕ
sm_setcred = 0

abbrev pub sm_acct_mgmt : ℕ
sm_acct_mgmt = 25

-- The same guard on a body that returns a code or panics.
abbrev pub caught_code : Option ℕ → ℕ
caught_code (some code) = code
caught_code none = 9

abbrev pub pam_sm_setcred : ℕ
pam_sm_setcred = caught_code (some sm_setcred)

abbrev pub pam_sm_acct_mgmt : ℕ
pam_sm_acct_mgmt = caught_code (some sm_acct_mgmt)
