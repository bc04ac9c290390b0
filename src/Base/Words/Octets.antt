-- ===== src/Base/Words/Octets.antt =====
-- Lists of octets, and scalar values.
use pam_nps_mfa.Base.{ℕ, zero, suc, ◌<◌, replicate}
use pam_nps_mfa.Base.Words.{IsBytes}

pub IsBytes-replicate : (n b : ℕ) → b < 256 → IsBytes (replicate n b)
IsBytes-replicate zero b h = tt
IsBytes-replicate (suc n) b h = (h, IsBytes-replicate n b h)

-- A scalar value.
abbrev pub IsScalar : ℕ → Type 0
IsScalar c = c < 0x110000
