-- ===== src/Flow/Rounds/Requests.antt =====
-- The exchanges that `pap_flow` asks the transport for.
use pam_nps_mfa.Primitives.{Primitives}
use pam_nps_mfa.World.{World}
use pam_nps_mfa.Config.{Config}
