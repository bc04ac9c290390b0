-- ===== src/Boundary/Panic.antt =====
-- The attempts that panic in the division of crates/radius/src/udp.rs.
use pam_nps_mfa.Base.{ℕ, ◌+◌, ◌%◌, ◌≡◌, arith, Bool-cases, true, inl, inr, ◌==◌, [], ◌∷◌}
use pam_nps_mfa.Config.{Config}
use pam_nps_mfa.World.{History, drew, informed, prompted, exchanged}
use pam_nps_mfa.System.{System, transport_of, attempt_panics}
use pam_nps_mfa.Radius.Udp.{UdpTransport, from_config, retransmit_interval}
use pam_nps_mfa.Radius.Udp.Panic.{panics_in, has_no_interval}

-- The sum `retries + 1` of 32 bits is 0.
abbrev pub WrapsAround : ℕ → Type 0
WrapsAround retries = (retries + 1) % 4294967296 ≡ 0

no_interval-WrapsAround :
    (probe_timeout retries : ℕ)
    → has_no_interval (retransmit_interval probe_timeout retries) ≡ true
    → WrapsAround retries
unfolding retransmit_interval
no_interval-WrapsAround probe_timeout retries q =
    elim (Bool-cases ((retries + 1) % 4294967296 == 0)) [
      | inl b ↦ ground arith
      | inr b ↦ absurd (cc (rw b at q))
    ]

attempt_panics-WrapsAround :
    (s : System) (t : UdpTransport) (h : History)
    → attempt_panics s t h ≡ true
    → WrapsAround t.retries
unfolding attempt_panics panics_in
attempt_panics-WrapsAround s t [] q = absurd (cc)
attempt_panics-WrapsAround s t (exchanged server request result ∷ h) q =
    elim (Bool-cases (attempt_panics s t h)) [
      | inl b ↦ attempt_panics-WrapsAround s t h b
      | inr b ↦ no_interval-WrapsAround t.probe_timeout t.retries (ground arith)
    ]
attempt_panics-WrapsAround s t (drew r ∷ h) q = attempt_panics-WrapsAround s t h q
attempt_panics-WrapsAround s t (informed message r ∷ h) q = attempt_panics-WrapsAround s t h q
attempt_panics-WrapsAround s t (prompted prompt r ∷ h) q = attempt_panics-WrapsAround s t h q

pub transport_of-WrapsAround :
    (s : System) (config : Config) (h : History)
    → attempt_panics s (transport_of config) h ≡ true
    → WrapsAround config.retries
unfolding from_config
transport_of-WrapsAround s config h q = attempt_panics-WrapsAround s (transport_of config) h q
