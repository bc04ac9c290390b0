-- ===== src/Flow/Authenticate/Safety.antt =====
-- `authenticate_report` over both protocols.
use pam_nps_mfa.Base.{◌≡◌, false, Bool-cases, inl, inr, [], is_empty}
use pam_nps_mfa.Primitives.{Primitives}
use pam_nps_mfa.World.{World, History}
use pam_nps_mfa.Config.{Config, Protocol, mschapv2, pap}
use pam_nps_mfa.Flow.{AuthReport, AttemptContext, PamOutcome}
use pam_nps_mfa.Flow.Trace.{exchanges, Owned, IsCommitted-Owned}
use pam_nps_mfa.Flow.Push.Safety.{mschapv2_flow-IsCommitted}
use pam_nps_mfa.Flow.Push.Success.{PushEvidence, mschapv2_flow-success}
use pam_nps_mfa.Flow.Rounds.Safety.{PapEvidence, pap_flow-Owned, pap_flow-success}
use pam_nps_mfa.Flow.Authenticate.{by_protocol, authenticate_report}

module _ (c : Primitives) (w : World) (ctx : AttemptContext) (config : Config) where
  -- Why an attempt succeeded, by the configured protocol.
  abbrev pub Evidence : Protocol → AuthReport → History → Type 0
  Evidence mschapv2 report h = PushEvidence c w ctx config config.servers report h
  Evidence pap report h = PapEvidence c w ctx config config.servers report h

  by_protocol-success :
      (p : Protocol)
      → (by_protocol c w p ctx config []).0.outcome ≡ PamOutcome.success
      → Evidence p (by_protocol c w p ctx config []).0 (by_protocol c w p ctx config []).1
  unfolding by_protocol
  by_protocol-success mschapv2 q = mschapv2_flow-success c w ctx config [] q
  by_protocol-success pap q = pap_flow-success c w ctx config q

  by_protocol-Owned : (p : Protocol) → Owned (exchanges (by_protocol c w p ctx config []).1)
  unfolding by_protocol
  by_protocol-Owned mschapv2 = IsCommitted-Owned _ (mschapv2_flow-IsCommitted c w ctx config)
  by_protocol-Owned pap = pap_flow-Owned c w ctx config

-- An attempt succeeds only with a user name and a password that are not empty, and on the evidence
-- of the configured protocol: a bound Access-Accept of a configured server, with a verified
-- MS-CHAP2-Success for MSCHAPv2.
pub authenticate_report-success :
    (c : Primitives) (w : World) (ctx : AttemptContext) (config : Config)
    → (authenticate_report c w ctx config []).0.outcome ≡ PamOutcome.success
    → (is_empty ctx.username ≡ false)
      × (is_empty ctx.password ≡ false)
      × Evidence c w ctx config config.protocol
          (authenticate_report c w ctx config []).0
          (authenticate_report c w ctx config []).1
unfolding authenticate_report
authenticate_report-success c w ctx config q = elim (Bool-cases (is_empty ctx.username)) [
  | inl e1 ↦ absurd (cc (rw (e1) at q))
  | inr e1 ↦ elim (Bool-cases (is_empty ctx.password)) [
    | inl e2 ↦ absurd (cc (rw (e1, e2) at q))
    | inr e2 ↦ elim (Bool-cases (is_empty config.servers)) [
      | inl e3 ↦ absurd (cc (rw (e1, e2, e3) at q))
      | inr e3 ↦ (
        e1,
        e2,
        rw (e1, e2, e3) (by_protocol-success c w ctx config config.protocol (rw (e1, e2, e3) at q)),
      )
    ]
  ]
]

-- Whatever the servers do, a server that was sent to and not explicitly unreachable is the only one
-- that the attempt contacts from then on.
pub authenticate_report-Owned :
    (c : Primitives) (w : World) (ctx : AttemptContext) (config : Config)
    → Owned (exchanges (authenticate_report c w ctx config []).1)
unfolding authenticate_report
authenticate_report-Owned c w ctx config = elim (Bool-cases (is_empty ctx.username)) [
  | inl e1 ↦ rw e1 tt
  | inr e1 ↦ elim (Bool-cases (is_empty ctx.password)) [
    | inl e2 ↦ rw (e1, e2) tt
    | inr e2 ↦ elim (Bool-cases (is_empty config.servers)) [
      | inl e3 ↦ rw (e1, e2, e3) tt
      | inr e3 ↦ rw (e1, e2, e3) (by_protocol-Owned c w ctx config config.protocol)
    ]
  ]
]
