-- ===== src/Flow/Induction.antt =====
-- Induction over an attempt: what the world's answers keep of a history holds of its whole history.
pub mod Push
use pam_nps_mfa.Base.{
  ℕ, zero, suc, ◌≡◌, Bool, true, false, Bool-cases, inl, inr, Option, none, some, Option-cases,
  List, [], ◌∷◌, Bytes, get_or, is_empty, Result, ok, err, Result-cases,
}
use pam_nps_mfa.Base.Text.{Text, utf8}
use pam_nps_mfa.Primitives.{Primitives}
use pam_nps_mfa.World.{
  World, Event, History, drew, informed, prompted, exchanged, SocketAddr, TransportError,
  unreachable, io, Step, bind_result, ◌>>=◌, ◌>>◌, pure, or_return, else_return, draw, say, ask,
  send,
}
use pam_nps_mfa.Config.{Server, Config, Protocol, mschapv2, pap}
use pam_nps_mfa.Radius.{Code, access_accept, access_reject}
use pam_nps_mfa.Radius.Parse.{ParsedResponse, parse_response, known_code}
use pam_nps_mfa.Radius.Packet.{fresh_request_authenticator}
use pam_nps_mfa.Mschap.Vsa.{MsChapError, password_expired, find_ms_chap_error, parse_ms_chap_error}
use pam_nps_mfa.Mschap.Exchange.{MsChapV2Request, generate_challenges}
use pam_nps_mfa.Pap.{Challenge}
use pam_nps_mfa.Flow.{AuthReport, AttemptContext, push_notice, max_challenge_rounds}
use pam_nps_mfa.Flow.Packets.{build_mschapv2_packet}
use pam_nps_mfa.Flow.Push.{
  notice_expired, rejected, by_code, mschapv2_response_outcome, notify_once, after_push, push_send,
  push_server, push_servers, mschapv2_flow, or_unreachable, binding_of,
}
use pam_nps_mfa.Flow.Rounds.{
  Round, done, challenge, undecided, nonempty_code, prompt_response, answer_challenge, pap_round,
  pap_loop, or_max_rounds, pap_rounds, after_send, pap_server, pap_servers, pap_flow,
}
use pam_nps_mfa.Flow.Authenticate.{by_protocol, authenticate_report}

-- What each answer of the world keeps of the history it was given.
pub record IsKept (w : World) (P : History → Type 0) : Type 0 where
  pub on_draw : (h : History) → P h → P (drew (w.getrandom h) ∷ h)
  pub on_info : (h : History) (t : Text) → P h → P (informed t (w.info h t) ∷ h)
  pub on_prompt : (h : History) (t : Text) → P h → P (prompted t (w.prompt_echo_off h t) ∷ h)
  pub on_exchange :
      (h : History) (server : SocketAddr) (request : Bytes) (accept : Bytes → Bool)
      → P h
      → P (exchanged server request (w.exchange h server request accept) ∷ h)

module _ (w : World) (P : History → Type 0) (kept : IsKept w P) where
  -- A computation keeps it.
  abbrev pub Keeps : {A : Type 0} → (History → A × History) → Type 0
  Keeps m = (h : History) → P h → P (m h).1

  pub bind-Keeps :
      {A B E : Type 0} (m : Step E A) (k : A → Step E B)
      → Keeps m
      → ((a : A) → Keeps (k a))
      → Keeps (m >>= k)
  bind-Keeps m k keeps rest h p = bound (m h) (keeps h p)
    where
      bound : (r : Result _ _ × History) → P r.1 → P (bind_result r k).1
      bound (ok a, h') p' = rest a h' p'
      bound (err e, h') p' = p'

  pub or_return-Keeps : {A E F : Type 0} (r : Result A F) (e : E) → Keeps (or_return r e)
  or_return-Keeps (ok a) e h p = p
  or_return-Keeps (err x) e h p = p

  pub else_return-Keeps :
      {A E F : Type 0} (m : Step F A) (e : E) → Keeps m → Keeps (else_return m e)
  else_return-Keeps m e keeps h p = or_return-Keeps (m h).0 e (m h).1 (keeps h p)

  pub draw-Keeps : Keeps (draw w)
  unfolding draw
  draw-Keeps h p = kept.on_draw h p

  pub say-Keeps : (t : Text) → Keeps (say w t)
  unfolding say
  say-Keeps t h p = kept.on_info h t p

  pub send-Keeps :
      (server : SocketAddr) (request : Bytes) (accept : Bytes → Bool)
      → Keeps (send w server request accept)
  unfolding send
  send-Keeps server request accept h p = kept.on_exchange h server request accept p

  pub fresh-Keeps : Keeps (fresh_request_authenticator w)
  unfolding fresh_request_authenticator
  fresh-Keeps = draw-Keeps

  pub generate_challenges-Keeps : Keeps (generate_challenges w)
  unfolding generate_challenges
  generate_challenges-Keeps =
      bind-Keeps (draw w) _ draw-Keeps (λ a. bind-Keeps (draw w) _ draw-Keeps (λ b h p. p))

  pub ended-Keeps :
      {A : Type 0} (r : Result A AuthReport × History) → P r.1 → P (or_unreachable r).1
  ended-Keeps (ok a, h) p = p
  ended-Keeps (err e, h) p = p

  pub or_unreachable-Keeps :
      {A : Type 0} (m : Step AuthReport A) → Keeps m → Keeps (λ h. or_unreachable (m h))
  or_unreachable-Keeps m keeps h p = ended-Keeps (m h) (keeps h p)
