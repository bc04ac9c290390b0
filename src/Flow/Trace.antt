-- ===== src/Flow/Trace.antt =====
-- What an attempt's history says of the servers that were contacted, newest first.
use pam_nps_mfa.Base.{inr, refl, Option, ok, ◌≡◌, ◌⊎◌, inl, List, [], ◌∷◌, Bytes, All, Result, err}
use pam_nps_mfa.Base.Text.{Text}
use pam_nps_mfa.World.{
  ConvError, Event, SocketAddr, TransportError, unreachable, drew, informed, prompted, exchanged,
  History,
}

pub record Exchange : Type 0 where
  pub server : SocketAddr
  pub request : Bytes
  pub result : Result Bytes TransportError

abbrev pub exchanges : History → List Exchange
exchanges [] = []
exchanges (exchanged server request result ∷ h) =
    record { server = server; request = request; result = result } ∷ exchanges h
exchanges (drew _ ∷ h) = exchanges h
exchanges (informed _ _ ∷ h) = exchanges h
exchanges (prompted _ _ ∷ h) = exchanges h

abbrev pub In : {A : Type 0} → A → List A → Type 0
In x [] = ⊥
In x (y ∷ ys) = (x ≡ y) ⊎ In x ys

abbrev pub WasUnreachable : Exchange → Type 0
WasUnreachable e = e.result ≡ err unreachable

-- No exchange but the newest was anything but explicitly unreachable.
abbrev pub IsCommitted : List Exchange → Type 0
IsCommitted [] = Unit
IsCommitted (x ∷ older) = All WasUnreachable older

-- A server that was sent to and not explicitly unreachable is the only one contacted from then on.
abbrev pub OwnedBy : SocketAddr → List Exchange → Type 0
OwnedBy s es = All (λ e. WasUnreachable e ⊎ (e.server ≡ s)) es

abbrev pub Owned : List Exchange → Type 0
Owned [] = Unit
Owned (x ∷ older) = OwnedBy x.server older × Owned older

pub unreachable-OwnedBy :
    (s : SocketAddr) (es : List Exchange) → All WasUnreachable es → OwnedBy s es
unreachable-OwnedBy s [] h = tt
unreachable-OwnedBy s (x ∷ es) (u, h) = (inl u, unreachable-OwnedBy s es h)

pub unreachable-Owned : (es : List Exchange) → All WasUnreachable es → Owned es
unreachable-Owned [] h = tt
unreachable-Owned (x ∷ es) (u, h) = (unreachable-OwnedBy x.server es h, unreachable-Owned es h)

pub IsCommitted-Owned : (es : List Exchange) → IsCommitted es → Owned es
IsCommitted-Owned [] h = tt
IsCommitted-Owned (x ∷ es) h = (unreachable-OwnedBy x.server es h, unreachable-Owned es h)

-- The history grew by draws and notices only.
pub data Quiet (h : History) : History → Type 0 where
  same : Quiet h h
  after_draw : (h' : History) (r : Option Bytes) → Quiet h h' → Quiet h (drew r ∷ h')
  after_notice :
      (h' : History) (message : Text) (r : Result (Unit {0}) ConvError)
      → Quiet h h'
      → Quiet h (informed message r ∷ h')

-- Before each exchange the conversation was given the notice, and returned without an error.
abbrev pub Announced : Text → History → Type 0
Announced notice [] = Unit
Announced notice (exchanged _ _ _ ∷ h) = In (informed notice (ok tt)) h × Announced notice h
Announced notice (drew _ ∷ h) = Announced notice h
Announced notice (informed _ _ ∷ h) = Announced notice h
Announced notice (prompted _ _ ∷ h) = Announced notice h

pub Quiet-In : (e : Event) (h h' : History) → Quiet h h' → In e h → In e h'
Quiet-In e h h' same i = i
Quiet-In e h _ (after_draw h' r q) i = inr (Quiet-In e h h' q i)
Quiet-In e h _ (after_notice h' m r q) i = inr (Quiet-In e h h' q i)

pub Quiet-Announced :
    (notice : Text) (h h' : History) → Quiet h h' → Announced notice h → Announced notice h'
Quiet-Announced notice h h' same a = a
Quiet-Announced notice h _ (after_draw h' r q) a = Quiet-Announced notice h h' q a
Quiet-Announced notice h _ (after_notice h' m r q) a = Quiet-Announced notice h h' q a

pub Quiet-exchanges : (h h' : History) → Quiet h h' → exchanges h' ≡ exchanges h
Quiet-exchanges h h' same = refl
Quiet-exchanges h _ (after_draw h' r q) = Quiet-exchanges h h' q
Quiet-exchanges h _ (after_notice h' m r q) = Quiet-exchanges h h' q
