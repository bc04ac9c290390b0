-- ===== src/Config/Parse/Spec.antt =====
-- What a configuration text says, apart from how `parse` reads it: its entries, and for each key
-- the values that its entries have.
use pam_nps_mfa.Base.{
  ◌≡◌, ◌≢◌, refl, ap, sym, ◌∙◌, true, false, Bool-cases, inl, inr, Option, none, some, List, [],
  ◌∷◌, ◌++◌, map, All, bytes_eq, if◌then◌else◌, append_assoc, append-nil,
}
use pam_nps_mfa.Base.Text.{Text, text}
use pam_nps_mfa.Base.Str.{lines, before, split_whitespace}
use pam_nps_mfa.Config.{both}
use pam_nps_mfa.Config.Address.{socket_from_str, ipv4_from_str}
use pam_nps_mfa.Config.Parse.{
  ParsedServer, ParsedConfig, unwrap_or, Settings, protocol_of, audit_of, parse_bool, Key, name,
}
use pam_nps_mfa.Base.Str.{u32_from_str}

-- The words of each line, without its comment.
abbrev pub entries : Text → List (List Text)
entries t = map (λ line. split_whitespace (before b'#' line)) (lines t)

-- What stands behind a key, for each entry that begins with it.
abbrev pub values : Text → List (List Text) → List (List Text)
values key [] = []
values key ([] ∷ es) = values key es
values key ((k ∷ rest) ∷ es) =
    let others = values key es in if bytes_eq k key then rest ∷ others else others

pub values-append :
    (key : Text) (es fs : List (List Text)) → values key (es ++ fs) ≡ values key es ++ values key fs
values-append key [] fs = refl
values-append key ([] ∷ es) fs = values-append key es fs
values-append key ((k ∷ rest) ∷ es) fs = elim (Bool-cases (bytes_eq k key)) [
  | inl b ↦ rw (b, values-append key es fs)
  | inr b ↦ rw (b, values-append key es fs)
]

-- What a scalar key's values make of a slot that held `o`: nothing stands there, or one value that
-- `read` accepts, and then the slot was free.
pub data Slot {A : Type 0} (read : Text → Option A) (o : Option A) (vals : List (List Text))
    (o' : Option A) : Type 0 where
  kept : vals ≡ [] → o' ≡ o → Slot read o vals o'
  set :
      (v : Text) (x : A)
      → vals ≡ (v ∷ []) ∷ []
      → o ≡ none
      → read v ≡ some x
      → o' ≡ some x
      → Slot read o vals o'

pub Slot-append :
    {A : Type 0} (read : Text → Option A) (o o1 o2 : Option A) (vals more : List (List Text))
    → Slot read o vals o1
    → Slot read o1 more o2
    → Slot read o (vals ++ more) o2
Slot-append read o o1 o2 vals more (kept v e) (kept v' e') = kept (rw (v, v')) (e' ∙ e)
Slot-append read o o1 o2 vals more (kept v e) (set w x v' f r e') =
    set w x (rw v v') (sym e ∙ f) r e'
Slot-append read o o1 o2 vals more (set w x v f r e) (kept v' e') =
    set w x (rw (v, v')) f r (e' ∙ e)
Slot-append read o o1 o2 vals more (set w x v f r e) (set w' x' v' f' r' e') =
    absurd (cc (sym e ∙ f'))

abbrev pub IsServer : List Text → ParsedServer → Type 0
IsServer rest p =
    (addr : Text) × (rest ≡ addr ∷ p.secret_path ∷ []) × (socket_from_str addr ≡ some p.addr)

abbrev pub AreServers : List (List Text) → List ParsedServer → Type 0
AreServers [] [] = Unit
AreServers (rest ∷ vals) (p ∷ ps) = IsServer rest p × AreServers vals ps
AreServers _ _ = ⊥

AreServers-append :
    (vals more : List (List Text)) (ps qs : List ParsedServer)
    → AreServers vals ps
    → AreServers more qs
    → AreServers (vals ++ more) (ps ++ qs)
AreServers-append [] more [] qs h k = k
AreServers-append [] more (p ∷ ps) qs h k = absurd h
AreServers-append (v ∷ vals) more [] qs h k = absurd h
AreServers-append (v ∷ vals) more (p ∷ ps) qs (i, h) k = (i, AreServers-append vals more ps qs h k)

-- The servers that the entries add, in their order.
pub record Added (ss : List ParsedServer) (vals : List (List Text)) (ss' : List ParsedServer)
    : Type 0 where
  pub new : List ParsedServer
  pub is_extended : ss' ≡ ss ++ new
  pub are_servers : AreServers vals new

pub Added-append :
    (ss ss1 ss2 : List ParsedServer) (vals more : List (List Text))
    → Added ss vals ss1
    → Added ss1 more ss2
    → Added ss (vals ++ more) ss2
Added-append ss ss1 ss2 vals more a b = record {
  new = a.new ++ b.new;
  is_extended = b.is_extended ∙ ap (λ l. l ++ b.new) a.is_extended ∙ append_assoc ss a.new b.new;
  are_servers = AreServers-append vals more a.new b.new a.are_servers b.are_servers;
}

-- The key is of the schema.
abbrev pub IsKnown : List Text → Type 0
IsKnown [] = Unit
IsKnown (key ∷ rest) = (k : Key) × (key ≡ name k)

-- What entries make of the settings.
pub record Reads (s : Settings) (es : List (List Text)) (s' : Settings) : Type 0 where
  pub servers : Added s.servers (values (text "server") es) s'.servers
  pub protocol : Slot protocol_of s.protocol (values (text "protocol") es) s'.protocol
  pub timeout : Slot u32_from_str s.timeout (values (text "timeout") es) s'.timeout
  pub probe_timeout :
      Slot u32_from_str s.probe_timeout (values (text "probe_timeout") es) s'.probe_timeout
  pub retries : Slot u32_from_str s.retries (values (text "retries") es) s'.retries
  pub nas_identifier :
      Slot some s.nas_identifier (values (text "nas_identifier") es) s'.nas_identifier
  pub nas_ip : Slot ipv4_from_str s.nas_ip (values (text "nas_ip") es) s'.nas_ip
  pub source_ip : Slot ipv4_from_str s.source_ip (values (text "source_ip") es) s'.source_ip
  pub require_ma :
      Slot parse_bool s.require_ma (values (text "require_message_authenticator") es) s'.require_ma
  pub audit : Slot audit_of s.audit (values (text "audit") es) s'.audit
  pub debug : Slot parse_bool s.debug (values (text "debug") es) s'.debug
  pub are_known : All IsKnown es

pub Reads-none : (s : Settings) → Reads s [] s
Reads-none s = record {
  servers = record { new = []; is_extended = sym (append-nil s.servers); are_servers = tt };
  protocol = kept refl refl;
  timeout = kept refl refl;
  probe_timeout = kept refl refl;
  retries = kept refl refl;
  nas_identifier = kept refl refl;
  nas_ip = kept refl refl;
  source_ip = kept refl refl;
  require_ma = kept refl refl;
  audit = kept refl refl;
  debug = kept refl refl;
  are_known = tt;
}

All-append : {A : Type 0} (P : A → Type 0) (xs ys : List A) → All P xs → All P ys → All P (xs ++ ys)
All-append P [] ys h k = k
All-append P (x ∷ xs) ys (p, h) k = (p, All-append P xs ys h k)

pub Reads-append :
    (s s1 s2 : Settings) (es fs : List (List Text))
    → Reads s es s1
    → Reads s1 fs s2
    → Reads s (es ++ fs) s2
Reads-append s s1 s2 es fs a b =
    let split = λ (key : Text). values-append key es fs in
    record {
      servers = rw split (Added-append _ _ _ _ _ a.servers b.servers);
      protocol = rw split (Slot-append _ _ _ _ _ _ a.protocol b.protocol);
      timeout = rw split (Slot-append _ _ _ _ _ _ a.timeout b.timeout);
      probe_timeout = rw split (Slot-append _ _ _ _ _ _ a.probe_timeout b.probe_timeout);
      retries = rw split (Slot-append _ _ _ _ _ _ a.retries b.retries);
      nas_identifier = rw split (Slot-append _ _ _ _ _ _ a.nas_identifier b.nas_identifier);
      nas_ip = rw split (Slot-append _ _ _ _ _ _ a.nas_ip b.nas_ip);
      source_ip = rw split (Slot-append _ _ _ _ _ _ a.source_ip b.source_ip);
      require_ma = rw split (Slot-append _ _ _ _ _ _ a.require_ma b.require_ma);
      audit = rw split (Slot-append _ _ _ _ _ _ a.audit b.audit);
      debug = rw split (Slot-append _ _ _ _ _ _ a.debug b.debug);
      are_known = All-append IsKnown es fs a.are_known b.are_known;
    }

-- The value of a key with a default: no entry has the key, or one entry gives one word for it.
pub data Setting {A : Type 0} (read : Text → Option A) (default_value : A) (vals : List (List Text))
    (x : A) : Type 0 where
  absent : vals ≡ [] → x ≡ default_value → Setting read default_value vals x
  given : (v : Text) → vals ≡ (v ∷ []) ∷ [] → read v ≡ some x → Setting read default_value vals x

pub Slot-Setting :
    {A : Type 0} (read : Text → Option A) (default_value : A) (vals : List (List Text))
    (o : Option A)
    → Slot read none vals o
    → Setting read default_value vals (unwrap_or default_value o)
Slot-Setting read d vals o (kept v e) = absent v (rw e)
Slot-Setting read d vals o (set w x v f r e) = given w v (rw e r)

-- The configuration is what the entries say: every key is of the schema and no scalar key comes
-- twice, the servers are those of the `server` entries in their order and there is one, the
-- protocol is given, and every other setting is given or has its default.
pub record IsConfigOf (es : List (List Text)) (c : ParsedConfig) : Type 0 where
  pub are_known : All IsKnown es
  pub servers : AreServers (values (text "server") es) c.servers
  pub some_server : c.servers ≢ []
  pub protocol :
      (v : Text) × (values (text "protocol") es ≡ (v ∷ []) ∷ []) × (protocol_of v ≡ some c.protocol)
  pub timeout : Setting u32_from_str 60 (values (text "timeout") es) c.timeout
  pub probe_timeout : Setting u32_from_str 5 (values (text "probe_timeout") es) c.probe_timeout
  pub retries : Setting u32_from_str 1 (values (text "retries") es) c.retries
  pub nas_identifier : Slot some none (values (text "nas_identifier") es) c.nas_identifier
  pub nas_ip : Slot ipv4_from_str none (values (text "nas_ip") es) c.nas_ip
  pub source_ip : Slot ipv4_from_str none (values (text "source_ip") es) c.source_ip
  pub require_message_authenticator :
      Setting parse_bool true
        (values (text "require_message_authenticator") es)
        c.require_message_authenticator
  pub audit : Setting audit_of both (values (text "audit") es) c.audit
  pub debug : Setting parse_bool false (values (text "debug") es) c.debug
