-- ===== src/Config/Parse/Sound.antt =====
-- What `parse` reads, against the entries of the text.
use pam_nps_mfa.Base.{
  ℕ, suc, ◌≡◌, refl, ap, sym, ◌∙◌, true, false, Bool-cases, inl, inr, Option, none, some,
  Option-cases, List, [], ◌∷◌, ◌++◌, map, All, bytes_eq, bytes_eq_iff, is_empty, if◌then◌else◌, ok,
  ◌>>=◌, >>=-ok, ok_or, append-nil,
}
use pam_nps_mfa.Base.Text.{Text}
use pam_nps_mfa.Base.Str.{lines, before, trim, split_whitespace, u32_from_str}
use pam_nps_mfa.Base.Str.Words.{split_whitespace-trim}
use pam_nps_mfa.Config.{Protocol, both}
use pam_nps_mfa.Config.Address.{socket_from_str, ipv4_from_str}
use pam_nps_mfa.Config.Parse.{
  ParsedServer, ParsedConfig, Settings, single, set_once, scalar, parse_server, protocol_of,
  audit_of, parse_bool, Key, server, protocol, timeout, probe_timeout, retries, nas_identifier,
  nas_ip, source_ip, require_message_authenticator, audit, debug, name, all_keys, find_key, assign,
  parse_tokens, parse_line, parse_lines, finish, config_with, parse, unset, malformed,
}
use pam_nps_mfa.Config.Parse.Spec.{
  entries, Slot-Setting, IsConfigOf, Slot, kept, set, Added, IsServer, IsKnown, Reads, Reads-none,
  Reads-append,
}

ok_or-ok : {A : Type 0} {E : Type 0} (o : Option A) (e : E) (x : A) → ok_or o e ≡ ok x → o ≡ some x
ok_or-ok (some y) e x h = cc
ok_or-ok none e x h = cc

single-ok :
    (rest : List Text) (line : ℕ) (key v : Text) → single rest line key ≡ ok v → rest ≡ v ∷ []
unfolding single
single-ok (only ∷ []) line key v h = cc
single-ok [] line key v h = cc
single-ok (x ∷ y ∷ rest) line key v h = cc

set_once-ok :
    {A : Type 0} (slot : Option A) (line : ℕ) (key : Text) (u : Unit {0})
    → set_once slot line key ≡ ok u
    → slot ≡ none
unfolding set_once
set_once-ok none line key u h = refl
set_once-ok (some x) line key u h = cc

-- A scalar arm fills its slot, and that is all that it does.
scalar-Slot :
    {A : Type 0} (read : Text → Option A) (slot : Option A) (line : ℕ) (key : Text)
    (rest : List Text) (f : A → Settings) (s' : Settings)
    → (scalar read slot line key rest >>= λ x. ok (f x)) ≡ ok s'
    → (x : A) × (Slot read slot (rest ∷ []) (some x)) × (s' ≡ f x)
unfolding scalar
scalar-Slot read slot line key rest f s' h =
    let (x, scanned, made) = >>=-ok (scalar read slot line key rest) (λ x. ok (f x)) h in
    let (v, one, more) = >>=-ok (single rest line key) _ scanned in
    let (u, first, accepted) = >>=-ok (set_once slot line key) _ more in
    (
      x,
      set v x (ap (λ (r : List Text). r ∷ []) (single-ok rest line key v one))
          (set_once-ok slot line key u first) (ok_or-ok (read v) _ x accepted) refl,
      cc,
    )

parse_server-IsServer :
    (line : ℕ) (key : Text) (rest : List Text) (p : ParsedServer)
    → parse_server line key rest ≡ ok p
    → IsServer rest p
unfolding parse_server
parse_server-IsServer line key (addr ∷ path ∷ []) p h =
    let (a, read, made) = >>=-ok (ok_or (socket_from_str addr) (malformed line key)) _ h in
    let same : record { addr = a; secret_path = path } ≡ p = cc in
    rw (← same) (addr, refl, ok_or-ok (socket_from_str addr) _ a read)
parse_server-IsServer line key [] p h = absurd (cc)
parse_server-IsServer line key (x ∷ []) p h = absurd (cc)
parse_server-IsServer line key (x ∷ y ∷ z ∷ rest) p h = absurd (cc)

slot_same : {A : Type 0} (read : Text → Option A) (o : Option A) → Slot read o [] o
slot_same read o = kept refl refl

none-Added : (ss : List ParsedServer) → Added ss [] ss
none-Added ss = record { new = []; is_extended = sym (append-nil ss); are_servers = tt }

IsKnown-key : (k : Key) (rest : List Text) → All IsKnown ((name k ∷ rest) ∷ [])
IsKnown-key k rest = ((k, refl), tt)

ruleset arm_rules = (slot_same, IsKnown-key, none-Added)

module _ (line : ℕ) (rest : List Text) (s s' : Settings) where
  assign-Reads :
      (k : Key) → assign k line (name k) rest s ≡ ok s' → Reads s ((name k ∷ rest) ∷ []) s'
  unfolding assign bytes_eq
  assign-Reads server h =
      let (p, read, made) = >>=-ok (parse_server line (name server) rest) _ h in
      let same : record s { servers = s.servers ++ (p ∷ []) } ≡ s' = cc in
      let added : Added s.servers (rest ∷ []) (s.servers ++ (p ∷ [])) = record {
        new = p ∷ [];
        is_extended = refl;
        are_servers = (parse_server-IsServer line (name server) rest p read, tt);
      } in
      rw (← same) (search (slot_same, IsKnown-key, added))
  assign-Reads protocol h =
      let (x, slot, e) =
        scalar-Slot protocol_of s.protocol line (name protocol) rest
          (λ x. record s { protocol = some x }) s' h in
      rw e (search (arm_rules, slot))
  assign-Reads timeout h =
      let (x, slot, e) =
        scalar-Slot u32_from_str s.timeout line (name timeout) rest
          (λ x. record s { timeout = some x }) s' h in
      rw e (search (arm_rules, slot))
  assign-Reads probe_timeout h =
      let (x, slot, e) =
        scalar-Slot u32_from_str s.probe_timeout line (name probe_timeout) rest
          (λ x. record s { probe_timeout = some x }) s' h in
      rw e (search (arm_rules, slot))
  assign-Reads retries h =
      let (x, slot, e) =
        scalar-Slot u32_from_str s.retries line (name retries) rest
          (λ x. record s { retries = some x }) s' h in
      rw e (search (arm_rules, slot))
  assign-Reads nas_identifier h =
      let (x, slot, e) =
        scalar-Slot some s.nas_identifier line (name nas_identifier) rest
          (λ x. record s { nas_identifier = some x }) s' h in
      rw e (search (arm_rules, slot))
  assign-Reads nas_ip h =
      let (x, slot, e) =
        scalar-Slot ipv4_from_str s.nas_ip line (name nas_ip) rest
          (λ x. record s { nas_ip = some x }) s' h in
      rw e (search (arm_rules, slot))
  assign-Reads source_ip h =
      let (x, slot, e) =
        scalar-Slot ipv4_from_str s.source_ip line (name source_ip) rest
          (λ x. record s { source_ip = some x }) s' h in
      rw e (search (arm_rules, slot))
  assign-Reads require_message_authenticator h =
      let (x, slot, e) =
        scalar-Slot parse_bool s.require_ma line (name require_message_authenticator) rest
          (λ x. record s { require_ma = some x }) s' h in
      rw e (search (arm_rules, slot))
  assign-Reads audit h =
      let (x, slot, e) =
        scalar-Slot audit_of s.audit line (name audit) rest (λ x. record s { audit = some x }) s'
          h in
      rw e (search (arm_rules, slot))
  assign-Reads debug h =
      let (x, slot, e) =
        scalar-Slot parse_bool s.debug line (name debug) rest (λ x. record s { debug = some x }) s'
          h in
      rw e (search (arm_rules, slot))

find_key-name : (t : Text) (ks : List Key) (k : Key) → find_key t ks ≡ some k → t ≡ name k
unfolding find_key
find_key-name t [] k h = absurd (cc)
find_key-name t (j ∷ ks) k h = elim (Bool-cases (bytes_eq t (name j))) [
  | inl b ↦ let same : j ≡ k = cc (rw b at h) in (bytes_eq_iff t (name j)).0 b ∙ ap name same
  | inr b ↦ find_key-name t ks k (rw b at h)
]

parse_tokens-Reads :
    (line : ℕ) (tokens : List Text) (s s' : Settings)
    → parse_tokens line tokens s ≡ ok s'
    → Reads s (tokens ∷ []) s'
unfolding parse_tokens
parse_tokens-Reads line [] s s' h = let same : s ≡ s' = cc in rw (← same) (search arm_rules)
parse_tokens-Reads line (key ∷ rest) s s' h = elim (Option-cases (find_key key all_keys)) [
  | inl e ↦ absurd (cc (rw (e, parse_tokens) at h))
  | inr (k, e) ↦
      let is_name = find_key-name key all_keys k e in
      let assigned : assign k line key rest s ≡ ok s' = rw (e, parse_tokens) at h in
      rw is_name (assign-Reads line rest s s' k (rw is_name at assigned))
]

parse_line-Reads :
    (line : ℕ) (raw : Text) (s s' : Settings)
    → parse_line line raw s ≡ ok s'
    → Reads s (split_whitespace (before b'#' raw) ∷ []) s'
unfolding parse_line split_whitespace
parse_line-Reads line raw s s' h =
    let content = trim (before b'#' raw) in
    rw (← split_whitespace-trim (before b'#' raw)) (cases content h)
  where
    cases :
        (content : Text)
        → (if is_empty content then ok s else parse_tokens line (split_whitespace content) s)
          ≡ ok s'
        → Reads s (split_whitespace content ∷ []) s'
    cases [] e = parse_tokens-Reads line [] s s' e
    cases (c ∷ content) e = parse_tokens-Reads line (split_whitespace (c ∷ content)) s s' e

parse_lines-Reads :
    (line : ℕ) (raws : List Text) (s s' : Settings)
    → parse_lines line raws s ≡ ok s'
    → Reads s (map (λ raw. split_whitespace (before b'#' raw)) raws) s'
unfolding parse_lines
parse_lines-Reads line [] s s' h = let same : s ≡ s' = cc in rw (← same) (Reads-none s)
parse_lines-Reads line (raw ∷ raws) s s' h =
    let (s1, first, later) =
      >>=-ok (parse_line line raw s) (λ t. parse_lines (suc line) raws t) h in
    Reads-append s s1 s' (split_whitespace (before b'#' raw) ∷ []) _
      (parse_line-Reads line raw s s1 first) (parse_lines-Reads (suc line) raws s1 s' later)

-- The protocol has no default.
given_protocol :
    (vals : List (List Text)) (o : Option Protocol) (p : Protocol)
    → Slot protocol_of none vals o
    → o ≡ some p
    → (v : Text) × (vals ≡ (v ∷ []) ∷ []) × (protocol_of v ≡ some p)
given_protocol vals o p (kept v e) h = absurd (cc (sym e ∙ h))
given_protocol vals o p (set w x v f r e) h = (w, v, cc)

finish-IsConfigOf :
    (es : List (List Text)) (s : Settings) (c : ParsedConfig)
    → Reads unset es s
    → finish s ≡ ok c
    → IsConfigOf es c
unfolding finish
finish-IsConfigOf es s c r h = elim (Bool-cases (is_empty s.servers)) [
  | inl b ↦ absurd (cc (rw b at h))
  | inr b ↦
      let (p, has_protocol, made) = >>=-ok (ok_or s.protocol _) _ (rw b at h) in
      let is_config : config_with s p ≡ c = cc in
      let all : s.servers ≡ r.servers.new = r.servers.is_extended in
      rw (← is_config) (record {
        are_known = r.are_known;
        servers = rw all r.servers.are_servers;
        some_server = λ none_at_all. cc (rw none_at_all at b);
        protocol = given_protocol _ s.protocol p r.protocol (ok_or-ok s.protocol _ p has_protocol);
        timeout = Slot-Setting u32_from_str 60 _ s.timeout r.timeout;
        probe_timeout = Slot-Setting u32_from_str 5 _ s.probe_timeout r.probe_timeout;
        retries = Slot-Setting u32_from_str 1 _ s.retries r.retries;
        nas_identifier = r.nas_identifier;
        nas_ip = r.nas_ip;
        source_ip = r.source_ip;
        require_message_authenticator = Slot-Setting parse_bool true _ s.require_ma r.require_ma;
        audit = Slot-Setting audit_of both _ s.audit r.audit;
        debug = Slot-Setting parse_bool false _ s.debug r.debug;
      })
]

-- A text that `parse` accepts is read as its entries say: every key is of the schema, no scalar key
-- comes twice, every value is one word that its key admits, there is a server and a protocol, and
-- the settings are the given values or the defaults.
pub parse-IsConfigOf : (t : Text) (c : ParsedConfig) → parse t ≡ ok c → IsConfigOf (entries t) c
unfolding parse
parse-IsConfigOf t c h =
    let (s, loop, finished) = >>=-ok (parse_lines 1 (lines t) unset) finish h in
    finish-IsConfigOf (entries t) s c (parse_lines-Reads 1 (lines t) unset s loop) finished
