-- ===== src/Config/Parse/Complete.antt =====
-- A text whose entries say a configuration, against `parse`.
use pam_nps_mfa.Base.{
  ℕ, suc, ◌≡◌, refl, ap, sym, ◌∙◌, Option, some, List, [], ◌∷◌, ◌++◌, map, bytes_eq, is_empty,
  if◌then◌else◌, ok, append-nil, append_assoc,
}
use pam_nps_mfa.Base.Text.{Text}
use pam_nps_mfa.Base.Str.{before, trim, split_whitespace, u32_from_str}
use pam_nps_mfa.Base.Str.Words.{split_whitespace-trim}
use pam_nps_mfa.Config.Address.{ipv4_from_str}
use pam_nps_mfa.Config.Parse.{
  ParsedServer, Settings, single, set_once, scalar, parse_server, protocol_of, audit_of, parse_bool,
  Key, server, protocol, timeout, probe_timeout, retries, nas_identifier, nas_ip, source_ip,
  require_message_authenticator, audit, debug, name, all_keys, find_key, assign, parse_tokens,
  parse_line, parse_lines,
}
use pam_nps_mfa.Config.Parse.Spec.{Slot, kept, set, Added, AreServers, IsServer, Reads}

-- A slot that the entries fill is filled by the first of them, and by no later one.
scalar-Slot_head :
    {A : Type 0} (read : Text → Option A) (o o' : Option A) (line : ℕ) (key : Text)
    (rest : List Text) (more : List (List Text))
    → Slot read o (rest ∷ more) o'
    → (x : A) × (scalar read o line key rest ≡ ok x) × Slot read (some x) more o'
unfolding scalar single set_once
scalar-Slot_head read o o' line key rest more (kept v e) = absurd (cc)
scalar-Slot_head read o o' line key rest more (set v x e f r e') =
    let one : rest ≡ v ∷ [] = cc in
    let last : more ≡ [] = cc in (x, rw (one, f, r) refl, kept last e')

parse_server-IsServer :
    (line : ℕ) (key : Text) (rest : List Text) (p : ParsedServer)
    → IsServer rest p
    → parse_server line key rest ≡ ok p
unfolding parse_server
parse_server-IsServer line key rest p (addr, shape, read) = rw (shape, read) refl

parse_server-Added_head :
    (line : ℕ) (key : Text) (rest : List Text) (more : List (List Text))
    (ss ss' : List ParsedServer)
    → Added ss (rest ∷ more) ss'
    → (p : ParsedServer) × (parse_server line key rest ≡ ok p) × Added (ss ++ (p ∷ [])) more ss'
parse_server-Added_head line key rest more ss ss' a = cases a.new a.is_extended a.are_servers
  where
    cases :
        (new : List ParsedServer)
        → ss' ≡ ss ++ new
        → AreServers (rest ∷ more) new
        → (p : ParsedServer) × (parse_server line key rest ≡ ok p) × Added (ss ++ (p ∷ [])) more ss'
    cases [] e h = absurd h
    cases (p ∷ new) e (first, others) = (
      p,
      parse_server-IsServer line key rest p first,
      record {
        new = new;
        is_extended = e ∙ sym (append_assoc ss (p ∷ []) new);
        are_servers = others;
      },
    )

module _ (line : ℕ) (rest : List Text) (es : List (List Text)) (s s' : Settings) where
  assign-Reads_head :
      (k : Key)
      → Reads s ((name k ∷ rest) ∷ es) s'
      → (s1 : Settings) × (assign k line (name k) rest s ≡ ok s1) × Reads s1 es s'
  unfolding assign bytes_eq
  assign-Reads_head server r =
      let (p, step, added) =
        parse_server-Added_head line (name server) rest _ s.servers s'.servers r.servers in
      (record s { servers = s.servers ++ (p ∷ []) }, rw step refl, search (added))
  assign-Reads_head protocol r =
      let (x, step, slot) =
        scalar-Slot_head protocol_of s.protocol s'.protocol line (name protocol) rest _
          r.protocol in
      (record s { protocol = some x }, rw step refl, search (slot))
  assign-Reads_head timeout r =
      let (x, step, slot) =
        scalar-Slot_head u32_from_str s.timeout s'.timeout line (name timeout) rest _ r.timeout in
      (record s { timeout = some x }, rw step refl, search (slot))
  assign-Reads_head probe_timeout r =
      let (x, step, slot) =
        scalar-Slot_head u32_from_str s.probe_timeout s'.probe_timeout line (name probe_timeout)
          rest _ r.probe_timeout in
      (record s { probe_timeout = some x }, rw step refl, search (slot))
  assign-Reads_head retries r =
      let (x, step, slot) =
        scalar-Slot_head u32_from_str s.retries s'.retries line (name retries) rest _ r.retries in
      (record s { retries = some x }, rw step refl, search (slot))
  assign-Reads_head nas_identifier r =
      let (x, step, slot) =
        scalar-Slot_head some s.nas_identifier s'.nas_identifier line (name nas_identifier) rest _
          r.nas_identifier in
      (record s { nas_identifier = some x }, rw step refl, search (slot))
  assign-Reads_head nas_ip r =
      let (x, step, slot) =
        scalar-Slot_head ipv4_from_str s.nas_ip s'.nas_ip line (name nas_ip) rest _ r.nas_ip in
      (record s { nas_ip = some x }, rw step refl, search (slot))
  assign-Reads_head source_ip r =
      let (x, step, slot) =
        scalar-Slot_head ipv4_from_str s.source_ip s'.source_ip line (name source_ip) rest _
          r.source_ip in
      (record s { source_ip = some x }, rw step refl, search (slot))
  assign-Reads_head require_message_authenticator r =
      let (x, step, slot) =
        scalar-Slot_head parse_bool s.require_ma s'.require_ma line
          (name require_message_authenticator) rest _ r.require_ma in
      (record s { require_ma = some x }, rw step refl, search (slot))
  assign-Reads_head audit r =
      let (x, step, slot) =
        scalar-Slot_head audit_of s.audit s'.audit line (name audit) rest _ r.audit in
      (record s { audit = some x }, rw step refl, search (slot))
  assign-Reads_head debug r =
      let (x, step, slot) =
        scalar-Slot_head parse_bool s.debug s'.debug line (name debug) rest _ r.debug in
      (record s { debug = some x }, rw step refl, search (slot))

find_key-all_keys : (k : Key) → find_key (name k) all_keys ≡ some k
unfolding find_key bytes_eq
find_key-all_keys server = refl
find_key-all_keys protocol = refl
find_key-all_keys timeout = refl
find_key-all_keys probe_timeout = refl
find_key-all_keys retries = refl
find_key-all_keys nas_identifier = refl
find_key-all_keys nas_ip = refl
find_key-all_keys source_ip = refl
find_key-all_keys require_message_authenticator = refl
find_key-all_keys audit = refl
find_key-all_keys debug = refl

parse_tokens-name :
    (k : Key) (line : ℕ) (rest : List Text) (s : Settings)
    → parse_tokens line (name k ∷ rest) s ≡ assign k line (name k) rest s
unfolding parse_tokens
parse_tokens-name k line rest s = rw (find_key-all_keys k, parse_tokens) refl

parse_tokens-Reads_head :
    (line : ℕ) (tokens : List Text) (es : List (List Text)) (s s' : Settings)
    → Reads s (tokens ∷ es) s'
    → (s1 : Settings) × (parse_tokens line tokens s ≡ ok s1) × Reads s1 es s'
unfolding parse_tokens
parse_tokens-Reads_head line [] es s s' r = (s, refl, search (line))
parse_tokens-Reads_head line (key ∷ rest) es s s' r =
    let (k, is_name) = r.are_known.0 in
    let (s1, step, later) = assign-Reads_head line rest es s s' k (rw is_name at r) in
    (
      s1,
      ap (λ w. parse_tokens line (w ∷ rest) s) is_name ∙ parse_tokens-name k line rest s ∙ step,
      later,
    )

parse_line-Reads_head :
    (line : ℕ) (raw : Text) (es : List (List Text)) (s s' : Settings)
    → Reads s (split_whitespace (before b'#' raw) ∷ es) s'
    → (s1 : Settings) × (parse_line line raw s ≡ ok s1) × Reads s1 es s'
unfolding parse_line split_whitespace
parse_line-Reads_head line raw es s s' r =
    cases (trim (before b'#' raw)) (rw (← split_whitespace-trim (before b'#' raw)) at r)
  where
    cases :
        (content : Text)
        → Reads s (split_whitespace content ∷ es) s'
        → (s1 : Settings) × ((if is_empty content
              then ok s
              else parse_tokens line (split_whitespace content) s)
            ≡ ok s1)
          × Reads s1 es s'
    cases [] r' = parse_tokens-Reads_head line [] es s s' r'
    cases (c ∷ content) r' =
        parse_tokens-Reads_head line (split_whitespace (c ∷ content)) es s s' r'

Slot-nothing : {A : Type 0} (read : Text → Option A) (o o' : Option A) → Slot read o [] o' → o ≡ o'
Slot-nothing read o o' (kept v e) = sym e
Slot-nothing read o o' (set v x e f r e') = absurd (cc)

Added-nothing : (ss ss' : List ParsedServer) → Added ss [] ss' → ss ≡ ss'
Added-nothing ss ss' a = cases a.new a.is_extended a.are_servers
  where
    cases : (new : List ParsedServer) → ss' ≡ ss ++ new → AreServers [] new → ss ≡ ss'
    cases [] e h = sym (e ∙ append-nil ss)
    cases (p ∷ new) e h = absurd h

Reads-nothing : (s s' : Settings) → Reads s [] s' → s ≡ s'
Reads-nothing s s' r = λ i. record {
  servers = Added-nothing s.servers s'.servers r.servers i;
  protocol = Slot-nothing protocol_of s.protocol s'.protocol r.protocol i;
  timeout = Slot-nothing u32_from_str s.timeout s'.timeout r.timeout i;
  probe_timeout = Slot-nothing u32_from_str s.probe_timeout s'.probe_timeout r.probe_timeout i;
  retries = Slot-nothing u32_from_str s.retries s'.retries r.retries i;
  nas_identifier = Slot-nothing some s.nas_identifier s'.nas_identifier r.nas_identifier i;
  nas_ip = Slot-nothing ipv4_from_str s.nas_ip s'.nas_ip r.nas_ip i;
  source_ip = Slot-nothing ipv4_from_str s.source_ip s'.source_ip r.source_ip i;
  require_ma = Slot-nothing parse_bool s.require_ma s'.require_ma r.require_ma i;
  audit = Slot-nothing audit_of s.audit s'.audit r.audit i;
  debug = Slot-nothing parse_bool s.debug s'.debug r.debug i;
}

pub parse_lines_complete :
    (line : ℕ) (raws : List Text) (s s' : Settings)
    → Reads s (map (λ raw. split_whitespace (before b'#' raw)) raws) s'
    → parse_lines line raws s ≡ ok s'
unfolding parse_lines
parse_lines_complete line [] s s' r = ap ok (Reads-nothing s s' r)
parse_lines_complete line (raw ∷ raws) s s' r =
    let (s1, first, later) = parse_line-Reads_head line raw _ s s' r in
    rw first (parse_lines_complete (suc line) raws s1 s' later)
