-- ===== src/Config/Parse/Exact.antt =====
-- The settings that `parse` ends with, against the configuration that the entries say.
use pam_nps_mfa.Base.{
  ℕ, ◌≡◌, ◌≢◌, ◌↔◌, refl, ap, sym, Bool, true, false, Option, none, some, List, [], ◌∷◌, is_empty,
  ok,
}
use pam_nps_mfa.Base.Text.{Text}
use pam_nps_mfa.Base.Str.{lines, u32_from_str}
use pam_nps_mfa.Config.{AuditBackend, both}
use pam_nps_mfa.Config.Parse.{
  ParsedConfig, Settings, audit_of, parse_bool, finish, config_with, parse, unset, unwrap_or,
}
use pam_nps_mfa.Config.Parse.Sound.{parse-IsConfigOf}
use pam_nps_mfa.Config.Parse.Complete.{parse_lines_complete}
use pam_nps_mfa.Config.Parse.Spec.{
  entries, Setting, absent, given, IsConfigOf, Slot, kept, set, Reads,
}

-- A setting with a default is a slot read from nothing.
Setting-Slot :
    {A : Type 0} (read : Text → Option A) (default_value : A) (vals : List (List Text)) (x : A)
    → Setting read default_value vals x
    → (o : Option A) × Slot read none vals o × (unwrap_or default_value o ≡ x)
Setting-Slot read d vals x (absent v e) = (none, kept v refl, sym e)
Setting-Slot read d vals x (given v e r) = (some x, set v x e refl r refl, refl)

is_empty-some : {A : Type 0} (xs : List A) → xs ≢ [] → is_empty xs ≡ false
is_empty-some [] h = absurd (h refl)
is_empty-some (x ∷ xs) h = refl

finish-IsConfigOf-Reads :
    (es : List (List Text)) (c : ParsedConfig)
    → IsConfigOf es c
    → (s : Settings) × Reads unset es s × (finish s ≡ ok c)
unfolding finish
finish-IsConfigOf-Reads es c h =
    let (v, vals, is_protocol) = h.protocol in
    let (wait, timeout_slot, is_timeout) = Setting-Slot u32_from_str 60 _ c.timeout h.timeout in
    let (probe, probe_slot, is_probe) =
      Setting-Slot u32_from_str 5 _ c.probe_timeout h.probe_timeout in
    let (again, retries_slot, is_retries) = Setting-Slot u32_from_str 1 _ c.retries h.retries in
    let (require_ma, require_slot, is_require) =
      Setting-Slot parse_bool true _ c.require_message_authenticator
        h.require_message_authenticator in
    let (backend, audit_slot, is_audit) = Setting-Slot audit_of both _ c.audit h.audit in
    let (verbose, debug_slot, is_debug) = Setting-Slot parse_bool false _ c.debug h.debug in
    let same : config_with (settings wait probe again require_ma backend verbose) c.protocol ≡ c =
      λ i. record {
        servers = c.servers;
        protocol = c.protocol;
        timeout = is_timeout i;
        probe_timeout = is_probe i;
        retries = is_retries i;
        nas_identifier = c.nas_identifier;
        nas_ip = c.nas_ip;
        source_ip = c.source_ip;
        require_message_authenticator = is_require i;
        audit = is_audit i;
        debug = is_debug i;
      } in
    (
      settings wait probe again require_ma backend verbose,
      record {
        servers = record { new = c.servers; is_extended = refl; are_servers = h.servers };
        protocol = set v c.protocol vals refl is_protocol refl;
        timeout = timeout_slot;
        probe_timeout = probe_slot;
        retries = retries_slot;
        nas_identifier = h.nas_identifier;
        nas_ip = h.nas_ip;
        source_ip = h.source_ip;
        require_ma = require_slot;
        audit = audit_slot;
        debug = debug_slot;
        are_known = h.are_known;
      },
      rw (is_empty-some c.servers h.some_server) (ap ok same),
    )
  where
    settings :
        Option ℕ → Option ℕ → Option ℕ → Option Bool → Option AuditBackend → Option Bool → Settings
    settings wait probe again require_ma backend verbose = record {
      servers = c.servers;
      protocol = some c.protocol;
      timeout = wait;
      probe_timeout = probe;
      retries = again;
      nas_identifier = c.nas_identifier;
      nas_ip = c.nas_ip;
      source_ip = c.source_ip;
      require_ma = require_ma;
      audit = backend;
      debug = verbose;
    }

parse_complete : (t : Text) (c : ParsedConfig) → IsConfigOf (entries t) c → parse t ≡ ok c
unfolding parse
parse_complete t c h =
    let (s, reads, finished) = finish-IsConfigOf-Reads (entries t) c h in
    rw (parse_lines_complete 1 (lines t) unset s reads) finished

-- `parse` accepts a text with a configuration exactly when the text's entries say that configuration:
-- every key is of the schema, no scalar key comes twice, every value is one word that its key admits,
-- the servers are those of the `server` entries in their order and there is one, the protocol is
-- given, and every other setting is the given value or the default.
pub parse_iff : (t : Text) (c : ParsedConfig) → (parse t ≡ ok c) ↔ IsConfigOf (entries t) c
parse_iff t c = (parse-IsConfigOf t c, parse_complete t c)
