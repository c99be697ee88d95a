-- ===== src/Proxy/Settings/Stored.antt =====
-- Writing and reading the stored configuration: `normalizeHeaderRules`, `save`, `Get` and
-- `UpdatePartial` of backend/internal/features/config/proxyconfig/service.go.
use tunnelgate.Prelude.{
  ◌+◌, ◌&&◌, ◌∷◌, ◌++◌, ◌==◌, if◌then◌else◌, ℕ, Bool, true, false, not, Option, none, some, List,
  [], take, is_empty, ℕ_eq, Result, ok, err, ◌>>=◌,
}
use tunnelgate.Text.{bytes, Text, text_eq, trim_space, to_lower}
use tunnelgate.Sanitize.{control}
use tunnelgate.Proxy.Config.{ShadowEndpoint, HeaderMatchReplaceRule, PublicProxySecurity, Config}
use tunnelgate.Proxy.Settings.{
  Settings, upsert_key_value, get_config, Codecs, default_public_proxy_security,
  normalize_header_rule_item, parse_bool_config, latest, normalize_security_config, normalize_url,
}

abbrev pub real_server_base_url_key : Text
real_server_base_url_key = bytes "real_server_base_url"

abbrev pub shadow_endpoints_key : Text
shadow_endpoints_key = bytes "shadow_endpoints"

abbrev pub capture_enabled_key : Text
capture_enabled_key = bytes "proxy_capture_enabled"

abbrev pub audit_log_enabled_key : Text
audit_log_enabled_key = bytes "proxy_audit_log_enabled"

abbrev pub header_match_replace_key : Text
header_match_replace_key = bytes "proxy_header_match_replace_rules"

abbrev pub public_proxy_security_key : Text
public_proxy_security_key = bytes "public_proxy_security"

pub record UpdateInput : Type 0 where
  pub real_server_base_url : Option Text
  pub shadow_endpoints : Option (List ShadowEndpoint)
  pub capture_enabled : Option Bool
  pub audit_log_enabled : Option Bool
  pub header_rules : Option (List HeaderMatchReplaceRule)
  pub security : Option PublicProxySecurity

abbrev pub or_current {ℓ} : {A : Type ℓ} → Option A → A → A
or_current none current = current
or_current (some given) current = given

-- What `save` writes.
pub record Normalized : Type 0 where
  pub base_url : Text
  pub endpoints : List ShadowEndpoint
  pub capture : Bool
  pub audit : Bool
  pub rules : List HeaderMatchReplaceRule
  pub security : PublicProxySecurity

abbrev pub format_bool : Bool → Text
format_bool b = if b then bytes "true" else bytes "false"

abbrev pub rule_type_of : Text → Text
rule_type_of value =
    let rule_type = to_lower (trim_space value) in
    if is_empty rule_type then bytes "regex" else rule_type

abbrev pub is_regex : Text → Bool
is_regex rule_type = rule_type == bytes "regex"

module _ (codecs : Codecs) where
  abbrev pub or_numbered : Text → Text → ℕ → Text
  or_numbered name prefix index = if is_empty name then prefix ++ codecs.itoa (index + 1) else name

  -- The tests of a rule's type and of its regular expression.
  abbrev pub checked_type : Text → Text → Result Text
  checked_type rule_type match_text =
      if not (is_regex rule_type) && not (rule_type == bytes "literal")
      then err (bytes "header rule type must be regex or literal")
      else if is_regex rule_type && not (codecs.compiles match_text)
      then err (bytes "header rule match must be a valid regex")
      else ok rule_type

  -- The rest of a turn of the loop of `normalizeHeaderRules`, for a rule that is not skipped.
  abbrev pub normalized_rule :
      ℕ → HeaderMatchReplaceRule → Text → Text → Result HeaderMatchReplaceRule
  normalized_rule index rule match_text replace =
      checked_type (rule_type_of rule.rule_type) match_text >>= λ rule_type.
      control codecs.patterns (trim_space rule.name) (bytes "Header rule name") >>= λ name.
      control codecs.patterns (trim_space rule.comment) (bytes "Header rule comment") >>= λ comment.
      ok record {
        id = bytes "header-rule-" ++ codecs.itoa (index + 1);
        name = or_numbered name (bytes "Header rule ") index;
        enabled = rule.enabled;
        item = normalize_header_rule_item rule.item;
        match_text = match_text;
        replace = replace;
        rule_type = rule_type;
        comment = comment;
      }

  abbrev pub normalized_rules :
      ℕ → List HeaderMatchReplaceRule → Result (List HeaderMatchReplaceRule)
  normalized_rules index [] = ok []
  normalized_rules index (rule ∷ rules) =
      control codecs.patterns (trim_space rule.match_text) (bytes "Header match") >>= λ match_text.
      control codecs.patterns (trim_space rule.replace) (bytes "Header replace") >>= λ replace.
      let later = normalized_rules (index + 1) rules in
      if is_empty match_text && is_empty replace
      then later
      else normalized_rule index rule match_text replace >>= λ first.
          later >>= λ rest. ok (first ∷ rest)

  unfoldable pub normalize_header_rules :
      List HeaderMatchReplaceRule → Result (List HeaderMatchReplaceRule)
  normalize_header_rules rules = normalized_rules 0 (take 50 rules)

  -- The loop of `save` over the shadow endpoints.
  unfoldable pub normalized_endpoints : ℕ → List ShadowEndpoint → Result (List ShadowEndpoint)
  normalized_endpoints index [] = ok []
  normalized_endpoints index (endpoint ∷ endpoints) =
      control codecs.patterns (trim_space endpoint.name) (bytes "Shadow endpoint name") >>= λ name.
      normalize_url codecs endpoint.base_url (bytes "Shadow endpoint") false >>= λ base_url.
      normalized_endpoints (index + 1) endpoints >>= λ rest. ok (
        record {
          id = bytes "shadow-" ++ codecs.itoa (index + 1);
          name = or_numbered name (bytes "Shadow ") index;
          base_url = base_url;
          enabled = endpoint.enabled;
        }
        ∷ rest)

  -- The part of `save` before it writes.
  unfoldable pub normalize_config : Config → Result Normalized
  unfolding normalize_header_rules normalized_endpoints
  normalize_config config =
      normalize_url codecs config.real_server_base_url (bytes "Real server endpoint") true
      >>= λ base_url. normalized_endpoints 0 (take 4 config.shadow_endpoints) >>= λ endpoints.
          normalize_header_rules config.header_rules >>= λ rules. ok record {
            base_url = base_url;
            endpoints = endpoints;
            capture = config.capture_enabled;
            audit = config.audit_log_enabled;
            rules = rules;
            security = normalize_security_config codecs config.security;
          }

  unfoldable pub write_config : Text → Normalized → Settings → Settings
  write_config now normalized rows =
      upsert_key_value public_proxy_security_key (codecs.write_security normalized.security) now (
        upsert_key_value header_match_replace_key (codecs.write_rules normalized.rules) now (
          upsert_key_value audit_log_enabled_key (format_bool normalized.audit) now (
            upsert_key_value capture_enabled_key (format_bool normalized.capture) now (
              upsert_key_value shadow_endpoints_key (codecs.write_endpoints normalized.endpoints)
                now (upsert_key_value real_server_base_url_key normalized.base_url now rows)))))

  abbrev pub with_ids : ℕ → List ShadowEndpoint → List ShadowEndpoint
  with_ids index [] = []
  with_ids index (endpoint ∷ endpoints) =
      (if is_empty endpoint.id
        then record endpoint { id = bytes "shadow-" ++ codecs.itoa (index + 1) }
        else endpoint)
      ∷ with_ids (index + 1) endpoints

  abbrev pub stored_endpoints : Text → List ShadowEndpoint
  stored_endpoints value = with_ids 0 (if is_empty value then [] else codecs.read_endpoints value)

  abbrev pub stored_rules : Text → List HeaderMatchReplaceRule
  stored_rules value = if is_empty value then [] else codecs.read_rules value

  abbrev pub stored_security : Text → PublicProxySecurity
  stored_security value =
      if is_empty value
      then default_public_proxy_security
      else normalize_security_config codecs
          (codecs.read_security default_public_proxy_security value)

  unfoldable pub get : Settings → Config
  get rows =
      let real = get_config rows real_server_base_url_key in
      let shadow = get_config rows shadow_endpoints_key in
      let capture = get_config rows capture_enabled_key in
      let audit = get_config rows audit_log_enabled_key in
      let header = get_config rows header_match_replace_key in
      let security = get_config rows public_proxy_security_key in
      record {
        real_server_base_url = real.0;
        shadow_endpoints = stored_endpoints shadow.0;
        capture_enabled = parse_bool_config codecs.parse_bool capture.0 false;
        audit_log_enabled = parse_bool_config codecs.parse_bool audit.0 true;
        header_rules = stored_rules header.0;
        security = stored_security security.0;
        updated_at = latest (real.1 ∷ shadow.1 ∷ capture.1 ∷ audit.1 ∷ header.1 ∷ security.1 ∷ []);
      }

  unfoldable pub save : Settings → Config → Text → Result (Settings × Config)
  unfolding normalize_config write_config get
  save rows config now = normalize_config config >>= λ normalized.
      let written = write_config now normalized rows in ok (written, get written)

  pub update_partial : Settings → UpdateInput → Text → Result (Settings × Config)
  unfolding save get
  update_partial rows input now =
      let current = get rows in
      save rows
        (record current {
          real_server_base_url = or_current input.real_server_base_url current.real_server_base_url;
          shadow_endpoints = or_current input.shadow_endpoints current.shadow_endpoints;
          capture_enabled = or_current input.capture_enabled current.capture_enabled;
          audit_log_enabled = or_current input.audit_log_enabled current.audit_log_enabled;
          header_rules = or_current input.header_rules current.header_rules;
          security = or_current input.security current.security;
        })
        now
