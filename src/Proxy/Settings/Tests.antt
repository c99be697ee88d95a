-- ===== src/Proxy/Settings/Tests.antt =====
-- Runs of the stored configuration, and the theorem at a concrete configuration.
use tunnelgate.Prelude.{
  refl, ◌+◌, ◌≡◌, ◌∷◌, ◌==◌, if◌then◌else◌, true, false, none, some, List, [], length, drop, ℕ_eq,
  pos, Result, ok, err,
}
use tunnelgate.Text.{bytes, text_eq, has_prefix, trim_space, to_lower}
use tunnelgate.Text.Sort.{text_leb}
use tunnelgate.Sanitize.{control}
use tunnelgate.Proxy.Config.{ShadowEndpoint, HeaderMatchReplaceRule, Config}
use tunnelgate.Proxy.Settings.{
  Settings, Codecs, default_headers, default_public_proxy_secure_headers,
  default_public_proxy_security, is_valid_header_name, normalize_header_rule_item, latest,
  normalize_secure_headers, normalize_security_config, normalize_url,
}
use tunnelgate.Proxy.Settings.Normal.{IsNormal}
use tunnelgate.Proxy.Settings.Stored.{
  Normalized, normalize_header_rules, normalized_endpoints, normalize_config, get, save,
}
use tunnelgate.Proxy.Settings.Saved.{save-IsNormal}

abbrev endpoint : ShadowEndpoint
endpoint = record {
  id = bytes "shadow-1";
  name = bytes "Shadow 1";
  base_url = bytes "http://b";
  enabled = true;
}

abbrev rule : HeaderMatchReplaceRule
rule = record {
  id = bytes "header-rule-1";
  name = bytes "Header rule 1";
  enabled = true;
  item = bytes "request_header";
  match_text = bytes "^X";
  replace = [];
  rule_type = bytes "regex";
  comment = [];
}

abbrev codecs : Codecs
codecs = record {
  patterns = record {
    without_control_chars = λ s. s;
    without_html_tags = λ s. s;
    high_risk_sql = [];
  };
  parse_url = λ s. if has_prefix s (bytes "http://") then some (bytes "http", drop 7 s) else none;
  compiles = λ s. true;
  itoa = λ n. (48 + n) ∷ [];
  parse_bool =
      λ s. if s == bytes "true" then some true else if s == bytes "false" then some false else none;
  read_endpoints = λ s. endpoint ∷ [];
  write_endpoints = λ endpoints. bytes "[]";
  read_rules = λ s. rule ∷ [];
  write_rules = λ rules. bytes "[]";
  read_security = λ security s. security;
  write_security = λ security. bytes "{}";
}

config : Config
config = record {
  real_server_base_url = bytes " http://a/ ";
  shadow_endpoints =
      record { id = []; name = []; base_url = bytes "http://b/"; enabled = true } ∷ [];
  capture_enabled = true;
  audit_log_enabled = false;
  header_rules = record rule { rule_type = bytes " Regex "; name = [] } ∷ [];
  security = record default_public_proxy_security { rate_limit_per_minute = pos 70000 };
  updated_at = none;
}

abbrev or_nothing : Result Normalized → List Normalized
or_nothing (err message) = []
or_nothing (ok normalized) = normalized ∷ []

normalized : Normalized
unfolding config default_public_proxy_security normalize_security_config
normalized = record {
  base_url = bytes "http://a";
  endpoints = endpoint ∷ [];
  capture = true;
  audit = false;
  rules = rule ∷ [];
  security = normalize_security_config codecs config.security;
}

normalized_ok : normalize_config codecs config ≡ ok normalized
unfolding normalized config normalize_config normalize_url normalized_endpoints
    normalize_header_rules control normalize_header_rule_item trim_space to_lower
normalized_ok = refl

rate_tests :
    (normalized.security.rate_limit_per_minute ≡ pos 10000)
    × (length normalized.security.secure_headers.headers ≡ 13)
    × (is_valid_header_name (bytes "X Y") ≡ false)
    × (latest (some (bytes "2") ∷ none ∷ some (bytes "3") ∷ some (bytes "1") ∷ [])
        ≡ some (bytes "3"))
unfolding normalized config default_public_proxy_security normalize_security_config
    normalize_secure_headers default_public_proxy_secure_headers default_headers
    is_valid_header_name latest control trim_space text_leb
rate_tests = (refl, refl, refl, refl)

save-IsNormal_example :
    (later : Settings) × (stored : Config) × (save codecs [] config (bytes "now")
      ≡ ok (later, stored))
    × (get codecs later ≡ stored)
    × (stored.real_server_base_url ≡ normalized.base_url)
    × (stored.shadow_endpoints ≡ normalized.endpoints)
    × (stored.capture_enabled ≡ normalized.capture)
    × (stored.audit_log_enabled ≡ normalized.audit)
    × (stored.header_rules ≡ normalized.rules)
    × IsNormal codecs stored.shadow_endpoints stored.header_rules stored.security
unfolding normalized
save-IsNormal_example =
    save-IsNormal codecs [] config (bytes "now") normalized_ok
      (refl, refl, refl, refl, refl, refl, refl)
