-- ===== src/Proxy/Settings.antt =====
-- The stored configuration of the proxy: `Get`, `UpdatePartial`, `Save` and what normalises the
-- values, in backend/internal/features/config/proxyconfig/service.go, on the table `engine_config`
-- and `UpsertKeyValue` of backend/internal/database/database.go. No statement of SQL fails.
pub mod Stored
pub mod Normal
pub mod Saved
mod Tests
use Prim.Native.String.{String}
use tunnelgate.Prelude.{
  ◌+◌, ◌-◌, ◌&&◌, ◌||◌, ◌∷◌, ◌++◌, ◌==◌, if◌then◌else◌, ℕ, Bool, true, false, not, Option, none,
  some, List, [], leb, take, is_empty, all, ℕ_eq, list_eq, elem, ℤ, pos, is_nonpositive, int_leb,
  Result, ok, err, ◌>>=◌,
}
use tunnelgate.Text.{bytes, Text, text_eq, trim_space, trim_right, to_lower}
use tunnelgate.Text.Sort.{text_leb}
use tunnelgate.Sanitize.{Patterns, control}
use tunnelgate.Proxy.Config.{
  ShadowEndpoint, HeaderMatchReplaceRule, PublicProxyHeader, PublicProxySecureHeaders,
  PublicProxySecurity,
}

-- The rows of `engine_config`: a key, its value and the time of its last update.
abbrev pub Settings : Type 0
Settings = List (Text × Text × Text)

abbrev pub upsert_key_value : Text → Text → Text → Settings → Settings
upsert_key_value key value now [] = (key, value, now) ∷ []
upsert_key_value key value now ((k, v, updated_at) ∷ rows) =
    if k == key
    then (key, value, now) ∷ rows
    else (k, v, updated_at) ∷ upsert_key_value key value now rows

-- A missing key has the empty value and no time.
abbrev pub get_config : Settings → Text → Text × Option Text
get_config [] key = ([], none)
get_config ((k, value, updated_at) ∷ rows) key =
    if k == key then (value, some updated_at) else get_config rows key

-- What the service calls: the regular expressions, encoding/json, net/url, regexp and strconv.
-- `parse_url` gives the scheme and the host. A reader gives what `json.Unmarshal` leaves in its
-- target, also where it fails; `read_security` gets the value that stands in the target before.
pub record Codecs : Type 0 where
  pub patterns : Patterns
  pub parse_url : Text → Option (Text × Text)
  pub compiles : Text → Bool
  pub itoa : ℕ → Text
  pub parse_bool : Text → Option Bool
  pub read_endpoints : Text → List ShadowEndpoint
  pub write_endpoints : List ShadowEndpoint → Text
  pub read_rules : Text → List HeaderMatchReplaceRule
  pub write_rules : List HeaderMatchReplaceRule → Text
  pub read_security : PublicProxySecurity → Text → PublicProxySecurity
  pub write_security : PublicProxySecurity → Text

abbrev secure_header : String → String → String → PublicProxyHeader
secure_header id name value = record {
  id = bytes id;
  name = bytes name;
  value = bytes value;
  enabled = true;
}

default_headers : List PublicProxyHeader
default_headers =
    secure_header "secure-header-1" "Content-Security-Policy"
      "default-src 'self'; base-uri 'self'; object-src 'none'; script-src 'self'; style-src 'self'; img-src 'self' data:; font-src 'self'; connect-src 'self'; frame-ancestors 'self'; upgrade-insecure-requests"
    ∷ secure_header "secure-header-2" "Cross-Origin-Opener-Policy" "same-origin"
    ∷ secure_header "secure-header-3" "Cross-Origin-Resource-Policy" "same-origin"
    ∷ secure_header "secure-header-4" "Origin-Agent-Cluster" "?1"
    ∷ secure_header "secure-header-5" "Permissions-Policy"
        "camera=(), geolocation=(), microphone=(), payment=(), usb=()"
    ∷ secure_header "secure-header-6" "Referrer-Policy" "no-referrer"
    ∷ secure_header "secure-header-7" "Strict-Transport-Security"
        "max-age=63072000; includeSubDomains; preload"
    ∷ secure_header "secure-header-8" "X-Content-Type-Options" "nosniff"
    ∷ secure_header "secure-header-9" "X-DNS-Prefetch-Control" "off"
    ∷ secure_header "secure-header-10" "X-Download-Options" "noopen"
    ∷ secure_header "secure-header-11" "X-Frame-Options" "DENY"
    ∷ secure_header "secure-header-12" "X-Permitted-Cross-Domain-Policies" "none"
    ∷ secure_header "secure-header-13" "X-XSS-Protection" "0"
    ∷ []

unfoldable pub default_public_proxy_secure_headers : PublicProxySecureHeaders
unfolding default_headers
default_public_proxy_secure_headers = record { enabled = false; headers = default_headers }

unfoldable pub default_public_proxy_security : PublicProxySecurity
unfolding default_public_proxy_secure_headers
default_public_proxy_security = record {
  enabled = false;
  xss = false;
  sql_injection = false;
  rate_limit = false;
  rate_limit_per_minute = pos 120;
  secure_headers = default_public_proxy_secure_headers;
}

-- The letters, the digits and the other characters of a header's name.
abbrev pub is_header_char : ℕ → Bool
is_header_char c =
    leb b'a' c && leb c b'z'
    || leb b'A' c && leb c b'Z'
    || leb b'0' c && leb c b'9'
    || elem c (bytes "!#$%&'*+-.^_`|~")

unfoldable pub is_valid_header_name : Text → Bool
is_valid_header_name value = not (is_empty value) && all is_header_char value

unfoldable pub normalize_header_rule_item : Text → Text
normalize_header_rule_item value =
    if elem (to_lower (trim_space value))
      (bytes "response_header" ∷ bytes "response header" ∷ bytes "response" ∷ [])
    then bytes "response_header"
    else bytes "request_header"

abbrev pub parse_bool_config : (Text → Option Bool) → Text → Bool → Bool
parse_bool_config parse_bool value fallback =
    if is_empty (trim_space value)
    then fallback
    else elim (parse_bool value) [ none ↦ fallback | some parsed ↦ parsed ]

-- The loop of `latest`.
abbrev later_of : Option Text → Option Text → Option Text
later_of best none = best
later_of none (some value) = some value
later_of (some best) (some value) = if text_leb value best then some best else some value

abbrev latest_from : Option Text → List (Option Text) → Option Text
latest_from best [] = best
latest_from best (value ∷ values) = latest_from (later_of best value) values

unfoldable pub latest : List (Option Text) → Option Text
latest values = latest_from none values

abbrev pub clamp_rate : ℤ → ℤ
clamp_rate rate =
    let positive = (if is_nonpositive rate then pos 120 else rate) in
    if int_leb positive 10000 then positive else pos 10000

abbrev pub is_http : Option (Text × Text) → Bool
is_http none = false
is_http (some (scheme, host)) =
    not (is_empty scheme)
    && not (is_empty host)
    && (scheme == bytes "http" || scheme == bytes "https")

module _ (codecs : Codecs) where
  -- A text without an error, or none.
  abbrev pub cleaned : Text → Text → Option Text
  cleaned value field_name =
      elim (control codecs.patterns (trim_space value) (bytes "Secure header" ++ field_name)) [
        | err message ↦ none
        | ok text ↦ some text
      ]

  abbrev pub numbered : String → ℕ → Text
  numbered name index = bytes name ++ codecs.itoa (index + 1)

  -- One turn of the loop of `normalizeSecureHeaders`, which skips headers that are not valid.
  abbrev pub normalized_header :
      ℕ → PublicProxyHeader → List PublicProxyHeader → List PublicProxyHeader
  normalized_header index header rest = elim (cleaned header.name (bytes " name")) [
    | none ↦ rest
    | some name ↦
        if is_valid_header_name name
        then elim (cleaned header.value (bytes " value")) [
          | none ↦ rest
          | some value ↦
              record {
                id = numbered "secure-header-" index;
                name = name;
                value = value;
                enabled = header.enabled;
              }
              ∷ rest
        ]
        else rest
  ]

  abbrev pub normalized_headers : ℕ → List PublicProxyHeader → List PublicProxyHeader
  normalized_headers index [] = []
  normalized_headers index (header ∷ headers) =
      normalized_header index header (normalized_headers (index + 1) headers)

  unfoldable pub normalize_secure_headers : PublicProxySecureHeaders → PublicProxySecureHeaders
  normalize_secure_headers config =
      let headers =
        (if is_empty config.headers && not config.enabled
          then default_public_proxy_secure_headers.headers
          else config.headers) in
      record { enabled = config.enabled; headers = normalized_headers 0 (take 50 headers) }

  unfoldable pub normalize_security_config : PublicProxySecurity → PublicProxySecurity
  unfolding normalize_secure_headers
  normalize_security_config config = record config {
    rate_limit_per_minute = clamp_rate config.rate_limit_per_minute;
    secure_headers = normalize_secure_headers config.secure_headers;
  }

  abbrev pub checked_url : Text → Bool → Text → Result Text
  checked_url field_name allow_empty cut =
      if is_empty cut && allow_empty
      then ok []
      else if is_http (codecs.parse_url cut)
      then ok cut
      else err (field_name ++ bytes " must be a valid URL")

  unfoldable pub normalize_url : Text → Text → Bool → Result Text
  normalize_url value field_name allow_empty =
      control codecs.patterns (trim_space value) field_name >>= λ clean.
      checked_url field_name allow_empty (trim_right clean b'/')
