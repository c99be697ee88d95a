-- ===== src/Proxy/Security.antt =====
-- The security checks of the public proxy: `securityBlockReason` and what it calls in
-- backend/internal/features/proxy/handler.go.
pub mod Limits
use tunnelgate.Prelude.{
  [], ◌*◌, ◌&&◌, ◌||◌, ◌∷◌, ◌++◌, if◌then◌else◌, ℕ, Bool, false, not, Option, none, some, List,
  is_empty, ℕ_eq, list_eq, is_nonpositive,
}
use tunnelgate.Text.{bytes, Text, text_eq, contains, to_lower}
use tunnelgate.Proxy.Config.{PublicProxySecurity}
use tunnelgate.Proxy.Headers.{Headers, get_header}
use tunnelgate.Proxy.RateLimit.{Buckets, allow}

-- A request, as the handlers read it. `path` is `URL.Path`, `uri` is `URL.RequestURI()`, and
-- `client_ip` what gin gives for it.
pub record Request : Type 0 where
  pub method : Text
  pub path : Text
  pub raw_query : Text
  pub uri : Text
  pub query_keys : List Text
  pub client_ip : Text
  pub headers : Headers
  pub body : Text

pub record Block : Type 0 where
  pub status : ℕ
  pub message : Text

unfoldable pub has_content_type_marker : Text → List Text → Bool
has_content_type_marker content_type [] = false
has_content_type_marker content_type (marker ∷ markers) =
    contains content_type marker || has_content_type_marker content_type markers

abbrev pub json_markers : List Text
json_markers = bytes "/json" ∷ bytes "+json" ∷ []

abbrev pub text_markers : List Text
text_markers =
    bytes "/json"
    ∷ bytes "+json"
    ∷ bytes "text/"
    ∷ bytes "/xml"
    ∷ bytes "+xml"
    ∷ bytes "soap"
    ∷ bytes "graphql"
    ∷ bytes "x-www-form-urlencoded"
    ∷ bytes "multipart/form-data"
    ∷ bytes "hex"
    ∷ []

unfoldable pub is_text_body : Text → Bool
is_text_body content_type =
    is_empty content_type || has_content_type_marker content_type text_markers

header_texts : Headers → List Text
header_texts [] = []
header_texts ((key, values) ∷ headers) = key ∷ values ++ header_texts headers

unfoldable pub security_inspection_values : Request → List Text
unfolding header_texts
security_inspection_values req =
    (req.raw_query ∷ req.path ∷ header_texts req.headers)
    ++ (if not (is_empty req.body)
          && is_text_body (to_lower (get_header (bytes "content-type") req.headers))
        then req.body ∷ []
        else [])

-- `time.Minute`, in nanoseconds
abbrev pub minute : ℕ
minute = 60000000000

abbrev pub limiter_key : Request → Text
limiter_key req = req.method ++ bytes " " ++ req.path ++ bytes " " ++ req.client_ip

abbrev pub xss_patterns : List Text
xss_patterns =
    bytes "(?i)<\\s*script\\b"
    ∷ bytes "(?i)javascript\\s*:"
    ∷ bytes "(?i)\\bon[a-z]+\\s*="
    ∷ bytes "(?i)<\\s*iframe\\b"
    ∷ bytes "(?i)<\\s*object\\b"
    ∷ []

abbrev pub sql_injection_patterns : List Text
sql_injection_patterns =
    bytes "(?i)(?:'|%27|\").*\\bor\\b.*(?:=|like)\\s*(?:'|%27|\"|[0-9])"
    ∷ bytes "(?i)\\bunion\\s+select\\b"
    ∷ bytes "(?i)\\bdrop\\s+table\\b"
    ∷ bytes "(?i)\\binformation_schema\\b"
    ∷ bytes "(?i);\\s*--"
    ∷ bytes "(?i)\\bsleep\\s*\\("
    ∷ []

-- `matches` is regexp.MatchString of a compiled pattern.
module _ (matches : Text → Text → Bool) where
  matches_any : List Text → Text → Bool
  matches_any [] value = false
  matches_any (pattern ∷ patterns) value = matches pattern value || matches_any patterns value

  unfoldable pub contains_any_pattern : List Text → List Text → Bool
  unfolding matches_any
  contains_any_pattern [] patterns = false
  contains_any_pattern (value ∷ values) patterns =
      matches_any patterns value || contains_any_pattern values patterns

  -- The filters behind the rate limit.
  unfoldable pub filter_reason : PublicProxySecurity → Request → Option Block
  filter_reason config req =
      let values = security_inspection_values req in
      if config.xss && contains_any_pattern values xss_patterns
      then some (record { status = 403; message = bytes "Request blocked by XSS filter" })
      else if config.sql_injection && contains_any_pattern values sql_injection_patterns
      then some (record { status = 403; message = bytes "Request blocked by SQL injection filter" })
      else none

  limited : Buckets × Bool → PublicProxySecurity → Request → Buckets × Option Block
  limited (limiter, allowed) config req = (
    limiter,
    if not allowed
        then some (record { status = 429; message = bytes "Rate limit exceeded" })
        else filter_reason config req,
  )

  -- `securityBlockReason`: the limiter after it, and why the request is blocked. `now` is the clock.
  unfoldable pub security_block_reason :
      Buckets → ℕ → PublicProxySecurity → Request → Buckets × Option Block
  unfolding limited
  security_block_reason limiter now config req =
      if not config.enabled
      then (limiter, none)
      else if config.rate_limit && not (is_nonpositive config.rate_limit_per_minute)
      then limited (allow limiter (limiter_key req) config.rate_limit_per_minute minute now) config
          req
      else (limiter, filter_reason config req)
