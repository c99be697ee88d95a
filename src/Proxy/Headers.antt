-- ===== src/Proxy/Headers.antt =====
-- The headers of requests and responses: `http.Header`, and the functions of
-- backend/internal/features/proxy/handler.go that write one.
-- A map of headers is a list of keys with their values, in the order of a walk over the map.
pub mod Laws
pub mod Copy
pub mod Secure
mod Tests
use tunnelgate.Prelude.{
  [], ◌-◌, ◌&&◌, ◌||◌, ◌∷◌, ◌++◌, ◌==◌, if◌then◌else◌, ℕ, Bool, true, false, not, List, leb,
  is_empty, all, keep, ℕ_eq, list_eq, elem,
}
use tunnelgate.Text.{
  bytes, Text, text_eq, trim_space, split, to_lower, equal_fold, lower_byte, upper_byte,
}
use tunnelgate.Proxy.Config.{PublicProxyHeader, PublicProxySecureHeaders}

abbrev pub Headers : Type 0
Headers = List (Text × List Text)

is_token_byte : ℕ → Bool
is_token_byte c =
    (leb b'0' c && leb c b'9')
    || (leb b'a' c && leb c b'z')
    || (leb b'A' c && leb c b'Z')
    || elem c (bytes "!#$%&'*+-.^_`|~")

canonical : Bool → Text → Text
canonical upper [] = []
canonical upper (c ∷ s) = (if upper then upper_byte c else lower_byte c) ∷ canonical (c == b'-') s

-- `http.CanonicalHeaderKey`
unfoldable pub canonical_key : Text → Text
unfolding is_token_byte canonical
canonical_key key = if all is_token_byte key then canonical true key else key

-- The values under a key of the map.
abbrev pub values_at : Text → Headers → List Text
values_at key [] = []
values_at key ((k, values) ∷ headers) = if k == key then values else values_at key headers

abbrev pub put_values : Text → List Text → Headers → Headers
put_values key values [] = (key, values) ∷ []
put_values key values ((k, old) ∷ headers) =
    if k == key then (k, values) ∷ headers else (k, old) ∷ put_values key values headers

-- `Header.Set`, `Header.Add` and `Header.Del`
abbrev pub set_header : Text → Text → Headers → Headers
set_header name value headers = put_values (canonical_key name) (value ∷ []) headers

abbrev pub add_header : Text → Text → Headers → Headers
add_header name value headers =
    put_values (canonical_key name) (values_at (canonical_key name) headers ++ value ∷ []) headers

abbrev pub delete_header : Text → Headers → Headers
delete_header name headers = keep (λ h. not (h.0 == canonical_key name)) headers

abbrev pub get_values : Text → Headers → List Text
get_values name headers = values_at (canonical_key name) headers

abbrev first_or_empty : List Text → Text
first_or_empty [] = []
first_or_empty (value ∷ values) = value

abbrev pub get_header : Text → Headers → Text
get_header name headers = first_or_empty (get_values name headers)

abbrev pub request_ignored : List Text
request_ignored =
    bytes "accept-encoding"
    ∷ bytes "connection"
    ∷ bytes "content-length"
    ∷ bytes "expect"
    ∷ bytes "host"
    ∷ bytes "keep-alive"
    ∷ bytes "proxy-authenticate"
    ∷ bytes "proxy-authorization"
    ∷ bytes "te"
    ∷ bytes "trailer"
    ∷ bytes "transfer-encoding"
    ∷ bytes "upgrade"
    ∷ []

abbrev pub response_ignored : List Text
response_ignored =
    bytes "connection"
    ∷ bytes "content-length"
    ∷ bytes "keep-alive"
    ∷ bytes "proxy-authenticate"
    ∷ bytes "proxy-authorization"
    ∷ bytes "te"
    ∷ bytes "trailer"
    ∷ bytes "transfer-encoding"
    ∷ bytes "upgrade"
    ∷ []

add_all : Text → List Text → Headers → Headers
add_all key [] target = target
add_all key (value ∷ values) target = add_all key values (add_header key value target)

unfoldable pub copy_proxy_headers : Headers → Headers → Headers
unfolding add_all
copy_proxy_headers target [] = target
copy_proxy_headers target ((key, values) ∷ source) =
    copy_proxy_headers
      (if elem (to_lower key) request_ignored then target else add_all key values target) source

unfoldable pub copy_response_headers : Headers → Headers → Headers
unfolding add_all
copy_response_headers target [] = target
copy_response_headers target ((key, values) ∷ source) =
    copy_response_headers
      (if elem (to_lower key) response_ignored
        then target
        else add_all key values (delete_header key target))
      source

set_secure : Headers → List PublicProxyHeader → Headers
set_secure headers [] = headers
set_secure headers (header ∷ rest) =
    set_secure
      (if not header.enabled || is_empty (trim_space header.name)
        then headers
        else set_header header.name header.value headers)
      rest

unfoldable pub apply_secure_headers : Headers → PublicProxySecureHeaders → Headers
unfolding set_secure
apply_secure_headers headers config =
    if not config.enabled then headers else set_secure headers config.headers

-- The loop of `headerHasToken` over the parts of a value.
has_part : Text → List Text → Bool
has_part token [] = false
has_part token (part ∷ parts) = equal_fold (trim_space part) token || has_part token parts

unfoldable pub has_token : List Text → Text → Bool
unfolding has_part
has_token [] token = false
has_token (value ∷ values) token = has_part token (split value b',') || has_token values token

unfoldable pub header_has_token : Headers → Text → Text → Bool
header_has_token headers name token = has_token (get_values name headers) token

unfoldable pub is_web_socket_upgrade : Headers → Bool
is_web_socket_upgrade headers =
    equal_fold (get_header (bytes "Upgrade") headers) (bytes "websocket")
    && header_has_token headers (bytes "Connection") (bytes "upgrade")
