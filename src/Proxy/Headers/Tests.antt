-- ===== src/Proxy/Headers/Tests.antt =====
-- Runs of the functions on headers, and the theorems at concrete headers.
use tunnelgate.Prelude.{[], refl, ◌≡◌, ◌&&◌, ◌∷◌, if◌then◌else◌, true, not, ℕ_eq, elem}
use tunnelgate.Text.{bytes, text_eq, trim_space, to_lower, equal_fold}
use tunnelgate.Proxy.Config.{PublicProxySecureHeaders}
use tunnelgate.Proxy.Headers.{
  Headers, values_at, canonical_key, copy_proxy_headers, copy_response_headers, response_ignored,
  apply_secure_headers, is_web_socket_upgrade, has_token, header_has_token,
}
use tunnelgate.Proxy.Headers.Copy.{IsParsed, header_keys, values_at-copy_response_headers}
use tunnelgate.Proxy.Headers.Secure.{or_values, secure_value, values_at-apply_secure_headers}

abbrev upstream : Headers
upstream = (bytes "Server", bytes "x" ∷ []) ∷ (bytes "Connection", bytes "close" ∷ []) ∷ []

abbrev own : Headers
own = (bytes "Server", bytes "y" ∷ []) ∷ []

header_tests :
    (canonical_key (bytes "x-frame-OPTIONS") ≡ bytes "X-Frame-Options")
    × (canonical_key (bytes "a b") ≡ bytes "a b")
    × (copy_response_headers own upstream ≡ (bytes "Server", bytes "x" ∷ []) ∷ [])
    × (copy_proxy_headers own upstream ≡ (bytes "Server", bytes "y" ∷ bytes "x" ∷ []) ∷ [])
    × (is_web_socket_upgrade (
          (bytes "Upgrade", bytes "WebSocket" ∷ [])
          ∷ (bytes "Connection", bytes "keep-alive, Upgrade" ∷ [])
          ∷ [])
        ≡ true)
unfolding canonical_key copy_response_headers copy_proxy_headers is_web_socket_upgrade
    header_has_token has_token to_lower equal_fold trim_space
header_tests = (refl, refl, refl, refl, refl)

abbrev secure : PublicProxySecureHeaders
secure = record {
  enabled = true;
  headers =
      record { id = bytes "1"; name = bytes "server"; value = bytes "z"; enabled = true } ∷ [];
}

values_at-apply_secure_headers_example :
    values_at (bytes "Server") (apply_secure_headers own secure)
    ≡ or_values (secure_value secure (bytes "Server")) (values_at (bytes "Server") own)
values_at-apply_secure_headers_example = values_at-apply_secure_headers (bytes "Server") own secure

upstream-IsParsed : IsParsed upstream
unfolding canonical_key
upstream-IsParsed = (refl, refl, (refl, refl, tt))

values_at-copy_response_headers_example :
    values_at (bytes "Server") (copy_response_headers own upstream) ≡ (
      if elem (bytes "Server") (header_keys upstream)
        && not (elem (to_lower (bytes "Server")) response_ignored)
      then values_at (bytes "Server") upstream
      else values_at (bytes "Server") own)
values_at-copy_response_headers_example =
    values_at-copy_response_headers (bytes "Server") own upstream upstream-IsParsed
