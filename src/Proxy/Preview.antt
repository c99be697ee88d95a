-- ===== src/Proxy/Preview.antt =====
-- What the audit log keeps of bodies, and the content types of stored responses:
-- backend/internal/features/proxy/handler.go. The limits are those of `DefaultAppConfig`.
pub mod Bounds
use tunnelgate.Prelude.{
  [], ◌+◌, ◌-◌, ◌*◌, ◌/◌, ◌%◌, ◌||◌, ◌∷◌, ◌++◌, ◌==◌, if◌then◌else◌, ℕ, Bool, Option, none, some,
  ltb, leb, length, take, is_empty, ℕ_eq, list_eq,
}
use tunnelgate.Text.{bytes, Text, text_eq, has_prefix, contains, trim_space, to_lower}
use tunnelgate.Proxy.Headers.{get_header}
use tunnelgate.Proxy.Security.{Request, is_text_body, has_content_type_marker, json_markers}

abbrev pub request_preview_bytes : ℕ
request_preview_bytes = 64 * 1024

abbrev pub binary_preview_bytes : ℕ
binary_preview_bytes = 8 * 1024

abbrev pub response_preview_bytes : ℕ
response_preview_bytes = 64 * 1024

unfoldable pub truncate_string : Text → ℕ → Text
truncate_string value limit = if leb (length value) limit then value else take limit value

abbrev hex_digit : ℕ → ℕ
hex_digit d = if ltb d 10 then b'0' + d else b'a' + (d - 10)

-- `hex.EncodeToString`
pub hex_encode : Text → Text
hex_encode [] = []
hex_encode (c ∷ s) = hex_digit (c / 16) ∷ hex_digit (c % 16) ∷ hex_encode s

-- `strconv.Itoa` is an argument.
module _ (itoa : ℕ → Text) where
  abbrev truncation_note : ℕ → Text → Text
  truncation_note max_bytes body =
      if ltb max_bytes (length body)
      then bytes "\n\n[truncated " ++ itoa (length body - max_bytes) ++ bytes " bytes]"
      else []

  binary_preview : Text → Text
  unfolding hex_encode
  binary_preview body =
      let max_bytes =
        if ltb binary_preview_bytes (length body) then binary_preview_bytes else length body in
      bytes "0x" ++ hex_encode (take max_bytes body) ++ truncation_note max_bytes body

  unfoldable pub request_body_preview : Request → Text
  unfolding binary_preview
  request_body_preview req =
      if req.method == bytes "GET" || req.method == bytes "HEAD" || is_empty req.body
      then []
      else if is_text_body (to_lower (get_header (bytes "content-type") req.headers))
      then truncate_string req.body request_preview_bytes
      else binary_preview req.body

unfoldable pub response_body_preview : Text → Text
response_body_preview body = truncate_string body response_preview_bytes

abbrev pub status_or_default : Option ℕ → ℕ → ℕ
status_or_default none fallback = fallback
status_or_default (some value) fallback = value

-- `bodyTypeFromContentType`; its second argument changes nothing.
unfoldable pub body_type_from_content_type : Text → Bool → Text
body_type_from_content_type content_type response =
    let lower = to_lower content_type in
    if has_content_type_marker lower json_markers
    then bytes "json"
    else if contains lower (bytes "/xml")
        || contains lower (bytes "+xml")
        || contains lower (bytes "soap")
    then bytes "xml"
    else if contains lower (bytes "html")
    then bytes "html"
    else if contains lower (bytes "yaml") || contains lower (bytes "yml")
    then bytes "yaml"
    else if contains lower (bytes "javascript")
    then bytes "javascript"
    else if contains lower (bytes "x-www-form-urlencoded")
    then bytes "x-www-form-urlencoded"
    else if contains lower (bytes "multipart/form-data")
    then bytes "form-data"
    else bytes "raw"

-- The content type that `parseStoredResponse` finds; the body stays as it is. `is_json` tells
-- whether json.Unmarshal reads a text.
unfoldable pub stored_content_type : (Text → Bool) → Text → Text
stored_content_type is_json body =
    let trimmed = to_lower (trim_space body) in
    if is_json body
    then bytes "application/json"
    else if has_prefix trimmed (bytes "<soap")
        || contains trimmed (bytes "<soap:")
        || contains trimmed (bytes "<soapenv:")
    then bytes "application/soap+xml; charset=utf-8"
    else if has_prefix trimmed (bytes "<")
    then bytes "application/xml; charset=utf-8"
    else bytes "text/plain; charset=utf-8"
