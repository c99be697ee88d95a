-- ===== src/Proxy/Preview/Bounds.antt =====
-- How long the previews are.
use tunnelgate.Prelude.{
  refl, ◌-◌, ◌*◌, ◌≤◌, ◌≡◌, ◌∷◌, ◌++◌, if◌then◌else◌, ℕ, [], arith, ltb, if-elim, length, take,
  length-append, length-take, ℕ_eq, ◌^◌, ◌<◌,
}
use tunnelgate.Text.{bytes, Text, text_eq}
use tunnelgate.Proxy.Preview.{
  truncation_note, truncate_string, hex_encode, binary_preview, request_body_preview,
  binary_preview_bytes, request_preview_bytes,
}
use tunnelgate.Proxy.Security.{Request}

length-hex_encode : (s : Text) → length (hex_encode s) ≡ 2 * length s
unfolding hex_encode
length-hex_encode [] = refl
length-hex_encode (c ∷ s) = ground (arith, length-hex_encode s)

length-truncate_string : (value : Text) (limit : ℕ) → length (truncate_string value limit) ≤ limit
unfolding truncate_string
length-truncate_string value limit = ground (arith, length-take limit value)

length-truncation_note :
    (itoa : ℕ → Text) (max_bytes : ℕ) (body : Text)
    → ((n : ℕ) → n < 2 ^ 63 → length (itoa n) ≤ 20)
    → length body < 2 ^ 63
    → length (truncation_note itoa max_bytes body) ≤ 41
length-truncation_note itoa max_bytes body h l =
    if-elim (λ s. length s ≤ 41) (ltb max_bytes (length body)) _ _
      (λ _. omega (
        arith,
        h (length body - max_bytes) (omega arith),
        length-append (itoa (length body - max_bytes)) (bytes " bytes]"),
        length-append (bytes "\n\n[truncated " ++ itoa (length body - max_bytes)) (bytes " bytes]"),
      ))
      (λ _. omega arith)

length-binary_preview :
    (itoa : ℕ → Text) (body : Text)
    → ((n : ℕ) → n < 2 ^ 63 → length (itoa n) ≤ 20)
    → length body < 2 ^ 63
    → length (binary_preview itoa body) ≤ 16427
unfolding binary_preview
length-binary_preview itoa body h l = omega (
  arith,
  length-append (hex_encode (take kept body)) (truncation_note itoa kept body),
  length-hex_encode (take kept body),
  length-take kept body,
  length-truncation_note itoa kept body h l,
  bound,
)
  where
    kept : ℕ
    kept = if ltb binary_preview_bytes (length body) then binary_preview_bytes else length body

    bound : kept ≤ binary_preview_bytes
    bound =
        if-elim (λ n. n ≤ binary_preview_bytes) (ltb binary_preview_bytes (length body)) _ _
          (λ _. omega arith) (λ e. ground arith)

-- The preview of a request body that is kept in the audit log has at most 65,536 bytes, whatever
-- the body, if `strconv.Itoa` prints a number below 2^63 with at most 20 bytes, and the length of
-- the body is such a number.
pub length-request_body_preview :
    (itoa : ℕ → Text) (req : Request)
    → ((n : ℕ) → n < 2 ^ 63 → length (itoa n) ≤ 20)
    → length req.body < 2 ^ 63
    → length (request_body_preview itoa req) ≤ 64 * 1024
unfolding request_body_preview
length-request_body_preview itoa req h l = ground (
  arith,
  length-truncate_string req.body request_preview_bytes,
  length-binary_preview itoa req.body h l,
)
