-- ===== src/Proxy/Headers/Laws.antt =====
-- Reading a map of headers after a write.
use tunnelgate.Prelude.{refl, ◌≡◌, ◌∷◌, ◌==◌, if◌then◌else◌, List, [], arith, ℕ_eq}
use tunnelgate.Text.{Text, text_eq, text_eq_iff}
use tunnelgate.Proxy.Headers.{Headers, values_at, put_values, delete_header, canonical_key}

pub values_at-put_values :
    (k key : Text) (values : List Text) (headers : Headers)
    → values_at k (put_values key values headers)
      ≡ (if key == k then values else values_at k headers)
values_at-put_values k key values [] = refl
values_at-put_values k key values ((j, old) ∷ headers) = ground (
  arith,
  values_at-put_values k key values headers,
  text_eq_iff j key,
  text_eq_iff j k,
  text_eq_iff key k,
)

pub values_at-delete_header :
    (k name : Text) (headers : Headers)
    → values_at k (delete_header name headers)
      ≡ (if canonical_key name == k then [] else values_at k headers)
values_at-delete_header k name [] = ground arith
values_at-delete_header k name ((j, old) ∷ headers) = ground (
  arith,
  values_at-delete_header k name headers,
  text_eq_iff j (canonical_key name),
  text_eq_iff j k,
  text_eq_iff (canonical_key name) k,
)
