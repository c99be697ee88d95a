-- ===== src/Proxy/Headers/Copy.antt =====
-- Which headers the copies of a response keep.
use tunnelgate.Prelude.{
  refl, ◌≡◌, ◌∙◌, ◌&&◌, ◌∷◌, ◌++◌, ◌==◌, if◌then◌else◌, inl, inr, true, false, not, List, [],
  append_assoc, append-nil, arith, Bool-cases, ℕ_eq, eq_of_true, elem,
}
use tunnelgate.Text.{Text, text_eq, text_eq_iff, to_lower}
use tunnelgate.Proxy.Headers.{
  Headers, values_at, delete_header, canonical_key, add_all, add_header, copy_response_headers,
  response_ignored,
}
use tunnelgate.Proxy.Headers.Laws.{values_at-put_values, values_at-delete_header}

abbrev pub header_keys : Headers → List Text
header_keys [] = []
header_keys ((key, values) ∷ headers) = key ∷ header_keys headers

-- A map as a parser of HTTP gives it: its keys are canonical, and no two are the same.
abbrev pub IsParsed : Headers → Type 0
IsParsed [] = Unit
IsParsed ((key, values) ∷ headers) =
    (canonical_key key ≡ key) × (elem key (header_keys headers) ≡ false) × IsParsed headers

values_at-add_all :
    (k key : Text) (values : List Text) (target : Headers)
    → canonical_key key ≡ key
    → values_at k (add_all key values target)
      ≡ (if key == k then values_at k target ++ values else values_at k target)
unfolding add_all
values_at-add_all k key [] target c = ground (arith, append-nil (values_at k target))
values_at-add_all k key (value ∷ values) target c = ground (
  arith,
  c,
  values_at-add_all k key values (add_header key value target) c,
  values_at-put_values k key (values_at key target ++ value ∷ []) target,
  append_assoc (values_at k target) (value ∷ []) values,
  text_eq_iff key k,
)

abbrev replaced : Text → List Text → Headers → Headers
replaced k values target = add_all k values (delete_header k target)

values_at-replaced :
    (key k : Text) (values : List Text) (target : Headers)
    → canonical_key k ≡ k
    → values_at key (replaced k values target) ≡ (if k == key then values else values_at key target)
values_at-replaced key k values target c = ground (
  arith,
  c,
  values_at-add_all key k values (delete_header k target) c,
  values_at-delete_header key k target,
)

after_replaced :
    (key k : Text) (values : List Text) (target source : Headers)
    → canonical_key k ≡ k
    → elem (to_lower k) response_ignored ≡ false
    → elem k (header_keys source) ≡ false
    → (if elem key (header_keys source) && not (elem (to_lower key) response_ignored)
        then values_at key source
        else values_at key (replaced k values target))
      ≡ (if elem key (header_keys ((k, values) ∷ source))
            && not (elem (to_lower key) response_ignored)
          then values_at key ((k, values) ∷ source)
          else values_at key target)
after_replaced key k values target source c e f = elim (Bool-cases (k == key)) [
  | inl m ↦
      let same = eq_of_true k key m in
      rw (values_at-replaced key k values target c, m, ← same, f, e) refl
  | inr m ↦ rw (values_at-replaced key k values target c, m) refl
]

after_ignored :
    (key k : Text) (values : List Text) (target source : Headers)
    → elem (to_lower k) response_ignored ≡ true
    → elem k (header_keys source) ≡ false
    → (if elem key (header_keys source) && not (elem (to_lower key) response_ignored)
        then values_at key source
        else values_at key target)
      ≡ (if elem key (header_keys ((k, values) ∷ source))
            && not (elem (to_lower key) response_ignored)
          then values_at key ((k, values) ∷ source)
          else values_at key target)
after_ignored key k values target source e f = elim (Bool-cases (k == key)) [
  | inl m ↦ let same = eq_of_true k key m in rw (m, ← same, f, e) refl
  | inr m ↦ rw m refl
]

-- `copyResponseHeaders` gives each key of the source the source's values, but for the keys that
-- belong to one connection; these, and the keys that the source lacks, keep the target's values.
-- The source is a map as a parser of HTTP gives it.
pub values_at-copy_response_headers :
    (key : Text) (target source : Headers)
    → IsParsed source
    → values_at key (copy_response_headers target source) ≡ (
        if elem key (header_keys source) && not (elem (to_lower key) response_ignored)
        then values_at key source
        else values_at key target)
unfolding copy_response_headers
values_at-copy_response_headers key target [] h = refl
values_at-copy_response_headers key target ((k, values) ∷ source) (c, f, h) =
    elim (Bool-cases (elem (to_lower k) response_ignored)) [
      | inl e ↦
          let later = values_at-copy_response_headers key target source h in
          rw e (later ∙ after_ignored key k values target source e f)
      | inr e ↦
          let later = values_at-copy_response_headers key (replaced k values target) source h in
          rw e (later ∙ after_replaced key k values target source c e f)
    ]
