-- ===== src/MockApi/Examples.antt =====
-- The response examples of a spec: `mergeResponseExamples`, `normalizeResponseExamples` and what
-- they call in backend/internal/features/api-specs/service.go.
pub mod Put
pub mod Merge
pub mod Normalize
mod Tests
use tunnelgate.Prelude.{
  [], ℕ, ◌∷◌, ◌++◌, ◌==◌, if◌then◌else◌, zero, suc, Bool, not, Option, none, some, List, length,
  is_empty, find, ℕ_eq, list_eq, elem, Result, ok, err, ◌>>=◌,
}
use tunnelgate.Text.{Text, bytes, text_eq, trim_space, to_lower}
use tunnelgate.MockApi.Types.{ResponseExample}

pub valid_http_status : ℕ → Bool
valid_http_status status = elem status (
    100 ∷ 101 ∷ 102 ∷ 103 ∷ 200 ∷ 201 ∷ 202 ∷ 203 ∷ 204 ∷ 205 ∷ 206 ∷ 207 ∷ 208 ∷ 226 ∷ 300 ∷ 301
    ∷ 302 ∷ 303 ∷ 304 ∷ 305 ∷ 307 ∷ 308 ∷ 400 ∷ 401 ∷ 402 ∷ 403 ∷ 404 ∷ 405 ∷ 406 ∷ 407 ∷ 408 ∷ 409
    ∷ 410 ∷ 411 ∷ 412 ∷ 413 ∷ 414 ∷ 415 ∷ 416 ∷ 417 ∷ 418 ∷ 421 ∷ 422 ∷ 423 ∷ 424 ∷ 425 ∷ 426 ∷ 428
    ∷ 429 ∷ 431 ∷ 451 ∷ 500 ∷ 501 ∷ 502 ∷ 503 ∷ 504 ∷ 505 ∷ 506 ∷ 507 ∷ 508 ∷ 510 ∷ 511 ∷ [])

-- Writing an element of a slice.
abbrev pub set : List ResponseExample → ℕ → ResponseExample → List ResponseExample
set [] i v = []
set (x ∷ xs) zero v = v ∷ xs
set (x ∷ xs) (suc i) v = x ∷ set xs i v

-- `merged` and `statusIndex`
pub record Merging : Type 0 where
  pub merged : List ResponseExample
  pub status_index : ℕ → Option ℕ

abbrev pub push : Merging → ResponseExample → Merging
push m example = record {
  merged = m.merged ++ example ∷ [];
  status_index =
      λ status. if example.status == status then some (length m.merged) else m.status_index status;
}

merge_existing : Merging → List ResponseExample → Merging
merge_existing m [] = m
merge_existing m (example ∷ existing) =
    merge_existing (if valid_http_status example.status then push m example else m) existing

merge_one : Merging → ResponseExample → Merging
merge_one m example = elim (m.status_index example.status) [
  | some index ↦ record m { merged = set m.merged index example }
  | none ↦ push m example
]

merge_incoming : Merging → List ResponseExample → Merging
merge_incoming m [] = m
merge_incoming m (example ∷ incoming) = merge_incoming (merge_one m example) incoming

unfoldable pub merge_response_examples :
    List ResponseExample → List ResponseExample → List ResponseExample
unfolding valid_http_status merge_existing merge_one merge_incoming
merge_response_examples existing incoming =
    let start : Merging = record { merged = []; status_index = λ status. none } in
    let merged = (merge_incoming (merge_existing start existing) incoming).merged in
    if is_empty merged then incoming else merged

unfoldable pub normalize_response_body_type : Text → Text
normalize_response_body_type value =
    let lower = to_lower (trim_space value) in
    if elem lower (
      bytes "json"
      ∷ bytes "xml"
      ∷ bytes "html"
      ∷ bytes "yaml"
      ∷ bytes "javascript"
      ∷ bytes "raw"
      ∷ [])
    then lower
    else bytes "json"

-- The keys and values of `normalizeHeadersJSON`, trimmed; a later key that trims to the same text
-- takes the place of an earlier one, in the order of the walk over the map.
abbrev put_header : Text → Text → List (Text × Text) → List (Text × Text)
put_header key value [] = (key, value) ∷ []
put_header key value ((k, v) ∷ rest) =
    if k == key then (key, value) ∷ rest else (k, v) ∷ put_header key value rest

trim_headers : List (Text × Text) → List (Text × Text) → List (Text × Text)
trim_headers normalized [] = normalized
trim_headers normalized ((key, value) ∷ parsed) =
    let trimmed = trim_space key in
    trim_headers
      (if is_empty trimmed then normalized else put_header trimmed (trim_space value) normalized)
      parsed

abbrev pub default_examples : List ResponseExample
default_examples =
    record {
      status = 200;
      name = bytes "OK";
      body = bytes "{}";
      body_type = bytes "json";
      response_headers = [];
    }
    ∷ []

-- The example with the selected status, or else the first. There is always a first; the last
-- argument stands where Go would panic.
abbrev pub selected_example : List ResponseExample → ℕ → ResponseExample → ResponseExample
selected_example examples selected first = elim (find (λ e. e.status == selected) examples) [
  | some example ↦ example
  | none ↦ first
]

pub record Normalized : Type 0 where
  pub examples : List ResponseExample
  pub status : ℕ
  pub body : Text

normalized_with : ℕ → List ResponseExample → Result Normalized
normalized_with selected [] = err []
normalized_with selected (first ∷ rest) =
    let chosen = selected_example (first ∷ rest) selected first in
    ok (record { examples = first ∷ rest; status = chosen.status; body = chosen.body })

-- `unmarshal` and `marshal` are those of encoding/json, for maps of strings.
module _ (unmarshal : Text → Option (List (Text × Text)))
    (marshal : List (Text × Text) → Text) where
  unfoldable pub normalize_headers_json : Text → Result Text
  unfolding trim_headers
  normalize_headers_json value =
      let trimmed = trim_space value in
      if is_empty trimmed then ok (bytes "{}") else elim (unmarshal trimmed) [
        | none ↦ err (bytes "headers must be a JSON object")
        | some parsed ↦ ok (marshal (trim_headers [] parsed))
      ]

  -- One example, behind the tests of its status.
  normalize_example : ResponseExample → Result ResponseExample
  normalize_example example = do
    let trimmed = trim_space example.name
    headers ← normalize_headers_json example.response_headers
    ok (record {
      status = example.status;
      name = if is_empty trimmed then bytes "Response" else trimmed;
      body = example.body;
      body_type = normalize_response_body_type example.body_type;
      response_headers = headers;
    })

  -- The loop; `seen` holds the statuses met before.
  normalize_examples : List ℕ → List ResponseExample → Result (List ResponseExample)
  normalize_examples seen [] = ok []
  normalize_examples seen (example ∷ input) =
      if not (valid_http_status example.status)
      then err (bytes "response status must be a valid HTTP status code")
      else if elem example.status seen
      then err (bytes "response statuses must be unique")
      else do
        normalized ← normalize_example example
        later ← normalize_examples (example.status ∷ seen) input
        ok (normalized ∷ later)

  unfoldable pub normalize_response_examples : List ResponseExample → ℕ → Result Normalized
  unfolding normalize_example normalize_examples valid_http_status normalized_with
  normalize_response_examples input selected =
      normalize_examples [] (if is_empty input then default_examples else input)
      >>= normalized_with selected
