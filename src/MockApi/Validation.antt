-- ===== src/MockApi/Validation.antt =====
-- Checking a request against an API spec: backend/internal/features/api-specs/validation.go.
pub mod Keys
pub mod Params
mod Tests
use tunnelgate.Prelude.{
  ℕ, Bool, true, false, not, ◌&&◌, ◌||◌, Option, none, some, List, [], ◌∷◌, ◌++◌, if◌then◌else◌,
  is_empty, keep, elem, any, ◌==◌, map,
}
use tunnelgate.Text.{Text, bytes, text_eq, contains, to_lower}
use tunnelgate.Text.Sort.{sort}
use tunnelgate.Json.{
  Value, null, boolean, number, text, array, object, raw, Items, nil, cons, Fields, end, field,
  keys, get,
}
use tunnelgate.MockApi.Types.{ApiRecord, type_at}
use tunnelgate.MockApi.Routes.{wildcard_route_param_keys}

pub record TypeMismatch : Type 0 where
  pub key : Text
  pub expected_type : Text
  pub actual_type : Text

pub record BodyValidationResult : Type 0 where
  pub ok : Bool
  pub missing_keys : List Text
  pub unexpected_keys : List Text
  pub type_mismatches : List TypeMismatch

pub record ParamValidationResult : Type 0 where
  pub ok : Bool
  pub expected_keys : List Text
  pub missing_keys : List Text
  pub unexpected_keys : List Text

pub infer_json_type : Value → Text
infer_json_type null = bytes "null"
infer_json_type (array items) = bytes "array"
infer_json_type (object fields) = bytes "object"
infer_json_type (text s) = bytes "string"
infer_json_type (number n) = bytes "number"
infer_json_type (boolean b) = bytes "boolean"
infer_json_type (raw s) = bytes "string"

unfoldable pub has_body_validation_method : Text → Bool
has_body_validation_method method =
    method == bytes "POST" || method == bytes "PUT" || method == bytes "PATCH"

sorted_keys : Fields → List Text
sorted_keys fields = sort (keys fields)

pub difference : List Text → List Text → List Text
difference left right = keep (λ item. not (elem item right)) left

-- The loop over the expected keys in `ValidateRequestKeys`.
type_mismatches : ApiRecord → Fields → List Text → List TypeMismatch
type_mismatches mock incoming [] = []
type_mismatches mock incoming (key ∷ rest) =
    let expected_type = type_at mock.expected_request_types key in
    let later = type_mismatches mock incoming rest in
    if is_empty expected_type then later else elim (get key incoming) [
      | none ↦ later
      | some value ↦
          if infer_json_type value == expected_type
          then later
          else record {
            key = key;
            expected_type = expected_type;
            actual_type = infer_json_type value;
          }
            ∷ later
    ]

accepted : BodyValidationResult
accepted = record { ok = true; missing_keys = []; unexpected_keys = []; type_mismatches = [] }

check_object : ApiRecord → Fields → BodyValidationResult
check_object mock incoming =
    let incoming_keys = sorted_keys incoming in
    let expected_keys = sort mock.expected_request_keys in
    let missing = difference expected_keys incoming_keys in
    let unexpected = difference incoming_keys expected_keys in
    let mismatches = type_mismatches mock incoming expected_keys in
    record {
      ok = is_empty missing && is_empty unexpected && is_empty mismatches;
      missing_keys = missing;
      unexpected_keys = unexpected;
      type_mismatches = mismatches;
    }

check_body : ApiRecord → Value → BodyValidationResult
check_body mock (object incoming) = check_object mock incoming
check_body mock _ = record {
  ok = false;
  missing_keys = mock.expected_request_keys;
  unexpected_keys = [];
  type_mismatches = [];
}

unfoldable pub validate_request_keys : ApiRecord → Value → BodyValidationResult
unfolding check_body check_object accepted sorted_keys difference type_mismatches
validate_request_keys mock body =
    if not (has_body_validation_method mock.method) || is_empty mock.expected_request_keys
    then accepted
    else check_body mock body

-- The part of `ValidateRequestParams` behind the test of the method.
check_query : ApiRecord → List Text → ParamValidationResult
check_query mock query =
    let wildcards = wildcard_route_param_keys mock.resolved_route_path in
    let expected = sort (keep (λ key. not (elem key wildcards)) mock.expected_param_keys) in
    if is_empty expected
    then record { ok = true; expected_keys = expected; missing_keys = []; unexpected_keys = [] }
    else let incoming = sort query in
      let missing = difference expected incoming in
      let unexpected = difference incoming expected in
      record {
        ok = is_empty missing && is_empty unexpected;
        expected_keys = expected;
        missing_keys = missing;
        unexpected_keys = unexpected;
      }

-- `query` is the list of the query's keys.
unfoldable pub validate_request_params : ApiRecord → List Text → ParamValidationResult
unfolding check_query difference
validate_request_params mock query =
    if not (mock.method == bytes "GET") && not (mock.method == bytes "DELETE")
    then record { ok = true; expected_keys = []; missing_keys = []; unexpected_keys = [] }
    else check_query mock query

unfoldable pub has_content_type_marker : Text → List Text → Bool
has_content_type_marker content_type markers = any (λ marker. contains content_type marker) markers

abbrev pub json_content_type_markers : List Text
json_content_type_markers = bytes "/json" ∷ bytes "+json" ∷ []

texts : List Text → Items
texts [] = nil
texts (s ∷ rest) = cons (text s) (texts rest)

form_value : List Text → Value
form_value (s ∷ []) = text s
form_value items = array (texts items)

form_fields : List (Text × List Text) → Fields
form_fields [] = end
form_fields ((key, items) ∷ values) = field key (form_value items) (form_fields values)

-- `unmarshal` is json.Unmarshal into an `any`, `none` on an error; `parse_query` is url.ParseQuery,
-- whose error is dropped.
module _ (unmarshal : Text → Option Value) (parse_query : Text → List (Text × List Text)) where
  pub parse_validation_body : Text → Text → Value
  unfolding has_content_type_marker form_fields form_value texts
  parse_validation_body content_type_header body =
      let content_type = to_lower content_type_header in
      if is_empty body
      then null
      else if has_content_type_marker content_type json_content_type_markers
      then elim (unmarshal body) [ some parsed ↦ parsed | none ↦ text body ]
      else if contains content_type (bytes "x-www-form-urlencoded")
      then object (form_fields (parse_query body))
      else if contains content_type (bytes "graphql")
      then object (field (bytes "query") (text body) end)
      else raw body
