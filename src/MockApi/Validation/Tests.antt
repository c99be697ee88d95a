-- ===== src/MockApi/Validation/Tests.antt =====
-- Runs of the validation, and its theorems at concrete requests.
use tunnelgate.Prelude.{[], refl, ◌≡◌, ◌↔◌, ◌⊎◌, ◌&&◌, ◌∷◌, true, false, not, none, ℕ_eq, elem}
use tunnelgate.Text.{bytes, Text, text_eq, trim_space, to_lower}
use tunnelgate.Text.Sort.{sort}
use tunnelgate.Json.{Value, text, number, null, object, Fields, end, field, keys}
use tunnelgate.MockApi.Types.{ApiRecord}
use tunnelgate.MockApi.Routes.{
  wildcard_route_param_keys, comparable_route_path, split_route_segments,
}
use tunnelgate.MockApi.Validation.Keys
use tunnelgate.MockApi.Validation.Params
use tunnelgate.MockApi.Validation.{
  validate_request_keys, validate_request_params, parse_validation_body, has_body_validation_method,
  infer_json_type,
}
use tunnelgate.MockApi.Validation.Keys.{validate_request_keys_iff, validate_request_keys_report}
use tunnelgate.MockApi.Validation.Params.{validate_request_params_iff}

abbrev api : Text → ApiRecord
api method = record {
  internal_id = 1;
  id = bytes "a";
  collection_name = bytes "shop";
  route_name = bytes "orders";
  postman_folder_path = [];
  method = method;
  route_path = bytes "/orders/:id";
  resolved_route_path = bytes "/orders/:id";
  mock_enabled = true;
  proxy_enabled = false;
  response_status = 200;
  response_body = bytes "{}";
  response_body_type = bytes "json";
  request_headers = bytes "{}";
  response_headers = bytes "{}";
  response_examples = [];
  request_body_raw = [];
  request_body_type = bytes "json";
  expected_request_keys = bytes "name" ∷ bytes "age" ∷ [];
  expected_request_types = (bytes "age", bytes "number") ∷ [];
  expected_param_keys = bytes "page" ∷ bytes "id" ∷ [];
  expected_param_types = [];
  updated_at = [];
}

abbrev person : Value → Fields
person age = field (bytes "name") (text (bytes "x")) (field (bytes "age") age end)

validation_tests :
    ((validate_request_keys (api (bytes "POST")) (object (person (number (bytes "3"))))).ok ≡ true)
    × ((validate_request_keys (api (bytes "POST")) (object (person (text (bytes "3"))))).ok ≡ false)
    × ((validate_request_params (api (bytes "GET")) (bytes "page" ∷ [])).ok ≡ true)
    × ((validate_request_params (api (bytes "GET")) (bytes "id" ∷ [])).missing_keys
        ≡ bytes "page" ∷ [])
unfolding validate_request_keys validate_request_params sort wildcard_route_param_keys
    comparable_route_path split_route_segments has_body_validation_method trim_space infer_json_type
validation_tests = (refl, refl, refl, refl)

parse_validation_body_tests :
    (parse_validation_body (λ body. none) (λ body. []) (bytes "Application/JSON") (bytes "x")
      ≡ text (bytes "x"))
    × (parse_validation_body
          (λ body. none)
          (λ body. (bytes "a", bytes "1" ∷ []) ∷ [])
          (bytes "application/x-www-form-urlencoded")
          (bytes "a=1")
        ≡ object (field (bytes "a") (text (bytes "1")) end))
    × (parse_validation_body (λ body. none) (λ body. []) (bytes "text/plain") [] ≡ null)
unfolding parse_validation_body to_lower
parse_validation_body_tests = (refl, refl, refl)

validate_request_keys_iff_example :
    ((validate_request_keys (api (bytes "POST")) (object (person null))).ok ≡ true) ↔ (
      Keys.IsUnchecked (api (bytes "POST"))
      ⊎ Keys.Conforms (api (bytes "POST")) (object (person null)))
validate_request_keys_iff_example =
    validate_request_keys_iff (api (bytes "POST")) (object (person null))

validate_request_keys_report_example :
    (elem
        (bytes "age")
        (validate_request_keys
          (api (bytes "PUT"))
          (object (field (bytes "name") null end))).missing_keys
      ≡ (elem (bytes "age") (api (bytes "PUT")).expected_request_keys
          && not (elem (bytes "age") (keys (field (bytes "name") null end)))))
    × (elem
          (bytes "age")
          (validate_request_keys
            (api (bytes "PUT"))
            (object (field (bytes "name") null end))).unexpected_keys
        ≡ (elem (bytes "age") (keys (field (bytes "name") null end))
            && not (elem (bytes "age") (api (bytes "PUT")).expected_request_keys)))
validate_request_keys_report_example =
    validate_request_keys_report (api (bytes "PUT")) (field (bytes "name") null end) (bytes "age")
      (unfold has_body_validation_method in refl) refl

validate_request_params_iff_example :
    ((validate_request_params (api (bytes "GET")) (bytes "page" ∷ [])).ok ≡ true) ↔ (
      Params.IsUnchecked (api (bytes "GET"))
      ⊎ Params.Conforms (api (bytes "GET")) (bytes "page" ∷ []))
validate_request_params_iff_example =
    validate_request_params_iff (api (bytes "GET")) (bytes "page" ∷ [])
