-- ===== src/OpenApi/Tests.antt =====
-- Runs of the import of OpenAPI specs, and the theorems at concrete inputs.
use tunnelgate.Prelude.{
  refl, ◌≤◌, ◌≡◌, ◌∷◌, ◌==◌, if◌then◌else◌, ℕ, sym, none, some, List, [], map, ℕ_eq, pos, Result,
  ok, err,
}
use tunnelgate.Text.{bytes, Text, text_eq, trim_space, to_lower, to_upper, equal_fold}
use mathlib.Core.Path.{subst}
use tunnelgate.Json.{Value, object, text, field, end}
use tunnelgate.MockApi.Types.{Definition}
use tunnelgate.MockApi.Routes.{split_route_segments}
use tunnelgate.OpenApi.Schemas.{
  Schema, schema, empty_map, property, no_schema, Spec, resolve_open_api_schema, sample_for_schema,
}
use tunnelgate.OpenApi.Schemas.Sampled.{
  HasProperty, first_one, later_one, IsChild, in_properties, in_items, IsFinite, finite,
  sample_for_schema-Returns, sample_for_schema-cyclic,
}
use tunnelgate.Sanitize.{sanitize_text, control, payload}
use tunnelgate.OpenApi.Operations.{
  Operation, open_api_request_media, open_api_request_body_keys, open_api_request_body_example,
  preferred_media_type,
}
use tunnelgate.OpenApi.Import.{
  Calls, Document, zero_operation, operation_at, sorted_open_api_methods, sorted_responses,
  parse_response_status, import_methods, import_paths, parse_open_api_spec,
  open_api_operation_to_definition, open_api_param_keys, open_api_response_examples,
  clean_string_slice, examples_from,
}
use tunnelgate.OpenApi.Import.Imported.{AreImported, parse_open_api_spec-AreImported}
use tunnelgate.OpenApi.Import.Methods.{import_methods-no_lower_case}
use tunnelgate.Text.Sort.{sort, text_leb}
use tunnelgate.OpenApi.Paths.{open_api_path_to_route_path, route_path_to_open_api_path}
use tunnelgate.OpenApi.Paths.Converted.{open_api_path_to_route_path-route_path_to_open_api_path}

path_tests :
    (open_api_path_to_route_path (bytes "users/{id}/{}/x{a/b}") ≡ bytes "/users/:id/{}/x{a/b}")
    × (route_path_to_open_api_path (bytes "/users/:id/:?x=1") ≡ bytes "/users/{id}/:")
unfolding open_api_path_to_route_path route_path_to_open_api_path split_route_segments trim_space
path_tests = (refl, refl)

open_api_path_to_route_path-route_path_to_open_api_path_example :
    open_api_path_to_route_path (route_path_to_open_api_path (b'/' ∷ bytes "users/:id/posts"))
    ≡ b'/' ∷ bytes "users/:id/posts"
open_api_path_to_route_path-route_path_to_open_api_path_example =
    open_api_path_to_route_path-route_path_to_open_api_path (bytes "users/:id/posts") refl refl refl

abbrev leaf : Schema
leaf = schema [] (bytes "string") empty_map no_schema none

-- A node that has itself as a property.
abbrev node : Schema
node =
    schema [] (bytes "object")
      (property (bytes "next")
        (schema (bytes "#/components/schemas/Node") [] empty_map no_schema none) empty_map)
      no_schema none

abbrev node_ref : Schema
node_ref = schema (bytes "#/components/schemas/Node") [] empty_map no_schema none

abbrev user_ref : Schema
user_ref = schema (bytes "#/definitions/User") [] empty_map no_schema none

abbrev spec : Spec
spec = record {
  schemas = (bytes "Node", node) ∷ [];
  definitions =
      (
        bytes "User",
        schema [] (bytes "Object") (property (bytes "name") leaf empty_map) no_schema none,
      )
      ∷ [];
}

sample_test : sample_for_schema spec 2 user_ref ≡ some (object (field (bytes "name") (text []) end))
unfolding sample_for_schema resolve_open_api_schema to_lower
sample_test = refl

only_property :
    (key : Text) (given child : Schema)
    → HasProperty child (property key given empty_map)
    → child ≡ given
only_property key given child (first_one) = refl
only_property key given child (later_one c) = elim c [ ]

leaf_child : (child : Schema) → IsChild spec child leaf → IsFinite spec child
unfolding resolve_open_api_schema
leaf_child child (in_properties c) = elim c [ ]
leaf_child child (in_items e) = cc

user_child : (child : Schema) → IsChild spec child user_ref → IsFinite spec child
unfolding resolve_open_api_schema
user_child child (in_properties c) =
    subst (IsFinite spec) (sym (only_property (bytes "name") leaf child c)) (finite leaf_child)
user_child child (in_items e) = cc

user-IsFinite : IsFinite spec user_ref
user-IsFinite = finite user_child

sample_for_schema-Returns_example :
    (fuel : ℕ) × (value : Value) × ((more : ℕ)
      → fuel ≤ more
      → sample_for_schema spec more user_ref ≡ some value)
sample_for_schema-Returns_example = sample_for_schema-Returns spec user_ref user-IsFinite

sample_for_schema-cyclic_example : sample_for_schema spec 100 node_ref ≡ none
unfolding resolve_open_api_schema to_lower
sample_for_schema-cyclic_example = sample_for_schema-cyclic spec node_ref refl refl first_one 100

abbrev calls : Calls
calls = record {
  patterns = record {
    without_control_chars = λ s. s;
    without_html_tags = λ s. s;
    high_risk_sql = [];
  };
  indent = λ value. some (bytes "{ }");
  atoi = λ s. if s == bytes "404" then some (pos 404) else none;
  itoa = λ n. bytes "n";
}

abbrev user_operation : Operation
user_operation = record zero_operation {
  summary = bytes " User ";
  responses =
      (bytes "404", record { description = bytes "None"; content = [] })
      ∷ (bytes "default", record { description = []; content = [] })
      ∷ [];
}

abbrev document : Document
document = record {
  openapi = bytes "3.0.0";
  swagger = [];
  title = bytes "Users";
  paths = some ((bytes "/u/{id}", (bytes "get", user_operation) ∷ []) ∷ []);
  spec = spec;
}

abbrev definitions_of : Result (List Definition × Text) → List Definition
definitions_of (err message) = []
definitions_of (ok (definitions, spec_name)) = definitions

import_test :
    map {B = Text × Text × ℕ}
      (λ definition. (definition.method, definition.route_path, definition.response_status))
      (definitions_of (parse_open_api_spec calls 1 (ok document)))
    ≡ (bytes "GET", bytes "/u/:id", 200) ∷ []
unfolding parse_open_api_spec import_paths import_methods operation_at sorted_open_api_methods
    open_api_operation_to_definition open_api_path_to_route_path control sanitize_text
    open_api_request_body_keys open_api_request_body_example open_api_request_media
    open_api_param_keys open_api_response_examples clean_string_slice examples_from sorted_responses
    parse_response_status payload to_upper to_lower trim_space sort text_leb preferred_media_type
    equal_fold
import_test = refl

import_methods-no_lower_case_example :
    import_methods calls 1 spec
      (bytes "Users")
      (bytes "/u")
      ((bytes "GET", user_operation) ∷ [])
      (sorted_open_api_methods ((bytes "GET", user_operation) ∷ []))
    ≡ import_methods calls 1 spec
        (bytes "Users")
        (bytes "/u")
        []
        (sorted_open_api_methods ((bytes "GET", user_operation) ∷ []))
import_methods-no_lower_case_example =
    import_methods-no_lower_case calls 1 spec (bytes "Users") (bytes "/u")
      ((bytes "GET", user_operation) ∷ []) refl

abbrev imported : List Definition × Text
imported = (definitions_of (parse_open_api_spec calls 1 (ok document)), bytes "Users")

document-imported : parse_open_api_spec calls 1 (ok document) ≡ ok imported
unfolding parse_open_api_spec import_paths import_methods operation_at sorted_open_api_methods
    open_api_operation_to_definition open_api_path_to_route_path control sanitize_text
    open_api_request_body_keys open_api_request_body_example open_api_request_media
    open_api_param_keys open_api_response_examples clean_string_slice examples_from sorted_responses
    parse_response_status payload to_upper to_lower trim_space sort text_leb preferred_media_type
    equal_fold
document-imported = refl

parse_open_api_spec-AreImported_example : AreImported imported
parse_open_api_spec-AreImported_example =
    parse_open_api_spec-AreImported calls 1 (ok document) document-imported
