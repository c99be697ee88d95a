-- ===== src/AuditLog/Specs.antt =====
-- The examples of the spec that an audit record is for: `hydratePostmanExamples`,
-- `currentSpecPostmanExamples`, `currentSpecRecord` and `preferredPostmanExample`.
-- The specs are the tables of MockApi.Store; their rows stand in the order of their ids, and the
-- examples of a spec in their `sort_order`.
use tunnelgate.Prelude.{
  ◌∷◌, ◌==◌, if◌then◌else◌, ℕ, Bool, Option, none, some, List, [], map, is_empty, keep, find, ℕ_eq,
}
use tunnelgate.Text.{bytes, Text, text_eq, to_upper}
use tunnelgate.MockApi.Types.{ResponseExample, StoredApi}
use tunnelgate.MockApi.Routes.{route_paths_match}
use tunnelgate.MockApi.Store.{Store}
use tunnelgate.MockApi.Lookup.{order_rows}
use tunnelgate.AuditLog.Types.{PostmanExample, Record}

abbrev pub with_status : ℕ → PostmanExample → Bool
with_status status example = example.status == status

-- One of the two loops of `preferredPostmanExample`, for a status that may be nil.
abbrev pub find_status : List PostmanExample → Option ℕ → Option PostmanExample
find_status examples none = none
find_status examples (some status) = find (with_status status) examples

unfoldable pub preferred_postman_example :
    List PostmanExample → Option ℕ → Option ℕ → Option PostmanExample
preferred_postman_example [] selected_status response_status = none
preferred_postman_example (example ∷ examples) selected_status response_status =
    elim (find_status (example ∷ examples) selected_status) [
      | some selected ↦ some selected
      | none ↦ elim (find_status (example ∷ examples) response_status) [
        | some selected ↦ some selected
        | none ↦ some example
      ]
    ]

-- A row without a public id has the empty one.
abbrev pub api_mock_public_id : Store → ℕ → Option Text
api_mock_public_id specs api_mock_id =
    elim (find (λ api. api.internal_id == api_mock_id) specs.apis) [
      | none ↦ none
      | some api ↦ some api.id
    ]

abbrev pub query_current_spec_by_public_id : Store → Text → Option StoredApi
query_current_spec_by_public_id specs public_id = find (λ api. api.id == public_id) specs.apis

-- The query of `currentSpecRecord` and its loop; `routePathsMatch` of this package is the text of
-- `RoutePathsMatch`.
abbrev pub match_spec : Store → Text → Text → Option StoredApi
match_spec specs method route_path =
    find (λ (api : StoredApi). route_paths_match api.route_path route_path)
      (order_rows (keep (λ api. api.method == to_upper method) specs.apis))

unfoldable pub current_spec_record : Store → Text → Text → Text → Option StoredApi
current_spec_record specs public_id method route_path =
    if is_empty public_id
    then match_spec specs method route_path
    else elim (query_current_spec_by_public_id specs public_id) [
      | some api ↦ some api
      | none ↦ match_spec specs method route_path
    ]

abbrev to_example : Text → ResponseExample → PostmanExample
to_example public_id example = record {
  api_mock_id = public_id;
  status = example.status;
  name = example.name;
  response_body = example.body;
}

abbrev or_imported_response : StoredApi → List PostmanExample → List PostmanExample
or_imported_response api [] =
    record {
      api_mock_id = api.id;
      status = api.response_status;
      name = bytes "Imported response";
      response_body = api.response_body;
    }
    ∷ []
or_imported_response api (example ∷ examples) = example ∷ examples

-- The examples, the selected status, and the public id of the spec that was found.
abbrev pub examples_of : Store → Option StoredApi → List PostmanExample × Option ℕ × Text
examples_of specs none = ([], none, [])
examples_of specs (some api) = (
  or_imported_response api (map (to_example api.id) (specs.responses api.internal_id)),
  some api.response_status,
  api.id,
)

unfoldable pub current_spec_postman_examples :
    Store → Text → Text → Text → List PostmanExample × Option ℕ × Text
unfolding current_spec_record
current_spec_postman_examples specs public_id method route_path =
    examples_of specs (current_spec_record specs public_id method route_path)

-- The public id that the record is looked up with: its own, or that of the spec with its id.
abbrev pub known_public_id : Record → Text
known_public_id item = elim item.api_mock_id [ some public_id ↦ public_id | none ↦ [] ]

abbrev pub with_spec_id : Text → Record → Record
with_spec_id public_id item =
    if is_empty public_id then item else record item { api_mock_id = some public_id }

abbrev pub looked_up : Store → Record → Text
looked_up specs item = elim item.api_mock_db_id [
  | none ↦ []
  | some api_mock_id ↦ elim (api_mock_public_id specs api_mock_id) [
    | none ↦ []
    | some public_id ↦ public_id
  ]
]

abbrev pub with_examples : List PostmanExample → Option ℕ → Text → Record → Record
with_examples examples selected_status matched_public_id item =
    let filled = record item { postman_examples = examples } in
    if is_empty examples then filled else record (with_spec_id matched_public_id filled) {
      postman_example = preferred_postman_example examples selected_status item.response_status;
    }

unfoldable pub hydrate_postman_examples : Store → Record → Record
unfolding current_spec_postman_examples
hydrate_postman_examples specs item =
    let cleared = record item { postman_examples = []; postman_example = none } in
    let own = known_public_id cleared in
    let public_id = (if is_empty own then looked_up specs cleared else own) in
    let known = (if is_empty own then with_spec_id public_id cleared else cleared) in
    let (examples, selected_status, matched_public_id) =
      current_spec_postman_examples specs public_id known.method known.route_path in
    with_examples examples selected_status matched_public_id known
