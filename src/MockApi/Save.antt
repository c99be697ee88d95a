-- ===== src/MockApi/Save.antt =====
-- Saving a spec: `SaveManual`, `upsertDefinition`, `ImportDefinitions` and
-- `deactivateDuplicateRoutes` of backend/internal/features/api-specs/repository.go.
-- The statements run in a transaction: where one fails, the store is as it was. An INSERT fails on an
-- id that a row has (the unique index on public_id). The generated ids, the time and the encoders of
-- JSON are arguments.
pub mod Update
pub mod Valid
mod Tests
use tunnelgate.Prelude.{
  [], ◌+◌, ◌&&◌, ◌∷◌, ◌++◌, ◌==◌, if◌then◌else◌, ℕ, Bool, true, false, not, Option, none, some,
  List, map, any, find, ℕ_eq, list_eq, distinct,
}
use tunnelgate.Text.{Text, text_eq, before}
use tunnelgate.MockApi.Types.{ResponseExample, RequestBodyTypes, StoredApi, Definition}
use tunnelgate.MockApi.Examples.{selected_example}
use tunnelgate.MockApi.Store.{
  Store, Outcome, no_row, failed, same_route, deactivate_other, stop_proxy, stop_mock, find_by_id,
}

abbrev pub deactivate_duplicate_routes :
    ℕ → Text → Text → Bool → Bool → Text → List StoredApi → List StoredApi
deactivate_duplicate_routes api_id method route_path mock_enabled proxy_enabled timestamp apis =
    if not mock_enabled && not proxy_enabled
    then apis
    else map
        (λ api.
          (if mock_enabled then stop_proxy api_id else stop_mock api_id)
            (deactivate_other timestamp method route_path api_id api))
        apis

abbrev statuses : List ResponseExample → List ℕ
statuses examples = map (λ e. e.status) examples

-- DELETE and INSERT of the examples of one spec; the unique index admits one of each status.
abbrev pub replace_responses : ℕ → List ResponseExample → Store → Option Store
replace_responses api_id examples store =
    if distinct (statuses examples)
    then some
        (record store { responses = λ k. if k == api_id then examples else store.responses k })
    else none

module _ (encode_strings : List Text → Text) (encode_types : RequestBodyTypes → Text) where
  -- The columns that both an INSERT and an UPDATE write.
  abbrev pub written : Definition → ResponseExample → Bool → Bool → Text → StoredApi → StoredApi
  written definition response mock_enabled proxy_enabled timestamp api = record api {
    collection_name = definition.collection_name;
    route_name = definition.route_name;
    postman_folder_path = encode_strings definition.postman_folder_path;
    method = definition.method;
    route_path = definition.route_path;
    mock_enabled = mock_enabled;
    proxy_enabled = proxy_enabled;
    response_status = response.status;
    response_body = response.body;
    response_body_type = response.body_type;
    request_headers = definition.request_headers;
    response_headers = response.response_headers;
    request_body_keys = encode_strings definition.request_body_keys;
    request_body_types = encode_types definition.request_body_types;
    request_body_raw = definition.request_body_raw;
    request_body_type = definition.request_body_type;
    request_param_keys = encode_strings definition.request_param_keys;
    request_param_types = encode_types definition.request_param_types;
    updated_at = timestamp;
  }

  abbrev blank : ℕ → Text → StoredApi
  blank internal_id id = record {
    internal_id = internal_id;
    id = id;
    collection_name = [];
    route_name = [];
    postman_folder_path = [];
    method = [];
    route_path = [];
    mock_enabled = false;
    proxy_enabled = false;
    response_status = 0;
    response_body = [];
    response_body_type = [];
    request_headers = [];
    response_headers = [];
    request_body_keys = [];
    request_body_types = [];
    request_body_raw = [];
    request_body_type = [];
    request_param_keys = [];
    request_param_types = [];
    updated_at = [];
  }

  -- The rows after the UPDATE of the spec with an id, or after the INSERT of a new one.
  abbrev pub updated :
      Text → Definition → ResponseExample → Bool → Bool → Text → StoredApi → StoredApi
  updated id definition response mock_enabled proxy_enabled timestamp api =
      if api.id == id
      then written definition response mock_enabled proxy_enabled timestamp api
      else api

  inserted : Store → Text → Definition → ResponseExample → Bool → Bool → Text → Store
  inserted store id definition response mock_enabled proxy_enabled timestamp = record store {
    apis =
        store.apis
        ++ written definition response mock_enabled proxy_enabled timestamp (blank store.next_id id)
          ∷ [];
    next_id = store.next_id + 1;
  }

  -- The part of `SaveManual` behind the write of the row with internal id `api_id`.
  save_rest : Store → ℕ → Definition → Bool → Bool → Text → Option Store
  save_rest store api_id definition mock_enabled proxy_enabled timestamp =
      elim (replace_responses api_id definition.response_examples store) [
        | none ↦ none
        | some replaced ↦ some (record replaced {
          apis =
              deactivate_duplicate_routes api_id definition.method definition.route_path
                mock_enabled proxy_enabled timestamp replaced.apis;
        })
      ]

  module _ (new_id : ℕ → Text) (generated : Text) (timestamp : Text) where
    -- The read behind the commit.
    abbrev read_back : Store → Text → Option Store → Store × Outcome
    read_back before id none = (before, failed)
    read_back before id (some saved) = find_by_id new_id saved id

    -- The row with the id is there.
    save_target :
        Store → Text → Definition → ResponseExample → Bool → Bool → StoredApi → Store × Outcome
    unfolding save_rest
    save_target store id definition response mock_enabled proxy_enabled target =
        read_back store id (
          save_rest
            (record store {
              apis =
                  map (updated id definition response mock_enabled proxy_enabled timestamp)
                    store.apis;
            })
            target.internal_id definition mock_enabled proxy_enabled timestamp)

    save_row : Store → Option Text → Definition → ResponseExample → Bool → Bool → Store × Outcome
    unfolding save_rest inserted save_target
    save_row store none definition response mock_enabled proxy_enabled =
        if any (λ api. api.id == generated) store.apis
        then (store, failed)
        else read_back store generated (
            save_rest
              (inserted store generated definition response mock_enabled proxy_enabled timestamp)
              store.next_id definition mock_enabled proxy_enabled timestamp)
    save_row store (some id) definition response mock_enabled proxy_enabled =
        elim (find (λ api. api.id == id) store.apis) [
          | none ↦ (store, no_row)
          | some target ↦ save_target store id definition response mock_enabled proxy_enabled target
        ]

    -- `definition.ResponseExamples[0]` panics where there is none.
    pub save_manual : Store → Option Text → Definition → Bool → Bool → Store × Outcome
    unfolding save_row
    save_manual store id definition mock_enabled proxy_enabled = elim definition.response_examples [
      | [] ↦ (store, failed)
      | first ∷ rest ↦
          save_row store id definition
            (selected_example (first ∷ rest) definition.response_status first) mock_enabled
            proxy_enabled
    ]

  module _ (generated : Text) (timestamp : Text) where
    -- The response that `upsertDefinition` writes: that with the status the row had, if any.
    upsert_response : Option StoredApi → ResponseExample → List ResponseExample → ResponseExample
    upsert_response none first rest = first
    upsert_response (some api) first rest =
        selected_example (first ∷ rest) api.response_status first

    -- Both flags of the first row of the route are set, or those of a new row.
    upsert_row : Store → Definition → ResponseExample → Option StoredApi → Option Store
    unfolding inserted
    upsert_row store definition response none =
        if any (λ api. api.id == generated) store.apis
        then none
        else replace_responses store.next_id definition.response_examples
            (inserted store generated definition response true true timestamp)
    upsert_row store definition response (some target) =
        replace_responses target.internal_id definition.response_examples (record store {
          apis =
              map
                (λ api.
                  if api.internal_id == target.internal_id
                  then written definition response true true timestamp api
                  else api)
                store.apis;
        })

    unfoldable pub upsert_definition : Store → Definition → Option Store
    unfolding upsert_row upsert_response
    upsert_definition store definition = elim definition.response_examples [
      | [] ↦ none
      | first ∷ rest ↦
          let existing = find (same_route definition.method definition.route_path) store.apis in
          upsert_row store definition (upsert_response existing first rest) existing
    ]

  module _ (timestamp : Text) where
    upsert_all : Store → List (Text × Definition) → Option Store
    upsert_all store [] = some store
    upsert_all store ((generated, definition) ∷ definitions) =
        elim (upsert_definition generated timestamp store definition) [
          | none ↦ none
          | some next ↦ upsert_all next definitions
        ]

    abbrev or_before : Store → Option Store → Store × Bool
    or_before before none = (before, false)
    or_before before (some after) = (after, true)

    -- Each definition with the id that is generated for it; whether the import was committed.
    pub import_definitions : Store → List (Text × Definition) → Store × Bool
    unfolding upsert_all
    import_definitions store definitions = or_before store (upsert_all store definitions)
