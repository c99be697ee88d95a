-- ===== src/MockApi/Store.antt =====
-- The tables of API specs and their response examples, and the operations that write them:
-- backend/internal/features/api-specs/repository.go.
-- A statement of SQL is a function on the rows; none fails but an INSERT that breaks the unique
-- index of the examples, `UNIQUE(api_mock_id, response_status)`, and a failure in a transaction
-- leaves the store as it was. Times and generated ids are arguments, and so are the encoders of
-- JSON.
pub mod Exclusive
pub mod Toggle
pub mod Valid
pub mod Split
pub mod Writes
pub mod Select
mod Tests
use tunnelgate.Prelude.{
  ℕ, Bool, false, not, ◌&&◌, Option, none, some, List, [], ◌∷◌, if◌then◌else◌, ◌==◌, ℕ_eq, map,
  find, keep, is_empty, list_eq,
}
use tunnelgate.Text.{Text, bytes, text_eq, to_upper, trim_space}
use tunnelgate.MockApi.Types.{ResponseExample, StoredApi}

-- `next_id` is the id that the database gives to the next row.
pub record Store : Type 0 where
  pub apis : List StoredApi
  pub responses : ℕ → List ResponseExample
  pub next_id : ℕ

-- What an operation returns: a row, no row, or an error.
pub data Outcome : Type 0 where
  row : StoredApi → Outcome
  no_row : Outcome
  failed : Outcome

abbrev pub same_route : Text → Text → StoredApi → Bool
same_route method route_path api = api.method == method && api.route_path == route_path

abbrev or_braces : Text → Text
or_braces headers = if is_empty (trim_space headers) then bytes "{}" else headers

abbrev pub scan_api : StoredApi → StoredApi
scan_api api = record api {
  request_headers = or_braces api.request_headers;
  response_headers = or_braces api.response_headers;
}

-- UPDATE api_mocks SET mock_enabled = 0, proxy_enabled = 0, updated_at = ?
-- WHERE method = ? AND route_path = ? AND id <> ?
abbrev pub deactivate_other : Text → Text → Text → ℕ → StoredApi → StoredApi
deactivate_other timestamp method route_path api_id api =
    if same_route method route_path api && not (api.internal_id == api_id)
    then record api { mock_enabled = false; proxy_enabled = false; updated_at = timestamp }
    else api

-- UPDATE api_mocks SET proxy_enabled = 0 WHERE id = ?, and the same for mock_enabled
abbrev pub stop_proxy : ℕ → StoredApi → StoredApi
stop_proxy api_id api =
    if api.internal_id == api_id then record api { proxy_enabled = false } else api

abbrev pub stop_mock : ℕ → StoredApi → StoredApi
stop_mock api_id api =
    if api.internal_id == api_id then record api { mock_enabled = false } else api

-- The column that `updateBoolean` writes.
pub data Column : Type 0 where
  mock_column proxy_column : Column

abbrev pub set_column : Column → Bool → StoredApi → StoredApi
set_column mock_column value api = record api { mock_enabled = value }
set_column proxy_column value api = record api { proxy_enabled = value }

abbrev pub stop_other_column : Column → ℕ → StoredApi → StoredApi
stop_other_column mock_column = stop_proxy
stop_other_column proxy_column = stop_mock

-- The statements of `updateBoolean`, on one row; `target` is the row that has the public id.
unfoldable pub toggle_row : Column → Bool → Text → StoredApi → StoredApi → StoredApi
toggle_row column enabled timestamp target api =
    let cleared =
      (if enabled
        then stop_other_column column target.internal_id
            (deactivate_other timestamp target.method target.route_path target.internal_id api)
        else api) in
    if api.id == target.id
    then record (set_column column enabled cleared) { updated_at = timestamp }
    else cleared

-- `new_id` gives the id that is generated for a row.
module _ (new_id : ℕ → Text) where
  abbrev ensure_public_id : StoredApi → StoredApi
  ensure_public_id api = if is_empty api.id then record api { id = new_id api.internal_id } else api

  unfoldable pub ensure_public_ids : Store → Store
  ensure_public_ids store = record store { apis = map ensure_public_id store.apis }

  unfoldable pub find_by_id : Store → Text → Store × Outcome
  unfolding ensure_public_ids
  find_by_id store id =
      let ensured = ensure_public_ids store in
      (
        ensured,
        elim (find (λ api. api.id == id) ensured.apis) [
          | none ↦ no_row
          | some api ↦ row (scan_api api)
        ],
      )

  unfoldable pub find_by_method_and_route : Store → Text → Text → Store × Option StoredApi
  unfolding ensure_public_ids
  find_by_method_and_route store method route_path =
      let ensured = ensure_public_ids store in
      (
        ensured,
        elim (find (same_route (to_upper method) route_path) ensured.apis) [
          | none ↦ none
          | some api ↦ some (scan_api api)
        ],
      )

  pub update_boolean : Store → Text → Column → Bool → Text → Store × Outcome
  unfolding toggle_row find_by_id
  update_boolean store id column enabled timestamp = elim (find (λ api. api.id == id) store.apis) [
    | none ↦ (store, no_row)
    | some target ↦
        find_by_id
          (record store { apis = map (toggle_row column enabled timestamp target) store.apis }) id
  ]

  pub set_mock_enabled : Store → Text → Bool → Text → Store × Outcome
  set_mock_enabled store id enabled timestamp =
      update_boolean store id mock_column enabled timestamp

  pub set_proxy_enabled : Store → Text → Bool → Text → Store × Outcome
  set_proxy_enabled store id enabled timestamp =
      update_boolean store id proxy_column enabled timestamp

  -- The UPDATE of `SetSelectedResponse`.
  abbrev select_row : ResponseExample → Text → Text → StoredApi → StoredApi
  select_row example id timestamp api =
      if api.id == id
      then record api {
        response_status = example.status;
        response_body = example.body;
        response_body_type = example.body_type;
        response_headers = example.response_headers;
        updated_at = timestamp;
      }
      else api

  select_in : Store → Text → Text → Option ResponseExample → Store × Outcome
  unfolding find_by_id
  select_in store id timestamp none = (store, no_row)
  select_in store id timestamp (some example) =
      find_by_id (record store { apis = map (select_row example id timestamp) store.apis }) id

  pub set_selected_response : Store → Text → ℕ → Text → Store × Outcome
  unfolding select_in ensure_public_ids
  set_selected_response store id status timestamp =
      let ensured = ensure_public_ids store in
      elim (find (λ api. api.id == id) ensured.apis) [
        | none ↦ (ensured, no_row)
        | some target ↦
            select_in ensured id timestamp
              (find (λ e. e.status == status) (ensured.responses target.internal_id))
      ]

-- `Delete`: the examples go with their spec (ON DELETE CASCADE).
abbrev without : List StoredApi → Text → (ℕ → List ResponseExample) → ℕ → List ResponseExample
without [] id responses k = responses k
without (api ∷ apis) id responses k =
    if api.id == id && api.internal_id == k then [] else without apis id responses k

pub delete : Store → Text → Store × Bool
delete store id = (
  record store {
    apis = keep (λ api. not (api.id == id)) store.apis;
    responses = without store.apis id store.responses;
  },
  not (is_empty (keep (λ api. api.id == id) store.apis)),
)
