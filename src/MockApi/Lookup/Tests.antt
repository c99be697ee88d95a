-- ===== src/MockApi/Lookup/Tests.antt =====
-- Runs of the lookup, and its theorems at a concrete table.
use tunnelgate.Prelude.{
  [], refl, ◌≡◌, ◌&&◌, ◌∷◌, ℕ, Bool, true, false, Option, none, some, List, All, ℕ_eq, ◌||◌, ◌==◌,
  not,
}
use tunnelgate.Text.{bytes, Text, text_eq, trim_space, to_upper}
use tunnelgate.MockApi.Types.{StoredApi, RequestBodyTypes}
use tunnelgate.MockApi.Routes.{
  resolve_template_variables, route_paths_match, comparable_route_path, split_route_segments,
  segments_match,
}
use tunnelgate.MockApi.Store.{Store, ensure_public_ids}
use tunnelgate.MockApi.Lookup.{find_route_in, to_record_with_env, scan_rows, order_rows}
use tunnelgate.MockApi.Lookup.Sound.{IsFound, find_route_in-some, find_route_in-none}

abbrev api : ℕ → Text → Bool → Bool → StoredApi
api internal_id route_path mock_enabled proxy_enabled = record {
  internal_id = internal_id;
  id = bytes "id";
  collection_name = bytes "shop";
  route_name = bytes "orders";
  postman_folder_path = bytes "[]";
  method = bytes "GET";
  route_path = route_path;
  mock_enabled = mock_enabled;
  proxy_enabled = proxy_enabled;
  response_status = 200;
  response_body = bytes "{}";
  response_body_type = bytes "json";
  request_headers = bytes "{}";
  response_headers = bytes "{}";
  request_body_keys = bytes "[]";
  request_body_types = bytes "{}";
  request_body_raw = [];
  request_body_type = [];
  request_param_keys = bytes "[]";
  request_param_types = bytes "{}";
  updated_at = [];
}

abbrev apis : List StoredApi
apis = api 1 (bytes "/a/:id") false false ∷ api 2 (bytes "/a/:x") false true ∷ []

abbrev table : Store
table = record { apis = apis; responses = λ k. []; next_id = 3 }

abbrev new_id : ℕ → Text
new_id k = bytes "new"

abbrev strings : Text → List Text
strings s = []

abbrev types : Text → RequestBodyTypes
types s = []

abbrev found_id : Option StoredApi → ℕ
found_id none = 0
found_id (some row) = row.internal_id

-- The row that is proxied is taken, though it is not the first that matches.
scan_tests :
    (found_id (scan_rows [] (bytes "/a/7") false none apis) ≡ 2)
    × (found_id (scan_rows [] (bytes "/b") false none apis) ≡ 0)
unfolding scan_rows resolve_template_variables route_paths_match comparable_route_path
    split_route_segments segments_match trim_space
scan_tests = (refl, refl)

abbrev only_row : StoredApi
only_row = api 1 (bytes "/a") true false

abbrev small : Store
small = record { apis = only_row ∷ []; responses = λ k. []; next_id = 2 }

small-found :
    (find_route_in new_id strings types small [] (bytes "get") (bytes "/a") true).1
    ≡ some (to_record_with_env new_id strings types (ensure_public_ids new_id small) only_row [])
unfolding find_route_in ensure_public_ids scan_rows to_upper route_paths_match comparable_route_path
    trim_space order_rows resolve_template_variables
small-found = refl

find_route_in-some_example :
    IsFound new_id strings types small []
      (bytes "get")
      (bytes "/a")
      true
      (to_record_with_env new_id strings types (ensure_public_ids new_id small) only_row [])
find_route_in-some_example =
    find_route_in-some new_id strings types small [] (bytes "get") (bytes "/a") true _ small-found

small-missed :
    (find_route_in new_id strings types small [] (bytes "POST") (bytes "/a") true).1 ≡ none
unfolding find_route_in to_upper order_rows ensure_public_ids scan_rows
small-missed = refl

find_route_in-none_example :
    All
      (λ api.
        ((api.method == to_upper (bytes "POST") && (not true || api.mock_enabled))
          && route_paths_match
              (resolve_template_variables api.route_path [])
              (resolve_template_variables (bytes "/a") []))
        ≡ false)
      (ensure_public_ids new_id small).apis
find_route_in-none_example =
    find_route_in-none new_id strings types small [] (bytes "POST") (bytes "/a") true small-missed

first_taken : scan_rows [] (bytes "/a") true none (only_row ∷ []) ≡ some only_row
unfolding scan_rows resolve_template_variables route_paths_match comparable_route_path trim_space
first_taken = refl
