-- ===== src/MockApi/Store/Tests.antt =====
-- Runs of the store, and its theorems at a concrete table.
use tunnelgate.Prelude.{
  [], refl, ◌≡◌, ◌∷◌, ◌==◌, if◌then◌else◌, ℕ, Bool, true, false, map, arith, All, ℕ_eq, ne_of_false,
  ◌⊎◌, ◌++◌, List,
}
use tunnelgate.Text.{bytes, Text, text_eq}
use tunnelgate.MockApi.Types.{StoredApi, ResponseExample}
use tunnelgate.MockApi.Store.{
  set_selected_response, no_row, Store, mock_column, proxy_column, update_boolean, delete,
  same_route, toggle_row,
}
use tunnelgate.MockApi.Store.Exclusive.{is_active}
use tunnelgate.MockApi.Store.Split.{NoneHas}
use tunnelgate.MockApi.Store.Writes.{delete-exactly_one}
use tunnelgate.MockApi.Store.Select.{IsOutcome, set_selected_response-IsOutcome}
use tunnelgate.MockApi.Store.Valid.{IsValid, update_boolean-IsValid, update_boolean-is_active}

abbrev pub api : ℕ → Text → Text → Bool → StoredApi
api internal_id id route_path mock_enabled = record {
  internal_id = internal_id;
  id = id;
  collection_name = bytes "shop";
  route_name = bytes "orders";
  postman_folder_path = bytes "[]";
  method = bytes "GET";
  route_path = route_path;
  mock_enabled = mock_enabled;
  proxy_enabled = false;
  response_status = 200;
  response_body = bytes "{}";
  response_body_type = bytes "json";
  request_headers = bytes "{}";
  response_headers = bytes "{}";
  request_body_keys = bytes "[]";
  request_body_types = bytes "{}";
  request_body_raw = [];
  request_body_type = [];
  request_param_keys = bytes "[]";
  request_param_types = bytes "{}";
  updated_at = [];
}

abbrev pub table : Store
table = record {
  apis = api 1 (bytes "a") (bytes "/x") true ∷ api 2 (bytes "b") (bytes "/x") false ∷ [];
  responses = λ k. [];
  next_id = 3;
}

abbrev new_id : ℕ → Text
new_id k = bytes "new"

store_tests :
    (map is_active (update_boolean new_id table (bytes "b") proxy_column true []).0.apis
      ≡ false ∷ true ∷ [])
    × (map is_active (update_boolean new_id table (bytes "c") mock_column true []).0.apis
        ≡ true ∷ false ∷ [])
    × ((delete table (bytes "a")).1 ≡ true)
unfolding update_boolean delete
store_tests = (refl, refl, refl)

table-IsValid : IsValid table
table-IsValid = record {
  exclusive = (
    (
      record { internal_ids = λ e. omega arith; ids = ne_of_false _ _ refl; routes = λ m p. refl },
      tt,
    ),
    (tt, tt),
  );
  identified = (refl, (refl, tt));
}

update_boolean-IsValid_example :
    IsValid (update_boolean new_id table (bytes "b") mock_column true []).0
update_boolean-IsValid_example =
    update_boolean-IsValid new_id table (bytes "b") mock_column true [] table-IsValid

abbrev second : StoredApi
second = api 2 (bytes "b") (bytes "/x") false

update_boolean-is_active_example :
    ((update_boolean new_id table (bytes "b") mock_column true []).0.apis
      ≡ map (toggle_row mock_column true [] second) table.apis)
    × All
        (λ api. is_active (toggle_row mock_column true [] second api) ≡ (
          if same_route second.method second.route_path api
          then api.id == bytes "b"
          else is_active api))
        table.apis
update_boolean-is_active_example =
    update_boolean-is_active new_id table (bytes "b") mock_column [] second table-IsValid refl

abbrev missing : ResponseExample
missing = record {
  status = 404;
  name = bytes "None";
  body = bytes "no";
  body_type = bytes "raw";
  response_headers = bytes "{}";
}

-- The table with an example of its first spec.
abbrev with_example : Store
with_example = record table { responses = λ k. if k == 1 then missing ∷ [] else [] }

with_example-IsValid : IsValid with_example
with_example-IsValid = record {
  exclusive = table-IsValid.exclusive;
  identified = table-IsValid.identified;
}

write_tests :
    (map
        (λ (a : StoredApi). a.response_status)
        (set_selected_response new_id with_example (bytes "a") 404 []).0.apis
      ≡ 404 ∷ 200 ∷ [])
    × ((set_selected_response new_id with_example (bytes "b") 404 []).1 ≡ no_row)
    × ((delete with_example (bytes "a")).0.responses 1 ≡ [])
unfolding set_selected_response delete
write_tests = (refl, refl, refl)

delete-exactly_one_example :
    IsValid (delete with_example (bytes "a")).0
    × ((NoneHas (bytes "a") with_example.apis
          × ((delete with_example (bytes "a")).1 ≡ false)
          × ((delete with_example (bytes "a")).0.apis ≡ with_example.apis)
          × ((delete with_example (bytes "a")).0.responses 1 ≡ with_example.responses 1))
        ⊎ ((target : StoredApi) × (front : List StoredApi) × (back : List StoredApi)
            × (with_example.apis ≡ front ++ target ∷ back)
            × (target.id ≡ bytes "a")
            × ((delete with_example (bytes "a")).1 ≡ true)
            × ((delete with_example (bytes "a")).0.apis ≡ front ++ back)
            × ((delete with_example (bytes "a")).0.responses 1
                ≡ (if target.internal_id == 1 then [] else with_example.responses 1))))
delete-exactly_one_example = delete-exactly_one with_example (bytes "a") 1 with_example-IsValid

set_selected_response-IsOutcome_example :
    IsOutcome with_example
      (bytes "a")
      404
      []
      (set_selected_response new_id with_example (bytes "a") 404 [])
set_selected_response-IsOutcome_example =
    set_selected_response-IsOutcome new_id with_example (bytes "a") 404 [] with_example-IsValid
