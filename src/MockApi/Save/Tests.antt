-- ===== src/MockApi/Save/Tests.antt =====
-- Runs of the saves, and their theorem at a concrete table.
use tunnelgate.Prelude.{
  [], refl, ◌≡◌, ◌∷◌, ℕ, true, false, none, some, List, map, arith, length, ℕ_eq, ne_of_false,
}
use tunnelgate.Text.{bytes, Text, text_eq}
use tunnelgate.MockApi.Types.{ResponseExample, RequestBodyTypes, StoredApi, Definition}
use tunnelgate.MockApi.Store.{Store, find_by_id, ensure_public_ids}
use tunnelgate.MockApi.Store.Exclusive.{is_active}
use tunnelgate.MockApi.Store.Valid.{IsValid}
use tunnelgate.MockApi.Save.{save_manual, import_definitions, upsert_definition}
use tunnelgate.MockApi.Save.Valid.{save_manual-IsValid}

abbrev api : ℕ → Text → Text → StoredApi
api internal_id id route_path = record {
  internal_id = internal_id;
  id = id;
  collection_name = bytes "shop";
  route_name = bytes "orders";
  postman_folder_path = bytes "[]";
  method = bytes "GET";
  route_path = route_path;
  mock_enabled = true;
  proxy_enabled = false;
  response_status = 200;
  response_body = bytes "{}";
  response_body_type = bytes "json";
  request_headers = bytes "{}";
  response_headers = bytes "{}";
  request_body_keys = bytes "[]";
  request_body_types = bytes "{}";
  request_body_raw = [];
  request_body_type = [];
  request_param_keys = bytes "[]";
  request_param_types = bytes "{}";
  updated_at = [];
}

abbrev table : Store
table = record {
  apis = api 1 (bytes "a") (bytes "/x") ∷ api 2 (bytes "b") (bytes "/y") ∷ [];
  responses = λ k. [];
  next_id = 3;
}

abbrev ok_example : ResponseExample
ok_example = record {
  status = 200;
  name = bytes "OK";
  body = bytes "{}";
  body_type = bytes "json";
  response_headers = bytes "{}";
}

abbrev definition : Definition
definition = record {
  collection_name = bytes "shop";
  route_name = bytes "moved";
  postman_folder_path = [];
  method = bytes "GET";
  route_path = bytes "/x";
  response_status = 200;
  response_body = bytes "{}";
  response_body_type = bytes "json";
  request_headers = bytes "{}";
  response_headers = bytes "{}";
  response_examples = ok_example ∷ [];
  request_body_raw = [];
  request_body_type = [];
  request_body_keys = [];
  request_body_types = [];
  request_param_keys = [];
  request_param_types = [];
}

abbrev strings : List Text → Text
strings l = bytes "[]"

abbrev types : RequestBodyTypes → Text
types l = bytes "{}"

abbrev new_id : ℕ → Text
new_id k = bytes "new"

-- Moving the second spec to the route of the first one deactivates the first one. An import sets
-- both flags of a spec.
save_tests :
    (map is_active
        (save_manual strings types new_id [] [] table
          (some (bytes "b"))
          definition
          true
          false).0.apis
      ≡ false ∷ true ∷ [])
    × (length
          (save_manual strings types new_id (bytes "c") [] table none definition true false).0.apis
        ≡ 3)
    × (map
          (λ (a : StoredApi). a.proxy_enabled)
          (import_definitions strings types [] table ((bytes "c", definition) ∷ [])).0.apis
        ≡ true ∷ false ∷ [])
unfolding save_manual import_definitions upsert_definition find_by_id ensure_public_ids
save_tests = (refl, refl, refl)

table-IsValid : IsValid table
table-IsValid = record {
  exclusive = (
    (
      record {
        internal_ids = λ e. omega arith;
        ids = ne_of_false _ _ refl;
        routes = λ m p. absurd (ne_of_false (bytes "/x") (bytes "/y") refl p);
      },
      tt,
    ),
    (tt, tt),
  );
  identified = (refl, (refl, tt));
}

save_manual-IsValid_example :
    IsValid
      (save_manual strings types new_id [] [] table (some (bytes "b")) definition true false).0
save_manual-IsValid_example =
    save_manual-IsValid strings types new_id [] [] table (bytes "b") definition true false
      table-IsValid
