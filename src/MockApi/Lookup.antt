-- ===== src/MockApi/Lookup.antt =====
-- Finding the spec that a request is for: `findRoute`, `FindActiveMock` and `FindRoute` of
-- backend/internal/features/api-specs/service.go, on `FindByMethod` of repository.go.
-- The environment variables are an argument, and so are the readers of JSON lists and maps.
pub mod Scan
pub mod Sound
mod Tests
use tunnelgate.Prelude.{
  [], ◌&&◌, ◌||◌, ◌∷◌, ◌==◌, if◌then◌else◌, ℕ, Bool, true, false, not, Option, none, some, List,
  map, keep, ℕ_eq, list_eq, ◌+◌, ◌-◌, ◌*◌, ◌/◌, ◌%◌, ◌^◌, ◌≤◌, ◌<◌, ◌≡◌, ◌∙◌, ◌≢◌, ◌↔◌, ◌⊎◌, ◌++◌,
  zero, suc, min, refl, sym, ap, inl, inr, append_assoc, append-nil, arith, ltb, leb, nat_eq,
  nat_eq_iff, if-elim, Bool-cases, Option-cases, Bool-eq_of_iff, and-eq-true, length, take, drop,
  is_empty, all, any, find, length-append, length-take, take-append-drop, All, All-append, IsIn,
  here, there, All-IsIn, Eq, list_eq_iff, eq_refl, eq_of_true, ne_of_false, elem, elem-append,
  distinct, ℤ, pos, negsuc, pos_part, is_nonpositive, int_leb, leb_int, Result, ok, err, ◌>>=◌,
  >>=-eq-ok,
}
use tunnelgate.Text.{
  bytes, Text, text_eq, to_upper, text_eq_iff, has_prefix, trim_prefix, lower_byte, upper_byte,
  contains, replace_all, trim_space, trim_left, trim_right, split, before, after?, join, to_lower,
  equal_fold,
}
use tunnelgate.Text.Sort.{text_leb}
use tunnelgate.MockApi.Types.{ResponseExample, RequestBodyTypes, StoredApi, ApiRecord}
use tunnelgate.MockApi.Routes.{Variables, resolve_template_variables, route_paths_match}
use tunnelgate.MockApi.Store.{Store, scan_api, ensure_public_ids}

-- ORDER BY route_path ASC
insert_row : StoredApi → List StoredApi → List StoredApi
insert_row row [] = row ∷ []
insert_row row (r ∷ rows) =
    if text_leb row.route_path r.route_path then row ∷ r ∷ rows else r ∷ insert_row row rows

unfoldable pub order_rows : List StoredApi → List StoredApi
unfolding insert_row
order_rows [] = []
order_rows (row ∷ rows) = insert_row row (order_rows rows)

abbrev pub is_candidate : Text → Bool → StoredApi → Bool
is_candidate method only_mock_enabled row =
    row.method == to_upper method && (not only_mock_enabled || row.mock_enabled)

-- `ResponseExamples` reads the rows in their `sort_order`, which is the order of the list.
abbrev or_imported : StoredApi → List ResponseExample → List ResponseExample
or_imported row [] =
    record {
      status = row.response_status;
      name = bytes "Imported response";
      body = row.response_body;
      body_type = row.response_body_type;
      response_headers = row.response_headers;
    }
    ∷ []
or_imported row (example ∷ examples) = example ∷ examples

module _ (env_vars : Variables) (requested_path : Text) (only_mock_enabled : Bool) where
  abbrev pub is_match : StoredApi → Bool
  is_match row =
      route_paths_match (resolve_template_variables row.route_path env_vars) requested_path

  abbrev pub is_taken : StoredApi → Bool
  is_taken row = only_mock_enabled || row.proxy_enabled

  abbrev keep_first : Option StoredApi → StoredApi → Option StoredApi
  keep_first none row = some row
  keep_first (some first) row = some first

  -- The loop over the rows; a row stands for its record.
  unfoldable pub scan_rows : Option StoredApi → List StoredApi → Option StoredApi
  scan_rows fallback [] = fallback
  scan_rows fallback (row ∷ rows) =
      if is_match row
      then (if is_taken row then some row else scan_rows (keep_first fallback row) rows)
      else scan_rows fallback rows

module _ (new_id : ℕ → Text) (parse_strings : Text → List Text)
    (parse_types : Text → RequestBodyTypes) where
  unfoldable pub find_by_method : Store → Text → Bool → Store × List StoredApi
  find_by_method store method only_mock_enabled =
      let ensured = ensure_public_ids new_id store in
      (
        ensured,
        map scan_api (order_rows (keep (is_candidate method only_mock_enabled) ensured.apis)),
      )

  pub to_record_with_env : Store → StoredApi → Variables → ApiRecord
  to_record_with_env store row env_vars = record {
    internal_id = row.internal_id;
    id = row.id;
    collection_name = row.collection_name;
    route_name = row.route_name;
    postman_folder_path = parse_strings row.postman_folder_path;
    method = row.method;
    route_path = row.route_path;
    resolved_route_path = resolve_template_variables row.route_path env_vars;
    mock_enabled = row.mock_enabled;
    proxy_enabled = row.proxy_enabled;
    response_status = row.response_status;
    response_body = row.response_body;
    response_body_type = row.response_body_type;
    request_headers = row.request_headers;
    response_headers = row.response_headers;
    response_examples = or_imported row (store.responses row.internal_id);
    request_body_raw = row.request_body_raw;
    request_body_type = row.request_body_type;
    expected_request_keys = parse_strings row.request_body_keys;
    expected_request_types = parse_types row.request_body_types;
    expected_param_keys = parse_strings row.request_param_keys;
    expected_param_types = parse_types row.request_param_types;
    updated_at = row.updated_at;
  }

  pub find_route_in : Store → Variables → Text → Text → Bool → Store × Option ApiRecord
  unfolding find_by_method scan_rows to_record_with_env
  find_route_in store env_vars method route_path only_mock_enabled =
      let (ensured, rows) = find_by_method store method only_mock_enabled in
      (
        ensured,
        elim (scan_rows env_vars (resolve_template_variables route_path env_vars) only_mock_enabled
            none rows) [ none ↦ none | some row ↦ some (to_record_with_env ensured row env_vars) ],
      )

  unfoldable pub find_active_mock : Store → Variables → Text → Text → Store × Option ApiRecord
  find_active_mock store env_vars method route_path =
      find_route_in store env_vars method route_path true

  pub find_route : Store → Variables → Text → Text → Store × Option ApiRecord
  find_route store env_vars method route_path = find_route_in store env_vars method route_path false
