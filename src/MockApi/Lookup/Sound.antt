-- ===== src/MockApi/Lookup/Sound.antt =====
-- Which spec a request is given.
use tunnelgate.Prelude.{
  refl, ◌≡◌, ◌∙◌, ◌&&◌, ◌∷◌, ℕ, sym, ap, inl, inr, Bool, true, false, Option, none, some, List, [],
  map, arith, if-elim, Bool-cases, keep, All, IsIn, All-IsIn, ℕ_eq, ◌||◌, ◌==◌, not, and-eq-true,
  eq_of_true,
}
use tunnelgate.Text.{Text, text_eq, to_upper}
use tunnelgate.MockApi.Types.{RequestBodyTypes, StoredApi, ApiRecord}
use tunnelgate.MockApi.Routes.{Variables, route_paths_match, resolve_template_variables}
use tunnelgate.MockApi.Store.{Store, scan_api, ensure_public_ids}
use tunnelgate.MockApi.Lookup.{
  is_candidate, is_match, scan_rows, order_rows, find_by_method, find_route_in, to_record_with_env,
}
use tunnelgate.MockApi.Lookup.Scan.{
  All-order_rows, All-of_order_rows, scan_rows-some, scan_rows-none,
}

some_injective : {a b : ApiRecord} → some a ≡ some b → a ≡ b
some_injective e = cc

module _ (new_id : ℕ → Text) (parse_strings : Text → List Text)
    (parse_types : Text → RequestBodyTypes) (store : Store) (env_vars : Variables)
    (method route_path : Text) (only : Bool) where
  abbrev table : Store
  table = ensure_public_ids new_id store

  abbrev requested : Text
  requested = resolve_template_variables route_path env_vars

  -- The row of the table that a record was made of.
  pub record IsFound (result : ApiRecord) : Type 0 where
    pub api : StoredApi
    pub in_table : IsIn api (ensure_public_ids new_id store).apis
    pub candidate : is_candidate method only api ≡ true
    pub method_is : api.method ≡ to_upper method
    pub enabled : (not only || api.mock_enabled) ≡ true
    pub matches : is_match env_vars (resolve_template_variables route_path env_vars) only api ≡ true
    pub made :
        result
        ≡ to_record_with_env new_id parse_strings parse_types
            (ensure_public_ids new_id store)
            (scan_api api)
            env_vars

  abbrev IsRow : StoredApi → Type 0
  IsRow row =
      (api : StoredApi) × IsIn api table.apis
      × (is_candidate method only api ≡ true)
      × (row ≡ scan_api api)

  keep-IsRow :
      (apis : List StoredApi)
      → All (λ api. IsIn api table.apis) apis
      → All
          (λ api. IsIn api table.apis × (is_candidate method only api ≡ true))
          (keep (is_candidate method only) apis)
  keep-IsRow [] h = tt
  keep-IsRow (api ∷ apis) (i, h) =
      if-elim
        (All (λ (api : StoredApi). IsIn api table.apis × (is_candidate method only api ≡ true)))
        (is_candidate method only api) _ _ (λ c. ((i, c), keep-IsRow apis h))
        (λ _. keep-IsRow apis h)

  map-IsRow :
      (apis : List StoredApi)
      → All (λ api. IsIn api table.apis × (is_candidate method only api ≡ true)) apis
      → All IsRow (map scan_api apis)
  map-IsRow [] h = tt
  map-IsRow (api ∷ apis) ((i, c), h) = ((api, i, c, refl), map-IsRow apis h)

  abbrev rows : List StoredApi
  rows = map scan_api (order_rows (keep (is_candidate method only) table.apis))

  rows-IsRow : All IsRow rows
  rows-IsRow =
      map-IsRow _ (All-order_rows _ _ (keep-IsRow table.apis (All-IsIn _ table.apis (λ api i. i))))

  abbrev found : Option StoredApi → Option ApiRecord
  found none = none
  found (some row) = some (to_record_with_env new_id parse_strings parse_types table row env_vars)

  -- The record that the lookup gives is that of a row of the table with the method, enabled for
  -- mocking where only these are asked for, whose route path matches the requested one (with the
  -- environment variables put in).
  pub find_route_in-some :
      (result : ApiRecord)
      → (find_route_in new_id parse_strings parse_types store env_vars method route_path only).1
        ≡ some result
      → IsFound result
  unfolding find_route_in find_by_method
  find_route_in-some result e = go (scan_rows env_vars requested only none rows) refl e
    where
      go :
          (o : Option StoredApi)
          → scan_rows env_vars requested only none rows ≡ o
          → found o ≡ some result
          → IsFound result
      go none s k = cc
      go (some row) s k =
          let ((api, i, c, r), m) =
            scan_rows-some env_vars requested only IsRow none rows row rows-IsRow
              (λ x f. ground arith) s in
          record {
            api = api;
            in_table = i;
            candidate = c;
            method_is = eq_of_true api.method (to_upper method) (and-eq-true _ _ c).0;
            enabled =
                (and-eq-true (api.method == to_upper method) (not only || api.mock_enabled) c).1;
            matches = ap (is_match env_vars requested only) (sym r) ∙ m;
            made =
                sym (some_injective k)
                ∙ ap (λ x. to_record_with_env new_id parse_strings parse_types table x env_vars) r;
          }

  map_none :
      (apis : List StoredApi)
      → All (λ row. is_match env_vars requested only row ≡ false) (map scan_api apis)
      → All (λ api. is_match env_vars requested only api ≡ false) apis
  map_none [] h = tt
  map_none (api ∷ apis) (p, h) = (p, map_none apis h)

  keep_none :
      (apis : List StoredApi)
      → All
          (λ api. is_match env_vars requested only api ≡ false)
          (keep (is_candidate method only) apis)
      → All
          (λ api. (is_candidate method only api && is_match env_vars requested only api) ≡ false)
          apis
  keep_none [] h = tt
  keep_none (api ∷ apis) h = elim (Bool-cases (is_candidate method only api)) [
    | inl c ↦ let (p, k) = rw c at h in (rw c p, keep_none apis k)
    | inr c ↦ (rw c refl, keep_none apis (rw c at h))
  ]

  -- Where the lookup gives nothing, no row of the table that has the method, and is enabled for
  -- mocking where only these are asked for, has a route path that matches the requested one.
  pub find_route_in-none :
      (find_route_in new_id parse_strings parse_types store env_vars method route_path only).1
        ≡ none
      → All
          (λ api.
            ((api.method == to_upper method && (not only || api.mock_enabled))
              && route_paths_match
                  (resolve_template_variables api.route_path env_vars)
                  (resolve_template_variables route_path env_vars))
            ≡ false)
          (ensure_public_ids new_id store).apis
  unfolding find_route_in find_by_method
  find_route_in-none e = go (scan_rows env_vars requested only none rows) refl e
    where
      go :
          (o : Option StoredApi)
          → scan_rows env_vars requested only none rows ≡ o
          → found o ≡ none
          → All
              (λ (api : StoredApi).
                (is_candidate method only api && is_match env_vars requested only api) ≡ false)
              table.apis
      go none s k = keep_none table.apis (
          All-of_order_rows _ _ (map_none _ (scan_rows-none env_vars requested only none rows s).1))
      go (some row) s k = cc
