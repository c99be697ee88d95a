-- ===== src/AuditLog/Hydrated.antt =====
-- Which spec a record is for after `hydratePostmanExamples`:
-- backend/internal/features/audit-log/service.go.
use tunnelgate.Prelude.{
  refl, ◌≡◌, ◌∙◌, ◌⊎◌, ◌==◌, if◌then◌else◌, ℕ, sym, ap, inl, inr, false, Option, none, some, List,
  [], if-elim, Bool-cases, Option-cases, is_empty, find, All, IsIn, All-IsIn, ℕ_eq,
}
use tunnelgate.Text.{Text, text_eq}
use tunnelgate.MockApi.Types.{StoredApi}
use tunnelgate.MockApi.Store.{Store}
use tunnelgate.MockApi.Store.Exclusive.{All-find}
use tunnelgate.MockApi.Store.Writes.{All-keep}
use tunnelgate.MockApi.Lookup.Scan.{All-order_rows}
use tunnelgate.AuditLog.Types.{PostmanExample, Record}
use tunnelgate.AuditLog.Specs.{
  api_mock_public_id, query_current_spec_by_public_id, match_spec, current_spec_record, examples_of,
  current_spec_postman_examples, known_public_id, with_spec_id, looked_up, with_examples,
  hydrate_postman_examples,
}

module _ (specs : Store) where
  -- The public id of a spec of the tables.
  abbrev IsSpecId : Text → Type 0
  IsSpecId public_id = (spec : StoredApi) × IsIn spec specs.apis × (spec.id ≡ public_id)

  -- The public id of the record's spec is the one given, or that of a spec of the tables.
  abbrev pub IsNamed : Option Text → Record → Type 0
  IsNamed own item =
      (item.api_mock_id ≡ own)
      ⊎ ((spec : StoredApi) × IsIn spec specs.apis × (item.api_mock_id ≡ some spec.id))

  every_row : All (λ api. IsIn api specs.apis) specs.apis
  every_row = All-IsIn (λ api. IsIn api specs.apis) specs.apis (λ api i. i)

  with_spec_id-IsNamed :
      (own : Option Text) (public_id : Text) (item : Record)
      → (is_empty public_id ≡ false → IsSpecId public_id)
      → IsNamed own item
      → IsNamed own (with_spec_id public_id item)
  with_spec_id-IsNamed own public_id item h k =
      if-elim (IsNamed own) (is_empty public_id) _ _ (λ _. k)
        (λ e. let (spec, there_is, same) = h e in inr (spec, there_is, ap some (sym same)))

  found_id-IsSpecId :
      (api_mock_id : ℕ) (public_id : Text)
      → api_mock_public_id specs api_mock_id ≡ some public_id
      → IsSpecId public_id
  found_id-IsSpecId api_mock_id public_id e =
      elim (Option-cases (find (λ (api : StoredApi). api.internal_id == api_mock_id) specs.apis)) [
        | inl k ↦ let none_is = rw (k, api_mock_public_id) at e in cc
        | inr (api, k) ↦ (
          api,
          All-find (λ api. IsIn api specs.apis) _ specs.apis every_row k,
          (let some_is = rw (k, api_mock_public_id) at e in cc),
        )
      ]

  looked_up-IsSpecId :
      (item : Record) → is_empty (looked_up specs item) ≡ false → IsSpecId (looked_up specs item)
  looked_up-IsSpecId item h = elim (Option-cases item.api_mock_db_id) [
    | inl e ↦ let h' = rw (e, looked_up) at h in cc
    | inr (n, e) ↦ elim (Option-cases (api_mock_public_id specs n)) [
      | inl k ↦ let h' = rw (e, k, looked_up) at h in cc
      | inr (public_id, k) ↦ rw (e, k, looked_up) (found_id-IsSpecId n public_id k)
    ]
  ]

  match_spec-IsIn :
      (method route_path : Text) {api : StoredApi}
      → match_spec specs method route_path ≡ some api
      → IsIn api specs.apis
  match_spec-IsIn method route_path e =
      All-find (λ api. IsIn api specs.apis) _ _
        (All-order_rows (λ api. IsIn api specs.apis) _
          (All-keep (λ api. IsIn api specs.apis) _ specs.apis every_row))
        e

  current_spec_record-IsIn :
      (public_id method route_path : Text) {api : StoredApi}
      → current_spec_record specs public_id method route_path ≡ some api
      → IsIn api specs.apis
  unfolding current_spec_record
  current_spec_record-IsIn public_id method route_path e = elim (Bool-cases (is_empty public_id)) [
    | inl h ↦ match_spec-IsIn method route_path (rw h at e)
    | inr h ↦ elim (Option-cases (query_current_spec_by_public_id specs public_id)) [
      | inl k ↦ match_spec-IsIn method route_path (rw (h, k) at e)
      | inr (found, k) ↦
          All-find (λ api. IsIn api specs.apis) (λ api. api.id == public_id) specs.apis every_row
            (k ∙ (rw (h, k) at e))
    ]
  ]

  examples_of-IsSpecId :
      (found : Option StoredApi)
      → ((api : StoredApi) → found ≡ some api → IsIn api specs.apis)
      → is_empty (examples_of specs found).2 ≡ false
      → IsSpecId (examples_of specs found).2
  examples_of-IsSpecId none h e = cc
  examples_of-IsSpecId (some api) h e = (api, h api refl, refl)

  matched-IsSpecId :
      (public_id method route_path : Text)
      → let matched = (current_spec_postman_examples specs public_id method route_path).2 in
        is_empty matched ≡ false → IsSpecId matched
  unfolding current_spec_postman_examples
  matched-IsSpecId public_id method route_path =
      examples_of-IsSpecId (current_spec_record specs public_id method route_path)
        (λ api e. current_spec_record-IsIn public_id method route_path e)

  with_examples-IsNamed :
      (own : Option Text) (examples : List PostmanExample) (status : Option ℕ) (public_id : Text)
      (item : Record)
      → (is_empty public_id ≡ false → IsSpecId public_id)
      → IsNamed own item
      → IsNamed own (with_examples examples status public_id item)
  with_examples-IsNamed own examples status public_id item h k =
      if-elim (IsNamed own) (is_empty examples) _ _ (λ _. k)
        (λ _. with_spec_id-IsNamed own public_id (record item { postman_examples = examples }) h k)

  -- The hydration of a record leaves the public id of its spec, or puts in that of a spec.
  pub hydrate-IsNamed :
      (item : Record) → IsNamed item.api_mock_id (hydrate_postman_examples specs item)
  unfolding hydrate_postman_examples
  hydrate-IsNamed item =
      let cleared = record item { postman_examples = []; postman_example = none } in
      let own = known_public_id cleared in
      let public_id = (if is_empty own then looked_up specs cleared else own) in
      let known = (if is_empty own then with_spec_id public_id cleared else cleared) in
      let named : IsNamed item.api_mock_id known =
        if-elim (IsNamed item.api_mock_id) (is_empty own) _ _
          (λ e.
            with_spec_id-IsNamed item.api_mock_id public_id cleared
              (rw e (looked_up-IsSpecId cleared)) (inl refl))
          (λ _. inl refl) in
      with_examples-IsNamed item.api_mock_id _ _ _ known
        (matched-IsSpecId public_id known.method known.route_path) named
