-- ===== src/MockApi/Save/Valid.antt =====
-- `SaveManual` of a spec that is there, and the invariant of the table.
use tunnelgate.Prelude.{
  refl, ◌≡◌, ◌∷◌, ◌==◌, if◌then◌else◌, ℕ, Bool, false, Option, none, some, List, [], if-elim,
  is_empty, find, All, ℕ_eq, distinct,
}
use tunnelgate.Text.{Text, text_eq}
use tunnelgate.MockApi.Types.{ResponseExample, RequestBodyTypes, StoredApi, Definition}
use tunnelgate.MockApi.Examples.{selected_example}
use tunnelgate.MockApi.Store.{Store, Outcome, no_row, failed, find_by_id, ensure_public_ids}
use tunnelgate.MockApi.Store.Valid.{IsValid, ensure-eq_self}
use tunnelgate.MockApi.Save.{
  save_manual, save_row, save_rest, save_target, deactivate_duplicate_routes, read_back, statuses,
}
use tunnelgate.MockApi.Save.Update.{left, left-Pairs, left-identified}

abbrev IsKept : Store × Outcome → Type 0
IsKept r = IsValid r.0

module _ (encode_strings : List Text → Text) (encode_types : RequestBodyTypes → Text)
    (new_id : ℕ → Text) (generated timestamp : Text) (store : Store) (id : Text)
    (definition : Definition) (mock_enabled proxy_enabled : Bool) (v : IsValid store) where
  save_target-IsValid :
      (response : ResponseExample) (target : StoredApi)
      → find (λ api. api.id == id) store.apis ≡ some target
      → IsValid
          (save_target encode_strings encode_types new_id generated timestamp store id definition
            response mock_enabled proxy_enabled target).0
  unfolding save_target save_rest find_by_id
  save_target-IsValid response target e =
      if-elim
        (λ (o : Option Store).
          IsValid
            (read_back encode_strings encode_types new_id generated timestamp store id (elim o [
              | none ↦ none
              | some replaced ↦ some (record replaced {
                apis =
                    deactivate_duplicate_routes target.internal_id definition.method
                      definition.route_path mock_enabled proxy_enabled timestamp replaced.apis;
              })
            ])).0)
        (distinct (statuses definition.response_examples)) _ _ (λ _. saved) (λ _. v)
    where
      rows : List StoredApi
      rows =
          left encode_strings encode_types id definition response mock_enabled proxy_enabled
            timestamp target store.apis

      named : All (λ (api : StoredApi). is_empty api.id ≡ false) rows
      named =
          left-identified encode_strings encode_types id definition response mock_enabled
            proxy_enabled timestamp target store.apis v.identified

      saved : IsValid (
          ensure_public_ids new_id (record store {
            responses = λ k.
                if k == target.internal_id then definition.response_examples else store.responses k;
            apis = rows;
          }))
      saved = record {
        exclusive = rw (ensure-eq_self new_id rows named) (
            left-Pairs encode_strings encode_types id definition response mock_enabled proxy_enabled
              timestamp target store.apis v.exclusive e);
        identified = rw (ensure-eq_self new_id rows named) named;
      }

  -- Saving under an id keeps the invariant of the table (every row has an id, no two share one, and
  -- at most one spec of a method and route path is active), whether the save succeeds, fails or
  -- finds no row, and whatever route and flags the definition brings.
  pub save_manual-IsValid :
      IsValid
        (save_manual encode_strings encode_types new_id generated timestamp store
          (some id)
          definition
          mock_enabled
          proxy_enabled).0
  unfolding save_manual save_row
  save_manual-IsValid = go definition.response_examples
    where
      row_valid :
          (response : ResponseExample)
          → IsValid
              (save_row encode_strings encode_types new_id generated timestamp store
                (some id)
                definition
                response
                mock_enabled
                proxy_enabled).0
      row_valid response = found (find (λ (api : StoredApi). api.id == id) store.apis) refl
        where
          found :
              (o : Option StoredApi)
              → find (λ (api : StoredApi). api.id == id) store.apis ≡ o
              → IsKept (elim o [
                | none ↦ (store, no_row)
                | some target ↦
                    save_target encode_strings encode_types new_id generated timestamp store id
                      definition response mock_enabled proxy_enabled target
              ])
          found none e = v
          found (some target) e = save_target-IsValid response target e

      go :
          (examples : List ResponseExample)
          → IsKept (elim examples [
            | [] ↦ (store, failed)
            | first ∷ rest ↦
                save_row encode_strings encode_types new_id generated timestamp store
                  (some id)
                  definition
                  (selected_example (first ∷ rest) definition.response_status first)
                  mock_enabled
                  proxy_enabled
          ])
      go [] = v
      go (first ∷ rest) =
          row_valid (selected_example (first ∷ rest) definition.response_status first)
