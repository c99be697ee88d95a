-- ===== src/AuditLog/Tests.antt =====
-- Runs of the operations of the audit log, and the theorems at concrete tables.
use tunnelgate.Prelude.{
  refl, ◌+◌, ◌≡◌, ◌∷◌, ◌==◌, if◌then◌else◌, ℕ, true, false, Option, none, some, List, [], map,
  arith, length, ℕ_eq, pos, Result, ok, err, ◌⊎◌, IsIn,
}
use tunnelgate.Text.{bytes, Text, text_eq, trim_space}
use tunnelgate.Text.Sort.{text_leb}
use tunnelgate.MockApi.Store.{Store}
use tunnelgate.Proxy.Services.{ShadowTarget, CreateInput}
use tunnelgate.MockApi.Types.{StoredApi}
use tunnelgate.AuditLog.Types.{AuditRow, ShadowEntry, PostmanExample, Record}
use tunnelgate.AuditLog.Specs.{preferred_postman_example}
use tunnelgate.AuditLog.Log.{
  nullable_string, AuditTables, ensure_public_ids, scan_record, hydrate_record, list_shadows,
  create_shadow, prune_before, get_by_internal_id, get, create, list,
}
use tunnelgate.AuditLog.Paging.{concat, count_up, list_of, whole_log, list-pages}
use tunnelgate.AuditLog.Consistent.{
  IsConsistent, empty_tables, created, shadowed, pruned, Reachable, at_start, after,
  Reachable-IsConsistent,
}
use tunnelgate.AuditLog.Created.{input_of, get-create}

abbrev digit : ℕ → Text
digit n = (48 + n) ∷ []

abbrev new_name : ℕ → Text
new_name n = b'u' ∷ (48 + n) ∷ []

abbrev no_specs : Store
no_specs = record { apis = []; responses = λ _. []; next_id = 1 }

abbrev target : ShadowTarget
target = record {
  id = bytes "s1";
  name = bytes "copy";
  base_url = bytes "http://b";
  target_url = bytes "http://b/a";
}

abbrev marshal : List ShadowTarget → Text
marshal targets = bytes "[]"

abbrev unmarshal : Text → Option (List ShadowTarget)
unmarshal text = some (target ∷ [])

abbrev positive : Text → Option ℕ
positive text = if text == bytes "1" then some 1 else none

abbrev input : CreateInput
input = record {
  api_mock_db_id = none;
  api_mock_id = [];
  route_name = bytes "a";
  method = bytes "GET";
  route_path = bytes "/a";
  target_url = bytes "http://a/a";
  response_status = some 200;
  duration_ms = 3;
  success = true;
  error_message = none;
  request_headers = bytes "{}";
  request_body = [];
  response_headers = bytes "{}";
  response_body = bytes "hi";
  shadow_targets = target ∷ [];
}

abbrev entry : ShadowEntry
entry = record {
  shadow_audit_log_id = 0;
  audit_log_id = 0;
  id = bytes "s1";
  name = bytes "copy";
  base_url = bytes "http://b";
  target_url = bytes "http://b/a";
  response_status = some 500;
  duration_ms = 9;
  success = false;
  error_message = none;
  request_headers = bytes "{}";
  request_body = [];
  response_headers = bytes "{}";
  response_body = bytes "no";
}

make : AuditTables → Text → Text → AuditTables
unfolding create get_by_internal_id hydrate_record scan_record
make tables public_id now =
    (create digit unmarshal new_name no_specs marshal tables input public_id now).0

two_logs : AuditTables
unfolding make
two_logs =
    make (make empty_tables (bytes "x1") (bytes "2024-01-01")) (bytes "x2") (bytes "2024-01-02")

example : ℕ → PostmanExample
example status = record { api_mock_id = bytes "s"; status = status; name = []; response_body = [] }

log_tests :
    (preferred_postman_example (example 200 ∷ example 500 ∷ []) (some 404) (some 500)
      ≡ some (example 500))
    × (map (λ (row : AuditRow). row.id) (prune_before two_logs (bytes "2024-01-02")).0.audit_logs
        ≡ 2 ∷ [])
    × ((prune_before two_logs (bytes "2024-01-02")).1 ≡ 1)
    × ((list_of digit unmarshal new_name no_specs two_logs (pos 9) 1).page ≡ 2)
    × (create_shadow empty_tables 1 entry [] ≡ err (bytes "FOREIGN KEY constraint failed"))
unfolding preferred_postman_example example prune_before two_logs make create get_by_internal_id
    ensure_public_ids list create_shadow trim_space text_leb
log_tests = (refl, refl, refl, refl, refl)

list-pages_example :
    concat (
      map
        (λ p. (list_of digit unmarshal new_name no_specs two_logs (pos p) 1).items)
        (count_up (list_of digit unmarshal new_name no_specs two_logs (pos 1) 1).total_pages 1))
    ≡ whole_log digit unmarshal new_name no_specs two_logs
list-pages_example = list-pages digit unmarshal new_name no_specs two_logs 1 (omega arith)

-- The tables after a shadow of the first record was written twice.
or_same : AuditTables → Result AuditTables → AuditTables
or_same tables (err message) = tables
or_same tables (ok later) = later

shadowed_once : AuditTables
unfolding or_same create_shadow
shadowed_once = or_same two_logs (create_shadow two_logs 1 entry [])

shadowed_twice : AuditTables
unfolding or_same create_shadow
shadowed_twice = or_same shadowed_once (create_shadow shadowed_once 1 entry (bytes "later"))

shadow_tests : length (list_shadows shadowed_twice 1) ≡ 1
unfolding shadowed_twice shadowed_once or_same create_shadow two_logs make create get_by_internal_id
    ensure_public_ids list_shadows
shadow_tests = refl

first_shadow : create_shadow two_logs 1 entry [] ≡ ok shadowed_once
unfolding shadowed_once or_same create_shadow two_logs make create get_by_internal_id
    ensure_public_ids
first_shadow = refl

second_shadow : create_shadow shadowed_once 1 entry (bytes "later") ≡ ok shadowed_twice
unfolding shadowed_twice shadowed_once or_same create_shadow two_logs make create get_by_internal_id
    ensure_public_ids
second_shadow = refl

reached : Reachable new_name (prune_before shadowed_twice (bytes "2024-01-02")).0
unfolding two_logs make
reached =
    after
      (after
        (after
          (after
            (after at_start
              (created _ digit unmarshal marshal no_specs input (bytes "x1") (bytes "2024-01-01")))
            (created _ digit unmarshal marshal no_specs input (bytes "x2") (bytes "2024-01-02")))
          (shadowed two_logs 1 entry [] first_shadow))
        (shadowed shadowed_once 1 entry (bytes "later") second_shadow))
      (pruned shadowed_twice (bytes "2024-01-02"))

Reachable-IsConsistent_example : IsConsistent (prune_before shadowed_twice (bytes "2024-01-02")).0
Reachable-IsConsistent_example = Reachable-IsConsistent new_name reached

empty-IsConsistent : IsConsistent empty_tables
unfolding IsConsistent
empty-IsConsistent = (tt, refl, tt, tt)

get-create_example :
    let run =
      create digit unmarshal new_name no_specs marshal empty_tables input
        (bytes "x1")
        (bytes "now") in
    (get digit unmarshal new_name no_specs positive run.0 (bytes "x1") ≡ run)
    × (item : Record) × (run.1 ≡ ok item)
    × (item.id ≡ bytes "x1")
    × (input_of [] item ≡ input)
    × ((item.api_mock_id ≡ nullable_string [])
        ⊎ ((spec : StoredApi) × IsIn spec no_specs.apis × (item.api_mock_id ≡ some spec.id)))
unfolding trim_space
get-create_example =
    get-create digit unmarshal marshal positive new_name no_specs (λ i. refl) empty_tables input
      (bytes "x1") (bytes "now") empty-IsConsistent refl refl refl

-- A public id is inserted once.
taken_test :
    (create digit unmarshal new_name no_specs marshal two_logs input (bytes "x1") []).1
    ≡ err (bytes "UNIQUE constraint failed")
unfolding create two_logs make get_by_internal_id ensure_public_ids
taken_test = refl
