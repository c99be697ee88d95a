-- ===== src/AuditLog/Log.antt =====
-- The operations on the tables of the audit log. A statement of SQL is a function on the rows. Two
-- INSERTs can fail: that of a record under a public id that a row has, which the unique index
-- refuses, and that of a shadow of a record that does not exist, which the foreign key refuses. The
-- ids that are filled in where a row lacks one are taken to be new ones, so that this UPDATE does
-- not fail. Deleting a record deletes its shadows (ON DELETE CASCADE).
-- Times, generated ids, the JSON codec of the targets, and `strconv.Itoa` and `Atoi` are arguments.
use tunnelgate.Prelude.{
  ◌+◌, ◌-◌, ◌*◌, ◌/◌, ◌&&◌, ◌∷◌, ◌++◌, ◌==◌, if◌then◌else◌, ℕ, suc, Bool, false, not, Option, none,
  some, List, [], map, ltb, leb, length, take, drop, is_empty, any, keep, find, ℕ_eq, ℤ, pos_part,
  is_nonpositive, Result, ok, err, true,
}
use tunnelgate.Text.{bytes, Text, text_eq, trim_space}
use tunnelgate.Text.Sort.{text_leb}
use tunnelgate.MockApi.Store.{Store}
use tunnelgate.Proxy.Services.{ShadowTarget, CreateInput}
use tunnelgate.AuditLog.Types.{AuditRow, ShadowRow, ShadowEntry, Record, ListResult}
use tunnelgate.AuditLog.Specs.{hydrate_postman_examples}

-- `next_id` and `next_shadow_id` are the ids that the database gives to the next rows.
pub record AuditTables : Type 0 where
  pub audit_logs : List AuditRow
  pub shadows : List ShadowRow
  pub next_id : ℕ
  pub next_shadow_id : ℕ

abbrev pub bool_value : Bool → ℕ
bool_value b = if b then 1 else 0

abbrev pub nullable_string : Text → Option Text
nullable_string value = if is_empty (trim_space value) then none else some value

-- A NULL or blank public id is not one.
abbrev pub present : Option Text → Option Text
present none = none
present (some value) = nullable_string value

abbrev pub has_public_id : Text → AuditRow → Bool
has_public_id id row = elim row.public_id [ none ↦ false | some public_id ↦ public_id == id ]

-- The columns of the UPDATE of `CreateShadow`.
abbrev pub overwrite : ShadowEntry → Text → ShadowRow → ShadowRow
overwrite entry now row = record row {
  name = entry.name;
  base_url = entry.base_url;
  target_url = entry.target_url;
  response_status = entry.response_status;
  duration_ms = entry.duration_ms;
  success = bool_value entry.success;
  error_message = entry.error_message;
  request_headers = entry.request_headers;
  request_body = entry.request_body;
  response_headers = entry.response_headers;
  response_body = entry.response_body;
  created_at = now;
}

abbrev pub new_shadow : ℕ → ℕ → ShadowEntry → Text → ShadowRow
new_shadow shadow_id audit_log_id entry now = record {
  id = shadow_id;
  proxy_audit_log_id = audit_log_id;
  shadow_endpoint_id = entry.id;
  name = entry.name;
  base_url = entry.base_url;
  target_url = entry.target_url;
  response_status = entry.response_status;
  duration_ms = entry.duration_ms;
  success = bool_value entry.success;
  error_message = entry.error_message;
  request_headers = entry.request_headers;
  request_body = entry.request_body;
  response_headers = entry.response_headers;
  response_body = entry.response_body;
  created_at = now;
}

abbrev pub is_shadow_of : ℕ → Text → ShadowRow → Bool
is_shadow_of audit_log_id endpoint_id row =
    row.proxy_audit_log_id == audit_log_id && row.shadow_endpoint_id == endpoint_id

unfoldable pub create_shadow : AuditTables → ℕ → ShadowEntry → Text → Result AuditTables
create_shadow tables audit_log_id entry now =
    if any (is_shadow_of audit_log_id entry.id) tables.shadows
    then ok record tables {
      shadows =
          map
            (λ row. if is_shadow_of audit_log_id entry.id row then overwrite entry now row else row)
            tables.shadows;
    }
    else if any (λ (row : AuditRow). row.id == audit_log_id) tables.audit_logs
    then ok record tables {
      shadows = tables.shadows ++ new_shadow tables.next_shadow_id audit_log_id entry now ∷ [];
      next_shadow_id = suc tables.next_shadow_id;
    }
    else err (bytes "FOREIGN KEY constraint failed")

abbrev pub scan_shadow : ShadowRow → ShadowEntry
scan_shadow row = record {
  shadow_audit_log_id = row.id;
  audit_log_id = row.proxy_audit_log_id;
  id = row.shadow_endpoint_id;
  name = row.name;
  base_url = row.base_url;
  target_url = row.target_url;
  response_status = row.response_status;
  duration_ms = row.duration_ms;
  success = row.success == 1;
  error_message = row.error_message;
  request_headers = row.request_headers;
  request_body = row.request_body;
  response_headers = row.response_headers;
  response_body = row.response_body;
}

-- The rows stand in the order of their ids, in which INSERT adds them.
unfoldable pub list_shadows : AuditTables → ℕ → List ShadowEntry
list_shadows tables audit_log_id =
    map scan_shadow (keep (λ row. row.proxy_audit_log_id == audit_log_id) tables.shadows)

unfoldable pub prune_before : AuditTables → Text → AuditTables × ℕ
prune_before tables cutoff =
    let is_kept : AuditRow → Bool = λ row. text_leb cutoff row.created_at in
    let kept = keep is_kept tables.audit_logs in
    (
      record tables {
        audit_logs = kept;
        shadows =
            keep
              (λ (row : ShadowRow). any (λ (log : AuditRow). log.id == row.proxy_audit_log_id) kept)
              tables.shadows;
      },
      length (keep (λ row. not (is_kept row)) tables.audit_logs),
    )

-- The row that `Create` inserts, under a public id that is generated.
abbrev pub new_row : ℕ → CreateInput → Text → Text → Text → AuditRow
new_row id input public_id targets now = record {
  id = id;
  public_id = some public_id;
  api_mock_id = input.api_mock_db_id;
  api_mock_public_id = nullable_string input.api_mock_id;
  route_name = input.route_name;
  method = input.method;
  route_path = input.route_path;
  target_url = input.target_url;
  response_status = input.response_status;
  duration_ms = input.duration_ms;
  success = bool_value input.success;
  error_message = input.error_message;
  request_headers = input.request_headers;
  request_body = input.request_body;
  response_headers = input.response_headers;
  response_body = input.response_body;
  shadow_targets = targets;
  created_at = now;
}

-- ORDER BY id DESC
abbrev pub insert_newer : AuditRow → List AuditRow → List AuditRow
insert_newer row [] = row ∷ []
insert_newer row (r ∷ rows) = if leb r.id row.id then row ∷ r ∷ rows else r ∷ insert_newer row rows

abbrev pub newest_first : List AuditRow → List AuditRow
newest_first [] = []
newest_first (row ∷ rows) = insert_newer row (newest_first rows)

abbrev pub with_shadows : AuditTables → Record → Record
with_shadows tables item = record item { shadow_entries = list_shadows tables item.internal_id }

-- LIMIT and OFFSET
abbrev pub page_of {ℓ} : {A : Type ℓ} → ℕ → ℕ → List A → List A
page_of page_size page rows = take page_size (drop ((page - 1) * page_size) rows)

-- `int(math.Max(1, math.Ceil(float64(total)/float64(pageSize))))`, for a positive page size
abbrev pub total_pages_of : ℕ → ℕ → ℕ
total_pages_of total page_size =
    let pages = (total + page_size - 1) / page_size in if ltb pages 1 then 1 else pages

abbrev pub clamp_page : ℤ → ℕ → ℕ
clamp_page page total_pages =
    let from_one = (if is_nonpositive page then 1 else pos_part page) in
    if ltb total_pages from_one then total_pages else from_one

-- WHERE public_id IS NULL OR public_id = ''
abbrev pub lacks_public_id : AuditRow → Bool
lacks_public_id row = elim row.public_id [ none ↦ true | some public_id ↦ is_empty public_id ]

-- `new_id` gives the public id that is generated for a row.
module _ (new_id : ℕ → Text) where
  abbrev pub with_public_id : AuditRow → AuditRow
  with_public_id row =
      if lacks_public_id row then record row { public_id = some (new_id row.id) } else row

  unfoldable pub ensure_public_ids : AuditTables → AuditTables
  ensure_public_ids tables = record tables { audit_logs = map with_public_id tables.audit_logs }

module _ (itoa : ℕ → Text) (unmarshal_targets : Text → Option (List ShadowTarget)) where
  unfoldable pub scan_record : AuditRow → Record
  scan_record row = record {
    internal_id = row.id;
    id = elim (present row.public_id) [ some public_id ↦ public_id | none ↦ itoa row.id ];
    api_mock_id = present row.api_mock_public_id;
    api_mock_db_id = row.api_mock_id;
    route_name = row.route_name;
    method = row.method;
    route_path = row.route_path;
    target_url = row.target_url;
    response_status = row.response_status;
    duration_ms = row.duration_ms;
    success = row.success == 1;
    error_message = row.error_message;
    request_headers = row.request_headers;
    request_body = row.request_body;
    response_headers = row.response_headers;
    response_body = row.response_body;
    shadow_targets = elim (unmarshal_targets row.shadow_targets) [
      | some targets ↦ targets
      | none ↦ []
    ];
    shadow_entries = [];
    postman_example = none;
    postman_examples = [];
    created_at = row.created_at;
  }

  -- The operations that read a record: they fill in the public ids first.
  module _ (new_id : ℕ → Text) (specs : Store) where
    unfoldable pub hydrate_record : AuditTables → Record → Record
    hydrate_record tables item =
        hydrate_postman_examples specs
          (record item { shadow_entries = list_shadows tables item.internal_id })

    abbrev pub found : AuditTables → Option AuditRow → Result Record
    found tables none = err (bytes "sql: no rows in result set")
    found tables (some row) = ok (hydrate_record tables (scan_record row))

    unfoldable pub get_by_internal_id : AuditTables → ℕ → AuditTables × Result Record
    unfolding hydrate_record scan_record
    get_by_internal_id tables id =
        let ensured = ensure_public_ids new_id tables in
        (ensured, found ensured (find (λ row. row.id == id) ensured.audit_logs))

    -- `atoi` is `strconv.Atoi` on the texts that it reads as positive numbers.
    unfoldable pub get : (Text → Option ℕ) → AuditTables → Text → AuditTables × Result Record
    unfolding get_by_internal_id hydrate_record scan_record
    get atoi tables id =
        let ensured = ensure_public_ids new_id tables in
        elim (find (has_public_id id) ensured.audit_logs) [
          | some row ↦ (ensured, found ensured (some row))
          | none ↦ elim (atoi id) [
            | none ↦ (ensured, found ensured none)
            | some internal_id ↦ get_by_internal_id ensured internal_id
          ]
        ]

    unfoldable pub create :
        (List ShadowTarget → Text)
        → AuditTables
        → CreateInput
        → Text
        → Text
        → AuditTables × Result Record
    unfolding get_by_internal_id hydrate_record scan_record
    create marshal_targets tables input public_id now =
        let row =
          new_row tables.next_id input public_id (marshal_targets input.shadow_targets) now in
        if any (has_public_id public_id) tables.audit_logs
        then (tables, err (bytes "UNIQUE constraint failed"))
        else get_by_internal_id
            (record tables {
              audit_logs = tables.audit_logs ++ row ∷ [];
              next_id = suc tables.next_id;
            })
            tables.next_id

    unfoldable pub list : AuditTables → ℤ → ℕ → AuditTables × ListResult
    unfolding scan_record
    list tables page page_size =
        let ensured = ensure_public_ids new_id tables in
        let total = length ensured.audit_logs in
        let total_pages = total_pages_of total page_size in
        let current = clamp_page page total_pages in
        (
          ensured,
          record {
            items =
                map (λ row. with_shadows ensured (scan_record row))
                  (page_of page_size current (newest_first ensured.audit_logs));
            total = total;
            page = current;
            page_size = page_size;
            total_pages = total_pages;
          },
        )
