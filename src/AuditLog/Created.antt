-- ===== src/AuditLog/Created.antt =====
-- A record that `Create` writes and `Get` reads: backend/internal/features/audit-log/service.go.
use tunnelgate.Prelude.{
  refl, ◌<◌, ◌≡◌, ◌∙◌, ◌∷◌, ◌++◌, ◌==◌, if◌then◌else◌, ℕ, suc, sym, ap, Bool, true, false, Option,
  none, some, List, [], map, arith, if-elim, is_empty, any, find, All, ℕ_eq, eq_refl, elem, Result,
  ok, ◌⊎◌, ◌||◌, inl, inr, Bool-cases, Option-cases, IsIn, eq_of_true,
}
use tunnelgate.Text.{Text, text_eq, trim_space}
use mathlib.Core.Path.{ap₂, subst}
use tunnelgate.MockApi.Types.{StoredApi}
use tunnelgate.MockApi.Store.{Store}
use tunnelgate.AuditLog.Hydrated.{IsNamed, hydrate-IsNamed}
use tunnelgate.Proxy.Services.{ShadowTarget, CreateInput}
use tunnelgate.AuditLog.Types.{AuditRow, Record, PostmanExample}
use tunnelgate.AuditLog.Specs.{
  with_spec_id, with_examples, hydrate_postman_examples, known_public_id, looked_up,
}
use tunnelgate.AuditLog.Log.{
  AuditTables, bool_value, nullable_string, present, lacks_public_id, with_public_id, has_public_id,
  ensure_public_ids, scan_record, hydrate_record, found, new_row, create, get, get_by_internal_id,
}
use tunnelgate.AuditLog.Rows.{row_ids, not_elem_of_below, row_ids-with_public_id, elem-row_ids}
use tunnelgate.AuditLog.Consistent.{IsConsistent}

-- The input with the fields that a record keeps of it, but for the public id of the spec, which the
-- hydration may change and which is an argument here.
abbrev pub input_of : Text → Record → CreateInput
input_of api_mock_id item = record {
  api_mock_db_id = item.api_mock_db_id;
  api_mock_id = api_mock_id;
  route_name = item.route_name;
  method = item.method;
  route_path = item.route_path;
  target_url = item.target_url;
  response_status = item.response_status;
  duration_ms = item.duration_ms;
  success = item.success;
  error_message = item.error_message;
  request_headers = item.request_headers;
  request_body = item.request_body;
  response_headers = item.response_headers;
  response_body = item.response_body;
  shadow_targets = item.shadow_targets;
}

-- A function of a record that no step of the hydration changes.
module _ {ℓ} {A : Type ℓ} (f : Record → A)
    (keeps_id : (item : Record) (public_id : Text)
      → f (record item { api_mock_id = some public_id }) ≡ f item)
    (keeps_examples : (item : Record) (examples : List PostmanExample)
      → f (record item { postman_examples = examples }) ≡ f item)
    (keeps_example : (item : Record) (example : Option PostmanExample)
      → f (record item { postman_example = example }) ≡ f item) where
  with_spec_id-same : (public_id : Text) (item : Record) → f (with_spec_id public_id item) ≡ f item
  with_spec_id-same public_id item =
      if-elim (λ (r : Record). f r ≡ f item) (is_empty public_id) _ _ (λ _. refl)
        (λ _. keeps_id item public_id)

  with_examples-same :
      (examples : List PostmanExample) (status : Option ℕ) (public_id : Text) (item : Record)
      → f (with_examples examples status public_id item) ≡ f item
  with_examples-same examples status public_id item =
      let filled = record item { postman_examples = examples } in
      if-elim (λ (r : Record). f r ≡ f item) (is_empty examples) _ _
        (λ _. keeps_examples item examples)
        (λ _.
          keeps_example (with_spec_id public_id filled) _
          ∙ with_spec_id-same public_id filled
          ∙ keeps_examples item examples)

  hydrate-same : (specs : Store) (item : Record) → f (hydrate_postman_examples specs item) ≡ f item
  unfolding hydrate_postman_examples
  hydrate-same specs item =
      let cleared = record item { postman_examples = []; postman_example = none } in
      let own = known_public_id cleared in
      let public_id = (if is_empty own then looked_up specs cleared else own) in
      with_examples-same _ _ _ _
      ∙ if-elim (λ (r : Record). f r ≡ f item) (is_empty own) _ _
          (λ _. with_spec_id-same public_id cleared ∙ keeps_example _ _ ∙ keeps_examples _ _)
          (λ _. keeps_example _ _ ∙ keeps_examples _ _)

find-snoc :
    (p : AuditRow → Bool) (rows : List AuditRow) (row : AuditRow)
    → any p rows ≡ false
    → p row ≡ true
    → find p (rows ++ row ∷ []) ≡ some row
find-snoc p [] row h k = rw k refl
find-snoc p (r ∷ rows) row h k = ground (arith, find-snoc p rows row)

map-snoc :
    (f : AuditRow → AuditRow) (rows : List AuditRow) (row : AuditRow)
    → f row ≡ row
    → map f (rows ++ row ∷ []) ≡ map f rows ++ row ∷ []
map-snoc f [] row h = ap (λ r. r ∷ []) h
map-snoc f (r ∷ rows) row h = ap (λ t. f r ∷ t) (map-snoc f rows row h)

module _ (new_id : ℕ → Text) (named_rows : (i : ℕ) → is_empty (new_id i) ≡ false) where
  with_public_id-again :
      (row : AuditRow)
      → with_public_id new_id (with_public_id new_id row) ≡ with_public_id new_id row
  with_public_id-again row =
      if-elim (λ r. with_public_id new_id r ≡ r) (lacks_public_id row) _ _
        (λ _. rw (named_rows row.id) refl) (λ e. rw e refl)

  map-again :
      (rows : List AuditRow)
      → map (with_public_id new_id) (map (with_public_id new_id) rows)
        ≡ map (with_public_id new_id) rows
  map-again [] = refl
  map-again (row ∷ rows) = ap₂ ◌∷◌ (with_public_id-again row) (map-again rows)

trimmed_not_empty : (s : Text) → is_empty (trim_space s) ≡ false → is_empty s ≡ false
unfolding trim_space
trimmed_not_empty [] h = h
trimmed_not_empty (c ∷ s) h = refl

or_right : (a b : Bool) → (a || b) ≡ false → b ≡ false
or_right a b h = ground arith

taken_row_kept :
    (new_id : ℕ → Text) (public_id : Text) (row : AuditRow)
    → is_empty public_id ≡ false
    → has_public_id public_id row ≡ true
    → with_public_id new_id row ≡ row
taken_row_kept new_id public_id row h k = elim (Option-cases row.public_id) [
  | inl e ↦ let k' = rw (e, has_public_id) at k in cc
  | inr (own, e) ↦
      let same = eq_of_true own public_id (rw (e, has_public_id) at k) in rw (e, same, h) refl
]

-- A public id that no filled row has is on no row as it is stored.
untaken :
    (new_id : ℕ → Text) (public_id : Text) (rows : List AuditRow)
    → is_empty public_id ≡ false
    → any (has_public_id public_id) (map (with_public_id new_id) rows) ≡ false
    → any (has_public_id public_id) rows ≡ false
untaken new_id public_id [] h k = refl
untaken new_id public_id (row ∷ rows) h k = elim (Bool-cases (has_public_id public_id row)) [
  | inl e ↦ let k' = rw (taken_row_kept new_id public_id row h e, e) at k in cc
  | inr e ↦ rw e (
      untaken new_id public_id rows h
        (or_right (has_public_id public_id (with_public_id new_id row)) _ k))
]

present-nullable_string : (s : Text) → present (nullable_string s) ≡ nullable_string s
present-nullable_string s =
    if-elim (λ (o : Option Text). present o ≡ o) (is_empty (trim_space s)) _ _ (λ _. refl)
      (λ e. rw e refl)

bool_value-one : (b : Bool) → (bool_value b == 1) ≡ b
bool_value-one true = refl
bool_value-one false = refl

module _ (itoa : ℕ → Text) (unmarshal_targets : Text → Option (List ShadowTarget))
    (marshal_targets : List ShadowTarget → Text) (atoi : Text → Option ℕ) (new_id : ℕ → Text)
    (specs : Store) (named_rows : (i : ℕ) → is_empty (new_id i) ≡ false) where
  -- The tables after a run of `create` on filled rows.
  abbrev with_row : AuditTables → List AuditRow → AuditRow → AuditTables
  with_row tables rows row = record tables {
    audit_logs = rows ++ row ∷ [];
    next_id = suc tables.next_id;
  }

  module _ (tables : AuditTables) (input : CreateInput) (public_id now : Text)
      (named_id : is_empty (trim_space public_id) ≡ false) where
    abbrev row : AuditRow
    row = new_row tables.next_id input public_id (marshal_targets input.shadow_targets) now

    abbrev rows : List AuditRow
    rows = map (with_public_id new_id) tables.audit_logs

    row-filled : with_public_id new_id row ≡ row
    row-filled = rw (trimmed_not_empty public_id named_id) refl

    abbrev shown : AuditTables × Result Record
    shown =
        let later = with_row tables rows row in
        (later, found itoa unmarshal_targets new_id specs later (some row))

    create-shown :
        All (λ i. i < tables.next_id) (row_ids tables.audit_logs)
        → any (has_public_id public_id) rows ≡ false
        → create itoa unmarshal_targets new_id specs marshal_targets tables input public_id now
          ≡ shown
    unfolding create get_by_internal_id ensure_public_ids hydrate_record scan_record
    create-shown below fresh =
        let absent : any (λ (r : AuditRow). r.id == tables.next_id) rows ≡ false =
          sym (elem-row_ids tables.next_id rows)
          ∙ ap (elem tables.next_id) (row_ids-with_public_id new_id tables.audit_logs)
          ∙ not_elem_of_below tables.next_id _ below in
        rw
          (
            untaken new_id public_id tables.audit_logs (trimmed_not_empty public_id named_id) fresh,
            create,
            map-snoc (with_public_id new_id) tables.audit_logs row row-filled,
            find-snoc (λ r. r.id == tables.next_id) rows row absent (eq_refl tables.next_id),
          )
          refl

    get-shown :
        any (has_public_id public_id) rows ≡ false
        → get itoa unmarshal_targets new_id specs atoi (with_row tables rows row) public_id ≡ shown
    unfolding get get_by_internal_id ensure_public_ids hydrate_record scan_record
    get-shown fresh =
        let again : map (with_public_id new_id) (rows ++ row ∷ []) ≡ rows ++ row ∷ [] =
          map-snoc (with_public_id new_id) rows row row-filled
          ∙ ap (λ rs. rs ++ row ∷ []) (map-again new_id named_rows tables.audit_logs) in
        rw (get, again, find-snoc (has_public_id public_id) rows row fresh (eq_refl public_id))
          (ap
            (λ rs.
              let later = record tables { audit_logs = rs; next_id = suc tables.next_id } in
              (later, found itoa unmarshal_targets new_id specs later (some row)))
            again)

    scan-shown :
        unmarshal_targets (marshal_targets input.shadow_targets) ≡ some input.shadow_targets
        → let item = scan_record itoa unmarshal_targets row in
          (item.id ≡ public_id)
          × (input_of input.api_mock_id item ≡ input)
          × (item.api_mock_id ≡ nullable_string input.api_mock_id)
    unfolding scan_record
    scan-shown decoded = (
      rw (scan_record, named_id) refl,
      rw (scan_record, decoded, bool_value-one input.success) refl,
      present-nullable_string input.api_mock_id,
    )

  -- In consistent tables `create`, under a public id that is not blank and that no record has,
  -- succeeds, and `get` of the public id then gives the record that `create` gave. Its id is the
  -- public id. Its fields that the input has too, shadow targets and success included, are those of
  -- the input, but for the public id of the spec: that is the one of the input, or none if this is
  -- blank, or else the public id of a spec of the tables of specs. The decoder of the targets reads
  -- back what the encoder wrote of them, and no generated id is empty.
  pub get-create :
      (tables : AuditTables) (input : CreateInput) (public_id now : Text)
      → IsConsistent tables
      → unmarshal_targets (marshal_targets input.shadow_targets) ≡ some input.shadow_targets
      → is_empty (trim_space public_id) ≡ false
      → any (has_public_id public_id) (map (with_public_id new_id) tables.audit_logs) ≡ false
      → let run =
          create itoa unmarshal_targets new_id specs marshal_targets tables input public_id now in
        (get itoa unmarshal_targets new_id specs atoi run.0 public_id ≡ run)
        × (item : Record) × (run.1 ≡ ok item)
        × (item.id ≡ public_id)
        × (input_of input.api_mock_id item ≡ input)
        × ((item.api_mock_id ≡ nullable_string input.api_mock_id)
            ⊎ ((spec : StoredApi) × IsIn spec specs.apis × (item.api_mock_id ≡ some spec.id)))
  unfolding create get get_by_internal_id hydrate_record scan_record ensure_public_ids IsConsistent
  get-create tables input public_id now (below, _, _, _) decoded named_id fresh =
      let shown_item =
        hydrate_record itoa unmarshal_targets new_id specs
          (with_row tables (rows tables input public_id now named_id)
            (row tables input public_id now named_id))
          (scan_record itoa unmarshal_targets (row tables input public_id now named_id)) in
      let created = create-shown tables input public_id now named_id below fresh in
      let (same_id, same_input, same_spec) =
        scan-shown tables input public_id now named_id decoded in
      (
        ap (λ r. get itoa unmarshal_targets new_id specs atoi r.0 public_id) created
            ∙ get-shown tables input public_id now named_id fresh
            ∙ sym created,
        shown_item,
        ap (λ r. r.1) created,
        hydrate-same (λ item. item.id) (λ _ _. refl) (λ _ _. refl) (λ _ _. refl) specs _ ∙ same_id,
        hydrate-same (input_of input.api_mock_id) (λ _ _. refl) (λ _ _. refl) (λ _ _. refl) specs _
            ∙ same_input,
        subst (λ own. IsNamed specs own shown_item) same_spec (hydrate-IsNamed specs _),
      )
