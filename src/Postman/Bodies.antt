-- ===== src/Postman/Bodies.antt =====
-- Request bodies of a collection: `ExtractRequestBody`, `ExtractRequestBodyExample` and what they
-- call, in backend/internal/postman/parser.go.
-- `unmarshal` is `json.Unmarshal` into an `any`, `none` where it fails; `marshal` is `json.Marshal`.
use tunnelgate.Prelude.{
  ◌&&◌, ◌||◌, ◌∷◌, ◌++◌, ◌==◌, if◌then◌else◌, Bool, true, false, not, Option, none, some, List, [],
  is_empty, ℕ_eq, elem,
}
use tunnelgate.Text.{bytes, Text, text_eq, trim_space, to_lower, equal_fold}
use tunnelgate.Text.Sort.{sort}
use tunnelgate.Json.{
  Value, null, boolean, number, text, array, object, raw, Items, nil, cons, Fields, end, field,
  keys,
}
use tunnelgate.Postman.Types.{BodyTypes, BodyEntry, RequestBody}
use tunnelgate.Postman.Comments.{strip_json_line_comments}

abbrev pub infer_value_type : Value → Text
infer_value_type null = bytes "null"
infer_value_type (array items) = bytes "array"
infer_value_type (object fields) = bytes "object"
infer_value_type (text s) = bytes "string"
infer_value_type (number n) = bytes "number"
infer_value_type (boolean b) = bytes "boolean"
infer_value_type (raw s) = bytes "string"

abbrev pub request_object_source : Value → Option Fields
request_object_source (object fields) = some fields
request_object_source (array (cons (object fields) items)) = some fields
request_object_source value = none

abbrev pub mode_of : RequestBody → Text
mode_of body = to_lower (trim_space body.mode)

abbrev pub is_skipped : BodyEntry → Bool
is_skipped entry = entry.disabled || is_empty (trim_space entry.key)

abbrev pub is_file : BodyEntry → Bool
is_file entry = equal_fold (trim_space entry.type_name) (bytes "file")

abbrev pub entry_type : BodyEntry → Text
entry_type entry = if is_file entry then bytes "file" else infer_value_type entry.value

-- The loop of `bodyEntryKeysAndTypes`.
abbrev pub entry_keys : List BodyEntry → List Text
entry_keys [] = []
entry_keys (entry ∷ entries) =
    if is_skipped entry then entry_keys entries else trim_space entry.key ∷ entry_keys entries

abbrev pub entry_types : BodyTypes → List BodyEntry → BodyTypes
entry_types types [] = types
entry_types types (entry ∷ entries) =
    if is_skipped entry
    then entry_types types entries
    else entry_types ((trim_space entry.key, entry_type entry) ∷ types) entries

abbrev pub body_entry_keys_and_types : List BodyEntry → List Text × BodyTypes
body_entry_keys_and_types entries = (sort (entry_keys entries), entry_types [] entries)

abbrev pub field_types : Fields → BodyTypes
field_types end = []
field_types (field key value rest) = (key, infer_value_type value) ∷ field_types rest

module _ (unmarshal : Text → Option Value) where
  abbrev pub parse_json_body : Text → Option Value
  parse_json_body value = elim (unmarshal value) [
    | some parsed ↦ some parsed
    | none ↦ unmarshal (strip_json_line_comments value)
  ]

  abbrev is_some : Option Value → Bool
  is_some none = false
  is_some (some value) = true

  abbrev pub is_json_raw_body : RequestBody → Bool
  is_json_raw_body body =
      let language = to_lower (trim_space body.raw_language) in
      if language == bytes "json"
      then true
      else if not (is_empty language) && not (language == bytes "raw")
      then false
      else is_some (parse_json_body body.raw)

  -- The branch of `ExtractRequestBody` for GraphQL.
  abbrev variables_type : Text → Text
  variables_type variables = elim (unmarshal variables) [
    | some parsed ↦ infer_value_type parsed
    | none ↦ bytes "string"
  ]

  abbrev graphql_body : RequestBody → List Text × BodyTypes
  graphql_body body =
      let has_query = not (is_empty (trim_space body.graphql_query)) in
      let has_variables = not (is_empty (trim_space body.graphql_variables)) in
      let query_keys = (if has_query then bytes "query" ∷ [] else []) in
      let variables_keys = (if has_variables then bytes "variables" ∷ [] else []) in
      let query_types = (if has_query then (bytes "query", bytes "string") ∷ [] else []) in
      (
        sort (query_keys ++ variables_keys),
        if has_variables
            then (bytes "variables", variables_type body.graphql_variables) ∷ query_types
            else query_types,
      )

  abbrev fields_of : Option Value → List Text × BodyTypes
  fields_of none = ([], [])
  fields_of (some parsed) = elim (request_object_source parsed) [
    | none ↦ ([], [])
    | some source ↦ (sort (keys source), field_types source)
  ]

  unfoldable pub extract_request_body : RequestBody → List Text × BodyTypes
  extract_request_body body =
      let mode = mode_of body in
      if mode == bytes "urlencoded"
      then body_entry_keys_and_types body.url_encoded
      else if mode == bytes "formdata"
      then body_entry_keys_and_types body.form_data
      else if mode == bytes "graphql"
      then graphql_body body
      else if is_empty (trim_space body.raw) || not (is_json_raw_body body)
      then ([], [])
      else fields_of (parse_json_body body.raw)

module _ (marshal : Value → Text) where
  abbrev pub stringify_body_entry_value : Value → Text
  stringify_body_entry_value null = []
  stringify_body_entry_value (text s) = s
  stringify_body_entry_value value = marshal value

  abbrev entry_row : Bool → BodyEntry → Value
  entry_row include_description entry =
      let described =
        (if include_description then field (bytes "description") (text []) end else end) in
      object (
        field (bytes "key") (text entry.key) (
          field (bytes "type") (text (entry_type entry))
            (field (bytes "value") (text (stringify_body_entry_value entry.value)) described)))

  abbrev entry_rows : Bool → List BodyEntry → Items
  entry_rows include_description [] = nil
  entry_rows include_description (entry ∷ entries) =
      if is_skipped entry
      then entry_rows include_description entries
      else cons (entry_row include_description entry) (entry_rows include_description entries)

  abbrev pub body_entries_json : List BodyEntry → Bool → Text
  body_entries_json entries include_description =
      marshal (array (entry_rows include_description entries))

  abbrev raw_type : Text → Text
  raw_type language =
      if elem language (bytes "xml" ∷ bytes "html" ∷ bytes "javascript" ∷ bytes "json" ∷ [])
      then language
      else bytes "text"

  unfoldable pub extract_request_body_example : RequestBody → Text × Text
  extract_request_body_example body =
      let mode = mode_of body in
      if mode == bytes "urlencoded"
      then (body_entries_json body.url_encoded false, bytes "x-www-form-urlencoded")
      else if mode == bytes "formdata"
      then (body_entries_json body.form_data true, bytes "form-data")
      else if mode == bytes "graphql"
      then (
        marshal (
            object (
              field (bytes "query") (text body.graphql_query) (
                field (bytes "variables") (text body.graphql_variables)
                  (field (bytes "autoFetch") (boolean false) end)))),
        bytes "graphql",
      )
      else if mode == bytes "raw"
      then (body.raw, raw_type (to_lower (trim_space body.raw_language)))
      else ([], bytes "none")
