-- ===== src/OpenApi/Import.antt =====
-- The import of an OpenAPI spec: `parseOpenAPISpec` of
-- backend/internal/features/api-specs/spec_transform.go. A run in which `sampleForSchema` is out of
-- fuel ends with the error `stuck`, which no run of the code gives. Maps are in the order of one walk
-- over them; `sort.Slice` may put keys of the same status in any order, and keeps that one here.
pub mod Methods
pub mod Examples
pub mod Imported
use tunnelgate.Prelude.{
  ◌&&◌, ◌∷◌, ◌++◌, ◌==◌, if◌then◌else◌, ℕ, Bool, true, false, not, Option, none, some, List, [],
  map, ltb, leb, is_empty, keep, ℕ_eq, list_eq, elem, ℤ, pos, negsuc, Result, ok, err, ◌>>=◌,
}
use tunnelgate.Text.{bytes, Text, text_eq, trim_space, to_lower, to_upper, equal_fold}
use tunnelgate.Text.Sort.{text_leb, sort}
use tunnelgate.Json.{Value, text, object, end, field}
use tunnelgate.Sanitize.{Patterns, control, payload}
use tunnelgate.MockApi.Types.{ResponseExample, Definition}
use tunnelgate.OpenApi.Schemas.{Spec}
use tunnelgate.OpenApi.Paths.{open_api_path_to_route_path}
use tunnelgate.OpenApi.Operations.{
  Parameter, ApiResponse, Operation, sorted_entries, entry_at, preferred_media_type,
  open_api_request_body_keys, open_api_request_body_example, media_example_body,
}

-- What the import calls: the regular expressions, `json.MarshalIndent` and strconv.
pub record Calls : Type 0 where
  pub patterns : Patterns
  pub indent : Value → Option Text
  pub atoi : Text → Option ℤ
  pub itoa : ℕ → Text

-- What `yaml.Unmarshal` reads; `paths` may be nil.
pub record Document : Type 0 where
  pub openapi : Text
  pub swagger : Text
  pub title : Text
  pub paths : Option (List (Text × List (Text × Operation)))
  pub spec : Spec

abbrev pub stuck : Text
stuck = bytes "out of fuel"

abbrev pub returned {ℓ} : {A : Type ℓ} → Option A → Result A
returned none = err stuck
returned (some value) = ok value

abbrev pub open_api_http_methods : List Text
open_api_http_methods =
    bytes "delete"
    ∷ bytes "get"
    ∷ bytes "head"
    ∷ bytes "options"
    ∷ bytes "patch"
    ∷ bytes "post"
    ∷ bytes "put"
    ∷ bytes "trace"
    ∷ []

-- The keys of the methods in lower case, whatever case they have in the spec.
unfoldable pub sorted_open_api_methods : List (Text × Operation) → List Text
unfolding to_lower
sorted_open_api_methods methods =
    sort
      (keep (λ method. elem method open_api_http_methods) (map (λ entry. to_lower entry.0) methods))

-- The operation that a map of Go gives under a key that it does not have.
abbrev pub zero_operation : Operation
zero_operation = record {
  operation_id = [];
  summary = [];
  tags = [];
  parameters = [];
  request_body = none;
  responses = [];
}

unfoldable pub operation_at : Text → List (Text × Operation) → Operation
operation_at method methods = elim (entry_at method methods) [
  | none ↦ zero_operation
  | some operation ↦ operation
]

-- The part of `parseResponseStatus` behind `strconv.Atoi`.
abbrev pub in_range : Option ℤ → Option ℕ
in_range none = none
in_range (some (negsuc n)) = none
in_range (some (pos n)) = if leb 100 n && leb n 599 then some n else none

module _ (calls : Calls) where
  unfoldable pub parse_response_status : Text → Option ℕ
  parse_response_status value =
      if equal_fold value (bytes "default") then some 200 else in_range (calls.atoi value)

  -- The order of `sortedResponseStatuses`.
  abbrev pub comes_first : Text → Text → Bool
  comes_first left right = elim (parse_response_status left) [
    | some m ↦ elim (parse_response_status right) [ some n ↦ ltb m n | none ↦ true ]
    | none ↦ elim (parse_response_status right) [
      | some n ↦ false
      | none ↦ not (text_leb right left)
    ]
  ]

  abbrev pub insert_response :
      Text × ApiResponse → List (Text × ApiResponse) → List (Text × ApiResponse)
  insert_response entry [] = entry ∷ []
  insert_response entry (e ∷ entries) =
      if comes_first e.0 entry.0 then e ∷ insert_response entry entries else entry ∷ e ∷ entries

  unfoldable pub sorted_responses : List (Text × ApiResponse) → List (Text × ApiResponse)
  unfolding parse_response_status
  sorted_responses [] = []
  sorted_responses (entry ∷ entries) = insert_response entry (sorted_responses entries)

  unfoldable pub open_api_param_keys : List Parameter → Result (List Text)
  unfolding control
  open_api_param_keys [] = ok []
  open_api_param_keys (parameter ∷ parameters) =
      let later = open_api_param_keys parameters in
      let location = to_lower (trim_space parameter.location) in
      let key = trim_space parameter.name in
      if not (location == bytes "query") && not (location == bytes "path")
      then later
      else if is_empty key
      then later
      else control calls.patterns key (bytes "Request parameter key") >>= λ cleaned.
          later >>= λ keys. ok (cleaned ∷ keys)

  unfoldable pub clean_string_slice : List Text → List Text
  unfolding control
  clean_string_slice [] = []
  clean_string_slice (value ∷ values) =
      let rest = clean_string_slice values in
      elim (control calls.patterns (trim_space value) (bytes "Tag")) [
        | err message ↦ rest
        | ok cleaned ↦ if is_empty cleaned then rest else cleaned ∷ rest
      ]

  module _ (fuel : ℕ) where
    abbrev pub response_text : Spec → ApiResponse → Result Text
    response_text spec response = elim (preferred_media_type response.content) [
      | none ↦ ok (bytes "{}")
      | some media ↦ returned (media_example_body calls.indent spec fuel media)
    ]

    abbrev pub response_name : ℕ → Text → Text
    response_name status description =
        let name = trim_space description in
        if is_empty name then bytes "Response " ++ calls.itoa status else name

    abbrev pub json_example : ℕ → Text → Text → ResponseExample
    json_example status name body = record {
      status = status;
      name = name;
      body = body;
      body_type = bytes "json";
      response_headers = bytes "{}";
    }

    abbrev pub response_example : Spec → ℕ → ApiResponse → Result ResponseExample
    response_example spec status response = response_text spec response >>= λ body.
        control calls.patterns (response_name status response.description)
          (bytes "Response example name")
        >>= λ clean_name.
            payload calls.patterns body (bytes "Response example body") >>= λ clean_body.
            ok (json_example status clean_name clean_body)

    -- The loop of `openAPIResponseExamples`; `seen` are the statuses that were met.
    unfoldable pub examples_from :
        Spec → List ℕ → List (Text × ApiResponse) → Result (List ResponseExample)
    unfolding parse_response_status control payload media_example_body
    examples_from spec seen [] = ok []
    examples_from spec seen ((key, response) ∷ responses) = elim (parse_response_status key) [
      | none ↦ examples_from spec seen responses
      | some status ↦
          let later =
            examples_from spec (if elem status seen then seen else status ∷ seen) responses in
          if elem status seen
          then later
          else response_example spec status response >>= λ example.
              later >>= λ examples. ok (example ∷ examples)
    ]

    abbrev pub generated_body : Text → Text → Text
    generated_body method route_path =
        elim (calls.indent (
          object (
            field (bytes "message")
              (text (bytes "Mock response generated from imported Swagger spec"))
              (field (bytes "method") (text method)
                (field (bytes "path") (text route_path) end))))) [ none ↦ [] | some body ↦ body ]

    -- The first example and the others.
    abbrev pub or_generated :
        Text → Text → List ResponseExample → ResponseExample × List ResponseExample
    or_generated method route_path [] =
        (json_example 200 (bytes "Generated 200 response") (generated_body method route_path), [])
    or_generated method route_path (example ∷ examples) = (example, examples)

    unfoldable pub open_api_response_examples :
        Spec → Operation → Text → Text → Result (ResponseExample × List ResponseExample)
    unfolding examples_from sorted_responses
    open_api_response_examples spec operation method route_path =
        examples_from spec [] (sorted_responses operation.responses) >>= λ examples.
        ok (or_generated method route_path examples)

    abbrev pub route_name_of : Operation → Text → Text → Text
    route_name_of operation method route_path =
        let summary = trim_space operation.summary in
        let operation_id = trim_space operation.operation_id in
        if not (is_empty summary)
        then summary
        else if not (is_empty operation_id)
        then operation_id
        else to_upper method ++ bytes " " ++ route_path

    unfoldable pub open_api_operation_to_definition :
        Spec → Text → Text → Text → Operation → Result Definition
    unfolding control open_api_path_to_route_path open_api_request_body_keys
        open_api_request_body_example open_api_param_keys open_api_response_examples
        clean_string_slice
    open_api_operation_to_definition spec spec_name path method operation =
        control calls.patterns (open_api_path_to_route_path path) (bytes "Route path")
        >>= λ route_path.
            control calls.patterns (route_name_of operation method route_path) (bytes "Route name")
            >>= λ route_name.
                returned (open_api_request_body_keys spec fuel operation) >>= λ request_keys.
                returned (open_api_request_body_example calls.indent spec fuel operation)
                >>= λ request_body. open_api_param_keys operation.parameters >>= λ param_keys.
                    open_api_response_examples spec operation (to_upper method) route_path
                    >>= λ examples. ok (record {
                      collection_name = spec_name;
                      route_name = route_name;
                      postman_folder_path = clean_string_slice operation.tags;
                      method = to_upper method;
                      route_path = route_path;
                      response_status = examples.0.status;
                      response_body = examples.0.body;
                      response_body_type = examples.0.body_type;
                      request_headers = [];
                      response_headers = [];
                      response_examples = examples.0 ∷ examples.1;
                      request_body_raw = request_body.0;
                      request_body_type = request_body.1;
                      request_body_keys = request_keys.0;
                      request_body_types = request_keys.1;
                      request_param_keys = sort param_keys;
                      request_param_types = [];
                    })

    -- The loop of `parseOpenAPISpec` over the methods of one path.
    unfoldable pub import_methods :
        Spec → Text → Text → List (Text × Operation) → List Text → Result (List Definition)
    unfolding open_api_operation_to_definition operation_at
    import_methods spec spec_name path methods [] = ok []
    import_methods spec spec_name path methods (method ∷ rest) =
        open_api_operation_to_definition spec spec_name path method (operation_at method methods)
        >>= λ definition. import_methods spec spec_name path methods rest >>= λ definitions.
            ok (definition ∷ definitions)

    -- The loop over the paths.
    unfoldable pub import_paths :
        Spec → Text → List (Text × List (Text × Operation)) → Result (List Definition)
    unfolding import_methods sorted_open_api_methods
    import_paths spec spec_name [] = ok []
    import_paths spec spec_name ((path, methods) ∷ paths) =
        import_methods spec spec_name path methods (sorted_open_api_methods methods)
        >>= λ definitions. import_paths spec spec_name paths >>= λ rest. ok (definitions ++ rest)

    abbrev pub at_least_one : Text → List Definition → Result (List Definition × Text)
    at_least_one spec_name [] =
        err (bytes "No request operations were found in the uploaded Swagger/OpenAPI spec")
    at_least_one spec_name (definition ∷ definitions) = ok (definition ∷ definitions, spec_name)

    abbrev pub not_a_spec : Text
    not_a_spec = bytes "Uploaded file is not a valid Swagger/OpenAPI spec"

    -- `decoded` is what `yaml.Unmarshal` gives for the file.
    unfoldable pub parse_open_api_spec : Result Document → Result (List Definition × Text)
    unfolding control import_paths
    parse_open_api_spec decoded = decoded >>= λ document. elim document.paths [
      | none ↦ err not_a_spec
      | some paths ↦
          if is_empty (trim_space document.openapi) && is_empty (trim_space document.swagger)
          then err not_a_spec
          else control calls.patterns (trim_space document.title) (bytes "Swagger title")
            >>= λ title.
                let spec_name = (if is_empty title then bytes "Imported Swagger" else title) in
                import_paths document.spec spec_name (sorted_entries paths) >>= λ definitions.
                at_least_one spec_name definitions
    ]
