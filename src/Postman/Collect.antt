-- ===== src/Postman/Collect.antt =====
-- The walk over a collection: `ParseCollection`, `collect` and `responseExamples` of
-- backend/internal/postman/parser.go. An error ends the walk, and the definitions that were found
-- before it are not returned.
pub mod Parsed
use tunnelgate.Prelude.{
  ◌+◌, ◌||◌, ◌∷◌, ◌++◌, if◌then◌else◌, ℕ, Bool, true, false, not, Option, none, some, List, [], ltb,
  is_empty, ℕ_eq, list_eq, elem, ℤ, pos, negsuc, Result, ok, err, ◌>>=◌,
}
use tunnelgate.Text.{bytes, Text, text_eq, trim_space, to_upper}
use tunnelgate.Json.{Value, text, object, end, field}
use tunnelgate.Sanitize.{Patterns, control, payload}
use tunnelgate.Postman.Types.{
  ParsedExample, ParsedDefinition, Response, Request, Item, item, ItemList, no_items, item_cons,
  Collection,
}
use tunnelgate.Postman.Bodies.{extract_request_body, extract_request_body_example}
use tunnelgate.Postman.Paths.{ParsedUrl, extract_path, extract_request_param_keys}

-- What the parser calls: the regular expressions, encoding/json, net/url and strconv. `decode` reads
-- a collection, and `indent` is `json.MarshalIndent`.
pub record Calls : Type 0 where
  pub patterns : Patterns
  pub decode : Text → Result Collection
  pub unmarshal : Text → Option Value
  pub marshal : Value → Text
  pub indent : Value → Text
  pub parse_url : Text → Option ParsedUrl
  pub itoa : ℕ → Text

abbrev pub clamp_status : ℤ → ℕ
clamp_status (pos n) = if ltb n 100 || ltb 599 n then 200 else n
clamp_status (negsuc n) = 200

abbrev pub has_items : ItemList → Bool
has_items no_items = false
has_items (item_cons first rest) = true

abbrev pub or_method_and_path : Text → Text → Text → Text
or_method_and_path method route_path route_name =
    if is_empty route_name then method ++ b' ' ∷ route_path else route_name

abbrev pub inside : List Text → Text → List Text
inside folders folder_name = if is_empty folder_name then folders else folders ++ folder_name ∷ []

abbrev pub or_imported_collection : Text → Text
or_imported_collection name = if is_empty name then bytes "Imported Collection" else name

abbrev pub at_least_one : List ParsedDefinition → Result (List ParsedDefinition)
at_least_one [] = err (bytes "No request items were found in the uploaded collection")
at_least_one (definition ∷ definitions) = ok (definition ∷ definitions)

module _ (calls : Calls) where
  abbrev pub example_name : ℕ → Text → Text
  example_name index name =
      let trimmed = trim_space name in
      if is_empty trimmed then bytes "Example " ++ calls.itoa (index + 1) else trimmed

  -- The loop of `responseExamples`; `index` is that of the response, and `seen` are the statuses
  -- that were met.
  unfoldable pub examples_from : ℕ → List ℕ → List Response → Result (List ParsedExample)
  examples_from index seen [] = ok []
  examples_from index seen (response ∷ responses) =
      let status = clamp_status response.code in
      let name = example_name index response.name in
      let known = elem status seen in
      let later = examples_from (index + 1) (if known then seen else status ∷ seen) responses in
      if known
      then later
      else control calls.patterns name (bytes "Response example name") >>= λ clean_name.
          payload calls.patterns response.body (bytes "Response example body") >>= λ body.
          later >>= λ examples.
          ok (record { status = status; name = clean_name; body = body } ∷ examples)

  abbrev pub generated : Text → Text → Text → ParsedExample
  generated item_name method route_path = record {
    status = 200;
    name = bytes "Generated 200 response";
    body = calls.indent (
        object (
          field (bytes "message") (text (bytes "Mock response generated from imported collection"))
            (field (bytes "routeName") (text item_name) (
              field (bytes "method") (text method) (field (bytes "path") (text route_path) end)))));
  }

  -- The first example and the others.
  abbrev pub or_generated :
      Text → Text → Text → List ParsedExample → ParsedExample × List ParsedExample
  or_generated item_name method route_path [] = (generated item_name method route_path, [])
  or_generated item_name method route_path (example ∷ examples) = (example, examples)

  unfoldable pub response_examples :
      Text → List Response → Text → Text → Result (ParsedExample × List ParsedExample)
  unfolding examples_from
  response_examples item_name responses method route_path =
      examples_from 0 [] responses >>= λ examples.
      ok (or_generated item_name method route_path examples)

  abbrev pub definition_of :
      Text
      → List Text
      → Text
      → Text
      → Text
      → Request
      → ParsedExample × List ParsedExample
      → List Text
      → ParsedDefinition
  definition_of collection_name folders method route_path route_name request examples param_keys =
      record {
        collection_name = collection_name;
        route_name = or_method_and_path method route_path route_name;
        postman_folder_path = folders;
        method = method;
        route_path = route_path;
        response_status = examples.0.status;
        response_body = examples.0.body;
        response_examples = examples.0 ∷ examples.1;
        request_body_raw = (extract_request_body_example calls.marshal request.body).0;
        request_body_type = (extract_request_body_example calls.marshal request.body).1;
        request_body_keys = (extract_request_body calls.unmarshal request.body).0;
        request_body_types = (extract_request_body calls.unmarshal request.body).1;
        request_param_keys = param_keys;
      }

  -- The part of `collect` for an item that is a request.
  unfoldable pub collect_request :
      Text → List Text → Text → Request → List Response → Result ParsedDefinition
  unfolding response_examples
  collect_request collection_name folders item_name request responses =
      control calls.patterns request.method (bytes "HTTP method") >>= λ cleaned.
      let method = to_upper cleaned in
      control calls.patterns (extract_path calls.parse_url request.url) (bytes "Route path")
      >>= λ route_path.
          control calls.patterns (trim_space item_name) (bytes "Route name") >>= λ route_name.
          response_examples item_name responses method route_path >>= λ examples.
          extract_request_param_keys calls.parse_url (control calls.patterns) request.url
          >>= λ param_keys. ok (
              definition_of collection_name folders method route_path route_name request examples
                param_keys)

  -- An item that is no folder: without a request or a method it gives nothing.
  abbrev pub collect_leaf :
      Text → List Text → Text → Option Request → List Response → Result (List ParsedDefinition)
  collect_leaf collection_name folders item_name none responses = ok []
  collect_leaf collection_name folders item_name (some request) responses =
      if is_empty (trim_space request.method)
      then ok []
      else collect_request collection_name folders item_name request responses >>= λ definition.
          ok (definition ∷ [])

  unfoldable mutual
    unfolding collect_request

    pub collect_item : Text → List Text → Item → Result (List ParsedDefinition)
    collect_item collection_name folders (item name children request responses) =
        if has_items children
        then control calls.patterns (trim_space name) (bytes "Collection folder name")
          >>= (λ folder_name. collect collection_name (inside folders folder_name) children)
        else collect_leaf collection_name folders name request responses

    pub collect : Text → List Text → ItemList → Result (List ParsedDefinition)
    collect collection_name folders no_items = ok []
    collect collection_name folders (item_cons first rest) =
        collect_item collection_name folders first >>= λ definitions.
        collect collection_name folders rest >>= λ others. ok (definitions ++ others)

  abbrev pub parse_items : Collection → Option ItemList → Result (List ParsedDefinition)
  parse_items collection none = err (bytes "Uploaded file is not a valid collection")
  parse_items collection (some items) =
      control calls.patterns (trim_space collection.name) (bytes "Collection name") >>= λ cleaned.
      collect (or_imported_collection cleaned) [] items >>= at_least_one

  unfoldable pub parse_collection : Text → Result (List ParsedDefinition)
  unfolding collect
  parse_collection source =
      calls.decode source >>= λ collection. parse_items collection collection.items
