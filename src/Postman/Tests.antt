-- ===== src/Postman/Tests.antt =====
-- Runs of the parser of collections, and the theorems at concrete inputs.
use tunnelgate.Prelude.{
  refl, ◌+◌, ◌≡◌, ◌↔◌, ◌∷◌, ◌++◌, inr, true, false, Option, none, some, List, [], map, length, ℕ_eq,
  pos, negsuc, Result, ok, err,
}
use tunnelgate.Text.{
  bytes, Text, text_eq, has_prefix, contains, trim_space, to_lower, to_upper, equal_fold,
}
use mathlib.Core.Path.{subst}
use tunnelgate.Text.Sort.{text_leb, sort}
use tunnelgate.Json.{null, text}
use tunnelgate.Sanitize.{Patterns, control, payload}
use tunnelgate.Postman.Types.{
  ParsedDefinition, Request, Response, item, no_items, item_cons, Collection,
}
use tunnelgate.Postman.Comments.{outside, strip_json_line_comments}
use tunnelgate.Postman.Comments.Stripped.{IsPlain, strip_json_line_comments-IsPlain}
use tunnelgate.Postman.Paths.{
  ParsedUrl, normalize_path_on, normalize_path, extract_path, extract_request_param_keys,
}
use tunnelgate.Postman.Paths.Rooted.{Returns, normalize_path_on-Returns}
use tunnelgate.Postman.Bodies.{extract_request_body}
use tunnelgate.Postman.Collect.{
  Calls, examples_from, response_examples, collect_request, collect, collect_item, parse_collection,
}
use tunnelgate.Postman.Collect.Parsed.{AreParsed, parse_collection-AreParsed}

abbrev commented : Text
commented = bytes "{\"a\": \"//x\" // y" ++ 10 ∷ bytes "}"

abbrev url : ParsedUrl
url = record {
  scheme = bytes "http";
  escaped_path = bytes "/users";
  raw_query = bytes "page=1";
  query_keys = bytes "page" ∷ [];
}

abbrev parse : Text → Option ParsedUrl
parse source = some url

abbrev patterns : Patterns
patterns = record {
  without_control_chars = λ s. s;
  without_html_tags = λ s. s;
  high_risk_sql = (λ s. contains s (bytes "DROP TABLE")) ∷ [];
}

abbrev request : Request
request = record {
  method = bytes "get";
  url = record { raw = bytes "{{base}}/users/:id"; path = []; query = [] };
  body = record {
    mode = bytes "urlencoded";
    raw = [];
    url_encoded =
        record { key = bytes "b"; value = text (bytes "1"); type_name = []; disabled = false }
        ∷ record { key = bytes "a"; value = null; type_name = bytes "File"; disabled = false }
        ∷ [];
    form_data = [];
    graphql_query = [];
    graphql_variables = [];
    raw_language = [];
  };
}

abbrev responses : List Response
responses =
    record { name = bytes "fine"; code = pos 200; body = bytes "1" }
    ∷ record { name = []; code = negsuc 3; body = bytes "2" }
    ∷ record { name = []; code = pos 404; body = bytes "3" }
    ∷ []

abbrev collection : Collection
collection = record {
  name = bytes " Shop ";
  items = some (
      item_cons
        (item (bytes "Users")
          (item_cons (item (bytes "One") no_items (some request) responses) no_items) none [])
        no_items);
}

abbrev calls : Calls
calls = record {
  patterns = patterns;
  decode = λ source. ok collection;
  unmarshal = λ source. none;
  marshal = λ value. [];
  indent = λ value. [];
  parse_url = parse;
  itoa = λ n. (48 + n) ∷ [];
}

parsed : Result (List ParsedDefinition)
unfolding parse_collection collect
parsed = parse_collection calls []

definitions : List ParsedDefinition
unfolding parsed
definitions = elim parsed [ err message ↦ [] | ok ds ↦ ds ]

parse_tests :
    (strip_json_line_comments commented ≡ bytes "{\"a\": \"//x\" " ++ 10 ∷ bytes "}")
    × (normalize_path parse (bytes " {{base}}/users?x=1") ≡ bytes "/users?x=1")
    × (normalize_path parse (bytes "http://host/users?page=1") ≡ bytes "/users?page=1")
    × (map (λ (d : ParsedDefinition). d.route_path) definitions ≡ bytes "/users/:id" ∷ [])
    × (map (λ (d : ParsedDefinition). d.postman_folder_path) definitions
        ≡ (bytes "Users" ∷ []) ∷ [])
    × (map (λ (d : ParsedDefinition). d.request_body_keys) definitions
        ≡ (bytes "a" ∷ bytes "b" ∷ []) ∷ [])
    × (map (λ (d : ParsedDefinition). length d.response_examples) definitions ≡ 2 ∷ [])
unfolding strip_json_line_comments normalize_path definitions parsed parse_collection collect
    collect_item collect_request response_examples examples_from control payload extract_path
    extract_request_param_keys extract_request_body trim_space to_lower to_upper equal_fold sort
    text_leb
parse_tests = (refl, refl, refl, refl, refl, refl, refl)

strip_json_line_comments-IsPlain_example :
    IsPlain outside (strip_json_line_comments commented)
    × ((strip_json_line_comments commented ≡ commented) ↔ IsPlain outside commented)
strip_json_line_comments-IsPlain_example = strip_json_line_comments-IsPlain commented

normalize_path_on-Returns_example : Returns (normalize_path_on parse 2 (bytes "http://host/users"))
normalize_path_on-Returns_example =
    normalize_path_on-Returns parse
      (λ s p e full. inr (
        subst
          (λ (u : Option ParsedUrl). elim u [
            | none ↦ Unit
            | some v ↦ has_prefix v.escaped_path (b'/' ∷ []) ≡ true
          ])
          e refl))
      0 (bytes "http://host/users")

parsed_ok : parse_collection calls [] ≡ ok definitions
unfolding definitions parsed parse_collection collect collect_item collect_request response_examples
    examples_from control payload extract_path extract_request_param_keys extract_request_body
    trim_space to_lower to_upper equal_fold sort text_leb
parsed_ok = refl

parse_collection-AreParsed_example : AreParsed definitions
parse_collection-AreParsed_example = parse_collection-AreParsed calls [] parsed_ok
