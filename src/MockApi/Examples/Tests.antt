-- ===== src/MockApi/Examples/Tests.antt =====
-- Runs of the functions on response examples, and their theorems at concrete examples.
use tunnelgate.Prelude.{
  [], refl, ◌≡◌, ◌∷◌, ℕ, List, keep, ℕ_eq, if◌then◌else◌, true, Option, some, is_empty, ok,
}
use tunnelgate.Text.{bytes, Text, text_eq, trim_space, to_lower}
use tunnelgate.MockApi.Types.{ResponseExample}
use tunnelgate.MockApi.Examples.Normalize.{all_fresh, IsSelected, normalize_response_examples-ok}
use tunnelgate.MockApi.Examples.{
  normalize_response_examples, Normalized, default_examples, normalize_headers_json,
  normalize_response_body_type, merge_response_examples, valid_http_status,
}
use tunnelgate.MockApi.Examples.Put.{statuses, put_all}
use tunnelgate.MockApi.Examples.Merge.{merge_response_examples_lem}

abbrev example : ℕ → Text → ResponseExample
example status body = record {
  status = status;
  name = bytes "OK";
  body = body;
  body_type = bytes "json";
  response_headers = bytes "{}";
}

abbrev existing : List ResponseExample
existing = example 200 (bytes "a") ∷ example 299 (bytes "b") ∷ example 404 (bytes "c") ∷ []

abbrev incoming : List ResponseExample
incoming = example 404 (bytes "d") ∷ example 500 (bytes "e") ∷ []

merge_tests :
    merge_response_examples existing incoming
    ≡ example 200 (bytes "a") ∷ example 404 (bytes "d") ∷ example 500 (bytes "e") ∷ []
unfolding merge_response_examples
merge_tests = refl

merge_response_examples_lem_example :
    merge_response_examples existing incoming
    ≡ put_all (keep (λ (x : ResponseExample). valid_http_status x.status) existing) incoming
merge_response_examples_lem_example = merge_response_examples_lem existing incoming refl

abbrev unmarshal : Text → Option (List (Text × Text))
unmarshal s = some []

abbrev marshal : List (Text × Text) → Text
marshal fields = bytes "{}"

abbrev normalized : Normalized
normalized = record { examples = incoming; status = 500; body = bytes "e" }

incoming-normalized : normalize_response_examples unmarshal marshal incoming 500 ≡ ok normalized
unfolding normalize_response_examples normalize_headers_json normalize_response_body_type trim_space
    to_lower
incoming-normalized = refl

normalize_response_examples-ok_example :
    (statuses normalized.examples
      ≡ statuses (if is_empty incoming then default_examples else incoming))
    × (all_fresh [] (statuses normalized.examples) ≡ true)
    × IsSelected 500 normalized
normalize_response_examples-ok_example =
    normalize_response_examples-ok unmarshal marshal incoming 500 normalized incoming-normalized
