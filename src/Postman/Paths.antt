-- ===== src/Postman/Paths.antt =====
-- Route paths and query keys of a collection: `normalizePath`, `extractPath` and
-- `ExtractRequestParamKeys` of backend/internal/postman/parser.go.
-- `parse_url` is `url.Parse` and gives the scheme, the escaped path, the raw query and the keys of
-- the query, in the order of one walk over them.
pub mod Rooted
use tunnelgate.Prelude.{
  ◌||◌, ◌∷◌, ◌++◌, if◌then◌else◌, ℕ, zero, suc, Option, none, some, List, [], drop, is_empty, ℕ_eq,
  list_eq, Result, ok, ◌>>=◌,
}
use tunnelgate.Text.{bytes, Text, text_eq, has_prefix, trim_space, join}
use tunnelgate.Text.Sort.{sort}
use tunnelgate.Postman.Types.{UrlValue, QueryString}

pub record ParsedUrl : Type 0 where
  pub scheme : Text
  pub escaped_path : Text
  pub raw_query : Text
  pub query_keys : List Text

-- `strings.Index`, as the text from the first occurrence on.
abbrev pub from_first : Text → Text → Option Text
from_first [] sub = none
from_first (c ∷ s) sub = if has_prefix (c ∷ s) sub then some (c ∷ s) else from_first s sub

abbrev slash : Text
slash = b'/' ∷ []

module _ (parse_url : Text → Option ParsedUrl) where
  -- The last two returns of `normalizePath`.
  abbrev from_slash : Text → Text
  from_slash trimmed = elim (from_first trimmed slash) [ some path ↦ path | none ↦ b'/' ∷ trimmed ]

  abbrev url_path : ParsedUrl → Text
  url_path parsed =
      let path = (if is_empty parsed.escaped_path then slash else parsed.escaped_path) in
      if is_empty parsed.raw_query then path else path ++ b'?' ∷ parsed.raw_query

  abbrev by_url : Text → Text
  by_url trimmed = elim (parse_url trimmed) [
    | none ↦ from_slash trimmed
    | some parsed ↦ if is_empty parsed.scheme then from_slash trimmed else url_path parsed
  ]

  -- `normalizePath` on fuel; `none` is a run that is out of it.
  unfoldable pub normalize_path_on : ℕ → Text → Option Text
  normalize_path_on zero value = none
  normalize_path_on (suc fuel) value =
      let trimmed = trim_space value in
      if is_empty trimmed
      then some slash
      else if has_prefix trimmed slash
      then some trimmed
      else elim (from_first trimmed (bytes "}}/")) [
        | some rest ↦ normalize_path_on fuel (drop 2 rest)
        | none ↦ some (by_url trimmed)
      ]

  abbrev or_empty : Option Text → Text
  or_empty none = []
  or_empty (some path) = path

  -- Two calls are enough, so that the value for no fuel is not reached.
  unfoldable pub normalize_path : Text → Text
  unfolding normalize_path_on
  normalize_path value = or_empty (normalize_path_on 2 value)

  unfoldable pub extract_path : UrlValue → Text
  unfolding normalize_path
  extract_path value =
      normalize_path (if is_empty value.path then value.raw else b'/' ∷ join value.path slash)

  module _ (control : Text → Text → Result Text) where
    abbrev cleaned_keys : List Text → Result (List Text)
    cleaned_keys [] = ok []
    cleaned_keys (key ∷ rest) = control key (bytes "Request query key") >>= λ cleaned.
        cleaned_keys rest >>= λ others. ok (cleaned ∷ others)

    abbrev given_keys : List QueryString → List Text
    given_keys [] = []
    given_keys (query ∷ queries) =
        if query.disabled || is_empty (trim_space query.key)
        then given_keys queries
        else trim_space query.key ∷ given_keys queries

    abbrev url_keys : Option ParsedUrl → Result (List Text)
    url_keys none = ok []
    url_keys (some parsed) = cleaned_keys parsed.query_keys >>= λ found. ok (sort found)

    unfoldable pub extract_request_param_keys : UrlValue → Result (List Text)
    unfolding normalize_path
    extract_request_param_keys value =
        if is_empty value.query
        then (if is_empty value.raw then ok [] else url_keys (parse_url (normalize_path value.raw)))
        else cleaned_keys (given_keys value.query) >>= λ found. ok (sort found)
