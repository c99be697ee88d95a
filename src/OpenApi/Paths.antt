-- ===== src/OpenApi/Paths.antt =====
-- Paths of OpenAPI and route paths: `openAPIPathToRoutePath` and `routePathToOpenAPIPath` of
-- backend/internal/features/api-specs/spec_transform.go.
pub mod Converted
use tunnelgate.Prelude.{
  ◌+◌, ◌&&◌, ◌∷◌, ◌++◌, ◌==◌, if◌then◌else◌, ℕ, zero, suc, Bool, true, false, not, Option, none,
  some, [], map, ltb, length, drop, is_empty, ℕ_eq, list_eq,
}
use tunnelgate.Text.{Text, text_eq, has_prefix, trim_space, before, join}
use tunnelgate.MockApi.Routes.{split_route_segments, is_wildcard}

-- The name of a parameter, if the text goes on as `[^}/]+` and `}`; `so_far` is
-- whether a byte of the name was read.
abbrev pub param_name : Bool → Text → Option Text
param_name so_far [] = none
param_name so_far (c ∷ s) =
    if c == b'}'
    then (if so_far then some [] else none)
    else if c == b'/'
    then none
    else elim (param_name true s) [ none ↦ none | some name ↦ some (c ∷ name) ]

-- `openAPIPathParameterPattern.ReplaceAllString(path, ":$1")`: `\{([^}/]+)\}` is looked for from
-- left to right, and `skip` bytes of a match are still to be passed over.
abbrev pub replace_params : ℕ → Text → Text
replace_params skip [] = []
replace_params zero (c ∷ s) =
    let rest = replace_params 0 s in
    if c == b'{'
    then elim (param_name false s) [
      | none ↦ c ∷ rest
      | some name ↦ (b':' ∷ name) ++ replace_params (length name + 1) s
    ]
    else c ∷ rest
replace_params (suc skip) (c ∷ s) = replace_params skip s

abbrev pub slash : Text
slash = b'/' ∷ []

unfoldable pub open_api_path_to_route_path : Text → Text
open_api_path_to_route_path path =
    let converted = replace_params 0 path in
    if is_empty (trim_space converted)
    then slash
    else if has_prefix converted slash
    then converted
    else b'/' ∷ converted

-- The loop of `routePathToOpenAPIPath`.
abbrev pub braced : Text → Text
braced segment =
    if is_wildcard segment && ltb 1 (length segment)
    then b'{' ∷ drop 1 segment ++ b'}' ∷ []
    else segment

unfoldable pub route_path_to_open_api_path : Text → Text
unfolding split_route_segments
route_path_to_open_api_path path =
    let path_only = before path b'?' in
    let converted = b'/' ∷ join (map braced (split_route_segments path_only)) slash in
    if converted == slash && not (path_only == slash) then path_only else converted
