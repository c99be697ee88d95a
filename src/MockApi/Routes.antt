-- ===== src/MockApi/Routes.antt =====
-- Route paths: the functions of backend/internal/features/api-specs/service.go from
-- `ResolveTemplateVariables` to the end.
pub mod Match
pub mod Normal
pub mod Wildcards
mod Tests
use tunnelgate.Prelude.{
  ℕ, Bool, true, false, not, ◌&&◌, ◌||◌, Option, none, some, List, [], ◌∷◌, ◌++◌, if◌then◌else◌,
  ltb, length, take, drop, is_empty, keep, elem, ◌==◌, ℕ_eq,
}
use tunnelgate.Text.{
  Text, bytes, text_eq, has_prefix, trim_prefix, replace_all, trim_space, trim_left, trim_right,
  split, before, contains,
}

-- The environment's variables in the order in which the map is walked.
abbrev pub Variables : Type 0
Variables = List (Text × Text)

unfoldable pub resolve_template_variables : Text → Variables → Text
resolve_template_variables template [] = template
resolve_template_variables template ((key, value) ∷ variables) =
    resolve_template_variables (replace_all template (bytes "{{" ++ key ++ bytes "}}") value)
      variables

abbrev root : Text
root = b'/' ∷ []

-- `strings.Split(routePath, "?")[0]` is the text before the first `?`.
unfoldable pub comparable_route_path : Text → Text
comparable_route_path route_path =
    let trimmed = trim_space (before route_path b'?') in
    if is_empty trimmed
    then root
    else let rooted = (if has_prefix trimmed root then trimmed else b'/' ∷ trimmed) in
      let cut = trim_right rooted b'/' in if is_empty cut then root else cut

-- `nil` is the empty list.
unfoldable pub split_route_segments : Text → List Text
split_route_segments route_path =
    if route_path == root then [] else split (trim_prefix route_path root) b'/'

abbrev pub is_wildcard : Text → Bool
is_wildcard segment = has_prefix segment (b':' ∷ [])

-- The loop of `RoutePathsMatch`, over two lists of one length.
unfoldable pub segments_match : List Text → List Text → Bool
segments_match [] requested = true
segments_match (segment ∷ candidate) [] = false
segments_match (segment ∷ candidate) (given ∷ requested) =
    if is_wildcard segment
    then (if is_empty given then false else segments_match candidate requested)
    else if segment == given
    then segments_match candidate requested
    else false

unfoldable pub route_paths_match : Text → Text → Bool
unfolding segments_match
route_paths_match candidate_route_path requested_route_path =
    let candidate = comparable_route_path candidate_route_path in
    let requested = comparable_route_path requested_route_path in
    let candidate_segments = split_route_segments candidate in
    let requested_segments = split_route_segments requested in
    if candidate == requested
    then true
    else if length candidate_segments == length requested_segments
    then segments_match candidate_segments requested_segments
    else false

-- The loop of `WildcardRouteParamKeys`.
wildcard_keys : List Text → List Text
wildcard_keys [] = []
wildcard_keys (segment ∷ segments) =
    if is_wildcard segment && ltb 1 (length segment)
    then drop 1 segment ∷ wildcard_keys segments
    else wildcard_keys segments

unfoldable pub wildcard_route_param_keys : Text → List Text
unfolding wildcard_keys
wildcard_route_param_keys route_path =
    wildcard_keys (split_route_segments (comparable_route_path route_path))
