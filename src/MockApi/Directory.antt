-- ===== src/MockApi/Directory.antt =====
-- The directory of the API specs: `directorySegments`, `nonEmptyOrRoot`, `normalizeDirectoryPath`,
-- `isDescendant`, and `uniqueTrimmed`, of backend/internal/features/api-specs/service.go.
pub mod Unique
pub mod Paths
mod Tests
use tunnelgate.Prelude.{
  ◌||◌, ◌∷◌, ◌==◌, if◌then◌else◌, Bool, true, false, not, List, [], ltb, length, is_empty, keep,
  ℕ_eq, list_eq, elem, Result, ok, err, ◌>>=◌,
}
use tunnelgate.Text.{bytes, Text, text_eq, trim_space, trim_left, trim_right, split, before}
use tunnelgate.MockApi.Types.{ApiRecord}

trim_into : List Text → List Text → List Text
trim_into seen [] = []
trim_into seen (value ∷ values) =
    let trimmed = trim_space value in
    if is_empty trimmed || elem trimmed seen
    then trim_into seen values
    else trimmed ∷ trim_into (trimmed ∷ seen) values

unfoldable pub unique_trimmed : List Text → List Text
unfolding trim_into
unique_trimmed values = trim_into [] values

abbrev or_root : List Text → List Text
or_root [] = bytes "Root" ∷ []
or_root (value ∷ values) = value ∷ values

unfoldable pub non_empty_or_root : List Text → List Text
non_empty_or_root values = or_root (keep (λ value. not (is_empty (trim_space value))) values)

abbrev drop_last : List Text → List Text
drop_last [] = []
drop_last (s ∷ []) = []
drop_last (s ∷ t ∷ rest) = s ∷ drop_last (t ∷ rest)

unfoldable pub directory_segments : ApiRecord → Text → List Text
directory_segments api mode =
    if mode == bytes "postman"
    then non_empty_or_root (api.collection_name ∷ api.postman_folder_path)
    else let path_only = before api.resolved_route_path b'?' in
      let segments = split (trim_left (trim_right path_only b'/') b'/') b'/' in
      if ltb 1 (length segments) then non_empty_or_root (drop_last segments) else bytes "Root" ∷ []

abbrev pub is_forbidden : Text → Bool
is_forbidden segment =
    segment == bytes "."
    || segment == bytes ".."
    || elem b'/' segment
    || elem 92 segment
    || elem 0 segment

unfoldable pub normalize_directory_path : List Text → Result (List Text)
normalize_directory_path [] = ok []
normalize_directory_path (value ∷ values) =
    let segment = trim_space value in
    let later = normalize_directory_path values in
    if is_empty segment
    then later
    else if is_forbidden segment
    then err (bytes "directory path must be absolute path segments without traversal")
    else later >>= λ rest. ok (segment ∷ rest)

-- The loop of `isDescendant`, over a path that is not longer than the segments.
same_start : List Text → List Text → Bool
same_start segments [] = true
same_start [] (segment ∷ path) = false
same_start (s ∷ segments) (segment ∷ path) =
    if s == segment then same_start segments path else false

unfoldable pub is_descendant : List Text → List Text → Bool
unfolding same_start
is_descendant segments path =
    if ltb (length segments) (length path) then false else same_start segments path
