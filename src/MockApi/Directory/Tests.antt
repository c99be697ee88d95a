-- ===== src/MockApi/Directory/Tests.antt =====
-- Runs of the directory functions, and their theorems at concrete paths.
use tunnelgate.Prelude.{
  refl, ◌≡◌, ◌↔◌, ◌∷◌, ◌++◌, true, List, [], is_empty, All, ℕ_eq, ok, err, not, map, keep,
}
use tunnelgate.Text.{bytes, Text, text_eq, trim_space}
use tunnelgate.MockApi.Directory.{
  unique_trimmed, non_empty_or_root, normalize_directory_path, is_descendant,
}
use tunnelgate.MockApi.Directory.Paths.{
  IsPlainSegment, is_descendant_iff, normalize_directory_path-ok,
}

abbrev values : List Text
values = bytes " a" ∷ bytes "" ∷ bytes "a" ∷ bytes "b " ∷ []

directory_tests :
    (unique_trimmed values ≡ bytes "a" ∷ bytes "b" ∷ [])
    × (non_empty_or_root (bytes " " ∷ []) ≡ bytes "Root" ∷ [])
    × (normalize_directory_path (bytes "a" ∷ bytes ".." ∷ [])
        ≡ err (bytes "directory path must be absolute path segments without traversal"))
    × (is_descendant values (bytes " a" ∷ []) ≡ true)
unfolding unique_trimmed non_empty_or_root normalize_directory_path is_descendant trim_space
directory_tests = (refl, refl, refl, refl)

is_descendant_iff_example :
    (is_descendant values (bytes " a" ∷ []) ≡ true)
    ↔ ((rest : List Text) × (values ≡ (bytes " a" ∷ []) ++ rest))
is_descendant_iff_example = is_descendant_iff values (bytes " a" ∷ [])

normal : normalize_directory_path values ≡ ok (bytes "a" ∷ bytes "a" ∷ bytes "b" ∷ [])
unfolding normalize_directory_path trim_space
normal = refl

normalize_directory_path-ok_example :
    (bytes "a" ∷ bytes "a" ∷ bytes "b" ∷ [] ≡ keep (λ s. not (is_empty s)) (map trim_space values))
    × All IsPlainSegment (bytes "a" ∷ bytes "a" ∷ bytes "b" ∷ [])
normalize_directory_path-ok_example =
    normalize_directory_path-ok values (bytes "a" ∷ bytes "a" ∷ bytes "b" ∷ []) normal
