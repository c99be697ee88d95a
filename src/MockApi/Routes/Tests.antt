-- ===== src/MockApi/Routes/Tests.antt =====
-- Runs of the functions on route paths, and the theorems at concrete paths.
use tunnelgate.Prelude.{[], ◌∷◌, ◌≡◌, refl, true, false, ◌≢◌, ◌↔◌, ℕ_eq, elem}
use tunnelgate.Text.{bytes, trim_space, replace_all, text_eq}
use tunnelgate.MockApi.Routes.Match.{Matches, route_paths_match_iff}
use tunnelgate.MockApi.Routes.Wildcards.{wildcard_route_param_keys_iff}
use tunnelgate.MockApi.Routes.{
  resolve_template_variables, comparable_route_path, route_paths_match, wildcard_route_param_keys,
  split_route_segments,
}

route_tests :
    (route_paths_match (bytes "/users/:id") (bytes "users/42/?x=1") ≡ true)
    × (route_paths_match (bytes "/users/:id") (bytes "/users//") ≡ false)
    × (wildcard_route_param_keys (bytes "/a/:id/:/:name") ≡ bytes "id" ∷ bytes "name" ∷ [])
    × (resolve_template_variables (bytes "/{{v}}/a") ((bytes "v", bytes "api") ∷ [])
        ≡ bytes "/api/a")
unfolding resolve_template_variables comparable_route_path route_paths_match
    wildcard_route_param_keys split_route_segments trim_space replace_all
route_tests = (refl, refl, refl, refl)

route_paths_match_iff_example :
    (route_paths_match (bytes "/users/:id") (bytes "users/42/?x=1") ≡ true)
    ↔ Matches
        (comparable_route_path (bytes "/users/:id"))
        (comparable_route_path (bytes "users/42/?x=1"))
route_paths_match_iff_example = route_paths_match_iff (bytes "/users/:id") (bytes "users/42/?x=1")

wildcard_route_param_keys_iff_example :
    (elem (bytes "id") (wildcard_route_param_keys (bytes "/users/:id")) ≡ true) ↔ (
      (bytes "id" ≢ [])
      × (elem
            (b':' ∷ bytes "id")
            (split_route_segments (comparable_route_path (bytes "/users/:id")))
          ≡ true))
wildcard_route_param_keys_iff_example =
    wildcard_route_param_keys_iff (bytes "id") (bytes "/users/:id")
