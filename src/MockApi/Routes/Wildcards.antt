-- ===== src/MockApi/Routes/Wildcards.antt =====
-- The keys of a route's wildcard segments.
use tunnelgate.Prelude.{true, List, [], ◌∷◌, ◌≡◌, ◌≢◌, ◌↔◌, arith, elem, ℕ_eq}
use tunnelgate.Text.{Text, text_eq, text_eq_iff}
use tunnelgate.MockApi.Routes.{
  wildcard_keys, wildcard_route_param_keys, comparable_route_path, split_route_segments,
}

wildcard_keys_iff :
    (key : Text) (segments : List Text)
    → (elem key (wildcard_keys segments) ≡ true)
      ↔ ((key ≢ []) × (elem (b':' ∷ key) segments ≡ true))
unfolding wildcard_keys
wildcard_keys_iff key [] = ground arith
wildcard_keys_iff key ([] ∷ segments) = ground (arith, wildcard_keys_iff key segments)
wildcard_keys_iff key ((c ∷ []) ∷ segments) =
    ground (arith, wildcard_keys_iff key segments, text_eq_iff [] key)
wildcard_keys_iff key ((c ∷ d ∷ s) ∷ segments) =
    ground (arith, wildcard_keys_iff key segments, text_eq_iff (d ∷ s) key)

-- The keys of a route path are the non-empty texts that stand behind a colon as one of the
-- segments of its normal form.
pub wildcard_route_param_keys_iff :
    (key path : Text)
    → (elem key (wildcard_route_param_keys path) ≡ true) ↔ (
        (key ≢ []) × (elem (b':' ∷ key) (split_route_segments (comparable_route_path path)) ≡ true))
unfolding wildcard_route_param_keys
wildcard_route_param_keys_iff key path =
    wildcard_keys_iff key (split_route_segments (comparable_route_path path))
