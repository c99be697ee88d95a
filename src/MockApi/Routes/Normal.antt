-- ===== src/MockApi/Routes/Normal.antt =====
-- The normal form of a route path.
use tunnelgate.Prelude.{
  true, false, [], ◌∷◌, ◌++◌, ◌≡◌, refl, ◌⊎◌, inl, inr, arith, elem, ℕ_eq, Bool-cases, is_empty,
  if◌then◌else◌,
}
use tunnelgate.Text.{Text, before, trim_right, has_prefix, trim_space}
use tunnelgate.Text.Trim.{elem-trim_space}
use tunnelgate.Text.Split.{
  elem-before_self, before-append, elem-trim_right, trim_right_idempotent, has_prefix-trim_right,
}
use tunnelgate.MockApi.Routes.{root, comparable_route_path, route_paths_match}

-- A path that begins with a slash, holds no query and ends in a slash only if it is the root.
pub record IsNormal (path : Text) : Type 0 where
  pub rooted : has_prefix path root ≡ true
  pub bare : elem b'?' path ≡ false
  pub closed : (path ≡ root) ⊎ (trim_right path b'/' ≡ path)

-- The last steps of `comparable_route_path`, for a text that begins with a slash.
abbrev finish : Text → Text
finish rooted = let cut = trim_right rooted b'/' in if is_empty cut then root else cut

finish-IsNormal :
    (path : Text) → has_prefix path root ≡ true → elem b'?' path ≡ false → IsNormal (finish path)
finish-IsNormal path p q = elim (Bool-cases (is_empty (trim_right path b'/'))) [
  | inl e ↦ rw e (record { rooted = refl; bare = refl; closed = inl refl })
  | inr e ↦ rw e (record {
    rooted = ground (arith, has_prefix-trim_right path b'/' b'/' p);
    bare = elem-trim_right b'?' path b'/' q;
    closed = inr (trim_right_idempotent path b'/');
  })
]

-- `comparable_route_path` gives a normal path whatever it is given.
pub comparable_route_path-IsNormal : (path : Text) → IsNormal (comparable_route_path path)
unfolding comparable_route_path
comparable_route_path-IsNormal path = go (trim_space (before path b'?')) clean
  where
    clean : elem b'?' (trim_space (before path b'?')) ≡ false
    clean = elem-trim_space b'?' (before path b'?') (elem-before_self path b'?')

    go :
        (t : Text)
        → elem b'?' t ≡ false
        → IsNormal (if is_empty t then root else finish (if has_prefix t root then t else b'/' ∷ t))
    go [] h = record { rooted = refl; bare = refl; closed = inl refl }
    go (c ∷ t) h = elim (Bool-cases (has_prefix (c ∷ t) root)) [
      | inl e ↦ rw e (finish-IsNormal (c ∷ t) e h)
      | inr e ↦ rw e (finish-IsNormal (b'/' ∷ c ∷ t) refl h)
    ]

comparable_route_path-append_query :
    (path query : Text) → comparable_route_path (path ++ b'?' ∷ query) ≡ comparable_route_path path
unfolding comparable_route_path
comparable_route_path-append_query path query = rw (before-append path query b'?')

-- Queries do not count: appending one to either path leaves the answer as it is.
pub route_paths_match-append_query :
    (candidate requested q r : Text)
    → route_paths_match (candidate ++ b'?' ∷ q) (requested ++ b'?' ∷ r)
      ≡ route_paths_match candidate requested
unfolding route_paths_match
route_paths_match-append_query candidate requested q r =
    rw (
      comparable_route_path-append_query candidate q,
      comparable_route_path-append_query requested r,
    )
